-- ===== src/Dialogue/Catalog/Large.antt =====
-- python/prepare_repeated_dialogue_curriculum.py: the relations that the large curriculum adds.
use bit_net.Base.{List, [], ◌∷◌, ◌++◌}
use bit_net.Dialogue.Catalog.{RelationSpec, relation_spec}

-- `LARGE_RELATION_SPECS`, a part of it
abbrev pub large_relation_specs_first : List RelationSpec
large_relation_specs_first =
    relation_spec "medical appointment"
      ("a dental checkup" ∷ "an eye exam" ∷ "a physical therapy visit" ∷ "a routine screening" ∷ [])
      ("healthcare visit" ∷ "doctor appointment" ∷ "medical visit" ∷ [])
      ("What medical appointment does {speaker} have?"
        ∷ "Which healthcare visit did {speaker} schedule?" ∷ [])
    ∷ relation_spec "medication schedule"
        ("once after breakfast" ∷ "twice each day" ∷ "every other evening" ∷ "before going to sleep"
          ∷ [])
        ("medicine routine" ∷ "dose schedule" ∷ "medication timing" ∷ [])
        ("What medication schedule does {speaker} follow?"
          ∷ "When does {speaker} take the medicine?" ∷ [])
    ∷ relation_spec "allergy information"
        ("a pollen allergy" ∷ "a shellfish allergy" ∷ "a latex allergy" ∷ "a dust allergy" ∷ [])
        ("allergy detail" ∷ "known allergy" ∷ "allergic condition" ∷ [])
        ("What allergy has {speaker} mentioned?" ∷ "Which allergic condition affects {speaker}?"
          ∷ [])
    ∷ relation_spec "household chore"
        ("washing the dishes" ∷ "taking out recycling" ∷ "vacuuming the rooms" ∷ "doing the laundry"
          ∷ [])
        ("home duty" ∷ "domestic task" ∷ "household responsibility" ∷ [])
        ("Which household chore does {speaker} handle?" ∷ "What home task belongs to {speaker}?"
          ∷ [])
    ∷ relation_spec "childcare plan"
        ("an after-school sitter" ∷ "a shared pickup schedule" ∷ "a weekend playgroup"
          ∷ "a summer day camp" ∷ [])
        ("care arrangement" ∷ "child-minding plan" ∷ "planned childcare" ∷ [])
        ("What childcare plan did {speaker} choose?" ∷ "Which care arrangement works for {speaker}?"
          ∷ [])
    ∷ relation_spec "commute duration"
        ("twenty minutes" ∷ "about half an hour" ∷ "forty-five minutes" ∷ "just over an hour" ∷ [])
        ("travel time to work" ∷ "commuting time" ∷ "length of the commute" ∷ [])
        ("How long is {speaker}'s commute?" ∷ "What travel time does {speaker} expect for work?"
          ∷ [])
    ∷ relation_spec "work location"
        ("the downtown office" ∷ "a home workspace" ∷ "the west-side studio" ∷ "a shared workshop"
          ∷ [])
        ("job location" ∷ "place of work" ∷ "working location" ∷ [])
        ("Where is {speaker} currently working?" ∷ "What work location does {speaker} use?" ∷ [])
    ∷ relation_spec "project deadline"
        ("the end of March" ∷ "next Friday" ∷ "the first week of June" ∷ "mid-October" ∷ [])
        ("due date" ∷ "delivery deadline" ∷ "project due time" ∷ [])
        ("When is {speaker}'s project due?" ∷ "What deadline is {speaker} working toward?" ∷ [])
    ∷ relation_spec "meeting frequency"
        ("every Monday" ∷ "twice a month" ∷ "once each quarter" ∷ "every other week" ∷ [])
        ("meeting cadence" ∷ "session frequency" ∷ "how often the group meets" ∷ [])
        ("How often does {speaker}'s group meet?" ∷ "What meeting frequency did {speaker} choose?"
          ∷ [])
    ∷ relation_spec "communication preference"
        ("short written updates" ∷ "a weekly phone call" ∷ "in-person conversations"
          ∷ "voice messages" ∷ [])
        ("preferred communication" ∷ "conversation style" ∷ "way of communicating" ∷ [])
        ("How does {speaker} prefer to communicate?" ∷ "What communication style suits {speaker}?"
          ∷ [])
    ∷ relation_spec "notification setting"
        ("important alerts only" ∷ "a daily summary" ∷ "all notifications muted"
          ∷ "real-time updates" ∷ [])
        ("alert setting" ∷ "notification preference" ∷ "message alert mode" ∷ [])
        ("What notification setting does {speaker} use?"
          ∷ "Which alerts does {speaker} want to receive?" ∷ [])
    ∷ relation_spec "device preference"
        ("a compact laptop" ∷ "a large tablet" ∷ "a desktop workstation" ∷ "a small e-reader" ∷ [])
        ("preferred device" ∷ "hardware choice" ∷ "computing device preference" ∷ [])
        ("Which device does {speaker} prefer?" ∷ "What hardware is {speaker}'s current choice?"
          ∷ [])
    ∷ relation_spec "internet service"
        ("fiber broadband" ∷ "a mobile hotspot" ∷ "cable internet" ∷ "fixed wireless service" ∷ [])
        ("network service" ∷ "internet connection" ∷ "broadband choice" ∷ [])
        ("What internet service does {speaker} use?"
          ∷ "Which network connection did {speaker} choose?" ∷ [])
    ∷ relation_spec "payment method"
        ("a debit card" ∷ "a bank transfer" ∷ "a mobile wallet" ∷ "automatic billing" ∷ [])
        ("way of paying" ∷ "payment preference" ∷ "billing method" ∷ [])
        ("How does {speaker} prefer to pay?" ∷ "Which payment method did {speaker} select?" ∷ [])
    ∷ relation_spec "savings goal"
        ("a six-month reserve" ∷ "a future home deposit" ∷ "a new computer fund" ∷ "a long vacation"
          ∷ [])
        ("financial target" ∷ "saving objective" ∷ "money goal" ∷ [])
        ("What is {speaker} saving for?" ∷ "Which savings goal does {speaker} have?" ∷ [])
    ∷ relation_spec "insurance coverage"
        ("basic health coverage" ∷ "comprehensive travel cover" ∷ "renter protection"
          ∷ "extended device coverage" ∷ [])
        ("insurance plan" ∷ "coverage choice" ∷ "protection policy" ∷ [])
        ("What insurance coverage did {speaker} choose?"
          ∷ "Which protection plan does {speaker} have?" ∷ [])
    ∷ []

-- `LARGE_RELATION_SPECS`, a part of it
abbrev pub large_relation_specs_rest : List RelationSpec
large_relation_specs_rest =
    relation_spec "booking preference"
      ("booking well in advance" ∷ "choosing flexible dates" ∷ "using refundable options"
        ∷ "waiting for discounts" ∷ [])
      ("reservation habit" ∷ "booking style" ∷ "reservation preference" ∷ [])
      ("How does {speaker} prefer to book?" ∷ "What reservation habit does {speaker} follow?" ∷ [])
    ∷ relation_spec "accommodation preference"
        ("a quiet guesthouse" ∷ "a central apartment" ∷ "a small hotel" ∷ "a countryside cabin"
          ∷ [])
        ("lodging preference" ∷ "preferred accommodation" ∷ "place to stay" ∷ [])
        ("Where does {speaker} prefer to stay?" ∷ "What lodging style does {speaker} choose?" ∷ [])
    ∷ relation_spec "seat preference"
        ("an aisle seat" ∷ "a window seat" ∷ "a seat near the front" ∷ "a quiet-zone seat" ∷ [])
        ("preferred seat" ∷ "seating choice" ∷ "place to sit" ∷ [])
        ("What seat does {speaker} prefer?" ∷ "Which seating choice suits {speaker}?" ∷ [])
    ∷ relation_spec "clothing size"
        ("a small size" ∷ "a medium size" ∷ "a large size" ∷ "an extra-large size" ∷ [])
        ("garment size" ∷ "apparel size" ∷ "size for clothing" ∷ [])
        ("What clothing size does {speaker} need?" ∷ "Which garment size fits {speaker}?" ∷ [])
    ∷ relation_spec "color preference"
        ("deep blue" ∷ "warm orange" ∷ "forest green" ∷ "soft gray" ∷ [])
        ("favorite color" ∷ "preferred shade" ∷ "color choice" ∷ [])
        ("Which color does {speaker} prefer?" ∷ "What shade is {speaker}'s favorite?" ∷ [])
    ∷ relation_spec "room temperature"
        ("eighteen degrees" ∷ "twenty degrees" ∷ "twenty-two degrees" ∷ "twenty-four degrees" ∷ [])
        ("indoor temperature" ∷ "thermostat preference" ∷ "preferred room warmth" ∷ [])
        ("What room temperature does {speaker} prefer?" ∷ "How warm does {speaker} keep the room?"
          ∷ [])
    ∷ relation_spec "lighting preference"
        ("soft indirect light" ∷ "bright task lighting" ∷ "natural daylight" ∷ "warm evening lamps"
          ∷ [])
        ("preferred lighting" ∷ "light setting" ∷ "illumination choice" ∷ [])
        ("What lighting does {speaker} prefer?" ∷ "Which light setting works for {speaker}?" ∷ [])
    ∷ relation_spec "noise preference"
        ("complete silence" ∷ "quiet background music" ∷ "steady ambient sound" ∷ "a lively room"
          ∷ [])
        ("sound preference" ∷ "preferred noise level" ∷ "acoustic setting" ∷ [])
        ("What noise level does {speaker} prefer?" ∷ "Which sound environment suits {speaker}?"
          ∷ [])
    ∷ relation_spec "accessibility need"
        ("step-free access" ∷ "large-print materials" ∷ "live captions" ∷ "a quiet waiting area"
          ∷ [])
        ("access requirement" ∷ "accommodation need" ∷ "accessibility requirement" ∷ [])
        ("What accessibility need does {speaker} have?" ∷ "Which accommodation helps {speaker}?"
          ∷ [])
    ∷ relation_spec "delivery instruction"
        ("leave it by the side door" ∷ "call on arrival" ∷ "use the parcel locker"
          ∷ "hand it to reception" ∷ [])
        ("drop-off instruction" ∷ "delivery preference" ∷ "courier direction" ∷ [])
        ("What delivery instruction did {speaker} give?"
          ∷ "How should a package be delivered to {speaker}?" ∷ [])
    ∷ relation_spec "storage location"
        ("the hall closet" ∷ "the basement shelf" ∷ "the bedroom cabinet" ∷ "the garage cupboard"
          ∷ [])
        ("place of storage" ∷ "where the item is kept" ∷ "storage spot" ∷ [])
        ("Where does {speaker} store the item?" ∷ "What storage location did {speaker} choose?"
          ∷ [])
    ∷ relation_spec "document location"
        ("the blue folder" ∷ "an encrypted drive" ∷ "the office drawer" ∷ "a cloud archive" ∷ [])
        ("file location" ∷ "where the document is kept" ∷ "document storage place" ∷ [])
        ("Where did {speaker} keep the document?" ∷ "What file location does {speaker} use?" ∷ [])
    ∷ relation_spec "account recovery method"
        ("a recovery email" ∷ "a hardware security key" ∷ "backup codes" ∷ "a trusted phone number"
          ∷ [])
        ("login recovery" ∷ "recovery option" ∷ "account restoration method" ∷ [])
        ("How can {speaker} recover the account?" ∷ "Which recovery option did {speaker} select?"
          ∷ [])
    ∷ relation_spec "backup schedule"
        ("every evening" ∷ "each Sunday" ∷ "twice a month" ∷ "at the end of each quarter" ∷ [])
        ("data backup routine" ∷ "backup frequency" ∷ "archive schedule" ∷ [])
        ("When does {speaker} back up data?" ∷ "What backup schedule does {speaker} follow?" ∷ [])
    ∷ relation_spec "privacy preference"
        ("sharing only with friends" ∷ "keeping the profile private" ∷ "anonymous usage statistics"
          ∷ "no location history" ∷ [])
        ("privacy setting" ∷ "data-sharing preference" ∷ "confidentiality choice" ∷ [])
        ("What privacy preference does {speaker} have?"
          ∷ "Which data-sharing setting did {speaker} choose?" ∷ [])
    ∷ relation_spec "contact method"
        ("email" ∷ "a text message" ∷ "a phone call" ∷ "a calendar invitation" ∷ [])
        ("preferred contact channel" ∷ "way to get in touch" ∷ "contact preference" ∷ [])
        ("How should someone contact {speaker}?" ∷ "Which contact method does {speaker} prefer?"
          ∷ [])
    ∷ []

-- `LARGE_RELATION_SPECS`
abbrev pub large_relation_specs : List RelationSpec
large_relation_specs = large_relation_specs_first ++ large_relation_specs_rest
