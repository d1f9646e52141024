-- ===== src/Dialogue/Catalog/Held.antt =====
-- python/prepare_repeated_dialogue_curriculum.py: the relations of the test split.
use bit_net.Base.{List, [], ◌∷◌}
use bit_net.Dialogue.Catalog.{RelationSpec, relation_spec}

-- `TEST_RELATION_SPECS`
abbrev pub test_relation_specs : List RelationSpec
test_relation_specs =
    relation_spec "emergency contact"
      ("Morgan Lee" ∷ "Sam Rivera" ∷ "Taylor Quinn" ∷ "Jamie Chen" ∷ [])
      ("urgent contact" ∷ "person to call in an emergency" ∷ "emergency contact person" ∷ [])
      ("Who is {speaker}'s emergency contact?"
        ∷ "Whom should someone call for {speaker} in an emergency?" ∷ [])
    ∷ relation_spec "vehicle maintenance date"
        ("the first Saturday in April" ∷ "June fifteenth" ∷ "the last week of September"
          ∷ "early December" ∷ [])
        ("service date" ∷ "car maintenance appointment" ∷ "vehicle servicing time" ∷ [])
        ("When is {speaker}'s vehicle maintenance due?"
          ∷ "Which date did {speaker} choose for vehicle service?" ∷ [])
    ∷ relation_spec "library membership"
        ("a central branch card" ∷ "a university guest card" ∷ "a mobile borrowing card"
          ∷ "a regional digital pass" ∷ [])
        ("library account" ∷ "borrowing membership" ∷ "library access plan" ∷ [])
        ("What library membership does {speaker} have?"
          ∷ "Which borrowing account does {speaker} use?" ∷ [])
    ∷ relation_spec "conference registration"
        ("a standard attendee pass" ∷ "a workshop package" ∷ "a virtual access ticket"
          ∷ "a speaker registration" ∷ [])
        ("conference pass" ∷ "event registration type" ∷ "conference attendance option" ∷ [])
        ("How is {speaker} registered for the conference?"
          ∷ "Which conference pass did {speaker} select?" ∷ [])
    ∷ relation_spec "waste collection day"
        ("Monday morning" ∷ "Wednesday evening" ∷ "Friday afternoon" ∷ "Saturday morning" ∷ [])
        ("rubbish pickup day" ∷ "collection schedule" ∷ "waste pickup time" ∷ [])
        ("When is waste collected for {speaker}?" ∷ "Which collection day applies to {speaker}?"
          ∷ [])
    ∷ relation_spec "appliance warranty"
        ("a two-year replacement plan" ∷ "a five-year repair plan" ∷ "manufacturer coverage"
          ∷ "retailer protection" ∷ [])
        ("warranty plan" ∷ "appliance protection" ∷ "repair coverage" ∷ [])
        ("What appliance warranty does {speaker} have?"
          ∷ "Which protection plan covers {speaker}'s appliance?" ∷ [])
    ∷ relation_spec "preferred news source"
        ("public radio bulletins" ∷ "a local newspaper" ∷ "an international news app"
          ∷ "a weekly current-affairs magazine" ∷ [])
        ("news preference" ∷ "preferred news outlet" ∷ "usual information source" ∷ [])
        ("Where does {speaker} prefer to get the news?"
          ∷ "Which news source does {speaker} usually follow?" ∷ [])
    ∷ relation_spec "parking permit"
        ("a zone C resident permit" ∷ "a workplace garage pass" ∷ "a visitor parking card"
          ∷ "an overnight street permit" ∷ [])
        ("parking authorization" ∷ "vehicle parking pass" ∷ "permit for parking" ∷ [])
        ("What parking permit does {speaker} use?"
          ∷ "Which parking authorization belongs to {speaker}?" ∷ [])
    ∷ []
