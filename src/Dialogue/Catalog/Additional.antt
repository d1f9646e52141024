-- ===== src/Dialogue/Catalog/Additional.antt =====
-- python/prepare_repeated_dialogue_curriculum.py: the relations that the expanded curriculum adds.
use bit_net.Base.{List, [], ◌∷◌, ◌++◌}
use bit_net.Dialogue.Catalog.{Predicate, predicate}

-- `ADDITIONAL_PREDICATES`, a part of it
abbrev pub additional_predicates_first : List Predicate
additional_predicates_first =
    predicate "work schedule"
      ("early shifts" ∷ "a four-day week" ∷ "split shifts" ∷ "flexible hours" ∷ [])
      ("What work schedule does {speaker} currently follow?" ∷ "When does {speaker} usually work?"
        ∷ [])
    ∷ predicate "dietary restriction"
        ("a dairy-free diet" ∷ "a low-sodium diet" ∷ "a nut-free diet" ∷ "a gluten-free diet" ∷ [])
        ("Which foods does {speaker} currently avoid?"
          ∷ "What dietary restriction does {speaker} follow?" ∷ [])
    ∷ predicate "transportation preference"
        ("commuting by train" ∷ "walking" ∷ "taking the bus" ∷ "cycling" ∷ [])
        ("How does {speaker} prefer to get around?" ∷ "What transportation does {speaker} favor?"
          ∷ [])
    ∷ predicate "sleep routine"
        ("reading before bed" ∷ "an early bedtime" ∷ "a short evening walk" ∷ "no screens after ten"
          ∷ [])
        ("What is {speaker}'s current sleep routine?" ∷ "Which bedtime habit does {speaker} follow?"
          ∷ [])
    ∷ predicate "pet care responsibility"
        ("morning dog walks" ∷ "feeding the cats" ∷ "cleaning the aquarium" ∷ "training the puppy"
          ∷ [])
        ("Which pet-care task does {speaker} handle?" ∷ "How is {speaker} helping care for a pet?"
          ∷ [])
    ∷ predicate "recurring appointment"
        ("a Monday check-in" ∷ "a monthly consultation" ∷ "a Friday lesson"
          ∷ "a weekly planning call" ∷ [])
        ("What recurring appointment does {speaker} have?"
          ∷ "Which regular meeting is on {speaker}'s calendar?" ∷ [])
    ∷ predicate "software tool"
        ("a markdown editor" ∷ "a vector drawing app" ∷ "a task tracker" ∷ "a terminal workspace"
          ∷ [])
        ("Which software tool is {speaker} using?"
          ∷ "What application does {speaker} currently prefer?" ∷ [])
    ∷ predicate "professional goal"
        ("leading a design review" ∷ "earning a certification" ∷ "mentoring a new teammate"
          ∷ "publishing a case study" ∷ [])
        ("What professional goal is {speaker} pursuing?"
          ∷ "Which career objective matters to {speaker}?" ∷ [])
    ∷ predicate "gift idea"
        ("a handmade journal" ∷ "concert tickets" ∷ "a cooking class" ∷ "a framed photograph" ∷ [])
        ("What gift is {speaker} considering?" ∷ "Which present does {speaker} plan to give?" ∷ [])
    ∷ predicate "budget priority"
        ("building an emergency fund" ∷ "home repairs" ∷ "travel savings" ∷ "education expenses"
          ∷ [])
        ("What is {speaker}'s current budget priority?"
          ∷ "Where does {speaker} plan to focus spending?" ∷ [])
    ∷ predicate "preferred beverage"
        ("green tea" ∷ "sparkling water" ∷ "dark-roast coffee" ∷ "ginger lemonade" ∷ [])
        ("What beverage does {speaker} currently prefer?" ∷ "Which drink is {speaker}'s favorite?"
          ∷ [])
    ∷ predicate "weather preference"
        ("cool rainy days" ∷ "dry sunny weather" ∷ "crisp autumn air" ∷ "mild cloudy afternoons"
          ∷ [])
        ("What kind of weather does {speaker} prefer?"
          ∷ "Which climate conditions does {speaker} enjoy?" ∷ [])
    ∷ []

-- `ADDITIONAL_PREDICATES`, a part of it
abbrev pub additional_predicates_rest : List Predicate
additional_predicates_rest =
    predicate "favorite art form"
      ("street photography" ∷ "watercolor painting" ∷ "modern dance" ∷ "woodblock printing" ∷ [])
      ("Which art form does {speaker} enjoy most?" ∷ "What kind of art is {speaker}'s favorite?"
        ∷ [])
    ∷ predicate "language practice"
        ("daily conversation drills" ∷ "reading news articles" ∷ "a weekly language exchange"
          ∷ "writing short stories" ∷ [])
        ("How is {speaker} practicing a language?"
          ∷ "Which language-practice method does {speaker} use?" ∷ [])
    ∷ predicate "gardening plan"
        ("growing balcony herbs" ∷ "planting native flowers" ∷ "starting tomato seedlings"
          ∷ "building a rain garden" ∷ [])
        ("What gardening plan does {speaker} have?" ∷ "Which garden project is {speaker} starting?"
          ∷ [])
    ∷ predicate "cooking project"
        ("learning sourdough" ∷ "making fresh pasta" ∷ "testing soup recipes"
          ∷ "preserving seasonal fruit" ∷ [])
        ("What is {speaker}'s current cooking project?"
          ∷ "Which recipe project is {speaker} working on?" ∷ [])
    ∷ predicate "family tradition"
        ("a Sunday lunch" ∷ "an annual camping trip" ∷ "a holiday baking day"
          ∷ "a monthly game night" ∷ [])
        ("Which family tradition matters to {speaker}?"
          ∷ "What family custom does {speaker} follow?" ∷ [])
    ∷ predicate "study schedule"
        ("one hour before breakfast" ∷ "weekend study blocks" ∷ "three evenings a week"
          ∷ "short daily reviews" ∷ [])
        ("What study schedule does {speaker} follow?" ∷ "When does {speaker} plan to study?" ∷ [])
    ∷ predicate "wellness habit"
        ("morning meditation" ∷ "a lunchtime walk" ∷ "keeping a sleep journal"
          ∷ "stretching after work" ∷ [])
        ("Which wellness habit is {speaker} practicing?"
          ∷ "What healthy routine has {speaker} adopted?" ∷ [])
    ∷ predicate "repair task"
        ("fixing a leaky faucet" ∷ "repairing a bicycle" ∷ "mending a winter coat"
          ∷ "restoring a wooden chair" ∷ [])
        ("What does {speaker} plan to repair?" ∷ "Which repair task is {speaker} handling?" ∷ [])
    ∷ predicate "event plan"
        ("a neighborhood picnic" ∷ "a small book fair" ∷ "an outdoor film night"
          ∷ "a community workshop" ∷ [])
        ("What event is {speaker} planning?" ∷ "Which gathering is {speaker} organizing?" ∷ [])
    ∷ predicate "subscription choice"
        ("a local newspaper" ∷ "an audiobook service" ∷ "a museum membership" ∷ "a produce box"
          ∷ [])
        ("Which subscription did {speaker} choose?" ∷ "What recurring service does {speaker} use?"
          ∷ [])
    ∷ predicate "workspace preference"
        ("a quiet corner desk" ∷ "a shared studio" ∷ "a standing workstation"
          ∷ "a window-side table" ∷ [])
        ("What workspace does {speaker} prefer?" ∷ "Where does {speaker} like to work?" ∷ [])
    ∷ predicate "charitable cause"
        ("adult literacy" ∷ "wildlife rehabilitation" ∷ "food security" ∷ "accessible technology"
          ∷ [])
        ("Which charitable cause does {speaker} support?" ∷ "What cause matters most to {speaker}?"
          ∷ [])
    ∷ []

-- `ADDITIONAL_PREDICATES`
abbrev pub additional_predicates : List Predicate
additional_predicates = additional_predicates_first ++ additional_predicates_rest
