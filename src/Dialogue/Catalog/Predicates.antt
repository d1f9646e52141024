-- ===== src/Dialogue/Catalog/Predicates.antt =====
-- python/prepare_repeated_dialogue_curriculum.py: the relations of the basic curriculum and of validation.
use bit_net.Base.{List, [], ◌∷◌}
use bit_net.Dialogue.Catalog.{Predicate, predicate}

-- `PREDICATES`
abbrev pub predicates : List Predicate
predicates =
    predicate "research topic"
      ("accessible housing" ∷ "marine conservation" ∷ "renewable energy" ∷ "public transit" ∷ [])
      ("What subject is {speaker} currently researching?"
        ∷ "Which research area is {speaker} focused on now?" ∷ [])
    ∷ predicate "travel destination" ("Lisbon" ∷ "Kyoto" ∷ "Reykjavik" ∷ "Vancouver" ∷ []) (
        "Where is {speaker} planning to travel?"
        ∷ "What destination did {speaker} choose for the next trip?" ∷ [])
    ∷ predicate "weekend hobby"
        ("restoring vintage radios" ∷ "making pottery" ∷ "bird photography" ∷ "trail running" ∷ [])
        ("What does {speaker} like doing on weekends?" ∷ "Which hobby helps {speaker} unwind?" ∷ [])
    ∷ predicate "preferred cuisine"
        ("Lebanese food" ∷ "Ethiopian cuisine" ∷ "Korean home cooking" ∷ "regional Italian dishes"
          ∷ [])
        ("What kind of food does {speaker} prefer?"
          ∷ "Which cuisine is {speaker}'s current favorite?" ∷ [])
    ∷ predicate "community project"
        ("a neighborhood tool library" ∷ "a river cleanup" ∷ "an accessible playground"
          ∷ "a food-sharing network" ∷ [])
        ("Which community effort is {speaker} helping with?"
          ∷ "What local project matters to {speaker}?" ∷ [])
    ∷ predicate "evening course"
        ("documentary filmmaking" ∷ "ceramic design" ∷ "sign language" ∷ "architectural history"
          ∷ [])
        ("What is {speaker} studying in the evening?" ∷ "Which course did {speaker} decide to take?"
          ∷ [])
    ∷ predicate "planned purchase"
        ("a folding bicycle" ∷ "a compact camera" ∷ "a field recorder" ∷ "a standing desk" ∷ [])
        ("What is {speaker} planning to buy?" ∷ "Which purchase is {speaker} saving for?" ∷ [])
    ∷ predicate "favorite local place"
        ("the botanical garden" ∷ "the old harbor" ∷ "the riverside library" ∷ "the weekend market"
          ∷ [])
        ("Which nearby place does {speaker} enjoy most?"
          ∷ "What is {speaker}'s favorite local place?" ∷ [])
    ∷ []

-- `VALIDATION_PREDICATES`
abbrev pub validation_predicates : List Predicate
validation_predicates =
    predicate "volunteer role"
      ("garden coordinator" ∷ "shelter cook" ∷ "museum guide" ∷ "literacy tutor" ∷ [])
      ("How does {speaker} currently volunteer?" ∷ "Which volunteer role did {speaker} choose?"
        ∷ [])
    ∷ predicate "reading preference"
        ("historical mysteries" ∷ "nature essays" ∷ "science biographies" ∷ "short fiction" ∷ [])
        ("What does {speaker} currently like to read?"
          ∷ "Which kind of books does {speaker} prefer?" ∷ [])
    ∷ predicate "exercise routine"
        ("morning swimming" ∷ "evening yoga" ∷ "weekend cycling" ∷ "strength training" ∷ [])
        ("How does {speaker} currently exercise?" ∷ "Which fitness routine is {speaker} following?"
          ∷ [])
    ∷ predicate "creative project"
        ("a photo essay" ∷ "a clay mural" ∷ "a radio documentary" ∷ "a poetry collection" ∷ [])
        ("What is {speaker} currently creating?" ∷ "Which creative project is {speaker} working on?"
          ∷ [])
    ∷ predicate "meeting location"
        ("the north café" ∷ "the civic hall" ∷ "the lakeside studio" ∷ "the station library" ∷ [])
        ("Where does {speaker} plan to meet the group?"
          ∷ "Which meeting place did {speaker} select?" ∷ [])
    ∷ predicate "learning goal"
        ("conversational Finnish" ∷ "basic woodworking" ∷ "digital illustration" ∷ "first aid" ∷ [])
        ("What does {speaker} want to learn?" ∷ "Which skill is {speaker} currently developing?"
          ∷ [])
    ∷ predicate "home improvement"
        ("a balcony garden" ∷ "new bookshelves" ∷ "better lighting" ∷ "a quiet workspace" ∷ [])
        ("What home change is {speaker} planning?"
          ∷ "Which improvement does {speaker} want at home?" ∷ [])
    ∷ predicate "music preference"
        ("jazz piano" ∷ "folk guitar" ∷ "ambient music" ∷ "classical strings" ∷ [])
        ("What music does {speaker} currently prefer?" ∷ "Which musical style does {speaker} enjoy?"
          ∷ [])
    ∷ []
