-- ===== src/Dialogue/Catalog/Alias.antt =====
-- python/prepare_repeated_dialogue_curriculum.py: the other surface forms of the relations.
use bit_net.Base.{[], ◌∷◌}
use bit_net.Dialogue.Catalog.{Aliases, aliases}

-- `PREDICATE_ALIASES`
abbrev pub predicate_aliases : Aliases
predicate_aliases = aliases (
    ("research topic", ("research subject" ∷ "study focus" ∷ "area being researched" ∷ []))
    ∷ ("travel destination", ("trip destination" ∷ "place to visit" ∷ "next travel location" ∷ []))
    ∷ ("weekend hobby", ("weekend pastime" ∷ "free-time activity" ∷ "leisure pursuit" ∷ []))
    ∷ ("preferred cuisine", ("favorite food style" ∷ "cuisine preference" ∷ "preferred food" ∷ []))
    ∷ ("community project", ("local initiative" ∷ "neighborhood effort" ∷ "community effort" ∷ []))
    ∷ ("evening course", ("night class" ∷ "after-work course" ∷ "evening class" ∷ []))
    ∷ ("planned purchase", ("item to buy" ∷ "intended purchase" ∷ "next purchase" ∷ []))
    ∷ (
      "favorite local place",
      ("preferred nearby spot" ∷ "favorite neighborhood place" ∷ "local place enjoyed most" ∷ []),
    )
    ∷ [])

-- `ADDITIONAL_PREDICATE_ALIASES`
abbrev pub additional_predicate_aliases : Aliases
additional_predicate_aliases = aliases (
    ("work schedule", ("working hours" ∷ "shift pattern" ∷ "weekly work timetable" ∷ []))
    ∷ ("dietary restriction", ("food limitation" ∷ "diet requirement" ∷ "eating restriction" ∷ []))
    ∷ (
      "transportation preference",
      ("preferred transport" ∷ "travel mode" ∷ "way of getting around" ∷ []),
    )
    ∷ ("sleep routine", ("bedtime routine" ∷ "sleeping habit" ∷ "nightly wind-down" ∷ []))
    ∷ (
      "pet care responsibility",
      ("animal care duty" ∷ "pet-care task" ∷ "responsibility for the pet" ∷ []),
    )
    ∷ (
      "recurring appointment",
      ("regular appointment" ∷ "repeating calendar event" ∷ "scheduled recurring meeting" ∷ []),
    )
    ∷ ("software tool", ("preferred application" ∷ "digital tool" ∷ "software being used" ∷ []))
    ∷ ("professional goal", ("career objective" ∷ "work ambition" ∷ "professional target" ∷ []))
    ∷ ("gift idea", ("present idea" ∷ "planned gift" ∷ "gift being considered" ∷ []))
    ∷ ("budget priority", ("spending priority" ∷ "financial focus" ∷ "main budget goal" ∷ []))
    ∷ ("preferred beverage", ("favorite drink" ∷ "drink preference" ∷ "beverage choice" ∷ []))
    ∷ (
      "weather preference",
      ("favorite weather" ∷ "preferred conditions" ∷ "climate preference" ∷ []),
    )
    ∷ (
      "favorite art form",
      ("preferred kind of art" ∷ "artistic preference" ∷ "art form enjoyed most" ∷ []),
    )
    ∷ (
      "language practice",
      ("language-learning routine" ∷ "speaking practice" ∷ "language study method" ∷ []),
    )
    ∷ ("gardening plan", ("garden project" ∷ "planting plan" ∷ "horticulture project" ∷ []))
    ∷ ("cooking project", ("culinary project" ∷ "recipe project" ∷ "food-making plan" ∷ []))
    ∷ (
      "family tradition",
      ("family custom" ∷ "household tradition" ∷ "recurring family ritual" ∷ []),
    )
    ∷ ("study schedule", ("learning timetable" ∷ "study routine" ∷ "planned study time" ∷ []))
    ∷ ("wellness habit", ("healthy routine" ∷ "well-being practice" ∷ "self-care habit" ∷ []))
    ∷ ("repair task", ("fixing job" ∷ "item to repair" ∷ "maintenance task" ∷ []))
    ∷ (
      "event plan",
      ("planned gathering" ∷ "event being organized" ∷ "upcoming community event" ∷ []),
    )
    ∷ (
      "subscription choice",
      ("recurring service" ∷ "membership choice" ∷ "selected subscription" ∷ []),
    )
    ∷ (
      "workspace preference",
      ("preferred work area" ∷ "work setting choice" ∷ "favorite place to work" ∷ []),
    )
    ∷ ("charitable cause", ("supported cause" ∷ "charity focus" ∷ "social cause" ∷ []))
    ∷ [])

-- `VALIDATION_PREDICATE_ALIASES`
abbrev pub validation_predicate_aliases : Aliases
validation_predicate_aliases = aliases (
    ("volunteer role", ("volunteering position" ∷ "volunteer duty" ∷ "community service role" ∷ []))
    ∷ ("reading preference", ("preferred reading" ∷ "favorite book type" ∷ "reading taste" ∷ []))
    ∷ ("exercise routine", ("fitness routine" ∷ "regular workout" ∷ "exercise habit" ∷ []))
    ∷ (
      "creative project",
      ("current creative work" ∷ "artistic project" ∷ "creation in progress" ∷ []),
    )
    ∷ ("meeting location", ("meeting place" ∷ "group rendezvous" ∷ "selected venue" ∷ []))
    ∷ ("learning goal", ("skill to learn" ∷ "study objective" ∷ "learning target" ∷ []))
    ∷ ("home improvement", ("planned home upgrade" ∷ "household change" ∷ "home project" ∷ []))
    ∷ ("music preference", ("musical taste" ∷ "preferred music" ∷ "favorite music style" ∷ []))
    ∷ [])
