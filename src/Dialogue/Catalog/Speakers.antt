-- ===== src/Dialogue/Catalog/Speakers.antt =====
-- python/prepare_repeated_dialogue_curriculum.py: the speakers of each split, and the details of a value.
use bit_net.Base.{Text, List, [], ◌∷◌}
use bit_net.Dialogue.Catalog.{texts}

-- `SPEAKERS`
abbrev pub speakers : List Text
speakers =
    texts
      ("Avery" ∷ "Blake" ∷ "Cameron" ∷ "Dakota" ∷ "Emerson" ∷ "Finley" ∷ "Harper" ∷ "Jordan" ∷ [])

-- `VALIDATION_SPEAKERS`
abbrev pub validation_speakers : List Text
validation_speakers =
    texts ("Lennon" ∷ "Marley" ∷ "Nico" ∷ "Oakley" ∷ "Phoenix" ∷ "Reese" ∷ "Shiloh" ∷ "Winter" ∷ [])

-- `TEST_SPEAKERS`
abbrev pub test_speakers : List Text
test_speakers =
    texts ("Arden" ∷ "Briar" ∷ "Cleo" ∷ "Devin" ∷ "Ellis" ∷ "Frankie" ∷ "Gale" ∷ "Hollis" ∷ [])

-- `DETAILS`
abbrev pub details : List Text
details = texts (
    "with close friends" ∷ "after work" ∷ "near home" ∷ "with the local group" ∷ "during the summer"
    ∷ "on quiet mornings" ∷ "for the next few months" ∷ [])
