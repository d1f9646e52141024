-- ===== src/Dialogue/Catalog/Templates.antt =====
-- python/prepare_repeated_dialogue_curriculum.py: the sentences that state a fact or an update.
use bit_net.Base.{Text, List, [], ◌∷◌, ◌++◌}
use bit_net.Dialogue.Catalog.{texts}

-- `STATEMENTS`
abbrev pub statements : List Text
statements = texts (
    "{speaker}: Lately my {predicate} has been {value}."
    ∷ "{speaker}: I wanted to mention that my {predicate} is {value}."
    ∷ "{speaker}: For now, record {value} as my {predicate}."
    ∷ "{speaker}: I have settled on {value} for my {predicate}." ∷ [])

-- `UPDATES`
abbrev pub updates : List Text
updates = texts (
    "{speaker}: I changed my {predicate} from {old} to {value}."
    ∷ "{speaker}: An update: my {predicate} is now {value}, not {old}."
    ∷ "{speaker}: Please replace {old} with {value} as my {predicate}." ∷ [])

-- `VALIDATION_STATEMENTS`
abbrev pub validation_statements : List Text
validation_statements = texts (
    "Regarding {predicate}, {speaker} settled on {value}."
    ∷ "The choice for {speaker}'s {predicate} is currently {value}."
    ∷ "{value} is what {speaker} selected for the {predicate}."
    ∷ "A note about {speaker}: the {predicate} is {value}." ∷ [])

-- `VALIDATION_UPDATES`
abbrev pub validation_updates : List Text
validation_updates = texts (
    "Replacing {old}, {speaker} now uses {value} for the {predicate}."
    ∷ "For {speaker}, the {predicate} changed from {old} into {value}."
    ∷ "The new {predicate} for {speaker} is {value}; previously it was {old}."
    ∷ "{old} is outdated for {speaker}'s {predicate}; use {value}." ∷ [])

-- `TEST_STATEMENTS`
abbrev pub test_statements : List Text
test_statements = texts (
    "For {speaker}, the recorded {predicate} currently points to {value}."
    ∷ "{speaker}'s latest entry under {predicate} is {value}."
    ∷ "The record for {speaker} lists {value} as the {predicate}."
    ∷ "Under {predicate}, {speaker} currently has {value}." ∷ [])

-- `TEST_UPDATES`
abbrev pub test_updates : List Text
test_updates = texts (
    "Revise {speaker}'s {predicate}: use {value} in place of {old}."
    ∷ "{speaker}'s {predicate} moved from {old} to {value}."
    ∷ "For {speaker}, update the {predicate} to {value}; remove {old}."
    ∷ "The previous {predicate} for {speaker} was {old}; it is now {value}." ∷ [])

-- `TRAIN_STATEMENTS`
abbrev pub train_statements : List Text
train_statements =
    statements
    ++ texts (
        "{speaker} has chosen {value} when it comes to the {predicate}."
        ∷ "For the {predicate}, {speaker}'s current choice is {value}."
        ∷ "{predicate} note from {speaker}: the selected option is {value}."
        ∷ "The value {value} belongs to {speaker}'s {predicate}."
        ∷ "As for {speaker}, use {value} for the {predicate}."
        ∷ "Current {predicate}: {value}, according to {speaker}." ∷ [])

-- `TRAIN_UPDATES`
abbrev pub train_updates : List Text
train_updates =
    updates
    ++ texts (
        "{predicate} update from {speaker}: replace {old} with {value}."
        ∷ "For the {predicate}, {speaker} moved away from {old} and chose {value}."
        ∷ "{value} is now {speaker}'s {predicate}; {old} was the prior choice."
        ∷ "Change recorded for {speaker}: {predicate} is {value} instead of {old}."
        ∷ "The former {predicate}, {old}, no longer applies to {speaker}; use {value}."
        ∷ "{speaker}'s latest {predicate} became {value} after previously being {old}." ∷ [])
