-- ===== src/Dialogue/Catalog/Roles.antt =====
-- python/prepare_repeated_dialogue_curriculum.py: the sentences of the role layout.
use bit_net.Base.{Text, List, [], ◌∷◌, ◌++◌}
use bit_net.Dialogue.Catalog.{texts}
use bit_net.Dialogue.Catalog.Templates.{train_statements, train_updates}

-- `ROLE_TRAIN_STATEMENTS`
abbrev pub role_train_statements : List Text
role_train_statements =
    train_statements
    ++ texts (
        "In the {predicate} record for {speaker}, the value is {value}."
        ∷ "The entry belonging to {speaker} under {predicate} now reads {value}."
        ∷ "Looking at {speaker}'s {predicate}, the recorded choice is {value}."
        ∷ "For {speaker}, the field named {predicate} contains {value}."
        ∷ "In {speaker}'s record, {value} appears beneath {predicate}."
        ∷ "The latest item in {speaker}'s {predicate} field is {value}."
        ∷ "Under the heading {predicate}, {speaker} has {value}."
        ∷ "{speaker}'s record shows {predicate}: {value}."
        ∷ "The record for {speaker} associates {predicate} with {value}."
        ∷ "At {predicate}, the current entry for {speaker} is {value}."
        ∷ "The stored {predicate} item for {speaker} is {value}."
        ∷ "Read {speaker}'s {predicate} field as {value}." ∷ [])

-- `ROLE_TRAIN_UPDATES`
abbrev pub role_train_updates : List Text
role_train_updates =
    train_updates
    ++ texts (
        "After retiring {old}, {speaker} recorded {value} for {predicate}."
        ∷ "The old {predicate} for {speaker} was {old}; the replacement is {value}."
        ∷ "For {speaker}, remove {old} and set {predicate} to {value}."
        ∷ "Revise the {predicate} belonging to {speaker}: choose {value} instead of {old}."
        ∷ "{speaker}'s {predicate} transitioned away from {old} toward {value}."
        ∷ "Earlier, {speaker}'s {predicate} was {old}. The current entry is {value}."
        ∷ "For {speaker}, {old} used to fill {predicate}; now {value} does."
        ∷ "The {predicate} entry for {speaker} no longer contains {old}; it contains {value}."
        ∷ "Set {speaker}'s {predicate} to {value}, superseding {old}."
        ∷ "As {speaker}'s {predicate}, {value} replaces {old}."
        ∷ "Move {speaker}'s {predicate} from {old} over to {value}."
        ∷ "The outdated value {old} under {speaker}'s {predicate} changed to {value}."
        ∷ "In the {predicate} field for {speaker}, swap {old} out for {value}."
        ∷ "What was {old} for {speaker}'s {predicate} should now be {value}."
        ∷ "For {predicate}, {speaker} previously had {old} but currently has {value}."
        ∷ "Current {predicate} for {speaker}: {value}. Previous value: {old}."
        ∷ "{old} was formerly listed for {speaker} at {predicate}; record {value} now." ∷ [])

-- `ROLE_VALIDATION_STATEMENTS`
abbrev pub role_validation_statements : List Text
role_validation_statements = texts (
    "Within {speaker}'s {predicate} entry, {value} is the current value."
    ∷ "The {predicate} field associated with {speaker} contains {value}."
    ∷ "For {speaker}, the item stored under {predicate} is {value}." ∷ [])

-- `ROLE_VALIDATION_UPDATES`
abbrev pub role_validation_updates : List Text
role_validation_updates = texts (
    "With {old} retired, {speaker} now records {value} as {predicate}."
    ∷ "The earlier {predicate} for {speaker} read {old}; its successor is {value}."
    ∷ "In {speaker}'s record, clear {old} and write {value} under {predicate}."
    ∷ "Amend {speaker}'s {predicate} by replacing {old} with {value}." ∷ [])

-- `ROLE_CHALLENGE_STATEMENTS`
abbrev pub role_challenge_statements : List Text
role_challenge_statements = texts (
    "Consulting {speaker}'s record, the value beside {predicate} is {value}."
    ∷ "The current listing for {predicate} in {speaker}'s profile says {value}."
    ∷ "{value} appears as the active {predicate} selection for {speaker}."
    ∷ "On {speaker}'s file, {predicate} is represented by {value}." ∷ [])

-- `ROLE_CHALLENGE_UPDATES`
abbrev pub role_challenge_updates : List Text
role_challenge_updates = texts (
    "Although {old} once occupied {speaker}'s {predicate} field, {value} occupies it now."
    ∷ "Replace the former {old} entry at {speaker}'s {predicate} with {value}."
    ∷ "The active value for {speaker}'s {predicate} is {value}, superseding {old}."
    ∷ "Under {predicate}, {speaker} has moved on from {old}; retain {value}." ∷ [])
