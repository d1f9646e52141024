-- ===== src/Dialogue/Main/Finished.antt =====
-- python/prepare_repeated_dialogue_curriculum.py: `main` with arguments that pass its checks.
use bit_net.Base.{
  ℕ, ◌*◌, ◌≤◌, ◌<◌, ◌≡◌, refl, sym, ap, ◌∙◌, inl, inr, Bool, true, false, List, [], ◌∷◌, ◌++◌, map,
  arith, if◌then◌else◌, Bool-cases, nat_eq, text_eq, texts_eq, option_eq, length, append_nil, All,
  ok, Text, bind-ok,
}
use mathlib.Core.Path.{subst}
use bit_net.Dialogue.Bank.{Random}
use bit_net.Dialogue.Rows.{Row}
use bit_net.Dialogue.Splits.{Split}
use bit_net.Dialogue.Main.{
  Args, check_args, train_predicates, train_split, valid_split, test_split, challenge_split,
  alias_split, splits, write_splits, main,
}
use bit_net.Dialogue.Bank.Usable.{usable}
use bit_net.Dialogue.Main.Curricula.{
  train_usable, valid_usable, test_usable, challenge_usable, alias_usable,
}
use bit_net.Dialogue.Splits.Files.{write_split_total}

-- How many relations the training split has.
length-train_predicates :
    (args : Args)
    → length (train_predicates args) ≡ (
        if args.large_relation_curriculum
        then 64
        else if args.expanded_relation_curriculum
        then 32
        else 8)
unfolding train_predicates
length-train_predicates args = elim (Bool-cases args.large_relation_curriculum) [
  | inl large ↦ rw large refl
  | inr small ↦ elim (Bool-cases args.expanded_relation_curriculum) [
    | inl expanded ↦ rw (small, expanded) refl
    | inr basic ↦ rw (small, basic) refl
  ]
]

-- The checks leave enough events for every pair of a speaker and a relation to come again.
train_room :
    (args : Args) → check_args args ≡ ok tt → length (train_predicates args) * 4 < args.events
unfolding check_args
train_room args h =
    let room : (if args.large_relation_curriculum
            then 64
            else if args.expanded_relation_curriculum
            then 32
            else 8)
          * 4
        < args.events =
      ground arith in
    subst (λ n. n * 4 < args.events) (sym (length-train_predicates args)) room

small_room : (args : Args) → check_args args ≡ ok tt → 8 * 4 < args.events
unfolding check_args
small_room args h = ground arith

-- A split that is written: enough events, and a usable catalogue.
pub record IsWritable (events : ℕ) (split : Split) : Type 0 where
  pub fine : usable split.catalogue ≡ true
  pub enough : length split.catalogue.predicates * 4 < events

-- A file and how many rows it has.
abbrev pub size_of_file : Text × List Row → Text × ℕ
size_of_file file = (file.0, length file.1)

-- What a call of `write_split` is to give: a row for each query of each view of each world.
abbrev pub planned : ℕ → Split → Text × ℕ
planned queries split = (split.file, split.worlds * (split.layout_views * queries))

write_splits_total :
    (r : Random) (events queries : ℕ) (calls : List Split)
    → events ≤ 800_000
    → All (IsWritable events) calls
    → (files : List (Text × List Row)) × (write_splits r events queries calls ≡ ok files)
      × (map size_of_file files ≡ map (planned queries) calls)
unfolding write_splits
write_splits_total r events queries [] few h = ([], refl, refl)
write_splits_total r events queries (split ∷ calls) few (first, rest) =
    let (rows, written, count) =
      write_split_total r events queries split first.fine first.enough few in
    let (files, others, listed) = write_splits_total r events queries calls few rest in
    (
      (split.file, rows) ∷ files,
      bind-ok _ written (bind-ok _ others refl),
      ap (λ n. (split.file, n) ∷ map size_of_file files) count
          ∙ ap (λ later. planned queries split ∷ later) listed,
    )

optional_All :
    (P : Split → Type 0) (b : Bool) (s : Split) (rest : List Split)
    → P s
    → All P rest
    → All P ((if b then s ∷ [] else []) ++ rest)
optional_All P true s rest h k = (h, k)
optional_All P false s rest h k = k

splits-IsWritable :
    (args : Args) → check_args args ≡ ok tt → All (IsWritable args.events) (splits args)
unfolding splits train_split valid_split test_split challenge_split alias_split
splits-IsWritable args h =
    let enough = train_room args h in
    let eight : 8 * 4 < args.events = small_room args h in
    (
      record { fine = train_usable args; enough = enough },
      (
        record { fine = valid_usable args; enough = eight },
        (
          record { fine = test_usable args; enough = eight },
          optional_All (IsWritable args.events) args.role_layout_curriculum (challenge_split args) _
              (record { fine = challenge_usable args; enough = eight })
              (subst (All (IsWritable args.events)) (append_nil _) (
                optional_All (IsWritable args.events) args.factorized_semantic_validation
                  (alias_split args) [] (record { fine = alias_usable args; enough = enough }) tt)),
        ),
      ),
    )

write_splits_then :
    (r : Random) (args : Args) {files : List (Text × List Row)}
    → check_args args ≡ ok tt
    → write_splits r args.events args.queries_per_world (splits args) ≡ ok files
    → main r args ≡ ok files
unfolding main
write_splits_then r args checked written = bind-ok _ checked written

-- With arguments that pass the checks, and at most 800,000 events, `main` writes every file of its
-- splits, whatever the generator draws, and each file has one row for each query of each view of
-- each world.
pub main_total :
    (r : Random) (args : Args)
    → check_args args ≡ ok tt
    → args.events ≤ 800_000
    → (files : List (Text × List Row)) × (main r args ≡ ok files)
      × (map size_of_file files ≡ map (planned args.queries_per_world) (splits args))
main_total r args checked few =
    let (files, written, sizes) =
      write_splits_total r args.events args.queries_per_world (splits args) few
        (splits-IsWritable args checked) in
    (files, write_splits_then r args checked written, sizes)
