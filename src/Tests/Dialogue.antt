-- ===== src/Tests/Dialogue.antt =====
-- The repeated-dialogue curriculum on small worlds.
use bit_net.Base.Integers.{ℤ, pos, negsuc}
use bit_net.Base.{
  ℕ, ◌+◌, ◌%◌, ◌<◌, ◌≡◌, refl, ◌≢◌, true, false, Option, none, some, List, [], ◌∷◌, map, arith,
  length, get_elem?, take, All, Result, ok, err, Text, lit, if◌then◌else◌, ltb,
}
use bit_net.Dialogue.Format.{format, find, join_lines}
use bit_net.Dialogue.Bank.{Random, Fact, events_of, Bank, build_episode_bank}
use bit_net.Dialogue.Rows.{
  Span, answer_spans, single, plan_of, Row, make_row, Family, families, latest_of, repeated_of,
}
use bit_net.Dialogue.Worlds.{ask}
use bit_net.Dialogue.Worlds.Answers.{IsAnswered}
use bit_net.Dialogue.Worlds.Truth.{ask-IsAnswered}
use bit_net.Dialogue.Splits.{Split, label_row, write_split}
use bit_net.Dialogue.Splits.Order.{read_ids, write_split-read_ids}
use bit_net.Dialogue.Main.{Args, splits, main, train_split, valid_split}
use bit_net.Dialogue.Bank.Places.{key_of, places_of, marks_of}
use bit_net.Dialogue.Rows.Spans.{IsCut, answer_spans-IsCut}
use bit_net.Dialogue.Bank.Versions.{build_episode_bank-marks_of}
use bit_net.Dialogue.Main.Finished.{size_of_file, planned, main_total}
use bit_net.Dialogue.Main.Unseen.{splits-unseen}
use bit_net.Dialogue.Splits.Ids.{read_sample_id, label_row-read_sample_id}

mod_lt : (s n : ℕ) → 0 < n → s % n < n
mod_lt s n h = ground arith

-- `random.Random` of an integer does not see its sign.
abbrev magnitude : ℤ → ℕ
magnitude (pos n) = n
magnitude (negsuc n) = n + 1

-- A generator whose numbers run up, reduced by the bound.
abbrev counter : Random
counter = record {
  State = ℕ;
  seeded = magnitude;
  randbelow = λ s n. (s % n, s + 1);
  randbelow_lt = mod_lt;
}

abbrev two_episodes : List Text
two_episodes = lit "Ada: tea." ∷ lit "Bo: coffee now." ∷ []

abbrev second : List ℕ
second = 1 ∷ []

abbrev coffee_span : List Span
coffee_span = record { start = 14; end = 20; text = lit "coffee" } ∷ []

answer_spans-IsCut_example :
    All (IsCut (join_lines two_episodes)) coffee_span
    × (map (λ s. s.text) coffee_span ≡ take (length second) (lit "coffee" ∷ lit "unused" ∷ []))
unfolding answer_spans find
answer_spans-IsCut_example =
    answer_spans-IsCut two_episodes second (lit "coffee" ∷ lit "unused" ∷ []) coffee_span refl

abbrev args : Args
args = record {
  train_worlds = 2;
  valid_worlds = 1;
  events = 64;
  queries_per_world = 6;
  train_layout_views = 2;
  semantic_reference_variation = true;
  factorized_semantic_validation = true;
  expanded_relation_curriculum = false;
  large_relation_curriculum = false;
  role_layout_curriculum = true;
  seed = negsuc 6;
}

abbrev bank_of : Result (Bank counter) → Bank counter
bank_of (ok bank) = bank
bank_of (err e) = record { speakers = []; episodes = []; facts = []; history = []; rng = 0 }

abbrev no_fact : Fact
no_fact = record {
  event = 0;
  speaker = [];
  predicate_index = 0;
  predicate = [];
  predicate_surface = [];
  value = [];
  date = [];
  marks = none;
}

abbrev fact_of : Option Fact → Fact
fact_of none = no_fact
fact_of (some f) = f

abbrev train_bank : Bank counter
train_bank = bank_of (build_episode_bank counter 0 20 5 (train_split args).catalogue)

abbrev valid_bank : Bank counter
valid_bank = bank_of (build_episode_bank counter 1 3 5 (valid_split args).catalogue)

abbrev again : Fact
again = fact_of (get_elem? train_bank.facts 16)

abbrev other : Fact
other = fact_of (get_elem? valid_bank.facts 2)

build_episode_bank-marks_of_example :
    (length train_bank.facts ≡ 20)
    × (again.event ≡ 16)
    × (again.marks ≡ some (marks_of (map key_of train_bank.facts) 16 (key_of again)))
    × (events_of (key_of again) train_bank.history
        ≡ places_of (key_of again) 0 (map key_of train_bank.facts))
unfolding build_episode_bank train_split bit_net.Dialogue.Format.format_from
    bit_net.Dialogue.Dates.add_days bit_net.Dialogue.Dates.next_day
build_episode_bank-marks_of_example =
    build_episode_bank-marks_of counter 0 20 5 (train_split args).catalogue train_bank 16 again refl
      refl

splits-unseen_example :
    (get_elem? (splits args) 0 ≡ some (train_split args))
    × (again.speaker ≢ other.speaker)
    × (again.predicate_surface ≢ other.predicate_surface)
unfolding bit_net.Dialogue.Main.check_args splits build_episode_bank
    bit_net.Dialogue.Format.format_from bit_net.Dialogue.Dates.add_days
    bit_net.Dialogue.Dates.next_day
splits-unseen_example =
    splits-unseen args 0 (valid_split args) counter 0 1 20 3 5 5 train_bank valid_bank 16 2 again
      other refl refl refl refl refl refl

main_total_example :
    (files : List (Text × List Row)) × (main counter args ≡ ok files)
    × (map size_of_file files ≡ map (planned args.queries_per_world) (splits args))
unfolding bit_net.Dialogue.Main.check_args
main_total_example = main_total counter args refl (omega arith)

abbrev no_row : Row
no_row = record {
  sample_id = [];
  question = [];
  evidence = [];
  answer_type = [];
  answer = single [];
  spans = [];
  family = [];
  world_id = [];
  source_count = 0;
  counterfactual_no_info = false;
  typed_events = [];
  query_plan = plan_of [] [];
  semantic_world_id = none;
  layout_view = none;
}

abbrev row_of : Result Row → Row
row_of (ok row) = row
row_of (err e) = no_row

abbrev coffee_row : Row
coffee_row = row_of (
    make_row 1_000_012 5 two_episodes [] (lit "?") (single (lit "coffee")) second
      (lit "coffee" ∷ []) (lit "direct") false (plan_of (lit "current") []))

label_row-read_sample_id_example :
    read_sample_id (label_row 1_000_012 3 4 coffee_row).sample_id
    ≡ (1_000_012, 5, if ltb 1 4 then some 3 else none)
unfolding make_row find
label_row-read_sample_id_example =
    label_row-read_sample_id 1_000_012 5 3 4 two_episodes [] (lit "?") (single (lit "coffee"))
      second (lit "coffee" ∷ []) (lit "direct") false (plan_of (lit "current") []) coffee_row refl

abbrev list_of : Result (List ℕ) → List ℕ
list_of (ok ns) = ns
list_of (err e) = []

abbrev latest_places : List ℕ
latest_places = list_of (latest_of train_bank.history)

abbrev asked_of : Result (Row × ℕ) → Row × ℕ
asked_of (ok asked) = asked
asked_of (err e) = (no_row, 0)

-- The question on what a speaker had before.
abbrev previous_row : Row × ℕ
previous_row = asked_of (
    ask counter 0 3 train_bank (train_split args).catalogue.predicates latest_places
      (repeated_of train_bank.history) 9)

ask-IsAnswered_example :
    (family : Family) × (get_elem? families (3 % 6) ≡ some family)
    × IsAnswered counter train_bank (train_split args).catalogue.predicates family previous_row.0
unfolding build_episode_bank train_split latest_of repeated_of ask
    bit_net.Dialogue.Format.format_from bit_net.Dialogue.Dates.add_days
    bit_net.Dialogue.Dates.next_day find bit_net.Dialogue.Format.padded
    bit_net.Dialogue.Dates.isoformat
ask-IsAnswered_example =
    ask-IsAnswered counter 0 20 3 5 9 (train_split args).catalogue train_bank latest_places
      previous_row refl refl refl

abbrev rows_of : Result (List Row) → List Row
rows_of (ok rows) = rows
rows_of (err e) = []

-- Two views of a world of its own.
abbrev small_split : Split
small_split = record (train_split args) { worlds = 1; world_offset = 7 }

abbrev small_file : List Row
small_file = rows_of (write_split counter 20 2 small_split)

write_split-read_ids_example :
    read_ids small_file ≡ (7, 0, some 0) ∷ (7, 1, some 0) ∷ (7, 0, some 1) ∷ (7, 1, some 1) ∷ []
unfolding build_episode_bank train_split latest_of repeated_of ask
    bit_net.Dialogue.Format.format_from bit_net.Dialogue.Dates.add_days
    bit_net.Dialogue.Dates.next_day find bit_net.Dialogue.Format.padded
    bit_net.Dialogue.Dates.isoformat bit_net.Dialogue.Splits.write_worlds
    bit_net.Dialogue.Worlds.build_world bit_net.Base.Integers.◌+ℤ◌
write_split-read_ids_example = write_split-read_ids counter 20 2 small_split small_file refl
