-- ===== src/Dialogue/Main.antt =====
-- python/prepare_repeated_dialogue_curriculum.py: `main`, its checks of the arguments and its files.
-- The printed report is left out.
pub mod Curricula
pub mod Finished
pub mod Unseen
use bit_net.Base.Integers.{ℤ, pos, ◌+ℤ◌}
use bit_net.Base.{
  ℕ, ◌+◌, Bool, true, false, not, ◌&&◌, Option, none, some, List, [], ◌∷◌, ◌++◌, min, ltb,
  if◌then◌else◌, Result, ok, Check, ◌>>=◌, ◌>>◌, guard, Text, lit, system_exit,
}
use bit_net.Dialogue.Catalog.{Predicate, Aliases}
use bit_net.Dialogue.Catalog.Speakers.{speakers, validation_speakers, test_speakers}
use bit_net.Dialogue.Catalog.Predicates.{predicates, validation_predicates}
use bit_net.Dialogue.Catalog.Alias.{predicate_aliases, validation_predicate_aliases}
use bit_net.Dialogue.Catalog.Templates.{
  validation_statements, validation_updates, test_statements, test_updates, train_statements,
  train_updates,
}
use bit_net.Dialogue.Catalog.Roles.{
  role_train_statements, role_train_updates, role_validation_statements, role_validation_updates,
  role_challenge_statements, role_challenge_updates,
}
use bit_net.Dialogue.Catalog.Derived.{
  expanded_predicates, large_predicates, test_predicates, test_predicate_aliases,
  train_predicate_aliases, heldout_predicate_aliases, expanded_train_predicate_aliases,
  expanded_heldout_predicate_aliases, large_train_predicate_aliases,
  large_heldout_predicate_aliases,
}
use bit_net.Dialogue.Bank.{Random}
use bit_net.Dialogue.Rows.{Row}
use bit_net.Dialogue.Splits.{Split, write_split, write_worlds}

pub record Args : Type 0 where
  pub train_worlds : ℕ
  pub valid_worlds : ℕ
  pub events : ℕ
  pub queries_per_world : ℕ
  pub train_layout_views : ℕ
  pub semantic_reference_variation : Bool
  pub factorized_semantic_validation : Bool
  pub expanded_relation_curriculum : Bool
  pub large_relation_curriculum : Bool
  pub role_layout_curriculum : Bool
  pub seed : ℤ

unfoldable pub check_args : Args → Check
check_args args = do
  guard (not (ltb (min args.train_worlds args.valid_worlds) 1))
      (system_exit "world counts must be positive")
  guard (not (ltb args.events 64))
      (system_exit "--events must be at least 64 so every speaker has updates")
  guard (not (ltb args.queries_per_world 6)) (system_exit "--queries-per-world must be at least 6")
  guard (not (ltb args.train_layout_views 1)) (system_exit "--train-layout-views must be positive")
  guard (not (args.factorized_semantic_validation && not args.semantic_reference_variation))
      (system_exit "--factorized-semantic-validation requires --semantic-reference-variation")
  guard (not (args.expanded_relation_curriculum && not args.factorized_semantic_validation))
      (system_exit "--expanded-relation-curriculum requires --factorized-semantic-validation")
  guard (not (args.large_relation_curriculum && not args.expanded_relation_curriculum))
      (system_exit "--large-relation-curriculum requires --expanded-relation-curriculum")
  guard (not (args.expanded_relation_curriculum && ltb args.events 256))
      (system_exit "--expanded-relation-curriculum requires --events at least 256")
  guard (not (args.large_relation_curriculum && ltb args.events 512))
      (system_exit "--large-relation-curriculum requires --events at least 512")

module _ (args : Args) where
  open args use {
    train_worlds, valid_worlds, train_layout_views, semantic_reference_variation,
    factorized_semantic_validation, expanded_relation_curriculum, large_relation_curriculum,
    role_layout_curriculum, seed,
  }

  unfoldable pub train_predicates : List Predicate
  train_predicates =
      if large_relation_curriculum
      then large_predicates
      else if expanded_relation_curriculum
      then expanded_predicates
      else predicates

  unfoldable pub train_aliases : Option Aliases
  train_aliases =
      if semantic_reference_variation
      then (if large_relation_curriculum
          then some large_train_predicate_aliases
          else if expanded_relation_curriculum
          then some expanded_train_predicate_aliases
          else if factorized_semantic_validation
          then some train_predicate_aliases
          else some predicate_aliases)
      else none

  unfoldable pub heldout_aliases : Aliases
  heldout_aliases =
      if large_relation_curriculum
      then large_heldout_predicate_aliases
      else if expanded_relation_curriculum
      then expanded_heldout_predicate_aliases
      else heldout_predicate_aliases

  unfoldable pub valid_statement_templates : List Text
  valid_statement_templates =
      if role_layout_curriculum then role_validation_statements else validation_statements

  unfoldable pub valid_update_templates : List Text
  valid_update_templates =
      if role_layout_curriculum then role_validation_updates else validation_updates

  -- `test_predicate_aliases if args.semantic_reference_variation else None`
  abbrev pub if_varied : Aliases → Option Aliases
  if_varied table = if semantic_reference_variation then some table else none

  unfoldable pub train_split : Split
  unfolding train_predicates train_aliases
  train_split = record {
    file = lit "train.jsonl";
    worlds = train_worlds;
    seed = seed +ℤ pos 101;
    world_offset = 0;
    catalogue = record {
      speakers_catalog = speakers;
      predicates = train_predicates;
      predicate_aliases = train_aliases;
      include_canonical_predicate_surface = true;
      statement_templates =
          if role_layout_curriculum then role_train_statements else train_statements;
      update_templates = if role_layout_curriculum then role_train_updates else train_updates;
    };
    layout_views = train_layout_views;
  }

  unfoldable pub valid_split : Split
  unfolding valid_statement_templates valid_update_templates
  valid_split = record {
    file = lit "valid.jsonl";
    worlds = valid_worlds;
    seed = seed +ℤ pos 307;
    world_offset = 1_000_000;
    catalogue = record {
      speakers_catalog = validation_speakers;
      predicates = validation_predicates;
      predicate_aliases = if_varied validation_predicate_aliases;
      include_canonical_predicate_surface = true;
      statement_templates = valid_statement_templates;
      update_templates = valid_update_templates;
    };
    layout_views = 1;
  }

  unfoldable pub test_split : Split
  test_split = record {
    file = lit "test.jsonl";
    worlds = valid_worlds;
    seed = seed +ℤ pos 709;
    world_offset = 3_000_000;
    catalogue = record {
      speakers_catalog = test_speakers;
      predicates = test_predicates;
      predicate_aliases = if_varied test_predicate_aliases;
      include_canonical_predicate_surface = true;
      statement_templates = test_statements;
      update_templates = test_updates;
    };
    layout_views = 1;
  }

  unfoldable pub challenge_split : Split
  challenge_split = record {
    file = lit "challenge.jsonl";
    worlds = valid_worlds;
    seed = seed +ℤ pos 907;
    world_offset = 4_000_000;
    catalogue = record {
      speakers_catalog = test_speakers;
      predicates = test_predicates;
      predicate_aliases = if_varied test_predicate_aliases;
      include_canonical_predicate_surface = true;
      statement_templates = role_challenge_statements;
      update_templates = role_challenge_updates;
    };
    layout_views = 1;
  }

  unfoldable pub alias_split : Split
  unfolding train_predicates heldout_aliases valid_statement_templates valid_update_templates
  alias_split = record {
    file = lit "valid_alias.jsonl";
    worlds = valid_worlds;
    seed = seed +ℤ pos 503;
    world_offset = 2_000_000;
    catalogue = record {
      speakers_catalog = validation_speakers;
      predicates = train_predicates;
      predicate_aliases = some heldout_aliases;
      include_canonical_predicate_surface = false;
      statement_templates = valid_statement_templates;
      update_templates = valid_update_templates;
    };
    layout_views = 1;
  }

  -- The calls of `write_split`, in their order.
  unfoldable pub splits : List Split
  unfolding train_split valid_split test_split challenge_split alias_split
  splits =
      train_split ∷ valid_split ∷ test_split ∷ []
      ++ (if role_layout_curriculum then challenge_split ∷ [] else [])
      ++ (if factorized_semantic_validation then alias_split ∷ [] else [])

unfoldable pub write_splits : Random → ℕ → ℕ → List Split → Result (List (Text × List Row))
unfolding write_worlds
write_splits r events queries [] = ok []
write_splits r events queries (split ∷ rest) = do
  rows ← write_split r events queries split
  files ← write_splits r events queries rest
  ok ((split.file, rows) ∷ files)

unfoldable pub main : Random → Args → Result (List (Text × List Row))
unfolding check_args splits write_splits
main r args = do check_args args; write_splits r args.events args.queries_per_world (splits args)
