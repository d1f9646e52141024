-- ===== src/Dialogue/Main/Curricula.antt =====
-- python/prepare_repeated_dialogue_curriculum.py: every split of `main` has a usable catalogue.
use bit_net.Base.Integers.{ℤ}
use bit_net.Base.{ℕ, ◌≡◌, refl, Bool, true, false, nat_eq, text_eq, texts_eq, option_eq}
use bit_net.Dialogue.Bank.{surface_forms}
use bit_net.Dialogue.Format.Laws.{names_from}
use bit_net.Dialogue.Main.{
  Args, train_predicates, train_aliases, heldout_aliases, valid_statement_templates,
  valid_update_templates, train_split, valid_split, test_split, challenge_split, alias_split,
}
use bit_net.Dialogue.Bank.Usable.{fits, usable_predicate, usable}

module _ (train_worlds valid_worlds events queries views : ℕ) (seed : ℤ) where
  abbrev args_of : (semantic factorized expanded large role : Bool) → Args
  args_of semantic factorized expanded large role = record {
    train_worlds = train_worlds;
    valid_worlds = valid_worlds;
    events = events;
    queries_per_world = queries;
    train_layout_views = views;
    semantic_reference_variation = semantic;
    factorized_semantic_validation = factorized;
    expanded_relation_curriculum = expanded;
    large_relation_curriculum = large;
    role_layout_curriculum = role;
    seed = seed;
  }

  train_usable_of : (s f e l r : Bool) → usable (train_split (args_of s f e l r)).catalogue ≡ true
  unfolding usable usable_predicate fits names_from surface_forms train_split train_predicates
      train_aliases
  train_usable_of false f e true true = refl
  train_usable_of false f true false true = refl
  train_usable_of false f false false true = refl
  train_usable_of false f e true false = refl
  train_usable_of false f true false false = refl
  train_usable_of false f false false false = refl
  train_usable_of true f e true true = refl
  train_usable_of true f true false true = refl
  train_usable_of true true false false true = refl
  train_usable_of true false false false true = refl
  train_usable_of true f e true false = refl
  train_usable_of true f true false false = refl
  train_usable_of true true false false false = refl
  train_usable_of true false false false false = refl

  valid_usable_of : (s f e l r : Bool) → usable (valid_split (args_of s f e l r)).catalogue ≡ true
  unfolding usable usable_predicate fits names_from surface_forms valid_split
      valid_statement_templates valid_update_templates
  valid_usable_of true f e l true = refl
  valid_usable_of true f e l false = refl
  valid_usable_of false f e l true = refl
  valid_usable_of false f e l false = refl

  test_usable_of : (s f e l r : Bool) → usable (test_split (args_of s f e l r)).catalogue ≡ true
  unfolding usable usable_predicate fits names_from surface_forms test_split
  test_usable_of true f e l r = refl
  test_usable_of false f e l r = refl

  challenge_usable_of :
      (s f e l r : Bool) → usable (challenge_split (args_of s f e l r)).catalogue ≡ true
  unfolding usable usable_predicate fits names_from surface_forms challenge_split
  challenge_usable_of true f e l r = refl
  challenge_usable_of false f e l r = refl

  alias_usable_of : (s f e l r : Bool) → usable (alias_split (args_of s f e l r)).catalogue ≡ true
  unfolding usable usable_predicate fits names_from surface_forms alias_split train_predicates
      heldout_aliases valid_statement_templates valid_update_templates
  alias_usable_of s f e true true = refl
  alias_usable_of s f e true false = refl
  alias_usable_of s f true false true = refl
  alias_usable_of s f true false false = refl
  alias_usable_of s f false false true = refl
  alias_usable_of s f false false false = refl

-- The catalogue of every split is usable, whatever the options.
pub train_usable : (args : Args) → usable (train_split args).catalogue ≡ true
train_usable args =
    train_usable_of args.train_worlds args.valid_worlds args.events args.queries_per_world
      args.train_layout_views args.seed args.semantic_reference_variation
      args.factorized_semantic_validation args.expanded_relation_curriculum
      args.large_relation_curriculum args.role_layout_curriculum

pub valid_usable : (args : Args) → usable (valid_split args).catalogue ≡ true
valid_usable args =
    valid_usable_of args.train_worlds args.valid_worlds args.events args.queries_per_world
      args.train_layout_views args.seed args.semantic_reference_variation
      args.factorized_semantic_validation args.expanded_relation_curriculum
      args.large_relation_curriculum args.role_layout_curriculum

pub test_usable : (args : Args) → usable (test_split args).catalogue ≡ true
test_usable args =
    test_usable_of args.train_worlds args.valid_worlds args.events args.queries_per_world
      args.train_layout_views args.seed args.semantic_reference_variation
      args.factorized_semantic_validation args.expanded_relation_curriculum
      args.large_relation_curriculum args.role_layout_curriculum

pub challenge_usable : (args : Args) → usable (challenge_split args).catalogue ≡ true
challenge_usable args =
    challenge_usable_of args.train_worlds args.valid_worlds args.events args.queries_per_world
      args.train_layout_views args.seed args.semantic_reference_variation
      args.factorized_semantic_validation args.expanded_relation_curriculum
      args.large_relation_curriculum args.role_layout_curriculum

pub alias_usable : (args : Args) → usable (alias_split args).catalogue ≡ true
alias_usable args =
    alias_usable_of args.train_worlds args.valid_worlds args.events args.queries_per_world
      args.train_layout_views args.seed args.semantic_reference_variation
      args.factorized_semantic_validation args.expanded_relation_curriculum
      args.large_relation_curriculum args.role_layout_curriculum
