-- ===== src/Dialogue/Main/Unseen.antt =====
-- python/prepare_repeated_dialogue_curriculum.py: the training split against each of the others.
use bit_net.Base.Integers.{ℤ}
use bit_net.Base.{
  ℕ, zero, suc, ◌≡◌, refl, sym, ◌∙◌, ◌≢◌, Bool, true, false, some, List, [], ◌∷◌, ◌++◌, arith,
  if◌then◌else◌, nat_eq, text_eq, texts_eq, option_eq, get_elem?, drop, append_nil, All, ok,
}
use mathlib.Core.Path.{subst}
use bit_net.Dialogue.Bank.{Random, Fact, Bank, surface_forms, build_episode_bank}
use bit_net.Dialogue.Splits.{Split}
use bit_net.Dialogue.Main.{
  Args, check_args, train_predicates, train_aliases, heldout_aliases, train_split, valid_split,
  test_split, challenge_split, alias_split, splits,
}
use bit_net.Dialogue.Bank.Named.{all_surfaces, apart, apart-unseen}

module _ (train_worlds valid_worlds events queries views : ℕ) (seed : ℤ) where
  abbrev args_of : (semantic factorized expanded large role : Bool) → Args
  args_of semantic factorized expanded large role = record {
    train_worlds = train_worlds;
    valid_worlds = valid_worlds;
    events = events;
    queries_per_world = queries;
    train_layout_views = views;
    semantic_reference_variation = semantic;
    factorized_semantic_validation = factorized;
    expanded_relation_curriculum = expanded;
    large_relation_curriculum = large;
    role_layout_curriculum = role;
    seed = seed;
  }

  valid_apart_of :
      (s f e l r : Bool)
      → apart
          (train_split (args_of s f e l r)).catalogue
          (valid_split (args_of s f e l r)).catalogue
        ≡ true
  unfolding apart all_surfaces surface_forms train_split train_predicates train_aliases valid_split
  valid_apart_of false f e true r = refl
  valid_apart_of false f true false r = refl
  valid_apart_of false f false false r = refl
  valid_apart_of true f e true r = refl
  valid_apart_of true f true false r = refl
  valid_apart_of true true false false r = refl
  valid_apart_of true false false false r = refl

  test_apart_of :
      (s f e l r : Bool)
      → apart (train_split (args_of s f e l r)).catalogue (test_split (args_of s f e l r)).catalogue
        ≡ true
  unfolding apart all_surfaces surface_forms train_split train_predicates train_aliases test_split
  test_apart_of false f e true r = refl
  test_apart_of false f true false r = refl
  test_apart_of false f false false r = refl
  test_apart_of true f e true r = refl
  test_apart_of true f true false r = refl
  test_apart_of true true false false r = refl
  test_apart_of true false false false r = refl

  challenge_apart_of :
      (s f e l r : Bool)
      → apart
          (train_split (args_of s f e l r)).catalogue
          (challenge_split (args_of s f e l r)).catalogue
        ≡ true
  unfolding apart all_surfaces surface_forms train_split train_predicates train_aliases
      challenge_split
  challenge_apart_of false f e true r = refl
  challenge_apart_of false f true false r = refl
  challenge_apart_of false f false false r = refl
  challenge_apart_of true f e true r = refl
  challenge_apart_of true f true false r = refl
  challenge_apart_of true true false false r = refl
  challenge_apart_of true false false false r = refl

  alias_apart_of :
      (e l r : Bool)
      → apart
          (train_split (args_of true true e l r)).catalogue
          (alias_split (args_of true true e l r)).catalogue
        ≡ true
  unfolding apart all_surfaces surface_forms train_split train_predicates train_aliases alias_split
      heldout_aliases
  alias_apart_of e true r = refl
  alias_apart_of true false r = refl
  alias_apart_of false false r = refl

-- The training split is apart from a split.
abbrev IsApart : Args → Split → Type 0
IsApart args split = apart (train_split args).catalogue split.catalogue ≡ true

optional_All :
    (P : Split → Type 0) (b : Bool) (s : Split) (rest : List Split)
    → (b ≡ true → P s)
    → All P rest
    → All P ((if b then s ∷ [] else []) ++ rest)
optional_All P true s rest h k = (h refl, k)
optional_All P false s rest h k = k

valid-IsApart : (args : Args) → IsApart args (valid_split args)
valid-IsApart args =
    valid_apart_of args.train_worlds args.valid_worlds args.events args.queries_per_world
      args.train_layout_views args.seed args.semantic_reference_variation
      args.factorized_semantic_validation args.expanded_relation_curriculum
      args.large_relation_curriculum args.role_layout_curriculum

test-IsApart : (args : Args) → IsApart args (test_split args)
test-IsApart args =
    test_apart_of args.train_worlds args.valid_worlds args.events args.queries_per_world
      args.train_layout_views args.seed args.semantic_reference_variation
      args.factorized_semantic_validation args.expanded_relation_curriculum
      args.large_relation_curriculum args.role_layout_curriculum

challenge-IsApart : (args : Args) → IsApart args (challenge_split args)
challenge-IsApart args =
    challenge_apart_of args.train_worlds args.valid_worlds args.events args.queries_per_world
      args.train_layout_views args.seed args.semantic_reference_variation
      args.factorized_semantic_validation args.expanded_relation_curriculum
      args.large_relation_curriculum args.role_layout_curriculum

alias-IsApart :
    (args : Args)
    → check_args args ≡ ok tt
    → args.factorized_semantic_validation ≡ true
    → IsApart args (alias_split args)
unfolding check_args
alias-IsApart args h factorized =
    let semantic : args.semantic_reference_variation ≡ true = ground arith in
    let same : args_of args.train_worlds args.valid_worlds args.events args.queries_per_world
          args.train_layout_views args.seed true true args.expanded_relation_curriculum
          args.large_relation_curriculum args.role_layout_curriculum
        ≡ args =
      cc in
    subst (λ a. IsApart a (alias_split a)) same
      (alias_apart_of args.train_worlds args.valid_worlds args.events args.queries_per_world
        args.train_layout_views args.seed args.expanded_relation_curriculum
        args.large_relation_curriculum args.role_layout_curriculum)

others-IsApart : (args : Args) → check_args args ≡ ok tt → All (IsApart args) (drop 1 (splits args))
unfolding splits
others-IsApart args h = (
  valid-IsApart args,
  (
    test-IsApart args,
    optional_All (IsApart args) args.role_layout_curriculum (challenge_split args) _
        (λ on. challenge-IsApart args)
        (subst (All (IsApart args)) (append_nil _) (
          optional_All (IsApart args) args.factorized_semantic_validation (alias_split args) []
            (alias-IsApart args h) tt)),
  ),
)

All-get_elem? :
    (P : Split → Type 0) (xs : List Split) (i : ℕ) (x : Split)
    → All P xs
    → get_elem? xs i ≡ some x
    → P x
All-get_elem? P [] i x h at = cc
All-get_elem? P (y ∷ ys) zero x h at = let same : y ≡ x = ground arith in subst P same h.0
All-get_elem? P (y ∷ ys) (suc i) x h at = All-get_elem? P ys i x h.1 at

get_elem?-drop : (xs : List Split) (k : ℕ) → get_elem? xs (suc k) ≡ get_elem? (drop 1 xs) k
get_elem?-drop [] k = refl
get_elem?-drop (x ∷ xs) k = refl

first_split : (args : Args) → get_elem? (splits args) 0 ≡ some (train_split args)
unfolding splits
first_split args = refl

-- With arguments that pass the checks, the first split is the training split, and no fact of a bank
-- that is built for it has the speaker or the surface form of a fact of a bank that is built for
-- another split, whatever their worlds, their numbers of events and what the generator draws.
pub splits-unseen :
    (args : Args) (k : ℕ) (split : Split) (r : Random) (world world' events events' : ℕ)
    (rng rng' : r.State) (bank bank' : Bank r) (i j : ℕ) (f g : Fact)
    → check_args args ≡ ok tt
    → get_elem? (splits args) (suc k) ≡ some split
    → build_episode_bank r world events rng (train_split args).catalogue ≡ ok bank
    → build_episode_bank r world' events' rng' split.catalogue ≡ ok bank'
    → get_elem? bank.facts i ≡ some f
    → get_elem? bank'.facts j ≡ some g
    → (get_elem? (splits args) 0 ≡ some (train_split args))
      × (f.speaker ≢ g.speaker)
      × (f.predicate_surface ≢ g.predicate_surface)
splits-unseen args k split r world world' events events' rng rng' bank bank' i j f g checked at
      built built' here there =
    let later : get_elem? (drop 1 (splits args)) k ≡ some split =
      sym (get_elem?-drop (splits args) k) ∙ at in
    let parted =
      All-get_elem? (IsApart args) (drop 1 (splits args)) k split (others-IsApart args checked)
        later in
    let (speaker, surface) =
      apart-unseen (train_split args).catalogue split.catalogue r world world' events events' rng
        rng' bank bank' i j f g parted built built' here there in
    (first_split args, speaker, surface)
