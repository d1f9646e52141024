-- ===== src/Schedule.antt =====
-- python/joint_binding_schedule.py: the fixed schedule of training pairs. The shuffle of the seeded
-- generator is a parameter.
pub mod Laws
use bit_net.Contract.{require}
use bit_net.Base.{
  ℕ, zero, suc, ◌+◌, ◌-◌, ◌*◌, ◌/◌, ◌%◌, ◌≤◌, ◌<◌, min, String, ◌≡◌, refl, sym, ap, ◌∙◌, ◌≢◌, ◌↔◌,
  ◌⊎◌, inl, inr, Bool, true, false, not, ◌&&◌, ◌||◌, Option, none, some, List, [], ◌∷◌, ◌++◌, map,
  arith, ltb, leb, if◌then◌else◌, Bool-cases, Option-cases, Eq, ◌==◌, eq_iff, nat_eq, text_eq,
  texts_eq, option_eq, length, get_elem?, take, drop, all, any, is_empty, length-append, append_nil,
  append_assoc, take-append-drop, length-take, take-length, take-suc, take-append, drop-append, All,
  Some, all_iff, all-append, elem, distinct, subset, disjoint, elem-append, Error, value_error,
  transport_error, prefix_retokenization_required, unsafe_token, transport_budget_exceeded,
  unicode_encode_error, unicode_decode_error, Result, ok, err, Check, ◌>>=◌, ◌>>◌, guard, or_raise,
  drop_value, each, each_iff, Text, Bytes, lit, has_content, is_sha256, Result-cases, guard-eq-ok,
  check-eq-ok, bind-eq-ok, or_raise-eq-ok, drop_value-eq-ok, bool_ext,
}

pub record Pair : Type 0 where
  pub id : Text
  pub split : Text
  pub kind : Text

-- `KINDS`
abbrev pub kinds : List Text
kinds =
    lit "role_swap"
    ∷ lit "value_swap"
    ∷ lit "clause_reorder"
    ∷ lit "paraphrase"
    ∷ lit "wrong_subject"
    ∷ lit "wrong_relation"
    ∷ lit "negated"
    ∷ lit "historical"
    ∷ lit "empty"
    ∷ lit "ordinary_empty"
    ∷ []

unfoldable pub of_kind : Text → List Pair → List Pair
of_kind kind [] = []
of_kind kind (p ∷ ps) = if p.kind == kind then p ∷ of_kind kind ps else of_kind kind ps

pub record Step : Type 0 where
  pub step : ℕ
  pub pairs : List Pair

-- `range(i, i + n)`
unfoldable pub range_from : ℕ → ℕ → List ℕ
range_from i zero = []
range_from i (suc n) = i ∷ range_from (suc i) n

-- `s <= t`
abbrev pub text_leb : Text → Text → Bool
text_leb [] t = true
text_leb (c ∷ s) [] = false
text_leb (c ∷ s) (d ∷ t) = ltb c d || c == d && text_leb s t

-- `sorted(…, key=lambda p: p['id'])`
unfoldable pub insert_pair : Pair → List Pair → List Pair
insert_pair p [] = p ∷ []
insert_pair p (q ∷ qs) = if text_leb p.id q.id then p ∷ q ∷ qs else q ∷ insert_pair p qs

unfoldable pub sort_pairs : List Pair → List Pair
sort_pairs [] = []
sort_pairs (p ∷ ps) = insert_pair p (sort_pairs ps)

-- What `rng.shuffle` makes of the sorted pairs of a kind; the generator goes through the kinds in
-- order, so that the kind stands for its state.
module _ (shuffle : Text → List Pair → List Pair) where
  abbrev pub group : List Pair → Text → List Pair
  group pairs kind = shuffle kind (sort_pairs (of_kind kind pairs))

  -- `groups[KINDS[i % 10]][i // 10]`
  unfoldable pub pick : List Pair → ℕ → Result Pair
  pick pairs i = do
    kind ← or_raise (get_elem? kinds (i % 10)) (value_error "list index out of range")
    or_raise (get_elem? (group pairs kind) (i / 10)) (value_error "list index out of range")

  unfoldable pub pick_all : List Pair → List ℕ → Result (List Pair)
  pick_all pairs [] = ok []
  pick_all pairs (i ∷ is) = do p ← pick pairs i; ps ← pick_all pairs is; ok (p ∷ ps)

  unfoldable pub build_steps : List Pair → List ℕ → Result (List Step)
  build_steps pairs [] = ok []
  build_steps pairs (step ∷ steps) = do
    ps ← pick_all pairs (range_from (4 * step) 4)
    rest ← build_steps pairs steps
    ok (record { step = step + 1; pairs = ps } ∷ rest)

  abbrev pub check_group : List Pair → Text → Check
  check_group pairs kind =
      require (length (of_kind kind pairs) == 48) "expected all 12 training worlds in each kind"

  -- The checks of the inventory.
  unfoldable pub check_schedule : List Pair → ℕ → ℕ → Check
  check_schedule pairs seed steps = do
    require (seed == 1013 && steps == 50) "unregistered schedule variation"
    require (not (is_empty pairs) && all (λ p. p.split == lit "train") pairs) "train pairs only"
    require
        (distinct (map (λ p. p.id) pairs)
          && (subset (map (λ p. p.kind) pairs) kinds && subset kinds (map (λ p. p.kind) pairs)))
        "duplicate/incomplete pair inventory"
    each (check_group pairs) kinds

  unfoldable pub pair_schedule : List Pair → ℕ → ℕ → Result (List Step)
  pair_schedule pairs seed steps = do
    check_schedule pairs seed steps
    build_steps pairs (range_from 0 steps)
