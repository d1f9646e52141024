-- ===== src/Schedule/Laws.antt =====
-- The schedule of python/joint_binding_schedule.py is full.
use mathlib.Core.Path.{subst}
use bit_net.Schedule.{
  Pair, kinds, of_kind, insert_pair, sort_pairs, Step, range_from, group, pick, pick_all,
  build_steps, check_group, check_schedule, pair_schedule,
}
use bit_net.Base.{
  ℕ, zero, suc, ◌+◌, ◌*◌, ◌/◌, ◌%◌, ◌≤◌, ◌<◌, ◌≡◌, refl, ap, ◌∙◌, ◌⊎◌, inl, inr, not, ◌&&◌, some,
  List, [], ◌∷◌, map, arith, ◌==◌, nat_eq, text_eq, texts_eq, option_eq, length, get_elem?, all,
  is_empty, All, distinct, subset, Error, ok, err, each, Text, lit, Result-cases, guard-eq-ok,
}

module _ (shuffle : Text → List Pair → List Pair) where
  -- The schedule is full.
  pub record IsScheduled (n : ℕ) (steps : List Step) : Type 0 where
    pub size : length steps ≡ n
    pub four : All (λ s. length s.pairs ≡ 4) steps

  module _ (pairs : List Pair)
      (enough : All (λ kind. length (group shuffle pairs kind) ≡ 48) kinds) where
    get_elem?-defined :
        {A : Type 0} (xs : List A) (i : ℕ) → i < length xs → (x : A) × (get_elem? xs i ≡ some x)
    get_elem?-defined [] i h = elim h [ ]
    get_elem?-defined (x ∷ xs) zero h = (x, refl)
    get_elem?-defined (x ∷ xs) (suc i) h = get_elem?-defined xs i (omega arith)

    All-get_elem? :
        (P : Text → Type 0) (xs : List Text) (i : ℕ) {x : Text}
        → All P xs
        → get_elem? xs i ≡ some x
        → P x
    All-get_elem? P [] i h e = cc
    All-get_elem? P (y ∷ xs) zero h e = subst P (ground arith) h.0
    All-get_elem? P (y ∷ xs) (suc i) h e = All-get_elem? P xs i h.1 e

    pick-defined : (i : ℕ) → i < 200 → (p : Pair) × (pick shuffle pairs i ≡ ok p)
    unfolding pick
    pick-defined i h =
        let (kind, found) = get_elem?-defined kinds (i % 10) (omega arith) in
        let size =
          All-get_elem? (λ k. length (group shuffle pairs k) ≡ 48) kinds (i % 10) enough found in
        let (p, given) =
          get_elem?-defined (group shuffle pairs kind) (i / 10) (omega (arith, size)) in
        (p, rw (found, given) refl)

    pick_all-defined :
        (i n : ℕ)
        → i + n ≤ 200
        → (ps : List Pair) × (pick_all shuffle pairs (range_from i n) ≡ ok ps) × (length ps ≡ n)
    unfolding pick_all range_from
    pick_all-defined i zero h = ([], refl, refl)
    pick_all-defined i (suc n) h =
        let (p, first) = pick-defined i (omega arith) in
        let (ps, rest, size) = pick_all-defined (suc i) n (omega arith) in
        (p ∷ ps, rw (first, rest) refl, ap suc size)

    build_steps-defined :
        (i n : ℕ)
        → i + n ≤ 50
        → (steps : List Step) × (build_steps shuffle pairs (range_from i n) ≡ ok steps)
          × IsScheduled n steps
    unfolding build_steps range_from
    build_steps-defined i zero h = ([], refl, record { size = refl; four = tt })
    build_steps-defined i (suc n) h =
        let (ps, first, four) = pick_all-defined (4 * i) 4 (omega arith) in
        let (rest, others, good) = build_steps-defined (suc i) n (omega arith) in
        (
          record { step = i + 1; pairs = ps } ∷ rest,
          rw (first, others) refl,
          record { size = ap suc good.size; four = (four, good.four) },
        )

  length-insert_pair : (p : Pair) (qs : List Pair) → length (insert_pair p qs) ≡ suc (length qs)
  unfolding insert_pair
  length-insert_pair p [] = refl
  length-insert_pair p (q ∷ qs) = ground (arith, length-insert_pair p qs)

  length-sort_pairs : (ps : List Pair) → length (sort_pairs ps) ≡ length ps
  unfolding sort_pairs
  length-sort_pairs [] = refl
  length-sort_pairs (p ∷ ps) = length-insert_pair p (sort_pairs ps) ∙ ap suc (length-sort_pairs ps)

  All-lengths :
      (pairs : List Pair) (ks : List Text)
      → ((kind : Text) (ps : List Pair) → length (shuffle kind ps) ≡ length ps)
      → each (check_group shuffle pairs) ks ≡ ok tt
      → All (λ kind. length (group shuffle pairs kind) ≡ 48) ks
  All-lengths pairs [] keeps h = tt
  All-lengths pairs (k ∷ ks) keeps h = (
    keeps k (sort_pairs (of_kind k pairs)) ∙ length-sort_pairs (of_kind k pairs) ∙ ground arith,
    All-lengths pairs ks keeps (ground arith),
  )

  checked-lengths :
      (pairs : List Pair) (seed steps : ℕ)
      → check_schedule shuffle pairs seed steps ≡ ok tt
      → (steps ≡ 50) × (each (check_group shuffle pairs) kinds ≡ ok tt)
  unfolding check_schedule
  checked-lengths pairs seed steps h =
      let (registered, h1) = guard-eq-ok (seed == 1013 && steps == 50) _ _ h in
      let (_, h2) =
        guard-eq-ok (not (is_empty pairs) && all (λ p. p.split == lit "train") pairs) _ _ h1 in
      let (_, h3) =
        guard-eq-ok
          (distinct (map (λ p. p.id) pairs)
            && (subset (map (λ p. p.kind) pairs) kinds && subset kinds (map (λ p. p.kind) pairs)))
          _ _ h2 in
      (ground arith, h3)

  -- Where the shuffle keeps the number of pairs, an inventory that is refused is refused by a check,
  -- and one that passes the checks has a schedule: no position is out of range, and there are fifty
  -- steps of four pairs each.
  pub pair_schedule-IsScheduled :
      ((kind : Text) (ps : List Pair) → length (shuffle kind ps) ≡ length ps)
      → (pairs : List Pair) (seed steps : ℕ)
      → ((x : Error) × (check_schedule shuffle pairs seed steps ≡ err x)
          × (pair_schedule shuffle pairs seed steps ≡ err x))
        ⊎ ((made : List Step) × (check_schedule shuffle pairs seed steps ≡ ok tt)
            × (pair_schedule shuffle pairs seed steps ≡ ok made)
            × IsScheduled 50 made)
  unfolding pair_schedule
  pair_schedule-IsScheduled keeps pairs seed steps =
      elim (Result-cases (check_schedule shuffle pairs seed steps)) [
        | inr (x, e) ↦ inl (x, e, rw e refl)
        | inl (u, e) ↦
            let (fifty, groups) = checked-lengths pairs seed steps e in
            let (made, built, full) =
              build_steps-defined pairs (All-lengths pairs kinds keeps groups) 0 50 (omega arith) in
            inr (
              made,
              e,
              rw e (ap (λ n. build_steps shuffle pairs (range_from 0 n)) fifty ∙ built),
              full,
            )
      ]
