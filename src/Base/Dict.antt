-- ===== src/Base/Dict.antt =====
-- Python's `dict` with keys that are compared, in insertion order.
use mathlib.Core.Path.{◌≡◌, refl, subst}
use mathlib.Core.Logic.{inl, inr}
use mathlib.Core.Bool.{Bool, true, false}
use mathlib.Core.Option.{Option, none, some}
use mathlib.Core.List.{List, [], ◌∷◌, map}
use native.Mathlib.Omega.{arith}
use bit_net.Base.Tests.{Eq, ◌==◌, eq_iff, Option-cases, if◌then◌else◌}
use bit_net.Base.Lists.{elem, distinct, Some}

abbrev pub Dict {ℓ κ} : Type ℓ → Type κ → Type (ℓ ⊔ κ)
Dict K V = List (K × V)

module _ {ℓ κ} {K : Type ℓ} ⦃e : Eq K⦄ {V : Type κ} where
  -- `d.get(k)`
  abbrev pub lookup : K → Dict K V → Option V
  lookup k [] = none
  lookup k ((j, v) ∷ d) = if k == j then some v else lookup k d

  -- `d[k] = v`
  abbrev pub insert : K → V → Dict K V → Dict K V
  insert k v [] = (k, v) ∷ []
  insert k v ((j, w) ∷ d) = if k == j then (j, v) ∷ d else (j, w) ∷ insert k v d

  -- `k in d`
  abbrev pub contains : K → Dict K V → Bool
  contains k d = elim (lookup k d) [ none ↦ false | some v ↦ true ]

  pub lookup-insert :
      (k j : K) (v : V) (d : Dict K V)
      → lookup j (insert k v d) ≡ (if j == k then some v else lookup j d)
  lookup-insert k j v [] = refl
  lookup-insert k j v ((i, w) ∷ d) =
      ground (arith, eq_iff k i, eq_iff j i, eq_iff j k, lookup-insert k j v d)

module _ {ℓ κ} {K : Type ℓ} ⦃e : Eq K⦄ {V : Type κ} (key : V → K) where
  -- `{key(x): x for x in xs}`, from a dict on: a later value replaces an earlier one.
  unfoldable pub index_from : Dict K V → List V → Dict K V
  index_from d [] = d
  index_from d (x ∷ xs) = index_from (insert (key x) x d) xs

  pub lookup-index_from_cons :
      (k : K) (d : Dict K V) (xs : List V)
      → lookup k (index_from d xs)
        ≡ elim (lookup k (index_from [] xs)) [ some v ↦ some v | none ↦ lookup k d ]
  unfolding index_from
  lookup-index_from_cons k d [] = refl
  lookup-index_from_cons k d (x ∷ xs) = ground (
    arith,
    lookup-index_from_cons k (insert (key x) x d) xs,
    lookup-index_from_cons k (insert (key x) x []) xs,
    lookup-insert (key x) k x d,
  )

  abbrev pub index : List V → Dict K V
  index xs = index_from [] xs

  pub lookup-index_cons :
      (k : K) (x : V) (xs : List V)
      → lookup k (index (x ∷ xs)) ≡ elim (lookup k (index xs)) [
        | some v ↦ some v
        | none ↦ if k == key x then some x else none
      ]
  unfolding index_from
  lookup-index_cons k x xs = lookup-index_from_cons k ((key x, x) ∷ []) xs

  -- What an index returns is a listed value with that key.
  pub lookup-index-key : (k : K) (xs : List V) {v : V} → lookup k (index xs) ≡ some v → key v ≡ k
  unfolding index_from
  lookup-index-key k [] h = cc
  lookup-index-key k (x ∷ xs) {v} h =
      ground (arith, lookup-index_cons k x xs, lookup-index-key k xs {v = v}, eq_iff k (key x))

  pub lookup-index-Some :
      (k : K) (xs : List V) {v : V}
      → lookup k (index xs) ≡ some v
      → (P : V → Type 0) → P v
      → Some P xs
  unfolding index_from
  lookup-index-Some k [] h P p = cc
  lookup-index-Some k (x ∷ xs) {v} h P p = elim (Option-cases (lookup k (index xs))) [
    | inl absent ↦ inl (subst P (ground (arith, lookup-index_cons k x xs)) p)
    | inr (w, found) ↦
        inr (lookup-index-Some k xs {v = v} (ground (arith, lookup-index_cons k x xs)) P p)
  ]

  pub contains-index : (k : K) (xs : List V) → contains k (index xs) ≡ elem k (map key xs)
  unfolding index_from
  contains-index k [] = refl
  contains-index k (x ∷ xs) = ground (arith, lookup-index_cons k x xs, contains-index k xs)

module _ {ℓ κ} {K : Type ℓ} ⦃e : Eq K⦄ {V : Type κ} ⦃f : Eq V⦄ (key : V → K) where
  pub elem-lookup-index :
      (k : K) (xs : List V) {v : V} → lookup k (index key xs) ≡ some v → elem v xs ≡ true
  unfolding index_from
  elem-lookup-index k [] h = cc
  elem-lookup-index k (x ∷ xs) {v} h =
      ground (arith, lookup-index_cons key k x xs, elem-lookup-index k xs {v = v}, eq_iff v x)

  -- With distinct keys every listed value is found under its key.
  pub lookup-index-elem :
      (v : V) (xs : List V)
      → distinct (map key xs) ≡ true
      → elem v xs ≡ true
      → lookup (key v) (index key xs) ≡ some v
  lookup-index-elem v [] d h = cc
  lookup-index-elem v (x ∷ xs) d h = ground (
    arith,
    lookup-index_cons key (key v) x xs,
    contains-index key (key x) xs,
    lookup-index-elem v xs,
    eq_iff v x,
    eq_iff (key v) (key x),
  )
