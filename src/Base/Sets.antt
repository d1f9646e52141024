-- ===== src/Base/Sets.antt =====
-- Lists read as sets: the Boolean tests on concatenations.
use mathlib.Core.Path.{◌≡◌, refl, sym}
use mathlib.Core.Bool.{Bool, true, not, ◌&&◌}
use mathlib.Core.List.{List, [], ◌∷◌, ◌++◌}
use native.Mathlib.Omega.{arith}
use bit_net.Base.Tests.{Eq, ◌==◌, eq_iff}
use bit_net.Base.Lists.{all, all-append, elem, distinct, subset, disjoint, elem-append}

module _ {ℓ} {A : Type ℓ} ⦃e : Eq A⦄ where
  pub eq_comm : (x y : A) → (x == y) ≡ (y == x)
  eq_comm x y = ground (arith, eq_iff x y, eq_iff y x)

  pub disjoint-cons_right :
      (y : A) (xs ys : List A) → disjoint xs (y ∷ ys) ≡ (not (elem y xs) && disjoint xs ys)
  disjoint-cons_right y [] ys = refl
  disjoint-cons_right y (x ∷ xs) ys = ground (arith, disjoint-cons_right y xs ys, eq_comm x y)

  pub disjoint-nil : (xs : List A) → disjoint xs [] ≡ true
  disjoint-nil [] = refl
  disjoint-nil (x ∷ xs) = disjoint-nil xs

  pub disjoint_comm : (xs ys : List A) → disjoint xs ys ≡ disjoint ys xs
  disjoint_comm [] ys = sym (disjoint-nil ys)
  disjoint_comm (x ∷ xs) ys = ground (arith, disjoint_comm xs ys, disjoint-cons_right x ys xs)

  pub disjoint-append :
      (xs ys zs : List A) → disjoint (xs ++ ys) zs ≡ (disjoint xs zs && disjoint ys zs)
  disjoint-append xs ys zs = all-append (λ x. not (elem x zs)) xs ys

  pub disjoint-append_right :
      (xs ys zs : List A) → disjoint xs (ys ++ zs) ≡ (disjoint xs ys && disjoint xs zs)
  disjoint-append_right [] ys zs = refl
  disjoint-append_right (x ∷ xs) ys zs =
      ground (arith, disjoint-append_right xs ys zs, elem-append x ys zs)

  pub distinct-append :
      (xs ys : List A) → distinct (xs ++ ys) ≡ (distinct xs && (distinct ys && disjoint xs ys))
  distinct-append [] ys = ground arith
  distinct-append (x ∷ xs) ys = ground (arith, distinct-append xs ys, elem-append x xs ys)

  pub elem_of_all :
      (p : A → Bool) (x : A) (xs : List A) → all p xs ≡ true → elem x xs ≡ true → p x ≡ true
  elem_of_all p x [] h m = cc
  elem_of_all p x (y ∷ xs) h m = ground (arith, elem_of_all p x xs, eq_iff x y)

  pub subset-trans_elem :
      (x : A) (xs ys : List A) → subset xs ys ≡ true → elem x xs ≡ true → elem x ys ≡ true
  subset-trans_elem x xs ys h m = elem_of_all (λ z. elem z ys) x xs h m

  pub all_of_elem :
      (p : A → Bool) (xs : List A) → ((x : A) → elem x xs ≡ true → p x ≡ true) → all p xs ≡ true
  all_of_elem p [] h = refl
  all_of_elem p (x ∷ xs) h =
      ground (arith, h x, eq_iff x x, all_of_elem p xs (λ y m. h y (ground arith)))
