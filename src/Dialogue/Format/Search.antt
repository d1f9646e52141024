-- ===== src/Dialogue/Format/Search.antt =====
-- A text inside another: where `find` finds it, and that it finds it.
use bit_net.Base.{
  ℕ, zero, suc, ◌+◌, ◌-◌, ◌≤◌, ◌≡◌, refl, sym, ap, ◌∙◌, inl, inr, true, some, [], ◌∷◌, ◌++◌, arith,
  Bool-cases, Option-cases, eq_iff, nat_eq, text_eq, texts_eq, option_eq, length, take, drop,
  append_nil, append_assoc, Text,
}
use mathlib.Core.Path.{subst}
use bit_net.Dialogue.Format.{starts_with, find}

-- A text stands somewhere in another.
abbrev pub Infix : Text → Text → Type 0
Infix sub s = (before : Text) × (after : Text) × (s ≡ before ++ (sub ++ after))

starts_with-take :
    (sub s : Text)
    → starts_with sub s ≡ true
    → (take (length sub) s ≡ sub) × (length sub ≤ length s)
starts_with-take [] s h = (refl, omega arith)
starts_with-take (c ∷ sub) [] h = cc
starts_with-take (c ∷ sub) (d ∷ s) h = ground (arith, eq_iff c d, starts_with-take sub s)

starts_with-append : (sub after : Text) → starts_with sub (sub ++ after) ≡ true
starts_with-append [] after = refl
starts_with-append (c ∷ sub) after = ground (arith, eq_iff c c, starts_with-append sub after)

-- What is found is there.
pub find-take :
    (sub s : Text) (i : ℕ)
    → find sub s ≡ some i
    → (take (length sub) (drop i s) ≡ sub) × (i + length sub ≤ length s)
unfolding find
find-take sub [] i h = ground (arith, starts_with-take sub [])
find-take sub (c ∷ s) i h = elim (Bool-cases (starts_with sub (c ∷ s))) [
  | inl here ↦ ground (arith, starts_with-take sub (c ∷ s))
  | inr elsewhere ↦ elim (Option-cases (find sub s)) [
    | inl absent ↦ ground arith
    | inr (j, found) ↦
        let at : i ≡ suc j = ground arith in
        subst (λ k. (take (length sub) (drop k (c ∷ s)) ≡ sub) × (k + length sub ≤ length (c ∷ s)))
          (sym at) (let there = find-take sub s j found in (there.0, omega (arith, there.1)))
  ]
]

find_start : (sub s : Text) → starts_with sub s ≡ true → find sub s ≡ some 0
unfolding find
find_start sub [] h = ground arith
find_start sub (c ∷ s) h = ground arith

find_at : (before sub after : Text) → (i : ℕ) × (find sub (before ++ (sub ++ after)) ≡ some i)
unfolding find
find_at [] sub after = (0, find_start sub (sub ++ after) (starts_with-append sub after))
find_at (c ∷ before) sub after =
    elim (Bool-cases (starts_with sub (c ∷ (before ++ (sub ++ after))))) [
      | inl here ↦ (0, ground arith)
      | inr elsewhere ↦
          let later = find_at before sub after in (suc later.0, ground (arith, later.1))
    ]

-- What is there is found.
pub find-Infix : (sub s : Text) → Infix sub s → (i : ℕ) × (find sub s ≡ some i)
find-Infix sub s (before, after, whole) =
    let there = find_at before sub after in (there.0, ap (find sub) whole ∙ there.1)

-- What stands in a text stands in that text with more before it, or after it.
pub Infix-append_left : (front sub s : Text) → Infix sub s → Infix sub (front ++ s)
Infix-append_left front sub s (before, after, whole) =
    (front ++ before, after, simp (whole, append_assoc))

pub Infix-append_right : (sub s back : Text) → Infix sub s → Infix sub (s ++ back)
Infix-append_right sub s back (before, after, whole) =
    (before, after ++ back, simp (whole, append_assoc))

pub Infix_refl : (s : Text) → Infix s s
Infix_refl s = ([], [], sym (append_nil s))

drop_nil : (n : ℕ) → drop {A = ℕ} n [] ≡ []
drop_nil zero = refl
drop_nil (suc n) = refl

pub drop-append_shift : (n : ℕ) (xs ys : Text) → drop (length xs + n) (xs ++ ys) ≡ drop n ys
drop-append_shift n [] ys = let start : 0 + n ≡ n = omega arith in ap (λ k. drop k ys) start
drop-append_shift n (x ∷ xs) ys =
    let next : suc (length xs) + n ≡ suc (length xs + n) = omega arith in
    ap (λ k. drop k (x ∷ (xs ++ ys))) next ∙ drop-append_shift n xs ys

pub drop-append_within :
    (n : ℕ) (xs ys : Text) → n ≤ length xs → drop n (xs ++ ys) ≡ drop n xs ++ ys
drop-append_within zero xs ys h = refl
drop-append_within (suc n) [] ys h = absurd (omega arith)
drop-append_within (suc n) (x ∷ xs) ys h = drop-append_within n xs ys (omega arith)

pub take-append_within : (n : ℕ) (xs ys : Text) → n ≤ length xs → take n (xs ++ ys) ≡ take n xs
take-append_within zero xs ys h = refl
take-append_within (suc n) [] ys h = absurd (omega arith)
take-append_within (suc n) (x ∷ xs) ys h =
    ap (λ t. x ∷ t) (take-append_within n xs ys (omega arith))

pub length-drop : (n : ℕ) (xs : Text) → length (drop n xs) ≡ length xs - n
length-drop zero xs = omega arith
length-drop (suc n) [] = omega arith
length-drop (suc n) (x ∷ xs) = omega (arith, length-drop n xs)

pub drop-drop : (m n : ℕ) (xs : Text) → drop (m + n) xs ≡ drop n (drop m xs)
drop-drop zero n xs = let start : 0 + n ≡ n = omega arith in ap (λ k. drop k xs) start
drop-drop (suc m) n [] = drop_nil (suc m + n) ∙ sym (drop_nil n)
drop-drop (suc m) n (x ∷ xs) =
    let next : suc m + n ≡ suc (m + n) = omega arith in
    ap (λ k. drop k (x ∷ xs)) next ∙ drop-drop m n xs
