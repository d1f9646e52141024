-- ===== src/Generation/Framing.antt =====
-- A marker of the template that does not occur in a text is found behind the text, and no earlier.
use bit_net.Generation.{starts_with, occurs}
use bit_net.Base.{
  ℕ, ◌≡◌, refl, true, false, Option, none, some, [], ◌∷◌, ◌++◌, arith, if◌then◌else◌, eq_iff,
  nat_eq, text_eq, option_eq, length, drop, drop-append, elem, Text,
}

-- The text before the first occurrence of a marker, and the text behind it.
unfoldable pub cut : Text → Text → Option (Text × Text)
cut marker [] = none
cut marker (c ∷ s) =
    if starts_with marker (c ∷ s)
    then some ([], drop (length marker) (c ∷ s))
    else elim (cut marker s) [ none ↦ none | some (a, b) ↦ some (c ∷ a, b) ]

starts_with-append : (m s : Text) → starts_with m (m ++ s) ≡ true
starts_with-append [] s = refl
starts_with-append (c ∷ m) s = ground (arith, starts_with-append m s, eq_iff c c)

-- A pattern that does not hold the character `x` cannot reach over it.
starts_with_before :
    (x : ℕ) (t s u : Text)
    → elem x t ≡ false
    → starts_with t (s ++ x ∷ u) ≡ true
    → starts_with t s ≡ true
starts_with_before x [] s u n h = refl
starts_with_before x (c ∷ t) [] u n h = ground (arith, eq_iff c x, eq_iff x c)
starts_with_before x (c ∷ t) (d ∷ s) u n h = ground (arith, starts_with_before x t s u)

module _ (x : ℕ) (tail : Text) (once : elem x tail ≡ false) where
  abbrev marker : Text
  marker = x ∷ tail

  -- A marker whose first character does not come again is found exactly behind a text without it.
  pub cut-append :
      (s u : Text) → occurs marker s ≡ false → cut marker (s ++ (marker ++ u)) ≡ some (s, u)
  unfolding cut
  cut-append [] u h = rw (starts_with-append marker u, drop-append marker u) refl
  cut-append (c ∷ s) u h =
      ground (arith, cut-append s u, starts_with_before x tail s (tail ++ u) once)
