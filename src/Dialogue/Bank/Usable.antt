-- ===== src/Dialogue/Bank/Usable.antt =====
-- python/prepare_repeated_dialogue_curriculum.py: what a catalogue must have for its worlds to be
-- built, as a test, and what each choice then gives.
use bit_net.Base.{
  ℕ, zero, suc, ◌-◌, ◌%◌, ◌<◌, ◌≡◌, refl, sym, ap, inl, inr, Bool, true, false, not, ◌&&◌, Option,
  none, some, List, [], ◌∷◌, arith, ltb, Bool-cases, Option-cases, Eq, ◌==◌, eq_iff, nat_eq,
  text_eq, texts_eq, option_eq, length, get_elem?, all, is_empty, elem, subset, index_error, Result,
  ok, err, Text, lit,
}
use mathlib.Core.Path.{subst}
use bit_net.Base.Dict.{Dict, lookup, contains}
use bit_net.Dialogue.Catalog.{Predicate}
use bit_net.Dialogue.Format.{outside, format, item, item_back, modulo}
use bit_net.Dialogue.Format.Laws.{names_from, format_from-IsFilled}
use bit_net.Dialogue.Format.Search.{Infix}
use bit_net.Dialogue.Bank.Places.{elem-get_elem?}
use bit_net.Dialogue.Bank.{Random, Catalogue, surface_forms, choice}

-- A well-formed template with allowed fields only, and with the required ones.
unfoldable pub fits : List Text → List Text → Text → Bool
unfolding names_from
fits allowed required template = elim (names_from outside template) [
  | none ↦ false
  | some names ↦ subset names allowed && subset required names
]

unfoldable pub usable_predicate : Catalogue → Predicate → Bool
unfolding fits surface_forms
usable_predicate catalogue p =
    not (is_empty p.values)
    && not (is_empty p.questions)
    && all (fits (lit "speaker" ∷ []) []) p.questions
    && not (is_empty (surface_forms catalogue p.name))

abbrev pub statement_fields : List Text
statement_fields = lit "speaker" ∷ lit "predicate" ∷ lit "value" ∷ []

abbrev pub update_fields : List Text
update_fields = lit "speaker" ∷ lit "predicate" ∷ lit "old" ∷ lit "value" ∷ []

unfoldable pub usable : Catalogue → Bool
unfolding usable_predicate fits
usable catalogue =
    not (is_empty catalogue.speakers_catalog)
    && ltb 3 (length catalogue.predicates)
    && all (usable_predicate catalogue) catalogue.predicates
    && not (is_empty catalogue.statement_templates)
    && all (fits statement_fields (lit "value" ∷ [])) catalogue.statement_templates
    && not (is_empty catalogue.update_templates)
    && all (fits update_fields (lit "value" ∷ [])) catalogue.update_templates

pub get_elem?_total {ℓ} :
    {A : Type ℓ} (xs : List A) (i : ℕ) → i < length xs → (x : A) × (get_elem? xs i ≡ some x)
get_elem?_total [] i h = absurd (omega arith)
get_elem?_total (x ∷ xs) zero h = (x, refl)
get_elem?_total (x ∷ xs) (suc i) h = get_elem?_total xs i (omega arith)

-- `xs[i]` by what stands at the place
abbrev found_or {ℓ} : {A : Type ℓ} → Option A → Result A
found_or found = elim found [ none ↦ err index_error | some x ↦ ok x ]

pub item_ok {ℓ} :
    {A : Type ℓ} (xs : List A) (i : ℕ) {x : A} → get_elem? xs i ≡ some x → item xs i ≡ ok x
item_ok xs i h = ap found_or h

pub all-get_elem? {ℓ} :
    {A : Type ℓ} (p : A → Bool) (xs : List A) (i : ℕ) {x : A}
    → all p xs ≡ true
    → get_elem? xs i ≡ some x
    → p x ≡ true
all-get_elem? p [] i h at = cc
all-get_elem? p (y ∷ ys) zero {x} h at =
    let same : y ≡ x = ground arith in subst (λ z. p z ≡ true) same (ground arith)
all-get_elem? p (y ∷ ys) (suc i) {x} h at = all-get_elem? p ys i {x = x} (ground arith) at

pub get_elem?_bound {ℓ} :
    {A : Type ℓ} (xs : List A) (i : ℕ) {x : A} → get_elem? xs i ≡ some x → i < length xs
get_elem?_bound [] i h = cc
get_elem?_bound (y ∷ ys) zero h = omega arith
get_elem?_bound (y ∷ ys) (suc i) {x} h = omega (arith, get_elem?_bound ys i {x = x} h)

pub all-elem {ℓ} :
    {A : Type ℓ} ⦃e : Eq A⦄ (p : A → Bool) (x : A) (xs : List A)
    → all p xs ≡ true
    → elem x xs ≡ true
    → p x ≡ true
all-elem p x [] h member = cc
all-elem p x (y ∷ ys) h member = elim (Bool-cases (x == y)) [
  | inl same ↦
      let is_y : x ≡ y = (eq_iff x y).0 same in subst (λ z. p z ≡ true) (sym is_y) (ground arith)
  | inr other ↦ all-elem p x ys (ground arith) (ground arith)
]

elem-subset :
    (x : Text) (xs ys : List Text) → elem x xs ≡ true → subset xs ys ≡ true → elem x ys ≡ true
elem-subset x xs ys member h = all-elem (λ z. elem z ys) x xs h member

all_of-subset :
    (xs ys : List Text) (p : Text → Bool) → subset xs ys ≡ true → all p ys ≡ true → all p xs ≡ true
all_of-subset [] ys p h given = refl
all_of-subset (x ∷ xs) ys p h given =
    let first : elem x ys ≡ true = ground arith in
    let holds : p x ≡ true = all-elem p x ys given first in
    let rest : subset xs ys ≡ true = ground arith in rw holds (all_of-subset xs ys p rest given)

-- The last item of a list is one of its items.
pub item_back_total :
    (x : ℕ) (xs : List ℕ) → (y : ℕ) × (item_back (x ∷ xs) 0 ≡ ok y) × (elem y (x ∷ xs) ≡ true)
item_back_total x xs =
    let (y, at) = get_elem?_total (x ∷ xs) (length (x ∷ xs) - 1 - 0) (omega arith) in
    let found : item_back (x ∷ xs) 0 ≡ ok y = ground (arith, at) in
    (y, found, elem-get_elem? (x ∷ xs) (length (x ∷ xs) - 1 - 0) y at)

-- A choice from a list that is not empty is one of its items.
pub choice_total {ℓ} :
    {A : Type ℓ} (r : Random) (xs : List A) (rng : r.State)
    → is_empty xs ≡ false
    → (x : A) × (next : r.State) × (i : ℕ) × (choice r xs rng ≡ ok (x, next))
      × (get_elem? xs i ≡ some x)
unfolding choice
choice_total r [] rng h = cc
choice_total r (y ∷ ys) rng h =
    let drawn = r.randbelow rng (length (y ∷ ys)) in
    let (x, at) =
      get_elem?_total (y ∷ ys) drawn.0 (r.randbelow_lt rng (length (y ∷ ys)) (omega arith)) in
    let found : choice r (y ∷ ys) rng ≡ ok (x, drawn.1) = ground (arith, at) in
    (x, drawn.1, drawn.0, found, at)

pub length_pos {ℓ} : {A : Type ℓ} (xs : List A) → is_empty xs ≡ false → 0 < length xs
length_pos [] h = cc
length_pos (x ∷ xs) h = omega arith

pub modulo_total : (n d : ℕ) → 0 < d → (modulo n d ≡ ok (n % d)) × (n % d < d)
modulo_total n d h = ground arith

-- A template that fits returns.
pub format_returns :
    (fields : Dict Text Text) (allowed required : List Text) (template : Text)
    → fits allowed required template ≡ true
    → all (λ n. contains n fields) allowed ≡ true
    → (text : Text) × (format template fields ≡ ok text)
      × ((name value : Text)
          → elem name required ≡ true
          → lookup name fields ≡ some value
          → Infix value text)
unfolding fits
format_returns fields allowed required template fit given =
    elim (Option-cases (names_from outside template)) [
      | inl bad ↦ absurd (ground arith)
      | inr (names, read) ↦
          let parts : (subset names allowed ≡ true) × (subset required names ≡ true) =
            ground arith in
          let (text, done, stands) =
            format_from-IsFilled fields outside template names read
              (all_of-subset names allowed (λ n. contains n fields) parts.0 given) in
          (
            text,
            done,
            λ name value need found.
                stands name value (elem-subset name required names need parts.1) found,
          )
    ]
