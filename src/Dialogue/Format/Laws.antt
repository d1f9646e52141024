-- ===== src/Dialogue/Format/Laws.antt =====
-- `str.format`: a field's value stands in what a template gives, and when a template gives a text.
use bit_net.Base.{
  ◌≡◌, refl, sym, ap, inl, inr, true, Option, none, some, List, [], ◌∷◌, ◌++◌, arith, if◌then◌else◌,
  Bool-cases, Option-cases, ◌==◌, eq_iff, nat_eq, text_eq, texts_eq, option_eq, all, elem, Result,
  ok, ◌>>=◌, Text,
}
use mathlib.Core.Path.{subst}
use bit_net.Base.Dict.{Dict, lookup, contains}
use bit_net.Dialogue.Format.{
  Mode, outside, opened, naming, closed, format_step, format_end, format_from,
}
use bit_net.Dialogue.Format.Search.{Infix, Infix-append_left}

-- The names of a template's fields, read from a place on, when it is well formed.
unfoldable pub names_from : Mode → Text → Option (List Text)
names_from outside [] = some []
names_from opened [] = none
names_from (naming name) [] = none
names_from closed [] = none
names_from outside (c ∷ s) =
    let rest = names_from (if c == b'{' then opened else if c == b'}' then closed else outside) s in
    rest
names_from opened (c ∷ s) =
    let rest = names_from (if c == b'{' then outside else naming (c ∷ [])) s in
    if c == b'}' then none else rest
names_from (naming name) (c ∷ s) =
    let rest = names_from (if c == b'}' then outside else naming (name ++ c ∷ [])) s in
    if c == b'}' then elim rest [ none ↦ none | some names ↦ some (name ∷ names) ] else rest
names_from closed (c ∷ s) = let rest = names_from outside s in if c == b'}' then rest else none

-- A call that returned a text in which each listed field's value stands.
abbrev pub IsFilled : Dict Text Text → List Text → Result Text → Type 0
IsFilled fields names call =
    (text : Text) × (call ≡ ok text)
    × ((name value : Text)
        → elem name names ≡ true
        → lookup name fields ≡ some value
        → Infix value text)

abbrev after_piece : Text → Result Text → Result Text
after_piece piece call = call >>= λ rest. ok (piece ++ rest)

IsFilled-plain :
    (fields : Dict Text Text) (names : List Text) (piece : Text) (call : Result Text)
    → IsFilled fields names call
    → IsFilled fields names (after_piece piece call)
IsFilled-plain fields names piece call (text, done, stands) = (
  piece ++ text,
  ap (after_piece piece) done,
  λ name value listed found. Infix-append_left piece value text (stands name value listed found),
)

IsFilled-step :
    (fields : Dict Text Text) (names : List Text) (piece : Text) (call : Result Text)
    {whole : Result Text}
    → whole ≡ after_piece piece call
    → IsFilled fields names call
    → IsFilled fields names whole
IsFilled-step fields names piece call step filled =
    subst (IsFilled fields names) (sym step) (IsFilled-plain fields names piece call filled)

IsFilled-field :
    (fields : Dict Text Text) (names : List Text) (field piece : Text) (call : Result Text)
    → lookup field fields ≡ some piece
    → IsFilled fields names call
    → IsFilled fields (field ∷ names) (after_piece piece call)
unfolding IsFilled-plain
IsFilled-field fields names field piece call at filled =
    let (text, done, stands) = IsFilled-plain fields names piece call filled in
    (
      text,
      done,
      λ name value listed found. elim (Bool-cases (name == field)) [
        | inr other ↦ stands name value (ground arith) found
        | inl here ↦
            let same : piece ≡ value = ground (arith, eq_iff name field) in
            ([], filled.0, ap (λ s. s ++ filled.0) same)
      ],
    )

-- A well-formed template whose fields are all given returns, and a field's value stands in the text.
pub format_from-IsFilled :
    (fields : Dict Text Text) (mode : Mode) (s : Text) (names : List Text)
    → names_from mode s ≡ some names
    → all (λ name. contains name fields) names ≡ true
    → IsFilled fields names (format_from fields mode s)
unfolding names_from format_from format_step format_end
format_from-IsFilled fields outside [] names read given =
    let same : [] ≡ names = ground arith in
    subst (λ names. IsFilled fields names (ok [])) same
      ([], refl, λ name value listed found. absurd (ground arith))
format_from-IsFilled fields opened [] names read given = absurd (ground arith)
format_from-IsFilled fields (naming n) [] names read given = absurd (ground arith)
format_from-IsFilled fields closed [] names read given = absurd (ground arith)
format_from-IsFilled fields outside (c ∷ s) names read given = elim (Bool-cases (c == b'{')) [
  | inl left ↦
      IsFilled-step fields names [] (format_from fields opened s) (ground arith)
        (format_from-IsFilled fields opened s names (ground arith) given)
  | inr text ↦ elim (Bool-cases (c == b'}')) [
    | inl right ↦
        IsFilled-step fields names [] (format_from fields closed s) (ground arith)
          (format_from-IsFilled fields closed s names (ground arith) given)
    | inr other ↦
        IsFilled-step fields names (c ∷ []) (format_from fields outside s) (ground arith)
          (format_from-IsFilled fields outside s names (ground arith) given)
  ]
]
format_from-IsFilled fields opened (c ∷ s) names read given = elim (Bool-cases (c == b'{')) [
  | inl left ↦
      IsFilled-step fields names (c ∷ []) (format_from fields outside s) (ground arith)
        (format_from-IsFilled fields outside s names (ground arith) given)
  | inr text ↦
      IsFilled-step fields names [] (format_from fields (naming (c ∷ [])) s) (ground arith)
        (format_from-IsFilled fields (naming (c ∷ [])) s names (ground arith) given)
]
format_from-IsFilled fields (naming n) (c ∷ s) names read given = elim (Bool-cases (c == b'}')) [
  | inr text ↦
      IsFilled-step fields names [] (format_from fields (naming (n ++ c ∷ [])) s) (ground arith)
        (format_from-IsFilled fields (naming (n ++ c ∷ [])) s names (ground arith) given)
  | inl right ↦ elim (Option-cases (names_from outside s)) [
    | inl bad ↦ absurd (ground arith)
    | inr (rest, well) ↦
        let made : n ∷ rest ≡ names = ground arith in
        let all_given : all (λ name. contains name fields) (n ∷ rest) ≡ true =
          subst (λ names. all (λ name. contains name fields) names ≡ true) (sym made) given in
        elim (Option-cases (lookup n fields)) [
          | inl absent ↦ absurd (ground arith)
          | inr (value, found) ↦
              subst (λ names. IsFilled fields names (format_from fields (naming n) (c ∷ s))) made
                (subst (IsFilled fields (n ∷ rest))
                  (let e : after_piece value (format_from fields outside s)
                        ≡ format_from fields (naming n) (c ∷ s) =
                      ground arith in
                    e)
                  (IsFilled-field fields rest n value (format_from fields outside s) found
                    (format_from-IsFilled fields outside s rest well (ground arith))))
        ]
  ]
]
format_from-IsFilled fields closed (c ∷ s) names read given = elim (Bool-cases (c == b'}')) [
  | inl right ↦
      IsFilled-step fields names (c ∷ []) (format_from fields outside s) (ground arith)
        (format_from-IsFilled fields outside s names (ground arith) given)
  | inr other ↦ absurd (ground arith)
]
