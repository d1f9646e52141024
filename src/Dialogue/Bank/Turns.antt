-- ===== src/Dialogue/Bank/Turns.antt =====
-- python/prepare_repeated_dialogue_curriculum.py: with a usable catalogue every turn of the loop over
-- the events returns, and its value and its date stand in its episode.
use bit_net.Base.{
  ℕ, zero, suc, ◌+◌, ◌*◌, ◌%◌, ◌<◌, ◌≡◌, refl, sym, ap, ◌∙◌, inl, inr, true, some, List, [], ◌∷◌,
  ◌++◌, arith, nat_eq, text_eq, texts_eq, option_eq, length, get_elem?, elem, ok, Text, lit,
  bind-ok,
}
use mathlib.Core.Path.{subst}
use bit_net.Dialogue.Catalog.{Predicate}
use bit_net.Dialogue.Catalog.Speakers.{details}
use bit_net.Dialogue.Format.{item, padded}
use bit_net.Dialogue.Format.Search.{Infix, Infix-append_left, Infix-append_right, Infix_refl}
use bit_net.Dialogue.Dates.{Date, isoformat}
use bit_net.Dialogue.Bank.{
  Random, Catalogue, key_eq, Fact, choose_value, write_statement, dated_episode,
}
use bit_net.Dialogue.Bank.Places.{get_elem?-snoc}
use bit_net.Dialogue.Bank.Usable.{
  fits, usable_predicate, statement_fields, update_fields, usable, get_elem?_total, all-get_elem?,
  item_back_total, choice_total, modulo_total, length_pos, format_returns,
}

pub choose_value_total :
    (catalogue : Catalogue) (world event index : ℕ) {p : Predicate}
    → get_elem? catalogue.predicates index ≡ some p
    → usable_predicate catalogue p ≡ true
    → (value : Text) × (choose_value world event index catalogue.predicates ≡ ok value)
unfolding choose_value usable_predicate
choose_value_total catalogue world event index {p} at fine =
    let some_values : 0 < length p.values = length_pos p.values (ground arith) in
    let (turn, turn_lt) =
      modulo_total (world * 5 + event * 3 + index) (length p.values) some_values in
    let (base, base_at) = get_elem?_total p.values _ turn_lt in
    let which : (world * 7 + event * 5 + index) % 7 < 7 = omega arith in
    let (detail, detail_at) = get_elem?_total details ((world * 7 + event * 5 + index) % 7) which in
    let at' : item catalogue.predicates index ≡ ok p = ground (arith, at) in
    let base_at' : item p.values _ ≡ ok base = ground (arith, base_at) in
    let detail_at' : item details ((world * 7 + event * 5 + index) % 7) ≡ ok detail =
      ground (arith, detail_at) in
    (
      base ++ lit " " ++ detail,
      bind-ok _ at' (bind-ok _ turn (bind-ok _ base_at' (bind-ok _ detail_at' refl))),
    )

-- A first statement or an update returns, and the value stands in it.
pub write_statement_total :
    (r : Random) (catalogue : Catalogue) (speaker surface value : Text) (previous : List ℕ)
    (facts : List Fact) (rng : r.State)
    → usable catalogue ≡ true
    → ((n : ℕ) → elem n previous ≡ true → n < length facts)
    → (text : Text) × (next : r.State) × (write_statement r catalogue speaker surface value previous
          facts rng
        ≡ ok (text, next))
      × Infix value text
unfolding write_statement usable
write_statement_total r catalogue speaker surface value [] facts rng fine bound =
    let (template, next, i, drawn, at) =
      choice_total r catalogue.statement_templates rng (ground arith) in
    let fit : fits statement_fields (lit "value" ∷ []) template ≡ true =
      all-get_elem? (fits statement_fields (lit "value" ∷ [])) catalogue.statement_templates i
        {x = template} (ground arith) at in
    let (text, done, stands) =
      format_returns
        ((lit "speaker", speaker) ∷ (lit "predicate", surface) ∷ (lit "value", value) ∷ [])
        statement_fields (lit "value" ∷ []) template fit refl in
    (text, next, bind-ok _ drawn (bind-ok _ done refl), stands (lit "value") value refl refl)
write_statement_total r catalogue speaker surface value (first ∷ others) facts rng fine bound =
    let (template, next, i, drawn, at) =
      choice_total r catalogue.update_templates rng (ground arith) in
    let fit : fits update_fields (lit "value" ∷ []) template ≡ true =
      all-get_elem? (fits update_fields (lit "value" ∷ [])) catalogue.update_templates i
        {x = template} (ground arith) at in
    let (last, last_at, member) = item_back_total first others in
    let (old, old_at) = get_elem?_total facts last (bound last member) in
    let (text, done, stands) =
      format_returns
        ((lit "speaker", speaker)
          ∷ (lit "predicate", surface)
          ∷ (lit "old", old.value)
          ∷ (lit "value", value)
          ∷ [])
        update_fields (lit "value" ∷ []) template fit refl in
    (
      text,
      next,
      bind-ok _ drawn (
          bind-ok _ last_at (
            bind-ok _ (let old_at' : item facts last ≡ ok old = ground (arith, old_at) in old_at')
              (bind-ok _ done refl))),
      stands (lit "value") value refl refl,
    )

-- A fact's value and its date stand in its episode.
abbrev pub IsSupported : List Text → ℕ → Fact → Type 0
IsSupported episodes place f =
    (episode : Text) × (get_elem? episodes place ≡ some episode)
    × Infix f.value episode
    × Infix f.date episode

pub dated_episode-Infix :
    (world event : ℕ) (date : Date) (statement value : Text)
    → Infix value statement
    → Infix value (dated_episode world event date statement)
      × Infix (isoformat date) (dated_episode world event date statement)
unfolding dated_episode
dated_episode-Infix world event date statement value inside =
    let front = lit "[source R" ++ padded 4 world ++ lit "E" ++ padded 3 event ++ lit " | " in
    (
      Infix-append_left (front ++ isoformat date ++ lit "] ") value statement inside,
      Infix-append_right (isoformat date) (front ++ isoformat date ++ lit "] ") statement (
          Infix-append_right (isoformat date) (front ++ isoformat date) (lit "] ") (
            Infix-append_left front (isoformat date) (isoformat date)
              (Infix_refl (isoformat date)))),
    )

get_elem?-append_left {ℓ} :
    {A : Type ℓ} (xs ys : List A) (i : ℕ) {x : A}
    → get_elem? xs i ≡ some x
    → get_elem? (xs ++ ys) i ≡ some x
get_elem?-append_left [] ys i h = cc
get_elem?-append_left (z ∷ xs) ys zero h = h
get_elem?-append_left (z ∷ xs) ys (suc i) {x} h = get_elem?-append_left xs ys i {x = x} h

get_elem?-append_last {ℓ} :
    {A : Type ℓ} (xs : List A) (y : A) → get_elem? (xs ++ y ∷ []) (length xs) ≡ some y
get_elem?-append_last [] y = refl
get_elem?-append_last (x ∷ xs) y = get_elem?-append_last xs y

-- One more fact and its episode.
pub IsSupported-snoc :
    (facts : List Fact) (episodes : List Text) (fact : Fact) (episode : Text)
    → length episodes ≡ length facts
    → ((i : ℕ) (f : Fact) → get_elem? facts i ≡ some f → IsSupported episodes i f)
    → Infix fact.value episode
    → Infix fact.date episode
    → (i : ℕ) (f : Fact) → get_elem? (facts ++ fact ∷ []) i ≡ some f
    → IsSupported (episodes ++ episode ∷ []) i f
IsSupported-snoc facts episodes fact episode even all_old value date i f at =
    elim (get_elem?-snoc facts fact f i at) [
      | inl old ↦
          let (e, e_at, has_value, has_date) = all_old i f old in
          (e, get_elem?-append_left episodes (episode ∷ []) i {x = e} e_at, has_value, has_date)
      | inr (last, is_fact) ↦
          let place : i ≡ length episodes = last ∙ sym even in
          subst (IsSupported (episodes ++ episode ∷ []) i) (sym is_fact) (
            episode,
            ap (get_elem? (episodes ++ episode ∷ [])) place
                ∙ get_elem?-append_last episodes episode,
            value,
            date,
          )
    ]
