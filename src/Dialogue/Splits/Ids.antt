-- ===== src/Dialogue/Splits/Ids.antt =====
-- python/prepare_repeated_dialogue_curriculum.py: a row's sample id can be read back.
use bit_net.Base.{
  after_ok, ℕ, zero, suc, ◌+◌, ◌-◌, ◌*◌, ◌/◌, ◌%◌, ◌<◌, ◌≡◌, refl, sym, ap, ◌∙◌, inl, inr, Bool,
  true, ◌&&◌, Option, none, some, List, [], ◌∷◌, ◌++◌, arith, ltb, leb, if◌then◌else◌, Bool-cases,
  nat_eq, text_eq, texts_eq, option_eq, length, drop, append_nil, append_assoc, ok, Text,
}
use bit_net.Dialogue.Format.{digits, zeros, padded}
use bit_net.Dialogue.Bank.{Fact}
use bit_net.Dialogue.Rows.{
  Answer, QueryPlan, Row, world_name, make_row, answer_spans, typed_events_of,
}
use bit_net.Dialogue.Splits.{view_name, label_row}
use bit_net.Dialogue.Worlds.Answers.{plain_id}

abbrev is_digit : ℕ → Bool
is_digit c = leb b'0' c && leb c b'9'

-- The number at the start of a text, from what was read on, and the rest of the text.
unfoldable pub read_number : ℕ → Text → ℕ × Text
read_number value [] = (value, [])
read_number value (c ∷ s) =
    let rest = read_number (value * 10 + (c - b'0')) s in
    if is_digit c then rest else (value, c ∷ s)

read_digit :
    (value d : ℕ) (rest : Text)
    → d < 10
    → read_number value ((b'0' + d) ∷ rest) ≡ read_number (value * 10 + d) rest
unfolding read_number
read_digit value d rest h =
    let test : is_digit (b'0' + d) ≡ true = ground arith in
    let same : value * 10 + (b'0' + d - b'0') ≡ value * 10 + d = omega arith in
    rw test (ap (λ n. read_number n rest) same)

read_number-digits :
    (fuel n : ℕ) (rest : Text)
    → n < fuel
    → read_number 0 (digits fuel n ++ rest) ≡ read_number n rest
unfolding read_number digits
read_number-digits zero n rest h = absurd (omega arith)
read_number-digits (suc fuel) n rest h = elim (Bool-cases (ltb n 10)) [
  | inl small ↦ rw small (
      read_digit 0 n rest (ground arith)
      ∙ ap (λ v. read_number v rest) (let e : 0 * 10 + n ≡ n = omega arith in e))
  | inr large ↦
      let whole : n / 10 * 10 + n % 10 ≡ n = omega arith in
      let smaller : n / 10 < fuel = ground arith in
      rw large (
        ap (read_number 0) (append_assoc (digits fuel (n / 10)) ((b'0' + n % 10) ∷ []) rest)
        ∙ read_number-digits fuel (n / 10) ((b'0' + n % 10) ∷ rest) smaller
        ∙ read_digit (n / 10) (n % 10) rest (omega arith)
        ∙ ap (λ v. read_number v rest) whole)
]

read_number-zeros : (k : ℕ) (rest : Text) → read_number 0 (zeros k ++ rest) ≡ read_number 0 rest
unfolding read_number
read_number-zeros zero rest = refl
read_number-zeros (suc k) rest = read_number-zeros k rest

read_end : (value : ℕ) → read_number value [] ≡ (value, [])
unfolding read_number
read_end value = refl

-- A padded number is read back.
read_number-padded :
    (width n : ℕ) (rest : Text) → read_number 0 (padded width n ++ rest) ≡ read_number n rest
unfolding padded
read_number-padded width n rest =
    ap (read_number 0)
      (append_assoc (zeros (width - length (digits (suc n) n))) (digits (suc n) n) rest)
    ∙ read_number-zeros (width - length (digits (suc n) n)) (digits (suc n) n ++ rest)
    ∙ read_number-digits (suc n) n rest (omega arith)

-- A sample id, read: the world, the query, and the view if there is one.
unfoldable pub read_view : Text → Option ℕ
unfolding read_number
read_view [] = none
read_view (c ∷ s) = some (read_number 0 (drop 5 (c ∷ s))).0

-- What follows the world: a dash, the query and perhaps a view.
unfoldable pub read_query : ℕ → ℕ × Text → ℕ × ℕ × Option ℕ
unfolding read_view
read_query world read = (world, read.0, read_view read.1)

unfoldable pub read_world : ℕ × Text → ℕ × ℕ × Option ℕ
unfolding read_query read_number
read_world read = read_query read.0 (read_number 0 (drop 1 read.1))

unfoldable pub read_sample_id : Text → ℕ × ℕ × Option ℕ
unfolding read_world read_number
read_sample_id s = read_world (read_number 0 (drop 18 s))

read_stop : (value : ℕ) (s : Text) → read_number value (b'-' ∷ s) ≡ (value, b'-' ∷ s)
unfolding read_number
read_stop value s = refl

read_plain_id :
    (world query : ℕ) (rest : Text)
    → ((value : ℕ) → read_number value rest ≡ (value, rest))
    → read_sample_id (plain_id world query ++ rest) ≡ (world, query, read_view rest)
unfolding read_sample_id read_world read_query world_name
read_plain_id world query rest stops =
    let parts : padded 4 world ++ (b'-' ∷ []) ++ padded 3 query ++ rest
        ≡ padded 4 world ++ (b'-' ∷ (padded 3 query ++ rest)) =
      simp append_assoc in
    ap (λ s. read_world (read_number 0 s)) parts
    ∙ ap read_world (read_number-padded 4 world (b'-' ∷ (padded 3 query ++ rest)))
    ∙ ap read_world (read_stop world (padded 3 query ++ rest))
    ∙ ap (read_query world) (read_number-padded 3 query rest ∙ stops query)

-- The view that a name shows.
abbrev pub shown_view : ℕ → ℕ → Option ℕ
shown_view view views = if ltb 1 views then some view else none

read_view_name : (view : ℕ) → read_view (view_name view) ≡ some view
unfolding read_view view_name
read_view_name view =
    ap (λ (read : ℕ × Text). some read.0)
      (ap (read_number 0) (sym (append_nil (digits (suc view) view)))
        ∙ read_number-digits (suc view) view [] (omega arith)
        ∙ read_end view)

pub label_row_id :
    (world query_index view views : ℕ) (row : Row)
    → plain_id world query_index ≡ row.sample_id
    → read_sample_id (label_row world view views row).sample_id
      ≡ (world, query_index, shown_view view views)
unfolding label_row view_name read_view
label_row_id world query_index view views row named = elim (Bool-cases (ltb 1 views)) [
  | inl several ↦ rw several (
      ap (λ s. read_sample_id (s ++ view_name view)) (sym named)
      ∙ read_plain_id world query_index (view_name view) (λ value. read_stop value _)
      ∙ ap (λ v. (world, query_index, v)) (read_view_name view))
  | inr only ↦ rw only (
      ap read_sample_id (sym (append_nil row.sample_id) ∙ ap (λ s. s ++ []) (sym named))
      ∙ read_plain_id world query_index [] read_end)
]

-- The sample id of a row that `make_row` made and `write_split` labelled gives back the row's world
-- and query, and its view when there are several views.
pub label_row-read_sample_id :
    (world query_index view views : ℕ) (episodes : List Text) (facts : List Fact) (question : Text)
    (answer : Answer) (gold : List ℕ) (surfaces : List Text) (family : Text) (null_target : Bool)
    (plan : QueryPlan) (row : Row)
    → make_row world query_index episodes facts question answer gold surfaces family null_target
        plan
      ≡ ok row
    → read_sample_id (label_row world view views row).sample_id
      ≡ (world, query_index, if ltb 1 views then some view else none)
unfolding make_row label_row
label_row-read_sample_id world query_index view views episodes facts question answer gold surfaces
      family null_target plan row h =
    after_ok (answer_spans episodes gold surfaces) _ h λ spans cut h.
      after_ok (typed_events_of facts) _ h λ events typed h.
        let named : plain_id world query_index ≡ row.sample_id = ground arith in
        label_row_id world query_index view views row named
