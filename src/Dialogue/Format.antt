-- ===== src/Dialogue/Format.antt =====
-- The parts of Python's `str.format`, `str.index`, `str.join`, slices and number formats that
-- python/prepare_repeated_dialogue_curriculum.py uses. A field is a plain name, which is all that
-- the templates use.
pub mod Laws
pub mod Search
use bit_net.Base.{
  ℕ, zero, suc, ◌+◌, ◌-◌, ◌/◌, ◌%◌, Bool, true, false, Option, none, some, List, [], ◌∷◌, ◌++◌, ltb,
  if◌then◌else◌, ◌==◌, nat_eq, text_eq, length, take, drop, Result, ok, err, ◌>>=◌, Text, lit,
  value_error, key_error, index_error, zero_division_error, get_elem?,
}
use bit_net.Base.Dict.{Dict, lookup}

-- Where the reader of a template stands: in the text, after `{`, in a field's name, after `}`.
pub data Mode : Type 0 where
  outside : Mode
  opened : Mode
  naming : Text → Mode
  closed : Mode

-- One character: what it adds to the result, and where the reader stands then.
unfoldable pub format_step : Dict Text Text → Mode → ℕ → Result (Text × Mode)
format_step fields outside c =
    if c == b'{'
    then ok ([], opened)
    else if c == b'}'
    then ok ([], closed)
    else ok (c ∷ [], outside)
format_step fields opened c =
    if c == b'{'
    then ok (c ∷ [], outside)
    else if c == b'}'
    then err index_error
    else ok ([], naming (c ∷ []))
format_step fields (naming name) c =
    if c == b'}'
    then elim (lookup name fields) [ none ↦ err (key_error name) | some v ↦ ok (v, outside) ]
    else ok ([], naming (name ++ c ∷ []))
format_step fields closed c =
    if c == b'}'
    then ok (c ∷ [], outside)
    else err (value_error "Single '}' encountered in format string")

unfoldable pub format_end : Mode → Result Text
format_end outside = ok []
format_end opened = err (value_error "Single '{' encountered in format string")
format_end (naming name) = err (value_error "expected '}' before end of string")
format_end closed = err (value_error "Single '}' encountered in format string")

unfoldable pub format_from : Dict Text Text → Mode → Text → Result Text
unfolding format_step format_end
format_from fields mode [] = format_end mode
format_from fields mode (c ∷ s) = format_step fields mode c >>= λ step.
    format_from fields step.1 s >>= λ rest. ok (step.0 ++ rest)

-- `template.format(speaker=…, …)`
abbrev pub format : Text → Dict Text Text → Result Text
format template fields = format_from fields outside template

abbrev pub starts_with : Text → Text → Bool
starts_with [] s = true
starts_with (c ∷ sub) [] = false
starts_with (c ∷ sub) (d ∷ s) = if c == d then starts_with sub s else false

-- The first position of a text in another.
unfoldable pub find : Text → Text → Option ℕ
find sub [] = if starts_with sub [] then some 0 else none
find sub (c ∷ s) =
    let later = find sub s in
    if starts_with sub (c ∷ s) then some 0 else elim later [ none ↦ none | some i ↦ some (suc i) ]

-- `s.index(sub)`
abbrev pub index_of : Text → Text → Result ℕ
index_of s sub = elim (find sub s) [
  | none ↦ err (value_error "substring not found")
  | some i ↦ ok i
]

-- `s[start:end]`
abbrev pub slice : ℕ → ℕ → Text → Text
slice start end s = take (end - start) (drop start s)

-- `"\n".join(parts)`
unfoldable pub join_lines : List Text → Text
join_lines [] = []
join_lines (part ∷ []) = part
join_lines (part ∷ next ∷ parts) = part ++ b'\n' ∷ join_lines (next ∷ parts)

-- `xs[i]`
abbrev pub item {ℓ} : {A : Type ℓ} → List A → ℕ → Result A
item xs i = elim (get_elem? xs i) [ none ↦ err index_error | some x ↦ ok x ]

-- `xs[-1 - i]`
abbrev pub item_back {ℓ} : {A : Type ℓ} → List A → ℕ → Result A
item_back xs i = if ltb i (length xs) then item xs (length xs - 1 - i) else err index_error

-- `n % d`
abbrev pub modulo : ℕ → ℕ → Result ℕ
modulo n d = if d == 0 then err zero_division_error else ok (n % d)

-- The decimal digits of a number. The first number bounds how many there are.
unfoldable pub digits : ℕ → ℕ → Text
digits zero n = []
digits (suc fuel) n =
    let front = digits fuel (n / 10) in
    if ltb n 10 then (b'0' + n) ∷ [] else front ++ (b'0' + n % 10) ∷ []

abbrev pub zeros : ℕ → Text
zeros zero = []
zeros (suc n) = b'0' ∷ zeros n

-- `f"{n:0{width}d}"`; a number has at most as many digits as its successor counts.
unfoldable pub padded : ℕ → ℕ → Text
unfolding digits
padded width n = let text = digits (suc n) n in zeros (width - length text) ++ text
