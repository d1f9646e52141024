-- ===== src/Transport/Cursor.antt =====
-- `ValueCursor` of python/value_transport.py: how far the tokens of a value have been emitted.
pub mod Laws
pub mod Committed
use bit_net.Base.Utf8.{Pending, start, feed, finish}
use bit_net.Transport.Values.{require, number, text_bytes, PayloadSnapshot, ReplyBinding}
use bit_net.Transport.Handle
use bit_net.Transport.Handle.{ActivatedFact}
use bit_net.Base.{
  ℕ, zero, suc, ◌+◌, ◌-◌, ◌*◌, ◌/◌, ◌%◌, ◌≤◌, ◌<◌, min, String, ◌≡◌, refl, sym, ap, ◌∙◌, ◌≢◌, ◌↔◌,
  ◌⊎◌, inl, inr, Bool, true, false, not, ◌&&◌, ◌||◌, Option, none, some, List, [], ◌∷◌, ◌++◌, map,
  arith, ltb, leb, if◌then◌else◌, Bool-cases, Option-cases, Eq, ◌==◌, eq_iff, nat_eq, text_eq,
  option_eq, length, get_elem?, take, drop, all, any, is_empty, length-append, append_nil,
  append_assoc, take-append-drop, length-take, take-length, take-suc, take-append, drop-append, All,
  Some, all_iff, all-append, elem, distinct, subset, disjoint, elem-append, Error, value_error,
  transport_error, prefix_retokenization_required, unsafe_token, transport_budget_exceeded,
  unicode_encode_error, unicode_decode_error, Result, ok, err, Check, ◌>>=◌, ◌>>◌, guard, or_raise,
  drop_value, each, each_iff, Text, Bytes, lit, has_content, is_sha256, guard-eq-ok, check-eq-ok,
  bind-eq-ok, or_raise-eq-ok, drop_value-eq-ok, bool_ext,
}

pub record ValueCursor : Type 0 where
  pub handle : ActivatedFact
  pub initial_prefix : List ℕ
  pub value_tokens : List ℕ
  pub pieces : List Bytes
  pub value : Bytes
  pub offset : ℕ

-- `b''.join(pieces)`
abbrev pub join : List Bytes → Bytes
join [] = []
join (p ∷ ps) = p ++ join ps

abbrev pub is_some {ℓ} : {A : Type ℓ} → Option A → Bool
is_some none = false
is_some (some a) = true

-- `__post_init__`
unfoldable pub post_init : ValueCursor → Check
post_init c = do
  require (is_some c.handle.span) "non-NULL handle required"
  each (λ ids. require (not (is_empty ids)) "immutable IDs required")
      (c.initial_prefix ∷ c.value_tokens ∷ [])
  require (length c.pieces == length c.value_tokens && all (λ p. not (is_empty p)) c.pieces)
      "immutable aligned pieces required"
  drop_value (text_bytes c.value)
  require (join c.pieces == c.value) "cursor bytes differ from selected value"
  number c.offset 0
  require (leb c.offset (length c.value_tokens)) "cursor outside value"

-- `ValueCursor(…)` and `replace(…)` run `__post_init__`.
abbrev pub construct : ValueCursor → Result ValueCursor
construct c = do post_init c; ok c

unfoldable pub done : ValueCursor → Bool
done c = c.offset == length c.value_tokens

unfoldable pub expected_prefix : ValueCursor → List ℕ
expected_prefix c = c.initial_prefix ++ take c.offset c.value_tokens

-- An incremental decoder's `decode(bs, final)`: pending bytes are withheld, unless it is final.
abbrev pub decode_with : Bool → Option (Text × Pending) → Option Text
decode_with final none = none
decode_with final (some (s, p)) = if final then finish (some (s, p)) else some s

unfoldable pub committed_text : ValueCursor → Result Text
unfolding done
committed_text c =
    or_raise (decode_with (done c) (feed start (join (take c.offset c.pieces))))
      unicode_decode_error

module _ (digest : PayloadSnapshot → Text) where
  unfoldable pub validate : ValueCursor → PayloadSnapshot → ReplyBinding → List ℕ → Bool → Check
  validate c snapshot reply prefix allow_oracle = do
    selected ← Handle.validate digest c.handle snapshot reply allow_oracle
    require (selected == some c.value) "selected bytes changed"
    require (prefix == expected_prefix c) "not the actual ordered prefix"

  unfoldable pub select :
      ValueCursor → ℕ → PayloadSnapshot → ReplyBinding → List ℕ → Bool → Result ℕ
  select c base_token snapshot reply prefix allow_oracle = do
    validate c snapshot reply prefix allow_oracle
    number base_token 0
    if done c
        then ok base_token
        else or_raise (get_elem? c.value_tokens c.offset) (value_error "index out of range")

  unfoldable pub commit :
      ValueCursor → ℕ → PayloadSnapshot → ReplyBinding → List ℕ → Bool → Result ValueCursor
  commit c emitted_token snapshot reply prefix allow_oracle = do
    validate c snapshot reply prefix allow_oracle
    require (not (done c) && get_elem? c.value_tokens c.offset == some emitted_token)
        "skip, premature stop, replacement or commit after value end"
    construct (record c { offset = c.offset + 1 })

  -- `select_token`: NULL passes the base token through.
  unfoldable pub select_token :
      Option ValueCursor → ℕ → PayloadSnapshot → ReplyBinding → List ℕ → Bool → Result ℕ
  select_token none base_token snapshot reply prefix allow_oracle = ok base_token
  select_token (some c) base_token snapshot reply prefix allow_oracle =
      select c base_token snapshot reply prefix allow_oracle
