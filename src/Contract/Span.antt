-- ===== src/Contract/Span.antt =====
-- `SourceSpan` of python/neural_memory_contract.py: bytes of a message, cut at whole characters.
pub mod Laws
use bit_net.Base.Utf8.{encode, decode}
use bit_net.Contract.Values.{require, integer}
use bit_net.Contract.Message.{Message, message_eq}
use bit_net.Base.{
  ℕ, zero, suc, ◌+◌, ◌-◌, ◌*◌, ◌/◌, ◌%◌, ◌≤◌, ◌<◌, min, String, ◌≡◌, refl, sym, ap, ◌∙◌, ◌≢◌, ◌↔◌,
  ◌⊎◌, inl, inr, Bool, true, false, not, ◌&&◌, ◌||◌, Option, none, some, List, [], ◌∷◌, ◌++◌, map,
  arith, ltb, leb, if◌then◌else◌, Bool-cases, Option-cases, Eq, ◌==◌, eq_iff, nat_eq, text_eq,
  option_eq, length, get_elem?, take, drop, all, any, is_empty, length-append, append_nil,
  append_assoc, take-append-drop, length-take, take-length, take-suc, take-append, drop-append, All,
  all_iff, all-append, elem, distinct, subset, disjoint, elem-append, Error, value_error,
  transport_error, prefix_retokenization_required, unsafe_token, transport_budget_exceeded,
  unicode_encode_error, unicode_decode_error, Result, ok, err, Check, ◌>>=◌, ◌>>◌, guard, or_raise,
  drop_value, each, each_iff, Text, Bytes, lit, has_content, is_sha256,
}

pub record SourceSpan : Type 0 where
  pub message : Message
  pub start_byte : ℕ
  pub end_byte : ℕ

-- `raw[start:end]`
abbrev pub slice : Bytes → ℕ → ℕ → Bytes
slice raw start end = drop start (take end raw)

-- `__post_init__`
unfoldable pub post_init : SourceSpan → Check
post_init s = do
  integer s.start_byte 0
  integer s.end_byte 1
  raw ← or_raise (encode s.message.text) unicode_encode_error
  require (ltb s.start_byte s.end_byte && leb s.end_byte (length raw)) "source span out of bounds"
  drop_value (or_raise (decode (take s.start_byte raw)) unicode_decode_error)
  drop_value (or_raise (decode (take s.end_byte raw)) unicode_decode_error)

-- The property `text`.
unfoldable pub text : SourceSpan → Result Text
text s = do
  raw ← or_raise (encode s.message.text) unicode_encode_error
  or_raise (decode (slice raw s.start_byte s.end_byte)) unicode_decode_error

abbrev pub span_beq : SourceSpan → SourceSpan → Bool
span_beq a b = a.message == b.message && a.start_byte == b.start_byte && a.end_byte == b.end_byte

pub span_beq_iff : (a b : SourceSpan) → (span_beq a b ≡ true) ↔ (a ≡ b)
span_beq_iff a b = ground (
  arith,
  eq_iff a.message b.message,
  eq_iff a.start_byte b.start_byte,
  eq_iff a.end_byte b.end_byte,
)

instance abbrev pub span_eq : Eq SourceSpan
span_eq = record { beq = span_beq; beq_iff = span_beq_iff }
