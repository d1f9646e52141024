-- ===== src/Transport/Values.antt =====
-- The validators and the immutable values of python/value_transport.py.
use bit_net.Base.Utf8.{decode}
use bit_net.Contract.{ModelBinding}
use bit_net.Base.{
  ℕ, String, ◌≡◌, ◌↔◌, Bool, true, not, ◌&&◌, List, [], ◌∷◌, map, arith, ltb, leb, Eq, ◌==◌, eq_iff,
  nat_eq, text_eq, option_eq, is_empty, elem, distinct, transport_error, Result, Check, ◌>>◌, guard,
  or_raise, drop_value, each, Text, Bytes, has_content, is_sha256,
}

-- `require(ok, message)`
abbrev pub require : Bool → String → Check
require condition message = guard condition (transport_error message)

abbrev pub nonempty : Text → Check
nonempty value = require (has_content value) "nonempty identity required"

abbrev pub sha : Text → Check
sha value = require (is_sha256 value) "SHA-256 required"

abbrev pub number : ℕ → ℕ → Check
number value minimum = require (leb minimum value) "invalid integer"

-- `text_bytes`: the text that the bytes encode.
unfoldable pub text_bytes : Bytes → Result Text
text_bytes value = do
  require (not (is_empty value) && not (elem 0 value)) "nonempty immutable non-NUL bytes required"
  or_raise (decode value) (transport_error "invalid UTF-8")

pub data Origin : Type 0 where
  oracle_fixture neural_prediction : Origin

pub record FactPayload : Type 0 where
  pub fact_id : Text
  pub bytes : Bytes

-- `FactPayload.__post_init__`
unfoldable pub check_payload : FactPayload → Check
check_payload f = do nonempty f.fact_id; drop_value (text_bytes f.bytes)

pub record PayloadSnapshot : Type 0 where
  pub binding : ModelBinding
  pub memory_model_sha256 : Text
  pub scope : Text
  pub memory_id : Text
  pub revision : ℕ
  pub facts : List FactPayload

-- `PayloadSnapshot.__post_init__`
unfoldable pub check_snapshot : PayloadSnapshot → Check
check_snapshot s = do
  sha s.memory_model_sha256
  nonempty s.scope
  nonempty s.memory_id
  number s.revision 0
  require (distinct (map (λ f. f.fact_id) s.facts)) "duplicate fact identity"

pub record ReplyBinding : Type 0 where
  pub scope : Text
  pub request_id : Text
  pub context_sha256 : Text

-- `ReplyBinding.__post_init__`
unfoldable pub check_reply : ReplyBinding → Check
check_reply r = do nonempty r.scope; nonempty r.request_id; sha r.context_sha256

abbrev pub reply_beq : ReplyBinding → ReplyBinding → Bool
reply_beq a b =
    a.scope == b.scope && a.request_id == b.request_id && a.context_sha256 == b.context_sha256

pub reply_beq_iff : (a b : ReplyBinding) → (reply_beq a b ≡ true) ↔ (a ≡ b)
reply_beq_iff a b = ground (
  arith,
  eq_iff a.scope b.scope,
  eq_iff a.request_id b.request_id,
  eq_iff a.context_sha256 b.context_sha256,
)

instance abbrev pub reply_eq : Eq ReplyBinding
reply_eq = record { beq = reply_beq; beq_iff = reply_beq_iff }

pub record ValueSpan : Type 0 where
  pub fact_index : ℕ
  pub start_byte : ℕ
  pub end_byte : ℕ

-- `ValueSpan.__post_init__`
unfoldable pub check_span : ValueSpan → Check
check_span s = do
  number s.fact_index 0
  number s.start_byte 0
  number s.end_byte 1
  require (ltb s.start_byte s.end_byte) "empty/reversed span"

pub record TransportLimits : Type 0 where
  pub max_value_bytes : ℕ
  pub max_value_tokens : ℕ
  pub max_total_tokens : ℕ

abbrev pub default_limits : TransportLimits
default_limits = record { max_value_bytes = 256; max_value_tokens = 64; max_total_tokens = 128 }

-- `TransportLimits.__post_init__`
unfoldable pub check_limits : TransportLimits → Check
check_limits l =
    each (λ v. number v 1) (l.max_value_bytes ∷ l.max_value_tokens ∷ l.max_total_tokens ∷ [])
