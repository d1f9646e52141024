-- ===== src/Transport/Handle.antt =====
-- `ActivatedFact` of python/value_transport.py: the selection of a value in a snapshot. The digest of
-- a snapshot is a parameter.
use bit_net.Base.Utf8.{decode}
use bit_net.Base.Floats.{Float, in_unit}
use bit_net.Transport.Values.{
  require, sha, Origin, oracle_fixture, neural_prediction, FactPayload, PayloadSnapshot,
  ReplyBinding, reply_eq, ValueSpan,
}
use bit_net.Base.{
  ℕ, Bool, true, ◌&&◌, Option, none, some, List, leb, ◌==◌, nat_eq, text_eq, option_eq, length,
  get_elem?, take, drop, transport_error, Result, ok, Check, ◌>>=◌, ◌>>◌, or_raise, drop_value,
  Text, Bytes,
}

pub record ActivatedFact : Type 0 where
  pub snapshot_sha256 : Text
  pub reply : ReplyBinding
  pub span : Option ValueSpan
  pub confidence : Float
  pub origin : Origin

-- `__post_init__`
unfoldable pub post_init : ActivatedFact → Check
post_init a = do sha a.snapshot_sha256; require (in_unit a.confidence) "finite confidence required"

-- `origin != Origin.ORACLE_FIXTURE or allow_oracle`
abbrev pub may_use : Origin → Bool → Bool
may_use oracle_fixture allow_oracle = allow_oracle
may_use neural_prediction allow_oracle = true

abbrev pub slice : Bytes → ℕ → ℕ → Bytes
slice raw start end = drop start (take end raw)

-- The bytes that a span selects.
unfoldable pub select_bytes : List FactPayload → ValueSpan → Result Bytes
select_bytes facts span = do
  fact ← or_raise (get_elem? facts span.fact_index) (transport_error "fact outside snapshot")
  require (leb span.end_byte (length fact.bytes)) "value outside fact"
  drop_value (
      or_raise (decode (take span.start_byte fact.bytes))
        (transport_error "span cuts a UTF-8 character"))
  drop_value (
      or_raise (decode (take span.end_byte fact.bytes))
        (transport_error "span cuts a UTF-8 character"))
  ok (slice fact.bytes span.start_byte span.end_byte)

module _ (digest : PayloadSnapshot → Text) where
  -- `validate`: the selected bytes, or `none` for NULL.
  unfoldable pub validate :
      ActivatedFact → PayloadSnapshot → ReplyBinding → Bool → Result (Option Bytes)
  validate a snapshot reply allow_oracle = do
    require
        (a.snapshot_sha256 == digest snapshot && a.reply == reply && snapshot.scope == reply.scope)
        "stale or cross-model/scope/request/context handle"
    require (may_use a.origin allow_oracle) "oracle fixture is not autonomous recall"
    elim a.span [
      | none ↦ ok none
      | some span ↦ select_bytes snapshot.facts span >>= λ value. ok (some value)
    ]
