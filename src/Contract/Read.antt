-- ===== src/Contract/Read.antt =====
-- `Availability`, `Activation` and `ReadContext` of python/neural_memory_contract.py: what a read of
-- the memory may show.
pub mod Laws
use bit_net.Base.Dict.{Dict, lookup, contains, index}
use bit_net.Base.Floats.{Float, in_half_open_unit}
use bit_net.Contract.Values.{ModelBinding, binding_eq, require, identifier, integer}
use bit_net.Contract.Message.{message_eq}
use bit_net.Contract.Span.{SourceSpan}
use bit_net.Contract.Episode.{Episode}
use bit_net.Contract.State.{MemoryState}
use bit_net.Base.{
  ℕ, zero, suc, ◌+◌, ◌-◌, ◌*◌, ◌/◌, ◌%◌, ◌≤◌, ◌<◌, min, String, ◌≡◌, refl, sym, ap, ◌∙◌, ◌≢◌, ◌↔◌,
  ◌⊎◌, inl, inr, Bool, true, false, not, ◌&&◌, ◌||◌, Option, none, some, List, [], ◌∷◌, ◌++◌, map,
  arith, ltb, leb, if◌then◌else◌, Bool-cases, Option-cases, Eq, ◌==◌, eq_iff, nat_eq, text_eq,
  option_eq, length, get_elem?, take, drop, all, any, is_empty, length-append, append_nil,
  append_assoc, take-append-drop, length-take, take-length, take-suc, take-append, drop-append, All,
  all_iff, all-append, elem, distinct, subset, disjoint, elem-append, Error, value_error,
  transport_error, prefix_retokenization_required, unsafe_token, transport_budget_exceeded,
  unicode_encode_error, unicode_decode_error, Result, ok, err, Check, ◌>>=◌, ◌>>◌, guard, or_raise,
  drop_value, each, each_iff, Text, Bytes, lit, has_content, is_sha256, guard-eq-ok, check-eq-ok,
  bind-eq-ok, or_raise-eq-ok, drop_value-eq-ok, bool_ext,
}

pub data Availability : Type 0 where
  disabled not_needed missing conflict available : Availability

pub record Activation : Type 0 where
  pub event_id : Text
  pub weight : Float
  pub payloads : List SourceSpan

-- `Activation.__post_init__`
unfoldable pub check_activation : Activation → Check
check_activation a = do
  identifier a.event_id
  require (in_half_open_unit a.weight) "activation must be finite and in (0, 1]"

pub record ReadContext : Type 0 where
  pub scope : Text
  pub revision : ℕ
  pub binding : ModelBinding
  pub availability : Availability
  pub activations : List Activation

-- `availability in (DISABLED, NOT_NEEDED, MISSING)`
abbrev pub is_null : Availability → Bool
is_null conflict = false
is_null available = false
is_null _ = true

-- `ReadContext.__post_init__`
unfoldable pub post_init : ReadContext → Check
post_init r = do
  identifier r.scope
  integer r.revision 0
  require (distinct (map (λ a. a.event_id) r.activations)) "duplicate activation"
  if is_null r.availability
      then require (is_empty r.activations) "NULL/disabled read must not expose content"
      else require (not (is_empty r.activations)) "evidence required"

-- The payload is inside one of the event's sources.
abbrev pub is_inside : SourceSpan → SourceSpan → Bool
is_inside payload source =
    payload.message == source.message
    && leb source.start_byte payload.start_byte
    && ltb payload.start_byte payload.end_byte
    && leb payload.end_byte source.end_byte

abbrev pub check_payload : Episode → SourceSpan → Check
check_payload event payload =
    require (any (is_inside payload) event.sources) "payload outside activated event"

abbrev pub check_activated : Dict Text Episode → Activation → Check
check_activated events a = elim (lookup a.event_id events) [
  | none ↦ err (value_error "activation references missing/retracted event")
  | some event ↦ each (check_payload event) a.payloads
]

-- `[e for e in episodes if not e.retracted]`
abbrev pub live : List Episode → List Episode
live [] = []
live (e ∷ es) = if e.retracted then live es else e ∷ live es

-- `validate_against`
unfoldable pub validate_against : ReadContext → MemoryState → Check
validate_against r state = do
  require (r.scope == state.scope && r.revision == state.revision && r.binding == state.binding)
      "read snapshot/model mismatch"
  each (check_activated (index (λ e. e.event_id) (live state.episodes))) r.activations
