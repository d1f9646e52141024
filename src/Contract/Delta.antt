-- ===== src/Contract/Delta.antt =====
-- `WriteDelta` of python/neural_memory_contract.py: a batch of write operations against a snapshot.
pub mod Loop
pub mod Admission
use bit_net.Base.Dict.{Dict, lookup, contains, index}
use bit_net.Contract.Values.{require, identifier, integer}
use bit_net.Contract.Message.{Message, message_eq}
use bit_net.Contract.Context.{ConversationContext}
use bit_net.Contract.Span.{SourceSpan}
use bit_net.Contract.Episode.{Episode}
use bit_net.Contract.State.{MemoryState}
use bit_net.Contract.Operation.{Operation, append, replace, coexist, retract, WriteOperation}
use bit_net.Base.{
  ℕ, zero, suc, ◌+◌, ◌-◌, ◌*◌, ◌/◌, ◌%◌, ◌≤◌, ◌<◌, min, String, ◌≡◌, refl, sym, ap, ◌∙◌, ◌≢◌, ◌↔◌,
  ◌⊎◌, inl, inr, Bool, true, false, not, ◌&&◌, ◌||◌, Option, none, some, List, [], ◌∷◌, ◌++◌, map,
  arith, ltb, leb, if◌then◌else◌, Bool-cases, Option-cases, Eq, ◌==◌, eq_iff, nat_eq, text_eq,
  option_eq, length, get_elem?, take, drop, all, any, is_empty, length-append, append_nil,
  append_assoc, take-append-drop, length-take, take-length, take-suc, take-append, drop-append, All,
  all_iff, all-append, elem, distinct, subset, disjoint, elem-append, Error, value_error,
  transport_error, prefix_retokenization_required, unsafe_token, transport_budget_exceeded,
  unicode_encode_error, unicode_decode_error, Result, ok, err, Check, ◌>>=◌, ◌>>◌, guard, or_raise,
  drop_value, each, each_iff, Text, Bytes, lit, has_content, is_sha256,
}

pub record WriteDelta : Type 0 where
  pub scope : Text
  pub base_revision : ℕ
  pub request_id : Text
  pub operations : List WriteOperation

-- `__post_init__`
unfoldable pub post_init : WriteDelta → Check
post_init d = do identifier d.scope; identifier d.request_id; integer d.base_revision 0

-- The sets `new_ids` and `mutated` of the loop.
pub record Seen : Type 0 where
  pub new_ids : List Text
  pub mutated : List Text

-- `t in existing and not existing[t].retracted`
abbrev pub is_live_target : Dict Text Episode → Text → Bool
is_live_target existing t = elim (lookup t existing) [ none ↦ false | some e ↦ not e.retracted ]

-- `operation.operation in (Operation.REPLACE, Operation.RETRACT)`
abbrev pub mutates : Operation → Bool
mutates replace = true
mutates retract = true
mutates _ = false

unfoldable pub mark_mutated : WriteOperation → Seen → Result Seen
mark_mutated w seen =
    if mutates w.operation
    then (do
      require (disjoint w.target_ids seen.mutated) "conflicting mutations"
      ok (record seen { mutated = w.target_ids ++ seen.mutated }))
    else ok seen

abbrev pub check_span : Dict Text Message → SourceSpan → Check
check_span messages span = do
  require (lookup span.message.message_id messages == some span.message) "source not in context"
  require (elem span.message.role (lit "user" ∷ lit "tool" ∷ []))
      "automatic assistant self-write forbidden"

module _ (state : MemoryState) (context : ConversationContext) where
  abbrev pub existing : Dict Text Episode
  existing = index (λ e. e.event_id) state.episodes

  abbrev pub messages : Dict Text Message
  messages = index (λ m. m.message_id) context.messages

  unfoldable pub admit_candidate : Option Episode → Seen → Result Seen
  admit_candidate none seen = ok seen
  admit_candidate (some candidate) seen = do
    require (candidate.scope == state.scope) "candidate scope mismatch"
    require
        (not (contains candidate.event_id existing) && not (elem candidate.event_id seen.new_ids))
        "duplicate candidate id"
    require (candidate.learned_at_ms == context.at_ms) "write time must come from application"
    each (check_span messages) candidate.sources
    ok (record seen { new_ids = candidate.event_id ∷ seen.new_ids })

  -- The body of the loop over the operations.
  unfoldable pub admit : WriteOperation → Seen → Result Seen
  admit w seen = do
    require (all (is_live_target existing) w.target_ids) "target missing or retracted"
    marked ← mark_mutated w seen
    admit_candidate w.candidate marked

  unfoldable pub admit_all : List WriteOperation → Seen → Result Seen
  admit_all [] seen = ok seen
  admit_all (w ∷ ws) seen = do next ← admit w seen; admit_all ws next

-- `validate_against`
unfoldable pub validate_against : WriteDelta → MemoryState → ConversationContext → Check
validate_against d state context = do
  require (d.scope == state.scope && state.scope == context.scope) "write scope mismatch"
  require (d.base_revision == state.revision) "stale write snapshot"
  require (d.request_id == context.request_id) "idempotency key must come from application"
  drop_value (admit_all state context d.operations (record { new_ids = []; mutated = [] }))
