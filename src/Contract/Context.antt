-- ===== src/Contract/Context.antt =====
-- `ConversationContext` of python/neural_memory_contract.py.
pub mod Laws
use bit_net.Contract.Values.{require, identifier, integer}
use bit_net.Contract.Message.{Message}
use bit_net.Base.{
  ℕ, zero, suc, ◌+◌, ◌-◌, ◌*◌, ◌/◌, ◌%◌, ◌≤◌, ◌<◌, min, String, ◌≡◌, refl, sym, ap, ◌∙◌, ◌≢◌, ◌↔◌,
  ◌⊎◌, inl, inr, Bool, true, false, not, ◌&&◌, ◌||◌, Option, none, some, List, [], ◌∷◌, ◌++◌, map,
  arith, ltb, leb, if◌then◌else◌, Bool-cases, Option-cases, Eq, ◌==◌, eq_iff, nat_eq, text_eq,
  option_eq, length, get_elem?, take, drop, all, any, is_empty, length-append, append_nil,
  append_assoc, take-append-drop, length-take, take-length, take-suc, take-append, drop-append, All,
  all_iff, all-append, elem, distinct, subset, disjoint, elem-append, Error, value_error,
  transport_error, prefix_retokenization_required, unsafe_token, transport_budget_exceeded,
  unicode_encode_error, unicode_decode_error, Result, ok, err, Check, ◌>>=◌, ◌>>◌, guard, or_raise,
  drop_value, each, each_iff, Text, Bytes, lit, has_content, is_sha256,
}

pub record ConversationContext : Type 0 where
  pub scope : Text
  pub conversation_id : Text
  pub request_id : Text
  pub at_ms : ℕ
  pub messages : List Message

-- `p(xs[-1])`, for a list that is not empty.
abbrev pub last_satisfies : (Message → Bool) → List Message → Bool
last_satisfies p [] = false
last_satisfies p (x ∷ []) = p x
last_satisfies p (x ∷ y ∷ xs) = last_satisfies p (y ∷ xs)

-- `all(a.sequence < b.sequence for a, b in zip(messages, messages[1:]))`
abbrev pub ascending : List Message → Bool
ascending [] = true
ascending (a ∷ []) = true
ascending (a ∷ b ∷ ms) = ltb a.sequence b.sequence && ascending (b ∷ ms)

abbrev pub check_member : ConversationContext → Message → Check
check_member c message = do
  require (message.scope == c.scope && message.conversation_id == c.conversation_id)
      "context scope/conversation mismatch"
  require (leb message.observed_at_ms c.at_ms) "future message in context"

-- `__post_init__`
unfoldable pub post_init : ConversationContext → Check
post_init c = do
  each identifier (c.scope ∷ c.conversation_id ∷ c.request_id ∷ [])
  integer c.at_ms 0
  require (not (is_empty c.messages)) "current user input required"
  require (last_satisfies (λ m. m.role == lit "user") c.messages)
      "context must stop at current user input"
  require (distinct (map (λ m. m.message_id) c.messages)) "duplicate message id"
  require (ascending c.messages) "messages must be strictly ordered"
  each (check_member c) c.messages
