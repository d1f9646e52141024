-- ===== src/Contract/Message.antt =====
-- `Message` of python/neural_memory_contract.py.
use bit_net.Base.{
  ℕ, Bool, true, ◌&&◌, not, List, [], ◌∷◌, ◌≡◌, ◌↔◌, arith, Text, lit, Check, unicode_encode_error,
  ◌>>◌, each, or_raise, drop_value, Eq, ◌==◌, eq_iff, text_eq, nat_eq, elem, is_empty,
}
use bit_net.Base.Utf8.{encode}
use bit_net.Contract.Values.{require, identifier, integer}

pub record Message : Type 0 where
  pub scope : Text
  pub conversation_id : Text
  pub message_id : Text
  pub speaker_id : Text
  pub role : Text
  pub sequence : ℕ
  pub observed_at_ms : ℕ
  pub text : Text

abbrev pub roles : List Text
roles = lit "system" ∷ lit "user" ∷ lit "assistant" ∷ lit "tool" ∷ []

-- `__post_init__`
unfoldable pub post_init : Message → Check
post_init m = do
  each identifier (m.scope ∷ m.conversation_id ∷ m.message_id ∷ m.speaker_id ∷ [])
  require (elem m.role roles) "invalid role"
  integer m.sequence 0
  integer m.observed_at_ms 0
  require (not (is_empty m.text)) "source text required"
  drop_value (or_raise (encode m.text) unicode_encode_error)

abbrev pub message_beq : Message → Message → Bool
message_beq a b =
    a.scope == b.scope
    && a.conversation_id == b.conversation_id
    && a.message_id == b.message_id
    && a.speaker_id == b.speaker_id
    && a.role == b.role
    && a.sequence == b.sequence
    && a.observed_at_ms == b.observed_at_ms
    && a.text == b.text

pub message_beq_iff : (a b : Message) → (message_beq a b ≡ true) ↔ (a ≡ b)
message_beq_iff a b = ground (
  arith,
  eq_iff a.scope b.scope,
  eq_iff a.conversation_id b.conversation_id,
  eq_iff a.message_id b.message_id,
  eq_iff a.speaker_id b.speaker_id,
  eq_iff a.role b.role,
  eq_iff a.sequence b.sequence,
  eq_iff a.observed_at_ms b.observed_at_ms,
  eq_iff a.text b.text,
)

instance abbrev pub message_eq : Eq Message
message_eq = record { beq = message_beq; beq_iff = message_beq_iff }
