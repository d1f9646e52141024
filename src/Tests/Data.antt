-- ===== src/Tests/Data.antt =====
-- A conversation, a memory of one episode, and a batch that adds another.
use bit_net.Base.Floats.{Float, finite}
use bit_net.Contract.{ModelBinding}
use bit_net.Contract.Message.{Message}
use bit_net.Contract.Context.{ConversationContext}
use bit_net.Contract.Span.{SourceSpan}
use bit_net.Contract.Episode.{Episode, actual}
use bit_net.Contract.State.{MemoryState}
use bit_net.Contract.Operation.{replace}
use bit_net.Contract.Delta.{WriteDelta}
use bit_net.Contract.Read.{ReadContext, available}
use bit_net.Base.{false, none, some, [], ◌∷◌, nat_eq, text_eq, texts_eq, option_eq, Text, lit}

abbrev pub hash : Text
hash = lit "0123456789abcdef0123456789abcdef0123456789abcdef0123456789abcdef"

abbrev pub binding : ModelBinding
binding = record {
  backbone_sha256 = hash;
  tokenizer_sha256 = hash;
  encoder_sha256 = hash;
  protocol_sha256 = hash;
}

abbrev pub first_message : Message
first_message = record {
  scope = lit "s";
  conversation_id = lit "c";
  message_id = lit "m1";
  speaker_id = lit "u";
  role = lit "user";
  sequence = 1;
  observed_at_ms = 10;
  text = lit "né in Lyon";
}

abbrev pub second_message : Message
second_message = record first_message {
  message_id = lit "m2";
  sequence = 2;
  observed_at_ms = 20;
  text = lit "now Nice";
}

abbrev pub context : ConversationContext
context = record {
  scope = lit "s";
  conversation_id = lit "c";
  request_id = lit "r";
  at_ms = 30;
  messages = first_message ∷ second_message ∷ [];
}

-- `né`, three bytes of two characters.
abbrev pub span : SourceSpan
span = record { message = first_message; start_byte = 0; end_byte = 3 }

abbrev pub old_episode : Episode
old_episode = record {
  event_id = lit "e1";
  scope = lit "s";
  sources = span ∷ [];
  learned_at_ms = 12;
  event_time = none;
  fact_status = actual;
  retracted = false;
}

abbrev pub new_episode : Episode
new_episode = record old_episode {
  event_id = lit "e2";
  sources = record { message = second_message; start_byte = 4; end_byte = 8 } ∷ [];
  learned_at_ms = 30;
}

abbrev pub state : MemoryState
state = record { scope = lit "s"; revision = 7; binding = binding; episodes = old_episode ∷ [] }

abbrev pub delta : WriteDelta
delta = record {
  scope = lit "s";
  base_revision = 7;
  request_id = lit "r";
  operations =
      record { operation = replace; candidate = some new_episode; target_ids = lit "e1" ∷ [] } ∷ [];
}

abbrev pub half : Float
half = finite false 1 1

abbrev pub read : ReadContext
read = record {
  scope = lit "s";
  revision = 7;
  binding = binding;
  availability = available;
  activations = record { event_id = lit "e1"; weight = half; payloads = span ∷ [] } ∷ [];
}
