-- ===== src/Tests/Codec.antt =====
-- A tokenizer with a token for each byte, a start token 1 and a control token 2, and a handle.
use bit_net.Base.Floats.{finite}
use bit_net.Base.Utf8.{encode}
use bit_net.Generation.{starts_with}
use bit_net.Transport.{PayloadSnapshot, ReplyBinding, neural_prediction}
use bit_net.Transport.Handle.{ActivatedFact}
use bit_net.Transport.Codec.{ValueCodec}
use bit_net.Transport.Cursor.{ValueCursor}
use bit_net.Transport.Compile.{anchor}
use bit_net.Tests.Data.{hash, binding}
use bit_net.Base.{
  ℕ, ◌+◌, ◌-◌, false, none, some, List, [], ◌∷◌, map, ltb, if◌then◌else◌, ◌==◌, nat_eq, text_eq,
  texts_eq, option_eq, length, drop, ok, Text, Bytes, lit,
}

abbrev pub byte_tokens : Text → List ℕ
byte_tokens s = elim (encode s) [ none ↦ [] | some bytes ↦ map (λ b. b + 3) bytes ]

abbrev pub tokens_of : Text → List ℕ
tokens_of s =
    1 ∷ (if starts_with anchor s then 2 ∷ byte_tokens (drop (length anchor) s) else byte_tokens s)

abbrev pub piece_of : ℕ → Bytes
piece_of token = if token == 1 then [] else if token == 2 then anchor else (token - 3) ∷ []

abbrev pub codec : ValueCodec
codec = record {
  backbone_sha256 = hash;
  tokenizer_sha256 = hash;
  vocab = 259;
  bos_id = 1;
  encode_with_bos = λ s. ok (tokens_of s);
  decode_pieces = λ ids. ok (map piece_of ids);
  forbidden = λ token. ltb token 3;
  verify_identity = λ moment. ok tt;
}

abbrev pub digest : PayloadSnapshot → Text
digest s = s.memory_model_sha256

abbrev pub reply : ReplyBinding
reply = record { scope = lit "s"; request_id = lit "r"; context_sha256 = hash }

abbrev pub snapshot : PayloadSnapshot
snapshot = record {
  binding = binding;
  memory_model_sha256 = hash;
  scope = lit "s";
  memory_id = lit "m";
  revision = 7;
  facts = record { fact_id = lit "f"; bytes = 195 ∷ 169 ∷ b'!' ∷ [] } ∷ [];
}

-- The first character of the fact, of two bytes.
abbrev pub handle : ActivatedFact
handle = record {
  snapshot_sha256 = hash;
  reply = reply;
  span = some (record { fact_index = 0; start_byte = 0; end_byte = 2 });
  confidence = finite false 1 1;
  origin = neural_prediction;
}

abbrev pub prefix_text : Text
prefix_text = lit "a "

abbrev pub prefix_ids : List ℕ
prefix_ids = 1 ∷ 100 ∷ 35 ∷ []

abbrev pub cursor : ValueCursor
cursor = record {
  handle = handle;
  initial_prefix = prefix_ids;
  value_tokens = 198 ∷ 172 ∷ [];
  pieces = (195 ∷ []) ∷ (169 ∷ []) ∷ [];
  value = 195 ∷ 169 ∷ [];
  offset = 0;
}
