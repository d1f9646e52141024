-- ===== src/Transport/Codec.antt =====
-- The tokenizer of the C runtime, as python/value_transport.py uses it: not part of this code, so a
-- parameter. What it does is documented by `compile_value`, and is checked there at run time.
use bit_net.Base.{ℕ, Bool, List, nat_eq, text_eq, option_eq, Result, Check, Text, Bytes}

-- The tokenizer's files may change while a call runs: its identity is verified before and after.
pub data Moment : Type 0 where
  before after : Moment

pub record ValueCodec : Type 0 where
  pub backbone_sha256 : Text
  pub tokenizer_sha256 : Text
  pub vocab : ℕ
  pub bos_id : ℕ
  pub encode_with_bos : Text → Result (List ℕ)
  pub decode_pieces : List ℕ → Result (List Bytes)
  pub forbidden : ℕ → Bool
  pub verify_identity : Moment → Check
