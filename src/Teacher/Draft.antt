-- ===== src/Teacher/Draft.antt =====
-- The inputs and the lists of `compile_teacher` of python/value_teacher_trajectory.py.
use bit_net.Base.Utf8.{encode}
use bit_net.Generation.{Turn, Runtime}
use bit_net.Generation.Framing.{cut}
use bit_net.Transport.{require, PayloadSnapshot, ValueSpan}
use bit_net.Transport.Codec.{ValueCodec}
use bit_net.Transport.Cursor.{join}
use bit_net.Transport.Compile.{encode_value}
use bit_net.Teacher.Targets.{ByteTargets}
use bit_net.Teacher.Labels.{count}
use bit_net.Teacher.Trajectory.{Phase, generate}
use bit_net.Teacher.Trajectory.Laws.{replicate}
use bit_net.Base.{
  ℕ, zero, suc, not, ◌&&◌, Option, none, some, List, [], ◌∷◌, ◌++◌, ◌==◌, nat_eq, text_eq, texts_eq,
  option_eq, length, take, drop, any, value_error, transport_error, unicode_encode_error, Result,
  ok, err, ◌>>=◌, ◌>>◌, or_raise, Text, Bytes,
}

pub data AnswerState : Type 0 where
  no_memory_needed supported insufficient : AnswerState

pub record Label : Type 0 where
  pub id : Text
  pub input_sha256 : Text
  pub state : AnswerState
  pub response : Text

-- `{'no_memory_needed': 0, 'supported': 1, 'insufficient': 2}[state]`
abbrev pub route_of : AnswerState → ℕ
route_of no_memory_needed = 0
route_of supported = 1
route_of insufficient = 2

-- What the compiler calls and does not implement: the digests, the tokenizer's `encode` with the
-- start token, its end token, and the rendering of a source for the memory encoder.
pub record Tools : Type 0 where
  pub codec : ValueCodec
  pub digest_input : Runtime → Text
  pub digest_context : List Turn → Text
  pub digest_snapshot : PayloadSnapshot → Text
  pub encode_prompt : Text → List ℕ
  pub eos : ℕ
  pub render : Turn → Text

-- The lists `parts` and `phases`.
pub record Draft : Type 0 where
  pub parts : List ℕ
  pub phases : List Phase

abbrev pub empty_draft : Draft
empty_draft = record { parts = []; phases = [] }

-- `append_text(text, 'GENERATE')`
unfoldable pub append_text : ValueCodec → Text → Draft → Result Draft
append_text codec [] d = ok d
append_text codec (c ∷ cs) d = do
  bytes ← or_raise (encode (c ∷ cs)) unicode_encode_error
  ids ← encode_value codec bytes
  pieces ← codec.decode_pieces ids
  require (join pieces == bytes && not (any codec.forbidden ids)) "unsafe/nonexact teacher segment"
  ok (record { parts = d.parts ++ ids; phases = d.phases ++ replicate (length ids) generate })

-- `phases[i] = p`
abbrev pub set_phase : ℕ → Phase → List Phase → List Phase
set_phase i p [] = []
set_phase zero p (q ∷ qs) = p ∷ qs
set_phase (suc i) p (q ∷ qs) = q ∷ set_phase i p qs

-- What the body of the branches leaves: the draft, the position of END, and the targets.
pub record Body : Type 0 where
  pub draft : Draft
  pub end_at : Option ℕ
  pub targets : ByteTargets

-- `runtime['episodes'][0]['text']`, where there is exactly one episode.
abbrev pub only_source : List Turn → Result Text
only_source (e ∷ []) = ok e.text
only_source _ = err (transport_error "one supplied source required")

abbrev pub slice : Bytes → Option (ℕ × ℕ) → Bytes
slice raw none = []
slice raw (some (a, b)) = drop a (take b raw)

abbrev pub span_of : Option (ℕ × ℕ) → ValueSpan
span_of none = record { fact_index = 0; start_byte = 0; end_byte = 0 }
span_of (some (a, b)) = record { fact_index = 0; start_byte = a; end_byte = b }

-- `pre, post = response.split(value)`, where the value occurs once.
abbrev pub split_once : Text → Text → Result (Text × Text)
split_once value response = do
  require (count value response == 1) "ambiguous/missing teacher value; do not drop record"
  or_raise (cut value response) (value_error "not enough values to unpack")
