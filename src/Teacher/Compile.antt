-- ===== src/Teacher/Compile.antt =====
-- `compile_teacher` of python/value_teacher_trajectory.py. Digests, the tokenizer and the rendering
-- of sources are parameters.
pub mod Shapes
pub mod Laws
pub mod Accepted
use bit_net.Base.Floats.{finite}
use bit_net.Base.Utf8.{encode, decode}
use bit_net.Contract.{ModelBinding}
use bit_net.Generation.{
  Turn, Runtime, Template, gguf_chatml_v2, occurs, reserved, GenerationInput, generation_prompt,
  encode_generation_input,
}
use bit_net.Generation.Framing.{cut}
use bit_net.Transport.{
  require, oracle_fixture, FactPayload, check_payload, PayloadSnapshot, check_snapshot,
  ReplyBinding, check_reply, ValueSpan, check_span, default_limits,
}
use bit_net.Transport.Handle
use bit_net.Transport.Handle.{ActivatedFact}
use bit_net.Transport.Codec.{ValueCodec}
use bit_net.Transport.Cursor.{ValueCursor, join, committed_text}
use bit_net.Transport.Compile.{encode_value, codec_matches, compile_append_value}
use bit_net.Teacher.Targets
use bit_net.Teacher.Targets.{ByteTargets}
use bit_net.Teacher.Labels.{Meta, count, positive_bytes}
use bit_net.Teacher.Trajectory
use bit_net.Teacher.Trajectory.{
  Phase, generate, start, end, TeacherTrajectory, idle_label, teacher_forcing_oracle,
}
use bit_net.Teacher.Trajectory.Laws.{replicate}
use bit_net.Teacher.Drive.{Driven, drive}
use bit_net.Teacher.Draft.{
  AnswerState, no_memory_needed, supported, insufficient, Label, route_of, Tools, Draft,
  empty_draft, append_text, set_phase, Body, only_source, slice, span_of, split_once,
}
use bit_net.Base.{
  ℕ, zero, suc, ◌+◌, ◌-◌, ◌*◌, ◌/◌, ◌%◌, ◌≤◌, ◌<◌, min, String, ◌≡◌, refl, sym, ap, ◌∙◌, ◌≢◌, ◌↔◌,
  ◌⊎◌, inl, inr, Bool, true, false, not, ◌&&◌, ◌||◌, Option, none, some, List, [], ◌∷◌, ◌++◌, map,
  arith, ltb, leb, if◌then◌else◌, Bool-cases, Option-cases, Eq, ◌==◌, eq_iff, nat_eq, text_eq,
  texts_eq, option_eq, length, get_elem?, take, drop, all, any, is_empty, length-append, append_nil,
  append_assoc, take-append-drop, length-take, take-length, take-suc, take-append, drop-append, All,
  Some, all_iff, all-append, elem, distinct, subset, disjoint, elem-append, Error, value_error,
  transport_error, prefix_retokenization_required, unsafe_token, transport_budget_exceeded,
  unicode_encode_error, unicode_decode_error, Result, ok, err, Check, ◌>>=◌, ◌>>◌, guard, or_raise,
  drop_value, each, each_iff, Text, Bytes, lit, has_content, is_sha256, Result-cases, guard-eq-ok,
  check-eq-ok, bind-eq-ok, or_raise-eq-ok, drop_value-eq-ok, bool_ext,
}

abbrev pub close_phases : Option ℕ → List Phase → List Phase
close_phases none phases = phases
close_phases (some n) phases = set_phase n end phases

-- That the fuel is enough is proved, so this error is never raised.
abbrev pub in_fuel : Option (Result Driven) → Result Driven
in_fuel none = err (value_error "out of fuel")
in_fuel (some r) = r

module _ (tools : Tools) (binding : ModelBinding) (memory_model_sha256 : Text)
    (runtime : Runtime) where
  abbrev pub teacher_snapshot : Bytes → PayloadSnapshot
  teacher_snapshot raw = record {
    binding = binding;
    memory_model_sha256 = memory_model_sha256;
    scope = lit "teacher";
    memory_id = runtime.id;
    revision = 0;
    facts = record { fact_id = lit "source"; bytes = raw } ∷ [];
  }

  abbrev pub teacher_reply : ReplyBinding
  teacher_reply = record {
    scope = lit "teacher";
    request_id = runtime.id;
    context_sha256 = tools.digest_context runtime.context;
  }

  abbrev pub teacher_handle : Bytes → Option (ℕ × ℕ) → ActivatedFact
  teacher_handle raw span = record {
    snapshot_sha256 = tools.digest_snapshot (teacher_snapshot raw);
    reply = teacher_reply;
    span = some (span_of span);
    confidence = finite false 1 0;
    origin = oracle_fixture;
  }

  -- The constructors of the payload, the snapshot, the reply binding, the span and the handle.
  abbrev pub check_handle : Bytes → Option (ℕ × ℕ) → Check
  check_handle raw span = do
    check_payload (record { fact_id = lit "source"; bytes = raw })
    check_snapshot (teacher_snapshot raw)
    check_reply teacher_reply
    check_span (span_of span)
    Handle.post_init (teacher_handle raw span)

  -- The loop, with fuel for every token of the value.
  abbrev pub drive_all : Option ValueCursor → Bytes → List ℕ → Result Driven
  drive_all none raw prefix = err (value_error "'NoneType' object has no attribute 'done'")
  drive_all (some cursor) raw prefix = in_fuel (
      drive tools.digest_snapshot tools.codec.bos_id (teacher_snapshot raw) teacher_reply
        (suc (length cursor.value_tokens)) cursor prefix true)

  -- What was driven is compared with the value, and the text behind the value is appended.
  unfoldable pub close_value : ByteTargets → Text → Text → Draft → Driven → Result Body
  close_value found value post draft driven = do
    committed ← committed_text driven.cursor
    require (committed == value) "teacher cursor changed value"
    finished ←
        append_text tools.codec post
          (record { parts = draft.parts ++ driven.tokens; phases = draft.phases ++ driven.phases })
    ok (record {
      draft = finished;
      end_at = some (length (draft.parts ++ driven.tokens));
      targets = record found { idle_mode = none };
    })

  -- The value is driven to its end.
  unfoldable pub drive_value :
      ByteTargets → Bytes → Text → Text → List ℕ → Draft → Option ValueCursor → Result Body
  drive_value found raw value post initial draft cursor =
      drive_all cursor raw (initial ++ draft.parts) >>= close_value found value post draft

  -- The text before the value is appended, and the value is compiled behind it.
  unfoldable pub start_value : ByteTargets → Bytes → Text → Text × Text → List ℕ → Result Body
  start_value found raw value (pre, post) initial = do
    draft ← append_text tools.codec pre empty_draft
    check_handle raw found.value_bytes
    prompt ← generation_prompt gguf_chatml_v2 runtime
    cursor ←
        compile_append_value tools.digest_snapshot default_limits tools.codec
          (teacher_handle raw found.value_bytes) (teacher_snapshot raw) teacher_reply
          (initial ++ draft.parts) (prompt ++ pre) true
    drive_value found raw value post initial draft cursor

  -- The branch of a supported answer.
  unfoldable pub compile_supported : Meta → Text → List ℕ → Result Body
  compile_supported m response initial = do
    source ← only_source runtime.episodes
    raw ← or_raise (encode source) unicode_encode_error
    found ← positive_bytes raw m
    Targets.post_init (record found { idle_mode = none })
    value ← or_raise (decode (slice raw found.value_bytes)) unicode_decode_error
    parts ← split_once value response
    start_value found raw value parts initial

  -- The branch of an answer without a value.
  unfoldable pub compile_unsupported : AnswerState → Text → Result Body
  compile_unsupported state response = do
    Targets.post_init
        (record { route = route_of state; fact_bytes = none; value_bytes = none; idle_mode = none })
    draft ← append_text tools.codec response empty_draft
    ok (record {
      draft = draft;
      end_at = none;
      targets = record {
        route = route_of state;
        fact_bytes = none;
        value_bytes = none;
        idle_mode = none;
      };
    })

  unfoldable pub compile_body : Meta → AnswerState → Text → List ℕ → Result Body
  compile_body m no_memory_needed response initial = compile_unsupported no_memory_needed response
  compile_body m supported response initial = compile_supported m response initial
  compile_body m insufficient response initial = compile_unsupported insufficient response

  -- The trajectory that is handed to the constructor.
  abbrev pub trajectory_of : Label → List ℕ → Body → TeacherTrajectory
  trajectory_of label initial body =
      let phases : List Phase = close_phases body.end_at (body.draft.phases ++ generate ∷ []) in
      record {
        record_id = runtime.id;
        input_sha256 = tools.digest_input runtime;
        prompt_ids = initial;
        completion_ids = body.draft.parts ++ tools.eos ∷ [];
        phases = phases;
        idle_targets = map idle_label phases;
        response = label.response;
        static_targets = body.targets;
        origin = teacher_forcing_oracle;
      }

  -- The checks before the body, and the encoded request.
  unfoldable pub check_request : Meta → Label → Text → Result GenerationInput
  check_request m label purpose = do
    require (purpose == lit "training_diagnostic") "gold compiler is training-only"
    require
        (label.id == runtime.id
          && runtime.id == m.id
          && label.input_sha256 == tools.digest_input runtime
          && m.split == lit "train")
        "training-only bound labels required; dev/test rejected"
    require (codec_matches tools.codec binding) "codec binding mismatch"
    require
        (not (is_empty label.response)
          && not (elem 0 label.response)
          && not (any (λ marker. occurs marker label.response) reserved))
        "invalid teacher reply"
    encode_generation_input tools.encode_prompt tools.render gguf_chatml_v2 runtime

  -- The checks behind the body: the end token, the bytes of the reply, and the capacity.
  unfoldable pub check_reply_bytes : Label → List ℕ → Body → ℕ → Check
  check_reply_bytes label initial body capacity = do
    last ← tools.codec.decode_pieces (tools.eos ∷ [])
    require (last == lit "<|im_end|>" ∷ []) "unqualified EOS"
    pieces ← tools.codec.decode_pieces body.draft.parts
    bytes ← or_raise (encode label.response) unicode_encode_error
    require (join pieces == bytes) "full teacher reply bytes changed"
    require (leb (length initial + length (body.draft.parts ++ tools.eos ∷ [])) capacity)
        "teacher trajectory exceeds capacity; no truncation"

  -- All of `compile_teacher` up to the call of the constructor.
  unfoldable pub prepare : Meta → Label → Text → ℕ → Result TeacherTrajectory
  prepare m label purpose capacity = do
    request ← check_request m label purpose
    body ← compile_body m label.state label.response request.prompt_token_ids
    check_reply_bytes label request.prompt_token_ids body capacity
    ok (trajectory_of label request.prompt_token_ids body)

  unfoldable pub compile_teacher : Meta → Label → Text → ℕ → Result TeacherTrajectory
  compile_teacher m label purpose capacity = do
    trajectory ← prepare m label purpose capacity
    Trajectory.post_init trajectory
    ok trajectory
