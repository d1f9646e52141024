-- ===== src/Tests/Teacher.antt =====
-- python/value_teacher_trajectory.py on a reply that quotes one value.
use bit_net.Generation.{Turn, Runtime, render_turn, system_turn}
use bit_net.Transport.Codec.{ValueCodec}
use bit_net.Transport.Compile.{anchor}
use bit_net.Teacher.Labels.{Meta}
use bit_net.Teacher.Trajectory
use bit_net.Teacher.Trajectory.{TeacherTrajectory, check_phases}
use bit_net.Teacher.Trajectory.Laws.{active_phases, check_phases-active}
use bit_net.Teacher.Drive.{drive}
use bit_net.Teacher.Draft.{supported, Label, Tools}
use bit_net.Teacher.Compile.{prepare, compile_teacher, trajectory_of}
use bit_net.Teacher.Compile.Accepted.{prepare-post_init, IsExact, compile_teacher-IsExact}
use bit_net.Tests.Data.{hash, binding}
use bit_net.Tests.Codec.{codec, piece_of, byte_tokens}
use bit_net.Base.{
  ℕ, zero, suc, ◌+◌, ◌-◌, ◌*◌, ◌/◌, ◌%◌, ◌≤◌, ◌<◌, min, String, ◌≡◌, refl, sym, ap, ◌∙◌, ◌≢◌, ◌↔◌,
  ◌⊎◌, inl, inr, Bool, true, false, not, ◌&&◌, ◌||◌, Option, none, some, List, [], ◌∷◌, ◌++◌, map,
  arith, ltb, leb, if◌then◌else◌, Bool-cases, Option-cases, Eq, ◌==◌, eq_iff, nat_eq, text_eq,
  texts_eq, option_eq, length, get_elem?, take, drop, all, any, is_empty, length-append, append_nil,
  append_assoc, take-append-drop, length-take, take-length, take-suc, take-append, drop-append, All,
  Some, all_iff, all-append, elem, distinct, subset, disjoint, elem-append, Error, value_error,
  transport_error, prefix_retokenization_required, unsafe_token, transport_budget_exceeded,
  unicode_encode_error, unicode_decode_error, Result, ok, err, Check, ◌>>=◌, ◌>>◌, guard, or_raise,
  drop_value, each, each_iff, Text, Bytes, lit, has_content, is_sha256, Result-cases, guard-eq-ok,
  check-eq-ok, bind-eq-ok, or_raise-eq-ok, drop_value-eq-ok, bool_ext,
}

-- The tokenizer has one more token, for all of the system turn.
abbrev system_text : Text
system_text = render_turn system_turn

abbrev wide_piece_of : ℕ → Bytes
wide_piece_of token = if token == 300 then system_text else piece_of token

abbrev wide_codec : ValueCodec
wide_codec = record codec { vocab = 301; decode_pieces = λ ids. ok (map wide_piece_of ids) }

abbrev tools : Tools
tools = record {
  codec = wide_codec;
  digest_input = λ r. hash;
  digest_context = λ ms. hash;
  digest_snapshot = λ s. hash;
  encode_prompt = λ text. 1 ∷ 300 ∷ byte_tokens (drop (length system_text) text);
  eos = 2;
  render = λ m. m.text;
}

abbrev says : Text → Turn
says text = record { role = lit "user"; speaker = lit "user"; text = text }

abbrev runtime : Runtime
runtime = record {
  id = lit "1";
  context = says (lit "where?") ∷ [];
  episodes = says (lit "Ann currently lives in Nice.") ∷ [];
}

abbrev facts : Meta
facts = record {
  id = lit "1";
  split = lit "train";
  language = lit "en";
  query_subject = lit "Ann";
  query_relation = lit "home_city";
  source_facts =
      record { subject = lit "Ann"; relation = lit "home_city"; value = lit "Nice" } ∷ [];
}

abbrev label : Label
label = record { id = lit "1"; input_sha256 = hash; state = supported; response = lit "In Nice." }

abbrev prompt_ids : List ℕ
prompt_ids =
    1
    ∷ 300
    ∷ byte_tokens (
        lit "<|im_start|>user"
        ++ (10 ∷ lit "where?<|im_end|>")
        ++ (10 ∷ lit "<|im_start|>assistant")
        ++ 10 ∷ [])

-- `In `, then `Nice`, and `.`, which closes the value.
abbrev trajectory : TeacherTrajectory
trajectory = trajectory_of tools binding hash runtime label prompt_ids (record {
  draft = record {
    parts = byte_tokens (lit "In Nice.");
    phases =
        Trajectory.generate ∷ Trajectory.generate ∷ Trajectory.generate ∷ Trajectory.start
        ∷ Trajectory.continue ∷ Trajectory.continue ∷ Trajectory.continue ∷ Trajectory.generate
        ∷ [];
  };
  end_at = some 7;
  targets = record {
    route = 1;
    fact_bytes = some (0, 28);
    value_bytes = some (23, 27);
    idle_mode = none;
  };
})

prepared :
    prepare tools binding hash runtime facts label (lit "training_diagnostic") 128 ≡ ok trajectory
unfolding prepare bit_net.Teacher.Compile.check_request bit_net.Generation.encode_generation_input
    bit_net.Generation.generation_prompt bit_net.Generation.validate_input has_content
    bit_net.Generation.check_generation_input bit_net.Teacher.Compile.compile_body
    bit_net.Teacher.Compile.compile_supported bit_net.Base.Utf8.encode
    bit_net.Teacher.Labels.positive_bytes bit_net.Teacher.Labels.asked_fact
    bit_net.Teacher.Labels.sentence bit_net.Base.Utf8.encode_all bit_net.Base.Utf8.encode_char
    bit_net.Teacher.Labels.count_from bit_net.Teacher.Targets.post_init
    bit_net.Teacher.Labels.index_of bit_net.Base.Floats.in_unit is_sha256 bit_net.Base.Utf8.decode
    bit_net.Teacher.Compile.check_reply_bytes bit_net.Teacher.Compile.close_value
    bit_net.Teacher.Compile.drive_value bit_net.Teacher.Compile.start_value
    bit_net.Teacher.Draft.append_text drive bit_net.Transport.Compile.accept_suffix
    bit_net.Transport.Compile.append_selected bit_net.Transport.Compile.compile_append_value
    bit_net.Transport.Compile.encode_value bit_net.Transport.Compile.refuse_control
    bit_net.Transport.Compile.token_ids bit_net.Transport.Cursor.commit
    bit_net.Transport.Cursor.committed_text bit_net.Transport.Cursor.done
    bit_net.Transport.Cursor.expected_prefix bit_net.Transport.Cursor.post_init
    bit_net.Transport.Cursor.select bit_net.Transport.Cursor.validate
    bit_net.Transport.Handle.post_init bit_net.Transport.Handle.select_bytes
    bit_net.Transport.Handle.validate bit_net.Transport.check_payload bit_net.Transport.check_reply
    bit_net.Transport.check_snapshot bit_net.Transport.check_span bit_net.Transport.text_bytes
    bit_net.Generation.Framing.cut
prepared = refl

prepare-post_init_example : Trajectory.post_init trajectory ≡ ok tt
prepare-post_init_example =
    prepare-post_init tools binding hash runtime facts label (lit "training_diagnostic") 128
      prepared

compiled :
    compile_teacher tools binding hash runtime facts label (lit "training_diagnostic") 128
    ≡ ok trajectory
unfolding compile_teacher
compiled =
    ap (λ r. r >>= λ t. Trajectory.post_init t >> ok t) prepared
    ∙ ap (λ c. c >> ok trajectory)
        (prepare-post_init tools binding hash runtime facts label (lit "training_diagnostic") 128
          prepared)

compile_teacher-IsExact_example : IsExact tools binding hash runtime label 128 trajectory
compile_teacher-IsExact_example =
    compile_teacher-IsExact tools binding hash runtime facts label (lit "training_diagnostic") 128
      compiled

check_phases-active_example : check_phases true (active_phases 3 3 1) ≡ ok tt
check_phases-active_example = check_phases-active 3 3 1
