-- ===== src/Tests/Controller.antt =====
-- python/autonomous_value_controller.py on a reply that starts one value of two tokens at once.
use mathlib.Core.Path.{subst}
use bit_net.Transport.{default_limits}
use bit_net.Controller.Setup.{
  native_fresh, ActionKind, start_value, continue_value, end_value, active, LiveFrame, Decision,
  Held, Now, Output, Setup, Controller, fail, generated_tokens, first_controller, check_setup,
  may_act,
}
use bit_net.Controller.Propose.{propose}
use bit_net.Controller.Commit.{commit}
use bit_net.Controller.Sound.{Sound, first_controller-Sound}
use bit_net.Controller.Reach.{Steps, stop, more, proposes, commits, first_controller-Steps-Sound}
use bit_net.Controller.Reach.Prefix.{Appends, commit-Appends, Steps-prefix, Steps-terminal}
use bit_net.Controller.Reach.Value.{GoesOn, propose-GoesOn, Ends, commit-Ends}
use bit_net.Tests.Data.{hash}
use bit_net.Tests.Codec.{codec, digest, snapshot, reply, handle, prefix_ids, cursor}
use bit_net.Base.{
  ℕ, zero, suc, ◌+◌, ◌-◌, ◌*◌, ◌/◌, ◌%◌, ◌≤◌, ◌<◌, min, String, ◌≡◌, refl, sym, ap, ◌∙◌, ◌≢◌, ◌↔◌,
  ◌⊎◌, inl, inr, Bool, true, false, not, ◌&&◌, ◌||◌, Option, none, some, List, [], ◌∷◌, ◌++◌, map,
  arith, ltb, leb, if◌then◌else◌, Bool-cases, Option-cases, Eq, ◌==◌, eq_iff, nat_eq, text_eq,
  texts_eq, option_eq, length, get_elem?, take, drop, all, any, is_empty, length-append, append_nil,
  append_assoc, take-append-drop, length-take, take-length, take-suc, take-append, drop-append, All,
  Some, all_iff, all-append, elem, distinct, subset, disjoint, elem-append, Error, value_error,
  transport_error, prefix_retokenization_required, unsafe_token, transport_budget_exceeded,
  unicode_encode_error, unicode_decode_error, Result, ok, err, Check, ◌>>=◌, ◌>>◌, guard, or_raise,
  drop_value, each, each_iff, Text, Bytes, lit, has_content, is_sha256, Result-cases, guard-eq-ok,
  check-eq-ok, bind-eq-ok, or_raise-eq-ok, drop_value-eq-ok, bool_ext,
}

abbrev held : Held
held = record {
  versions = 0 ∷ [];
  model_binding = hash;
  inputs_binding = hash;
  backbone_sha256 = hash;
  tokenizer_sha256 = hash;
  bos_id = 1;
  vocab = 259;
}

abbrev now : Now
now = record {
  held = held;
  training = false;
  identity = ok tt;
  hidden_version = 0;
  logits_version = 0;
}

-- The reader starts the value at the initial prefix.
abbrev reader : Now → LiveFrame → List ℕ → Result Output
reader n frame prefix = ok (record {
  route = 1;
  starts = length prefix == 3;
  value_bytes = some (0, 2);
  handle = ok handle;
})

abbrev setup : Setup
setup = record {
  reader = reader;
  digest = digest;
  snapshot = snapshot;
  reply = reply;
  codec = codec;
  initial_prefix = prefix_ids;
  max_new_tokens = 64;
  max_value_reads = 1;
  limits = default_limits;
  allow_synthetic = false;
  eos = 2;
  bound = held;
  given = record {
    training = false;
    context_sha256 = reply.context_sha256;
    memory_sha256 = snapshot.memory_model_sha256;
    binding_sha256 = hash;
    payload = 195 ∷ 169 ∷ b'!' ∷ [];
    sources = 3;
    identity = ok tt;
    endpoints = ok tt;
  };
}

abbrev frame : List ℕ → LiveFrame
frame prefix = record {
  prefix_ids = prefix;
  binding = hash;
  origin = native_fresh;
  argmax = 49;
  is_frozen = true;
}

-- A decision is known by its identity alone.
abbrev numbered : ℕ → Decision
numbered n = record {
  identity = n;
  kind = end_value;
  token = none;
  prefix_ids = [];
  route = 1;
  origin = native_fresh;
}

abbrev decision : ℕ → ActionKind → ℕ → List ℕ → Decision
decision identity kind token prefix = record {
  identity = identity;
  kind = kind;
  token = some token;
  prefix_ids = prefix;
  route = 1;
  origin = native_fresh;
}

-- The states that the calls below leave.
abbrev proposed : Controller
proposed = record (first_controller setup) {
  route = some 1;
  cursor = some cursor;
  pending = some (decision 0 start_value 198 prefix_ids);
  frame_origin = some native_fresh;
  frame_versions = some (0 ∷ 0 ∷ []);
  created = 1;
}

abbrev once : Controller
once = record proposed {
  state = active;
  prefix = prefix_ids ++ 198 ∷ [];
  cursor = some (record cursor { offset = 1 });
  reads = 1;
  pending = none;
  frame_versions = none;
}

abbrev going_on : Controller
going_on = record once {
  pending = some (decision 1 continue_value 172 (prefix_ids ++ 198 ∷ []));
  frame_versions = some (0 ∷ 0 ∷ []);
  created = 2;
}

abbrev twice : Controller
twice = record going_on {
  prefix = prefix_ids ++ 198 ∷ 172 ∷ [];
  cursor = some (record cursor { offset = 2 });
  pending = none;
  frame_versions = none;
}

abbrev last_decision : Decision
last_decision = decision 2 end_value 49 (prefix_ids ++ 198 ∷ 172 ∷ [])

abbrev ending : Controller
ending = record twice {
  pending = some last_decision;
  frame_versions = some (0 ∷ 0 ∷ []);
  created = 3;
}

valid : check_setup setup ≡ ok tt
unfolding check_setup
valid = refl

-- What the calls of one reply return.
calls :
    ((propose setup (first_controller setup) now (frame prefix_ids)).0 ≡ proposed)
    × ((commit setup proposed now (numbered 0) 198).0 ≡ once)
    × ((propose setup once now (frame (prefix_ids ++ 198 ∷ []))).0 ≡ going_on)
    × ((commit setup going_on now (numbered 1) 172).0 ≡ twice)
    × ((propose setup twice now (frame (prefix_ids ++ 198 ∷ 172 ∷ []))).0 ≡ ending)
    × ((commit setup ending now (numbered 2) 49).1 ≡ ok (prefix_ids ++ 198 ∷ 172 ∷ 49 ∷ []))
unfolding propose commit bit_net.Controller.Propose.check_proposal
    bit_net.Controller.Commit.try_commit bit_net.Controller.Commit.acknowledged
    bit_net.Controller.Setup.validate_binding bit_net.Controller.Setup.validate_frame
    bit_net.Controller.Propose.settle bit_net.Controller.Propose.choose
    bit_net.Controller.Propose.follow bit_net.Controller.Propose.start
    bit_net.Transport.check_limits bit_net.Base.Utf8.decode
    bit_net.Transport.Compile.compile_append_value bit_net.Transport.Handle.validate
    bit_net.Transport.Handle.select_bytes bit_net.Transport.Compile.append_selected
    bit_net.Transport.Compile.token_ids bit_net.Base.Utf8.encode bit_net.Base.Utf8.encode_all
    bit_net.Base.Utf8.encode_char bit_net.Controller.Commit.advance
    bit_net.Controller.Commit.advance_cursor bit_net.Controller.Propose.go_on
    bit_net.Transport.Compile.accept_suffix bit_net.Transport.Compile.encode_value
    bit_net.Transport.Compile.refuse_control bit_net.Transport.Cursor.commit
    bit_net.Transport.Cursor.done bit_net.Transport.Cursor.expected_prefix
    bit_net.Transport.Cursor.post_init bit_net.Transport.Cursor.select
    bit_net.Transport.Cursor.validate bit_net.Transport.text_bytes
calls = (refl, refl, refl, refl, refl, refl)

reaches_proposed : Steps setup (first_controller setup) proposed
reaches_proposed =
    subst (Steps setup (first_controller setup)) calls.0
      (more stop (proposes now (frame prefix_ids)))

reaches_once : Steps setup (first_controller setup) once
reaches_once =
    subst (Steps setup (first_controller setup)) calls.1
      (more reaches_proposed (commits now (numbered 0) 198))

reaches_going_on : Steps setup (first_controller setup) going_on
reaches_going_on =
    subst (Steps setup (first_controller setup)) calls.2
      (more reaches_once (proposes now (frame (prefix_ids ++ 198 ∷ []))))

reaches_twice : Steps setup (first_controller setup) twice
reaches_twice =
    subst (Steps setup (first_controller setup)) calls.3
      (more reaches_going_on (commits now (numbered 1) 172))

steps : Steps setup (first_controller setup) ending
steps =
    subst (Steps setup (first_controller setup)) calls.4
      (more reaches_twice (proposes now (frame (prefix_ids ++ 198 ∷ 172 ∷ []))))

first_controller-Steps-Sound_example : Sound setup ending
first_controller-Steps-Sound_example = first_controller-Steps-Sound setup valid steps

Steps-prefix_example : take 3 ending.prefix ≡ prefix_ids
Steps-prefix_example = Steps-prefix setup (first_controller-Sound setup valid) steps

commit-Appends_example : Appends setup proposed 198 (commit setup proposed now (numbered 0) 198)
commit-Appends_example = commit-Appends setup proposed now (numbered 0) 198

Steps-terminal_example :
    ((propose setup (fail once) now (frame prefix_ids)).0.prefix ≡ once.prefix)
    × (may_act (propose setup (fail once) now (frame prefix_ids)).0.state ≡ false)
Steps-terminal_example = Steps-terminal setup refl (more stop (proposes now (frame prefix_ids)))

propose-GoesOn_example :
    (d : Decision) × ((propose setup twice now (frame (prefix_ids ++ 198 ∷ 172 ∷ []))).1 ≡ ok d)
    × GoesOn setup (record cursor { offset = 2 }) (frame (prefix_ids ++ 198 ∷ 172 ∷ [])) d
unfolding bit_net.Controller.Setup.validate_binding bit_net.Controller.Setup.validate_frame
propose-GoesOn_example =
    propose-GoesOn setup twice now (frame (prefix_ids ++ 198 ∷ 172 ∷ []))
      (record cursor { offset = 2 }) (first_controller-Steps-Sound setup valid reaches_twice) refl
      refl refl refl refl

commit-Ends_example :
    Ends setup ending
      (commit setup ending now (numbered 2) 49).0
      (prefix_ids ++ 198 ∷ 172 ∷ 49 ∷ [])
      49
commit-Ends_example =
    commit-Ends setup ending now (numbered 2) last_decision 49
      (first_controller-Steps-Sound setup valid steps) refl refl calls.5
