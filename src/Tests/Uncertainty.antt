-- ===== src/Tests/Uncertainty.antt =====
-- python/uncertainty_reply_controller.py on a reply for which the evidence is missing.
use mathlib.Core.Path.{subst}
use bit_net.Transport.{default_limits}
use bit_net.Controller.Setup
use bit_net.Controller.Setup.{
  native_fresh, wait_uncertainty, LiveFrame, Held, Now, Output, Setup, Controller, check_setup,
}
use bit_net.Controller.Sound.{first_controller-Sound}
use bit_net.Uncertainty.{
  UncertaintyDecision, by_branch, Branch, UncertaintyController, first_controller, prefix, propose,
  commit,
}
use bit_net.Uncertainty.Sound.{IsSafe, first_controller-IsSafe}
use bit_net.Uncertainty.Steps.{Steps, stop, more, proposes, commits, first_controller-Steps-IsSafe}
use bit_net.Uncertainty.Steps.Prefix.{Steps-begins}
use bit_net.Tests.Data.{hash}
use bit_net.Tests.Codec.{codec, digest, snapshot, reply, handle, prefix_ids}
use bit_net.Base.{
  ℕ, ◌≡◌, refl, true, false, none, some, List, [], ◌∷◌, ◌++◌, nat_eq, text_eq, texts_eq, option_eq,
  take, Result, ok,
}

abbrev held : Held
held = record {
  versions = 0 ∷ [];
  model_binding = hash;
  inputs_binding = hash;
  backbone_sha256 = hash;
  tokenizer_sha256 = hash;
  bos_id = 1;
  vocab = 259;
}

abbrev now : Now
now = record {
  held = held;
  training = false;
  identity = ok tt;
  hidden_version = 0;
  logits_version = 0;
}

-- The reader finds no evidence.
abbrev reader : Now → LiveFrame → List ℕ → Result Output
reader n frame prefix =
    ok (record { route = 2; starts = false; value_bytes = none; handle = ok handle })

abbrev setup : Setup
setup = record {
  reader = reader;
  digest = digest;
  snapshot = snapshot;
  reply = reply;
  codec = codec;
  initial_prefix = prefix_ids;
  max_new_tokens = 64;
  max_value_reads = 1;
  limits = default_limits;
  allow_synthetic = false;
  eos = 2;
  bound = held;
  given = record {
    training = false;
    context_sha256 = reply.context_sha256;
    memory_sha256 = snapshot.memory_model_sha256;
    binding_sha256 = hash;
    payload = 195 ∷ 169 ∷ b'!' ∷ [];
    sources = 3;
    identity = ok tt;
    endpoints = ok tt;
  };
}

abbrev branch : Branch
branch = record {
  key = hash;
  check_branch = λ n. ok tt;
  branch = λ frame tokens. ok 60;
  check_output = λ n. ok tt;
}

abbrev frame : LiveFrame
frame = record {
  prefix_ids = prefix_ids;
  binding = hash;
  origin = native_fresh;
  argmax = 49;
  is_frozen = true;
}

abbrev core : Controller
core = Setup.first_controller setup

abbrev decision : UncertaintyDecision
decision = record { identity = 0; token = 60; prefix_ids = prefix_ids; origin = native_fresh }

abbrev asked : UncertaintyController
asked = record (first_controller setup branch core) {
  core = record core {
    state = wait_uncertainty;
    route = some 2;
    frame_origin = some native_fresh;
    created = 1;
  };
  uncertain = true;
  pending = some (by_branch decision);
  has_output = true;
  created = 1;
}

abbrev said : UncertaintyController
said = record asked { own_prefix = prefix_ids ++ 60 ∷ []; pending = none; has_output = false }

valid : check_setup setup ≡ ok tt
unfolding check_setup
valid = refl

first_call : (propose setup branch (first_controller setup branch core) now frame).0 ≡ asked
unfolding propose commit bit_net.Uncertainty.check_open bit_net.Uncertainty.validate
    bit_net.Uncertainty.hand_over bit_net.Uncertainty.ask bit_net.Uncertainty.acknowledged
    bit_net.Uncertainty.settle bit_net.Controller.Propose.propose
    bit_net.Controller.Propose.check_proposal bit_net.Controller.Setup.validate_binding
    bit_net.Controller.Setup.validate_frame bit_net.Controller.Propose.settle
    bit_net.Controller.Propose.choose bit_net.Controller.Propose.follow
first_call = refl

second_call : (commit setup branch asked now (by_branch decision) 60).0 ≡ said
unfolding propose commit bit_net.Uncertainty.check_open bit_net.Uncertainty.validate
    bit_net.Uncertainty.hand_over bit_net.Uncertainty.ask bit_net.Uncertainty.acknowledged
    bit_net.Uncertainty.settle bit_net.Controller.Propose.propose
    bit_net.Controller.Propose.check_proposal bit_net.Controller.Setup.validate_binding
    bit_net.Controller.Setup.validate_frame bit_net.Controller.Propose.settle
    bit_net.Controller.Propose.choose bit_net.Controller.Propose.follow
second_call = refl

reaches_asked : Steps setup branch (first_controller setup branch core) asked
reaches_asked =
    subst (Steps setup branch (first_controller setup branch core)) first_call
      (more stop (proposes now frame))

reaches_said : Steps setup branch (first_controller setup branch core) said
reaches_said =
    subst (Steps setup branch (first_controller setup branch core)) second_call
      (more reaches_asked (commits now (by_branch decision) 60))

first_controller-Steps-IsSafe_example : IsSafe setup branch said
first_controller-Steps-IsSafe_example =
    first_controller-Steps-IsSafe setup branch core (first_controller-Sound setup valid)
      reaches_said

Steps-begins_example : take 3 (prefix said) ≡ prefix_ids
Steps-begins_example =
    Steps-begins setup branch
      (first_controller-IsSafe setup branch core (first_controller-Sound setup valid)) reaches_said
