-- ===== src/Uncertainty.antt =====
-- python/uncertainty_reply_controller.py: the controller of a reply that goes on with a branch of its
-- own once the core controller needs uncertainty. The branch is a parameter.
pub mod Sound
pub mod Steps
use bit_net.Transport.{require}
use bit_net.Controller.Setup
use bit_net.Controller.Setup.{
  FrameOrigin, origin_eq, ActionKind, needs_uncertainty, ControllerState, wait_uncertainty,
  all_done, LiveFrame, Decision, Now, Setup, Controller, validate_binding,
}
use bit_net.Controller.Propose
use bit_net.Controller.Propose.{is_none}
use bit_net.Controller.Commit
use bit_net.Base.{
  ℕ, zero, suc, ◌+◌, ◌-◌, ◌*◌, ◌/◌, ◌%◌, ◌≤◌, ◌<◌, min, String, ◌≡◌, refl, sym, ap, ◌∙◌, ◌≢◌, ◌↔◌,
  ◌⊎◌, inl, inr, Bool, true, false, not, ◌&&◌, ◌||◌, Option, none, some, List, [], ◌∷◌, ◌++◌, map,
  arith, ltb, leb, if◌then◌else◌, Bool-cases, Option-cases, Eq, ◌==◌, eq_iff, nat_eq, text_eq,
  texts_eq, option_eq, length, get_elem?, take, drop, all, any, is_empty, length-append, append_nil,
  append_assoc, take-append-drop, length-take, take-length, take-suc, take-append, drop-append, All,
  Some, all_iff, all-append, elem, distinct, subset, disjoint, elem-append, Error, value_error,
  transport_error, prefix_retokenization_required, unsafe_token, transport_budget_exceeded,
  unicode_encode_error, unicode_decode_error, Result, ok, err, Check, ◌>>=◌, ◌>>◌, guard, or_raise,
  drop_value, each, each_iff, Text, Bytes, lit, has_content, is_sha256, Result-cases, guard-eq-ok,
  check-eq-ok, bind-eq-ok, or_raise-eq-ok, drop_value-eq-ok, bool_ext,
}

pub record UncertaintyDecision : Type 0 where
  pub identity : ℕ
  pub token : ℕ
  pub prefix_ids : List ℕ
  pub origin : FrameOrigin

-- A decision of the core, or one of the branch.
pub data Pending : Type 0 where
  by_core : Decision → Pending
  by_branch : UncertaintyDecision → Pending

abbrev pub token_of : Pending → Option ℕ
token_of (by_core d) = d.token
token_of (by_branch d) = some d.token

-- `decision is self._pending`
abbrev pub is_same : Pending → Pending → Bool
is_same (by_core a) (by_core b) = a.identity == b.identity
is_same (by_branch a) (by_branch b) = a.identity == b.identity
is_same _ _ = false

-- What the constructor binds: `branch` runs and validates the output, `check_branch` is the test of
-- the branch's mode, binding and versions, `check_output` validates a pending output again.
pub record Branch : Type 0 where
  pub key : Text
  pub check_branch : Now → Check
  pub branch : LiveFrame → List ℕ → Result ℕ
  pub check_output : Now → Check

pub record UncertaintyController : Type 0 where
  pub core : Controller
  pub own_prefix : List ℕ
  pub uncertain : Bool
  pub finished : Bool
  pub has_failed : Bool
  pub pending : Option Pending
  pub has_output : Bool
  pub created : ℕ

-- What every except clause does before it raises again.
abbrev pub fail : UncertaintyController → UncertaintyController
fail w = record w { has_failed = true; pending = none; has_output = false }

-- `prefix`
abbrev pub prefix : UncertaintyController → List ℕ
prefix w = if w.uncertain then w.own_prefix else w.core.prefix

abbrev pub needs : ActionKind → Bool
needs needs_uncertainty = true
needs _ = false

abbrev pub waits : ControllerState → Bool
waits wait_uncertainty = true
waits _ = false

abbrev pub is_all_done : ControllerState → Bool
is_all_done all_done = true
is_all_done _ = false

module _ (s : Setup) (b : Branch) where
  -- The fields that the constructor sets, for a core controller that has said nothing.
  abbrev pub first_controller : Controller → UncertaintyController
  first_controller core = record {
    core = core;
    own_prefix = core.prefix;
    uncertain = false;
    finished = false;
    has_failed = false;
    pending = none;
    has_output = false;
    created = 0;
  }

  -- `_validate`
  unfoldable pub validate : Now → Check
  validate now = do validate_binding s now; b.check_branch now

  unfoldable pub check_open : UncertaintyController → Now → Check
  check_open w now = do
    require (not w.finished && not w.has_failed && is_none w.pending)
        "terminal or uncommitted diagnostic reply"
    validate now

  -- The branch is asked for the next token behind the actual prefix.
  unfoldable pub ask : UncertaintyController → LiveFrame → Result ℕ
  ask w frame = do
    require
        (w.core.frame_origin == some frame.origin
          && frame.binding == b.key
          && frame.prefix_ids == w.own_prefix)
        "wrong actual uncertainty prefix/origin"
    require
        (ltb (length (drop (length s.initial_prefix) w.own_prefix)) s.max_new_tokens
          && ltb (length w.own_prefix) s.limits.max_total_tokens)
        "uncertainty budget exhausted"
    b.branch frame w.own_prefix

  abbrev pub decision_of : UncertaintyController → LiveFrame → ℕ → UncertaintyDecision
  decision_of w frame token = record {
    identity = w.created;
    token = token;
    prefix_ids = w.own_prefix;
    origin = frame.origin;
  }

  abbrev pub answered :
      UncertaintyController → LiveFrame → Result ℕ → UncertaintyController × Result Pending
  answered w frame (err e) = (fail w, err e)
  answered w frame (ok token) = (
    record w {
      pending = some (by_branch (decision_of w frame token));
      has_output = true;
      created = w.created + 1;
    },
    ok (by_branch (decision_of w frame token)),
  )

  -- The core has proposed: its action is passed on, or the branch takes over for good.
  unfoldable pub hand_over :
      UncertaintyController
      → LiveFrame
      → Controller × Result Decision
      → UncertaintyController × Result Pending
  hand_over w frame (core, err e) = (fail (record w { core = core }), err e)
  hand_over w frame (core, ok action) =
      let moved : UncertaintyController = record w { core = core } in
      let uncertain : UncertaintyController = record w {
        core = core;
        uncertain = true;
        own_prefix = core.prefix;
      } in
      if needs action.kind
      then (if waits core.state && is_none action.token
          then answered uncertain frame (ask uncertain frame)
          else (fail moved, err (transport_error "invalid core handoff")))
      else (record moved { pending = some (by_core action) }, ok (by_core action))

  unfoldable pub propose :
      UncertaintyController → Now → LiveFrame → UncertaintyController × Result Pending
  propose w now frame = elim (check_open w now) [
    | err e ↦ (fail w, err e)
    | ok u ↦
        if w.uncertain
        then answered w frame (ask w frame)
        else hand_over w frame (Propose.propose s w.core now frame)
  ]

  -- The checks in front of a commit; what is pending.
  unfoldable pub acknowledged : UncertaintyController → Now → Pending → ℕ → Result Pending
  acknowledged w now decision emitted_token = do
    require (not w.finished && not w.has_failed) "unknown/stale uncertainty decision"
    pending ← or_raise w.pending (transport_error "unknown/stale uncertainty decision")
    require (is_same decision pending) "unknown/stale uncertainty decision"
    validate now
    require (token_of pending == some emitted_token) "wrong acknowledged token"
    ok pending

  abbrev pub closed : UncertaintyController → UncertaintyController
  closed w = record w { pending = none; has_output = false }

  abbrev pub from_core :
      UncertaintyController → Controller × Result (List ℕ) → UncertaintyController × Result (List ℕ)
  from_core w (core, err e) = (fail (record w { core = core }), err e)
  from_core w (core, ok p) =
      (closed (record w { core = core; finished = is_all_done core.state }), ok p)

  abbrev pub emit : UncertaintyController → ℕ → UncertaintyController
  emit w emitted_token = closed (record w {
    own_prefix = w.own_prefix ++ emitted_token ∷ [];
    finished = emitted_token == s.eos;
  })

  -- A commit of a pending decision; with uncertainty it has to be one of the branch.
  unfoldable pub settle :
      UncertaintyController → Now → Pending → ℕ → UncertaintyController × Result (List ℕ)
  settle w now (by_core d) emitted_token =
      if w.uncertain
      then (fail w, err (transport_error "missing query-only output"))
      else from_core w (Commit.commit s w.core now d emitted_token)
  settle w now (by_branch d) emitted_token =
      if w.uncertain
      then (if w.has_output
          then elim (b.check_output now) [
            | err e ↦ (fail w, err e)
            | ok u ↦ (emit w emitted_token, ok (w.own_prefix ++ emitted_token ∷ []))
          ]
          else (fail w, err (transport_error "missing query-only output")))
      else (
        fail (record w { core = Setup.fail w.core }),
        err (transport_error "unknown, copied, stale or non-emitting decision"),
      )

  unfoldable pub commit :
      UncertaintyController → Now → Pending → ℕ → UncertaintyController × Result (List ℕ)
  commit w now decision emitted_token = elim (acknowledged w now decision emitted_token) [
    | err e ↦ (fail w, err e)
    | ok pending ↦ settle w now pending emitted_token
  ]
