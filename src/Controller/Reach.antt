-- ===== src/Controller/Reach.antt =====
-- The calls of python/autonomous_value_controller.py in any order, with whatever arguments, as steps.
pub mod Prefix
pub mod Value
use mathlib.Core.Path.{subst}
use bit_net.Controller.Setup.{
  LiveFrame, Decision, Now, Setup, Controller, first_controller, check_setup,
}
use bit_net.Controller.Propose.{propose}
use bit_net.Controller.Commit.{commit}
use bit_net.Controller.Sound.{Sound, first_controller-Sound}
use bit_net.Controller.Sound.Hands.{propose-Sound}
use bit_net.Controller.Sound.Commits.{commit-Sound}
use bit_net.Base.{
  ℕ, zero, suc, ◌+◌, ◌-◌, ◌*◌, ◌/◌, ◌%◌, ◌≤◌, ◌<◌, min, String, ◌≡◌, refl, sym, ap, ◌∙◌, ◌≢◌, ◌↔◌,
  ◌⊎◌, inl, inr, Bool, true, false, not, ◌&&◌, ◌||◌, Option, none, some, List, [], ◌∷◌, ◌++◌, map,
  arith, ltb, leb, if◌then◌else◌, Bool-cases, Option-cases, Eq, ◌==◌, eq_iff, nat_eq, text_eq,
  texts_eq, option_eq, length, get_elem?, take, drop, all, any, is_empty, length-append, append_nil,
  append_assoc, take-append-drop, length-take, take-length, take-suc, take-append, drop-append, All,
  Some, all_iff, all-append, elem, distinct, subset, disjoint, elem-append, Error, value_error,
  transport_error, prefix_retokenization_required, unsafe_token, transport_budget_exceeded,
  unicode_encode_error, unicode_decode_error, Result, ok, err, Check, ◌>>=◌, ◌>>◌, guard, or_raise,
  drop_value, each, each_iff, Text, Bytes, lit, has_content, is_sha256, Result-cases, guard-eq-ok,
  check-eq-ok, bind-eq-ok, or_raise-eq-ok, drop_value-eq-ok, bool_ext,
}

module _ (s : Setup) where
  pub data Step (c : Controller) : Controller → Type 0 where
    proposes : (now : Now) (frame : LiveFrame) → Step c (propose s c now frame).0
    commits :
        (now : Now) (decision : Decision) (emitted_token : ℕ)
        → Step c (commit s c now decision emitted_token).0

  pub data Steps (c : Controller) : Controller → Type 0 where
    stop : Steps c c
    more : {d e : Controller} → Steps c d → Step d e → Steps c e

  Step-Sound : {c d : Controller} → Step c d → Sound s c → Sound s d
  Step-Sound {c} (proposes now frame) h = propose-Sound s c now frame h
  Step-Sound {c} (commits now decision t) h = commit-Sound s c now decision t h

  pub Steps-Sound : {c d : Controller} → Steps c d → Sound s c → Sound s d
  Steps-Sound stop h = h
  Steps-Sound (more before step) h = Step-Sound step (Steps-Sound before h)

  -- From a controller that the constructor accepts, every order of calls keeps the invariant: the
  -- prefix begins with the initial one, the tokens are within the budgets of the context and of
  -- the reply, the reads are within theirs, a cursor is ready at the prefix, with the route of a
  -- supported answer and with room for the rest of its value and one token more, and a pending
  -- decision fits: a base token only without a cursor, to start or continue a value only with the
  -- value's next token, an END only behind its last one.
  pub first_controller-Steps-Sound :
      {c : Controller} → check_setup s ≡ ok tt → Steps (first_controller s) c → Sound s c
  first_controller-Steps-Sound valid steps = Steps-Sound steps (first_controller-Sound s valid)
