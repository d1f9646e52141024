-- ===== src/Uncertainty/Steps.antt =====
-- The calls of python/uncertainty_reply_controller.py in any order.
pub mod Prefix
use mathlib.Core.Path.{subst}
use bit_net.Controller.Setup
use bit_net.Controller.Setup.{LiveFrame, Decision, Now, Setup, Controller}
use bit_net.Controller.Propose
use bit_net.Controller.Propose.{is_none}
use bit_net.Controller.Commit
use bit_net.Controller.Sound.{Sound, fail-Sound}
use bit_net.Controller.Sound.Commits.{commit-Sound}
use bit_net.Controller.Reach.Prefix.{propose-prefix, commit-prefix, take-all_of, take-take}
use bit_net.Uncertainty.{
  Pending, by_core, by_branch, Branch, UncertaintyController, fail, prefix, needs, waits,
  first_controller, validate, ask, answered, hand_over, propose, acknowledged, from_core, emit,
  settle, commit,
}
use bit_net.Uncertainty.Sound.{
  IsSafe, Within, fail-IsSafe, propose-IsSafe, propose-cases, from_core-IsSafe, emit-IsSafe,
  first_controller-IsSafe,
}
use bit_net.Base.{
  ℕ, zero, suc, ◌+◌, ◌-◌, ◌*◌, ◌/◌, ◌%◌, ◌≤◌, ◌<◌, min, String, ◌≡◌, refl, sym, ap, ◌∙◌, ◌≢◌, ◌↔◌,
  ◌⊎◌, inl, inr, Bool, true, false, not, ◌&&◌, ◌||◌, Option, none, some, List, [], ◌∷◌, ◌++◌, map,
  arith, ltb, leb, if◌then◌else◌, Bool-cases, Option-cases, Eq, ◌==◌, eq_iff, nat_eq, text_eq,
  texts_eq, option_eq, length, get_elem?, take, drop, all, any, is_empty, length-append, append_nil,
  append_assoc, take-append-drop, length-take, take-length, take-suc, take-append, drop-append, All,
  Some, all_iff, all-append, elem, distinct, subset, disjoint, elem-append, Error, value_error,
  transport_error, prefix_retokenization_required, unsafe_token, transport_budget_exceeded,
  unicode_encode_error, unicode_decode_error, Result, ok, err, Check, ◌>>=◌, ◌>>◌, guard, or_raise,
  drop_value, each, each_iff, Text, Bytes, lit, has_content, is_sha256, Result-cases, guard-eq-ok,
  check-eq-ok, bind-eq-ok, or_raise-eq-ok, drop_value-eq-ok, bool_ext,
}

module _ (s : Setup) (b : Branch) where
  -- What `settle` does, by cases.
  pub data Settles (w : UncertaintyController) (now : Now)
      : Pending → ℕ → UncertaintyController × Result (List ℕ) → Type 0 where
    refuses :
        {p : Pending} {t : ℕ} (core : Controller) (x : Error)
        → (core ≡ w.core) ⊎ (core ≡ Setup.fail w.core)
        → Settles w now p t (fail (record w { core = core }), err x)
    passes :
        (d : Decision) {t : ℕ}
        → w.uncertain ≡ false
        → Settles w now (by_core d) t (from_core s b w (Commit.commit s w.core now d t))
    emits :
        {p : Pending} (t : ℕ)
        → w.uncertain ≡ true
        → Settles w now p t (emit s b w t, ok (w.own_prefix ++ t ∷ []))

  pub settle-Settles :
      (w : UncertaintyController) (now : Now) (p : Pending) (t : ℕ)
      → Settles w now p t (settle s b w now p t)
  unfolding settle
  settle-Settles w now (by_core d) t = elim (Bool-cases w.uncertain) [
    | inl u ↦ subst (Settles w now (by_core d) t) (ground arith) (
        refuses {p = by_core d} {t = t} w.core (transport_error "missing query-only output")
          (inl refl))
    | inr u ↦ subst (Settles w now (by_core d) t) (ground arith) (passes d {t = t} u)
  ]
  settle-Settles w now (by_branch d) t = elim (Bool-cases w.uncertain) [
    | inr u ↦ subst (Settles w now (by_branch d) t) (ground arith) (
        refuses {p = by_branch d} {t = t} (Setup.fail w.core)
          (transport_error "unknown, copied, stale or non-emitting decision") (inr refl))
    | inl u ↦ elim (Bool-cases w.has_output) [
      | inr o ↦ subst (Settles w now (by_branch d) t) (ground arith) (
          refuses {p = by_branch d} {t = t} w.core (transport_error "missing query-only output")
            (inl refl))
      | inl o ↦ elim (Result-cases (b.check_output now)) [
        | inr (x, k) ↦
            subst (Settles w now (by_branch d) t) (ground arith)
              (refuses {p = by_branch d} {t = t} w.core x (inl refl))
        | inl (v, k) ↦
            subst (Settles w now (by_branch d) t) (ground arith) (emits {p = by_branch d} t u)
      ]
    ]
  ]

  acknowledged-pending :
      (w : UncertaintyController) (now : Now) (decision : Pending) (t : ℕ) {p : Pending}
      → acknowledged s b w now decision t ≡ ok p
      → w.pending ≡ some p
  unfolding acknowledged
  acknowledged-pending w now decision t {p} e = elim (Option-cases w.pending) [
    | inl k ↦ absurd (ground arith)
    | inr (q, k) ↦ ground (arith, Result-cases (validate s b now))
  ]

  pub commit-cases :
      (w : UncertaintyController) (now : Now) (decision : Pending) (t : ℕ)
      → ((x : Error) × (commit s b w now decision t ≡ (fail w, err x)))
        ⊎ ((p : Pending) × (w.pending ≡ some p)
            × (commit s b w now decision t ≡ settle s b w now p t))
  unfolding commit
  commit-cases w now decision t = elim (Result-cases (acknowledged s b w now decision t)) [
    | inr (x, e) ↦ inl (x, ground arith)
    | inl (p, e) ↦ inr (p, acknowledged-pending w now decision t e, ground arith)
  ]

  Settles-IsSafe :
      (w : UncertaintyController) (now : Now) {p : Pending} {t : ℕ}
      {made : UncertaintyController × Result (List ℕ)}
      → IsSafe s b w
      → w.pending ≡ some p
      → Settles w now p t made
      → IsSafe s b made.0
  Settles-IsSafe w now h k (refuses core x (inl same)) =
      fail-IsSafe s b w core h (subst (Sound s) (sym same) h.core_sound)
  Settles-IsSafe w now h k (refuses core x (inr same)) =
      fail-IsSafe s b w core h (subst (Sound s) (sym same) (fail-Sound s w.core h.core_sound))
  Settles-IsSafe w now {t = t} h k (passes d u) =
      from_core-IsSafe s b w (Commit.commit s w.core now d t) h
        (commit-Sound s w.core now d t h.core_sound)
  Settles-IsSafe w now {p = p} h k (emits t u) =
      emit-IsSafe s b w t h.core_sound (h.own u) (h.room u p k)

  commit-IsSafe :
      (w : UncertaintyController) (now : Now) (decision : Pending) (t : ℕ)
      → IsSafe s b w
      → IsSafe s b (commit s b w now decision t).0
  commit-IsSafe w now decision t h = elim (commit-cases w now decision t) [
    | inl (x, e) ↦
        subst (λ (r : UncertaintyController × Result (List ℕ)). IsSafe s b r.0) (sym e)
          (fail-IsSafe s b w w.core h h.core_sound)
    | inr (p, k, e) ↦
        subst (λ (r : UncertaintyController × Result (List ℕ)). IsSafe s b r.0) (sym e)
          (Settles-IsSafe w now h k (settle-Settles w now p t))
  ]

  pub data Step (w : UncertaintyController) : UncertaintyController → Type 0 where
    proposes : (now : Now) (frame : LiveFrame) → Step w (propose s b w now frame).0
    commits :
        (now : Now) (decision : Pending) (emitted_token : ℕ)
        → Step w (commit s b w now decision emitted_token).0

  pub data Steps (w : UncertaintyController) : UncertaintyController → Type 0 where
    stop : Steps w w
    more : {v u : UncertaintyController} → Steps w v → Step v u → Steps w u

  Step-IsSafe : {w v : UncertaintyController} → Step w v → IsSafe s b w → IsSafe s b v
  Step-IsSafe {w} (proposes now frame) h = propose-IsSafe s b w now frame h
  Step-IsSafe {w} (commits now decision t) h = commit-IsSafe w now decision t h

  pub Steps-IsSafe : {w v : UncertaintyController} → Steps w v → IsSafe s b w → IsSafe s b v
  Steps-IsSafe stop h = h
  Steps-IsSafe (more before step) h = Step-IsSafe step (Steps-IsSafe before h)

  -- From a controller around a sound core, every order of calls keeps the invariant: the core is
  -- sound, and once the reply is uncertain its own prefix begins with the initial one and is within
  -- the budgets of the context and of the reply.
  pub first_controller-Steps-IsSafe :
      (core : Controller) {w : UncertaintyController}
      → Sound s core
      → Steps (first_controller s b core) w
      → IsSafe s b w
  first_controller-Steps-IsSafe core h steps =
      Steps-IsSafe steps (first_controller-IsSafe s b core h)
