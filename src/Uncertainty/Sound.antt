-- ===== src/Uncertainty/Sound.antt =====
-- The invariant of python/uncertainty_reply_controller.py.
use mathlib.Core.Path.{subst}
use bit_net.Controller.Setup.{LiveFrame, Decision, Now, Setup, Controller}
use bit_net.Controller.Propose
use bit_net.Controller.Propose.{is_none}
use bit_net.Controller.Sound.{Sound, length-drop}
use bit_net.Controller.Sound.Hands.{propose-Sound}
use bit_net.Controller.Sound.Commits.{take-append_left}
use bit_net.Uncertainty.{
  Pending, Branch, UncertaintyController, fail, needs, waits, first_controller, check_open, ask,
  answered, hand_over, propose, from_core, emit,
}
use bit_net.Base.{
  ℕ, ◌+◌, ◌≤◌, ◌<◌, ◌≡◌, refl, sym, ap, ◌∙◌, ◌⊎◌, inl, inr, true, false, ◌&&◌, some, List, [], ◌∷◌,
  arith, Bool-cases, nat_eq, text_eq, texts_eq, option_eq, length, take, drop, length-append,
  length-take, Error, Result, ok, err, Result-cases,
}

module _ (s : Setup) (b : Branch) where
  -- A prefix of the reply within the budgets.
  pub record Within (p : List ℕ) : Type 0 where
    pub extends_initial : take (length s.initial_prefix) p ≡ s.initial_prefix
    pub within_context : length p ≤ s.limits.max_total_tokens
    pub within_reply : length p ≤ length s.initial_prefix + s.max_new_tokens

  abbrev pub Room : List ℕ → Type 0
  Room p =
      (length p < s.limits.max_total_tokens)
      × (length p < length s.initial_prefix + s.max_new_tokens)

  pub record IsSafe (w : UncertaintyController) : Type 0 where
    pub core_sound : Sound s w.core
    pub own : w.uncertain ≡ true → Within w.own_prefix
    pub room : w.uncertain ≡ true → (p : Pending) → w.pending ≡ some p → Room w.own_prefix

  core-Within : (c : Controller) → Sound s c → Within c.prefix
  core-Within c h = record {
    extends_initial = h.extends_initial;
    within_context = h.within_context;
    within_reply = h.within_reply;
  }

  pub fail-IsSafe :
      (w : UncertaintyController) (core : Controller)
      → IsSafe w
      → Sound s core
      → IsSafe (fail (record w { core = core }))
  fail-IsSafe w core h sound = record { core_sound = sound; own = h.own; room = λ u p e. cc }

  ask-Room :
      (w : UncertaintyController) (frame : LiveFrame) {t : ℕ}
      → Within w.own_prefix
      → ask s b w frame ≡ ok t
      → Room w.own_prefix
  unfolding ask
  ask-Room w frame h e =
      let below : length (drop (length s.initial_prefix) w.own_prefix) < s.max_new_tokens =
        ground arith in
      let inside : length s.initial_prefix ≤ length w.own_prefix =
        omega (
          arith,
          ap length h.extends_initial,
          length-take (length s.initial_prefix) w.own_prefix,
        ) in
      (ground arith, omega (arith, below, length-drop s (length s.initial_prefix) w.own_prefix))

  answered-IsSafe :
      (w : UncertaintyController) (frame : LiveFrame) (r : Result ℕ)
      → Sound s w.core
      → Within w.own_prefix
      → ask s b w frame ≡ r
      → IsSafe (answered s b w frame r).0
  answered-IsSafe w frame (err x) sound own e = record {
    core_sound = sound;
    own = λ u. own;
    room = λ u p k. cc;
  }
  answered-IsSafe w frame (ok t) sound own e = record {
    core_sound = sound;
    own = λ u. own;
    room = λ u p k. ask-Room w frame own e;
  }

  hand_over-IsSafe :
      (w : UncertaintyController) (frame : LiveFrame) (made : Controller × Result Decision)
      → IsSafe w
      → w.uncertain ≡ false
      → Sound s made.0
      → IsSafe (hand_over s b w frame made).0
  unfolding hand_over
  hand_over-IsSafe w frame (core, err x) h plain sound = fail-IsSafe w core h sound
  hand_over-IsSafe w frame (core, ok action) h plain sound = elim (Bool-cases (needs action.kind)) [
    | inr passes ↦
        rw passes
          (record { core_sound = sound; own = h.own; room = λ u p k. absurd (cc (u, plain)) })
    | inl asks ↦ elim (Bool-cases (waits core.state && is_none action.token)) [
      | inr bad ↦ rw (asks, bad) (fail-IsSafe w core h sound)
      | inl good ↦
          let uncertain : UncertaintyController = record w {
            core = core;
            uncertain = true;
            own_prefix = core.prefix;
          } in
          rw (asks, good)
            (answered-IsSafe uncertain frame (ask s b uncertain frame) sound
              (core-Within core sound) refl)
    ]
  ]

  pub propose-cases :
      (w : UncertaintyController) (now : Now) (frame : LiveFrame)
      → ((x : Error) × (propose s b w now frame ≡ (fail w, err x)))
        ⊎ (((w.uncertain ≡ true)
              × (propose s b w now frame ≡ answered s b w frame (ask s b w frame)))
            ⊎ ((w.uncertain ≡ false)
                × (propose s b w now frame
                    ≡ hand_over s b w frame (Propose.propose s w.core now frame))))
  unfolding propose
  propose-cases w now frame = elim (Result-cases (check_open s b w now)) [
    | inr (x, e) ↦ inl (x, ground arith)
    | inl (u, e) ↦ elim (Bool-cases w.uncertain) [
      | inl uncertain ↦ inr (inl (uncertain, ground arith))
      | inr plain ↦ inr (inr (plain, ground arith))
    ]
  ]

  pub propose-IsSafe :
      (w : UncertaintyController) (now : Now) (frame : LiveFrame)
      → IsSafe w
      → IsSafe (propose s b w now frame).0
  propose-IsSafe w now frame h = elim (propose-cases w now frame) [
    | inl (x, e) ↦
        subst (λ (p : UncertaintyController × Result Pending). IsSafe p.0) (sym e)
          (fail-IsSafe w w.core h h.core_sound)
    | inr (inl (uncertain, e)) ↦
        subst (λ (p : UncertaintyController × Result Pending). IsSafe p.0) (sym e)
          (answered-IsSafe w frame (ask s b w frame) h.core_sound (h.own uncertain) refl)
    | inr (inr (plain, e)) ↦
        subst (λ (p : UncertaintyController × Result Pending). IsSafe p.0) (sym e)
          (hand_over-IsSafe w frame (Propose.propose s w.core now frame) h plain
            (propose-Sound s w.core now frame h.core_sound))
  ]

  pub from_core-IsSafe :
      (w : UncertaintyController) (made : Controller × Result (List ℕ))
      → IsSafe w
      → Sound s made.0
      → IsSafe (from_core s b w made).0
  from_core-IsSafe w (core, err x) h sound = fail-IsSafe w core h sound
  from_core-IsSafe w (core, ok p) h sound = record {
    core_sound = sound;
    own = h.own;
    room = λ u q k. cc;
  }

  pub emit-IsSafe :
      (w : UncertaintyController) (t : ℕ)
      → Sound s w.core
      → Within w.own_prefix
      → Room w.own_prefix
      → IsSafe (emit s b w t)
  emit-IsSafe w t sound own room =
      let inside : length s.initial_prefix ≤ length w.own_prefix = omega (
        arith,
        ap length own.extends_initial,
        length-take (length s.initial_prefix) w.own_prefix,
      ) in
      record {
        core_sound = sound;
        own = λ u. record {
          extends_initial =
              take-append_left (length s.initial_prefix) w.own_prefix (t ∷ []) inside
              ∙ own.extends_initial;
          within_context = omega (arith, length-append w.own_prefix (t ∷ []), room.0);
          within_reply = omega (arith, length-append w.own_prefix (t ∷ []), room.1);
        };
        room = λ u p k. cc;
      }

  pub first_controller-IsSafe :
      (core : Controller) → Sound s core → IsSafe (first_controller s b core)
  first_controller-IsSafe core h = record { core_sound = h; own = λ u. cc; room = λ u p k. cc }
