-- ===== src/Uncertainty/Steps/Prefix.antt =====
-- The prefix of python/uncertainty_reply_controller.py under calls in any order.
use bit_net.Controller.Setup.{LiveFrame, Decision, Now, Setup, Controller}
use bit_net.Controller.Propose
use bit_net.Controller.Propose.{is_none}
use bit_net.Controller.Commit
use bit_net.Controller.Reach.Prefix.{propose-prefix, commit-prefix, take-all_of, take-take}
use bit_net.Uncertainty.{
  Pending, Branch, UncertaintyController, fail, prefix, ask, answered, hand_over, propose,
  from_core, emit, commit,
}
use bit_net.Uncertainty.Sound.{IsSafe, propose-cases}
use bit_net.Uncertainty.Steps.{
  Settles, refuses, passes, emits, settle-Settles, commit-cases, Step, proposes, commits, Steps,
  stop, more, Steps-IsSafe,
}
use bit_net.Base.{
  ℕ, ◌≤◌, ◌≡◌, refl, sym, ap, ◌∙◌, inl, inr, true, false, List, [], ◌∷◌, ◌++◌, arith, nat_eq,
  text_eq, texts_eq, option_eq, length, take, length-take, take-length, take-append, Result, ok,
  err,
}

module _ (s : Setup) (b : Branch) where
  answered-prefix :
      (w : UncertaintyController) (frame : LiveFrame) (r : Result ℕ)
      → prefix (answered s b w frame r).0 ≡ prefix w
  answered-prefix w frame (err x) = refl
  answered-prefix w frame (ok t) = refl

  hand_over-prefix :
      (w : UncertaintyController) (frame : LiveFrame) (made : Controller × Result Decision)
      → w.uncertain ≡ false
      → prefix (hand_over s b w frame made).0 ≡ made.0.prefix
  unfolding hand_over
  hand_over-prefix w frame (core, err x) plain = ground arith
  hand_over-prefix w frame (core, ok action) plain =
      let uncertain : UncertaintyController = record w {
        core = core;
        uncertain = true;
        own_prefix = core.prefix;
      } in
      ground (arith, answered-prefix uncertain frame (ask s b uncertain frame))

  propose-kept :
      (w : UncertaintyController) (now : Now) (frame : LiveFrame)
      → IsSafe s b w
      → prefix (propose s b w now frame).0 ≡ prefix w
  propose-kept w now frame h = elim (propose-cases s b w now frame) [
    | inl (x, e) ↦ ap (λ (p : UncertaintyController × Result Pending). prefix p.0) e
    | inr (inl (u, e)) ↦
        ap (λ (p : UncertaintyController × Result Pending). prefix p.0) e
        ∙ answered-prefix w frame (ask s b w frame)
    | inr (inr (plain, e)) ↦
        ap (λ (p : UncertaintyController × Result Pending). prefix p.0) e
        ∙ hand_over-prefix w frame (Propose.propose s w.core now frame) plain
        ∙ propose-prefix s w.core now frame h.core_sound
        ∙ ground arith
  ]

  from_core-prefix :
      (w : UncertaintyController) (made : Controller × Result (List ℕ))
      → w.uncertain ≡ false
      → prefix (from_core s b w made).0 ≡ made.0.prefix
  from_core-prefix w (core, err x) u = ground arith
  from_core-prefix w (core, ok p) u = ground arith

  Settles-begins :
      (w : UncertaintyController) (now : Now) {p : Pending} {t : ℕ}
      {made : UncertaintyController × Result (List ℕ)}
      → Settles s b w now p t made
      → take (length (prefix w)) (prefix made.0) ≡ prefix w
  Settles-begins w now (refuses core x (inl same)) =
      take-all_of s (prefix (fail (record w { core = core }))) (prefix w) (ground arith)
  Settles-begins w now (refuses core x (inr same)) =
      take-all_of s (prefix (fail (record w { core = core }))) (prefix w) (ground arith)
  Settles-begins w now {t = t} (passes d u) =
      let begins = commit-prefix s w.core now d t in
      let same : prefix w ≡ w.core.prefix = ground arith in
      ap (λ x. take (length (prefix w)) x) (from_core-prefix w (Commit.commit s w.core now d t) u)
      ∙ ap (λ x. take (length x) (Commit.commit s w.core now d t).0.prefix) same
      ∙ begins
      ∙ sym same
  Settles-begins w now (emits t u) =
      let same : prefix w ≡ w.own_prefix = ground arith in
      let next : prefix (emit s b w t) ≡ w.own_prefix ++ t ∷ [] = ground arith in
      ap (take (length (prefix w))) next
      ∙ ap (λ x. take (length x) (w.own_prefix ++ t ∷ [])) same
      ∙ take-append w.own_prefix (t ∷ [])
      ∙ sym same

  commit-begins :
      (w : UncertaintyController) (now : Now) (decision : Pending) (t : ℕ)
      → take (length (prefix w)) (prefix (commit s b w now decision t).0) ≡ prefix w
  commit-begins w now decision t = elim (commit-cases s b w now decision t) [
    | inl (x, e) ↦
        take-all_of s (prefix (commit s b w now decision t).0) (prefix w)
          (ap (λ (p : UncertaintyController × Result (List ℕ)). prefix p.0) e)
    | inr (p, k, e) ↦
        ap (λ (r : UncertaintyController × Result (List ℕ)). take (length (prefix w)) (prefix r.0))
          e
        ∙ Settles-begins w now (settle-Settles s b w now p t)
  ]

  Step-begins :
      {w v : UncertaintyController}
      → IsSafe s b w
      → Step s b w v
      → take (length (prefix w)) (prefix v) ≡ prefix w
  Step-begins {w} h (proposes now frame) =
      take-all_of s (prefix (propose s b w now frame).0) (prefix w) (propose-kept w now frame h)
  Step-begins {w} h (commits now decision t) = commit-begins w now decision t

  -- Whatever is called in whatever order, also where the branch takes over from the core, the
  -- prefix of a controller with the invariant is a beginning of its prefix afterwards.
  pub Steps-begins :
      {w v : UncertaintyController}
      → IsSafe s b w
      → Steps s b w v
      → take (length (prefix w)) (prefix v) ≡ prefix w
  Steps-begins {w} h stop = take-length (prefix w)
  Steps-begins {w} h (more {v = v} {u = u} before step) =
      let earlier = Steps-begins h before in
      let later = Step-begins (Steps-IsSafe s b before h) step in
      let inside : length (prefix w) ≤ length (prefix v) =
        omega (arith, ap length earlier, length-take (length (prefix w)) (prefix v)) in
      sym (take-take s (length (prefix w)) (length (prefix v)) (prefix u) inside)
      ∙ ap (take (length (prefix w))) later
      ∙ earlier
