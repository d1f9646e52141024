-- ===== src/Controller/Reach/Prefix.antt =====
-- The prefix of python/autonomous_value_controller.py: what each call does to it.
use bit_net.Controller.Setup.{
  ActionKind, base, start_value, continue_value, end_value, needs_uncertainty, LiveFrame, Decision,
  Now, Setup, Controller, may_act, fail, validate_binding,
}
use bit_net.Controller.Propose.{Choice, check_proposal, choose, settle, hand_out, propose}
use bit_net.Controller.Commit.{
  advance_cursor, advance, emit, acknowledged, try_commit, caught, commit,
}
use bit_net.Controller.Sound.{Sound}
use bit_net.Controller.Sound.Proposes.{choose-Chosen}
use bit_net.Controller.Sound.Hands.{propose-refused, propose-settle}
use bit_net.Controller.Reach.{Step, proposes, commits, Steps, stop, more, Steps-Sound}
use bit_net.Base.{
  ℕ, zero, suc, ◌≤◌, ◌≡◌, refl, sym, ap, ◌∙◌, ◌≢◌, inl, inr, true, false, Option, none, List, [],
  ◌∷◌, ◌++◌, arith, Option-cases, nat_eq, text_eq, texts_eq, option_eq, length, take, length-take,
  take-length, take-append, Error, transport_error, Result, ok, err, Result-cases,
}

module _ (s : Setup) where
  advance-prefix :
      (c : Controller) (kind : ActionKind) (t : ℕ) {next : Controller}
      → advance s c kind t ≡ ok next
      → next.prefix ≡ c.prefix
  unfolding advance
  advance-prefix c base t {next} e = ground arith
  advance-prefix c start_value t {next} e = ground (arith, Result-cases (advance_cursor s c t))
  advance-prefix c continue_value t {next} e = ground (arith, Result-cases (advance_cursor s c t))
  advance-prefix c end_value t {next} e = ground arith
  advance-prefix c needs_uncertainty t {next} e = ground arith

  try_commit-prefix :
      (c : Controller) (now : Now) (decision : Decision) (t : ℕ) {next : Controller}
      → try_commit s c now decision t ≡ ok next
      → (may_act c.state ≡ true) × (next.prefix ≡ c.prefix ++ t ∷ []) × (next.pending ≡ none)
  unfolding try_commit acknowledged
  try_commit-prefix c now decision t {next} e = elim (Option-cases c.pending) [
    | inl p ↦ absurd (ground arith)
    | inr (d, p) ↦ elim (Result-cases (advance s c d.kind t)) [
      | inr (x, a) ↦ absurd (ground (arith, Result-cases (validate_binding s now)))
      | inl (moved, a) ↦
          let made : emit s moved t ≡ next =
            ground (arith, Result-cases (validate_binding s now)) in
          (
            ground arith,
            ap (λ (x : Controller). x.prefix) (sym made)
                ∙ ap (λ x. x ++ t ∷ []) (advance-prefix c d.kind t a),
            ap (λ (x : Controller). x.pending) (sym made),
          )
    ]
  ]

  -- What a commit leaves.
  pub record Appends (c : Controller) (t : ℕ) (made : Controller × Result (List ℕ)) : Type 0 where
    pub returned : (p : List ℕ) → made.1 ≡ ok p → (p ≡ c.prefix ++ t ∷ []) × (made.0.prefix ≡ p)
    pub raised : (x : Error) → made.1 ≡ err x → made.0 ≡ fail c

  -- A commit that returns has appended exactly the acknowledged token, and one that raises has left
  -- everything as it was but has failed the controller and dropped its pending decision.
  pub commit-Appends :
      (c : Controller) (now : Now) (decision : Decision) (t : ℕ)
      → Appends c t (commit s c now decision t)
  unfolding commit
  commit-Appends c now decision t = go (try_commit s c now decision t) refl
    where
      go : (r : Result Controller) → try_commit s c now decision t ≡ r → Appends c t (caught s c r)
      go (err x) e = record { returned = λ p k. cc; raised = λ y k. refl }
      go (ok next) e = record {
        returned = λ p k.
            let (_, made, _) = try_commit-prefix c now decision t e in
            (ground (arith, made), ground arith);
        raised = λ y k. cc;
      }

  hand_out-prefix :
      (c : Controller) (now : Now) (frame : LiveFrame) (kind : ActionKind) (token : Option ℕ)
      (route : ℕ)
      → (hand_out s c now frame kind token route).prefix ≡ c.prefix
  hand_out-prefix c now frame base token route = refl
  hand_out-prefix c now frame start_value token route = refl
  hand_out-prefix c now frame continue_value token route = refl
  hand_out-prefix c now frame end_value token route = refl
  hand_out-prefix c now frame needs_uncertainty token route = refl

  settle-prefix :
      (now : Now) (frame : LiveFrame) (made : Controller × Result Choice)
      → (settle s now frame made).0.prefix ≡ made.0.prefix
  unfolding settle
  settle-prefix now frame (c, err x) = refl
  settle-prefix now frame (c, ok (kind, token)) = elim (Option-cases c.route) [
    | inl e ↦ ground arith
    | inr (route, e) ↦ ground (arith, hand_out-prefix c now frame kind token route)
  ]

  pub propose-prefix :
      (c : Controller) (now : Now) (frame : LiveFrame)
      → Sound s c
      → (propose s c now frame).0.prefix ≡ c.prefix
  propose-prefix c now frame h = elim (Result-cases (check_proposal s c now frame)) [
    | inr (x, e) ↦
        ap (λ (p : Controller × Result Decision). p.0.prefix) (propose-refused s c now frame e)
    | inl (u, e) ↦
        ap (λ (p : Controller × Result Decision). p.0.prefix) (propose-settle s c now frame e)
        ∙ settle-prefix now frame (choose s c now frame)
        ∙ (choose-Chosen s c now frame h).same_prefix
  ]

  pub take-all_of : (xs ys : List ℕ) → xs ≡ ys → take (length ys) xs ≡ ys
  take-all_of xs ys e = ap (take (length ys)) e ∙ take-length ys

  pub commit-prefix :
      (c : Controller) (now : Now) (decision : Decision) (t : ℕ)
      → take (length c.prefix) (commit s c now decision t).0.prefix ≡ c.prefix
  commit-prefix c now decision t =
      let a = commit-Appends c now decision t in
      elim (Result-cases (commit s c now decision t).1) [
        | inl (p, e) ↦
            let (made, left) = a.returned p e in
            ap (take (length c.prefix)) (left ∙ made) ∙ take-append c.prefix (t ∷ [])
        | inr (x, e) ↦
            take-all_of (commit s c now decision t).0.prefix c.prefix
              (ap (λ (d : Controller). d.prefix) (a.raised x e))
      ]

  Step-prefix :
      {c d : Controller} → Sound s c → Step s c d → take (length c.prefix) d.prefix ≡ c.prefix
  Step-prefix {c} h (proposes now frame) =
      take-all_of (propose s c now frame).0.prefix c.prefix (propose-prefix c now frame h)
  Step-prefix {c} h (commits now decision t) = commit-prefix c now decision t

  pub take-take : (m n : ℕ) (xs : List ℕ) → m ≤ n → take m (take n xs) ≡ take m xs
  take-take zero n xs h = refl
  take-take (suc m) zero xs h = absurd (omega arith)
  take-take (suc m) (suc n) [] h = refl
  take-take (suc m) (suc n) (x ∷ xs) h = ap (λ t. x ∷ t) (take-take m n xs (omega arith))

  -- Whatever is called in whatever order, the prefix of a sound controller is a beginning of its
  -- prefix afterwards.
  pub Steps-prefix :
      {c d : Controller} → Sound s c → Steps s c d → take (length c.prefix) d.prefix ≡ c.prefix
  Steps-prefix {c} h stop = take-length c.prefix
  Steps-prefix {c} h (more {d = d} {e = e} before step) =
      let earlier = Steps-prefix h before in
      let later = Step-prefix (Steps-Sound s before h) step in
      let inside : length c.prefix ≤ length d.prefix =
        omega (arith, ap length earlier, length-take (length c.prefix) d.prefix) in
      sym (take-take (length c.prefix) (length d.prefix) e.prefix inside)
      ∙ ap (take (length c.prefix)) later
      ∙ earlier

  check_proposal-terminal :
      (c : Controller) (now : Now) (frame : LiveFrame)
      → may_act c.state ≡ false
      → (x : Error) × (check_proposal s c now frame ≡ err x)
  unfolding check_proposal
  check_proposal-terminal c now frame h =
      (transport_error "controller is terminal or has uncommitted action", ground arith)

  caught-ok :
      (c : Controller) (r : Result Controller) {p : List ℕ}
      → (caught s c r).1 ≡ ok p
      → (n : Controller) × (r ≡ ok n)
  caught-ok c (ok n) e = (n, refl)
  caught-ok c (err x) e = cc

  terminal-ne-ok :
      (c : Controller) (now : Now) (decision : Decision) (t : ℕ) {p : List ℕ}
      → may_act c.state ≡ false
      → (commit s c now decision t).1 ≢ ok p
  unfolding commit
  terminal-ne-ok c now decision t h e =
      let (n, made) = caught-ok c (try_commit s c now decision t) e in
      cc (h, (try_commit-prefix c now decision t made).0)

  Step-terminal : {c d : Controller} → may_act c.state ≡ false → Step s c d → d ≡ fail c
  Step-terminal {c} h (proposes now frame) =
      let (x, e) = check_proposal-terminal c now frame h in
      ap (λ (p : Controller × Result Decision). p.0) (propose-refused s c now frame e)
  Step-terminal {c} h (commits now decision t) = elim (Result-cases (commit s c now decision t).1) [
    | inr (x, e) ↦ (commit-Appends c now decision t).raised x e
    | inl (p, e) ↦ absurd (terminal-ne-ok c now decision t h e)
  ]

  -- A controller that is done, has failed or waits for uncertainty keeps its prefix and does not
  -- act again, whatever is called.
  pub Steps-terminal :
      {c d : Controller}
      → may_act c.state ≡ false
      → Steps s c d
      → (d.prefix ≡ c.prefix) × (may_act d.state ≡ false)
  Steps-terminal h stop = (refl, h)
  Steps-terminal {c} h (more {d = d} {e = e} before step) =
      let (same, ended) = Steps-terminal h before in
      let failed_now = Step-terminal ended step in
      (
        ap (λ (x : Controller). x.prefix) failed_now ∙ same,
        ap (λ (x : Controller). may_act x.state) failed_now,
      )
