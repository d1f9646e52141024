-- ===== src/Controller/Sound/Hands.antt =====
-- What `propose` of python/autonomous_value_controller.py leaves is within the invariant.
use mathlib.Core.Path.{subst}
use bit_net.Transport.Cursor.{ValueCursor}
use bit_net.Controller.Setup.{
  ActionKind, base, start_value, continue_value, end_value, needs_uncertainty, LiveFrame, Decision,
  Now, Setup, Controller, fail, generated_tokens, validate_binding, validate_frame,
}
use bit_net.Controller.Propose.{
  Choice, choose, check_proposal, decision_of, hand_out, settle, propose,
}
use bit_net.Controller.Sound.{
  Carries, Fits, HasRoom, Sound, extends-length, generated-length, fail-Sound,
}
use bit_net.Controller.Sound.Proposes.{Chosen, choose-Chosen}
use bit_net.Base.{
  ℕ, ◌<◌, ◌≡◌, refl, sym, ap, ◌∙◌, ◌⊎◌, inl, inr, true, false, Option, none, some, arith, leb,
  Bool-cases, Option-cases, nat_eq, text_eq, texts_eq, option_eq, length, take, Error,
  transport_error, Result, ok, err, Result-cases,
}

module _ (s : Setup) where
  rebuilt :
      (c next : Controller)
      → Sound s c
      → next.prefix ≡ c.prefix
      → next.reads ≡ c.reads
      → ((cursor : ValueCursor)
          → next.cursor ≡ some cursor
          → Carries s c.prefix cursor × (next.route ≡ some 1))
      → ((d : Decision) → next.pending ≡ some d → HasRoom s next × Fits s d.kind d.token next)
      → Sound s next
  rebuilt c next h p r carries awaits = record {
    extends_initial = ap (take (length s.initial_prefix)) p ∙ h.extends_initial;
    within_context = omega (arith, ap length p, h.within_context);
    within_reply = omega (arith, ap length p, h.within_reply);
    within_reads = omega (arith, r, h.within_reads);
    carries = λ cursor e.
        let (carried, route) = carries cursor e in
        (subst (λ x. Carries s x cursor) (sym p) carried, route);
    awaits = awaits;
  }

  moved-HasRoom : (c next : Controller) → HasRoom s c → next.prefix ≡ c.prefix → HasRoom s next
  moved-HasRoom c next h p = record {
    room_in_context = omega (arith, ap length p, h.room_in_context);
    room_in_reply = omega (arith, ap length p, h.room_in_reply);
  }

  -- The pending decision of a kind that gives a token.
  pending-Sound :
      (c next : Controller) (d : Decision)
      → Sound s c
      → HasRoom s c
      → next.prefix ≡ c.prefix
      → next.reads ≡ c.reads
      → ((cursor : ValueCursor)
          → next.cursor ≡ some cursor
          → Carries s c.prefix cursor × (next.route ≡ some 1))
      → next.pending ≡ some d
      → Fits s d.kind d.token next
      → Sound s next
  pending-Sound c next d h room p r carries waits fits = rebuilt c next h p r carries (λ other e. (
    moved-HasRoom c next room p,
    subst (λ (x : Decision). Fits s x.kind x.token next) (some_injective (sym waits ∙ e)) fits,
  ))
    where
      some_injective : {x y : Decision} → some x ≡ some y → x ≡ y
      some_injective k = ground arith

  hand_out-Sound :
      (c next : Controller) (now : Now) (frame : LiveFrame) (kind : ActionKind) (token : Option ℕ)
      (route : ℕ)
      → Sound s c
      → HasRoom s c
      → c.pending ≡ none
      → next.prefix ≡ c.prefix
      → next.reads ≡ c.reads
      → next.pending ≡ c.pending
      → ((cursor : ValueCursor)
          → next.cursor ≡ some cursor
          → Carries s c.prefix cursor × (next.route ≡ some 1))
      → (kind ≡ needs_uncertainty) ⊎ Fits s kind token next
      → Sound s (hand_out s next now frame kind token route)
  hand_out-Sound c next now frame needs_uncertainty token route h room quiet p r w carries fits =
      rebuilt c (hand_out s next now frame needs_uncertainty token route) h p r carries
        (λ d e. absurd (cc (e, w, quiet)))
  hand_out-Sound c next now frame base token route h room quiet p r w carries fits = elim fits [
    | inl x ↦ absurd (ground arith)
    | inr x ↦
        pending-Sound c (hand_out s next now frame base token route)
          (decision_of s next frame base token route) h room p r carries refl x
  ]
  hand_out-Sound c next now frame start_value token route h room quiet p r w carries fits =
      elim fits [
        | inl x ↦ absurd (ground arith)
        | inr x ↦
            pending-Sound c (hand_out s next now frame start_value token route)
              (decision_of s next frame start_value token route) h room p r carries refl x
      ]
  hand_out-Sound c next now frame continue_value token route h room quiet p r w carries fits =
      elim fits [
        | inl x ↦ absurd (ground arith)
        | inr x ↦
            pending-Sound c (hand_out s next now frame continue_value token route)
              (decision_of s next frame continue_value token route) h room p r carries refl x
      ]
  hand_out-Sound c next now frame end_value token route h room quiet p r w carries fits =
      elim fits [
        | inl x ↦ absurd (ground arith)
        | inr x ↦
            pending-Sound c (hand_out s next now frame end_value token route)
              (decision_of s next frame end_value token route) h room p r carries refl x
      ]

  settle-Sound :
      (c : Controller) (now : Now) (frame : LiveFrame) (made : Controller × Result Choice)
      → Sound s c
      → HasRoom s c
      → c.pending ≡ none
      → Chosen s c made
      → Sound s (settle s now frame made).0
  unfolding settle
  settle-Sound c now frame (next, err x) h room quiet m =
      rebuilt c (fail next) h m.same_prefix m.same_reads m.carries (λ d e. cc)
  settle-Sound c now frame (next, ok (kind, token)) h room quiet m =
      elim (Option-cases next.route) [
        | inl e ↦
            subst (λ (x : Controller × Result Decision). Sound s x.0) (sym (missing e)) failed_state
        | inr (route, e) ↦ elim (Bool-cases (leb route 2)) [
          | inl good ↦
              subst (λ (x : Controller × Result Decision). Sound s x.0) (sym (given route e good))
                (hand_out-Sound c next now frame kind token route h room quiet m.same_prefix
                  m.same_reads m.same_pending m.carries (m.fits kind token refl))
          | inr bad ↦
              subst (λ (x : Controller × Result Decision). Sound s x.0) (sym (refused route e bad))
                failed_state
        ]
      ]
    where
      missing :
          next.route ≡ none
          → settle s now frame (next, ok (kind, token))
            ≡ (fail next, err (transport_error "missing route"))
      missing e = ground arith

      given :
          (route : ℕ)
          → next.route ≡ some route
          → leb route 2 ≡ true
          → settle s now frame (next, ok (kind, token)) ≡ (
            hand_out s next now frame kind token route,
            ok (decision_of s next frame kind token route),
          )
      given route e good = ground arith

      refused :
          (route : ℕ)
          → next.route ≡ some route
          → leb route 2 ≡ false
          → settle s now frame (next, ok (kind, token))
            ≡ (fail next, err (transport_error "missing route"))
      refused route e bad = ground arith

      failed_state : Sound s (fail next)
      failed_state = rebuilt c (fail next) h m.same_prefix m.same_reads m.carries (λ d e. cc)

  check_proposal-HasRoom :
      (c : Controller) (now : Now) (frame : LiveFrame)
      → Sound s c
      → check_proposal s c now frame ≡ ok tt
      → HasRoom s c × (c.pending ≡ none)
  unfolding check_proposal
  check_proposal-HasRoom c now frame h e =
      let below : length (generated_tokens s c) < s.max_new_tokens = ground (
        arith,
        Result-cases (validate_binding s now),
        Result-cases (validate_frame s c now frame),
      ) in
      let context : length c.prefix < s.limits.max_total_tokens = ground (
        arith,
        Result-cases (validate_binding s now),
        Result-cases (validate_frame s c now frame),
      ) in
      (
        record {
          room_in_context = context;
          room_in_reply = omega (arith, below, generated-length s c, extends-length s c h);
        },
        ground (arith, Option-cases c.pending),
      )

  pub propose-refused :
      (c : Controller) (now : Now) (frame : LiveFrame) {x : Error}
      → check_proposal s c now frame ≡ err x
      → propose s c now frame ≡ (fail c, err x)
  unfolding propose
  propose-refused c now frame e = ground arith

  pub propose-settle :
      (c : Controller) (now : Now) (frame : LiveFrame)
      → check_proposal s c now frame ≡ ok tt
      → propose s c now frame ≡ settle s now frame (choose s c now frame)
  unfolding propose
  propose-settle c now frame e = ground arith

  pub propose-Sound :
      (c : Controller) (now : Now) (frame : LiveFrame)
      → Sound s c
      → Sound s (propose s c now frame).0
  propose-Sound c now frame h = elim (Result-cases (check_proposal s c now frame)) [
    | inr (x, e) ↦
        subst (λ (p : Controller × Result Decision). Sound s p.0)
          (sym (propose-refused c now frame e)) (fail-Sound s c h)
    | inl (u, e) ↦
        let (room, quiet) = check_proposal-HasRoom c now frame h e in
        subst (λ (p : Controller × Result Decision). Sound s p.0)
          (sym (propose-settle c now frame e))
          (settle-Sound c now frame (choose s c now frame) h room quiet
            (choose-Chosen s c now frame h))
  ]
