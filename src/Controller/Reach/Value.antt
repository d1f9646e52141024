-- ===== src/Controller/Reach/Value.antt =====
-- The values that python/autonomous_value_controller.py transports.
use bit_net.Transport.Cursor.{ValueCursor, done, expected_prefix, join}
use mathlib.Core.Path.{subst}
use bit_net.Transport.Handle
use bit_net.Transport.Cursor.Laws.{get_elem?-lt}
use bit_net.Controller.Setup.{
  ActionKind, continue_value, end_value, LiveFrame, Decision, Now, Setup, Controller, may_act,
  generated_tokens, validate_binding, validate_frame,
}
use bit_net.Controller.Propose.{Choice, go_on, check_proposal, decision_of, settle, propose}
use bit_net.Controller.Commit.{is_done, advance, acknowledged, try_commit, caught, commit}
use bit_net.Controller.Sound.{Stops, Fits, Carries, Sound, extends-length, generated-length}
use bit_net.Controller.Sound.Goes.{go_on-next, go_on-end, done-at_end}
use bit_net.Controller.Sound.Proposes.{choose-cursor}
use bit_net.Controller.Sound.Hands.{propose-settle}
use bit_net.Controller.Reach.Prefix.{commit-Appends}
use bit_net.Base.{
  refl, false, ◌⊎◌, sym, Result, get_elem?, Option, none, ℕ, ◌+◌, ◌≤◌, ◌<◌, ◌≡◌, ap, ◌∙◌, inl, inr,
  true, some, List, [], ◌∷◌, ◌++◌, arith, Bool-cases, nat_eq, text_eq, texts_eq, option_eq, length,
  take, length-append, length-take, take-length, ok, Result-cases,
}

module _ (s : Setup) where
  behind :
      (c : Controller) (cursor : ValueCursor)
      → Carries s c.prefix cursor
      → length c.prefix ≤ length cursor.initial_prefix + length cursor.value_tokens
  unfolding expected_prefix
  behind c cursor k = omega (
    arith,
    ap length k.ready.actual_prefix,
    length-append cursor.initial_prefix (take cursor.offset cursor.value_tokens),
    length-take cursor.offset cursor.value_tokens,
  )

  -- What may be proposed while a value is carried: its next token, or behind it the END, whose
  -- token is the model's.
  abbrev pub GoesOn : ValueCursor → LiveFrame → Decision → Type 0
  GoesOn cursor frame d =
      ((cursor.offset < length cursor.value_tokens)
        × (d.kind ≡ continue_value)
        × (d.token ≡ get_elem? cursor.value_tokens cursor.offset))
      ⊎ ((cursor.offset ≡ length cursor.value_tokens)
          × (d.kind ≡ end_value)
          × (d.token ≡ some frame.argmax))

  choice-GoesOn :
      (c : Controller) (frame : LiveFrame) (cursor : ValueCursor)
      → Carries s c.prefix cursor
      → (kind : ActionKind) × (token : Option ℕ) × (go_on s c frame cursor ≡ ok (kind, token))
        × GoesOn cursor frame (decision_of s c frame kind token 1)
  choice-GoesOn c frame cursor k = elim (Bool-cases (done cursor)) [
    | inl d ↦ (
      end_value,
      some frame.argmax,
      go_on-end s c frame cursor k.ready d,
      inr (done-at_end cursor d, refl, refl),
    )
    | inr d ↦
        let (token, found, goes) = go_on-next s c frame cursor k.ready d in
        (
          continue_value,
          some token,
          goes,
          inl (get_elem?-lt cursor.value_tokens cursor.offset found, refl, sym found),
        )
  ]

  check_proposal-ok :
      (c : Controller) (now : Now) (frame : LiveFrame) (cursor : ValueCursor)
      → Sound s c
      → c.cursor ≡ some cursor
      → may_act c.state ≡ true
      → c.pending ≡ none
      → validate_binding s now ≡ ok tt
      → validate_frame s c now frame ≡ ok tt
      → check_proposal s c now frame ≡ ok tt
  unfolding check_proposal
  check_proposal-ok c now frame cursor h e acts quiet bound fresh =
      let (k, _) = h.carries cursor e in
      let short = behind c cursor k in
      let new : length (generated_tokens s c) < s.max_new_tokens =
        omega (arith, short, k.room_in_reply, generated-length s c, extends-length s c h) in
      let total : length c.prefix < s.limits.max_total_tokens =
        omega (arith, short, k.room_in_context) in
      ground arith

  settle-ok :
      (c : Controller) (now : Now) (frame : LiveFrame) (kind : ActionKind) (token : Option ℕ)
      → c.route ≡ some 1
      → (settle s now frame (c, ok (kind, token))).1 ≡ ok (decision_of s c frame kind token 1)
  unfolding settle
  settle-ok c now frame kind token e = ground arith

  -- When a sound controller with a cursor may act and has nothing pending, and neither the binding
  -- nor the frame is refused, `propose` always returns a decision: to continue with the next token
  -- of the value, or, behind its last token, to end it with the token of the model. No budget is
  -- exhausted within a value or at its end.
  pub propose-GoesOn :
      (c : Controller) (now : Now) (frame : LiveFrame) (cursor : ValueCursor)
      → Sound s c
      → c.cursor ≡ some cursor
      → may_act c.state ≡ true
      → c.pending ≡ none
      → validate_binding s now ≡ ok tt
      → validate_frame s c now frame ≡ ok tt
      → (d : Decision) × ((propose s c now frame).1 ≡ ok d) × GoesOn cursor frame d
  propose-GoesOn c now frame cursor h e acts quiet bound fresh =
      let (k, route) = h.carries cursor e in
      let (kind, token, goes, fits) = choice-GoesOn c frame cursor k in
      let checked = check_proposal-ok c now frame cursor h e acts quiet bound fresh in
      (
        decision_of s c frame kind token 1,
        ap (λ (made : Controller × Result Decision). made.1) (propose-settle s c now frame checked)
            ∙ ap (λ made. (settle s now frame made).1) (choose-cursor s c now frame e)
            ∙ ap (λ (choice : Result Choice). (settle s now frame (c, choice)).1) goes
            ∙ settle-ok c now frame kind token route,
        fits,
      )

  -- What the END of a value leaves: the cursor that the controller had has come to the end of its
  -- value, which are the bytes that its handle selects, and is given up.
  pub record Ends (c after : Controller) (prefix : List ℕ) (t : ℕ) : Type 0 where
    pub cursor : ValueCursor
    pub given : c.cursor ≡ some cursor
    pub whole : prefix ≡ (cursor.initial_prefix ++ cursor.value_tokens) ++ t ∷ []
    pub exact : join cursor.pieces ≡ cursor.value
    pub aligned : length cursor.pieces ≡ length cursor.value_tokens
    pub selected :
        Handle.validate s.digest cursor.handle s.snapshot s.reply false ≡ ok (some cursor.value)
    pub released : after.cursor ≡ none
    pub same_reads : after.reads ≡ c.reads
    pub settled : after.pending ≡ none

  at_end-whole :
      (prefix : List ℕ) (cursor : ValueCursor)
      → Carries s prefix cursor
      → cursor.offset ≡ length cursor.value_tokens
      → prefix ≡ cursor.initial_prefix ++ cursor.value_tokens
  unfolding expected_prefix
  at_end-whole prefix cursor k at =
      k.ready.actual_prefix
      ∙ ap (λ n. cursor.initial_prefix ++ take n cursor.value_tokens) at
      ∙ ap (λ ts. cursor.initial_prefix ++ ts) (take-length cursor.value_tokens)

  -- What a commit of an END that returns has done to the fields.
  try_commit-end :
      (c : Controller) (now : Now) (decision pending : Decision) (t : ℕ) {next : Controller}
      → c.pending ≡ some pending
      → pending.kind ≡ end_value
      → try_commit s c now decision t ≡ ok next
      → (next.cursor ≡ none) × (next.reads ≡ c.reads) × (next.pending ≡ none)
  unfolding try_commit acknowledged advance
  try_commit-end c now decision pending t p kind e =
      ground (arith, Bool-cases (is_done c.cursor), Result-cases (validate_binding s now))

  commit-next :
      (c : Controller) (now : Now) (decision : Decision) (t : ℕ) {next : Controller}
      → try_commit s c now decision t ≡ ok next
      → (commit s c now decision t).0 ≡ next
  unfolding commit
  commit-next c now decision t e = ap (λ r. (caught s c r).0) e

  -- In a sound controller whose pending decision is an END, a commit that returns leaves the
  -- prefix at the start of the value of the controller's cursor, all tokens of that value, and the
  -- acknowledged token; the pieces of those tokens are exactly the bytes that the cursor's handle
  -- selects; and the controller has no cursor and nothing pending any more, and as many reads.
  pub commit-Ends :
      (c : Controller) (now : Now) (decision pending : Decision) (t : ℕ) {p : List ℕ}
      → Sound s c
      → c.pending ≡ some pending
      → pending.kind ≡ end_value
      → (commit s c now decision t).1 ≡ ok p
      → Ends c (commit s c now decision t).0 p t
  unfolding commit
  commit-Ends c now decision pending t {p} h waits kind e =
      let (made, _) = (commit-Appends s c now decision t).returned p e in
      let stops : Stops c.cursor =
        subst (λ k. Fits s k pending.token c) kind (h.awaits pending waits).1 in
      let cursor = stops.cursor in
      let (k, _) = h.carries cursor stops.given in
      elim (Result-cases (try_commit s c now decision t)) [
        | inr (x, r) ↦ absurd (ground arith)
        | inl (next, r) ↦
            let (released, reads, settled) = try_commit-end c now decision pending t waits kind r in
            subst (λ after. Ends c after p t) (sym (commit-next c now decision t r))
              (record {
                cursor = cursor;
                given = stops.given;
                whole =
                    made ∙ ap (λ ts. ts ++ t ∷ []) (at_end-whole c.prefix cursor k stops.at_end);
                exact = k.ready.is_aligned.joined;
                aligned = k.ready.is_aligned.aligned;
                selected = k.ready.same_value;
                released = released;
                same_reads = reads;
                settled = settled;
              })
      ]
