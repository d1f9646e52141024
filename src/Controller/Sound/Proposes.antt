-- ===== src/Controller/Sound/Proposes.antt =====
-- `propose` of python/autonomous_value_controller.py keeps the invariant.
use mathlib.Core.Path.{subst}
use bit_net.Base.Utf8.{decode}
use bit_net.Transport.Cursor.{ValueCursor, done, join}
use bit_net.Transport.Compile.{compile_append_value}
use bit_net.Transport.Compile.Laws.{compile_append_value-Serves}
use bit_net.Controller.Setup.{
  ActionKind, base, start_value, needs_uncertainty, LiveFrame, Now, Output, Setup, Controller,
  generated_tokens,
}
use bit_net.Controller.Propose.{
  Choice, effective, start, go_on, started, follow, read, choose, check_proposal, decision_of,
  hand_out, settle, propose, is_own,
}
use bit_net.Controller.Sound.{Carries, Fits, Sound, extends-length, generated-length}
use bit_net.Transport.Cursor.Laws.{get_elem?-lt}
use bit_net.Base.{
  eq_iff, ℕ, ◌+◌, ◌≤◌, ◌<◌, ◌≡◌, refl, sym, ap, ◌∙◌, ◌⊎◌, inl, inr, true, false, ◌&&◌, ◌||◌, Option,
  none, some, arith, Bool-cases, Option-cases, ◌==◌, nat_eq, text_eq, texts_eq, option_eq, length,
  drop, transport_error, Result, ok, err, Result-cases,
}
use bit_net.Controller.Sound.Goes.{fresh-done, choice_injective, go_on-Fits, started-next}

module _ (s : Setup) where
  -- What the choice leaves of a controller.
  pub record Chosen (c : Controller) (made : Controller × Result Choice) : Type 0 where
    pub same_prefix : made.0.prefix ≡ c.prefix
    pub same_reads : made.0.reads ≡ c.reads
    pub same_pending : made.0.pending ≡ c.pending
    pub carries :
        (cursor : ValueCursor)
        → made.0.cursor ≡ some cursor
        → Carries s c.prefix cursor × (made.0.route ≡ some 1)
    pub fits :
        (kind : ActionKind) (token : Option ℕ)
        → made.1 ≡ ok (kind, token)
        → (kind ≡ needs_uncertainty) ⊎ Fits s kind token made.0

  -- A value that is started is within the budgets.
  start-Carries :
      (c : Controller) (output : Output) {cursor : ValueCursor}
      → length s.initial_prefix ≤ length c.prefix
      → start s c output ≡ ok cursor
      → (c.reads < s.max_value_reads) × Carries s c.prefix cursor × (done cursor ≡ false)
  unfolding start
  start-Carries c output {cursor} h e = elim (Result-cases output.handle) [
    | inr (x, a) ↦ absurd (ground arith)
    | inl (handle, a) ↦ elim (Result-cases (s.codec.decode_pieces (drop 1 c.prefix))) [
      | inr (x, p) ↦ absurd (ground arith)
      | inl (pieces, p) ↦ elim (Option-cases (decode (join pieces))) [
        | inl u ↦ absurd (ground arith)
        | inr (text, u) ↦
            elim (Result-cases (
              compile_append_value s.digest (effective s c) s.codec handle s.snapshot s.reply
                c.prefix text false)) [
                  | inr (x, k) ↦ absurd (ground arith)
                  | inl (none, k) ↦ absurd (ground arith)
                  | inl (some compiled, k) ↦
                      let same : compiled ≡ cursor = ground arith in
                      let served =
                        compile_append_value-Serves s.digest (effective s c) s.codec handle
                          s.snapshot s.reply c.prefix text false (k ∙ ap (λ x. ok (some x)) same) in
                      let room : length (generated_tokens s c) + 2 ≤ s.max_new_tokens =
                        ground arith in
                      let context : length c.prefix + 2 ≤ s.limits.max_total_tokens =
                        ground arith in
                      let at = ap length served.compiled.same_prefix in
                      (
                        ground arith,
                        record {
                          ready = served.ready;
                          room_in_context = omega (arith, served.compiled.total_fits, at);
                          room_in_reply =
                              omega (arith, served.compiled.tokens_fit, at, generated-length s c);
                        },
                        fresh-done cursor served.ready.is_aligned.tokens_given
                            served.compiled.at_start,
                      )
                ]
      ]
    ]
  ]

  -- A controller without a cursor that chooses a token of the model, nothing, or to wait.
  plain-Chosen :
      (c next : Controller) (choice : Result Choice)
      → next.prefix ≡ c.prefix
      → next.reads ≡ c.reads
      → next.pending ≡ c.pending
      → next.cursor ≡ none
      → ((kind : ActionKind) (token : Option ℕ)
          → choice ≡ ok (kind, token)
          → (kind ≡ needs_uncertainty) ⊎ (kind ≡ base))
      → Chosen c (next, choice)
  plain-Chosen c next choice p r w empty kinds = record {
    same_prefix = p;
    same_reads = r;
    same_pending = w;
    carries = λ cursor e. cc;
    fits = λ kind token e. elim (kinds kind token e) [
      | inl waits ↦ inl waits
      | inr plain ↦ inr (subst (λ k. Fits s k token next) (sym plain) empty)
    ];
  }

  started-Chosen :
      (c routed : Controller) (frame : LiveFrame) (output : Output) (result : Result ValueCursor)
      → length s.initial_prefix ≤ length routed.prefix
      → routed.prefix ≡ c.prefix
      → routed.reads ≡ c.reads
      → routed.pending ≡ c.pending
      → routed.cursor ≡ none
      → (output.route == 1) ≡ true
      → routed.route ≡ some output.route
      → start s routed output ≡ result
      → Chosen c (started s routed frame result)
  started-Chosen c routed frame output (err x) h p r w empty one to e =
      plain-Chosen c routed (err x) p r w empty (λ kind token k. cc)
  started-Chosen c routed frame output (ok cursor) h p r w empty one to e =
      let (reads, carried, unfinished) = start-Carries routed output h e in
      let (next, found, goes) = started-next s routed frame cursor carried.ready unfinished in
      record {
        same_prefix = p;
        same_reads = r;
        same_pending = w;
        carries = λ other k. (
          subst (λ x. Carries s c.prefix x) (some_injective k)
              (subst (λ x. Carries s x cursor) p carried),
          to ∙ ap some ((eq_iff output.route 1).0 one),
        );
        fits = λ kind token k.
            let (same, its) = choice_injective s start_value kind (some next) token goes k in
            inr (
              subst (λ x. Fits s x token (record routed { cursor = some cursor })) same
                (
                  reads,
                  record {
                    cursor = cursor;
                    given = refl;
                    unfinished = get_elem?-lt cursor.value_tokens cursor.offset found;
                    is_next = found ∙ its;
                  },
                ));
      }
    where
      some_injective : {x y : ValueCursor} → some x ≡ some y → x ≡ y
      some_injective k = ground arith

  follow-Chosen :
      (c : Controller) (frame : LiveFrame) (output : Output)
      → Sound s c
      → c.cursor ≡ none
      → Chosen c (follow s c frame output)
  unfolding follow
  follow-Chosen c frame output h empty =
      let routed : Controller = record c { route = some output.route } in
      elim (Bool-cases
        (bit_net.Controller.Propose.is_none c.route || c.route == some output.route)) [
          | inr changed ↦ rw changed (
              plain-Chosen c c (err (transport_error "reply-local route changed")) refl refl refl
                empty (λ kind token k. cc))
          | inl same ↦ elim (Bool-cases (output.route == 2)) [
            | inl two ↦
                rw (same, two)
                  (plain-Chosen c routed (ok (needs_uncertainty, none)) refl refl refl empty
                    (λ kind token k. inl (ground arith)))
            | inr other ↦ elim (Bool-cases (output.route == 1 && output.starts)) [
              | inl starts ↦
                  rw (same, other, starts)
                    (started-Chosen c routed frame output (start s routed output)
                      (extends-length s c h) refl refl refl empty (ground arith) refl refl)
              | inr waits ↦
                  rw (same, other, waits)
                    (plain-Chosen c routed (ok (base, some frame.argmax)) refl refl refl empty
                      (λ kind token k. inr (ground arith)))
            ]
          ]
        ]

  read-Chosen :
      (c : Controller) (frame : LiveFrame) (result : Result Output)
      → Sound s c
      → c.cursor ≡ none
      → Chosen c (read s c frame result)
  read-Chosen c frame (err x) h empty =
      plain-Chosen c c (err x) refl refl refl empty (λ kind token k. cc)
  read-Chosen c frame (ok output) h empty = follow-Chosen c frame output h empty

  pub choose-cursor :
      (c : Controller) (now : Now) (frame : LiveFrame) {cursor : ValueCursor}
      → c.cursor ≡ some cursor
      → choose s c now frame ≡ (c, go_on s c frame cursor)
  unfolding choose
  choose-cursor c now frame e = ground arith

  choose-base :
      (c : Controller) (now : Now) (frame : LiveFrame)
      → c.cursor ≡ none
      → (c.route == some 0) ≡ true
      → choose s c now frame ≡ (c, ok (base, some frame.argmax))
  unfolding choose
  choose-base c now frame e zero_route = ground arith

  choose-read :
      (c : Controller) (now : Now) (frame : LiveFrame)
      → c.cursor ≡ none
      → (c.route == some 0) ≡ false
      → choose s c now frame ≡ read s c frame (s.reader now frame c.prefix)
  unfolding choose
  choose-read c now frame e other = ground arith

  pub choose-Chosen :
      (c : Controller) (now : Now) (frame : LiveFrame) → Sound s c → Chosen c (choose s c now frame)
  choose-Chosen c now frame h = elim (Option-cases c.cursor) [
    | inr (cursor, e) ↦ subst (Chosen c) (sym (choose-cursor c now frame e)) (record {
      same_prefix = refl;
      same_reads = refl;
      same_pending = refl;
      carries = h.carries;
      fits = λ kind token k.
          inr (go_on-Fits s c frame cursor kind token e (h.carries cursor e).0.ready k);
    })
    | inl e ↦ elim (Bool-cases (c.route == some 0)) [
      | inl zero_route ↦ subst (Chosen c) (sym (choose-base c now frame e zero_route)) (
          plain-Chosen c c (ok (base, some frame.argmax)) refl refl refl e
            (λ kind token k. inr (ground arith)))
      | inr other ↦
          subst (Chosen c) (sym (choose-read c now frame e other))
            (read-Chosen c frame (s.reader now frame c.prefix) h e)
    ]
  ]
