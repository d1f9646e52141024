-- ===== src/Controller/Sound/Commits.antt =====
-- `commit` of python/autonomous_value_controller.py keeps the invariant.
use mathlib.Core.Path.{subst}
use bit_net.Transport.{PayloadSnapshot, ReplyBinding}
use bit_net.Transport.Cursor
use bit_net.Transport.Cursor.{ValueCursor, done, expected_prefix}
use bit_net.Transport.Cursor.Laws.{IsAligned, advanced, Ready, validate-Ready, Ready-Steps}
use bit_net.Controller.Setup.{
  ActionKind, base, start_value, continue_value, end_value, needs_uncertainty, idle, active,
  Decision, Now, Setup, Controller, validate_binding,
}
use bit_net.Controller.Commit.{
  advance_cursor, advance, emit, acknowledged, try_commit, caught, commit,
}
use bit_net.Controller.Sound.{Carries, Fits, HasRoom, Sound, extends-length, fail-Sound}
use bit_net.Base.{
  Option, ℕ, zero, suc, ◌+◌, ◌≤◌, ◌≡◌, refl, sym, ap, ◌∙◌, ◌≢◌, inl, inr, Bool, false, none, some,
  List, [], ◌∷◌, ◌++◌, arith, Bool-cases, Option-cases, ◌==◌, eq_iff, nat_eq, text_eq, texts_eq,
  option_eq, length, take, length-append, Error, Result, ok, err, Text, Result-cases, check-eq-ok,
  bind-eq-ok,
}

module _ (digest : PayloadSnapshot → Text) (snapshot : PayloadSnapshot) (reply : ReplyBinding)
    (allow_oracle : Bool) where
  commit_checks :
      (c : ValueCursor) (t : ℕ) (prefix : List ℕ) {next : ValueCursor}
      → Cursor.commit digest c t snapshot reply prefix allow_oracle ≡ ok next
      → (Cursor.validate digest c snapshot reply prefix allow_oracle ≡ ok tt) × (done c ≡ false)
  unfolding Cursor.commit
  commit_checks c t prefix h =
      let (valid, rest) =
        check-eq-ok (Cursor.validate digest c snapshot reply prefix allow_oracle) _ h in
      (valid, ground arith)

  -- A cursor that a commit returns is one token on, and ready at the prefix with the token.
  pub commit-advanced :
      (c : ValueCursor) (t : ℕ) (prefix : List ℕ) {next : ValueCursor}
      → IsAligned c
      → Cursor.commit digest c t snapshot reply prefix allow_oracle ≡ ok next
      → (next ≡ advanced c)
        × Ready digest (advanced c) snapshot reply (prefix ++ t ∷ []) allow_oracle
  commit-advanced c t prefix {next} a h =
      let (valid, unfinished) = commit_checks c t prefix h in
      let step =
        Ready-Steps digest c snapshot reply prefix allow_oracle
          (validate-Ready digest c snapshot reply prefix allow_oracle a valid) unfinished in
      elim (Bool-cases (t == step.token)) [
        | inl e ↦
            let same : step.token ≡ t = sym ((eq_iff t step.token).0 e) in
            let taken : Cursor.commit digest c t snapshot reply prefix allow_oracle
                ≡ ok (advanced c) =
              subst
                (λ x. Cursor.commit digest c x snapshot reply prefix allow_oracle ≡ ok (advanced c))
                same step.commits in
            (
              ok_injective (sym h ∙ taken),
              subst (λ x. Ready digest (advanced c) snapshot reply (prefix ++ x ∷ []) allow_oracle)
                  same step.stays_ready,
            )
        | inr e ↦
            absurd (ok-ne-err (sym h ∙ step.only t (λ same. cc (e, (eq_iff t step.token).1 same))))
      ]
    where
      ok_injective : {x y : ValueCursor} → ok x ≡ ok y → x ≡ y
      ok_injective k = ground arith

      ok-ne-err : {x : ValueCursor} {e : Error} → ok x ≢ err e
      ok-ne-err k = cc

pub take-append_left : (n : ℕ) (xs ys : List ℕ) → n ≤ length xs → take n (xs ++ ys) ≡ take n xs
take-append_left zero xs ys h = refl
take-append_left (suc n) [] ys h = absurd (omega arith)
take-append_left (suc n) (x ∷ xs) ys h = ap (λ t. x ∷ t) (take-append_left n xs ys (omega arith))

module _ (s : Setup) where
  -- What the kind of a decision leaves.
  pub record Advanced (c : Controller) (t : ℕ) (next : Controller) : Type 0 where
    pub same_prefix : next.prefix ≡ c.prefix
    pub within_reads : next.reads ≤ s.max_value_reads
    pub carries :
        (cursor : ValueCursor)
        → next.cursor ≡ some cursor
        → Carries s (c.prefix ++ t ∷ []) cursor × (next.route ≡ some 1)

  advance_cursor-Carries :
      (c : Controller) (t : ℕ) {next : ValueCursor}
      → Sound s c
      → advance_cursor s c t ≡ ok next
      → Carries s (c.prefix ++ t ∷ []) next × (c.route ≡ some 1)
  unfolding advance_cursor
  advance_cursor-Carries c t {next} h e = elim (Option-cases c.cursor) [
    | inl none_given ↦ absurd (ground arith)
    | inr (cursor, given) ↦
        let (old, route) = h.carries cursor given in
        let (same, ready) =
          commit-advanced s.digest s.snapshot s.reply false cursor t c.prefix old.ready.is_aligned
            (ground arith) in
        (
          subst (Carries s (c.prefix ++ t ∷ [])) (sym same) (record {
            ready = ready;
            room_in_context = old.room_in_context;
            room_in_reply = old.room_in_reply;
          }),
          route,
        )
  ]

  advance-Advanced :
      (c : Controller) (kind : ActionKind) (token : Option ℕ) (t : ℕ) {next : Controller}
      → Sound s c
      → Fits s kind token c
      → advance s c kind t ≡ ok next
      → Advanced c t next
  unfolding advance
  advance-Advanced c base token t {next} h f e =
      let made : record c { state = idle } ≡ next = ground arith in
      subst (Advanced c t) made (record {
        same_prefix = refl;
        within_reads = h.within_reads;
        carries = λ cursor k. absurd (cc (f, k));
      })
  advance-Advanced c start_value token t {next} h f e =
      let (cursor, given, rest) = bind-eq-ok (advance_cursor s c t) _ e in
      let made : record c { cursor = some cursor; reads = c.reads + 1; state = active } ≡ next =
        ground arith in
      subst (Advanced c t) made (record {
        same_prefix = refl;
        within_reads = omega (arith, f.0);
        carries = λ other k.
            let (carried, route) = advance_cursor-Carries c t h given in
            (subst (Carries s (c.prefix ++ t ∷ [])) (some_injective k) carried, route);
      })
    where
      some_injective : {x y : ValueCursor} → some x ≡ some y → x ≡ y
      some_injective k = ground arith
  advance-Advanced c continue_value token t {next} h f e =
      let (cursor, given, rest) = bind-eq-ok (advance_cursor s c t) _ e in
      let made : record c { cursor = some cursor; state = active } ≡ next = ground arith in
      subst (Advanced c t) made (record {
        same_prefix = refl;
        within_reads = h.within_reads;
        carries = λ other k.
            let (carried, route) = advance_cursor-Carries c t h given in
            (subst (Carries s (c.prefix ++ t ∷ [])) (some_injective k) carried, route);
      })
    where
      some_injective : {x y : ValueCursor} → some x ≡ some y → x ≡ y
      some_injective k = ground arith
  advance-Advanced c end_value token t {next} h f e =
      let made : record c { cursor = none; state = idle } ≡ next = ground arith in
      subst (Advanced c t) made
        (record { same_prefix = refl; within_reads = h.within_reads; carries = λ cursor k. cc })
  advance-Advanced c needs_uncertainty token t h f e = absurd f

  emit-Sound :
      (c next : Controller) (t : ℕ)
      → Sound s c
      → HasRoom s c
      → Advanced c t next
      → Sound s (emit s next t)
  emit-Sound c next t h room a =
      let p : next.prefix ++ t ∷ [] ≡ c.prefix ++ t ∷ [] = ap (λ x. x ++ t ∷ []) a.same_prefix in
      let size : length (next.prefix ++ t ∷ []) ≡ length c.prefix + 1 =
        ap length p ∙ length-append c.prefix (t ∷ []) in
      record {
        extends_initial =
            ap (take (length s.initial_prefix)) p
            ∙ take-append_left (length s.initial_prefix) c.prefix (t ∷ []) (extends-length s c h)
            ∙ h.extends_initial;
        within_context = omega (arith, size, room.room_in_context);
        within_reply = omega (arith, size, room.room_in_reply);
        within_reads = a.within_reads;
        carries = λ cursor k.
            let (carried, route) = a.carries cursor k in
            (subst (λ x. Carries s x cursor) (sym p) carried, route);
        awaits = λ d k. cc;
      }

  -- What a commit that returns has done.
  pub record Emitted (c : Controller) (t : ℕ) (next : Controller) : Type 0 where
    pub kind : ActionKind
    pub moved : Controller
    pub token : Option ℕ
    pub fits : Fits s kind token c
    pub room : HasRoom s c
    pub advances : advance s c kind t ≡ ok moved
    pub emits : next ≡ emit s moved t

  try_commit-Emitted :
      (c : Controller) (now : Now) (decision : Decision) (t : ℕ) {next : Controller}
      → Sound s c
      → try_commit s c now decision t ≡ ok next
      → Emitted c t next
  unfolding try_commit acknowledged
  try_commit-Emitted c now decision t {next} h e = elim (Option-cases c.pending) [
    | inl p ↦ absurd (ground arith)
    | inr (d, p) ↦ elim (Result-cases (advance s c d.kind t)) [
      | inr (x, a) ↦ absurd (ground (arith, Result-cases (validate_binding s now)))
      | inl (moved, a) ↦ record {
        kind = d.kind;
        token = d.token;
        moved = moved;
        fits = (h.awaits d p).1;
        room = (h.awaits d p).0;
        advances = a;
        emits = ground (arith, Result-cases (validate_binding s now));
      }
    ]
  ]

  pub commit-Sound :
      (c : Controller) (now : Now) (decision : Decision) (t : ℕ)
      → Sound s c
      → Sound s (commit s c now decision t).0
  unfolding commit
  commit-Sound c now decision t h = go (try_commit s c now decision t) refl
    where
      go : (r : Result Controller) → try_commit s c now decision t ≡ r → Sound s (caught s c r).0
      go (err x) e = fail-Sound s c h
      go (ok next) e =
          let m = try_commit-Emitted c now decision t h e in
          subst (Sound s) (sym m.emits) (
            emit-Sound c m.moved t h m.room
              (advance-Advanced c m.kind m.token t h m.fits m.advances))
