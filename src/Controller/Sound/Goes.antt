-- ===== src/Controller/Sound/Goes.antt =====
-- What python/autonomous_value_controller.py proposes while a value is carried.
use mathlib.Core.Path.{subst}
use bit_net.Transport.Cursor.{ValueCursor, done}
use bit_net.Controller.Setup.{
  ActionKind, start_value, continue_value, end_value, LiveFrame, Setup, Controller,
}
use bit_net.Controller.Propose.{Choice, go_on, started}
use bit_net.Controller.Sound.{Fits}
use bit_net.Transport.Cursor.Laws.{Ready, Ready-validate, Ready-Steps, get_elem?-lt}
use bit_net.Base.{
  get_elem?, is_empty, [], ◌∷◌, ℕ, ◌≡◌, ◌∙◌, inl, inr, true, false, Option, some, arith, Bool-cases,
  ◌==◌, nat_eq, text_eq, texts_eq, option_eq, length, Result, ok,
}

pub fresh-done : (c : ValueCursor) → is_empty c.value_tokens ≡ false → c.offset ≡ 0 → done c ≡ false
unfolding done
fresh-done c given at_start =
    elim c.value_tokens as (λ ts. is_empty ts ≡ false → (c.offset == length ts) ≡ false) [
      | [] ↦ λ e. cc
      | t ∷ ts ↦ λ e. ground arith
    ]
      given

pub done-at_end : (c : ValueCursor) → done c ≡ true → c.offset ≡ length c.value_tokens
unfolding done
done-at_end c d = ground arith

module _ (s : Setup) where
  -- A ready cursor whose value has further tokens proposes the next one.
  pub go_on-next :
      (c : Controller) (frame : LiveFrame) (cursor : ValueCursor)
      → Ready s.digest cursor s.snapshot s.reply c.prefix false
      → done cursor ≡ false
      → (token : ℕ) × (get_elem? cursor.value_tokens cursor.offset ≡ some token)
        × (go_on s c frame cursor ≡ ok (continue_value, some token))
  unfolding go_on
  go_on-next c frame cursor ready d =
      let step = Ready-Steps s.digest cursor s.snapshot s.reply c.prefix false ready d in
      (step.token, step.is_next, ground (arith, d, step.selects frame.argmax))

  -- A ready cursor behind its value proposes the end.
  pub go_on-end :
      (c : Controller) (frame : LiveFrame) (cursor : ValueCursor)
      → Ready s.digest cursor s.snapshot s.reply c.prefix false
      → done cursor ≡ true
      → go_on s c frame cursor ≡ ok (end_value, some frame.argmax)
  unfolding go_on
  go_on-end c frame cursor ready d =
      ground (arith, d, Ready-validate s.digest cursor s.snapshot s.reply c.prefix false ready)

  pub choice_injective :
      (kind kind' : ActionKind) (token token' : Option ℕ) {choice : Result Choice}
      → choice ≡ ok (kind, token)
      → choice ≡ ok (kind', token')
      → (kind ≡ kind') × (token ≡ token')
  choice_injective kind kind' token token' e e' = ground arith

  pub go_on-Fits :
      (c : Controller) (frame : LiveFrame) (cursor : ValueCursor) (kind : ActionKind)
      (token : Option ℕ)
      → c.cursor ≡ some cursor
      → Ready s.digest cursor s.snapshot s.reply c.prefix false
      → go_on s c frame cursor ≡ ok (kind, token)
      → Fits s kind token c
  go_on-Fits c frame cursor kind token given ready h = elim (Bool-cases (done cursor)) [
    | inl d ↦
        let (same, _) =
          choice_injective end_value kind (some frame.argmax) token
            (go_on-end c frame cursor ready d) h in
        subst (λ k. Fits s k token c) same
          (record { cursor = cursor; given = given; at_end = done-at_end cursor d })
    | inr d ↦
        let (next, found, goes) = go_on-next c frame cursor ready d in
        let (same, its) = choice_injective continue_value kind (some next) token goes h in
        subst (λ k. Fits s k token c) same
          (record {
            cursor = cursor;
            given = given;
            unfinished = get_elem?-lt cursor.value_tokens cursor.offset found;
            is_next = found ∙ its;
          })
  ]

  pub started-next :
      (c : Controller) (frame : LiveFrame) (cursor : ValueCursor)
      → Ready s.digest cursor s.snapshot s.reply c.prefix false
      → done cursor ≡ false
      → (token : ℕ) × (get_elem? cursor.value_tokens cursor.offset ≡ some token)
        × ((started s c frame (ok cursor)).1 ≡ ok (start_value, some token))
  started-next c frame cursor ready d =
      let step = Ready-Steps s.digest cursor s.snapshot s.reply c.prefix false ready d in
      (step.token, step.is_next, ground (arith, step.selects frame.argmax))
