-- ===== src/Controller/Commit.antt =====
-- `commit` of python/autonomous_value_controller.py.
use bit_net.Transport.{require}
use bit_net.Transport.Cursor
use bit_net.Transport.Cursor.{ValueCursor, done}
use bit_net.Controller.Setup.{
  ActionKind, base, start_value, continue_value, end_value, needs_uncertainty, idle, active,
  all_done, Decision, Now, Setup, Controller, may_act, fail, validate_binding,
}
use bit_net.Base.{
  ℕ, ◌+◌, Bool, false, Option, none, some, List, [], ◌∷◌, ◌++◌, if◌then◌else◌, ◌==◌, nat_eq,
  text_eq, texts_eq, option_eq, value_error, transport_error, Result, ok, err, ◌>>=◌, ◌>>◌,
  or_raise,
}

-- `cursor is not None and cursor.done`
abbrev pub is_done : Option ValueCursor → Bool
is_done none = false
is_done (some cursor) = done cursor

module _ (s : Setup) where
  unfoldable pub advance_cursor : Controller → ℕ → Result ValueCursor
  advance_cursor c emitted_token = do
    cursor ← or_raise c.cursor (value_error "'NoneType' object has no attribute 'commit'")
    Cursor.commit s.digest cursor emitted_token s.snapshot s.reply c.prefix false

  -- What the kind of the decision does to the cursor.
  unfoldable pub advance : Controller → ActionKind → ℕ → Result Controller
  advance c start_value emitted_token = do
    next ← advance_cursor c emitted_token
    ok (record c { cursor = some next; reads = c.reads + 1; state = active })
  advance c continue_value emitted_token = do
    next ← advance_cursor c emitted_token
    ok (record c { cursor = some next; state = active })
  advance c end_value emitted_token = do
    require (is_done c.cursor) "premature END"
    ok (record c { cursor = none; state = idle })
  advance c base emitted_token = ok (record c { state = idle })
  advance c needs_uncertainty emitted_token = ok (record c { state = idle })

  abbrev pub emit : Controller → ℕ → Controller
  emit c emitted_token = record c {
    prefix = c.prefix ++ emitted_token ∷ [];
    state = if emitted_token == s.eos then all_done else c.state;
    pending = none;
    frame_versions = none;
  }

  -- `decision is self._pending`: then its fields are those of the pending decision.
  unfoldable pub acknowledged : Controller → Decision → Result Decision
  acknowledged c decision = do
    require (may_act c.state) "unknown, copied, stale or non-emitting decision"
    pending ← or_raise c.pending (transport_error "unknown, copied, stale or non-emitting decision")
    require (decision.identity == pending.identity)
        "unknown, copied, stale or non-emitting decision"
    ok pending

  unfoldable pub try_commit : Controller → Now → Decision → ℕ → Result Controller
  try_commit c now decision emitted_token = do
    pending ← acknowledged c decision
    validate_binding s now
    require (c.frame_versions == some (now.hidden_version ∷ now.logits_version ∷ []))
        "C frame changed before acknowledgement"
    require (pending.token == some emitted_token) "acknowledged token differs from proposed token"
    next ← advance c pending.kind emitted_token
    ok (emit next emitted_token)

  abbrev pub caught : Controller → Result Controller → Controller × Result (List ℕ)
  caught c (ok next) = (next, ok next.prefix)
  caught c (err e) = (fail c, err e)

  unfoldable pub commit : Controller → Now → Decision → ℕ → Controller × Result (List ℕ)
  commit c now decision emitted_token = caught c (try_commit c now decision emitted_token)
