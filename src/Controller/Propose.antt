-- ===== src/Controller/Propose.antt =====
-- `propose` of python/autonomous_value_controller.py.
use bit_net.Base.Utf8.{decode}
use bit_net.Transport.{
  require, neural_prediction, oracle_fixture, Origin, TransportLimits, check_limits,
}
use bit_net.Transport.Handle.{ActivatedFact}
use bit_net.Transport.Cursor
use bit_net.Transport.Cursor.{ValueCursor, done, join}
use bit_net.Transport.Compile.{compile_append_value}
use bit_net.Controller.Setup.{
  ActionKind, base, start_value, continue_value, end_value, needs_uncertainty, wait_uncertainty,
  LiveFrame, Decision, Now, Output, Setup, Controller, may_act, fail, generated_tokens,
  validate_binding, validate_frame,
}
use bit_net.Base.{
  ℕ, ◌+◌, ◌-◌, min, Bool, true, false, ◌&&◌, ◌||◌, Option, none, some, [], ◌∷◌, ltb, leb,
  if◌then◌else◌, ◌==◌, nat_eq, text_eq, texts_eq, option_eq, length, drop, transport_error,
  unicode_decode_error, Result, ok, err, Check, ◌>>=◌, ◌>>◌, or_raise,
}

-- What a branch of `propose` chooses: the kind and the token.
abbrev pub Choice : Type 0
Choice = ActionKind × Option ℕ

abbrev pub is_neural : Origin → Bool
is_neural neural_prediction = true
is_neural oracle_fixture = false

-- The handle is a neural prediction of the bytes that the reader predicted.
abbrev pub is_own : Output → ActivatedFact → Bool
is_own output handle = is_neural handle.origin && elim handle.span [
  | none ↦ false
  | some span ↦ elim output.value_bytes [
    | none ↦ false
    | some (a, b) ↦ span.start_byte == a && span.end_byte == b
  ]
]

abbrev pub is_none {ℓ} : {A : Type ℓ} → Option A → Bool
is_none none = true
is_none (some a) = false

module _ (s : Setup) where
  -- The budgets of a value: it leaves room for the token behind it.
  abbrev pub effective : Controller → TransportLimits
  effective c = record {
    max_value_bytes = s.limits.max_value_bytes;
    max_value_tokens =
        min s.limits.max_value_tokens (s.max_new_tokens - length (generated_tokens s c) - 1);
    max_total_tokens = s.limits.max_total_tokens - 1;
  }

  -- A value is compiled behind the text of the actual tokens.
  unfoldable pub start : Controller → Output → Result ValueCursor
  start c output = do
    require (ltb c.reads s.max_value_reads) "value activation budget exhausted"
    require
        (leb (length (generated_tokens s c) + 2) s.max_new_tokens
          && leb (length c.prefix + 2) s.limits.max_total_tokens)
        "no room for value and END handoff"
    handle ← output.handle
    require (is_own output handle) "START requires its own predicted non-NULL handle"
    check_limits (effective c)
    pieces ← s.codec.decode_pieces (drop 1 c.prefix)
    actual_text ← or_raise (decode (join pieces)) unicode_decode_error
    cursor ←
        compile_append_value s.digest (effective c) s.codec handle s.snapshot s.reply c.prefix
          actual_text false
    or_raise cursor (transport_error "unexpected NULL START")

  -- The branch with a cursor.
  unfoldable pub go_on : Controller → LiveFrame → ValueCursor → Result Choice
  go_on c frame cursor = elim (done cursor) [
    | true ↦ do
      Cursor.validate s.digest cursor s.snapshot s.reply c.prefix false
      ok (end_value, some frame.argmax)
    | false ↦ do
      token ← Cursor.select s.digest cursor frame.argmax s.snapshot s.reply c.prefix false
      ok (continue_value, some token)
  ]

  -- The cursor is kept also where the selection of its first token raises.
  abbrev pub started : Controller → LiveFrame → Result ValueCursor → Controller × Result Choice
  started c frame (err e) = (c, err e)
  started c frame (ok cursor) = (
    record c { cursor = some cursor },
    Cursor.select s.digest cursor frame.argmax s.snapshot s.reply c.prefix false >>= λ token.
        ok (start_value, some token),
  )

  -- The branch that asks the reader; the route is kept also where what follows raises.
  unfoldable pub follow : Controller → LiveFrame → Output → Controller × Result Choice
  follow c frame output =
      let routed : Controller = record c { route = some output.route } in
      if is_none c.route || c.route == some output.route
      then (if output.route == 2
          then (routed, ok (needs_uncertainty, none))
          else if output.route == 1 && output.starts
          then started routed frame (start routed output)
          else (routed, ok (base, some frame.argmax)))
      else (c, err (transport_error "reply-local route changed"))

  abbrev pub read : Controller → LiveFrame → Result Output → Controller × Result Choice
  read c frame (err e) = (c, err e)
  read c frame (ok output) = follow c frame output

  unfoldable pub choose : Controller → Now → LiveFrame → Controller × Result Choice
  choose c now frame = elim c.cursor [
    | some cursor ↦ (c, go_on c frame cursor)
    | none ↦
        if c.route == some 0
        then (c, ok (base, some frame.argmax))
        else read c frame (s.reader now frame c.prefix)
  ]

  -- The checks in front.
  unfoldable pub check_proposal : Controller → Now → LiveFrame → Check
  check_proposal c now frame = do
    require (may_act c.state && is_none c.pending)
        "controller is terminal or has uncommitted action"
    validate_binding s now
    validate_frame s c now frame
    require
        (ltb (length (generated_tokens s c)) s.max_new_tokens
          && ltb (length c.prefix) s.limits.max_total_tokens)
        "reply token/context budget exhausted"

  abbrev pub decision_of : Controller → LiveFrame → ActionKind → Option ℕ → ℕ → Decision
  decision_of c frame kind token route = record {
    identity = c.created;
    kind = kind;
    token = token;
    prefix_ids = c.prefix;
    route = route;
    origin = frame.origin;
  }

  abbrev pub decided : Controller → LiveFrame → Controller
  decided c frame = record c { frame_origin = some frame.origin; created = c.created + 1 }

  -- A decision without a token waits for ever; any other is pending.
  abbrev pub hand_out : Controller → Now → LiveFrame → ActionKind → Option ℕ → ℕ → Controller
  hand_out c now frame needs_uncertainty token route = record (decided c frame) {
    state = wait_uncertainty;
  }
  hand_out c now frame kind token route = record (decided c frame) {
    pending = some (decision_of c frame kind token route);
    frame_versions = some (now.hidden_version ∷ now.logits_version ∷ []);
  }

  unfoldable pub settle :
      Now → LiveFrame → Controller × Result Choice → Controller × Result Decision
  settle now frame (c, err e) = (fail c, err e)
  settle now frame (c, ok (kind, token)) = elim c.route [
    | none ↦ (fail c, err (transport_error "missing route"))
    | some route ↦
        if leb route 2
        then (hand_out c now frame kind token route, ok (decision_of c frame kind token route))
        else (fail c, err (transport_error "missing route"))
  ]

  unfoldable pub propose : Controller → Now → LiveFrame → Controller × Result Decision
  propose c now frame = elim (check_proposal c now frame) [
    | err e ↦ (fail c, err e)
    | ok u ↦ settle now frame (choose c now frame)
  ]
