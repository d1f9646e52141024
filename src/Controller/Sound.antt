-- ===== src/Controller/Sound.antt =====
-- The invariant of a controller: budgets, the prefix, and a cursor that is ahead of the prefix.
pub mod Goes
pub mod Proposes
pub mod Hands
pub mod Commits
use bit_net.Transport.Cursor.{ValueCursor}
use bit_net.Transport.Cursor.Laws.{Ready}
use bit_net.Controller.Setup.{
  ActionKind, base, start_value, continue_value, end_value, needs_uncertainty, Decision, Setup,
  Controller, fail, first_controller, generated_tokens, check_setup,
}
use bit_net.Base.{
  ℕ, zero, suc, ◌+◌, ◌-◌, ◌*◌, ◌/◌, ◌%◌, ◌≤◌, ◌<◌, min, String, ◌≡◌, refl, sym, ap, ◌∙◌, ◌≢◌, ◌↔◌,
  ◌⊎◌, inl, inr, Bool, true, false, not, ◌&&◌, ◌||◌, Option, none, some, List, [], ◌∷◌, ◌++◌, map,
  arith, ltb, leb, if◌then◌else◌, Bool-cases, Option-cases, Eq, ◌==◌, eq_iff, nat_eq, text_eq,
  texts_eq, option_eq, length, get_elem?, take, drop, all, any, is_empty, length-append, append_nil,
  append_assoc, take-append-drop, length-take, take-length, take-suc, take-append, drop-append, All,
  Some, all_iff, all-append, elem, distinct, subset, disjoint, elem-append, Error, value_error,
  transport_error, prefix_retokenization_required, unsafe_token, transport_budget_exceeded,
  unicode_encode_error, unicode_decode_error, Result, ok, err, Check, ◌>>=◌, ◌>>◌, guard, or_raise,
  drop_value, each, each_iff, Text, Bytes, lit, has_content, is_sha256, Result-cases, guard-eq-ok,
  check-eq-ok, bind-eq-ok, or_raise-eq-ok, drop_value-eq-ok, bool_ext,
}

-- The token is the next one of the value.
pub record Proceeds (carried : Option ValueCursor) (token : Option ℕ) : Type 0 where
  pub cursor : ValueCursor
  pub given : carried ≡ some cursor
  pub unfinished : cursor.offset < length cursor.value_tokens
  pub is_next : get_elem? cursor.value_tokens cursor.offset ≡ token

-- The value has no further token.
pub record Stops (carried : Option ValueCursor) : Type 0 where
  pub cursor : ValueCursor
  pub given : carried ≡ some cursor
  pub at_end : cursor.offset ≡ length cursor.value_tokens

module _ (s : Setup) where
  -- A value of which some tokens are in the prefix: its cursor is ready, and there is room for the
  -- other tokens and one more.
  pub record Carries (prefix : List ℕ) (cursor : ValueCursor) : Type 0 where
    pub ready : Ready s.digest cursor s.snapshot s.reply prefix false
    pub room_in_context :
        length cursor.initial_prefix + length cursor.value_tokens < s.limits.max_total_tokens
    pub room_in_reply :
        length cursor.initial_prefix + length cursor.value_tokens
        < length s.initial_prefix + s.max_new_tokens

  -- What a pending decision of a kind, with a token, asks of the controller.
  abbrev pub Fits : ActionKind → Option ℕ → Controller → Type 0
  Fits base token c = c.cursor ≡ none
  Fits start_value token c = (c.reads < s.max_value_reads) × Proceeds c.cursor token
  Fits continue_value token c = Proceeds c.cursor token
  Fits end_value token c = Stops c.cursor
  Fits needs_uncertainty token c = ⊥

  pub record HasRoom (c : Controller) : Type 0 where
    pub room_in_context : length c.prefix < s.limits.max_total_tokens
    pub room_in_reply : length c.prefix < length s.initial_prefix + s.max_new_tokens

  pub record Sound (c : Controller) : Type 0 where
    pub extends_initial : take (length s.initial_prefix) c.prefix ≡ s.initial_prefix
    pub within_context : length c.prefix ≤ s.limits.max_total_tokens
    pub within_reply : length c.prefix ≤ length s.initial_prefix + s.max_new_tokens
    pub within_reads : c.reads ≤ s.max_value_reads
    pub carries :
        (cursor : ValueCursor)
        → c.cursor ≡ some cursor
        → Carries c.prefix cursor × (c.route ≡ some 1)
    pub awaits : (d : Decision) → c.pending ≡ some d → HasRoom c × Fits d.kind d.token c

  pub extends-length : (c : Controller) → Sound c → length s.initial_prefix ≤ length c.prefix
  extends-length c h =
      omega (arith, ap length h.extends_initial, length-take (length s.initial_prefix) c.prefix)

  pub length-drop : (n : ℕ) (xs : List ℕ) → length (drop n xs) ≡ length xs - n
  length-drop zero xs = omega arith
  length-drop (suc n) [] = omega arith
  length-drop (suc n) (x ∷ xs) = omega (arith, length-drop n xs)

  pub generated-length :
      (c : Controller) → length (generated_tokens s c) ≡ length c.prefix - length s.initial_prefix
  generated-length c = length-drop (length s.initial_prefix) c.prefix

  pub fail-Sound : (c : Controller) → Sound c → Sound (fail c)
  fail-Sound c h = record {
    extends_initial = h.extends_initial;
    within_context = h.within_context;
    within_reply = h.within_reply;
    within_reads = h.within_reads;
    carries = h.carries;
    awaits = λ d e. cc;
  }

  pub first_controller-Sound : check_setup s ≡ ok tt → Sound (first_controller s)
  unfolding check_setup
  first_controller-Sound h = record {
    extends_initial = take-length s.initial_prefix;
    within_context = ground arith;
    within_reply = omega arith;
    within_reads = omega arith;
    carries = λ cursor e. cc;
    awaits = λ d e. cc;
  }
