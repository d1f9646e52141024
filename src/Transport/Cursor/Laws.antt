-- ===== src/Transport/Cursor/Laws.antt =====
-- A constructed cursor: its invariant, its steps, and the text that it has committed.
use bit_net.Transport.Values.{text_bytes, PayloadSnapshot, ReplyBinding}
use bit_net.Transport.Handle
use bit_net.Transport.Cursor.{
  ValueCursor, join, is_some, post_init, done, expected_prefix, validate, select, commit,
}
use native.Mathlib.Numerals.{add-one}
use bit_net.Base.{
  ℕ, zero, suc, ◌+◌, ◌≤◌, ◌<◌, ◌≡◌, refl, sym, ap, ◌∙◌, ◌≢◌, Bool, true, false, not, some, List, [],
  ◌∷◌, ◌++◌, arith, ◌==◌, eq_iff, nat_eq, text_eq, option_eq, length, get_elem?, take, all,
  is_empty, append_assoc, take-suc, transport_error, ok, err, ◌>>◌, guard, Text, bind-eq-ok,
}

-- The invariant of a cursor.
pub record IsAligned (c : ValueCursor) : Type 0 where
  pub text : Text
  pub selected : is_some c.handle.span ≡ true
  pub prefix_given : is_empty c.initial_prefix ≡ false
  pub tokens_given : is_empty c.value_tokens ≡ false
  pub aligned : length c.pieces ≡ length c.value_tokens
  pub pieces_given : all (λ p. not (is_empty p)) c.pieces ≡ true
  pub decoded : text_bytes c.value ≡ ok text
  pub joined : join c.pieces ≡ c.value
  pub inside : c.offset ≤ length c.value_tokens

pub post_init-IsAligned : (c : ValueCursor) → post_init c ≡ ok tt → IsAligned c
unfolding post_init
post_init-IsAligned c h =
    elim (text_bytes c.value) as (λ r. text_bytes c.value ≡ r → IsAligned c) [
      | ok t ↦ λ e. record {
        text = t;
        selected = ground arith;
        prefix_given = ground arith;
        tokens_given = ground arith;
        aligned = ground arith;
        pieces_given = ground arith;
        decoded = e;
        joined = ground (arith, eq_iff (join c.pieces) c.value);
        inside = ground arith;
      }
      | err x ↦ λ e. absurd (ground arith)
    ]
      refl

pub IsAligned-post_init : (c : ValueCursor) → IsAligned c → post_init c ≡ ok tt
unfolding post_init
IsAligned-post_init c a = ground (arith, eq_iff (join c.pieces) c.value, a.decoded)

abbrev pub advanced : ValueCursor → ValueCursor
advanced c = record c { offset = c.offset + 1 }

advanced-IsAligned :
    (c : ValueCursor) → IsAligned c → c.offset < length c.value_tokens → IsAligned (advanced c)
advanced-IsAligned c a h = record {
  text = a.text;
  selected = a.selected;
  prefix_given = a.prefix_given;
  tokens_given = a.tokens_given;
  aligned = a.aligned;
  pieces_given = a.pieces_given;
  decoded = a.decoded;
  joined = a.joined;
  inside = omega arith;
}

get_elem?-defined : (xs : List ℕ) (i : ℕ) → i < length xs → (x : ℕ) × (get_elem? xs i ≡ some x)
get_elem?-defined [] i h = elim h [ ]
get_elem?-defined (x ∷ xs) zero h = (x, refl)
get_elem?-defined (x ∷ xs) (suc i) h = get_elem?-defined xs i (omega arith)

pub get_elem?-lt : (xs : List ℕ) (i : ℕ) {x : ℕ} → get_elem? xs i ≡ some x → i < length xs
get_elem?-lt [] i h = cc
get_elem?-lt (y ∷ xs) zero h = omega arith
get_elem?-lt (y ∷ xs) (suc i) h = omega (arith, get_elem?-lt xs i h)

expected_prefix-advanced :
    (c : ValueCursor) {t : ℕ}
    → get_elem? c.value_tokens c.offset ≡ some t
    → expected_prefix (advanced c) ≡ expected_prefix c ++ t ∷ []
unfolding expected_prefix
expected_prefix-advanced c {t} h =
    ap (λ n. c.initial_prefix ++ take n c.value_tokens) (add-one c.offset)
    ∙ ap (λ ts. c.initial_prefix ++ ts) (take-suc c.offset c.value_tokens h)
    ∙ sym (append_assoc c.initial_prefix (take c.offset c.value_tokens) (t ∷ []))

module _ (digest : PayloadSnapshot → Text) where
  -- A cursor that may go on, against a snapshot, a reply and the tokens of the reply so far.
  pub record Ready (c : ValueCursor) (snapshot : PayloadSnapshot) (reply : ReplyBinding)
      (prefix : List ℕ) (allow_oracle : Bool) : Type 0 where
    pub is_aligned : IsAligned c
    pub same_value : Handle.validate digest c.handle snapshot reply allow_oracle ≡ ok (some c.value)
    pub actual_prefix : prefix ≡ expected_prefix c

  pub Ready-validate :
      (c : ValueCursor) (s : PayloadSnapshot) (r : ReplyBinding) (prefix : List ℕ) (o : Bool)
      → Ready c s r prefix o
      → validate digest c s r prefix o ≡ ok tt
  unfolding validate
  Ready-validate c s r prefix o h = ground (
    arith,
    h.same_value,
    h.actual_prefix,
    eq_iff (some c.value) (some c.value),
    eq_iff prefix (expected_prefix c),
  )

  pub validate-Ready :
      (c : ValueCursor) (s : PayloadSnapshot) (r : ReplyBinding) (prefix : List ℕ) (o : Bool)
      → IsAligned c
      → validate digest c s r prefix o ≡ ok tt
      → Ready c s r prefix o
  unfolding validate
  validate-Ready c s r prefix o a h =
      let (v, e, rest) =
        bind-eq-ok (Handle.validate digest c.handle s r o)
          (λ selected.
            guard (selected == some c.value) (transport_error "selected bytes changed")
            >> guard (prefix == expected_prefix c)
                (transport_error "not the actual ordered prefix"))
          h in
      record {
        is_aligned = a;
        same_value = ground (arith, eq_iff v (some c.value));
        actual_prefix = ground (arith, eq_iff prefix (expected_prefix c));
      }

  -- One step of a cursor.
  pub record Steps (c : ValueCursor) (s : PayloadSnapshot) (r : ReplyBinding) (prefix : List ℕ)
      (o : Bool) : Type 0 where
    pub token : ℕ
    pub is_next : get_elem? c.value_tokens c.offset ≡ some token
    pub selects : (base : ℕ) → select digest c base s r prefix o ≡ ok token
    pub commits : commit digest c token s r prefix o ≡ ok (advanced c)
    pub only :
        (other : ℕ)
        → other ≢ token
        → commit digest c other s r prefix o
          ≡ err (transport_error "skip, premature stop, replacement or commit after value end")
    pub stays_ready : Ready (advanced c) s r (prefix ++ token ∷ []) o

  -- From a ready cursor that is not done, `select` proposes the next token of the value whatever the
  -- base token is, `commit` accepts that token and refuses every other, and the cursor behind it is
  -- ready at the prefix with the token.
  pub Ready-Steps :
      (c : ValueCursor) (s : PayloadSnapshot) (r : ReplyBinding) (prefix : List ℕ) (o : Bool)
      → Ready c s r prefix o
      → done c ≡ false
      → Steps c s r prefix o
  unfolding select commit done
  Ready-Steps c s r prefix o h unfinished =
      let a = h.is_aligned in
      let below : c.offset < length c.value_tokens = ground (arith, a.inside) in
      let (t, found) = get_elem?-defined c.value_tokens c.offset below in
      record {
        token = t;
        is_next = found;
        selects = λ base. ground (arith, Ready-validate c s r prefix o h);
        commits = ground (
          arith,
          Ready-validate c s r prefix o h,
          eq_iff (some t) (some t),
          IsAligned-post_init (advanced c) (advanced-IsAligned c a below),
        );
        only = λ other ne.
            ground (arith, Ready-validate c s r prefix o h, eq_iff (some t) (some other));
        stays_ready = record {
          is_aligned = advanced-IsAligned c a below;
          same_value = h.same_value;
          actual_prefix =
              ap (λ p. p ++ t ∷ []) h.actual_prefix ∙ sym (expected_prefix-advanced c found);
        };
      }
