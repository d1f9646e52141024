-- ===== src/Transport/Compile/Laws.antt =====
-- What a compiled cursor is: of the selected value, at the start, within the budgets, without control
-- tokens, and ready at the prefix that it was compiled for.
use bit_net.Base.{Result-cases}
use bit_net.Base.Utf8.{encode}
use bit_net.Transport.Values.{text_bytes, PayloadSnapshot, ReplyBinding, TransportLimits}
use bit_net.Transport.Handle
use bit_net.Transport.Handle.{ActivatedFact}
use bit_net.Transport.Codec.{ValueCodec}
use bit_net.Transport.Cursor.{ValueCursor, expected_prefix, post_init}
use bit_net.Transport.Cursor.Laws.{Ready, post_init-IsAligned}
use bit_net.Transport.Compile.{
  refuse_control, Wording, accept_suffix, value_wording, append_wording, compile_selected,
  encode_value, append_selected, for_selected, compile_value, compile_append_value,
}
use bit_net.Base.{
  ℕ, ◌+◌, ◌≤◌, String, ◌≡◌, refl, sym, ap, ◌∙◌, inl, inr, Bool, true, not, Option, none, some, List,
  [], ◌∷◌, ◌++◌, arith, Option-cases, eq_iff, nat_eq, text_eq, option_eq, length, take, drop, all,
  length-append, append_nil, take-append-drop, Result, ok, err, ◌>>=◌, Text, Bytes, bind-eq-ok,
}

-- A cursor at the start of a value.
pub record IsCompiled (limits : TransportLimits) (codec : ValueCodec) (handle : ActivatedFact)
    (prefix_ids : List ℕ) (value : Bytes) (c : ValueCursor) : Type 0 where
  pub same_handle : c.handle ≡ handle
  pub same_prefix : c.initial_prefix ≡ prefix_ids
  pub same_value : c.value ≡ value
  pub at_start : c.offset ≡ 0
  pub constructed : post_init c ≡ ok tt
  pub value_fits : length value ≤ limits.max_value_bytes
  pub tokens_fit : length c.value_tokens ≤ limits.max_value_tokens
  pub total_fits : length prefix_ids + length c.value_tokens ≤ limits.max_total_tokens
  pub no_control : all (λ t. not (codec.forbidden t)) c.value_tokens ≡ true

refuse_control-lem :
    (message : String) (codec : ValueCodec) (ts : List ℕ) (ps : List Bytes)
    → length ps ≡ length ts
    → refuse_control message codec ts ps ≡ ok tt
    → all (λ t. not (codec.forbidden t)) ts ≡ true
unfolding refuse_control
refuse_control-lem m codec [] ps l h = refl
refuse_control-lem m codec (t ∷ ts) [] l h = absurd (omega arith)
refuse_control-lem m codec (t ∷ ts) (p ∷ ps) l h = ground (arith, refuse_control-lem m codec ts ps)

module _ (limits : TransportLimits) (codec : ValueCodec) (handle : ActivatedFact)
    (prefix_ids : List ℕ) (value : Bytes) where
  -- The cursor that is constructed at the end.
  abbrev cursor_of : List ℕ → List Bytes → ValueCursor
  cursor_of suffix pieces = record {
    handle = handle;
    initial_prefix = prefix_ids;
    value_tokens = suffix;
    pieces = pieces;
    value = value;
    offset = 0;
  }

  accept_suffix-cursor :
      (wording : Wording) (suffix : List ℕ) (total : ℕ) {c : ValueCursor}
      → accept_suffix wording limits codec handle prefix_ids value suffix total ≡ ok c
      → (pieces : List Bytes) × (c ≡ cursor_of suffix pieces)
        × (length pieces ≡ length suffix)
        × (refuse_control wording.control codec suffix pieces ≡ ok tt)
        × (length suffix ≤ limits.max_value_tokens)
        × (total ≤ limits.max_total_tokens)
        × (post_init c ≡ ok tt)
  unfolding accept_suffix
  accept_suffix-cursor wording suffix total {c} h =
      elim (codec.decode_pieces suffix)
          as (λ r.
            codec.decode_pieces suffix ≡ r
            → (pieces : List Bytes) × (c ≡ cursor_of suffix pieces)
              × (length pieces ≡ length suffix)
              × (refuse_control wording.control codec suffix pieces ≡ ok tt)
              × (length suffix ≤ limits.max_value_tokens)
              × (total ≤ limits.max_total_tokens)
              × (post_init c ≡ ok tt)) [
                | err e ↦ λ d. absurd (ground arith)
                | ok pieces ↦ λ d. (
                  pieces,
                  ground arith,
                  ground arith,
                  ground arith,
                  ground arith,
                  ground arith,
                  ground arith,
                )
              ]
        refl

  accept_suffix-IsCompiled :
      (wording : Wording) (suffix : List ℕ) (total : ℕ) {c : ValueCursor}
      → total ≡ length prefix_ids + length suffix
      → length value ≤ limits.max_value_bytes
      → accept_suffix wording limits codec handle prefix_ids value suffix total ≡ ok c
      → IsCompiled limits codec handle prefix_ids value c
  accept_suffix-IsCompiled wording suffix total {c} t fits h =
      let (pieces, is_cursor, aligned, safe, few, within, constructed) =
        accept_suffix-cursor wording suffix total h in
      record {
        same_handle = ap (λ (x : ValueCursor). x.handle) is_cursor;
        same_prefix = ap (λ (x : ValueCursor). x.initial_prefix) is_cursor;
        same_value = ap (λ (x : ValueCursor). x.value) is_cursor;
        at_start = ap (λ (x : ValueCursor). x.offset) is_cursor;
        constructed = constructed;
        value_fits = fits;
        tokens_fit = omega (arith, ap (λ (x : ValueCursor). length x.value_tokens) is_cursor);
        total_fits = omega (arith, ap (λ (x : ValueCursor). length x.value_tokens) is_cursor);
        no_control =
            ap (λ (x : ValueCursor). all (λ t. not (codec.forbidden t)) x.value_tokens) is_cursor
            ∙ refuse_control-lem wording.control codec suffix pieces aligned safe;
      }

split_length :
    (ps cs : List ℕ)
    → take (length ps) cs ≡ ps
    → length cs ≡ length ps + length (drop (length ps) cs)
split_length ps cs h =
    ap length (sym (take-append-drop (length ps) cs))
    ∙ length-append (take (length ps) cs) (drop (length ps) cs)
    ∙ ap (λ x. length x + length (drop (length ps) cs)) h

module _ (limits : TransportLimits) (codec : ValueCodec) (handle : ActivatedFact)
    (snapshot : PayloadSnapshot) (prefix_ids : List ℕ) (prefix_text : Text) (value : Bytes) where
  append_selected-IsCompiled :
      {c : ValueCursor}
      → append_selected limits codec handle snapshot prefix_ids prefix_text value ≡ ok c
      → IsCompiled limits codec handle prefix_ids value c
  unfolding append_selected
  append_selected-IsCompiled {c} h = elim (Option-cases (encode prefix_text)) [
    | inl e ↦ absurd (ground arith)
    | inr (raw, e) ↦ elim (Result-cases (codec.decode_pieces (drop 1 prefix_ids))) [
      | inr (x, d) ↦ absurd (ground arith)
      | inl (pieces, d) ↦ elim (Result-cases (encode_value codec value)) [
        | inr (x, v) ↦ absurd (ground arith)
        | inl (suffix, v) ↦
            accept_suffix-IsCompiled limits codec handle prefix_ids value append_wording suffix
              (length prefix_ids + length suffix) refl (ground arith) (ground arith)
      ]
    ]
  ]

  compile_selected-IsCompiled :
      {c : ValueCursor}
      → compile_selected limits codec handle snapshot prefix_ids prefix_text value ≡ ok c
      → IsCompiled limits codec handle prefix_ids value c
  unfolding compile_selected
  compile_selected-IsCompiled {c} h = elim (Option-cases (encode prefix_text)) [
    | inl e ↦ absurd (ground arith)
    | inr (raw, e) ↦ elim (Result-cases (codec.decode_pieces (drop 1 prefix_ids))) [
      | inr (x, d) ↦ absurd (ground arith)
      | inl (pieces, d) ↦ elim (Result-cases (text_bytes value)) [
        | inr (x, v) ↦ absurd (ground arith)
        | inl (value_text, v) ↦
            elim (Result-cases (codec.encode_with_bos (prefix_text ++ value_text))) [
              | inr (x, w) ↦ absurd (ground arith)
              | inl (combined, w) ↦
                  accept_suffix-IsCompiled limits codec handle prefix_ids value value_wording
                    (drop (length prefix_ids) combined) (length combined)
                    (split_length prefix_ids combined
                      (ground (arith, eq_iff (take (length prefix_ids) combined) prefix_ids)))
                    (ground arith) (ground arith)
            ]
      ]
    ]
  ]

module _ (digest : PayloadSnapshot → Text) (limits : TransportLimits) (codec : ValueCodec)
    (handle : ActivatedFact) (snapshot : PayloadSnapshot) (reply : ReplyBinding)
    (prefix_ids : List ℕ) (prefix_text : Text) (allow_oracle : Bool) where
  -- What a cursor that was compiled for a handle is good for: it has the bytes that the handle
  -- selects, and it may start at the prefix.
  pub record Serves (c : ValueCursor) : Type 0 where
    pub value : Bytes
    pub selected : Handle.validate digest handle snapshot reply allow_oracle ≡ ok (some value)
    pub compiled : IsCompiled limits codec handle prefix_ids value c
    pub ready : Ready digest c snapshot reply prefix_ids allow_oracle

  compiled-Ready :
      (c : ValueCursor) (value : Bytes)
      → Handle.validate digest handle snapshot reply allow_oracle ≡ ok (some value)
      → IsCompiled limits codec handle prefix_ids value c
      → Ready digest c snapshot reply prefix_ids allow_oracle
  unfolding expected_prefix
  compiled-Ready c value h k = record {
    is_aligned = post_init-IsAligned c k.constructed;
    same_value =
        ap (λ a. Handle.validate digest a snapshot reply allow_oracle) k.same_handle
        ∙ h
        ∙ ap (λ v. ok (some v)) (sym k.same_value);
    actual_prefix =
        sym (append_nil prefix_ids)
        ∙ ap (λ p. p ++ []) (sym k.same_prefix)
        ∙ ap (λ n. c.initial_prefix ++ take n c.value_tokens) (sym k.at_start);
  }

  for_selected-Serves :
      (compile : Bytes → Result ValueCursor)
      → ((value : Bytes) (c : ValueCursor)
          → compile value ≡ ok c
          → IsCompiled limits codec handle prefix_ids value c)
      → (c : ValueCursor) (selected : Result (Option Bytes))
      → Handle.validate digest handle snapshot reply allow_oracle ≡ selected
      → (selected >>= λ s. for_selected s compile) ≡ ok (some c)
      → Serves c
  for_selected-Serves compile good c (err e) v h = cc
  for_selected-Serves compile good c (ok none) v h = cc
  for_selected-Serves compile good c (ok (some value)) v h =
      let (d, made, same) = bind-eq-ok (compile value) (λ cursor. ok (some cursor)) h in
      let k = good value c (made ∙ ap ok (some_ok d c same)) in
      record { value = value; selected = v; compiled = k; ready = compiled-Ready c value v k }
    where
      some_ok : (x y : ValueCursor) → ok (some x) ≡ ok (some y) → x ≡ y
      some_ok x y e = ground arith

  -- A cursor that `compile_append_value` returns has exactly the bytes that the handle selects, is
  -- within all three budgets, holds no control token, and is ready at the given prefix.
  pub compile_append_value-Serves :
      {c : ValueCursor}
      → compile_append_value digest limits codec handle snapshot reply prefix_ids prefix_text
          allow_oracle
        ≡ ok (some c)
      → Serves c
  unfolding compile_append_value
  compile_append_value-Serves {c} h =
      for_selected-Serves (append_selected limits codec handle snapshot prefix_ids prefix_text)
        (λ value d made.
          append_selected-IsCompiled limits codec handle snapshot prefix_ids prefix_text value made)
        c (Handle.validate digest handle snapshot reply allow_oracle) refl h

  -- A cursor that `compile_value` returns has exactly the bytes that the handle selects, is within all
  -- three budgets, holds no control token, and is ready at the given prefix.
  pub compile_value-Serves :
      {c : ValueCursor}
      → compile_value digest limits codec handle snapshot reply prefix_ids prefix_text allow_oracle
        ≡ ok (some c)
      → Serves c
  unfolding compile_value
  compile_value-Serves {c} h =
      for_selected-Serves (compile_selected limits codec handle snapshot prefix_ids prefix_text)
        (λ value d made.
          compile_selected-IsCompiled limits codec handle snapshot prefix_ids prefix_text value
            made)
        c (Handle.validate digest handle snapshot reply allow_oracle) refl h
