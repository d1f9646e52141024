-- ===== src/Transport/Compile.antt =====
-- `compile_value` of python/value_transport.py, and `AppendValueCodec.encode_value` and
-- `compile_append_value` of python/append_value_transport.py: the tokens of a selected value.
pub mod Laws
use bit_net.Base.Utf8.{encode, encode_all}
use bit_net.Contract.{ModelBinding}
use bit_net.Transport.Values.{require, text_bytes, PayloadSnapshot, ReplyBinding, TransportLimits}
use bit_net.Transport.Handle
use bit_net.Transport.Handle.{ActivatedFact}
use bit_net.Transport.Codec.{ValueCodec, before, after}
use bit_net.Transport.Cursor.{ValueCursor, join, construct}
use bit_net.Base.{
  ℕ, zero, suc, ◌+◌, ◌-◌, ◌*◌, ◌/◌, ◌%◌, ◌≤◌, ◌<◌, min, String, ◌≡◌, refl, sym, ap, ◌∙◌, ◌≢◌, ◌↔◌,
  ◌⊎◌, inl, inr, Bool, true, false, not, ◌&&◌, ◌||◌, Option, none, some, List, [], ◌∷◌, ◌++◌, map,
  arith, ltb, leb, if◌then◌else◌, Bool-cases, Option-cases, Eq, ◌==◌, eq_iff, nat_eq, text_eq,
  option_eq, length, get_elem?, take, drop, all, any, is_empty, length-append, append_nil,
  append_assoc, take-append-drop, length-take, take-length, take-suc, take-append, drop-append, All,
  Some, all_iff, all-append, elem, distinct, subset, disjoint, elem-append, Error, value_error,
  transport_error, prefix_retokenization_required, unsafe_token, transport_budget_exceeded,
  unicode_encode_error, unicode_decode_error, Result, ok, err, Check, ◌>>=◌, ◌>>◌, guard, or_raise,
  drop_value, each, each_iff, Text, Bytes, lit, has_content, is_sha256, guard-eq-ok, check-eq-ok,
  bind-eq-ok, or_raise-eq-ok, drop_value-eq-ok, bool_ext,
}

-- `token_ids(ids, codec)`
unfoldable pub token_ids : List ℕ → ValueCodec → Check
token_ids ids codec =
    require (not (is_empty ids) && all (λ t. ltb t codec.vocab) ids)
      "immutable valid token IDs required"

-- `ids[0] == bos_id`, for token identities that are not empty.
abbrev pub starts_with_id : ℕ → List ℕ → Bool
starts_with_id b [] = false
starts_with_id b (t ∷ ts) = t == b

abbrev pub codec_matches : ValueCodec → ModelBinding → Bool
codec_matches codec binding =
    codec.backbone_sha256 == binding.backbone_sha256
    && codec.tokenizer_sha256 == binding.tokenizer_sha256

-- The bytes of a prefix, or those with the space that the tokenizer puts in front.
abbrev pub is_framed : Bytes → Bytes → Bool
is_framed bytes raw = bytes == raw || bytes == 32 ∷ raw

-- `for t, piece in zip(suffix, pieces): …`
unfoldable pub refuse_control : String → ValueCodec → List ℕ → List Bytes → Check
refuse_control message codec [] pieces = ok tt
refuse_control message codec (t ∷ ts) [] = ok tt
refuse_control message codec (t ∷ ts) (p ∷ ps) = do
  guard (not (codec.forbidden t || elem 0 p)) (unsafe_token message)
  refuse_control message codec ts ps

-- The messages in which the two compilers differ.
pub record Wording : Type 0 where
  pub misaligned : String
  pub changed : String
  pub control : String

-- The last checks of both compilers, on the suffix that the tokenizer gave for a value; `total` is
-- the length of prefix and suffix.
unfoldable pub accept_suffix :
    Wording
    → TransportLimits
    → ValueCodec
    → ActivatedFact
    → List ℕ
    → Bytes
    → List ℕ
    → ℕ
    → Result ValueCursor
accept_suffix wording limits codec handle prefix_ids value suffix total = do
  pieces ← codec.decode_pieces suffix
  require (length pieces == length suffix && all (λ p. not (is_empty p)) pieces) wording.misaligned
  require (join pieces == value) wording.changed
  refuse_control wording.control codec suffix pieces
  guard (leb (length suffix) limits.max_value_tokens && leb total limits.max_total_tokens)
      (transport_budget_exceeded "token budget exceeded before emission")
  codec.verify_identity after
  construct (record {
    handle = handle;
    initial_prefix = prefix_ids;
    value_tokens = suffix;
    pieces = pieces;
    value = value;
    offset = 0;
  })

abbrev pub value_wording : Wording
value_wording = record {
  misaligned = "empty or misaligned token piece";
  changed = "encoded suffix does not preserve exact value bytes";
  control = "control token in value";
}

abbrev pub append_wording : Wording
append_wording = record {
  misaligned = "invalid suffix pieces";
  changed = "suffix does not preserve value bytes";
  control = "control token in value suffix";
}

-- The rest of `compile_value` for a value that is not NULL.
unfoldable pub compile_selected :
    TransportLimits
    → ValueCodec
    → ActivatedFact
    → PayloadSnapshot
    → List ℕ
    → Text
    → Bytes
    → Result ValueCursor
compile_selected limits codec handle snapshot prefix_ids prefix_text value = do
  guard (leb (length value) limits.max_value_bytes)
      (transport_budget_exceeded "value byte budget exceeded")
  codec.verify_identity before
  require (codec_matches codec snapshot.binding) "codec identity differs from bound model"
  token_ids prefix_ids codec
  guard (ltb (length prefix_ids) limits.max_total_tokens)
      (transport_budget_exceeded "no remaining context capacity")
  require
      (starts_with_id codec.bos_id prefix_ids
        && not (is_empty prefix_text)
        && not (elem 0 prefix_text))
      "complete prefix required"
  raw_prefix ← or_raise (encode prefix_text) (transport_error "invalid prefix UTF-8")
  canonical ← codec.encode_with_bos prefix_text
  guard (canonical == prefix_ids) (
      prefix_retokenization_required
        "actual prefix is not canonical under this conservative adapter")
  original ← codec.decode_pieces (drop 1 prefix_ids)
  require (is_framed (join original) raw_prefix) "prefix bytes changed"
  value_text ← text_bytes value
  combined ← codec.encode_with_bos (prefix_text ++ value_text)
  token_ids combined codec
  guard (take (length prefix_ids) combined == prefix_ids)
      (prefix_retokenization_required "value would rewrite already emitted tokens")
  require (not (is_empty (drop (length prefix_ids) combined))) "empty encoded value"
  accept_suffix value_wording limits codec handle prefix_ids value
      (drop (length prefix_ids) combined) (length combined)

-- `AppendValueCodec.anchor`
abbrev pub anchor : Text
anchor = lit "<|im_end|>"

abbrev pub last_satisfies : (ℕ → Bool) → List ℕ → Bool
last_satisfies p [] = false
last_satisfies p (x ∷ []) = p x
last_satisfies p (x ∷ y ∷ xs) = last_satisfies p (y ∷ xs)

abbrev pub is_anchor_framing : List Bytes → Bool
is_anchor_framing (p ∷ []) = p == anchor
is_anchor_framing (s ∷ p ∷ []) = s == 32 ∷ [] && p == anchor
is_anchor_framing _ = false

-- `AppendValueCodec.encode_value`: the value is tokenized behind a control token, which is dropped.
unfoldable pub encode_value : ValueCodec → Bytes → Result (List ℕ)
encode_value codec value = do
  value_text ← text_bytes value
  anchor_ids ← codec.encode_with_bos anchor
  anchor_pieces ← codec.decode_pieces (drop 1 anchor_ids)
  require (is_anchor_framing anchor_pieces) "unqualified C tokenizer anchor framing"
  require (last_satisfies codec.forbidden anchor_ids) "anchor must be a recognized control boundary"
  combined ← codec.encode_with_bos (anchor ++ value_text)
  token_ids combined codec
  require (take (length anchor_ids) combined == anchor_ids) "C tokenizer merged across anchor"
  require (not (is_empty (drop (length anchor_ids) combined))) "empty encoded value"
  pieces ← codec.decode_pieces (drop (length anchor_ids) combined)
  require (join pieces == value) "anchor suffix changed value bytes"
  ok (drop (length anchor_ids) combined)

-- The rest of `compile_append_value` for a value that is not NULL.
unfoldable pub append_selected :
    TransportLimits
    → ValueCodec
    → ActivatedFact
    → PayloadSnapshot
    → List ℕ
    → Text
    → Bytes
    → Result ValueCursor
append_selected limits codec handle snapshot prefix_ids prefix_text value = do
  guard (leb (length value) limits.max_value_bytes)
      (transport_budget_exceeded "value byte budget exceeded")
  codec.verify_identity before
  require (codec_matches codec snapshot.binding) "codec identity differs from bound model"
  token_ids prefix_ids codec
  require
      (starts_with_id codec.bos_id prefix_ids
        && not (is_empty prefix_text)
        && not (elem 0 prefix_text))
      "complete actual prefix required"
  guard (ltb (length prefix_ids) limits.max_total_tokens)
      (transport_budget_exceeded "no remaining context capacity")
  raw_prefix ← or_raise (encode prefix_text) unicode_encode_error
  pieces ← codec.decode_pieces (drop 1 prefix_ids)
  require (length pieces == length prefix_ids - 1 && all (λ p. not (is_empty p)) pieces)
      "invalid prefix pieces"
  require (is_framed (join pieces) raw_prefix) "actual prefix bytes do not match caller text"
  suffix ← encode_value codec value
  token_ids suffix codec
  accept_suffix append_wording limits codec handle prefix_ids value suffix
      (length prefix_ids + length suffix)

-- The frame of both compilers: the handle is validated first, and NULL compiles to no cursor.
abbrev pub for_selected : Option Bytes → (Bytes → Result ValueCursor) → Result (Option ValueCursor)
for_selected none compile = ok none
for_selected (some value) compile = compile value >>= λ cursor. ok (some cursor)

module _ (digest : PayloadSnapshot → Text) where
  unfoldable pub compile_value :
      TransportLimits
      → ValueCodec
      → ActivatedFact
      → PayloadSnapshot
      → ReplyBinding
      → List ℕ
      → Text
      → Bool
      → Result (Option ValueCursor)
  compile_value limits codec handle snapshot reply prefix_ids prefix_text allow_oracle = do
    selected ← Handle.validate digest handle snapshot reply allow_oracle
    for_selected selected (compile_selected limits codec handle snapshot prefix_ids prefix_text)

  unfoldable pub compile_append_value :
      TransportLimits
      → ValueCodec
      → ActivatedFact
      → PayloadSnapshot
      → ReplyBinding
      → List ℕ
      → Text
      → Bool
      → Result (Option ValueCursor)
  compile_append_value limits codec handle snapshot reply prefix_ids prefix_text allow_oracle = do
    selected ← Handle.validate digest handle snapshot reply allow_oracle
    for_selected selected (append_selected limits codec handle snapshot prefix_ids prefix_text)
