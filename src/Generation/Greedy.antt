-- ===== src/Generation/Greedy.antt =====
-- `greedy_generate` of python/neural_memory_generation.py. The forward pass of the model is a
-- parameter, as are the pieces of tokens and the decoding that replaces bytes that are no text.
pub mod Laws
use Prim.Native.Nat.{◌^◌}
use bit_net.Base.Floats.{Float, nan, infinite, finite}
use bit_net.Base.Utf8.{decode}
use bit_net.Contract.{require}
use bit_net.Generation.{GenerationInput}
use bit_net.Base.{
  ℕ, zero, suc, ◌+◌, ◌-◌, ◌*◌, ◌/◌, ◌%◌, ◌≤◌, ◌<◌, min, String, ◌≡◌, refl, sym, ap, ◌∙◌, ◌≢◌, ◌↔◌,
  ◌⊎◌, inl, inr, Bool, true, false, not, ◌&&◌, ◌||◌, Option, none, some, List, [], ◌∷◌, ◌++◌, map,
  arith, ltb, leb, if◌then◌else◌, Bool-cases, Option-cases, Eq, ◌==◌, eq_iff, nat_eq, text_eq,
  texts_eq, option_eq, length, get_elem?, take, drop, all, any, is_empty, length-append, append_nil,
  append_assoc, take-append-drop, length-take, take-length, take-suc, take-append, drop-append, All,
  Some, all_iff, all-append, elem, distinct, subset, disjoint, elem-append, Error, value_error,
  transport_error, prefix_retokenization_required, unsafe_token, transport_budget_exceeded,
  unicode_encode_error, unicode_decode_error, Result, ok, err, Check, ◌>>=◌, ◌>>◌, guard, or_raise,
  drop_value, each, each_iff, Text, Bytes, lit, has_content, is_sha256, Result-cases, guard-eq-ok,
  check-eq-ok, bind-eq-ok, or_raise-eq-ok, drop_value-eq-ok, bool_ext,
}

-- `math.isfinite`
abbrev pub is_finite : Float → Bool
is_finite (finite negative m e) = true
is_finite _ = false

-- `x < y`, for finite numbers.
unfoldable pub float_lt : Float → Float → Bool
float_lt (finite negative m e) (finite negative' m' e') =
    if negative
    then (if negative' then ltb (m' * 2 ^ e) (m * 2 ^ e') else not (m == 0 && m' == 0))
    else (if negative' then false else ltb (m * 2 ^ e') (m' * 2 ^ e))
float_lt _ _ = false

-- `max(range(n), key=values.__getitem__)`: the first position of a largest value; `at` is the
-- position of the next value, `best` the position of the largest so far.
unfoldable pub argmax_from : ℕ → ℕ → Float → List Float → ℕ
argmax_from at best largest [] = best
argmax_from at best largest (v ∷ vs) =
    let here = argmax_from (suc at) at v vs in
    let before = argmax_from (suc at) best largest vs in if float_lt largest v then here else before

abbrev pub argmax : List Float → ℕ
argmax [] = 0
argmax (v ∷ vs) = argmax_from 1 0 v vs

pub data FinishReason : Type 0 where
  max_new_tokens context_limit stop_token : FinishReason

-- What the loop leaves.
pub record Run : Type 0 where
  pub generated : List ℕ
  pub visible : List ℕ
  pub reason : FinishReason

abbrev pub ended : FinishReason → Run
ended reason = record { generated = []; visible = []; reason = reason }

abbrev pub emits : ℕ → Run → Run
emits token run = record run { generated = token ∷ run.generated; visible = token ∷ run.visible }

module _ (forward : List ℕ → List Text → Result (List Float)) (sources : List Text)
    (stop_ids : List ℕ) (capacity : ℕ) where
  -- `if vocabulary is not None and vocabulary != len(values)`
  abbrev pub same_vocabulary : Option ℕ → ℕ → Bool
  same_vocabulary none n = true
  same_vocabulary (some v) n = v == n

  -- One call of the model: the size of the vocabulary and the token.
  unfoldable pub next_token : List ℕ → Option ℕ → Result (ℕ × ℕ)
  next_token prefix vocabulary = do
    values ← forward prefix sources
    require (not (is_empty values) && all is_finite values) "finite vocabulary vector required"
    require (same_vocabulary vocabulary (length values)) "vocabulary changed during generation"
    require (all (λ t. ltb t (length values)) (prefix ++ stop_ids)) "token ID outside vocabulary"
    ok (length values, argmax values)

  -- `for _ in range(max_new_tokens): …`
  unfoldable pub generate : ℕ → List ℕ → Option ℕ → Result Run
  generate zero prefix vocabulary = ok (ended max_new_tokens)
  generate (suc n) prefix vocabulary = elim (leb capacity (length prefix)) [
    | true ↦ ok (ended context_limit)
    | false ↦ elim (next_token prefix vocabulary) [
      | err e ↦ err e
      | ok (size, token) ↦ elim (elem token stop_ids) [
        | true ↦ ok (record { generated = token ∷ []; visible = []; reason = stop_token })
        | false ↦ generate n (prefix ++ token ∷ []) (some size) >>= λ run. ok (emits token run)
      ]
    ]
  ]

abbrev pub is_stop : FinishReason → Bool
is_stop stop_token = true
is_stop _ = false

abbrev pub join : List Bytes → Bytes
join [] = []
join (p ∷ ps) = p ++ join ps

pub record Reply : Type 0 where
  pub text : Text
  pub run : Run
  pub raw : Bytes
  pub utf8_complete : Bool
  pub truncated : Bool
  pub memory_enabled : Bool
  pub forward_calls : ℕ

module _ (forward : List ℕ → List Text → Result (List Float))
    (decode_pieces : List ℕ → Result (List Bytes)) (replace : Bytes → Text) where
  abbrev pub reply_of : Bool → Run → Bytes → Option Text → Reply
  reply_of memory_enabled run raw text = record {
    text = elim text [ none ↦ replace raw | some t ↦ t ];
    run = run;
    raw = raw;
    utf8_complete = elim text [ none ↦ false | some t ↦ true ];
    truncated = not (is_stop run.reason);
    memory_enabled = memory_enabled;
    forward_calls = length run.generated;
  }

  unfoldable pub greedy_generate : GenerationInput → List ℕ → ℕ → ℕ → Bool → Result Reply
  greedy_generate request stop_ids limit capacity memory_enabled = do
    require (leb 1 limit) "positive generation limit required"
    require (ltb (length request.prompt_token_ids) capacity) "insufficient context capacity"
    require (not (is_empty stop_ids)) "explicit stop token IDs required"
    run ←
        generate forward (if memory_enabled then request.source_texts else []) stop_ids capacity
          limit request.prompt_token_ids none
    pieces ← decode_pieces run.visible
    ok (reply_of memory_enabled run (join pieces) (decode (join pieces)))
