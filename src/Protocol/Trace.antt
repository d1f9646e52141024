-- ===== src/Protocol/Trace.antt =====
-- `EvaluationLevel` and `InferenceTrace` of python/neural_memory_protocol.py.
use bit_net.Contract.{require}
use bit_net.Base.{
  ℕ, ◌≡◌, Bool, true, false, not, ◌&&◌, ◌||◌, List, [], ◌∷◌, arith, if◌then◌else◌, ◌==◌, nat_eq,
  text_eq, option_eq, is_empty, ok, Check, ◌>>◌, each, Text,
}

pub data EvaluationLevel : Type 0 where
  oracle_component predicted_component end_to_end : EvaluationLevel

pub record InferenceTrace : Type 0 where
  pub level : EvaluationLevel
  pub backbone_kv_cache_enabled : Bool
  pub cached_tokens : ℕ
  pub reused_tokens : ℕ
  pub label_fields_in_forward : List Text
  pub future_messages_in_forward : List Text
  pub oracle_activation : Bool
  pub supplied_write_boundaries : Bool
  pub source_text_in_prompt : Bool
  pub whole_answer_bypass : Bool
  pub generated_by_decoder : Bool

abbrev pub is_oracle : EvaluationLevel → Bool
is_oracle oracle_component = true
is_oracle _ = false

abbrev pub check_end_to_end : EvaluationLevel → Bool → Check
check_end_to_end end_to_end supplied =
    require (not supplied) "supplied writes are not automatic memory"
check_end_to_end _ supplied = ok tt

-- `validate(generation_required=…)`
unfoldable pub validate : InferenceTrace → Bool → Check
validate t generation_required = do
  each (λ count. require (count == 0) "KV reuse invalidates memory measurement")
      (t.cached_tokens ∷ t.reused_tokens ∷ [])
  require (not t.backbone_kv_cache_enabled) "backbone KV cache forbidden"
  require (is_empty t.label_fields_in_forward && is_empty t.future_messages_in_forward)
      "label/future leakage"
  require (not t.source_text_in_prompt && not t.whole_answer_bypass)
      "retrieval/answer bypass forbidden"
  require (not t.oracle_activation || is_oracle t.level) "unreported oracle routing"
  check_end_to_end t.level t.supplied_write_boundaries
  if generation_required
      then require t.generated_by_decoder "generation evidence required"
      else ok tt

-- An end-to-end measurement that is accepted as evidence of generation used no cache, no label, no
-- future message, no oracle routing, no supplied write boundary, no source text in the prompt and no
-- answer bypass, and its answer came from the decoder.
pub validate_end_to_end :
    (t : InferenceTrace)
    → t.level ≡ end_to_end
    → validate t true ≡ ok tt
    → (t.cached_tokens ≡ 0)
      × (t.reused_tokens ≡ 0)
      × (t.backbone_kv_cache_enabled ≡ false)
      × (t.label_fields_in_forward ≡ [])
      × (t.future_messages_in_forward ≡ [])
      × (t.oracle_activation ≡ false)
      × (t.supplied_write_boundaries ≡ false)
      × (t.source_text_in_prompt ≡ false)
      × (t.whole_answer_bypass ≡ false)
      × (t.generated_by_decoder ≡ true)
unfolding validate
validate_end_to_end t level h = ground arith
