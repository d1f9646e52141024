-- ===== src/Tests/Reply.antt =====
-- python/neural_memory_protocol.py and python/neural_memory_generation.py on short replies.
use bit_net.Protocol.Claims.{Claim, claim_eq, AnswerRubric, Adjudication}
use bit_net.Protocol.Score.{score_response, pass}
use bit_net.Protocol.Score.Laws.{Deserves, score_response-pass_iff, score_response-same_claims}
use bit_net.Protocol.Trace.{InferenceTrace, end_to_end, validate, validate_end_to_end}
use bit_net.Generation.{
  Turn, Runtime, gguf_chatml_v2, generation_prompt, render_turn, render_turns, system_turn, suffix,
}
use bit_net.Generation.Laws.{generation_prompt-episodes, generation_prompt-injective}
use bit_net.Tests.Data.{hash}
use bit_net.Base.Floats.{Float, finite}
use bit_net.Generation.{GenerationInput}
use bit_net.Generation.Greedy.{stop_token, Reply, greedy_generate}
use bit_net.Generation.Greedy.Laws.{IsReply, greedy_generate-IsReply}
use bit_net.Base.{
  ℕ, zero, suc, ◌+◌, ◌-◌, ◌*◌, ◌/◌, ◌%◌, ◌≤◌, ◌<◌, min, String, ◌≡◌, refl, sym, ap, ◌∙◌, ◌≢◌, ◌↔◌,
  ◌⊎◌, inl, inr, Bool, true, false, not, ◌&&◌, ◌||◌, Option, none, some, List, [], ◌∷◌, ◌++◌, map,
  arith, ltb, leb, if◌then◌else◌, Bool-cases, Option-cases, Eq, ◌==◌, eq_iff, nat_eq, text_eq,
  texts_eq, option_eq, length, get_elem?, take, drop, all, any, is_empty, length-append, append_nil,
  append_assoc, take-append-drop, length-take, take-length, take-suc, take-append, drop-append, All,
  Some, all_iff, all-append, elem, distinct, subset, disjoint, elem-append, Error, value_error,
  transport_error, prefix_retokenization_required, unsafe_token, transport_budget_exceeded,
  unicode_encode_error, unicode_decode_error, Result, ok, err, Check, ◌>>=◌, ◌>>◌, guard, or_raise,
  drop_value, each, each_iff, Text, Bytes, lit, has_content, is_sha256, Result-cases, guard-eq-ok,
  check-eq-ok, bind-eq-ok, or_raise-eq-ok, drop_value-eq-ok, bool_ext,
}

abbrev claim : Claim
claim = record {
  subject = lit "u";
  relation = lit "city";
  value = lit "Nice";
  time = lit "now";
  status = lit "actual";
}

abbrev rubric : AnswerRubric
rubric = record {
  required = claim ∷ [];
  allowed = claim ∷ [];
  evidence_missing = false;
  memory_narration_allowed = false;
}

abbrev review : Adjudication
review = record {
  response_sha256 = hash;
  reviewer_id = lit "x";
  claims = claim ∷ [];
  acknowledges_missing_evidence = false;
  natural_reply = true;
  unsolicited_memory_narration = false;
}

abbrev response_hash : Text → Text
response_hash text = hash

score_response-pass_iff_example :
    (score_response response_hash (lit "Nice.") rubric (some review)
      ≡ ok (record { status = pass; reasons = [] }))
    ↔ ((has_content (lit "Nice.") ≡ true)
        × ((a : Adjudication) × (some review ≡ some a) × Deserves hash rubric a))
score_response-pass_iff_example =
    score_response-pass_iff response_hash (lit "Nice.") rubric (some review)

twice-elem : (c : Claim) → elem c (claim ∷ []) ≡ elem c (claim ∷ claim ∷ [])
twice-elem c = ground arith

score_response-same_claims_example :
    score_response response_hash (lit "Nice.") rubric (some review)
    ≡ score_response response_hash
        (lit "Nice.")
        rubric
        (some (record review { claims = claim ∷ claim ∷ [] }))
score_response-same_claims_example =
    score_response-same_claims response_hash (lit "Nice.") rubric review (claim ∷ claim ∷ [])
      twice-elem

abbrev trace : InferenceTrace
trace = record {
  level = end_to_end;
  backbone_kv_cache_enabled = false;
  cached_tokens = 0;
  reused_tokens = 0;
  label_fields_in_forward = [];
  future_messages_in_forward = [];
  oracle_activation = false;
  supplied_write_boundaries = false;
  source_text_in_prompt = false;
  whole_answer_bypass = false;
  generated_by_decoder = true;
}

trace-validates : validate trace true ≡ ok tt
unfolding validate
trace-validates = refl

validate_end_to_end_example :
    (trace.cached_tokens ≡ 0)
    × (trace.reused_tokens ≡ 0)
    × (trace.backbone_kv_cache_enabled ≡ false)
    × (trace.label_fields_in_forward ≡ [])
    × (trace.future_messages_in_forward ≡ [])
    × (trace.oracle_activation ≡ false)
    × (trace.supplied_write_boundaries ≡ false)
    × (trace.source_text_in_prompt ≡ false)
    × (trace.whole_answer_bypass ≡ false)
    × (trace.generated_by_decoder ≡ true)
validate_end_to_end_example = validate_end_to_end trace refl trace-validates

abbrev says : Text → Turn
says text = record { role = lit "user"; speaker = lit "user"; text = text }

abbrev alone : Runtime
alone = record { id = lit "1"; context = says (lit "where?") ∷ []; episodes = [] }

abbrev remembered : Runtime
remembered = record alone { episodes = says (lit "I live in Nice") ∷ [] }

abbrev the_prompt : Text
the_prompt =
    render_turn system_turn ++ (render_turns (says (lit "where?") ∷ []) ++ suffix gguf_chatml_v2)

alone-prompt : generation_prompt gguf_chatml_v2 alone ≡ ok the_prompt
unfolding generation_prompt bit_net.Generation.validate_input has_content
alone-prompt = refl

remembered-prompt : generation_prompt gguf_chatml_v2 remembered ≡ ok the_prompt
unfolding generation_prompt bit_net.Generation.validate_input has_content
remembered-prompt = refl

generation_prompt-episodes_example : the_prompt ≡ the_prompt
generation_prompt-episodes_example =
    generation_prompt-episodes gguf_chatml_v2 alone remembered refl alone-prompt remembered-prompt

generation_prompt-injective_example : alone.context ≡ remembered.context
generation_prompt-injective_example =
    generation_prompt-injective gguf_chatml_v2 alone remembered alone-prompt remembered-prompt

-- A model that says `b`, then `c`, then stops.
abbrev one : ℕ → Float
one n = finite false n 0

abbrev forward : List ℕ → List Text → Result (List Float)
forward prefix sources = ok (elim (length prefix) [
  | zero ↦ one 0 ∷ one 0 ∷ one 0 ∷ one 0 ∷ []
  | suc zero ↦ one 0 ∷ one 1 ∷ one 3 ∷ one 2 ∷ []
  | suc (suc zero) ↦ one 0 ∷ one 1 ∷ one 1 ∷ one 2 ∷ []
  | suc (suc (suc n)) ↦ one 7 ∷ one 1 ∷ one 1 ∷ one 2 ∷ []
])

abbrev pieces_of : List ℕ → Result (List Bytes)
pieces_of ids = ok (map (λ token. (token + b'`') ∷ []) ids)

abbrev replace_none : Bytes → Text
replace_none raw = []

abbrev request : GenerationInput
request = record { prompt_token_ids = 1 ∷ []; source_texts = [] }

abbrev the_reply : Reply
the_reply = record {
  text = lit "bc";
  run = record { generated = 2 ∷ 3 ∷ 0 ∷ []; visible = 2 ∷ 3 ∷ []; reason = stop_token };
  raw = lit "bc";
  utf8_complete = true;
  truncated = false;
  memory_enabled = true;
  forward_calls = 3;
}

replies : greedy_generate forward pieces_of replace_none request (0 ∷ []) 5 9 true ≡ ok the_reply
unfolding greedy_generate bit_net.Generation.Greedy.generate bit_net.Generation.Greedy.next_token
    bit_net.Generation.Greedy.argmax_from bit_net.Generation.Greedy.float_lt
    bit_net.Base.Utf8.decode
replies = refl

greedy_generate-IsReply_example :
    IsReply forward pieces_of replace_none request (0 ∷ []) 5 9 true the_reply
greedy_generate-IsReply_example =
    greedy_generate-IsReply forward pieces_of replace_none request (0 ∷ []) 5 9 true replies
