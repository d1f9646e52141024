-- ===== src/Tests/Bundle.antt =====
-- python/review_neural_memory.py on one case that two reviewers pass.
use bit_net.Base.Dict.{index}
use bit_net.Generation.{Runtime}
use bit_net.Protocol.Claims.{Claim, Adjudication}
use bit_net.Protocol.Score.{pass}
use bit_net.Protocol.Trace.{InferenceTrace, end_to_end}
use bit_net.Bundle.{Prediction, Gold, ReviewRow, CaseResult, score_cases}
use bit_net.Bundle.Laws.{RestsOn}
use bit_net.Bundle.Passes.{score_cases-RestsOn}
use bit_net.Tests.Data.{hash}
use bit_net.Base.{
  ℕ, zero, suc, ◌+◌, ◌-◌, ◌*◌, ◌/◌, ◌%◌, ◌≤◌, ◌<◌, min, String, ◌≡◌, refl, sym, ap, ◌∙◌, ◌≢◌, ◌↔◌,
  ◌⊎◌, inl, inr, Bool, true, false, not, ◌&&◌, ◌||◌, Option, none, some, List, [], ◌∷◌, ◌++◌, map,
  arith, ltb, leb, if◌then◌else◌, Bool-cases, Option-cases, Eq, ◌==◌, eq_iff, nat_eq, text_eq,
  texts_eq, option_eq, length, get_elem?, take, drop, all, any, is_empty, length-append, append_nil,
  append_assoc, take-append-drop, length-take, take-length, take-suc, take-append, drop-append, All,
  Some, all_iff, all-append, elem, distinct, subset, disjoint, elem-append, Error, value_error,
  transport_error, prefix_retokenization_required, unsafe_token, transport_budget_exceeded,
  unicode_encode_error, unicode_decode_error, Result, ok, err, Check, ◌>>=◌, ◌>>◌, guard, or_raise,
  drop_value, each, each_iff, Text, Bytes, lit, has_content, is_sha256, Result-cases, guard-eq-ok,
  check-eq-ok, bind-eq-ok, or_raise-eq-ok, drop_value-eq-ok, bool_ext,
}

abbrev digest_input : Runtime → Text
digest_input r = hash

abbrev response_hash : Text → Text
response_hash text = hash

abbrev packet_id : Runtime → Text → Text
packet_id r text = r.id ++ text

abbrev packet_sha : Runtime → Text → Text
packet_sha r text = hash

abbrev case : Runtime
case = record {
  id = lit "1";
  context = record { role = lit "user"; speaker = lit "user"; text = lit "where?" } ∷ [];
  episodes = [];
}

abbrev claim : Claim
claim = record {
  subject = lit "u";
  relation = lit "city";
  value = lit "Nice";
  time = lit "now";
  status = lit "actual";
}

abbrev gold : Gold
gold = record {
  id = lit "1";
  required_claims = claim ∷ [];
  allowed_claims = claim ∷ [];
  evidence_missing = false;
}

abbrev trace : InferenceTrace
trace = record {
  level = end_to_end;
  backbone_kv_cache_enabled = false;
  cached_tokens = 0;
  reused_tokens = 0;
  label_fields_in_forward = [];
  future_messages_in_forward = [];
  oracle_activation = false;
  supplied_write_boundaries = false;
  source_text_in_prompt = false;
  whole_answer_bypass = false;
  generated_by_decoder = true;
}

abbrev prediction : Prediction
prediction = record {
  id = lit "1";
  text = lit "Nice.";
  input_sha256 = hash;
  producer_id = lit "m";
  trace = trace;
}

abbrev review : Text → ReviewRow
review reviewer = record {
  id = lit "1Nice.";
  packet_sha256 = hash;
  adjudication = record {
    response_sha256 = hash;
    reviewer_id = reviewer;
    claims = claim ∷ [];
    acknowledges_missing_evidence = false;
    natural_reply = true;
    unsolicited_memory_narration = false;
  };
}

abbrev passed : CaseResult
passed = record { id = lit "1"; status = pass; reasons = [] }

abbrev reviewers : List Text
reviewers = lit "a" ∷ lit "b" ∷ []

bundle-scores :
    score_cases digest_input response_hash packet_id packet_sha
      (case ∷ [])
      (gold ∷ [])
      (lit "1" ∷ [])
      (prediction ∷ [])
      (review (lit "a") ∷ review (lit "b") ∷ [])
      reviewers
    ≡ ok (passed ∷ [])
unfolding score_cases bit_net.Bundle.check_bundle bit_net.Bundle.check_keys
    bit_net.Bundle.packets_of bit_net.Base.Dict.index_from bit_net.Bundle.validate_prediction
    bit_net.Protocol.Trace.validate bit_net.Bundle.admit_reviews bit_net.Bundle.admit_review
    bit_net.Protocol.Claims.check_claim has_content bit_net.Protocol.Claims.check_adjudication
    bit_net.Bundle.judge_cases bit_net.Bundle.judge_case bit_net.Protocol.Claims.check_rubric
    bit_net.Bundle.decide bit_net.Bundle.votes_of bit_net.Bundle.same_signature
    bit_net.Protocol.Score.score_response
bundle-scores = refl

score_cases-RestsOn_example :
    All
      (λ c.
        c.status ≡ pass
        → RestsOn digest_input response_hash packet_id packet_sha
            (index (λ p. p.id) (prediction ∷ []))
            (index (λ g. g.id) (gold ∷ []))
            reviewers
            (review (lit "a") ∷ review (lit "b") ∷ [])
            c)
      (passed ∷ [])
    × (length (passed ∷ []) ≡ length (case ∷ []))
score_cases-RestsOn_example =
    score_cases-RestsOn digest_input response_hash packet_id packet_sha (case ∷ []) (gold ∷ [])
      (lit "1" ∷ []) (prediction ∷ []) (review (lit "a") ∷ review (lit "b") ∷ []) reviewers
      bundle-scores
