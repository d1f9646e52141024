-- ===== src/Bundle.antt =====
-- python/review_neural_memory.py: the scoring of a bundle of independent reviews. Digests are
-- parameters.
pub mod Laws
pub mod Votes
pub mod Apart
pub mod Decided
pub mod Passes
use bit_net.Base.Dict.{Dict, lookup, index}
use bit_net.Contract.{require}
use bit_net.Generation.{Runtime}
use bit_net.Protocol.Claims.{
  Claim, claim_eq, check_claim, AnswerRubric, check_rubric, Adjudication, check_adjudication,
}
use bit_net.Protocol.Score.{Status, fail, pass, needs_review, Reason, Score, score_response}
use bit_net.Protocol.Trace
use bit_net.Protocol.Trace.{
  InferenceTrace, EvaluationLevel, oracle_component, predicted_component, end_to_end,
}
use bit_net.Base.{
  ℕ, zero, suc, ◌+◌, ◌-◌, ◌*◌, ◌/◌, ◌%◌, ◌≤◌, ◌<◌, min, String, ◌≡◌, refl, sym, ap, ◌∙◌, ◌≢◌, ◌↔◌,
  ◌⊎◌, inl, inr, Bool, true, false, not, ◌&&◌, ◌||◌, Option, none, some, List, [], ◌∷◌, ◌++◌, map,
  arith, ltb, leb, if◌then◌else◌, Bool-cases, Option-cases, Eq, ◌==◌, eq_iff, nat_eq, text_eq,
  texts_eq, option_eq, length, get_elem?, take, drop, all, any, is_empty, length-append, append_nil,
  append_assoc, take-append-drop, length-take, take-length, take-suc, take-append, drop-append, All,
  Some, all_iff, all-append, elem, distinct, subset, disjoint, elem-append, Error, value_error,
  transport_error, prefix_retokenization_required, unsafe_token, transport_budget_exceeded,
  unicode_encode_error, unicode_decode_error, Result, ok, err, Check, ◌>>=◌, ◌>>◌, guard, or_raise,
  drop_value, each, each_iff, Text, Bytes, lit, has_content, is_sha256, Result-cases, guard-eq-ok,
  check-eq-ok, bind-eq-ok, or_raise-eq-ok, drop_value-eq-ok, bool_ext,
}

pub record Prediction : Type 0 where
  pub id : Text
  pub text : Text
  pub input_sha256 : Text
  pub producer_id : Text
  pub trace : InferenceTrace

pub record Gold : Type 0 where
  pub id : Text
  pub required_claims : List Claim
  pub allowed_claims : List Claim
  pub evidence_missing : Bool

pub record ReviewRow : Type 0 where
  pub id : Text
  pub packet_sha256 : Text
  pub adjudication : Adjudication

pub data CaseReason : Type 0 where
  missing_output two_independent_reviews_required reviewer_disagreement : CaseReason
  scored : Reason → CaseReason

pub record CaseResult : Type 0 where
  pub id : Text
  pub status : Status
  pub reasons : List CaseReason

abbrev pub level_beq : EvaluationLevel → EvaluationLevel → Bool
level_beq oracle_component oracle_component = true
level_beq predicted_component predicted_component = true
level_beq end_to_end end_to_end = true
level_beq _ _ = false

-- `len({f(x) for x in xs}) <= 1`
abbrev pub at_most_one {ℓ} : {A : Type ℓ} → (A → A → Bool) → List A → Bool
at_most_one same [] = true
at_most_one same (x ∷ xs) = all (same x) xs

-- `keyed`, for the identities of the rows.
unfoldable pub check_keys : List Text → Check
check_keys ids =
    require (all (λ i. not (is_empty i)) ids && distinct ids) "invalid or duplicate case ID"

-- Two reviews have the same `review_signature`: the same set of claims, and the same answers.
abbrev pub both : Bool → Bool → Bool
both a b = if a then b else not b

unfoldable pub same_signature : Adjudication → Adjudication → Bool
same_signature a b =
    subset a.claims b.claims
    && subset b.claims a.claims
    && both a.acknowledges_missing_evidence b.acknowledges_missing_evidence
    && both a.natural_reply b.natural_reply
    && both a.unsolicited_memory_narration b.unsolicited_memory_narration

-- A vote: the case, and the review.
pub record Vote : Type 0 where
  pub case_id : Text
  pub review_id : Text
  pub adjudication : Adjudication

-- `identity in identities`
abbrev pub has_voted : Text → Text → List Vote → Bool
has_voted review_id reviewer votes =
    any (λ v. v.review_id == review_id && v.adjudication.reviewer_id == reviewer) votes

-- `grouped[case_id]`
unfoldable pub votes_of : Text → List Vote → List Adjudication
votes_of case_id [] = []
votes_of case_id (v ∷ vs) =
    if v.case_id == case_id then v.adjudication ∷ votes_of case_id vs else votes_of case_id vs

module _ (digest_input : Runtime → Text) (response_hash : Text → Text)
    (packet_id : Runtime → Text → Text) (packet_sha : Runtime → Text → Text) where
  -- `validate_prediction`
  unfoldable pub validate_prediction : Prediction → Runtime → Check
  validate_prediction p runtime = do
    require (p.input_sha256 == digest_input runtime) "prediction belongs to different input"
    require (not (is_empty p.producer_id)) "invalid prediction"
    Trace.validate p.trace true

  -- `{blind_packet(runtime[cid], p)["id"]: cid for …}`, as pairs.
  unfoldable pub packets_of : Dict Text Runtime → List Prediction → Result (List (Text × Text))
  packets_of runtimes [] = ok []
  packets_of runtimes (p ∷ ps) = do
    runtime ← or_raise (lookup p.id runtimes) (value_error "unknown prediction ID")
    validate_prediction p runtime
    rest ← packets_of runtimes ps
    ok ((packet_id runtime p.text, p.id) ∷ rest)

  -- One turn of the loop over the reviews, given the votes so far.
  unfoldable pub admit_review :
      Dict Text (Text × Text)
      → Dict Text Runtime
      → Dict Text Prediction
      → List Text
      → List Vote
      → ReviewRow
      → Result Vote
  admit_review packets runtimes outputs reviewers votes row = do
    found ← or_raise (lookup row.id packets) (value_error "unknown review or invalid review schema")
    each check_claim row.adjudication.claims
    check_adjudication row.adjudication
    require (not (has_voted row.id row.adjudication.reviewer_id votes)) "duplicate reviewer vote"
    prediction ← or_raise (lookup found.1 outputs) (value_error "KeyError")
    require
        (elem row.adjudication.reviewer_id reviewers
          && not (row.adjudication.reviewer_id == prediction.producer_id))
        "unregistered reviewer or self-review"
    runtime ← or_raise (lookup found.1 runtimes) (value_error "KeyError")
    validate_prediction prediction runtime
    require
        (row.packet_sha256 == packet_sha runtime prediction.text
          && row.adjudication.response_sha256 == response_hash prediction.text)
        "review belongs to different context/response"
    ok (record { case_id = found.1; review_id = row.id; adjudication = row.adjudication })

  unfoldable pub admit_reviews :
      Dict Text (Text × Text)
      → Dict Text Runtime
      → Dict Text Prediction
      → List Text
      → List Vote
      → List ReviewRow
      → Result (List Vote)
  admit_reviews packets runtimes outputs reviewers votes [] = ok votes
  admit_reviews packets runtimes outputs reviewers votes (row ∷ rows) = do
    vote ← admit_review packets runtimes outputs reviewers votes row
    admit_reviews packets runtimes outputs reviewers (votes ++ vote ∷ []) rows

  abbrev pub rubric_of : Gold → AnswerRubric
  rubric_of label = record {
    required = label.required_claims;
    allowed = label.allowed_claims;
    evidence_missing = label.evidence_missing;
    memory_narration_allowed = false;
  }

  abbrev pub result_of : Text → Score → CaseResult
  result_of id score = record { id = id; status = score.status; reasons = map scored score.reasons }

  abbrev pub unreviewed : Text → CaseReason → CaseResult
  unreviewed id reason = record { id = id; status = needs_review; reasons = reason ∷ [] }

  -- What two votes or more say of a reply.
  unfoldable pub decide : Text → Text → AnswerRubric → List Adjudication → Result CaseResult
  decide id text rubric (a ∷ b ∷ votes) =
      if all (same_signature a) (b ∷ votes)
      then (score_response response_hash text rubric (some a) >>= λ score. ok (result_of id score))
      else ok (unreviewed id reviewer_disagreement)
  decide id text rubric votes = ok (unreviewed id two_independent_reviews_required)

  -- The body of the loop over the cases.
  unfoldable pub judge_case :
      Dict Text Prediction → Dict Text Gold → List Vote → Runtime → Result CaseResult
  judge_case outputs gold votes runtime = elim (lookup runtime.id outputs) [
    | none ↦ ok (unreviewed runtime.id missing_output)
    | some prediction ↦ do
      validate_prediction prediction runtime
      label ← or_raise (lookup runtime.id gold) (value_error "KeyError")
      each check_claim (label.required_claims ++ label.allowed_claims)
      check_rubric (rubric_of label)
      if not (has_content prediction.text)
          then (score_response response_hash prediction.text (rubric_of label) none >>= λ score.
              ok (result_of runtime.id score))
          else decide runtime.id prediction.text (rubric_of label) (votes_of runtime.id votes)
  ]

  unfoldable pub judge_cases :
      Dict Text Prediction → Dict Text Gold → List Vote → List Runtime → Result (List CaseResult)
  judge_cases outputs gold votes [] = ok []
  judge_cases outputs gold votes (r ∷ rs) = do
    result ← judge_case outputs gold votes r
    results ← judge_cases outputs gold votes rs
    ok (result ∷ results)

  -- The checks in front.
  unfoldable pub check_bundle :
      List Runtime → List Gold → List Text → List Prediction → List Text → Check
  check_bundle inputs labels meta_ids predictions reviewers = do
    check_keys (map (λ r. r.id) inputs)
    check_keys (map (λ g. g.id) labels)
    check_keys meta_ids
    check_keys (map (λ p. p.id) predictions)
    require
        (not (is_empty inputs)
          && (subset (map (λ r. r.id) inputs) (map (λ g. g.id) labels)
              && subset (map (λ g. g.id) labels) (map (λ r. r.id) inputs))
          && (subset (map (λ r. r.id) inputs) meta_ids && subset meta_ids (map (λ r. r.id) inputs)))
        "empty or mismatched corpus"
    require (subset (map (λ p. p.id) predictions) (map (λ r. r.id) inputs)) "unknown prediction ID"
    require
        (at_most_one (λ a b. level_beq a.trace.level b.trace.level) predictions
          && at_most_one (λ a b. a.producer_id == b.producer_id) predictions)
        "do not mix evaluation levels or model producers"
    require (not (at_most_one (λ a b. a == b) reviewers) && all (λ r. not (is_empty r)) reviewers)
        "register at least two independent reviewers"

  -- `score_bundle`, up to its cases.
  unfoldable pub score_cases :
      List Runtime
      → List Gold
      → List Text
      → List Prediction
      → List ReviewRow
      → List Text
      → Result (List CaseResult)
  score_cases inputs labels meta_ids predictions reviews reviewers = do
    check_bundle inputs labels meta_ids predictions reviewers
    packets ← packets_of (index (λ r. r.id) inputs) predictions
    votes ←
        admit_reviews (index (λ p. p.0) packets) (index (λ r. r.id) inputs)
          (index (λ p. p.id) predictions) reviewers [] reviews
    judge_cases (index (λ p. p.id) predictions) (index (λ g. g.id) labels) votes inputs
