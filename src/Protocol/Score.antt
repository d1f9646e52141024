-- ===== src/Protocol/Score.antt =====
-- `score_response` of python/neural_memory_protocol.py. The digest of the response's text is a
-- parameter.
pub mod Laws
use bit_net.Contract.{require}
use bit_net.Protocol.Claims.{Claim, claim_eq, AnswerRubric, Adjudication}
use bit_net.Base.{
  ℕ, zero, suc, ◌+◌, ◌-◌, ◌*◌, ◌/◌, ◌%◌, ◌≤◌, ◌<◌, min, String, ◌≡◌, refl, sym, ap, ◌∙◌, ◌≢◌, ◌↔◌,
  ◌⊎◌, inl, inr, Bool, true, false, not, ◌&&◌, ◌||◌, Option, none, some, List, [], ◌∷◌, ◌++◌, map,
  arith, ltb, leb, if◌then◌else◌, Bool-cases, Option-cases, Eq, ◌==◌, eq_iff, nat_eq, text_eq,
  option_eq, length, get_elem?, take, drop, all, any, is_empty, length-append, append_nil,
  append_assoc, take-append-drop, length-take, take-length, take-suc, take-append, drop-append, All,
  Some, all_iff, all-append, elem, distinct, subset, disjoint, elem-append, Error, value_error,
  transport_error, prefix_retokenization_required, unsafe_token, transport_budget_exceeded,
  unicode_encode_error, unicode_decode_error, Result, ok, err, Check, ◌>>=◌, ◌>>◌, guard, or_raise,
  drop_value, each, each_iff, Text, Bytes, lit, has_content, is_sha256, guard-eq-ok, check-eq-ok,
  bind-eq-ok, or_raise-eq-ok, drop_value-eq-ok, bool_ext,
}

pub data Status : Type 0 where
  fail pass needs_review : Status

pub data Reason : Type 0 where
  empty_reply independent_adjudication_required missing_required_claim : Reason
  unsupported_or_misattributed_claim unjustified_certainty not_natural_reply : Reason
  unsolicited_memory_narration : Reason

pub record Score : Type 0 where
  pub status : Status
  pub reasons : List Reason

-- `if condition: reasons.append(reason)`
abbrev pub note : Bool → Reason → List Reason
note condition reason = if condition then reason ∷ [] else []

abbrev pub judge : List Reason → Score
judge reasons = record { status = if is_empty reasons then pass else fail; reasons = reasons }

abbrev pub reasons_of : AnswerRubric → Adjudication → List Reason
reasons_of rubric a =
    note (not (subset rubric.required a.claims)) missing_required_claim
    ++ note (not (subset a.claims rubric.allowed)) unsupported_or_misattributed_claim
    ++ note (rubric.evidence_missing && not a.acknowledges_missing_evidence) unjustified_certainty
    ++ note (not a.natural_reply) not_natural_reply
    ++ note (a.unsolicited_memory_narration && not rubric.memory_narration_allowed)
        unsolicited_memory_narration

module _ (response_hash : Text → Text) where
  unfoldable pub score_response : Text → AnswerRubric → Option Adjudication → Result Score
  score_response text rubric adjudication =
      if not (has_content text)
      then ok (record { status = fail; reasons = empty_reply ∷ [] })
      else elim adjudication [
        | none ↦
            ok (record { status = needs_review; reasons = independent_adjudication_required ∷ [] })
        | some a ↦ do
          require (a.response_sha256 == response_hash text) "review belongs to different response"
          ok (judge (reasons_of rubric a))
      ]
