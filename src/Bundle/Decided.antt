-- ===== src/Bundle/Decided.antt =====
-- A case that the votes of python/review_neural_memory.py decide.
use mathlib.Core.Path.{subst}
use bit_net.Base.Dict.{Dict, lookup}
use bit_net.Generation.{Runtime}
use bit_net.Protocol.Claims.{AnswerRubric, Adjudication}
use bit_net.Protocol.Score.{
  fail, pass, needs_review, Reason, Score, score_response, judge, reasons_of,
}
use bit_net.Protocol.Score.Laws.{Deserves, score_response-pass_iff}
use bit_net.Bundle.{
  Prediction, Gold, ReviewRow, rubric_of, CaseResult, same_signature, result_of, decide,
}
use bit_net.Bundle.Laws.{IsBound, RestsOn}
use bit_net.Base.{
  distinct, map, ◌≡◌, refl, sym, ap, ◌∙◌, ◌≢◌, inl, inr, true, false, none, some, List, [], ◌∷◌,
  arith, Bool-cases, ◌==◌, nat_eq, text_eq, texts_eq, option_eq, all, All, ok, Text, has_content,
  Result-cases,
}

pub pass-ne-needs_review : needs_review ≢ pass
pass-ne-needs_review e = cc

pub pass-ne-fail : fail ≢ pass
pass-ne-fail e = cc

judge-cases :
    (reasons : List Reason)
    → (judge reasons).status ≡ pass
    → judge reasons ≡ record { status = pass; reasons = [] }
judge-cases [] h = refl
judge-cases (r ∷ reasons) h = absurd (pass-ne-fail h)

module _ (digest_input : Runtime → Text) (response_hash : Text → Text)
    (packet_id : Runtime → Text → Text) (packet_sha : Runtime → Text → Text) where
  -- A blank reply fails.
  pub blank-score :
      (text : Text) (rubric : AnswerRubric) {score : Score}
      → has_content text ≡ false
      → score_response response_hash text rubric none ≡ ok score
      → fail ≡ score.status
  unfolding score_response
  blank-score text rubric {score} blank h = ground arith

  passed-score :
      (text : Text) (rubric : AnswerRubric) (a : Adjudication) {score : Score}
      → has_content text ≡ true
      → score_response response_hash text rubric (some a) ≡ ok score
      → score.status ≡ pass
      → score_response response_hash text rubric (some a)
        ≡ ok (record { status = pass; reasons = [] })
  unfolding score_response
  passed-score text rubric a {score} given h e =
      let made : judge (reasons_of rubric a) ≡ score = ground arith in
      let bound : (a.response_sha256 == response_hash text) ≡ true = ground arith in
      let clean = judge-cases (reasons_of rubric a) (ap (λ (x : Score). x.status) made ∙ e) in
      rw (given, bound) (ap ok clean)

  passed-Deserves :
      (text : Text) (rubric : AnswerRubric) (a : Adjudication) {score : Score}
      → has_content text ≡ true
      → score_response response_hash text rubric (some a) ≡ ok score
      → score.status ≡ pass
      → Deserves (response_hash text) rubric a
  passed-Deserves text rubric a given h e =
      let (_, (b, same, deserved)) =
        (score_response-pass_iff response_hash text rubric (some a)).0
          (passed-score text rubric a given h e) in
      subst (Deserves (response_hash text) rubric) (some_injective b a (sym same)) deserved
    where
      some_injective : (x y : Adjudication) → some x ≡ some y → x ≡ y
      some_injective x y e = ground arith

  pub decide-RestsOn :
      (outputs : Dict Text Prediction) (gold : Dict Text Gold) (reviewers : List Text)
      (reviews : List ReviewRow) (id : Text) (p : Prediction) (label : Gold)
      (votes : List Adjudication) {c : CaseResult}
      → lookup id outputs ≡ some p
      → lookup id gold ≡ some label
      → has_content p.text ≡ true
      → All (IsBound digest_input response_hash packet_id packet_sha reviewers reviews p) votes
      → distinct (map (λ (a : Adjudication). a.reviewer_id) votes) ≡ true
      → decide digest_input response_hash packet_id packet_sha id p.text
          (rubric_of digest_input response_hash packet_id packet_sha label)
          votes
        ≡ ok c
      → c.status ≡ pass
      → RestsOn digest_input response_hash packet_id packet_sha outputs gold reviewers reviews c
  unfolding decide
  decide-RestsOn outputs gold reviewers reviews id p label [] {c} found labelled given good apart h
        e =
      absurd (pass-ne-needs_review (ground arith))
  decide-RestsOn outputs gold reviewers reviews id p label (a ∷ []) {c} found labelled given good
        apart h e =
      absurd (pass-ne-needs_review (ground arith))
  decide-RestsOn outputs gold reviewers reviews id p label (a ∷ b ∷ votes) {c} found labelled given
        good apart h e =
      elim (Bool-cases (all (same_signature a) (b ∷ votes))) [
        | inr differ ↦ absurd (pass-ne-needs_review (ground arith))
        | inl agree ↦
            elim (Result-cases (
              score_response response_hash p.text
                (rubric_of digest_input response_hash packet_id packet_sha label) (some a))) [
                  | inr (x, k) ↦ absurd (ground arith)
                  | inl (score, k) ↦
                      let made : result_of digest_input response_hash packet_id packet_sha id score
                          ≡ c =
                        ground arith in
                      record {
                        prediction = p;
                        found = ap (λ (x : CaseResult). lookup x.id outputs) (sym made) ∙ found;
                        label = label;
                        labelled = ap (λ (x : CaseResult). lookup x.id gold) (sym made) ∙ labelled;
                        first = a;
                        second = b;
                        others = votes;
                        bound = good;
                        apart = apart;
                        agree = agree;
                        deserved =
                            passed-Deserves p.text
                              (rubric_of digest_input response_hash packet_id packet_sha label) a
                              given k (ap (λ (x : CaseResult). x.status) made ∙ e);
                      }
                ]
      ]
