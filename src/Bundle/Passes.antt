-- ===== src/Bundle/Passes.antt =====
-- Every pass in python/review_neural_memory.py rests on two reviews or more.
use mathlib.Core.Path.{subst}
use bit_net.Base.Dict.{Dict, lookup, index}
use bit_net.Generation.{Runtime}
use bit_net.Protocol.Claims.{Adjudication, check_claim, check_rubric}
use bit_net.Protocol.Score.{pass, score_response}
use bit_net.Bundle.{
  Prediction, Gold, ReviewRow, CaseResult, Vote, votes_of, validate_prediction, packets_of,
  admit_reviews, rubric_of, result_of, judge_case, judge_cases, check_bundle, score_cases,
}
use bit_net.Bundle.Laws.{IsVote, RestsOn, all-submitted, admit_reviews-All, votes_of-IsBound}
use bit_net.Base.{
  true, distinct, map, sym, suc, ◌≡◌, refl, ap, ◌∙◌, inl, inr, none, List, [], ◌∷◌, ◌++◌, arith,
  Bool-cases, Option-cases, nat_eq, text_eq, texts_eq, option_eq, length, All, ok, each, Text,
  has_content, Result-cases, check-eq-ok, bind-eq-ok,
}
use bit_net.Bundle.Apart.{packets_of-cases, check_bundle-distinct, admit_reviews-IsApart}
use bit_net.Bundle.Votes.{votes_of-distinct}
use bit_net.Bundle.Decided.{pass-ne-needs_review, pass-ne-fail, blank-score, decide-RestsOn}

module _ (digest_input : Runtime → Text) (response_hash : Text → Text)
    (packet_id : Runtime → Text → Text) (packet_sha : Runtime → Text → Text) where
  judge_case-RestsOn :
      (outputs : Dict Text Prediction) (gold : Dict Text Gold) (reviewers : List Text)
      (reviews : List ReviewRow) (votes : List Vote) (r : Runtime) {c : CaseResult}
      → All (IsVote digest_input response_hash packet_id packet_sha outputs reviewers reviews) votes
      → ((id : Text)
          → distinct (map (λ (a : Adjudication). a.reviewer_id) (votes_of id votes)) ≡ true)
      → judge_case digest_input response_hash packet_id packet_sha outputs gold votes r ≡ ok c
      → c.status ≡ pass
      → RestsOn digest_input response_hash packet_id packet_sha outputs gold reviewers reviews c
  unfolding judge_case
  judge_case-RestsOn outputs gold reviewers reviews votes r {c} good apart h e =
      elim (Option-cases (lookup r.id outputs)) [
        | inl missing ↦ absurd (pass-ne-needs_review (ground arith))
        | inr (p, found) ↦ elim (Option-cases (lookup r.id gold)) [
          | inl k ↦ absurd (
              ground (
                arith,
                Result-cases
                    (validate_prediction digest_input response_hash packet_id packet_sha p r),
              ))
          | inr (label, k) ↦ elim (Bool-cases (has_content p.text)) [
            | inl given ↦
                decide-RestsOn digest_input response_hash packet_id packet_sha outputs gold
                  reviewers reviews r.id p label (votes_of r.id votes) found k given
                  (votes_of-IsBound digest_input response_hash packet_id packet_sha outputs
                    reviewers reviews r.id p votes found good)
                  (apart r.id)
                  (ground (
                    arith,
                    Result-cases
                        (validate_prediction digest_input response_hash packet_id packet_sha p r),
                    Result-cases (each check_claim (label.required_claims ++ label.allowed_claims)),
                    Result-cases (
                        check_rubric
                          (rubric_of digest_input response_hash packet_id packet_sha label)),
                  ))
                  e
            | inr blank ↦
                elim (Result-cases (
                  score_response response_hash p.text
                    (rubric_of digest_input response_hash packet_id packet_sha label) none)) [
                      | inr (x, j) ↦ absurd (
                          ground (
                            arith,
                            Result-cases (
                                validate_prediction digest_input response_hash packet_id packet_sha
                                  p r),
                            Result-cases
                                (each check_claim (label.required_claims ++ label.allowed_claims)),
                            Result-cases (
                                check_rubric (
                                  rubric_of digest_input response_hash packet_id packet_sha label)),
                          ))
                      | inl (score, j) ↦
                          let made : result_of digest_input response_hash packet_id packet_sha r.id
                                score
                              ≡ c =
                            ground (
                              arith,
                              Result-cases (
                                  validate_prediction digest_input response_hash packet_id
                                    packet_sha p r),
                              Result-cases (
                                  each check_claim (label.required_claims ++ label.allowed_claims)),
                              Result-cases (
                                  check_rubric (
                                    rubric_of digest_input response_hash packet_id packet_sha
                                      label)),
                            ) in
                          absurd (
                            pass-ne-fail (
                              blank-score digest_input response_hash packet_id packet_sha p.text
                                (rubric_of digest_input response_hash packet_id packet_sha label)
                                blank j
                              ∙ ap (λ (x : CaseResult). x.status) made
                              ∙ e))
                    ]
          ]
        ]
      ]

  judge_cases-All :
      (outputs : Dict Text Prediction) (gold : Dict Text Gold) (reviewers : List Text)
      (reviews : List ReviewRow) (votes : List Vote) (rs : List Runtime) {cs : List CaseResult}
      → All (IsVote digest_input response_hash packet_id packet_sha outputs reviewers reviews) votes
      → ((id : Text)
          → distinct (map (λ (a : Adjudication). a.reviewer_id) (votes_of id votes)) ≡ true)
      → judge_cases digest_input response_hash packet_id packet_sha outputs gold votes rs ≡ ok cs
      → All
          (λ c.
            c.status ≡ pass
            → RestsOn digest_input response_hash packet_id packet_sha outputs gold reviewers reviews
                c)
          cs
        × (length cs ≡ length rs)
  unfolding judge_cases
  judge_cases-All outputs gold reviewers reviews votes [] {cs} good apart h =
      subst
        (λ x.
          All
            (λ c.
              c.status ≡ pass
              → RestsOn digest_input response_hash packet_id packet_sha outputs gold reviewers
                  reviews c)
            x
          × (length x ≡ 0))
        (ok_injective [] cs h) (tt, refl)
    where
      ok_injective : (x y : List CaseResult) → ok x ≡ ok y → x ≡ y
      ok_injective x y e = ground arith
  judge_cases-All outputs gold reviewers reviews votes (r ∷ rs) {cs} good apart h =
      let (c, first, more) =
        bind-eq-ok (judge_case digest_input response_hash packet_id packet_sha outputs gold votes r)
          _ h in
      let (rest, others, made) =
        bind-eq-ok
          (judge_cases digest_input response_hash packet_id packet_sha outputs gold votes rs) _
          more in
      let (backed, size) =
        judge_cases-All outputs gold reviewers reviews votes rs good apart others in
      subst
        (λ x.
          All
            (λ d.
              d.status ≡ pass
              → RestsOn digest_input response_hash packet_id packet_sha outputs gold reviewers
                  reviews d)
            x
          × (length x ≡ suc (length rs)))
        (ok_injective (c ∷ rest) cs made)
        (
          (judge_case-RestsOn outputs gold reviewers reviews votes r good apart first, backed),
          ap suc size,
        )
    where
      ok_injective : (x y : List CaseResult) → ok x ≡ ok y → x ≡ y
      ok_injective x y e = ground arith

  -- A scored bundle has a result for every case, and a case that passes has a prediction and two
  -- submitted reviews or more of it, all of the same claims and answers, each by another
  -- registered reviewer who did not produce it and bound to its text, and the first is one by
  -- which the text deserves to pass under the gold label of the case.
  pub score_cases-RestsOn :
      (inputs : List Runtime) (labels : List Gold) (meta_ids : List Text)
      (predictions : List Prediction) (reviews : List ReviewRow) (reviewers : List Text)
      {cs : List CaseResult}
      → score_cases digest_input response_hash packet_id packet_sha inputs labels meta_ids
          predictions reviews reviewers
        ≡ ok cs
      → All
          (λ c.
            c.status ≡ pass
            → RestsOn digest_input response_hash packet_id packet_sha
                (index (λ p. p.id) predictions)
                (index (λ g. g.id) labels)
                reviewers
                reviews
                c)
          cs
        × (length cs ≡ length inputs)
  unfolding score_cases
  score_cases-RestsOn inputs labels meta_ids predictions reviews reviewers {cs} h =
      let (checked, h1) =
        check-eq-ok
          (check_bundle digest_input response_hash packet_id packet_sha inputs labels meta_ids
            predictions reviewers)
          _ h in
      let (packets, packed, h2) =
        bind-eq-ok
          (packets_of digest_input response_hash packet_id packet_sha
            (index (λ (r : Runtime). r.id) inputs) predictions)
          _ h1 in
      let (votes, admitted, h3) =
        bind-eq-ok
          (admit_reviews digest_input response_hash packet_id packet_sha
            (index (λ (p : Text × Text). p.0) packets) (index (λ (r : Runtime). r.id) inputs)
            (index (λ (p : Prediction). p.id) predictions) reviewers [] reviews)
          _ h2 in
      let once =
        ap distinct (
          sym (
            packets_of-cases digest_input response_hash packet_id packet_sha
              (index (λ (r : Runtime). r.id) inputs) predictions packets packed))
        ∙ check_bundle-distinct digest_input response_hash packet_id packet_sha inputs labels
            meta_ids predictions reviewers checked in
      let (has, apart) =
        admit_reviews-IsApart digest_input response_hash packet_id packet_sha packets
          (index (λ (r : Runtime). r.id) inputs) (index (λ (p : Prediction). p.id) predictions)
          reviewers [] reviews tt tt admitted in
      judge_cases-All (index (λ (p : Prediction). p.id) predictions)
        (index (λ (g : Gold). g.id) labels) reviewers reviews votes inputs
        (admit_reviews-All digest_input response_hash packet_id packet_sha
          (index (λ (p : Text × Text). p.0) packets) (index (λ (r : Runtime). r.id) inputs)
          (index (λ (p : Prediction). p.id) predictions) reviewers reviews [] reviews
          (all-submitted digest_input response_hash packet_id packet_sha reviews reviews
            (λ row m. m))
          tt admitted)
        (λ id. votes_of-distinct packets id votes once has apart) h3
