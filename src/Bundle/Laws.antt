-- ===== src/Bundle/Laws.antt =====
-- What a pass in python/review_neural_memory.py rests on.
use mathlib.Core.Path.{subst}
use bit_net.Base.Dict.{Dict, lookup}
use bit_net.Generation.{Runtime}
use bit_net.Protocol.Claims.{Adjudication, check_claim, check_adjudication}
use bit_net.Protocol.Score.Laws.{Deserves}
use bit_net.Bundle.{
  Prediction, Gold, ReviewRow, CaseResult, Vote, votes_of, same_signature, validate_prediction,
  admit_review, admit_reviews,
}
use bit_net.Bundle.Votes.{All-snoc}
use bit_net.Base.{
  distinct, map, ◌≡◌, refl, sym, Some, ap, ◌∙◌, inl, inr, true, false, some, List, [], ◌∷◌, ◌++◌,
  arith, Bool-cases, Option-cases, ◌==◌, eq_iff, nat_eq, text_eq, texts_eq, option_eq, all, All,
  elem, ok, each, Text, Result-cases, bind-eq-ok,
}

module _ (digest_input : Runtime → Text) (response_hash : Text → Text)
    (packet_id : Runtime → Text → Text) (packet_sha : Runtime → Text → Text) where
  -- A submitted review of a prediction by a registered reviewer who did not produce it, bound to its
  -- text.
  pub record IsBound (reviewers : List Text) (reviews : List ReviewRow) (p : Prediction)
      (a : Adjudication) : Type 0 where
    pub submitted : Some (λ (row : ReviewRow). row.adjudication ≡ a) reviews
    pub registered : elem a.reviewer_id reviewers ≡ true
    pub not_self : (a.reviewer_id == p.producer_id) ≡ false
    pub same_response : a.response_sha256 ≡ response_hash p.text

  abbrev pub IsVote : Dict Text Prediction → List Text → List ReviewRow → Vote → Type 0
  IsVote outputs reviewers reviews v =
      (p : Prediction) × (lookup v.case_id outputs ≡ some p)
      × IsBound reviewers reviews p v.adjudication

  admit_review-IsVote :
      (packets : Dict Text (Text × Text)) (runtimes : Dict Text Runtime)
      (outputs : Dict Text Prediction) (reviewers : List Text) (reviews : List ReviewRow)
      (votes : List Vote) (row : ReviewRow) {v : Vote}
      → Some (λ (x : ReviewRow). x.adjudication ≡ row.adjudication) reviews
      → admit_review digest_input response_hash packet_id packet_sha packets runtimes outputs
          reviewers votes row
        ≡ ok v
      → IsVote outputs reviewers reviews v
  unfolding admit_review
  admit_review-IsVote packets runtimes outputs reviewers reviews votes row {v} given h =
      elim (Option-cases (lookup row.id packets)) [
        | inl a ↦ absurd (ground arith)
        | inr (found, a) ↦ elim (Option-cases (lookup found.1 outputs)) [
          | inl b ↦ absurd (
              ground (
                arith,
                Result-cases (each check_claim row.adjudication.claims),
                Result-cases (check_adjudication row.adjudication),
              ))
          | inr (p, b) ↦ elim (Option-cases (lookup found.1 runtimes)) [
            | inl c ↦ absurd (
                ground (
                  arith,
                  Result-cases (each check_claim row.adjudication.claims),
                  Result-cases (check_adjudication row.adjudication),
                ))
            | inr (runtime, c) ↦
                let made : record {
                  case_id = found.1;
                  review_id = row.id;
                  adjudication = row.adjudication;
                }
                    ≡ v =
                  ground (
                    arith,
                    Result-cases (each check_claim row.adjudication.claims),
                    Result-cases (check_adjudication row.adjudication),
                    Result-cases (
                        validate_prediction digest_input response_hash packet_id packet_sha p
                          runtime),
                  ) in
                subst (IsVote outputs reviewers reviews) made (
                  p,
                  b,
                  record {
                    submitted = given;
                    registered = ground (
                      arith,
                      Result-cases (each check_claim row.adjudication.claims),
                      Result-cases (check_adjudication row.adjudication),
                    );
                    not_self = ground (
                      arith,
                      Result-cases (each check_claim row.adjudication.claims),
                      Result-cases (check_adjudication row.adjudication),
                    );
                    same_response = ground (
                      arith,
                      eq_iff row.adjudication.response_sha256 (response_hash p.text),
                      Result-cases (each check_claim row.adjudication.claims),
                      Result-cases (check_adjudication row.adjudication),
                      Result-cases (
                          validate_prediction digest_input response_hash packet_id packet_sha p
                            runtime),
                    );
                  },
                )
          ]
        ]
      ]

  -- Every row is in the rows.
  pub all-submitted :
      (rows reviews : List ReviewRow)
      → ((row : ReviewRow)
          → Some (λ (x : ReviewRow). x.adjudication ≡ row.adjudication) rows
          → Some (λ (x : ReviewRow). x.adjudication ≡ row.adjudication) reviews)
      → All
          (λ (row : ReviewRow). Some (λ (x : ReviewRow). x.adjudication ≡ row.adjudication) reviews)
          rows
  all-submitted [] reviews among = tt
  all-submitted (row ∷ rows) reviews among =
      (among row (inl refl), all-submitted rows reviews (λ other there. among other (inr there)))

  pub admit_reviews-All :
      (packets : Dict Text (Text × Text)) (runtimes : Dict Text Runtime)
      (outputs : Dict Text Prediction) (reviewers : List Text) (reviews : List ReviewRow)
      (votes : List Vote) (rows : List ReviewRow) {all_votes : List Vote}
      → All
          (λ (row : ReviewRow). Some (λ (x : ReviewRow). x.adjudication ≡ row.adjudication) reviews)
          rows
      → All (IsVote outputs reviewers reviews) votes
      → admit_reviews digest_input response_hash packet_id packet_sha packets runtimes outputs
          reviewers votes rows
        ≡ ok all_votes
      → All (IsVote outputs reviewers reviews) all_votes
  unfolding admit_reviews
  admit_reviews-All packets runtimes outputs reviewers reviews votes [] {all_votes} given good h =
      subst (All (IsVote outputs reviewers reviews)) (ok_injective votes all_votes h) good
    where
      ok_injective : (x y : List Vote) → ok x ≡ ok y → x ≡ y
      ok_injective x y e = ground arith
  admit_reviews-All packets runtimes outputs reviewers reviews votes (row ∷ rows) given good h =
      let (v, first, rest) =
        bind-eq-ok
          (admit_review digest_input response_hash packet_id packet_sha packets runtimes outputs
            reviewers votes row)
          _ h in
      admit_reviews-All packets runtimes outputs reviewers reviews (votes ++ v ∷ []) rows given.1
        (All-snoc (IsVote outputs reviewers reviews) votes v good
          (admit_review-IsVote packets runtimes outputs reviewers reviews votes row given.0 first))
        rest

  pub votes_of-IsBound :
      (outputs : Dict Text Prediction) (reviewers : List Text) (reviews : List ReviewRow)
      (id : Text) (p : Prediction) (votes : List Vote)
      → lookup id outputs ≡ some p
      → All (IsVote outputs reviewers reviews) votes
      → All (IsBound reviewers reviews p) (votes_of id votes)
  unfolding votes_of
  votes_of-IsBound outputs reviewers reviews id p [] found good = tt
  votes_of-IsBound outputs reviewers reviews id p (v ∷ votes) found ((q, at, bound), good) =
      elim (Bool-cases (v.case_id == id)) [
        | inr other ↦ rw other (votes_of-IsBound outputs reviewers reviews id p votes found good)
        | inl same ↦
            let here : lookup id outputs ≡ some q =
              ap (λ k. lookup k outputs) (sym ((eq_iff v.case_id id).0 same)) ∙ at in
            rw same (
              subst (λ x. IsBound reviewers reviews x v.adjudication)
                  (some_injective q p (sym here ∙ found)) bound,
              votes_of-IsBound outputs reviewers reviews id p votes found good,
            )
      ]
    where
      some_injective : (x y : Prediction) → some x ≡ some y → x ≡ y
      some_injective x y e = ground arith

  -- What a pass rests on: a prediction, the gold label of the case, and two reviews or more, by
  -- different reviewers.
  pub record RestsOn (outputs : Dict Text Prediction) (gold : Dict Text Gold)
      (reviewers : List Text) (reviews : List ReviewRow) (c : CaseResult) : Type 0 where
    pub prediction : Prediction
    pub found : lookup c.id outputs ≡ some prediction
    pub label : Gold
    pub labelled : lookup c.id gold ≡ some label
    pub first : Adjudication
    pub second : Adjudication
    pub others : List Adjudication
    pub bound : All (IsBound reviewers reviews prediction) (first ∷ second ∷ others)
    pub apart :
        distinct (map (λ (a : Adjudication). a.reviewer_id) (first ∷ second ∷ others)) ≡ true
    pub agree : all (same_signature first) (second ∷ others) ≡ true
    pub deserved :
        Deserves
          (response_hash prediction.text)
          (record {
            required = label.required_claims;
            allowed = label.allowed_claims;
            evidence_missing = label.evidence_missing;
            memory_narration_allowed = false;
          })
          first
