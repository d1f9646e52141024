-- ===== src/Protocol/Score/Laws.antt =====
-- When a response passes, and that the score reads claims as sets.
use mathlib.Core.Path.{subst, fun_ext}
use bit_net.Base.{bool_ext}
use bit_net.Base.Sets.{all_of_elem, subset-trans_elem}
use bit_net.Protocol.Claims.{Claim, claim_eq, AnswerRubric, Adjudication}
use bit_net.Protocol.Score.{pass, Reason, judge, reasons_of, score_response}
use bit_net.Base.{
  ◌≡◌, refl, sym, ap, ◌∙◌, ◌↔◌, true, Option, none, some, List, [], ◌∷◌, arith, eq_iff, nat_eq,
  text_eq, option_eq, all, elem, subset, ok, Text, has_content, bool_ext,
}

-- A review by which a response deserves to pass.
pub record Deserves (hash : Text) (rubric : AnswerRubric) (a : Adjudication) : Type 0 where
  pub bound : a.response_sha256 ≡ hash
  pub complete : (c : Claim) → elem c rubric.required ≡ true → elem c a.claims ≡ true
  pub supported : (c : Claim) → elem c a.claims ≡ true → elem c rubric.allowed ≡ true
  pub honest : rubric.evidence_missing ≡ true → a.acknowledges_missing_evidence ≡ true
  pub natural : a.natural_reply ≡ true
  pub discreet : a.unsolicited_memory_narration ≡ true → rubric.memory_narration_allowed ≡ true

-- `set(xs).issubset(ys)` in terms of members.
subset-elem :
    (xs ys : List Claim) → subset xs ys ≡ true → (c : Claim) → elem c xs ≡ true → elem c ys ≡ true
subset-elem xs ys h c m = subset-trans_elem c xs ys h m

elem-subset :
    (xs ys : List Claim) → ((c : Claim) → elem c xs ≡ true → elem c ys ≡ true) → subset xs ys ≡ true
elem-subset xs ys h = all_of_elem (λ c. elem c ys) xs h

-- No reason is noted exactly when every condition holds.
no_reasons_iff :
    (rubric : AnswerRubric) (a : Adjudication)
    → (reasons_of rubric a ≡ []) ↔ (
        (subset rubric.required a.claims ≡ true)
        × (subset a.claims rubric.allowed ≡ true)
        × (rubric.evidence_missing ≡ true → a.acknowledges_missing_evidence ≡ true)
        × (a.natural_reply ≡ true)
        × (a.unsolicited_memory_narration ≡ true → rubric.memory_narration_allowed ≡ true))
no_reasons_iff rubric a = (
  λ h. (ground arith, ground arith, (λ e. ground arith), ground arith, (λ e. ground arith)),
  λ h. ground arith,
)

judge-pass :
    (reasons : List Reason) → judge reasons ≡ record { status = pass; reasons = [] } → reasons ≡ []
judge-pass [] h = refl
judge-pass (r ∷ reasons) h = cc

subset_left :
    (zs xs ys : List Claim) → ((c : Claim) → elem c xs ≡ elem c ys) → subset xs zs ≡ subset ys zs
subset_left zs xs ys h =
    bool_ext (subset xs zs) (subset ys zs)
      (λ s. elem-subset ys zs (λ c m. subset-elem xs zs s c (h c ∙ m)))
      (λ s. elem-subset xs zs (λ c m. subset-elem ys zs s c (sym (h c) ∙ m)))

subset_right :
    (zs xs ys : List Claim) → ((c : Claim) → elem c xs ≡ elem c ys) → subset zs xs ≡ subset zs ys
subset_right zs xs ys h = ap (λ p. all p zs) (fun_ext h)

module _ (response_hash : Text → Text) where
  pass-Deserves :
      (text : Text) (rubric : AnswerRubric) (a : Adjudication)
      → score_response response_hash text rubric (some a)
        ≡ ok (record { status = pass; reasons = [] })
      → Deserves (response_hash text) rubric a
  unfolding score_response
  pass-Deserves text rubric a h =
      let none_noted = judge-pass (reasons_of rubric a) (ground arith) in
      let (complete, supported, honest, natural, discreet) =
        (no_reasons_iff rubric a).0 none_noted in
      record {
        bound = ground (arith, eq_iff a.response_sha256 (response_hash text));
        complete = subset-elem rubric.required a.claims complete;
        supported = subset-elem a.claims rubric.allowed supported;
        honest = honest;
        natural = natural;
        discreet = discreet;
      }

  Deserves-pass :
      (text : Text) (rubric : AnswerRubric) (a : Adjudication)
      → has_content text ≡ true
      → Deserves (response_hash text) rubric a
      → score_response response_hash text rubric (some a)
        ≡ ok (record { status = pass; reasons = [] })
  unfolding score_response
  Deserves-pass text rubric a h d =
      let none_noted = (no_reasons_iff rubric a).1 (
        elem-subset rubric.required a.claims d.complete,
        elem-subset a.claims rubric.allowed d.supported,
        d.honest,
        d.natural,
        d.discreet,
      ) in
      ground (arith, ap judge none_noted, d.bound, eq_iff a.response_sha256 (response_hash text))

  -- A response passes exactly when it is not blank and a review is given that is bound to its text,
  -- finds every required claim, finds only allowed claims, acknowledges missing evidence where it is
  -- missing, and calls the reply natural and free of narration that is not allowed.
  pub score_response-pass_iff :
      (text : Text) (rubric : AnswerRubric) (adjudication : Option Adjudication)
      → (score_response response_hash text rubric adjudication
          ≡ ok (record { status = pass; reasons = [] }))
        ↔ ((has_content text ≡ true)
            × ((a : Adjudication) × (adjudication ≡ some a)
                × Deserves (response_hash text) rubric a))
  unfolding score_response
  score_response-pass_iff text rubric none = ((λ h. absurd (ground arith)), (λ h. cc (h.1.1)))
  score_response-pass_iff text rubric (some a) = (
    (λ h. (ground arith, (a, refl, pass-Deserves text rubric a h))),
    (λ h.
        Deserves-pass text rubric a h.0
          (subst (Deserves (response_hash text) rubric) (ground (arith, h.1.1)) h.1.2)),
  )

  -- Two reviews that find the same claims, in any order and however often, and agree otherwise are
  -- scored alike.
  pub score_response-same_claims :
      (text : Text) (rubric : AnswerRubric) (a : Adjudication) (claims : List Claim)
      → ((c : Claim) → elem c a.claims ≡ elem c claims)
      → score_response response_hash text rubric (some a)
        ≡ score_response response_hash text rubric (some (record a { claims = claims }))
  unfolding score_response
  score_response-same_claims text rubric a claims h = ground (
    arith,
    subset_left rubric.allowed a.claims claims h,
    subset_right rubric.required a.claims claims h,
  )
