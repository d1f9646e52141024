-- ===== src/Bundle/Apart.antt =====
-- The reviewers of a case in python/review_neural_memory.py are different ones.
use bit_net.Base.{
  ◌≡◌, refl, ap, ◌∙◌, true, false, not, ◌&&◌, List, [], ◌∷◌, ◌++◌, map, arith, ◌==◌, nat_eq,
  text_eq, texts_eq, option_eq, All, elem, distinct, value_error, ok, or_raise, each, Text,
  guard-eq-ok, after_ok, or_raise-eq-ok,
}
use mathlib.Core.Path.{subst}
use bit_net.Base.Dict.{Dict, lookup, index, lookup-index-Some, lookup-index-key}
use bit_net.Generation.{Runtime}
use bit_net.Protocol.Claims.{check_claim, check_adjudication}
use bit_net.Bundle.{
  Prediction, Gold, ReviewRow, Vote, has_voted, validate_prediction, packets_of, admit_review,
  admit_reviews, check_keys, check_bundle,
}
use bit_net.Bundle.Votes.{Packets, cases_of, HasPacket, IsApart, IsApart-snoc, All-snoc}

check_keys-distinct : (ids : List Text) → check_keys ids ≡ ok tt → distinct ids ≡ true
unfolding check_keys
check_keys-distinct ids h = ground arith

module _ (digest_input : Runtime → Text) (response_hash : Text → Text)
    (packet_id : Runtime → Text → Text) (packet_sha : Runtime → Text → Text) where
  pub packets_of-cases :
      (runtimes : Dict Text Runtime) (ps : List Prediction) (packets : Packets)
      → packets_of digest_input response_hash packet_id packet_sha runtimes ps ≡ ok packets
      → map (λ (p : Prediction). p.id) ps ≡ cases_of packets
  unfolding packets_of
  packets_of-cases runtimes [] [] h = refl
  packets_of-cases runtimes [] (p ∷ packets) h = absurd (ground arith)
  packets_of-cases runtimes (p ∷ ps) packets h =
      after_ok (or_raise (lookup p.id runtimes) (value_error "unknown prediction ID")) _ h
        λ runtime found h.
          after_ok (validate_prediction digest_input response_hash packet_id packet_sha p runtime) _
            h
            λ u valid h.
              after_ok (packets_of digest_input response_hash packet_id packet_sha runtimes ps) _ h
                λ rest made h.
                  let whole : (packet_id runtime p.text, p.id) ∷ rest ≡ packets = ground arith in
                  ap (λ ids. p.id ∷ ids) (packets_of-cases runtimes ps rest made)
                  ∙ ap cases_of whole

  pub check_bundle-distinct :
      (inputs : List Runtime) (labels : List Gold) (meta_ids : List Text)
      (predictions : List Prediction) (reviewers : List Text)
      → check_bundle digest_input response_hash packet_id packet_sha inputs labels meta_ids
          predictions reviewers
        ≡ ok tt
      → distinct (map (λ (p : Prediction). p.id) predictions) ≡ true
  unfolding check_bundle
  check_bundle-distinct inputs labels meta_ids predictions reviewers h =
      after_ok (check_keys (map (λ (r : Runtime). r.id) inputs)) _ h λ u a h.
        after_ok (check_keys (map (λ (g : Gold). g.id) labels)) _ h λ u b h.
          after_ok (check_keys meta_ids) _ h λ u c h.
            after_ok (check_keys (map (λ (p : Prediction). p.id) predictions)) _ h
              λ u keyed h. check_keys-distinct (map (λ (p : Prediction). p.id) predictions) keyed

  admitted :
      (packets : Packets) (runtimes : Dict Text Runtime) (outputs : Dict Text Prediction)
      (reviewers : List Text) (votes : List Vote) (row : ReviewRow) {v : Vote}
      → admit_review digest_input response_hash packet_id packet_sha
          (index (λ (p : Text × Text). p.0) packets)
          runtimes
          outputs
          reviewers
          votes
          row
        ≡ ok v
      → HasPacket packets v × (has_voted v.review_id v.adjudication.reviewer_id votes ≡ false)
  unfolding admit_review
  admitted packets runtimes outputs reviewers votes row {v} h =
      after_ok
        (or_raise (lookup row.id (index (λ (p : Text × Text). p.0) packets))
          (value_error "unknown review or invalid review schema"))
        _ h
        λ found at h. after_ok (each check_claim row.adjudication.claims) _ h λ u claims h.
          after_ok (check_adjudication row.adjudication) _ h λ u' adjudicated h.
            let (fresh, h') =
              guard-eq-ok (not (has_voted row.id row.adjudication.reviewer_id votes)) _ _ h in
            after_ok (or_raise (lookup found.1 outputs) (value_error "KeyError")) _ h'
              λ prediction predicted h.
                let (_, h') =
                  guard-eq-ok
                    (elem row.adjudication.reviewer_id reviewers
                      && not (row.adjudication.reviewer_id == prediction.producer_id))
                    _ _ h in
                after_ok (or_raise (lookup found.1 runtimes) (value_error "KeyError")) _ h'
                  λ runtime has h.
                    after_ok
                      (validate_prediction digest_input response_hash packet_id packet_sha
                        prediction runtime)
                      _ h
                      λ u'' valid h.
                        let (_, h') =
                          guard-eq-ok
                            (row.packet_sha256 == packet_sha runtime prediction.text
                              && row.adjudication.response_sha256 == response_hash prediction.text)
                            _ _ h in
                        let made : record {
                          case_id = found.1;
                          review_id = row.id;
                          adjudication = row.adjudication;
                        }
                            ≡ v =
                          ground arith in
                        let listed =
                          or_raise-eq-ok (lookup row.id (index (λ (p : Text × Text). p.0) packets))
                            _ at in
                        subst
                          (λ (v : Vote).
                            HasPacket packets v
                            × (has_voted v.review_id v.adjudication.reviewer_id votes ≡ false))
                          made
                          (
                            lookup-index-Some (λ (p : Text × Text). p.0) row.id packets {v = found}
                                listed (λ p. (p.0 ≡ row.id) × (p.1 ≡ found.1))
                                (
                                  lookup-index-key (λ (p : Text × Text). p.0) row.id packets
                                      {v = found} listed,
                                  refl,
                                ),
                            ground arith,
                          )

  pub admit_reviews-IsApart :
      (packets : Packets) (runtimes : Dict Text Runtime) (outputs : Dict Text Prediction)
      (reviewers : List Text) (votes : List Vote) (rows : List ReviewRow) {all_votes : List Vote}
      → All (HasPacket packets) votes
      → IsApart votes
      → admit_reviews digest_input response_hash packet_id packet_sha
          (index (λ (p : Text × Text). p.0) packets)
          runtimes
          outputs
          reviewers
          votes
          rows
        ≡ ok all_votes
      → All (HasPacket packets) all_votes × IsApart all_votes
  unfolding admit_reviews
  admit_reviews-IsApart packets runtimes outputs reviewers votes [] {all_votes} has apart h =
      subst (λ vs. All (HasPacket packets) vs × IsApart vs) (ok_injective votes all_votes h)
        (has, apart)
    where
      ok_injective : (x y : List Vote) → ok x ≡ ok y → x ≡ y
      ok_injective x y e = ground arith
  admit_reviews-IsApart packets runtimes outputs reviewers votes (row ∷ rows) has apart h =
      after_ok
        (admit_review digest_input response_hash packet_id packet_sha
          (index (λ (p : Text × Text). p.0) packets) runtimes outputs reviewers votes row)
        _ h
        λ v first h.
          let (its, fresh) = admitted packets runtimes outputs reviewers votes row first in
          admit_reviews-IsApart packets runtimes outputs reviewers (votes ++ v ∷ []) rows
            (All-snoc (HasPacket packets) votes v has its) (IsApart-snoc votes v apart fresh) h
