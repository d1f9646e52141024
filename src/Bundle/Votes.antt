-- ===== src/Bundle/Votes.antt =====
-- Votes on the packets of cases in python/review_neural_memory.py: no reviewer votes twice on a case.
use bit_net.Base.{
  ◌≡◌, refl, sym, ap, ◌∙◌, inl, inr, true, false, ◌&&◌, List, [], ◌∷◌, ◌++◌, map, arith, Bool-cases,
  ◌==◌, eq_iff, nat_eq, text_eq, texts_eq, option_eq, All, Some, elem, distinct, Text,
}
use mathlib.Core.Path.{subst}
use bit_net.Base.Sets.{eq_comm}
use bit_net.Protocol.Claims.{Adjudication}
use bit_net.Bundle.{Vote, has_voted, votes_of}

abbrev pub Packets : Type 0
Packets = List (Text × Text)

-- A packet of a case is listed.
abbrev pub IsListed : Packets → Text → Text → Type 0
IsListed packets id case_id = Some (λ (p : Text × Text). (p.0 ≡ id) × (p.1 ≡ case_id)) packets

abbrev pub cases_of : Packets → List Text
cases_of packets = map (λ (p : Text × Text). p.1) packets

listed-elem :
    (packets : Packets) (id case_id : Text)
    → IsListed packets id case_id
    → elem case_id (cases_of packets) ≡ true
listed-elem [] id case_id there = elim there [ ]
listed-elem (p ∷ packets) id case_id (inl (e, f)) = ground (arith, eq_iff case_id p.1)
listed-elem (p ∷ packets) id case_id (inr there) =
    ground (arith, listed-elem packets id case_id there)

-- A case has one packet.
same_packet :
    (packets : Packets) (a b case_id : Text)
    → distinct (cases_of packets) ≡ true
    → IsListed packets a case_id
    → IsListed packets b case_id
    → a ≡ b
same_packet [] a b case_id once here there = elim here [ ]
same_packet (p ∷ packets) a b case_id once (inl (e, f)) (inl (e', f')) = sym e ∙ e'
same_packet (p ∷ packets) a b case_id once (inl (e, f)) (inr there) =
    let seen : elem p.1 (cases_of packets) ≡ true =
      ap (λ k. elem k (cases_of packets)) f ∙ listed-elem packets b case_id there in
    absurd (ground arith)
same_packet (p ∷ packets) a b case_id once (inr there) (inl (e, f)) =
    let seen : elem p.1 (cases_of packets) ≡ true =
      ap (λ k. elem k (cases_of packets)) f ∙ listed-elem packets a case_id there in
    absurd (ground arith)
same_packet (p ∷ packets) a b case_id once (inr here) (inr there) =
    same_packet packets a b case_id (ground arith) here there

-- No reviewer has voted twice on a packet.
abbrev pub IsApart : List Vote → Type 0
IsApart [] = Unit
IsApart (v ∷ votes) =
    (has_voted v.review_id v.adjudication.reviewer_id votes ≡ false) × IsApart votes

has_voted-snoc :
    (id reviewer : Text) (votes : List Vote) (w : Vote)
    → has_voted id reviewer votes ≡ false
    → (w.review_id == id && w.adjudication.reviewer_id == reviewer) ≡ false
    → has_voted id reviewer (votes ++ w ∷ []) ≡ false
has_voted-snoc id reviewer [] w h k = ground arith
has_voted-snoc id reviewer (v ∷ votes) w h k = ground (arith, has_voted-snoc id reviewer votes w)

pub IsApart-snoc :
    (votes : List Vote) (w : Vote)
    → IsApart votes
    → has_voted w.review_id w.adjudication.reviewer_id votes ≡ false
    → IsApart (votes ++ w ∷ [])
IsApart-snoc [] w h k = (refl, tt)
IsApart-snoc (v ∷ votes) w (h, others) k = (
  has_voted-snoc v.review_id v.adjudication.reviewer_id votes w h (
      ground (
        arith,
        eq_comm v.review_id w.review_id,
        eq_comm v.adjudication.reviewer_id w.adjudication.reviewer_id,
      )),
  IsApart-snoc votes w others (ground arith),
)

abbrev pub HasPacket : Packets → Vote → Type 0
HasPacket packets v = IsListed packets v.review_id v.case_id

-- A reviewer of another vote on the case has voted on the packet.
voted_again :
    (packets : Packets) (id review_id reviewer : Text) (votes : List Vote)
    → distinct (cases_of packets) ≡ true
    → IsListed packets review_id id
    → All (HasPacket packets) votes
    → elem reviewer (map (λ (a : Adjudication). a.reviewer_id) (votes_of id votes)) ≡ true
    → has_voted review_id reviewer votes ≡ true
unfolding votes_of
voted_again packets id review_id reviewer [] once listed all_listed h = cc
voted_again packets id review_id reviewer (w ∷ votes) once listed (has, all_listed) h =
    elim (Bool-cases (w.case_id == id)) [
      | inr other ↦
          let later =
            voted_again packets id review_id reviewer votes once listed all_listed (ground arith) in
          ground (arith, later)
      | inl same ↦
          let here : IsListed packets w.review_id id =
            subst (IsListed packets w.review_id) ((eq_iff w.case_id id).0 same) has in
          let its : w.review_id ≡ review_id =
            same_packet packets w.review_id review_id id once here listed in
          ground (
            arith,
            voted_again packets id review_id reviewer votes once listed all_listed,
            eq_iff w.review_id review_id,
            its,
            eq_comm w.adjudication.reviewer_id reviewer,
          )
    ]

pub votes_of-distinct :
    (packets : Packets) (id : Text) (votes : List Vote)
    → distinct (cases_of packets) ≡ true
    → All (HasPacket packets) votes
    → IsApart votes
    → distinct (map (λ (a : Adjudication). a.reviewer_id) (votes_of id votes)) ≡ true
unfolding votes_of
votes_of-distinct packets id [] once all_listed apart = refl
votes_of-distinct packets id (v ∷ votes) once (has, all_listed) (first, others) =
    let rest = votes_of-distinct packets id votes once all_listed others in
    elim (Bool-cases (v.case_id == id)) [
      | inr other ↦ rw other rest
      | inl same ↦
          let here : IsListed packets v.review_id id =
            subst (IsListed packets v.review_id) ((eq_iff v.case_id id).0 same) has in
          ground (
            arith,
            rest,
            voted_again packets id v.review_id v.adjudication.reviewer_id votes once here
                all_listed,
          )
    ]

pub All-snoc :
    (P : Vote → Type 0) (vs : List Vote) (v : Vote) → All P vs → P v → All P (vs ++ v ∷ [])
All-snoc P [] v h k = (k, tt)
All-snoc P (w ∷ vs) v h k = (h.0, All-snoc P vs v h.1 k)
