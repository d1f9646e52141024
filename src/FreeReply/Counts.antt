-- ===== src/FreeReply/Counts.antt =====
-- The denominators of python/free_reply_protocol.py are full, and its counts are consistent.
use mathlib.Core.Path.{subst, ap₂}
use bit_net.Base.Dict.{Dict, lookup, index}
use bit_net.FreeReply.{
  FreeReply, post_init, Review, Row, Count, count_if, count_of, Report, packet, judge_reply,
  judge_all, aggregate, iff, row_of,
}
use bit_net.Base.{
  ℕ, suc, ◌+◌, ◌≤◌, ◌≡◌, refl, sym, ap, ◌∙◌, inl, inr, Bool, true, List, [], ◌∷◌, map, arith,
  if◌then◌else◌, Option-cases, ◌==◌, nat_eq, text_eq, texts_eq, option_eq, length, All, elem, ok,
  Text, Result-cases, bind-eq-ok,
}

-- Each row has one of the three routes, and says whether the reviewers agree.
abbrev IsFair : Row → Type 0
IsFair row =
    (elem row.route_target (0 ∷ 1 ∷ 2 ∷ []) ≡ true)
    × (row.agree ≡ iff row.reviewer_a.semantic_pass row.reviewer_b.semantic_pass)

-- The counts of a route: no more passes than items, and passes of the two reviewers that differ by
-- no more than the items on which they do not agree.
pub record IsConsistent (c : Count) : Type 0 where
  pub a_within : c.a_pass ≤ c.denominator
  pub b_within : c.b_pass ≤ c.denominator
  pub agreement_within : c.agreement ≤ c.denominator
  pub a_near : c.a_pass + c.agreement ≤ c.denominator + c.b_pass
  pub b_near : c.b_pass + c.agreement ≤ c.denominator + c.a_pass

count_of-IsConsistent : (t : ℕ) (rows : List Row) → All IsFair rows → IsConsistent (count_of rows t)
unfolding count_of count_if
count_of-IsConsistent t [] h = record {
  a_within = omega arith;
  b_within = omega arith;
  agreement_within = omega arith;
  a_near = omega arith;
  b_near = omega arith;
}
count_of-IsConsistent t (row ∷ rows) h =
    let rest = count_of-IsConsistent t rows h.1 in
    record {
      a_within = ground (arith, rest.a_within);
      b_within = ground (arith, rest.b_within);
      agreement_within = ground (arith, rest.agreement_within);
      a_near = ground (arith, rest.a_near, h.0.1);
      b_near = ground (arith, rest.b_near, h.0.1);
    }

denominators :
    (rows : List Row)
    → All IsFair rows
    → (count_of rows 0).denominator + (count_of rows 1).denominator + (count_of rows 2).denominator
      ≡ length rows
unfolding count_of count_if
denominators [] h = omega arith
denominators (row ∷ rows) h =
    let rest = denominators rows h.1 in
    let one : (if row.route_target == 0 then 1 else 0)
          + (if row.route_target == 1 then 1 else 0)
          + (if row.route_target == 2 then 1 else 0)
        ≡ 1 =
      ground (arith, h.0.0) in
    omega (arith, rest, one)

module _ (digest : Text → Text → Text → Text → Bool → Text) (lower : Text → Text) where
  judge_reply-IsFair :
      (by_a by_b : Dict Text Review) (r : FreeReply) {row : Row}
      → post_init r ≡ ok tt
      → judge_reply digest lower by_a by_b r ≡ ok row
      → IsFair row × (row.record_id ≡ r.record_id)
  unfolding judge_reply post_init
  judge_reply-IsFair by_a by_b r {row} valid h =
      elim (Option-cases (lookup (packet digest lower r).id by_a)) [
        | inl a ↦ absurd (ground arith)
        | inr (first, a) ↦ elim (Option-cases (lookup (packet digest lower r).id by_b)) [
          | inl b ↦ absurd (ground arith)
          | inr (second, b) ↦
              let made : row_of digest lower r first second ≡ row = ground arith in
              subst (λ x. IsFair x × (x.record_id ≡ r.record_id)) made ((ground arith, refl), refl)
        ]
      ]

  judge_all-IsFair :
      (by_a by_b : Dict Text Review) (rs : List FreeReply) {rows : List Row}
      → All (λ r. post_init r ≡ ok tt) rs
      → judge_all digest lower by_a by_b rs ≡ ok rows
      → All IsFair rows
        × (map (λ x. x.record_id) rows ≡ map (λ x. x.record_id) rs)
        × (length rows ≡ length rs)
  unfolding judge_all
  judge_all-IsFair by_a by_b [] {rows} valid h =
      subst (λ x. All IsFair x × (map (λ y. y.record_id) x ≡ []) × (length x ≡ 0))
        (ok_injective [] rows h) (tt, refl, refl)
    where
      ok_injective : (x y : List Row) → ok x ≡ ok y → x ≡ y
      ok_injective x y e = ground arith
  judge_all-IsFair by_a by_b (r ∷ rs) {rows} valid h =
      let (row, first, more) = bind-eq-ok (judge_reply digest lower by_a by_b r) _ h in
      let (rest, others, made) = bind-eq-ok (judge_all digest lower by_a by_b rs) _ more in
      let (fair, same) = judge_reply-IsFair by_a by_b r valid.0 first in
      let (fair_rest, same_rest, size) = judge_all-IsFair by_a by_b rs valid.1 others in
      subst
        (λ x.
          All IsFair x
          × (map (λ y. y.record_id) x ≡ map (λ y. y.record_id) (r ∷ rs))
          × (length x ≡ suc (length rs)))
        (ok_injective (row ∷ rest) rows made)
        ((fair, fair_rest), ap₂ ◌∷◌ same same_rest, ap suc size)
    where
      ok_injective : (x y : List Row) → ok x ≡ ok y → x ≡ y
      ok_injective x y e = ground arith

  -- What a report on replies says.
  pub record IsFull (replies : List FreeReply) (report : Report) : Type 0 where
    pub none_dropped : map (λ x. x.record_id) report.rows ≡ map (λ x. x.record_id) replies
    pub full :
        (report.counts 0).denominator
          + (report.counts 1).denominator
          + (report.counts 2).denominator
        ≡ report.total
    pub consistent : (t : ℕ) → IsConsistent (report.counts t)

  -- A report on replies that their constructor accepts has a row for each of them, in order; its
  -- three denominators add up to all of them; and in each count no reviewer passes more items than
  -- there are, and the passes of the two reviewers differ by no more than the items on which they do
  -- not agree.
  pub aggregate-IsFull :
      (replies : List FreeReply) (review_a review_b : List Review) {report : Report}
      → All (λ r. post_init r ≡ ok tt) replies
      → aggregate digest lower replies review_a review_b ≡ ok report
      → IsFull replies report
  unfolding aggregate
  aggregate-IsFull replies review_a review_b {report} valid h =
      elim (Result-cases (
        judge_all digest lower (index (λ (a : Review). a.packet_id) review_a)
          (index (λ (a : Review). a.packet_id) review_b) replies)) [
            | inr (x, j) ↦ absurd (ground arith)
            | inl (rows, j) ↦
                let (fair, same, size) =
                  judge_all-IsFair (index (λ (a : Review). a.packet_id) review_a)
                    (index (λ (a : Review). a.packet_id) review_b) replies valid j in
                let same_rows : rows ≡ report.rows = ground arith in
                let same_counts : count_of rows ≡ report.counts = ground arith in
                let same_total : length replies ≡ report.total = ground arith in
                record {
                  none_dropped = ap (map (λ (x : Row). x.record_id)) (sym same_rows) ∙ same;
                  full =
                      ap
                        (λ (f : ℕ → Count).
                          (f 0).denominator + (f 1).denominator + (f 2).denominator)
                        (sym same_counts)
                      ∙ denominators rows fair
                      ∙ size
                      ∙ same_total;
                  consistent = λ t.
                      subst (λ (f : ℕ → Count). IsConsistent (f t)) same_counts
                        (count_of-IsConsistent t rows fair);
                }
          ]
