-- ===== src/FreeReply.antt =====
-- python/free_reply_protocol.py: the record of a free reply, what a reviewer sees of it, and the
-- aggregation of two reviews. Digests and `str.lower` are parameters.
pub mod Counts
use bit_net.Base.Dict.{Dict, lookup, index}
use bit_net.Transport.{require}
use bit_net.Base.{
  ℕ, zero, suc, ◌+◌, ◌-◌, ◌*◌, ◌/◌, ◌%◌, ◌≤◌, ◌<◌, min, String, ◌≡◌, refl, sym, ap, ◌∙◌, ◌≢◌, ◌↔◌,
  ◌⊎◌, inl, inr, Bool, true, false, not, ◌&&◌, ◌||◌, Option, none, some, List, [], ◌∷◌, ◌++◌, map,
  arith, ltb, leb, if◌then◌else◌, Bool-cases, Option-cases, Eq, ◌==◌, eq_iff, nat_eq, text_eq,
  texts_eq, option_eq, length, get_elem?, take, drop, all, any, is_empty, length-append, append_nil,
  append_assoc, take-append-drop, length-take, take-length, take-suc, take-append, drop-append, All,
  Some, all_iff, all-append, elem, distinct, subset, disjoint, elem-append, Error, value_error,
  transport_error, prefix_retokenization_required, unsafe_token, transport_budget_exceeded,
  unicode_encode_error, unicode_decode_error, Result, ok, err, Check, ◌>>=◌, ◌>>◌, guard, or_raise,
  drop_value, each, each_iff, Text, Bytes, lit, strip, has_content, is_sha256, Result-cases,
  guard-eq-ok, check-eq-ok, bind-eq-ok, or_raise-eq-ok, drop_value-eq-ok, bool_ext,
}

pub data StopReason : Type 0 where
  eos budget failed : StopReason

pub record FreeReply : Type 0 where
  pub record_id : Text
  pub route_target : ℕ
  pub language : Text
  pub question_text : Text
  pub question_subject : Text
  pub gold_value : Text
  pub prompt_ids : List ℕ
  pub token_ids : List ℕ
  pub text : Text
  pub stop_reason : StopReason
  pub positions_c_verified : ℕ
  pub zero_residual_bitwise : Bool
  pub decision_matches_argmax : Bool

abbrev pub is_failed : StopReason → Bool
is_failed failed = true
is_failed _ = false

abbrev pub is_budget : StopReason → Bool
is_budget budget = true
is_budget _ = false

-- `__post_init__`
unfoldable pub post_init : FreeReply → Check
post_init r =
    require
      (elem r.route_target (0 ∷ 1 ∷ 2 ∷ [])
        && r.positions_c_verified == length r.token_ids
        && r.zero_residual_bitwise
        && r.decision_matches_argmax
        && not (is_failed r.stop_reason))
      "incomplete or unverifiable free reply"

abbrev pub im_end : Text
im_end = lit "<|im_end|>"

-- `text.removesuffix(suffix)`
unfoldable pub removesuffix : Text → Text → Text
removesuffix [] suffix = []
removesuffix (c ∷ s) suffix =
    let rest = removesuffix s suffix in if c ∷ s == suffix then [] else c ∷ rest

pub record Packet : Type 0 where
  pub id : Text
  pub language : Text
  pub question : Text
  pub reply : Text
  pub truncated : Bool

pub record ReviewClaim : Type 0 where
  pub subject : Text
  pub relation : Text
  pub value : Text

pub record Review : Type 0 where
  pub packet_id : Text
  pub reviewer_id : Text
  pub claims : List ReviewClaim
  pub acknowledges_missing_evidence : Bool
  pub natural_reply : Bool
  pub unsolicited_memory_narration : Bool

-- `validate_adjudication`
unfoldable pub validate_adjudication : Review → Check
validate_adjudication adj = do
  require (length adj.packet_id == 64 && not (is_empty adj.reviewer_id))
      "adjudication identity required"
  require (all (λ c. not (is_empty c.subject) && not (is_empty c.relation)) adj.claims)
      "claims must be subject/relation strings plus a value string"

pub record Verdict : Type 0 where
  pub route_target : ℕ
  pub semantic_pass : Bool
  pub natural_reply : Bool
  pub unsolicited_memory_narration : Bool
  pub acknowledges_missing_evidence : Bool

pub record Row : Type 0 where
  pub packet_id : Text
  pub record_id : Text
  pub route_target : ℕ
  pub reviewer_a : Verdict
  pub reviewer_b : Verdict
  pub agree : Bool

pub record Count : Type 0 where
  pub denominator : ℕ
  pub a_pass : ℕ
  pub b_pass : ℕ
  pub agreement : ℕ

-- `sum(1 for x in xs if p(x))`
unfoldable pub count_if {ℓ} : {A : Type ℓ} → (A → Bool) → List A → ℕ
count_if p [] = 0
count_if p (x ∷ xs) = (if p x then 1 else 0) + count_if p xs

-- `counts[t]`
unfoldable pub count_of : List Row → ℕ → Count
count_of rows t = record {
  denominator = count_if (λ x. x.route_target == t) rows;
  a_pass = count_if (λ x. x.route_target == t && x.reviewer_a.semantic_pass) rows;
  b_pass = count_if (λ x. x.route_target == t && x.reviewer_b.semantic_pass) rows;
  agreement = count_if (λ x. x.route_target == t && x.agree) rows;
}

pub record Report : Type 0 where
  pub rows : List Row
  pub counts : ℕ → Count
  pub truncated : ℕ
  pub total : ℕ

abbrev pub iff : Bool → Bool → Bool
iff a b = if a then b else not b

module _ (digest : Text → Text → Text → Text → Bool → Text) (lower : Text → Text) where
  -- `packet()`
  unfoldable pub packet : FreeReply → Packet
  packet r =
      let reply = removesuffix r.text im_end in
      let truncated = is_budget r.stop_reason in
      record {
        id = digest r.record_id r.language r.question_text reply truncated;
        language = r.language;
        question = r.question_text;
        reply = reply;
        truncated = truncated;
      }

  abbrev pub is_asked : FreeReply → ReviewClaim → Bool
  is_asked r c = lower c.subject == lower r.question_subject

  -- `correct`
  unfoldable pub is_correct : FreeReply → Review → Bool
  is_correct r adj =
      if r.route_target == 2
      then adj.acknowledges_missing_evidence && not (any (is_asked r) adj.claims)
      else if r.route_target == 0
      then any (λ c. strip c.value == r.gold_value) adj.claims && adj.natural_reply
      else any (λ c. strip c.value == r.gold_value && is_asked r c) adj.claims && adj.natural_reply

  abbrev pub item_verdict : FreeReply → Review → Verdict
  item_verdict r adj = record {
    route_target = r.route_target;
    semantic_pass = is_correct r adj;
    natural_reply = adj.natural_reply;
    unsolicited_memory_narration = adj.unsolicited_memory_narration;
    acknowledges_missing_evidence = adj.acknowledges_missing_evidence;
  }

  abbrev pub row_of : FreeReply → Review → Review → Row
  row_of r a b = record {
    packet_id = (packet r).id;
    record_id = r.record_id;
    route_target = r.route_target;
    reviewer_a = item_verdict r a;
    reviewer_b = item_verdict r b;
    agree = iff (is_correct r a) (is_correct r b);
  }

  -- One turn of the loop over the replies.
  unfoldable pub judge_reply : Dict Text Review → Dict Text Review → FreeReply → Result Row
  judge_reply by_a by_b r = do
    a ← or_raise (lookup (packet r).id by_a) (transport_error "missing adjudication in a reviewer")
    b ← or_raise (lookup (packet r).id by_b) (transport_error "missing adjudication in a reviewer")
    ok (row_of r a b)

  unfoldable pub judge_all :
      Dict Text Review → Dict Text Review → List FreeReply → Result (List Row)
  judge_all by_a by_b [] = ok []
  judge_all by_a by_b (r ∷ rs) = do
    row ← judge_reply by_a by_b r
    rows ← judge_all by_a by_b rs
    ok (row ∷ rows)

  unfoldable pub aggregate : List FreeReply → List Review → List Review → Result Report
  aggregate replies review_a review_b = do
    require (not (is_empty replies)) "reviews and reply list required"
    rows ← judge_all (index (λ a. a.packet_id) review_a) (index (λ a. a.packet_id) review_b) replies
    ok (record {
      rows = rows;
      counts = count_of rows;
      truncated = count_if (λ r. is_budget r.stop_reason) replies;
      total = length replies;
    })
