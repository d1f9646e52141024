-- ===== src/Protocol/Claims.antt =====
-- `RuntimeInput`, `Claim`, `AnswerRubric` and `Adjudication` of python/neural_memory_protocol.py.
use bit_net.Contract.{require}
use bit_net.Contract.Context.{ConversationContext}
use bit_net.Contract.State.{MemoryState}
use bit_net.Base.{
  ◌≡◌, ◌↔◌, Bool, true, not, ◌&&◌, ◌||◌, List, [], ◌∷◌, arith, leb, Eq, ◌==◌, eq_iff, nat_eq,
  text_eq, option_eq, all, is_empty, subset, Check, ◌>>◌, Text, has_content,
}

pub record RuntimeInput : Type 0 where
  pub context : ConversationContext
  pub state : MemoryState

-- `RuntimeInput.__post_init__`
unfoldable pub check_input : RuntimeInput → Check
check_input i = do
  require (i.context.scope == i.state.scope) "input scope mismatch"
  require (all (λ e. leb e.learned_at_ms i.context.at_ms) i.state.episodes) "future memory"

pub record Claim : Type 0 where
  pub subject : Text
  pub relation : Text
  pub value : Text
  pub time : Text
  pub status : Text

-- `Claim.__post_init__`
unfoldable pub check_claim : Claim → Check
check_claim c =
    require (all has_content (c.subject ∷ c.relation ∷ c.value ∷ c.time ∷ c.status ∷ []))
      "complete claim required"

abbrev pub claim_beq : Claim → Claim → Bool
claim_beq a b =
    a.subject == b.subject
    && a.relation == b.relation
    && a.value == b.value
    && a.time == b.time
    && a.status == b.status

pub claim_beq_iff : (a b : Claim) → (claim_beq a b ≡ true) ↔ (a ≡ b)
claim_beq_iff a b = ground (
  arith,
  eq_iff a.subject b.subject,
  eq_iff a.relation b.relation,
  eq_iff a.value b.value,
  eq_iff a.time b.time,
  eq_iff a.status b.status,
)

instance abbrev pub claim_eq : Eq Claim
claim_eq = record { beq = claim_beq; beq_iff = claim_beq_iff }

pub record AnswerRubric : Type 0 where
  pub required : List Claim
  pub allowed : List Claim
  pub evidence_missing : Bool
  pub memory_narration_allowed : Bool

-- `AnswerRubric.__post_init__`
unfoldable pub check_rubric : AnswerRubric → Check
check_rubric r = do
  require (subset r.required r.allowed) "required claims must be allowed"
  require (not r.evidence_missing || is_empty r.required)
      "missing-evidence case cannot demand facts"

pub record Adjudication : Type 0 where
  pub response_sha256 : Text
  pub reviewer_id : Text
  pub claims : List Claim
  pub acknowledges_missing_evidence : Bool
  pub natural_reply : Bool
  pub unsolicited_memory_narration : Bool

-- `Adjudication.__post_init__`
unfoldable pub check_adjudication : Adjudication → Check
check_adjudication a =
    require (not (is_empty a.reviewer_id)) "independent reviewer identity required"
