-- ===== src/Contract/Context/Laws.antt =====
-- What the constructor of a context establishes for its messages.
use bit_net.Contract.Message.{Message}
use bit_net.Contract.Context.{ConversationContext, ascending, check_member, post_init}
use bit_net.Base.{
  ℕ, ◌≤◌, ◌<◌, ◌≡◌, true, List, [], ◌∷◌, arith, eq_iff, nat_eq, text_eq, option_eq, All, ok, each,
}

-- Every message comes before all later ones.
abbrev pub IsChronological : List Message → Type 0
IsChronological [] = Unit
IsChronological (m ∷ ms) = All (λ n. m.sequence < n.sequence) ms × IsChronological ms

All-lt_trans :
    (i j : ℕ) (ms : List Message)
    → i < j
    → All (λ n. j < n.sequence) ms
    → All (λ n. i < n.sequence) ms
All-lt_trans i j [] h a = tt
All-lt_trans i j (m ∷ ms) h a = (omega (arith, a.0), All-lt_trans i j ms h a.1)

ascending-IsChronological : (ms : List Message) → ascending ms ≡ true → IsChronological ms
ascending-IsChronological [] h = tt
ascending-IsChronological (m ∷ []) h = (tt, tt)
ascending-IsChronological (m ∷ n ∷ ms) h =
    let later = ascending-IsChronological (n ∷ ms) (ground arith) in
    let step : m.sequence < n.sequence = ground arith in
    ((step, All-lt_trans m.sequence n.sequence ms step later.0), later)

abbrev pub Belongs : ConversationContext → Message → Type 0
Belongs c m =
    (m.scope ≡ c.scope) × (m.conversation_id ≡ c.conversation_id) × (m.observed_at_ms ≤ c.at_ms)

members-belong :
    (c : ConversationContext) (ms : List Message)
    → each (check_member c) ms ≡ ok tt
    → All (Belongs c) ms
members-belong c [] h = tt
members-belong c (m ∷ ms) h = (
  ground (arith, eq_iff m.scope c.scope, eq_iff m.conversation_id c.conversation_id),
  members-belong c ms (ground arith),
)

-- In a context that its constructor accepts each message has a smaller number than every later
-- one, all belong to the conversation, and none was observed after the request.
pub post_init-IsChronological :
    (c : ConversationContext)
    → post_init c ≡ ok tt
    → IsChronological c.messages × All (Belongs c) c.messages
unfolding post_init
post_init-IsChronological c h = (
  ascending-IsChronological c.messages (ground arith),
  members-belong c c.messages (ground arith),
)
