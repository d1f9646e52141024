-- ===== src/Contract/Delta/Admission.antt =====
-- What `WriteDelta.validate_against` accepts, and what follows for the state and the sources.
use bit_net.Base.Dict.{lookup, contains-index, elem-lookup-index}
use mathlib.Core.List.{map-append}
use bit_net.Base.Sets.{disjoint-nil, distinct-append, disjoint_comm}
use bit_net.Contract.Message.{Message, message_eq}
use bit_net.Contract.Context
use bit_net.Contract.Context.{ConversationContext}
use bit_net.Contract.Span.{SourceSpan, span_eq}
use bit_net.Contract.Episode.{Episode}
use bit_net.Contract.State
use bit_net.Contract.State.{MemoryState}
use bit_net.Contract.Operation.{WriteOperation}
use bit_net.Contract.Delta.{WriteDelta, messages, validate_against}
use bit_net.Contract.Delta.Loop.{
  candidate_ids, mutated_ids, span_fits, fits, is_fresh, targets_distinct, batch_accepts,
  admit_all_iff,
}
use bit_net.Base.{
  ◌≤◌, ◌≡◌, refl, ◌↔◌, inl, inr, Bool, true, ◌&&◌, none, some, List, [], ◌∷◌, ◌++◌, map, arith,
  Option-cases, ◌==◌, eq_iff, nat_eq, text_eq, option_eq, all, All, all-append, elem, distinct,
  disjoint, ok, each, Text, lit,
}

-- A batch that may be written over a snapshot in the context of a request.
pub record IsAdmissible (d : WriteDelta) (s : MemoryState) (c : ConversationContext) : Type 0 where
  pub same_scope : d.scope ≡ s.scope
  pub context_scope : s.scope ≡ c.scope
  pub same_revision : d.base_revision ≡ s.revision
  pub same_request : d.request_id ≡ c.request_id
  pub each_fits : all (fits s c) d.operations ≡ true
  pub fresh : all (is_fresh s c) (candidate_ids d.operations) ≡ true
  pub added_once : distinct (candidate_ids d.operations) ≡ true
  pub mutated_once : distinct (mutated_ids d.operations) ≡ true

abbrev batch : WriteDelta → MemoryState → ConversationContext → Bool
batch d s c = batch_accepts s c d.operations (record { new_ids = []; mutated = [] })

batch_parts :
    (d : WriteDelta) (s : MemoryState) (c : ConversationContext)
    → batch d s c ≡ (
        all (fits s c) d.operations
        && (all (is_fresh s c) (candidate_ids d.operations)
            && (distinct (candidate_ids d.operations) && distinct (mutated_ids d.operations))))
batch_parts d s c =
    ground
      (arith, disjoint-nil (candidate_ids d.operations), disjoint-nil (mutated_ids d.operations))

-- A batch whose operations each name their targets once is accepted over a snapshot in a context exactly when it is admissible: same scope, revision
-- and request; every operation fits by itself; no identity is added that exists or is added twice;
-- and no target is replaced or retracted twice.
pub validate_against_iff :
    (d : WriteDelta) (s : MemoryState) (c : ConversationContext)
    → targets_distinct s c d.operations ≡ true
    → (validate_against d s c ≡ ok tt) ↔ IsAdmissible d s c
unfolding validate_against
validate_against_iff d s c h = (
  λ v. ground (
    arith,
    batch_parts d s c,
    admit_all_iff s c d.operations (record { new_ids = []; mutated = [] }) h,
    eq_iff d.scope s.scope,
    eq_iff s.scope c.scope,
    eq_iff d.request_id c.request_id,
  ),
  λ a. ground (
    arith,
    batch_parts d s c,
    admit_all_iff s c d.operations (record { new_ids = []; mutated = [] }) h,
    eq_iff d.scope s.scope,
    eq_iff s.scope c.scope,
    eq_iff d.request_id c.request_id,
  ),
)

abbrev pub candidates : List WriteOperation → List Episode
candidates [] = []
candidates (w ∷ ws) = elim w.candidate [ none ↦ candidates ws | some e ↦ e ∷ candidates ws ]

candidates-event_id :
    (ws : List WriteOperation) → map (λ e. e.event_id) (candidates ws) ≡ candidate_ids ws
candidates-event_id [] = refl
candidates-event_id (w ∷ ws) = ground (arith, candidates-event_id ws)

candidates-scope :
    (s : MemoryState) (c : ConversationContext) (ws : List WriteOperation)
    → all (fits s c) ws ≡ true
    → all (λ e. e.scope == s.scope) (candidates ws) ≡ true
candidates-scope s c [] h = refl
candidates-scope s c (w ∷ ws) h = ground (arith, candidates-scope s c ws)

fresh-disjoint :
    (s : MemoryState) (c : ConversationContext) (ids : List Text)
    → all (is_fresh s c) ids ≡ true
    → disjoint ids (map (λ e. e.event_id) s.episodes) ≡ true
fresh-disjoint s c [] h = refl
fresh-disjoint s c (id ∷ ids) h =
    ground
      (arith, contains-index (λ (e : Episode). e.event_id) id s.episodes, fresh-disjoint s c ids)

-- The snapshot with the candidates of the batch behind its episodes.
abbrev pub with_candidates : WriteDelta → MemoryState → MemoryState
with_candidates d s = record s { episodes = s.episodes ++ candidates d.operations }

-- Where a batch whose operations each name their targets once is accepted over a snapshot that its
-- constructor accepts, the snapshot with all candidates of the batch behind its episodes is
-- accepted by the constructor too.
pub validate_against-post_init :
    (d : WriteDelta) (s : MemoryState) (c : ConversationContext)
    → targets_distinct s c d.operations ≡ true
    → State.post_init s ≡ ok tt
    → validate_against d s c ≡ ok tt
    → State.post_init (with_candidates d s) ≡ ok tt
unfolding State.post_init
validate_against-post_init d s c t h v =
    let a = (validate_against_iff d s c t).0 v in
    let old = map (λ (e : Episode). e.event_id) s.episodes in
    let new = map (λ (e : Episode). e.event_id) (candidates d.operations) in
    ground (
      arith,
      all-append (λ (e : Episode). e.scope == s.scope) s.episodes (candidates d.operations),
      candidates-scope s c d.operations a.each_fits,
      map-append (λ (e : Episode). e.event_id) s.episodes (candidates d.operations),
      distinct-append old new,
      disjoint_comm old new,
      candidates-event_id d.operations,
      fresh-disjoint s c (candidate_ids d.operations) a.fresh,
      a.added_once,
    )

-- A span of an accepted candidate quotes a message of the request's context, of a user or a tool.
abbrev pub Quotes : ConversationContext → SourceSpan → Type 0
Quotes c span =
    (elem span.message c.messages ≡ true)
    × (elem span.message.role (lit "user" ∷ lit "tool" ∷ []) ≡ true)
    × (span.message.observed_at_ms ≤ c.at_ms)

check_member-observed :
    (c : ConversationContext) (m : Message) (ms : List Message)
    → each (Context.check_member c) ms ≡ ok tt
    → elem m ms ≡ true
    → m.observed_at_ms ≤ c.at_ms
check_member-observed c m [] h e = cc
check_member-observed c m (x ∷ ms) h e = ground (arith, eq_iff m x, check_member-observed c m ms)

span_fits-Quotes :
    (s : MemoryState) (c : ConversationContext) (span : SourceSpan)
    → Context.post_init c ≡ ok tt
    → span_fits (messages s c) span ≡ true
    → Quotes c span
unfolding Context.post_init
span_fits-Quotes s c span h f =
    let found =
      elem-lookup-index (λ (m : Message). m.message_id) span.message.message_id c.messages
        {v = span.message} in
    ground (
      arith,
      found,
      check_member-observed c span.message c.messages,
      eq_iff (lookup span.message.message_id (messages s c)) (some span.message),
    )

spans-quote :
    (s : MemoryState) (c : ConversationContext) (spans : List SourceSpan)
    → Context.post_init c ≡ ok tt
    → all (span_fits (messages s c)) spans ≡ true
    → All (Quotes c) spans
spans-quote s c [] h f = tt
spans-quote s c (x ∷ spans) h f =
    (span_fits-Quotes s c x h (ground arith), spans-quote s c spans h (ground arith))

candidates-quote :
    (s : MemoryState) (c : ConversationContext) (ws : List WriteOperation)
    → Context.post_init c ≡ ok tt
    → all (fits s c) ws ≡ true
    → All (λ e. (e.learned_at_ms ≡ c.at_ms) × All (Quotes c) e.sources) (candidates ws)
candidates-quote s c [] h f = tt
candidates-quote s c (w ∷ ws) h f = elim (Option-cases w.candidate) [
  | inl e ↦ rw e (candidates-quote s c ws h (ground arith))
  | inr (x, e) ↦ rw e (
    (ground (arith, eq_iff x.learned_at_ms c.at_ms), spans-quote s c x.sources h (ground arith)),
    candidates-quote s c ws h (ground arith),
  )
]

-- In an accepted batch, whose operations each name their targets once and whose context its
-- constructor accepts, each candidate is learned at the time of the request, and each of its
-- sources is a message of the context, of a user or a tool, observed no later than the request.
pub validate_against-Quotes :
    (d : WriteDelta) (s : MemoryState) (c : ConversationContext)
    → targets_distinct s c d.operations ≡ true
    → Context.post_init c ≡ ok tt
    → validate_against d s c ≡ ok tt
    → All (λ e. (e.learned_at_ms ≡ c.at_ms) × All (Quotes c) e.sources) (candidates d.operations)
validate_against-Quotes d s c t h v =
    let a = (validate_against_iff d s c t).0 v in candidates-quote s c d.operations h a.each_fits
