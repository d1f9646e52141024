-- ===== src/Contract/Read/Laws.antt =====
-- What a validated read can show.
use bit_net.Base.Dict.{lookup, index, lookup-index-Some, lookup-index-key}
use bit_net.Contract.Values.{binding_eq}
use bit_net.Contract.Message.{message_eq}
use bit_net.Contract.Span.{SourceSpan, span_eq}
use bit_net.Contract.Episode.{Episode}
use bit_net.Contract.State.{MemoryState}
use bit_net.Contract.Read.{
  disabled, not_needed, missing, conflict, available, Activation, ReadContext, post_init, is_inside,
  check_payload, check_activated, live, validate_against,
}
use bit_net.Base.{
  ◌≤◌, ◌<◌, ◌≡◌, ◌↔◌, ◌⊎◌, refl, inl, inr, Bool, true, false, List, [], ◌∷◌, arith, if◌then◌else◌,
  Bool-cases, Option-cases, eq_iff, nat_eq, text_eq, option_eq, any, is_empty, All, Some, ok, each,
}

-- A payload lies in a source of the event, in the bytes of the same message.
abbrev pub IsShown : Episode → SourceSpan → Type 0
IsShown e p =
    Some
      (λ s.
        (p.message ≡ s.message)
        × (s.start_byte ≤ p.start_byte)
        × (p.start_byte < p.end_byte)
        × (p.end_byte ≤ s.end_byte))
      e.sources

any-shown :
    (p : SourceSpan) (ss : List SourceSpan)
    → any (is_inside p) ss ≡ true
    → Some
        (λ s.
          (p.message ≡ s.message)
          × (s.start_byte ≤ p.start_byte)
          × (p.start_byte < p.end_byte)
          × (p.end_byte ≤ s.end_byte))
        ss
any-shown p [] h = cc
any-shown p (s ∷ ss) h = elim (Bool-cases (is_inside p s)) [
  | inl here ↦ inl (ground (arith, eq_iff p.message s.message))
  | inr other ↦ inr (any-shown p ss (ground arith))
]

payloads-IsShown :
    (e : Episode) (ps : List SourceSpan) → each (check_payload e) ps ≡ ok tt → All (IsShown e) ps
payloads-IsShown e [] h = tt
payloads-IsShown e (p ∷ ps) h =
    (any-shown p e.sources (ground arith), payloads-IsShown e ps (ground arith))

-- What an activation may show: payloads inside a live episode of that identity.
abbrev pub IsBacked : List Episode → Activation → Type 0
IsBacked es a =
    Some (λ e. (e.retracted ≡ false) × ((e.event_id ≡ a.event_id) × All (IsShown e) a.payloads)) es

module _ (P : Episode → Type 0) where
  abbrev LiveWith : Episode → Type 0
  LiveWith e = (e.retracted ≡ false) × P e

  live-Some_step :
      (b : Bool) (e : Episode) (es : List Episode)
      → e.retracted ≡ b
      → (Some P (live es) → Some LiveWith es)
      → Some P (if b then live es else e ∷ live es)
      → Some LiveWith (e ∷ es)
  live-Some_step true e es r rest h = inr (rest h)
  live-Some_step false e es r rest (inl here) = inl (r, here)
  live-Some_step false e es r rest (inr later) = inr (rest later)

  live-Some : (es : List Episode) → Some P (live es) → Some LiveWith es
  live-Some [] h = absurd h
  live-Some (e ∷ es) h = live-Some_step e.retracted e es refl (live-Some es) h

activated-IsBacked :
    (es : List Episode) (a : Activation)
    → check_activated (index (λ x. x.event_id) (live es)) a ≡ ok tt
    → IsBacked es a
activated-IsBacked es a h =
    elim (Option-cases (lookup a.event_id (index (λ (x : Episode). x.event_id) (live es)))) [
      | inl none_found ↦ absurd (ground arith)
      | inr (e, found) ↦
          live-Some (λ x. (x.event_id ≡ a.event_id) × All (IsShown x) a.payloads) es
            (lookup-index-Some (λ (x : Episode). x.event_id) a.event_id (live es) {v = e} found
              (λ x. (x.event_id ≡ a.event_id) × All (IsShown x) a.payloads)
              (
                lookup-index-key (λ (x : Episode). x.event_id) a.event_id (live es) {v = e} found,
                payloads-IsShown e a.payloads (ground arith),
              ))
    ]

activated-All :
    (es : List Episode) (activations : List Activation)
    → each (check_activated (index (λ x. x.event_id) (live es))) activations ≡ ok tt
    → All (IsBacked es) activations
activated-All es [] h = tt
activated-All es (a ∷ rest) h =
    (activated-IsBacked es a (ground arith), activated-All es rest (ground arith))

-- A validated read belongs to the snapshot's scope, revision and model, and each of its activations
-- has an episode of the snapshot that is not retracted and has its identity, such that every payload
-- lies within the bytes of one of that episode's sources.
pub validate_against-IsBacked :
    (r : ReadContext) (s : MemoryState)
    → validate_against r s ≡ ok tt
    → (r.scope ≡ s.scope)
      × (r.revision ≡ s.revision)
      × (r.binding ≡ s.binding)
      × All (IsBacked s.episodes) r.activations
unfolding validate_against
validate_against-IsBacked r s h = (
  ground (arith, eq_iff r.scope s.scope),
  ground (arith, eq_iff r.revision s.revision),
  ground (arith, eq_iff r.binding s.binding),
  activated-All s.episodes r.activations (ground arith),
)

-- A read that its constructor accepts shows no activation exactly when its availability is
-- disabled, not needed or missing.
pub post_init-is_empty :
    (r : ReadContext)
    → post_init r ≡ ok tt
    → (is_empty r.activations ≡ true)
      ↔ ((r.availability ≡ disabled) ⊎ (r.availability ≡ not_needed) ⊎ (r.availability ≡ missing))
unfolding post_init
post_init-is_empty r h =
    elim r.availability
        as (λ x.
          r.availability ≡ x
          → (is_empty r.activations ≡ true) ↔ ((x ≡ disabled) ⊎ (x ≡ not_needed) ⊎ (x ≡ missing))) [
            | disabled ↦ λ e. ((λ _. inl refl), (λ _. ground arith))
            | not_needed ↦ λ e. ((λ _. inr (inl refl)), (λ _. ground arith))
            | missing ↦ λ e. ((λ _. inr (inr refl)), (λ _. ground arith))
            | conflict ↦ λ e. ((λ k. absurd (ground arith)), (λ k. ground arith))
            | available ↦ λ e. ((λ k. absurd (ground arith)), (λ k. ground arith))
          ]
      refl
