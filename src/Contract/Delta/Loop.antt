-- ===== src/Contract/Delta/Loop.antt =====
-- The loop of `WriteDelta.validate_against` carries two sets from one operation to the next. What it
-- accepts is said here without them, by conditions on the whole batch.
use bit_net.Base.Dict.{Dict, lookup, contains}
use bit_net.Base.Sets.{disjoint-append, disjoint-append_right, distinct-append, disjoint_comm}
use bit_net.Contract.Message.{Message, message_eq}
use bit_net.Contract.Context.{ConversationContext}
use bit_net.Contract.Span.{SourceSpan}
use bit_net.Contract.Episode.{Episode}
use bit_net.Contract.State.{MemoryState}
use bit_net.Contract.Operation.{WriteOperation}
use bit_net.Contract.Delta.{
  Seen, is_live_target, mutates, mark_mutated, check_span, existing, messages, admit_candidate,
  admit, admit_all,
}
use mathlib.Core.Path.{ap₂}
use bit_net.Base.{guard-eq-ok, bind-eq-ok, drop_value-eq-ok}
use bit_net.Base.{
  ◌≡◌, refl, sym, ap, ◌∙◌, ◌↔◌, Bool, true, not, ◌&&◌, Option, none, some, List, [], ◌∷◌, ◌++◌,
  arith, if◌then◌else◌, ◌==◌, nat_eq, text_eq, option_eq, all, all-append, elem, distinct, disjoint,
  value_error, ok, ◌>>=◌, drop_value, each, Text, lit,
}

-- The identity that an operation adds, and the targets that it replaces or retracts.
abbrev pub own_ids : Option Episode → List Text
own_ids none = []
own_ids (some e) = e.event_id ∷ []

abbrev pub own_mutated : WriteOperation → List Text
own_mutated w = if mutates w.operation then w.target_ids else []

abbrev pub candidate_ids : List WriteOperation → List Text
candidate_ids [] = []
candidate_ids (w ∷ ws) = own_ids w.candidate ++ candidate_ids ws

abbrev pub mutated_ids : List WriteOperation → List Text
mutated_ids [] = []
mutated_ids (w ∷ ws) = own_mutated w ++ mutated_ids ws

-- A source is a user's or a tool's message of the context, word for word.
abbrev pub span_fits : Dict Text Message → SourceSpan → Bool
span_fits messages span =
    lookup span.message.message_id messages == some span.message
    && elem span.message.role (lit "user" ∷ lit "tool" ∷ [])

module _ (state : MemoryState) (context : ConversationContext) where
  abbrev pub candidate_fits : Option Episode → Bool
  candidate_fits none = true
  candidate_fits (some e) =
      e.scope == state.scope
      && e.learned_at_ms == context.at_ms
      && all (span_fits (messages state context)) e.sources

  -- What is asked of one operation whatever the others are.
  abbrev pub fits : WriteOperation → Bool
  fits w = all (is_live_target (existing state context)) w.target_ids && candidate_fits w.candidate

  abbrev pub is_fresh : Text → Bool
  is_fresh id = not (contains id (existing state context))

  abbrev pub next : WriteOperation → Seen → Seen
  next w seen = record {
    new_ids = own_ids w.candidate ++ seen.new_ids;
    mutated = own_mutated w ++ seen.mutated;
  }

  abbrev pub accepts : WriteOperation → Seen → Bool
  accepts w seen =
      fits w
      && all is_fresh (own_ids w.candidate)
      && disjoint (own_ids w.candidate) seen.new_ids
      && disjoint (own_mutated w) seen.mutated

  each-span_fits :
      (spans : List SourceSpan)
      → (each (check_span (messages state context)) spans ≡ ok tt)
        ↔ (all (span_fits (messages state context)) spans ≡ true)
  each-span_fits [] = ((λ h. refl), (λ h. refl))
  each-span_fits (s ∷ spans) = ground (arith, each-span_fits spans)

  -- What is asked of the candidate, given the identities that came before.
  abbrev candidate_accepts : Option Episode → List Text → Bool
  candidate_accepts c new_ids =
      candidate_fits c && (all is_fresh (own_ids c) && disjoint (own_ids c) new_ids)

  candidate_accepts-admit :
      (c : Option Episode) (seen : Seen)
      → candidate_accepts c seen.new_ids ≡ true
      → admit_candidate state context c seen
        ≡ ok (record seen { new_ids = own_ids c ++ seen.new_ids })
  unfolding admit_candidate
  candidate_accepts-admit none seen h = refl
  candidate_accepts-admit (some c) seen h = ground (arith, each-span_fits c.sources)

  admit-candidate_accepts :
      (c : Option Episode) (seen r : Seen)
      → admit_candidate state context c seen ≡ ok r
      → (candidate_accepts c seen.new_ids ≡ true)
        × (r ≡ record seen { new_ids = own_ids c ++ seen.new_ids })
  unfolding admit_candidate
  admit-candidate_accepts none seen r h = ground arith
  admit-candidate_accepts (some c) seen r h = ground (arith, each-span_fits c.sources)

mark_mutated-accepts :
    (w : WriteOperation) (seen : Seen)
    → disjoint (own_mutated w) seen.mutated ≡ true
    → mark_mutated w seen ≡ ok (record seen { mutated = own_mutated w ++ seen.mutated })
unfolding mark_mutated
mark_mutated-accepts w seen h = ground arith

accepts-mark_mutated :
    (w : WriteOperation) (seen r : Seen)
    → mark_mutated w seen ≡ ok r
    → (disjoint (own_mutated w) seen.mutated ≡ true)
      × (r ≡ record seen { mutated = own_mutated w ++ seen.mutated })
unfolding mark_mutated
accepts-mark_mutated w seen r h = ground arith

module _ (state : MemoryState) (context : ConversationContext) where
  admit-accepts :
      (w : WriteOperation) (seen : Seen)
      → accepts state context w seen ≡ true
      → admit state context w seen ≡ ok (next state context w seen)
  unfolding admit
  admit-accepts w seen h = ground (
    arith,
    mark_mutated-accepts w seen,
    candidate_accepts-admit state context w.candidate
        (record seen { mutated = own_mutated w ++ seen.mutated }),
  )

  accepts-admit :
      (w : WriteOperation) (seen r : Seen)
      → admit state context w seen ≡ ok r
      → (accepts state context w seen ≡ true) × (r ≡ next state context w seen)
  unfolding admit
  accepts-admit w seen r h =
      let (live, rest) =
        guard-eq-ok (all (is_live_target (existing state context)) w.target_ids)
          (value_error "target missing or retracted")
          (mark_mutated w seen >>= λ marked. admit_candidate state context w.candidate marked) h in
      let (marked, m, c) =
        bind-eq-ok (mark_mutated w seen)
          (λ marked. admit_candidate state context w.candidate marked) rest in
      ground (
        arith,
        accepts-mark_mutated w seen marked m,
        admit-candidate_accepts state context w.candidate marked r c,
      )

  -- The whole batch, without the loop's sets: what they hold at the start is `seen`.
  abbrev pub batch_accepts : List WriteOperation → Seen → Bool
  batch_accepts ws seen =
      all (fits state context) ws
      && all (is_fresh state context) (candidate_ids ws)
      && (distinct (candidate_ids ws) && disjoint (candidate_ids ws) seen.new_ids)
      && (distinct (mutated_ids ws) && disjoint (mutated_ids ws) seen.mutated)

  -- Each operation has its targets once, as the constructor of an operation checks.
  abbrev pub targets_distinct : List WriteOperation → Bool
  targets_distinct ws = all (λ w. distinct w.target_ids) ws

  distinct-own_ids : (c : Option Episode) → distinct (own_ids c) ≡ true
  distinct-own_ids none = refl
  distinct-own_ids (some c) = refl

  distinct-own_mutated :
      (w : WriteOperation) → distinct w.target_ids ≡ true → distinct (own_mutated w) ≡ true
  distinct-own_mutated w h = ground arith

  -- One operation in front of a batch, in terms of the operation and the rest.
  batch_accepts-cons :
      (w : WriteOperation) (ws : List WriteOperation) (seen : Seen)
      → distinct w.target_ids ≡ true
      → batch_accepts (w ∷ ws) seen
        ≡ (accepts state context w seen && batch_accepts ws (next state context w seen))
  batch_accepts-cons w ws seen h =
      let ids = own_ids w.candidate in
      let muts = own_mutated w in
      let ids' = candidate_ids ws in
      let muts' = mutated_ids ws in
      ground (
        arith,
        all-append (is_fresh state context) ids ids',
        distinct-append ids ids',
        distinct-append muts muts',
        disjoint-append ids ids' seen.new_ids,
        disjoint-append muts muts' seen.mutated,
        disjoint-append_right ids' ids seen.new_ids,
        disjoint-append_right muts' muts seen.mutated,
        disjoint_comm ids ids',
        disjoint_comm muts muts',
        distinct-own_ids w.candidate,
        distinct-own_mutated w h,
      )

  batch_accepts-admit_all :
      (ws : List WriteOperation) (seen : Seen)
      → targets_distinct ws ≡ true
      → batch_accepts ws seen ≡ true
      → drop_value (admit_all state context ws seen) ≡ ok tt
  unfolding admit_all
  batch_accepts-admit_all [] seen d h = refl
  batch_accepts-admit_all (w ∷ ws) seen d h = ground (
    arith,
    batch_accepts-cons w ws seen,
    admit-accepts w seen,
    batch_accepts-admit_all ws (next state context w seen),
  )

  admit_all-batch_accepts :
      (ws : List WriteOperation) (seen : Seen)
      → targets_distinct ws ≡ true
      → drop_value (admit_all state context ws seen) ≡ ok tt
      → batch_accepts ws seen ≡ true
  unfolding admit_all
  admit_all-batch_accepts [] seen d h = refl
  admit_all-batch_accepts (w ∷ ws) seen d h =
      let (r, e) = drop_value-eq-ok (admit_all state context (w ∷ ws) seen) h in
      let (s, m, k) =
        bind-eq-ok (admit state context w seen) (λ s. admit_all state context ws s) e in
      let (yes_w, is_next) = accepts-admit w seen s m in
      let rest =
        admit_all-batch_accepts ws (next state context w seen) (ground arith)
          (ap (λ t. drop_value (admit_all state context ws t)) (sym is_next) ∙ ap drop_value k) in
      batch_accepts-cons w ws seen (ground arith) ∙ ap₂ ◌&&◌ yes_w rest

  -- Carrying the two sets through the loop comes to the conditions on the whole batch.
  pub admit_all_iff :
      (ws : List WriteOperation) (seen : Seen)
      → targets_distinct ws ≡ true
      → (drop_value (admit_all state context ws seen) ≡ ok tt) ↔ (batch_accepts ws seen ≡ true)
  admit_all_iff ws seen d = (admit_all-batch_accepts ws seen d, batch_accepts-admit_all ws seen d)
