-- ===== src/Dialogue/Worlds/Questions.antt =====
-- python/prepare_repeated_dialogue_curriculum.py: every question on a bank whose facts are supported
-- makes a row.
use bit_net.Base.{
  ℕ, suc, ◌+◌, ◌-◌, ◌%◌, ◌<◌, ◌≡◌, refl, ap, ◌∙◌, inl, inr, Bool, true, ◌&&◌, some, List, [], ◌∷◌,
  arith, ltb, Bool-cases, ◌==◌, nat_eq, text_eq, texts_eq, option_eq, length, get_elem?, all,
  key_error, Result, ok, ◌>>=◌, or_raise, Text, lit, bind-ok,
}
use bit_net.Dialogue.Format.{item, item_back, modulo}
use bit_net.Dialogue.Bank.{Random, Catalogue, Fact, Marks, Bank}
use bit_net.Dialogue.Rows.{
  Answer, QueryPlan, TypedEvent, Row, typed_event, typed_events_of, make_row,
}
use bit_net.Dialogue.Worlds.{second_fact, ask_previous}
use bit_net.Dialogue.Rows.Spans.{Stands, answer_spans_total}
use bit_net.Dialogue.Bank.Turns.{IsSupported}
use bit_net.Dialogue.Bank.Usable.{item_ok, get_elem?_total, all-get_elem?, modulo_total}

typed_events_of_total :
    (facts : List Fact)
    → ((i : ℕ) (f : Fact) → get_elem? facts i ≡ some f → (m : Marks) × (f.marks ≡ some m))
    → (events : List TypedEvent) × (typed_events_of facts ≡ ok events)
unfolding typed_events_of typed_event
typed_events_of_total [] h = ([], refl)
typed_events_of_total (f ∷ fs) h =
    let (m, marked) = h 0 f refl in
    let (events, rest) = typed_events_of_total fs (λ i g at. h (suc i) g at) in
    let marked' : or_raise f.marks (key_error (lit "operation")) ≡ ok m = rw marked refl in
    (_, bind-ok _ (bind-ok _ marked' refl) (bind-ok _ rest refl))

module _ (r : Random) (catalogue : Catalogue) (bank : Bank r) where
  -- Each fact has its place's number, a relation of the catalogue, marks and a supporting episode.
  pub record IsAskable : Type 0 where
    pub event : (i : ℕ) (f : Fact) → get_elem? bank.facts i ≡ some f → f.event ≡ i
    pub indexed :
        (i : ℕ) (f : Fact)
        → get_elem? bank.facts i ≡ some f
        → f.predicate_index < length catalogue.predicates
    pub marked :
        (i : ℕ) (f : Fact) → get_elem? bank.facts i ≡ some f → (m : Marks) × (f.marks ≡ some m)
    pub supported :
        (i : ℕ) (f : Fact) → get_elem? bank.facts i ≡ some f → IsSupported bank.episodes i f
    pub spoken : 0 < length bank.speakers

  pub make_row_total :
      (world query_index : ℕ) (question : Text) (answer : Answer) (gold : List ℕ)
      (surfaces : List Text) (family : Text) (null_target : Bool) (plan : QueryPlan)
      → IsAskable
      → Stands bank.episodes gold surfaces
      → (row : Row) × (make_row world query_index bank.episodes bank.facts question answer gold
            surfaces family null_target plan
          ≡ ok row)
  unfolding make_row
  make_row_total world query_index question answer gold surfaces family null_target plan h stands =
      let (spans, cut) = answer_spans_total bank.episodes gold surfaces stands in
      let (events, typed) = typed_events_of_total bank.facts h.marked in
      (_, bind-ok _ cut (bind-ok _ typed refl))

  -- A fact's value, or its date, stands where its event says.
  pub Stands-value :
      (i : ℕ) (f : Fact) (gold : List ℕ) (surfaces : List Text)
      → IsAskable
      → get_elem? bank.facts i ≡ some f
      → Stands bank.episodes gold surfaces
      → Stands bank.episodes (f.event ∷ gold) (f.value ∷ surfaces)
        × Stands bank.episodes (f.event ∷ gold) (f.date ∷ surfaces)
  Stands-value i f gold surfaces h at rest =
      let (episode, there, value, date) = h.supported i f at in
      let there' : get_elem? bank.episodes f.event ≡ some episode =
        ap (get_elem? bank.episodes) (h.event i f at) ∙ there in
      (((episode, there', value), rest), ((episode, there', date), rest))

  -- A place of the latest facts, at a number reduced by how many there are.
  pub latest_total :
      (latest : List ℕ) (n : ℕ)
      → 0 < length latest
      → all (λ n. ltb n (length bank.facts)) latest ≡ true
      → (a place : ℕ) × (f : Fact) × (modulo n (length latest) ≡ ok a)
        × (item latest a ≡ ok place)
        × (item bank.facts place ≡ ok f)
        × (get_elem? bank.facts place ≡ some f)
  latest_total latest n some_latest within =
      let (turn, turn_lt) = modulo_total n (length latest) some_latest in
      let (place, place_at) = get_elem?_total latest (n % length latest) turn_lt in
      let inside : ltb place (length bank.facts) ≡ true =
        all-get_elem? (λ n. ltb n (length bank.facts)) latest (n % length latest) {x = place} within
          place_at in
      let (f, at) = get_elem?_total bank.facts place (ground (arith, inside)) in
      (
        n % length latest,
        place,
        f,
        turn,
        item_ok latest (n % length latest) {x = place} place_at,
        item_ok bank.facts place {x = f} at,
        at,
      )

  pub second_fact_total :
      (latest : List ℕ) (selector : ℕ) (fact : Fact)
      → 0 < length latest
      → all (λ n. ltb n (length bank.facts)) latest ≡ true
      → (i : ℕ) × (f : Fact) × (second_fact bank.facts latest selector fact ≡ ok f)
        × (get_elem? bank.facts i ≡ some f)
  unfolding second_fact
  second_fact_total latest selector fact some_latest within =
      let (a, i, f, turn, place, found, at) =
        latest_total latest (selector + 1) some_latest within in
      let (b, j, g, turn', place', found', at') =
        latest_total latest (selector + 2) some_latest within in
      elim (Bool-cases (f.event == fact.event)) [
        | inr other ↦ (i, f, bind-ok _ turn (bind-ok _ place (bind-ok _ found (rw other refl))), at)
        | inl same ↦ (
          j,
          g,
          bind-ok _ turn (
              bind-ok _ place
                (bind-ok _ found (rw same (bind-ok _ turn' (bind-ok _ place' found'))))),
          at',
        )
      ]

  pub with_state_total :
      (call : Result Row) (rng : r.State) {row : Row}
      → call ≡ ok row
      → (asked : Row × r.State) × ((call >>= λ made. ok (made, rng)) ≡ ok asked)
  with_state_total call rng {row} done = ((row, rng), bind-ok _ done refl)

  -- Chains of two or more places.
  abbrev pub IsChains : List (List ℕ) → Type 0
  IsChains chains =
      all (λ c. ltb 1 (length c) && all (λ n. ltb n (length bank.facts)) c) chains ≡ true

  item_back_place :
      (chain : List ℕ) (back : ℕ)
      → back < length chain
      → all (λ n. ltb n (length bank.facts)) chain ≡ true
      → (place : ℕ) × (f : Fact) × (item_back chain back ≡ ok place)
        × (item bank.facts place ≡ ok f)
        × (get_elem? bank.facts place ≡ some f)
  item_back_place chain back enough within =
      let (place, place_at) =
        get_elem?_total chain (length chain - 1 - back) (omega (arith, enough)) in
      let inside : ltb place (length bank.facts) ≡ true =
        all-get_elem? (λ n. ltb n (length bank.facts)) chain (length chain - 1 - back) {x = place}
          within place_at in
      let (f, at) = get_elem?_total bank.facts place (ground (arith, inside)) in
      let test : ltb back (length chain) ≡ true = ground arith in
      (
        place,
        f,
        rw test (item_ok chain (length chain - 1 - back) {x = place} place_at),
        item_ok bank.facts place {x = f} at,
        at,
      )

  pub ask_previous_total :
      (world query_index : ℕ) (repeated : List (List ℕ))
      → IsAskable
      → 0 < length repeated
      → IsChains repeated
      → (row : Row) × (ask_previous r world query_index bank repeated ≡ ok row)
  unfolding ask_previous
  ask_previous_total world query_index repeated h some_repeated chains =
      let (turn, turn_lt) = modulo_total (world + query_index) (length repeated) some_repeated in
      let (values, values_at) =
        get_elem?_total repeated ((world + query_index) % length repeated) turn_lt in
      let good : (ltb 1 (length values) && all (λ n. ltb n (length bank.facts)) values) ≡ true =
        all-get_elem? (λ c. ltb 1 (length c) && all (λ n. ltb n (length bank.facts)) c) repeated
          ((world + query_index) % length repeated) {x = values} chains values_at in
      let parts : (1 < length values) × (all (λ n. ltb n (length bank.facts)) values ≡ true) =
        ground arith in
      let (old_place, old, old_back, old_found, old_at) =
        item_back_place values 1 parts.0 parts.1 in
      let (new_place, new, new_back, new_found, new_at) =
        item_back_place values 0 (omega (arith, parts.0)) parts.1 in
      let (row, made) =
        make_row_total world query_index _ _ (old.event ∷ []) (old.value ∷ []) _ _ _ h
          (Stands-value old_place old [] [] h old_at tt).0 in
      (
        row,
        bind-ok _ turn (
            bind-ok _ (item_ok repeated _ {x = values} values_at) (
              bind-ok _ old_back
                (bind-ok _ old_found (bind-ok _ new_back (bind-ok _ new_found made))))),
      )
