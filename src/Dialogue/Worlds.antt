-- ===== src/Dialogue/Worlds.antt =====
-- python/prepare_repeated_dialogue_curriculum.py: `build_world`, the questions of a world.
pub mod Questions
pub mod Asking
pub mod Builds
pub mod Complete
pub mod Answers
pub mod Told
pub mod Truth
use bit_net.Base.{
  ℕ, zero, suc, ◌+◌, ◌*◌, ◌%◌, true, false, not, ◌||◌, none, some, List, [], ◌∷◌, ◌++◌, ltb,
  if◌then◌else◌, ◌==◌, nat_eq, length, is_empty, Result, ok, ◌>>=◌, ◌>>◌, guard, lit, value_error,
}
use bit_net.Dialogue.Catalog.{Predicate}
use bit_net.Dialogue.Format.{format, item, item_back, modulo}
use bit_net.Dialogue.Bank.{Random, Catalogue, Fact, choice, Bank, build_episode_bank}
use bit_net.Dialogue.Rows.{
  single, several, Row, make_row, Family, direct, paraphrase, temporal, previous, multi, null,
  family_name, families, active_target, plan_of, latest_of, repeated_of,
}

-- `second` of a question on two facts: the next latest fact, or the one after it.
unfoldable pub second_fact : List Fact → List ℕ → ℕ → Fact → Result Fact
second_fact facts latest selector fact = do
  next ← modulo (selector + 1) (length latest)
  place ← item latest next
  second ← item facts place
  if second.event == fact.event
      then (modulo (selector + 2) (length latest) >>= λ after.
          item latest after >>= λ other. item facts other)
      else ok second

module _ (r : Random) where
  open r use {State}

  -- One turn of the loop over the queries: its row, and the generator's state.
  unfoldable pub ask_direct : ℕ → ℕ → Bank r → Fact → Result Row
  unfolding make_row
  ask_direct world query_index bank fact =
      make_row world query_index bank.episodes bank.facts
        (lit "What is " ++ fact.speaker ++ lit "'s current " ++ fact.predicate ++ lit "?")
        (single fact.value) (fact.event ∷ []) (fact.value ∷ []) (family_name direct) false
        (plan_of (lit "current") (active_target fact ∷ []))

  unfoldable pub ask_paraphrase : ℕ → ℕ → Bank r → Fact → Predicate → State → Result (Row × State)
  unfolding make_row choice
  ask_paraphrase world query_index bank fact predicate rng = do
    drawn ← choice r predicate.questions rng
    question ← format drawn.0 ((lit "speaker", fact.speaker) ∷ [])
    row ←
        make_row world query_index bank.episodes bank.facts question (single fact.value)
          (fact.event ∷ []) (fact.value ∷ []) (family_name paraphrase) false
          (plan_of (lit "current") (active_target fact ∷ []))
    ok (row, drawn.1)

  unfoldable pub ask_temporal : ℕ → ℕ → Bank r → Fact → Result Row
  unfolding make_row
  ask_temporal world query_index bank fact =
      make_row world query_index bank.episodes bank.facts
        (lit "When did "
          ++ fact.speaker
          ++ lit " say their "
          ++ fact.predicate
          ++ lit " was "
          ++ fact.value
          ++ lit "?")
        (single fact.date) (fact.event ∷ []) (fact.date ∷ []) (family_name temporal) false
        (plan_of (lit "exact_time") (
          record {
            entity = fact.speaker;
            predicate = fact.predicate;
            version = lit "exact";
            value = some fact.value;
            time = some fact.date;
            anchor_episode = none;
          }
          ∷ []))

  unfoldable pub ask_previous : ℕ → ℕ → Bank r → List (List ℕ) → Result Row
  unfolding make_row
  ask_previous world query_index bank repeated = do
    place ← modulo (world + query_index) (length repeated)
    values ← item repeated place
    old_place ← item_back values 1
    old ← item bank.facts old_place
    new_place ← item_back values 0
    new ← item bank.facts new_place
    make_row world query_index bank.episodes bank.facts
        (lit "What was "
          ++ old.speaker
          ++ lit "'s "
          ++ old.predicate
          ++ lit " before "
          ++ new.value
          ++ lit "?")
        (single old.value) (old.event ∷ []) (old.value ∷ []) (family_name previous) false
        (plan_of (lit "previous") (
          record {
            entity = old.speaker;
            predicate = old.predicate;
            version = lit "previous";
            value = none;
            time = none;
            anchor_episode = some new.event;
          }
          ∷ []))

  unfoldable pub ask_multi : ℕ → ℕ → Bank r → List ℕ → ℕ → Fact → Result Row
  unfolding make_row second_fact
  ask_multi world query_index bank latest selector fact = do
    second ← second_fact bank.facts latest selector fact
    make_row world query_index bank.episodes bank.facts
        (lit "What are the current "
          ++ fact.predicate
          ++ lit " for "
          ++ fact.speaker
          ++ lit " and "
          ++ second.predicate
          ++ lit " for "
          ++ second.speaker
          ++ lit "?")
        (several (fact.value ∷ second.value ∷ [])) (fact.event ∷ second.event ∷ [])
        (fact.value ∷ second.value ∷ []) (family_name multi) false
        (plan_of (lit "multi_current") (active_target fact ∷ active_target second ∷ []))

  unfoldable pub ask_null : ℕ → ℕ → Bank r → Result Row
  unfolding make_row
  ask_null world query_index bank = do
    place ← modulo (world + query_index) (length bank.speakers)
    speaker ← item bank.speakers place
    make_row world query_index bank.episodes bank.facts
        (lit "What is " ++ speaker ++ lit "'s emergency contact preference?")
        (single (lit "No information available")) [] [] (family_name null) true
        (record {
          intent = lit "null";
          entity = some speaker;
          predicate = some (lit "emergency contact preference");
          targets = [];
        })

  -- The branches that draw nothing keep the generator's state.
  abbrev with_state : Result Row → State → Result (Row × State)
  with_state row rng = row >>= λ made. ok (made, rng)

  unfoldable pub ask_family :
      ℕ
      → ℕ
      → Bank r
      → List ℕ
      → List (List ℕ)
      → ℕ
      → Fact
      → Predicate
      → Family
      → State
      → Result (Row × State)
  unfolding ask_direct ask_paraphrase ask_temporal ask_previous ask_multi ask_null
  ask_family world query_index bank latest repeated selector fact predicate direct rng =
      with_state (ask_direct world query_index bank fact) rng
  ask_family world query_index bank latest repeated selector fact predicate paraphrase rng =
      ask_paraphrase world query_index bank fact predicate rng
  ask_family world query_index bank latest repeated selector fact predicate temporal rng =
      with_state (ask_temporal world query_index bank fact) rng
  ask_family world query_index bank latest repeated selector fact predicate previous rng =
      with_state (ask_previous world query_index bank repeated) rng
  ask_family world query_index bank latest repeated selector fact predicate multi rng =
      with_state (ask_multi world query_index bank latest selector fact) rng
  ask_family world query_index bank latest repeated selector fact predicate null rng =
      with_state (ask_null world query_index bank) rng

  unfoldable pub ask :
      ℕ → ℕ → Bank r → List Predicate → List ℕ → List (List ℕ) → State → Result (Row × State)
  unfolding ask_family
  ask world query_index bank predicates latest repeated rng = do
    family ← item families (query_index % 6)
    selector ← modulo (world * 17 + query_index * 11) (length latest)
    place ← item latest selector
    fact ← item bank.facts place
    predicate ← item predicates fact.predicate_index
    ask_family world query_index bank latest repeated selector fact predicate family rng

  -- `for query_index in range(queries)`, from a query on
  unfoldable pub ask_all :
      ℕ → Bank r → List Predicate → List ℕ → List (List ℕ) → ℕ → ℕ → State → Result (List Row)
  unfolding ask
  ask_all world bank predicates latest repeated query_index zero rng = ok []
  ask_all world bank predicates latest repeated query_index (suc left) rng = do
    asked ← ask world query_index bank predicates latest repeated rng
    rows ← ask_all world bank predicates latest repeated (suc query_index) left asked.1
    ok (asked.0 ∷ rows)

  unfoldable pub build_world : ℕ → ℕ → ℕ → State → Catalogue → Result (List Row)
  unfolding build_episode_bank latest_of repeated_of ask_all
  build_world world events queries rng catalogue = do
    bank ← build_episode_bank r world events rng catalogue
    latest ← latest_of bank.history
    let repeated = repeated_of bank.history
    guard (not (ltb (length latest) 2 || is_empty repeated))
        (value_error "dialogue bank lacks repeated facts")
    ask_all world bank catalogue.predicates latest repeated 0 queries bank.rng
