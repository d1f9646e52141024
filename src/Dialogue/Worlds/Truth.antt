-- ===== src/Dialogue/Worlds/Truth.antt =====
-- python/prepare_repeated_dialogue_curriculum.py: every row that a query makes is answered by the
-- versions of the facts.
use bit_net.Base.{
  ℕ, ◌+◌, ◌*◌, ◌%◌, ◌≡◌, false, none, some, List, [], ◌∷◌, ◌++◌, nat_eq, text_eq, texts_eq,
  option_eq, length, get_elem?, ok, lit, after_ok,
}
use bit_net.Dialogue.Catalog.{Predicate}
use bit_net.Dialogue.Format.{item, modulo}
use bit_net.Dialogue.Bank.{Random, Catalogue, Fact, Bank, build_episode_bank}
use bit_net.Dialogue.Rows.{
  single, Row, Family, direct, paraphrase, temporal, previous, multi, null, families, family_name,
  active_target, plan_of, latest_of, repeated_of,
}
use bit_net.Dialogue.Worlds.{ask_direct, ask_temporal, ask_family, ask}
use bit_net.Dialogue.Bank.Versions.{IsBuilt, build_episode_bank-IsBuilt}
use bit_net.Dialogue.Worlds.Answers.{plain_id, make_row-IsRow, IsCurrent, IsAnswered}
use bit_net.Dialogue.Worlds.Told.{
  item-ok, with_state-ok, selected-IsCurrent, ask_paraphrase-IsRow, ask_previous-IsReplaced,
  ask_multi-IsCurrent, ask_null-IsRow,
}

module _ (r : Random) (world events : ℕ) (rng : r.State) (catalogue : Catalogue) (bank : Bank r)
    (built : IsBuilt r world events rng catalogue bank) (latest : List ℕ)
    (listed : latest_of bank.history ≡ ok latest) where
  ask_family-IsAnswered :
      (query_index selector : ℕ) (fact : Fact) (predicate : Predicate) (family : Family)
      (state : r.State) (asked : Row × r.State)
      → IsCurrent r bank fact
      → get_elem? catalogue.predicates fact.predicate_index ≡ some predicate
      → ask_family r world query_index bank latest
          (repeated_of bank.history)
          selector
          fact
          predicate
          family
          state
        ≡ ok asked
      → IsAnswered r bank catalogue.predicates family asked.0
        × (asked.0.sample_id ≡ plain_id world query_index)
  unfolding ask_family ask_direct ask_temporal
  ask_family-IsAnswered query_index selector fact predicate direct state asked current its h =
      let (named, told) =
        make_row-IsRow world query_index bank.episodes bank.facts
          (lit "What is " ++ fact.speaker ++ lit "'s current " ++ fact.predicate ++ lit "?")
          (single fact.value) (fact.event ∷ []) (fact.value ∷ []) (family_name direct) false
          (plan_of (lit "current") (active_target fact ∷ [])) asked.0
          (with_state-ok _ state asked h) in
      ((fact, current, told), named)
  ask_family-IsAnswered query_index selector fact predicate paraphrase state asked current its h =
      let ((rephrased, told), named) =
        ask_paraphrase-IsRow r world events rng catalogue bank built latest listed query_index fact
          predicate state asked its h in
      ((fact, current, rephrased, told), named)
  ask_family-IsAnswered query_index selector fact predicate temporal state asked current its h =
      let (named, told) =
        make_row-IsRow world query_index bank.episodes bank.facts
          (lit "When did "
            ++ fact.speaker
            ++ lit " say their "
            ++ fact.predicate
            ++ lit " was "
            ++ fact.value
            ++ lit "?")
          (single fact.date) (fact.event ∷ []) (fact.date ∷ []) (family_name temporal) false
          (plan_of (lit "exact_time") (
            record {
              entity = fact.speaker;
              predicate = fact.predicate;
              version = lit "exact";
              value = some fact.value;
              time = some fact.date;
              anchor_episode = none;
            }
            ∷ []))
          asked.0 (with_state-ok _ state asked h) in
      ((fact, current, told), named)
  ask_family-IsAnswered query_index selector fact predicate previous state asked current its h =
      ask_previous-IsReplaced r world events rng catalogue bank built latest listed query_index
        asked.0 (with_state-ok _ state asked h)
  ask_family-IsAnswered query_index selector fact predicate multi state asked current its h =
      let ((g, other, answered), named) =
        ask_multi-IsCurrent r world events rng catalogue bank built latest listed query_index
          selector fact asked.0 (with_state-ok _ state asked h) in
      ((fact, g, current, other, answered), named)
  ask_family-IsAnswered query_index selector fact predicate null state asked current its h =
      ask_null-IsRow r world events rng catalogue bank built latest listed query_index asked.0
        (with_state-ok _ state asked h)

-- The row of a query has its name, and is answered as its family asks.
pub ask-IsTold :
    (r : Random) (world events query_index : ℕ) (rng state : r.State) (catalogue : Catalogue)
    (bank : Bank r) (latest : List ℕ) (asked : Row × r.State)
    → build_episode_bank r world events rng catalogue ≡ ok bank
    → latest_of bank.history ≡ ok latest
    → ask r world query_index bank catalogue.predicates latest (repeated_of bank.history) state
      ≡ ok asked
    → (asked.0.sample_id ≡ plain_id world query_index)
      × ((family : Family) × (get_elem? families (query_index % 6) ≡ some family)
          × IsAnswered r bank catalogue.predicates family asked.0)
unfolding ask
ask-IsTold r world events query_index rng state catalogue bank latest asked made listed h =
    let built = build_episode_bank-IsBuilt r world events rng catalogue bank made in
    after_ok (item families (query_index % 6)) _ h λ family family_at h.
      after_ok (modulo (world * 17 + query_index * 11) (length latest)) _ h λ selector turn h.
        after_ok (item latest selector) _ h λ n at h.
          after_ok (item bank.facts n) _ h λ fact found h.
            after_ok (item catalogue.predicates fact.predicate_index) _ h λ predicate its h.
              let (answered, named) =
                ask_family-IsAnswered r world events rng catalogue bank built latest listed
                  query_index selector fact predicate family state asked
                  (selected-IsCurrent r world events rng catalogue bank built latest listed selector
                    n fact at found)
                  (item-ok catalogue.predicates fact.predicate_index its) h in
              (named, (family, item-ok families (query_index % 6) family_at, answered))

-- When a query on a bank that `build_episode_bank` returned makes a row, the row is one of the family
-- that stands at the query's number, modulo six: it carries that family's name, its question and its
-- plan are on the facts that answer it, and its spans are those that `answer_spans` finds of their
-- values, or of a date, in their episodes. The facts are an active one, whose value or date is the
-- answer; or one of the same speaker and relation that an active fact names as its previous event,
-- whose value is the answer; or two active ones; or the question is on a speaker of the bank, and
-- there is no information and no target. A paraphrase is a question of the fact's relation in the
-- catalogue, with the speaker put in.
pub ask-IsAnswered :
    (r : Random) (world events query_index : ℕ) (rng state : r.State) (catalogue : Catalogue)
    (bank : Bank r) (latest : List ℕ) (asked : Row × r.State)
    → build_episode_bank r world events rng catalogue ≡ ok bank
    → latest_of bank.history ≡ ok latest
    → ask r world query_index bank catalogue.predicates latest (repeated_of bank.history) state
      ≡ ok asked
    → (family : Family) × (get_elem? families (query_index % 6) ≡ some family)
      × IsAnswered r bank catalogue.predicates family asked.0
ask-IsAnswered r world events query_index rng state catalogue bank latest asked made listed h =
    (ask-IsTold r world events query_index rng state catalogue bank latest asked made listed h).1
