-- ===== src/Dialogue/Worlds/Told.antt =====
-- python/prepare_repeated_dialogue_curriculum.py: the rows of the families of questions.
use bit_net.Base.{
  Text, sym, ◌∙◌, ℕ, ◌+◌, ◌≡◌, ap, inl, inr, true, false, none, some, List, [], ◌∷◌, ◌++◌, arith,
  Bool-cases, ◌==◌, nat_eq, text_eq, texts_eq, option_eq, length, get_elem?, Result, ok, err, ◌>>=◌,
  lit, after_ok,
}
use mathlib.Core.Path.{subst}
use bit_net.Dialogue.Catalog.{Predicate}
use bit_net.Dialogue.Format.{item, item_back, modulo, format}
use bit_net.Dialogue.Bank.{Random, Catalogue, Fact, Bank, choice}
use bit_net.Dialogue.Rows.{
  single, several, Row, paraphrase, previous, multi, null, family_name, active_target, plan_of,
  latest_of, repeated_of,
}
use bit_net.Dialogue.Worlds.{second_fact, ask_paraphrase, ask_previous, ask_multi, ask_null}
use bit_net.Dialogue.Bank.Versions.{IsBuilt}
use bit_net.Dialogue.Worlds.Answers.{
  plain_id, aim, IsRow, IsRephrased, IsAnswered, make_row-IsRow, IsCurrent, latest-IsCurrent,
  chain-IsReplaced,
}

pub item-ok {ℓ} :
    {A : Type ℓ} (xs : List A) (i : ℕ) {x : A} → item xs i ≡ ok x → get_elem? xs i ≡ some x
item-ok xs i h = ground arith

pub with_state-ok :
    {S : Type 0} (call : Result Row) (rng : S) (asked : Row × S)
    → (call >>= λ made. ok (made, rng)) ≡ ok asked
    → call ≡ ok asked.0
with_state-ok (ok row) rng asked h = ground arith
with_state-ok (err e) rng asked h = cc

module _ (r : Random) (world events : ℕ) (rng : r.State) (catalogue : Catalogue) (bank : Bank r)
    (built : IsBuilt r world events rng catalogue bank) (latest : List ℕ)
    (listed : latest_of bank.history ≡ ok latest) where
  -- The fact that a selector finds is current.
  pub selected-IsCurrent :
      (a n : ℕ) (f : Fact) → item latest a ≡ ok n → item bank.facts n ≡ ok f → IsCurrent r bank f
  selected-IsCurrent a n f at found =
      latest-IsCurrent r world events rng catalogue bank built latest a n f listed
        (item-ok latest a at) (item-ok bank.facts n found)

  second_fact-IsCurrent :
      (selector : ℕ) (fact second : Fact)
      → second_fact bank.facts latest selector fact ≡ ok second
      → IsCurrent r bank second
  unfolding second_fact
  second_fact-IsCurrent selector fact second h =
      after_ok (modulo (selector + 1) (length latest)) _ h λ a turn h.
        after_ok (item latest a) _ h λ n at h. after_ok (item bank.facts n) _ h λ f found h.
          elim (Bool-cases (f.event == fact.event)) [
            | inr other ↦
                let same : f ≡ second = ground arith in
                subst (IsCurrent r bank) same (selected-IsCurrent a n f at found)
            | inl again ↦
                let next : (modulo (selector + 2) (length latest) >>= λ after.
                item latest after >>= λ other. item bank.facts other)
                    ≡ ok second =
                  ground arith in
                after_ok (modulo (selector + 2) (length latest)) _ next λ b turn' h.
                  after_ok (item latest b) _ h λ m at' h. selected-IsCurrent b m second at' h
          ]

  -- A choice is an element of the list.
  choice-item :
      (xs : List Text) (state : r.State) {drawn : Text × r.State}
      → choice r xs state ≡ ok drawn
      → (place : ℕ) × (get_elem? xs place ≡ some drawn.0)
  unfolding choice
  choice-item xs state {drawn} h =
      after_ok (item xs (r.randbelow state (length xs)).0) _ h λ x at h.
        let same : x ≡ drawn.0 = ground arith in
        (
          (r.randbelow state (length xs)).0,
          item-ok xs (r.randbelow state (length xs)).0 at ∙ ap some same,
        )

  pub ask_paraphrase-IsRow :
      (query_index : ℕ) (fact : Fact) (predicate : Predicate) (state : r.State)
      (asked : Row × r.State)
      → get_elem? catalogue.predicates fact.predicate_index ≡ some predicate
      → ask_paraphrase r world query_index bank fact predicate state ≡ ok asked
      → (IsRephrased catalogue.predicates fact asked.0.question
          × IsRow bank.episodes asked.0.question
              (single fact.value)
              (fact.event ∷ [])
              (fact.value ∷ [])
              (lit "paraphrase")
              false
              (lit "current")
              (aim fact ∷ [])
              asked.0)
        × (asked.0.sample_id ≡ plain_id world query_index)
  unfolding ask_paraphrase
  ask_paraphrase-IsRow query_index fact predicate state asked its h =
      after_ok (choice r predicate.questions state) _ h λ drawn chosen h.
        after_ok (format drawn.0 ((lit "speaker", fact.speaker) ∷ [])) _ h λ question formatted h.
          let (place, at) = choice-item predicate.questions state chosen in
          let (named, told) =
            make_row-IsRow world query_index bank.episodes bank.facts question (single fact.value)
              (fact.event ∷ []) (fact.value ∷ []) (family_name paraphrase) false
              (plan_of (lit "current") (active_target fact ∷ [])) asked.0
              (with_state-ok _ drawn.1 asked h) in
          (
            subst
                (λ q.
                  IsRephrased catalogue.predicates fact q
                  × IsRow bank.episodes q (single fact.value) (fact.event ∷ []) (fact.value ∷ [])
                      (lit "paraphrase") false (lit "current") (aim fact ∷ []) asked.0)
                (sym told.asks)
                (
                  record {
                    predicate = predicate;
                    named = its;
                    place = place;
                    template = drawn.0;
                    drawn = at;
                    filled = formatted;
                  },
                  told,
                ),
            named,
          )

  pub ask_previous-IsReplaced :
      (query_index : ℕ) (row : Row)
      → ask_previous r world query_index bank (repeated_of bank.history) ≡ ok row
      → IsAnswered r bank catalogue.predicates previous row
        × (row.sample_id ≡ plain_id world query_index)
  unfolding ask_previous
  ask_previous-IsReplaced query_index row h =
      after_ok (modulo (world + query_index) (length (repeated_of bank.history))) _ h λ k turn h.
        after_ok (item (repeated_of bank.history) k) _ h λ chain at h.
          after_ok (item_back chain 1) _ h λ o second h.
            after_ok (item bank.facts o) _ h λ old old_at h.
              after_ok (item_back chain 0) _ h λ n last h.
                after_ok (item bank.facts n) _ h λ new new_at h.
                  let (named, told) =
                    make_row-IsRow world query_index bank.episodes bank.facts
                      (lit "What was "
                        ++ old.speaker
                        ++ lit "'s "
                        ++ old.predicate
                        ++ lit " before "
                        ++ new.value
                        ++ lit "?")
                      (single old.value) (old.event ∷ []) (old.value ∷ []) (family_name previous)
                      false
                      (plan_of (lit "previous") (
                        record {
                          entity = old.speaker;
                          predicate = old.predicate;
                          version = lit "previous";
                          value = none;
                          time = none;
                          anchor_episode = some new.event;
                        }
                        ∷ []))
                      row h in
                  (
                    (
                      old,
                      new,
                      chain-IsReplaced r world events rng catalogue bank built chain k o n old new
                          (item-ok (repeated_of bank.history) k at) second last
                          (item-ok bank.facts o old_at) (item-ok bank.facts n new_at),
                      told,
                    ),
                    named,
                  )

  pub ask_multi-IsCurrent :
      (query_index selector : ℕ) (fact : Fact) (row : Row)
      → ask_multi r world query_index bank latest selector fact ≡ ok row
      → ((g : Fact) × IsCurrent r bank g
          × IsRow bank.episodes
              (lit "What are the current "
                ++ fact.predicate
                ++ lit " for "
                ++ fact.speaker
                ++ lit " and "
                ++ g.predicate
                ++ lit " for "
                ++ g.speaker
                ++ lit "?")
              (several (fact.value ∷ g.value ∷ []))
              (fact.event ∷ g.event ∷ [])
              (fact.value ∷ g.value ∷ [])
              (lit "multi")
              false
              (lit "multi_current")
              (aim fact ∷ aim g ∷ [])
              row)
        × (row.sample_id ≡ plain_id world query_index)
  unfolding ask_multi
  ask_multi-IsCurrent query_index selector fact row h =
      after_ok (second_fact bank.facts latest selector fact) _ h λ second chosen h.
        let (named, told) =
          make_row-IsRow world query_index bank.episodes bank.facts
            (lit "What are the current "
              ++ fact.predicate
              ++ lit " for "
              ++ fact.speaker
              ++ lit " and "
              ++ second.predicate
              ++ lit " for "
              ++ second.speaker
              ++ lit "?")
            (several (fact.value ∷ second.value ∷ [])) (fact.event ∷ second.event ∷ [])
            (fact.value ∷ second.value ∷ []) (family_name multi) false
            (plan_of (lit "multi_current") (active_target fact ∷ active_target second ∷ [])) row
            h in
        ((second, second_fact-IsCurrent selector fact second chosen, told), named)

  pub ask_null-IsRow :
      (query_index : ℕ) (row : Row)
      → ask_null r world query_index bank ≡ ok row
      → IsAnswered r bank catalogue.predicates null row
        × (row.sample_id ≡ plain_id world query_index)
  unfolding ask_null
  ask_null-IsRow query_index row h =
      after_ok (modulo (world + query_index) (length bank.speakers)) _ h λ k turn h.
        after_ok (item bank.speakers k) _ h λ speaker at h.
          let (named, told) =
            make_row-IsRow world query_index bank.episodes bank.facts
              (lit "What is " ++ speaker ++ lit "'s emergency contact preference?")
              (single (lit "No information available")) [] [] (family_name null) true
              (record {
                intent = lit "null";
                entity = some speaker;
                predicate = some (lit "emergency contact preference");
                targets = [];
              })
              row h in
          ((speaker, k, item-ok bank.speakers k at, told), named)
