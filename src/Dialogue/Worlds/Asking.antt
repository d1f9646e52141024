-- ===== src/Dialogue/Worlds/Asking.antt =====
-- python/prepare_repeated_dialogue_curriculum.py: the loop over the queries returns.
use bit_net.Base.{
  ℕ, zero, suc, ◌+◌, ◌*◌, ◌%◌, ◌<◌, ◌≡◌, refl, ap, true, some, List, [], ◌∷◌, arith, ltb, nat_eq,
  text_eq, texts_eq, option_eq, length, get_elem?, all, ok, lit, bind-ok,
}
use bit_net.Dialogue.Catalog.{Predicate}
use bit_net.Dialogue.Bank.{Random, Catalogue, Fact, Bank}
use bit_net.Dialogue.Rows.{
  Row, single, Family, direct, paraphrase, temporal, previous, multi, null, families,
}
use bit_net.Dialogue.Worlds.{
  ask_direct, ask_paraphrase, ask_temporal, ask_previous, ask_multi, ask_null, ask_family, ask,
  ask_all,
}
use bit_net.Dialogue.Bank.Usable.{
  fits, usable_predicate, usable, item_ok, get_elem?_total, all-get_elem?, choice_total,
  modulo_total, format_returns,
}
use bit_net.Dialogue.Worlds.Questions.{
  IsAskable, IsChains, make_row_total, Stands-value, latest_total, second_fact_total,
  with_state_total, ask_previous_total,
}

module _ (r : Random) (catalogue : Catalogue) (bank : Bank r) (h : IsAskable r catalogue bank) where
  ask_paraphrase_total :
      (world query_index : ℕ) (i : ℕ) (fact : Fact) (predicate : Predicate) (rng : r.State)
      → get_elem? bank.facts i ≡ some fact
      → usable_predicate catalogue predicate ≡ true
      → (asked : Row × r.State) × (ask_paraphrase r world query_index bank fact predicate rng
          ≡ ok asked)
  unfolding ask_paraphrase usable_predicate
  ask_paraphrase_total world query_index i fact predicate rng at good =
      let (template, next, k, drawn, template_at) =
        choice_total r predicate.questions rng (ground arith) in
      let fit : fits (lit "speaker" ∷ []) [] template ≡ true =
        all-get_elem? (fits (lit "speaker" ∷ []) []) predicate.questions k {x = template}
          (ground arith) template_at in
      let (question, asked, stands) =
        format_returns ((lit "speaker", fact.speaker) ∷ []) (lit "speaker" ∷ []) [] template fit
          refl in
      let (row, made) =
        make_row_total r catalogue bank world query_index question (single fact.value)
          (fact.event ∷ []) (fact.value ∷ []) _ _ _ h
          (Stands-value r catalogue bank i fact [] [] h at tt).0 in
      ((row, next), bind-ok _ drawn (bind-ok _ asked (bind-ok _ made refl)))

  ask_direct_total :
      (world query_index i : ℕ) (fact : Fact)
      → get_elem? bank.facts i ≡ some fact
      → (row : Row) × (ask_direct r world query_index bank fact ≡ ok row)
  unfolding ask_direct
  ask_direct_total world query_index i fact at =
      make_row_total r catalogue bank world query_index _ _ (fact.event ∷ []) (fact.value ∷ []) _ _
        _ h (Stands-value r catalogue bank i fact [] [] h at tt).0

  ask_temporal_total :
      (world query_index i : ℕ) (fact : Fact)
      → get_elem? bank.facts i ≡ some fact
      → (row : Row) × (ask_temporal r world query_index bank fact ≡ ok row)
  unfolding ask_temporal
  ask_temporal_total world query_index i fact at =
      make_row_total r catalogue bank world query_index _ _ (fact.event ∷ []) (fact.date ∷ []) _ _ _
        h (Stands-value r catalogue bank i fact [] [] h at tt).1

  ask_multi_total :
      (world query_index : ℕ) (latest : List ℕ) (selector i : ℕ) (fact : Fact)
      → 0 < length latest
      → all (λ n. ltb n (length bank.facts)) latest ≡ true
      → get_elem? bank.facts i ≡ some fact
      → (row : Row) × (ask_multi r world query_index bank latest selector fact ≡ ok row)
  unfolding ask_multi
  ask_multi_total world query_index latest selector i fact some_latest within at =
      let (j, second, found, second_at) =
        second_fact_total r catalogue bank latest selector fact some_latest within in
      let (row, made) =
        make_row_total r catalogue bank world query_index _ _ (fact.event ∷ second.event ∷ [])
          (fact.value ∷ second.value ∷ []) _ _ _ h
          (Stands-value r catalogue bank i fact (second.event ∷ []) (second.value ∷ []) h at
            (Stands-value r catalogue bank j second [] [] h second_at tt).0).0 in
      (row, bind-ok _ found made)

  ask_null_total :
      (world query_index : ℕ) → (row : Row) × (ask_null r world query_index bank ≡ ok row)
  unfolding ask_null
  ask_null_total world query_index =
      let (turn, turn_lt) = modulo_total (world + query_index) (length bank.speakers) h.spoken in
      let (speaker, speaker_at) = get_elem?_total bank.speakers _ turn_lt in
      let (row, made) = make_row_total r catalogue bank world query_index _ _ [] [] _ _ _ h tt in
      (row, bind-ok _ turn (bind-ok _ (item_ok bank.speakers _ {x = speaker} speaker_at) made))

  ask_family_total :
      (world query_index : ℕ) (latest : List ℕ) (repeated : List (List ℕ)) (selector i : ℕ)
      (fact : Fact) (predicate : Predicate) (family : Family) (rng : r.State)
      → 0 < length latest
      → all (λ n. ltb n (length bank.facts)) latest ≡ true
      → 0 < length repeated
      → IsChains r catalogue bank repeated
      → get_elem? bank.facts i ≡ some fact
      → usable_predicate catalogue predicate ≡ true
      → (asked : Row × r.State) × (ask_family r world query_index bank latest repeated selector fact
            predicate family rng
          ≡ ok asked)
  unfolding ask_family
  ask_family_total world query_index latest repeated selector i fact predicate direct rng
        some_latest within some_repeated chains at good =
      with_state_total r catalogue bank (ask_direct r world query_index bank fact) rng
        (ask_direct_total world query_index i fact at).1
  ask_family_total world query_index latest repeated selector i fact predicate paraphrase rng
        some_latest within some_repeated chains at good =
      ask_paraphrase_total world query_index i fact predicate rng at good
  ask_family_total world query_index latest repeated selector i fact predicate temporal rng
        some_latest within some_repeated chains at good =
      with_state_total r catalogue bank (ask_temporal r world query_index bank fact) rng
        (ask_temporal_total world query_index i fact at).1
  ask_family_total world query_index latest repeated selector i fact predicate previous rng
        some_latest within some_repeated chains at good =
      with_state_total r catalogue bank (ask_previous r world query_index bank repeated) rng
        (ask_previous_total r catalogue bank world query_index repeated h some_repeated chains).1
  ask_family_total world query_index latest repeated selector i fact predicate multi rng some_latest
        within some_repeated chains at good =
      with_state_total r catalogue bank (ask_multi r world query_index bank latest selector fact)
        rng (ask_multi_total world query_index latest selector i fact some_latest within at).1
  ask_family_total world query_index latest repeated selector i fact predicate null rng some_latest
        within some_repeated chains at good =
      with_state_total r catalogue bank (ask_null r world query_index bank) rng
        (ask_null_total world query_index).1

  ask_total :
      (world query_index : ℕ) (latest : List ℕ) (repeated : List (List ℕ)) (rng : r.State)
      → usable catalogue ≡ true
      → 0 < length latest
      → all (λ n. ltb n (length bank.facts)) latest ≡ true
      → 0 < length repeated
      → IsChains r catalogue bank repeated
      → (asked : Row × r.State) × (ask r world query_index bank catalogue.predicates latest repeated
            rng
          ≡ ok asked)
  unfolding ask usable
  ask_total world query_index latest repeated rng fine some_latest within some_repeated chains =
      let (family, family_at) = get_elem?_total families (query_index % 6) (omega arith) in
      let (a, i, fact, turn, place, found, at) =
        latest_total r catalogue bank latest (world * 17 + query_index * 11) some_latest within in
      let (predicate, predicate_at) =
        get_elem?_total catalogue.predicates fact.predicate_index (h.indexed i fact at) in
      let good : usable_predicate catalogue predicate ≡ true =
        all-get_elem? (usable_predicate catalogue) catalogue.predicates fact.predicate_index
          {x = predicate} (ground arith) predicate_at in
      let (asked, done) =
        ask_family_total world query_index latest repeated a i fact predicate family rng some_latest
          within some_repeated chains at good in
      (
        asked,
        bind-ok _ (item_ok families (query_index % 6) {x = family} family_at) (
            bind-ok _ turn (
              bind-ok _ place (
                bind-ok _ found (
                  bind-ok _
                    (item_ok catalogue.predicates fact.predicate_index {x = predicate} predicate_at)
                    done)))),
      )

  pub ask_all_total :
      (world : ℕ) (latest : List ℕ) (repeated : List (List ℕ)) (query_index left : ℕ)
      (rng : r.State)
      → usable catalogue ≡ true
      → 0 < length latest
      → all (λ n. ltb n (length bank.facts)) latest ≡ true
      → 0 < length repeated
      → IsChains r catalogue bank repeated
      → (rows : List Row) × (ask_all r world bank catalogue.predicates latest repeated query_index
            left rng
          ≡ ok rows)
        × (length rows ≡ left)
  unfolding ask_all
  ask_all_total world latest repeated query_index zero rng fine some_latest within some_repeated
        chains =
      ([], refl, refl)
  ask_all_total world latest repeated query_index (suc left) rng fine some_latest within
        some_repeated chains =
      let (asked, first) =
        ask_total world query_index latest repeated rng fine some_latest within some_repeated
          chains in
      let (rows, rest, count) =
        ask_all_total world latest repeated (suc query_index) left asked.1 fine some_latest within
          some_repeated chains in
      (asked.0 ∷ rows, bind-ok _ first (bind-ok _ rest refl), ap suc count)
