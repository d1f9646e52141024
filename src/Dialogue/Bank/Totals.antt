-- ===== src/Dialogue/Bank/Totals.antt =====
-- python/prepare_repeated_dialogue_curriculum.py: with a usable catalogue the loop over the events
-- returns.
use bit_net.Base.{
  ℕ, zero, suc, ◌+◌, ◌*◌, ◌/◌, ◌%◌, ◌<◌, ◌≡◌, refl, sym, ap, ◌∙◌, true, false, none, some, List, [],
  ◌∷◌, ◌++◌, map, arith, ltb, if◌then◌else◌, nat_eq, text_eq, texts_eq, option_eq, length,
  get_elem?, is_empty, length-append, elem, value_error, ok, err, Text, bind-ok,
}
use mathlib.Core.Path.{subst}
use bit_net.Dialogue.Catalog.{Predicate}
use bit_net.Dialogue.Format.{item, modulo}
use bit_net.Dialogue.Format.Search.{Infix}
use bit_net.Dialogue.Dates.{Date, add_days, isoformat}
use bit_net.Dialogue.Dates.Calendar.{IsDate, rank, last_rank, add_days_total}
use bit_net.Dialogue.Bank.{
  Random, Catalogue, Key, key_eq, Fact, events_of, Loop, surface_forms, choice, choose_value,
  write_statement, dated_episode, add_event, add_events,
}
use bit_net.Dialogue.Bank.Places.{key_of, places_of, le-places_of, length-map}
use bit_net.Dialogue.Bank.Histories.{events_of-places_of}
use bit_net.Dialogue.Bank.Runs.{IsSound, extended, add_event-IsTurn, IsTurn-IsSound}
use bit_net.Dialogue.Bank.Usable.{
  usable_predicate, usable, item_ok, get_elem?_total, all-get_elem?, choice_total, modulo_total,
}
use bit_net.Dialogue.Bank.Turns.{
  IsSupported, choose_value_total, write_statement_total, dated_episode-Infix, IsSupported-snoc,
}

module _ (r : Random) (world : ℕ) (catalogue : Catalogue) (speakers : List Text)
    (base_date : Date) where
  -- After a number of turns: what holds of the facts, and that their episodes support them.
  pub record IsReady (n : ℕ) (state : Loop r) : Type 0 where
    pub sound : IsSound r world catalogue speakers base_date n state
    pub even : length state.episodes ≡ length state.facts
    pub supported :
        (i : ℕ) (f : Fact) → get_elem? state.facts i ≡ some f → IsSupported state.episodes i f

  snoc-IsReady :
      (event : ℕ) (before after : Loop r) (fact : Fact) (episode : Text)
      → add_event r world catalogue speakers base_date event before ≡ ok after
      → after.episodes ≡ before.episodes ++ episode ∷ []
      → after.facts ≡ before.facts ++ fact ∷ []
      → IsReady event before
      → Infix fact.value episode
      → Infix fact.date episode
      → IsReady (suc event) after
  snoc-IsReady event before after fact episode done episodes facts ready value date = record {
    sound =
        IsTurn-IsSound r world catalogue speakers base_date event before after
          (add_event-IsTurn r world catalogue speakers base_date event before after done)
          ready.sound;
    even =
        ap length episodes
        ∙ length-append before.episodes (episode ∷ [])
        ∙ ap (λ n. n + 1) ready.even
        ∙ sym (length-append before.facts (fact ∷ []))
        ∙ ap length (sym facts);
    supported = λ i f at.
        subst (λ es. IsSupported es i f) (sym episodes)
          (IsSupported-snoc before.facts before.episodes fact episode ready.even ready.supported
            value date i f (ap (λ fs. get_elem? fs i) (sym facts) ∙ at));
  }

  -- The calls of a turn that all return make the turn's state.
  add_event_returns :
      (event index : ℕ) (before : Loop r) (speaker value : Text) (entry : Predicate)
      (surface statement : Text × r.State) (date : Date)
      → item speakers (event % (2 + world % 3)) ≡ ok speaker
      → modulo (event / (2 + world % 3) + event * 3 + world) (length catalogue.predicates)
        ≡ ok index
      → item catalogue.predicates index ≡ ok entry
      → is_empty (surface_forms catalogue entry.name) ≡ false
      → choice r (surface_forms catalogue entry.name) before.rng ≡ ok surface
      → choose_value world event index catalogue.predicates ≡ ok value
      → write_statement r catalogue speaker surface.0 value
          (events_of (record { speaker = speaker; predicate_index = index }) before.history)
          before.facts
          surface.1
        ≡ ok statement
      → add_days (event * 3 + event / 7) base_date ≡ ok date
      → Infix value statement.0
      → IsReady event before
      → (after : Loop r) × (add_event r world catalogue speakers base_date event before ≡ ok after)
        × IsReady (suc event) after
  unfolding add_event
  add_event_returns event index before speaker value entry surface statement date spoke indexed
        found forms chosen valued written dated inside ready =
      let fact : Fact = record {
        event = event;
        speaker = speaker;
        predicate_index = index;
        predicate = entry.name;
        predicate_surface = surface.0;
        value = value;
        date = isoformat date;
        marks = none;
      } in
      let named : (if is_empty (surface_forms catalogue entry.name)
            then err (value_error "predicate has no surface form")
            else choice r (surface_forms catalogue entry.name) before.rng)
          ≡ ok surface =
        rw forms chosen in
      let episode = dated_episode world event date statement.0 in
      let after = extended r world catalogue speakers base_date before statement.1 fact episode in
      let done : add_event r world catalogue speakers base_date event before ≡ ok after =
        bind-ok _ spoke (
          bind-ok _ indexed (
            bind-ok _ found
              (bind-ok _ named (bind-ok _ valued (bind-ok _ written (bind-ok _ dated refl)))))) in
      let (value_in, date_in) = dated_episode-Infix world event date statement.0 value inside in
      (
        after,
        done,
        snoc-IsReady event before after fact episode done refl refl ready value_in date_in,
      )

  -- A place that the history lists is one of the facts'.
  events_of_bound :
      (event : ℕ) (state : Loop r) (key : Key)
      → IsSound r world catalogue speakers base_date event state
      → (n : ℕ) → elem n (events_of key state.history) ≡ true
      → n < length state.facts
  events_of_bound event state key sound n member =
      let keys = map key_of state.facts in
      let listed : elem n (places_of key 0 keys) ≡ true =
        ap (elem n) (sym (events_of-places_of keys state.history key sound.kept)) ∙ member in
      omega (arith, le-places_of key 0 n keys listed, length-map key_of state.facts)

  -- With a usable catalogue a turn returns, and what held holds after it.
  add_event_total :
      (event : ℕ) (before : Loop r)
      → usable catalogue ≡ true
      → length speakers ≡ 2 + world % 3
      → IsDate base_date
      → rank base_date + (event * 3 + event / 7) < last_rank
      → IsReady event before
      → (after : Loop r) × (add_event r world catalogue speakers base_date event before ≡ ok after)
        × IsReady (suc event) after
  unfolding usable usable_predicate
  add_event_total event before fine many dated early ready =
      let (speaker, spoke) =
        get_elem?_total speakers (event % (2 + world % 3)) (omega (arith, many)) in
      let (indexed, index_lt) =
        modulo_total (event / (2 + world % 3) + event * 3 + world) (length catalogue.predicates) (
          let enough : ltb 3 (length catalogue.predicates) ≡ true = ground arith in ground arith) in
      let index = (event / (2 + world % 3) + event * 3 + world) % length catalogue.predicates in
      let (entry, found) = get_elem?_total catalogue.predicates index index_lt in
      let good : usable_predicate catalogue entry ≡ true =
        all-get_elem? (usable_predicate catalogue) catalogue.predicates index {x = entry}
          (ground arith) found in
      let forms : is_empty (surface_forms catalogue entry.name) ≡ false = ground arith in
      let (surface, next, k, chosen, form_at) =
        choice_total r (surface_forms catalogue entry.name) before.rng forms in
      let (value, valued) = choose_value_total catalogue world event index {p = entry} found good in
      let key : Key = record { speaker = speaker; predicate_index = index } in
      let (statement, rng, written, inside) =
        write_statement_total r catalogue speaker surface value (events_of key before.history)
          before.facts next fine (events_of_bound event before key ready.sound) in
      let (date, added) = add_days_total (event * 3 + event / 7) base_date dated early in
      let spoke' : item speakers (event % (2 + world % 3)) ≡ ok speaker =
        item_ok speakers (event % (2 + world % 3)) {x = speaker} spoke in
      let found' : item catalogue.predicates index ≡ ok entry =
        item_ok catalogue.predicates index {x = entry} found in
      add_event_returns event index before speaker value entry (surface, next) (statement, rng) date
        spoke' indexed found' forms chosen valued written added inside ready

  pub add_events_total :
      (event left : ℕ) (before : Loop r)
      → usable catalogue ≡ true
      → length speakers ≡ 2 + world % 3
      → IsDate base_date
      → rank base_date + ((event + left) * 3 + (event + left) / 7) < last_rank
      → IsReady event before
      → (after : Loop r) × (add_events r world catalogue speakers base_date event left before
          ≡ ok after)
        × IsReady (event + left) after
  unfolding add_events
  add_events_total event zero before fine many dated early ready =
      let count : event ≡ event + 0 = omega arith in
      (before, refl, subst (λ n. IsReady n before) count ready)
  add_events_total event (suc left) before fine many dated early ready =
      let (next, first, then_ready) =
        add_event_total event before fine many dated (omega (arith, early)) ready in
      let (after, rest, last_ready) =
        add_events_total (suc event) left next fine many dated (omega (arith, early)) then_ready in
      let count : suc event + left ≡ event + suc left = omega arith in
      (after, bind-ok _ first rest, subst (λ n. IsReady n after) count last_ready)
