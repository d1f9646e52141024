-- ===== src/Dialogue/Bank/Runs.antt =====
-- python/prepare_repeated_dialogue_curriculum.py: what each turn of the loop over the events adds,
-- and what holds of the bank after the turns.
use bit_net.Base.{
  after_ok, ℕ, zero, suc, ◌+◌, ◌*◌, ◌/◌, ◌%◌, ◌≡◌, refl, sym, ap, ◌∙◌, inl, inr, true, none, some,
  List, [], ◌∷◌, ◌++◌, map, arith, if◌then◌else◌, Option-cases, nat_eq, text_eq, texts_eq,
  option_eq, length, get_elem?, is_empty, length-append, elem, value_error, Result, ok, err, Text,
  Result-cases,
}
use mathlib.Core.Path.{subst}
use bit_net.Base.Dict.{insert}
use bit_net.Dialogue.Catalog.{Predicate}
use bit_net.Dialogue.Format.{item, modulo}
use bit_net.Dialogue.Dates.{Date, add_days, isoformat}
use bit_net.Dialogue.Bank.{
  Random, Catalogue, key_eq, Fact, events_of, Loop, add_event, add_events, surface_forms, choice,
  choose_value, write_statement, dated_episode,
}
use bit_net.Dialogue.Bank.Places.{key_of, elem-get_elem?, get_elem?-snoc, map-append, length-map}
use bit_net.Dialogue.Bank.Histories.{IsKept, insert-IsKept}

module _ (r : Random) (world : ℕ) (catalogue : Catalogue) (speakers : List Text)
    (base_date : Date) where
  -- The fact at a place has the place's number, and its speaker and relation follow from it.
  pub record IsFactAt (place : ℕ) (f : Fact) : Type 0 where
    pub event : f.event ≡ place
    pub speaks : get_elem? speakers (place % (2 + world % 3)) ≡ some f.speaker
    pub indexed :
        modulo (place / (2 + world % 3) + place * 3 + world) (length catalogue.predicates)
        ≡ ok f.predicate_index
    pub named :
        (entry : Predicate) × (get_elem? catalogue.predicates f.predicate_index ≡ some entry)
        × (f.predicate ≡ entry.name)
    pub surfaced : elem f.predicate_surface (surface_forms catalogue f.predicate) ≡ true

  -- What a turn that returned has added.
  pub record IsTurn (event : ℕ) (before after : Loop r) : Type 0 where
    pub fact : Fact
    pub episode : Text
    pub placed : IsFactAt event fact
    pub unmarked : fact.marks ≡ none
    pub facts : after.facts ≡ before.facts ++ fact ∷ []
    pub episodes : after.episodes ≡ before.episodes ++ episode ∷ []
    pub history :
        after.history
        ≡ insert (key_of fact) (events_of (key_of fact) before.history ++ event ∷ []) before.history

  abbrev surface_of : Text → r.State → Result (Text × r.State)
  surface_of name rng =
      if is_empty (surface_forms catalogue name)
      then err (value_error "predicate has no surface form")
      else choice r (surface_forms catalogue name) rng

  surface_of-elem :
      (name : Text) (rng : r.State) (surface : Text × r.State)
      → surface_of name rng ≡ ok surface
      → elem surface.0 (surface_forms catalogue name) ≡ true
  unfolding choice
  surface_of-elem name rng surface h =
      elim (Option-cases (
        get_elem? (surface_forms catalogue name)
          (r.randbelow rng (length (surface_forms catalogue name))).0)) [
            | inl absent ↦ absurd (ground arith)
            | inr (x, found) ↦
                let same : x ≡ surface.0 = ground arith in
                subst (λ y. elem y (surface_forms catalogue name) ≡ true) same
                  (elem-get_elem? (surface_forms catalogue name) _ x found)
          ]

  -- The state that a turn makes of its fact and its episode.
  abbrev pub extended : Loop r → r.State → Fact → Text → Loop r
  extended before rng fact episode = record {
    rng = rng;
    episodes = before.episodes ++ episode ∷ [];
    facts = before.facts ++ fact ∷ [];
    history =
        insert (key_of fact) (events_of (key_of fact) before.history ++ fact.event ∷ [])
          before.history;
  }

  pub add_event-IsTurn :
      (event : ℕ) (before after : Loop r)
      → add_event r world catalogue speakers base_date event before ≡ ok after
      → IsTurn event before after
  unfolding add_event
  add_event-IsTurn event before after h =
      after_ok (item speakers (event % (2 + world % 3))) _ h λ speaker spoken h.
        after_ok
          (modulo (event / (2 + world % 3) + event * 3 + world) (length catalogue.predicates)) _ h
          λ index indexed h. after_ok (item catalogue.predicates index) _ h λ entry found h.
            after_ok (surface_of entry.name before.rng) _ h λ surface chosen h.
              after_ok (choose_value world event index catalogue.predicates) _ h λ value valued h.
                after_ok
                  (write_statement r catalogue speaker surface.0 value
                    (events_of (record { speaker = speaker; predicate_index = index })
                      before.history)
                    before.facts surface.1)
                  _ h
                  λ statement written h.
                    elim (Result-cases (add_days (event * 3 + event / 7) base_date)) [
                      | inr (e, failed) ↦ absurd (ground arith)
                      | inl (date, dated) ↦
                          let fact : Fact = record {
                            event = event;
                            speaker = speaker;
                            predicate_index = index;
                            predicate = entry.name;
                            predicate_surface = surface.0;
                            value = value;
                            date = isoformat date;
                            marks = none;
                          } in
                          let made : extended before statement.1 fact
                                (dated_episode world event date statement.0)
                              ≡ after =
                            ground arith in
                          subst (IsTurn event before) made (record {
                            fact = fact;
                            episode = dated_episode world event date statement.0;
                            placed = record {
                              event = refl;
                              speaks = ground arith;
                              indexed = indexed;
                              named = (entry, ground arith, refl);
                              surfaced = surface_of-elem entry.name before.rng surface chosen;
                            };
                            unmarked = refl;
                            facts = refl;
                            episodes = refl;
                            history = refl;
                          })
                    ]

  -- What holds after a number of turns.
  pub record IsSound (n : ℕ) (state : Loop r) : Type 0 where
    pub counted : length state.facts ≡ n
    pub numbered : (i : ℕ) (f : Fact) → get_elem? state.facts i ≡ some f → IsFactAt i f
    pub kept : IsKept (map key_of state.facts) state.history

  -- A turn keeps what holds.
  pub IsTurn-IsSound :
      (event : ℕ) (before after : Loop r)
      → IsTurn event before after
      → IsSound event before
      → IsSound (suc event) after
  IsTurn-IsSound event before after turn sound =
      let fact = turn.fact in
      record {
        counted =
            ap length turn.facts
            ∙ length-append before.facts (fact ∷ [])
            ∙ omega (arith, sound.counted);
        numbered = λ i f at.
            elim (get_elem?-snoc before.facts fact f i
              (ap (λ fs. get_elem? fs i) (sym turn.facts) ∙ at)) [
                | inl old ↦ sound.numbered i f old
                | inr (last, is_fact) ↦
                    let at_end : i ≡ event = omega (arith, last, sound.counted) in
                    subst (λ n. IsFactAt n f) (sym at_end)
                      (subst (IsFactAt event) (sym is_fact) turn.placed)
              ];
        kept =
            subst (λ history. IsKept (map key_of after.facts) history) (sym turn.history)
              (subst
                (λ keys. IsKept keys (
                  insert (key_of fact) (events_of (key_of fact) before.history ++ event ∷ [])
                    before.history))
                (sym (ap (map key_of) turn.facts ∙ map-append key_of before.facts (fact ∷ [])))
                (insert-IsKept (map key_of before.facts) before.history (key_of fact) event
                  (length-map key_of before.facts ∙ sound.counted) sound.kept));
      }

  pub add_events-IsSound :
      (event left : ℕ) (before after : Loop r)
      → add_events r world catalogue speakers base_date event left before ≡ ok after
      → IsSound event before
      → IsSound (event + left) after
  unfolding add_events
  add_events-IsSound event zero before after h sound =
      let same : before ≡ after = ground arith in
      let count : event ≡ event + 0 = omega arith in
      subst (λ n. IsSound n after) count (subst (IsSound event) same sound)
  add_events-IsSound event (suc left) before after h sound =
      after_ok (add_event r world catalogue speakers base_date event before) _ h λ next done h.
        let count : suc event + left ≡ event + suc left = omega arith in
        subst (λ n. IsSound n after) count
          (add_events-IsSound (suc event) left next after (ground arith)
            (IsTurn-IsSound event before next (add_event-IsTurn event before next done) sound))
