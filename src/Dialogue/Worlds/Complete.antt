-- ===== src/Dialogue/Worlds/Complete.antt =====
-- python/prepare_repeated_dialogue_curriculum.py: a world with enough events answers every query.
use bit_net.Base.{
  ℕ, ◌+◌, ◌*◌, ◌/◌, ◌%◌, ◌≤◌, ◌<◌, ◌≡◌, refl, sym, ap, ◌∙◌, inl, inr, true, false, not, ◌||◌, some,
  List, [], ◌∷◌, map, arith, ltb, Bool-cases, ◌==◌, eq_iff, nat_eq, text_eq, texts_eq, option_eq,
  length, get_elem?, all, is_empty, All, value_error, ok, guard, bind-ok,
}
use mathlib.Core.Path.{subst}
use native.Mathlib.Nat.{zero-div, zero-mod, mul-pos}
use bit_net.Dialogue.Bank.{Random, Catalogue, Key, key_eq, History, Bank, build_episode_bank}
use bit_net.Dialogue.Rows.{Row, latest_of, repeated_of}
use bit_net.Dialogue.Worlds.{ask_all, build_world}
use bit_net.Dialogue.Bank.Places.{key_of, places_of, length-map, get_elem?-map, elem-get_elem?}
use bit_net.Dialogue.Bank.Histories.{keys_of, events_of-places_of}
use bit_net.Dialogue.Bank.Versions.{keys-IsBuilt}
use bit_net.Dialogue.Bank.Usable.{usable, get_elem?_total}
use bit_net.Dialogue.Worlds.Asking.{ask_all_total}
use bit_net.Dialogue.Worlds.Builds.{
  modulo_bound, IsAnswering, build_episode_bank_total, IsAnswering-IsAskable,
}
use bit_net.Dialogue.Rows.Repeats.{
  two_elements, elem-places_of, within_of_places, latest_of_total, repeated_of-within,
  repeated_of_filled, index_again, index_differs,
}

long_enough :
    (n : ℕ) (chains : List (List ℕ))
    → 1 < n
    → 0 < length chains
    → not (ltb n 2 || is_empty chains) ≡ true
long_enough n [] h k = absurd (omega arith)
long_enough n (c ∷ chains) h k = ground arith

module _ (r : Random) (world events : ℕ) (rng : r.State) (catalogue : Catalogue) (bank : Bank r)
    (answering : IsAnswering r world events rng catalogue bank) where
  abbrev keys : List Key
  keys = map key_of answering.built.whole.facts

  abbrev history : History
  history = answering.built.whole.history

  -- The key of an event, by its number.
  key_at :
      (event : ℕ)
      → event < events
      → (key : Key) × (get_elem? keys event ≡ some key)
        × (get_elem? bank.speakers (event % (2 + world % 3)) ≡ some key.speaker)
        × (key.predicate_index
            ≡ (event / (2 + world % 3) + event * 3 + world) % length catalogue.predicates)
  key_at event h =
      let sound = answering.ready.sound in
      let (f, at) =
        get_elem?_total answering.built.whole.facts event (omega (arith, h, sound.counted)) in
      let placed = sound.numbered event f at in
      (
        key_of f,
        get_elem?-map key_of answering.built.whole.facts event {x = f} at,
        placed.speaks,
        (modulo_bound _ (length catalogue.predicates) f.predicate_index placed.indexed).1,
      )

  same_key : (a b : Key) → a.speaker ≡ b.speaker → a.predicate_index ≡ b.predicate_index → a ≡ b
  same_key a b h k = cc

  -- The first key comes again.
  repeats :
      3 < length catalogue.predicates
      → length catalogue.predicates * (2 + world % 3) < events
      → 0 < length (repeated_of history)
  repeats many enough =
      let relations = length catalogue.predicates in
      let sc = 2 + world % 3 in
      let (first, first_at, first_speaks, first_index) = key_at 0 (omega (arith, enough)) in
      let (again, again_at, again_speaks, again_index) = key_at (relations * sc) enough in
      let (index_same, turn_same) = index_again (world % 3) relations world (omega arith) in
      let speakers_same : some first.speaker ≡ some again.speaker =
        sym first_speaks
        ∙ ap (get_elem? bank.speakers) (zero-mod sc ∙ sym turn_same)
        ∙ again_speaks in
      let first_of_world : first.predicate_index ≡ world % relations =
        first_index
        ∙ ap (λ n. (n + 0 * 3 + world) % relations) (zero-div sc)
        ∙ ap (λ n. n % relations) (let e : 0 + 0 * 3 + world ≡ world = omega arith in e) in
      let is_same : again ≡ first =
        same_key again first (ground (arith, speakers_same))
          (again_index ∙ index_same ∙ sym first_of_world) in
      let places = events_of-places_of keys history first answering.ready.sound.kept in
      let again_at' : get_elem? keys (relations * sc) ≡ some first = again_at ∙ ap some is_same in
      let later : 0 < relations * sc = mul-pos (omega (arith, many)) (omega arith) in
      let apart : (0 == relations * sc) ≡ false = ground (arith, later) in
      repeated_of_filled first history (
        subst (λ ns. 1 < length ns) (sym places)
          (two_elements 0 (relations * sc) (places_of first 0 keys)
            (elem-places_of first keys 0 first_at)
            (elem-places_of first keys (relations * sc) again_at') apart))

  -- The first two keys differ.
  two_entries : 3 < length catalogue.predicates → 1 < events → 1 < length history
  two_entries many enough =
      let relations = length catalogue.predicates in
      let sc = 2 + world % 3 in
      let kept = answering.ready.sound.kept in
      let (first, first_at, first_speaks, first_index) = key_at 0 (omega (arith, enough)) in
      let (second, second_at, second_speaks, second_index) = key_at 1 enough in
      let differ = index_differs sc relations world (omega arith) many in
      let apart : (first == second) ≡ false = elim (Bool-cases (first == second)) [
        | inr other ↦ other
        | inl same ↦ absurd (
            differ (
              sym second_index
              ∙ ap (λ (k : Key). k.predicate_index) (sym ((eq_iff first second).0 same))
              ∙ first_index))
      ] in
      let entries : 1 < length (keys_of history) =
        two_elements first second (keys_of history)
          (kept.listed first (elem-get_elem? keys 0 first first_at))
          (kept.listed second (elem-get_elem? keys 1 second second_at)) apart in
      omega (arith, entries, length-map (λ (entry : Key × List ℕ). entry.0) history)

  -- As many facts as keys.
  size_of_facts : length keys ≡ length bank.facts
  size_of_facts =
      ap length (sym (keys-IsBuilt r world events rng catalogue bank answering.built))
      ∙ length-map key_of bank.facts

  -- Every query on the bank makes a row.
  pub queries_total :
      (queries : ℕ)
      → usable catalogue ≡ true
      → 3 < length catalogue.predicates
      → length catalogue.predicates * (2 + world % 3) < events
      → (latest : List ℕ) × (latest_of bank.history ≡ ok latest)
        × (1 < length latest)
        × (0 < length (repeated_of bank.history))
        × ((rows : List Row) × (ask_all r world bank catalogue.predicates latest
                (repeated_of bank.history)
                0
                queries
                bank.rng
              ≡ ok rows)
            × (length rows ≡ queries))
  queries_total queries fine many enough =
      let kept = answering.ready.sound.kept in
      let within =
        subst (λ size. All (λ (entry : Key × List ℕ). all (λ n. ltb n size) entry.1 ≡ true) history)
          size_of_facts (within_of_places keys history kept.places) in
      let relations_pos : 0 < length catalogue.predicates * (2 + world % 3) =
        mul-pos (omega (arith, many)) (omega arith) in
      let (latest, listed, count, inside) =
        latest_of_total (length bank.facts) history kept.filled within in
      let two : 1 < length latest =
        omega (arith, count, two_entries many (omega (arith, relations_pos, enough))) in
      let again = repeats many enough in
      let (rows, asked, rows_count) =
        ask_all_total r catalogue bank
          (IsAnswering-IsAskable r world events rng catalogue bank answering) world latest
          (repeated_of history) 0 queries bank.rng fine (omega (arith, two)) inside again
          (repeated_of-within (length bank.facts) history within) in
      let same : bank.history ≡ history = answering.built.history in
      (
        latest,
        ap latest_of same ∙ listed,
        two,
        subst (λ h. 0 < length (repeated_of h)) (sym same) again,
        (
          rows,
          ap
                (λ h.
                  ask_all r world bank catalogue.predicates latest (repeated_of h) 0 queries
                    bank.rng)
                same
              ∙ asked,
          rows_count,
        ),
      )

module _ (r : Random) (world events queries : ℕ) (rng : r.State) (catalogue : Catalogue) where
  world_of :
      (bank : Bank r) (latest : List ℕ) (rows : List Row)
      → build_episode_bank r world events rng catalogue ≡ ok bank
      → latest_of bank.history ≡ ok latest
      → 1 < length latest
      → 0 < length (repeated_of bank.history)
      → ask_all r world bank catalogue.predicates latest
          (repeated_of bank.history)
          0
          queries
          bank.rng
        ≡ ok rows
      → build_world r world events queries rng catalogue ≡ ok rows
  unfolding build_world
  world_of bank latest rows built listed two again asked =
      let enough : not (ltb (length latest) 2 || is_empty (repeated_of bank.history)) ≡ true =
        ground (arith, long_enough (length latest) (repeated_of bank.history) two again) in
      let passed : guard (not (ltb (length latest) 2 || is_empty (repeated_of bank.history)))
            (value_error "dialogue bank lacks repeated facts")
          ≡ ok tt =
        rw enough refl in
      bind-ok _ built (bind-ok _ listed (bind-ok _ passed asked))

  -- With a usable catalogue, and with more events than there are pairs of a speaker and a relation,
  -- at most 800,000, `build_world` returns one row for each query.
  pub build_world_total :
      usable catalogue ≡ true
      → length catalogue.predicates * (2 + world % 3) < events
      → events ≤ 800_000
      → (rows : List Row) × (build_world r world events queries rng catalogue ≡ ok rows)
        × (length rows ≡ queries)
  unfolding usable
  build_world_total fine enough few =
      let many : 3 < length catalogue.predicates =
        (let test : ltb 3 (length catalogue.predicates) ≡ true = ground arith in ground arith) in
      let (bank, built, answering) =
        build_episode_bank_total r world events rng catalogue fine few in
      let (latest, listed, two, again, answered) =
        queries_total r world events rng catalogue bank answering queries fine many enough in
      (answered.0, world_of bank latest answered.0 built listed two again answered.1, answered.2)
