-- ===== src/Dialogue/Bank/Versions.antt =====
-- python/prepare_repeated_dialogue_curriculum.py: what `build_episode_bank` returns, against the
-- description of versions by places.
use bit_net.Base.{
  after_ok, ℕ, ◌+◌, ◌*◌, ◌%◌, ◌≡◌, refl, sym, ap, ◌∙◌, inl, inr, Option, none, some, [], map, arith,
  Option-cases, nat_eq, text_eq, texts_eq, option_eq, length, get_elem?, ok, Result-cases,
}
use mathlib.Core.Path.{subst}
use bit_net.Dialogue.Format.{modulo}
use bit_net.Dialogue.Dates.{Date}
use bit_net.Dialogue.Bank.{
  Random, Catalogue, key_eq, Fact, Marks, events_of, Loop, Bank, pick_speakers, add_events,
  mark_all, build_episode_bank,
}
use bit_net.Dialogue.Bank.Places.{
  key_of, places_of, marks_of, get_elem?-map, length-map, elem-get_elem?,
}
use bit_net.Dialogue.Bank.Marking.{with_marks, map-key_of-mark_all, mark_all_at}
use bit_net.Dialogue.Bank.Histories.{events_of-places_of}
use bit_net.Dialogue.Bank.Runs.{IsSound, add_events-IsSound}

marked_fact :
    (marks : Marks) (f f0 : Fact) (found : Option Fact)
    → some f ≡ with_marks marks found
    → found ≡ some f0
    → record f0 { marks = some marks } ≡ f
marked_fact marks f f0 none h e = cc
marked_fact marks f f0 (some f1) h e =
    let same : f1 ≡ f0 = ground arith in
    let marked : record f1 { marks = some marks } ≡ f = ground arith in
    subst (λ (x : Fact). record x { marks = some marks } ≡ f) same marked

module _ (r : Random) (world events : ℕ) (rng : r.State) (catalogue : Catalogue) where
  abbrev pub first_date : Date
  first_date = record { year = 2021 + world % 4; month = 1 + world % 12; day = 1 }

  abbrev pub no_events : Loop r
  no_events = record { rng = rng; episodes = []; facts = []; history = [] }

  -- The loop's last state, of which the bank is made.
  pub record IsBuilt (bank : Bank r) : Type 0 where
    pub whole : Loop r
    pub offset : ℕ
    pub started : modulo (world * 3) (length catalogue.speakers_catalog) ≡ ok offset
    pub picked :
        pick_speakers catalogue.speakers_catalog offset 0 (2 + world % 3) ≡ ok bank.speakers
    pub looped : add_events r world catalogue bank.speakers first_date 0 events no_events ≡ ok whole
    pub episodes : bank.episodes ≡ whole.episodes
    pub facts : bank.facts ≡ mark_all whole.history whole.facts
    pub history : bank.history ≡ whole.history

  pub build_episode_bank-IsBuilt :
      (bank : Bank r) → build_episode_bank r world events rng catalogue ≡ ok bank → IsBuilt bank
  unfolding build_episode_bank
  build_episode_bank-IsBuilt bank h =
      after_ok (modulo (world * 3) (length catalogue.speakers_catalog)) _ h λ offset started h.
        elim (Result-cases (pick_speakers catalogue.speakers_catalog offset 0 (2 + world % 3))) [
          | inr (e, failed) ↦ absurd (ground arith)
          | inl (speakers, picked) ↦
              elim (Result-cases
                (add_events r world catalogue speakers first_date 0 events no_events)) [
                  | inr (e, failed) ↦ absurd (ground arith)
                  | inl (whole, looped) ↦
                      let made : record {
                        speakers = speakers;
                        episodes = whole.episodes;
                        facts = mark_all whole.history whole.facts;
                        history = whole.history;
                        rng = whole.rng;
                      }
                          ≡ bank =
                        ground arith in
                      subst IsBuilt made (record {
                        whole = whole;
                        offset = offset;
                        started = started;
                        picked = picked;
                        looped = looped;
                        episodes = refl;
                        facts = refl;
                        history = refl;
                      })
                ]
        ]

  pub IsBuilt-IsSound :
      (bank : Bank r) (built : IsBuilt bank)
      → IsSound r world catalogue bank.speakers first_date events built.whole
  IsBuilt-IsSound bank built =
      let start : 0 + events ≡ events = omega arith in
      subst (λ n. IsSound r world catalogue bank.speakers first_date n built.whole) start
        (add_events-IsSound r world catalogue bank.speakers first_date 0 events no_events
          built.whole built.looped
          (record {
            counted = refl;
            numbered = λ i f h. cc;
            kept = record { places = tt; once = refl; listed = λ k h. h; filled = tt };
          }))

  -- The keys stay as the loop left them.
  pub keys-IsBuilt :
      (bank : Bank r) (built : IsBuilt bank) → map key_of bank.facts ≡ map key_of built.whole.facts
  keys-IsBuilt bank built =
      ap (map key_of) built.facts ∙ map-key_of-mark_all built.whole.history built.whole.facts

  -- A fact of the bank is one of the loop's, with its marks.
  pub facts-IsBuilt :
      (bank : Bank r) (built : IsBuilt bank) (i : ℕ) (f : Fact)
      → get_elem? bank.facts i ≡ some f
      → (f0 : Fact) × (get_elem? built.whole.facts i ≡ some f0)
        × (record f0 { marks = some (marks_of (map key_of bank.facts) i (key_of f)) } ≡ f)
  facts-IsBuilt bank built i f at =
      let sound = IsBuilt-IsSound bank built in
      let same = keys-IsBuilt bank built in
      let key_at : get_elem? (map key_of built.whole.facts) i ≡ some (key_of f) =
        ap (λ keys. get_elem? keys i) (sym same) ∙ get_elem?-map key_of bank.facts i {x = f} at in
      let present =
        sound.kept.listed (key_of f)
          (elem-get_elem? (map key_of built.whole.facts) i (key_of f) key_at) in
      let marked =
        mark_all_at (map key_of built.whole.facts) (key_of f) i built.whole.history
          built.whole.facts key_at (sound.kept.places, sound.kept.once) present in
      let marked' : some f
          ≡ with_marks (marks_of (map key_of bank.facts) i (key_of f))
              (get_elem? built.whole.facts i) =
        sym at
        ∙ ap (λ fs. get_elem? fs i) built.facts
        ∙ marked
        ∙ ap (λ keys. with_marks (marks_of keys i (key_of f)) (get_elem? built.whole.facts i))
            (sym same) in
      elim (Option-cases (get_elem? built.whole.facts i)) [
        | inl absent ↦ absurd (ground arith)
        | inr (f0, old) ↦ (f0, old, marked_fact _ f f0 (get_elem? built.whole.facts i) marked' old)
      ]

  -- When `build_episode_bank` returns, the bank has one fact for each event, and the fact at a place
  -- is the event's of that number. It is marked by its place alone: its version is the number of
  -- earlier facts of the same speaker and relation, it is an update if there are some,
  -- `previous_event` is the last of them, and it is active if no later fact has its speaker and
  -- relation. The history of its key lists the places of the facts with that key.
  pub build_episode_bank-marks_of :
      (bank : Bank r) (i : ℕ) (f : Fact)
      → build_episode_bank r world events rng catalogue ≡ ok bank
      → get_elem? bank.facts i ≡ some f
      → (length bank.facts ≡ events)
        × (f.event ≡ i)
        × (f.marks ≡ some (marks_of (map key_of bank.facts) i (key_of f)))
        × (events_of (key_of f) bank.history ≡ places_of (key_of f) 0 (map key_of bank.facts))
  build_episode_bank-marks_of bank i f h at =
      let built = build_episode_bank-IsBuilt bank h in
      let sound = IsBuilt-IsSound bank built in
      let same = keys-IsBuilt bank built in
      let (f0, old, is_f) = facts-IsBuilt bank built i f at in
      (
        sym (length-map key_of bank.facts)
            ∙ ap length same
            ∙ length-map key_of built.whole.facts
            ∙ sound.counted,
        ap (λ (x : Fact). x.event) (sym is_f) ∙ (sound.numbered i f0 old).event,
        ap (λ (x : Fact). x.marks) (sym is_f),
        ap (events_of (key_of f)) built.history
            ∙ events_of-places_of (map key_of built.whole.facts) built.whole.history (key_of f)
                sound.kept
            ∙ ap (places_of (key_of f) 0) (sym same),
      )
