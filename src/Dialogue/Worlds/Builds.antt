-- ===== src/Dialogue/Worlds/Builds.antt =====
-- python/prepare_repeated_dialogue_curriculum.py: `build_episode_bank` and `build_world` return.
use bit_net.Base.{
  ℕ, zero, suc, ◌+◌, ◌*◌, ◌/◌, ◌%◌, ◌≤◌, ◌<◌, ◌≡◌, refl, sym, ap, ◌∙◌, true, some, List, [], ◌∷◌,
  map, arith, nat_eq, text_eq, texts_eq, option_eq, length, ok, Text, bind-ok,
}
use mathlib.Core.Path.{subst}
use bit_net.Dialogue.Format.{modulo}
use bit_net.Dialogue.Bank.{
  Random, Catalogue, key_eq, Fact, Loop, Bank, pick_speakers, add_events, mark_all,
  build_episode_bank,
}
use bit_net.Dialogue.Dates.Calendar.{rank, last_rank}
use bit_net.Dialogue.Bank.Places.{key_of, marks_of}
use bit_net.Dialogue.Bank.Versions.{first_date, no_events, IsBuilt, facts-IsBuilt}
use bit_net.Dialogue.Bank.Totals.{IsReady, add_events_total}
use bit_net.Dialogue.Bank.Turns.{IsSupported}
use bit_net.Dialogue.Bank.Usable.{usable, item_ok, get_elem?_total, modulo_total, length_pos}
use bit_net.Dialogue.Worlds.Questions.{IsAskable}

pick_speakers_total :
    (catalog : List Text) (offset index count : ℕ)
    → 0 < length catalog
    → (speakers : List Text) × (pick_speakers catalog offset index count ≡ ok speakers)
      × (length speakers ≡ count)
unfolding pick_speakers
pick_speakers_total catalog offset index zero h = ([], refl, refl)
pick_speakers_total catalog offset index (suc count) h =
    let (turn, turn_lt) = modulo_total (offset + index) (length catalog) h in
    let (speaker, at) = get_elem?_total catalog ((offset + index) % length catalog) turn_lt in
    let (rest, picked, counted) = pick_speakers_total catalog offset (suc index) count h in
    (
      speaker ∷ rest,
      bind-ok _ turn (bind-ok _ (item_ok catalog _ {x = speaker} at) (bind-ok _ picked refl)),
      ap suc counted,
    )

pub modulo_bound : (n d m : ℕ) → modulo n d ≡ ok m → (m < d) × (m ≡ n % d)
modulo_bound n d m h = ground arith

module _ (r : Random) (world events : ℕ) (rng : r.State) (catalogue : Catalogue) where
  -- The events that dates up to the last year allow.
  abbrev pub most_events : ℕ
  most_events = 800_000

  -- A bank that was built, with what its questions need.
  pub record IsAnswering (bank : Bank r) : Type 0 where
    pub built : IsBuilt r world events rng catalogue bank
    pub ready :
        IsReady r world catalogue bank.speakers
          (first_date r world events rng catalogue)
          events
          built.whole
    pub speakers : length bank.speakers ≡ 2 + world % 3

  -- The calls that all return make the bank.
  bank_of :
      (offset : ℕ) (speakers : List Text) (whole : Loop r)
      → modulo (world * 3) (length catalogue.speakers_catalog) ≡ ok offset
      → pick_speakers catalogue.speakers_catalog offset 0 (2 + world % 3) ≡ ok speakers
      → length speakers ≡ 2 + world % 3
      → add_events r world catalogue speakers
          (first_date r world events rng catalogue)
          0
          events
          (no_events r world events rng catalogue)
        ≡ ok whole
      → IsReady r world catalogue speakers (first_date r world events rng catalogue) events whole
      → (bank : Bank r) × (build_episode_bank r world events rng catalogue ≡ ok bank)
        × IsAnswering bank
  unfolding build_episode_bank
  bank_of offset speakers whole started picked counted looped ready = (
    record {
      speakers = speakers;
      episodes = whole.episodes;
      facts = mark_all whole.history whole.facts;
      history = whole.history;
      rng = whole.rng;
    },
    bind-ok _ started (bind-ok _ picked (bind-ok _ looped refl)),
    record {
      built = record {
        whole = whole;
        offset = offset;
        started = started;
        picked = picked;
        looped = looped;
        episodes = refl;
        facts = refl;
        history = refl;
      };
      ready = ready;
      speakers = counted;
    },
  )

  no_events-IsReady :
      (speakers : List Text)
      → IsReady r world catalogue speakers
          (first_date r world events rng catalogue)
          0
          (no_events r world events rng catalogue)
  no_events-IsReady speakers = record {
    sound = record {
      counted = refl;
      numbered = λ i f h. cc;
      kept = record { places = tt; once = refl; listed = λ k h. h; filled = tt };
    };
    even = refl;
    supported = λ i f h. cc;
  }

  pub build_episode_bank_total :
      usable catalogue ≡ true
      → events ≤ most_events
      → (bank : Bank r) × (build_episode_bank r world events rng catalogue ≡ ok bank)
        × IsAnswering bank
  unfolding usable
  build_episode_bank_total fine few =
      let some_speakers : 0 < length catalogue.speakers_catalog =
        length_pos catalogue.speakers_catalog (ground arith) in
      let (started, offset_lt) =
        modulo_total (world * 3) (length catalogue.speakers_catalog) some_speakers in
      let offset = (world * 3) % length catalogue.speakers_catalog in
      let (speakers, picked, counted) =
        pick_speakers_total catalogue.speakers_catalog offset 0 (2 + world % 3) some_speakers in
      let start = first_date r world events rng catalogue in
      let early : rank start + ((0 + events) * 3 + (0 + events) / 7) < last_rank = omega arith in
      let (whole, looped, ready) =
        add_events_total r world catalogue speakers start 0 events
          (no_events r world events rng catalogue) fine counted (omega arith) early
          (no_events-IsReady speakers) in
      let count : 0 + events ≡ events = omega arith in
      bank_of offset speakers whole started picked counted looped
        (subst (λ n. IsReady r world catalogue speakers start n whole) count ready)

  -- The facts of such a bank can be asked for.
  pub IsAnswering-IsAskable : (bank : Bank r) → IsAnswering bank → IsAskable r catalogue bank
  IsAnswering-IsAskable bank answering =
      let built = answering.built in
      let sound = answering.ready.sound in
      record {
        event = λ i f at.
            (let (f0, old, is_f) = facts-IsBuilt r world events rng catalogue bank built i f at in
              ap (λ (x : Fact). x.event) (sym is_f) ∙ (sound.numbered i f0 old).event);
        indexed = λ i f at.
            (let (f0, old, is_f) = facts-IsBuilt r world events rng catalogue bank built i f at in
              subst (λ (x : Fact). x.predicate_index < length catalogue.predicates) is_f
                (modulo_bound _ (length catalogue.predicates) f0.predicate_index
                  (sound.numbered i f0 old).indexed).0);
        marked = λ i f at.
            (let (f0, old, is_f) = facts-IsBuilt r world events rng catalogue bank built i f at in
              (_, ap (λ (x : Fact). x.marks) (sym is_f)));
        supported = λ i f at.
            (let (f0, old, is_f) = facts-IsBuilt r world events rng catalogue bank built i f at in
              subst (λ (x : Fact). IsSupported bank.episodes i x) is_f
                (subst
                  (λ es.
                    IsSupported es i
                      (record f0 { marks = some (marks_of (map key_of bank.facts) i (key_of f)) }))
                  (sym built.episodes) (answering.ready.supported i f0 old)));
        spoken = omega (arith, answering.speakers);
      }
