-- ===== src/Dialogue/Bank.antt =====
-- python/prepare_repeated_dialogue_curriculum.py: the bank of episodes. The facts are a store by
-- event, and the history of a key is a list of places in it, since the code keeps one object in both.
-- The seeded generator is a parameter.
pub mod Places
pub mod Marking
pub mod Histories
pub mod Runs
pub mod Versions
pub mod Turns
pub mod Totals
pub mod Usable
pub mod Named
use bit_net.Base.Integers.{ℤ}
use bit_net.Base.{
  ℕ, zero, suc, ◌+◌, ◌*◌, ◌/◌, ◌%◌, ◌<◌, Bool, true, Option, none, some, List, [], ◌∷◌, ◌++◌,
  if◌then◌else◌, ◌==◌, Eq, eq_iff, nat_eq, text_eq, arith, length, is_empty, Result, ok, err, ◌>>=◌,
  Text, lit, value_error, ◌&&◌, ◌≡◌, ◌↔◌,
}
use bit_net.Base.Dict.{Dict, lookup, insert}
use bit_net.Dialogue.Catalog.{Predicate, Aliases}
use bit_net.Dialogue.Catalog.Speakers.{details}
use bit_net.Dialogue.Format.{format, item, item_back, modulo, padded}
use bit_net.Dialogue.Dates.{Date, add_days, isoformat}

-- `random.Random`: a state from a seed, and numbers below a positive bound.
pub record Random : Type 1 where
  pub State : Type 0
  pub seeded : ℤ → State
  pub randbelow : State → ℕ → ℕ × State
  pub randbelow_lt : (s : State) (n : ℕ) → 0 < n → (randbelow s n).0 < n

-- The keyword arguments that the functions pass on.
pub record Catalogue : Type 0 where
  pub speakers_catalog : List Text
  pub predicates : List Predicate
  pub predicate_aliases : Option Aliases
  pub include_canonical_predicate_surface : Bool
  pub statement_templates : List Text
  pub update_templates : List Text

pub data Operation : Type 0 where
  create : Operation
  update : Operation

-- The keys of a fact that are set once the bank is whole.
pub record Marks : Type 0 where
  pub version : ℕ
  pub operation : Operation
  pub previous_event : Option ℕ
  pub active : Bool

pub record Fact : Type 0 where
  pub event : ℕ
  pub speaker : Text
  pub predicate_index : ℕ
  pub predicate : Text
  pub predicate_surface : Text
  pub value : Text
  pub date : Text
  pub marks : Option Marks

pub record Key : Type 0 where
  pub speaker : Text
  pub predicate_index : ℕ

pub key_beq_iff :
    (a b : Key)
    → ((a.speaker == b.speaker && a.predicate_index == b.predicate_index) ≡ true) ↔ (a ≡ b)
key_beq_iff a b =
    ground (arith, eq_iff a.speaker b.speaker, eq_iff a.predicate_index b.predicate_index)

instance abbrev pub key_eq : Eq Key
key_eq = record {
  beq = λ a b. a.speaker == b.speaker && a.predicate_index == b.predicate_index;
  beq_iff = key_beq_iff;
}

abbrev pub History : Type 0
History = Dict Key (List ℕ)

-- `f"[source R{world:04d}E{event:03d} | {date.isoformat()}] {statement}"`
unfoldable pub dated_episode : ℕ → ℕ → Date → Text → Text
dated_episode world event date statement =
    lit "[source R"
    ++ padded 4 world
    ++ lit "E"
    ++ padded 3 event
    ++ lit " | "
    ++ isoformat date
    ++ lit "] "
    ++ statement

unfoldable pub choose_value : ℕ → ℕ → ℕ → List Predicate → Result Text
choose_value world event predicate_index predicates = do
  predicate ← item predicates predicate_index
  place ← modulo (world * 5 + event * 3 + predicate_index) (length predicate.values)
  base ← item predicate.values place
  which ← modulo (world * 7 + event * 5 + predicate_index) (length details)
  detail ← item details which
  ok (base ++ lit " " ++ detail)

-- `[catalog[(offset + index) % len(catalog)] for index in range(count)]`, from an index on
unfoldable pub pick_speakers : List Text → ℕ → ℕ → ℕ → Result (List Text)
pick_speakers catalog offset index zero = ok []
pick_speakers catalog offset index (suc count) = do
  place ← modulo (offset + index) (length catalog)
  speaker ← item catalog place
  rest ← pick_speakers catalog offset (suc index) count
  ok (speaker ∷ rest)

-- The forms that a relation may take in an episode.
unfoldable pub surface_forms : Catalogue → Text → List Text
surface_forms catalogue predicate =
    let aliases : List Text = elim catalogue.predicate_aliases [
      | none ↦ []
      | some table ↦ elim (lookup predicate table) [ none ↦ [] | some found ↦ found ]
    ] in
    if catalogue.include_canonical_predicate_surface then predicate ∷ aliases else aliases

-- `history.get(key, [])`
abbrev pub events_of : Key → History → List ℕ
events_of key history = elim (lookup key history) [ none ↦ [] | some events ↦ events ]

-- `fact.update(…)` of the fact at a place of the store
unfoldable pub set_marks : ℕ → Marks → List Fact → List Fact
set_marks place marks [] = []
set_marks zero marks (f ∷ facts) = record f { marks = some marks } ∷ facts
set_marks (suc place) marks (f ∷ facts) = f ∷ set_marks place marks facts

-- `for version, fact in enumerate(values)`, from a version on
unfoldable pub mark_chain : Option ℕ → ℕ → List ℕ → List Fact → List Fact
unfolding set_marks
mark_chain previous version [] facts = facts
mark_chain previous version (event ∷ events) facts = mark_chain (some event) (suc version) events (
    set_marks event
      (record {
        version = version;
        operation = if version == 0 then create else update;
        previous_event = previous;
        active = is_empty events;
      })
      facts)

-- `for values in history.values()`
unfoldable pub mark_all : History → List Fact → List Fact
unfolding mark_chain
mark_all [] facts = facts
mark_all ((key, events) ∷ history) facts = mark_all history (mark_chain none 0 events facts)

module _ (r : Random) where
  open r use {State, randbelow}

  -- `rng.choice(xs)`
  unfoldable pub choice {ℓ} : {A : Type ℓ} → List A → State → Result (A × State)
  choice xs rng = do let drawn = randbelow rng (length xs); x ← item xs drawn.0; ok (x, drawn.1)

  -- The variables of the loop.
  pub record Loop : Type 0 where
    pub rng : State
    pub episodes : List Text
    pub facts : List Fact
    pub history : History

  -- The sentence of an event: an update that names the last value, or a first statement.
  unfoldable pub write_statement :
      Catalogue → Text → Text → Text → List ℕ → List Fact → State → Result (Text × State)
  unfolding choice
  write_statement catalogue speaker surface value [] facts rng = do
    drawn ← choice catalogue.statement_templates rng
    statement ←
        format drawn.0
          ((lit "speaker", speaker) ∷ (lit "predicate", surface) ∷ (lit "value", value) ∷ [])
    ok (statement, drawn.1)
  write_statement catalogue speaker surface value (first ∷ others) facts rng = do
    drawn ← choice catalogue.update_templates rng
    last ← item_back (first ∷ others) 0
    old ← item facts last
    statement ← format drawn.0 (
        (lit "speaker", speaker)
        ∷ (lit "predicate", surface)
        ∷ (lit "old", old.value)
        ∷ (lit "value", value)
        ∷ [])
    ok (statement, drawn.1)

  -- One turn of the loop over the events.
  unfoldable pub add_event : ℕ → Catalogue → List Text → Date → ℕ → Loop → Result Loop
  unfolding choose_value surface_forms choice write_statement dated_episode
  add_event world catalogue speakers base_date event state = do
    let speaker_count = 2 + world % 3
    speaker ← item speakers (event % speaker_count)
    predicate_index ←
        modulo (event / speaker_count + event * 3 + world) (length catalogue.predicates)
    entry ← item catalogue.predicates predicate_index
    let surfaces = surface_forms catalogue entry.name
    surface ←
        if is_empty surfaces
        then err (value_error "predicate has no surface form")
        else choice surfaces state.rng
    value ← choose_value world event predicate_index catalogue.predicates
    let key : Key = record { speaker = speaker; predicate_index = predicate_index }
    let previous = events_of key state.history
    statement ← write_statement catalogue speaker surface.0 value previous state.facts surface.1
    date ← add_days (event * 3 + event / 7) base_date
    ok (record {
      rng = statement.1;
      episodes = state.episodes ++ dated_episode world event date statement.0 ∷ [];
      facts =
          state.facts
          ++ record {
            event = event;
            speaker = speaker;
            predicate_index = predicate_index;
            predicate = entry.name;
            predicate_surface = surface.0;
            value = value;
            date = isoformat date;
            marks = none;
          }
            ∷ [];
      history = insert key (previous ++ event ∷ []) state.history;
    })

  -- `for event in range(events)`, from an event on
  unfoldable pub add_events : ℕ → Catalogue → List Text → Date → ℕ → ℕ → Loop → Result Loop
  unfolding add_event
  add_events world catalogue speakers base_date event zero state = ok state
  add_events world catalogue speakers base_date event (suc left) state =
      add_event world catalogue speakers base_date event state >>= λ next.
      add_events world catalogue speakers base_date (suc event) left next

  pub record Bank : Type 0 where
    pub speakers : List Text
    pub episodes : List Text
    pub facts : List Fact
    pub history : History
    pub rng : State

  unfoldable pub build_episode_bank : ℕ → ℕ → State → Catalogue → Result Bank
  unfolding pick_speakers add_events mark_all
  build_episode_bank world events rng catalogue = do
    let speaker_count = 2 + world % 3
    offset ← modulo (world * 3) (length catalogue.speakers_catalog)
    speakers ← pick_speakers catalogue.speakers_catalog offset 0 speaker_count
    let base_date : Date = record { year = 2021 + world % 4; month = 1 + world % 12; day = 1 }
    whole ←
        add_events world catalogue speakers base_date 0 events
          (record { rng = rng; episodes = []; facts = []; history = [] })
    ok (record {
      speakers = speakers;
      episodes = whole.episodes;
      facts = mark_all whole.history whole.facts;
      history = whole.history;
      rng = whole.rng;
    })
