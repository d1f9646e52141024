-- ===== src/Dialogue/Rows.antt =====
-- python/prepare_repeated_dialogue_curriculum.py: the rows of questions on a bank.
pub mod Spans
pub mod Repeats
pub mod Latest
use bit_net.Base.{
  ℕ, ◌+◌, Bool, Option, none, List, [], ◌∷◌, ◌++◌, ltb, if◌then◌else◌, nat_eq, length, Result, ok,
  ◌>>=◌, or_raise, Text, lit, key_error,
}
use bit_net.Dialogue.Format.{index_of, join_lines, item, item_back, padded}
use bit_net.Dialogue.Bank.{Operation, Fact, History}

pub record Span : Type 0 where
  pub start : ℕ
  pub end : ℕ
  pub text : Text

-- `starts`: where each episode begins in the joined text, from a cursor on
unfoldable pub starts_from : ℕ → List Text → List ℕ
starts_from cursor [] = []
starts_from cursor (episode ∷ episodes) =
    cursor ∷ starts_from (cursor + length episode + 1) episodes

-- The loop over `zip(gold_indices, surfaces)`.
unfoldable pub spans_at : List Text → List ℕ → List ℕ → List Text → Result (List Span)
spans_at episodes starts [] surfaces = ok []
spans_at episodes starts (index ∷ indices) [] = ok []
spans_at episodes starts (index ∷ indices) (surface ∷ surfaces) = do
  episode ← item episodes index
  local ← index_of episode surface
  first ← item starts index
  let start = first + local
  rest ← spans_at episodes starts indices surfaces
  ok (record { start = start; end = start + length surface; text = surface } ∷ rest)

unfoldable pub answer_spans : List Text → List ℕ → List Text → Result (List Span)
unfolding starts_from spans_at
answer_spans episodes gold_indices surfaces =
    spans_at episodes (starts_from 0 episodes) gold_indices surfaces

-- `answer`: one text, or a list of texts
pub data Answer : Type 0 where
  single : Text → Answer
  several : List Text → Answer

pub record Target : Type 0 where
  pub entity : Text
  pub predicate : Text
  pub version : Text
  pub value : Option Text
  pub time : Option Text
  pub anchor_episode : Option ℕ

pub record QueryPlan : Type 0 where
  pub intent : Text
  pub entity : Option Text
  pub predicate : Option Text
  pub targets : List Target

pub record TypedEvent : Type 0 where
  pub episode : ℕ
  pub entity : Text
  pub predicate : Text
  pub predicate_surface : Text
  pub value : Text
  pub time : Text
  pub operation : Operation
  pub version : ℕ
  pub previous_episode : Option ℕ
  pub active : Bool

pub record Row : Type 0 where
  pub sample_id : Text
  pub question : Text
  pub evidence : Text
  pub answer_type : Text
  pub answer : Answer
  pub spans : List Span
  pub family : Text
  pub world_id : Text
  pub source_count : ℕ
  pub counterfactual_no_info : Bool
  pub typed_events : List TypedEvent
  pub query_plan : QueryPlan
  pub semantic_world_id : Option Text
  pub layout_view : Option ℕ

-- A fact whose marks are not set has no key `operation`.
unfoldable pub typed_event : Fact → Result TypedEvent
typed_event fact = or_raise fact.marks (key_error (lit "operation")) >>= λ marks. ok (record {
  episode = fact.event;
  entity = fact.speaker;
  predicate = fact.predicate;
  predicate_surface = fact.predicate_surface;
  value = fact.value;
  time = fact.date;
  operation = marks.operation;
  version = marks.version;
  previous_episode = marks.previous_event;
  active = marks.active;
})

unfoldable pub typed_events_of : List Fact → Result (List TypedEvent)
unfolding typed_event
typed_events_of [] = ok []
typed_events_of (fact ∷ facts) = do
  event ← typed_event fact
  rest ← typed_events_of facts
  ok (event ∷ rest)

-- `f"repeated-dialogue-{world:04d}"`
unfoldable pub world_name : ℕ → Text
world_name world = lit "repeated-dialogue-" ++ padded 4 world

unfoldable pub make_row :
    ℕ
    → ℕ
    → List Text
    → List Fact
    → Text
    → Answer
    → List ℕ
    → List Text
    → Text
    → Bool
    → QueryPlan
    → Result Row
unfolding answer_spans typed_events_of world_name
make_row world query_index episodes facts question answer gold_indices surfaces family null_target
      plan =
    do
      spans ← answer_spans episodes gold_indices surfaces
      events ← typed_events_of facts
      ok (record {
        sample_id = world_name world ++ lit "-" ++ padded 3 query_index;
        question = question;
        evidence = join_lines episodes;
        answer_type = if ltb 1 (length gold_indices) then lit "list" else lit "span";
        answer = answer;
        spans = spans;
        family = family;
        world_id = world_name world;
        source_count = length episodes;
        counterfactual_no_info = null_target;
        typed_events = events;
        query_plan = plan;
        semantic_world_id = none;
        layout_view = none;
      })

pub data Family : Type 0 where
  direct : Family
  paraphrase : Family
  temporal : Family
  previous : Family
  multi : Family
  null : Family

abbrev pub family_name : Family → Text
family_name direct = lit "direct"
family_name paraphrase = lit "paraphrase"
family_name temporal = lit "temporal"
family_name previous = lit "previous"
family_name multi = lit "multi"
family_name null = lit "null"

abbrev pub families : List Family
families = direct ∷ paraphrase ∷ temporal ∷ previous ∷ multi ∷ null ∷ []

-- A target with the active version of a fact.
abbrev pub active_target : Fact → Target
active_target fact = record {
  entity = fact.speaker;
  predicate = fact.predicate;
  version = lit "active";
  value = none;
  time = none;
  anchor_episode = none;
}

abbrev pub plan_of : Text → List Target → QueryPlan
plan_of intent targets = record {
  intent = intent;
  entity = none;
  predicate = none;
  targets = targets;
}

-- `[values[-1] for values in history.values()]`, as places of the store
unfoldable pub latest_of : History → Result (List ℕ)
latest_of [] = ok []
latest_of ((key, events) ∷ history) = do
  last ← item_back events 0
  rest ← latest_of history
  ok (last ∷ rest)

-- `[values for values in history.values() if len(values) >= 2]`
unfoldable pub repeated_of : History → List (List ℕ)
repeated_of [] = []
repeated_of ((key, events) ∷ history) =
    let rest = repeated_of history in if ltb 1 (length events) then events ∷ rest else rest
