-- ===== src/Dialogue/Worlds/Answers.antt =====
-- python/prepare_repeated_dialogue_curriculum.py: the answers of the rows against the versions of
-- the facts.
use bit_net.Base.{
  after_ok, ℕ, ◌++◌, ◌≡◌, sym, ap, ◌∙◌, Bool, true, false, none, some, List, [], ◌∷◌, map, arith,
  nat_eq, text_eq, texts_eq, option_eq, get_elem?, All, ok, Text, lit,
}
use mathlib.Core.Path.{subst}
use bit_net.Dialogue.Format.{padded, format, item_back}
use bit_net.Dialogue.Catalog.{Predicate}
use bit_net.Dialogue.Bank.{Random, Catalogue, Key, Fact, Marks, Bank}
use bit_net.Dialogue.Rows.{
  Target, world_name, Answer, single, several, QueryPlan, Row, answer_spans, typed_events_of,
  make_row, Family, direct, paraphrase, temporal, previous, multi, null, latest_of, repeated_of,
}
use bit_net.Dialogue.Bank.Places.{key_of, places_of, marks_of, get_elem?-map}
use bit_net.Dialogue.Bank.Versions.{IsBuilt, IsBuilt-IsSound, keys-IsBuilt, facts-IsBuilt}
use bit_net.Dialogue.Rows.Latest.{item_back-marks_of, latest_of-last, repeated_of-places}

some_inj : {a b : Key} → some a ≡ some b → a ≡ b
some_inj h = ground arith

-- The sample id that `make_row` gives.
abbrev pub plain_id : ℕ → ℕ → Text
plain_id world query = world_name world ++ lit "-" ++ padded 3 query

-- A row that asks a question on some episodes. Its spans are those of the surfaces in the episodes
-- that hold the gold facts.
pub record IsRow (episodes : List Text) (question : Text) (answer : Answer) (gold : List ℕ)
    (surfaces : List Text) (family : Text) (null_target : Bool) (intent : Text)
    (targets : List Target) (row : Row) : Type 0 where
  pub asks : row.question ≡ question
  pub answers : row.answer ≡ answer
  pub points : answer_spans episodes gold surfaces ≡ ok row.spans
  pub in_family : row.family ≡ family
  pub without_info : row.counterfactual_no_info ≡ null_target
  pub intends : row.query_plan.intent ≡ intent
  pub aims : row.query_plan.targets ≡ targets

-- A row has the name of its query, and what it was made with.
pub make_row-IsRow :
    (world query_index : ℕ) (episodes : List Text) (facts : List Fact) (question : Text)
    (answer : Answer) (gold : List ℕ) (surfaces : List Text) (family : Text) (null_target : Bool)
    (plan : QueryPlan) (row : Row)
    → make_row world query_index episodes facts question answer gold surfaces family null_target
        plan
      ≡ ok row
    → (row.sample_id ≡ plain_id world query_index)
      × IsRow episodes question answer gold surfaces family null_target plan.intent plan.targets row
unfolding make_row
make_row-IsRow world query_index episodes facts question answer gold surfaces family null_target
      plan row h =
    after_ok (answer_spans episodes gold surfaces) _ h λ spans cut h.
      after_ok (typed_events_of facts) _ h λ events typed h. (
        ground arith,
        record {
          asks = ground arith;
          answers = ground arith;
          points = cut ∙ ap (λ r. ok r) (ground arith);
          in_family = ground arith;
          without_info = ground arith;
          intends = ground arith;
          aims = ground arith;
        },
      )

-- What a question on the active version of a fact must aim at.
abbrev pub aim : Fact → Target
aim f = record {
  entity = f.speaker;
  predicate = f.predicate;
  version = lit "active";
  value = none;
  time = none;
  anchor_episode = none;
}

-- A question of the fact's relation, with the speaker put in.
pub record IsRephrased (predicates : List Predicate) (f : Fact) (question : Text) : Type 0 where
  pub predicate : Predicate
  pub named : get_elem? predicates f.predicate_index ≡ some predicate
  pub place : ℕ
  pub template : Text
  pub drawn : get_elem? predicate.questions place ≡ some template
  pub filled : format template ((lit "speaker", f.speaker) ∷ []) ≡ ok question

module _ (r : Random) (bank : Bank r) where
  -- A fact of the bank that no later one replaces.
  pub record IsCurrent (f : Fact) : Type 0 where
    pub place : ℕ
    pub found : get_elem? bank.facts place ≡ some f
    pub numbered : f.event ≡ place
    pub marks : Marks
    pub marked : f.marks ≡ some marks
    pub active : marks.active ≡ true

  -- A fact, and the one that its `previous_event` names.
  pub record IsReplaced (old new : Fact) : Type 0 where
    pub current : IsCurrent new
    pub place : ℕ
    pub found : get_elem? bank.facts place ≡ some old
    pub numbered : old.event ≡ place
    pub previous : current.marks.previous_event ≡ some place
    pub same : key_of old ≡ key_of new

  -- What the row of a family is: its question is on the facts that answer it, which are active or
  -- were replaced by an active one, its spans are of their values or dates in their episodes, and its
  -- plan aims at their speaker and relation.
  abbrev pub IsAnswered : List Predicate → Family → Row → Type 0
  IsAnswered predicates direct row =
      (f : Fact) × IsCurrent f
      × IsRow bank.episodes
          (lit "What is " ++ f.speaker ++ lit "'s current " ++ f.predicate ++ lit "?")
          (single f.value) (f.event ∷ []) (f.value ∷ []) (lit "direct") false (lit "current")
          (aim f ∷ []) row
  IsAnswered predicates paraphrase row =
      (f : Fact) × IsCurrent f
      × IsRephrased predicates f row.question
      × IsRow bank.episodes row.question (single f.value) (f.event ∷ []) (f.value ∷ [])
          (lit "paraphrase") false (lit "current") (aim f ∷ []) row
  IsAnswered predicates temporal row =
      (f : Fact) × IsCurrent f
      × IsRow bank.episodes
          (lit "When did "
            ++ f.speaker
            ++ lit " say their "
            ++ f.predicate
            ++ lit " was "
            ++ f.value
            ++ lit "?")
          (single f.date) (f.event ∷ []) (f.date ∷ []) (lit "temporal") false (lit "exact_time")
          (record (aim f) { version = lit "exact"; value = some f.value; time = some f.date } ∷ [])
          row
  IsAnswered predicates previous row =
      (old new : Fact) × IsReplaced old new
      × IsRow bank.episodes
          (lit "What was "
            ++ old.speaker
            ++ lit "'s "
            ++ old.predicate
            ++ lit " before "
            ++ new.value
            ++ lit "?")
          (single old.value) (old.event ∷ []) (old.value ∷ []) (lit "previous") false
          (lit "previous")
          (record (aim old) { version = lit "previous"; anchor_episode = some new.event } ∷ []) row
  IsAnswered predicates multi row =
      (f g : Fact) × IsCurrent f
      × IsCurrent g
      × IsRow bank.episodes
          (lit "What are the current "
            ++ f.predicate
            ++ lit " for "
            ++ f.speaker
            ++ lit " and "
            ++ g.predicate
            ++ lit " for "
            ++ g.speaker
            ++ lit "?")
          (several (f.value ∷ g.value ∷ [])) (f.event ∷ g.event ∷ []) (f.value ∷ g.value ∷ [])
          (lit "multi") false (lit "multi_current") (aim f ∷ aim g ∷ []) row
  IsAnswered predicates null row =
      (speaker : Text) × (place : ℕ) × (get_elem? bank.speakers place ≡ some speaker)
      × IsRow bank.episodes (lit "What is " ++ speaker ++ lit "'s emergency contact preference?")
          (single (lit "No information available")) [] [] (lit "null") true (lit "null") [] row

module _ (r : Random) (world events : ℕ) (rng : r.State) (catalogue : Catalogue) (bank : Bank r)
    (built : IsBuilt r world events rng catalogue bank) where
  event_at : (i : ℕ) (f : Fact) → get_elem? bank.facts i ≡ some f → f.event ≡ i
  event_at i f at =
      let (f0, old, is_f) = facts-IsBuilt r world events rng catalogue bank built i f at in
      ap (λ (x : Fact). x.event) (sym is_f)
      ∙ ((IsBuilt-IsSound r world events rng catalogue bank built).numbered i f0 old).event

  -- A fact that stands last among its key's places.
  last-IsCurrent :
      (key : Key) (n : ℕ) (f : Fact)
      → item_back (places_of key 0 (map key_of bank.facts)) 0 ≡ ok n
      → get_elem? bank.facts n ≡ some f
      → (current : IsCurrent r bank f) × (key_of f ≡ key)
        × ((o : ℕ)
            → item_back (places_of key 0 (map key_of bank.facts)) 1 ≡ ok o
            → (get_elem? (map key_of bank.facts) o ≡ some key)
              × (current.marks.previous_event ≡ some o))
  last-IsCurrent key n f last at =
      let keys = map key_of bank.facts in
      let (there, active, before) = item_back-marks_of keys key n last in
      let (f0, old, is_f) = facts-IsBuilt r world events rng catalogue bank built n f at in
      let key_there : get_elem? keys n ≡ some (key_of f) =
        get_elem?-map key_of bank.facts n {x = f} at in
      let same : key_of f ≡ key = some_inj (sym key_there ∙ there) in
      (
        record {
          place = n;
          found = at;
          numbered = event_at n f at;
          marks = marks_of keys n (key_of f);
          marked = ap (λ (x : Fact). x.marks) (sym is_f);
          active = ap (λ k. (marks_of keys n k).active) same ∙ active;
        },
        same,
        λ o second.
            (let (here, event) = before o second in
              (here, ap (λ k. (marks_of keys n k).previous_event) same ∙ event)),
      )

  places : All (λ entry. entry.1 ≡ places_of entry.0 0 (map key_of bank.facts)) bank.history
  places =
      subst
        (λ h.
          All (λ (entry : Key × List ℕ). entry.1 ≡ places_of entry.0 0 (map key_of bank.facts)) h)
        (sym built.history)
        (subst
          (λ ks.
            All (λ (entry : Key × List ℕ). entry.1 ≡ places_of entry.0 0 ks) built.whole.history)
          (sym (keys-IsBuilt r world events rng catalogue bank built))
          (IsBuilt-IsSound r world events rng catalogue bank built).kept.places)

  pub latest-IsCurrent :
      (latest : List ℕ) (k n : ℕ) (f : Fact)
      → latest_of bank.history ≡ ok latest
      → get_elem? latest k ≡ some n
      → get_elem? bank.facts n ≡ some f
      → IsCurrent r bank f
  latest-IsCurrent latest k n f listed at found =
      let (key, last) =
        latest_of-last (map key_of bank.facts) bank.history latest k n places listed at in
      (last-IsCurrent key n f last found).0

  pub chain-IsReplaced :
      (chain : List ℕ) (k o n : ℕ) (old new : Fact)
      → get_elem? (repeated_of bank.history) k ≡ some chain
      → item_back chain 1 ≡ ok o
      → item_back chain 0 ≡ ok n
      → get_elem? bank.facts o ≡ some old
      → get_elem? bank.facts n ≡ some new
      → IsReplaced r bank old new
  chain-IsReplaced chain k o n old new at second last old_at new_at =
      let (key, made) = repeated_of-places (map key_of bank.facts) bank.history k chain places at in
      let (current, same, before) =
        last-IsCurrent key n new (ap (λ c. item_back c 0) (sym made) ∙ last) new_at in
      let (here, event) = before o (ap (λ c. item_back c 1) (sym made) ∙ second) in
      let old_key : get_elem? (map key_of bank.facts) o ≡ some (key_of old) =
        get_elem?-map key_of bank.facts o {x = old} old_at in
      record {
        current = current;
        place = o;
        found = old_at;
        numbered = event_at o old old_at;
        previous = event;
        same = some_inj (sym old_key ∙ here) ∙ sym same;
      }
