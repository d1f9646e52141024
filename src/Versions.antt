-- ===== src/Versions.antt =====
-- python/validate_typed_version_memory.py: a graph of versioned events, and the resolution of the
-- targets of a query.
pub mod Laws
use bit_net.Contract.{require}
use bit_net.Base.{
  ℕ, zero, suc, ◌+◌, ◌-◌, ◌*◌, ◌/◌, ◌%◌, ◌≤◌, ◌<◌, min, String, ◌≡◌, refl, sym, ap, ◌∙◌, ◌≢◌, ◌↔◌,
  ◌⊎◌, inl, inr, Bool, true, false, not, ◌&&◌, ◌||◌, Option, none, some, List, [], ◌∷◌, ◌++◌, map,
  arith, ltb, leb, if◌then◌else◌, Bool-cases, Option-cases, Eq, ◌==◌, eq_iff, nat_eq, text_eq,
  texts_eq, option_eq, length, get_elem?, take, drop, all, any, is_empty, length-append, append_nil,
  append_assoc, take-append-drop, length-take, take-length, take-suc, take-append, drop-append, All,
  Some, all_iff, all-append, elem, distinct, subset, disjoint, elem-append, Error, value_error,
  transport_error, prefix_retokenization_required, unsafe_token, transport_budget_exceeded,
  unicode_encode_error, unicode_decode_error, Result, ok, err, Check, ◌>>=◌, ◌>>◌, guard, or_raise,
  drop_value, each, each_iff, Text, Bytes, lit, has_content, is_sha256, Result-cases, guard-eq-ok,
  check-eq-ok, bind-eq-ok, or_raise-eq-ok, drop_value-eq-ok, bool_ext,
}

pub record Event : Type 0 where
  pub episode : ℕ
  pub entity : Text
  pub predicate : Text
  pub version : ℕ
  pub previous_episode : Option ℕ
  pub operation : Text
  pub active : Bool
  pub value : Text
  pub time : Text

-- `(entity, predicate)`
pub record Key : Type 0 where
  pub entity : Text
  pub predicate : Text

abbrev pub key_beq : Key → Key → Bool
key_beq a b = a.entity == b.entity && a.predicate == b.predicate

pub key_beq_iff : (a b : Key) → (key_beq a b ≡ true) ↔ (a ≡ b)
key_beq_iff a b = ground (arith, eq_iff a.entity b.entity, eq_iff a.predicate b.predicate)

instance abbrev pub key_eq : Eq Key
key_eq = record { beq = key_beq; beq_iff = key_beq_iff }

abbrev pub key_of : Event → Key
key_of event = record { entity = event.entity; predicate = event.predicate }

-- `sorted(…)` and `sort(key=…)`, which keep the order of equal keys.
module _ {ℓ} {A : Type ℓ} (rank : A → ℕ) where
  unfoldable pub insert_by : A → List A → List A
  insert_by x [] = x ∷ []
  insert_by x (y ∷ ys) = if leb (rank x) (rank y) then x ∷ y ∷ ys else y ∷ insert_by x ys

  unfoldable pub sort_by : List A → List A
  sort_by [] = []
  sort_by (x ∷ xs) = insert_by x (sort_by xs)

unfoldable pub range_from : ℕ → ℕ → List ℕ
range_from i zero = []
range_from i (suc n) = i ∷ range_from (suc i) n

unfoldable pub filter {ℓ} : {A : Type ℓ} → (A → Bool) → List A → List A
filter p [] = []
filter p (x ∷ xs) = if p x then x ∷ filter p xs else filter p xs

-- `chains[key]`, sorted by version.
unfoldable pub chain_of : List Event → Key → List Event
chain_of events key = sort_by (λ e. e.version) (filter (λ e. key_of e == key) events)

-- The keys of `chains`, each once.
unfoldable pub keys_of : List Event → List Key
keys_of [] = []
keys_of (e ∷ es) = let rest = keys_of es in if elem (key_of e) rest then rest else key_of e ∷ rest

-- `"create" if version == 0 else "update"`
abbrev pub operation_for : ℕ → Text
operation_for version = if version == 0 then lit "create" else lit "update"

-- `for version, event in enumerate(chain): …`, from a version on.
unfoldable pub check_links : ℕ → Option ℕ → List Event → Check
check_links version expected_previous [] = ok tt
check_links version expected_previous (event ∷ chain) = do
  require
      (event.version == version
        && event.previous_episode == expected_previous
        && event.operation == operation_for version)
      "broken version chain"
  check_links (suc version) (some event.episode) chain

-- `len(active) == 1 and active[0] is chain[-1]`: only the last event of the chain is active.
unfoldable pub has_latest : List Event → Bool
has_latest [] = false
has_latest (event ∷ []) = event.active
has_latest (event ∷ next ∷ chain) = not event.active && has_latest (next ∷ chain)

unfoldable pub check_chain : List Event → Check
check_chain chain = do
  check_links 0 none chain
  require (has_latest chain) "chain does not have one latest active event"

-- `validate_event_graph`
unfoldable pub validate_event_graph : List Event → Check
validate_event_graph events = do
  require (distinct (map (λ e. e.episode) events)) "duplicate episode"
  require (sort_by (λ i. i) (map (λ e. e.episode) events) == range_from 0 (length events))
      "episodes must be contiguous and ordered"
  each (λ key. check_chain (chain_of events key)) (keys_of events)

pub data Selector : Type 0 where
  latest : Selector
  exact : Text → Text → Selector
  previous : ℕ → Selector

pub record Target : Type 0 where
  pub key : Key
  pub version : Selector

-- `None` unless there is one match.
abbrev pub only : List Event → Option ℕ
only (e ∷ []) = some e.episode
only _ = none

-- `by_episode.get(episode)`, where no episode occurs twice.
unfoldable pub by_episode : List Event → ℕ → Option Event
by_episode [] episode = none
by_episode (e ∷ es) episode = if e.episode == episode then some e else by_episode es episode

-- `resolve_target`
unfoldable pub resolve_target : Target → List Event → Option ℕ
resolve_target target events = elim target.version [
  | latest ↦ only (filter (λ e. e.active) (chain_of events target.key))
  | exact value time ↦
      only (filter (λ e. e.value == value && e.time == time) (chain_of events target.key))
  | previous anchor_episode ↦ elim (by_episode events anchor_episode) [
    | none ↦ none
    | some anchor ↦ if key_of anchor == target.key then anchor.previous_episode else none
  ]
]

abbrev pub keep_some : List (Option ℕ) → List ℕ
keep_some [] = []
keep_some (none ∷ xs) = keep_some xs
keep_some (some x ∷ xs) = x ∷ keep_some xs

-- `resolve_query`
unfoldable pub resolve_query : List Event → List Target → Result (List ℕ)
resolve_query events targets = do
  validate_event_graph events
  ok (keep_some (map (λ target. resolve_target target events) targets))
