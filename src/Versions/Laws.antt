-- ===== src/Versions/Laws.antt =====
-- What a valid graph of python/validate_typed_version_memory.py resolves.
use bit_net.Versions.{
  Event, Key, key_eq, key_of, filter, chain_of, keys_of, operation_for, check_links, has_latest,
  check_chain, validate_event_graph, latest, only, resolve_target,
}
use bit_net.Base.{
  ℕ, suc, ◌≡◌, refl, ap, true, Option, none, some, List, [], ◌∷◌, arith, Bool-cases, ◌==◌, eq_iff,
  nat_eq, text_eq, texts_eq, option_eq, any, elem, ok, Check, each, Result-cases, check-eq-ok,
}

-- The last event of a chain.
abbrev pub last : List Event → Option Event
last [] = none
last (e ∷ []) = some e
last (e ∷ f ∷ es) = last (f ∷ es)

has_latest-filter :
    (chain : List Event)
    → has_latest chain ≡ true
    → (e : Event) × (last chain ≡ some e) × (filter (λ x. x.active) chain ≡ e ∷ [])
unfolding has_latest filter
has_latest-filter [] h = cc
has_latest-filter (e ∷ []) h = (e, refl, ground arith)
has_latest-filter (e ∷ f ∷ chain) h =
    let (g, found, kept) = has_latest-filter (f ∷ chain) (ground arith) in
    (g, found, ground (arith, kept))

-- The events of a chain from a version on: numbered one by one, each naming the one before.
pub IsLinked : ℕ → Option ℕ → List Event → Type 0
IsLinked version before [] = Unit
IsLinked version before (e ∷ chain) =
    (e.version ≡ version)
    × (e.previous_episode ≡ before)
    × (e.operation ≡ operation_for version)
    × IsLinked (suc version) (some e.episode) chain

check_links-IsLinked :
    (version : ℕ) (before : Option ℕ) (chain : List Event)
    → check_links version before chain ≡ ok tt
    → IsLinked version before chain
unfolding check_links IsLinked
check_links-IsLinked version before [] h = tt
check_links-IsLinked version before (e ∷ chain) h = (
  ground (arith, eq_iff e.version version),
  ground (arith, eq_iff e.previous_episode before),
  ground (arith, eq_iff e.operation (operation_for version)),
  check_links-IsLinked (suc version) (some e.episode) chain (ground arith),
)

each-elem :
    (f : Key → Check) (keys : List Key) (key : Key)
    → each f keys ≡ ok tt
    → elem key keys ≡ true
    → f key ≡ ok tt
each-elem f [] key h m = cc
each-elem f (k ∷ keys) key h m =
    ground (arith, eq_iff key k, each-elem f keys key, Result-cases (f k))

keys_of-elem :
    (events : List Event) (key : Key)
    → any (λ e. key == key_of e) events ≡ true
    → elem key (keys_of events) ≡ true
unfolding keys_of
keys_of-elem [] key h = cc
keys_of-elem (e ∷ events) key h = ground (
  arith,
  keys_of-elem events key,
  eq_iff key (key_of e),
  Bool-cases (elem (key_of e) (keys_of events)),
)

valid-check_chain :
    (events : List Event) (key : Key)
    → validate_event_graph events ≡ ok tt
    → elem key (keys_of events) ≡ true
    → check_chain (chain_of events key) ≡ ok tt
unfolding validate_event_graph
valid-check_chain events key h m =
    each-elem (λ k. check_chain (chain_of events k)) (keys_of events) key (ground arith) m

-- What is known of a key of a valid graph.
pub record IsResolved (events : List Event) (key : Key) : Type 0 where
  pub event : Event
  pub is_last : last (chain_of events key) ≡ some event
  pub is_linked : IsLinked 0 none (chain_of events key)
  pub resolves : resolve_target (record { key = key; version = latest }) events ≡ some event.episode

-- In a graph that is accepted, the events of each key that some event has are linked from version 0 on, each naming the
-- episode of the one before, the first created and the others updated; and the active version of the
-- key resolves to the episode of the last of them.
pub validate_event_graph-IsResolved :
    (events : List Event) (key : Key)
    → validate_event_graph events ≡ ok tt
    → any (λ e. key == key_of e) events ≡ true
    → IsResolved events key
unfolding check_chain resolve_target
validate_event_graph-IsResolved events key h m =
    let checked = valid-check_chain events key h (keys_of-elem events key m) in
    let (linked, rest) = check-eq-ok (check_links 0 none (chain_of events key)) _ checked in
    let (e, found, kept) = has_latest-filter (chain_of events key) (ground arith) in
    record {
      event = e;
      is_last = found;
      is_linked = check_links-IsLinked 0 none (chain_of events key) linked;
      resolves = ap only kept;
    }
