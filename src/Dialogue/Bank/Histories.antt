-- ===== src/Dialogue/Bank/Histories.antt =====
-- python/prepare_repeated_dialogue_curriculum.py: the dictionary `history` lists the places of each
-- key, and stays so when an event is added.
use bit_net.Base.{
  ℕ, suc, ◌+◌, ◌≡◌, refl, sym, ap, ◌∙◌, inl, inr, true, false, ◌||◌, List, [], ◌∷◌, ◌++◌, map,
  arith, Bool-cases, ◌==◌, eq_iff, nat_eq, text_eq, texts_eq, option_eq, length, is_empty,
  append_nil, All, elem, distinct, elem-append,
}
use mathlib.Core.Path.{subst}
use bit_net.Base.Dict.{insert}
use bit_net.Dialogue.Bank.{Key, key_eq, History, events_of}
use bit_net.Dialogue.Bank.Places.{places_of, places_of-append}

abbrev pub keys_of : History → List Key
keys_of history = map (λ entry. entry.0) history

elem-insert :
    (x k : Key) (events : List ℕ) (history : History)
    → elem x (keys_of (insert k events history)) ≡ (x == k || elem x (keys_of history))
elem-insert x k events [] = ground arith
elem-insert x k events ((j, es) ∷ history) =
    ground (arith, eq_iff k j, eq_iff x j, eq_iff x k, elem-insert x k events history)

distinct-insert :
    (k : Key) (events : List ℕ) (history : History)
    → distinct (keys_of history) ≡ true
    → distinct (keys_of (insert k events history)) ≡ true
distinct-insert k events [] h = ground arith
distinct-insert k events ((j, es) ∷ history) h = ground (
  arith,
  eq_iff k j,
  eq_iff j k,
  elem-insert j k events history,
  distinct-insert k events history,
)

keep_All :
    (P Q : Key × List ℕ → Type 0) (k : Key) (history : History)
    → ((j : Key) (es : List ℕ) → (k == j) ≡ false → P (j, es) → Q (j, es))
    → elem k (keys_of history) ≡ false
    → All P history
    → All Q history
keep_All P Q k [] keep absent h = tt
keep_All P Q k ((j, es) ∷ history) keep absent (first, rest) =
    (keep j es (ground arith) first, keep_All P Q k history keep (ground arith) rest)

-- What holds of the new entry, and of the others because it held, holds after an insertion.
insert-All :
    (P Q : Key × List ℕ → Type 0) (k : Key) (events : List ℕ) (history : History)
    → ((j : Key) (es : List ℕ) → (k == j) ≡ false → P (j, es) → Q (j, es))
    → Q (k, events)
    → distinct (keys_of history) ≡ true
    → All P history
    → All Q (insert k events history)
insert-All P Q k events [] keep new once h = (new, tt)
insert-All P Q k events ((j, es) ∷ history) keep new once (first, rest) =
    elim (Bool-cases (k == j)) [
      | inl same ↦
          let is_j : k ≡ j = ground (arith, eq_iff k j) in
          let replaced : insert k events ((j, es) ∷ history) ≡ (j, events) ∷ history =
            rw same refl in
          let absent : elem k (keys_of history) ≡ false =
            subst (λ x. elem x (keys_of history) ≡ false) (sym is_j) (ground arith) in
          subst (All Q) (sym replaced)
            (subst (λ x. Q (x, events)) is_j new, keep_All P Q k history keep absent rest)
      | inr other ↦
          let kept : insert k events ((j, es) ∷ history) ≡ (j, es) ∷ insert k events history =
            rw other refl in
          subst (All Q) (sym kept)
            (keep j es other first, insert-All P Q k events history keep new (ground arith) rest)
    ]

-- A key that stands nowhere has no places.
places_of_absent :
    (k : Key) (place : ℕ) (keys : List Key) → elem k keys ≡ false → places_of k place keys ≡ []
unfolding places_of
places_of_absent k place [] h = refl
places_of_absent k place (j ∷ keys) h = ground (arith, places_of_absent k (suc place) keys)

places_of_here : (k : Key) (n place : ℕ) → place ≡ n → places_of k place (k ∷ []) ≡ n ∷ []
unfolding places_of
places_of_here k n place e =
    let same : (k == k) ≡ true = (eq_iff k k).1 refl in rw same (ap (λ m. m ∷ []) e)

lookup-IsHistory :
    (keys : List Key) (k : Key) (history : History)
    → All (λ entry. entry.1 ≡ places_of entry.0 0 keys) history
    → elem k (keys_of history) ≡ true
    → events_of k history ≡ places_of k 0 keys
lookup-IsHistory keys k [] h present = cc
lookup-IsHistory keys k ((j, es) ∷ history) (first, rest) present = elim (Bool-cases (k == j)) [
  | inl same ↦
      let is_j : k ≡ j = ground (arith, eq_iff k j) in
      let found : events_of k ((j, es) ∷ history) ≡ es = ground arith in
      found ∙ first ∙ ap (λ x. places_of x 0 keys) (sym is_j)
  | inr other ↦
      let passed : events_of k ((j, es) ∷ history) ≡ events_of k history = ground arith in
      passed ∙ lookup-IsHistory keys k history rest (ground arith)
]

lookup_absent :
    (k : Key) (history : History) → elem k (keys_of history) ≡ false → events_of k history ≡ []
lookup_absent k [] h = refl
lookup_absent k ((j, es) ∷ history) h = ground (arith, lookup_absent k history)

-- A history of the keys so far, in which every key that stands somewhere has its entry.
pub record IsKept (keys : List Key) (history : History) : Type 0 where
  pub places : All (λ entry. entry.1 ≡ places_of entry.0 0 keys) history
  pub once : distinct (keys_of history) ≡ true
  pub listed : (k : Key) → elem k keys ≡ true → elem k (keys_of history) ≡ true
  pub filled : All (λ entry. is_empty entry.1 ≡ false) history

-- The history lists a key's places.
pub events_of-places_of :
    (keys : List Key) (history : History) (k : Key)
    → IsKept keys history
    → events_of k history ≡ places_of k 0 keys
events_of-places_of keys history k h = elim (Bool-cases (elem k (keys_of history))) [
  | inl present ↦ lookup-IsHistory keys k history h.places present
  | inr absent ↦ elim (Bool-cases (elem k keys)) [
    | inl bad ↦ absurd (ground (arith, h.listed k bad))
    | inr nowhere ↦ lookup_absent k history absent ∙ sym (places_of_absent k 0 keys nowhere)
  ]
]

snoc_filled : (ns : List ℕ) (n : ℕ) → is_empty (ns ++ n ∷ []) ≡ false
snoc_filled [] n = refl
snoc_filled (m ∷ ns) n = refl

-- An event that is added at the next place keeps the history.
pub insert-IsKept :
    (keys : List Key) (history : History) (k : Key) (n : ℕ)
    → length keys ≡ n
    → IsKept keys history
    → IsKept (keys ++ k ∷ []) (insert k (events_of k history ++ n ∷ []) history)
insert-IsKept keys history k n count h = record {
  places =
      insert-All (λ entry. entry.1 ≡ places_of entry.0 0 keys)
        (λ entry. entry.1 ≡ places_of entry.0 0 (keys ++ k ∷ [])) k (events_of k history ++ n ∷ [])
        history
        (λ j es other held.
          held
          ∙ sym (append_nil (places_of j 0 keys))
          ∙ (let none_new : places_of j (0 + length keys) (k ∷ []) ≡ [] =
                places_of_absent j (0 + length keys) (k ∷ [])
                  (ground (arith, eq_iff k j, eq_iff j k)) in
              ap (λ t. places_of j 0 keys ++ t) (sym none_new))
          ∙ sym (places_of-append j 0 keys (k ∷ [])))
        (ap (λ t. t ++ n ∷ []) (events_of-places_of keys history k h)
          ∙ ap (λ t. places_of k 0 keys ++ t)
              (sym (places_of_here k n (0 + length keys) (omega (arith, count))))
          ∙ sym (places_of-append k 0 keys (k ∷ [])))
        h.once h.places;
  once = distinct-insert k (events_of k history ++ n ∷ []) history h.once;
  listed = λ j member. ground (
    arith,
    elem-append j keys (k ∷ []),
    elem-insert j k (events_of k history ++ n ∷ []) history,
    h.listed j,
  );
  filled =
      insert-All (λ entry. is_empty entry.1 ≡ false) (λ entry. is_empty entry.1 ≡ false) k
        (events_of k history ++ n ∷ []) history (λ j es other held. held)
        (snoc_filled (events_of k history) n) h.once h.filled;
}
