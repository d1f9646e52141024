-- ===== src/Dialogue/Rows/Latest.antt =====
-- python/prepare_repeated_dialogue_curriculum.py: the last place of a chain is active, and the one
-- before it is its previous event.
use bit_net.Base.{
  after_ok, ℕ, zero, suc, ◌+◌, ◌-◌, ◌≡◌, refl, sym, ap, ◌∙◌, ◌⊎◌, inl, inr, true, false, Option,
  none, some, List, [], ◌∷◌, ◌++◌, arith, ltb, Bool-cases, eq_iff, nat_eq, text_eq, texts_eq,
  option_eq, length, get_elem?, take, drop, is_empty, length-append, All, elem, elem-append, ok,
}
use mathlib.Core.Path.{subst}
use bit_net.Dialogue.Format.{item, item_back}
use bit_net.Dialogue.Bank.{Key, key_eq, History}
use bit_net.Dialogue.Bank.Places.{
  places_of, last_or, marks_of, get_elem?-places_of, places_of-split,
}
use bit_net.Dialogue.Rows.{latest_of, repeated_of}

-- The last element, by its place.
get_elem?-last_or : (x : ℕ) (xs : List ℕ) → get_elem? (x ∷ xs) (length xs) ≡ last_or (some x) xs
get_elem?-last_or x [] = refl
get_elem?-last_or x (y ∷ ys) = get_elem?-last_or y ys

last_or-append :
    (o : Option ℕ) (xs : List ℕ) (p : ℕ) (ys : List ℕ)
    → last_or o (xs ++ p ∷ ys) ≡ last_or (some p) ys
last_or-append o [] p ys = refl
last_or-append o (x ∷ xs) p ys = last_or-append (some x) xs p ys

elem-last_or : (x q : ℕ) (xs : List ℕ) → last_or (some x) xs ≡ some q → elem q (x ∷ xs) ≡ true
elem-last_or x q [] h = ground (arith, eq_iff q x)
elem-last_or x q (y ∷ ys) h = ground (arith, elem-last_or y q ys h)

-- A last element that does not stand in the rest has no rest.
last_or_alone : (p : ℕ) (ys : List ℕ) → last_or (some p) ys ≡ some p → elem p ys ≡ false → ys ≡ []
last_or_alone p [] h absent = refl
last_or_alone p (y ∷ ys) h absent = absurd (ground (arith, absent, elem-last_or y p ys h))

item-some : (xs : List ℕ) (i : ℕ) {p : ℕ} → item xs i ≡ ok p → get_elem? xs i ≡ some p
item-some xs i h = ground arith

within :
    (x : ℕ) (xs ys : List ℕ)
    → get_elem? (x ∷ (xs ++ ys)) (length xs) ≡ get_elem? (x ∷ xs) (length xs)
within x [] ys = refl
within x (y ∷ xs) ys = within y xs ys

-- `xs[-1]` is the last element.
item_back-last_or : (xs : List ℕ) (p : ℕ) → item_back xs 0 ≡ ok p → last_or none xs ≡ some p
item_back-last_or [] p h = absurd (ground arith)
item_back-last_or (x ∷ xs) p h =
    let place : suc (length xs) - 1 - 0 ≡ length xs = omega arith in
    let found : item (x ∷ xs) (length xs) ≡ ok p =
      subst (λ n. item (x ∷ xs) n ≡ ok p) place (ground (arith, h)) in
    sym (get_elem?-last_or x xs) ∙ item-some (x ∷ xs) (length xs) found

-- `xs[-2]` is the last element of what stands before the last one.
item_back_before :
    (xs : List ℕ) (n p : ℕ) → item_back (xs ++ n ∷ []) 1 ≡ ok p → last_or none xs ≡ some p
item_back_before [] n p h = absurd (ground arith)
item_back_before (x ∷ xs) n p h =
    let count : length (x ∷ (xs ++ n ∷ [])) - 1 - 1 ≡ length xs =
      omega (arith, length-append xs (n ∷ [])) in
    let found : item (x ∷ (xs ++ n ∷ [])) (length xs) ≡ ok p =
      subst (λ k. item (x ∷ (xs ++ n ∷ [])) k ≡ ok p) count (ground (arith, h)) in
    sym (get_elem?-last_or x xs)
    ∙ sym (within x xs (n ∷ []))
    ∙ item-some (x ∷ (xs ++ n ∷ [])) (length xs) found

elem-last : (xs : List ℕ) (p : ℕ) → last_or none xs ≡ some p → elem p xs ≡ true
elem-last [] p h = cc
elem-last (x ∷ xs) p h = elem-last_or x p xs h

-- The last place of a key has no later one, and the place before it is its previous one.
pub item_back-marks_of :
    (keys : List Key) (key : Key) (n : ℕ)
    → item_back (places_of key 0 keys) 0 ≡ ok n
    → (get_elem? keys n ≡ some key)
      × ((marks_of keys n key).active ≡ true)
      × ((o : ℕ)
          → item_back (places_of key 0 keys) 1 ≡ ok o
          → (get_elem? keys o ≡ some key) × ((marks_of keys n key).previous_event ≡ some o))
unfolding marks_of
item_back-marks_of keys key n last =
    let ends = item_back-last_or (places_of key 0 keys) n last in
    let start : n ≡ 0 + n = omega arith in
    let there : get_elem? keys n ≡ some key =
      get_elem?-places_of key 0 n n keys start (elem-last (places_of key 0 keys) n ends) in
    let earlier = places_of key 0 (take n keys) in
    let later = places_of key (suc n) (drop (suc n) keys) in
    let (whole, before, after) = places_of-split key keys n there in
    let alone : later ≡ [] =
      last_or_alone n later
        (sym (last_or-append none earlier n later) ∙ sym (ap (last_or none) whole) ∙ ends) after in
    let ended : places_of key 0 keys ≡ earlier ++ n ∷ [] =
      whole ∙ ap (λ ns. earlier ++ n ∷ ns) alone in
    (
      there,
      ap is_empty alone,
      λ o second.
          (let previous =
              item_back_before earlier n o (ap (λ ns. item_back ns 1) (sym ended) ∙ second) in
            let first : o ≡ 0 + o = omega arith in
            (
              get_elem?-places_of key 0 o o keys first (
                  ap (elem o) ended
                  ∙ elem-append o earlier (n ∷ [])
                  ∙ ground (arith, elem-last earlier o previous)),
              previous,
            )),
    )

get_elem?-cons {ℓ} :
    {A : Type ℓ} (y : A) (ys : List A) (k : ℕ) (x : A)
    → get_elem? (y ∷ ys) k ≡ some x
    → (y ≡ x) ⊎ ((m : ℕ) × (get_elem? ys m ≡ some x))
get_elem?-cons y ys zero x h = inl (ground arith)
get_elem?-cons y ys (suc k) x h = inr (k, h)

-- The latest places are the last ones of some keys.
pub latest_of-last :
    (keys : List Key) (history : History) (latest : List ℕ) (k n : ℕ)
    → All (λ entry. entry.1 ≡ places_of entry.0 0 keys) history
    → latest_of history ≡ ok latest
    → get_elem? latest k ≡ some n
    → (key : Key) × (item_back (places_of key 0 keys) 0 ≡ ok n)
unfolding latest_of
latest_of-last keys [] latest k n places h at = absurd (ground arith)
latest_of-last keys ((key, events) ∷ history) latest k n (first, rest) h at =
    after_ok (item_back events 0) _ h λ last last_at h.
      after_ok (latest_of history) _ h λ others listed h.
        let made : last ∷ others ≡ latest = ground arith in
        elim (get_elem?-cons last others k n (ap (λ ns. get_elem? ns k) made ∙ at)) [
          | inl here ↦ (key, ap (λ ns. item_back ns 0) (sym first) ∙ last_at ∙ ap ok here)
          | inr (m, there) ↦ latest_of-last keys history others m n rest listed there
        ]

-- The repeated chains are the places of some keys.
pub repeated_of-places :
    (keys : List Key) (history : History) (k : ℕ) (chain : List ℕ)
    → All (λ entry. entry.1 ≡ places_of entry.0 0 keys) history
    → get_elem? (repeated_of history) k ≡ some chain
    → (key : Key) × (chain ≡ places_of key 0 keys)
unfolding repeated_of
repeated_of-places keys [] k chain places at = absurd (ground arith)
repeated_of-places keys ((key, events) ∷ history) k chain (first, rest) at =
    elim (Bool-cases (ltb 1 (length events))) [
      | inr short ↦ repeated_of-places keys history k chain rest (ground arith)
      | inl long ↦
          let listed : get_elem? (events ∷ repeated_of history) k ≡ some chain = ground arith in
          elim (get_elem?-cons events (repeated_of history) k chain listed) [
            | inl here ↦ (key, sym here ∙ first)
            | inr (m, there) ↦ repeated_of-places keys history m chain rest there
          ]
    ]
