-- ===== src/Dialogue/Bank/Places.antt =====
-- The places of a key among the facts of a bank, as an independent description of what
-- python/prepare_repeated_dialogue_curriculum.py keeps in `history` and sets in a fact.
use bit_net.Base.{
  ℕ, zero, suc, ◌+◌, ◌≤◌, ◌<◌, ◌≡◌, refl, ap, ◌∙◌, ◌⊎◌, inl, inr, true, false, Option, none, some,
  List, [], ◌∷◌, ◌++◌, map, arith, if◌then◌else◌, Bool-cases, Eq, ◌==◌, eq_iff, nat_eq, text_eq,
  texts_eq, option_eq, length, get_elem?, take, drop, is_empty, elem,
}
use bit_net.Dialogue.Bank.{Key, key_eq, Fact, Marks, create, update}

abbrev pub key_of : Fact → Key
key_of f = record { speaker = f.speaker; predicate_index = f.predicate_index }

-- The places, counted from a number on, at which a key stands.
unfoldable pub places_of : Key → ℕ → List Key → List ℕ
places_of key place [] = []
places_of key place (k ∷ keys) =
    let rest = places_of key (suc place) keys in if key == k then place ∷ rest else rest

-- The last of some numbers, or what was there before.
abbrev pub last_or : Option ℕ → List ℕ → Option ℕ
last_or previous [] = previous
last_or previous (n ∷ ns) = last_or (some n) ns

-- The marks of a fact by its place among all keys: how many facts before it have its key, the last
-- of them, and whether one after it has.
unfoldable pub marks_of : List Key → ℕ → Key → Marks
marks_of keys place key =
    let earlier = places_of key 0 (take place keys) in
    record {
      version = length earlier;
      operation = if length earlier == 0 then create else update;
      previous_event = last_or none earlier;
      active = is_empty (places_of key (suc place) (drop (suc place) keys));
    }

pub places_of-append :
    (key : Key) (place : ℕ) (xs ys : List Key)
    → places_of key place (xs ++ ys)
      ≡ places_of key place xs ++ places_of key (place + length xs) ys
unfolding places_of
places_of-append key place [] ys =
    ap (λ n. places_of key n ys) (let e : place ≡ place + 0 = omega arith in e)
places_of-append key place (x ∷ xs) ys =
    let ih = places_of-append key (suc place) xs ys in
    let shift : suc place + length xs ≡ place + suc (length xs) = omega arith in
    let moved = ih ∙ ap (λ n. places_of key (suc place) xs ++ places_of key n ys) shift in
    elim (Bool-cases (key == x)) [
      | inl same ↦ rw same (ap (λ ns. place ∷ ns) moved)
      | inr other ↦ rw other moved
    ]

-- A place stands at or after the number that the count starts from.
pub le-places_of :
    (key : Key) (place n : ℕ) (keys : List Key)
    → elem n (places_of key place keys) ≡ true
    → (place ≤ n) × (n < place + length keys)
unfolding places_of
le-places_of key place n [] h = cc
le-places_of key place n (k ∷ keys) h = elim (Bool-cases (key == k)) [
  | inl same ↦ elim (Bool-cases (n == place)) [
    | inl here ↦ ground (arith, eq_iff n place)
    | inr later ↦ ground (arith, le-places_of key (suc place) n keys)
  ]
  | inr other ↦ ground (arith, le-places_of key (suc place) n keys)
]

-- A key stands where `places_of` says.
pub get_elem?-places_of :
    (key : Key) (place n m : ℕ) (keys : List Key)
    → m ≡ place + n
    → elem m (places_of key place keys) ≡ true
    → get_elem? keys n ≡ some key
unfolding places_of
get_elem?-places_of key place n m [] e h = cc
get_elem?-places_of key place zero m (k ∷ keys) e h = elim (Bool-cases (key == k)) [
  | inl same ↦ ground (arith, eq_iff key k)
  | inr other ↦ absurd (ground (arith, le-places_of key (suc place) m keys))
]
get_elem?-places_of key place (suc n) m (k ∷ keys) e h =
    let next : m ≡ suc place + n = omega arith in
    let later : (m == place) ≡ false = ground arith in
    elim (Bool-cases (key == k)) [
      | inl same ↦ get_elem?-places_of key (suc place) n m keys next (ground arith)
      | inr other ↦ get_elem?-places_of key (suc place) n m keys next (ground arith)
    ]

-- A list in three parts around one of its elements.
pub take-get_elem?-drop {ℓ} :
    {A : Type ℓ} (xs : List A) (n : ℕ) {x : A}
    → get_elem? xs n ≡ some x
    → (xs ≡ take n xs ++ x ∷ drop (suc n) xs) × (length (take n xs) ≡ n)
take-get_elem?-drop [] n h = cc
take-get_elem?-drop (y ∷ ys) zero h = ground arith
take-get_elem?-drop (y ∷ ys) (suc n) {x} h =
    let ih = take-get_elem?-drop ys n {x = x} h in (ap (λ t. y ∷ t) ih.0, omega (arith, ih.1))

-- The places of a key that stands at a place: the earlier ones, this one and the later ones, of
-- which it is none.
pub places_of-split :
    (key : Key) (keys : List Key) (place : ℕ)
    → get_elem? keys place ≡ some key
    → let earlier = places_of key 0 (take place keys) in
      let later = places_of key (suc place) (drop (suc place) keys) in
      (places_of key 0 keys ≡ earlier ++ place ∷ later)
      × (elem place earlier ≡ false)
      × (elem place later ≡ false)
unfolding places_of
places_of-split key keys place h =
    let (whole, count) = take-get_elem?-drop keys place {x = key} h in
    let here : (key == key) ≡ true = (eq_iff key key).1 refl in
    let start : 0 + length (take place keys) ≡ place = omega (arith, count) in
    (
      ap (places_of key 0) whole
          ∙ places_of-append key 0 (take place keys) (key ∷ drop (suc place) keys)
          ∙ ap
              (λ n.
                places_of key 0 (take place keys) ++ places_of key n (key ∷ drop (suc place) keys))
              start
          ∙ (rw here refl),
      elim (Bool-cases (elem place (places_of key 0 (take place keys)))) [
        | inr absent ↦ absent
        | inl bad ↦ absurd (omega (arith, count, le-places_of key 0 place (take place keys) bad))
      ],
      elim (Bool-cases (elem place (places_of key (suc place) (drop (suc place) keys)))) [
        | inr absent ↦ absent
        | inl bad ↦
            absurd (omega (arith, le-places_of key (suc place) place (drop (suc place) keys) bad))
      ],
    )

-- An element of a list with one more is an old one or the new one.
pub get_elem?-snoc {ℓ} :
    {A : Type ℓ} (xs : List A) (y x : A) (i : ℕ)
    → get_elem? (xs ++ y ∷ []) i ≡ some x
    → (get_elem? xs i ≡ some x) ⊎ ((i ≡ length xs) × (x ≡ y))
get_elem?-snoc [] y x zero h = inr (refl, ground arith)
get_elem?-snoc [] y x (suc i) h = cc
get_elem?-snoc (z ∷ xs) y x zero h = inl h
get_elem?-snoc (z ∷ xs) y x (suc i) h = elim (get_elem?-snoc xs y x i h) [
  | inl old ↦ inl old
  | inr new ↦ inr (ap suc new.0, new.1)
]

pub map-append {ℓ κ} :
    {A : Type ℓ} {B : Type κ} (f : A → B) (xs ys : List A) → map f (xs ++ ys) ≡ map f xs ++ map f ys
map-append f [] ys = refl
map-append f (x ∷ xs) ys = ap (λ t. f x ∷ t) (map-append f xs ys)

pub length-map {ℓ κ} :
    {A : Type ℓ} {B : Type κ} (f : A → B) (xs : List A) → length (map f xs) ≡ length xs
length-map f [] = refl
length-map f (x ∷ xs) = ap suc (length-map f xs)

pub get_elem?-map {ℓ κ} :
    {A : Type ℓ} {B : Type κ} (f : A → B) (xs : List A) (i : ℕ) {x : A}
    → get_elem? xs i ≡ some x
    → get_elem? (map f xs) i ≡ some (f x)
get_elem?-map f [] i h = cc
get_elem?-map f (y ∷ ys) zero {x} h = let same : y ≡ x = ground arith in ap (λ z. some (f z)) same
get_elem?-map f (y ∷ ys) (suc i) {x} h = get_elem?-map f ys i {x = x} h

pub elem-get_elem? {ℓ} :
    {A : Type ℓ} ⦃e : Eq A⦄ (xs : List A) (i : ℕ) (x : A)
    → get_elem? xs i ≡ some x
    → elem x xs ≡ true
elem-get_elem? [] i x h = cc
elem-get_elem? (y ∷ ys) zero x h = ground (arith, eq_iff x y)
elem-get_elem? (y ∷ ys) (suc i) x h = ground (arith, elem-get_elem? ys i x h)
