-- ===== src/Dialogue/Rows/Repeats.antt =====
-- python/prepare_repeated_dialogue_curriculum.py: enough events repeat a key, so that the lists of
-- the latest facts and of the repeated ones are long enough for the questions.
use bit_net.Base.{
  ℕ, zero, suc, ◌+◌, ◌-◌, ◌*◌, ◌/◌, ◌%◌, ◌≤◌, ◌<◌, ◌≡◌, refl, sym, ap, ◌∙◌, ◌≢◌, inl, inr, Bool,
  true, false, ◌&&◌, some, List, [], ◌∷◌, arith, ltb, Bool-cases, Eq, ◌==◌, eq_iff, nat_eq, text_eq,
  texts_eq, option_eq, length, get_elem?, take, drop, all, is_empty, All, elem, elem-append, ok,
  bind-ok,
}
use mathlib.Core.Path.{subst}
use native.Mathlib.Nat.{
  mul-add-mod_self_left, add-mod-mod, mod-lt, mod-eq_of_lt, mod-eq-sub-mod, div-eq_of_lt, zero-div,
}
use bit_net.Dialogue.Bank.{Key, key_eq, History, events_of}
use bit_net.Dialogue.Rows.{latest_of, repeated_of}
use bit_net.Dialogue.Bank.Places.{places_of, le-places_of, places_of-split}
use bit_net.Dialogue.Bank.Usable.{all-elem, item_back_total}

-- Two different elements make a list of two or more.
pub two_elements {ℓ} :
    {A : Type ℓ} ⦃e : Eq A⦄ (x y : A) (xs : List A)
    → elem x xs ≡ true
    → elem y xs ≡ true
    → (x == y) ≡ false
    → 1 < length xs
two_elements x y [] h k n = cc
two_elements x y (z ∷ []) h k n = absurd (ground (arith, eq_iff x z, eq_iff y z, eq_iff x y))
two_elements x y (z ∷ w ∷ zs) h k n = omega arith

-- A key that stands at a place has it among its places.
pub elem-places_of :
    (key : Key) (keys : List Key) (place : ℕ)
    → get_elem? keys place ≡ some key
    → elem place (places_of key 0 keys) ≡ true
elem-places_of key keys place at =
    let (whole, before, after) = places_of-split key keys place at in
    ap (elem place) whole
    ∙ elem-append place (places_of key 0 (take place keys))
        (place ∷ places_of key (suc place) (drop (suc place) keys))
    ∙ (let here : (place == place) ≡ true = (eq_iff place place).1 refl in rw here (ground arith))

all_of_elem :
    (p : ℕ → Bool) (xs : List ℕ) → ((n : ℕ) → elem n xs ≡ true → p n ≡ true) → all p xs ≡ true
all_of_elem p [] h = refl
all_of_elem p (x ∷ xs) h =
    let first : p x ≡ true = h x (ground (arith, eq_iff x x)) in
    rw first (all_of_elem p xs (λ n member. h n (ground (arith, member))))

-- The entries of a history are within the keys.
pub within_of_places :
    (keys : List Key) (history : History)
    → All (λ entry. entry.1 ≡ places_of entry.0 0 keys) history
    → All (λ entry. all (λ n. ltb n (length keys)) entry.1 ≡ true) history
within_of_places keys [] h = tt
within_of_places keys ((k, es) ∷ history) (first, rest) = (
  all_of_elem (λ n. ltb n (length keys)) es
      (λ n member.
        (let bound = le-places_of k 0 n keys (ap (elem n) (sym first) ∙ member) in
          ground (arith, bound))),
  within_of_places keys history rest,
)

pub latest_of_total :
    (size : ℕ) (history : History)
    → All (λ entry. is_empty entry.1 ≡ false) history
    → All (λ entry. all (λ n. ltb n size) entry.1 ≡ true) history
    → (latest : List ℕ) × (latest_of history ≡ ok latest)
      × (length latest ≡ length history)
      × (all (λ n. ltb n size) latest ≡ true)
unfolding latest_of
latest_of_total size [] filled within = ([], refl, refl, refl)
latest_of_total size ((k, []) ∷ history) filled within = absurd (ground (arith, filled.0))
latest_of_total size ((k, e ∷ es) ∷ history) filled within =
    let (last, last_at, member) = item_back_total e es in
    let (latest, rest, count, inside) = latest_of_total size history filled.1 within.1 in
    let here : ltb last size ≡ true = all-elem (λ n. ltb n size) last (e ∷ es) within.0 member in
    (last ∷ latest, bind-ok _ last_at (bind-ok _ rest refl), ap suc count, rw here inside)

-- The repeated chains are those of two or more places, and are within.
pub repeated_of-within :
    (size : ℕ) (history : History)
    → All (λ entry. all (λ n. ltb n size) entry.1 ≡ true) history
    → all (λ c. ltb 1 (length c) && all (λ n. ltb n size) c) (repeated_of history) ≡ true
unfolding repeated_of
repeated_of-within size [] within = refl
repeated_of-within size ((k, es) ∷ history) within =
    let rest = repeated_of-within size history within.1 in
    elim (Bool-cases (ltb 1 (length es))) [
      | inl long ↦ rw long (rw (long, within.0) rest)
      | inr short ↦ rw short rest
    ]

-- A key with two places makes a repeated chain.
pub repeated_of_filled :
    (key : Key) (history : History)
    → 1 < length (events_of key history)
    → 0 < length (repeated_of history)
unfolding repeated_of
repeated_of_filled key [] h = absurd (omega arith)
repeated_of_filled key ((k, es) ∷ history) h = elim (Bool-cases (ltb 1 (length es))) [
  | inl long ↦ rw long (omega arith)
  | inr short ↦ elim (Bool-cases (key == k)) [
    | inl same ↦ absurd (ground arith)
    | inr other ↦
        let passed : events_of key ((k, es) ∷ history) ≡ events_of key history = ground arith in
        rw short (repeated_of_filled key history (subst (λ ns. 1 < length ns) passed h))
  ]
]

-- After as many events as there are pairs of a speaker and a relation, the relation comes again.
pub index_again :
    (third relations world : ℕ)
    → third < 3
    → let sc = 2 + third in
      let event = relations * sc in
      ((event / sc + event * 3 + world) % relations ≡ world % relations) × (event % sc ≡ 0)
index_again zero relations world h =
    let same : relations * 2 / 2 + relations * 2 * 3 + world ≡ relations * 7 + world =
      omega arith in
    (ap (λ n. n % relations) same ∙ mul-add-mod_self_left relations 7 world, omega arith)
index_again (suc zero) relations world h =
    let same : relations * 3 / 3 + relations * 3 * 3 + world ≡ relations * 10 + world =
      omega arith in
    (ap (λ n. n % relations) same ∙ mul-add-mod_self_left relations 10 world, omega arith)
index_again (suc (suc zero)) relations world h =
    let same : relations * 4 / 4 + relations * 4 * 3 + world ≡ relations * 13 + world =
      omega arith in
    (ap (λ n. n % relations) same ∙ mul-add-mod_self_left relations 13 world, omega arith)
index_again (suc (suc (suc n))) relations world h = absurd (omega arith)

-- With more than three relations the second event has another relation than the first.
pub index_differs :
    (sc relations world : ℕ)
    → 1 < sc
    → 3 < relations
    → (1 / sc + 1 * 3 + world) % relations ≢ (0 / sc + 0 * 3 + world) % relations
index_differs sc relations world two many same =
    let m = world % relations in
    let none_first : 1 / sc ≡ 0 = div-eq_of_lt two in
    let none_zero : 0 / sc ≡ 0 = zero-div sc in
    let small : m < relations = mod-lt world (omega arith) in
    let left : (1 / sc + 1 * 3 + world) % relations ≡ (3 + m) % relations =
      ap (λ n. (n + 1 * 3 + world) % relations) none_first ∙ sym (add-mod-mod 3 world relations) in
    let right : (0 / sc + 0 * 3 + world) % relations ≡ m =
      ap (λ n. (n + 0 * 3 + world) % relations) none_zero
      ∙ ap (λ n. n % relations) (let e : 0 + 0 * 3 + world ≡ world = omega arith in e) in
    let shifted : (3 + m) % relations ≡ m = sym left ∙ same ∙ right in
    elim (Bool-cases (ltb (3 + m) relations)) [
      | inl fits ↦
          let below : 3 + m < relations = ground arith in omega (arith, shifted, mod-eq_of_lt below)
      | inr over ↦
          let above : relations ≤ 3 + m = ground arith in
          omega (
            arith,
            shifted,
            mod-eq-sub-mod above,
            mod-eq_of_lt (let d : 3 + m - relations < relations = omega (arith, small, above) in d),
          )
    ]
