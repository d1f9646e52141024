-- ===== src/Dialogue/Bank/Marking.antt =====
-- python/prepare_repeated_dialogue_curriculum.py: the loops that set a fact's version through the
-- history, place by place.
use bit_net.Base.{
  ℕ, zero, suc, ◌+◌, ◌≡◌, refl, sym, ap, ◌∙◌, inl, inr, Bool, true, false, Option, none, some, List,
  [], ◌∷◌, ◌++◌, map, arith, if◌then◌else◌, Bool-cases, ◌==◌, eq_iff, nat_eq, text_eq, texts_eq,
  option_eq, length, get_elem?, take, drop, is_empty, All, elem, distinct,
}
use mathlib.Core.Path.{subst}
use bit_net.Dialogue.Bank.{
  Key, key_eq, Fact, Marks, History, create, update, set_marks, mark_chain, mark_all,
}
use bit_net.Dialogue.Bank.Places.{
  key_of, places_of, last_or, marks_of, get_elem?-places_of, places_of-split,
}

-- The fact at a place, with marks.
abbrev pub with_marks : Marks → Option Fact → Option Fact
with_marks marks none = none
with_marks marks (some f) = some (record f { marks = some marks })

get_elem?-set_marks :
    (i place : ℕ) (marks : Marks) (facts : List Fact)
    → get_elem? (set_marks place marks facts) i
      ≡ (if i == place then with_marks marks (get_elem? facts i) else get_elem? facts i)
unfolding set_marks
get_elem?-set_marks i place marks [] = ground arith
get_elem?-set_marks zero zero marks (f ∷ facts) = refl
get_elem?-set_marks (suc i) zero marks (f ∷ facts) = ground arith
get_elem?-set_marks zero (suc place) marks (f ∷ facts) = ground arith
get_elem?-set_marks (suc i) (suc place) marks (f ∷ facts) =
    ground (arith, get_elem?-set_marks i place marks facts)

-- Marks change no key.
map-key_of-set_marks :
    (place : ℕ) (marks : Marks) (facts : List Fact)
    → map key_of (set_marks place marks facts) ≡ map key_of facts
unfolding set_marks
map-key_of-set_marks place marks [] = refl
map-key_of-set_marks zero marks (f ∷ facts) = refl
map-key_of-set_marks (suc place) marks (f ∷ facts) =
    ap (λ t. key_of f ∷ t) (map-key_of-set_marks place marks facts)

map-key_of-mark_chain :
    (previous : Option ℕ) (version : ℕ) (events : List ℕ) (facts : List Fact)
    → map key_of (mark_chain previous version events facts) ≡ map key_of facts
unfolding mark_chain
map-key_of-mark_chain previous version [] facts = refl
map-key_of-mark_chain previous version (e ∷ es) facts =
    map-key_of-mark_chain (some e) (suc version) es (set_marks e _ facts)
    ∙ map-key_of-set_marks e _ facts

pub map-key_of-mark_all :
    (history : History) (facts : List Fact) → map key_of (mark_all history facts) ≡ map key_of facts
unfolding mark_all
map-key_of-mark_all [] facts = refl
map-key_of-mark_all ((k, es) ∷ history) facts =
    map-key_of-mark_all history (mark_chain none 0 es facts) ∙ map-key_of-mark_chain none 0 es facts

-- A chain leaves the places that it does not list.
mark_chain_elsewhere :
    (i : ℕ) (previous : Option ℕ) (version : ℕ) (events : List ℕ) (facts : List Fact)
    → elem i events ≡ false
    → get_elem? (mark_chain previous version events facts) i ≡ get_elem? facts i
unfolding mark_chain
mark_chain_elsewhere i previous version [] facts h = refl
mark_chain_elsewhere i previous version (e ∷ es) facts h =
    mark_chain_elsewhere i (some e) (suc version) es (set_marks e _ facts) (ground arith)
    ∙ get_elem?-set_marks i e _ facts
    ∙ (let other : (i == e) ≡ false = ground arith in rw other refl)

-- A place of one key is no place of another.
other_places :
    (keys : List Key) (key k : Key) (i : ℕ) (places : List ℕ)
    → get_elem? keys i ≡ some key
    → places ≡ places_of k 0 keys
    → (key == k) ≡ false
    → elem i places ≡ false
other_places keys key k i places at made other = elim (Bool-cases (elem i places)) [
  | inr absent ↦ absent
  | inl bad ↦
      let start : i ≡ 0 + i = omega arith in
      let there : get_elem? keys i ≡ some k =
        get_elem?-places_of k 0 i i keys start (ap (elem i) (sym made) ∙ bad) in
      absurd (ground (arith, eq_iff key k))
]

abbrev marks_at : ℕ → Option ℕ → Bool → Marks
marks_at version previous active = record {
  version = version;
  operation = if version == 0 then create else update;
  previous_event = previous;
  active = active;
}

-- A chain marks a place that it lists once by what stands before it and after it.
mark_chain_at :
    (previous : Option ℕ) (version : ℕ) (earlier : List ℕ) (i : ℕ) (later : List ℕ)
    (facts : List Fact)
    → elem i earlier ≡ false
    → elem i later ≡ false
    → get_elem? (mark_chain previous version (earlier ++ i ∷ later) facts) i
      ≡ with_marks
          (marks_at (version + length earlier) (last_or previous earlier) (is_empty later))
          (get_elem? facts i)
unfolding mark_chain
mark_chain_at previous version [] i later facts before after =
    let same : (i == i) ≡ true = (eq_iff i i).1 refl in
    let count : version ≡ version + 0 = omega arith in
    mark_chain_elsewhere i (some i) (suc version) later (set_marks i _ facts) after
    ∙ get_elem?-set_marks i i _ facts
    ∙ ap
        (λ b.
          if b
          then with_marks (marks_at version previous (is_empty later)) (get_elem? facts i)
          else get_elem? facts i)
        same
    ∙ ap (λ n. with_marks (marks_at n previous (is_empty later)) (get_elem? facts i)) count
mark_chain_at previous version (e ∷ earlier) i later facts before after =
    let other : (i == e) ≡ false = ground arith in
    let count : suc version + length earlier ≡ version + suc (length earlier) = omega arith in
    mark_chain_at (some e) (suc version) earlier i later (set_marks e _ facts) (ground arith) after
    ∙ ap
        (with_marks
          (marks_at (suc version + length earlier) (last_or (some e) earlier) (is_empty later)))
        (get_elem?-set_marks i e _ facts
          ∙ ap
              (λ b.
                if b
                then with_marks (marks_at version previous (is_empty (earlier ++ i ∷ later)))
                    (get_elem? facts i)
                else get_elem? facts i)
              other)
    ∙ ap
        (λ n.
          with_marks (marks_at n (last_or (some e) earlier) (is_empty later)) (get_elem? facts i))
        count

-- A history lists, under each key once, the places where the key stands.
abbrev pub IsHistory : List Key → History → Type 0
IsHistory keys history =
    All (λ entry. entry.1 ≡ places_of entry.0 0 keys) history
    × (distinct (map (λ entry. entry.0) history) ≡ true)

-- Entries of other keys leave a place.
pub mark_all_elsewhere :
    (keys : List Key) (key : Key) (i : ℕ) (history : History) (facts : List Fact)
    → get_elem? keys i ≡ some key
    → All (λ entry. entry.1 ≡ places_of entry.0 0 keys) history
    → elem key (map (λ entry. entry.0) history) ≡ false
    → get_elem? (mark_all history facts) i ≡ get_elem? facts i
unfolding mark_all
mark_all_elsewhere keys key i [] facts at listed absent = refl
mark_all_elsewhere keys key i ((k, es) ∷ history) facts at (places, listed) absent =
    mark_all_elsewhere keys key i history (mark_chain none 0 es facts) at listed (ground arith)
    ∙ mark_chain_elsewhere i none 0 es facts (other_places keys key k i es at places (ground arith))

-- The entry of a key marks the key's places.
pub mark_all_at :
    (keys : List Key) (key : Key) (i : ℕ) (history : History) (facts : List Fact)
    → get_elem? keys i ≡ some key
    → IsHistory keys history
    → elem key (map (λ entry. entry.0) history) ≡ true
    → get_elem? (mark_all history facts) i ≡ with_marks (marks_of keys i key) (get_elem? facts i)
unfolding mark_all marks_of
mark_all_at keys key i [] facts at h present = cc
mark_all_at keys key i ((k, es) ∷ history) facts at ((places, listed), once) present =
    elim (Bool-cases (key == k)) [
      | inl same ↦
          let is_k : key ≡ k = ground (arith, eq_iff key k) in
          let (parts, before, after) = places_of-split key keys i at in
          let earlier = places_of key 0 (take i keys) in
          let later = places_of key (suc i) (drop (suc i) keys) in
          let whole : es ≡ earlier ++ i ∷ later =
            places ∙ ap (λ x. places_of x 0 keys) (sym is_k) ∙ parts in
          let rest : elem key (map (λ entry. entry.0) history) ≡ false =
            subst (λ x. elem x (map (λ entry. entry.0) history) ≡ false) (sym is_k)
              (ground arith) in
          let count : 0 + length earlier ≡ length earlier = omega arith in
          mark_all_elsewhere keys key i history (mark_chain none 0 es facts) at listed rest
          ∙ ap (λ events. get_elem? (mark_chain none 0 events facts) i) whole
          ∙ mark_chain_at none 0 earlier i later facts before after
          ∙ ap
              (λ n.
                with_marks (marks_at n (last_or none earlier) (is_empty later)) (get_elem? facts i))
              count
      | inr other ↦
          mark_all_at keys key i history (mark_chain none 0 es facts) at (listed, ground arith)
            (ground arith)
          ∙ ap (with_marks (marks_of keys i key)) (
              mark_chain_elsewhere i none 0 es facts (other_places keys key k i es at places other))
    ]
