-- ===== src/Dialogue/Bank/Named.antt =====
-- python/prepare_repeated_dialogue_curriculum.py: what the facts of a split may name, and that the
-- training split names nothing of the others.
use bit_net.Base.{
  ℕ, zero, suc, ◌+◌, ◌%◌, ◌≡◌, refl, sym, ◌≢◌, inl, inr, Bool, true, not, ◌&&◌, some, List, [], ◌∷◌,
  ◌++◌, arith, Option-cases, nat_eq, text_eq, texts_eq, option_eq, length, get_elem?, elem, subset,
  disjoint, elem-append, ok, Text, Result-cases,
}
use mathlib.Core.Path.{subst}
use bit_net.Dialogue.Catalog.{Predicate}
use bit_net.Dialogue.Format.{modulo}
use bit_net.Dialogue.Bank.{
  Random, Catalogue, Fact, Bank, pick_speakers, surface_forms, build_episode_bank,
}
use bit_net.Dialogue.Bank.Places.{elem-get_elem?}
use bit_net.Dialogue.Bank.Versions.{build_episode_bank-IsBuilt, IsBuilt-IsSound, facts-IsBuilt}
use bit_net.Dialogue.Bank.Usable.{all-elem, all-get_elem?}

-- Every surface form of every relation of a catalogue.
unfoldable pub all_surfaces : Catalogue → List Predicate → List Text
unfolding surface_forms
all_surfaces catalogue [] = []
all_surfaces catalogue (p ∷ ps) = surface_forms catalogue p.name ++ all_surfaces catalogue ps

-- Two catalogues with no speaker and no surface form in common.
unfoldable pub apart : Catalogue → Catalogue → Bool
unfolding all_surfaces
apart a b =
    disjoint a.speakers_catalog b.speakers_catalog
    && disjoint (all_surfaces a a.predicates) (all_surfaces b b.predicates)

elem-all_surfaces :
    (catalogue : Catalogue) (ps : List Predicate) (i : ℕ) (surface : Text) {p : Predicate}
    → get_elem? ps i ≡ some p
    → elem surface (surface_forms catalogue p.name) ≡ true
    → elem surface (all_surfaces catalogue ps) ≡ true
unfolding all_surfaces
elem-all_surfaces catalogue [] i surface at h = cc
elem-all_surfaces catalogue (q ∷ qs) zero surface {p} at h =
    let same : p ≡ q = ground arith in
    let here : elem surface (surface_forms catalogue q.name) ≡ true =
      subst (λ (x : Predicate). elem surface (surface_forms catalogue x.name) ≡ true) same h in
    ground (
      arith,
      here,
      elem-append surface (surface_forms catalogue q.name) (all_surfaces catalogue qs),
    )
elem-all_surfaces catalogue (q ∷ qs) (suc i) surface {p} at h =
    let later = elem-all_surfaces catalogue qs i surface {p = p} at h in
    ground (
      arith,
      later,
      elem-append surface (surface_forms catalogue q.name) (all_surfaces catalogue qs),
    )

pick_speakers-subset :
    (catalog : List Text) (offset index count : ℕ) (speakers : List Text)
    → pick_speakers catalog offset index count ≡ ok speakers
    → subset speakers catalog ≡ true
unfolding pick_speakers
pick_speakers-subset catalog offset index zero speakers h =
    let made : [] ≡ speakers = ground arith in subst (λ xs. subset xs catalog ≡ true) made refl
pick_speakers-subset catalog offset index (suc count) speakers h =
    elim (Result-cases (modulo (offset + index) (length catalog))) [
      | inr (e, failed) ↦ absurd (ground arith)
      | inl (place, turn) ↦ elim (Option-cases (get_elem? catalog place)) [
        | inl absent ↦ absurd (ground arith)
        | inr (speaker, at) ↦ elim (Result-cases (pick_speakers catalog offset (suc index) count)) [
          | inr (e, failed) ↦ absurd (ground arith)
          | inl (rest, picked) ↦
              let made : speaker ∷ rest ≡ speakers = ground arith in
              let first : elem speaker catalog ≡ true = elem-get_elem? catalog place speaker at in
              subst (λ xs. subset xs catalog ≡ true) made
                (rw first (pick_speakers-subset catalog offset (suc index) count rest picked))
        ]
      ]
    ]

-- The facts of a bank name speakers and surface forms of its catalogue only.
bank-named :
    (r : Random) (world events : ℕ) (rng : r.State) (catalogue : Catalogue) (bank : Bank r)
    → build_episode_bank r world events rng catalogue ≡ ok bank
    → (i : ℕ) (f : Fact) → get_elem? bank.facts i ≡ some f
    → (elem f.speaker catalogue.speakers_catalog ≡ true)
      × (elem f.predicate_surface (all_surfaces catalogue catalogue.predicates) ≡ true)
bank-named r world events rng catalogue bank h i f at =
    let built = build_episode_bank-IsBuilt r world events rng catalogue bank h in
    let (f0, old, is_f) = facts-IsBuilt r world events rng catalogue bank built i f at in
    let placed = (IsBuilt-IsSound r world events rng catalogue bank built).numbered i f0 old in
    let (entry, found, name) = placed.named in
    let speaks : elem f0.speaker catalogue.speakers_catalog ≡ true =
      all-get_elem? (λ s. elem s catalogue.speakers_catalog) bank.speakers _ {x = f0.speaker}
        (pick_speakers-subset catalogue.speakers_catalog built.offset 0 (2 + world % 3)
          bank.speakers built.picked)
        placed.speaks in
    let surface : elem f0.predicate_surface (all_surfaces catalogue catalogue.predicates) ≡ true =
      elem-all_surfaces catalogue catalogue.predicates f0.predicate_index f0.predicate_surface
        {p = entry} found
        (subst (λ n. elem f0.predicate_surface (surface_forms catalogue n) ≡ true) name
          placed.surfaced) in
    (
      subst (λ (x : Fact). elem x.speaker catalogue.speakers_catalog ≡ true) is_f speaks,
      subst
          (λ (x : Fact).
            elem x.predicate_surface (all_surfaces catalogue catalogue.predicates) ≡ true)
          is_f surface,
    )

apart-differ :
    (xs ys : List Text) (x y : Text)
    → disjoint xs ys ≡ true
    → elem x xs ≡ true
    → elem y ys ≡ true
    → x ≢ y
apart-differ xs ys x y h left right same =
    let absent : not (elem x ys) ≡ true = all-elem (λ z. not (elem z ys)) x xs h left in
    let there : elem x ys ≡ true = subst (λ z. elem z ys ≡ true) (sym same) right in
    ground (arith, absent, there)

-- No fact of a bank of one catalogue shares its speaker or its surface form with a fact of the
-- other's.
pub apart-unseen :
    (a b : Catalogue) (r : Random) (world world' events events' : ℕ) (rng rng' : r.State)
    (bank bank' : Bank r) (i j : ℕ) (f g : Fact)
    → apart a b ≡ true
    → build_episode_bank r world events rng a ≡ ok bank
    → build_episode_bank r world' events' rng' b ≡ ok bank'
    → get_elem? bank.facts i ≡ some f
    → get_elem? bank'.facts j ≡ some g
    → (f.speaker ≢ g.speaker) × (f.predicate_surface ≢ g.predicate_surface)
unfolding apart
apart-unseen a b r world world' events events' rng rng' bank bank' i j f g h built built' at at' =
    let parts : (disjoint a.speakers_catalog b.speakers_catalog ≡ true)
        × (disjoint (all_surfaces a a.predicates) (all_surfaces b b.predicates) ≡ true) =
      ground arith in
    let (speaker, surface) = bank-named r world events rng a bank built i f at in
    let (speaker', surface') = bank-named r world' events' rng' b bank' built' j g at' in
    (
      apart-differ a.speakers_catalog b.speakers_catalog f.speaker g.speaker parts.0 speaker
          speaker',
      apart-differ (all_surfaces a a.predicates) (all_surfaces b b.predicates) f.predicate_surface
          g.predicate_surface parts.1 surface surface',
    )
