-- ===== src/Teacher/Trajectory/Laws.antt =====
-- The shapes of phases that a trajectory may have.
use mathlib.Core.Path.{ap₂}
use bit_net.Teacher.Trajectory.{
  Phase, generate, start, continue, end, phase_eq, idle_label, check_labels, count, index_of,
  is_ordered, check_phases,
}
use bit_net.Base.{
  ℕ, zero, suc, ◌+◌, ◌≡◌, refl, ap, ◌∙◌, true, false, List, [], ◌∷◌, ◌++◌, map, arith, ◌==◌, eq_iff,
  nat_eq, text_eq, option_eq, length, take, drop, all, length-append, append_assoc, take-append,
  all-append, ok,
}

abbrev pub replicate : ℕ → Phase → List Phase
replicate zero p = []
replicate (suc n) p = p ∷ replicate n p

-- Text before the value, the tokens of the value, the first token behind it, and text after it.
abbrev pub active_phases : ℕ → ℕ → ℕ → List Phase
active_phases before more after =
    replicate before generate
    ++ (start ∷ replicate more continue)
    ++ (end ∷ replicate after generate)

pub idle_labels_lem : (ps : List Phase) → check_labels ps (map idle_label ps) ≡ ok tt
idle_labels_lem [] = refl
idle_labels_lem (p ∷ ps) = ground (arith, idle_labels_lem ps, eq_iff (idle_label p) (idle_label p))

count-append : (p : Phase) (xs ys : List Phase) → count p (xs ++ ys) ≡ count p xs + count p ys
count-append p [] ys = omega arith
count-append p (x ∷ xs) ys = omega (arith, count-append p xs ys)

count-replicate_ne : (p q : Phase) (n : ℕ) → (p == q) ≡ false → count p (replicate n q) ≡ 0
count-replicate_ne p q zero h = refl
count-replicate_ne p q (suc n) h = ground (arith, count-replicate_ne p q n h)

all-replicate : (p : Phase) (n : ℕ) → all (λ q. q == p) (replicate n p) ≡ true
all-replicate p zero = refl
all-replicate p (suc n) = ground (arith, all-replicate p n, eq_iff p p)

-- The position of a phase behind phases among which it does not occur.
index_of-append :
    (p : Phase) (xs ys : List Phase) → count p xs ≡ 0 → index_of p (xs ++ p ∷ ys) ≡ length xs
index_of-append p [] ys h = ground (arith, eq_iff p p)
index_of-append p (x ∷ xs) ys h = ground (arith, index_of-append p xs ys)

drop_after : (p : Phase) (xs ys : List Phase) → drop (suc (length xs)) (xs ++ p ∷ ys) ≡ ys
drop_after p [] ys = refl
drop_after p (x ∷ xs) ys = drop_after p xs ys

-- A trajectory in which no value is transported.
pub check_phases-replicate : (n : ℕ) → check_phases false (replicate n generate) ≡ ok tt
unfolding check_phases
check_phases-replicate n = ground (
  arith,
  count-replicate_ne start generate n refl,
  count-replicate_ne end generate n refl,
  all-replicate generate n,
)

module _ (b m a : ℕ) where
  abbrev front : List Phase
  front = replicate b generate

  abbrev middle : List Phase
  middle = replicate m continue

  abbrev back : List Phase
  back = replicate a generate

  whole : active_phases b m a ≡ front ++ start ∷ (middle ++ end ∷ back)
  whole = append_assoc front (start ∷ middle) (end ∷ back)

  start_at : index_of start (active_phases b m a) ≡ length front
  start_at =
      ap (index_of start) whole
      ∙ index_of-append start front (middle ++ end ∷ back)
          (count-replicate_ne start generate b refl)

  no_end_before : count end (front ++ start ∷ middle) ≡ 0
  no_end_before = omega (
    arith,
    count-append end front (start ∷ middle),
    count-replicate_ne end generate b refl,
    count-replicate_ne end continue m refl,
  )

  end_at : index_of end (active_phases b m a) ≡ length (front ++ start ∷ middle)
  end_at = index_of-append end (front ++ start ∷ middle) back no_end_before

  starts_once : count start (active_phases b m a) ≡ 1
  starts_once = omega (
    arith,
    count-append start (front ++ start ∷ middle) (end ∷ back),
    count-append start front (start ∷ middle),
    count-replicate_ne start generate b refl,
    count-replicate_ne start continue m refl,
    count-replicate_ne start generate a refl,
  )

  ends_once : count end (active_phases b m a) ≡ 1
  ends_once = omega (
    arith,
    count-append end (front ++ start ∷ middle) (end ∷ back),
    no_end_before,
    count-replicate_ne end generate a refl,
  )

  between :
      drop (suc (length front)) (take (length (front ++ start ∷ middle)) (active_phases b m a))
      ≡ middle
  between =
      ap (drop (suc (length front))) (take-append (front ++ start ∷ middle) (end ∷ back))
      ∙ drop_after start front middle

  outside :
      take (length front) (active_phases b m a)
        ++ drop (suc (length (front ++ start ∷ middle))) (active_phases b m a)
      ≡ front ++ back
  outside =
      ap₂ ◌++◌ (ap (take (length front)) whole ∙ take-append front (start ∷ (middle ++ end ∷ back)))
        (drop_after end (front ++ start ∷ middle) back)

  ordered : is_ordered (active_phases b m a) ≡ true
  ordered =
      rw (start_at, end_at, between, outside)
        (ground (
          arith,
          length-append front (start ∷ middle),
          all-replicate continue m,
          all-append (λ p. p == generate) front back,
          all-replicate generate b,
          all-replicate generate a,
        ))

-- The phases of text, a value of one token or more, the first token behind it, and more text are
-- accepted for the route of a supported answer.
pub check_phases-active : (b m a : ℕ) → check_phases true (active_phases b m a) ≡ ok tt
unfolding check_phases
check_phases-active b m a = rw (starts_once b m a, ends_once b m a, ordered b m a) refl
