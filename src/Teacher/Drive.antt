-- ===== src/Teacher/Drive.antt =====
-- The loop of `compile_teacher` that drives a value's cursor to its end.
use native.Mathlib.Numerals.{add-one}
use bit_net.Transport.{PayloadSnapshot, ReplyBinding}
use bit_net.Transport.Cursor
use bit_net.Transport.Cursor.{ValueCursor, done}
use bit_net.Transport.Cursor.Laws.{advanced, Ready, Steps, Ready-Steps, get_elem?-lt}
use bit_net.Teacher.Trajectory.{Phase, start, continue}
use bit_net.Teacher.Trajectory.Laws.{replicate}
use bit_net.Base.{
  ℕ, zero, suc, ◌+◌, ◌-◌, ◌<◌, ◌≡◌, refl, sym, ap, ◌∙◌, inl, inr, Bool, true, false, Option, none,
  some, List, [], ◌∷◌, ◌++◌, arith, if◌then◌else◌, Bool-cases, nat_eq, text_eq, option_eq, length,
  get_elem?, drop, Result, ok, err, ◌>>=◌, Text,
}

-- What the loop has appended, and its cursor.
pub record Driven : Type 0 where
  pub cursor : ValueCursor
  pub tokens : List ℕ
  pub phases : List Phase

abbrev pub prepend : ℕ → Phase → Driven → Driven
prepend t p d = record d { tokens = t ∷ d.tokens; phases = p ∷ d.phases }

abbrev pub prepend_all : ℕ → Phase → Option (Result Driven) → Option (Result Driven)
prepend_all t p none = none
prepend_all t p (some (err e)) = some (err e)
prepend_all t p (some (ok d)) = some (ok (prepend t p d))

-- The phases of the tokens that are left.
abbrev pub phases_for : Bool → ℕ → List Phase
phases_for first zero = []
phases_for first (suc n) = (if first then start else continue) ∷ replicate n continue

-- The cursor behind its last token.
abbrev pub finished : ValueCursor → ValueCursor
finished c = record c { offset = length c.value_tokens }

drop-cons :
    (n : ℕ) (xs : List ℕ) {x : ℕ} → get_elem? xs n ≡ some x → drop n xs ≡ x ∷ drop (suc n) xs
drop-cons n [] h = cc
drop-cons zero (y ∷ ys) h = ground arith
drop-cons (suc n) (y ∷ ys) h = drop-cons n ys h

drop-length : (xs : List ℕ) → drop (length xs) xs ≡ []
drop-length [] = refl
drop-length (x ∷ xs) = drop-length xs

phases_for-false : (n : ℕ) → phases_for false n ≡ replicate n continue
phases_for-false zero = refl
phases_for-false (suc n) = refl

phases_for-suc :
    (first : Bool) (n : ℕ)
    → phases_for first (suc n) ≡ (if first then start else continue) ∷ phases_for false n
phases_for-suc first n =
    ap (λ ps. (if first then start else continue) ∷ ps) (sym (phases_for-false n))

-- What the loop returns from a cursor that is ready.
abbrev pub driven_from : ValueCursor → Bool → Driven
driven_from c first = record {
  cursor = finished c;
  tokens = drop c.offset c.value_tokens;
  phases = phases_for first (length c.value_tokens - c.offset);
}

driven_at_end :
    (c : ValueCursor) (first : Bool)
    → done c ≡ true
    → record { cursor = c; tokens = []; phases = [] } ≡ driven_from c first
unfolding done
driven_at_end c first d =
    let e : c.offset ≡ length c.value_tokens = ground arith in
    let none_left : length c.value_tokens - c.offset ≡ 0 = omega arith in
    λ i. record {
      cursor = record c { offset = e i };
      tokens = (sym (drop-length c.value_tokens) ∙ ap (λ n. drop n c.value_tokens) (sym e)) i;
      phases = ap (phases_for first) (sym none_left) i;
    }

driven_step :
    (c : ValueCursor) (first : Bool) {t : ℕ}
    → get_elem? c.value_tokens c.offset ≡ some t
    → c.offset < length c.value_tokens
    → prepend t (if first then start else continue) (driven_from (advanced c) false)
      ≡ driven_from c first
driven_step c first {t} h below =
    let left : length c.value_tokens - c.offset ≡ suc (length c.value_tokens - (c.offset + 1)) =
      omega arith in
    λ i. record {
      cursor = finished c;
      tokens =
          (ap (λ n. t ∷ drop n c.value_tokens) (add-one c.offset)
              ∙ sym (drop-cons c.offset c.value_tokens h))
            i;
      phases =
          (sym (phases_for-suc first (length c.value_tokens - (c.offset + 1)))
              ∙ ap (phases_for first) (sym left))
            i;
    }

module _ (digest : PayloadSnapshot → Text) (bos_id : ℕ) (snapshot : PayloadSnapshot)
    (reply : ReplyBinding) where
  -- The loop's body.
  abbrev pub step : ValueCursor → List ℕ → Result (ℕ × ValueCursor)
  step cursor prefix = do
    token ← Cursor.select digest cursor bos_id snapshot reply prefix true
    next ← Cursor.commit digest cursor token snapshot reply prefix true
    ok (token, next)

  -- `while not cursor.done: …`; `none` is fuel that ran out.
  unfoldable pub drive : ℕ → ValueCursor → List ℕ → Bool → Option (Result Driven)
  drive zero cursor prefix first = none
  drive (suc fuel) cursor prefix first = elim (done cursor) [
    | true ↦ some (ok (record { cursor = cursor; tokens = []; phases = [] }))
    | false ↦ elim (step cursor prefix) [
      | err e ↦ some (err e)
      | ok (token, next) ↦
          prepend_all token (if first then start else continue)
            (drive fuel next (prefix ++ token ∷ []) false)
    ]
  ]

  drive_step :
      (fuel : ℕ) (c : ValueCursor) (prefix : List ℕ) (first : Bool)
      → done c ≡ false
      → (s : Steps digest c snapshot reply prefix true)
      → drive (suc fuel) c prefix first
        ≡ prepend_all s.token
            (if first then start else continue)
            (drive fuel (advanced c) (prefix ++ s.token ∷ []) false)
  unfolding drive
  drive_step fuel c prefix first d s = ground (arith, s.selects bos_id, s.commits)

  drive_end :
      (fuel : ℕ) (c : ValueCursor) (prefix : List ℕ) (first : Bool)
      → done c ≡ true
      → drive (suc fuel) c prefix first
        ≡ some (ok (record { cursor = c; tokens = []; phases = [] }))
  unfolding drive
  drive_end fuel c prefix first d = ground arith

  -- From a ready cursor, with fuel for more than the tokens that are left, the loop of the teacher
  -- ends, raises nothing, appends exactly those tokens in order with their phases, and leaves the
  -- cursor done.
  pub drive-finishes :
      (fuel : ℕ) (c : ValueCursor) (prefix : List ℕ) (first : Bool)
      → Ready digest c snapshot reply prefix true
      → length c.value_tokens - c.offset < fuel
      → drive fuel c prefix first ≡ some (ok (driven_from c first))
  drive-finishes zero c prefix first r enough = absurd (omega arith)
  drive-finishes (suc fuel) c prefix first r enough = elim (Bool-cases (done c)) [
    | inl d ↦ drive_end fuel c prefix first d ∙ ap (λ x. some (ok x)) (driven_at_end c first d)
    | inr d ↦
        let s = Ready-Steps digest c snapshot reply prefix true r d in
        let below = get_elem?-lt c.value_tokens c.offset s.is_next in
        drive_step fuel c prefix first d s
        ∙ ap (prepend_all s.token (if first then start else continue)) (
            drive-finishes fuel (advanced c) (prefix ++ s.token ∷ []) false s.stays_ready
              (omega arith))
        ∙ ap (λ x. some (ok x)) (driven_step c first s.is_next below)
  ]
