-- ===== src/Teacher/Compile/Shapes.antt =====
-- The phases that the branches of `compile_teacher` leave, and that a trajectory accepts.
use native.Mathlib.Nat.{zero-add, suc-add}
use bit_net.Base.Utf8.{encode}
use bit_net.Transport.Codec.{ValueCodec}
use bit_net.Transport.Compile.{encode_value}
use bit_net.Teacher.Targets.{ByteTargets}
use bit_net.Teacher.Trajectory.{Phase, generate, start, continue, end, check_phases}
use bit_net.Teacher.Trajectory.Laws.{
  replicate, active_phases, check_phases-replicate, check_phases-active,
}
use bit_net.Teacher.Draft.{Draft, append_text, set_phase, Body}
use bit_net.Teacher.Compile.{close_phases}
use bit_net.Base.{
  ℕ, zero, suc, ◌+◌, ◌≡◌, refl, sym, ap, ◌∙◌, inl, inr, Bool, true, false, none, some, List, [],
  ◌∷◌, ◌++◌, arith, Option-cases, ◌==◌, nat_eq, text_eq, option_eq, length, length-append,
  append_nil, append_assoc, Result, ok, err, Text, Result-cases,
}

-- A draft of text alone.
abbrev IsText : ℕ → Draft → Type 0
IsText n d = (length d.parts ≡ n) × (d.phases ≡ replicate n generate)

replicate-append : (m n : ℕ) (p : Phase) → replicate m p ++ replicate n p ≡ replicate (m + n) p
replicate-append zero n p = rw zero-add refl
replicate-append (suc m) n p = rw suc-add (ap (λ t. p ∷ t) (replicate-append m n p))

-- Text that is appended adds as many phases as tokens.
pub append_text-phases :
    (codec : ValueCodec) (text : Text) (d : Draft) {d' : Draft}
    → append_text codec text d ≡ ok d'
    → (n : ℕ) × (length d'.parts ≡ length d.parts + n)
      × (d'.phases ≡ d.phases ++ replicate n generate)
unfolding append_text
append_text-phases codec [] d {d'} h =
    (0, ground arith, ap (λ (r : Result Draft). phases_of r) (sym h) ∙ sym (append_nil d.phases))
  where
    phases_of : Result Draft → List Phase
    phases_of (ok x) = x.phases
    phases_of (err e) = []
append_text-phases codec (c ∷ cs) d {d'} h = elim (Option-cases (encode (c ∷ cs))) [
  | inl e ↦ absurd (ground arith)
  | inr (bytes, e) ↦ elim (Result-cases (encode_value codec bytes)) [
    | inr (x, v) ↦ absurd (ground arith)
    | inl (ids, v) ↦ elim (Result-cases (codec.decode_pieces ids)) [
      | inr (x, p) ↦ absurd (ground arith)
      | inl (pieces, p) ↦ (length ids, ground (arith, length-append d.parts ids), ground arith)
    ]
  ]
]

set_phase-append :
    (p q : Phase) (xs ys : List Phase) → set_phase (length xs) p (xs ++ q ∷ ys) ≡ xs ++ p ∷ ys
set_phase-append p q [] ys = refl
set_phase-append p q (x ∷ xs) ys = ap (λ t. x ∷ t) (set_phase-append p q xs ys)

replicate-snoc : (n : ℕ) (p : Phase) → replicate n p ++ p ∷ [] ≡ p ∷ replicate n p
replicate-snoc zero p = refl
replicate-snoc (suc n) p = ap (λ t. p ∷ t) (replicate-snoc n p)

length-replicate : (n : ℕ) (p : Phase) → length (replicate n p) ≡ n
length-replicate zero p = refl
length-replicate (suc n) p = ap suc (length-replicate n p)

abbrev pub closed : Body → List Phase
closed body = close_phases body.end_at (body.draft.phases ++ generate ∷ [])

-- A body whose closed phases are aligned with its tokens and the end token, and are accepted.
pub record IsClosed (body : Body) (active : Bool) : Type 0 where
  pub aligned : length (closed body) ≡ length body.draft.parts + 1
  pub accepted : check_phases active (closed body) ≡ ok tt
  pub no_idle_mode : body.targets.idle_mode ≡ none
  pub routed : (body.targets.route == 1) ≡ active

-- Text, a value of one token or more, and text.
pub active-IsClosed :
    (b m a : ℕ) (parts : List ℕ) (targets : ByteTargets) (phases : List Phase) (n : ℕ)
    → targets.idle_mode ≡ none
    → targets.route ≡ 1
    → phases ≡ (replicate b generate ++ start ∷ replicate m continue) ++ replicate a generate
    → n ≡ b + suc m
    → length parts ≡ b + suc m + a
    → IsClosed
        (record {
          draft = record { parts = parts; phases = phases };
          end_at = some n;
          targets = targets;
        })
        true
active-IsClosed b m a parts targets phases n idle route shape at size =
    let head = replicate b generate ++ start ∷ replicate m continue in
    let head_length : length head ≡ b + suc m = omega (
      arith,
      length-append (replicate b generate) (start ∷ replicate m continue),
      length-replicate b generate,
      length-replicate m continue,
    ) in
    let whole : set_phase n end (phases ++ generate ∷ []) ≡ active_phases b m a =
      ap (λ ps. set_phase n end (ps ++ generate ∷ [])) shape
      ∙ ap (set_phase n end) (
          append_assoc head (replicate a generate) (generate ∷ [])
          ∙ ap (λ t. head ++ t) (replicate-snoc a generate))
      ∙ ap (λ k. set_phase k end (head ++ generate ∷ replicate a generate)) (at ∙ sym head_length)
      ∙ set_phase-append end generate head (replicate a generate) in
    record {
      aligned =
          ap length whole
          ∙ omega (
            arith,
            length-append head (end ∷ replicate a generate),
            head_length,
            length-replicate a generate,
          );
      accepted = ap (check_phases true) whole ∙ check_phases-active b m a;
      no_idle_mode = idle;
      routed = ap (λ r. r == 1) route;
    }

-- Text alone.
pub text-IsClosed :
    (a : ℕ) (parts : List ℕ) (targets : ByteTargets) (phases : List Phase)
    → targets.idle_mode ≡ none
    → (targets.route == 1) ≡ false
    → phases ≡ replicate a generate
    → length parts ≡ a
    → IsClosed
        (record {
          draft = record { parts = parts; phases = phases };
          end_at = none;
          targets = targets;
        })
        false
text-IsClosed a parts targets phases idle route shape size =
    let whole : phases ++ generate ∷ [] ≡ replicate (suc a) generate =
      ap (λ ps. ps ++ generate ∷ []) shape ∙ replicate-snoc a generate in
    record {
      aligned = ap length whole ∙ omega (arith, length-replicate a generate);
      accepted = ap (check_phases false) whole ∙ check_phases-replicate (suc a);
      no_idle_mode = idle;
      routed = route;
    }
