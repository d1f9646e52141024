-- ===== src/Teacher/Trajectory.antt =====
-- `TeacherTrajectory` of python/value_teacher_trajectory.py.
pub mod Laws
use bit_net.Transport.{require}
use bit_net.Teacher.Targets.{ByteTargets, is_none}
use bit_net.Base.{
  ℕ, zero, suc, ◌+◌, ◌-◌, ◌*◌, ◌/◌, ◌%◌, ◌≤◌, ◌<◌, min, String, ◌≡◌, refl, sym, ap, ◌∙◌, ◌≢◌, ◌↔◌,
  ◌⊎◌, inl, inr, Bool, true, false, not, ◌&&◌, ◌||◌, Option, none, some, List, [], ◌∷◌, ◌++◌, map,
  arith, ltb, leb, if◌then◌else◌, Bool-cases, Option-cases, Eq, ◌==◌, eq_iff, nat_eq, text_eq,
  option_eq, length, get_elem?, take, drop, all, any, is_empty, length-append, append_nil,
  append_assoc, take-append-drop, length-take, take-length, take-suc, take-append, drop-append, All,
  Some, all_iff, all-append, elem, distinct, subset, disjoint, elem-append, Error, value_error,
  transport_error, prefix_retokenization_required, unsafe_token, transport_budget_exceeded,
  unicode_encode_error, unicode_decode_error, Result, ok, err, Check, ◌>>=◌, ◌>>◌, guard, or_raise,
  drop_value, each, each_iff, Text, Bytes, lit, has_content, is_sha256, Result-cases, guard-eq-ok,
  check-eq-ok, bind-eq-ok, or_raise-eq-ok, drop_value-eq-ok, bool_ext,
}

pub data Phase : Type 0 where
  generate start continue end : Phase

abbrev pub phase_beq : Phase → Phase → Bool
phase_beq generate generate = true
phase_beq start start = true
phase_beq continue continue = true
phase_beq end end = true
phase_beq _ _ = false

pub phase_beq_iff : (a b : Phase) → (phase_beq a b ≡ true) ↔ (a ≡ b)
phase_beq_iff generate b = ground arith
phase_beq_iff start b = ground arith
phase_beq_iff continue b = ground arith
phase_beq_iff end b = ground arith

instance abbrev pub phase_eq : Eq Phase
phase_eq = record { beq = phase_beq; beq_iff = phase_beq_iff }

pub record TeacherTrajectory : Type 0 where
  pub record_id : Text
  pub input_sha256 : Text
  pub prompt_ids : List ℕ
  pub completion_ids : List ℕ
  pub phases : List Phase
  pub idle_targets : List (Option ℕ)
  pub response : Text
  pub static_targets : ByteTargets
  pub origin : Text

abbrev pub teacher_forcing_oracle : Text
teacher_forcing_oracle = lit "teacher_forcing_oracle"

-- `{'GENERATE': 0, 'START': 1, 'CONTINUE': None, 'END': 0}[phase]`
abbrev pub idle_label : Phase → Option ℕ
idle_label generate = some 0
idle_label start = some 1
idle_label continue = none
idle_label end = some 0

-- `for phase, label in zip(phases, idle_targets): …`
abbrev pub check_labels : List Phase → List (Option ℕ) → Check
check_labels [] ls = ok tt
check_labels (p ∷ ps) [] = ok tt
check_labels (p ∷ ps) (l ∷ ls) = do
  require (l == idle_label p) "phase/mode mismatch"
  check_labels ps ls

-- `phases.count(p)`
abbrev pub count : Phase → List Phase → ℕ
count p [] = 0
count p (q ∷ qs) = (if p == q then 1 else 0) + count p qs

-- `phases.index(p)`, for a phase that occurs.
abbrev pub index_of : Phase → List Phase → ℕ
index_of p [] = 0
index_of p (q ∷ qs) = if p == q then 0 else suc (index_of p qs)

-- The order of an active trajectory: with s and e the positions of START and END,
-- `all(p == 'CONTINUE' for p in phases[s+1:e])` and
-- `all(p == 'GENERATE' for p in phases[:s] + phases[e+1:])`.
abbrev pub is_ordered : List Phase → Bool
is_ordered phases =
    let s = index_of start phases in
    let e = index_of end phases in
    ltb s e
    && all (λ p. p == continue) (drop (suc s) (take e phases))
    && all (λ p. p == generate) (take s phases ++ drop (suc e) phases)

abbrev pub from_bool : Bool → ℕ
from_bool true = 1
from_bool false = 0

-- The checks of the phases for a route: `active` is `route == 1`.
unfoldable pub check_phases : Bool → List Phase → Check
check_phases active phases = do
  require (count start phases == from_bool active && count end phases == from_bool active)
      "missing/duplicate transition"
  if active
      then require (is_ordered phases) "invalid cursor transition order"
      else require (all (λ p. p == generate) phases) "positive phase without support"

-- `__post_init__`
unfoldable pub post_init : TeacherTrajectory → Check
post_init t = do
  require (t.origin == teacher_forcing_oracle) "explicit teacher origin required"
  each (λ ids. require (not (is_empty ids)) "immutable teacher IDs required")
      (t.prompt_ids ∷ t.completion_ids ∷ [])
  require (length t.completion_ids == length t.phases && length t.phases == length t.idle_targets)
      "teacher alignment mismatch"
  require (is_none t.static_targets.idle_mode) "static loss must not double-count idle modes"
  check_labels t.phases t.idle_targets
  check_phases (t.static_targets.route == 1) t.phases

-- `prefix(position, purpose=…)`
unfoldable pub prefix : TeacherTrajectory → ℕ → Text → Result (List ℕ)
prefix t position purpose = do
  require (purpose == lit "training_diagnostic")
      "teacher trajectories cannot be used for autonomous inference"
  require (leb 0 position && ltb position (length t.completion_ids))
      "teacher position outside trajectory"
  ok (t.prompt_ids ++ take position t.completion_ids)
