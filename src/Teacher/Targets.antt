-- ===== src/Teacher/Targets.antt =====
-- `SpanTargets` of python/joint_span_supervision.py, whose rules `ByteTargets` of
-- python/fine_span_supervision.py applies to byte positions.
use bit_net.Transport.{require}
use bit_net.Base.{
  ℕ, Bool, true, false, not, ◌&&◌, ◌||◌, Option, none, some, [], ◌∷◌, ltb, leb, if◌then◌else◌, ◌==◌,
  nat_eq, text_eq, option_eq, elem, Check, ◌>>◌,
}

pub record ByteTargets : Type 0 where
  pub route : ℕ
  pub fact_bytes : Option (ℕ × ℕ)
  pub value_bytes : Option (ℕ × ℕ)
  pub idle_mode : Option ℕ

abbrev pub is_none {ℓ} : {A : Type ℓ} → Option A → Bool
is_none none = true
is_none (some a) = false

-- `0 <= span[0] < span[1]`, for a span that is given.
abbrev pub is_span : Option (ℕ × ℕ) → Bool
is_span none = false
is_span (some (a, b)) = leb 0 a && ltb a b

-- `fact[0] <= value[0] < value[1] <= fact[1]`
abbrev pub is_nested : Option (ℕ × ℕ) → Option (ℕ × ℕ) → Bool
is_nested (some (fs, fe)) (some (vs, ve)) = leb fs vs && ltb vs ve && leb ve fe
is_nested _ _ = false

abbrev pub is_mode : Option ℕ → Bool
is_mode none = true
is_mode (some m) = elem m (0 ∷ 1 ∷ [])

-- `__post_init__`
unfoldable pub post_init : ByteTargets → Check
post_init t = do
  require (elem t.route (0 ∷ 1 ∷ 2 ∷ [])) "invalid route label"
  require (is_mode t.idle_mode) "invalid mode label"
  require (t.route == 1 || not (t.idle_mode == some 1)) "cannot start without support"
  if t.route == 1
      then (do
        require (is_span t.fact_bytes && is_span t.value_bytes) "supported span labels required"
        require (is_nested t.fact_bytes t.value_bytes) "value must be inside labelled fact")
      else require (is_none t.fact_bytes && is_none t.value_bytes)
          "non-support cannot have positive span labels"
