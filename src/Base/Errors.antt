-- ===== src/Base/Errors.antt =====
-- Fallible code: what a call returns or raises. Each exception class that the components raise is
-- a constructor with the message.
use Prim.Native.Nat.{ℕ}
use Prim.Native.String.{String}
use mathlib.Core.Path.{◌≡◌, refl, ap, ◌∙◌}
use mathlib.Core.Logic.{◌↔◌, ◌⊎◌, inl, inr}
use mathlib.Core.Bool.{Bool, true, false}
use mathlib.Core.Option.{Option, none, some}
use mathlib.Core.List.{List, [], ◌∷◌}
use native.Mathlib.Omega.{arith}
use bit_net.Base.Lists.{All}

pub data Error : Type 0 where
  value_error : String → Error
  transport_error : String → Error
  prefix_retokenization_required : String → Error
  unsafe_token : String → Error
  transport_budget_exceeded : String → Error
  system_exit : String → Error
  key_error : List ℕ → Error
  index_error : Error
  zero_division_error : Error
  overflow_error : Error
  unicode_encode_error : Error
  unicode_decode_error : Error

pub data Result {ℓ} (A : Type ℓ) : Type ℓ where
  ok : A → Result A
  err : Error → Result A

abbrev pub Check : Type 0
Check = Result (Unit {0})

-- `if not condition: raise e`
abbrev pub guard : Bool → Error → Check
guard condition e = elim condition [ true ↦ ok tt | false ↦ err e ]

infixl 5 ◌>>=◌ ◌>>◌
abbrev pub ◌>>=◌ {ℓ κ} : {A : Type ℓ} {B : Type κ} (m : Result A) (k : A → Result B) → Result B
ok a >>= k = k a
err e >>= k = err e

abbrev pub ◌>>◌ {ℓ} : {B : Type ℓ} (m : Check) (k : Result B) → Result B
m >> k = m >>= λ _. k

abbrev pub or_raise {ℓ} : {A : Type ℓ} → Option A → Error → Result A
or_raise none e = err e
or_raise (some a) e = ok a

-- An expression statement: what the call returns is dropped.
abbrev pub drop_value {ℓ} : {A : Type ℓ} → Result A → Check
drop_value (ok a) = ok tt
drop_value (err e) = err e

pub Result-cases {ℓ} :
    {A : Type ℓ} (r : Result A) → ((a : A) × (r ≡ ok a)) ⊎ ((x : Error) × (r ≡ err x))
Result-cases (ok a) = inl (a, refl)
Result-cases (err x) = inr (x, refl)

-- Inversion of a call that returned, for proofs where the parts stay shut.
pub guard-eq-ok {ℓ} :
    {A : Type ℓ} (c : Bool) (e : Error) (k : Result A) {a : A}
    → (guard c e >> k) ≡ ok a
    → (c ≡ true) × (k ≡ ok a)
guard-eq-ok true e k h = (refl, h)
guard-eq-ok false e k h = cc

pub check-eq-ok {ℓ} :
    {A : Type ℓ} (m : Check) (k : Result A) {a : A} → (m >> k) ≡ ok a → (m ≡ ok tt) × (k ≡ ok a)
check-eq-ok (ok tt) k h = (refl, h)
check-eq-ok (err e) k h = cc

pub bind-eq-ok {ℓ κ} :
    {A : Type ℓ} {B : Type κ} (call : Result A) (rest : A → Result B) {value : B}
    → (call >>= rest) ≡ ok value
    → (a : A) × (call ≡ ok a) × (rest a ≡ ok value)
bind-eq-ok (err e) rest h = cc
bind-eq-ok (ok a) rest h = (a, refl, h)

-- A call that returns, and the rest of the code that returns from there.
pub bind-ok {ℓ κ} :
    {A : Type ℓ} {B : Type κ} {call : Result A} (rest : A → Result B) {a : A} {value : B}
    → call ≡ ok a
    → rest a ≡ ok value
    → (call >>= rest) ≡ ok value
bind-ok rest e h = ap (λ c. c >>= rest) e ∙ h

-- A call of code that returned has returned, and so has the rest of the code.
pub after_ok {ℓ κ ι} :
    {A : Type ℓ} {B : Type κ} {P : Type ι} (call : Result A) (rest : A → Result B) {value : B}
    → (call >>= rest) ≡ ok value
    → ((a : A) → call ≡ ok a → rest a ≡ ok value → P)
    → P
after_ok (ok a) rest h conclude = conclude a refl h
after_ok (err e) rest h conclude = cc

pub or_raise-eq-ok {ℓ} :
    {A : Type ℓ} (o : Option A) (e : Error) {a : A} → or_raise o e ≡ ok a → o ≡ some a
or_raise-eq-ok none e h = cc
or_raise-eq-ok (some a) e h = ground arith

pub drop_value-eq-ok {ℓ} : {A : Type ℓ} (m : Result A) → drop_value m ≡ ok tt → (a : A) × (m ≡ ok a)
drop_value-eq-ok (ok a) h = (a, refl)
drop_value-eq-ok (err e) h = cc

-- `for x in xs: f(x)`
module _ {ℓ} {A : Type ℓ} (f : A → Check) where
  abbrev pub each : List A → Check
  each [] = ok tt
  each (x ∷ xs) = f x >> each xs

  pub each_iff : (xs : List A) → (each xs ≡ ok tt) ↔ All (λ x. f x ≡ ok tt) xs
  each_iff [] = ((λ h. tt), (λ h. refl))
  each_iff (x ∷ xs) = ground (arith, each_iff xs)
