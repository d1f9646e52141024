-- ===== src/Contract/Values.antt =====
-- The validators and the model binding of python/neural_memory_contract.py.
use bit_net.Base.{
  ℕ, String, Bool, true, ◌&&◌, [], ◌∷◌, ◌≡◌, ◌↔◌, arith, leb, Text, has_content, is_sha256, Check,
  value_error, guard, each, Eq, ◌==◌, eq_iff, text_eq, nat_eq,
}

-- `require(condition, message)`
abbrev pub require : Bool → String → Check
require condition message = guard condition (value_error message)

abbrev pub identifier : Text → Check
identifier value = require (has_content value) "nonempty identifier required"

abbrev pub integer : ℕ → ℕ → Check
integer value minimum = require (leb minimum value) "invalid integer"

pub record ModelBinding : Type 0 where
  pub backbone_sha256 : Text
  pub tokenizer_sha256 : Text
  pub encoder_sha256 : Text
  pub protocol_sha256 : Text

-- `ModelBinding.__post_init__`
unfoldable pub check_binding : ModelBinding → Check
check_binding b =
    each (λ value. require (is_sha256 value) "SHA-256 identity required")
      (b.backbone_sha256 ∷ b.tokenizer_sha256 ∷ b.encoder_sha256 ∷ b.protocol_sha256 ∷ [])

abbrev pub binding_beq : ModelBinding → ModelBinding → Bool
binding_beq a b =
    a.backbone_sha256 == b.backbone_sha256
    && a.tokenizer_sha256 == b.tokenizer_sha256
    && a.encoder_sha256 == b.encoder_sha256
    && a.protocol_sha256 == b.protocol_sha256

pub binding_beq_iff : (a b : ModelBinding) → (binding_beq a b ≡ true) ↔ (a ≡ b)
binding_beq_iff a b = ground (
  arith,
  eq_iff a.backbone_sha256 b.backbone_sha256,
  eq_iff a.tokenizer_sha256 b.tokenizer_sha256,
  eq_iff a.encoder_sha256 b.encoder_sha256,
  eq_iff a.protocol_sha256 b.protocol_sha256,
)

instance abbrev pub binding_eq : Eq ModelBinding
binding_eq = record { beq = binding_beq; beq_iff = binding_beq_iff }
