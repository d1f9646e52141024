-- ===== src/Controller/Setup.antt =====
-- The types of python/autonomous_value_controller.py, and the validation that every call repeats.
-- Tensors are not modelled: of the model and its inputs, the versions; of a frame, whether its
-- tensors are valid, and the position of the largest logit.
use bit_net.Transport.{require, FactPayload, PayloadSnapshot, ReplyBinding, TransportLimits}
use bit_net.Transport.Handle.{ActivatedFact}
use bit_net.Transport.Codec.{ValueCodec}
use bit_net.Transport.Cursor.{ValueCursor}
use bit_net.Base.{
  Bytes, is_empty, ℕ, ◌≡◌, ◌↔◌, Bool, true, false, not, ◌&&◌, ◌||◌, Option, none, some, List, [],
  ◌∷◌, arith, ltb, Eq, ◌==◌, nat_eq, text_eq, texts_eq, option_eq, length, drop, all, Result, Check,
  ◌>>◌, Text,
}

pub data FrameOrigin : Type 0 where
  native_fresh synthetic_test : FrameOrigin

abbrev pub origin_beq : FrameOrigin → FrameOrigin → Bool
origin_beq native_fresh native_fresh = true
origin_beq synthetic_test synthetic_test = true
origin_beq _ _ = false

pub origin_beq_iff : (a b : FrameOrigin) → (origin_beq a b ≡ true) ↔ (a ≡ b)
origin_beq_iff native_fresh b = ground arith
origin_beq_iff synthetic_test b = ground arith

instance abbrev pub origin_eq : Eq FrameOrigin
origin_eq = record { beq = origin_beq; beq_iff = origin_beq_iff }

pub data ActionKind : Type 0 where
  base start_value continue_value end_value needs_uncertainty : ActionKind

pub data ControllerState : Type 0 where
  idle active wait_uncertainty all_done failed : ControllerState

pub record LiveFrame : Type 0 where
  pub prefix_ids : List ℕ
  pub binding : Text
  pub origin : FrameOrigin
  pub argmax : ℕ
  pub is_frozen : Bool

-- `identity` is the identity of the object, by which `is` compares.
pub record Decision : Type 0 where
  pub identity : ℕ
  pub kind : ActionKind
  pub token : Option ℕ
  pub prefix_ids : List ℕ
  pub route : ℕ
  pub origin : FrameOrigin

-- What the model, the inputs and the codec hold, which other code may change between calls.
pub record Held : Type 0 where
  pub versions : List ℕ
  pub model_binding : Text
  pub inputs_binding : Text
  pub backbone_sha256 : Text
  pub tokenizer_sha256 : Text
  pub bos_id : ℕ
  pub vocab : ℕ

-- What a call finds.
pub record Now : Type 0 where
  pub held : Held
  pub training : Bool
  pub identity : Check
  pub hidden_version : ℕ
  pub logits_version : ℕ

-- What the reader says of a prefix: its prediction, and the handle that it makes.
pub record Output : Type 0 where
  pub route : ℕ
  pub starts : Bool
  pub value_bytes : Option (ℕ × ℕ)
  pub handle : Result ActivatedFact

-- What the constructor finds in the model, its inputs and their layout, besides what it binds: the
-- digest of the snapshot's binding, the payload of the layout, the number of the source's vectors,
-- and whether `codec.verify_identity` and `layout.endpoints` raise.
pub record Given : Type 0 where
  pub training : Bool
  pub context_sha256 : Text
  pub memory_sha256 : Text
  pub binding_sha256 : Text
  pub payload : Bytes
  pub sources : ℕ
  pub identity : Check
  pub endpoints : Check

-- The arguments of the constructor, and what it binds.
pub record Setup : Type 0 where
  pub reader : Now → LiveFrame → List ℕ → Result Output
  pub digest : PayloadSnapshot → Text
  pub snapshot : PayloadSnapshot
  pub reply : ReplyBinding
  pub codec : ValueCodec
  pub initial_prefix : List ℕ
  pub max_new_tokens : ℕ
  pub max_value_reads : ℕ
  pub limits : TransportLimits
  pub allow_synthetic : Bool
  pub eos : ℕ
  pub bound : Held
  pub given : Given

-- The fields that change.
pub record Controller : Type 0 where
  pub state : ControllerState
  pub prefix : List ℕ
  pub route : Option ℕ
  pub cursor : Option ValueCursor
  pub reads : ℕ
  pub pending : Option Decision
  pub frame_origin : Option FrameOrigin
  pub frame_versions : Option (List ℕ)
  pub created : ℕ

-- `state in (IDLE, ACTIVE)`
abbrev pub may_act : ControllerState → Bool
may_act idle = true
may_act active = true
may_act _ = false

-- The layout is of the only fact, or there is none and the source is empty.
abbrev pub is_source : List FactPayload → Given → Bool
is_source [] given = is_empty given.payload && given.sources == 0
is_source (fact ∷ []) given = fact.bytes == given.payload
is_source (fact ∷ other ∷ facts) given = false

-- What every except clause does before it raises again.
abbrev pub fail : Controller → Controller
fail c = record c { state = failed; pending = none }

module _ (s : Setup) where
  -- The fields that the constructor sets.
  abbrev pub first_controller : Controller
  first_controller = record {
    state = idle;
    prefix = s.initial_prefix;
    route = none;
    cursor = none;
    reads = 0;
    pending = none;
    frame_origin = none;
    frame_versions = none;
    created = 0;
  }

  -- What the constructor checks, and its end token.
  unfoldable pub check_setup : Check
  check_setup = do
    require (not s.given.training) "eval mode and explicit fixture policy required"
    require (ltb 0 s.max_new_tokens && ltb 0 s.max_value_reads) "positive reply budgets required"
    require
        (elim s.initial_prefix [ [] ↦ false | t ∷ ts ↦ t == s.codec.bos_id ]
          && all (λ t. ltb t s.codec.vocab) s.initial_prefix
          && ltb (length s.initial_prefix) s.limits.max_total_tokens)
        "valid actual initial prefix required"
    require
        (s.snapshot.scope == s.reply.scope
          && s.given.context_sha256 == s.reply.context_sha256
          && s.bound.inputs_binding == s.bound.model_binding
          && s.bound.model_binding == s.given.binding_sha256
          && s.snapshot.memory_model_sha256 == s.given.memory_sha256)
        "model/request/scope binding mismatch"
    require (is_source s.snapshot.facts s.given) "source snapshot mismatch"
    require
        (s.codec.backbone_sha256 == s.snapshot.binding.backbone_sha256
          && s.codec.tokenizer_sha256 == s.snapshot.binding.tokenizer_sha256)
        "codec binding mismatch"
    s.given.identity
    s.given.endpoints
    require (ltb s.eos s.codec.vocab) "explicit valid EOS required"

  abbrev pub generated_tokens : Controller → List ℕ
  generated_tokens c = drop (length s.initial_prefix) c.prefix

  -- `_validate_binding`
  unfoldable pub validate_binding : Now → Check
  validate_binding now = do
    require (not now.training && now.held.versions == s.bound.versions)
        "model or source/query tensors changed during reply"
    require
        (now.held.model_binding == now.held.inputs_binding
          && now.held.inputs_binding == s.bound.model_binding
          && now.held.backbone_sha256 == s.bound.backbone_sha256
          && now.held.tokenizer_sha256 == s.bound.tokenizer_sha256
          && now.held.bos_id == s.bound.bos_id
          && now.held.vocab == s.bound.vocab)
        "runtime codec/feature binding changed"
    now.identity

  abbrev pub is_allowed : FrameOrigin → Bool
  is_allowed native_fresh = true
  is_allowed synthetic_test = s.allow_synthetic

  -- `_validate_frame`
  unfoldable pub validate_frame : Controller → Now → LiveFrame → Check
  validate_frame c now frame = do
    require (is_allowed frame.origin) "synthetic frame requires explicit opt-in"
    require (c.frame_origin == none || c.frame_origin == some frame.origin)
        "frame origin changed within reply"
    require (frame.prefix_ids == c.prefix && frame.binding == now.held.model_binding)
        "not the actual reply prefix"
    require frame.is_frozen "invalid frozen C frame"
