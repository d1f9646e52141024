-- ===== src/Generation.antt =====
-- python/neural_memory_generation.py and the input check of python/episode_memory_inputs.py: the
-- prompt of a reply. The source episodes go to the memory encoder and never into the prompt.
pub mod Laws
pub mod Framing
pub mod Greedy
use bit_net.Contract.{require}
use bit_net.Base.{
  ℕ, zero, suc, ◌+◌, ◌-◌, ◌*◌, ◌/◌, ◌%◌, ◌≤◌, ◌<◌, min, String, ◌≡◌, refl, sym, ap, ◌∙◌, ◌≢◌, ◌↔◌,
  ◌⊎◌, inl, inr, Bool, true, false, not, ◌&&◌, ◌||◌, Option, none, some, List, [], ◌∷◌, ◌++◌, map,
  arith, ltb, leb, if◌then◌else◌, Bool-cases, Option-cases, Eq, ◌==◌, eq_iff, nat_eq, text_eq,
  option_eq, length, get_elem?, take, drop, all, any, is_empty, length-append, append_nil,
  append_assoc, take-append-drop, length-take, take-length, take-suc, take-append, drop-append, All,
  Some, all_iff, all-append, elem, distinct, subset, disjoint, elem-append, Error, value_error,
  transport_error, prefix_retokenization_required, unsafe_token, transport_budget_exceeded,
  unicode_encode_error, unicode_decode_error, Result, ok, err, Check, ◌>>=◌, ◌>>◌, guard, or_raise,
  drop_value, each, each_iff, Text, Bytes, lit, has_content, is_sha256, Result-cases, guard-eq-ok,
  check-eq-ok, bind-eq-ok, or_raise-eq-ok, drop_value-eq-ok, bool_ext,
}

-- A message of a runtime input, and the input: natural text, with no label.
pub record Turn : Type 0 where
  pub role : Text
  pub speaker : Text
  pub text : Text

pub record Runtime : Type 0 where
  pub id : Text
  pub context : List Turn
  pub episodes : List Turn

abbrev pub last_satisfies : (Turn → Bool) → List Turn → Bool
last_satisfies p [] = false
last_satisfies p (x ∷ []) = p x
last_satisfies p (x ∷ y ∷ xs) = last_satisfies p (y ∷ xs)

abbrev pub validate_turn : Turn → Check
validate_turn m = do
  require (elem m.role (lit "user" ∷ lit "assistant" ∷ lit "tool" ∷ lit "system" ∷ []))
      "invalid role"
  require (all has_content (m.role ∷ m.speaker ∷ m.text ∷ [])) "nonempty natural message required"

-- `validate_input`
unfoldable pub validate_input : Runtime → Check
validate_input r = do
  require (not (is_empty r.id)) "case id required"
  require (not (is_empty r.context)) "nonempty context required"
  each validate_turn (r.context ++ r.episodes)
  require (last_satisfies (λ m. m.role == lit "user") r.context)
      "context must end at current user message"

-- `GenerationInput` and its `__post_init__`.
pub record GenerationInput : Type 0 where
  pub prompt_token_ids : List ℕ
  pub source_texts : List Text

unfoldable pub check_generation_input : GenerationInput → Check
check_generation_input g = do
  require (not (is_empty g.prompt_token_ids)) "immutable token IDs required"
  require (all (λ s. not (is_empty s)) g.source_texts) "immutable source texts required"

abbrev pub starts_with : Text → Text → Bool
starts_with [] s = true
starts_with (c ∷ t) [] = false
starts_with (c ∷ t) (d ∷ s) = c == d && starts_with t s

-- `marker in s`
abbrev pub occurs : Text → Text → Bool
occurs marker [] = is_empty marker
occurs marker (c ∷ s) = starts_with marker (c ∷ s) || occurs marker s

abbrev pub im_start : Text
im_start = lit "<|im_start|>"

abbrev pub im_end : Text
im_end = lit "<|im_end|>"

-- `RESERVED`
abbrev pub reserved : List Text
reserved = im_start ∷ im_end ∷ lit "<think>" ∷ lit "</think>" ∷ []

abbrev pub check_turn : Turn → Check
check_turn m = do
  require (m.speaker == m.role && elem m.role (lit "user" ∷ lit "assistant" ∷ []))
      "unsupported speaker/role in generation protocol"
  require (not (elem 0 m.text || any (λ marker. occurs marker m.text) reserved))
      "reserved template marker in natural text"

-- The two values of `template_version` that are accepted.
pub data Template : Type 0 where
  gguf_chatml_v2 research_no_think_v1 : Template

abbrev pub newline : Text
newline = 10 ∷ []

abbrev pub render_turn : Turn → Text
render_turn m = im_start ++ (m.role ++ (newline ++ (m.text ++ (im_end ++ newline))))

abbrev pub render_turns : List Turn → Text
render_turns [] = []
render_turns (m ∷ ms) = render_turn m ++ render_turns ms

abbrev pub system_turn : Turn
system_turn = record {
  role = lit "system";
  speaker = lit "system";
  text = lit "Reply briefly in plain text. Do not use tools.";
}

abbrev pub suffix : Template → Text
suffix gguf_chatml_v2 = im_start ++ (lit "assistant" ++ newline)
suffix research_no_think_v1 =
    im_start
    ++ (lit "assistant"
        ++ (newline ++ (lit "<think>" ++ (newline ++ (newline ++ (lit "</think>" ++ newline))))))

-- `generation_prompt`, for a version that names a template.
unfoldable pub generation_prompt : Template → Runtime → Result Text
generation_prompt version r = do
  validate_input r
  each check_turn (r.context ++ r.episodes)
  ok (render_turn system_turn ++ (render_turns r.context ++ suffix version))

-- `encode_generation_input`: the tokenizer's `encode` with the start token, and the rendering of
-- the sources for the memory encoder, are parameters.
module _ (encode : Text → List ℕ) (render : Turn → Text) where
  abbrev pub input_of : Runtime → Text → GenerationInput
  input_of r prompt = record {
    prompt_token_ids = encode prompt;
    source_texts = map render r.episodes;
  }

  unfoldable pub encode_generation_input : Template → Runtime → Result GenerationInput
  encode_generation_input version r = do
    prompt ← generation_prompt version r
    check_generation_input (input_of r prompt)
    ok (input_of r prompt)
