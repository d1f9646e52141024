-- ===== src/Tests/Contract.antt =====
-- python/neural_memory_contract.py on a batch and a read.
use bit_net.Contract.Message
use bit_net.Contract.Context
use bit_net.Contract.Context.Laws.{IsChronological, Belongs, post_init-IsChronological}
use bit_net.Contract.Span
use bit_net.Contract.Span.Laws.{IsPartOf, text-IsPartOf}
use bit_net.Contract.State
use bit_net.Contract.Operation
use bit_net.Contract.Delta
use bit_net.Contract.Delta.Admission.{
  IsAdmissible, validate_against_iff, candidates, with_candidates, validate_against-post_init,
  Quotes, validate_against-Quotes,
}
use bit_net.Contract.Read
use bit_net.Contract.Read.{disabled, not_needed, missing}
use bit_net.Contract.Read.Laws.{IsBacked, validate_against-IsBacked, post_init-is_empty}
use bit_net.Tests.Data.{context, span, state, delta, read}
use bit_net.Base.{
  ℕ, zero, suc, ◌+◌, ◌-◌, ◌*◌, ◌/◌, ◌%◌, ◌≤◌, ◌<◌, min, String, ◌≡◌, refl, sym, ap, ◌∙◌, ◌≢◌, ◌↔◌,
  ◌⊎◌, inl, inr, Bool, true, false, not, ◌&&◌, ◌||◌, Option, none, some, List, [], ◌∷◌, ◌++◌, map,
  arith, ltb, leb, if◌then◌else◌, Bool-cases, Option-cases, Eq, ◌==◌, eq_iff, nat_eq, text_eq,
  texts_eq, option_eq, length, get_elem?, take, drop, all, any, is_empty, length-append, append_nil,
  append_assoc, take-append-drop, length-take, take-length, take-suc, take-append, drop-append, All,
  Some, all_iff, all-append, elem, distinct, subset, disjoint, elem-append, Error, value_error,
  transport_error, prefix_retokenization_required, unsafe_token, transport_budget_exceeded,
  unicode_encode_error, unicode_decode_error, Result, ok, err, Check, ◌>>=◌, ◌>>◌, guard, or_raise,
  drop_value, each, each_iff, Text, Bytes, lit, has_content, is_sha256, Result-cases, guard-eq-ok,
  check-eq-ok, bind-eq-ok, or_raise-eq-ok, drop_value-eq-ok, bool_ext,
}

-- The constructors accept the data.
delta-accepted :
    (Delta.post_init delta ≡ ok tt)
    × (each Operation.post_init delta.operations ≡ ok tt)
    × (each Message.post_init context.messages ≡ ok tt)
unfolding Delta.post_init Operation.post_init Message.post_init has_content bit_net.Base.Utf8.encode
delta-accepted = (refl, refl, refl)

context-accepted : Context.post_init context ≡ ok tt
unfolding Context.post_init has_content
context-accepted = refl

state-accepted : State.post_init state ≡ ok tt
unfolding State.post_init has_content
state-accepted = refl

span-accepted : Span.post_init span ≡ ok tt
unfolding Span.post_init bit_net.Base.Utf8.encode bit_net.Base.Utf8.encode_all
    bit_net.Base.Utf8.encode_char bit_net.Base.Utf8.decode
span-accepted = refl

delta-validates : Delta.validate_against delta state context ≡ ok tt
unfolding Delta.validate_against Delta.admit_all Delta.admit Delta.admit_candidate
    Delta.mark_mutated bit_net.Base.Dict.index_from
delta-validates = refl

read-accepted : Read.post_init read ≡ ok tt
unfolding Read.post_init has_content
read-accepted = refl

read-validates : Read.validate_against read state ≡ ok tt
unfolding Read.validate_against bit_net.Base.Dict.index_from
read-validates = refl

validate_against_iff_example :
    (Delta.validate_against delta state context ≡ ok tt) ↔ IsAdmissible delta state context
validate_against_iff_example = validate_against_iff delta state context refl

validate_against-post_init_example : State.post_init (with_candidates delta state) ≡ ok tt
validate_against-post_init_example =
    validate_against-post_init delta state context refl state-accepted delta-validates

validate_against-Quotes_example :
    All
      (λ e. (e.learned_at_ms ≡ context.at_ms) × All (Quotes context) e.sources)
      (candidates delta.operations)
validate_against-Quotes_example =
    validate_against-Quotes delta state context refl context-accepted delta-validates

validate_against-IsBacked_example :
    (read.scope ≡ state.scope)
    × (read.revision ≡ state.revision)
    × (read.binding ≡ state.binding)
    × All (IsBacked state.episodes) read.activations
validate_against-IsBacked_example = validate_against-IsBacked read state read-validates

post_init-is_empty_example : (is_empty read.activations ≡ true) ↔ (
    (read.availability ≡ disabled)
    ⊎ (read.availability ≡ not_needed)
    ⊎ (read.availability ≡ missing))
post_init-is_empty_example = post_init-is_empty read read-accepted

text-IsPartOf_example : IsPartOf span
text-IsPartOf_example = text-IsPartOf span span-accepted

post_init-IsChronological_example :
    IsChronological context.messages × All (Belongs context) context.messages
post_init-IsChronological_example = post_init-IsChronological context context-accepted
