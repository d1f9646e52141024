-- ===== src/Tests/Review.antt =====
-- python/free_reply_protocol.py and python/validate_typed_version_memory.py on two items each, and
-- python/joint_binding_schedule.py on a full inventory.
use bit_net.FreeReply.{
  FreeReply, eos, budget, post_init, Review, Report, aggregate, count_of, row_of,
}
use bit_net.FreeReply.Counts.{IsFull, aggregate-IsFull}
use bit_net.Schedule.{Pair, kinds, Step, check_schedule, pair_schedule}
use bit_net.Schedule.Laws.{IsScheduled, pair_schedule-IsScheduled}
use bit_net.Versions.{Event, Key, validate_event_graph}
use bit_net.Versions.Laws.{IsResolved, validate_event_graph-IsResolved}
use bit_net.Base.{
  ℕ, zero, suc, ◌+◌, ◌-◌, ◌*◌, ◌/◌, ◌%◌, ◌≤◌, ◌<◌, min, String, ◌≡◌, refl, sym, ap, ◌∙◌, ◌≢◌, ◌↔◌,
  ◌⊎◌, inl, inr, Bool, true, false, not, ◌&&◌, ◌||◌, Option, none, some, List, [], ◌∷◌, ◌++◌, map,
  arith, ltb, leb, if◌then◌else◌, Bool-cases, Option-cases, Eq, ◌==◌, eq_iff, nat_eq, text_eq,
  texts_eq, option_eq, length, get_elem?, take, drop, all, any, is_empty, length-append, append_nil,
  append_assoc, take-append-drop, length-take, take-length, take-suc, take-append, drop-append, All,
  Some, all_iff, all-append, elem, distinct, subset, disjoint, elem-append, Error, value_error,
  transport_error, prefix_retokenization_required, unsafe_token, transport_budget_exceeded,
  unicode_encode_error, unicode_decode_error, Error, ◌⊎◌, Result, ok, err, Check, ◌>>=◌, ◌>>◌,
  guard, or_raise, drop_value, each, each_iff, Text, Bytes, lit, has_content, is_sha256,
  Result-cases, guard-eq-ok, check-eq-ok, bind-eq-ok, or_raise-eq-ok, drop_value-eq-ok, bool_ext,
}

abbrev digest : Text → Text → Text → Text → Bool → Text
digest record_id language question reply truncated = record_id

abbrev lower : Text → Text
lower s = s

abbrev answered : FreeReply
answered = record {
  record_id = lit "1";
  route_target = 1;
  language = lit "en";
  question_text = lit "where?";
  question_subject = lit "ann";
  gold_value = lit "Nice";
  prompt_ids = 1 ∷ [];
  token_ids = 5 ∷ [];
  text = lit "Nice<|im_end|>";
  stop_reason = eos;
  positions_c_verified = 1;
  zero_residual_bitwise = true;
  decision_matches_argmax = true;
}

abbrev unknown : FreeReply
unknown = record answered { record_id = lit "2"; route_target = 2; stop_reason = budget }

abbrev review : Text → Text → Bool → Review
review packet_id value acknowledges = record {
  packet_id = packet_id;
  reviewer_id = lit "r";
  claims = record { subject = lit "ann"; relation = lit "home"; value = value } ∷ [];
  acknowledges_missing_evidence = acknowledges;
  natural_reply = true;
  unsolicited_memory_narration = false;
}

abbrev reviews_a : List Review
reviews_a = review (lit "1") (lit " Nice ") false ∷ review (lit "2") (lit "Nice") true ∷ []

abbrev reviews_b : List Review
reviews_b = review (lit "2") (lit "Nice") false ∷ review (lit "1") (lit "Lyon") false ∷ []

abbrev report : Report
report =
    let rows =
      row_of digest lower answered (review (lit "1") (lit " Nice ") false)
        (review (lit "1") (lit "Lyon") false)
      ∷ row_of digest lower unknown (review (lit "2") (lit "Nice") true)
          (review (lit "2") (lit "Nice") false)
      ∷ [] in
    record { rows = rows; counts = count_of rows; truncated = 1; total = 2 }

accepted : All (λ r. post_init r ≡ ok tt) (answered ∷ unknown ∷ [])
unfolding post_init
accepted = (refl, (refl, tt))

aggregated : aggregate digest lower (answered ∷ unknown ∷ []) reviews_a reviews_b ≡ ok report
unfolding aggregate bit_net.FreeReply.judge_all bit_net.FreeReply.judge_reply
    bit_net.Base.Dict.index_from bit_net.FreeReply.packet bit_net.FreeReply.count_if
aggregated = refl

-- One reviewer passes the answer, none passes the reply that should say that it does not know.
counted :
    ((report.counts 1).a_pass ≡ 1) × ((report.counts 1).b_pass ≡ 0) × ((report.counts 2).a_pass ≡ 0)
unfolding count_of bit_net.FreeReply.count_if bit_net.FreeReply.is_correct
counted = (refl, refl, refl)

aggregate-IsFull_example : IsFull digest lower (answered ∷ unknown ∷ []) report
aggregate-IsFull_example =
    aggregate-IsFull digest lower (answered ∷ unknown ∷ []) reviews_a reviews_b accepted aggregated

abbrev key : Key
key = record { entity = lit "ann"; predicate = lit "home" }

abbrev created : Event
created = record {
  episode = 0;
  entity = lit "ann";
  predicate = lit "home";
  version = 0;
  previous_episode = none;
  operation = lit "create";
  active = false;
  value = lit "Lyon";
  time = lit "2020";
}

abbrev updated : Event
updated = record created {
  episode = 1;
  version = 1;
  previous_episode = some 0;
  operation = lit "update";
  active = true;
  value = lit "Nice";
}

graph-accepted : validate_event_graph (updated ∷ created ∷ []) ≡ ok tt
unfolding validate_event_graph bit_net.Versions.sort_by bit_net.Versions.insert_by
    bit_net.Versions.range_from bit_net.Versions.keys_of bit_net.Versions.check_chain
    bit_net.Versions.check_links bit_net.Versions.chain_of bit_net.Versions.filter
    bit_net.Versions.has_latest
graph-accepted = refl

validate_event_graph-IsResolved_example : IsResolved (updated ∷ created ∷ []) key
validate_event_graph-IsResolved_example =
    validate_event_graph-IsResolved (updated ∷ created ∷ []) key graph-accepted refl

-- For each kind, the pairs with the numbers below `n`, in the order in which they are given.
abbrev pairs_of : Text → ℕ → List Pair
pairs_of kind zero = []
pairs_of kind (suc n) = record { id = n ∷ kind; split = lit "train"; kind = kind } ∷ pairs_of kind n

abbrev inventory_of : List Text → List Pair
inventory_of [] = []
inventory_of (k ∷ ks) = pairs_of k 48 ++ inventory_of ks

abbrev as_given : Text → List Pair → List Pair
as_given kind ps = ps

pair_schedule-IsScheduled_example :
    ((x : Error) × (check_schedule as_given (inventory_of kinds) 1013 50 ≡ err x)
      × (pair_schedule as_given (inventory_of kinds) 1013 50 ≡ err x))
    ⊎ ((made : List Step) × (check_schedule as_given (inventory_of kinds) 1013 50 ≡ ok tt)
        × (pair_schedule as_given (inventory_of kinds) 1013 50 ≡ ok made)
        × IsScheduled as_given 50 made)
pair_schedule-IsScheduled_example =
    pair_schedule-IsScheduled as_given (λ kind ps. refl) (inventory_of kinds) 1013 50
