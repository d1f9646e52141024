-- ===== src/Contract/Episode.antt =====
-- `Episode` of python/neural_memory_contract.py.
use bit_net.Contract.Values.{require, identifier, integer}
use bit_net.Contract.Span.{SourceSpan, span_eq}
use bit_net.Base.{
  ℕ, Bool, not, Option, none, some, List, leb, ◌==◌, nat_eq, text_eq, option_eq, is_empty, ok,
  Check, ◌>>◌, each, Text,
}

pub data FactStatus : Type 0 where
  actual negated hypothetical quoted unknown : FactStatus

pub record Episode : Type 0 where
  pub event_id : Text
  pub scope : Text
  pub sources : List SourceSpan
  pub learned_at_ms : ℕ
  pub event_time : Option Text
  pub fact_status : FactStatus
  pub retracted : Bool

abbrev pub check_source : Episode → SourceSpan → Check
check_source e span = do
  require (span.message.scope == e.scope) "cross-scope episode"
  require (leb span.message.observed_at_ms e.learned_at_ms) "future episode source"

-- `__post_init__`
unfoldable pub post_init : Episode → Check
post_init e = do
  identifier e.event_id
  identifier e.scope
  integer e.learned_at_ms 0
  require (not (is_empty e.sources)) "episode must retain provenance"
  elim e.event_time [ none ↦ ok tt | some t ↦ identifier t ]
  each (check_source e) e.sources
