-- ===== src/Contract/Operation.antt =====
-- `Operation` and `WriteOperation` of python/neural_memory_contract.py.
use bit_net.Contract.Values.{require, identifier}
use bit_net.Contract.Episode.{Episode}
use bit_net.Base.{
  Bool, true, false, not, ◌&&◌, Option, none, some, List, nat_eq, text_eq, option_eq, is_empty,
  distinct, Check, ◌>>◌, each, Text,
}

pub data Operation : Type 0 where
  append replace coexist retract : Operation

pub record WriteOperation : Type 0 where
  pub operation : Operation
  pub candidate : Option Episode
  pub target_ids : List Text

-- `candidate is None`
abbrev pub is_none : Option Episode → Bool
is_none none = true
is_none (some e) = false

-- `type(candidate) is Episode and not candidate.retracted`
abbrev pub is_live : Option Episode → Bool
is_live none = false
is_live (some e) = not e.retracted

abbrev pub check_shape : Operation → Option Episode → List Text → Check
check_shape retract candidate target_ids =
    require (is_none candidate && not (is_empty target_ids)) "retraction needs only targets"
check_shape append candidate target_ids = do
  require (is_live candidate) "live candidate required"
  require (is_empty target_ids) "append must not replace an event"
check_shape _ candidate target_ids = do
  require (is_live candidate) "live candidate required"
  require (not (is_empty target_ids)) "directed relation needs targets"

-- `__post_init__`
unfoldable pub post_init : WriteOperation → Check
post_init w = do
  each identifier w.target_ids
  require (distinct w.target_ids) "duplicate target"
  check_shape w.operation w.candidate w.target_ids
