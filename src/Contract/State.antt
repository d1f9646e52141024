-- ===== src/Contract/State.antt =====
-- `MemoryState` of python/neural_memory_contract.py.
use bit_net.Contract.Values.{ModelBinding, require, identifier, integer}
use bit_net.Contract.Episode.{Episode}
use bit_net.Base.{ℕ, List, map, ◌==◌, nat_eq, text_eq, option_eq, all, distinct, Check, ◌>>◌, Text}

pub record MemoryState : Type 0 where
  pub scope : Text
  pub revision : ℕ
  pub binding : ModelBinding
  pub episodes : List Episode

-- `__post_init__`
unfoldable pub post_init : MemoryState → Check
post_init s = do
  identifier s.scope
  integer s.revision 0
  require (all (λ e. e.scope == s.scope) s.episodes) "cross-scope memory"
  require (distinct (map (λ e. e.event_id) s.episodes)) "duplicate event id"
