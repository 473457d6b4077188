-- ===== src/Fences.antt =====
-- src/agent_containment/runtime_fence.py: the durable fences that tell a restarted controller to
-- fail closed. The first argument of an operation that writes says whether the write fails.
pub mod Restart
mod Tests
use agent_containment.Base.{
  ℕ, String, Bool, Option, none, some, if◌then◌else◌, is_some, is_empty, not, ℤ, pos, negsuc, Exc,
  Result, ok, raise, value_error,
}
use agent_containment.Base.Dict.{lookup, insert, erase}
use agent_containment.Durable.{Durable, File, commit, open_registry}

pub record FenceRecord : Type 0 where
  pub agent_id : String
  pub containment_epoch : ℕ

abbrev pub fence_name : FenceRecord → String
fence_name r = r.agent_id

abbrev pub FenceRegistry : Type 0
FenceRegistry = Durable FenceRecord

-- `__init__` and `_load`
unfoldable pub open_fences : Bool → File FenceRecord → Result FenceRegistry
open_fences has_path file =
    open_registry fence_name "invalid runtime fence registry: duplicate runtime fence: " has_path
      file

unfoldable pub prepare :
    Option Exc → String → ℤ → FenceRegistry → Result FenceRecord × FenceRegistry
prepare failure agent_id (negsuc _) s =
    if is_empty agent_id
    then (raise value_error "agent_id must be non-empty", s)
    else (raise value_error "containment_epoch must be non-negative", s)
prepare failure agent_id (pos epoch) s =
    if is_empty agent_id
    then (raise value_error "agent_id must be non-empty", s)
    else (let r : FenceRecord = record { agent_id = agent_id; containment_epoch = epoch } in
        commit failure (insert agent_id r s.records) r s)

unfoldable pub get : String → FenceRegistry → Option FenceRecord
get agent_id s = lookup agent_id s.records

unfoldable pub clear : Option Exc → String → FenceRegistry → Result (Unit {0}) × FenceRegistry
clear failure agent_id s =
    if not (is_some (lookup agent_id s.records))
    then (ok tt, s)
    else commit failure (erase agent_id s.records) tt s
