-- ===== src/Incidents.antt =====
-- src/agent_containment/incident_state.py: the registry of incidents. Times are natural numbers,
-- of which only the order is used. The first argument of an operation that writes says whether the
-- write fails.
pub mod Changes
pub mod Lifecycle
pub mod Latest
pub mod Restart
pub mod Replies
mod Tests
use agent_containment.Base.{
  ℕ, ◌+◌, String, Bool, true, false, ◌||◌, not, Option, none, some, List, [], ◌∷◌, if◌then◌else◌,
  ◌=s◌, ltb, is_some, is_empty, ℤ, pos, negsuc, Exc, Result, ok, raised, raise, value_error,
  key_error, concat,
}
use agent_containment.Base.Dict.{Dict, lookup, insert}
use agent_containment.Durable.{Durable, File, commit, open_registry, values}

pub data IncidentState : Type 0 where
  opened contained proof_degraded recovered : IncidentState

-- `IncidentState.value`
abbrev pub state_value : IncidentState → String
state_value opened = "open"
state_value contained = "contained"
state_value proof_degraded = "proof_degraded"
state_value recovered = "recovered"

abbrev pub is_recovered : IncidentState → Bool
is_recovered recovered = true
is_recovered _ = false

-- `state in (CONTAINED, PROOF_DEGRADED)`
abbrev pub is_recoverable : IncidentState → Bool
is_recoverable contained = true
is_recoverable proof_degraded = true
is_recoverable _ = false

pub record IncidentRecord : Type 0 where
  pub incident_id : String
  pub agent_id : String
  pub state : IncidentState
  pub containment_epoch : ℕ
  pub created_at : ℕ
  pub proof_attached : Bool
  pub proof_reference : Option String
  pub reason : Option String
  pub proof_degraded_reason : Option String
  pub recovery_epoch : Option ℕ

abbrev pub incident_name : IncidentRecord → String
incident_name r = r.incident_id

abbrev pub IncidentRegistry : Type 0
IncidentRegistry = Durable IncidentRecord

-- `__init__` and `_load`
unfoldable pub open_incidents : Bool → File IncidentRecord → Result IncidentRegistry
open_incidents has_path file =
    open_registry incident_name "invalid incident registry: duplicate incident: " has_path file

unfoldable pub record_containment :
    Option Exc
    → ℕ
    → String
    → String
    → ℤ
    → Option String
    → IncidentRegistry
    → Result IncidentRecord × IncidentRegistry
record_containment failure now incident_id agent_id (negsuc _) reason s =
    if is_empty incident_id || is_empty agent_id
    then (raise value_error "incident_id and agent_id must be non-empty", s)
    else (raise value_error "containment_epoch must be non-negative", s)
record_containment failure now incident_id agent_id (pos epoch) reason s =
    if is_empty incident_id || is_empty agent_id
    then (raise value_error "incident_id and agent_id must be non-empty", s)
    else if is_some (lookup incident_id s.records)
    then (raise value_error (concat ("incident already exists: " ∷ incident_id ∷ [])), s)
    else (let r : IncidentRecord = record {
      incident_id = incident_id;
      agent_id = agent_id;
      state = contained;
      containment_epoch = epoch;
      created_at = now;
      proof_attached = false;
      proof_reference = none;
      reason = reason;
      proof_degraded_reason = none;
      recovery_epoch = none;
    } in
        commit failure (insert incident_id r s.records) r s)

-- `_require`, and the rest of the method on the record that it found.
require :
    String
    → (IncidentRecord → IncidentRegistry → Result IncidentRecord × IncidentRegistry)
    → IncidentRegistry
    → Result IncidentRecord × IncidentRegistry
require incident_id rest s = elim (lookup incident_id s.records) [
  | none ↦ (raise key_error (concat ("unknown incident: " ∷ incident_id ∷ [])), s)
  | some current ↦ rest current s
]

-- `candidate[incident_id] = updated`, persisted and put in place.
replace :
    Option Exc
    → String
    → IncidentRecord
    → IncidentRegistry
    → Result IncidentRecord × IncidentRegistry
replace failure incident_id updated s =
    commit failure (insert incident_id updated s.records) updated s

-- The updated record of `mark_proof_degraded`, which drops an attached proof.
unfoldable pub degraded : String → IncidentRecord → IncidentRecord
degraded reason current = record current {
  state = proof_degraded;
  proof_attached = false;
  proof_reference = none;
  proof_degraded_reason = some reason;
}

degrade_found :
    Option Exc
    → String
    → String
    → IncidentRecord
    → IncidentRegistry
    → Result IncidentRecord × IncidentRegistry
unfolding replace
degrade_found failure incident_id reason current s =
    replace failure incident_id (degraded reason current) s

unfoldable pub mark_proof_degraded :
    Option Exc → String → String → IncidentRegistry → Result IncidentRecord × IncidentRegistry
unfolding require degrade_found
mark_proof_degraded failure incident_id reason s =
    if is_empty reason
    then (raise value_error "reason must be non-empty", s)
    else require incident_id (degrade_found failure incident_id reason) s

-- The updated record of `restore_contained`.
abbrev pub rolled_back : IncidentRecord → IncidentRecord
rolled_back current = record current { state = contained }

restore_found :
    Option Exc
    → String
    → IncidentRecord
    → IncidentRegistry
    → Result IncidentRecord × IncidentRegistry
unfolding replace
restore_found failure incident_id current s =
    if not (is_recovered current.state)
    then (raise value_error "incident is not in recovered state", s)
    else replace failure incident_id (rolled_back current) s

unfoldable pub restore_contained :
    Option Exc → String → IncidentRegistry → Result IncidentRecord × IncidentRegistry
unfolding require restore_found
restore_contained failure incident_id s = require incident_id (restore_found failure incident_id) s

-- The updated record of `mark_recovered`.
abbrev pub admitted : IncidentRecord → IncidentRecord
admitted current = record current {
  state = recovered;
  recovery_epoch = some (current.containment_epoch + 1);
}

recover_found :
    Option Exc
    → String
    → IncidentRecord
    → IncidentRegistry
    → Result IncidentRecord × IncidentRegistry
unfolding replace
recover_found failure incident_id current s =
    if not (is_recoverable current.state)
    then (
      raise value_error
          (concat ("incident is not recoverable from state " ∷ state_value current.state ∷ [])),
      s,
    )
    else replace failure incident_id (admitted current) s

unfoldable pub mark_recovered :
    Option Exc → String → IncidentRegistry → Result IncidentRecord × IncidentRegistry
unfolding require recover_found
mark_recovered failure incident_id s = require incident_id (recover_found failure incident_id) s

-- The updated record of `attach_proof`.
abbrev pub proven : String → IncidentRecord → IncidentRecord
proven reference current = record current {
  state = contained;
  proof_attached = true;
  proof_reference = some reference;
}

attach_found :
    Option Exc
    → String
    → String
    → IncidentRecord
    → IncidentRegistry
    → Result IncidentRecord × IncidentRegistry
unfolding replace
attach_found failure incident_id reference current s =
    if is_recovered current.state
    then (raise value_error "cannot attach proof after recovery", s)
    else replace failure incident_id (proven reference current) s

unfoldable pub attach_proof :
    Option Exc → String → String → IncidentRegistry → Result IncidentRecord × IncidentRegistry
unfolding require attach_found
attach_proof failure incident_id reference s =
    if is_empty reference
    then (raise value_error "proof_reference must be non-empty", s)
    else require incident_id (attach_found failure incident_id reference) s

-- `[r for r in self._records.values() if r.agent_id == agent_id]`
unfoldable pub of_agent : String → List IncidentRecord → List IncidentRecord
of_agent agent_id [] = []
of_agent agent_id (r ∷ rs) =
    let rest : List IncidentRecord = of_agent agent_id rs in
    if r.agent_id =s agent_id then r ∷ rest else rest

-- `max(records, key=created_at)` keeps the first of several with the greatest time.
unfoldable pub max_from : IncidentRecord → List IncidentRecord → IncidentRecord
max_from best [] = best
max_from best (r ∷ rs) = max_from (if ltb best.created_at r.created_at then r else best) rs

unfoldable pub latest_of : List IncidentRecord → Option IncidentRecord
unfolding max_from
latest_of [] = none
latest_of (r ∷ rs) = some (max_from r rs)

unfoldable pub latest_for_agent : String → IncidentRegistry → Result (Option IncidentRecord)
latest_for_agent agent_id s =
    if is_empty agent_id
    then raise value_error "agent_id must be non-empty"
    else ok (latest_of (of_agent agent_id (values s.records)))

unfoldable pub get : String → IncidentRegistry → Option IncidentRecord
get incident_id s = lookup incident_id s.records

unfoldable pub all : IncidentRegistry → List IncidentRecord
all s = values s.records
