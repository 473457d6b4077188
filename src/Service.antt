-- ===== src/Service.antt =====
-- src/agent_containment/control.py: the service that owns the agents, their identities, the durable
-- registries and the recovery capability. This file has its state and what its methods share; the
-- methods are in the children. The runtime of a managed agent is that of its containment controller,
-- which registration makes the same object.
pub mod Contain
pub mod Admission
pub mod Guards
pub mod Recover
pub mod Repair
pub mod Register
pub mod Authorize
pub mod Authorized
pub mod Registered
pub mod Fencing
pub mod Recovery
pub mod Completion
pub mod Workloads
pub mod Identities
pub mod Reviews
pub mod Later
pub mod Lifecycle
pub mod Verified
pub mod Escalation
mod Tests
use agent_containment.Base.{
  ℕ, String, Bool, true, false, Option, none, some, List, [], ◌∷◌, if◌then◌else◌, is_empty, Exc,
  Result, ok, raised, raise, key_error, value_error, runtime_error, type_name, concat, decimal,
}
use agent_containment.Base.Dict.{Dict, lookup, insert}
use agent_containment.Runtime.{Ref, Runtime, RuntimeState}
use agent_containment.Policy.{PolicyEngine}
use agent_containment.Fences.{FenceRegistry}
use agent_containment.Incidents.{IncidentRegistry, IncidentRecord, is_recoverable}
use agent_containment.Containment.{Controller, Clock, ContainmentReport}

pub record RecoveryAuthorization : Type 0 where
  pub agent_id : String
  pub containment_epoch : ℕ
  pub capability : Option Ref

pub record ManagedAgent (W : Type 0) : Type 0 where
  pub containment : Controller W
  pub policy : PolicyEngine
  pub identity_digest : Option String
  pub identity_pid : Option ℕ
  pub identity_cgroup : Option String
  pub recovery_capability : Option Ref

-- An entry of the audit log, without its chain fields.
pub record AuditEntry : Type 0 where
  pub event_type : String
  pub agent_id : String
  pub reason : String

-- A governance event, without its random id, its time and its attributes.
pub record GovernanceEvent : Type 0 where
  pub event_type : String
  pub agent_id : String
  pub incident_id : Option String
  pub containment_epoch : Option ℕ

-- What the service calls outside of its state: the clocks, the disk, which says whether the next
-- write of a registry fails, and the audit log and the event sink, where they are configured.
pub record Env (W : Type 0) : Type 0 where
  pub clock : Clock W
  pub time : W → ℕ × W
  pub disk : W → Option Exc × W
  pub audit : Option (AuditEntry → W → Result (Unit {0}) × W)
  pub sink : Option (GovernanceEvent → W → Result (Unit {0}) × W)

-- The service beside the outside world.
pub record Service (W : Type 0) : Type 0 where
  pub agents : Dict (ManagedAgent W)
  pub incidents : IncidentRegistry
  pub fences : FenceRegistry
  pub world : W

-- `f"{type(exc).__name__}: {exc}"` after a text.
unfoldable pub failed_by : String → Exc → String
failed_by what x = concat (what ∷ type_name x.kind ∷ ": " ∷ x.message ∷ [])

-- `except Exception as exc: failure = f"{what}{type}: {exc}"`
unfoldable pub failure_of {ℓ} : {A : Type ℓ} → String → Result A → Option String
failure_of what (ok _) = none
failure_of what (raised x) = some (failed_by what x)

unfoldable pub incident_id_of : String → ℕ → String
incident_id_of agent_id epoch = concat (agent_id ∷ ":containment:" ∷ decimal epoch ∷ [])

-- `state in (CONTAINED, PROOF_DEGRADED)` of an incident that there may not be.
abbrev pub recoverable_incident : Option IncidentRecord → Option IncidentRecord
recoverable_incident none = none
recoverable_incident (some i) = if is_recoverable i.state then some i else none

abbrev pub unknown_agent {ℓ} : {A : Type ℓ} → String → Result A
unknown_agent agent_id = raise key_error (concat ("unknown agent: " ∷ agent_id ∷ []))

module _ {W : Type 0} where
  -- `_revoke_identity`
  abbrev pub revoke_identity : ManagedAgent W → ManagedAgent W
  revoke_identity m = record m { identity_digest = none; identity_pid = none }

  -- A call of the audit log whose exceptions are swallowed.
  unfoldable pub quiet_audit : Env W → AuditEntry → W → W
  quiet_audit env e w = elim env.audit [ none ↦ w | some f ↦ (f e w).1 ]

  -- `_emit_event` of an event that names an agent, which raises nothing. When the sink raises, the
  -- call that should tell the audit log of it gives `event_type` twice, once by position, which
  -- Python refuses before the log is reached, and the exception is swallowed.
  unfoldable pub emit : Env W → GovernanceEvent → W → W
  emit env e w = elim env.sink [ none ↦ w | some f ↦ (f e w).1 ]

  -- `GovernanceEvent.create` refuses an event without an agent.
  unfoldable pub unnamed : Env W → String → Bool
  unnamed env agent_id = elim env.sink [ none ↦ false | some _ ↦ is_empty agent_id ]

  -- `_managed`
  abbrev pub managed : String → Service W → Option (ManagedAgent W)
  managed agent_id s = lookup agent_id s.agents

  -- `report`
  unfoldable pub report : String → Service W → Result (Option ContainmentReport)
  report agent_id s = elim (managed agent_id s) [
    | none ↦ unknown_agent agent_id
    | some m ↦ ok m.containment.last_report
  ]

  -- `snapshot`
  unfoldable pub states : Dict (ManagedAgent W) → Dict RuntimeState
  states [] = []
  states ((agent_id, m) ∷ agents) = (agent_id, m.containment.runtime.state) ∷ states agents
