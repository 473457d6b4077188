-- ===== src/Service/Admission.antt =====
-- The guards of a recovery, and `reconcile_containment` and `issue_recovery_authorization` of
-- `ContainmentService`.
use agent_containment.Base.{
  ℕ, String, Bool, true, false, not, Option, none, some, List, [], ◌∷◌, if◌then◌else◌, ◌==◌, ◌=s◌,
  Result, ok, raised, raise, runtime_error, permission_error, concat,
}
use agent_containment.Runtime.{Ref, Runtime, is_contained}
use agent_containment.Fences
use agent_containment.Fences.{FenceRecord, FenceRegistry}
use agent_containment.Incidents.{IncidentRecord, IncidentRegistry, latest_for_agent}
use agent_containment.Containment.{joined, recontain_enforcers}
use agent_containment.Service.{
  Env, Service, ManagedAgent, RecoveryAuthorization, emit, managed, unknown_agent,
  recoverable_incident,
}
use agent_containment.Service.Contain.{event_of}

-- `a is b` of two capabilities.
abbrev pub same_capability : Option Ref → Option Ref → Bool
same_capability none none = true
same_capability (some a) (some b) = a == b
same_capability _ _ = false

unfoldable pub recoverable_reply : Result (Option IncidentRecord) → Result IncidentRecord
recoverable_reply (raised x) = raised x
recoverable_reply (ok o) = elim (recoverable_incident o) [
  | none ↦ raise runtime_error "agent has no durably recoverable containment incident"
  | some i ↦ ok i
]

-- The latest incident, which has to be contained or degraded.
unfoldable pub recoverable_of : String → IncidentRegistry → Result IncidentRecord
unfolding recoverable_reply
recoverable_of agent_id incidents = recoverable_reply (latest_for_agent agent_id incidents)

-- The last guards of all three methods: the runtime is contained at the incident's epoch.
unfoldable pub runtime_at : Runtime → Result IncidentRecord → Result IncidentRecord
runtime_at r (raised x) = raised x
runtime_at r (ok i) =
    if not (is_contained r.state)
    then raise runtime_error "runtime is not contained"
    else if not (r.epoch == i.containment_epoch)
    then raise runtime_error "runtime epoch does not match durable containment"
    else ok i

fence_at : Option FenceRecord → Result IncidentRecord → Result IncidentRecord
fence_at fence (raised x) = raised x
fence_at none (ok i) = raise runtime_error "agent has no durable containment fence"
fence_at (some f) (ok i) =
    if not (f.containment_epoch == i.containment_epoch)
    then raise runtime_error "durable fence epoch does not match containment incident"
    else ok i

unfoldable pub authorized_at : ℕ → Result IncidentRecord → Result IncidentRecord
authorized_at epoch (raised x) = raised x
authorized_at epoch (ok i) =
    if not (epoch == i.containment_epoch)
    then raise permission_error "recovery authorization epoch is stale"
    else ok i

module _ {W : Type 0} where
  -- The guards of `recover`, in their order: the incident that is to be recovered.
  unfoldable pub admission :
      String → RecoveryAuthorization → ManagedAgent W → IncidentRegistry → Result IncidentRecord
  unfolding authorized_at
  admission agent_id authorization m incidents =
      if not (authorization.agent_id =s agent_id)
      then raise permission_error "recovery authorization is bound to another agent"
      else if not (same_capability authorization.capability m.recovery_capability)
      then raise permission_error "recovery authorization is stale"
      else runtime_at m.containment.runtime
          (authorized_at authorization.containment_epoch (recoverable_of agent_id incidents))

  recontained :
      ManagedAgent W → Service W → Result IncidentRecord → Result (List String) × Service W
  recontained m s (raised x) = (raised x, s)
  recontained m s (ok i) =
      let (failures, w) =
        recontain_enforcers m.containment.runtime.agent_id m.containment.enforcers s.world in
      (ok failures, record s { world = w })

  unfoldable pub reconcile_containment : String → Service W → Result (List String) × Service W
  unfolding recontained fence_at
  reconcile_containment agent_id s = elim (managed agent_id s) [
    | none ↦ (unknown_agent agent_id, s)
    | some m ↦ recontained m s (
        runtime_at m.containment.runtime
          (fence_at (Fences.get agent_id s.fences) (recoverable_of agent_id s.incidents)))
  ]

  authorization_of :
      Env W
      → String
      → ManagedAgent W
      → IncidentRecord
      → Result (List String) × Service W
      → Result RecoveryAuthorization × Service W
  authorization_of env agent_id m i (raised x, s) = (raised x, s)
  authorization_of env agent_id m i (ok (f ∷ fs), s) = (
    raise runtime_error (
        concat (
          "recovery authorization blocked; containment reconciliation failed: " ∷ joined (f ∷ fs))),
    s,
  )
  authorization_of env agent_id m i (ok [], s) = (
    ok (record {
      agent_id = agent_id;
      containment_epoch = i.containment_epoch;
      capability = m.recovery_capability;
    }),
    record s {
      world =
          emit env (event_of "recovery_requested" agent_id i.incident_id i.containment_epoch)
            s.world;
    },
  )

  issued :
      Env W
      → String
      → ManagedAgent W
      → Service W
      → Result IncidentRecord
      → Result RecoveryAuthorization × Service W
  unfolding authorization_of
  issued env agent_id m s (raised x) = (raised x, s)
  issued env agent_id m s (ok i) =
      authorization_of env agent_id m i (reconcile_containment agent_id s)

  unfoldable pub issue_recovery_authorization :
      Env W → String → Service W → Result RecoveryAuthorization × Service W
  unfolding issued
  issue_recovery_authorization env agent_id s = elim (managed agent_id s) [
    | none ↦ (unknown_agent agent_id, s)
    | some m ↦
        issued env agent_id m s
          (runtime_at m.containment.runtime (recoverable_of agent_id s.incidents))
  ]
