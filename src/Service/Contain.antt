-- ===== src/Service/Contain.antt =====
-- `ContainmentService.contain`: the durable fence is attempted first, the live runtime is contained
-- whatever became of it, and the incident, the audit entry and the events follow.
use agent_containment.Base.{
  ℕ, ◌+◌, String, not, Option, none, some, if◌then◌else◌, is_some, pos, Exc, Result, ok, raised,
  raise, value_error,
}
use agent_containment.Base.Dict.{insert}
use agent_containment.Runtime.{Ref}
use agent_containment.Fences
use agent_containment.Fences.{FenceRecord, FenceRegistry}
use agent_containment.Incidents
use agent_containment.Incidents.{
  IncidentRecord, IncidentRegistry, record_containment, mark_proof_degraded,
}
use agent_containment.Containment
use agent_containment.Containment.{
  Controller, ContainmentReport, certified, complete, with_persistence_failure,
}
use agent_containment.Service.{
  Env, Service, ManagedAgent, GovernanceEvent, emit, unnamed, managed, unknown_agent,
  revoke_identity, failed_by, failure_of, incident_id_of,
}

-- What `contain` has when the durable evidence of the fence and of the incident was attempted.
pub record Recorded (W : Type 0) : Type 0 where
  pub report : ContainmentReport
  pub controller : Controller W
  pub incident_id : String
  pub fence_reply : Result FenceRecord
  pub fences : FenceRegistry
  pub incident_reply : Result IncidentRecord
  pub incidents : IncidentRegistry
  pub world : W

abbrev pub event_of : String → String → String → ℕ → GovernanceEvent
event_of type agent_id incident_id epoch = record {
  event_type = type;
  agent_id = agent_id;
  incident_id = some incident_id;
  containment_epoch = some epoch;
}

abbrev pub noted : Option String → ContainmentReport → Result ContainmentReport
noted none report = ok report
noted (some failure) report = with_persistence_failure failure report

unfoldable pub as_unit :
    Result IncidentRecord × IncidentRegistry → Result (Unit {0}) × IncidentRegistry
as_unit (ok _, i) = (ok tt, i)
as_unit (raised y, i) = (raised y, i)

module _ {W : Type 0} (env : Env W) where
  -- `fences.prepare`, with the disk asked whether its write fails.
  unfoldable pub prepare_fence :
      String → ℕ → FenceRegistry → W → (Result FenceRecord × FenceRegistry) × W
  prepare_fence agent_id epoch fences w =
      let (failure, w') = env.disk w in (Fences.prepare failure agent_id (pos epoch) fences, w')

  unfoldable pub record_incident :
      String → String → ℕ → IncidentRegistry → W → (Result IncidentRecord × IncidentRegistry) × W
  record_incident incident_id agent_id epoch incidents w =
      let (failure, w1) = env.disk w in
      let (now, w2) = env.time w1 in
      (
        record_containment failure now incident_id agent_id (pos epoch)
            (some "controller containment requested") incidents,
        w2,
      )

  -- From the runtime fence to the incident; `fence` is what became of the durable fence.
  unfoldable pub recorded :
      Ref
      → String
      → ManagedAgent W
      → IncidentRegistry
      → (Result FenceRecord × FenceRegistry) × W
      → Recorded W
  unfolding record_incident
  recorded fresh agent_id m incidents ((fence_reply, fences), w) =
      let next = m.containment.runtime.epoch + 1 in
      let id = incident_id_of agent_id next in
      let w1 = emit env (event_of "containment_requested" agent_id id next) w in
      let ((report, c), w2) = Containment.contain env.clock fresh m.containment w1 in
      let w3 = emit env (event_of "capability_revoked" agent_id id report.epoch) w2 in
      let ((reply, incidents'), w4) = record_incident id agent_id report.epoch incidents w3 in
      record {
        report = report;
        controller = c;
        incident_id = id;
        fence_reply = fence_reply;
        fences = fences;
        incident_reply = reply;
        incidents = incidents';
        world = w4;
      }

  -- The handler of a failed audit: the incident, if it is there, is marked degraded. What that call
  -- raises leaves `contain`.
  unfoldable pub degrade :
      String → Exc → IncidentRegistry → W → (Result (Unit {0}) × IncidentRegistry) × W
  degrade incident_id x incidents w =
      if not (is_some (Incidents.get incident_id incidents))
      then ((ok tt, incidents), w)
      else (let (failure, w') = env.disk w in
          (
            as_unit (
                mark_proof_degraded failure incident_id
                  (failed_by "audit persistence unavailable: " x) incidents),
            w',
          ))

  unfoldable pub after_audit :
      String → IncidentRegistry → Result (Unit {0}) × W → (Result (Unit {0}) × IncidentRegistry) × W
  unfolding degrade
  after_audit incident_id incidents (ok _, w) = ((ok tt, incidents), w)
  after_audit incident_id incidents (raised x, w) = degrade incident_id x incidents w

  -- The audit entry of the containment.
  unfoldable pub audited :
      String → String → IncidentRegistry → W → (Result (Unit {0}) × IncidentRegistry) × W
  unfolding after_audit
  audited agent_id incident_id incidents w = elim env.audit [
    | none ↦ ((ok tt, incidents), w)
    | some f ↦ after_audit incident_id incidents (
        f
          (record {
            event_type = "containment";
            agent_id = agent_id;
            reason = "controller containment requested";
          })
          w)
  ]

  -- The report with what persistence failed, and the events that tell of it.
  unfoldable pub concluded :
      String → String → Option String → Result ContainmentReport → W → Result ContainmentReport × W
  concluded agent_id id incident_failure (raised x) w = (raised x, w)
  concluded agent_id id (some failure) (ok report) w = (
    with_persistence_failure failure report,
    emit env (event_of "containment_proof_degraded" agent_id id report.epoch) w,
  )
  concluded agent_id id none (ok report) w = (
    ok report,
    emit env
        (event_of
          (if certified report then "containment_certified" else "containment_verification_failed")
          agent_id id report.epoch)
        w,
  )

  unfoldable pub reported :
      String → Recorded W → Result (Unit {0}) → W → Result ContainmentReport × W
  unfolding concluded
  reported agent_id r (raised x) w = (raised x, w)
  reported agent_id r (ok _) w =
      concluded agent_id r.incident_id
        (failure_of "incident persistence unavailable: " r.incident_reply)
        (noted (failure_of "durable fence persistence unavailable: " r.fence_reply) r.report)
        (emit env (event_of "containment_enforced" agent_id r.incident_id r.report.epoch) w)

  -- The rest of `contain`, and the service that it leaves.
  unfoldable pub finished :
      String → ManagedAgent W → Service W → Recorded W → Result ContainmentReport × Service W
  unfolding audited reported
  finished agent_id m s r =
      let ((audit_reply, incidents), w) = audited agent_id r.incident_id r.incidents r.world in
      let (reply, w') = reported agent_id r audit_reply w in
      (
        reply,
        record {
          agents =
              insert agent_id (revoke_identity (record m { containment = r.controller })) s.agents;
          incidents = incidents;
          fences = r.fences;
          world = w';
        },
      )

  unfoldable pub contain_managed :
      Ref → String → ManagedAgent W → Service W → Result ContainmentReport × Service W
  unfolding prepare_fence recorded finished
  contain_managed fresh agent_id m s =
      let fence = prepare_fence agent_id (m.containment.runtime.epoch + 1) s.fences s.world in
      if unnamed env agent_id
      then (
        raise value_error "event_id, event_type, and agent_id must be non-empty",
        record s { fences = fence.0.1; world = fence.1 },
      )
      else finished agent_id m s (recorded fresh agent_id m s.incidents fence)

  unfoldable pub contain : Ref → String → Service W → Result ContainmentReport × Service W
  unfolding contain_managed
  contain fresh agent_id s = elim (managed agent_id s) [
    | none ↦ (unknown_agent agent_id, s)
    | some m ↦ contain_managed fresh agent_id m s
  ]
