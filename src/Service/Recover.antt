-- ===== src/Service/Recover.antt =====
-- `ContainmentService.recover`: it clears the durable fence, releases the enforcers, persists the
-- recovered incident and only then activates the runtime; each step that fails undoes what came
-- before it.
use agent_containment.Base.{
  ℕ, String, not, Option, none, some, List, [], ◌∷◌, ◌++◌, if◌then◌else◌, pos, Exc, Result, ok,
  raised, raise, runtime_error, permission_error, is_os_error, concat,
}
use agent_containment.Base.Dict.{insert}
use agent_containment.Runtime
use agent_containment.Runtime.{Ref, Runtime, is_contained, rotate_recovery_capability}
use agent_containment.Fences
use agent_containment.Fences.{FenceRecord, FenceRegistry}
use agent_containment.Incidents
use agent_containment.Incidents.{
  IncidentRecord, IncidentRegistry, is_recovered, latest_for_agent, mark_recovered,
}
use agent_containment.Containment.{joined, recontain_enforcers, release_enforcers}
use agent_containment.Service.{
  Env, Service, ManagedAgent, RecoveryAuthorization, emit, managed, unknown_agent, quiet_audit,
  failure_of,
}
use agent_containment.Service.Contain.{event_of, prepare_fence}
use agent_containment.Service.Admission.{admission}

-- What `recover` lists of a compensation that failed.
abbrev listed : Option String → List String
listed none = []
listed (some failure) = failure ∷ []

-- `raise`, or a `RuntimeError` that lists what could not be compensated.
abbrev pub reraised : String → Exc → List String → Result ℕ
reraised what x [] = raised x
reraised what x (f ∷ fs) = raise runtime_error (concat (what ∷ joined (f ∷ fs)))

-- `runtime.recover(managed.recovery_capability, epoch)`
unfoldable pub recover_with : Option Ref → ℕ → Ref → Runtime → Result ℕ × Runtime
recover_with none epoch fresh r =
    (raise permission_error "recovery requires current controller authorization", r)
recover_with (some capability) epoch fresh r = Runtime.recover capability (pos epoch) fresh r

module _ {W : Type 0} where
  -- `fences.prepare` as compensation: what it raises is reported by the caller or dropped.
  unfoldable pub restore_fence : Env W → String → ℕ → Service W → Option String × Service W
  restore_fence env agent_id epoch s =
      let ((reply, fences), w) = prepare_fence env agent_id epoch s.fences s.world in
      (
        failure_of "durable fence restoration failed: " reply,
        record s { fences = fences; world = w },
      )

  unfoldable pub restore_incident : Env W → String → Service W → Option String × Service W
  restore_incident env incident_id s =
      let (failure, w) = env.disk s.world in
      let (reply, incidents) = Incidents.restore_contained failure incident_id s.incidents in
      (failure_of "incident rollback failed: " reply, record s { incidents = incidents; world = w })

  recontain : ManagedAgent W → Service W → List String × Service W
  recontain m s =
      let (failures, w) =
        recontain_enforcers m.containment.runtime.agent_id m.containment.enforcers s.world in
      (failures, record s { world = w })

  -- The rollback of the incident if the failed write made it recovered all the same.
  unfoldable pub rolled_back :
      Env W → Result (Option IncidentRecord) → Service W → Result (Option String) × Service W
  unfolding restore_incident
  rolled_back env (raised x) s = (raised x, s)
  rolled_back env (ok none) s = (ok none, s)
  rolled_back env (ok (some i)) s =
      if is_recovered i.state
      then (let (f, s') = restore_incident env i.incident_id s in (ok f, s'))
      else (ok none, s)

  unfoldable pub uncommitted :
      ManagedAgent W
      → Exc
      → Option String
      → Result (Option String) × Service W
      → Result ℕ × Service W
  unfolding recontain
  uncommitted m x fence (raised y, s) = (raised y, s)
  uncommitted m x fence (ok incident, s) =
      let (failures, s') = recontain m s in
      (
        reraised
            "recovery aborted after incident persistence failure; runtime remains contained; compensation failures: "
            x (listed fence ++ (listed incident ++ failures)),
        s',
      )

  -- `mark_recovered` raised: an `OSError` is compensated, anything else goes to the caller.
  unfoldable pub not_committed :
      Env W → String → ManagedAgent W → IncidentRecord → Exc → Service W → Result ℕ × Service W
  unfolding restore_fence rolled_back uncommitted
  not_committed env agent_id m i x s =
      if not (is_os_error x.kind)
      then (raised x, s)
      else (let (fence, s1) = restore_fence env agent_id i.containment_epoch s in
          uncommitted m x fence (rolled_back env (latest_for_agent agent_id s1.incidents) s1))

  -- The runtime refused: the fence, the incident and the enforcers are contained again.
  unfoldable pub not_activated :
      Env W → String → ManagedAgent W → IncidentRecord → Exc → Service W → Result ℕ × Service W
  unfolding restore_fence restore_incident recontain
  not_activated env agent_id m i x s =
      let (fence, s1) = restore_fence env agent_id i.containment_epoch s in
      let (incident, s2) = restore_incident env i.incident_id s1 in
      let (failures, s3) = recontain m s2 in
      (
        reraised "runtime activation failed; runtime remains contained; compensation failures: " x
            (listed fence ++ (listed incident ++ failures)),
        s3,
      )

  -- The runtime is active: a fresh recovery capability, the audit entry and the event.
  unfoldable pub activated :
      Env W
      → Ref
      → String
      → ManagedAgent W
      → IncidentRecord
      → Service W
      → Result ℕ × Runtime
      → Result ℕ × Service W
  unfolding not_activated
  activated env capability agent_id m i s (raised x, r) = not_activated env agent_id m i x s
  activated env capability agent_id m i s (ok n, r) =
      let (fresh, r') = rotate_recovery_capability capability r in
      (
        ok n,
        record s {
          agents =
              insert agent_id
                (record m {
                  containment = record m.containment { runtime = r' };
                  recovery_capability = some fresh;
                })
                s.agents;
          world =
              emit env (event_of "recovery_completed" agent_id i.incident_id i.containment_epoch) (
                quiet_audit env
                  (record {
                    event_type = "recovery";
                    agent_id = agent_id;
                    reason = "controller recovery authorization accepted";
                  })
                  s.world);
        },
      )

  unfoldable pub committed :
      Env W
      → Ref
      → Ref
      → String
      → ManagedAgent W
      → IncidentRecord
      → Service W
      → Result IncidentRecord
      → Result ℕ × Service W
  unfolding not_committed activated recover_with
  committed env fresh capability agent_id m i s (raised x) = not_committed env agent_id m i x s
  committed env fresh capability agent_id m i s (ok _) =
      activated env capability agent_id m i s
        (recover_with m.recovery_capability i.containment_epoch fresh m.containment.runtime)

  -- The enforcers were asked to release.
  unfoldable pub after_release :
      Env W
      → Ref
      → Ref
      → String
      → ManagedAgent W
      → IncidentRecord
      → Service W
      → List String
      → Result ℕ × Service W
  unfolding restore_fence committed
  after_release env fresh capability agent_id m i s (f ∷ fs) = (
    raise runtime_error (
        concat (
          "external enforcement could not be released; runtime remains contained: "
          ∷ joined (f ∷ fs))),
    (restore_fence env agent_id i.containment_epoch s).1,
  )
  after_release env fresh capability agent_id m i s [] =
      let (failure, w) = env.disk s.world in
      let (reply, incidents) = mark_recovered failure i.incident_id s.incidents in
      committed env fresh capability agent_id m i (record s { incidents = incidents; world = w })
        reply

  -- The durable fence was asked to clear.
  unfoldable pub after_clear :
      Env W
      → Ref
      → Ref
      → String
      → ManagedAgent W
      → IncidentRecord
      → Service W
      → Result (Unit {0})
      → Result ℕ × Service W
  unfolding after_release
  after_clear env fresh capability agent_id m i s (raised x) = (
    raise runtime_error "durable recovery fence could not be cleared; runtime remains contained",
    s,
  )
  after_clear env fresh capability agent_id m i s (ok _) =
      let (failures, w) =
        release_enforcers m.containment.runtime.agent_id m.containment.enforcers s.world in
      after_release env fresh capability agent_id m i (record s { world = w }) failures

  unfoldable pub recover_admitted :
      Env W
      → Ref
      → Ref
      → String
      → ManagedAgent W
      → Service W
      → Result IncidentRecord
      → Result ℕ × Service W
  unfolding after_clear
  recover_admitted env fresh capability agent_id m s (raised x) = (raised x, s)
  recover_admitted env fresh capability agent_id m s (ok i) =
      let w1 =
        emit env (event_of "recovery_authorized" agent_id i.incident_id i.containment_epoch)
          s.world in
      let (failure, w2) = env.disk w1 in
      let (reply, fences) = Fences.clear failure agent_id s.fences in
      after_clear env fresh capability agent_id m i (record s { fences = fences; world = w2 }) reply

  unfoldable pub recover :
      Env W → Ref → Ref → String → RecoveryAuthorization → Service W → Result ℕ × Service W
  unfolding recover_admitted
  recover env fresh capability agent_id authorization s = elim (managed agent_id s) [
    | none ↦ (unknown_agent agent_id, s)
    | some m ↦
        recover_admitted env fresh capability agent_id m s
          (admission agent_id authorization m s.incidents)
  ]
