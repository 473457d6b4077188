-- ===== src/Service/Repair.antt =====
-- The steps of `ContainmentService.register` that bring the durable state in order before an agent
-- is admitted: an interrupted containment or recovery is told from fence and incident.
use agent_containment.Base.{
  ℕ, String, Bool, false, not, Option, none, some, if◌then◌else◌, ◌==◌, ltb, pos, Result, ok,
  raised, raise, runtime_error,
}
use agent_containment.Runtime.{Runtime}
use agent_containment.Fences.{FenceRecord, FenceRegistry}
use agent_containment.Incidents
use agent_containment.Incidents.{
  IncidentRecord, IncidentRegistry, is_recovered, is_recoverable, latest_for_agent,
  record_containment,
}
use agent_containment.Service.{Env, incident_id_of}
use agent_containment.Service.Contain.{prepare_fence}

-- The locals of `register`, with the registries that its steps change.
pub record Registration (W : Type 0) : Type 0 where
  pub runtime : Runtime
  pub fence : Option FenceRecord
  pub prior : Option IncidentRecord
  pub incidents : IncidentRegistry
  pub fences : FenceRegistry
  pub world : W

abbrev pub Step : Type 0 → Type 0
Step W = Registration W → Result (Unit {0}) × Registration W

abbrev pub refuse : {W : Type 0} → String → Step W
refuse message r = (raise runtime_error message, r)

unfoldable pub later_fence : ℕ → Option ℕ → Bool
later_fence epoch none = false
later_fence epoch (some recovery) = ltb recovery epoch

module _ {W : Type 0} where
  -- The next step, unless the last one raised.
  unfoldable pub after :
      Step W → Result (Unit {0}) × Registration W → Result (Unit {0}) × Registration W
  after next (ok _, r) = next r
  after next (raised x, r) = (raised x, r)

  unfoldable pub latest :
      Registration W → Result (Option IncidentRecord) → Result (Unit {0}) × Registration W
  latest r (ok prior) = (ok tt, record r { prior = prior })
  latest r (raised x) = (raised x, r)

  -- `prior_incident = self.incidents.latest_for_agent(agent_id)`
  unfoldable pub read_prior : String → Step W
  unfolding latest
  read_prior agent_id r = latest r (latest_for_agent agent_id r.incidents)

  unfoldable pub with_incidents :
      Registration W
      → W
      → Result IncidentRecord × IncidentRegistry
      → Result (Unit {0}) × Registration W
  with_incidents r w (ok _, incidents) = (ok tt, record r { incidents = incidents; world = w })
  with_incidents r w (raised x, incidents) =
      (raised x, record r { incidents = incidents; world = w })

  -- An incident reconstructed from the fence.
  unfoldable pub reconstruct : Env W → String → FenceRecord → String → Step W
  unfolding with_incidents
  reconstruct env agent_id f reason r =
      let (failure, w1) = env.disk r.world in
      let (now, w2) = env.time w1 in
      with_incidents r w2 (
        record_containment failure now (incident_id_of agent_id f.containment_epoch) agent_id
          (pos f.containment_epoch) (some reason) r.incidents)

  unfoldable pub roll_back : Env W → IncidentRecord → Step W
  unfolding with_incidents
  roll_back env i r =
      let (failure, w) = env.disk r.world in
      with_incidents r w (Incidents.restore_contained failure i.incident_id r.incidents)

  unfoldable pub with_fences :
      Registration W → (Result FenceRecord × FenceRegistry) × W → Result (Unit {0}) × Registration W
  with_fences r ((ok _, fences), w) = (ok tt, record r { fences = fences; world = w })
  with_fences r ((raised x, fences), w) = (raised x, record r { fences = fences; world = w })

  unfoldable pub fence_again : Env W → String → IncidentRecord → Step W
  unfolding with_fences
  fence_again env agent_id i r =
      with_fences r (prepare_fence env agent_id i.containment_epoch r.fences r.world)

  -- A fence without an incident.
  unfoldable pub reconstruct_missing :
      Env W → String → Option FenceRecord → Option IncidentRecord → Step W
  reconstruct_missing env agent_id (some f) none r = after (read_prior agent_id) (
      reconstruct env agent_id f
        "incident reconstructed from durable containment fence after interrupted containment; external enforcement must be reconciled before recovery"
        r)
  reconstruct_missing env agent_id _ _ r = (ok tt, r)

  -- A fence beside a recovered incident: recovery was not rolled back, or containment came later.
  unfoldable pub repair_recovered :
      Env W → String → Option FenceRecord → Option IncidentRecord → Step W
  unfolding later_fence
  repair_recovered env agent_id (some f) (some i) r =
      if not (is_recovered i.state)
      then (ok tt, r)
      else if i.containment_epoch == f.containment_epoch
      then after (read_prior agent_id) (roll_back env i r)
      else if later_fence f.containment_epoch i.recovery_epoch
      then after (read_prior agent_id) (
          reconstruct env agent_id f
            "incident reconstructed from durable containment fence after interrupted containment following prior recovery; external enforcement must be reconciled before recovery"
            r)
      else refuse "durable fence epoch conflicts with recovered incident" r
  repair_recovered env agent_id _ _ r = (ok tt, r)
