-- ===== src/Service/Register.antt =====
-- `ContainmentService.register`: the durable fence and the latest incident decide whether an agent
-- is admitted, and in which state its runtime starts.
use agent_containment.Base.{
  ℕ, String, Bool, not, Option, none, some, [], ◌∷◌, if◌then◌else◌, ◌==◌, ◌=s◌, is_some, pos,
  Result, ok, raised, raise, value_error, concat, ◌&&◌,
}
use agent_containment.Base.Dict.{insert, lookup}
use agent_containment.Runtime
use agent_containment.Runtime.{Ref, Runtime, is_active, is_contained, rotate_recovery_capability}
use agent_containment.Policy.{PolicyEngine}
use agent_containment.Fences
use agent_containment.Fences.{FenceRecord, FenceRegistry}
use agent_containment.Incidents.{IncidentRecord, is_recovered, is_recoverable}
use agent_containment.Containment.{Controller, new_controller}
use agent_containment.Service.{Env, Service, emit}
use agent_containment.Service.Repair.{
  Registration, Step, refuse, after, read_prior, roll_back, fence_again, reconstruct_missing,
  repair_recovered,
}

module _ {W : Type 0} where
  with_runtime : Registration W → Result (Unit {0}) × Runtime → Result (Unit {0}) × Registration W
  with_runtime r (reply, runtime) = (reply, record r { runtime = runtime })

  -- A runtime of its own is contained at the epoch; a supplied one has to be contained there.
  unfoldable pub start_contained : Ref → Bool → String → ℕ → Step W
  unfolding with_runtime
  start_contained proof supplied mismatch epoch r =
      if not supplied
      then with_runtime r (Runtime.restore_contained (pos epoch) proof r.runtime)
      else if is_active r.runtime.state
      then refuse "agent has durable containment state; supplied runtime must already be contained"
          r
      else if is_contained r.runtime.state && not (r.runtime.epoch == epoch)
      then refuse mismatch r
      else (ok tt, r)

  unfoldable pub start_fenced : Ref → Bool → Option FenceRecord → Step W
  unfolding start_contained
  start_fenced proof supplied none r = (ok tt, r)
  start_fenced proof supplied (some f) r =
      start_contained proof supplied
        "supplied contained runtime epoch does not match durable runtime fence" f.containment_epoch
        r

  -- No fence, and the latest incident is recovered at the epoch.
  start_recovered : Env W → String → Bool → IncidentRecord → Option ℕ → Step W
  start_recovered env agent_id supplied i none r =
      refuse "durable recovered incident is missing recovery epoch" r
  start_recovered env agent_id supplied i (some recovery) r =
      if not supplied
      then refuse
          "durable recovery state requires an explicitly supplied active runtime or contained runtime with containment controller"
          r
      else if is_contained r.runtime.state && r.runtime.epoch == i.containment_epoch
      then after (read_prior agent_id) (after (fence_again env agent_id i) (roll_back env i r))
      else if not (is_active r.runtime.state)
      then refuse
          "durable recovery state requires a contained runtime at the containment epoch or an active runtime at the recovery epoch"
          r
      else if not (r.runtime.epoch == recovery)
      then refuse "supplied active runtime epoch does not match durable recovery state" r
      else (ok tt, r)

  -- The latest incident is contained or degraded: its fence is there again, and the runtime starts
  -- contained.
  unfoldable pub start_incident :
      Env W → Ref → String → Bool → Option FenceRecord → IncidentRecord → Step W
  unfolding start_contained
  start_incident env proof agent_id supplied fence i r =
      after
        (start_contained proof supplied
          "supplied contained runtime epoch does not match durable containment state"
          i.containment_epoch)
        (elim fence [ none ↦ fence_again env agent_id i r | some _ ↦ (ok tt, r) ])

  unfoldable pub start :
      Env W → Ref → String → Bool → Option FenceRecord → Option IncidentRecord → Step W
  unfolding start_recovered start_incident
  start env proof agent_id supplied fence none r = (ok tt, r)
  start env proof agent_id supplied fence (some i) r =
      if not (is_some fence) && is_recovered i.state
      then start_recovered env agent_id supplied i i.recovery_epoch r
      else if is_recoverable i.state
      then start_incident env proof agent_id supplied fence i r
      else (ok tt, r)

  -- The steps of `register` from the durable state to the state of the runtime.
  unfoldable pub admit : Env W → Ref → String → Bool → Step W
  admit env proof agent_id supplied r0 =
      after (λ r. start env proof agent_id supplied r.fence r.prior r)
        (after (λ r. start_fenced proof supplied r.fence r)
          (after (λ r. repair_recovered env agent_id r.fence r.prior r)
            (after (λ r. reconstruct_missing env agent_id r.fence r.prior r)
              (read_prior agent_id r0))))

  abbrev pub runtime_of : Option (Controller W) → Runtime → Runtime
  runtime_of none own = own
  runtime_of (some c) own = c.runtime

  unfoldable pub controller_of : Option (Controller W) → Runtime → Controller W
  controller_of none r = new_controller r [] none none none []
  controller_of (some c) r = record c { runtime = r }

  unfoldable pub announced :
      Env W → String → Service W → Result (Unit {0}) × W → Result (Unit {0}) × Service W
  announced env agent_id s (raised x, w) = (raised x, record s { world = w })
  announced env agent_id s (ok _, w) = (
    ok tt,
    record s {
      world =
          emit env
            (record {
              event_type = "agent_registered";
              agent_id = agent_id;
              incident_id = none;
              containment_epoch = none;
            })
            w;
    },
  )

  audited : Env W → String → W → Result (Unit {0}) × W
  audited env agent_id w = elim env.audit [
    | none ↦ (ok tt, w)
    | some f ↦ f (record { event_type = "agent_registered"; agent_id = agent_id; reason = "" }) w
  ]

  -- What follows the admission: the agent is stored with a fresh recovery capability.
  unfoldable pub stored :
      Env W
      → Ref
      → String
      → Option (Controller W)
      → PolicyEngine
      → Service W
      → Result (Unit {0}) × Registration W
      → Result (Unit {0}) × Service W
  unfolding controller_of announced audited
  stored env capability agent_id supplied policy s (raised x, r) =
      (raised x, record s { incidents = r.incidents; fences = r.fences; world = r.world })
  stored env capability agent_id supplied policy s (ok _, r) =
      let (fresh, runtime) = rotate_recovery_capability capability r.runtime in
      announced env agent_id
        (record {
          agents =
              insert agent_id
                (record {
                  containment = controller_of supplied runtime;
                  policy = policy;
                  identity_digest = none;
                  identity_pid = none;
                  identity_cgroup = none;
                  recovery_capability = some fresh;
                })
                s.agents;
          incidents = r.incidents;
          fences = r.fences;
          world = r.world;
        })
        (audited env agent_id r.world)

  -- `register`, where `own` is the runtime made for an agent without a supplied controller.
  unfoldable pub register :
      Env W
      → Ref
      → Ref
      → String
      → Runtime
      → Option (Controller W)
      → PolicyEngine
      → Service W
      → Result (Unit {0}) × Service W
  register env proof capability agent_id own supplied policy s =
      if is_some (lookup agent_id s.agents)
      then (raise value_error (concat ("agent already registered: " ∷ agent_id ∷ [])), s)
      else if not ((runtime_of supplied own).agent_id =s agent_id)
      then (raise value_error "containment runtime agent_id does not match registration", s)
      else stored env capability agent_id supplied policy s (
          admit env proof agent_id (is_some supplied) (record {
            runtime = runtime_of supplied own;
            fence = Fences.get agent_id s.fences;
            prior = none;
            incidents = s.incidents;
            fences = s.fences;
            world = s.world;
          }))
