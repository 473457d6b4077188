-- ===== src/Service/Recovery.antt =====
-- What `ContainmentService.recover` leaves when it raises: no step of it releases an agent.
use agent_containment.Base.{
  ℕ, ◌≡◌, inl, inr, refl, String, Option, none, some, List, [], ◌∷◌, Exc, Result, ok, raised,
  Bool-cases, Option-cases, is_os_error,
}
use agent_containment.Runtime.{Ref, Runtime}
use agent_containment.Incidents.{IncidentRecord, is_recovered, latest_for_agent}
use agent_containment.Service.{Env, Service, ManagedAgent, RecoveryAuthorization, managed}
use agent_containment.Service.Admission.{admission}
use agent_containment.Service.Recover.{
  restore_fence, rolled_back, uncommitted, not_committed, activated, recover_with, committed,
  after_release, after_clear, recover_admitted, recover,
}

module _ {W : Type 0} (env : Env W) (fresh capability : Ref) (agent_id : String) where
  not_committed-agents :
      (m : ManagedAgent W) (i : IncidentRecord) (x : Exc) (s : Service W)
      → (not_committed env agent_id m i x s).1.agents ≡ s.agents
  unfolding not_committed
  not_committed-agents m i x s = elim (Bool-cases (is_os_error x.kind)) [
    | inr other ↦ rw other refl
    | inl os ↦ rw os (
        on_latest (restore_fence env agent_id i.containment_epoch s).0
          (restore_fence env agent_id i.containment_epoch s).1
          (latest_for_agent agent_id
            (restore_fence env agent_id i.containment_epoch s).1.incidents))
  ]
    where
      on_latest :
          (fence : Option String) (s' : Service W) (l : Result (Option IncidentRecord))
          → (uncommitted m x fence (rolled_back env l s')).1.agents ≡ s'.agents
      on_latest fence s' (raised y) = refl
      on_latest fence s' (ok none) = refl
      on_latest fence s' (ok (some j)) = elim (Bool-cases (is_recovered j.state)) [
        | inl done ↦ rw done refl
        | inr shut ↦ rw shut refl
      ]

  activated-agents :
      (m : ManagedAgent W) (i : IncidentRecord) (s : Service W) (q : Result ℕ × Runtime) (x : Exc)
      → (activated env capability agent_id m i s q).0 ≡ raised x
      → (activated env capability agent_id m i s q).1.agents ≡ s.agents
  unfolding activated
  activated-agents m i s (raised y, r) x h = refl
  activated-agents m i s (ok n, r) x h = cc

  committed-agents :
      (m : ManagedAgent W) (i : IncidentRecord) (s : Service W) (q : Result IncidentRecord)
      (x : Exc)
      → (committed env fresh capability agent_id m i s q).0 ≡ raised x
      → (committed env fresh capability agent_id m i s q).1.agents ≡ s.agents
  unfolding committed
  committed-agents m i s (raised y) x h = not_committed-agents m i y s
  committed-agents m i s (ok j) x h =
      activated-agents m i s
        (recover_with m.recovery_capability i.containment_epoch fresh m.containment.runtime) x h

  after_release-agents :
      (m : ManagedAgent W) (i : IncidentRecord) (s : Service W) (l : List String) (x : Exc)
      → (after_release env fresh capability agent_id m i s l).0 ≡ raised x
      → (after_release env fresh capability agent_id m i s l).1.agents ≡ s.agents
  unfolding after_release
  after_release-agents m i s (f ∷ fs) x h = refl
  after_release-agents m i s [] x h = committed-agents m i _ _ x h

  after_clear-agents :
      (m : ManagedAgent W) (i : IncidentRecord) (s : Service W) (q : Result (Unit {0})) (x : Exc)
      → (after_clear env fresh capability agent_id m i s q).0 ≡ raised x
      → (after_clear env fresh capability agent_id m i s q).1.agents ≡ s.agents
  unfolding after_clear
  after_clear-agents m i s (raised y) x h = refl
  after_clear-agents m i s (ok _) x h = after_release-agents m i _ _ x h

  recover_admitted-agents :
      (m : ManagedAgent W) (s : Service W) (q : Result IncidentRecord) (x : Exc)
      → (recover_admitted env fresh capability agent_id m s q).0 ≡ raised x
      → (recover_admitted env fresh capability agent_id m s q).1.agents ≡ s.agents
  unfolding recover_admitted after_clear
  recover_admitted-agents m s (raised y) x h = refl
  recover_admitted-agents m s (ok i) x h = after_clear-agents m i _ _ x h

-- A recovery that raises, for whatever reason and however far it came, leaves every managed agent
-- as it was: no runtime is released, and no identity, policy or recovery capability changes.
pub recover_keeps_agents :
    {W : Type 0} (env : Env W) (fresh capability : Ref) (agent_id : String)
    (authorization : RecoveryAuthorization) (s : Service W) (x : Exc)
    → (recover env fresh capability agent_id authorization s).0 ≡ raised x
    → (recover env fresh capability agent_id authorization s).1.agents ≡ s.agents
unfolding recover
recover_keeps_agents env fresh capability agent_id authorization s x h =
    elim (Option-cases (managed agent_id s)) [
      | inl e ↦ rw (e, recover) refl
      | inr (m, e) ↦
          rw (e, recover)
            (recover_admitted-agents env fresh capability agent_id m s
              (admission agent_id authorization m s.incidents) x (rw (e, recover) at h))
    ]
