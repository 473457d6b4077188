-- ===== src/Service/Authorized.antt =====
-- What an action that is allowed had to pass, whatever other threads do while the predicate on
-- cgroup membership runs.
use agent_containment.Base.{
  ◌≡◌, inl, inr, refl, String, Bool, true, false, some, Result, ok, raised, Bool-cases,
  Option-cases, arith,
}
use agent_containment.Runtime.{Ref, can_execute}
use agent_containment.Models.{Action, Decision, allow}
use agent_containment.Policy.{evaluate}
use agent_containment.Service.{Env, Service, ManagedAgent, managed}
use agent_containment.Service.Authorize.{
  Credentials, denied, authenticated, unchanged, revalidated, decided, concluded, authorize,
  announced, halted, audited,
}

-- The agent `m` was authenticated, and when the policy decided, `current` was still this agent with
-- the same identity, executable, at the same epoch.
pub record Authorizes {W : Type 0} (digest : String → String) (between : Service W → Service W)
    (c : Credentials W) (a : Action) (s : Service W) : Type 0 where
  pub m : ManagedAgent W
  pub current : ManagedAgent W
  pub registered : managed a.agent_id s ≡ some m
  pub authentic : (authenticated digest c m s.world).0 ≡ true
  pub still_there :
      managed a.agent_id (between (record s { world = (authenticated digest c m s.world).1 }))
      ≡ some current
  pub same : unchanged m current ≡ true
  pub executable : can_execute current.containment.runtime ≡ true
  pub same_epoch : current.containment.runtime.epoch ≡ m.containment.runtime.epoch
  pub decision : (evaluate current.policy a).0.decision ≡ allow

unchanged-can_execute :
    {W : Type 0} (m current : ManagedAgent W)
    → unchanged m current ≡ true
    → (can_execute current.containment.runtime ≡ true)
      × (current.containment.runtime.epoch ≡ m.containment.runtime.epoch)
unfolding unchanged
unchanged-can_execute m current h = ground arith

module _ {W : Type 0} where
  concluded-ok :
      (env : Env W) (fresh : Ref) (a : Action) (q : Result Decision × Service W) (d : Decision)
      → (concluded env fresh a q).0 ≡ ok d
      → q.0 ≡ ok d
  unfolding concluded
  concluded-ok env fresh a (raised x, s) d h = cc
  concluded-ok env fresh a (ok e, s) d h = on_audit (audited env a e s.world) h
    where
      on_audit :
          (r : Result (Unit {0}) × W)
          → (announced env a e (halted fresh a e s) r).0 ≡ ok d
          → ◌≡◌ {A = Result Decision} (ok e) (ok d)
      on_audit (ok _, w) k = k
      on_audit (raised x, w) k = cc

  revalidated-allow :
      (a : Action) (m : ManagedAgent W) (s : Service W) (d : Decision)
      → (revalidated a m s).0 ≡ ok d
      → d.decision ≡ allow
      → (current : ManagedAgent W) × (managed a.agent_id s ≡ some current)
        × (unchanged m current ≡ true)
        × ((evaluate current.policy a).0.decision ≡ allow)
  unfolding revalidated
  revalidated-allow a m s d h al = elim (Option-cases (managed a.agent_id s)) [
    | inl e ↦ cc (rw (e, revalidated) at h)
    | inr (current, e) ↦ elim (Bool-cases (unchanged m current)) [
      | inr y ↦
          let k : ◌≡◌ {A = Result Decision} (ok (denied a "agent identity is no longer authorized"))
              (ok d) =
            rw (e, revalidated, y) at h in
          cc (k, al)
      | inl y ↦
          let k : ◌≡◌ {A = Result Decision} (ok (evaluate current.policy a).0) (ok d) =
            rw (e, revalidated, y) at h in
          (current, e, y, cc (k, al))
    ]
  ]

  decided-allow :
      (a : Action) (m : ManagedAgent W) (authentic : Bool) (s : Service W) (d : Decision)
      → (decided a m authentic s).0 ≡ ok d
      → d.decision ≡ allow
      → (authentic ≡ true)
        × (current : ManagedAgent W) × (managed a.agent_id s ≡ some current)
        × (unchanged m current ≡ true)
        × ((evaluate current.policy a).0.decision ≡ allow)
  unfolding decided
  decided-allow a m false s d h al = cc (h, al)
  decided-allow a m true s d h al = elim (Bool-cases (can_execute m.containment.runtime)) [
    | inl y ↦
        let (current, e, same, pol) = revalidated-allow a m s d (rw y at h) al in
        (refl, current, e, same, pol)
    | inr y ↦
        let k : ◌≡◌ {A = Result Decision} (ok (denied a "agent runtime is not executable")) (ok d) =
          rw y at h in
        cc (k, al)
  ]

-- An action that is allowed came from an agent that was authenticated, and when the policy allowed
-- it, the agent was managed with the identity that was authenticated, executable, and at the epoch
-- of that time: whatever other threads did to the service in between.
pub allowed-Authorizes :
    {W : Type 0} (env : Env W) (digest : String → String) (between : Service W → Service W)
    (fresh : Ref) (c : Credentials W) (a : Action) (s : Service W) (d : Decision)
    → (authorize env digest between fresh c a s).0 ≡ ok d
    → d.decision ≡ allow
    → Authorizes digest between c a s
unfolding authorize
allowed-Authorizes env digest between fresh c a s d h al =
    elim (Option-cases (managed a.agent_id s)) [
      | inl e ↦ cc (rw (e, authorize) at h)
      | inr (m, e) ↦
          let (authentic, current, there, same, pol) =
            decided-allow a m (authenticated digest c m s.world).0
              (between (record s { world = (authenticated digest c m s.world).1 })) d
              (concluded-ok env fresh a _ d (rw (e, authorize) at h)) al in
          record {
            m = m;
            current = current;
            registered = e;
            authentic = authentic;
            still_there = there;
            same = same;
            executable = (unchanged-can_execute m current same).0;
            same_epoch = (unchanged-can_execute m current same).1;
            decision = pol;
          }
    ]
