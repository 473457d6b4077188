-- ===== src/Service/Completion.antt =====
-- What `ContainmentService.recover` has done when it returns: it has removed the fence, released every
-- enforcer and recorded the incident.
use agent_containment.Base.{
  ℕ, ◌+◌, ◌≡◌, inl, inr, refl, String, true, Option, none, some, List, [], ◌∷◌, Exc, Result, ok,
  raised, Bool-cases, Option-cases, sym, is_os_error, is_ok,
}
use mathlib.Core.List.{reverse}
use agent_containment.Base.Dict.{lookup-insert_self}
use agent_containment.Runtime.{Ref, Runtime, active, contained, rotate_recovery_capability}
use agent_containment.Runtime.Recovery.{recover_iff}
use agent_containment.Fences
use agent_containment.Fences.{FenceRegistry}
use agent_containment.Incidents
use agent_containment.Incidents.{
  IncidentRecord, IncidentRegistry, is_recovered, latest_for_agent, mark_recovered,
}
use agent_containment.Incidents.Replies.{mark_recovered-ok}
use agent_containment.Fences.Restart.{clear_lem}
use agent_containment.Containment.{release_enforcers}
use agent_containment.Containment.Recovery.{AllRelease, each_provider-release}
use agent_containment.Service.{Env, Service, ManagedAgent, RecoveryAuthorization, managed}
use agent_containment.Service.Admission.{admission}
use agent_containment.Service.Recover.{
  restore_fence, rolled_back, uncommitted, not_committed, not_activated, activated, reraised,
  recover_with, committed, after_release, after_clear, recover_admitted, recover,
}

-- What a recovery that returned has done, from the incident `i` of the agent `m`.
pub record Completes {W : Type 0} (agent_id : String) (n : ℕ) (m : ManagedAgent W)
    (i : IncidentRecord) (s' : Service W) : Type 0 where
  pub before : W
  pub released : AllRelease m.containment.runtime.agent_id (reverse m.containment.enforcers) before
  pub unfenced : Fences.get agent_id s'.fences ≡ none
  pub incident : IncidentRecord
  pub kept : Incidents.get i.incident_id s'.incidents ≡ some incident
  pub recovered : is_recovered incident.state ≡ true
  pub was_contained : m.containment.runtime.state ≡ contained
  pub was_at : m.containment.runtime.epoch ≡ i.containment_epoch
  pub next_epoch : n ≡ i.containment_epoch + 1
  pub agent : ManagedAgent W
  pub registered : managed agent_id s' ≡ some agent
  pub activates : agent.containment.runtime.state ≡ active
  pub at_next : agent.containment.runtime.epoch ≡ n

recover_with-ok :
    (o : Option Ref) (e : ℕ) (fresh : Ref) (r : Runtime) (n : ℕ)
    → (recover_with o e fresh r).0 ≡ ok n
    → (r.state ≡ contained)
      × (r.epoch ≡ e)
      × (n ≡ e + 1)
      × ((recover_with o e fresh r).1.state ≡ active)
      × ((recover_with o e fresh r).1.epoch ≡ n)
unfolding recover_with
recover_with-ok none e fresh r n h = cc
recover_with-ok (some c) e fresh r n h =
    let (k, st, ep, m, q) = (recover_iff c e fresh r).0 n h in (st, ep, m, rw q refl, rw q (sym m))

reraised-raises : (what : String) (x : Exc) (l : List String) (n : ℕ) → ¬ (reraised what x l ≡ ok n)
reraised-raises what x [] n h = cc
reraised-raises what x (f ∷ fs) n h = cc

module _ {W : Type 0} (env : Env W) (agent_id : String) where
  not_activated-raises :
      (m : ManagedAgent W) (i : IncidentRecord) (x : Exc) (s : Service W) (n : ℕ)
      → ¬ ((not_activated env agent_id m i x s).0 ≡ ok n)
  unfolding not_activated
  not_activated-raises m i x s n h = reraised-raises _ x _ n h

  not_committed-raises :
      (m : ManagedAgent W) (i : IncidentRecord) (x : Exc) (s : Service W) (n : ℕ)
      → ¬ ((not_committed env agent_id m i x s).0 ≡ ok n)
  unfolding not_committed
  not_committed-raises m i x s n h = elim (Bool-cases (is_os_error x.kind)) [
    | inr other ↦ cc (rw other at h)
    | inl os ↦
        on_rollback (restore_fence env agent_id i.containment_epoch s).0
          (rolled_back env
            (latest_for_agent agent_id
              (restore_fence env agent_id i.containment_epoch s).1.incidents)
            (restore_fence env agent_id i.containment_epoch s).1)
          (rw os at h)
  ]
    where
      on_rollback :
          (fence : Option String) (q : Result (Option String) × Service W)
          → ¬ ((uncommitted m x fence q).0 ≡ ok n)
      on_rollback fence (raised y, s') k = cc
      on_rollback fence (ok o, s') k = reraised-raises _ x _ n k

module _ {W : Type 0} (env : Env W) (fresh capability : Ref) (agent_id : String) where
  committed-Completes :
      (m : ManagedAgent W) (i : IncidentRecord) (w : W) (s : Service W) (q : Result IncidentRecord)
      (n : ℕ)
      → AllRelease m.containment.runtime.agent_id (reverse m.containment.enforcers) w
      → Fences.get agent_id s.fences ≡ none
      → ((r : IncidentRecord)
          → q ≡ ok r
          → (Incidents.get i.incident_id s.incidents ≡ some r) × (is_recovered r.state ≡ true))
      → (committed env fresh capability agent_id m i s q).0 ≡ ok n
      → Completes agent_id n m i (committed env fresh capability agent_id m i s q).1
  unfolding committed activated rotate_recovery_capability
  committed-Completes m i w s (raised x) n rel un kept h =
      absurd (not_committed-raises env agent_id m i x s n h)
  committed-Completes m i w s (ok r) n rel un kept h =
      on_runtime
        (recover_with m.recovery_capability i.containment_epoch fresh m.containment.runtime)
        (λ k.
          recover_with-ok m.recovery_capability i.containment_epoch fresh m.containment.runtime n k)
        h
    where
      on_runtime :
          (p : Result ℕ × Runtime)
          → (p.0 ≡ ok n
              → (m.containment.runtime.state ≡ contained)
                × (m.containment.runtime.epoch ≡ i.containment_epoch)
                × (n ≡ i.containment_epoch + 1)
                × (p.1.state ≡ active)
                × (p.1.epoch ≡ n))
          → (activated env capability agent_id m i s p).0 ≡ ok n
          → Completes agent_id n m i (activated env capability agent_id m i s p).1
      on_runtime (raised x, v) facts k = absurd (not_activated-raises env agent_id m i x s n k)
      on_runtime (ok l, v) facts k =
          let (st, ep, nx, ac, at) = facts k in
          record {
            before = w;
            released = rel;
            unfenced = un;
            incident = r;
            kept = (kept r refl).0;
            recovered = (kept r refl).1;
            was_contained = st;
            was_at = ep;
            next_epoch = nx;
            agent = _;
            registered = lookup-insert_self agent_id _ s.agents;
            activates = ac;
            at_next = at;
          }

  after_release-Completes :
      (m : ManagedAgent W) (i : IncidentRecord) (w : W) (s : Service W) (l : List String) (n : ℕ)
      → (l ≡ [] → AllRelease m.containment.runtime.agent_id (reverse m.containment.enforcers) w)
      → Fences.get agent_id s.fences ≡ none
      → (after_release env fresh capability agent_id m i s l).0 ≡ ok n
      → Completes agent_id n m i (after_release env fresh capability agent_id m i s l).1
  unfolding after_release
  after_release-Completes m i w s (f ∷ fs) n rel un h = cc
  after_release-Completes m i w s [] n rel un h =
      committed-Completes m i w _ _ n (rel refl) un
        (λ r e. mark_recovered-ok (env.disk s.world).0 i.incident_id s.incidents r e) h

  after_clear-Completes :
      (m : ManagedAgent W) (i : IncidentRecord) (s : Service W) (q : Result (Unit {0})) (n : ℕ)
      → (is_ok q ≡ true → Fences.get agent_id s.fences ≡ none)
      → (after_clear env fresh capability agent_id m i s q).0 ≡ ok n
      → Completes agent_id n m i (after_clear env fresh capability agent_id m i s q).1
  unfolding after_clear release_enforcers
  after_clear-Completes m i s (raised x) n un h = cc
  after_clear-Completes m i s (ok _) n un h =
      after_release-Completes m i s.world _ _ n
        (each_provider-release m.containment.runtime.agent_id (reverse m.containment.enforcers)
          s.world).0
        (un refl) h

  cleared :
      (failure : Option Exc) (fences : FenceRegistry)
      → is_ok (Fences.clear failure agent_id fences).0 ≡ true
      → Fences.get agent_id (Fences.clear failure agent_id fences).1 ≡ none
  cleared failure fences h = elim (clear_lem failure agent_id fences) [
    | inl (gone, _, _) ↦ gone
    | inr (no_reply, _) ↦ cc
  ]

  recover_admitted-Completes :
      (m : ManagedAgent W) (s : Service W) (q : Result IncidentRecord) (n : ℕ)
      → (recover_admitted env fresh capability agent_id m s q).0 ≡ ok n
      → (i : IncidentRecord) × (q ≡ ok i)
        × Completes agent_id n m i (recover_admitted env fresh capability agent_id m s q).1
  unfolding recover_admitted
  recover_admitted-Completes m s (raised x) n h = cc
  recover_admitted-Completes m s (ok i) n h =
      (i, refl, after_clear-Completes m i _ _ n (cleared _ s.fences) h)

-- A recovery that returns was admitted by every guard, for the incident that the guards name, and
-- when it returns: every enforcer released and was verified to have, in the reverse of their order;
-- the agent has no durable fence; the incident is recorded as recovered; and the runtime, which was
-- contained at the incident's epoch, is active at the next epoch, the one that is returned.
pub recover-Completes :
    {W : Type 0} (env : Env W) (fresh capability : Ref) (agent_id : String)
    (authorization : RecoveryAuthorization) (s : Service W) (n : ℕ)
    → (recover env fresh capability agent_id authorization s).0 ≡ ok n
    → (m : ManagedAgent W) × (i : IncidentRecord) × (managed agent_id s ≡ some m)
      × (admission agent_id authorization m s.incidents ≡ ok i)
      × Completes agent_id n m i (recover env fresh capability agent_id authorization s).1
unfolding recover
recover-Completes env fresh capability agent_id authorization s n h =
    elim (Option-cases (managed agent_id s)) [
      | inl e ↦ cc (rw (e, recover) at h)
      | inr (m, e) ↦
          let (i, a, c) =
            recover_admitted-Completes env fresh capability agent_id m s
              (admission agent_id authorization m s.incidents) n (rw (e, recover) at h) in
          (m, i, e, a, rw (e, recover) c)
    ]
