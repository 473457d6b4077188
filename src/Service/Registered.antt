-- ===== src/Service/Registered.antt =====
-- What registration promises an agent with durable containment: it does not start executable.
use agent_containment.Base.{
  ℕ, ◌≡◌, inl, inr, refl, String, Bool, true, false, Option, none, some, pos, Result, ok, raised,
  Bool-cases, arith, is_some, ◌=s◌, ◌&&◌, not, sym, ◌∙◌, ◌==◌,
}
use mathlib.Core.Path.{subst}
use agent_containment.Base.Dict.{lookup-insert_self}
use agent_containment.Runtime.{
  Ref, Runtime, is_active, is_contained, restore_contained, restore_from,
  rotate_recovery_capability,
}
use agent_containment.Policy.{PolicyEngine}
use agent_containment.Fences
use agent_containment.Fences.{FenceRecord}
use agent_containment.Incidents.{
  IncidentRecord, IncidentRegistry, is_recovered, is_recoverable, latest_for_agent,
}
use agent_containment.Containment.{Controller, new_controller}
use agent_containment.Service.{Env, Service, ManagedAgent, managed}
use agent_containment.Service.Repair.{
  Registration, Step, after, read_prior, latest, with_incidents, later_fence, reconstruct,
  roll_back, reconstruct_missing, repair_recovered,
}
use agent_containment.Service.Register.{
  start_contained, start_fenced, start, start_incident, admit, announced, controller_of, runtime_of,
  stored, register,
}

abbrev Reply : Type 0 → Type 0
Reply W = Result (Unit {0}) × Registration W

-- If the steps have not raised, the runtime is not active.
abbrev Inactive : {W : Type 0} → Reply W → Type 0
Inactive q = q.0 ≡ ok tt → is_active q.1.runtime.state ≡ false

restored :
    (e : ℕ) (proof : Ref) (r : Runtime)
    → (restore_contained (pos e) proof r).0 ≡ ok tt
    → is_active (restore_contained (pos e) proof r).1.state ≡ false
unfolding restore_contained restore_from
restored e proof r h = ground arith

rotated :
    (capability : Ref) (r : Runtime)
    → is_active r.state ≡ false
    → is_active (rotate_recovery_capability capability r).1.state ≡ false
unfolding rotate_recovery_capability
rotated capability r h = h

module _ {W : Type 0} where
  start_contained-Inactive :
      (proof : Ref) (supplied : Bool) (mismatch : String) (e : ℕ) (r : Registration W)
      → Inactive (start_contained proof supplied mismatch e r)
  unfolding start_contained
  start_contained-Inactive proof false mismatch e r h = restored e proof r.runtime h
  start_contained-Inactive proof true mismatch e r h =
      elim (Bool-cases (is_active r.runtime.state)) [
        | inl y ↦ cc (rw y at h)
        | inr y ↦ elim (Bool-cases (is_contained r.runtime.state && not (r.runtime.epoch == e))) [
          | inl z ↦ cc (rw (y, z) at h)
          | inr z ↦ rw (y, z) y
        ]
      ]

  after-Inactive :
      (next : Step W) (q : Reply W)
      → ((r : Registration W) → Inactive (next r))
      → Inactive (after next q)
  unfolding after
  after-Inactive next (ok _, r) h = h r
  after-Inactive next (raised x, r) h = λ k. cc

  -- A step that leaves the fence that was read.
  after-fence :
      (next : Step W) (q : Reply W) (f : Option FenceRecord)
      → ((r : Registration W) → (next r).1.fence ≡ r.fence)
      → q.1.fence ≡ f
      → (after next q).1.fence ≡ f
  unfolding after
  after-fence next (ok _, r) f keeps h = keeps r ∙ h
  after-fence next (raised x, r) f keeps h = h

  latest-fence :
      (r : Registration W) (q : Result (Option IncidentRecord)) → (latest r q).1.fence ≡ r.fence
  unfolding latest
  latest-fence r (ok prior) = refl
  latest-fence r (raised x) = refl

  read_prior-fence :
      (agent_id : String) (r : Registration W) → (read_prior agent_id r).1.fence ≡ r.fence
  unfolding read_prior
  read_prior-fence agent_id r = latest-fence r (latest_for_agent agent_id r.incidents)

  with_incidents-fence :
      (r : Registration W) (w : W) (q : Result IncidentRecord × IncidentRegistry)
      → (with_incidents r w q).1.fence ≡ r.fence
  unfolding with_incidents
  with_incidents-fence r w (ok _, i) = refl
  with_incidents-fence r w (raised x, i) = refl

  reconstruct-fence :
      (env : Env W) (agent_id reason : String) (f : FenceRecord) (r : Registration W)
      → (reconstruct env agent_id f reason r).1.fence ≡ r.fence
  unfolding reconstruct
  reconstruct-fence env agent_id reason f r = with_incidents-fence r _ _

  roll_back-fence :
      (env : Env W) (i : IncidentRecord) (r : Registration W)
      → (roll_back env i r).1.fence ≡ r.fence
  unfolding roll_back
  roll_back-fence env i r = with_incidents-fence r _ _

  reconstruct_missing-fence :
      (env : Env W) (agent_id : String) (f : Option FenceRecord) (i : Option IncidentRecord)
      (r : Registration W)
      → (reconstruct_missing env agent_id f i r).1.fence ≡ r.fence
  unfolding reconstruct_missing
  reconstruct_missing-fence env agent_id (some f) none r =
      after-fence (read_prior agent_id) (reconstruct env agent_id f _ r) r.fence
        (read_prior-fence agent_id) (reconstruct-fence env agent_id _ f r)
  reconstruct_missing-fence env agent_id (some f) (some i) r = refl
  reconstruct_missing-fence env agent_id none i r = refl

  repair_recovered-fence :
      (env : Env W) (agent_id : String) (f : Option FenceRecord) (i : Option IncidentRecord)
      (r : Registration W)
      → (repair_recovered env agent_id f i r).1.fence ≡ r.fence
  unfolding repair_recovered
  repair_recovered-fence env agent_id none i r = refl
  repair_recovered-fence env agent_id (some f) none r = refl
  repair_recovered-fence env agent_id (some f) (some i) r =
      elim (Bool-cases (is_recovered i.state)) [
        | inr y ↦ rw y refl
        | inl y ↦ elim (Bool-cases (i.containment_epoch == f.containment_epoch)) [
          | inl z ↦
              rw (y, z)
                (after-fence (read_prior agent_id) (roll_back env i r) r.fence
                  (read_prior-fence agent_id) (roll_back-fence env i r))
          | inr z ↦ elim (Bool-cases (later_fence f.containment_epoch i.recovery_epoch)) [
            | inl l ↦
                rw (y, z, l)
                  (after-fence (read_prior agent_id) (reconstruct env agent_id f _ r) r.fence
                    (read_prior-fence agent_id) (reconstruct-fence env agent_id _ f r))
            | inr l ↦ rw (y, z, l) refl
          ]
        ]
      ]

  start_incident-Inactive :
      (env : Env W) (proof : Ref) (agent_id : String) (supplied : Bool) (f : Option FenceRecord)
      (i : IncidentRecord) (r : Registration W)
      → Inactive (start_incident env proof agent_id supplied f i r)
  unfolding start_incident
  start_incident-Inactive env proof agent_id supplied f i r =
      after-Inactive _ _ (start_contained-Inactive proof supplied _ i.containment_epoch)

  -- The last step, where there is a fence and the runtime is not active already.
  start-Inactive :
      (env : Env W) (proof : Ref) (agent_id : String) (supplied : Bool) (f : FenceRecord)
      (i : Option IncidentRecord) (r : Registration W)
      → is_active r.runtime.state ≡ false
      → Inactive (start env proof agent_id supplied (some f) i r)
  unfolding start
  start-Inactive env proof agent_id supplied f none r h = λ _. h
  start-Inactive env proof agent_id supplied f (some i) r h =
      elim (Bool-cases (is_recoverable i.state)) [
        | inl y ↦ rw y (start_incident-Inactive env proof agent_id supplied (some f) i r)
        | inr y ↦ rw y (λ _. h)
      ]

  start_contained-fence :
      (proof : Ref) (supplied : Bool) (mismatch : String) (e : ℕ) (r : Registration W)
      → (start_contained proof supplied mismatch e r).1.fence ≡ r.fence
  unfolding start_contained
  start_contained-fence proof false mismatch e r = refl
  start_contained-fence proof true mismatch e r = elim (Bool-cases (is_active r.runtime.state)) [
    | inl y ↦ rw y refl
    | inr y ↦ elim (Bool-cases (is_contained r.runtime.state && not (r.runtime.epoch == e))) [
      | inl z ↦ rw (y, z) refl
      | inr z ↦ rw (y, z) refl
    ]
  ]

  started-Inactive :
      (env : Env W) (proof : Ref) (agent_id : String) (supplied : Bool) (f : FenceRecord)
      (q : Reply W)
      → q.1.fence ≡ some f
      → Inactive q
      → Inactive (after (λ r. start env proof agent_id supplied r.fence r.prior r) q)
  unfolding after
  started-Inactive env proof agent_id supplied f (raised x, r) e i = λ k. cc
  started-Inactive env proof agent_id supplied f (ok _, r) e i =
      subst (λ o. Inactive (start env proof agent_id supplied o r.prior r)) (sym e)
        (start-Inactive env proof agent_id supplied f r.prior r (i refl))

  fenced_start-Inactive :
      (env : Env W) (proof : Ref) (agent_id : String) (supplied : Bool) (f : FenceRecord)
      (q : Reply W)
      → q.1.fence ≡ some f
      → Inactive (
          after
            (λ r. start env proof agent_id supplied r.fence r.prior r)
            (after (λ r. start_fenced proof supplied r.fence r) q))
  unfolding after start_fenced
  fenced_start-Inactive env proof agent_id supplied f (raised x, r) e = λ k. cc
  fenced_start-Inactive env proof agent_id supplied f (ok _, r) e =
      subst
        (λ o. Inactive (
          after (λ r'. start env proof agent_id supplied r'.fence r'.prior r')
            (start_fenced proof supplied o r)))
        (sym e)
        (started-Inactive env proof agent_id supplied f (start_fenced proof supplied (some f) r)
          (start_contained-fence proof supplied _ f.containment_epoch r ∙ e)
          (start_contained-Inactive proof supplied _ f.containment_epoch r))

  admit-Inactive :
      (env : Env W) (proof : Ref) (agent_id : String) (supplied : Bool) (f : FenceRecord)
      (r : Registration W)
      → r.fence ≡ some f
      → Inactive (admit env proof agent_id supplied r)
  unfolding admit
  admit-Inactive env proof agent_id supplied f r e =
      fenced_start-Inactive env proof agent_id supplied f _ (
        after-fence _ _ (some f) (λ r'. repair_recovered-fence env agent_id r'.fence r'.prior r')
          (after-fence _ _ (some f)
            (λ r'. reconstruct_missing-fence env agent_id r'.fence r'.prior r')
            (read_prior-fence agent_id r ∙ e)))

  announced-agents :
      (env : Env W) (agent_id : String) (s : Service W) (q : Result (Unit {0}) × W)
      → (announced env agent_id s q).1.agents ≡ s.agents
  unfolding announced
  announced-agents env agent_id s (ok _, w) = refl
  announced-agents env agent_id s (raised x, w) = refl

  controller_of-runtime :
      (supplied : Option (Controller W)) (r : Runtime) → (controller_of supplied r).runtime ≡ r
  unfolding controller_of new_controller
  controller_of-runtime none r = refl
  controller_of-runtime (some c) r = refl

  stored-Inactive :
      (env : Env W) (capability : Ref) (agent_id : String) (supplied : Option (Controller W))
      (policy : PolicyEngine) (s : Service W) (q : Reply W) (m : ManagedAgent W)
      → managed agent_id s ≡ none
      → Inactive q
      → managed agent_id (stored env capability agent_id supplied policy s q).1 ≡ some m
      → is_active m.containment.runtime.state ≡ false
  unfolding stored
  stored-Inactive env capability agent_id supplied policy s (raised x, r) m new i h = cc (new, h)
  stored-Inactive env capability agent_id supplied policy s (ok _, r) m new i h =
      let M : ManagedAgent W = record {
        containment = controller_of supplied (rotate_recovery_capability capability r.runtime).1;
        policy = policy;
        identity_digest = none;
        identity_pid = none;
        identity_cgroup = none;
        recovery_capability = some (rotate_recovery_capability capability r.runtime).0;
      } in
      let there : ◌≡◌ {A = Option (ManagedAgent W)} (some M) (some m) =
        sym (lookup-insert_self agent_id M s.agents) ∙ (rw announced-agents at h) in
      let same : M ≡ m = ground (arith, there) in
      rw (← same) (rw controller_of-runtime (rotated capability r.runtime (i refl)))

-- An agent that has a durable fence when it is registered does not start executable, whether its
-- runtime is its own or a supplied one, and whether or not the audit of the registration fails: if
-- it is managed after the call, its runtime is not active.
pub registered_inactive :
    {W : Type 0} (env : Env W) (proof capability : Ref) (agent_id : String) (own : Runtime)
    (supplied : Option (Controller W)) (policy : PolicyEngine) (s : Service W) (f : FenceRecord)
    (m : ManagedAgent W)
    → managed agent_id s ≡ none
    → Fences.get agent_id s.fences ≡ some f
    → managed agent_id (register env proof capability agent_id own supplied policy s).1 ≡ some m
    → is_active m.containment.runtime.state ≡ false
unfolding register
registered_inactive env proof capability agent_id own supplied policy s f m new fenced h =
    elim (Bool-cases ((runtime_of supplied own).agent_id =s agent_id)) [
      | inr other ↦ cc (rw (new, other) at h, new)
      | inl same ↦
          stored-Inactive env capability agent_id supplied policy s _ m new
            (admit-Inactive env proof agent_id (is_some supplied) f _ fenced) (rw (new, same) at h)
    ]
