-- ===== src/Service/Fencing.antt =====
-- What `ContainmentService.contain` promises of the agent and of the durable evidence, whatever the
-- disk, the audit log, the event sink and the enforcers do.
use agent_containment.Base.{
  ℕ, ◌+◌, ◌≡◌, ◌≢◌, inl, inr, refl, String, true, false, Option, none, some, List, [], ◌∷◌, ◌++◌,
  Exc, Result, ok, raised, Bool-cases, Option-cases, is_empty, arith, is_ok, ◌∙◌,
}
use agent_containment.Base.Dict.{lookup-insert_self, lookup-insert_ne}
use agent_containment.Runtime
use agent_containment.Runtime.{Ref}
use agent_containment.Runtime.Fenced.{IsContained, contain-IsContained}
use agent_containment.Credentials.Revoked.{Revoked}
use agent_containment.Containment.Fencing.{credentials-Revoked}
use agent_containment.Fences
use agent_containment.Fences.{FenceRecord, FenceRegistry}
use agent_containment.Fences.Restart.{prepare_lem}
use agent_containment.Incidents.{IncidentRecord, IncidentRegistry}
use agent_containment.Incidents.Replies.{Open, record_containment-ok, mark_proof_degraded-Open}
use agent_containment.Containment
use agent_containment.Containment.{ContainmentReport, durable, none_of, with_persistence_failure}
use agent_containment.Service.{
  Env, Service, ManagedAgent, managed, unnamed, failure_of, incident_id_of,
}
use agent_containment.Service.Contain.{
  Recorded, recorded, prepare_fence, record_incident, audited, after_audit, degrade, as_unit,
  reported, concluded, noted, finished, contain_managed, contain,
}

-- What an agent is after a containment.
pub record IsFenced {W : Type 0} (fresh : Ref) (m m' : ManagedAgent W) : Type 0 where
  pub fenced : IsContained fresh m.containment.runtime m'.containment.runtime
  pub revoked : Revoked m.containment.credentials m'.containment.credentials
  pub no_capability : m'.containment.capabilities ≡ []
  pub no_identity : m'.identity_digest ≡ none
  pub no_pid : m'.identity_pid ≡ none
  pub same_enforcers : m'.containment.enforcers ≡ m.containment.enforcers

pub named :
    {W : Type 0} (env : Env W) (agent_id : String)
    → is_empty agent_id ≡ false
    → unnamed env agent_id ≡ false
unfolding unnamed
named env agent_id h = ground arith

contain_managed-named :
    {W : Type 0} (env : Env W) (fresh : Ref) (agent_id : String) (m : ManagedAgent W)
    (s : Service W)
    → is_empty agent_id ≡ false
    → contain_managed env fresh agent_id m s
      ≡ finished env agent_id m s (
          recorded env fresh agent_id m s.incidents
            (prepare_fence env agent_id (m.containment.runtime.epoch + 1) s.fences s.world))
unfolding contain_managed
contain_managed-named env fresh agent_id m s h = rw (named env agent_id h) refl

contain-managed :
    {W : Type 0} (env : Env W) (fresh : Ref) (agent_id : String) (m : ManagedAgent W)
    (s : Service W)
    → managed agent_id s ≡ some m
    → contain env fresh agent_id s ≡ contain_managed env fresh agent_id m s
unfolding contain
contain-managed env fresh agent_id m s h = rw (h, contain) refl

-- Containing a registered agent that has a name leaves it fenced, in every outcome, an exception
-- included: its runtime is contained at the next epoch with the fresh proof and otherwise the same,
-- it is not executable and no lease of it is valid; no lease of a credential is valid, neither a
-- capability nor an identity that was issued before is left, and the enforcers stay. No other agent
-- is touched.
pub contain_fences_agent :
    {W : Type 0} (env : Env W) (fresh : Ref) (agent_id : String) (m : ManagedAgent W)
    (s : Service W)
    → is_empty agent_id ≡ false
    → managed agent_id s ≡ some m
    → ((m' : ManagedAgent W) × (managed agent_id (contain env fresh agent_id s).1 ≡ some m')
        × IsFenced fresh m m')
      × ((j : String) → agent_id ≢ j → managed j (contain env fresh agent_id s).1 ≡ managed j s)
unfolding finished recorded Containment.contain
contain_fences_agent env fresh agent_id m s h found =
    rw
      (contain-managed env fresh agent_id m s found, contain_managed-named env fresh agent_id m s h)
      (
        (
          _,
          lookup-insert_self agent_id _ s.agents,
          record {
            fenced = contain-IsContained fresh m.containment.runtime;
            revoked = credentials-Revoked m.containment.credentials;
            no_capability = refl;
            no_identity = refl;
            no_pid = refl;
            same_enforcers = refl;
          },
        ),
        λ j n. lookup-insert_ne agent_id j _ s.agents n,
      )

with_persistence_failure-durable :
    (failure : String) (r report : ContainmentReport)
    → with_persistence_failure failure r ≡ ok report
    → durable report ≡ false
unfolding with_persistence_failure durable
with_persistence_failure-durable failure r report h = elim (Bool-cases (is_empty failure)) [
  | inl e ↦ cc (rw e at h)
  | inr e ↦
      let same : record r { persistence_failures = r.persistence_failures ++ (failure ∷ []) }
          ≡ report =
        ground (arith, rw e at h) in
      rw (← same) (longer r.persistence_failures)
]
  where
    longer : (l : List String) → none_of (l ++ (failure ∷ [])) ≡ false
    longer [] = refl
    longer (x ∷ l) = refl

failure_of-ok :
    {A : Type 0} (what : String) (r : Result A) → failure_of what r ≡ none → is_ok r ≡ true
unfolding failure_of
failure_of-ok what (ok a) h = refl
failure_of-ok what (raised x) h = cc

noted-durable :
    (f : Option String) (r report : ContainmentReport)
    → noted f r ≡ ok report
    → durable report ≡ true
    → f ≡ none
noted-durable none r report h d = refl
noted-durable (some f) r report h d = cc (with_persistence_failure-durable f r report h, d)

module _ {W : Type 0} (env : Env W) (agent_id : String) where
  concluded-durable :
      (id : String) (f : Option String) (q : Result ContainmentReport) (w : W)
      (report : ContainmentReport)
      → (concluded env agent_id id f q w).0 ≡ ok report
      → durable report ≡ true
      → (f ≡ none) × (q ≡ ok report)
  unfolding concluded
  concluded-durable id f (raised x) w report h d = cc
  concluded-durable id (some f) (ok r) w report h d =
      cc (with_persistence_failure-durable f r report h, d)
  concluded-durable id none (ok r) w report h d = (refl, h)

  -- A durable report comes of replies that returned.
  reported-durable :
      (r : Recorded W) (q : Result (Unit {0})) (w : W) (report : ContainmentReport)
      → (reported env agent_id r q w).0 ≡ ok report
      → durable report ≡ true
      → (is_ok r.fence_reply ≡ true) × (is_ok r.incident_reply ≡ true)
  unfolding reported
  reported-durable r (raised x) w report h d = cc
  reported-durable r (ok _) w report h d =
      let (no_incident_failure, q) = concluded-durable r.incident_id _ _ _ report h d in
      (
        failure_of-ok _ r.fence_reply (noted-durable _ r.report report q d),
        failure_of-ok _ r.incident_reply no_incident_failure,
      )

  as_unit-kept : (m : Result IncidentRecord × IncidentRegistry) → (as_unit m).1 ≡ m.1
  unfolding as_unit
  as_unit-kept (ok r, i) = refl
  as_unit-kept (raised x, i) = refl

  degrade-Open :
      (id : String) (e : ℕ) (x : Exc) (i : IncidentRegistry) (w : W)
      → Open id agent_id e i
      → Open id agent_id e (degrade env id x i w).0.1
  unfolding degrade
  degrade-Open id e x i w o =
      rw (o.found, as_unit-kept) (mark_proof_degraded-Open (env.disk w).0 _ id agent_id e i o)

  audited-Open :
      (id : String) (e : ℕ) (i : IncidentRegistry) (w : W)
      → Open id agent_id e i
      → Open id agent_id e (audited env agent_id id i w).0.1
  unfolding audited
  audited-Open id e i w o = elim (Option-cases env.audit) [
    | inl no_audit ↦ rw no_audit o
    | inr (f, h) ↦ rw h (on_reply (f _ w))
  ]
    where
      on_reply : (q : Result (Unit {0}) × W) → Open id agent_id e (after_audit env id i q).0.1
      on_reply (ok _, w') = o
      on_reply (raised x, w') = degrade-Open id e x i w' o

  prepare_fence-ok :
      (e : ℕ) (fences : FenceRegistry) (w : W)
      → is_ok (prepare_fence env agent_id e fences w).0.0 ≡ true
      → Fences.get agent_id (prepare_fence env agent_id e fences w).0.1
        ≡ some (record { agent_id = agent_id; containment_epoch = e })
  unfolding prepare_fence
  prepare_fence-ok e fences w h = elim (prepare_lem (env.disk w).0 agent_id e fences) [
    | inl (there, _, _) ↦ there
    | inr (no_reply, _) ↦ cc
  ]

  finished-durable :
      (fresh : Ref) (m : ManagedAgent W) (s : Service W) (report : ContainmentReport)
      → let e = m.containment.runtime.epoch + 1 in
        let q = finished env agent_id m s (
          recorded env fresh agent_id m s.incidents
            (prepare_fence env agent_id e s.fences s.world)) in
        q.0 ≡ ok report
        → durable report ≡ true
        → (Fences.get agent_id q.1.fences
            ≡ some (record { agent_id = agent_id; containment_epoch = e }))
          × Open (incident_id_of agent_id e) agent_id e q.1.incidents
  unfolding finished recorded record_incident Containment.contain Runtime.contain
  finished-durable fresh m s report h d =
      let e = m.containment.runtime.epoch + 1 in
      let fence = prepare_fence env agent_id e s.fences s.world in
      let (f, i) =
        reported-durable (recorded env fresh agent_id m s.incidents fence) _ _ report h d in
      (
        prepare_fence-ok e s.fences s.world f,
        audited-Open (incident_id_of agent_id e) e _ _
            (record_containment-ok _ _ (incident_id_of agent_id e) agent_id e _ s.incidents i),
      )

-- If containing a registered agent that has a name returns a report that is durable, the registries
-- hold the evidence: the agent's fence at the epoch of the containment, and an incident of this agent
-- and epoch that is recoverable, contained or with a degraded proof, whether or not the audit failed.
pub contain_durable :
    {W : Type 0} (env : Env W) (fresh : Ref) (agent_id : String) (m : ManagedAgent W)
    (s : Service W) (report : ContainmentReport)
    → is_empty agent_id ≡ false
    → managed agent_id s ≡ some m
    → (contain env fresh agent_id s).0 ≡ ok report
    → durable report ≡ true
    → let e = m.containment.runtime.epoch + 1 in
      let s' = (contain env fresh agent_id s).1 in
      (Fences.get agent_id s'.fences ≡ some (record { agent_id = agent_id; containment_epoch = e }))
      × Open (incident_id_of agent_id e) agent_id e s'.incidents
contain_durable env fresh agent_id m s report h found got d =
    let same : contain env fresh agent_id s
        ≡ finished env agent_id m s (
            recorded env fresh agent_id m s.incidents
              (prepare_fence env agent_id (m.containment.runtime.epoch + 1) s.fences s.world)) =
      contain-managed env fresh agent_id m s found
      ∙ contain_managed-named env fresh agent_id m s h in
    rw same (finished-durable env agent_id fresh m s report (rw same at got) d)
