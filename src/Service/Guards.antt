-- ===== src/Service/Guards.antt =====
-- The guards of a recovery, all of them at once.
use agent_containment.Base.{
  ℕ, ◌≡◌, inl, inr, refl, String, true, Option, none, some, Result, ok, raised, ◌=s◌, ◌==◌,
  Bool-cases, arith, eq_iff,
}
use agent_containment.Runtime.{is_contained}
use agent_containment.Incidents.{IncidentRecord, IncidentRegistry, latest_for_agent, is_recoverable}
use agent_containment.Service.{ManagedAgent, RecoveryAuthorization}
use agent_containment.Service.Admission.{
  admission, same_capability, recoverable_of, recoverable_reply, authorized_at, runtime_at,
}

-- The authorization is the agent's, its capability the current one, the incident the agent's latest
-- and recoverable, and authorization, incident and contained runtime are at one epoch.
pub record Admits {W : Type 0} (agent_id : String) (authorization : RecoveryAuthorization)
    (m : ManagedAgent W) (incidents : IncidentRegistry) (i : IncidentRecord) : Type 0 where
  pub bound : authorization.agent_id ≡ agent_id
  pub current : same_capability authorization.capability m.recovery_capability ≡ true
  pub latest : latest_for_agent agent_id incidents ≡ ok (some i)
  pub recoverable : is_recoverable i.state ≡ true
  pub authorized : authorization.containment_epoch ≡ i.containment_epoch
  pub fenced : is_contained m.containment.runtime.state ≡ true
  pub at_epoch : m.containment.runtime.epoch ≡ i.containment_epoch

recoverable_reply-ok :
    (r : Result (Option IncidentRecord)) (i : IncidentRecord)
    → recoverable_reply r ≡ ok i
    → (r ≡ ok (some i)) × (is_recoverable i.state ≡ true)
unfolding recoverable_reply
recoverable_reply-ok (raised x) i h = cc
recoverable_reply-ok (ok none) i h = cc
recoverable_reply-ok (ok (some j)) i h = elim (Bool-cases (is_recoverable j.state)) [
  | inl y ↦
      let k : ◌≡◌ {A = Result IncidentRecord} (ok j) (ok i) = rw (y, recoverable_reply) at h in
      (cc k, cc (k, y))
  | inr y ↦ cc (rw (y, recoverable_reply) at h)
]

checks-ok :
    {W : Type 0} (epoch : ℕ) (m : ManagedAgent W) (r : Result IncidentRecord) (i : IncidentRecord)
    → runtime_at m.containment.runtime (authorized_at epoch r) ≡ ok i
    → (r ≡ ok i)
      × (epoch ≡ i.containment_epoch)
      × (is_contained m.containment.runtime.state ≡ true)
      × (m.containment.runtime.epoch ≡ i.containment_epoch)
unfolding runtime_at authorized_at
checks-ok epoch m (raised x) i h = cc
checks-ok epoch m (ok j) i h = elim (Bool-cases (epoch == j.containment_epoch)) [
  | inr y ↦ cc (rw (y, runtime_at) at h)
  | inl y ↦ elim (Bool-cases (is_contained m.containment.runtime.state)) [
    | inr z ↦ cc (rw (y, z) at h)
    | inl z ↦ elim (Bool-cases (m.containment.runtime.epoch == j.containment_epoch)) [
      | inr x ↦ cc (rw (y, z, x) at h)
      | inl x ↦
          let k : ◌≡◌ {A = Result IncidentRecord} (ok j) (ok i) = rw (y, z, x) at h in
          let same : j ≡ i = ground (arith, k) in
          rw (← same) (refl, ground (arith, y), z, ground (arith, x))
    ]
  ]
]

-- An incident that the guards of a recovery admit is the agent's latest one and recoverable; the
-- authorization is this agent's and carries its current recovery capability; and the authorization,
-- the incident and the runtime, which is contained, are all at one epoch.
pub admission-Admits :
    {W : Type 0} (agent_id : String) (authorization : RecoveryAuthorization) (m : ManagedAgent W)
    (incidents : IncidentRegistry) (i : IncidentRecord)
    → admission agent_id authorization m incidents ≡ ok i
    → Admits agent_id authorization m incidents i
unfolding admission recoverable_of
admission-Admits agent_id authorization m incidents i h =
    elim (Bool-cases (authorization.agent_id =s agent_id)) [
      | inr y ↦ cc (rw y at h)
      | inl y ↦ elim (Bool-cases (same_capability authorization.capability m.recovery_capability)) [
        | inr z ↦ cc (rw (y, z) at h)
        | inl z ↦
            let (r, e, f, q) = checks-ok authorization.containment_epoch m _ i (rw (y, z) at h) in
            let (l, k) = recoverable_reply-ok (latest_for_agent agent_id incidents) i r in
            record {
              bound = (eq_iff authorization.agent_id agent_id).0 y;
              current = z;
              latest = l;
              recoverable = k;
              authorized = e;
              fenced = f;
              at_epoch = q;
            }
      ]
    ]
