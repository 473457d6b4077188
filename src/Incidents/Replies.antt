-- ===== src/Incidents/Replies.antt =====
-- What the service relies on when an operation of the incident registry returns.
use agent_containment.Base.{
  ℕ, ◌≡◌, inl, inr, refl, String, true, Option, some, pos, Exc, ok, is_ok, is_empty, ◌||◌,
  Bool-cases, Option-cases,
}
use agent_containment.Base.Dict.{lookup, insert, lookup-insert_self}
use agent_containment.Durable.{commit}
use agent_containment.Durable.Reload.{commit-cases}
use agent_containment.Incidents.{
  IncidentRecord, IncidentRegistry, is_recovered, is_recoverable, record_containment,
  mark_recovered, mark_proof_degraded, require, degrade_found, replace, degraded, admitted, get,
}

-- An incident of the agent and the epoch is there, and can be recovered.
pub record Open (id agent_id : String) (epoch : ℕ) (s : IncidentRegistry) : Type 0 where
  pub incident : IncidentRecord
  pub found : get id s ≡ some incident
  pub of_agent : incident.agent_id ≡ agent_id
  pub at_epoch : incident.containment_epoch ≡ epoch
  pub recoverable : is_recoverable incident.state ≡ true

replace-ok :
    (failure : Option Exc) (id : String) (new : IncidentRecord) (s : IncidentRegistry)
    (r : IncidentRecord)
    → (replace failure id new s).0 ≡ ok r
    → (get id (replace failure id new s).1 ≡ some new) × (r ≡ new)
unfolding replace get
replace-ok failure id new s r h = elim (commit-cases failure (insert id new s.records) new s) [
  | inl (done, placed, _) ↦ (rw placed (lookup-insert_self id new s.records), cc (h, done))
  | inr (x, refused, _) ↦ cc (h, refused)
]

pub mark_recovered-ok :
    (failure : Option Exc) (id : String) (s : IncidentRegistry) (r : IncidentRecord)
    → (mark_recovered failure id s).0 ≡ ok r
    → (get id (mark_recovered failure id s).1 ≡ some r) × (is_recovered r.state ≡ true)
unfolding mark_recovered
mark_recovered-ok failure id s r h = elim (Option-cases (lookup id s.records)) [
  | inl e ↦ cc (rw (e, require) at h)
  | inr (q, e) ↦ elim (Bool-cases (is_recoverable q.state)) [
    | inl y ↦
        let (g, f) = replace-ok failure id (admitted q) s r (rw (e, require, y) at h) in
        rw (e, require, y, f) (g, refl)
    | inr y ↦ cc (rw (e, require, y) at h)
  ]
]

commit-Open :
    (failure : Option Exc) (id : String) (new : IncidentRecord) (s : IncidentRegistry)
    → is_recoverable new.state ≡ true
    → is_ok (commit failure (insert id new s.records) new s).0 ≡ true
    → Open id new.agent_id new.containment_epoch (commit failure (insert id new s.records) new s).1
unfolding get
commit-Open failure id new s k h = elim (commit-cases failure (insert id new s.records) new s) [
  | inl (done, placed, _) ↦ record {
    incident = new;
    found = rw placed (lookup-insert_self id new s.records);
    of_agent = refl;
    at_epoch = refl;
    recoverable = k;
  }
  | inr (x, refused, _) ↦ cc (rw refused at h)
]

pub record_containment-ok :
    (failure : Option Exc) (now : ℕ) (id agent_id : String) (e : ℕ) (reason : Option String)
    (s : IncidentRegistry)
    → is_ok (record_containment failure now id agent_id (pos e) reason s).0 ≡ true
    → Open id agent_id e (record_containment failure now id agent_id (pos e) reason s).1
unfolding record_containment get
record_containment-ok failure now id agent_id e reason s h =
    elim (Bool-cases (is_empty id || is_empty agent_id)) [
      | inl y ↦ cc (rw y at h)
      | inr y ↦ elim (Option-cases (lookup id s.records)) [
        | inr (q, f) ↦ cc (rw (y, f) at h)
        | inl f ↦ rw (y, f) (commit-Open failure id _ s refl (rw (y, f) at h))
      ]
    ]

pub mark_proof_degraded-Open :
    (failure : Option Exc) (reason id agent_id : String) (e : ℕ) (s : IncidentRegistry)
    → Open id agent_id e s
    → Open id agent_id e (mark_proof_degraded failure id reason s).1
unfolding mark_proof_degraded get degraded degrade_found replace
mark_proof_degraded-Open failure reason id agent_id e s o = elim (Bool-cases (is_empty reason)) [
  | inl y ↦ rw y o
  | inr y ↦
      elim (commit-cases failure (insert id (degraded reason o.incident) s.records)
        (degraded reason o.incident) s) [
          | inl (done, placed, _) ↦ record {
            incident = degraded reason o.incident;
            found =
                rw (y, o.found, require, placed)
                  (lookup-insert_self id (degraded reason o.incident) s.records);
            of_agent = o.of_agent;
            at_epoch = o.at_epoch;
            recoverable = refl;
          }
          | inr (x, refused, same) ↦ rw (y, o.found, require, same) o
        ]
]
