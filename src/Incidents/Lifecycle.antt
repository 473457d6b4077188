-- ===== src/Incidents/Lifecycle.antt =====
-- The lifecycle of incidents: what each operation does to the record that it names, and what it
-- leaves alone.
use mathlib.Core.Path.{subst}
use agent_containment.Base.{
  ◌||◌, ℕ, ◌≡◌, ◌≢◌, ◌⊎◌, inl, inr, refl, ap, String, Bool, true, false, Option, none, some, Exc,
  Result, ok, raised, ℤ, pos, negsuc, arith, is_empty, Bool-cases, Option-cases,
}
use agent_containment.Base.Dict.{Dict, lookup, insert, lookup-insert_self, lookup-insert_ne}
use agent_containment.Durable.{commit}
use agent_containment.Durable.Reload.{commit-cases}
use agent_containment.Incidents.{
  IncidentState, IncidentRecord, IncidentRegistry, contained, recovered, proof_degraded,
  is_recovered, is_recoverable, record_containment, mark_proof_degraded, restore_contained,
  mark_recovered, attach_proof, require, degraded, degrade_found, restore_found, recover_found,
  attach_found, get,
}
use agent_containment.Incidents.Changes.{
  Call, record_call, degrade_call, restore_call, recover_call, attach_call, call, target,
  failure_of, Change, Impossible,
}

-- A condition on the record that was found cannot both fail and hold.
unchanged :
    (r q : IncidentRecord) (o : Option IncidentRecord) (p : IncidentState → Bool)
    → o ≡ some r
    → o ≡ some q
    → p r.state ≡ false
    → ¬ (p q.state ≡ true)
unchanged r q o p e f h g = let same : r ≡ q = cc (e, f) in cc (same, h, g)

recovered_too :
    (r q : IncidentRecord) (o : Option IncidentRecord)
    → o ≡ some r
    → o ≡ some q
    → is_recovered r.state ≡ true
    → q.state ≡ recovered
recovered_too r q o e f d =
    let same : r ≡ q = cc (e, f) in
    let t : is_recovered q.state ≡ true = rw (← same) d in ground (arith, t)

recoverable-cases :
    (t : IncidentState) → is_recoverable t ≡ true → (t ≡ contained) ⊎ (t ≡ proof_degraded)
recoverable-cases t h = ground (arith, h)

-- What a call has done, by how it ended.
abbrev pub Effect : Call → IncidentRegistry → Result IncidentRecord → IncidentRegistry → Type 0
Effect c s (ok r) s' =
    (get (target c) s' ≡ some r)
    × Change c (get (target c) s) r
    × ((j : String) → target c ≢ j → get j s' ≡ get j s)
Effect c s (raised x) s' = (s' ≡ s) × (Impossible c s ⊎ (failure_of c ≡ some x))

abbrev pub Does : Call → IncidentRegistry → Result IncidentRecord × IncidentRegistry → Type 0
Does c s m = Effect c s m.0 m.1

-- How a call ends: it is refused before anything is written, or it commits one changed record.
pub data Writes (c : Call) (s : IncidentRegistry) (m : Result IncidentRecord × IncidentRegistry)
    : Type 0 where
  refuses : (x : Exc) → Impossible c s → m ≡ (raised x, s) → Writes c s m
  commits :
      (r : IncidentRecord)
      → Change c (get (target c) s) r
      → m ≡ commit (failure_of c) (insert (target c) r s.records) r s
      → Writes c s m

-- The record that `_require` found, and the rest of the method.
require-Writes :
    (c : Call) (rest : IncidentRecord → IncidentRegistry → Result IncidentRecord × IncidentRegistry)
    (s : IncidentRegistry)
    → ((new : IncidentRecord) → ¬ Change c none new)
    → ((r : IncidentRecord) → get (target c) s ≡ some r → Writes c s (rest r s))
    → Writes c s (require (target c) rest s)
unfolding require get
require-Writes c rest s missing h = elim (Option-cases (lookup (target c) s.records)) [
  | inl e ↦
      rw (e, require) (refuses _ (λ new d. missing new (subst (λ o. Change c o new) e d)) refl)
  | inr (r, e) ↦ rw (e, require) (h r e)
]

degrade-Writes :
    (x : Option Exc) (i reason : String) (s : IncidentRegistry)
    → Writes (degrade_call x i reason) s (mark_proof_degraded x i reason s)
unfolding mark_proof_degraded degraded
degrade-Writes x i reason s = elim (Bool-cases (is_empty reason)) [
  | inl h ↦ rw h (refuses _ (λ new (r, _, f, _). cc (f, h)) refl)
  | inr h ↦ rw h (
      require-Writes (degrade_call x i reason) (degrade_found x i reason) s
        (λ new (r, e, _, _). cc e) (λ r e. commits _ (r, e, h, refl) refl))
]

restore-Writes :
    (x : Option Exc) (i : String) (s : IncidentRegistry)
    → Writes (restore_call x i) s (restore_contained x i s)
unfolding restore_contained
restore-Writes x i s =
    require-Writes (restore_call x i) (restore_found x i) s (λ new (r, e, _, _). cc e)
      λ r e. elim (Bool-cases (is_recovered r.state)) [
        | inl h ↦ rw h (commits _ (r, e, ground arith, refl) refl)
        | inr h ↦ rw h (
            refuses _
              (λ new (q, f, g, _).
                unchanged r q _ (λ t. is_recovered t) e f h (ap (λ t. is_recovered t) g))
              refl)
      ]

recover-Writes :
    (x : Option Exc) (i : String) (s : IncidentRegistry)
    → Writes (recover_call x i) s (mark_recovered x i s)
unfolding mark_recovered
recover-Writes x i s =
    require-Writes (recover_call x i) (recover_found x i) s (λ new (r, e, _, _). cc e)
      λ r e. elim (Bool-cases (is_recoverable r.state)) [
        | inl h ↦ rw h (commits _ (r, e, recoverable-cases r.state h, refl) refl)
        | inr h ↦ rw h (
            refuses _
              (λ new (q, f, g, _).
                unchanged r q _ (λ t. is_recoverable t) e f h (ground (arith, g)))
              refl)
      ]

attach-Writes :
    (x : Option Exc) (i reference : String) (s : IncidentRegistry)
    → Writes (attach_call x i reference) s (attach_proof x i reference s)
unfolding attach_proof
attach-Writes x i reference s = elim (Bool-cases (is_empty reference)) [
  | inl h ↦ rw h (refuses _ (λ new (r, _, f, _, _). cc (f, h)) refl)
  | inr h ↦ rw h (
      require-Writes (attach_call x i reference) (attach_found x i reference) s
        (λ new (r, e, _, _, _). cc e)
        λ r e. elim (Bool-cases (is_recovered r.state)) [
          | inl d ↦ rw d (refuses _ (λ new (q, f, _, g, _). g (recovered_too r q _ e f d)) refl)
          | inr d ↦ rw d (commits _ (r, e, h, (λ z. cc (d, z)), refl) refl)
        ])
]

record-Writes :
    (x : Option Exc) (now : ℕ) (i a : String) (e : ℤ) (reason : Option String)
    (s : IncidentRegistry)
    → Writes (record_call x now i a e reason) s (record_containment x now i a e reason s)
unfolding record_containment get
record-Writes x now i a (negsuc e) reason s = elim (Bool-cases (is_empty i || is_empty a)) [
  | inl h ↦ rw h (refuses _ (λ new (n, p, _, _, _, _). cc p) refl)
  | inr h ↦ rw h (refuses _ (λ new (n, p, _, _, _, _). cc p) refl)
]
record-Writes x now i a (pos e) reason s = elim (Bool-cases (is_empty i || is_empty a)) [
  | inl h ↦ rw h (refuses _ (λ new (n, p, o, f, g, _). ground (arith, f, g, h)) refl)
  | inr h ↦ elim (Option-cases (lookup i s.records)) [
    | inl fresh ↦ rw (h, fresh) (commits _ (e, refl, fresh, ground arith, ground arith, refl) refl)
    | inr (r, there) ↦ rw (h, there) (refuses _ (λ new (n, p, o, _, _, _). cc (o, there)) refl)
  ]
]

pub call-Writes : (c : Call) (s : IncidentRegistry) → Writes c s (call c s)
unfolding call
call-Writes (record_call x now i a e reason) s = record-Writes x now i a e reason s
call-Writes (degrade_call x i reason) s = degrade-Writes x i reason s
call-Writes (restore_call x i) s = restore-Writes x i s
call-Writes (recover_call x i) s = recover-Writes x i s
call-Writes (attach_call x i reference) s = attach-Writes x i reference s

commit-failure :
    {R : Type 0} (failure : Option Exc) (d : Dict IncidentRecord) (r : R) (s : IncidentRegistry)
    (x : Exc)
    → (commit failure d r s).0 ≡ raised x
    → failure ≡ some x
unfolding commit
commit-failure failure d r s x h = ground (arith, h)

Does-Writes :
    (c : Call) (s : IncidentRegistry) (m : Result IncidentRecord × IncidentRegistry)
    → Writes c s m
    → Does c s m
unfolding get
Does-Writes c s m (refuses x n e) = rw e (refl, inl n)
Does-Writes c s m (commits r d e) =
    elim (commit-cases (failure_of c) (insert (target c) r s.records) r s) [
      | inl (done, placed, path) ↦
          rw (e, done, placed)
            (
              lookup-insert_self (target c) r s.records,
              d,
              λ j n. lookup-insert_ne (target c) j r s.records n,
            )
      | inr (x, refused, same) ↦
          rw (e, refused)
            (
              same,
              inr (commit-failure (failure_of c) (insert (target c) r s.records) r s x refused),
            )
    ]

-- Every operation either makes the change that is meant by it, under the name that it is given,
-- returns the new record, and leaves every other incident alone, or it raises and leaves the registry
-- as it was, and then the change was not admitted or its write failed. The changes: a new incident
-- opens contained, with the agent, epoch, time and reason given; any incident may be degraded, which
-- drops its proof; only a recovered one is rolled back; only a contained or degraded one is
-- recovered, at the epoch after its containment; and a proof is attached to any but a recovered one.
pub call-Does : (c : Call) (s : IncidentRegistry) → Does c s (call c s)
call-Does c s = Does-Writes c s (call c s) (call-Writes c s)
