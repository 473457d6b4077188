-- ===== src/Runtime/Leases.antt =====
-- Execution leases over a whole run of the runtime.
use agent_containment.Base.{
  ◌<◌, ◌≡◌, ◌≢◌, ◌↔◌, ◌⊎◌, inl, refl, true, false, some, List, [], ◌∷◌, ◌++◌, arith, eq_refl,
  eq_iff,
}
use agent_containment.Runtime.{
  Ref, Runtime, active, ExecutionLease, halt, contain, restore_contained,
  rotate_recovery_capability, recover, restore_active, acquire_lease, lease_valid,
}
use agent_containment.Runtime.Trace.{Call, Live, step, run, run-append}

-- Where a lease with the proof `p` stands: it is the current one of an active runtime, or another
-- proof has taken its place.
abbrev Tracked : Ref → Live → Type 0
Tracked p s =
    (p < s.next)
    × (((s.runtime.lease_proof ≡ p) × (s.runtime.state ≡ active)) ⊎ (s.runtime.lease_proof ≢ p))

abbrev Stale : Ref → Live → Type 0
Stale p s = (p < s.next) × (s.runtime.lease_proof ≢ p)

step-Tracked : (p : Ref) (s : Live) (c : Call) → Tracked p s → Tracked p (step s c)
unfolding step halt contain restore_contained rotate_recovery_capability recover restore_active
step-Tracked p s Call.halt_call h = ground arith
step-Tracked p s _ h = ground arith

step-Stale : (p : Ref) (s : Live) (c : Call) → Stale p s → Stale p (step s c)
unfolding step halt contain restore_contained rotate_recovery_capability recover restore_active
step-Stale p s Call.halt_call h = ground arith
step-Stale p s _ h = ground arith

run-Tracked : (p : Ref) (s : Live) (cs : List Call) → Tracked p s → Tracked p (run s cs)
unfolding run
run-Tracked p s [] h = h
run-Tracked p s (c ∷ cs) h = run-Tracked p (step s c) cs (step-Tracked p s c h)

run-Stale : (p : Ref) (s : Live) (cs : List Call) → Stale p s → Stale p (run s cs)
unfolding run
run-Stale p s [] h = h
run-Stale p s (c ∷ cs) h = run-Stale p (step s c) cs (step-Stale p s c h)

Stale-of_inactive : (p : Ref) (s : Live) → Tracked p s → s.runtime.state ≢ active → Stale p s
Stale-of_inactive p s h n = ground arith

acquired-proof :
    (r : Runtime) (lease : ExecutionLease)
    → acquire_lease r ≡ some lease
    → (lease.proof ≡ some r.lease_proof) × (r.state ≡ active)
unfolding acquire_lease
acquired-proof r lease h = ground arith

lease_valid-of-Stale :
    (p : Ref) (s : Live) (lease : ExecutionLease)
    → lease.proof ≡ some p
    → Stale p s
    → lease_valid lease s.runtime ≡ false
unfolding lease_valid
lease_valid-of-Stale p s lease e h = ground arith

-- A lease that was acquired in some state of a run is refused in every later state that comes after
-- one in which the runtime was not active: halting, containing and recovering in between, in any
-- order and with any arguments, never make it valid again.
pub lease_dies :
    (s : Live) (before after : List Call) (lease : ExecutionLease)
    → s.runtime.lease_proof < s.next
    → acquire_lease s.runtime ≡ some lease
    → (run s before).runtime.state ≢ active
    → lease_valid lease (run s (before ++ after)).runtime ≡ false
lease_dies s before after lease alloc got inactive =
    let (proof, act) = acquired-proof s.runtime lease got in
    rw run-append (
      lease_valid-of-Stale s.runtime.lease_proof (run (run s before) after) lease proof (
        run-Stale s.runtime.lease_proof (run s before) after (
          Stale-of_inactive s.runtime.lease_proof (run s before)
            (run-Tracked s.runtime.lease_proof s before (alloc, inl (refl, act))) inactive)))

-- The valid leases are exactly those that the runtime would give now: the runtime is active, and
-- the lease has its agent, its epoch and its current proof.
pub lease_valid_iff :
    (lease : ExecutionLease) (r : Runtime)
    → (lease_valid lease r ≡ true) ↔ (acquire_lease r ≡ some lease)
unfolding lease_valid acquire_lease
lease_valid_iff lease r =
    (ground (arith, eq_iff lease.agent_id r.agent_id), ground (arith, eq_refl r.agent_id))
