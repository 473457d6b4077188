-- ===== src/Gateway/Effects.antt =====
-- When the executor of an action runs.
use mathlib.Core.Path.{subst}
use agent_containment.Base.{
  ◌≡◌, ◌≢◌, refl, sym, ◌⊎◌, inl, inr, not, ◌=s◌, String, Bool, true, false, Option, none, some,
  arith, eq_iff, if◌then◌else◌, Bool-cases,
}
use agent_containment.Runtime.{
  Ref, Runtime, ExecutionLease, can_execute, acquire_lease, lease_valid, execute_if_active,
}
use agent_containment.Models.{Action, Decision, DecisionType, allow, is_allow}
use agent_containment.Egress.{EgressLease, as_execution, egress_lease_valid}
use agent_containment.Gateway.{
  Gateway, Reply, decided, result, denied, recorded, decision_on, authorize, acquire, executed,
  under_lease, execute_with_lease, execute_egress, execute_own, execute,
}

denied-allow : (a : Action) (reason : String) → (denied a reason).decision ≢ allow
denied-allow a reason h = cc h

allowed-decision : (d : DecisionType) → is_allow d ≡ true → d ≡ allow
allowed-decision d h = ground arith

decision_on-allow :
    {W : Type 0} (a : Action) (g : Gateway W)
    → (decision_on a g).0.decision ≡ allow
    → (a.agent_id ≡ g.containment.runtime.agent_id) × (can_execute g.containment.runtime ≡ true)
unfolding decision_on
decision_on-allow a g h = elim (Bool-cases (a.agent_id =s g.containment.runtime.agent_id)) [
  | inr f ↦ absurd (denied-allow a "" (rw (f, decision_on) at h))
  | inl y ↦ elim (Bool-cases (can_execute g.containment.runtime)) [
    | inr f ↦ absurd (denied-allow a "" (rw (y, decision_on, f) at h))
    | inl z ↦ ((eq_iff a.agent_id g.containment.runtime.agent_id).0 y, z)
  ]
]

if_not-true : {A : Type 0} (b : Bool) (x y : A) → b ≡ true → (if not b then x else y) ≡ y
if_not-true b x y h = rw h refl

acquire_lease-none : (r : Runtime) → acquire_lease r ≡ none → can_execute r ≢ true
unfolding acquire_lease
acquire_lease-none r h y = ground arith

module _ {W V T : Type 0} (executor : Action → V → T × V) (between : Gateway W → Gateway W)
    (fresh : Ref) (a : Action) where
  -- Either a decision that is not to allow the action is returned and the tools' world is as it was;
  -- or the action was allowed by the policy for the runtime's own agent while that was executable,
  -- the lease was valid when the executor ran, and what it did is what happened.
  abbrev pub Guarded : ExecutionLease → Gateway W → V → (Reply T × Gateway W) × V → Type 0
  Guarded lease g v ((reply, g'), v') =
      ((d : Decision) × (reply ≡ decided d) × (d.decision ≢ allow) × (v' ≡ v))
      ⊎ ((t : T) × (reply ≡ result t)
          × ((t, v') ≡ executor a v)
          × (a.agent_id ≡ g.containment.runtime.agent_id)
          × (can_execute g.containment.runtime ≡ true)
          × ((decision_on a g).0.decision ≡ allow)
          × (lease_valid lease (between (authorize fresh a g).1).containment.runtime ≡ true))

  execute_if_active-valid :
      (lease : ExecutionLease) (r : Runtime) (v : V)
      → lease_valid lease r ≡ true
      → execute_if_active lease (executor a) r v ≡ (some (executor a v).0, (executor a v).1)
  unfolding execute_if_active
  execute_if_active-valid lease r v h = rw (h, execute_if_active) refl

  execute_if_active-invalid :
      (lease : ExecutionLease) (r : Runtime) (v : V)
      → lease_valid lease r ≡ false
      → execute_if_active lease (executor a) r v ≡ (none, v)
  unfolding execute_if_active
  execute_if_active-invalid lease r v h = rw (h, execute_if_active) refl

  under_lease-Guarded :
      (keep : Decision → Gateway W → Gateway W) (lost : Decision) (lease : ExecutionLease)
      (g : Gateway W) (v : V)
      → lost.decision ≢ allow
      → Guarded lease g v (under_lease executor between keep lost fresh a lease g v)
  unfolding under_lease executed authorize
  under_lease-Guarded keep lost lease g v n =
      elim (Bool-cases (is_allow (decision_on a g).0.decision)) [
        | inr f ↦ rw (f, under_lease) (inl (_, refl, (λ e. absurd (ground (arith, f, e))), refl))
        | inl y ↦
            let (same, active) = decision_on-allow a g (allowed-decision _ y) in
            let r = (between (authorize fresh a g).1).containment.runtime in
            elim (Bool-cases (lease_valid lease r)) [
              | inr f ↦
                  rw (y, under_lease, execute_if_active-invalid lease r v f)
                    (inl (_, refl, n, refl))
              | inl h ↦
                  rw (y, under_lease, execute_if_active-valid lease r v h)
                    (inr (_, refl, refl, same, active, allowed-decision _ y, h))
            ]
      ]

  execute_with_lease-valid :
      (lease : ExecutionLease) (g : Gateway W) (v : V)
      → (a.agent_id =s g.containment.runtime.agent_id) ≡ true
      → lease_valid lease g.containment.runtime ≡ true
      → execute_with_lease executor between fresh a lease g v
        ≡ under_lease executor between recorded
            (denied a "execution lease invalidated before side effect")
            fresh
            a
            lease
            g
            v
  unfolding execute_with_lease
  execute_with_lease-valid lease g v y z = rw (y, execute_with_lease, z) refl

  execute_egress-valid :
      (lease : EgressLease) (g : Gateway W) (v : V)
      → (a.agent_id =s g.containment.runtime.agent_id) ≡ true
      → egress_lease_valid lease g.containment.runtime ≡ true
      → execute_egress executor between fresh a lease g v
        ≡ under_lease executor between
            (λ d h. h)
            (denied a "egress lease invalidated before network side effect")
            fresh
            a
            (as_execution lease)
            g
            v
  unfolding execute_egress
  execute_egress-valid lease g v y z = rw (y, execute_egress, z) refl

  -- Executing under a lease either returns a decision that is not to allow the action, and then the
  -- executor did not run; or it returns what the executor returned, and then the action was one of
  -- the runtime's own agent, which was executable, the policy allowed it, and the lease was valid
  -- when the executor ran, whatever other threads did since the authorization.
  pub execute_with_lease-Guarded :
      (lease : ExecutionLease) (g : Gateway W) (v : V)
      → Guarded lease g v (execute_with_lease executor between fresh a lease g v)
  unfolding execute_with_lease
  execute_with_lease-Guarded lease g v =
      elim (Bool-cases (a.agent_id =s g.containment.runtime.agent_id)) [
        | inr f ↦ rw (f, execute_with_lease) (inl (_, refl, denied-allow a "", refl))
        | inl y ↦ elim (Bool-cases (lease_valid lease g.containment.runtime)) [
          | inr f ↦ rw (y, execute_with_lease, f) (inl (_, refl, denied-allow a "", refl))
          | inl z ↦
              subst (λ r. Guarded lease g v r) (sym (execute_with_lease-valid lease g v y z))
                (under_lease-Guarded recorded _ lease g v (denied-allow a ""))
        ]
      ]

  execute_egress-Guarded :
      (lease : EgressLease) (g : Gateway W) (v : V)
      → Guarded (as_execution lease) g v (execute_egress executor between fresh a lease g v)
  unfolding execute_egress
  execute_egress-Guarded lease g v =
      elim (Bool-cases (a.agent_id =s g.containment.runtime.agent_id)) [
        | inr f ↦ rw (f, execute_egress) (inl (_, refl, denied-allow a "", refl))
        | inl y ↦ elim (Bool-cases (egress_lease_valid lease g.containment.runtime)) [
          | inr f ↦ rw (y, execute_egress, f) (inl (_, refl, denied-allow a "", refl))
          | inl z ↦
              subst (λ r. Guarded (as_execution lease) g v r)
                (sym (execute_egress-valid lease g v y z))
                (under_lease-Guarded (λ d h. h) _ (as_execution lease) g v (denied-allow a ""))
        ]
      ]

  -- What `execute` promises, whose lease is its own.
  abbrev pub Unleased : Gateway W → V → (Reply T × Gateway W) × V → Type 0
  Unleased g v ((reply, g'), v') =
      ((d : Decision) × (reply ≡ decided d) × (d.decision ≢ allow) × (v' ≡ v))
      ⊎ ((lease : ExecutionLease) × (acquire_lease g.containment.runtime ≡ some lease)
          × Guarded lease g v ((reply, g'), v'))

  execute_own-Unleased :
      (g : Gateway W) (v : V) (o : Option ExecutionLease)
      → acquire_lease g.containment.runtime ≡ o
      → Unleased g v (execute_own executor between fresh a g v o)
  unfolding execute_own authorize
  execute_own-Unleased g v none n = inl (
    (decision_on a g).0,
    refl,
    λ al. absurd (acquire_lease-none g.containment.runtime n (decision_on-allow a g al).1),
    refl,
  )
  execute_own-Unleased g v (some lease) e = inr (
    lease,
    e,
    under_lease-Guarded recorded (denied a "execution lease invalidated before side effect") lease g
        v (denied-allow a ""),
  )

  execute-matching :
      (g : Gateway W) (v : V)
      → (a.agent_id =s g.containment.runtime.agent_id) ≡ true
      → execute executor between fresh a g v
        ≡ execute_own executor between fresh a g v (acquire_lease g.containment.runtime)
  unfolding execute acquire
  execute-matching g v y =
      if_not-true _ _
        (execute_own executor between fresh a g v (acquire_lease g.containment.runtime)) y

  -- Without a lease of the caller's, the lease is one that the runtime gave at the start of the call:
  -- the executor runs only if an active runtime gave it, the policy allowed the action of its agent,
  -- and the lease was still valid when the executor ran; else it did not run.
  pub execute-Guarded :
      (g : Gateway W) (v : V) → Unleased g v (execute executor between fresh a g v)
  unfolding execute
  execute-Guarded g v = elim (Bool-cases (a.agent_id =s g.containment.runtime.agent_id)) [
    | inr f ↦ rw (f, execute) (inl (_, refl, denied-allow a "", refl))
    | inl y ↦
        subst (λ r. Unleased g v r) (sym (execute-matching g v y))
          (execute_own-Unleased g v (acquire_lease g.containment.runtime) refl)
  ]
