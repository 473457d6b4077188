-- ===== src/Runtime/Fenced.antt =====
-- What containing a runtime makes of it.
use agent_containment.Base.{◌+◌, ◌≡◌, refl, false, arith}
use agent_containment.Runtime.{Ref, Runtime, ExecutionLease, contained, can_execute, lease_valid}
use agent_containment.Runtime

-- The runtime is contained at the next epoch with the given proof and is otherwise the same; it is
-- not executable, and no lease is valid in it.
abbrev pub IsContained : Ref → Runtime → Runtime → Type 0
IsContained fresh r r' =
    (r' ≡ record r { state = contained; epoch = r.epoch + 1; lease_proof = fresh })
    × (can_execute r' ≡ false)
    × ((lease : ExecutionLease) → lease_valid lease r' ≡ false)

pub contain-IsContained :
    (fresh : Ref) (r : Runtime) → IsContained fresh r (Runtime.contain fresh r)
unfolding Runtime.contain lease_valid
contain-IsContained fresh r = (refl, refl, λ lease. ground arith)
