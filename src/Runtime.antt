-- ===== src/Runtime.antt =====
-- src/agent_containment/runtime.py: the runtime of one agent, whose epoch and lease proof
-- invalidate outstanding execution leases. A method that mutates the runtime returns the new one;
-- `object()` and `_RecoveryCapability()` are references, and the caller passes the fresh one.
pub mod Fenced
pub mod Trace
pub mod Leases
pub mod Recovery
mod Tests
use agent_containment.Base.{
  [], ◌∷◌, ℕ, ◌+◌, String, Bool, true, false, ◌&&◌, not, Option, none, some, ◌==◌, ◌=s◌,
  if◌then◌else◌, ℤ, pos, negsuc, Result, ok, raise, value_error, permission_error, runtime_error,
  concat, decimal,
}

-- The identity of an object.
abbrev pub Ref : Type 0
Ref = ℕ

pub data RuntimeState : Type 0 where
  active paused halted contained : RuntimeState

-- `RuntimeState.value`
abbrev pub state_value : RuntimeState → String
state_value active = "active"
state_value paused = "paused"
state_value halted = "halted"
state_value contained = "contained"

abbrev pub is_active : RuntimeState → Bool
is_active active = true
is_active _ = false

abbrev pub is_contained : RuntimeState → Bool
is_contained contained = true
is_contained _ = false

pub record ExecutionLease : Type 0 where
  pub agent_id : String
  pub epoch : ℕ
  pub proof : Option Ref

pub record RuntimeSnapshot : Type 0 where
  pub runtime_id : String
  pub agent_id : String
  pub epoch : ℕ
  pub state : RuntimeState
  pub can_execute : Bool

pub record Runtime : Type 0 where
  pub agent_id : String
  pub runtime_id : String
  pub state : RuntimeState
  pub epoch : ℕ
  pub lease_proof : Ref
  pub recovery_capability : Ref

-- `Runtime.__init__`; the generated UUID is an argument.
unfoldable pub new : String → Option String → String → Ref → Ref → Runtime
new agent_id runtime_id uuid proof capability = record {
  agent_id = agent_id;
  runtime_id = given runtime_id;
  state = active;
  epoch = 0;
  lease_proof = proof;
  recovery_capability = capability;
}
  where
    given : Option String → String
    given none = uuid
    given (some id) = if id =s "" then uuid else id

unfoldable pub halt : Ref → Runtime → Runtime
halt fresh r = record r { state = halted; epoch = r.epoch + 1; lease_proof = fresh }

unfoldable pub contain : Ref → Runtime → Runtime
contain fresh r = record r { state = contained; epoch = r.epoch + 1; lease_proof = fresh }

unfoldable pub restore_from : RuntimeState → ℕ → Ref → Runtime → Result (Unit {0}) × Runtime
restore_from active e fresh r =
    (ok tt, record r { state = contained; epoch = e; lease_proof = fresh })
restore_from contained e fresh r = if r.epoch == e then (ok tt, r) else (
  raise value_error
      (concat ("contained runtime epoch mismatch: " ∷ decimal r.epoch ∷ " != " ∷ decimal e ∷ [])),
  r,
)
restore_from state e fresh r = (
  raise value_error
      (concat ("cannot restore contained state from runtime state " ∷ state_value state ∷ [])),
  r,
)

unfoldable pub restore_contained : ℤ → Ref → Runtime → Result (Unit {0}) × Runtime
unfolding restore_from
restore_contained (negsuc _) fresh r = (raise value_error "epoch must be non-negative", r)
restore_contained (pos e) fresh r = restore_from r.state e fresh r

-- `_rotate_recovery_capability`
unfoldable pub rotate_recovery_capability : Ref → Runtime → Ref × Runtime
rotate_recovery_capability fresh r = (fresh, record r { recovery_capability = fresh })

unfoldable pub recover : Ref → ℤ → Ref → Runtime → Result ℕ × Runtime
recover capability (negsuc _) fresh r = (raise value_error "expected_epoch must be non-negative", r)
recover capability (pos e) fresh r =
    if not (capability == r.recovery_capability)
    then (raise permission_error "recovery requires current controller authorization", r)
    else if not (is_contained r.state)
    then (raise runtime_error (concat ("runtime is not contained: " ∷ state_value r.state ∷ [])), r)
    else if not (r.epoch == e)
    then (
      raise runtime_error (
          concat
            ("contained runtime epoch mismatch: " ∷ decimal r.epoch ∷ " != " ∷ decimal e ∷ [])),
      r,
    )
    else (ok (r.epoch + 1), record r { epoch = r.epoch + 1; state = active; lease_proof = fresh })

-- `_restore_active`
unfoldable pub restore_active : ℤ → Ref → Runtime → Result (Unit {0}) × Runtime
restore_active (negsuc _) fresh r = (raise value_error "epoch must be non-negative", r)
restore_active (pos e) fresh r =
    (ok tt, record r { state = active; epoch = e; lease_proof = fresh })

abbrev pub can_execute : Runtime → Bool
can_execute r = is_active r.state

unfoldable pub snapshot : Runtime → RuntimeSnapshot
snapshot r = record {
  runtime_id = r.runtime_id;
  agent_id = r.agent_id;
  epoch = r.epoch;
  state = r.state;
  can_execute = is_active r.state;
}

abbrev pub current_lease : Runtime → ExecutionLease
current_lease r = record { agent_id = r.agent_id; epoch = r.epoch; proof = some r.lease_proof }

unfoldable pub acquire_lease : Runtime → Option ExecutionLease
acquire_lease r = if not (is_active r.state) then none else some (current_lease r)

-- The callback of `issue_if_active` works on state of its own, which it returns.
unfoldable pub issue_if_active :
    {S T : Type 0} → (ExecutionLease → S → T × S) → Runtime → S → Option T × S
issue_if_active issuer r s =
    if not (is_active r.state)
    then (none, s)
    else (let (t, s') = issuer (current_lease r) s in (some t, s'))

abbrev same_proof : Option Ref → Ref → Bool
same_proof none q = false
same_proof (some p) q = p == q

unfoldable pub lease_valid : ExecutionLease → Runtime → Bool
lease_valid lease r =
    lease.agent_id =s r.agent_id
    && (lease.epoch == r.epoch && (same_proof lease.proof r.lease_proof && is_active r.state))

-- The executor runs under the runtime's lock on state of its own.
unfoldable pub execute_if_active :
    {S T : Type 0} → ExecutionLease → (S → T × S) → Runtime → S → Option T × S
unfolding lease_valid
execute_if_active lease executor r s =
    if not (lease_valid lease r) then (none, s) else (let (t, s') = executor s in (some t, s'))
