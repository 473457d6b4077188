-- ===== src/Credentials.antt =====
-- src/agent_containment/credentials.py: revocable credentials. Where the store has a runtime, the
-- caller passes that object as it is at the time of the call.
pub mod Leases
pub mod Revoked
mod Tests
use agent_containment.Base.{
  ℕ, ◌+◌, String, Bool, true, false, ◌&&◌, not, Option, none, some, List, [], ◌∷◌, if◌then◌else◌,
  ◌==◌, ◌=s◌, Result, ok, raise, runtime_error, contains,
}
use agent_containment.Base.Dict.{Dict, lookup, insert}
use agent_containment.Runtime.{
  Ref, Runtime, ExecutionLease, issue_if_active, lease_valid, execute_if_active,
}

pub record CredentialLease : Type 0 where
  pub credential_id : String
  pub epoch : ℕ
  pub proof : Option Ref

pub record CredentialStore : Type 0 where
  pub credentials : List String
  pub epochs : Dict ℕ

-- `self.credentials.add(c)` and `discard(c)` on a set.
unfoldable pub add : String → List String → List String
add c cs = if contains c cs then cs else c ∷ cs

unfoldable pub discard : String → List String → List String
discard c [] = []
discard c (d ∷ ds) = let rest : List String = discard c ds in if d =s c then rest else d ∷ rest

-- `self._epochs.get(c, 0)`
unfoldable pub epoch_of : String → Dict ℕ → ℕ
epoch_of c epochs = elim (lookup c epochs) [ none ↦ 0 | some e ↦ e ]

-- The nested function `issue`, run under the runtime's lock.
issue_bound : String → ExecutionLease → CredentialStore → CredentialLease × CredentialStore
issue_bound c lease s = (
  record { credential_id = c; epoch = lease.epoch; proof = lease.proof },
  record { credentials = add c s.credentials; epochs = insert c lease.epoch s.epochs },
)

issued : Option CredentialLease × CredentialStore → Result CredentialLease × CredentialStore
issued (none, s) = (raise runtime_error "credential issuance requires an active runtime", s)
issued (some lease, s) = (ok lease, s)

unfoldable pub issue :
    Option Runtime → String → CredentialStore → Result CredentialLease × CredentialStore
unfolding issue_bound issued issue_if_active
issue (some r) c s = issued (issue_if_active (issue_bound c) r s)
issue none c s = (
  ok (record { credential_id = c; epoch = epoch_of c s.epochs; proof = none }),
  record s { credentials = add c s.credentials },
)

unfoldable pub revoke : String → CredentialStore → CredentialStore
revoke c s = record {
  credentials = discard c s.credentials;
  epochs = insert c (epoch_of c s.epochs + 1) s.epochs;
}

-- The loop of `revoke_all` over the credentials.
unfoldable pub bump_all : List String → Dict ℕ → Dict ℕ
bump_all [] epochs = epochs
bump_all (c ∷ cs) epochs = bump_all cs (insert c (epoch_of c epochs + 1) epochs)

unfoldable pub revoke_all : CredentialStore → CredentialStore
revoke_all s = record { credentials = []; epochs = bump_all s.credentials s.epochs }

-- `lease.credential_id in credentials and lease.epoch == epochs.get(lease.credential_id, 0)`
unfoldable pub held : CredentialLease → CredentialStore → Bool
held lease s =
    contains lease.credential_id s.credentials
    && lease.epoch == epoch_of lease.credential_id s.epochs

abbrev pub runtime_lease : Runtime → CredentialLease → ExecutionLease
runtime_lease r lease = record { agent_id = r.agent_id; epoch = lease.epoch; proof = lease.proof }

unfoldable pub valid : Option Runtime → CredentialLease → CredentialStore → Bool
unfolding held
valid none lease s = held lease s
valid (some r) lease s = if not (lease_valid (runtime_lease r lease) r) then false else held lease s

-- The nested function `guarded`.
guarded : {S T : Type 0} → CredentialLease → (S → T × S) → CredentialStore → S → Option T × S
guarded lease executor s x =
    if not (held lease s) then (none, x) else (let (t, x') = executor x in (some t, x'))

flat : {S T : Type 0} → Option (Option T) × S → Option T × S
flat (none, x) = (none, x)
flat (some t, x) = (t, x)

unfoldable pub execute_if_valid :
    {S T : Type 0}
    → Option Runtime
    → CredentialLease
    → (S → T × S)
    → CredentialStore
    → S
    → Option T × S
unfolding guarded flat execute_if_active held
execute_if_valid none lease executor s x = guarded lease executor s x
execute_if_valid (some r) lease executor s x =
    flat (execute_if_active (runtime_lease r lease) (guarded lease executor s) r x)
