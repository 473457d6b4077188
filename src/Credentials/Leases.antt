-- ===== src/Credentials/Leases.antt =====
-- Credential leases over the operations of the store.
use agent_containment.Base.{
  ◌⊎◌, inl, inr, if◌then◌else◌, ℕ, ◌+◌, ◌≤◌, ◌<◌, ◌≡◌, refl, String, true, false, none, some, List,
  [], ◌∷◌, ok, arith, ◌=s◌, eq_iff, eq_refl, Bool-cases, contains, is_ok,
}
use agent_containment.Base.Dict.{Dict, insert, lookup-insert}
use agent_containment.Runtime.{Runtime, is_active, lease_valid}
use agent_containment.Credentials.{
  CredentialLease, CredentialStore, add, epoch_of, issue, revoke, bump_all, revoke_all, held, valid,
}

epoch_of-insert :
    (c d : String) (e : ℕ) (epochs : Dict ℕ)
    → epoch_of d (insert c e epochs) ≡ (if c =s d then e else epoch_of d epochs)
unfolding epoch_of
epoch_of-insert c d e epochs = ground (arith, lookup-insert c d e epochs)

bump_all-le :
    (d : String) (cs : List String) (epochs : Dict ℕ)
    → epoch_of d epochs ≤ epoch_of d (bump_all cs epochs)
unfolding bump_all
bump_all-le d [] epochs = omega arith
bump_all-le d (c ∷ cs) epochs = ground (
  arith,
  eq_iff c d,
  epoch_of-insert c d (epoch_of c epochs + 1) epochs,
  bump_all-le d cs (insert c (epoch_of c epochs + 1) epochs),
)

pub bump_all-lt :
    (d : String) (cs : List String) (epochs : Dict ℕ)
    → contains d cs ≡ true
    → epoch_of d epochs < epoch_of d (bump_all cs epochs)
unfolding bump_all contains
bump_all-lt d [] epochs h = ground arith
bump_all-lt d (c ∷ cs) epochs h = elim (Bool-cases (c =s d)) [
  | inl e ↦ ground (
    arith,
    eq_iff c d,
    epoch_of-insert c d (epoch_of c epochs + 1) epochs,
    bump_all-le d cs (insert c (epoch_of c epochs + 1) epochs),
  )
  | inr e ↦ ground (
    arith,
    eq_iff c d,
    epoch_of-insert c d (epoch_of c epochs + 1) epochs,
    bump_all-lt d cs (insert c (epoch_of c epochs + 1) epochs),
  )
]

-- The calls on a store without a runtime.
pub data Call : Type 0 where
  issue_call revoke_call : String → Call
  revoke_all_call : Call

unfoldable pub call : Call → CredentialStore → CredentialStore
call (issue_call c) s = (issue none c s).1
call (revoke_call c) s = revoke c s
call revoke_all_call s = revoke_all s

unfoldable pub run : CredentialStore → List Call → CredentialStore
run s [] = s
run s (c ∷ calls) = run (call c s) calls

call-epoch :
    (d : String) (c : Call) (s : CredentialStore)
    → epoch_of d s.epochs ≤ epoch_of d (call c s).epochs
unfolding call issue revoke revoke_all
call-epoch d (issue_call c) s = omega arith
call-epoch d (revoke_call c) s =
    ground (arith, eq_iff c d, epoch_of-insert c d (epoch_of c s.epochs + 1) s.epochs)
call-epoch d revoke_all_call s = bump_all-le d s.credentials s.epochs

run-epoch :
    (d : String) (s : CredentialStore) (calls : List Call)
    → epoch_of d s.epochs ≤ epoch_of d (run s calls).epochs
unfolding run
run-epoch d s [] = omega arith
run-epoch d s (c ∷ calls) = omega (arith, call-epoch d c s, run-epoch d (call c s) calls)

held_lem :
    (lease : CredentialLease) (s : CredentialStore)
    → held lease s ≡ true
    → (contains lease.credential_id s.credentials ≡ true)
      × (lease.epoch ≡ epoch_of lease.credential_id s.epochs)
unfolding held
held_lem lease s h = ground arith

revocation-lt :
    (lease : CredentialLease) (s : CredentialStore) (c : Call)
    → held lease s ≡ true
    → (c ≡ revoke_call lease.credential_id) ⊎ (c ≡ revoke_all_call)
    → lease.epoch < epoch_of lease.credential_id (call c s).epochs
unfolding call revoke revoke_all
revocation-lt lease s c h (inl e) = rw e (
    ground (
      arith,
      held_lem lease s h,
      eq_refl lease.credential_id,
      epoch_of-insert lease.credential_id lease.credential_id
          (epoch_of lease.credential_id s.epochs + 1) s.epochs,
    ))
revocation-lt lease s c h (inr e) =
    let (there, same) = held_lem lease s h in
    rw e (omega (arith, same, bump_all-lt lease.credential_id s.credentials s.epochs there))

not_held :
    (lease : CredentialLease) (s : CredentialStore)
    → lease.epoch < epoch_of lease.credential_id s.epochs
    → held lease s ≡ false
unfolding held
not_held lease s h = ground arith

-- In a store without a runtime, a lease that was valid before a revocation of its credential, or of
-- all, is refused ever after: whatever is issued and revoked later, the credential itself included.
pub revoked_stays_invalid :
    (lease : CredentialLease) (s : CredentialStore) (c : Call) (later : List Call)
    → valid none lease s ≡ true
    → (c ≡ revoke_call lease.credential_id) ⊎ (c ≡ revoke_all_call)
    → valid none lease (run (call c s) later) ≡ false
unfolding valid
revoked_stays_invalid lease s c later before revoked = not_held lease (run (call c s) later) (
    omega (
      arith,
      revocation-lt lease s c before revoked,
      run-epoch lease.credential_id (call c s) later,
    ))

-- In a store with a runtime, no lease is valid while the runtime is not active, and then none is
-- issued: the call raises and leaves the store as it was.
pub inactive_refuses :
    (r : Runtime) (s : CredentialStore) (c : String) (lease : CredentialLease)
    → is_active r.state ≡ false
    → (valid (some r) lease s ≡ false)
      × (is_ok (issue (some r) c s).0 ≡ false)
      × ((issue (some r) c s).1 ≡ s)
unfolding valid issue lease_valid
inactive_refuses r s c lease h = (ground arith, ground arith, ground arith)

contains-add : (c : String) (cs : List String) → contains c (add c cs) ≡ true
unfolding contains add
contains-add c cs = elim (Bool-cases (contains c cs)) [ inl e ↦ rw e e | inr e ↦ rw (e, eq_refl) ]

abbrev bound_lease : Runtime → String → CredentialLease
bound_lease r c = record { credential_id = c; epoch = r.epoch; proof = some r.lease_proof }

abbrev with_bound : Runtime → String → CredentialStore → CredentialStore
with_bound r c s = record { credentials = add c s.credentials; epochs = insert c r.epoch s.epochs }

issue_active :
    (r : Runtime) (c : String) (s : CredentialStore)
    → is_active r.state ≡ true
    → issue (some r) c s ≡ (ok (bound_lease r c), with_bound r c s)
unfolding issue
issue_active r c s h = ground arith

epoch_of-insert_self : (c : String) (e : ℕ) (epochs : Dict ℕ) → epoch_of c (insert c e epochs) ≡ e
epoch_of-insert_self c e epochs = rw (epoch_of-insert, eq_refl) refl

valid_bound :
    (r : Runtime) (c : String) (s : CredentialStore)
    → is_active r.state ≡ true
    → valid (some r) (bound_lease r c) (with_bound r c s) ≡ true
unfolding valid lease_valid
valid_bound r c s h = ground (
  arith,
  eq_refl r.agent_id,
  contains-add c s.credentials,
  epoch_of-insert_self c r.epoch s.epochs,
)

revoked_bound :
    (r : Runtime) (c : String) (s : CredentialStore)
    → valid (some r) (bound_lease r c) (revoke c (with_bound r c s)) ≡ false
unfolding valid revoke
revoked_bound r c s = ground (
  arith,
  epoch_of-insert_self c (epoch_of c (insert c r.epoch s.epochs) + 1) (insert c r.epoch s.epochs),
  epoch_of-insert_self c r.epoch s.epochs,
)

-- In a store with an active runtime, revoking a credential does not end a lease for good: issuing
-- the credential again in the same runtime epoch makes the revoked lease valid again, whatever the
-- store holds.
pub reissue_revalidates :
    (r : Runtime) (s : CredentialStore) (c : String) (lease : CredentialLease)
    → is_active r.state ≡ true
    → (issue (some r) c s).0 ≡ ok lease
    → (valid (some r) lease (revoke c (issue (some r) c s).1) ≡ false)
      × (valid (some r) lease (issue (some r) c (revoke c (issue (some r) c s).1)).1 ≡ true)
reissue_revalidates r s c lease h got =
    let same : lease ≡ bound_lease r c = ground (arith, issue_active r c s h) in
    rw (same, issue_active r c s h, issue_active r c (revoke c (with_bound r c s)) h)
      (revoked_bound r c s, valid_bound r c (revoke c (with_bound r c s)) h)
