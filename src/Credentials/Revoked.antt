-- ===== src/Credentials/Revoked.antt =====
-- What revoking every credential of a store makes of it.
use agent_containment.Base.{
  ◌≡◌, ◌<◌, refl, String, true, false, Option, none, some, arith, contains,
}
use agent_containment.Runtime.{Runtime}
use agent_containment.Credentials.{
  CredentialLease, CredentialStore, epoch_of, revoke_all, valid, held,
}
use agent_containment.Credentials.Leases.{bump_all-lt}

-- Where there was a store, there is one in which no lease is valid, with or without a runtime, and
-- in which the epoch of each credential that was in it has advanced.
abbrev pub Revoked : Option CredentialStore → Option CredentialStore → Type 0
Revoked none after = after ≡ none
Revoked (some s) after =
    (s' : CredentialStore) × (after ≡ some s')
    × ((r : Option Runtime) (lease : CredentialLease) → valid r lease s' ≡ false)
    × ((c : String) → contains c s.credentials ≡ true → epoch_of c s.epochs < epoch_of c s'.epochs)

empty-valid :
    (r : Option Runtime) (lease : CredentialLease) (s : CredentialStore)
    → valid r lease (revoke_all s) ≡ false
unfolding valid revoke_all contains held
empty-valid none lease s = refl
empty-valid (some r) lease s = ground arith

pub revoke_all-Revoked : (s : CredentialStore) → Revoked (some s) (some (revoke_all s))
unfolding revoke_all
revoke_all-Revoked s =
    (_, refl, λ r lease. empty-valid r lease s, λ c h. bump_all-lt c s.credentials s.epochs h)
