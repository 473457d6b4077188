-- ===== src/Credentials/Tests.antt =====
-- Concrete credentials: tests, and each theorem about credentials at an input that meets its
-- hypotheses.
use agent_containment.Base.{◌≡◌, inl, refl, true, false, none, some, [], ◌∷◌, ok, contains}
use agent_containment.Base.Dict.{lookup}
use agent_containment.Runtime.{Runtime, active}
use agent_containment.Credentials.{CredentialLease, CredentialStore, epoch_of, issue, revoke, valid}
use agent_containment.Credentials.Leases.{
  call, run, issue_call, revoke_call, revoked_stays_invalid, reissue_revalidates,
}

abbrev store : CredentialStore
store = record { credentials = "key" ∷ []; epochs = [] }

abbrev lease : CredentialLease
lease = record { credential_id = "key"; epoch = 0; proof = none }

abbrev agent : Runtime
agent = record {
  agent_id = "a";
  runtime_id = "r";
  state = active;
  epoch = 3;
  lease_proof = 0;
  recovery_capability = 1;
}

abbrev empty : CredentialStore
empty = record { credentials = []; epochs = [] }

abbrev bound : CredentialLease
bound = record { credential_id = "key"; epoch = 3; proof = some 0 }

issued : (issue (some agent) "key" empty).0 ≡ ok bound
unfolding issue
issued = refl

revoked_stays_invalid_example :
    valid none lease (run (call (revoke_call "key") store) (issue_call "key" ∷ [])) ≡ false
unfolding valid contains epoch_of lookup
revoked_stays_invalid_example =
    revoked_stays_invalid lease store (revoke_call "key") (issue_call "key" ∷ []) refl (inl refl)

reissue_revalidates_example :
    (valid (some agent) bound (revoke "key" (issue (some agent) "key" empty).1) ≡ false)
    × (valid
          (some agent)
          bound
          (issue (some agent) "key" (revoke "key" (issue (some agent) "key" empty).1)).1
        ≡ true)
reissue_revalidates_example = reissue_revalidates agent empty "key" bound refl issued
