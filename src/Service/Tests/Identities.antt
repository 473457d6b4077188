-- ===== src/Service/Tests/Identities.antt =====
-- Identity tokens at concrete inputs.
use agent_containment.Base.{◌≡◌, refl, false, some, pos, ok, inr, is_ok}
use agent_containment.Base.Dict.{lookup}
use agent_containment.Service.Identities.{Authenticates, issued-Authenticates}
use agent_containment.Service.Tests.{service}
use agent_containment.Service.Workloads.{issue_identity_token}

token_issued : (issue_identity_token (λ t. t) "secret" "a" (some (pos 3)) service).0 ≡ ok "secret"
unfolding issue_identity_token lookup
token_issued = refl

issued-Authenticates_example :
    Authenticates
      (λ t. t)
      "a"
      "secret"
      3
      (issue_identity_token (λ t. t) "secret" "a" (some (pos 3)) service).1
issued-Authenticates_example =
    issued-Authenticates (λ t. t) "secret" "a" (some (pos 3)) 3 service "secret" token_issued refl
      (inr refl)

-- A process number that is not positive is refused.
bad_peer_refused :
    is_ok (issue_identity_token (λ t. t) "secret" "a" (some (pos 0)) service).0 ≡ false
unfolding issue_identity_token
bad_peer_refused = refl
