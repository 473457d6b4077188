-- ===== src/Service/Tests/Reviews.antt =====
-- Reviews and verified authorizations at concrete inputs.
use agent_containment.Base.{ℕ, ◌≡◌, refl, false, none, some, [], ◌∷◌, ok, pos, contains, is_ok}
use agent_containment.Base.Dict.{lookup, insert}
use agent_containment.Models.{Decision, allow}
use agent_containment.Policy.{evaluate, push, effective_risk, first_match}
use agent_containment.Review
use agent_containment.Review.{VerificationSignal, ReviewRequest, decision_from_verification}
use agent_containment.Service.{ManagedAgent, managed, unnamed}
use agent_containment.Service.Authorized.{Authorizes}
use agent_containment.Service.Authorize.{
  authorize, concluded, decided, authenticated, token_matches, pid_matches, unchanged, same_text,
  same_number,
}
use agent_containment.Service.Tests.{
  env, service, presented, read, allowed, read-allowed, member, engine,
}
use agent_containment.Service.Verified.{
  Passes, base_of, verified_of, Fenced, verified-allow, blocked-Fenced,
}
use agent_containment.Service.Later.{Later}
use agent_containment.Service.Lifecycle.{Approves, approve_review-Approves}
use agent_containment.Service.Escalation
use agent_containment.Service.Escalation.{Step, Steps, steps-Later, escalate_review-Fenced}
use agent_containment.Service.Reviews.{
  Reviewing, authorize_verified, approve_review, escalate_review, review,
}

abbrev passing : VerificationSignal
passing = record {
  disposition = "allow";
  report_fingerprint = "r";
  policy_fingerprint = "p";
  blocking_claim_ids = [];
  review_claim_ids = [];
  supported_claim_count = pos 1;
  total_claim_count = pos 1;
  trace_id = none;
  run_id = none;
  action_id = none;
  version = pos 1;
}

abbrev blocking : VerificationSignal
blocking = record passing { disposition = "block" }

abbrev request : ReviewRequest
request = record {
  review_id = "a:review:1";
  agent_id = "a";
  action_id = "1";
  requested_at = 5;
  deadline = 20;
  state = Review.pending;
}

abbrev quiet : Reviewing ℕ
quiet = record { service = service; reviews = [] }

abbrev waiting : Reviewing ℕ
waiting = record { service = service; reviews = ("a:review:1", request) ∷ [] }

abbrev passed : Decision
passed = record allowed { reason = "claim verification allows action" }

read_passes :
    (verified_of env 900 "1" (λ t. t) (λ s. s) 5 6 presented read passing quiet).0 ≡ ok passed
unfolding authorize lookup concluded decided authenticated token_matches pid_matches unchanged
    same_text same_number evaluate contains effective_risk first_match authorize_verified
    decision_from_verification unnamed
read_passes = refl

verified-allow_example :
    ((base : Decision) × ((base_of env 900 "1" (λ t. t) (λ s. s) 5 6 presented read passing quiet).0
        ≡ ok base)
      × (base.decision ≡ allow))
    × Passes read passing
    × Authorizes (λ t. t) (λ s. s) presented read service
verified-allow_example =
    verified-allow env 900 "1" (λ t. t) (λ s. s) 5 6 presented read passing quiet passed read_passes
      refl

-- The agent after the policy recorded what it read.
abbrev reader : ManagedAgent ℕ
reader = record member { policy = record engine { history = "read" ∷ [] } }

still_managed :
    managed "a" (base_of env 900 "1" (λ t. t) (λ s. s) 5 6 presented read blocking quiet).1
    ≡ some reader
unfolding authorize lookup concluded decided authenticated token_matches pid_matches unchanged
    same_text same_number evaluate contains effective_risk first_match insert push
still_managed = refl

blocked-Fenced_example :
    Fenced env 900 "1"
      (λ t. t)
      (λ s. s)
      5
      6
      presented
      read
      blocking
      reader
      (verified_of env 900 "1" (λ t. t) (λ s. s) 5 6 presented read blocking quiet).1.service
blocked-Fenced_example =
    blocked-Fenced env 900 "1" (λ t. t) (λ s. s) 5 6 presented read blocking quiet allowed reader
      refl refl read-allowed refl refl still_managed

abbrev approval : Decision
approval = record allowed { reason = "human review approved" }

request-approved : (approve_review env "a:review:1" waiting).0 ≡ ok approval
unfolding approve_review lookup Review.state_at unnamed
request-approved = refl

approve_review-Approves_example :
    Approves env "a:review:1" waiting (approve_review env "a:review:1" waiting) approval
approve_review-Approves_example =
    approve_review-Approves env "a:review:1" waiting approval request-approved

waiting_request : lookup "a:review:1" waiting.reviews ≡ some request
unfolding lookup
waiting_request = refl

escalate_review-Fenced_example :
    Escalation.Fenced env 6 "a" member (escalate_review env 6 "a:review:1" waiting).1.service
unfolding lookup
escalate_review-Fenced_example =
    escalate_review-Fenced env 6 "a:review:1" waiting request member waiting_request refl refl refl

approved_then_reviewed :
    Steps env waiting (review env "a:review:1" (approve_review env "a:review:1" waiting).1).1
approved_then_reviewed = Steps.next (Step.approving "a:review:1" waiting) (
    Steps.next (Step.reviewing "a:review:1" (approve_review env "a:review:1" waiting).1)
      Steps.start)

steps-Later_example :
    Later waiting.reviews
      (review env "a:review:1" (approve_review env "a:review:1" waiting).1).1.reviews
steps-Later_example =
    steps-Later env waiting (review env "a:review:1" (approve_review env "a:review:1" waiting).1).1
      approved_then_reviewed

-- Approving an approved review again, and escalating it, raise.
approved_stays :
    is_ok (approve_review env "a:review:1" (approve_review env "a:review:1" waiting).1).0 ≡ false
unfolding approve_review lookup insert Review.state_at unnamed
approved_stays = refl
