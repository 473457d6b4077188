-- ===== src/Service/Reviews.antt =====
-- The reviews of `ContainmentService`: a verifier's signal, which can hold back an action that the
-- controller allows, and the reviews that it asks for. The random part of a review's name is an
-- argument, `hex`.
use agent_containment.Base.{
  ℕ, ◌+◌, String, Bool, true, false, ◌&&◌, not, none, some, [], ◌∷◌, if◌then◌else◌, Result, ok,
  raised, raise, key_error, runtime_error, value_error, concat,
}
use agent_containment.Base.Dict.{Dict, lookup, insert}
use agent_containment.Runtime.{Ref}
use agent_containment.Models.{Action, Decision, allow, halt, is_allow, is_halt, is_pause}
use agent_containment.Containment.{ContainmentReport}
use agent_containment.Review.{
  ReviewState, ReviewRequest, review_value, state_at, VerificationSignal, bound_elsewhere,
  decision_from_verification,
}
use agent_containment.Review
use agent_containment.Service.{Env, Service, emit, unnamed}
use agent_containment.Service.Contain.{contain}
use agent_containment.Service.Authorize.{Credentials, authorize}

-- The service with its reviews.
pub record Reviewing (W : Type 0) : Type 0 where
  pub service : Service W
  pub reviews : Dict ReviewRequest

abbrev pub same_state : ReviewState → ReviewState → Bool
same_state Review.pending Review.pending = true
same_state Review.approved Review.approved = true
same_state Review.expired Review.expired = true
same_state Review.escalated Review.escalated = true
same_state _ _ = false

abbrev pub is_pending : ReviewState → Bool
is_pending Review.pending = true
is_pending _ = false

abbrev pub is_approved : ReviewState → Bool
is_approved Review.approved = true
is_approved _ = false

abbrev pub is_expired : ReviewState → Bool
is_expired Review.expired = true
is_expired _ = false

abbrev pub review_name : String → Action → String
review_name hex a = concat (a.agent_id ∷ ":review:" ∷ hex ∷ [])

module _ {W : Type 0} (env : Env W) where
  abbrev in_world : Reviewing W → W → Reviewing W
  in_world s w = record s { service = record s.service { world = w } }

  -- `_emit_event`, which raises for an event without an agent.
  unfoldable pub tell : String → String → Reviewing W → Result (Unit {0}) × Reviewing W
  tell type agent_id s =
      if unnamed env agent_id
      then (raise value_error "event_id, event_type, and agent_id must be non-empty", s)
      else (
        ok tt,
        in_world s (
            emit env
              (record {
                event_type = type;
                agent_id = agent_id;
                incident_id = none;
                containment_epoch = none;
              })
              s.service.world),
      )

  -- `current_state()`, which reads the clock only for a pending request.
  unfoldable pub read_state : ReviewRequest → ReviewState → W → ReviewState × W
  read_state r Review.pending w =
      let (now, w') = env.time w in (state_at now r.deadline Review.pending, w')
  read_state r s w = (s, w)

  unfoldable pub review_found :
      String → ReviewRequest → Reviewing W → Result ReviewRequest × Reviewing W
  unfolding read_state
  review_found id r s =
      let (state, w) = read_state r r.state s.service.world in
      if same_state state r.state then (ok r, in_world s w) else (
        ok (record r { state = state }),
        record s {
          service = record s.service { world = w };
          reviews = insert id (record r { state = state }) s.reviews;
        },
      )

  unfoldable pub review : String → Reviewing W → Result ReviewRequest × Reviewing W
  unfolding review_found
  review id s = elim (lookup id s.reviews) [
    | none ↦ (raise key_error (concat ("unknown review: " ∷ id ∷ [])), s)
    | some r ↦ review_found id r s
  ]

  unfoldable pub then_decide :
      Decision → Result (Unit {0}) × Reviewing W → Result Decision × Reviewing W
  then_decide d (raised x, s) = (raised x, s)
  then_decide d (ok _, s) = (ok d, s)

  unfoldable pub approve_reviewed :
      String → Result ReviewRequest × Reviewing W → Result Decision × Reviewing W
  unfolding tell then_decide
  approve_reviewed id (raised x, s) = (raised x, s)
  approve_reviewed id (ok r, s) =
      if is_expired r.state
      then (raise runtime_error "review has expired; request a new review", s)
      else if not (is_pending r.state)
      then (raise runtime_error (concat ("review is not pending: " ∷ review_value r.state ∷ [])), s)
      else then_decide
          (record { action_id = r.action_id; decision = allow; reason = "human review approved" })
          (tell "review_approved" r.agent_id
            (record s { reviews = insert id (record r { state = Review.approved }) s.reviews }))

  unfoldable pub approve_review : String → Reviewing W → Result Decision × Reviewing W
  unfolding approve_reviewed review
  approve_review id s = approve_reviewed id (review id s)

  unfoldable pub contained :
      Decision
      → Dict ReviewRequest
      → Result ContainmentReport × Service W
      → Result Decision × Reviewing W
  contained d reviews (raised x, s) = (raised x, record { service = s; reviews = reviews })
  contained d reviews (ok _, s) = (ok d, record { service = s; reviews = reviews })

  unfoldable pub escalate_told :
      Ref → ReviewRequest → Result (Unit {0}) × Reviewing W → Result Decision × Reviewing W
  unfolding contained
  escalate_told fresh r (raised x, s) = (raised x, s)
  escalate_told fresh r (ok _, s) =
      contained
        (record {
          action_id = r.action_id;
          decision = halt;
          reason = "review escalated to containment";
        })
        s.reviews (contain env fresh r.agent_id s.service)

  unfoldable pub escalate_reviewed :
      Ref → String → Result ReviewRequest × Reviewing W → Result Decision × Reviewing W
  unfolding escalate_told tell
  escalate_reviewed fresh id (raised x, s) = (raised x, s)
  escalate_reviewed fresh id (ok r, s) =
      if is_approved r.state
      then (raise runtime_error "approved review cannot be escalated", s)
      else escalate_told fresh r (
          tell "review_escalated" r.agent_id
            (record s { reviews = insert id (record r { state = Review.escalated }) s.reviews }))

  unfoldable pub escalate_review : Ref → String → Reviewing W → Result Decision × Reviewing W
  unfolding escalate_reviewed review
  escalate_review fresh id s = escalate_reviewed fresh id (review id s)

  -- `_create_review`, with the service's timeout.
  unfoldable pub create_review : ℕ → String → Action → Reviewing W → Reviewing W
  create_review timeout hex a s =
      let (now, w) = env.time s.service.world in
      record s {
        service = record s.service { world = w };
        reviews =
            insert (review_name hex a)
              (record {
                review_id = review_name hex a;
                agent_id = a.agent_id;
                action_id = a.action_id;
                requested_at = now;
                deadline = now + timeout;
                state = Review.pending;
              })
              s.reviews;
      }

  -- What follows the event of the evaluation, after a decision `base` of the controller.
  unfoldable pub enforced :
      ℕ
      → String
      → Ref
      → Action
      → Decision
      → Decision
      → Result (Unit {0}) × Reviewing W
      → Result Decision × Reviewing W
  unfolding contained create_review tell then_decide
  enforced timeout hex fresh a base d (raised x, s) = (raised x, s)
  enforced timeout hex fresh a base d (ok _, s) =
      if is_allow base.decision && is_halt d.decision
      then contained d s.reviews (contain env fresh a.agent_id s.service)
      else if is_allow base.decision && is_pause d.decision
      then then_decide d (tell "review_requested" a.agent_id (create_review timeout hex a s))
      else (ok d, s)

  unfoldable pub after_base :
      ℕ
      → String
      → Ref
      → Action
      → VerificationSignal
      → Dict ReviewRequest
      → Result Decision × Service W
      → Result Decision × Reviewing W
  unfolding enforced tell
  after_base timeout hex fresh a signal reviews (raised x, s) =
      (raised x, record { service = s; reviews = reviews })
  after_base timeout hex fresh a signal reviews (ok base, s) =
      enforced timeout hex fresh a base
        (if is_allow base.decision then decision_from_verification a signal else base)
        (tell "verification_evaluated" a.agent_id (record { service = s; reviews = reviews }))

  -- `authorize_verified`; `fresh` is for a halt, `fenced` for a containment.
  unfoldable pub authorize_verified :
      ℕ
      → String
      → (String → String)
      → (Service W → Service W)
      → Ref
      → Ref
      → Credentials W
      → Action
      → VerificationSignal
      → Reviewing W
      → Result Decision × Reviewing W
  unfolding after_base tell then_decide
  authorize_verified timeout hex digest between fresh fenced c a signal s =
      if bound_elsewhere a signal
      then then_decide (decision_from_verification a signal)
          (tell "verification_evaluated" a.agent_id s)
      else after_base timeout hex fenced a signal s.reviews
          (authorize env digest between fresh c a s.service)
