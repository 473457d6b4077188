-- ===== src/Service/Escalation.antt =====
-- Escalating a review, and what any sequence of calls does to the reviews.
use mathlib.Core.Path.{subst}
use agent_containment.Base.{
  ℕ, ◌≡◌, refl, sym, ap, ◌∙◌, inl, inr, String, true, false, none, some, Result, Exc, ok, raised,
  arith, Bool-cases, is_empty,
}
use agent_containment.Base.Dict.{Dict, lookup, insert, lookup-insert_ne}
use agent_containment.Runtime.{Ref}
use agent_containment.Models.{Action, Decision}
use agent_containment.Review
use agent_containment.Review.{ReviewState, ReviewRequest, state_at}
use agent_containment.Containment.{ContainmentReport}
use agent_containment.Service.{Env, Service, ManagedAgent, managed}
use agent_containment.Service.Fencing.{IsFenced, contain_fences_agent, named as has_name}
use agent_containment.Service.Later.{
  may_become, Later, Later-refl, Later-trans, Later-insert, same_review,
}
use agent_containment.Service.Lifecycle.{review-Found, approve_review-Later, tell-reviews}
use agent_containment.Service.Reviews.{
  Reviewing, is_approved, read_state, tell, review, approve_review, contained, escalate_told,
  escalate_reviewed, escalate_review, review_name, create_review,
}

unapproved-escalates :
    (s : ReviewState) → is_approved s ≡ false → may_become s Review.escalated ≡ true
unapproved-escalates s f = ground arith

may_become_refl : (s : ReviewState) → may_become s s ≡ true
may_become_refl s = ground arith

module _ {W : Type 0} (env : Env W) where
  contained-reviews :
      (d : Decision) (reviews : Dict ReviewRequest) (r : Result ContainmentReport × Service W)
      → (contained env d reviews r).1.reviews ≡ reviews
  unfolding contained
  contained-reviews d reviews (raised x, s) = refl
  contained-reviews d reviews (ok _, s) = refl

  escalate_told-reviews :
      (fresh : Ref) (q : ReviewRequest) (r : Result (Unit {0}) × Reviewing W)
      → (escalate_told env fresh q r).1.reviews ≡ r.1.reviews
  unfolding escalate_told
  escalate_told-reviews fresh q (raised x, s) = refl
  escalate_told-reviews fresh q (ok _, s) = contained-reviews _ s.reviews _

  abbrev marked : String → ReviewRequest → Reviewing W → Reviewing W
  marked id q s = record s { reviews = insert id (record q { state = Review.escalated }) s.reviews }

  escalate_reviewed-told :
      (fresh : Ref) (id : String) (q : ReviewRequest) (s : Reviewing W)
      → is_approved q.state ≡ false
      → escalate_reviewed env fresh id (ok q, s)
        ≡ escalate_told env fresh q (tell env "review_escalated" q.agent_id (marked id q s))
  unfolding escalate_reviewed
  escalate_reviewed-told fresh id q s f = rw (f, escalate_reviewed) refl

  escalate_reviewed-Later :
      (fresh : Ref) (id : String) (q : ReviewRequest) (s : Reviewing W)
      → lookup id s.reviews ≡ some q
      → Later s.reviews (escalate_reviewed env fresh id (ok q, s)).1.reviews
  unfolding escalate_reviewed
  escalate_reviewed-Later fresh id q s h = elim (Bool-cases (is_approved q.state)) [
    | inl y ↦ rw (y, escalate_reviewed) (Later-refl s.reviews)
    | inr f ↦
        subst (λ d. Later s.reviews d)
          (sym (
            ap (λ x. x.1.reviews) (escalate_reviewed-told fresh id q s f)
            ∙ escalate_told-reviews fresh q (tell env "review_escalated" q.agent_id (marked id q s))
            ∙ tell-reviews env "review_escalated" q.agent_id (marked id q s)))
          (Later-insert id q (record q { state = Review.escalated }) s.reviews h
            (refl, refl, refl, unapproved-escalates q.state f))
  ]

  raised-Later :
      (fresh : Ref) (id : String) (x : Exc) (s : Reviewing W)
      → Later s.reviews (escalate_reviewed env fresh id (raised x, s)).1.reviews
  unfolding escalate_reviewed
  raised-Later fresh id x s = Later-refl s.reviews

  escalate_review-Later :
      (fresh : Ref) (id : String) (s : Reviewing W)
      → Later s.reviews (escalate_review env fresh id s).1.reviews
  unfolding escalate_review
  escalate_review-Later fresh id s = elim (review-Found env id s) [
    | inl (x, e, _) ↦
        subst (λ z. Later s.reviews (escalate_reviewed env fresh id z).1.reviews) (sym e)
          (raised-Later fresh id x s)
    | inr (r, q, s', e, _, _, _, there, later, _) ↦
        subst (λ z. Later s.reviews (escalate_reviewed env fresh id z).1.reviews) (sym e)
          (Later-trans s.reviews s'.reviews _ later (escalate_reviewed-Later fresh id q s' there))
  ]

  review-Later : (id : String) (s : Reviewing W) → Later s.reviews (review env id s).1.reviews
  review-Later id s = elim (review-Found env id s) [
    | inl (x, e, _) ↦ subst (λ z. Later s.reviews z.1.reviews) (sym e) (Later-refl s.reviews)
    | inr (r, q, s', e, _, _, _, there, later, _) ↦
        subst (λ z. Later s.reviews z.1.reviews) (sym e) later
  ]

  create_review-Later :
      (timeout : ℕ) (hex : String) (a : Action) (s : Reviewing W)
      → lookup (review_name hex a) s.reviews ≡ none
      → Later s.reviews (create_review env timeout hex a s).reviews
  unfolding create_review
  create_review-Later timeout hex a s n id r h = (
    r,
    lookup-insert_ne (review_name hex a) id _ s.reviews
          (λ e. cc (sym (ap (λ i. lookup i s.reviews) e) ∙ n, h))
        ∙ h,
    (refl, refl, refl, may_become_refl r.state),
  )

  contained-service :
      (d : Decision) (reviews : Dict ReviewRequest) (r : Result ContainmentReport × Service W)
      → (contained env d reviews r).1.service ≡ r.1
  unfolding contained
  contained-service d reviews (raised x, s) = refl
  contained-service d reviews (ok _, s) = refl

  read_state-unapproved :
      (r : ReviewRequest) (s : ReviewState) (w : W)
      → is_approved s ≡ false
      → is_approved (read_state env r s w).0 ≡ false
  unfolding read_state state_at
  read_state-unapproved r Review.pending w f = ground arith
  read_state-unapproved r Review.approved w f = f
  read_state-unapproved r Review.expired w f = f
  read_state-unapproved r Review.escalated w f = f

  -- An agent that is `m` at the start is fenced at the end.
  abbrev pub Fenced : Ref → String → ManagedAgent W → Service W → Type 0
  Fenced fresh agent_id m s =
      (m' : ManagedAgent W) × (managed agent_id s ≡ some m') × IsFenced fresh m m'

  escalate_told-Fenced :
      (fresh : Ref) (id : String) (q : ReviewRequest) (s : Reviewing W) (m : ManagedAgent W)
      → is_empty q.agent_id ≡ false
      → managed q.agent_id s.service ≡ some m
      → Fenced fresh q.agent_id m
          (escalate_told env fresh q
            (tell env "review_escalated" q.agent_id (marked id q s))).1.service
  unfolding escalate_told tell
  escalate_told-Fenced fresh id q s m named there =
      rw (has_name env q.agent_id named, tell, escalate_told, contained-service)
        (contain_fences_agent env fresh q.agent_id m _ named there).0

  escalate_reviewed-Fenced :
      (fresh : Ref) (id : String) (q : ReviewRequest) (s : Reviewing W) (m : ManagedAgent W)
      → is_approved q.state ≡ false
      → is_empty q.agent_id ≡ false
      → managed q.agent_id s.service ≡ some m
      → Fenced fresh q.agent_id m (escalate_reviewed env fresh id (ok q, s)).1.service
  escalate_reviewed-Fenced fresh id q s m f named there =
      subst (λ z. Fenced fresh q.agent_id m z.1.service)
        (sym (escalate_reviewed-told fresh id q s f))
        (escalate_told-Fenced fresh id q s m named there)

  -- Escalating a review that is there and not approved, be it pending, expired or escalated, leaves
  -- its agent fenced in every outcome, an exception included, if that agent is managed and has a name.
  pub escalate_review-Fenced :
      (fresh : Ref) (id : String) (s : Reviewing W) (r : ReviewRequest) (m : ManagedAgent W)
      → lookup id s.reviews ≡ some r
      → is_approved r.state ≡ false
      → is_empty r.agent_id ≡ false
      → managed r.agent_id s.service ≡ some m
      → Fenced fresh r.agent_id m (escalate_review env fresh id s).1.service
  unfolding escalate_review
  escalate_review-Fenced fresh id s r m found f named there = elim (review-Found env id s) [
    | inl (x, e, n) ↦ cc (found, n)
    | inr (r', q, s', e, found', state, a, _, _, agents) ↦
        let same : r' ≡ r = same_review id id r' r s.reviews found' found refl in
        let agent : q.agent_id ≡ r.agent_id = a.0 ∙ ap (λ x. x.agent_id) same in
        let g : is_approved q.state ≡ false =
          ap (λ x. is_approved x) state
          ∙ read_state-unapproved r' r'.state s.service.world
              (ap (λ x. is_approved x.state) same ∙ f) in
        subst (λ z. Fenced fresh z m (escalate_review env fresh id s).1.service) agent
          (subst (λ z. Fenced fresh q.agent_id m (escalate_reviewed env fresh id z).1.service)
            (sym e)
            (escalate_reviewed-Fenced fresh id q s' m g (ap (λ x. is_empty x) agent ∙ named) (
              ap (λ x. lookup x s'.service.agents) agent
              ∙ ap (λ x. lookup r.agent_id x) agents
              ∙ there)))
  ]

  -- A call on the reviews, or anything else that happens to the service. The random part of a new
  -- review's name is not taken.
  pub data Step : Reviewing W → Reviewing W → Type 0 where
    reviewing : (id : String) (s : Reviewing W) → Step s (review env id s).1
    approving : (id : String) (s : Reviewing W) → Step s (approve_review env id s).1
    escalating :
        (fresh : Ref) (id : String) (s : Reviewing W) → Step s (escalate_review env fresh id s).1
    creating :
        (timeout : ℕ) (hex : String) (a : Action) (s : Reviewing W)
        → lookup (review_name hex a) s.reviews ≡ none
        → Step s (create_review env timeout hex a s)
    serving : (t : Service W) (s : Reviewing W) → Step s (record s { service = t })

  pub data Steps : Reviewing W → Reviewing W → Type 0 where
    start : {s : Reviewing W} → Steps s s
    next : {s t u : Reviewing W} → Step s t → Steps t u → Steps s u

  step-Later : (s t : Reviewing W) → Step s t → Later s.reviews t.reviews
  step-Later s _ (Step.reviewing id _) = review-Later id s
  step-Later s _ (Step.approving id _) = approve_review-Later env id s
  step-Later s _ (Step.escalating fresh id _) = escalate_review-Later fresh id s
  step-Later s _ (Step.creating timeout hex a _ n) = create_review-Later timeout hex a s n
  step-Later s _ (Step.serving t _) = Later-refl s.reviews

  -- Over any steps, whatever else happens to the service, no review is lost: it stays a review of the
  -- same action with the same deadline. One that is approved or escalated stays so, and one that has
  -- expired stays so or is escalated; neither an expired nor an escalated review is ever approved.
  pub steps-Later : (s t : Reviewing W) → Steps s t → Later s.reviews t.reviews
  steps-Later s _ Steps.start = Later-refl s.reviews
  steps-Later s t (Steps.next {t = u} first rest) =
      Later-trans s.reviews u.reviews t.reviews (step-Later s u first) (steps-Later u t rest)
