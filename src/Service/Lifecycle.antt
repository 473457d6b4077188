-- ===== src/Service/Lifecycle.antt =====
-- The life of a review: the calls as steps on the service, and what they do to a review.
use mathlib.Core.Path.{subst}
use agent_containment.Base.{
  ◌<◌, ◌≡◌, refl, sym, ap, ◌∙◌, ◌⊎◌, inl, inr, String, true, false, none, some, Result, Exc, ok,
  raised, arith, Bool-cases, Option-cases,
}
use agent_containment.Base.Dict.{lookup, insert, lookup-insert_self}
use agent_containment.Models.{Decision, allow}
use agent_containment.Review
use agent_containment.Review.{ReviewState, ReviewRequest, state_at}
use agent_containment.Service.{Env}
use agent_containment.Service.Verified.{then_decide-ok}
use agent_containment.Service.Reviews.{
  Reviewing, same_state, is_pending, is_expired, read_state, tell, review_found, review,
  then_decide, approve_reviewed, approve_review,
}
use agent_containment.Service.Later.{
  may_become, Advances, Advances-refl, Later, Later-refl, Later-trans, Later-insert,
}

module _ {W : Type 0} (env : Env W) where
  read_state-may_become :
      (r : ReviewRequest) (s : ReviewState) (w : W) → may_become s (read_state env r s w).0 ≡ true
  unfolding read_state
  read_state-may_become r Review.pending w = refl
  read_state-may_become r Review.approved w = refl
  read_state-may_become r Review.expired w = refl
  read_state-may_become r Review.escalated w = refl

  -- `review` finds the request in its present form, and puts it where it was.
  review_found-Later :
      (id : String) (r : ReviewRequest) (s : Reviewing W)
      → lookup id s.reviews ≡ some r
      → (q : ReviewRequest) × ((review_found env id r s).0 ≡ ok q)
        × (q.state ≡ (read_state env r r.state s.service.world).0)
        × Advances r q
        × (lookup id (review_found env id r s).1.reviews ≡ some q)
        × Later s.reviews (review_found env id r s).1.reviews
  unfolding review_found
  review_found-Later id r s h =
      let st = (read_state env r r.state s.service.world).0 in
      elim (Bool-cases (same_state st r.state)) [
        | inl y ↦
            rw (y, review_found)
              (r, refl, ground (arith, y), Advances-refl r, h, Later-refl s.reviews)
        | inr f ↦
            let a : Advances r (record r { state = st }) =
              (refl, refl, refl, read_state-may_become r r.state s.service.world) in
            rw (f, review_found)
              (
                record r { state = st },
                refl,
                refl,
                a,
                lookup-insert_self id (record r { state = st }) s.reviews,
                Later-insert id r (record r { state = st }) s.reviews h a,
              )
      ]

  review_found-agents :
      (id : String) (r : ReviewRequest) (s : Reviewing W)
      → (review_found env id r s).1.service.agents ≡ s.service.agents
  unfolding review_found
  review_found-agents id r s =
      elim (Bool-cases (same_state (read_state env r r.state s.service.world).0 r.state)) [
        | inl y ↦ rw (y, review_found) refl
        | inr f ↦ rw (f, review_found) refl
      ]

  pub tell-reviews :
      (type agent_id : String) (s : Reviewing W) → (tell env type agent_id s).1.reviews ≡ s.reviews
  unfolding tell
  tell-reviews type agent_id s = ground arith

  then_decide-state :
      (d : Decision) (r : Result (Unit {0}) × Reviewing W) → (then_decide env d r).1 ≡ r.1
  unfolding then_decide
  then_decide-state d (raised x, s) = refl
  then_decide-state d (ok _, s) = refl

  -- A review that is pending, and at the time of the call before its deadline, is approved; the
  -- decision that is returned is to allow its action.
  abbrev pub Approves : String → Reviewing W → Result Decision × Reviewing W → Decision → Type 0
  Approves id s (reply, s') d =
      (r : ReviewRequest) × (r' : ReviewRequest) × (lookup id s.reviews ≡ some r)
      × (lookup id s'.reviews ≡ some r')
      × (r.state ≡ Review.pending)
      × ((env.time s.service.world).0 < r.deadline)
      × (r'.state ≡ Review.approved)
      × (d.decision ≡ allow)
      × (d.action_id ≡ r.action_id)

  read_state-pending :
      (r : ReviewRequest) (st : ReviewState) (w : W)
      → (read_state env r st w).0 ≡ Review.pending
      → (st ≡ Review.pending) × ((env.time w).0 < r.deadline)
  unfolding read_state state_at
  read_state-pending r Review.pending w h = ground arith
  read_state-pending r Review.approved w h = ground arith
  read_state-pending r Review.expired w h = ground arith
  read_state-pending r Review.escalated w h = ground arith

  abbrev approval : ReviewRequest → Decision
  approval q = record {
    action_id = q.action_id;
    decision = allow;
    reason = "human review approved";
  }

  abbrev approve_told : String → ReviewRequest → Reviewing W → Result (Unit {0}) × Reviewing W
  approve_told id q s =
      tell env "review_approved" q.agent_id
        (record s { reviews = insert id (record q { state = Review.approved }) s.reviews })

  approve_reviewed-told :
      (id : String) (q : ReviewRequest) (s : Reviewing W)
      → is_expired q.state ≡ false
      → is_pending q.state ≡ true
      → approve_reviewed env id (ok q, s) ≡ then_decide env (approval q) (approve_told id q s)
  unfolding approve_reviewed
  approve_reviewed-told id q s f y = rw (f, approve_reviewed, y) refl

  approve_reviewed-pending :
      (id : String) (q : ReviewRequest) (s : Reviewing W) (d : Decision)
      → (approve_reviewed env id (ok q, s)).0 ≡ ok d
      → (q.state ≡ Review.pending)
        × (d.decision ≡ allow)
        × (d.action_id ≡ q.action_id)
        × ((approve_reviewed env id (ok q, s)).1.reviews
            ≡ insert id (record q { state = Review.approved }) s.reviews)
  unfolding approve_reviewed
  approve_reviewed-pending id q s d h = elim (Bool-cases (is_expired q.state)) [
    | inl y ↦ cc (rw (y, approve_reviewed) at h)
    | inr f ↦ elim (Bool-cases (is_pending q.state)) [
      | inr g ↦ cc (rw (f, approve_reviewed, g) at h)
      | inl y ↦
          let same = approve_reviewed-told id q s f y in
          let e = then_decide-ok env (approval q) d (approve_told id q s) (rw (same) at h) in
          (
            ground (arith, y),
            ap (λ x. x.decision) (sym e),
            ap (λ x. x.action_id) (sym e),
            ap (λ x. x.1.reviews) same
                ∙ ap (λ x. x.reviews) (then_decide-state (approval q) (approve_told id q s))
                ∙ tell-reviews "review_approved" q.agent_id _,
          )
    ]
  ]

  -- Before and after a call on a request that was found: only it changed, to a later form.
  approve_reviewed-Later :
      (id : String) (q : ReviewRequest) (s : Reviewing W)
      → lookup id s.reviews ≡ some q
      → Later s.reviews (approve_reviewed env id (ok q, s)).1.reviews
  unfolding approve_reviewed
  approve_reviewed-Later id q s h = elim (Bool-cases (is_expired q.state)) [
    | inl y ↦ rw (y, approve_reviewed) (Later-refl s.reviews)
    | inr f ↦ elim (Bool-cases (is_pending q.state)) [
      | inr g ↦ rw (f, approve_reviewed, g) (Later-refl s.reviews)
      | inl y ↦
          subst (λ d. Later s.reviews d)
            (sym (
              ap (λ x. x.1.reviews) (approve_reviewed-told id q s f y)
              ∙ ap (λ x. x.reviews) (then_decide-state (approval q) (approve_told id q s))
              ∙ tell-reviews "review_approved" q.agent_id _))
            (Later-insert id q (record q { state = Review.approved }) s.reviews h
              (refl, refl, refl, ground (arith, y)))
    ]
  ]

  raised-Later :
      (id : String) (x : Exc) (s : Reviewing W)
      → Later s.reviews (approve_reviewed env id (raised x, s)).1.reviews
  unfolding approve_reviewed
  raised-Later id x s = Later-refl s.reviews

  -- A request that `review` found, as it was and as it is now.
  abbrev pub Found : String → Reviewing W → Type 0
  Found id s =
      (r : ReviewRequest) × (q : ReviewRequest) × (s' : Reviewing W) × (review env id s
        ≡ (ok q, s'))
      × (lookup id s.reviews ≡ some r)
      × (q.state ≡ (read_state env r r.state s.service.world).0)
      × Advances r q
      × (lookup id s'.reviews ≡ some q)
      × Later s.reviews s'.reviews
      × (s'.service.agents ≡ s.service.agents)

  pub review-Found :
      (id : String) (s : Reviewing W)
      → ((x : Exc) × (review env id s ≡ (raised x, s)) × (lookup id s.reviews ≡ none)) ⊎ Found id s
  unfolding review
  review-Found id s = elim (Option-cases (lookup id s.reviews)) [
    | inl n ↦ rw (n, review) (inl (_, refl, refl))
    | inr (r, e) ↦
        let (q, reply, state, a, there, later) = review_found-Later id r s e in
        let k : review_found env id r s ≡ (ok q, (review_found env id r s).1) =
          ap (λ x. (x, (review_found env id r s).1)) reply in
        inr (
          r,
          q,
          (review_found env id r s).1,
          rw (e, review) k,
          e,
          state,
          a,
          there,
          later,
          review_found-agents id r s,
        )
  ]

  -- A call of `approve_review` that returns approved a review that was pending and, at the time of
  -- the call, before its deadline; what it returns allows the action of that review.
  pub approve_review-Approves :
      (id : String) (s : Reviewing W) (d : Decision)
      → (approve_review env id s).0 ≡ ok d
      → Approves id s (approve_review env id s) d
  unfolding approve_review approve_reviewed
  approve_review-Approves id s d h = elim (review-Found id s) [
    | inl (x, e, _) ↦ cc (rw (e, approve_review) at h)
    | inr (r, q, s', e, found, state, a, there, later, _) ↦
        let (p, al, act, after) =
          approve_reviewed-pending id q s' d
            (ap (λ z. (approve_reviewed env id z).0) (sym e) ∙ h) in
        let (was, early) = read_state-pending r r.state s.service.world (sym state ∙ p) in
        (
          r,
          record q { state = Review.approved },
          found,
          ap (λ z. lookup id (approve_reviewed env id z).1.reviews) e
              ∙ ap (λ z. lookup id z) after
              ∙ lookup-insert_self id (record q { state = Review.approved }) s'.reviews,
          was,
          early,
          refl,
          al,
          act ∙ a.1,
        )
  ]

  pub approve_review-Later :
      (id : String) (s : Reviewing W) → Later s.reviews (approve_review env id s).1.reviews
  unfolding approve_review
  approve_review-Later id s = elim (review-Found id s) [
    | inl (x, e, _) ↦
        subst (λ z. Later s.reviews (approve_reviewed env id z).1.reviews) (sym e)
          (raised-Later id x s)
    | inr (r, q, s', e, found, state, a, there, later, _) ↦
        subst (λ z. Later s.reviews (approve_reviewed env id z).1.reviews) (sym e)
          (Later-trans s.reviews s'.reviews _ later (approve_reviewed-Later id q s' there))
  ]
