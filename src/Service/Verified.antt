-- ===== src/Service/Verified.antt =====
-- What a verifier's signal can do: hold an action back or have its agent contained, and nothing
-- that the controller did not allow.
use agent_containment.Base.{
  ℕ, ◌≡◌, refl, ◌&&◌, ◌=s◌, eq_iff, String, true, false, some, Result, ok, raised, ok-injective,
  is_empty, arith, Bool-cases, inl, inr, ◌∙◌, ap,
}
use agent_containment.Base.Dict.{Dict}
use agent_containment.Runtime.{Ref}
use agent_containment.Models.{Action, Decision, allow, halt, is_allow, is_halt, is_pause}
use agent_containment.Review.{
  ReviewRequest, VerificationSignal, bound_elsewhere, decision_from_verification,
}
use agent_containment.Containment.{ContainmentReport}
use agent_containment.Service.{Env, Service, ManagedAgent, managed}
use agent_containment.Service.Contain.{contain}
use agent_containment.Service.Authorize.{Credentials, authorize}
use agent_containment.Service.Authorized.{Authorizes, allowed-Authorizes}
use agent_containment.Service.Fencing.{IsFenced, contain_fences_agent, named as has_name}
use agent_containment.Service.Reviews.{
  Reviewing, tell, then_decide, contained, enforced, after_base, authorize_verified,
}

-- The signal speaks for the action and lets it pass.
abbrev pub Passes : Action → VerificationSignal → Type 0
Passes a signal =
    (bound_elsewhere a signal ≡ false)
    × ((signal.disposition =s "block") ≡ false)
    × ((signal.disposition =s "requireReview") ≡ false)

decision_from_verification-allow :
    (a : Action) (signal : VerificationSignal)
    → (decision_from_verification a signal).decision ≡ allow
    → Passes a signal
unfolding decision_from_verification
decision_from_verification-allow a signal h = ground arith

decision_from_verification-block :
    (a : Action) (signal : VerificationSignal)
    → bound_elsewhere a signal ≡ false
    → signal.disposition ≡ "block"
    → (decision_from_verification a signal).decision ≡ halt
unfolding decision_from_verification
decision_from_verification-block a signal f block =
    ground (arith, f, eq_iff signal.disposition "block", block)

module _ {W : Type 0} (env : Env W) where
  pub then_decide-ok :
      (d e : Decision) (r : Result (Unit {0}) × Reviewing W)
      → (then_decide env d r).0 ≡ ok e
      → d ≡ e
  unfolding then_decide
  then_decide-ok d e (raised x, s) h = cc h
  then_decide-ok d e (ok _, s) h = ok-injective h

  contained-ok :
      (d e : Decision) (reviews : Dict ReviewRequest) (r : _)
      → (contained env d reviews r).0 ≡ ok e
      → d ≡ e
  unfolding contained
  contained-ok d e reviews (raised x, s) h = cc h
  contained-ok d e reviews (ok _, s) h = ok-injective h

  -- The decision that is returned is the one that was made.
  enforced-ok :
      (timeout : ℕ) (hex : String) (fresh : Ref) (a : Action) (base d e : Decision)
      (r : Result (Unit {0}) × Reviewing W)
      → (enforced env timeout hex fresh a base d r).0 ≡ ok e
      → d ≡ e
  unfolding enforced
  enforced-ok timeout hex fresh a base d e (raised x, s) h = cc h
  enforced-ok timeout hex fresh a base d e (ok _, s) h =
      elim (Bool-cases (is_allow base.decision && is_halt d.decision)) [
        | inl y ↦ contained-ok d e s.reviews _ (rw (y, enforced) at h)
        | inr f ↦ elim (Bool-cases (is_allow base.decision && is_pause d.decision)) [
          | inl y ↦ then_decide-ok d e _ (rw (f, enforced, y) at h)
          | inr g ↦ ok-injective (rw (f, enforced, g) at h)
        ]
      ]

  module _ (timeout : ℕ) (hex : String) (digest : String → String) (between : Service W → Service W)
      (fresh fenced : Ref) (c : Credentials W) (a : Action) (signal : VerificationSignal) where
    -- What the controller decided before the verifier was heard.
    abbrev pub base_of : Reviewing W → Result Decision × Service W
    base_of s = authorize env digest between fresh c a s.service

    authorize_verified-base :
        (s : Reviewing W)
        → bound_elsewhere a signal ≡ false
        → authorize_verified env timeout hex digest between fresh fenced c a signal s
          ≡ after_base env timeout hex fenced a signal s.reviews (base_of s)
    unfolding authorize_verified
    authorize_verified-base s f = rw (f, authorize_verified) refl

    after_base-allow :
        (reviews : Dict ReviewRequest) (r : Result Decision × Service W) (d : Decision)
        → (after_base env timeout hex fenced a signal reviews r).0 ≡ ok d
        → d.decision ≡ allow
        → (base : Decision) × (r.0 ≡ ok base) × (base.decision ≡ allow) × Passes a signal
    unfolding after_base
    after_base-allow reviews (raised x, s) d h al = cc h
    after_base-allow reviews (ok base, s) d h al = elim (Bool-cases (is_allow base.decision)) [
      | inl y ↦
          let e = enforced-ok timeout hex fenced a base _ d _ (rw (y, after_base) at h) in
          (
            base,
            refl,
            ground (arith, y),
            decision_from_verification-allow a signal (ap (λ x. x.decision) e ∙ al),
          )
      | inr f ↦
          let e = enforced-ok timeout hex fenced a base base d _ (rw (f, after_base) at h) in
          absurd (ground (arith, f, ap (λ x. x.decision) e ∙ al))
    ]

    -- An action that is allowed with a verifier's signal is one that the controller allows without
    -- it, and the signal, which is not bound to another action, neither blocks it nor asks for a
    -- review.
    pub verified-allow :
        (s : Reviewing W) (d : Decision)
        → (authorize_verified env timeout hex digest between fresh fenced c a signal s).0 ≡ ok d
        → d.decision ≡ allow
        → ((base : Decision) × ((base_of s).0 ≡ ok base) × (base.decision ≡ allow))
          × Passes a signal
          × Authorizes digest between c a s.service
    unfolding authorize_verified
    verified-allow s d h al = elim (Bool-cases (bound_elsewhere a signal)) [
      | inl y ↦
          let e =
            then_decide-ok (decision_from_verification a signal) d _
              (rw (y, authorize_verified) at h) in
          absurd (
            ground (
              arith,
              y,
              (decision_from_verification-allow a signal (ap (λ x. x.decision) e ∙ al)).0,
            ))
      | inr f ↦
          let (base, b, allowed, passes) =
            after_base-allow s.reviews (base_of s) d (rw (f, authorize_verified) at h) al in
          (
            (base, b, allowed),
            passes,
            allowed-Authorizes env digest between fresh c a s.service base b allowed,
          )
    ]

    tell-service :
        (type : String) (s : Reviewing W)
        → is_empty a.agent_id ≡ false
        → (w : W) × (tell env type a.agent_id s
            ≡ (ok tt, record s { service = record s.service { world = w } }))
    unfolding tell
    tell-service type s h = rw (has_name env a.agent_id h, tell) (_, refl)

    contained-service :
        (d : Decision) (reviews : Dict ReviewRequest) (r : Result ContainmentReport × Service W)
        → (contained env d reviews r).1.service ≡ r.1
    unfolding contained
    contained-service d reviews (raised x, s) = refl
    contained-service d reviews (ok _, s) = refl

    -- An agent of the service after the call is fenced, where it was `m` before.
    abbrev pub Fenced : ManagedAgent W → Service W → Type 0
    Fenced m s = (m' : ManagedAgent W) × (managed a.agent_id s ≡ some m') × IsFenced fenced m m'

    enforced-Fenced :
        (base d : Decision) (m : ManagedAgent W) (reviews : Dict ReviewRequest) (s : Service W)
        → base.decision ≡ allow
        → d.decision ≡ halt
        → is_empty a.agent_id ≡ false
        → managed a.agent_id s ≡ some m
        → Fenced m
            (enforced env timeout hex fenced a base d
              (ok tt, record { service = s; reviews = reviews })).1.service
    unfolding enforced
    enforced-Fenced base d m reviews s b e named there =
        let t : (is_allow base.decision && is_halt d.decision) ≡ true = ground (arith, b, e) in
        rw (t, enforced, contained-service d reviews (contain env fenced a.agent_id s))
          (contain_fences_agent env fenced a.agent_id m s named there).0

    after_base-Fenced :
        (reviews : Dict ReviewRequest) (r : Result Decision × Service W) (base : Decision)
        (m : ManagedAgent W)
        → bound_elsewhere a signal ≡ false
        → signal.disposition ≡ "block"
        → r.0 ≡ ok base
        → base.decision ≡ allow
        → is_empty a.agent_id ≡ false
        → managed a.agent_id r.1 ≡ some m
        → Fenced m (after_base env timeout hex fenced a signal reviews r).1.service
    unfolding after_base
    after_base-Fenced reviews (raised x, s) base m f block b allowed named there = cc b
    after_base-Fenced reviews (ok base', s) base m f block b allowed named there =
        let allowed' : base'.decision ≡ allow = ap (λ x. x.decision) (ok-injective b) ∙ allowed in
        let y : is_allow base'.decision ≡ true = ground (arith, allowed') in
        let (w, told) =
          tell-service "verification_evaluated" (record { service = s; reviews = reviews }) named in
        rw (y, after_base, told)
          (enforced-Fenced base' (decision_from_verification a signal) m reviews
            (record s { world = w }) allowed' (decision_from_verification-block a signal f block)
            named there)

    -- The reply of a verified authorization, and what it leaves.
    abbrev pub verified_of : Reviewing W → Result Decision × Reviewing W
    verified_of s = authorize_verified env timeout hex digest between fresh fenced c a signal s

    -- A signal that blocks an action that the controller allows has the agent contained, in every
    -- outcome, an exception included: its runtime is fenced, and neither a capability nor an identity
    -- that was issued before is left.
    pub blocked-Fenced :
        (s : Reviewing W) (base : Decision) (m : ManagedAgent W)
        → bound_elsewhere a signal ≡ false
        → signal.disposition ≡ "block"
        → (base_of s).0 ≡ ok base
        → base.decision ≡ allow
        → is_empty a.agent_id ≡ false
        → managed a.agent_id (base_of s).1 ≡ some m
        → Fenced m (verified_of s).1.service
    blocked-Fenced s base m f block b allowed named there =
        rw (authorize_verified-base s f)
          (after_base-Fenced s.reviews (base_of s) base m f block b allowed named there)
