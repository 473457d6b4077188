-- ===== src/Service/Later.antt =====
-- What may become of the reviews: the relation between them before and after a call.
use mathlib.Core.Path.{subst}
use agent_containment.Base.{
  ◌≡◌, refl, sym, ap, ◌∙◌, inl, inr, ◌=s◌, String, Bool, true, Option, some, arith, Bool-cases,
  eq_iff,
}
use agent_containment.Base.Dict.{Dict, lookup, insert, lookup-insert, lookup-insert_ne}
use agent_containment.Review
use agent_containment.Review.{ReviewState, ReviewRequest, state_at}
use agent_containment.Service.Reviews.{same_state}

-- What may become of a review: a pending one anything, an expired one may still be escalated, and
-- one that is approved or escalated stays so.
abbrev pub may_become : ReviewState → ReviewState → Bool
may_become Review.pending t = true
may_become Review.approved t = same_state Review.approved t
may_become Review.expired Review.escalated = true
may_become Review.expired t = same_state Review.expired t
may_become Review.escalated t = same_state Review.escalated t

-- A later form of a request, for the same action and with the same deadline.
abbrev pub Advances : ReviewRequest → ReviewRequest → Type 0
Advances r r' =
    (r'.agent_id ≡ r.agent_id)
    × (r'.action_id ≡ r.action_id)
    × (r'.deadline ≡ r.deadline)
    × (may_become r.state r'.state ≡ true)

Advances-trans : (p q r : ReviewRequest) → Advances p q → Advances q r → Advances p r
Advances-trans p q r (a, b, c, d) (e, f, g, h) = (e ∙ a, f ∙ b, g ∙ c, ground arith)

pub Advances-refl : (r : ReviewRequest) → Advances r r
Advances-refl r = (refl, refl, refl, ground arith)

-- Every review is still there, in a later form.
abbrev pub Later : Dict ReviewRequest → Dict ReviewRequest → Type 0
Later d d' =
    (id : String) (r : ReviewRequest)
    → lookup id d ≡ some r
    → (r' : ReviewRequest) × (lookup id d' ≡ some r') × Advances r r'

pub Later-refl : (d : Dict ReviewRequest) → Later d d
Later-refl d id r h = (r, h, Advances-refl r)

pub Later-trans : (d e f : Dict ReviewRequest) → Later d e → Later e f → Later d f
Later-trans d e f l m id r h =
    let (q, g, a) = l id r h in let (p, k, b) = m id q g in (p, k, Advances-trans r q p a b)

pub same_review :
    (id j : String) (r q : ReviewRequest) (d : Dict ReviewRequest)
    → lookup id d ≡ some r
    → lookup j d ≡ some q
    → id ≡ j
    → r ≡ q
same_review id j r q d h g e =
    let k : ◌≡◌ {A = Option ReviewRequest} (some r) (some q) = sym h ∙ ap (λ i. lookup i d) e ∙ g in
    cc k

pub Later-insert :
    (id : String) (r r' : ReviewRequest) (d : Dict ReviewRequest)
    → lookup id d ≡ some r
    → Advances r r'
    → Later d (insert id r' d)
Later-insert id r r' d h a j q g = elim (Bool-cases (id =s j)) [
  | inl y ↦ (
    r',
    ground (arith, lookup-insert id j r' d, y),
    subst (λ x. Advances x r') (same_review id j r q d h g ((eq_iff id j).0 y)) a,
  )
  | inr f ↦ (
    q,
    lookup-insert_ne id j r' d (λ e. absurd (ground (arith, f, eq_iff id j, e))) ∙ g,
    Advances-refl q,
  )
]
