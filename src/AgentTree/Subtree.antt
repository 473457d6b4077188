-- ===== src/AgentTree/Subtree.antt =====
-- The containment of an agent and of all its descendants.
use mathlib.Core.Path.{subst}
use agent_containment.Base.{
  ℕ, zero, suc, ◌≤◌, ◌≡◌, ◌≢◌, refl, sym, ap, ◌∙◌, ◌⊎◌, ◌↔◌, inl, inr, String, true, false, Option,
  none, some, List, [], ◌∷◌, ◌++◌, arith, eq_iff, eq_refl, ◌=s◌, contains, Bool-cases, Option-cases,
  ok,
}
use agent_containment.Base.Dict.{Dict, lookup, insert, lookup-insert_self, lookup-insert_ne}
use agent_containment.Runtime
use agent_containment.Runtime.{contained}
use agent_containment.Containment.{Clock}
use agent_containment.Containment.Fencing.{contain_fences}
use agent_containment.AgentTree.{
  AgentNode, AgentTree, extend, sorted_reverse, contain_node, contain_loop, contain,
}
use agent_containment.AgentTree.Shape.{shape, Ordered, weight, Below}
use agent_containment.AgentTree.Visits.{visits, visits-Exact, contains-snoc}

module _ {W : Type 0} where
  abbrev pub children_of : Option (AgentNode W) → Option (List String)
  children_of none = none
  children_of (some n) = some n.children

  pub lookup-shape :
      (a : String) (d : Dict (AgentNode W)) → lookup a (shape d) ≡ children_of (lookup a d)
  unfolding lookup
  lookup-shape a [] = refl
  lookup-shape a ((k, n) ∷ d) = ground (arith, lookup-shape a d)

  lookup-head :
      (a k : String) (o n : AgentNode W) (d : Dict (AgentNode W))
      → (k =s a) ≡ true
      → lookup a ((k, o) ∷ d) ≡ some n
      → o ≡ n
  unfolding lookup
  lookup-head a k o n d y h =
      let g : ◌≡◌ {A = Option (AgentNode W)} (some o) (some n) = rw (y, lookup) at h in cc g

  -- Changing a node in all but its children leaves the shape.
  shape-insert :
      (a : String) (n m : AgentNode W) (d : Dict (AgentNode W))
      → lookup a d ≡ some n
      → m.children ≡ n.children
      → shape (insert a m d) ≡ shape d
  unfolding lookup insert
  shape-insert a n m [] h e = ground (arith, h)
  shape-insert a n m ((k, o) ∷ d) h e = elim (Bool-cases (k =s a)) [
    | inl y ↦
        rw (y, insert)
          (ap (λ s. (k, s) ∷ shape d) (e ∙ ap (λ x. x.children) (sym (lookup-head a k o n d y h))))
    | inr f ↦
        rw (f, insert)
          (ap (λ s. (k, o.children) ∷ s) (shape-insert a n m d (ground (arith, h, f)) e))
  ]

  -- The agent is registered, its runtime is contained, and it has no capability.
  abbrev pub IsFenced : String → AgentTree W → Type 0
  IsFenced a t =
      (n : AgentNode W) × (lookup a t.nodes ≡ some n)
      × (n.containment.runtime.state ≡ contained)
      × (n.containment.capabilities ≡ [])

  -- What the loop does to the tree while it visits the agents that it had not visited before.
  abbrev Swept : List String → List String → AgentTree W → AgentTree W → Type 0
  Swept done visited t t' =
      (shape t'.nodes ≡ shape t.nodes)
      × ((b : String) → contains b done ≡ true → contains b visited ≡ true)
      × ((b : String) → contains b visited ≡ true → (contains b done ≡ true) ⊎ IsFenced b t')
      × ((b : String) → IsFenced b t → IsFenced b t')
      × ((b : String) → contains b visited ≡ false → lookup b t'.nodes ≡ lookup b t.nodes)

  contain_node-Fenced :
      (clock : Clock W) (a : String) (n : AgentNode W) (t : AgentTree W)
      → lookup a t.nodes ≡ some n
      → (shape (contain_node clock a n t).nodes ≡ shape t.nodes)
        × IsFenced a (contain_node clock a n t)
        × ((b : String) → a ≢ b → lookup b (contain_node clock a n t).nodes ≡ lookup b t.nodes)
  unfolding contain_node Runtime.contain
  contain_node-Fenced clock a n t h =
      let fences = contain_fences clock t.next n.containment t.world in
      (
        shape-insert a n _ t.nodes h refl,
        (_, lookup-insert_self a _ t.nodes, ap (λ r. r.state) fences.0.0, fences.1),
        λ b ne. lookup-insert_ne a b _ t.nodes ne,
      )

  Swept-next :
      (done visited : List String) (a : String) (t u t' : AgentTree W)
      → (shape u.nodes ≡ shape t.nodes)
      → IsFenced a u
      → ((b : String) → a ≢ b → lookup b u.nodes ≡ lookup b t.nodes)
      → Swept (done ++ (a ∷ [])) visited u t'
      → Swept done visited t t'
  Swept-next done visited a t u t' same fence others (same', kept, new, stays, rest) = (
    same' ∙ same,
    λ b m. kept b (ground (arith, m, contains-snoc b a done)),
    λ b m. elim (new b m) [
      | inl x ↦ elim (Bool-cases (a =s b)) [
        | inl y ↦ inr (stays b (subst (λ z. IsFenced z u) ((eq_iff a b).0 y) fence))
        | inr f ↦ inl (ground (arith, x, f, contains-snoc b a done))
      ]
      | inr x ↦ inr x
    ],
    λ b (n, h, f, g). elim (Bool-cases (a =s b)) [
      | inl y ↦ stays b (subst (λ z. IsFenced z u) ((eq_iff a b).0 y) fence)
      | inr e ↦ stays b (n, others b (ground (arith, e, eq_iff a b)) ∙ h, f, g)
    ],
    λ b m.
        rest b m
        ∙ others b (λ e. absurd (ground (arith, m, kept b, contains-snoc b a done, eq_iff a b, e))),
  )

  -- The loop of `contain` follows the order of the visits.
  contain_loop-Swept :
      (clock : Clock W) (fuel : ℕ) (done stack visited : List String) (t : AgentTree W)
      → visits (shape t.nodes) fuel done stack ≡ some visited
      → (t' : AgentTree W) × (contain_loop clock fuel done stack t ≡ some (ok visited, t'))
        × Swept done visited t t'
  unfolding contain_loop visits
  contain_loop-Swept clock fuel done [] visited t v =
      let e : done ≡ visited = ground (arith, v) in
      subst
        (λ z.
          (t' : AgentTree W) × (contain_loop clock fuel done [] t ≡ some (ok z, t'))
          × Swept done z t t')
        e (t, refl, (refl, λ b m. m, λ b m. inl m, λ b m. m, λ b m. refl))
  contain_loop-Swept clock zero done (a ∷ stack) visited t v = absurd (ground (arith, v))
  contain_loop-Swept clock (suc fuel) done (a ∷ stack) visited t v =
      elim (Option-cases (lookup a t.nodes)) [
        | inl n ↦ absurd (ground (arith, v, lookup-shape a t.nodes, n))
        | inr (n, h) ↦
            let s : lookup a (shape t.nodes) ≡ some n.children =
              lookup-shape a t.nodes ∙ ap (λ o. children_of o) h in
            let v' : visits (shape t.nodes) fuel (done ++ (a ∷ []))
                  (extend (sorted_reverse n.children) stack)
                ≡ some visited =
              rw (s, visits) at v in
            let (same, fence, others) = contain_node-Fenced clock a n t h in
            let (t', e, swept) =
              contain_loop-Swept clock fuel (done ++ (a ∷ []))
                (extend (sorted_reverse n.children) stack) visited (contain_node clock a n t)
                (subst
                  (λ d.
                    visits d fuel (done ++ (a ∷ [])) (extend (sorted_reverse n.children) stack)
                    ≡ some visited)
                  (sym same) v') in
            (
              t',
              rw (h, contain_loop) e,
              Swept-next done visited a t (contain_node clock a n t) t' same fence others swept,
            )
      ]

  -- An agent stands under its own name.
  abbrev pub Named : Dict (AgentNode W) → Type 0
  Named [] = Unit {0}
  Named ((k, n) ∷ d) = (n.agent_id ≡ k) × Named d

  pub lookup-Named :
      (d : Dict (AgentNode W)) (a : String) (n : AgentNode W)
      → Named d
      → lookup a d ≡ some n
      → n.agent_id ≡ a
  unfolding lookup
  lookup-Named [] a n h e = ground (arith, e)
  lookup-Named ((k, o) ∷ d) a n (x, h) e = elim (Bool-cases (k =s a)) [
    | inl y ↦ ap (λ m. m.agent_id) (sym (lookup-head a k o n d y e)) ∙ x ∙ (eq_iff k a).0 y
    | inr f ↦ lookup-Named d a n h (ground (arith, f, e))
  ]

  -- The invariant of the tree: every agent stands under its own name, is registered once, and its
  -- children are registered after it.
  abbrev pub IsTree : AgentTree W → Type 0
  IsTree t = Named t.nodes × Ordered (shape t.nodes)

  -- What containing an agent promises, for the agents that it returns.
  abbrev pub Fences : String → AgentTree W → List String → AgentTree W → Type 0
  Fences agent_id t visited t' =
      ((b : String) → (contains b visited ≡ true) ↔ Below (shape t.nodes) agent_id b)
      × ((b : String) → contains b visited ≡ true → IsFenced b t')
      × ((b : String) → contains b visited ≡ false → lookup b t'.nodes ≡ lookup b t.nodes)
      × (shape t'.nodes ≡ shape t.nodes)

  -- In a tree, with as much fuel as the subtree of a registered agent has members, the loop ends. It
  -- returns exactly the agent and its descendants, each of them is then contained and has no
  -- capability, and every other agent is as it was.
  pub contain-Fences :
      (clock : Clock W) (fuel : ℕ) (agent_id : String) (t : AgentTree W)
      → IsTree t
      → lookup agent_id t.nodes ≢ none
      → weight (shape t.nodes) agent_id ≤ fuel
      → (visited : List String) × (t' : AgentTree W) × (contain clock fuel agent_id t
          ≡ some (ok visited, t'))
        × Fences agent_id t visited t'
  unfolding contain contains
  contain-Fences clock fuel agent_id t (named, o) known f =
      elim (Option-cases (lookup agent_id t.nodes)) [
        | inl n ↦ absurd (known n)
        | inr (n, h) ↦
            let s : lookup agent_id (shape t.nodes) ≡ some n.children =
              lookup-shape agent_id t.nodes ∙ ap (λ o. children_of o) h in
            let (visited, v, (only, _, all)) =
              visits-Exact (shape t.nodes) fuel [] (agent_id ∷ []) o
                (λ a m e. ground (arith, m, eq_iff agent_id a, e, s)) (omega (arith, f)) in
            let (t', e, (same, _, new, _, rest)) =
              contain_loop-Swept clock fuel [] (agent_id ∷ []) visited t v in
            (
              visited,
              t',
              rw (h, contain, lookup-Named t.nodes agent_id n named h) e,
              (
                λ b. (
                  λ m. elim (only b m) [
                    | inl x ↦ absurd (ground (arith, x))
                    | inr (a, q, l) ↦
                        subst (λ z. Below (shape t.nodes) z b)
                          (sym ((eq_iff agent_id a).0 (ground (arith, q)))) l
                  ],
                  λ l. all b (agent_id, ground (arith, eq_refl agent_id), l),
                ),
                λ b m. elim (new b m) [ inl x ↦ absurd (ground (arith, x)) | inr x ↦ x ],
                rest,
                same,
              ),
            )
      ]
