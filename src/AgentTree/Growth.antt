-- ===== src/AgentTree/Growth.antt =====
-- Registering and spawning keep the tree a tree, and hand down no more than the parent has.
use mathlib.Core.Path.{subst}
use agent_containment.Base.{
  ◌≡◌, refl, sym, ap, ◌∙◌, ◌⊎◌, inl, inr, String, true, false, Option, none, some, is_some, List,
  [], ◌∷◌, ◌++◌, arith, eq_iff, eq_refl, ◌=s◌, contains, Bool-cases, Option-cases, Result, ok,
  raised, Exc,
}
use agent_containment.Base.Dict.{Dict, lookup, insert, lookup-insert_self}
use agent_containment.Containment.{new_controller}
use agent_containment.Runtime.{Ref, RuntimeState, active, is_active, is_contained}
use agent_containment.AgentTree.{
  AgentNode, AgentTree, node_of, given, register_root, add_child, common, inherited, spawn_under,
  spawn,
}
use agent_containment.AgentTree.Shape.{Below, shape, Ordered}
use agent_containment.AgentTree.Subtree.{Named, IsTree, lookup-shape, lookup-Named, children_of}
use agent_containment.AgentTree.Order.{Ordered-insert_fresh, Ordered-grow}

common-subset :
    (c : String) (own allowed : List String)
    → contains c (common own allowed) ≡ true
    → contains c own ≡ true
unfolding contains common
common-subset c [] allowed h = h
common-subset c (o ∷ own) allowed h = ground (arith, common-subset c own allowed, h)

inherited-subset :
    (c : String) (capabilities : Option (List String)) (own : List String)
    → contains c (inherited capabilities own) ≡ true
    → contains c own ≡ true
unfolding inherited
inherited-subset c none own h = h
inherited-subset c (some allowed) own h = common-subset c own allowed h

contains-end : (c : String) (cs : List String) → contains c (cs ++ (c ∷ [])) ≡ true
unfolding contains
contains-end c [] = ground (arith, eq_refl c)
contains-end c (x ∷ cs) = ground (arith, contains-end c cs)

contains-add_child : (c : String) (cs : List String) → contains c (add_child c cs) ≡ true
unfolding add_child
contains-add_child c cs = elim (Bool-cases (contains c cs)) [
  | inl y ↦ rw (y, add_child) y
  | inr f ↦ rw (f, add_child) (contains-end c cs)
]

active-contained : (s : RuntimeState) → is_active s ≡ true → (s ≡ active) × (is_contained s ≡ false)
active-contained s h = ground arith

node_of-fields :
    (W : Type 0) (agent_id : String) (parent : Option String) (uuid : String)
    (capabilities : List String) (next : Ref)
    → let n : AgentNode W = node_of agent_id parent uuid capabilities next in
      (n.agent_id ≡ agent_id) × (n.children ≡ []) × (n.containment.capabilities ≡ capabilities)
unfolding node_of new_controller
node_of-fields W agent_id parent uuid capabilities next = (refl, refl, refl)

module _ {W : Type 0} where
  shape-inserted :
      (k : String) (n : AgentNode W) (d : Dict (AgentNode W))
      → shape (insert k n d) ≡ insert k n.children (shape d)
  unfolding insert
  shape-inserted k n [] = refl
  shape-inserted k n ((j, m) ∷ d) = elim (Bool-cases (j =s k)) [
    | inl y ↦ rw (y, insert) refl
    | inr f ↦ rw (f, insert) (ap (λ s. (j, m.children) ∷ s) (shape-inserted k n d))
  ]

  Named-inserted :
      (k : String) (n : AgentNode W) (d : Dict (AgentNode W))
      → Named d
      → n.agent_id ≡ k
      → Named (insert k n d)
  unfolding insert
  Named-inserted k n [] h e = (e, tt)
  Named-inserted k n ((j, m) ∷ d) (x, h) e = elim (Bool-cases (j =s k)) [
    | inl y ↦ rw (y, insert) (e ∙ sym ((eq_iff j k).0 y), h)
    | inr f ↦ rw (f, insert) (x, Named-inserted k n d h e)
  ]

  lookup-shape_inserted :
      (a : String) (n : AgentNode W) (d : Dict (AgentNode W))
      → lookup a (shape (insert a n d)) ≡ some n.children
  lookup-shape_inserted a n d =
      lookup-shape a (insert a n d)
      ∙ ap (λ (q : Option (AgentNode W)). children_of q) (lookup-insert_self a n d)

  shape-none :
      (a : String) (d : Dict (AgentNode W))
      → is_some (lookup a d) ≡ false
      → lookup a (shape d) ≡ none
  shape-none a d h = ground (arith, lookup-shape a d, h)

  IsTree-root :
      (uuid agent_id : String) (capabilities : List String) (t : AgentTree W)
      → IsTree t
      → is_some (lookup agent_id t.nodes) ≡ false
      → Named (insert agent_id (node_of agent_id none uuid capabilities t.next) t.nodes)
        × Ordered (shape (insert agent_id (node_of agent_id none uuid capabilities t.next) t.nodes))
  unfolding node_of
  IsTree-root uuid agent_id capabilities t (h, o) f = (
    Named-inserted agent_id _ t.nodes h refl,
    subst (λ s. Ordered s) (sym (shape-inserted agent_id _ t.nodes))
        (Ordered-insert_fresh agent_id (shape t.nodes) o (shape-none agent_id t.nodes f)),
  )

  -- Registering a root keeps the tree one, whether it returns or raises.
  pub register_root-IsTree :
      (uuid agent_id : String) (capabilities : Option (List String)) (t : AgentTree W)
      → IsTree t
      → IsTree (register_root uuid agent_id capabilities t).1
  unfolding register_root
  register_root-IsTree uuid agent_id capabilities t i =
      elim (Bool-cases (is_some (lookup agent_id t.nodes))) [
        | inl y ↦ rw (y, register_root) i
        | inr f ↦ rw (f, register_root) (IsTree-root uuid agent_id (given capabilities) t i f)
      ]

  IsTree-spawned :
      (parent : AgentNode W) (parent_id child_id : String) (new : AgentNode W)
      (d : Dict (AgentNode W))
      → Named d
      → Ordered (shape d)
      → is_some (lookup child_id d) ≡ false
      → lookup parent_id d ≡ some parent
      → new.agent_id ≡ child_id
      → new.children ≡ []
      → let d' =
          insert parent_id
            (record parent { children = add_child child_id parent.children })
            (insert child_id new d) in
        Named d' × Ordered (shape d')
  IsTree-spawned parent parent_id child_id new d named o f h e c = (
    Named-inserted parent_id _ _ (Named-inserted child_id new d named e)
        (lookup-Named d parent_id parent named h),
    subst (λ s. Ordered s)
        (sym (
          shape-inserted parent_id _ (insert child_id new d)
          ∙ ap (λ s. insert parent_id (add_child child_id parent.children) s)
              (shape-inserted child_id new d ∙ ap (λ cs. insert child_id cs (shape d)) c)))
        (Ordered-grow child_id parent_id parent.children (shape d) o (shape-none child_id d f)
          (lookup-shape parent_id d ∙ ap (λ q. children_of q) h)),
  )

  -- What became of a spawn: a child of an active parent, with no capability that the parent does not
  -- have, in a tree that is still one; or an exception, and the tree as it was.
  abbrev pub Spawned : String → String → AgentTree W → Result (AgentNode W) × AgentTree W → Type 0
  Spawned parent_id child_id t (reply, t') =
      ((child : AgentNode W) × (parent : AgentNode W) × (reply ≡ ok child)
        × (lookup parent_id t.nodes ≡ some parent)
        × (parent.containment.runtime.state ≡ active)
        × ((c : String)
            → contains c child.containment.capabilities ≡ true
            → contains c parent.containment.capabilities ≡ true)
        × Below (shape t'.nodes) parent_id child_id
        × IsTree t')
      ⊎ ((x : Exc) × (reply ≡ raised x) × (t' ≡ t))

  spawn_under-Spawned :
      (uuid : String) (parent : AgentNode W) (parent_id child_id : String)
      (capabilities : Option (List String)) (t : AgentTree W)
      → IsTree t
      → is_some (lookup child_id t.nodes) ≡ false
      → lookup parent_id t.nodes ≡ some parent
      → Spawned parent_id child_id t (spawn_under uuid parent parent_id child_id capabilities t)
  unfolding spawn_under
  spawn_under-Spawned uuid parent parent_id child_id capabilities t (named, o) f h =
      elim (Bool-cases (is_active parent.containment.runtime.state)) [
        | inr g ↦ rw (g, spawn_under) (inr (_, refl, refl))
        | inl y ↦
            let own = inherited capabilities parent.containment.capabilities in
            let new : AgentNode W = node_of child_id (some parent_id) uuid own t.next in
            let (id, none_yet, caps) = node_of-fields W child_id (some parent_id) uuid own t.next in
            let (act, g) = active-contained parent.containment.runtime.state y in
            rw (y, spawn_under, g)
              (inl (
                new,
                parent,
                refl,
                h,
                act,
                λ c m.
                    inherited-subset c capabilities parent.containment.capabilities
                      (subst (λ o. contains c o ≡ true) caps m),
                Below.child
                    (lookup-shape_inserted parent_id
                      (record parent { children = add_child child_id parent.children })
                      (insert child_id new t.nodes))
                    (contains-add_child child_id parent.children) Below.self,
                IsTree-spawned parent parent_id child_id new t.nodes named o f h id none_yet,
              ))
      ]

  spawn-found :
      (uuid : String) (parent : AgentNode W) (parent_id child_id : String)
      (capabilities : Option (List String)) (t : AgentTree W)
      → is_some (lookup child_id t.nodes) ≡ false
      → lookup parent_id t.nodes ≡ some parent
      → spawn uuid parent_id child_id capabilities t
        ≡ spawn_under uuid parent parent_id child_id capabilities t
  unfolding spawn
  spawn-found uuid parent parent_id child_id capabilities t f h = rw (f, spawn, h) refl

  -- Spawning under an agent that is not executable, or under a name that is not registered, or with
  -- a name that is taken, raises and leaves the tree as it was. Otherwise the parent is active, the
  -- new agent is its descendant, has no capability that the parent does not have, and the tree is one.
  pub spawn-Spawned :
      (uuid parent_id child_id : String) (capabilities : Option (List String)) (t : AgentTree W)
      → IsTree t
      → Spawned parent_id child_id t (spawn uuid parent_id child_id capabilities t)
  unfolding spawn
  spawn-Spawned uuid parent_id child_id capabilities t i =
      elim (Bool-cases (is_some (lookup child_id t.nodes))) [
        | inl y ↦ rw (y, spawn) (inr (_, refl, refl))
        | inr f ↦ elim (Option-cases (lookup parent_id t.nodes)) [
          | inl n ↦ rw (f, spawn, n) (inr (_, refl, refl))
          | inr (parent, h) ↦
              subst (λ r. Spawned parent_id child_id t r)
                (sym (spawn-found uuid parent parent_id child_id capabilities t f h))
                (spawn_under-Spawned uuid parent parent_id child_id capabilities t i f h)
        ]
      ]

  pub spawn-IsTree :
      (uuid parent_id child_id : String) (capabilities : Option (List String)) (t : AgentTree W)
      → IsTree t
      → IsTree (spawn uuid parent_id child_id capabilities t).1
  spawn-IsTree uuid parent_id child_id capabilities t i =
      elim (spawn-Spawned uuid parent_id child_id capabilities t i) [
        | inl (_, _, _, _, _, _, _, tree) ↦ tree
        | inr (_, _, same) ↦ subst (λ u. IsTree u) (sym same) i
      ]
