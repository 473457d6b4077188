-- ===== src/AgentTree/Order.antt =====
-- Adding an agent to the order of a tree, at the end and as a child.
use mathlib.Core.Path.{subst}
use agent_containment.Base.{
  ◌≡◌, ◌≢◌, refl, inl, inr, String, false, none, some, List, [], ◌∷◌, ◌++◌, arith, eq_iff, ◌=s◌,
  contains, Bool-cases,
}
use agent_containment.Base.Dict.{lookup, insert, lookup-insert, lookup-insert_self}
use agent_containment.AgentTree.{add_child}
use agent_containment.AgentTree.Shape.{Shape, IsIn, AllIn, Ordered}

insert-fresh :
    (k : String) (cs : List String) (d : Shape)
    → lookup k d ≡ none
    → insert k cs d ≡ d ++ ((k, cs) ∷ [])
unfolding lookup insert
insert-fresh k cs [] n = refl
insert-fresh k cs ((j, es) ∷ d) n = ground (arith, insert-fresh k cs d)

-- What is registered stays so.
AllIn-insert :
    (k : String) (es cs : List String) (d : Shape) → AllIn cs d → AllIn cs (insert k es d)
AllIn-insert k es [] d h = tt
AllIn-insert k es (c ∷ cs) d (i, is) =
    (ground (arith, lookup-insert k c es d, i), AllIn-insert k es cs d is)

lookup-insert_other :
    (j k : String) (cs : List String) (d : Shape)
    → lookup j d ≡ none
    → k ≢ j
    → lookup j (insert k cs d) ≡ none
lookup-insert_other j k cs d n ne = ground (arith, lookup-insert k j cs d, eq_iff k j)

-- An agent without children, at the end.
pub Ordered-insert_fresh :
    (k : String) (d : Shape) → Ordered d → lookup k d ≡ none → Ordered (insert k [] d)
unfolding lookup insert
Ordered-insert_fresh k [] o n = (refl, tt, tt)
Ordered-insert_fresh k ((j, cs) ∷ d) (m, all, o) n =
    let f : (j =s k) ≡ false = ground (arith, n) in
    rw (f, insert)
      (
        lookup-insert_other j k [] d m (λ e. absurd (ground (arith, f, eq_iff j k, e))),
        AllIn-insert k [] cs d all,
        Ordered-insert_fresh k d o (ground (arith, n, f)),
      )

AllIn-snoc :
    (c : String) (cs : List String) (d : Shape) → AllIn cs d → IsIn c d → AllIn (cs ++ (c ∷ [])) d
AllIn-snoc c [] d h i = (i, tt)
AllIn-snoc c (e ∷ es) d (h, hs) i = (h, AllIn-snoc c es d hs i)

AllIn-add_child :
    (c : String) (cs : List String) (d : Shape) → AllIn cs d → IsIn c d → AllIn (add_child c cs) d
unfolding add_child
AllIn-add_child c cs d h i = elim (Bool-cases (contains c cs)) [
  | inl y ↦ rw (y, add_child) h
  | inr f ↦ rw (f, add_child) (AllIn-snoc c cs d h i)
]

-- A new agent at the end, as a child of one that is there.
pub Ordered-grow :
    (c p : String) (cs : List String) (d : Shape)
    → Ordered d
    → lookup c d ≡ none
    → lookup p d ≡ some cs
    → Ordered (insert p (add_child c cs) (insert c [] d))
unfolding lookup insert
Ordered-grow c p cs [] o n h = ground (arith, h)
Ordered-grow c p cs ((k, es) ∷ d) (m, all, o) n h =
    let f : (k =s c) ≡ false = ground (arith, n) in
    let n' : lookup c d ≡ none = ground (arith, n, f) in
    rw (f, insert)
      (elim (Bool-cases (k =s p)) [
        | inl y ↦
            rw (y, insert)
              (
                lookup-insert_other k c [] d m (λ e. absurd (ground (arith, f, eq_iff k c, e))),
                AllIn-add_child c cs (insert c [] d)
                    (AllIn-insert c [] cs d (subst (λ x. AllIn x d) (ground (arith, h, y)) all))
                    (λ e. absurd (ground (arith, e, lookup-insert_self c [] d))),
                Ordered-insert_fresh c d o n',
              )
        | inr g ↦
            rw (g, insert)
              (
                lookup-insert_other k p (add_child c cs) (insert c [] d)
                    (lookup-insert_other k c [] d m
                      (λ e. absurd (ground (arith, f, eq_iff k c, e))))
                    (λ e. absurd (ground (arith, g, eq_iff k p, e))),
                AllIn-insert p (add_child c cs) es (insert c [] d) (AllIn-insert c [] es d all),
                Ordered-grow c p cs d o n' (ground (arith, h, g)),
              )
      ])
