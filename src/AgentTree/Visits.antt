-- ===== src/AgentTree/Visits.antt =====
-- The order in which the loop of `contain` visits the agents, without what it does to them.
use mathlib.Core.Path.{subst}
use agent_containment.Base.{
  ℕ, zero, suc, ◌≤◌, ◌≡◌, refl, sym, ◌⊎◌, inl, inr, ◌||◌, String, true, Option, none, some, List,
  [], ◌∷◌, ◌++◌, arith, eq_iff, eq_refl, ◌=s◌, contains, Bool-cases, Option-cases,
}
use agent_containment.Base.Dict.{lookup}
use agent_containment.AgentTree.{extend, sorted_reverse}
use agent_containment.AgentTree.Shape.{
  Shape, Ordered, sum_by, weight, Below, Known, AllIn-Known, Known-extend, weight-lookup,
  sum_by-extend, sum_by-sorted_reverse, contains-extend, contains-sorted_reverse,
}

unfoldable pub visits : Shape → ℕ → List String → List String → Option (List String)
visits d fuel done [] = some done
visits d zero done (a ∷ stack) = none
visits d (suc fuel) done (a ∷ stack) = elim (lookup a d) [
  | none ↦ none
  | some cs ↦ visits d fuel (done ++ (a ∷ [])) (extend (sorted_reverse cs) stack)
]

pub contains-snoc :
    (b a : String) (done : List String)
    → contains b (done ++ (a ∷ [])) ≡ (contains b done || a =s b)
unfolding contains
contains-snoc b a [] = ground arith
contains-snoc b a (x ∷ done) = ground (arith, contains-snoc b a done)

-- An agent of the stack of which another is a descendant.
abbrev pub Above : Shape → List String → String → Type 0
Above d stack b = (a : String) × (contains a stack ≡ true) × Below d a b

-- The visited agents are those that were visited before and the descendants of the stack.
abbrev pub Exact : Shape → List String → List String → List String → Type 0
Exact d done stack visited =
    ((b : String) → contains b visited ≡ true → (contains b done ≡ true) ⊎ Above d stack b)
    × ((b : String) → contains b done ≡ true → contains b visited ≡ true)
    × ((b : String) → Above d stack b → contains b visited ≡ true)

contains-extended :
    (c : String) (cs stack : List String)
    → contains c (extend (sorted_reverse cs) stack) ≡ (contains c cs || contains c stack)
contains-extended c cs stack =
    ground (arith, contains-extend c (sorted_reverse cs) stack, contains-sorted_reverse c cs)

-- A descendant of an agent is the agent itself or a descendant of one of its children.
Below-next :
    (d : Shape) (a b : String) (cs : List String)
    → lookup a d ≡ some cs
    → Below d a b
    → (a ≡ b) ⊎ Above d cs b
Below-next d a b cs h Below.self = inl refl
Below-next d a b cs h (Below.child {c = c} g m l) = inr (c, ground (arith, h, g, m), l)

-- Replacing the top of the stack by its children changes nothing of that.
Exact-next :
    (d : Shape) (done stack visited : List String) (a : String) (cs : List String)
    → lookup a d ≡ some cs
    → Exact d (done ++ (a ∷ [])) (extend (sorted_reverse cs) stack) visited
    → Exact d done (a ∷ stack) visited
unfolding contains
Exact-next d done stack visited a cs h (only, kept, all) = (
  λ b m. elim (only b m) [
    | inl x ↦ elim (Bool-cases (a =s b)) [
      | inl y ↦
          inr (a, ground (arith, eq_refl a), subst (λ z. Below d a z) ((eq_iff a b).0 y) Below.self)
      | inr f ↦ inl (ground (arith, x, f, contains-snoc b a done))
    ]
    | inr (c, e, l) ↦ elim (Bool-cases (contains c cs)) [
      | inl y ↦ inr (a, ground (arith, eq_refl a), Below.child h y l)
      | inr f ↦ inr (c, ground (arith, e, f, contains-extended c cs stack), l)
    ]
  ],
  λ b m. kept b (ground (arith, m, contains-snoc b a done)),
  λ b (c, e, l). elim (Bool-cases (a =s c)) [
    | inl y ↦ elim (Below-next d a b cs h (subst (λ z. Below d z b) (sym ((eq_iff a c).0 y)) l)) [
      | inl same ↦ kept b (ground (arith, contains-snoc b a done, eq_iff a b, same))
      | inr (c', m, l') ↦ all b (c', ground (arith, m, contains-extended c' cs stack), l')
    ]
    | inr f ↦ all b (c, ground (arith, e, f, contains-extended c cs stack), l)
  ],
)

weight-pos : (d : Shape) (a : String) → 1 ≤ weight d a
weight-pos [] a = omega arith
weight-pos ((k, cs) ∷ d) a = ground (arith, weight-pos d a)

-- With as much fuel as the stack weighs, the loop ends.
pub visits-Exact :
    (d : Shape) (fuel : ℕ) (done stack : List String)
    → Ordered d
    → Known stack d
    → sum_by (weight d) stack ≤ fuel
    → (visited : List String) × (visits d fuel done stack ≡ some visited)
      × Exact d done stack visited
unfolding visits contains
visits-Exact d fuel done [] o k f =
    (done, refl, (λ b m. inl m, λ b m. m, λ b (a, e, _). ground (arith, e)))
visits-Exact d zero done (a ∷ stack) o k f = absurd (omega (arith, f, weight-pos d a))
visits-Exact d (suc fuel) done (a ∷ stack) o k f = elim (Option-cases (lookup a d)) [
  | inl n ↦ absurd (k a (ground (arith, eq_refl a)) n)
  | inr (cs, h) ↦
      let (w, i) = weight-lookup d a cs o h in
      let (visited, v, exact) =
        visits-Exact d fuel (done ++ (a ∷ [])) (extend (sorted_reverse cs) stack) o
          (Known-extend cs stack d (AllIn-Known cs d i) (λ b m. k b (ground (arith, m))))
          (omega (
            arith,
            f,
            w,
            sum_by-extend (weight d) (sorted_reverse cs) stack,
            sum_by-sorted_reverse (weight d) cs,
          )) in
      (visited, rw (h, visits) v, Exact-next d done stack visited a cs h exact)
]
