-- ===== src/AgentTree/Shape.antt =====
-- The children of each agent, and the invariant that makes the tree one: a child comes after its
-- parent in the order of registration.
use mathlib.Core.Path.{subst}
use agent_containment.Base.{
  Bool-cases, inl, inr, ℕ, suc, ◌+◌, ◌≡◌, ◌≢◌, refl, String, true, none, some, List, [], ◌∷◌, arith,
  eq_iff, if◌then◌else◌, ◌=s◌, contains, ◌||◌,
}
use agent_containment.Base.Dict.{Dict, lookup}
use agent_containment.AgentTree.{AgentNode, extend, sorted_reverse, place}

abbrev pub Shape : Type 0
Shape = Dict (List String)

abbrev pub shape : {W : Type 0} → Dict (AgentNode W) → Shape
shape [] = []
shape ((k, n) ∷ d) = (k, n.children) ∷ shape d

abbrev pub IsIn : String → Shape → Type 0
IsIn a d = lookup a d ≢ none

abbrev pub AllIn : List String → Shape → Type 0
AllIn [] d = Unit {0}
AllIn (c ∷ cs) d = IsIn c d × AllIn cs d

-- Every agent is registered once, and its children after it.
abbrev pub Ordered : Shape → Type 0
Ordered [] = Unit {0}
Ordered ((k, cs) ∷ d) = (lookup k d ≡ none) × AllIn cs d × Ordered d

abbrev pub sum_by : (String → ℕ) → List String → ℕ
sum_by w [] = 0
sum_by w (a ∷ rest) = w a + sum_by w rest

-- The number of agents in the subtree of an agent.
abbrev pub weight : Shape → String → ℕ
weight [] a = 1
weight ((k, cs) ∷ d) a = if k =s a then suc (sum_by (weight d) cs) else weight d a

-- `b` is `a` or a descendant of it.
pub data Below (d : Shape) : String → String → Type 0 where
  self : {a : String} → Below d a a
  child :
      {a b c : String} {cs : List String}
      → lookup a d ≡ some cs
      → contains c cs ≡ true
      → Below d c b
      → Below d a b

pub sum_by-extend :
    (w : String → ℕ) (xs stack : List String)
    → sum_by w (extend xs stack) ≡ sum_by w xs + sum_by w stack
unfolding extend
sum_by-extend w [] stack = omega arith
sum_by-extend w (x ∷ xs) stack = omega (arith, sum_by-extend w xs (x ∷ stack))

sum_by-place :
    (w : String → ℕ) (x : String) (ys : List String) → sum_by w (place x ys) ≡ w x + sum_by w ys
unfolding place
sum_by-place w x [] = refl
sum_by-place w x (y ∷ ys) = ground (arith, sum_by-place w x ys)

pub sum_by-sorted_reverse :
    (w : String → ℕ) (xs : List String) → sum_by w (sorted_reverse xs) ≡ sum_by w xs
unfolding sorted_reverse
sum_by-sorted_reverse w [] = refl
sum_by-sorted_reverse w (x ∷ xs) =
    omega (arith, sum_by-place w x (sorted_reverse xs), sum_by-sorted_reverse w xs)

pub contains-extend :
    (s : String) (xs stack : List String)
    → contains s (extend xs stack) ≡ (contains s xs || contains s stack)
unfolding extend contains
contains-extend s [] stack = refl
contains-extend s (x ∷ xs) stack = ground (arith, contains-extend s xs (x ∷ stack))

contains-place :
    (s x : String) (ys : List String) → contains s (place x ys) ≡ (x =s s || contains s ys)
unfolding place contains
contains-place s x [] = refl
contains-place s x (y ∷ ys) = ground (arith, contains-place s x ys)

pub contains-sorted_reverse :
    (s : String) (xs : List String) → contains s (sorted_reverse xs) ≡ contains s xs
unfolding sorted_reverse contains
contains-sorted_reverse s [] = refl
contains-sorted_reverse s (x ∷ xs) =
    ground (arith, contains-place s x (sorted_reverse xs), contains-sorted_reverse s xs)

-- A different agent in front changes neither the weight of an agent nor that of agents behind it.
sum_by-same :
    (v w : String → ℕ) (d : Shape) (cs : List String)
    → ((a : String) → IsIn a d → v a ≡ w a)
    → AllIn cs d
    → sum_by v cs ≡ sum_by w cs
sum_by-same v w d [] h i = refl
sum_by-same v w d (c ∷ cs) h (i, is) = omega (arith, h c i, sum_by-same v w d cs h is)

weight-IsIn :
    (k : String) (cs : List String) (d : Shape) (a : String)
    → lookup k d ≡ none
    → IsIn a d
    → weight ((k, cs) ∷ d) a ≡ weight d a
weight-IsIn k cs d a n i = ground (arith, eq_iff k a)

sum_by-front :
    (k : String) (es : List String) (d : Shape) (cs : List String)
    → lookup k d ≡ none
    → AllIn cs d
    → sum_by (weight ((k, es) ∷ d)) cs ≡ sum_by (weight d) cs
sum_by-front k es d cs n i =
    sum_by-same (weight ((k, es) ∷ d)) (weight d) d cs (λ a j. weight-IsIn k es d a n j) i

AllIn-lookup :
    (d : Shape) (k : String) (cs es : List String)
    → lookup k d ≡ none
    → AllIn es d
    → AllIn es ((k, cs) ∷ d)
unfolding lookup
AllIn-lookup d k cs [] n h = tt
AllIn-lookup d k cs (e ∷ es) n (h, hs) = (ground (arith), AllIn-lookup d k cs es n hs)

-- In an ordered tree an agent weighs one more than its children.
pub weight-lookup :
    (d : Shape) (a : String) (cs : List String)
    → Ordered d
    → lookup a d ≡ some cs
    → (weight d a ≡ suc (sum_by (weight d) cs)) × AllIn cs d
unfolding lookup
weight-lookup [] a cs o h = ground arith
weight-lookup ((k, es) ∷ d) a cs (n, all, o) h = elim (Bool-cases (k =s a)) [
  | inl y ↦
      let e : es ≡ cs = ground (arith, h, y) in
      subst
        (λ x.
          (weight ((k, es) ∷ d) a ≡ suc (sum_by (weight ((k, es) ∷ d)) x)) × AllIn x ((k, es) ∷ d))
        e (ground (arith, y, sum_by-front k es d es n all), AllIn-lookup d k es es n all)
  | inr f ↦
      let (e, i) = weight-lookup d a cs o (ground (arith, h, f)) in
      (ground (arith, f, e, sum_by-front k es d cs n i), AllIn-lookup d k es cs n i)
]

-- Every agent of a stack is registered.
abbrev pub Known : List String → Shape → Type 0
Known stack d = (a : String) → contains a stack ≡ true → IsIn a d

pub AllIn-Known : (cs : List String) (d : Shape) → AllIn cs d → Known cs d
unfolding contains
AllIn-Known [] d h a m = ground arith
AllIn-Known (c ∷ cs) d (i, is) a m = elim (Bool-cases (c =s a)) [
  | inl y ↦ subst (λ x. IsIn x d) ((eq_iff c a).0 y) i
  | inr f ↦ AllIn-Known cs d is a (ground (arith, f, m))
]

-- What stands on the stack after an agent was replaced by its children.
pub Known-extend :
    (cs stack : List String) (d : Shape)
    → Known cs d
    → Known stack d
    → Known (extend (sorted_reverse cs) stack) d
Known-extend cs stack d h k a m = elim (Bool-cases (contains a cs)) [
  | inl y ↦ h a y
  | inr f ↦ k a (
      ground
        (arith, f, m, contains-extend a (sorted_reverse cs) stack, contains-sorted_reverse a cs))
]
