-- ===== src/AgentTree/Tests.antt =====
-- Trees of agents at concrete inputs.
use agent_containment.Base.{
  ℕ, ◌≡◌, ◌≢◌, refl, String, Option, none, some, List, [], ◌∷◌, Result, ok, contains, decimal,
  arith,
}
use agent_containment.Base.Dict.{lookup, insert}
use agent_containment.Runtime
use agent_containment.Containment.{Clock, new_controller}
use agent_containment.AgentTree.{
  AgentTree, extend, sorted_reverse, register_root, spawn, contain, descendants,
}
use agent_containment.AgentTree.Shape.{shape, weight}
use agent_containment.AgentTree.Growth.{Spawned, register_root-IsTree, spawn-IsTree, spawn-Spawned}
use agent_containment.AgentTree.Subtree.{IsTree, Fences, contain-Fences}

abbrev clock : Clock ℕ
clock = record { monotonic = λ w. (w, w); utc_now = λ w. (decimal w, w) }

abbrev empty : AgentTree ℕ
empty = record { nodes = []; next = 0; world = 5 }

abbrev rooted : AgentTree ℕ
rooted = (register_root "u1" "root" (some ("read" ∷ "write" ∷ [])) empty).1

abbrev spawned : AgentTree ℕ
spawned = (spawn "u2" "root" "child" (some ("write" ∷ "admin" ∷ [])) rooted).1

abbrev family : AgentTree ℕ
family = (spawn "u3" "child" "grandchild" none (register_root "u4" "other" none spawned).1).1

empty-IsTree : IsTree empty
empty-IsTree = (tt, tt)

register_root-IsTree_example : IsTree rooted
register_root-IsTree_example =
    register_root-IsTree "u1" "root" (some ("read" ∷ "write" ∷ [])) empty empty-IsTree

spawn-Spawned_example :
    Spawned "root" "child" rooted (spawn "u2" "root" "child" (some ("write" ∷ "admin" ∷ [])) rooted)
spawn-Spawned_example =
    spawn-Spawned "u2" "root" "child" (some ("write" ∷ "admin" ∷ [])) rooted
      register_root-IsTree_example

spawned-IsTree : IsTree spawned
spawned-IsTree =
    spawn-IsTree "u2" "root" "child" (some ("write" ∷ "admin" ∷ [])) rooted
      register_root-IsTree_example

family-IsTree : IsTree family
family-IsTree =
    spawn-IsTree "u3" "child" "grandchild" none (register_root "u4" "other" none spawned).1
      (register_root-IsTree "u4" "other" none spawned spawned-IsTree)

root_known : lookup "root" family.nodes ≢ none
unfolding register_root spawn lookup insert new_controller Runtime.new contains
root_known h = ground arith

root_weight : weight (shape family.nodes) "root" ≡ 3
unfolding register_root spawn lookup insert new_controller Runtime.new contains
root_weight = refl

contain-Fences_example :
    (visited : List String) × (t' : AgentTree ℕ) × (contain clock 3 "root" family
      ≡ some (ok visited, t'))
    × Fences "root" family visited t'
contain-Fences_example =
    contain-Fences clock 3 "root" family family-IsTree root_known (omega (arith, root_weight))

abbrev visited_by : Option (Result (List String) × AgentTree ℕ) → List String
visited_by (some (ok visited, _)) = visited
visited_by _ = []

visited_order : visited_by (contain clock 3 "root" family) ≡ "root" ∷ "child" ∷ "grandchild" ∷ []
unfolding contain register_root spawn lookup insert new_controller Runtime.new contains extend
    sorted_reverse
visited_order = refl

descendants_order : descendants 3 "root" family ≡ some (ok ("child" ∷ "grandchild" ∷ []))
unfolding descendants register_root spawn lookup insert new_controller Runtime.new contains extend
descendants_order = refl
