-- ===== src/AgentTree.antt =====
-- src/agent_containment/agent_tree.py: the parents and children that agents are, and the containment
-- of an agent with all its descendants. The references that `object()` makes are numbered by `next`;
-- a stack has its top at the head.
pub mod Shape
pub mod Visits
pub mod Order
pub mod Growth
pub mod Subtree
mod Tests
use Prim.Native.Nat.{Ordering}
use Prim.Native.String.{compare}
use agent_containment.Base.{
  ℕ, zero, suc, ◌+◌, String, Bool, true, false, ◌||◌, not, Option, none, some, List, [], ◌∷◌, ◌++◌,
  if◌then◌else◌, is_some, Result, ok, raised, raise, value_error, runtime_error, key_error, concat,
  contains,
}
use agent_containment.Base.Dict.{Dict, lookup, insert}
use agent_containment.Runtime
use agent_containment.Runtime.{Ref, can_execute}
use agent_containment.Containment
use agent_containment.Containment.{Controller, Clock, new_controller, is_contained_now}

pub record AgentNode (W : Type 0) : Type 0 where
  pub agent_id : String
  pub parent_id : Option String
  pub containment : Controller W
  pub children : List String

pub record AgentTree (W : Type 0) : Type 0 where
  pub nodes : Dict (AgentNode W)
  pub next : Ref
  pub world : W

-- `s < t`
abbrev pub before : String → String → Bool
before s t = elim (compare s t) [ Ordering.lt ↦ true | _ ↦ false ]

unfoldable pub place : String → List String → List String
place x [] = x ∷ []
place x (y ∷ ys) = let rest = place x ys in if before y x then x ∷ y ∷ ys else y ∷ rest

-- `sorted(children, reverse=True)`
unfoldable pub sorted_reverse : List String → List String
unfolding place
sorted_reverse [] = []
sorted_reverse (x ∷ xs) = place x (sorted_reverse xs)

-- `stack.extend(xs)`
unfoldable pub extend : List String → List String → List String
extend [] stack = stack
extend (x ∷ xs) stack = extend xs (x ∷ stack)

-- `inherited & capabilities`, if there are capabilities.
unfoldable pub common : List String → List String → List String
common [] allowed = []
common (c ∷ cs) allowed =
    let rest = common cs allowed in if contains c allowed then c ∷ rest else rest

unfoldable pub inherited : Option (List String) → List String → List String
unfolding common
inherited none own = own
inherited (some allowed) own = common own allowed

abbrev pub given : Option (List String) → List String
given none = []
given (some capabilities) = capabilities

-- `children.add(child)`
unfoldable pub add_child : String → List String → List String
add_child child children = if contains child children then children else children ++ (child ∷ [])

module _ {W : Type 0} where
  -- `AgentNode(agent_id, parent_id, runtime, controller)` with a new runtime and a new controller.
  unfoldable pub node_of : String → Option String → String → List String → Ref → AgentNode W
  node_of agent_id parent uuid capabilities next = record {
    agent_id = agent_id;
    parent_id = parent;
    containment =
        new_controller (Runtime.new agent_id none uuid next (suc next)) capabilities none none none
          [];
    children = [];
  }

  unfoldable pub register_root :
      String → String → Option (List String) → AgentTree W → Result (AgentNode W) × AgentTree W
  unfolding node_of
  register_root uuid agent_id capabilities t =
      if is_some (lookup agent_id t.nodes)
      then (raise value_error (concat ("agent already registered: " ∷ agent_id ∷ [])), t)
      else (
        ok (node_of agent_id none uuid (given capabilities) t.next),
        record t {
          nodes = insert agent_id (node_of agent_id none uuid (given capabilities) t.next) t.nodes;
          next = t.next + 2;
        },
      )

  -- The rest of `spawn` under a parent that is registered.
  unfoldable pub spawn_under :
      String
      → AgentNode W
      → String
      → String
      → Option (List String)
      → AgentTree W
      → Result (AgentNode W) × AgentTree W
  unfolding inherited node_of add_child
  spawn_under uuid parent parent_id child_id capabilities t =
      if not (can_execute parent.containment.runtime) || is_contained_now parent.containment
      then (
        raise runtime_error (concat ("parent agent cannot spawn children: " ∷ parent_id ∷ [])),
        t,
      )
      else (
        ok (
            node_of child_id (some parent_id) uuid
              (inherited capabilities parent.containment.capabilities) t.next),
        record t {
          nodes =
              insert parent_id (record parent { children = add_child child_id parent.children })
                (insert child_id
                  (node_of child_id (some parent_id) uuid
                    (inherited capabilities parent.containment.capabilities) t.next)
                  t.nodes);
          next = t.next + 2;
        },
      )

  unfoldable pub spawn :
      String
      → String
      → String
      → Option (List String)
      → AgentTree W
      → Result (AgentNode W) × AgentTree W
  unfolding spawn_under
  spawn uuid parent_id child_id capabilities t =
      if is_some (lookup child_id t.nodes)
      then (raise value_error (concat ("agent already registered: " ∷ child_id ∷ [])), t)
      else elim (lookup parent_id t.nodes) [
        | none ↦ (raise key_error (concat ("unknown agent: " ∷ parent_id ∷ [])), t)
        | some parent ↦ spawn_under uuid parent parent_id child_id capabilities t
      ]

  -- `current.containment.contain()`, the node being that of `current_id`.
  unfoldable pub contain_node : Clock W → String → AgentNode W → AgentTree W → AgentTree W
  contain_node clock current_id n t =
      let ((_, c), w) = Containment.contain clock t.next n.containment t.world in
      record {
        nodes = insert current_id (record n { containment = c }) t.nodes;
        next = t.next + 1;
        world = w;
      }

  -- The loop of `contain`, which has contained the agents of `done`.
  unfoldable pub contain_loop :
      Clock W
      → ℕ
      → List String
      → List String
      → AgentTree W
      → Option (Result (List String) × AgentTree W)
  unfolding contain_node
  contain_loop clock fuel done [] t = some (ok done, t)
  contain_loop clock zero done (current ∷ stack) t = none
  contain_loop clock (suc fuel) done (current ∷ stack) t = elim (lookup current t.nodes) [
    | none ↦ some (raise key_error (concat ("unknown agent: " ∷ current ∷ [])), t)
    | some n ↦
        contain_loop clock fuel (done ++ (current ∷ [])) (extend (sorted_reverse n.children) stack)
          (contain_node clock current n t)
  ]

  unfoldable pub contain :
      Clock W → ℕ → String → AgentTree W → Option (Result (List String) × AgentTree W)
  unfolding contain_loop
  contain clock fuel agent_id t = elim (lookup agent_id t.nodes) [
    | none ↦ some (raise key_error (concat ("unknown agent: " ∷ agent_id ∷ [])), t)
    | some n ↦ contain_loop clock fuel [] (n.agent_id ∷ []) t
  ]

  -- The loop of `descendants`; a set is iterated in the order of its list.
  unfoldable pub descendants_loop :
      ℕ → List String → List String → AgentTree W → Option (Result (List String))
  descendants_loop fuel result [] t = some (ok result)
  descendants_loop zero result (child ∷ stack) t = none
  descendants_loop (suc fuel) result (child ∷ stack) t = elim (lookup child t.nodes) [
    | none ↦ some (raise key_error child)
    | some n ↦ descendants_loop fuel (result ++ (child ∷ [])) (extend n.children stack) t
  ]

  unfoldable pub descendants : ℕ → String → AgentTree W → Option (Result (List String))
  unfolding descendants_loop
  descendants fuel agent_id t = elim (lookup agent_id t.nodes) [
    | none ↦ some (raise key_error (concat ("unknown agent: " ∷ agent_id ∷ [])))
    | some n ↦ descendants_loop fuel [] (extend n.children []) t
  ]
