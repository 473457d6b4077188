-- ===== src/Egress.antt =====
-- src/agent_containment/egress.py: the egress gate and the registry of connections, each with a
-- callback that terminates it and works on the outside world `W`. The runtime is passed as it is at
-- the time of the call; an agent has at most one dictionary of connections.
pub mod Termination
mod Tests
use agent_containment.Base.{
  ℕ, ◌+◌, String, Bool, true, false, ◌||◌, not, Option, none, some, List, [], ◌∷◌, if◌then◌else◌,
  ◌=s◌, Result, is_ok, is_empty,
}
use agent_containment.Base.Dict.{Dict, lookup, insert, erase}
use agent_containment.Durable.{values}
use agent_containment.Runtime.{
  Ref, Runtime, ExecutionLease, acquire_lease, lease_valid, can_execute,
}

pub record EgressLease : Type 0 where
  pub agent_id : String
  pub epoch : ℕ
  pub proof : Option Ref

abbrev pub Terminator : Type 0 → Type 0
Terminator W = W → Result (Unit {0}) × W

abbrev pub Connections : Type 0 → Type 0
Connections W = Dict (Dict (Terminator W))

abbrev of_execution : Option ExecutionLease → Option EgressLease
of_execution none = none
of_execution (some l) = some (record { agent_id = l.agent_id; epoch = l.epoch; proof = l.proof })

unfoldable pub acquire_egress_lease : Runtime → Option EgressLease
acquire_egress_lease r = of_execution (acquire_lease r)

abbrev pub as_execution : EgressLease → ExecutionLease
as_execution l = record { agent_id = l.agent_id; epoch = l.epoch; proof = l.proof }

-- `lease_valid` and `authorize`
unfoldable pub egress_lease_valid : EgressLease → Runtime → Bool
egress_lease_valid lease r = lease_valid (as_execution lease) r

-- `agent_id or self.runtime.agent_id`
abbrev pub target : Option String → Runtime → String
target none r = r.agent_id
target (some a) r = if is_empty a then r.agent_id else a

module _ {W : Type 0} where
  unfoldable pub connections_of : String → Connections W → Dict (Terminator W)
  connections_of agent c = elim (lookup agent c) [ none ↦ [] | some d ↦ d ]

  unfoldable pub register_connection :
      String → String → Terminator W → Runtime → Connections W → Bool × Connections W
  unfolding connections_of
  register_connection agent id terminate r c =
      if not (agent =s r.agent_id) || not (can_execute r)
      then (false, c)
      else (true, insert agent (insert id terminate (connections_of agent c)) c)

  without_connection : String → String → Dict (Terminator W) → Connections W → Connections W
  without_connection agent id [] c = c
  without_connection agent id (t ∷ ts) c = drop_empty (erase id (t ∷ ts))
    where
      drop_empty : Dict (Terminator W) → Connections W
      drop_empty [] = erase agent c
      drop_empty (u ∷ us) = insert agent (u ∷ us) c

  unfoldable pub unregister_connection : String → String → Connections W → Connections W
  unfolding connections_of without_connection
  unregister_connection agent id c = without_connection agent id (connections_of agent c) c

  keys : Dict (Terminator W) → List String
  keys [] = []
  keys ((k, t) ∷ d) = k ∷ keys d

  unfoldable pub active_connection_ids : Option String → Runtime → Connections W → List String
  unfolding connections_of keys
  active_connection_ids agent r c = keys (connections_of (target agent r) c)

  -- The loop that calls the terminators; one that raises is passed over.
  unfoldable pub terminate_each : List (Terminator W) → ℕ → W → ℕ × W
  terminate_each [] n w = (n, w)
  terminate_each (t ∷ ts) n w =
      let (r, w') = t w in terminate_each ts (if is_ok r then n + 1 else n) w'

  unfoldable pub terminate_all :
      Option String → Runtime → Connections W → W → (ℕ × W) × Connections W
  unfolding connections_of terminate_each
  terminate_all agent r c w =
      (terminate_each (values (connections_of (target agent r) c)) 0 w, erase (target agent r) c)
