-- ===== src/Egress/Termination.antt =====
-- What terminating an agent's connections promises.
use agent_containment.Base.{
  ℕ, ◌+◌, ◌≤◌, ◌≡◌, ◌≢◌, refl, String, Option, List, [], ◌∷◌, is_ok, arith, eq_iff, if◌then◌else◌,
}
use agent_containment.Base.Lists.{length}
use agent_containment.Base.Dict.{lookup, lookup-erase, lookup-erase_self}
use agent_containment.Durable.{values}
use agent_containment.Runtime.{Runtime}
use agent_containment.Egress.{
  Connections, Terminator, target, connections_of, active_connection_ids, terminate_each,
  terminate_all,
}

module _ {W : Type 0} where
  -- The world after every terminator was called, in order.
  abbrev pub called : List (Terminator W) → W → W
  called [] w = w
  called (t ∷ ts) w = called ts (t w).1

  terminate_each-called :
      (ts : List (Terminator W)) (n : ℕ) (w : W)
      → ((terminate_each ts n w).1 ≡ called ts w)
        × (n ≤ (terminate_each ts n w).0)
        × ((terminate_each ts n w).0 ≤ n + length ts)
  unfolding terminate_each
  terminate_each-called [] n w = (refl, omega arith, omega arith)
  terminate_each-called (t ∷ ts) n w =
      ground (arith, terminate_each-called ts (if is_ok (t w).0 then n + 1 else n) (t w).1)

  -- `terminate_all` calls the terminator of every connection of its target, whether or not earlier
  -- ones raise, reports at most their number, leaves the target with no active connection, and
  -- leaves the connections of every other agent alone.
  pub terminate_all_lem :
      (agent : Option String) (r : Runtime) (c : Connections W) (w : W)
      → let ((n, w'), c') = terminate_all agent r c w in
        (w' ≡ called (values (connections_of (target agent r) c)) w)
        × (n ≤ length (values (connections_of (target agent r) c)))
        × (active_connection_ids agent r c' ≡ [])
        × ((j : String) → target agent r ≢ j → lookup j c' ≡ lookup j c)
  unfolding terminate_all active_connection_ids
  terminate_all_lem agent r c w =
      let (same, _, most) =
        terminate_each-called (values (connections_of (target agent r) c)) 0 w in
      (
        same,
        omega (arith, most),
        rw (lookup-erase_self (target agent r) c, connections_of) refl,
        λ j n. ground (arith, lookup-erase (target agent r) j c, eq_iff (target agent r) j),
      )
