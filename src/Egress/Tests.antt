-- ===== src/Egress/Tests.antt =====
-- Concrete connections: the theorem about terminating them at an input.
use agent_containment.Base.{ℕ, ◌+◌, ◌≤◌, ◌≡◌, ◌≢◌, refl, String, none, [], ◌∷◌, ok, raise, os_error}
use agent_containment.Base.Lists.{length}
use agent_containment.Base.Dict.{lookup}
use agent_containment.Durable.{values}
use agent_containment.Runtime.{Runtime, active}
use agent_containment.Egress.{
  Connections, terminate_all, active_connection_ids, connections_of, target,
}
use agent_containment.Egress.Termination.{called, terminate_all_lem}

abbrev agent : Runtime
agent = record {
  agent_id = "a";
  runtime_id = "r";
  state = active;
  epoch = 0;
  lease_proof = 0;
  recovery_capability = 1;
}

-- The first terminator raises; the world counts the calls.
abbrev connections : Connections ℕ
connections =
    ("a", ("c", λ n. (raise os_error "closed", n + 1)) ∷ ("d", λ n. (ok tt, n + 1)) ∷ []) ∷ []

both_called : (terminate_all none agent connections 0).0 ≡ (1, 2)
unfolding terminate_all values lookup
both_called = refl

terminate_all_lem_example :
    let ((n, w'), c') = terminate_all none agent connections 0 in
    (w' ≡ called (values (connections_of (target none agent) connections)) 0)
    × (n ≤ length (values (connections_of (target none agent) connections)))
    × (active_connection_ids none agent c' ≡ [])
    × ((j : String) → target none agent ≢ j → lookup j c' ≡ lookup j connections)
terminate_all_lem_example = terminate_all_lem none agent connections 0
