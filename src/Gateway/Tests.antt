-- ===== src/Gateway/Tests.antt =====
-- The gateway at concrete inputs; an executor counts its calls in the world of the tools.
use agent_containment.Base.{ℕ, ◌+◌, ◌≡◌, refl, String, none, [], ◌∷◌, pos, contains}
use agent_containment.Base.Dict.{lookup}
use agent_containment.Runtime
use agent_containment.Runtime.{
  Runtime, ExecutionLease, active, current_lease, lease_valid, acquire_lease,
}
use agent_containment.Models.{Action}
use agent_containment.Policy.{evaluate, effective_risk, first_match}
use agent_containment.Containment
use agent_containment.Containment.{Controller, new_controller}
use agent_containment.Gateway.{Gateway, result, execute_with_lease, execute}
use agent_containment.Gateway.Effects.{
  Guarded, Unleased, execute_with_lease-Guarded, execute-Guarded,
}

abbrev agent : Runtime
agent = record {
  agent_id = "a";
  runtime_id = "r";
  state = active;
  epoch = 0;
  lease_proof = 0;
  recovery_capability = 1;
}

abbrev gateway : Gateway ℕ
gateway = record {
  policy = record {
    denied_operations = "delete" ∷ [];
    max_risk = 80;
    sequence_rules = [];
    operation_risk = [];
    history = [];
    history_limit = 256;
  };
  containment = record {
    runtime = agent;
    capabilities = [];
    credentials = none;
    egress = none;
    process_containment = none;
    kernel_egress = none;
    enforcers = [];
    last_report = none;
    last_recovery_report = none;
  };
  history_limit = none;
  history = [];
}

abbrev action_to : String → Action
action_to operation = record {
  agent_id = "a";
  action_id = "1";
  operation = operation;
  resource = "x";
  risk = pos 0;
}

abbrev count : Action → ℕ → String × ℕ
count a n = ("done", n + 1)

-- Another thread halts the runtime after the authorization.
abbrev halting : Gateway ℕ → Gateway ℕ
halting g = record g { containment = Containment.halt 9 g.containment }

execute_with_lease-Guarded_example :
    Guarded count
      (λ g. g)
      5
      (action_to "read")
      (current_lease agent)
      gateway
      0
      (execute_with_lease count (λ g. g) 5 (action_to "read") (current_lease agent) gateway 0)
execute_with_lease-Guarded_example =
    execute_with_lease-Guarded count (λ g. g) 5 (action_to "read") (current_lease agent) gateway 0

execute-Guarded_example :
    Unleased count halting 5
      (action_to "read")
      gateway
      0
      (execute count halting 5 (action_to "read") gateway 0)
execute-Guarded_example = execute-Guarded count halting 5 (action_to "read") gateway 0

read_done : (execute count (λ g. g) 5 (action_to "read") gateway 0).0.0 ≡ result "done"
unfolding execute acquire_lease evaluate contains effective_risk lookup first_match
    Runtime.execute_if_active
read_done = refl

read_lost : (execute count halting 5 (action_to "read") gateway 0).1 ≡ 0
unfolding execute acquire_lease evaluate contains effective_risk lookup first_match
    Runtime.execute_if_active Containment.halt Runtime.halt
read_lost = refl

delete_refused : (execute count (λ g. g) 5 (action_to "delete") gateway 0).1 ≡ 0
unfolding execute acquire_lease evaluate contains
delete_refused = refl
