-- ===== src/Gateway.antt =====
-- src/agent_containment/gateway.py: the point between an agent and its tools. The executor is a
-- parameter that works on the outside world `V` of the tools; the world `W` of the containment
-- controller is apart from it. The runtime's lock is not held between the authorization and the
-- execution, and `between` is what other threads do to the gateway in that time.
pub mod Effects
mod Tests
use agent_containment.Base.{
  ℕ, ◌-◌, String, Bool, true, false, not, Option, none, some, List, [], ◌∷◌, ◌++◌, if◌then◌else◌,
  ltb, ◌=s◌, ℤ, pos, negsuc, Result, ok, raise, value_error,
}
use agent_containment.Base.Lists.{length, drop}
use agent_containment.Runtime.{
  Ref, Runtime, ExecutionLease, can_execute, acquire_lease, lease_valid, execute_if_active,
}
use agent_containment.Models.{Action, Decision, deny, is_allow, is_halt}
use agent_containment.Policy.{PolicyEngine, evaluate}
use agent_containment.Egress.{EgressLease, as_execution, egress_lease_valid, acquire_egress_lease}
use agent_containment.Containment
use agent_containment.Containment.{Controller, attach_egress}

pub record Gateway (W : Type 0) : Type 0 where
  pub policy : PolicyEngine
  pub containment : Controller W
  pub history_limit : Option ℕ
  pub history : List Decision

-- What an execution returns: a decision, or the executor's result.
pub data Reply (T : Type 0) : Type 0 where
  decided : Decision → Reply T
  result : T → Reply T

-- `history.append`, of a list or of a deque with a maximal length.
unfoldable pub push : Option ℕ → List Decision → Decision → List Decision
push none history d = history ++ (d ∷ [])
push (some limit) history d =
    let longer = history ++ (d ∷ []) in drop (length longer - limit) longer

abbrev pub denied : Action → String → Decision
denied a reason = record { action_id = a.action_id; decision = deny; reason = reason }

module _ {W : Type 0} where
  abbrev built : PolicyEngine → Controller W → Option ℕ → Result (Gateway W)
  built policy c limit = ok (record {
    policy = policy;
    containment = attach_egress [] c;
    history_limit = limit;
    history = [];
  })

  -- `ActionGateway.__init__`
  unfoldable pub new : PolicyEngine → Controller W → Option ℤ → Result (Gateway W)
  new policy c none = built policy c none
  new policy c (some (negsuc _)) = raise value_error "history_limit must be positive or None"
  new policy c (some (pos n)) =
      if ltb n 1
      then raise value_error "history_limit must be positive or None"
      else built policy c (some n)

  unfoldable pub recorded : Decision → Gateway W → Gateway W
  unfolding push
  recorded d g = record g { history = push g.history_limit g.history d }

  -- The decision of `authorize`, and the policy that it leaves.
  unfoldable pub decision_on : Action → Gateway W → Decision × PolicyEngine
  decision_on a g =
      if not (a.agent_id =s g.containment.runtime.agent_id)
      then (denied a "action agent_id does not match runtime", g.policy)
      else if not (can_execute g.containment.runtime)
      then (denied a "agent runtime is not executable", g.policy)
      else evaluate g.policy a

  unfoldable pub authorize : Ref → Action → Gateway W → Decision × Gateway W
  unfolding decision_on recorded
  authorize fresh a g =
      let (d, policy) = decision_on a g in
      (
        d,
        record (recorded d g) {
          policy = policy;
          containment =
              (if is_halt d.decision then Containment.halt fresh g.containment else g.containment);
        },
      )

  unfoldable pub acquire : Gateway W → Option ExecutionLease
  acquire g = acquire_lease g.containment.runtime

  unfoldable pub acquire_egress : Gateway W → Option EgressLease
  acquire_egress g = acquire_egress_lease g.containment.runtime

  module _ {V T : Type 0} (executor : Action → V → T × V) where
    -- What follows `execute_if_active`; `keep` puts the denial into the history.
    unfoldable pub executed :
        (Decision → Gateway W → Gateway W)
        → Decision
        → Gateway W
        → Option T × V
        → (Reply T × Gateway W) × V
    executed keep d g (none, v) = ((decided d, keep d g), v)
    executed keep d g (some t, v) = ((result t, g), v)

    -- The authorization, and the execution under the lease.
    unfoldable pub under_lease :
        (Gateway W → Gateway W)
        → (Decision → Gateway W → Gateway W)
        → Decision
        → Ref
        → Action
        → ExecutionLease
        → Gateway W
        → V
        → (Reply T × Gateway W) × V
    unfolding authorize executed
    under_lease between keep lost fresh a lease g v =
        let (d, g') = authorize fresh a g in
        if not (is_allow d.decision)
        then ((decided d, g'), v)
        else executed keep lost (between g')
            (execute_if_active lease (executor a) (between g').containment.runtime v)

    unfoldable pub execute_with_lease :
        (Gateway W → Gateway W)
        → Ref
        → Action
        → ExecutionLease
        → Gateway W
        → V
        → (Reply T × Gateway W) × V
    unfolding under_lease recorded
    execute_with_lease between fresh a lease g v =
        if not (a.agent_id =s g.containment.runtime.agent_id)
        then (
          (
            decided (denied a "action agent_id does not match runtime"),
            recorded (denied a "action agent_id does not match runtime") g,
          ),
          v,
        )
        else if not (lease_valid lease g.containment.runtime)
        then (
          (
            decided (denied a "execution lease invalidated by runtime state change"),
            recorded (denied a "execution lease invalidated by runtime state change") g,
          ),
          v,
        )
        else under_lease between recorded
            (denied a "execution lease invalidated before side effect") fresh a lease g v

    unfoldable pub execute_egress :
        (Gateway W → Gateway W)
        → Ref
        → Action
        → EgressLease
        → Gateway W
        → V
        → (Reply T × Gateway W) × V
    unfolding under_lease
    execute_egress between fresh a lease g v =
        if not (a.agent_id =s g.containment.runtime.agent_id)
        then ((decided (denied a "action agent_id does not match runtime"), g), v)
        else if not (egress_lease_valid lease g.containment.runtime)
        then ((decided (denied a "egress lease invalidated by runtime state change"), g), v)
        else under_lease between (λ d h. h)
            (denied a "egress lease invalidated before network side effect") fresh a
            (as_execution lease) g v

    -- `execute` with what `acquire_lease` gave.
    unfoldable pub execute_own :
        (Gateway W → Gateway W)
        → Ref
        → Action
        → Gateway W
        → V
        → Option ExecutionLease
        → (Reply T × Gateway W) × V
    unfolding under_lease authorize recorded
    execute_own between fresh a g v none = let (d, g') = authorize fresh a g in ((decided d, g'), v)
    execute_own between fresh a g v (some lease) =
        under_lease between recorded (denied a "execution lease invalidated before side effect")
          fresh a lease g v

    unfoldable pub execute :
        (Gateway W → Gateway W) → Ref → Action → Gateway W → V → (Reply T × Gateway W) × V
    unfolding execute_own recorded acquire
    execute between fresh a g v =
        if not (a.agent_id =s g.containment.runtime.agent_id)
        then (
          (
            decided (denied a "action agent_id does not match runtime"),
            recorded (denied a "action agent_id does not match runtime") g,
          ),
          v,
        )
        else execute_own between fresh a g v (acquire g)
