-- ===== src/Service/Authorize.antt =====
-- `ContainmentService.authorize`. The predicate on cgroup membership runs without the lock, so that
-- other threads may call the service while it runs: `between` is what they do to it. The digest of a
-- token is a parameter, and `compare_digest` is equality.
use agent_containment.Base.{
  ℕ, String, Bool, true, false, not, ◌&&◌, Option, none, some, if◌then◌else◌, ◌==◌, ◌=s◌, is_empty,
  Result, ok, raised,
}
use agent_containment.Base.Dict.{insert}
use agent_containment.Runtime.{Ref, can_execute}
use agent_containment.Models.{Action, Decision, deny, is_halt}
use agent_containment.Policy.{evaluate}
use agent_containment.Containment
use agent_containment.Service.{Env, Service, ManagedAgent, emit, managed, unknown_agent}

-- What the caller presents: the token, the process and the predicate on cgroup membership.
pub record Credentials (W : Type 0) : Type 0 where
  pub token : Option String
  pub peer_pid : Option ℕ
  pub membership : Option (ℕ → String → W → Bool × W)

-- `a == b` of two optional texts, and of two optional numbers.
unfoldable pub same_text : Option String → Option String → Bool
same_text none none = true
same_text (some a) (some b) = a =s b
same_text _ _ = false

unfoldable pub same_number : Option ℕ → Option ℕ → Bool
same_number none none = true
same_number (some a) (some b) = a == b
same_number _ _ = false

unfoldable pub token_matches : (String → String) → Option String → Option String → Bool
token_matches digest (some token) (some expected) = not (is_empty token) && digest token =s expected
token_matches digest _ _ = false

unfoldable pub pid_matches : Option ℕ → Option ℕ → Bool
pid_matches none peer = true
pid_matches (some pid) peer = same_number peer (some pid)

abbrev pub denied : Action → String → Decision
denied a reason = record { action_id = a.action_id; decision = deny; reason = reason }

module _ {W : Type 0} where
  in_cgroup : Credentials W → Option String → W → Bool × W
  in_cgroup c cgroup w = elim cgroup [
    | none ↦ (false, w)
    | some path ↦ elim c.peer_pid [
      | none ↦ (false, w)
      | some pid ↦ elim c.membership [ none ↦ (false, w) | some f ↦ f pid path w ]
    ]
  ]

  -- The conjunction of `authorize`, which asks for the membership last.
  unfoldable pub authenticated : (String → String) → Credentials W → ManagedAgent W → W → Bool × W
  unfolding in_cgroup
  authenticated digest c m w =
      if token_matches digest c.token m.identity_digest && pid_matches m.identity_pid c.peer_pid
      then in_cgroup c m.identity_cgroup w
      else (false, w)

  -- `identity_unchanged and runtime_unchanged`
  unfoldable pub unchanged : ManagedAgent W → ManagedAgent W → Bool
  unchanged m current =
      same_text current.identity_digest m.identity_digest
      && (same_number current.identity_pid m.identity_pid
          && (same_text current.identity_cgroup m.identity_cgroup
              && (can_execute current.containment.runtime
                  && current.containment.runtime.epoch == m.containment.runtime.epoch)))

  -- The decision of the policy, committed for the agent as it is now.
  unfoldable pub evaluated : Action → ManagedAgent W → Service W → Result Decision × Service W
  evaluated a current s =
      let (decision, policy) = evaluate current.policy a in
      (
        ok decision,
        record s { agents = insert a.agent_id (record current { policy = policy }) s.agents },
      )

  -- Under the lock again.
  unfoldable pub revalidated : Action → ManagedAgent W → Service W → Result Decision × Service W
  unfolding evaluated
  revalidated a m s = elim (managed a.agent_id s) [
    | none ↦ (unknown_agent a.agent_id, s)
    | some current ↦
        if not (unchanged m current)
        then (ok (denied a "agent identity is no longer authorized"), s)
        else evaluated a current s
  ]

  unfoldable pub decided : Action → ManagedAgent W → Bool → Service W → Result Decision × Service W
  unfolding revalidated
  decided a m authentic s =
      if not authentic
      then (ok (denied a "agent identity is not authenticated"), s)
      else if not (can_execute m.containment.runtime)
      then (ok (denied a "agent runtime is not executable"), s)
      else revalidated a m s

  -- `managed.containment.halt()` after a decision to halt, for an agent that was not removed and
  -- registered again in between.
  unfoldable pub halted : Ref → Action → Decision → Service W → Service W
  halted fresh a d s = elim (managed a.agent_id s) [
    | none ↦ s
    | some m ↦
        if is_halt d.decision
        then record s {
          agents =
              insert a.agent_id (record m { containment = Containment.halt fresh m.containment })
                s.agents;
        }
        else s
  ]

  unfoldable pub audited : Env W → Action → Decision → W → Result (Unit {0}) × W
  audited env a d w = elim env.audit [
    | none ↦ (ok tt, w)
    | some f ↦
        f
          (record {
            event_type = "authorization_decision";
            agent_id = a.agent_id;
            reason = d.reason;
          })
          w
  ]

  unfoldable pub announced :
      Env W → Action → Decision → Service W → Result (Unit {0}) × W → Result Decision × Service W
  announced env a d s (raised x, w) = (raised x, record s { world = w })
  announced env a d s (ok _, w) = (
    ok d,
    record s {
      world =
          emit env
            (record {
              event_type = "authorization_decision";
              agent_id = a.agent_id;
              incident_id = none;
              containment_epoch = none;
            })
            w;
    },
  )

  unfoldable pub concluded :
      Env W → Ref → Action → Result Decision × Service W → Result Decision × Service W
  unfolding halted audited announced
  concluded env fresh a (raised x, s) = (raised x, s)
  concluded env fresh a (ok d, s) = announced env a d (halted fresh a d s) (audited env a d s.world)

  unfoldable pub authorize :
      Env W
      → (String → String)
      → (Service W → Service W)
      → Ref
      → Credentials W
      → Action
      → Service W
      → Result Decision × Service W
  authorize env digest between fresh c a s = elim (managed a.agent_id s) [
    | none ↦ (unknown_agent a.agent_id, s)
    | some m ↦
        let (authentic, w) = authenticated digest c m s.world in
        concluded env fresh a (decided a m authentic (between (record s { world = w })))
  ]
