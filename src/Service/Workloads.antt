-- ===== src/Service/Workloads.antt =====
-- The methods of `ContainmentService` on workloads and identities. The cgroup supervisor, where there
-- is one, is two operations of the outside world, `resolve` is `str(Path(path).resolve())`, and a new
-- token is an argument.
use agent_containment.Base.{
  ℕ, suc, String, Bool, true, false, not, Option, none, some, [], ◌∷◌, if◌then◌else◌, ℤ, pos,
  is_some, Result, ok, raised, raise, runtime_error, value_error, concat,
}
use agent_containment.Base.Dict.{insert, erase}
use agent_containment.Runtime.{RuntimeState, RuntimeSnapshot, snapshot}
use agent_containment.Containment.{Controller}
use agent_containment.Service.{Env, AuditEntry, Service, ManagedAgent, managed, unknown_agent}

pub record Supervisor (W : Type 0) : Type 0 where
  pub create_agent : String → W → Result String × W
  pub attach_pid : String → ℕ → W → Result (Unit {0}) × W

-- `peer_pid is not None and peer_pid <= 0`
abbrev pub bad_pid : Option ℤ → Bool
bad_pid none = false
bad_pid (some (pos (suc n))) = false
bad_pid (some _) = true

abbrev pub pid_of : Option ℤ → Option ℕ
pid_of (some (pos n)) = some n
pid_of _ = none

module _ {W : Type 0} where
  abbrev updated : String → ManagedAgent W → Service W → Service W
  updated agent_id m s = record s { agents = insert agent_id m s.agents }

  -- `configure_containment`; `same` says whether the controller's runtime is the agent's object.
  unfoldable pub configure_containment :
      Bool → String → Controller W → Service W → Result (Unit {0}) × Service W
  configure_containment same agent_id c s = elim (managed agent_id s) [
    | none ↦ (unknown_agent agent_id, s)
    | some m ↦
        if not same
        then (raise value_error "containment runtime must match the registered runtime", s)
        else (
          ok tt,
          updated agent_id (record m { containment = record c { runtime = m.containment.runtime } })
              s,
        )
  ]

  unfoldable pub audited : Env W → AuditEntry → String → Service W → Result String × Service W
  audited env entry path s = elim env.audit [
    | none ↦ (ok path, s)
    | some f ↦ elim (f entry s.world).0 [
      | raised x ↦ (raised x, record s { world = (f entry s.world).1 })
      | ok _ ↦ (ok path, record s { world = (f entry s.world).1 })
    ]
  ]

  unfoldable pub created :
      Env W
      → (String → String)
      → String
      → ManagedAgent W
      → Service W
      → Result String × W
      → Result String × Service W
  unfolding audited
  created env resolve agent_id m s (raised x, w) = (raised x, record s { world = w })
  created env resolve agent_id m s (ok path, w) =
      audited env
        (record {
          event_type = "workload_created";
          agent_id = agent_id;
          reason = "controller-created cgroup identity boundary";
        })
        (resolve path)
        (updated agent_id (record m { identity_cgroup = some (resolve path) })
          (record s { world = w }))

  unfoldable pub create_workload :
      Env W
      → (String → String)
      → Option (Supervisor W)
      → String
      → Service W
      → Result String × Service W
  unfolding created
  create_workload env resolve none agent_id s =
      (raise runtime_error "cgroup supervisor is not configured", s)
  create_workload env resolve (some supervisor) agent_id s = elim (managed agent_id s) [
    | none ↦ (unknown_agent agent_id, s)
    | some m ↦
        if is_some m.identity_cgroup
        then (raise value_error (concat ("agent workload already exists: " ∷ agent_id ∷ [])), s)
        else created env resolve agent_id m s (supervisor.create_agent agent_id s.world)
  ]

  unfoldable pub attached :
      Env W → String → String → Service W → Result (Unit {0}) × W → Result String × Service W
  unfolding audited
  attached env agent_id path s (raised x, w) = (raised x, record s { world = w })
  attached env agent_id path s (ok _, w) =
      audited env
        (record {
          event_type = "workload_attached";
          agent_id = agent_id;
          reason = "controller attached process to workload cgroup";
        })
        path (record s { world = w })

  unfoldable pub attach_found :
      Env W → Supervisor W → String → ℕ → Service W → Result String × Service W
  unfolding attached
  attach_found env supervisor agent_id pid s = elim (managed agent_id s) [
    | none ↦ (unknown_agent agent_id, s)
    | some m ↦ elim m.identity_cgroup [
      | none ↦ (raise runtime_error "agent workload has not been created", s)
      | some path ↦ attached env agent_id path s (supervisor.attach_pid path pid s.world)
    ]
  ]

  unfoldable pub attach_workload :
      Env W → Option (Supervisor W) → String → ℤ → Service W → Result String × Service W
  unfolding attach_found
  attach_workload env none agent_id pid s =
      (raise runtime_error "cgroup supervisor is not configured", s)
  attach_workload env (some supervisor) agent_id (pos (suc n)) s =
      attach_found env supervisor agent_id (suc n) s
  attach_workload env (some supervisor) agent_id _ s = (raise value_error "pid must be positive", s)

  unfoldable pub identity_cgroup : String → Service W → Result (Option String)
  identity_cgroup agent_id s = elim (managed agent_id s) [
    | none ↦ unknown_agent agent_id
    | some m ↦ ok m.identity_cgroup
  ]

  unfoldable pub issue_identity_token :
      (String → String) → String → String → Option ℤ → Service W → Result String × Service W
  issue_identity_token digest token agent_id peer s =
      if bad_pid peer
      then (raise value_error "peer_pid must be positive", s)
      else elim (managed agent_id s) [
        | none ↦ (unknown_agent agent_id, s)
        | some m ↦
            if not (is_some m.identity_cgroup)
            then (raise runtime_error "create_workload must establish cgroup identity first", s)
            else (
              ok token,
              updated agent_id
                  (record m { identity_digest = some (digest token); identity_pid = pid_of peer })
                  s,
            )
      ]

  unfoldable pub unregister : String → Service W → Service W
  unregister agent_id s = record s { agents = erase agent_id s.agents }

  unfoldable pub status : String → Service W → Result RuntimeState
  status agent_id s = elim (managed agent_id s) [
    | none ↦ unknown_agent agent_id
    | some m ↦ ok m.containment.runtime.state
  ]

  unfoldable pub runtime_snapshot : String → Service W → Result RuntimeSnapshot
  unfolding snapshot
  runtime_snapshot agent_id s = elim (managed agent_id s) [
    | none ↦ unknown_agent agent_id
    | some m ↦ ok (snapshot m.containment.runtime)
  ]
