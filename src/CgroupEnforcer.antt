-- ===== src/CgroupEnforcer.antt =====
-- src/agent_containment/cgroup_enforcer.py, with `is_populated` and `contain` of linux_supervisor.py:
-- the enforcer of a cgroup v2 boundary. The calls of the operating system are the operations of
-- `Kernel`; times are in milliseconds.
pub mod Observed
pub mod Deadline
mod Tests
use agent_containment.Base.{
  ℕ, zero, suc, ◌+◌, String, Bool, true, false, ◌&&◌, ◌||◌, not, Option, none, some, List, [], ◌∷◌,
  if◌then◌else◌, ltb, ◌==◌, ◌=s◌, is_empty, Exc, ExcKind, Result, ok, raised, raise, value_error,
  runtime_error, type_name, is_os_error, concat,
}
use agent_containment.Base.Dict.{Dict, lookup}
use agent_containment.Enforcement.{
  Enforcer, EnforcementResult, EnforcementStatus, enforced, released, verification_failed, degraded,
  not_configured,
}

pub record Identity : Type 0 where
  pub device : ℕ
  pub inode : ℕ
  pub ctime_ns : ℕ

-- A line of cgroup.events: what stands before the first space, whether there is one, and what stands
-- after it, stripped.
pub record EventLine : Type 0 where
  pub key : String
  pub separator : Bool
  pub value : String

pub record Kernel (W : Type 0) : Type 0 where
  pub stat : String → W → Result Identity × W
  pub is_dir : String → W → Bool × W
  pub is_file : String → String → W → Bool × W
  pub read_events : String → W → Result (List EventLine) × W
  pub write_kill : String → W → Result (Unit {0}) × W
  pub monotonic : W → ℕ × W
  pub sleep : W → W

abbrev pub same_identity : Identity → Identity → Bool
same_identity a b = a.device == b.device && (a.inode == b.inode && a.ctime_ns == b.ctime_ns)

abbrev pub is_value_error : ExcKind → Bool
is_value_error value_error = true
is_value_error _ = false

abbrev pub reply : EnforcementStatus → String → EnforcementResult
reply status detail = record { provider = "cgroup-v2"; status = status; detail = detail }

abbrev described : Exc → String
described x = concat (type_name x.kind ∷ ": " ∷ x.message ∷ [])

-- `values.get("populated")`, where a later line replaces an earlier one.
unfoldable pub populated_field : Option String → List EventLine → Option String
populated_field found [] = found
populated_field found (l ∷ ls) =
    let rest = populated_field found ls in
    let replaced = populated_field (some l.value) ls in
    if l.separator && (not (is_empty l.key) && l.key =s "populated") then replaced else rest

-- The configured boundaries: the path and the identity that it had at construction.
abbrev pub Boundaries : Type 0
Boundaries = Dict (String × Identity)

unfoldable pub populated_reply : String → Option String → Result Bool
populated_reply path (some v) =
    if v =s "0"
    then ok false
    else if v =s "1"
    then ok true
    else raise runtime_error
        (concat ("cgroup.events has no valid populated field: " ∷ path ∷ "/cgroup.events" ∷ []))
populated_reply path none =
    raise runtime_error
      (concat ("cgroup.events has no valid populated field: " ∷ path ∷ "/cgroup.events" ∷ []))

module _ {W : Type 0} (k : Kernel W) where
  unfoldable pub events_read : String → Result (List EventLine) × W → Result Bool × W
  unfolding populated_reply populated_field
  events_read path (raised x, w) = (raised x, w)
  events_read path (ok ls, w) = (populated_reply path (populated_field none ls), w)

  -- `LinuxCgroupSupervisor.is_populated`
  unfoldable pub is_populated : String → W → Result Bool × W
  unfolding events_read
  is_populated path w =
      let (there, w') = k.is_file path "cgroup.events" w in
      if not there
      then (
        raise runtime_error
            (concat ("cgroup.events is unavailable: " ∷ path ∷ "/cgroup.events" ∷ [])),
        w',
      )
      else events_read path (k.read_events path w')

  -- `_identity`
  unfoldable pub directory : String → Result Identity × W → Result Identity × W
  directory path (raised x, w) = (raised x, w)
  directory path (ok i, w) =
      let (dir, w') = k.is_dir path w in
      if not dir
      then (raise value_error (concat ("cgroup path is not a directory: " ∷ path ∷ [])), w')
      else (ok i, w')

  unfoldable pub identity : String → W → Result Identity × W
  unfolding directory
  identity path w = directory path (k.stat path w)

  missing_control : String → EnforcementResult
  missing_control control =
      reply verification_failed
        (concat ("required cgroup control file is missing: " ∷ control ∷ []))

  unfoldable pub controls : String → W → Result (Option EnforcementResult) × W
  unfolding missing_control
  controls path w =
      let (events, w1) = k.is_file path "cgroup.events" w in
      let (kill, w2) = k.is_file path "cgroup.kill" w1 in
      if not events
      then (ok (some (missing_control "cgroup.events")), w1)
      else if not kill
      then (ok (some (missing_control "cgroup.kill")), w2)
      else (ok none, w2)

  unfoldable pub identity_checked :
      String → String → Identity → Result Identity × W → Result (Option EnforcementResult) × W
  unfolding controls
  identity_checked agent_id path expected (raised x, w) =
      if is_os_error x.kind || is_value_error x.kind
      then (
        ok (
            some (
              reply verification_failed
                (concat ("cgroup identity unavailable: " ∷ described x ∷ [])))),
        w,
      )
      else (raised x, w)
  identity_checked agent_id path expected (ok actual, w) =
      if not (same_identity actual expected)
      then (
        ok (
            some (
              reply verification_failed (concat ("cgroup identity changed for " ∷ agent_id ∷ [])))),
        w,
      )
      else controls path w

  -- `_verify_identity`
  unfoldable pub verify_identity :
      String → String → Identity → W → Result (Option EnforcementResult) × W
  unfolding identity_checked identity
  verify_identity agent_id path expected w =
      identity_checked agent_id path expected (identity path w)

  unfoldable pub after_identity :
      (W → Result EnforcementResult × W)
      → Result (Option EnforcementResult) × W
      → Result EnforcementResult × W
  after_identity body (raised x, w) = (raised x, w)
  after_identity body (ok (some r), w) = (ok r, w)
  after_identity body (ok none, w) = body w

  -- `except Exception as exc`
  unfoldable pub handled :
      EnforcementStatus → Result EnforcementResult × W → Result EnforcementResult × W
  handled status (raised x, w) = (ok (reply status (described x)), w)
  handled status (ok r, w) = (ok r, w)

  -- What the four methods share.
  unfoldable pub bound :
      Boundaries
      → EnforcementStatus
      → (String → W → Result EnforcementResult × W)
      → String
      → W
      → Result EnforcementResult × W
  unfolding verify_identity after_identity handled
  bound paths status body agent_id w = elim (lookup agent_id paths) [
    | none ↦
        (ok (reply not_configured (concat ("no cgroup configured for agent " ∷ agent_id ∷ []))), w)
    | some (path, expected) ↦
        handled status (after_identity (body path) (verify_identity agent_id path expected w))
  ]

  unfoldable pub killed : Result (Unit {0}) × W → Result EnforcementResult × W
  killed (raised x, w) = (raised x, w)
  killed (ok _, w) = (ok (reply enforced ""), w)

  unfoldable pub kill : String → W → Result EnforcementResult × W
  unfolding killed
  kill path w =
      let (there, w') = k.is_file path "cgroup.kill" w in
      if not there
      then (raise runtime_error "cgroup.kill is unavailable", w')
      else killed (k.write_kill path w')

  unfoldable pub contain : Boundaries → String → W → Result EnforcementResult × W
  unfolding bound kill
  contain paths = bound paths degraded kill

  -- The reply to whether the cgroup is populated.
  unfoldable pub emptied :
      EnforcementStatus
      → EnforcementStatus
      → String
      → Result Bool × W
      → Result EnforcementResult × W
  emptied good bad detail (raised x, w) = (raised x, w)
  emptied good bad detail (ok true, w) = (ok (reply bad detail), w)
  emptied good bad detail (ok false, w) = (ok (reply good ""), w)

  -- The loop that waits for the cgroup to be empty, or for the deadline. It ends by itself before the
  -- fuel does.
  unfoldable pub wait : ℕ → String → ℕ → W → Result (Unit {0}) × W
  unfolding is_populated
  wait zero path deadline w = (ok tt, w)
  wait (suc fuel) path deadline w = elim (is_populated path w).0 [
    | raised x ↦ (raised x, (is_populated path w).1)
    | ok false ↦ (ok tt, (is_populated path w).1)
    | ok true ↦
        let (now, w') = k.monotonic (is_populated path w).1 in
        let rest = wait fuel path deadline (k.sleep w') in
        if ltb now deadline then rest else (ok tt, w')
  ]

  unfoldable pub waited : String → String → Result (Unit {0}) × W → Result EnforcementResult × W
  unfolding emptied
  waited agent_id path (raised x, w) = (raised x, w)
  waited agent_id path (ok _, w) =
      emptied enforced verification_failed
        (concat ("cgroup remains populated for " ∷ agent_id ∷ [])) (is_populated path w)

  -- A round takes ten milliseconds at least, so that 202 rounds outlast the two seconds.
  unfoldable pub reaped : String → String → W → Result EnforcementResult × W
  unfolding waited wait
  reaped agent_id path w =
      let (now, w') = k.monotonic w in waited agent_id path (wait 202 path (now + 2000) w')

  unfoldable pub verify_contained : Boundaries → String → W → Result EnforcementResult × W
  unfolding bound reaped
  verify_contained paths agent_id = bound paths verification_failed (reaped agent_id) agent_id

  unfoldable pub release : Boundaries → String → W → Result EnforcementResult × W
  unfolding bound emptied
  release paths agent_id =
      bound paths degraded
        (λ path w.
          emptied released degraded (concat ("cgroup remains populated for " ∷ agent_id ∷ []))
            (is_populated path w))
        agent_id

  unfoldable pub verify_released : Boundaries → String → W → Result EnforcementResult × W
  unfolding bound emptied
  verify_released paths agent_id =
      bound paths verification_failed
        (λ path w.
          emptied released verification_failed
            (concat ("cgroup is unexpectedly populated for " ∷ agent_id ∷ []))
            (is_populated path w))
        agent_id

  -- `CgroupV2Enforcer`
  unfoldable pub cgroup_enforcer : Boundaries → Enforcer W
  unfolding contain release verify_contained verify_released
  cgroup_enforcer paths = record {
    name = "cgroup-v2";
    contain = contain paths;
    release = release paths;
    verify_contained = verify_contained paths;
    verify_released = verify_released paths;
  }
