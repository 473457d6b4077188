-- ===== src/Containment.antt =====
-- src/agent_containment/containment.py: the controller of one runtime. `contain` fences first and
-- then calls every configured enforcement stage; `recover` releases the external boundaries before
-- it releases the runtime. The outside world `W` carries what clocks and callbacks read and change.
pub mod Report
pub mod Enforcers
pub mod Fencing
pub mod Recovery
mod Tests
unfoldable pub use Report.*
unfoldable pub use Enforcers.*
use agent_containment.Base.{
  ℕ, ◌+◌, String, Bool, true, false, ◌&&◌, Option, none, some, List, [], ◌∷◌, ◌++◌, if◌then◌else◌,
  ◌==◌, Exc, Result, ok, raised, raise, runtime_error, type_name, concat, ℤ,
}
use agent_containment.Base.Lists.{length}
use agent_containment.Runtime
use agent_containment.Runtime.{Ref, Runtime, is_contained}
use agent_containment.Credentials
use agent_containment.Credentials.{CredentialStore}
use agent_containment.Egress.{Connections, terminate_all}
use agent_containment.Enforcement.{Enforcer}

-- A configured stage with no state of this program: `process_containment`, `kernel_egress`.
abbrev pub Callback : Type 0 → Type 0
Callback W = W → Result (Unit {0}) × W

pub record Controller (W : Type 0) : Type 0 where
  pub runtime : Runtime
  pub capabilities : List String
  pub credentials : Option CredentialStore
  pub egress : Option (Connections W)
  pub process_containment : Option (Callback W)
  pub kernel_egress : Option (Callback W)
  pub enforcers : List (Enforcer W)
  pub last_report : Option ContainmentReport
  pub last_recovery_report : Option RecoveryReport

-- What `monotonic()` and `datetime.now` give.
pub record Clock (W : Type 0) : Type 0 where
  pub monotonic : W → ℕ × W
  pub utc_now : W → String × W

-- The credentials are revoked and the connections terminated, which raise nothing.
unfoldable pub revoke_credentials : Option CredentialStore → Option CredentialStore
revoke_credentials none = none
revoke_credentials (some s) = some (Credentials.revoke_all s)

module _ {W : Type 0} where
  -- `ContainmentController.__init__` with the given stages and no egress attached.
  unfoldable pub new_controller :
      Runtime
      → List String
      → Option (Callback W)
      → Option (Callback W)
      → Option CredentialStore
      → List (Enforcer W)
      → Controller W
  new_controller r capabilities process kernel credentials enforcers = record {
    runtime = r;
    capabilities = capabilities;
    credentials = credentials;
    egress = none;
    process_containment = process;
    kernel_egress = kernel;
    enforcers = enforcers;
    last_report = none;
    last_recovery_report = none;
  }

  unfoldable pub attach_egress : Connections W → Controller W → Controller W
  attach_egress connections c = record c { egress = some connections }

  unfoldable pub halt : Ref → Controller W → Controller W
  halt fresh c = record c { runtime = Runtime.halt fresh c.runtime }

  revoked_stage : Option CredentialStore → Progress W → Progress W
  revoked_stage none p = p
  revoked_stage (some s) p = record p { stages = p.stages ++ ("credentials_revoked" ∷ []) }

  callback_stage : String → Option (Callback W) → Progress W → Progress W
  callback_stage name none p = p
  callback_stage name (some f) p = enforce name f p

  terminated_stage :
      Runtime → Option (Connections W) → Progress W → Option (Connections W) × Progress W
  terminated_stage r none p = (none, p)
  terminated_stage r (some c) p =
      let ((n, w), c') = terminate_all (some r.agent_id) r c p.world in
      (some c', record p { stages = p.stages ++ ("connections_terminated" ∷ []); world = w })

  -- The stages between the fence and the enforcers.
  unfoldable pub local_stages : Controller W → Progress W → Option (Connections W) × Progress W
  unfolding revoked_stage callback_stage terminated_stage
  local_stages c p =
      let p1 : Progress W = revoked_stage c.credentials p in
      let p2 : Progress W = callback_stage "kernel_egress_contained" c.kernel_egress p1 in
      let (egress, p3) = terminated_stage c.runtime c.egress p2 in
      (egress, callback_stage "processes_contained" c.process_containment p3)

  -- `external_verified` and the timestamps that depend on it.
  abbrev pub all_verified : List (Enforcer W) → ℕ → Bool
  all_verified [] verified = false
  all_verified (e ∷ es) verified = verified == length (e ∷ es)

  stamp : {A : Type 0} → Bool → (W → A × W) → W → Option A × W
  stamp false read w = (none, w)
  stamp true read w = let (a, w') = read w in (some a, w')

  -- The report that `contain` makes of the stages, for a runtime that is fenced.
  report_of : Clock W → Controller W → Runtime → ℕ → String → Progress W → ContainmentReport × W
  unfolding stamp
  report_of clock c r requested revoked p =
      let verified = all_verified c.enforcers p.verified in
      let (verified_at, w) = stamp verified clock.monotonic p.world in
      let (occurred_at, w') = stamp verified clock.utc_now w in
      (
        record {
          agent_id = r.agent_id;
          epoch = r.epoch;
          stages = p.stages;
          failures = p.failures;
          persistence_failures = [];
          external_verified = verified;
          containment_requested_at = some requested;
          provider_applied_at = p.applied_at;
          independently_verified_at = verified_at;
          authority_revoked_at = some revoked;
          enforcement_occurred_at = occurred_at;
        },
        w',
      )

  abbrev fenced_start : W → Progress W
  fenced_start w = record {
    stages = "runtime_fenced" ∷ "capabilities_revoked" ∷ [];
    failures = [];
    applied_at = none;
    verified = 0;
    world = w;
  }

  -- The progress of `contain` when the loop over the enforcers ends.
  unfoldable pub stages_of : Clock W → Controller W → W → Option (Connections W) × Progress W
  unfolding local_stages
  stages_of clock c w =
      let (egress, p) = local_stages c (fenced_start w) in
      (egress, contain_providers clock.monotonic c.runtime.agent_id c.enforcers p)

  unfoldable pub contain : Clock W → Ref → Controller W → W → (ContainmentReport × Controller W) × W
  unfolding stages_of report_of revoke_credentials
  contain clock fresh c w =
      let (requested, w1) = clock.monotonic w in
      let r = Runtime.contain fresh c.runtime in
      let (revoked, w2) = clock.utc_now w1 in
      let (egress, p) = stages_of clock (record c { runtime = r }) w2 in
      let (report, w3) = report_of clock c r requested revoked p in
      (
        (
          report,
          record c {
            runtime = r;
            capabilities = [];
            credentials = revoke_credentials c.credentials;
            egress = egress;
            last_report = some report;
          },
        ),
        w3,
      )

  -- A recovery that failed: the enforcers are contained again, and the report says how that went.
  unfoldable pub aborted : ℕ → Controller W → List String → List String → W → Controller W × W
  aborted contained_epoch c events failures w =
      let (again, w') = recontain_enforcers c.runtime.agent_id c.enforcers w in
      (
        record c {
          last_recovery_report = some (record {
            agent_id = c.runtime.agent_id;
            contained_epoch = contained_epoch;
            events = events ++ (verdict again ∷ []);
            failures = failures;
            recontainment_failures = again;
            recovered_epoch = none;
          });
        },
        w',
      )

  unfoldable pub after_runtime :
      Controller W → W → Result ℕ × Runtime → (Result ℕ × Controller W) × W
  unfolding aborted
  after_runtime c w (ok n, r) = (
    (
      ok n,
      record c {
        runtime = r;
        last_recovery_report = some (record {
          agent_id = c.runtime.agent_id;
          contained_epoch = c.runtime.epoch;
          events =
              "recovery_requested" ∷ "external_release_verified" ∷ "runtime_recovery_complete" ∷ [];
          failures = [];
          recontainment_failures = [];
          recovered_epoch = some n;
        });
      },
    ),
    w,
  )
  after_runtime c w (raised x, r) =
      let (c', w') =
        aborted c.runtime.epoch (record c { runtime = r })
          ("recovery_requested" ∷ "external_release_verified" ∷ "runtime_recovery_failed" ∷ [])
          (concat (type_name x.kind ∷ ": " ∷ x.message ∷ []) ∷ []) w in
      ((raised x, c'), w')

  unfoldable pub after_release :
      Ref → ℤ → Ref → Controller W → List String × W → (Result ℕ × Controller W) × W
  unfolding aborted after_runtime joined
  after_release capability expected fresh c ([], w) =
      after_runtime c w (Runtime.recover capability expected fresh c.runtime)
  after_release capability expected fresh c (f ∷ fs, w) =
      let (c', w') =
        aborted c.runtime.epoch c ("recovery_requested" ∷ "external_release_failed" ∷ []) (f ∷ fs)
          w in
      (
        (
          raise runtime_error
              (concat ("recovery aborted; runtime remains contained: " ∷ joined (f ∷ fs))),
          c',
        ),
        w',
      )

  unfoldable pub recover : Ref → ℤ → Ref → Controller W → W → (Result ℕ × Controller W) × W
  unfolding after_release
  recover capability expected fresh c w =
      after_release capability expected fresh c (release_enforcers c.runtime.agent_id c.enforcers w)

  -- The property `contained`.
  abbrev pub is_contained_now : Controller W → Bool
  is_contained_now c = is_contained c.runtime.state
