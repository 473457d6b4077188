-- ===== src/Service/Tests.antt =====
-- A concrete service: tests, and each theorem about the service at an input that meets its
-- hypotheses.
mod Reviews
mod Identities
use agent_containment.Base.{
  ℕ, ◌+◌, ◌≡◌, ◌≢◌, refl, String, true, false, none, some, [], ◌∷◌, Exc, ok, raised, is_ok,
  contains, pos, os_error, runtime_error, leb, if◌then◌else◌, concat, decimal,
}
use agent_containment.Base.Dict.{lookup, insert}
use agent_containment.Durable.{missing, payload, commit, values}
use agent_containment.Runtime
use agent_containment.Runtime.{Runtime, active, contained, is_active, rotate_recovery_capability}
use agent_containment.Policy.{PolicyEngine, evaluate, effective_risk, first_match}
use agent_containment.Fences
use agent_containment.Fences.{FenceRegistry, FenceRecord}
use agent_containment.Incidents
use agent_containment.Incidents.{
  IncidentRegistry, IncidentRecord, contained as open_state, record_containment, mark_recovered,
  latest_for_agent, of_agent, latest_of, max_from,
}
use agent_containment.Incidents.Replies.{Open}
use agent_containment.Enforcement.{
  Enforcer, EnforcementResult, EnforcementStatus, enforced, released,
}
use agent_containment.Containment
use agent_containment.Containment.{
  Controller, Clock, ContainmentReport, durable, contain_provider, contain_providers,
  release_enforcers, new_controller,
}
use agent_containment.Service.{
  Env, Service, ManagedAgent, RecoveryAuthorization, managed, emit, unnamed, failure_of, failed_by,
  incident_id_of,
}
use agent_containment.Service.Contain.{contain, as_unit}
use agent_containment.Service.Admission.{admission, recoverable_of, runtime_at}
use agent_containment.Service.Recover.{recover}
use agent_containment.Service.Register.{register, stored, admit, start, start_fenced}
use agent_containment.Service.Repair.{after, read_prior, reconstruct_missing, repair_recovered}
use agent_containment.Models.{Action, Decision, allow}
use agent_containment.Service.Authorize.{
  Credentials, authorize, denied, concluded, decided, authenticated, token_matches, pid_matches,
  unchanged, same_text, same_number,
}
use agent_containment.Service.Authorized.{Authorizes, allowed-Authorizes}
use agent_containment.Service.Guards.{Admits, admission-Admits}
use agent_containment.Service.Fencing.{IsFenced, contain_fences_agent, contain_durable}
use agent_containment.Service.Recovery.{recover_keeps_agents}
use agent_containment.Service.Completion.{Completes, recover-Completes}
use agent_containment.Service.Registered.{registered_inactive}

abbrev agent : Runtime
agent = record {
  agent_id = "a";
  runtime_id = "r";
  state = active;
  epoch = 0;
  lease_proof = 0;
  recovery_capability = 1;
}

abbrev replies : EnforcementStatus → EnforcementResult
replies status = record { provider = "net"; status = status; detail = "" }

-- The world counts the calls.
abbrev net : Enforcer ℕ
net = record {
  name = "net";
  contain = λ a n. (ok (replies enforced), n + 1);
  release = λ a n. (ok (replies released), n + 1);
  verify_contained = λ a n. (ok (replies enforced), n + 1);
  verify_released = λ a n. (ok (replies released), n + 1);
}

abbrev pub env : Env ℕ
env = record {
  clock = record { monotonic = λ n. (7, n); utc_now = λ n. ("now", n) };
  time = λ n. (10, n);
  disk = λ n. (none, n);
  audit = none;
  sink = none;
}

abbrev full_disk : Exc
full_disk = record { kind = os_error; message = "no space left" }

-- Every write fails, the audit's too.
abbrev broken : Env ℕ
broken = record env { disk = λ n. (some full_disk, n); audit = some (λ e n. (raised full_disk, n)) }

abbrev pub engine : PolicyEngine
engine = record {
  denied_operations = [];
  max_risk = 80;
  sequence_rules = [];
  operation_risk = [];
  history = [];
  history_limit = 256;
}

abbrev pub controller : Controller ℕ
controller = record {
  runtime = agent;
  capabilities = [];
  credentials = none;
  egress = none;
  process_containment = none;
  kernel_egress = none;
  enforcers = net ∷ [];
  last_report = none;
  last_recovery_report = none;
}

abbrev pub member : ManagedAgent ℕ
member = record {
  containment = controller;
  policy = engine;
  identity_digest = some "digest";
  identity_pid = none;
  identity_cgroup = some "/a";
  recovery_capability = some 1;
}

abbrev no_fences : FenceRegistry
no_fences = record { has_path = true; records = []; file = missing }

abbrev no_incidents : IncidentRegistry
no_incidents = record { has_path = true; records = []; file = missing }

abbrev pub service : Service ℕ
service = record {
  agents = ("a", member) ∷ [];
  incidents = no_incidents;
  fences = no_fences;
  world = 0;
}

contain_fences_agent_example :
    ((m' : ManagedAgent ℕ) × (managed "a" (contain broken 5 "a" service).1 ≡ some m')
      × IsFenced 5 member m')
    × ((j : String) → "a" ≢ j → managed j (contain broken 5 "a" service).1 ≡ managed j service)
unfolding lookup
contain_fences_agent_example = contain_fences_agent broken 5 "a" member service refl refl

abbrev certificate : ContainmentReport
certificate = record {
  agent_id = "a";
  epoch = 1;
  stages = "runtime_fenced" ∷ "capabilities_revoked" ∷ "enforcer:net:verified" ∷ [];
  failures = [];
  persistence_failures = [];
  external_verified = true;
  containment_requested_at = some 7;
  provider_applied_at = some 7;
  independently_verified_at = some 7;
  authority_revoked_at = some "now";
  enforcement_occurred_at = some "now";
}

certificate_of : (contain env 5 "a" service).0 ≡ ok certificate
unfolding contain lookup unnamed failure_of Fences.prepare commit record_containment incident_id_of
    concat decimal Containment.contain Runtime.contain contain_providers contain_provider
certificate_of = refl

contain_durable_example :
    (Fences.get "a" (contain env 5 "a" service).1.fences
      ≡ some (record { agent_id = "a"; containment_epoch = 1 }))
    × Open (incident_id_of "a" 1) "a" 1 (contain env 5 "a" service).1.incidents
unfolding lookup durable
contain_durable_example =
    contain_durable env 5 "a" member service certificate refl refl certificate_of refl

abbrev incident : IncidentRecord
incident = record {
  incident_id = "i";
  agent_id = "a";
  state = open_state;
  containment_epoch = 1;
  created_at = 10;
  proof_attached = false;
  proof_reference = none;
  reason = none;
  proof_degraded_reason = none;
  recovery_epoch = none;
}

abbrev fence : FenceRecord
fence = record { agent_id = "a"; containment_epoch = 1 }

abbrev shut : ManagedAgent ℕ
shut = record member {
  containment = record controller { runtime = record agent { state = contained; epoch = 1 } };
}

abbrev fenced : Service ℕ
fenced = record {
  agents = ("a", shut) ∷ [];
  incidents = record no_incidents {
    records = ("i", incident) ∷ [];
    file = payload (incident ∷ []);
  };
  fences = record no_fences { records = ("a", fence) ∷ []; file = payload (fence ∷ []) };
  world = 0;
}

abbrev permit : RecoveryAuthorization
permit = record { agent_id = "a"; containment_epoch = 1; capability = some 1 }

recovered_at : (recover env 5 6 "a" permit fenced).0 ≡ ok 2
unfolding recover lookup admission runtime_at recoverable_of latest_for_agent latest_of of_agent
    values Fences.clear commit release_enforcers mark_recovered Runtime.recover
recovered_at = refl

recover-Completes_example :
    (m : ManagedAgent ℕ) × (i : IncidentRecord) × (managed "a" fenced ≡ some m)
    × (admission "a" permit m fenced.incidents ≡ ok i)
    × Completes "a" 2 m i (recover env 5 6 "a" permit fenced).1
recover-Completes_example = recover-Completes env 5 6 "a" permit fenced 2 recovered_at

abbrev uncleared : Exc
uncleared = record {
  kind = runtime_error;
  message = "durable recovery fence could not be cleared; runtime remains contained";
}

not_recovered : (recover broken 5 6 "a" permit fenced).0 ≡ raised uncleared
unfolding recover lookup admission runtime_at recoverable_of latest_for_agent latest_of of_agent
    values Fences.clear commit
not_recovered = refl

recover_keeps_agents_example : (recover broken 5 6 "a" permit fenced).1.agents ≡ fenced.agents
recover_keeps_agents_example =
    recover_keeps_agents broken 5 6 "a" permit fenced uncleared not_recovered

-- A controller that starts again knows the fence, and not the agent.
abbrev restarted : Service ℕ
restarted = record fenced { agents = [] }

abbrev readmitted : ManagedAgent ℕ
readmitted = record shut {
  containment = record controller {
    runtime = record agent {
      state = contained;
      epoch = 1;
      lease_proof = 8;
      recovery_capability = 9;
    };
    enforcers = [];
  };
  identity_digest = none;
  identity_cgroup = none;
  recovery_capability = some 9;
}

readmitted_as : managed "a" (register env 8 9 "a" agent none engine restarted).1 ≡ some readmitted
unfolding register lookup stored admit after read_prior latest_for_agent reconstruct_missing
    Fences.get latest_of of_agent values repair_recovered start_fenced Runtime.restore_contained
    start insert new_controller rotate_recovery_capability
readmitted_as = refl

registered_inactive_example : is_active readmitted.containment.runtime.state ≡ false
unfolding lookup Fences.get
registered_inactive_example =
    registered_inactive env 8 9 "a" agent none engine restarted fence readmitted refl refl
      readmitted_as

-- A failed audit whose incident cannot be marked degraded makes `contain` raise, though the runtime
-- is contained.
abbrev late : Env ℕ
late = record env {
  disk = λ n. (if leb 3 n then some full_disk else none, n);
  audit = some (λ e n. (raised full_disk, n + 1));
}

contain_raises :
    (is_ok (contain late 5 "a" service).0 ≡ false)
    × (Fences.get "a" (contain late 5 "a" service).1.fences ≡ some fence)
unfolding contain lookup unnamed failure_of Fences.prepare commit record_containment incident_id_of
    concat decimal Containment.contain Runtime.contain contain_providers contain_provider Fences.get
    Incidents.get emit insert as_unit Incidents.mark_proof_degraded failed_by
contain_raises = (refl, refl)

abbrev pub presented : Credentials ℕ
presented = record {
  token = some "digest";
  peer_pid = some 3;
  membership = some (λ pid path n. (true, n));
}

abbrev pub read : Action
read = record { agent_id = "a"; action_id = "1"; operation = "read"; resource = "x"; risk = pos 0 }

abbrev pub allowed : Decision
allowed = record { action_id = "1"; decision = allow; reason = "within policy" }

pub read-allowed : (authorize env (λ t. t) (λ s. s) 5 presented read service).0 ≡ ok allowed
unfolding authorize lookup concluded decided authenticated token_matches pid_matches unchanged
    same_text same_number evaluate contains effective_risk first_match
read-allowed = refl

-- The same action, when another thread contains the agent while the predicate runs.
read-denied :
    (authorize env (λ t. t) (λ s. (contain env 6 "a" s).1) 5 presented read service).0
    ≡ ok (denied read "agent identity is no longer authorized")
unfolding authorize contain lookup concluded decided authenticated token_matches pid_matches unnamed
    insert unchanged same_text
read-denied = refl

allowed-Authorizes_example : Authorizes (λ t. t) (λ s. s) presented read service
allowed-Authorizes_example =
    allowed-Authorizes env (λ t. t) (λ s. s) 5 presented read service allowed read-allowed refl

admitted : admission "a" permit shut fenced.incidents ≡ ok incident
unfolding admission runtime_at recoverable_of latest_for_agent latest_of of_agent values
admitted = refl

admission-Admits_example : Admits "a" permit shut fenced.incidents incident
admission-Admits_example = admission-Admits "a" permit shut fenced.incidents incident admitted
