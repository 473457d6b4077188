-- ===== src/Enforcement.antt =====
-- src/agent_containment/enforcer.py: the boundary to external enforcement. A provider is a record
-- of four operations on the outside world `W`, each of which returns a result or raises; nothing is
-- assumed of what a provider does.
use agent_containment.Base.{String, Bool, true, false, Result, ok}

pub data EnforcementStatus : Type 0 where
  enforced released verification_failed degraded not_configured : EnforcementStatus

-- `EnforcementStatus.value`
abbrev pub status_value : EnforcementStatus → String
status_value enforced = "enforced"
status_value released = "released"
status_value verification_failed = "verification_failed"
status_value degraded = "degraded"
status_value not_configured = "not_configured"

abbrev pub is_enforced : EnforcementStatus → Bool
is_enforced enforced = true
is_enforced _ = false

abbrev pub is_released : EnforcementStatus → Bool
is_released released = true
is_released _ = false

pub record EnforcementResult : Type 0 where
  pub provider : String
  pub status : EnforcementStatus
  pub detail : String

pub record Enforcer (W : Type 0) : Type 0 where
  pub name : String
  pub contain : String → W → Result EnforcementResult × W
  pub release : String → W → Result EnforcementResult × W
  pub verify_contained : String → W → Result EnforcementResult × W
  pub verify_released : String → W → Result EnforcementResult × W

noop_reply : {W : Type 0} → String → W → Result EnforcementResult × W
noop_reply agent w = (
  ok (record {
    provider = "noop";
    status = not_configured;
    detail = "no external enforcement provider configured";
  }),
  w,
)

-- `NoopEnforcer`
unfoldable pub noop_enforcer : {W : Type 0} → Enforcer W
unfolding noop_reply
noop_enforcer = record {
  name = "noop";
  contain = noop_reply;
  release = noop_reply;
  verify_contained = noop_reply;
  verify_released = noop_reply;
}
