-- ===== src/Containment/Report.antt =====
-- `ContainmentReport` and `RecoveryReport` of containment.py.
use agent_containment.Base.{
  ℕ, ◌-◌, String, Bool, true, false, ◌&&◌, Option, none, some, List, [], ◌∷◌, ◌++◌, if◌then◌else◌,
  is_some, is_empty, Result, ok, raise, value_error,
}

pub record ContainmentReport : Type 0 where
  pub agent_id : String
  pub epoch : ℕ
  pub stages : List String
  pub failures : List String
  pub persistence_failures : List String
  pub external_verified : Bool
  pub containment_requested_at : Option ℕ
  pub provider_applied_at : Option ℕ
  pub independently_verified_at : Option ℕ
  pub authority_revoked_at : Option String
  pub enforcement_occurred_at : Option String

abbrev pub none_of : List String → Bool
none_of [] = true
none_of (_ ∷ _) = false

latency : Option ℕ → Option ℕ → Option ℕ
latency (some requested) (some verified) = some (verified - requested)
latency _ _ = none

-- `max(0.0, verified - requested)` is the truncated difference.
unfoldable pub enforcement_latency_seconds : ContainmentReport → Option ℕ
unfolding latency
enforcement_latency_seconds r = latency r.containment_requested_at r.independently_verified_at

unfoldable pub complete : ContainmentReport → Bool
complete r = none_of r.failures

unfoldable pub certified : ContainmentReport → Bool
unfolding complete
certified r = complete r && r.external_verified

unfoldable pub durable : ContainmentReport → Bool
durable r = none_of r.persistence_failures

unfoldable pub with_persistence_failure : String → ContainmentReport → Result ContainmentReport
with_persistence_failure failure r =
    if is_empty failure
    then raise value_error "failure must be non-empty"
    else ok (record r { persistence_failures = r.persistence_failures ++ (failure ∷ []) })

pub record RecoveryReport : Type 0 where
  pub agent_id : String
  pub contained_epoch : ℕ
  pub events : List String
  pub failures : List String
  pub recontainment_failures : List String
  pub recovered_epoch : Option ℕ

unfoldable pub successful : RecoveryReport → Bool
successful r = is_some r.recovered_epoch && none_of r.failures

unfoldable pub proof_status : RecoveryReport → String
unfolding successful
proof_status r = if successful r && none_of r.recontainment_failures then "verified" else "degraded"

-- How a recontainment is reported.
abbrev pub verdict : List String → String
verdict [] = "recontainment_verified"
verdict (_ ∷ _) = "recontainment_degraded"

-- `"; ".join(failures)`
unfoldable pub joined : List String → List String
joined [] = []
joined (x ∷ []) = x ∷ []
joined (x ∷ y ∷ ys) = x ∷ "; " ∷ joined (y ∷ ys)
