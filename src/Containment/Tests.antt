-- ===== src/Containment/Tests.antt =====
-- Concrete controllers: tests, and each theorem about containment at an input.
use agent_containment.Base.{
  ℕ, ◌+◌, ◌≡◌, ◌≢◌, ◌↔◌, refl, true, false, none, some, [], ◌∷◌, pos, ok, Exc, permission_error,
}
use mathlib.Core.List.{reverse}
use agent_containment.Runtime
use agent_containment.Runtime.{Runtime, active, contained}
use agent_containment.Enforcement.{
  Enforcer, EnforcementResult, EnforcementStatus, enforced, released, noop_enforcer,
}
use agent_containment.Runtime.Fenced.{IsContained}
use agent_containment.Credentials.Revoked.{Revoked}
use agent_containment.Containment.{
  Controller, Clock, RecoveryReport, contain, contain_provider, contain_providers,
  release_enforcers, recover, certified, complete, new_controller,
}
use agent_containment.Containment.Fencing.{
  AllConfirm, before_enforcers, contain_fences, contain_verified,
}
use agent_containment.Containment.Recovery.{AllRelease, recover_fails_closed, recover_released}

abbrev agent : Runtime
agent = record {
  agent_id = "a";
  runtime_id = "r";
  state = active;
  epoch = 0;
  lease_proof = 0;
  recovery_capability = 1;
}

abbrev replies : EnforcementStatus → EnforcementResult
replies status = record { provider = "net"; status = status; detail = "" }

-- An enforcer that does what it is asked; the world counts its calls.
abbrev net : Enforcer ℕ
net = record {
  name = "net";
  contain = λ a n. (ok (replies enforced), n + 1);
  release = λ a n. (ok (replies released), n + 1);
  verify_contained = λ a n. (ok (replies enforced), n + 1);
  verify_released = λ a n. (ok (replies released), n + 1);
}

abbrev clock : Clock ℕ
clock = record { monotonic = λ n. (7, n); utc_now = λ n. ("now", n) }

abbrev guarded : Controller ℕ
guarded = record {
  runtime = agent;
  capabilities = "shell" ∷ [];
  credentials = none;
  egress = none;
  process_containment = none;
  kernel_egress = none;
  enforcers = net ∷ [];
  last_report = none;
  last_recovery_report = none;
}

guarded_new : new_controller agent ("shell" ∷ []) none none none (net ∷ []) ≡ guarded
unfolding new_controller
guarded_new = refl

-- With the default provider, which is not configured, a containment is not certified.
abbrev unguarded : Controller ℕ
unguarded = record guarded { enforcers = noop_enforcer ∷ [] }

certified_net : certified (contain clock 5 guarded 0).0.0 ≡ true
unfolding contain certified contain_providers contain_provider Runtime.contain
certified_net = refl

uncertified_noop : certified (contain clock 5 unguarded 0).0.0 ≡ false
unfolding contain certified contain_providers contain_provider Runtime.contain noop_enforcer
uncertified_noop = refl

contain_fences_example :
    let ((report, c'), w') = contain clock 5 guarded 0 in
    IsContained 5 agent c'.runtime
    × (c'.capabilities ≡ [])
    × Revoked none c'.credentials
    × (c'.last_report ≡ some report)
    × (report.agent_id ≡ "a")
    × (report.epoch ≡ 0 + 1)
    × (c'.enforcers ≡ net ∷ [])
contain_fences_example = contain_fences clock 5 guarded 0

contain_verified_example :
    let report = (contain clock 5 guarded 0).0.0 in
    ((report.external_verified ≡ true) ↔ (
      (guarded.enforcers ≢ [])
      × AllConfirm clock.monotonic "a" guarded.enforcers (before_enforcers clock 5 guarded 0)))
    × ((certified report ≡ true) ↔ ((complete report ≡ true) × (guarded.enforcers ≢ [])))
contain_verified_example = contain_verified clock 5 guarded 0

abbrev fenced : Controller ℕ
fenced = record guarded { runtime = record agent { state = contained; epoch = 1 } }

abbrev recovered_at : ℕ
recovered_at = 2

abbrev wrong_capability : Exc
wrong_capability = record {
  kind = permission_error;
  message = "recovery requires current controller authorization";
}

recover_fails_closed_example :
    (report : RecoveryReport) × ((recover 9 (pos 1) 5 fenced 0).0.1
      ≡ record fenced { last_recovery_report = some report })
    × (report.recovered_epoch ≡ none)
    × (report.failures ≢ [])
    × (report.contained_epoch ≡ 1)
unfolding recover release_enforcers Runtime.recover
recover_fails_closed_example = recover_fails_closed 9 (pos 1) 5 fenced 0 wrong_capability refl

recover_released_example :
    AllRelease "a" (reverse (net ∷ [])) 0
    × (1 ≡ fenced.runtime.recovery_capability)
    × (fenced.runtime.state ≡ contained)
    × (fenced.runtime.epoch ≡ 1)
    × (recovered_at ≡ 1 + 1)
    × ((recover 1 (pos 1) 5 fenced 0).0.1.runtime
        ≡ record fenced.runtime { state = active; epoch = 1 + 1; lease_proof = 5 })
unfolding recover release_enforcers Runtime.recover
recover_released_example = recover_released 1 1 5 fenced 0 recovered_at refl
