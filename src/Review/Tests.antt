-- ===== src/Review/Tests.antt =====
-- A verifier's signal at concrete inputs.
use agent_containment.Base.{◌≡◌, refl, false, none, some, [], ◌∷◌, ok, pos, is_ok}
use agent_containment.Base.Dict.{Dict, lookup}
use agent_containment.Review.{Value, VerificationSignal, from_mapping, exceeds, all_texts}
use agent_containment.Review.Signals.{ReadFrom, from_mapping-Valid}

abbrev mapping : Dict Value
mapping =
    ("disposition", Value.text "block")
    ∷ ("reportFingerprint", Value.text "r")
    ∷ ("policyFingerprint", Value.text "p")
    ∷ ("blockingClaimIDs", Value.items (some "c1" ∷ []))
    ∷ ("supportedClaimCount", Value.integer (pos 1))
    ∷ ("totalClaimCount", Value.integer (pos 2))
    ∷ ("actionID", Value.text "1")
    ∷ []

abbrev signal : VerificationSignal
signal = record {
  disposition = "block";
  report_fingerprint = "r";
  policy_fingerprint = "p";
  blocking_claim_ids = "c1" ∷ [];
  review_claim_ids = [];
  supported_claim_count = pos 1;
  total_claim_count = pos 2;
  trace_id = none;
  run_id = none;
  action_id = some "1";
  version = pos 1;
}

mapping_read : from_mapping mapping ≡ ok signal
unfolding from_mapping lookup exceeds all_texts
mapping_read = refl

from_mapping-Valid_example : ReadFrom mapping signal
from_mapping-Valid_example = from_mapping-Valid mapping signal mapping_read

-- More supported claims than there are.
excess_refused :
    is_ok (from_mapping (("supportedClaimCount", Value.integer (pos 3)) ∷ mapping)) ≡ false
unfolding from_mapping lookup exceeds all_texts
excess_refused = refl
