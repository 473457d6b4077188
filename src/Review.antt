-- ===== src/Review.antt =====
-- src/agent_containment/review.py and verification_signal.py: the requests for review and the
-- signals of a verifier. The values of a signal's mapping are what the code tells apart in them.
pub mod Signals
mod Tests
use agent_containment.Base.{
  ℕ, String, Bool, true, false, ◌&&◌, ◌||◌, not, Option, none, some, List, [], ◌∷◌, if◌then◌else◌,
  leb, ltb, ◌=s◌, is_empty, ℤ, pos, negsuc, Result, ok, raised, raise, ◌>>=◌, value_error, concat,
}
use agent_containment.Base.Dict.{Dict, lookup}
use agent_containment.Models.{Action, Decision, allow, deny, pause, halt}

pub data ReviewState : Type 0 where
  pending approved expired escalated : ReviewState

-- `ReviewState.value`
abbrev pub review_value : ReviewState → String
review_value pending = "pending"
review_value approved = "approved"
review_value expired = "expired"
review_value escalated = "escalated"

pub record ReviewRequest : Type 0 where
  pub review_id : String
  pub agent_id : String
  pub action_id : String
  pub requested_at : ℕ
  pub deadline : ℕ
  pub state : ReviewState

-- `current_state`, at the time `now`.
unfoldable pub state_at : ℕ → ℕ → ReviewState → ReviewState
state_at now deadline pending = if leb deadline now then expired else pending
state_at now deadline s = s

unfoldable pub current_state : ℕ → ReviewRequest → ReviewState
unfolding state_at
current_state now r = state_at now r.deadline r.state

pub record VerificationSignal : Type 0 where
  pub disposition : String
  pub report_fingerprint : String
  pub policy_fingerprint : String
  pub blocking_claim_ids : List String
  pub review_claim_ids : List String
  pub supported_claim_count : ℤ
  pub total_claim_count : ℤ
  pub trace_id : Option String
  pub run_id : Option String
  pub action_id : Option String
  pub version : ℤ

abbrev pub is_negative : ℤ → Bool
is_negative (pos _) = false
is_negative (negsuc _) = true

-- `a > b`
unfoldable pub exceeds : ℤ → ℤ → Bool
exceeds (pos a) (pos b) = ltb b a
exceeds (pos a) (negsuc b) = true
exceeds (negsuc a) (pos b) = false
exceeds (negsuc a) (negsuc b) = ltb a b

abbrev pub blank_text : Option String → Bool
blank_text none = false
blank_text (some s) = is_empty s

abbrev pub known_disposition : String → Bool
known_disposition d = d =s "allow" || (d =s "requireReview" || d =s "block")

-- What `__post_init__` raises, if it does.
unfoldable pub signal_refusal : VerificationSignal → Option String
unfolding exceeds
signal_refusal s =
    if not (known_disposition s.disposition)
    then some "unsupported verification disposition"
    else if is_empty s.report_fingerprint || is_empty s.policy_fingerprint
    then some "verification fingerprints must be non-empty"
    else if is_negative s.supported_claim_count || is_negative s.total_claim_count
    then some "claim counts must be non-negative"
    else if exceeds s.supported_claim_count s.total_claim_count
    then some "supported claim count cannot exceed total claim count"
    else if blank_text s.trace_id
    then some "trace_id must be non-empty when provided"
    else if blank_text s.run_id
    then some "run_id must be non-empty when provided"
    else if blank_text s.action_id
    then some "action_id must be non-empty when provided"
    else none

-- The constructor of `VerificationSignal`.
unfoldable pub checked_signal : VerificationSignal → Result VerificationSignal
unfolding signal_refusal
checked_signal s = elim (signal_refusal s) [
  | some message ↦ raise value_error message
  | none ↦ ok s
]

-- A value of a mapping: None, a text, an integer that is no truth value, a list whose items are
-- texts or something else, or anything else.
pub data Value : Type 0 where
  nothing : Value
  text : String → Value
  integer : ℤ → Value
  items : List (Option String) → Value
  other : Value

unfoldable pub required_string : String → Dict Value → Result String
required_string key m = checked (lookup key m)
  where
    checked : Option Value → Result String
    checked (some (Value.text s)) =
        if is_empty s
        then raise value_error (concat (key ∷ " must be a non-empty string" ∷ []))
        else ok s
    checked _ = raise value_error (concat (key ∷ " must be a non-empty string" ∷ []))

unfoldable pub non_negative_int : String → ℤ → Dict Value → Result ℤ
non_negative_int key default m = checked (lookup key m)
  where
    checked : Option Value → Result ℤ
    checked none = ok default
    checked (some (Value.integer (pos n))) = ok (pos n)
    checked _ = raise value_error (concat (key ∷ " must be a non-negative integer" ∷ []))

-- The items, if every one is a text that is not empty.
unfoldable pub all_texts : List (Option String) → Option (List String)
all_texts [] = some []
all_texts (none ∷ rest) = none
all_texts (some s ∷ rest) =
    let others = all_texts rest in
    if is_empty s then none else elim others [ none ↦ none | some ts ↦ some (s ∷ ts) ]

unfoldable pub strings : String → Dict Value → Result (List String)
unfolding all_texts
strings key m = checked (lookup key m)
  where
    texts : Option (List String) → Result (List String)
    texts none = raise value_error (concat (key ∷ " entries must be non-empty strings" ∷ []))
    texts (some ts) = ok ts

    checked : Option Value → Result (List String)
    checked none = ok []
    checked (some (Value.items xs)) = texts (all_texts xs)
    checked _ = raise value_error (concat (key ∷ " must be a list" ∷ []))

-- `value.get(key)`, which `__post_init__` refuses unless it is None or a text that is not empty.
unfoldable pub optional_text : String → String → Dict Value → Result (Option String)
optional_text name key m = checked (lookup key m)
  where
    refused : Result (Option String)
    refused = raise value_error (concat (name ∷ " must be non-empty when provided" ∷ []))

    checked : Option Value → Result (Option String)
    checked none = ok none
    checked (some Value.nothing) = ok none
    checked (some (Value.text s)) = if is_empty s then refused else ok (some s)
    checked _ = refused

-- `from_mapping`; the three optional texts are read before the constructor and checked last in it.
unfoldable pub from_mapping : Dict Value → Result VerificationSignal
unfolding checked_signal required_string non_negative_int strings optional_text
from_mapping m = do
  version ← non_negative_int "version" (pos 1) m
  disposition ← required_string "disposition" m
  report ← required_string "reportFingerprint" m
  policy ← required_string "policyFingerprint" m
  blocking ← strings "blockingClaimIDs" m
  review ← strings "reviewClaimIDs" m
  supported ← non_negative_int "supportedClaimCount" (pos 0) m
  total ← non_negative_int "totalClaimCount" (pos 0) m
  signal ← checked_signal (record {
    disposition = disposition;
    report_fingerprint = report;
    policy_fingerprint = policy;
    blocking_claim_ids = blocking;
    review_claim_ids = review;
    supported_claim_count = supported;
    total_claim_count = total;
    trace_id = none;
    run_id = none;
    action_id = none;
    version = version;
  })
  trace ← optional_text "trace_id" "traceID" m
  run ← optional_text "run_id" "runID" m
  action ← optional_text "action_id" "actionID" m
  ok (record signal { trace_id = trace; run_id = run; action_id = action })

-- `signal.action_id is not None and signal.action_id != action.action_id`
abbrev bound_to_other : Option String → String → Bool
bound_to_other none id = false
bound_to_other (some bound) id = not (bound =s id)

abbrev pub bound_elsewhere : Action → VerificationSignal → Bool
bound_elsewhere a s = bound_to_other s.action_id a.action_id

-- `decision_from_verification`
unfoldable pub decision_from_verification : Action → VerificationSignal → Decision
decision_from_verification a s =
    if bound_elsewhere a s
    then record {
      action_id = a.action_id;
      decision = deny;
      reason = "verification signal is bound to another action";
    }
    else if s.disposition =s "block"
    then record {
      action_id = a.action_id;
      decision = halt;
      reason = "claim verification blocked publication or execution";
    }
    else if s.disposition =s "requireReview"
    then record {
      action_id = a.action_id;
      decision = pause;
      reason = "claim verification requires human review";
    }
    else record {
      action_id = a.action_id;
      decision = allow;
      reason = "claim verification allows action";
    }
