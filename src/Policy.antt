-- ===== src/Policy.antt =====
-- src/agent_containment/policy.py: static rules, risk thresholds and forbidden sequences. What the
-- code checks of types (`isinstance`) is given by the types here.
pub mod Sequence
pub mod Evaluation
pub mod History
mod Tests
use agent_containment.Base.{
  ℕ, suc, ◌-◌, max, String, Bool, true, false, ◌&&◌, ◌||◌, not, Option, none, some, List, [], ◌∷◌,
  ◌++◌, leb, ltb, ◌==◌, ◌=s◌, if◌then◌else◌, ℤ, pos, negsuc, is_empty, Result, ok, raise,
  value_error, concat, decimal, contains, texts_eq,
}
use agent_containment.Base.Lists.{length, drop}
use agent_containment.Base.Dict.{Dict, lookup}
use agent_containment.Models.{Action, Decision, DecisionType, allow, halt}

pub record SequenceRule : Type 0 where
  pub name : String
  pub sequence : List String
  pub decision : DecisionType
  pub consecutive : Bool

abbrev is_nil {ℓ} : {A : Type ℓ} → List A → Bool
is_nil [] = true
is_nil (_ ∷ _) = false

-- `SequenceRule.__post_init__`
unfoldable pub sequence_rule : String → List String → DecisionType → Bool → Result SequenceRule
sequence_rule name sequence decision consecutive =
    if is_empty name || is_nil sequence
    then raise value_error "sequence rules require a name and non-empty sequence"
    else if contains "" sequence
    then raise value_error "sequence entries must be non-empty strings"
    else ok (record {
      name = name;
      sequence = sequence;
      decision = decision;
      consecutive = consecutive;
    })

pub record PolicyEngine : Type 0 where
  pub denied_operations : List String
  pub max_risk : ℕ
  pub sequence_rules : List SequenceRule
  pub operation_risk : Dict ℕ
  pub history : List String
  pub history_limit : ℕ

-- The risks of operations, checked to lie from 0 to 100.
checked_risks : List (String × ℤ) → Option (Dict ℕ)
checked_risks [] = some []
checked_risks ((op, negsuc _) ∷ rest) = none
checked_risks ((op, pos r) ∷ rest) =
    if is_empty op || ltb 100 r then none else add op r (checked_risks rest)
  where
    add : String → ℕ → Option (Dict ℕ) → Option (Dict ℕ)
    add op r none = none
    add op r (some d) = some ((op, r) ∷ d)

build : List String → ℕ → List SequenceRule → ℕ → Option (Dict ℕ) → Result PolicyEngine
build denied max_risk rules limit none =
    raise value_error
      "operation_risk entries require non-empty operation names and integer risks from 0 to 100"
build denied max_risk rules limit (some risks) = ok (record {
  denied_operations = denied;
  max_risk = max_risk;
  sequence_rules = rules;
  operation_risk = risks;
  history = [];
  history_limit = limit;
})

-- `PolicyEngine.__init__`
unfoldable pub new :
    List String → ℤ → List SequenceRule → ℤ → List (String × ℤ) → Result PolicyEngine
unfolding checked_risks build
new denied (negsuc _) rules limit risks = raise value_error "max_risk must be from 0 to 100"
new denied (pos m) rules (negsuc _) risks =
    if ltb 100 m
    then raise value_error "max_risk must be from 0 to 100"
    else raise value_error "history_limit must be positive"
new denied (pos m) rules (pos limit) risks =
    if ltb 100 m
    then raise value_error "max_risk must be from 0 to 100"
    else if ltb limit 1
    then raise value_error "history_limit must be positive"
    else build denied m rules limit (checked_risks risks)

-- `candidate[-n:]`
unfoldable pub last_items : ℕ → List String → List String
last_items n xs = if n == 0 then xs else drop (length xs - n) xs

-- The loop over the candidate, where `next` is `next_expected` and `expected` what the iterator
-- has left.
unfoldable pub scan : Option String → List String → List String → Bool
scan next expected [] = false
scan none expected (op ∷ ops) = scan none expected ops
scan (some n) expected (op ∷ ops) =
    let matched : Bool = elim expected [ [] ↦ true | m ∷ rest ↦ scan (some m) rest ops ] in
    let unmatched : Bool = scan (some n) expected ops in if op =s n then matched else unmatched

-- `iter(rule.sequence)` and the first `next(expected, None)`.
unfoldable pub scan_sequence : List String → List String → Bool
unfolding scan
scan_sequence [] candidate = scan none [] candidate
scan_sequence (n ∷ expected) candidate = scan (some n) expected candidate

unfoldable pub rule_matches : SequenceRule → List String → Bool
unfolding last_items texts_eq scan_sequence
rule_matches rule candidate =
    if rule.consecutive
    then leb (length rule.sequence) (length candidate)
      && texts_eq (last_items (length rule.sequence) candidate) rule.sequence
    else scan_sequence rule.sequence candidate

-- The first rule that matches decides.
unfoldable pub first_match : List SequenceRule → List String → Option SequenceRule
first_match [] candidate = none
first_match (rule ∷ rules) candidate =
    if rule_matches rule candidate then some rule else first_match rules candidate

-- `deque.append` under `maxlen`.
unfoldable pub push : ℕ → List String → String → List String
push limit history op = let longer = history ++ (op ∷ []) in drop (length longer - limit) longer

unfoldable pub risk_of : Option ℕ → ℕ
risk_of none = 0
risk_of (some r) = r

-- `max(action.risk, operation_risk.get(operation, 0))`
unfoldable pub effective_risk : PolicyEngine → Action → ℕ
unfolding risk_of
effective_risk p a = stricter a.risk
  where
    stricter : ℤ → ℕ
    stricter (pos r) = max r (risk_of (lookup a.operation p.operation_risk))
    stricter (negsuc _) = risk_of (lookup a.operation p.operation_risk)

decide_sequence : PolicyEngine → Action → Option SequenceRule → Decision × PolicyEngine
decide_sequence p a (some rule) = (
  record {
    action_id = a.action_id;
    decision = rule.decision;
    reason = concat ("sequence rule '" ∷ rule.name ∷ "' matched" ∷ []);
  },
  p,
)
decide_sequence p a none = (
  record { action_id = a.action_id; decision = allow; reason = "within policy" },
  record p { history = push p.history_limit p.history a.operation },
)

unfoldable pub evaluate : PolicyEngine → Action → Decision × PolicyEngine
unfolding decide_sequence
evaluate p a =
    if contains a.operation p.denied_operations
    then (
      record {
        action_id = a.action_id;
        decision = halt;
        reason = concat ("operation '" ∷ a.operation ∷ "' is denied by policy" ∷ []);
      },
      p,
    )
    else if leb p.max_risk (effective_risk p a)
    then (
      record {
        action_id = a.action_id;
        decision = halt;
        reason = concat (
            "effective risk "
            ∷ decimal (effective_risk p a)
            ∷ " exceeds threshold "
            ∷ decimal p.max_risk
            ∷ []);
      },
      p,
    )
    else decide_sequence p a (first_match p.sequence_rules (p.history ++ (a.operation ∷ [])))

unfoldable pub reset_history : PolicyEngine → PolicyEngine
reset_history p = record p { history = [] }
