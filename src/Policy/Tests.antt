-- ===== src/Policy/Tests.antt =====
-- A small policy: tests, and each theorem at an input that meets its hypotheses.
use agent_containment.Base.{
  ◌≡◌, ◌≢◌, ◌↔◌, inl, inr, refl, String, true, false, List, [], ◌∷◌, arith, pos, ok, contains,
}
use agent_containment.Base.Dict.{lookup}
use agent_containment.Models.{Action, halt}
use agent_containment.Policy.{
  PolicyEngine, SequenceRule, new, rule_matches, first_match, effective_risk, evaluate, push,
}
use agent_containment.Policy.Sequence.{Subsequence, rule_matches-gaps}
use agent_containment.Policy.History.{NoAllowRule, allowed, forbidden_never_allowed}

abbrev exfiltrate : SequenceRule
exfiltrate = record {
  name = "exfil";
  sequence = "read" ∷ "send" ∷ [];
  decision = halt;
  consecutive = false;
}

abbrev engine : PolicyEngine
engine = record {
  denied_operations = "rm" ∷ [];
  max_risk = 80;
  sequence_rules = exfiltrate ∷ [];
  operation_risk = ("deploy", 90) ∷ [];
  history = [];
  history_limit = 4;
}

new-engine :
    new ("rm" ∷ []) (pos 80) (exfiltrate ∷ []) (pos 4) (("deploy", pos 90) ∷ []) ≡ ok engine
unfolding new
new-engine = refl

abbrev op : String → Action
op name = record { agent_id = "a"; action_id = "1"; operation = name; resource = "x"; risk = pos 0 }

-- The unrelated operation between the two does not reset the chain.
allowed_run : allowed engine (op "read" ∷ op "list" ∷ op "send" ∷ []) ≡ "read" ∷ "list" ∷ []
unfolding allowed evaluate contains effective_risk lookup first_match rule_matches push
allowed_run = refl

two_items : ◌≢◌ {A = List String} ("read" ∷ "send" ∷ []) []
two_items = λ e. cc e

rule_matches-gaps_example :
    (rule_matches exfiltrate ("read" ∷ "send" ∷ []) ≡ true)
    ↔ Subsequence exfiltrate.sequence ("read" ∷ "send" ∷ [])
rule_matches-gaps_example = rule_matches-gaps exfiltrate ("read" ∷ "send" ∷ []) two_items refl

abbrev adjacent : SequenceRule
adjacent = record exfiltrate { consecutive = true }

engine-NoAllowRule : NoAllowRule engine.sequence_rules
engine-NoAllowRule r (inl e) = λ d. cc (e, d)
engine-NoAllowRule r (inr m) = absurd m

forbidden_never_allowed_example :
    ¬ Subsequence ("read" ∷ "send" ∷ []) (allowed engine (op "read" ∷ op "list" ∷ op "send" ∷ []))
forbidden_never_allowed_example =
    forbidden_never_allowed engine exfiltrate (op "read" ∷ op "list" ∷ op "send" ∷ []) (inl refl)
      refl two_items engine-NoAllowRule refl (omega arith)
