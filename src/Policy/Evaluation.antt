-- ===== src/Policy/Evaluation.antt =====
-- One evaluation: when an action passes, what is committed, and which decision a refusal carries.
use agent_containment.Base.{
  ℕ, ◌≤◌, ◌<◌, ◌≡◌, ◌⊎◌, inl, inr, refl, String, true, false, none, some, List, [], ◌∷◌, ◌++◌,
  arith, leb, contains, Bool-cases, Option-cases,
}
use agent_containment.Base.Dict.{lookup}
use agent_containment.Models.{Action, allow, halt}
use agent_containment.Policy.{
  PolicyEngine, SequenceRule, rule_matches, first_match, push, effective_risk, evaluate,
}

-- No rule of the list matches the candidate.
abbrev pub NoMatch : List SequenceRule → List String → Type 0
NoMatch [] candidate = Unit
NoMatch (rule ∷ rules) candidate = (rule_matches rule candidate ≡ false) × NoMatch rules candidate

-- The rule stands in the list.
abbrev pub IsRule : SequenceRule → List SequenceRule → Type 0
IsRule rule [] = ⊥
IsRule rule (r ∷ rules) = (r ≡ rule) ⊎ IsRule rule rules

first_match-none :
    (rules : List SequenceRule) (candidate : List String)
    → first_match rules candidate ≡ none
    → NoMatch rules candidate
unfolding first_match
first_match-none [] candidate h = tt
first_match-none (rule ∷ rules) candidate h = ground (arith, first_match-none rules candidate)

pub first_match_of_NoMatch :
    (rules : List SequenceRule) (candidate : List String)
    → NoMatch rules candidate
    → first_match rules candidate ≡ none
unfolding first_match
first_match_of_NoMatch [] candidate h = refl
first_match_of_NoMatch (rule ∷ rules) candidate h =
    ground (arith, first_match_of_NoMatch rules candidate h.1)

pub first_match-some :
    (rules : List SequenceRule) (candidate : List String) (rule : SequenceRule)
    → first_match rules candidate ≡ some rule
    → IsRule rule rules × (rule_matches rule candidate ≡ true)
unfolding first_match
first_match-some [] candidate rule h = ground arith
first_match-some (r ∷ rules) candidate rule h = elim (Bool-cases (rule_matches r candidate)) [
  | inl e ↦ (inl (ground arith), ground arith)
  | inr e ↦ let (m, t) = first_match-some rules candidate rule (ground arith) in (inr m, t)
]

pub NoMatch-IsRule :
    (rules : List SequenceRule) (candidate : List String) (rule : SequenceRule)
    → NoMatch rules candidate
    → IsRule rule rules
    → rule_matches rule candidate ≡ false
NoMatch-IsRule [] candidate rule h m = absurd m
NoMatch-IsRule (r ∷ rules) candidate rule h (inl e) = cc
NoMatch-IsRule (r ∷ rules) candidate rule h (inr m) = NoMatch-IsRule rules candidate rule h.1 m

-- What an action has to meet.
pub record Passes (p : PolicyEngine) (a : Action) : Type 0 where
  pub not_denied : contains a.operation p.denied_operations ≡ false
  pub low_risk : effective_risk p a < p.max_risk
  pub no_match : NoMatch p.sequence_rules (p.history ++ (a.operation ∷ []))

pub Passes-or_not : (p : PolicyEngine) (a : Action) → Passes p a ⊎ (¬ Passes p a)
Passes-or_not p a = elim (Bool-cases (contains a.operation p.denied_operations)) [
  | inl denied ↦ inr (λ h. cc (h.not_denied))
  | inr admitted ↦ elim (Bool-cases (leb p.max_risk (effective_risk p a))) [
    | inl risky ↦ inr (λ h. ground (arith, h.low_risk))
    | inr low ↦
        elim (Option-cases (first_match p.sequence_rules (p.history ++ (a.operation ∷ [])))) [
          | inl e ↦ inl (record {
            not_denied = admitted;
            low_risk = ground arith;
            no_match = first_match-none p.sequence_rules (p.history ++ (a.operation ∷ [])) e;
          })
          | inr (rule, e) ↦ inr (λ h. ground (
            arith,
            first_match_of_NoMatch p.sequence_rules (p.history ++ (a.operation ∷ [])) h.no_match,
          ))
        ]
  ]
]

evaluate_refused :
    (p : PolicyEngine) (a : Action)
    → ¬ Passes p a
    → ((evaluate p a).1 ≡ p)
      × (((evaluate p a).0.decision ≡ halt)
          ⊎ ((rule : SequenceRule) × IsRule rule p.sequence_rules
              × (rule_matches rule (p.history ++ (a.operation ∷ [])) ≡ true)
              × ((evaluate p a).0.decision ≡ rule.decision)))
unfolding evaluate
evaluate_refused p a h = elim (Bool-cases (contains a.operation p.denied_operations)) [
  | inl denied ↦ (ground arith, inl (ground arith))
  | inr admitted ↦ elim (Bool-cases (leb p.max_risk (effective_risk p a))) [
    | inl risky ↦ (ground arith, inl (ground arith))
    | inr low ↦
        elim (Option-cases (first_match p.sequence_rules (p.history ++ (a.operation ∷ [])))) [
          | inl e ↦ absurd (
              h (record {
                not_denied = admitted;
                low_risk = ground arith;
                no_match = first_match-none p.sequence_rules (p.history ++ (a.operation ∷ [])) e;
              }))
          | inr (rule, e) ↦
              let (m, t) =
                first_match-some p.sequence_rules (p.history ++ (a.operation ∷ [])) rule e in
              (ground arith, inr (rule, m, t, ground arith))
        ]
  ]
]

pub evaluate-Passes :
    (p : PolicyEngine) (a : Action)
    → (Passes p a
        → ((evaluate p a).0.decision ≡ allow)
          × ((evaluate p a).1 ≡ record p { history = push p.history_limit p.history a.operation }))
      × (¬ Passes p a
          → ((evaluate p a).1 ≡ p)
            × (((evaluate p a).0.decision ≡ halt)
                ⊎ ((rule : SequenceRule) × IsRule rule p.sequence_rules
                    × (rule_matches rule (p.history ++ (a.operation ∷ [])) ≡ true)
                    × ((evaluate p a).0.decision ≡ rule.decision))))
unfolding evaluate
evaluate-Passes p a = (
  λ h.
      ground (
        arith,
        first_match_of_NoMatch p.sequence_rules (p.history ++ (a.operation ∷ [])) h.no_match,
      ),
  evaluate_refused p a,
)

-- An action passes, and then it is allowed and committed to the bounded history, and nothing else of
-- the engine changes; or it does not, and then it leaves the engine as it was, and is halted or gets
-- the decision of a configured rule that matches.
pub evaluate-cases :
    (p : PolicyEngine) (a : Action)
    → (Passes p a
        × ((evaluate p a).0.decision ≡ allow)
        × ((evaluate p a).1 ≡ record p { history = push p.history_limit p.history a.operation }))
      ⊎ ((¬ Passes p a)
          × ((evaluate p a).1 ≡ p)
          × (((evaluate p a).0.decision ≡ halt)
              ⊎ ((rule : SequenceRule) × IsRule rule p.sequence_rules
                  × (rule_matches rule (p.history ++ (a.operation ∷ [])) ≡ true)
                  × ((evaluate p a).0.decision ≡ rule.decision))))
evaluate-cases p a = elim (Passes-or_not p a) [
  | inl ps ↦ let (d, e) = (evaluate-Passes p a).0 ps in inl (ps, d, e)
  | inr np ↦ let (e, d) = (evaluate-Passes p a).1 np in inr (np, e, d)
]

-- The caller's risk cannot lower the controller's classification: an operation classified at the
-- threshold or above is halted whatever risk the action claims, and leaves the engine as it was.
pub classified_risk_halts :
    (p : PolicyEngine) (a : Action) (r : ℕ)
    → lookup a.operation p.operation_risk ≡ some r
    → p.max_risk ≤ r
    → ((evaluate p a).0.decision ≡ halt) × ((evaluate p a).1 ≡ p)
unfolding evaluate effective_risk
classified_risk_halts p a r e h = ground arith
