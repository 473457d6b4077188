-- ===== src/Policy/History.antt =====
-- The history over a sequence of evaluations.
use mathlib.Core.List.{append_assoc, append-nil}
use mathlib.Core.Path.{subst}
use agent_containment.Base.{
  ◌⊎◌, ℕ, ◌+◌, ◌-◌, ◌≤◌, ◌≡◌, ◌≢◌, inl, inr, refl, String, true, false, List, [], ◌∷◌, ◌++◌, arith,
  if◌then◌else◌,
}
use agent_containment.Base.Lists.{length, length-append, length-drop}
use agent_containment.Models.{Action, DecisionType, allow, halt, is_allow}
use agent_containment.Policy.{PolicyEngine, SequenceRule, rule_matches, push, evaluate}
use agent_containment.Policy.Sequence.{Subsequence, rule_matches-gaps}
use agent_containment.Policy.Evaluation.{
  Passes, IsRule, NoMatch-IsRule, Passes-or_not, evaluate-Passes,
}

length-push :
    (limit : ℕ) (history : List String) (op : String) → length (push limit history op) ≤ limit
unfolding push
length-push limit history op =
    omega (arith, length-drop (length (history ++ (op ∷ [])) - limit) (history ++ (op ∷ [])))

push_within :
    (limit : ℕ) (history : List String) (op : String)
    → length history + 1 ≤ limit
    → push limit history op ≡ history ++ (op ∷ [])
unfolding push
push_within limit history op h =
    let e : length (history ++ (op ∷ [])) - limit ≡ 0 =
      omega (arith, length-append history (op ∷ [])) in
    rw e

-- Evaluations one after another: the operations that were allowed, in order, and the engine.
unfoldable pub allowed : PolicyEngine → List Action → List String
allowed p [] = []
allowed p (a ∷ actions) =
    let rest : List String = allowed (evaluate p a).1 actions in
    if is_allow (evaluate p a).0.decision then a.operation ∷ rest else rest

unfoldable pub engine_after : PolicyEngine → List Action → PolicyEngine
engine_after p [] = p
engine_after p (a ∷ actions) = engine_after (evaluate p a).1 actions

-- No rule of the list lets an action pass that it matches.
abbrev pub NoAllowRule : List SequenceRule → Type 0
NoAllowRule rules = (r : SequenceRule) → IsRule r rules → r.decision ≢ allow

not_allow : (d : DecisionType) → d ≢ allow → is_allow d ≡ false
not_allow d h = ground arith

-- One evaluation under rules that never allow: the action passes and is committed, or it is not
-- allowed and the engine is unchanged.
evaluate_step :
    (p : PolicyEngine) (a : Action)
    → NoAllowRule p.sequence_rules
    → (Passes p a
        × (is_allow (evaluate p a).0.decision ≡ true)
        × ((evaluate p a).1 ≡ record p { history = push p.history_limit p.history a.operation }))
      ⊎ ((is_allow (evaluate p a).0.decision ≡ false) × ((evaluate p a).1 ≡ p))
evaluate_step p a strict = elim (Passes-or_not p a) [
  | inl ps ↦ let (d, e) = (evaluate-Passes p a).0 ps in inl (ps, rw d, e)
  | inr np ↦ let (e, d) = (evaluate-Passes p a).1 np in inr (refused d, e)
]
  where
    refused :
        ((evaluate p a).0.decision ≡ halt)
          ⊎ ((rule : SequenceRule) × IsRule rule p.sequence_rules
              × (rule_matches rule (p.history ++ (a.operation ∷ [])) ≡ true)
              × ((evaluate p a).0.decision ≡ rule.decision))
        → is_allow (evaluate p a).0.decision ≡ false
    refused (inl h) = rw h
    refused (inr (rule, m, t, d)) = rw d (not_allow rule.decision (strict rule m))

-- A gap rule matches the history with the new operation exactly where its sequence is there.
module _ (rule : SequenceRule) (rules : List SequenceRule) (limit : ℕ) (here : IsRule rule rules)
    (gaps : rule.consecutive ≡ false) (some_op : rule.sequence ≢ [])
    (strict : NoAllowRule rules) where
  passing_keeps :
      (p : PolicyEngine) (a : Action)
      → p.sequence_rules ≡ rules
      → Passes p a
      → ¬ Subsequence rule.sequence (p.history ++ (a.operation ∷ []))
  passing_keeps p a e ps sub =
      let quiet : rule_matches rule (p.history ++ (a.operation ∷ [])) ≡ false =
        NoMatch-IsRule p.sequence_rules (p.history ++ (a.operation ∷ [])) rule ps.no_match
          (rw e here) in
      let loud : rule_matches rule (p.history ++ (a.operation ∷ [])) ≡ true =
        (rule_matches-gaps rule (p.history ++ (a.operation ∷ [])) some_op gaps).1 sub in
      cc

  history_free :
      (p : PolicyEngine) (actions : List Action)
      → p.sequence_rules ≡ rules
      → p.history_limit ≡ limit
      → length p.history + length actions ≤ limit
      → ¬ Subsequence rule.sequence p.history
      → ¬ Subsequence rule.sequence (p.history ++ allowed p actions)
  unfolding allowed
  history_free p [] e l fits free = rw append-nil free
  history_free p (a ∷ actions) e l fits free = elim (evaluate_step p a (rw e strict)) [
    | inl (ps, d, e') ↦
        let committed : (evaluate p a).1 ≡ record p { history = p.history ++ (a.operation ∷ []) } =
          rw (← push_within p.history_limit p.history a.operation (omega arith)) e' in
        rw (d, committed)
          (rw append_assoc at (
            history_free (record p { history = p.history ++ (a.operation ∷ []) }) actions e l
              (omega (arith, length-append p.history (a.operation ∷ []))) (passing_keeps p a e ps)))
    | inr (d, e') ↦ rw (d, e') (history_free p actions e l (omega arith) free)
  ]

free_at_start : (s : List String) → s ≢ [] → ¬ Subsequence s []
free_at_start [] h = absurd (h refl)
free_at_start (n ∷ s) h = λ sub. elim sub [ ]

-- An engine with an empty history, in which no rule allows what it matches, never allows the whole
-- of a forbidden sequence: over any actions, at most as many as the history holds, the sequence of
-- a rule that permits gaps is no subsequence of the operations that were allowed.
pub forbidden_never_allowed :
    (p : PolicyEngine) (rule : SequenceRule) (actions : List Action)
    → IsRule rule p.sequence_rules
    → rule.consecutive ≡ false
    → rule.sequence ≢ []
    → NoAllowRule p.sequence_rules
    → p.history ≡ []
    → length actions ≤ p.history_limit
    → ¬ Subsequence rule.sequence (allowed p actions)
forbidden_never_allowed p rule actions here gaps some_op strict start fits =
    subst (λ h. ¬ Subsequence rule.sequence (h ++ allowed p actions)) start
      (history_free rule p.sequence_rules p.history_limit here gaps some_op strict p actions refl
        refl (rw start (omega arith)) (rw start (free_at_start rule.sequence some_op)))

evaluate-bound :
    (p : PolicyEngine) (a : Action)
    → length p.history ≤ p.history_limit
    → (length (evaluate p a).1.history ≤ p.history_limit)
      × ((evaluate p a).1.history_limit ≡ p.history_limit)
evaluate-bound p a h = elim (Passes-or_not p a) [
  | inl ps ↦
      rw ((evaluate-Passes p a).0 ps).1 (length-push p.history_limit p.history a.operation, refl)
  | inr np ↦ rw ((evaluate-Passes p a).1 np).0 (h, refl)
]

-- The history never outgrows its limit, whatever is evaluated.
pub history_bounded :
    (p : PolicyEngine) (actions : List Action)
    → length p.history ≤ p.history_limit
    → length (engine_after p actions).history ≤ p.history_limit
unfolding engine_after
history_bounded p [] h = h
history_bounded p (a ∷ actions) h =
    let (b, e) = evaluate-bound p a h in rw e at (history_bounded (evaluate p a).1 actions (rw e b))
