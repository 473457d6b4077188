-- ===== src/Models.antt =====
-- src/agent_containment/models.py: actions and decisions. An action's metadata, which nothing
-- reads, and a decision's timestamp are left out.
use agent_containment.Base.{String, Bool, true, false, ℤ}

pub data DecisionType : Type 0 where
  allow deny pause halt contain : DecisionType

-- `DecisionType.value`
abbrev pub decision_value : DecisionType → String
decision_value allow = "allow"
decision_value deny = "deny"
decision_value pause = "pause"
decision_value halt = "halt"
decision_value contain = "contain"

abbrev pub is_allow : DecisionType → Bool
is_allow allow = true
is_allow _ = false

abbrev pub is_halt : DecisionType → Bool
is_halt halt = true
is_halt _ = false

abbrev pub is_pause : DecisionType → Bool
is_pause pause = true
is_pause _ = false

pub record Action : Type 0 where
  pub agent_id : String
  pub action_id : String
  pub operation : String
  pub resource : String
  pub risk : ℤ

pub record Decision : Type 0 where
  pub action_id : String
  pub decision : DecisionType
  pub reason : String
