-- ===== src/EvidenceChain.antt =====
-- src/agent_containment/evidence_chain.py: the hash-linked chain of incident evidence. `P` is a
-- payload; what reading back its canonical JSON gives, and the SHA-256 of the canonical JSON of a
-- node's body and of a snapshot, are parameters. Times are integers here.
pub mod Links
pub mod Append
pub mod Tamper
mod Tests
use agent_containment.Base.{
  ℕ, ◌+◌, String, Bool, true, false, ◌||◌, not, Option, none, some, List, [], ◌∷◌, ◌++◌,
  if◌then◌else◌, ◌==◌, ◌=s◌, is_empty, contains, ℤ, pos, negsuc, Result, ok, raised, raise,
  value_error, concat, decimal,
}
use agent_containment.Base.Lists.{length}

abbrev pub schema : String
schema = "agent-containment/evidence-chain/v1"

-- GENESIS
abbrev pub genesis : String
genesis = "0000000000000000000000000000000000000000000000000000000000000000"

-- What a node commits to.
pub record EvidenceBody (P : Type 0) : Type 0 where
  pub schema : String
  pub sequence : ℕ
  pub event_id : String
  pub event_type : String
  pub timestamp : ℤ
  pub agent_id : String
  pub incident_id : Option String
  pub containment_epoch : Option ℤ
  pub payload : P
  pub previous_hash : String

pub record EvidenceNode (P : Type 0) : Type 0 where
  pub sequence : ℕ
  pub event_id : String
  pub event_type : String
  pub timestamp : ℤ
  pub agent_id : String
  pub incident_id : Option String
  pub containment_epoch : Option ℤ
  pub payload : P
  pub previous_hash : String
  pub node_hash : String

-- The arguments of `append`.
pub record Event (P : Type 0) : Type 0 where
  pub event_id : String
  pub event_type : String
  pub timestamp : ℤ
  pub agent_id : String
  pub incident_id : Option String
  pub containment_epoch : Option ℤ
  pub payload : Option P

abbrev is_negative : ℤ → Bool
is_negative (pos _) = false
is_negative (negsuc _) = true

abbrev negative_epoch : Option ℤ → Bool
negative_epoch none = false
negative_epoch (some e) = is_negative e

module _ {P : Type 0} where
  -- The body that `_node_hash` hashes.
  abbrev pub body_of : EvidenceNode P → EvidenceBody P
  body_of n = record {
    schema = schema;
    sequence = n.sequence;
    event_id = n.event_id;
    event_type = n.event_type;
    timestamp = n.timestamp;
    agent_id = n.agent_id;
    incident_id = n.incident_id;
    containment_epoch = n.containment_epoch;
    payload = n.payload;
    previous_hash = n.previous_hash;
  }

  -- `EvidenceNode.to_dict`: the body and the hash.
  unfoldable pub to_dict : EvidenceNode P → EvidenceBody P × String
  to_dict n = (body_of n, n.node_hash)

  -- The hash of the last node, or what there is for the first to link to.
  unfoldable pub head_from : String → List (EvidenceNode P) → String
  head_from previous [] = previous
  head_from previous (n ∷ ns) = head_from n.node_hash ns

  unfoldable pub head_hash : List (EvidenceNode P) → String
  unfolding head_from
  head_hash nodes = head_from genesis nodes

  unfoldable pub event_ids : List (EvidenceNode P) → List String
  event_ids [] = []
  event_ids (n ∷ ns) = n.event_id ∷ event_ids ns

  -- The guards of `append`, in their order.
  unfoldable pub refusal : Event P → List (EvidenceNode P) → Option String
  unfolding event_ids
  refusal e nodes =
      if is_empty e.event_id || (is_empty e.event_type || is_empty e.agent_id)
      then some "event_id, event_type, and agent_id must be non-empty"
      else if is_negative e.timestamp
      then some "timestamp must be non-negative"
      else if negative_epoch e.containment_epoch
      then some "containment_epoch must be non-negative"
      else if contains e.event_id (event_ids nodes)
      then some (concat ("duplicate evidence event_id: " ∷ e.event_id ∷ []))
      else none

  -- The node of an event whose payload is frozen, on the nodes before it.
  unfoldable pub node_for :
      (EvidenceBody P → String) → Event P → P → List (EvidenceNode P) → EvidenceNode P
  unfolding head_hash
  node_for hash e payload nodes = record {
    sequence = length nodes;
    event_id = e.event_id;
    event_type = e.event_type;
    timestamp = e.timestamp;
    agent_id = e.agent_id;
    incident_id = e.incident_id;
    containment_epoch = e.containment_epoch;
    payload = payload;
    previous_hash = head_hash nodes;
    node_hash = hash (record {
      schema = schema;
      sequence = length nodes;
      event_id = e.event_id;
      event_type = e.event_type;
      timestamp = e.timestamp;
      agent_id = e.agent_id;
      incident_id = e.incident_id;
      containment_epoch = e.containment_epoch;
      payload = payload;
      previous_hash = head_hash nodes;
    });
  }

  unfoldable pub append_frozen :
      (EvidenceBody P → String)
      → Event P
      → List (EvidenceNode P)
      → Result P
      → Result (EvidenceNode P) × List (EvidenceNode P)
  unfolding node_for
  append_frozen hash e nodes (raised x) = (raised x, nodes)
  append_frozen hash e nodes (ok payload) =
      (ok (node_for hash e payload nodes), nodes ++ (node_for hash e payload nodes ∷ []))

  -- `freeze` reads back the canonical JSON of a payload, where none is the empty one; JSON may
  -- refuse a value.
  unfoldable pub append :
      (EvidenceBody P → String)
      → (Option P → Result P)
      → Event P
      → List (EvidenceNode P)
      → Result (EvidenceNode P) × List (EvidenceNode P)
  unfolding refusal append_frozen
  append hash freeze e nodes = elim (refusal e nodes) [
    | some message ↦ (raise value_error message, nodes)
    | none ↦ append_frozen hash e nodes (freeze e.payload)
  ]

  -- The loop of `verify`.
  unfoldable pub verify_from :
      (EvidenceBody P → String)
      → ℕ
      → String
      → List String
      → List (EvidenceNode P)
      → Result (Unit {0})
  verify_from hash expected previous seen [] = ok tt
  verify_from hash expected previous seen (n ∷ ns) =
      let rest = verify_from hash (expected + 1) n.node_hash (n.event_id ∷ seen) ns in
      if not (n.sequence == expected)
      then raise value_error "evidence sequence is not contiguous"
      else if contains n.event_id seen
      then raise value_error (concat ("duplicate evidence event_id: " ∷ n.event_id ∷ []))
      else if not (n.previous_hash =s previous)
      then raise value_error
          (concat ("evidence link broken at sequence " ∷ decimal n.sequence ∷ []))
      else if not (n.node_hash =s hash (body_of n))
      then raise value_error
          (concat ("evidence node mutated at sequence " ∷ decimal n.sequence ∷ []))
      else rest

  unfoldable pub verify : (EvidenceBody P → String) → List (EvidenceNode P) → Result (Unit {0})
  unfolding verify_from
  verify hash nodes = verify_from hash 0 genesis [] nodes

  reloaded :
      (EvidenceBody P × String → Result (EvidenceBody P × String))
      → List (EvidenceNode P)
      → Result (List (EvidenceBody P × String))
  unfolding to_dict
  reloaded reload [] = ok []
  reloaded reload (n ∷ ns) = both (reload (to_dict n)) (reloaded reload ns)
    where
      both :
          Result (EvidenceBody P × String)
          → Result (List (EvidenceBody P × String))
          → Result (List (EvidenceBody P × String))
      both (raised x) rest = raised x
      both (ok d) (raised x) = raised x
      both (ok d) (ok ds) = ok (d ∷ ds)

  -- `snapshot`: `reload` reads back the canonical JSON of a node.
  unfoldable pub snapshot :
      (EvidenceBody P → String)
      → (EvidenceBody P × String → Result (EvidenceBody P × String))
      → List (EvidenceNode P)
      → Result (List (EvidenceBody P × String))
  unfolding verify reloaded
  snapshot hash reload nodes = elim (verify hash nodes) [
    | raised x ↦ raised x
    | ok _ ↦ reloaded reload nodes
  ]

  unfoldable pub digest :
      (EvidenceBody P → String)
      → (EvidenceBody P × String → Result (EvidenceBody P × String))
      → (List (EvidenceBody P × String) → String)
      → List (EvidenceNode P)
      → Result String
  unfolding snapshot
  digest hash reload seal nodes = elim (verify hash nodes) [
    | raised x ↦ raised x
    | ok _ ↦ elim (snapshot hash reload nodes) [ raised x ↦ raised x | ok s ↦ ok (seal s) ]
  ]
