-- ===== src/EvidenceChain/Links.antt =====
-- What `verify` asks of each node of a chain of evidence.
use agent_containment.Base.{
  ℕ, ◌+◌, ◌≡◌, ◌↔◌, String, false, List, ◌∷◌, ok, contains, arith, eq_iff, eq_refl,
}
use agent_containment.EvidenceChain.{EvidenceBody, EvidenceNode, body_of, verify_from}

module _ {P : Type 0} (hash : EvidenceBody P → String) where
  -- What the loop of `verify` asks of one node.
  abbrev pub Fits : ℕ → String → List String → EvidenceNode P → Type 0
  Fits i previous seen n =
      (n.sequence ≡ i)
      × (contains n.event_id seen ≡ false)
      × (n.previous_hash ≡ previous)
      × (n.node_hash ≡ hash (body_of n))

  pub verify_from-next :
      (i : ℕ) (previous : String) (seen : List String) (n : EvidenceNode P)
      (ns : List (EvidenceNode P))
      → (verify_from hash i previous seen (n ∷ ns) ≡ ok tt) ↔ (
          Fits i previous seen n
          × (verify_from hash (i + 1) n.node_hash (n.event_id ∷ seen) ns ≡ ok tt))
  unfolding verify_from
  verify_from-next i previous seen n ns = (
    ground (arith, eq_iff n.previous_hash previous, eq_iff n.node_hash (hash (body_of n))),
    ground (arith, eq_refl previous, eq_refl (hash (body_of n))),
  )
