-- ===== src/EvidenceChain/Append.antt =====
-- Appending to the chain of evidence.
use agent_containment.Base.{
  ℕ, ◌+◌, ◌≡◌, ◌≢◌, refl, sym, ap, ◌⊎◌, inl, inr, String, false, ◌||◌, Option, none, List, [], ◌∷◌,
  ◌++◌, Result, ok, raised, Exc, contains, arith, eq_iff, Option-cases,
}
use agent_containment.Base.Lists.{length}
use agent_containment.EvidenceChain.Links.{Fits, verify_from-next}
use agent_containment.EvidenceChain.{
  EvidenceBody, EvidenceNode, Event, genesis, head_from, head_hash, event_ids, refusal, node_for,
  append_frozen, append, verify_from, verify,
}

contains-append :
    (s : String) (xs ys : List String) → contains s (xs ++ ys) ≡ (contains s xs || contains s ys)
unfolding contains
contains-append s [] ys = refl
contains-append s (x ∷ xs) ys = ground (arith, contains-append s xs ys)

module _ {P : Type 0} (hash : EvidenceBody P → String) where
  -- A chain that verifies still does when a node that fits is put at its end.
  verify_from-append :
      (i : ℕ) (previous : String) (seen : List String) (ns : List (EvidenceNode P))
      (n : EvidenceNode P)
      → verify_from hash i previous seen ns ≡ ok tt
      → Fits hash (i + length ns) (head_from previous ns) (event_ids ns) n
      → contains n.event_id seen ≡ false
      → verify_from hash i previous seen (ns ++ (n ∷ [])) ≡ ok tt
  unfolding verify_from head_from event_ids contains
  verify_from-append i previous seen [] n v (q, _, p, h) t =
      (verify_from-next hash i previous seen n []).1 ((omega arith, t, p, h), refl)
  verify_from-append i previous seen (m ∷ ms) n v (q, s, p, h) t =
      let (fits, rest) = (verify_from-next hash i previous seen m ms).0 v in
      (verify_from-next hash i previous seen m (ms ++ (n ∷ []))).1 (
        fits,
        verify_from-append (i + 1) m.node_hash (m.event_id ∷ seen) ms n rest
            (omega arith, ground arith, p, h) (ground (arith, eq_iff m.event_id n.event_id)),
      )

  -- The node that `append` makes fits at the end.
  node_for-Fits :
      (e : Event P) (payload : P) (nodes : List (EvidenceNode P))
      → refusal e nodes ≡ none
      → Fits hash
          (0 + length nodes)
          (head_hash nodes)
          (event_ids nodes)
          (node_for hash e payload nodes)
  unfolding node_for refusal
  node_for-Fits e payload nodes r = ground arith

  -- The node has every field of the event, and its place in the chain.
  abbrev pub Tells : Event P → ℕ → EvidenceNode P → Type 0
  Tells e place n =
      (n.sequence ≡ place)
      × (n.event_id ≡ e.event_id)
      × (n.event_type ≡ e.event_type)
      × (n.timestamp ≡ e.timestamp)
      × (n.agent_id ≡ e.agent_id)
      × (n.incident_id ≡ e.incident_id)
      × (n.containment_epoch ≡ e.containment_epoch)

  node_for-payload :
      (e : Event P) (payload : P) (nodes : List (EvidenceNode P))
      → ((node_for hash e payload nodes).payload ≡ payload)
        × Tells e (length nodes) (node_for hash e payload nodes)
  unfolding node_for
  node_for-payload e payload nodes = (refl, (refl, refl, refl, refl, refl, refl, refl))

  node_for-link :
      (e : Event P) (payload : P) (nodes : List (EvidenceNode P))
      → (node_for hash e payload nodes).previous_hash ≡ head_hash nodes
  unfolding node_for
  node_for-link e payload nodes = refl

  append-accepted :
      (freeze : Option P → Result P) (e : Event P) (nodes : List (EvidenceNode P))
      → refusal e nodes ≡ none
      → append hash freeze e nodes ≡ append_frozen hash e nodes (freeze e.payload)
  unfolding append
  append-accepted freeze e nodes r = rw (r, append) refl

  -- What became of appending an event to some nodes, where freezing its payload gave `f`.
  abbrev pub Appended :
      Event P
      → List (EvidenceNode P)
      → Result P
      → Result (EvidenceNode P) × List (EvidenceNode P)
      → Type 0
  Appended e nodes f (reply, nodes') =
      ((n : EvidenceNode P) × (refusal e nodes ≡ none)
        × (f ≡ ok n.payload)
        × (reply ≡ ok n)
        × (nodes' ≡ nodes ++ (n ∷ []))
        × Tells e (length nodes) n
        × (n.previous_hash ≡ head_hash nodes)
        × (verify hash nodes' ≡ ok tt))
      ⊎ ((x : Exc) × ((refusal e nodes ≢ none) ⊎ (f ≡ raised x))
          × (reply ≡ raised x)
          × (nodes' ≡ nodes))

  append_frozen-Appended :
      (e : Event P) (nodes : List (EvidenceNode P)) (f : Result P)
      → verify hash nodes ≡ ok tt
      → refusal e nodes ≡ none
      → Appended e nodes f (append_frozen hash e nodes f)
  unfolding append_frozen verify head_hash contains
  append_frozen-Appended e nodes (raised x) v r = inr (x, inr refl, refl, refl)
  append_frozen-Appended e nodes (ok payload) v r = inl (
    node_for hash e payload nodes,
    r,
    ap (λ q. ok q) (sym (node_for-payload e payload nodes).0),
    refl,
    refl,
    (node_for-payload e payload nodes).1,
    node_for-link e payload nodes,
    verify_from-append 0 genesis [] nodes (node_for hash e payload nodes) v
        (node_for-Fits e payload nodes r) refl,
  )

  -- An event that the guards accept and whose payload JSON takes is appended: the node that is
  -- returned is the new end; it has each field of the event, the frozen payload, its place and the
  -- hash of the node before it; and a chain that verified verifies again. Any other event raises, and
  -- the chain is as it was.
  pub append-Appended :
      (freeze : Option P → Result P) (e : Event P) (nodes : List (EvidenceNode P))
      → verify hash nodes ≡ ok tt
      → Appended e nodes (freeze e.payload) (append hash freeze e nodes)
  unfolding append
  append-Appended freeze e nodes v = elim (Option-cases (refusal e nodes)) [
    | inr (m, r) ↦ rw (r, append) (inr (_, inl (λ f. cc f), refl, refl))
    | inl r ↦
        rw (append-accepted freeze e nodes r)
          (append_frozen-Appended e nodes (freeze e.payload) v r)
  ]
