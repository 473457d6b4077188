-- ===== src/EvidenceChain/Tamper.antt =====
-- That the head of a chain of evidence commits to all of it.
use mathlib.Core.List.{Memᴰ}
use agent_containment.Base.{
  ℕ, suc, ◌+◌, ◌≡◌, ◌≢◌, refl, sym, ap, ◌∙◌, String, List, [], ◌∷◌, ok, arith,
}
use agent_containment.Base.Lists.{length}
use agent_containment.EvidenceChain.Links.{verify_from-next}
use agent_containment.EvidenceChain.{
  EvidenceBody, EvidenceNode, genesis, body_of, head_from, head_hash, verify_from, verify,
}

module _ {P : Type 0} (hash : EvidenceBody P → String) where
  -- No two nodes of the chains have different bodies with the same hash.
  abbrev pub CollisionFree : List (EvidenceNode P) → List (EvidenceNode P) → Type 0
  CollisionFree xs ys =
      (a b : EvidenceNode P)
      → Memᴰ a xs
      → Memᴰ b ys
      → hash (body_of a) ≡ hash (body_of b)
      → body_of a ≡ body_of b

  -- No node of the chain hashes to what stands before the first.
  abbrev pub NeverGenesis : List (EvidenceNode P) → Type 0
  NeverGenesis xs = (a : EvidenceNode P) → Memᴰ a xs → hash (body_of a) ≢ genesis

  -- The last node of a chain that verifies is the head, and its number says how long the chain is.
  verify_from-last :
      (i : ℕ) (previous : String) (seen : List String) (n : EvidenceNode P)
      (ns : List (EvidenceNode P))
      → verify_from hash i previous seen (n ∷ ns) ≡ ok tt
      → (b : EvidenceNode P) × Memᴰ b (n ∷ ns)
        × (head_from previous (n ∷ ns) ≡ hash (body_of b))
        × (suc b.sequence ≡ i + length (n ∷ ns))
  unfolding head_from
  verify_from-last i previous seen n [] v =
      let ((q, _, _, h), _) = (verify_from-next hash i previous seen n []).0 v in
      (n, Memᴰ.head refl, h, omega (arith, q))
  verify_from-last i previous seen n (m ∷ ms) v =
      let (_, rest) = (verify_from-next hash i previous seen n (m ∷ ms)).0 v in
      let (b, mem, h, q) = verify_from-last (i + 1) n.node_hash (n.event_id ∷ seen) m ms rest in
      (b, Memᴰ.tail mem, h, omega (arith, q))

  abbrev node_of : EvidenceBody P → String → EvidenceNode P
  node_of b h = record {
    sequence = b.sequence;
    event_id = b.event_id;
    event_type = b.event_type;
    timestamp = b.timestamp;
    agent_id = b.agent_id;
    incident_id = b.incident_id;
    containment_epoch = b.containment_epoch;
    payload = b.payload;
    previous_hash = b.previous_hash;
    node_hash = h;
  }

  node-body : (a b : EvidenceNode P) → body_of a ≡ body_of b → a.node_hash ≡ b.node_hash → a ≡ b
  node-body a b e h = ap (λ x. node_of x a.node_hash) e ∙ ap (λ x. node_of (body_of b) x) h

  -- Chains of one length with the same head are the same.
  same_from :
      (i : ℕ) (p q : String) (seen seen' : List String) (xs ys : List (EvidenceNode P))
      → verify_from hash i p seen xs ≡ ok tt
      → verify_from hash i q seen' ys ≡ ok tt
      → CollisionFree xs ys
      → length xs ≡ length ys
      → head_from p xs ≡ head_from q ys
      → (p ≡ q) × (xs ≡ ys)
  unfolding head_from
  same_from i p q seen seen' [] [] v w c l h = (h, refl)
  same_from i p q seen seen' [] (y ∷ ys) v w c l h = absurd (omega (arith, l))
  same_from i p q seen seen' (x ∷ xs) [] v w c l h = absurd (omega (arith, l))
  same_from i p q seen seen' (x ∷ xs) (y ∷ ys) v w c l h =
      let ((_, _, px, hx), v') = (verify_from-next hash i p seen x xs).0 v in
      let ((_, _, py, hy), w') = (verify_from-next hash i q seen' y ys).0 w in
      let (e, rest) =
        same_from (i + 1) x.node_hash y.node_hash (x.event_id ∷ seen) (y.event_id ∷ seen') xs ys v'
          w' (λ a b m n. c a b (Memᴰ.tail m) (Memᴰ.tail n)) (omega (arith, l)) h in
      let bodies = c x y (Memᴰ.head refl) (Memᴰ.head refl) (sym hx ∙ e ∙ hy) in
      (sym px ∙ ap (λ b. b.previous_hash) bodies ∙ py, cc (node-body x y bodies e, rest))

  -- Two chains that verify and have the same head are the same, node for node, if no two different
  -- bodies among them have the same hash and none has the hash GENESIS: whoever keeps the head hash
  -- notices every insertion, deletion, reordering and change.
  pub head-Commits :
      (xs ys : List (EvidenceNode P))
      → CollisionFree xs ys
      → NeverGenesis xs
      → NeverGenesis ys
      → verify hash xs ≡ ok tt
      → verify hash ys ≡ ok tt
      → head_hash xs ≡ head_hash ys
      → xs ≡ ys
  unfolding verify head_hash head_from
  head-Commits [] [] c g k v w h = refl
  head-Commits [] (y ∷ ys) c g k v w h =
      let (b, mem, e, _) = verify_from-last 0 genesis [] y ys w in absurd (k b mem (sym (h ∙ e)))
  head-Commits (x ∷ xs) [] c g k v w h =
      let (b, mem, e, _) = verify_from-last 0 genesis [] x xs v in absurd (g b mem (sym e ∙ h))
  head-Commits (x ∷ xs) (y ∷ ys) c g k v w h =
      let (a, m, e, q) = verify_from-last 0 genesis [] x xs v in
      let (b, n, f, r) = verify_from-last 0 genesis [] y ys w in
      let bodies = c a b m n (sym e ∙ h ∙ f) in
      (same_from 0 genesis genesis [] [] (x ∷ xs) (y ∷ ys) v w c
        (omega (arith, q, r, ap (λ b. b.sequence) bodies)) h).1
