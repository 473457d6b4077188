-- ===== src/EvidenceChain/Tests.antt =====
-- The chain of evidence at concrete inputs.
use mathlib.Core.List.{Memᴰ}
use agent_containment.Base.{
  ℕ, ◌≡◌, ◌≢◌, refl, sym, ap, ◌∙◌, String, Option, none, some, List, [], ◌∷◌, pos, Result, ok,
  is_ok, false, eq_iff, arith, concat, contains, ◌=s◌,
}
use agent_containment.EvidenceChain.{
  EvidenceBody, EvidenceNode, Event, genesis, body_of, append, verify,
}
use agent_containment.EvidenceChain.Append.{Appended, append-Appended}
use agent_containment.EvidenceChain.Tamper.{CollisionFree, NeverGenesis, head-Commits}

abbrev toy_hash : EvidenceBody ℕ → String
toy_hash b = concat ("#" ∷ b.event_id ∷ b.previous_hash ∷ [])

abbrev frozen : Option ℕ → Result ℕ
frozen none = ok 0
frozen (some n) = ok n

abbrev event_named : String → Event ℕ
event_named id = record {
  event_id = id;
  event_type = "containment_requested";
  timestamp = pos 10;
  agent_id = "agent-1";
  incident_id = none;
  containment_epoch = some (pos 1);
  payload = none;
}

abbrev one : List (EvidenceNode ℕ)
one =
    record {
      sequence = 0;
      event_id = "e1";
      event_type = "containment_requested";
      timestamp = pos 10;
      agent_id = "agent-1";
      incident_id = none;
      containment_epoch = some (pos 1);
      payload = 0;
      previous_hash = genesis;
      node_hash = concat ("#" ∷ "e1" ∷ genesis ∷ []);
    }
    ∷ []

one_appended : (append toy_hash frozen (event_named "e1") []).1 ≡ one
unfolding append concat contains
one_appended = refl

one_verifies : verify toy_hash one ≡ ok tt
unfolding verify concat contains
one_verifies = refl

duplicate : is_ok (append toy_hash frozen (event_named "e1") one).0 ≡ false
unfolding append concat contains
duplicate = refl

append-Appended_example :
    Appended toy_hash (event_named "e2") one (ok 0) (append toy_hash frozen (event_named "e2") one)
append-Appended_example = append-Appended toy_hash frozen (event_named "e2") one one_verifies

abbrev two : List (EvidenceNode ℕ)
two = (append toy_hash frozen (event_named "e2") one).1

abbrev body_hash : EvidenceNode ℕ → String
body_hash a = toy_hash (body_of a)

different : (s t : String) → (s =s t) ≡ false → s ≢ t
different s t f h = ground (arith, eq_iff s t)

two_verifies : verify toy_hash two ≡ ok tt
unfolding verify append concat contains
two_verifies = refl

two-CollisionFree : CollisionFree toy_hash two two
unfolding append concat contains
two-CollisionFree a b (Memᴰ.head e) (Memᴰ.head f) h = ap (λ n. body_of n) (e ∙ sym f)
two-CollisionFree a b (Memᴰ.head e) (Memᴰ.tail (Memᴰ.head f)) h =
    absurd (different _ _ refl (sym (ap body_hash e) ∙ h ∙ ap body_hash f))
two-CollisionFree a b (Memᴰ.tail (Memᴰ.head e)) (Memᴰ.head f) h =
    absurd (different _ _ refl (sym (ap body_hash e) ∙ h ∙ ap body_hash f))
two-CollisionFree a b (Memᴰ.tail (Memᴰ.head e)) (Memᴰ.tail (Memᴰ.head f)) h =
    ap (λ n. body_of n) (e ∙ sym f)
two-CollisionFree a b (Memᴰ.tail (Memᴰ.tail m)) _ h = elim m [ ]
two-CollisionFree a b _ (Memᴰ.tail (Memᴰ.tail n)) h = elim n [ ]

two-NeverGenesis : NeverGenesis toy_hash two
unfolding append concat contains
two-NeverGenesis a (Memᴰ.head e) h = different _ _ refl (sym (ap body_hash e) ∙ h)
two-NeverGenesis a (Memᴰ.tail (Memᴰ.head e)) h = different _ _ refl (sym (ap body_hash e) ∙ h)
two-NeverGenesis a (Memᴰ.tail (Memᴰ.tail m)) h = elim m [ ]

head-Commits_example : two ≡ two
head-Commits_example =
    head-Commits toy_hash two two two-CollisionFree two-NeverGenesis two-NeverGenesis two_verifies
      two_verifies refl
