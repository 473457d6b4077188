-- ===== src/ProofReceipt/Replay.antt =====
-- That a receipt survives the way through a document, and is accepted once.
use mathlib.Core.Path.{subst}
use agent_containment.Base.{
  ◌≡◌, refl, String, Bool, true, false, some, List, [], ◌∷◌, ok, ok-injective, arith, Bool-cases,
  inl, inr, is_empty, contains, eq_refl,
}
use agent_containment.Base.Dict.{Dict, lookup}
use agent_containment.AuditLog.{Json}
use agent_containment.ProofReceipt.{
  ProofReceipt, ReceiptVerifier, no_fields, with_id, to_dict, from_dict, envelope, keys_of,
  only_required, receipt_of, issue, authentic, check_id, verify,
}

from_dict-to_dict :
    (r : ProofReceipt)
    → is_empty r.digest ≡ false
    → is_empty r.signature ≡ false
    → from_dict (to_dict r) ≡ ok r
unfolding from_dict to_dict envelope keys_of only_required receipt_of lookup contains
from_dict-to_dict r d s = ground (arith, d, s)

module _ (sha : Dict Json → String) (mac : String → Dict Json → String) where
  abbrev issued : String → String → Dict Json → ProofReceipt
  issued uuid secret payload = record {
    payload = with_id uuid payload;
    digest = sha (with_id uuid payload);
    signature = mac secret (with_id uuid payload);
  }

  issue-Issued :
      (uuid secret : String) (payload : Dict Json) (r : ProofReceipt)
      → issue sha mac uuid payload secret ≡ ok r
      → (issued uuid secret payload ≡ r) × (is_empty secret ≡ false)
  unfolding issue
  issue-Issued uuid secret payload r h = elim (Bool-cases (no_fields payload)) [
    | inl y ↦ cc (rw (y, issue) at h)
    | inr f ↦ elim (Bool-cases (is_empty secret)) [
      | inl y ↦ cc (rw (f, issue, y) at h)
      | inr g ↦ (ok-injective (rw (f, issue, g) at h), g)
    ]
  ]

  -- A receipt that was issued, sent as a document and read again is the same, and it is authentic
  -- under the secret, if no digest and no signature is the empty text.
  pub issue-authentic :
      (uuid secret : String) (payload : Dict Json) (r : ProofReceipt)
      → ((p : Dict Json) → is_empty (sha p) ≡ false)
      → ((p : Dict Json) → is_empty (mac secret p) ≡ false)
      → issue sha mac uuid payload secret ≡ ok r
      → (from_dict (to_dict r) ≡ ok r) × (authentic sha mac secret r ≡ true)
  unfolding issue authentic
  issue-authentic uuid secret payload r d s h =
      let (e, n) = issue-Issued uuid secret payload r h in
      subst (λ q. (from_dict (to_dict q) ≡ ok q) × (authentic sha mac secret q ≡ true)) e
        (
          from_dict-to_dict (issued uuid secret payload) (d (with_id uuid payload))
              (s (with_id uuid payload)),
          rw (n, eq_refl (sha (with_id uuid payload)), eq_refl (mac secret (with_id uuid payload)))
              refl,
        )

  abbrev Sees : String → ReceiptVerifier → Type 0
  Sees id v = contains id v.seen_ids ≡ true

  verify-Sees :
      (flag : Bool) (r : ProofReceipt) (v : ReceiptVerifier) (id : String)
      → Sees id v
      → Sees id (verify sha mac flag r v).1
  unfolding verify check_id contains
  verify-Sees flag r v id h = ground (arith, h)

  -- The verifier after some calls.
  abbrev pub run : List (Bool × ProofReceipt) → ReceiptVerifier → ReceiptVerifier
  run [] v = v
  run ((flag, r) ∷ calls) v = run calls (verify sha mac flag r v).1

  run-Sees :
      (calls : List (Bool × ProofReceipt)) (v : ReceiptVerifier) (id : String)
      → Sees id v
      → Sees id (run calls v)
  run-Sees [] v id h = h
  run-Sees ((flag, r) ∷ calls) v id h =
      run-Sees calls (verify sha mac flag r v).1 id (verify-Sees flag r v id h)

  accepted-Sees :
      (r : ProofReceipt) (v : ReceiptVerifier) (id : String)
      → lookup "receipt_id" r.payload ≡ some (Json.text id)
      → (verify sha mac true r v).0 ≡ true
      → Sees id (verify sha mac true r v).1
  unfolding verify check_id contains
  accepted-Sees r v id e h = ground (arith, e, h, eq_refl id)

  seen-refused :
      (q : ProofReceipt) (v : ReceiptVerifier) (id : String)
      → lookup "receipt_id" q.payload ≡ some (Json.text id)
      → Sees id v
      → (verify sha mac true q v).0 ≡ false
  unfolding verify check_id
  seen-refused q v id e h = ground (arith, e, h)

  -- Once a receipt was accepted with replays rejected, every later receipt of the same id is refused
  -- where replays are rejected, whatever was verified in between.
  pub replay_refused :
      (r q : ProofReceipt) (v : ReceiptVerifier) (calls : List (Bool × ProofReceipt)) (id : String)
      → lookup "receipt_id" r.payload ≡ some (Json.text id)
      → lookup "receipt_id" q.payload ≡ some (Json.text id)
      → (verify sha mac true r v).0 ≡ true
      → (verify sha mac true q (run calls (verify sha mac true r v).1)).0 ≡ false
  unfolding verify check_id
  replay_refused r q v calls id e f h =
      let seen = run-Sees calls (verify sha mac true r v).1 id (accepted-Sees r v id e h) in
      seen-refused q (run calls (verify sha mac true r v).1) id f seen
