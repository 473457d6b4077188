-- ===== src/ProofReceipt/Tests.antt =====
-- Receipts at concrete inputs.
use agent_containment.Base.{◌≡◌, refl, String, true, false, [], ◌∷◌, some, ok, contains}
use agent_containment.Base.Dict.{Dict, lookup, insert}
use agent_containment.AuditLog.{Json}
use agent_containment.ProofReceipt.{
  ProofReceipt, ReceiptVerifier, to_dict, from_dict, issue, verify,
}
use agent_containment.ProofReceipt.Replay.{issue-authentic, run, replay_refused}

abbrev toy_sha : Dict Json → String
toy_sha p = "digest"

abbrev toy_mac : String → Dict Json → String
toy_mac secret p = "signature"

abbrev payload : Dict Json
payload = ("agent_id", Json.text "a") ∷ []

abbrev receipt : ProofReceipt
receipt = record {
  payload = ("agent_id", Json.text "a") ∷ ("receipt_id", Json.text "u1") ∷ [];
  digest = "digest";
  signature = "signature";
}

receipt_issued : issue toy_sha toy_mac "u1" payload "key" ≡ ok receipt
unfolding issue lookup insert
receipt_issued = refl

receipt_returns : from_dict (to_dict receipt) ≡ ok receipt
receipt_returns =
    (issue-authentic toy_sha toy_mac "u1" "key" payload receipt (λ p. refl) (λ p. refl)
      receipt_issued).0

abbrev verifier : ReceiptVerifier
verifier = record { secret = "key"; seen_ids = [] }

receipt_id : lookup "receipt_id" receipt.payload ≡ some (Json.text "u1")
unfolding lookup
receipt_id = refl

receipt_accepted : (verify toy_sha toy_mac true receipt verifier).0 ≡ true
unfolding verify lookup contains
receipt_accepted = refl

replay_refused_example :
    (verify toy_sha toy_mac true receipt (
      run toy_sha toy_mac
        ((false, receipt) ∷ [])
        (verify toy_sha toy_mac true receipt verifier).1)).0
    ≡ false
replay_refused_example =
    replay_refused toy_sha toy_mac receipt receipt verifier ((false, receipt) ∷ []) "u1" receipt_id
      receipt_id receipt_accepted
