-- ===== src/ProofReceipt.antt =====
-- src/agent_containment/proof_receipt.py: signed receipts and the verifier that refuses replays. The
-- SHA-256 of canonical JSON and the HMAC of it under a secret are parameters, and `compare_digest` is
-- equality.
pub mod Replay
mod Tests
use agent_containment.Base.{
  String, Bool, true, false, ◌&&◌, ◌||◌, not, Option, none, some, List, [], ◌∷◌, if◌then◌else◌,
  ◌=s◌, is_empty, is_some, contains, Result, ok, raised, raise, value_error,
}
use agent_containment.Base.Dict.{Dict, lookup, insert}
use agent_containment.AuditLog.{Json}

pub record ProofReceipt : Type 0 where
  pub payload : Dict Json
  pub digest : String
  pub signature : String

-- A value of a document: a mapping, a text or something else.
pub data Field : Type 0 where
  mapping : Dict Json → Field
  text : String → Field
  other : Field

abbrev pub no_fields : Dict Json → Bool
no_fields [] = true
no_fields (_ ∷ _) = false

-- `payload.setdefault("receipt_id", str(uuid.uuid4()))`
unfoldable pub with_id : String → Dict Json → Dict Json
with_id uuid payload =
    if is_some (lookup "receipt_id" payload)
    then payload
    else insert "receipt_id" (Json.text uuid) payload

-- The keys of a document are exactly those that are required.
unfoldable pub keys_of : Dict Field → List String
keys_of [] = []
keys_of ((k, v) ∷ d) = k ∷ keys_of d

unfoldable pub only_required : List String → Bool
only_required [] = true
only_required (k ∷ ks) =
    let rest = only_required ks in contains k ("payload" ∷ "digest" ∷ "signature" ∷ []) && rest

unfoldable pub envelope : Dict Field → Bool
unfolding keys_of only_required
envelope d =
    only_required (keys_of d)
    && (is_some (lookup "payload" d)
        && (is_some (lookup "digest" d) && is_some (lookup "signature" d)))

-- `ProofReceipt.to_dict`
unfoldable pub to_dict : ProofReceipt → Dict Field
to_dict r =
    ("payload", Field.mapping r.payload)
    ∷ ("digest", Field.text r.digest)
    ∷ ("signature", Field.text r.signature)
    ∷ []

-- The checks of the three fields, in their order.
unfoldable pub receipt_of : Option Field → Option Field → Option Field → Result ProofReceipt
receipt_of (some (Field.mapping p)) (some (Field.text d)) (some (Field.text s)) =
    if is_empty d
    then raise value_error "receipt digest is invalid"
    else if is_empty s
    then raise value_error "receipt signature is invalid"
    else ok (record { payload = p; digest = d; signature = s })
receipt_of (some (Field.mapping p)) (some (Field.text d)) _ =
    if is_empty d
    then raise value_error "receipt digest is invalid"
    else raise value_error "receipt signature is invalid"
receipt_of (some (Field.mapping p)) _ _ = raise value_error "receipt digest is invalid"
receipt_of _ _ _ = raise value_error "receipt payload must be a mapping"

-- `ProofReceipt.from_dict`
unfoldable pub from_dict : Dict Field → Result ProofReceipt
unfolding envelope receipt_of
from_dict d =
    if not (envelope d)
    then raise value_error "receipt has an invalid envelope"
    else receipt_of (lookup "payload" d) (lookup "digest" d) (lookup "signature" d)

-- `ReceiptVerifier`, whose secret is not empty.
pub record ReceiptVerifier : Type 0 where
  pub secret : String
  pub seen_ids : List String

unfoldable pub new_verifier : String → Result ReceiptVerifier
new_verifier secret =
    if is_empty secret
    then raise value_error "receipt verification secret must be non-empty bytes"
    else ok (record { secret = secret; seen_ids = [] })

module _ (sha : Dict Json → String) (mac : String → Dict Json → String) where
  unfoldable pub issue : String → Dict Json → String → Result ProofReceipt
  unfolding with_id
  issue uuid payload secret =
      if no_fields payload
      then raise value_error "receipt payload must be a non-empty mapping"
      else if is_empty secret
      then raise value_error "receipt signing secret must be non-empty bytes"
      else ok (record {
        payload = with_id uuid payload;
        digest = sha (with_id uuid payload);
        signature = mac secret (with_id uuid payload);
      })

  -- `ProofReceipt.verify`
  unfoldable pub authentic : String → ProofReceipt → Bool
  authentic secret r =
      not (is_empty secret) && (r.digest =s sha r.payload && r.signature =s mac secret r.payload)

  -- What the verifier does with the id of an authentic receipt.
  unfoldable pub check_id : Option Json → ReceiptVerifier → Bool × ReceiptVerifier
  check_id none v = (true, v)
  check_id (some (Json.text id)) v =
      if is_empty id
      then (false, v)
      else if contains id v.seen_ids
      then (false, v)
      else (true, record v { seen_ids = id ∷ v.seen_ids })
  check_id (some Json.null) v = (true, v)
  check_id (some _) v = (false, v)

  -- `ReceiptVerifier.verify`
  unfoldable pub verify : Bool → ProofReceipt → ReceiptVerifier → Bool × ReceiptVerifier
  unfolding authentic check_id
  verify reject_replay r v =
      if not (authentic v.secret r)
      then (false, v)
      else if not reject_replay
      then (true, v)
      else check_id (lookup "receipt_id" r.payload) v
