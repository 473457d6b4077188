-- ===== src/Incidents/Changes.antt =====
-- The operations on incidents as data, and the change that each is meant to make.
use agent_containment.Base.{
  ◌+◌, ℕ, ◌≡◌, ◌≢◌, ◌⊎◌, String, true, false, Option, none, some, Exc, Result, ℤ, pos, is_empty,
}
use agent_containment.Incidents.{
  IncidentRecord, IncidentRegistry, contained, recovered, proof_degraded, record_containment,
  mark_proof_degraded, restore_contained, mark_recovered, attach_proof, get,
}

-- The operations that write, with their arguments and the failure of their write.
pub data Call : Type 0 where
  record_call : Option Exc → ℕ → String → String → ℤ → Option String → Call
  degrade_call : Option Exc → String → String → Call
  restore_call : Option Exc → String → Call
  recover_call : Option Exc → String → Call
  attach_call : Option Exc → String → String → Call

unfoldable pub call : Call → IncidentRegistry → Result IncidentRecord × IncidentRegistry
call (record_call x now i a e reason) s = record_containment x now i a e reason s
call (degrade_call x i reason) s = mark_proof_degraded x i reason s
call (restore_call x i) s = restore_contained x i s
call (recover_call x i) s = mark_recovered x i s
call (attach_call x i reference) s = attach_proof x i reference s

-- The incident that a call names.
abbrev pub target : Call → String
target (record_call x now i a e reason) = i
target (degrade_call x i reason) = i
target (restore_call x i) = i
target (recover_call x i) = i
target (attach_call x i reference) = i

-- The failure of a call's write.
abbrev pub failure_of : Call → Option Exc
failure_of (record_call x now i a e reason) = x
failure_of (degrade_call x i reason) = x
failure_of (restore_call x i) = x
failure_of (recover_call x i) = x
failure_of (attach_call x i reference) = x

-- The change that each operation is meant to make of the record that it names, from what stood under
-- the name to what the call returns. Where its conditions fail there is none.
abbrev pub Change : Call → Option IncidentRecord → IncidentRecord → Type 0
Change (record_call x now i a e reason) old new =
    (n : ℕ) × (e ≡ pos n)
    × (old ≡ none)
    × (is_empty i ≡ false)
    × (is_empty a ≡ false)
    × (new ≡ record {
      incident_id = i;
      agent_id = a;
      state = contained;
      containment_epoch = n;
      created_at = now;
      proof_attached = false;
      proof_reference = none;
      reason = reason;
      proof_degraded_reason = none;
      recovery_epoch = none;
    })
Change (degrade_call x i reason) old new =
    (r : IncidentRecord) × (old ≡ some r)
    × (is_empty reason ≡ false)
    × (new ≡ record r {
      state = proof_degraded;
      proof_attached = false;
      proof_reference = none;
      proof_degraded_reason = some reason;
    })
Change (restore_call x i) old new =
    (r : IncidentRecord) × (old ≡ some r)
    × (r.state ≡ recovered)
    × (new ≡ record r { state = contained })
Change (recover_call x i) old new =
    (r : IncidentRecord) × (old ≡ some r)
    × ((r.state ≡ contained) ⊎ (r.state ≡ proof_degraded))
    × (new ≡ record r { state = recovered; recovery_epoch = some (r.containment_epoch + 1) })
Change (attach_call x i reference) old new =
    (r : IncidentRecord) × (old ≡ some r)
    × (is_empty reference ≡ false)
    × (r.state ≢ recovered)
    × (new
        ≡ record r { state = contained; proof_attached = true; proof_reference = some reference })

abbrev pub Impossible : Call → IncidentRegistry → Type 0
Impossible c s = (new : IncidentRecord) → ¬ Change c (get (target c) s) new
