-- ===== src/Incidents/Tests.antt =====
-- Concrete incidents: tests, and each theorem about incidents at an input that meets its
-- hypotheses.
use agent_containment.Base.{◌≡◌, refl, true, false, none, some, List, [], ◌∷◌, pos, ok, is_ok}
use agent_containment.Base.Dict.{insert, lookup}
use agent_containment.Durable.{missing, payload, open_registry, commit, values}
use agent_containment.Incidents.{
  IncidentRegistry, IncidentRecord, contained, recovered, open_incidents, record_containment,
  mark_recovered, attach_proof, degraded, mark_proof_degraded, get,
}
use agent_containment.Incidents.Changes.{
  Call, call, record_call, recover_call, attach_call, degrade_call,
}
use agent_containment.Incidents.Lifecycle.{Does, call-Does}
use agent_containment.Incidents.Restart.{IsValid, run, restart, restart-run_calls}

abbrev incident : IncidentRecord
incident = record {
  incident_id = "i";
  agent_id = "a";
  state = contained;
  containment_epoch = 1;
  created_at = 10;
  proof_attached = false;
  proof_reference = none;
  reason = none;
  proof_degraded_reason = none;
  recovery_epoch = none;
}

abbrev empty : IncidentRegistry
empty = record { has_path = true; records = []; file = missing }

abbrev one : IncidentRegistry
one = record { has_path = true; records = ("i", incident) ∷ []; file = payload (incident ∷ []) }

recorded : record_containment none 10 "i" "a" (pos 1) none empty ≡ (ok incident, one)
unfolding record_containment lookup commit insert values
recorded = refl

empty-IsValid : IsValid empty
unfolding open_incidents open_registry get lookup
empty-IsValid = record { keyed = tt; on_path = refl; synced = refl; epochs = λ i r h _. cc }

abbrev calls : List Call
calls =
    record_call none 10 "i" "a" (pos 1) none
    ∷ attach_call none "i" "proof.json"
    ∷ recover_call none "i"
    ∷ []

abbrev after : IncidentRecord
after = record incident {
  state = recovered;
  proof_attached = true;
  proof_reference = some "proof.json";
  recovery_epoch = some 2;
}

-- A recovered incident cannot be recovered again, unless its proof was degraded in between.
again :
    (is_ok (call (recover_call none "i") (run empty calls)).0 ≡ false)
    × (is_ok
          (call (recover_call none "i") (call (degrade_call none "i" "late") (run empty calls)).1).0
        ≡ true)
unfolding run call record_containment attach_proof mark_recovered mark_proof_degraded degraded
    lookup commit insert
again = (refl, refl)

restart-run_calls_example : restart (run empty calls) ≡ ok (run empty calls)
restart-run_calls_example = restart-run_calls empty calls empty-IsValid

call-Does_example : Does (recover_call none "i") one (call (recover_call none "i") one)
call-Does_example = call-Does (recover_call none "i") one
