-- ===== src/AuditLog/Tests.antt =====
-- The audit log at concrete inputs. In the toy codec a byte other than the newline is a line.
use agent_containment.Base.{
  ℕ, ◌≡◌, refl, String, false, none, some, List, [], ◌∷◌, Exc, ok, raised, raise, os_error,
  other_error, is_ok, concat, decimal, ◌==◌, if◌then◌else◌,
}
use agent_containment.Base.Lists.{length}
use agent_containment.Base.Dict.{Dict, lookup, insert, erase}
use agent_containment.AuditLog.{
  Json, Line, Bytes, File, Codec, genesis, Entry, interrupted, valid, malformed, verify,
  verify_lines, record_event, body_for, sealed,
}
use agent_containment.AuditLog.Recorded.{Recorded, working, ended}

abbrev toy_sha : Dict Json → String
toy_sha d = concat ("#" ∷ decimal (length d) ∷ [])

abbrev halted : Entry
halted = record {
  event_type = "containment";
  agent_id = "agent-1";
  action_id = none;
  decision = some "halt";
  reason = none;
  timestamp = none;
  fields = ("pid", Json.number 7) ∷ [];
}

abbrev first_event : Dict Json
first_event = sealed toy_sha (body_for 5 halted 0 (Json.text genesis))

abbrev second_event : Dict Json
second_event = sealed toy_sha (body_for 6 halted 1 (Json.text "#10"))

abbrev event_of : ℕ → Dict Json
event_of b = if b == 1 then first_event else second_event

toy_lines : Bytes → List Line
toy_lines [] = []
toy_lines (b ∷ bytes) =
    let rest = toy_lines bytes in if b == 10 then rest else Line.event_line (event_of b) ∷ rest

abbrev number_of : Dict Json → ℕ
number_of d = elim (lookup "sequence" d) [ some (Json.number n) ↦ n | _ ↦ 0 ]

abbrev toy : Codec
toy = record { dumps = λ d. number_of d ∷ []; read_lines = λ bytes. ok (toy_lines bytes) }

abbrev first : File
first = some (1 ∷ 10 ∷ [])

first_recorded : record_event toy_sha toy 5 working halted none ≡ (ok first_event, first)
unfolding record_event concat decimal lookup insert
first_recorded = refl

abbrev disk_full : Exc
disk_full = record { kind = os_error; message = "No space left on device" }

-- A file whose first line is the second event.
abbrev tampered : File
tampered = some (2 ∷ 10 ∷ [])

tampered_refused : is_ok (record_event toy_sha toy 6 working halted tampered).0 ≡ false
unfolding verify record_event concat decimal lookup insert erase toy_lines sealed body_for
tampered_refused = refl

-- A write that stops before its newline leaves a chain that verifies and a file that does not end in
-- a newline.
torn :
    let r =
      record_event toy_sha toy 5
        (record working { writing = interrupted disk_full 1 })
        halted
        none in
    (r ≡ (raised disk_full, some (1 ∷ [])))
    × (verify toy_sha toy none r.1 ≡ valid)
    × (ended (1 ∷ []) ≡ false)
unfolding record_event verify verify_lines concat decimal lookup insert erase toy_lines sealed
    body_for ended
torn = (refl, refl, refl)

-- A line that is a JSON number makes `verify` raise, where a list is reported as malformed.
scalar_raises :
    verify_lines toy_sha 1 genesis (Line.scalar_line ∷ [])
    ≡ raise (other_error "AttributeError") "object has no attribute 'pop'"
unfolding verify_lines
scalar_raises = refl

list_malformed : verify_lines toy_sha 1 genesis (Line.list_line ∷ []) ≡ malformed
unfolding verify_lines
list_malformed = refl
