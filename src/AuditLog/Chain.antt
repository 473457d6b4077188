-- ===== src/AuditLog/Chain.antt =====
-- `verify` of src/agent_containment/audit.py: the file of the audit log, and the chain of its lines.
use agent_containment.Base.{
  ℕ, ◌+◌, String, Bool, true, false, not, Option, none, some, List, [], ◌∷◌, ◌++◌, if◌then◌else◌,
  ◌==◌, ◌=s◌, Exc, Result, ok, raised, raise, other_error, is_os_error, concat, decimal,
}
use agent_containment.Base.Dict.{Dict, lookup, erase}

-- A value of an event; a list or an object in one is its text.
pub data Json : Type 0 where
  null : Json
  flag : Bool → Json
  number : ℕ → Json
  text : String → Json
  nested : String → Json

-- A line, as `json.loads` reads it.
pub data Line : Type 0 where
  blank not_json list_line scalar_line : Line
  event_line : Dict Json → Line

abbrev pub Bytes : Type 0
Bytes = List ℕ

abbrev pub File : Type 0
File = Option Bytes

-- `dumps` is `json.dumps` with the keys sorted, in UTF-8. `read_lines` decodes bytes, takes them apart
-- as `splitlines` does, and tells what `strip` and `json.loads` make of each line; decoding may raise.
pub record Codec : Type 0 where
  pub dumps : Dict Json → Bytes
  pub read_lines : Bytes → Result (List Line)

-- `json.dumps(event, ...) + "\n"`
unfoldable pub line_of : Codec → Dict Json → Bytes
line_of codec event = codec.dumps event ++ (10 ∷ [])

-- GENESIS
abbrev pub genesis : String
genesis = "0000000000000000000000000000000000000000000000000000000000000000"

-- `value == n`, where True is 1 and False is 0.
abbrev pub equals_number : Option Json → ℕ → Bool
equals_number (some (Json.number m)) n = m == n
equals_number (some (Json.flag true)) n = 1 == n
equals_number (some (Json.flag false)) n = 0 == n
equals_number _ n = false

abbrev pub equals_text : Option Json → String → Bool
equals_text (some (Json.text s)) t = s =s t
equals_text _ t = false

abbrev pub malformed : Result (Bool × String)
malformed = ok (false, "malformed audit log")

abbrev pub valid : Result (Bool × String)
valid = ok (true, "audit chain valid")

-- What the loop of `verify` does with an event without its stored hash.
unfoldable pub check_event :
    ℕ → String → Dict Json → Json → String → Result (Bool × String) → Result (Bool × String)
check_event expected previous event stored actual rest =
    if not (equals_number (lookup "sequence" event) expected)
    then ok (false, concat ("sequence mismatch at " ∷ decimal expected ∷ []))
    else if not (equals_text (lookup "previous_hash" event) previous)
    then ok (false, concat ("previous hash mismatch at sequence " ∷ decimal expected ∷ []))
    else if not (equals_text (some stored) actual)
    then ok (false, concat ("hash mismatch at sequence " ∷ decimal expected ∷ []))
    else rest

-- The loop of `verify`. A line that is a number, a text, a truth value or null has no `pop`, and the
-- AttributeError is not caught.
unfoldable pub verify_lines : (Dict Json → String) → ℕ → String → List Line → Result (Bool × String)
unfolding check_event
verify_lines sha expected previous [] = valid
verify_lines sha expected previous (Line.blank ∷ ls) = verify_lines sha expected previous ls
verify_lines sha expected previous (Line.not_json ∷ ls) = malformed
verify_lines sha expected previous (Line.list_line ∷ ls) = malformed
verify_lines sha expected previous (Line.scalar_line ∷ ls) =
    raise (other_error "AttributeError") "object has no attribute 'pop'"
verify_lines sha expected previous (Line.event_line e ∷ ls) =
    let rest = verify_lines sha (expected + 1) (sha (erase "hash" e)) ls in
    elim (lookup "hash" e) [
      | none ↦ malformed
      | some stored ↦
          check_event expected previous (erase "hash" e) stored (sha (erase "hash" e)) rest
    ]

-- `self.path.read_text(encoding="utf-8").splitlines()`; `failure` is what the disk raises, if it does.
unfoldable pub read_text : Codec → Option Exc → Bytes → Result (List Line)
read_text codec (some x) bytes = raised x
read_text codec none bytes = codec.read_lines bytes

-- The rest of `verify`. Bytes that are not UTF-8 raise a ValueError, which is not caught.
unfoldable pub verify_read : (Dict Json → String) → Result (List Line) → Result (Bool × String)
unfolding verify_lines
verify_read sha (raised x) = if is_os_error x.kind then malformed else raised x
verify_read sha (ok lines) = verify_lines sha 1 genesis lines

unfoldable pub verify : (Dict Json → String) → Codec → Option Exc → File → Result (Bool × String)
unfolding verify_read read_text
verify sha codec failure none = ok (true, "empty audit log")
verify sha codec failure (some bytes) = verify_read sha (read_text codec failure bytes)
