-- ===== src/AuditLog.antt =====
-- src/agent_containment/audit.py: the log of audit events, a file of JSON lines linked by hashes.
-- The file is its bytes, and a write that fails may leave some of them. The SHA-256 of canonical JSON
-- and the calls that turn events into bytes and bytes into lines are parameters.
pub mod Chain
pub mod Links
pub mod Record
pub mod Recorded
mod Tests
unfoldable pub use Chain.*
use agent_containment.Base.{
  ℕ, zero, ◌+◌, suc, String, Bool, true, false, not, Option, none, some, List, [], ◌∷◌, ◌++◌,
  if◌then◌else◌, ◌==◌, ◌=s◌, is_empty, Exc, Result, ok, raised, raise, value_error, runtime_error,
  key_error, type_error, other_error, is_os_error, concat, decimal,
}
use agent_containment.Base.Lists.{length}
use agent_containment.Base.Dict.{Dict, lookup, insert, erase}

-- `[line for line in lines if line.strip()]`
unfoldable pub non_blank : List Line → List Line
non_blank [] = []
non_blank (Line.blank ∷ ls) = non_blank ls
non_blank (Line.not_json ∷ ls) = Line.not_json ∷ non_blank ls
non_blank (Line.list_line ∷ ls) = Line.list_line ∷ non_blank ls
non_blank (Line.scalar_line ∷ ls) = Line.scalar_line ∷ non_blank ls
non_blank (Line.event_line e ∷ ls) = Line.event_line e ∷ non_blank ls

-- `lines[-1]`, if there are lines; `last` is the one before them.
unfoldable pub last_line : Option Line → List Line → Option Line
last_line last [] = last
last_line last (l ∷ ls) = last_line (some l) ls

-- `json.loads(line)["hash"]`
unfoldable pub hash_of : Option Line → Result Json
hash_of none = ok (Json.text genesis)
hash_of (some Line.blank) = raise value_error "Expecting value"
hash_of (some Line.not_json) = raise value_error "Expecting value"
hash_of (some Line.list_line) = raise type_error "list indices must be integers or slices, not str"
hash_of (some Line.scalar_line) = raise type_error "object is not subscriptable"
hash_of (some (Line.event_line e)) = elim (lookup "hash" e) [
  | none ↦ raise key_error "hash"
  | some h ↦ ok h
]

-- The arguments of `record`.
pub record Entry : Type 0 where
  pub event_type : String
  pub agent_id : String
  pub action_id : Option String
  pub decision : Option String
  pub reason : Option String
  pub timestamp : Option ℕ
  pub fields : Dict Json

-- How the write ends: it completes; or making the directory or opening the file raises; or writing or
-- closing it raises, when the file is there and this many bytes have reached it.
pub data Writing : Type 0 where
  completed : Writing
  unopened : Exc → Writing
  interrupted : Exc → ℕ → Writing

-- What the disk does: what the read of `verify` and that of `record` raise, and the write.
pub record Disk : Type 0 where
  pub verify_failure : Option Exc
  pub read_failure : Option Exc
  pub writing : Writing

abbrev pub optional : Option String → Json
optional none = Json.null
optional (some s) = Json.text s

-- `{**d, **fields}`
unfoldable pub update : Dict Json → Dict Json → Dict Json
update [] d = d
update ((k, v) ∷ fields) d = update fields (insert k v d)

abbrev pub time_of : Option ℕ → ℕ → ℕ
time_of none now = now
time_of (some t) now = t

-- The event before its hash, on the number of lines before it.
unfoldable pub body_for : ℕ → Entry → ℕ → Json → Dict Json
unfolding update
body_for now e count previous = update e.fields (
    ("version", Json.number 1)
    ∷ ("sequence", Json.number (suc count))
    ∷ ("timestamp", Json.number (time_of e.timestamp now))
    ∷ ("event_type", Json.text e.event_type)
    ∷ ("agent_id", Json.text e.agent_id)
    ∷ ("action_id", optional e.action_id)
    ∷ ("decision", optional e.decision)
    ∷ ("reason", optional e.reason)
    ∷ ("previous_hash", previous)
    ∷ [])

-- `event["hash"] = ...`
unfoldable pub sealed : (Dict Json → String) → Dict Json → Dict Json
sealed sha body = insert "hash" (Json.text (sha body)) body

abbrev pub bytes_of : File → Bytes
bytes_of none = []
bytes_of (some bytes) = bytes

unfoldable pub take : ℕ → Bytes → Bytes
take zero bytes = []
take (suc n) [] = []
take (suc n) (b ∷ bytes) = b ∷ take n bytes

-- `handle.write` on the file that was opened to append.
unfoldable pub append_line : Codec → Writing → Dict Json → File → Result (Dict Json) × File
unfolding line_of take
append_line codec completed event file = (ok event, some (bytes_of file ++ line_of codec event))
append_line codec (unopened x) event file = (raised x, file)
append_line codec (interrupted x n) event file =
    (raised x, some (bytes_of file ++ take n (line_of codec event)))

-- From the lines that were read on: the event is built, sealed and written.
unfoldable pub write_event :
    (Dict Json → String)
    → Codec
    → ℕ
    → Writing
    → Entry
    → File
    → List Line
    → Result Json
    → Result (Dict Json) × File
unfolding body_for sealed append_line
write_event sha codec now writing e file lines (raised x) = (raised x, file)
write_event sha codec now writing e file lines (ok previous) =
    append_line codec writing (sealed sha (body_for now e (length lines) previous)) file

-- The lines that are not blank, and the hash of the last one.
unfoldable pub after_read :
    (Dict Json → String)
    → Codec
    → ℕ
    → Writing
    → Entry
    → File
    → Result (List Line)
    → Result (Dict Json) × File
unfolding write_event last_line hash_of non_blank
after_read sha codec now writing e file (raised x) = (raised x, file)
after_read sha codec now writing e file (ok lines) =
    write_event sha codec now writing e file (non_blank lines)
      (hash_of (last_line none (non_blank lines)))

-- What `record` does once the chain in a file that is there was verified.
unfoldable pub after_verify :
    (Dict Json → String)
    → Codec
    → ℕ
    → Disk
    → Entry
    → Bytes
    → Result (Bool × String)
    → Result (Dict Json) × File
unfolding after_read read_text
after_verify sha codec now disk e bytes (raised x) = (raised x, some bytes)
after_verify sha codec now disk e bytes (ok (false, reason)) = (
  raise runtime_error (concat ("refusing to append to invalid audit chain: " ∷ reason ∷ [])),
  some bytes,
)
after_verify sha codec now disk e bytes (ok (true, reason)) =
    after_read sha codec now disk.writing e (some bytes) (read_text codec disk.read_failure bytes)

unfoldable pub record_checked :
    (Dict Json → String) → Codec → ℕ → Disk → Entry → File → Result (Dict Json) × File
unfolding after_verify verify after_read
record_checked sha codec now disk e none = after_read sha codec now disk.writing e none (ok [])
record_checked sha codec now disk e (some bytes) =
    after_verify sha codec now disk e bytes (verify sha codec disk.verify_failure (some bytes))

-- `AuditLog.record`
unfoldable pub record_event :
    (Dict Json → String) → Codec → ℕ → Disk → Entry → File → Result (Dict Json) × File
unfolding record_checked
record_event sha codec now disk e file =
    if is_empty e.event_type
    then (raise value_error "event_type must be non-empty", file)
    else if is_empty e.agent_id
    then (raise value_error "agent_id must be non-empty", file)
    else record_checked sha codec now disk e file
