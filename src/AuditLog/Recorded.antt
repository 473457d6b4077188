-- ===== src/AuditLog/Recorded.antt =====
-- Recording an event in an audit log whose lines are whole.
use agent_containment.Base.{
  ℕ, ◌≡◌, String, Bool, true, none, some, List, [], ◌∷◌, ◌++◌, Result, ok, ◌==◌,
}
use agent_containment.Base.Dict.{Dict}
use agent_containment.AuditLog.Links.{TellsOf}
use agent_containment.AuditLog.{
  Json, Line, Bytes, File, Codec, line_of, valid, verify, Entry, completed, Disk, bytes_of,
}

-- The bytes end in a newline, if there are any.
unfoldable pub ended : Bytes → Bool
ended [] = true
ended (b ∷ []) = b == 10
ended (b ∷ c ∷ bytes) = ended (c ∷ bytes)

-- `splitlines` takes apart at the end of a line: what follows a newline is read for itself.
abbrev pub Splits : Codec → Type 0
Splits codec =
    (a b : Bytes) (la lb : List Line)
    → ended a ≡ true
    → codec.read_lines a ≡ ok la
    → codec.read_lines b ≡ ok lb
    → codec.read_lines (a ++ b) ≡ ok (la ++ lb)

abbrev pub working : Disk
working = record { verify_failure = none; read_failure = none; writing = completed }

module _ (sha : Dict Json → String) (codec : Codec) where
  -- The event is returned, tells of the entry and is the last line of the file, which is otherwise as
  -- it was, verifies, and ends in a newline.
  abbrev pub Recorded : ℕ → Entry → File → Result (Dict Json) × File → Type 0
  Recorded now e file (reply, file') =
      (event : Dict Json) × (reply ≡ ok event)
      × TellsOf now e event
      × (file' ≡ some (bytes_of file ++ line_of codec event))
      × (verify sha codec none file' ≡ valid)
      × (ended (bytes_of file') ≡ true)
