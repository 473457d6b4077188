-- ===== src/AuditLog/Record.antt =====
-- Recording an event in the audit log.
use agent_containment.Base.{
  ℕ, ◌≡◌, refl, sym, ◌∙◌, ◌⊎◌, String, none, some, List, [], ◌∷◌, ◌++◌, Exc, Result, ok, raised,
  ok-injective,
}
use mathlib.Core.Path.{subst}
use agent_containment.Base.Lists.{length}
use agent_containment.Base.Dict.{Dict}
use agent_containment.AuditLog.Links.{
  Unreserved, TellsOf, sealed-TellsOf, verify_lines-append, sealed-Linked,
}
use agent_containment.AuditLog.{
  Json, Line, Bytes, File, Codec, line_of, genesis, valid, verify_lines, non_blank, last_line,
  hash_of, Entry, body_for, sealed, bytes_of,
}

module _ (sha : Dict Json → String) (codec : Codec) where
  -- The lines of a file, where no file has none.
  abbrev pub Contents : File → List Line → Type 0
  Contents none lines = lines ≡ []
  Contents (some bytes) lines = codec.read_lines bytes ≡ ok lines

  -- The chain in the file verifies, and still does with the event, which tells of the entry, as its
  -- next line.
  abbrev pub Continues : ℕ → Entry → File → Dict Json → Type 0
  Continues now e file event =
      (lines : List Line) × Contents file lines
      × (verify_lines sha 1 genesis lines ≡ valid)
      × (verify_lines sha 1 genesis (lines ++ (Line.event_line event ∷ [])) ≡ valid)
      × TellsOf now e event

  -- What becomes of writing the line of an event: it is at the end of the file and the event is
  -- returned, or the write raises and the file is as it was or has the beginning of that line.
  abbrev pub Appends : Dict Json → File → Result (Dict Json) × File → Type 0
  Appends event file (reply, file') =
      ((reply ≡ ok event) × (file' ≡ some (bytes_of file ++ line_of codec event)))
      ⊎ ((x : Exc) × (reply ≡ raised x)
          × ((file' ≡ file)
              ⊎ ((part : Bytes) × (rest : Bytes) × (part ++ rest ≡ line_of codec event)
                  × (file' ≡ some (bytes_of file ++ part)))))

  abbrev pub Outcome : ℕ → Entry → File → Result (Dict Json) × File → Type 0
  Outcome now e file r =
      ((event : Dict Json) × Continues now e file event × Appends event file r)
      ⊎ ((x : Exc) × (r.0 ≡ raised x) × (r.1 ≡ file))

  -- The event that is built on lines that verify.
  pub built_event :
      (now : ℕ) (e : Entry) (lines : List Line) (q : String)
      → Unreserved e.fields
      → verify_lines sha 1 genesis lines ≡ valid
      → hash_of (last_line none (non_blank lines)) ≡ ok (Json.text q)
      → let event = sealed sha (body_for now e (length (non_blank lines)) (Json.text q)) in
        (verify_lines sha 1 genesis (lines ++ (Line.event_line event ∷ [])) ≡ valid)
        × TellsOf now e event
  unfolding hash_of
  built_event now e lines q u v h =
      let (p, g, build) = verify_lines-append sha 1 genesis none lines refl v in
      let same : Json.text p ≡ Json.text q = ok-injective (sym g ∙ h) in
      let count = length (non_blank lines) in
      (
        subst
            (λ z.
              verify_lines sha 1 genesis
                (lines ++ (Line.event_line (sealed sha (body_for now e count z)) ∷ []))
              ≡ valid)
            same (build _ (sealed-Linked sha now e count p u)),
        sealed-TellsOf sha now e count (Json.text q) u,
      )
