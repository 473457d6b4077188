-- ===== src/AuditLog/Links.antt =====
-- The chain in the audit log: what `verify` asks of an event, and what recording puts there.
use agent_containment.Base.{
  ℕ, ◌∙◌, ◌+◌, suc, ◌≡◌, refl, ◌⊎◌, ◌↔◌, inl, inr, String, Bool, true, false, Option, none, some,
  List, [], ◌∷◌, ◌++◌, Exc, Result, ok, raised, arith, eq_iff, eq_refl, Option-cases, ==_iff,
}
use agent_containment.Base.Lists.{length}
use agent_containment.Base.Dict.{Dict, lookup, insert, erase, lookup-insert, lookup-insert_self}
use mathlib.Core.Path.{subst}
use agent_containment.AuditLog.{
  Json, Line, valid, equals_number, equals_text, check_event, verify_lines, non_blank, last_line,
  hash_of, Entry, update, body_for, sealed, time_of, optional,
}

erase-insert :
    (k : String) (v : Json) (d : Dict Json) → lookup k d ≡ none → erase k (insert k v d) ≡ d
unfolding lookup insert erase
erase-insert k v [] h = ground (arith, eq_refl k)
erase-insert k v ((j, w) ∷ d) h = ground (arith, eq_refl k, erase-insert k v d)

-- A dictionary keeps what an update does not name.
lookup-update :
    (k : String) (fields d : Dict Json)
    → lookup k fields ≡ none
    → lookup k (update fields d) ≡ lookup k d
unfolding update lookup
lookup-update k [] d h = refl
lookup-update k ((j, v) ∷ fields) d h =
    ground (arith, lookup-update k fields (insert j v d), lookup-insert j k v d, eq_iff j k)

abbrev Absent : String → Dict Json → Type 0
Absent k fields = lookup k fields ≡ none

-- The caller's fields name neither a parameter of the call, which Python rules out, nor anything that
-- the chain is made of.
abbrev pub Unreserved : Dict Json → Type 0
Unreserved fields =
    Absent "hash" fields
    × Absent "sequence" fields
    × Absent "previous_hash" fields
    × Absent "timestamp" fields
    × Absent "event_type" fields
    × Absent "agent_id" fields
    × Absent "action_id" fields
    × Absent "decision" fields
    × Absent "reason" fields

-- The event tells of the entry: the time it was given or else now, what happened, to whom, and why.
abbrev pub TellsOf : ℕ → Entry → Dict Json → Type 0
TellsOf now e event =
    (lookup "timestamp" event ≡ some (Json.number (time_of e.timestamp now)))
    × (lookup "event_type" event ≡ some (Json.text e.event_type))
    × (lookup "agent_id" event ≡ some (Json.text e.agent_id))
    × (lookup "action_id" event ≡ some (optional e.action_id))
    × (lookup "decision" event ≡ some (optional e.decision))
    × (lookup "reason" event ≡ some (optional e.reason))

body_for-fields :
    (now : ℕ) (e : Entry) (count : ℕ) (previous : Json)
    → Unreserved e.fields
    → let body = body_for now e count previous in
      (lookup "hash" body ≡ none)
      × (lookup "sequence" body ≡ some (Json.number (suc count)))
      × (lookup "previous_hash" body ≡ some previous)
      × TellsOf now e body
unfolding body_for lookup
body_for-fields now e count previous (h, s, p, t, y, a, i, d, r) = (
  lookup-update "hash" e.fields _ h,
  lookup-update "sequence" e.fields _ s,
  lookup-update "previous_hash" e.fields _ p,
  (
    lookup-update "timestamp" e.fields _ t,
    lookup-update "event_type" e.fields _ y,
    lookup-update "agent_id" e.fields _ a,
    lookup-update "action_id" e.fields _ i,
    lookup-update "decision" e.fields _ d,
    lookup-update "reason" e.fields _ r,
  ),
)

pub sealed-TellsOf :
    (sha : Dict Json → String) (now : ℕ) (e : Entry) (count : ℕ) (previous : Json)
    → Unreserved e.fields
    → TellsOf now e (sealed sha (body_for now e count previous))
unfolding sealed
sealed-TellsOf sha now e count previous u =
    let (_, _, _, (t, y, a, i, d, r)) = body_for-fields now e count previous u in
    let body = body_for now e count previous in
    (
      lookup-insert "hash" "timestamp" (Json.text (sha body)) body ∙ t,
      lookup-insert "hash" "event_type" (Json.text (sha body)) body ∙ y,
      lookup-insert "hash" "agent_id" (Json.text (sha body)) body ∙ a,
      lookup-insert "hash" "action_id" (Json.text (sha body)) body ∙ i,
      lookup-insert "hash" "decision" (Json.text (sha body)) body ∙ d,
      lookup-insert "hash" "reason" (Json.text (sha body)) body ∙ r,
    )

-- `verify` says that the chain is valid, or why it is not, or raises.
abbrev pub Refusal : Result (Bool × String) → Type 0
Refusal v = ((m : String) × (v ≡ ok (false, m))) ⊎ ((x : Exc) × (v ≡ raised x))

abbrev pub Verdict : Result (Bool × String) → Type 0
Verdict v = (v ≡ valid) ⊎ Refusal v

module _ (sha : Dict Json → String) where
  -- What `verify` asks of an event at its place in the chain.
  abbrev pub Linked : ℕ → String → Dict Json → Type 0
  Linked i previous e =
      (lookup "hash" e ≡ some (Json.text (sha (erase "hash" e))))
      × (equals_number (lookup "sequence" (erase "hash" e)) i ≡ true)
      × (equals_text (lookup "previous_hash" (erase "hash" e)) previous ≡ true)

  check_event-valid :
      (i : ℕ) (previous : String) (body : Dict Json) (stored : Json) (actual : String)
      (rest : Result (Bool × String))
      → check_event i previous body stored actual rest ≡ valid
      → (stored ≡ Json.text actual)
        × (equals_number (lookup "sequence" body) i ≡ true)
        × (equals_text (lookup "previous_hash" body) previous ≡ true)
        × (rest ≡ valid)
  unfolding check_event
  check_event-valid i previous body (Json.text s) actual rest v = ground (arith, eq_iff s actual)
  check_event-valid i previous body _ actual rest v = ground arith

  check_event-Linked :
      (i : ℕ) (previous : String) (body : Dict Json) (actual : String)
      (rest : Result (Bool × String))
      → equals_number (lookup "sequence" body) i ≡ true
      → equals_text (lookup "previous_hash" body) previous ≡ true
      → rest ≡ valid
      → check_event i previous body (Json.text actual) actual rest ≡ valid
  unfolding check_event
  check_event-Linked i previous body actual rest q p v = rw (q, p, eq_refl actual) v

  pub verify_lines-next :
      (i : ℕ) (previous : String) (e : Dict Json) (ls : List Line)
      → (verify_lines sha i previous (Line.event_line e ∷ ls) ≡ valid)
        ↔ (Linked i previous e × (verify_lines sha (i + 1) (sha (erase "hash" e)) ls ≡ valid))
  unfolding verify_lines
  verify_lines-next i previous e ls = (
    λ v. elim (Option-cases (lookup "hash" e)) [
      | inl n ↦ ground (arith, n, v)
      | inr (stored, y) ↦
          let c : check_event i previous (erase "hash" e) stored (sha (erase "hash" e))
                (verify_lines sha (i + 1) (sha (erase "hash" e)) ls)
              ≡ valid =
            rw (y, verify_lines) at v in
          let (t, q, p, rest) =
            check_event-valid i previous (erase "hash" e) stored (sha (erase "hash" e))
              (verify_lines sha (i + 1) (sha (erase "hash" e)) ls) c in
          ((cc (y, t), q, p), rest)
    ],
    λ ((h, q, p), rest).
        rw (h, verify_lines)
          (check_event-Linked i previous (erase "hash" e) (sha (erase "hash" e)) _ q p rest),
  )

  -- What a chain that verifies leaves for the next event: the hash of its last line.
  pub verify_lines-append :
      (i : ℕ) (previous : String) (last : Option Line) (ls : List Line)
      → hash_of last ≡ ok (Json.text previous)
      → verify_lines sha i previous ls ≡ valid
      → (q : String) × (hash_of (last_line last (non_blank ls)) ≡ ok (Json.text q))
        × ((e : Dict Json)
            → Linked (i + length (non_blank ls)) q e
            → verify_lines sha i previous (ls ++ (Line.event_line e ∷ [])) ≡ valid)
  unfolding verify_lines non_blank last_line hash_of
  verify_lines-append i previous last [] h v = (
    previous,
    h,
    λ e l.
        (verify_lines-next i previous e []).1
          (subst (λ j. Linked j previous e) (omega arith) l, refl),
  )
  verify_lines-append i previous last (Line.blank ∷ ls) h v =
      verify_lines-append i previous last ls h v
  verify_lines-append i previous last (Line.not_json ∷ ls) h v = ground arith
  verify_lines-append i previous last (Line.list_line ∷ ls) h v = ground arith
  verify_lines-append i previous last (Line.scalar_line ∷ ls) h v = absurd (ground (arith, v))
  verify_lines-append i previous last (Line.event_line e ∷ ls) h v =
      let ((s, q, p), rest) = (verify_lines-next i previous e ls).0 v in
      let (r, g, build) =
        verify_lines-append (i + 1) (sha (erase "hash" e)) (some (Line.event_line e)) ls
          (rw (s, hash_of) refl) rest in
      (
        r,
        g,
        λ e' l.
            (verify_lines-next i previous e (ls ++ (Line.event_line e' ∷ []))).1
              ((s, q, p), build e' (subst (λ j. Linked j r e') (omega arith) l)),
      )

  pub sealed-Linked :
      (now : ℕ) (e : Entry) (count : ℕ) (q : String)
      → Unreserved e.fields
      → Linked (1 + count) q (sealed sha (body_for now e count (Json.text q)))
  unfolding sealed
  sealed-Linked now e count q u =
      let (h, s, p, _) = body_for-fields now e count (Json.text q) u in
      let body = body_for now e count (Json.text q) in
      rw (erase-insert "hash" (Json.text (sha body)) body h) (
        lookup-insert_self "hash" (Json.text (sha body)) body,
        rw s (ground (arith, ==_iff (suc count) (1 + count))),
        rw p (eq_refl q),
      )

  check_event-verdict :
      (i : ℕ) (previous : String) (body : Dict Json) (stored : Json) (actual : String)
      (rest : Result (Bool × String))
      → let c = check_event i previous body stored actual rest in
        (c ≡ rest) ⊎ ((m : String) × (c ≡ ok (false, m)))
  unfolding check_event
  check_event-verdict i previous body stored actual rest = ground arith

  pub verify_lines-Verdict :
      (i : ℕ) (previous : String) (ls : List Line) → Verdict (verify_lines sha i previous ls)
  unfolding verify_lines
  verify_lines-Verdict i previous [] = inl refl
  verify_lines-Verdict i previous (Line.blank ∷ ls) = verify_lines-Verdict i previous ls
  verify_lines-Verdict i previous (Line.not_json ∷ ls) = inr (inl (_, refl))
  verify_lines-Verdict i previous (Line.list_line ∷ ls) = inr (inl (_, refl))
  verify_lines-Verdict i previous (Line.scalar_line ∷ ls) = inr (inr (_, refl))
  verify_lines-Verdict i previous (Line.event_line e ∷ ls) = elim (Option-cases (lookup "hash" e)) [
    | inl n ↦ rw (n, verify_lines) (inr (inl (_, refl)))
    | inr (stored, y) ↦
        rw (y, verify_lines)
          (elim (check_event-verdict i previous (erase "hash" e) stored (sha (erase "hash" e))
            (verify_lines sha (i + 1) (sha (erase "hash" e)) ls)) [
              | inl same ↦ rw same (verify_lines-Verdict (i + 1) (sha (erase "hash" e)) ls)
              | inr bad ↦ inr (inl bad)
            ])
  ]
