-- ===== src/Fences/Restart.antt =====
-- What the fence registry promises: a fence that was prepared is there, for this controller and
-- for one that starts again on the same file, until it is cleared.
use agent_containment.Base.{
  ◌∙◌, is_some, is_ok, [], ◌∷◌, List, ℕ, ◌≡◌, ◌≢◌, ◌⊎◌, inl, inr, String, true, false, Option, none,
  some, ℤ, pos, negsuc, Exc, Result, ok, arith, is_empty, eq_iff, Bool-cases, Option-cases,
}
use agent_containment.Base.Dict.{
  Dict, lookup, insert, erase, lookup-insert_self, lookup-insert_ne, lookup-erase,
  lookup-erase_self,
}
use agent_containment.Durable.{commit}
use agent_containment.Durable.Reload.{
  commit-cases, IsKeyed, insert-IsKeyed, erase-IsKeyed, reopen-commit,
}
use agent_containment.Fences.{
  FenceRecord, FenceRegistry, fence_name, open_fences, prepare, get, clear,
}

-- A restarted controller's registry, opened on the file that this one left.
abbrev pub restart : FenceRegistry → Result FenceRegistry
restart s = open_fences true s.file

-- Fences stand under their agents, and the file holds what memory holds.
pub record IsValid (s : FenceRegistry) : Type 0 where
  pub keyed : IsKeyed fence_name s.records
  pub on_path : s.has_path ≡ true
  pub synced : restart s ≡ ok s

commit-IsValid :
    {R : Type 0} (failure : Option Exc) (candidate : Dict FenceRecord) (r : R) (s : FenceRegistry)
    → IsValid s
    → IsKeyed fence_name candidate
    → IsValid (commit failure candidate r s).1
unfolding open_fences
commit-IsValid failure candidate r s v k = elim (commit-cases failure candidate r s) [
  | inl (done, placed, path) ↦ record {
    keyed = rw placed k;
    on_path = path ∙ v.on_path;
    synced = reopen-commit fence_name _ failure candidate r r s k v.on_path done;
  }
  | inr (x, refused, same) ↦ rw same v
]

prepare-IsValid :
    (failure : Option Exc) (agent_id : String) (e : ℤ) (s : FenceRegistry)
    → IsValid s
    → IsValid (prepare failure agent_id e s).1
unfolding prepare
prepare-IsValid failure agent_id (negsuc e) s v = elim (Bool-cases (is_empty agent_id)) [
  | inl h ↦ rw h v
  | inr h ↦ rw h v
]
prepare-IsValid failure agent_id (pos e) s v = elim (Bool-cases (is_empty agent_id)) [
  | inl h ↦ rw h v
  | inr h ↦
      let r : FenceRecord = record { agent_id = agent_id; containment_epoch = e } in
      rw h (
        commit-IsValid failure (insert agent_id r s.records) r s v
          (insert-IsKeyed fence_name r s.records v.keyed))
]

clear-IsValid :
    (failure : Option Exc) (agent_id : String) (s : FenceRegistry)
    → IsValid s
    → IsValid (clear failure agent_id s).1
unfolding clear
clear-IsValid failure agent_id s v = elim (Bool-cases (is_some (lookup agent_id s.records))) [
  | inl h ↦ rw h (
      commit-IsValid failure (erase agent_id s.records) tt s v
        (erase-IsKeyed fence_name agent_id s.records v.keyed))
  | inr h ↦ rw h v
]

-- `prepare` at a natural epoch, by how it ended: the fence is there at that epoch and no other
-- agent's fence is touched, or nothing has changed.
pub prepare_lem :
    (failure : Option Exc) (agent_id : String) (e : ℕ) (s : FenceRegistry)
    → ((get agent_id (prepare failure agent_id (pos e) s).1
          ≡ some (record { agent_id = agent_id; containment_epoch = e }))
        × (is_ok (prepare failure agent_id (pos e) s).0 ≡ true)
        × ((j : String) → agent_id ≢ j → get j (prepare failure agent_id (pos e) s).1 ≡ get j s))
      ⊎ ((is_ok (prepare failure agent_id (pos e) s).0 ≡ false)
          × ((prepare failure agent_id (pos e) s).1 ≡ s))
unfolding prepare get
prepare_lem failure agent_id e s =
    let r : FenceRecord = record { agent_id = agent_id; containment_epoch = e } in
    elim (Bool-cases (is_empty agent_id)) [
      | inl h ↦ inr (rw h, rw h)
      | inr h ↦ elim (commit-cases failure (insert agent_id r s.records) r s) [
        | inl (done, placed, path) ↦ inl (
          rw (h, placed) (lookup-insert_self agent_id r s.records),
          rw (h, done),
          λ j n. rw (h, placed) (lookup-insert_ne agent_id j r s.records n),
        )
        | inr (x, refused, same) ↦ inr (rw (h, refused), rw (h, same))
      ]
    ]

-- `clear`, by how it ended: the agent has no fence and no other agent's fence is touched, or
-- nothing has changed.
pub clear_lem :
    (failure : Option Exc) (agent_id : String) (s : FenceRegistry)
    → ((get agent_id (clear failure agent_id s).1 ≡ none)
        × (is_ok (clear failure agent_id s).0 ≡ true)
        × ((j : String) → agent_id ≢ j → get j (clear failure agent_id s).1 ≡ get j s))
      ⊎ ((is_ok (clear failure agent_id s).0 ≡ false) × ((clear failure agent_id s).1 ≡ s))
unfolding clear get
clear_lem failure agent_id s = elim (Option-cases (lookup agent_id s.records)) [
  | inl h ↦ inl (rw h h, rw h, λ j n. rw h)
  | inr (f, h) ↦ elim (commit-cases failure (erase agent_id s.records) tt s) [
    | inl (done, placed, path) ↦ inl (
      rw (h, placed) (lookup-erase_self agent_id s.records),
      rw (h, done),
      λ j n. rw (h, placed) (ground (arith, lookup-erase agent_id j s.records, eq_iff agent_id j)),
    )
    | inr (x, refused, same) ↦ inr (rw (h, refused), rw (h, same))
  ]
]

-- The operations that write, each with the failure of its write.
pub data Call : Type 0 where
  prepare_call : Option Exc → String → ℤ → Call
  clear_call : Option Exc → String → Call

unfoldable pub run : FenceRegistry → List Call → FenceRegistry
run s [] = s
run s (prepare_call failure agent_id e ∷ calls) = run (prepare failure agent_id e s).1 calls
run s (clear_call failure agent_id ∷ calls) = run (clear failure agent_id s).1 calls

-- Opened on a path, and after any calls, whichever of their writes fail, the registry that a
-- restarted controller opens on the file holds exactly the fences of this one.
pub restart-run :
    (s : FenceRegistry) (calls : List Call) → IsValid s → restart (run s calls) ≡ ok (run s calls)
unfolding run
restart-run s [] v = v.synced
restart-run s (prepare_call failure agent_id e ∷ calls) v =
    restart-run (prepare failure agent_id e s).1 calls (prepare-IsValid failure agent_id e s v)
restart-run s (clear_call failure agent_id ∷ calls) v =
    restart-run (clear failure agent_id s).1 calls (clear-IsValid failure agent_id s v)
