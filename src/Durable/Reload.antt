-- ===== src/Durable/Reload.antt =====
-- A registry that is opened again on the file that was written holds the same records.
use mathlib.Core.List.{append_assoc, append-nil}
use agent_containment.Base.{
  ◌⊎◌, inl, inr, ap, ◌∙◌, String, ◌≡◌, refl, sym, true, Option, none, some, [], ◌∷◌, ◌++◌, Exc, ok,
  raised, arith, ◌=s◌, eq_iff, eq_refl, Bool-cases,
}
use agent_containment.Base.Dict.{Dict, lookup, insert, erase, lookup-insert, lookup-erase}
use agent_containment.Durable.{Durable, values, commit, load_items, open_registry}

module _ {V : Type 0} (name : V → String) where
  -- Every record stands under its own name, and no name is there twice.
  abbrev pub IsKeyed : Dict V → Type 0
  IsKeyed [] = Unit
  IsKeyed ((k, v) ∷ d) = (name v ≡ k) × (lookup k d ≡ none) × IsKeyed d

  pub insert-IsKeyed : (v : V) (d : Dict V) → IsKeyed d → IsKeyed (insert (name v) v d)
  unfolding insert lookup
  insert-IsKeyed v [] h = (refl, refl, tt)
  insert-IsKeyed v ((k, w) ∷ d) h = elim (Bool-cases (k =s name v)) [
    | inl e ↦ rw e (sym ((eq_iff k (name v)).0 e), h.1, h.2)
    | inr e ↦ rw e (
      h.0,
      ground (arith, lookup-insert (name v) k v d, eq_iff (name v) k, eq_iff k (name v)),
      insert-IsKeyed v d h.2,
    )
  ]

  pub erase-IsKeyed : (k : String) (d : Dict V) → IsKeyed d → IsKeyed (erase k d)
  unfolding erase
  erase-IsKeyed k [] h = tt
  erase-IsKeyed k ((j, w) ∷ d) h = elim (Bool-cases (j =s k)) [
    | inl e ↦ rw e (erase-IsKeyed k d h.2)
    | inr e ↦ rw e (h.0, ground (arith, lookup-erase k j d), erase-IsKeyed k d h.2)
  ]

  insert_new :
      (k : String) (v : V) (d : Dict V) → lookup k d ≡ none → insert k v d ≡ d ++ ((k, v) ∷ [])
  unfolding insert lookup
  insert_new k v [] h = refl
  insert_new k v ((j, w) ∷ d) h = elim (Bool-cases (j =s k)) [
    | inl e ↦ absurd (ground arith)
    | inr e ↦ rw (e, insert_new k v d (rw e at h))
  ]

  abbrev FreshFor : Dict V → Dict V → Type 0
  FreshFor acc d = (j : String) (v : V) → lookup j d ≡ some v → lookup j acc ≡ none

  load-values :
      (duplicate : String) (acc d : Dict V)
      → IsKeyed d
      → FreshFor acc d
      → load_items name duplicate acc (values d) ≡ ok (acc ++ d)
  unfolding load_items values lookup
  load-values duplicate acc [] h f = rw append-nil
  load-values duplicate acc ((k, v) ∷ d) h f =
      let absent : lookup (name v) acc ≡ none = rw h.0 (f k v (rw eq_refl)) in
      let appended : insert k v acc ++ d ≡ acc ++ ((k, v) ∷ d) =
        rw (insert_new k v acc (rw h.0 at absent)) (append_assoc acc ((k, v) ∷ []) d) in
      rw (absent, h.0)
        (load-values duplicate (insert k v acc) d h.2
            (λ j w e. ground (arith, lookup-insert k j v acc, eq_iff k j, f j w))
          ∙ ap ok appended)

  -- A registry on a path whose commit returned can be opened again on its file, and then holds
  -- exactly the records of the candidate: what was committed survives a restart.
  pub reopen-commit :
      {R : Type 0} (duplicate : String) (failure : Option Exc) (candidate : Dict V) (r r' : R)
      (s : Durable V)
      → IsKeyed candidate
      → s.has_path ≡ true
      → (commit failure candidate r s).0 ≡ ok r'
      → open_registry name duplicate true (commit failure candidate r s).1.file
        ≡ ok (commit failure candidate r s).1
  unfolding commit open_registry lookup
  reopen-commit duplicate none candidate r r' s h p e =
      rw p (rw (load-values duplicate [] candidate h (λ j v e. refl)) refl)
  reopen-commit duplicate (some x) candidate r r' s h p e = ground arith

  -- A commit that raises changes neither the records in memory nor the file.
  pub commit_refused :
      {R : Type 0} (failure : Option Exc) (candidate : Dict V) (r : R) (x : Exc) (s : Durable V)
      → (commit failure candidate r s).0 ≡ raised x
      → (commit failure candidate r s).1 ≡ s
  unfolding commit
  commit_refused none candidate r x s e = ground arith
  commit_refused (some y) candidate r x s e = ground arith

-- What a commit leaves in memory, by how it ended.
pub commit-cases :
    {V R : Type 0} (failure : Option Exc) (candidate : Dict V) (r : R) (s : Durable V)
    → (((commit failure candidate r s).0 ≡ ok r)
        × ((commit failure candidate r s).1.records ≡ candidate)
        × ((commit failure candidate r s).1.has_path ≡ s.has_path))
      ⊎ ((x : Exc) × ((commit failure candidate r s).0 ≡ raised x)
          × ((commit failure candidate r s).1 ≡ s))
unfolding commit
commit-cases none candidate r s = ground arith
commit-cases (some x) candidate r s = elim (Bool-cases s.has_path) [
  | inl p ↦ inr (x, ground arith, ground arith)
  | inr p ↦ inl (ground arith, ground arith, ground arith)
]
