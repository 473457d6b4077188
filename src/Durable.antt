-- ===== src/Durable.antt =====
-- The durable registries that runtime_fence.py and incident_state.py share the shape of: a
-- dictionary of records, copied, changed, written to a file by an atomic replace, and only then
-- put in place. The file is modelled by the payload that was dumped into it, a list of records;
-- whether a write fails is told by the caller, `none` if it does not.
pub mod Reload
use agent_containment.Base.{
  String, Bool, true, false, Option, none, some, List, [], ◌∷◌, if◌then◌else◌, is_some, Exc, Result,
  ok, raised, raise, runtime_error, concat,
}
use agent_containment.Base.Dict.{Dict, lookup, insert}

-- What stands at the registry's path.
pub data File (V : Type 0) : Type 0 where
  missing : File V
  payload : List V → File V
  malformed : Exc → File V

pub record Durable (V : Type 0) : Type 0 where
  pub has_path : Bool
  pub records : Dict V
  pub file : File V

unfoldable pub values {ℓ} : {V : Type ℓ} → Dict V → List V
values [] = []
values ((k, v) ∷ d) = v ∷ values d

module _ {V : Type 0} where
  -- `_persist_locked`: with no path there is nothing to write; a write that fails leaves the file.
  unfoldable pub persist : Option Exc → Dict V → Durable V → Result (Unit {0}) × Durable V
  persist failure candidate s = if s.has_path then (written failure candidate s) else (ok tt, s)
    where
      written : Option Exc → Dict V → Durable V → Result (Unit {0}) × Durable V
      written none candidate s = (ok tt, record s { file = payload (values candidate) })
      written (some x) candidate s = (raised x, s)

  put_in_place : {R : Type 0} → Dict V → R → Result (Unit {0}) × Durable V → Result R × Durable V
  put_in_place candidate r (ok _, s) = (ok r, record s { records = candidate })
  put_in_place candidate r (raised x, s) = (raised x, s)

  -- `self._persist_locked(candidate); self._records = candidate; return r`
  unfoldable pub commit : {R : Type 0} → Option Exc → Dict V → R → Durable V → Result R × Durable V
  unfolding persist put_in_place
  commit failure candidate r s = put_in_place candidate r (persist failure candidate s)

  -- The loop of `_load` over the parsed items, which refuses a second record with one name.
  unfoldable pub load_items : (V → String) → String → Dict V → List V → Result (Dict V)
  load_items name duplicate loaded [] = ok loaded
  load_items name duplicate loaded (v ∷ items) =
      let rest : Result (Dict V) = load_items name duplicate (insert (name v) v loaded) items in
      if is_some (lookup (name v) loaded)
      then raise runtime_error (concat (duplicate ∷ name v ∷ []))
      else rest

  loaded_registry : Bool → File V → Result (Dict V) → Result (Durable V)
  loaded_registry has_path file (ok d) =
      ok (record { has_path = has_path; records = d; file = file })
  loaded_registry has_path file (raised x) = raised x

  load_file : (V → String) → String → File V → Result (Dict V)
  load_file name duplicate missing = ok []
  load_file name duplicate (payload items) = load_items name duplicate [] items
  load_file name duplicate (malformed x) = raise runtime_error x.message

  -- `__init__` with `_load`: a fresh registry on what stands at its path.
  unfoldable pub open_registry : (V → String) → String → Bool → File V → Result (Durable V)
  unfolding loaded_registry load_file load_items
  open_registry name duplicate has_path file =
      if has_path
      then loaded_registry has_path file (load_file name duplicate file)
      else ok (record { has_path = has_path; records = []; file = file })
