-- ===== src/Incidents/Restart.antt =====
-- The registry over any run of its operations, whichever of the writes fail: what is on the file,
-- and the recovery epochs.
use mathlib.Core.Path.{subst}
use agent_containment.Base.{
  ap, if◌then◌else◌, ◌+◌, ◌≡◌, ◌∙◌, sym, inl, inr, String, true, Option, some, List, [], ◌∷◌,
  Result, ok, arith, ◌=s◌, eq_iff, Bool-cases,
}
use agent_containment.Base.Dict.{Dict, lookup, insert, lookup-insert}
use agent_containment.Durable.Reload.{commit-cases, IsKeyed, insert-IsKeyed, reopen-commit}
use agent_containment.Incidents.{
  IncidentRecord, IncidentRegistry, recovered, incident_name, open_incidents, get,
}
use agent_containment.Incidents.Changes.{
  Call, record_call, degrade_call, restore_call, recover_call, attach_call, call, target,
  failure_of, Change,
}
use agent_containment.Incidents.Lifecycle.{Writes, refuses, commits, call-Writes}

-- A restarted controller's registry, opened on the file that this one left.
abbrev pub restart : IncidentRegistry → Result IncidentRegistry
restart s = open_incidents true s.file

-- A recovered incident carries the epoch after its containment.
abbrev pub HasEpoch : IncidentRecord → Type 0
HasEpoch r = r.state ≡ recovered → r.recovery_epoch ≡ some (r.containment_epoch + 1)

pub record IsValid (s : IncidentRegistry) : Type 0 where
  pub keyed : IsKeyed incident_name s.records
  pub on_path : s.has_path ≡ true
  pub synced : restart s ≡ ok s
  pub epochs : (i : String) (r : IncidentRecord) → get i s ≡ some r → HasEpoch r

lookup-name :
    (i : String) (r : IncidentRecord) (d : Dict IncidentRecord)
    → IsKeyed incident_name d
    → lookup i d ≡ some r
    → r.incident_id ≡ i
unfolding lookup
lookup-name i r [] k h = cc
lookup-name i r ((j, q) ∷ d) k h = ground (arith, eq_iff j i, lookup-name i r d k.2)

Change-name :
    (c : Call) (s : IncidentRegistry) (r : IncidentRecord)
    → IsValid s
    → Change c (get (target c) s) r
    → r.incident_id ≡ target c
unfolding get
Change-name (record_call x now i a e reason) s r v (n, _, _, _, _, d) = ap (λ q. q.incident_id) d
Change-name (degrade_call x i reason) s r v (o, e, _, d) =
    rw d (lookup-name i o s.records v.keyed e)
Change-name (restore_call x i) s r v (o, e, _, d) = rw d (lookup-name i o s.records v.keyed e)
Change-name (recover_call x i) s r v (o, e, _, d) = rw d (lookup-name i o s.records v.keyed e)
Change-name (attach_call x i reference) s r v (o, e, _, _, d) =
    rw d (lookup-name i o s.records v.keyed e)

Change-HasEpoch :
    (c : Call) (old : Option IncidentRecord) (r : IncidentRecord) → Change c old r → HasEpoch r
Change-HasEpoch (record_call x now i a e reason) old r (n, _, _, _, _, d) = ground (arith, d)
Change-HasEpoch (degrade_call x i reason) old r (o, e, _, d) = ground (arith, d)
Change-HasEpoch (restore_call x i) old r (o, e, _, d) = ground (arith, d)
Change-HasEpoch (recover_call x i) old r (o, e, _, d) = ground (arith, d)
Change-HasEpoch (attach_call x i reference) old r (o, e, _, _, d) = ground (arith, d)

insert-HasEpoch :
    (i j : String) (r q : IncidentRecord) (d : Dict IncidentRecord)
    → HasEpoch r
    → (lookup j d ≡ some q → HasEpoch q)
    → lookup j (insert i r d) ≡ some q
    → HasEpoch q
insert-HasEpoch i j r q d hr old h =
    let found : (if i =s j then some r else lookup j d) ≡ some q =
      sym (lookup-insert i j r d) ∙ h in
    elim (Bool-cases (i =s j)) [
      | inl e ↦ let same : r ≡ q = ground arith in subst (λ x. HasEpoch x) same hr
      | inr e ↦ old (rw e at found)
    ]

Writes-IsValid :
    (c : Call) (s : IncidentRegistry) (m : Result IncidentRecord × IncidentRegistry)
    → IsValid s
    → Writes c s m
    → IsValid m.1
unfolding get open_incidents
Writes-IsValid c s m v (refuses x n e) = rw e v
Writes-IsValid c s m v (commits r d e) =
    elim (commit-cases (failure_of c) (insert (target c) r s.records) r s) [
      | inl (done, placed, path) ↦
          let keyed : IsKeyed incident_name (insert (target c) r s.records) =
            rw (← Change-name c s r v d) (insert-IsKeyed incident_name r s.records v.keyed) in
          rw e (record {
            keyed = rw placed keyed;
            on_path = path ∙ v.on_path;
            synced =
                reopen-commit incident_name _ (failure_of c) (insert (target c) r s.records) r r s
                  keyed v.on_path done;
            epochs = λ j q h.
                insert-HasEpoch (target c) j r q s.records
                  (Change-HasEpoch c (get (target c) s) r d) (v.epochs j q) (rw placed at h);
          })
      | inr (x, refused, same) ↦ rw (e, same) v
    ]

unfoldable pub run : IncidentRegistry → List Call → IncidentRegistry
run s [] = s
run s (c ∷ calls) = run (call c s).1 calls

run-IsValid : (s : IncidentRegistry) (calls : List Call) → IsValid s → IsValid (run s calls)
unfolding run
run-IsValid s [] v = v
run-IsValid s (c ∷ calls) v =
    run-IsValid (call c s).1 calls (Writes-IsValid c s (call c s) v (call-Writes c s))

-- From a valid registry on a path, after any calls, whichever of their writes fail, the registry
-- that a restarted controller opens on the file holds exactly these incidents.
pub restart-run_calls :
    (s : IncidentRegistry) (calls : List Call)
    → IsValid s
    → restart (run s calls) ≡ ok (run s calls)
restart-run_calls s calls v = (run-IsValid s calls v).synced

-- From a valid registry, after any calls, every incident that is recovered carries the epoch after
-- that of its containment.
pub recovery_epoch_next :
    (s : IncidentRegistry) (calls : List Call) (i : String) (r : IncidentRecord)
    → IsValid s
    → get i (run s calls) ≡ some r
    → r.state ≡ recovered
    → r.recovery_epoch ≡ some (r.containment_epoch + 1)
recovery_epoch_next s calls i r v found done = (run-IsValid s calls v).epochs i r found done
