-- ===== src/Fences/Tests.antt =====
-- Concrete fences: tests, and each theorem about fences at an input that meets its hypotheses.
use agent_containment.Base.{◌≡◌, refl, true, none, some, List, [], ◌∷◌, pos, Exc, ok, os_error}
use agent_containment.Base.Dict.{insert}
use agent_containment.Durable.{missing, payload, open_registry, commit, values}
use agent_containment.Fences.{FenceRegistry, FenceRecord, open_fences, prepare}
use agent_containment.Fences.Restart.{
  IsValid, Call, prepare_call, clear_call, run, restart, restart-run,
}

abbrev fence : FenceRecord
fence = record { agent_id = "a"; containment_epoch = 1 }

abbrev fenced : FenceRegistry
fenced = record { has_path = true; records = ("a", fence) ∷ []; file = payload (fence ∷ []) }

abbrev full_disk : Exc
full_disk = record { kind = os_error; message = "no space left" }

abbrev empty : FenceRegistry
empty = record { has_path = true; records = []; file = missing }

opened : open_fences true missing ≡ ok empty
unfolding open_fences open_registry
opened = refl

prepared : prepare none "a" (pos 1) empty ≡ (ok fence, fenced)
unfolding prepare commit insert values
prepared = refl

not_written : (prepare (some full_disk) "b" (pos 4) fenced).1 ≡ fenced
unfolding prepare commit insert values
not_written = refl

empty-IsValid : IsValid empty
unfolding open_fences open_registry
empty-IsValid = record { keyed = tt; on_path = refl; synced = refl }

abbrev calls : List Call
calls =
    prepare_call none "a" (pos 1)
    ∷ prepare_call (some full_disk) "b" (pos 4)
    ∷ clear_call none "a"
    ∷ []

restart-run_example : restart (run empty calls) ≡ ok (run empty calls)
restart-run_example = restart-run empty calls empty-IsValid
