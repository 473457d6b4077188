-- ===== src/Runtime/Trace.antt =====
-- Runs of a runtime: its methods called one after another in any order, with the allocator that
-- gives each `object()` a reference of its own.
use agent_containment.Base.{◌+◌, ◌<◌, ◌≡◌, refl, List, [], ◌∷◌, ◌++◌, ℤ, arith}
use agent_containment.Runtime.{
  Ref, Runtime, halt, contain, restore_contained, rotate_recovery_capability, recover,
  restore_active,
}

-- The methods that change a runtime, with their arguments.
pub data Call : Type 0 where
  halt_call contain_call rotate_call : Call
  restore_contained_call restore_active_call : ℤ → Call
  recover_call : Ref → ℤ → Call

unfoldable pub call : Call → Ref → Runtime → Runtime
call halt_call fresh r = halt fresh r
call contain_call fresh r = contain fresh r
call rotate_call fresh r = (rotate_recovery_capability fresh r).1
call (restore_contained_call e) fresh r = (restore_contained e fresh r).1
call (restore_active_call e) fresh r = (restore_active e fresh r).1
call (recover_call capability e) fresh r = (recover capability e fresh r).1

-- A runtime beside the next reference that the allocator gives.
pub record Live : Type 0 where
  pub runtime : Runtime
  pub next : Ref

unfoldable pub step : Live → Call → Live
unfolding call
step s c = record { runtime = call c s.next s.runtime; next = s.next + 1 }

unfoldable pub run : Live → List Call → Live
run s [] = s
run s (c ∷ cs) = run (step s c) cs

-- The references of the runtime were allocated before the next one.
pub record IsAllocated (s : Live) : Type 0 where
  pub proof_lt : s.runtime.lease_proof < s.next
  pub capability_lt : s.runtime.recovery_capability < s.next

pub run-append : (s : Live) (cs ds : List Call) → run s (cs ++ ds) ≡ run (run s cs) ds
unfolding run
run-append s [] ds = refl
run-append s (c ∷ cs) ds = run-append (step s c) cs ds

pub step-IsAllocated : (s : Live) (c : Call) → IsAllocated s → IsAllocated (step s c)
unfolding step halt contain restore_contained rotate_recovery_capability recover restore_active
step-IsAllocated s halt_call h = ground arith
step-IsAllocated s _ h = ground arith
