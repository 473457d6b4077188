-- ===== src/Runtime/Recovery.antt =====
-- When a runtime becomes executable, what a refused call leaves, and how the epoch moves.
use agent_containment.Base.{
  ℕ, ◌+◌, ◌<◌, ◌≡◌, ◌≢◌, ◌⊎◌, inl, inr, refl, Bool, true, false, List, [], ◌∷◌, ℤ, pos, negsuc, Exc,
  ok, raised, arith, Bool-cases, ◌==◌,
}
use agent_containment.Runtime.{
  Ref, Runtime, RuntimeState, active, contained, paused, halted, is_contained, halt, contain,
  restore_contained, rotate_recovery_capability, recover, restore_active,
}
use agent_containment.Runtime.Trace.{
  Call, halt_call, contain_call, rotate_call, restore_contained_call, restore_active_call,
  recover_call, Live, step, run,
}

pub recover_iff :
    (capability : Ref) (e : ℕ) (fresh : Ref) (r : Runtime)
    → let (result, r') = recover capability (pos e) fresh r in
      ((n : ℕ)
        → result ≡ ok n
        → (capability ≡ r.recovery_capability)
          × (r.state ≡ contained)
          × (r.epoch ≡ e)
          × (n ≡ e + 1)
          × (r' ≡ record r { state = active; epoch = e + 1; lease_proof = fresh }))
      × (capability ≡ r.recovery_capability
          → r.state ≡ contained
          → r.epoch ≡ e
          → result ≡ ok (e + 1))
unfolding recover
recover_iff capability e fresh r = (λ n h. ground arith, λ p q s. ground arith)

-- Given the current capability and the epoch of a contained runtime, `recover` returns the next
-- epoch, and the runtime is active there with a fresh proof; otherwise it raises, and the runtime is
-- as it was.
pub recover-cases :
    (capability : Ref) (e : ℕ) (fresh : Ref) (r : Runtime)
    → ((capability ≡ r.recovery_capability)
        × (r.state ≡ contained)
        × (r.epoch ≡ e)
        × (recover capability (pos e) fresh r
            ≡ (ok (e + 1), record r { state = active; epoch = e + 1; lease_proof = fresh })))
      ⊎ (((capability ≢ r.recovery_capability) ⊎ (r.state ≢ contained) ⊎ (r.epoch ≢ e))
          × (x : Exc) × (recover capability (pos e) fresh r ≡ (raised x, r)))
unfolding recover
recover-cases capability e fresh r = elim (Bool-cases (capability == r.recovery_capability)) [
  | inr off ↦ rw off (inr (inl (ground arith), _, refl))
  | inl right ↦ elim (Bool-cases (is_contained r.state)) [
    | inr off ↦ rw (right, off) (inr (inr (inl (λ q. cc)), _, refl))
    | inl shut ↦ elim (Bool-cases (r.epoch == e)) [
      | inr off ↦ rw (right, shut, off) (inr (inr (inr (ground arith)), _, refl))
      | inl same ↦ inl (ground arith, ground arith, ground arith, ground arith)
    ]
  ]
]

-- A call that raises leaves the runtime as it was.
pub recover_refused :
    (capability : Ref) (e : ℤ) (fresh : Ref) (r : Runtime) (x : Exc)
    → (recover capability e fresh r).0 ≡ raised x
    → (recover capability e fresh r).1 ≡ r
unfolding recover
recover_refused capability (negsuc n) fresh r x h = refl
recover_refused capability (pos e) fresh r x h = ground arith

pub restore_contained_refused :
    (e : ℤ) (fresh : Ref) (r : Runtime) (x : Exc)
    → (restore_contained e fresh r).0 ≡ raised x
    → (restore_contained e fresh r).1 ≡ r
unfolding restore_contained
restore_contained_refused (negsuc n) fresh r x h = refl
restore_contained_refused (pos e) fresh r x h = ground arith

state-cases : (q : RuntimeState) → (q ≡ active) ⊎ (q ≡ contained) ⊎ (q ≡ paused) ⊎ (q ≡ halted)
state-cases active = inl refl
state-cases contained = inr (inl refl)
state-cases paused = inr (inr (inl refl))
state-cases halted = inr (inr (inr refl))

-- `restore_contained` at a natural epoch leaves an active runtime, or one contained at that very
-- epoch, contained at that epoch; on any other it raises and leaves it as it was.
pub restore_contained-cases :
    (e : ℕ) (fresh : Ref) (r : Runtime)
    → let (result, r') = restore_contained (pos e) fresh r in
      (((r.state ≡ active) ⊎ ((r.state ≡ contained) × (r.epoch ≡ e)))
        × (result ≡ ok tt)
        × (r'.state ≡ contained)
        × (r'.epoch ≡ e))
      ⊎ ((r.state ≢ active)
          × ((r.state ≢ contained) ⊎ (r.epoch ≢ e))
          × (x : Exc) × (result ≡ raised x)
          × (r' ≡ r))
unfolding restore_contained
restore_contained-cases e fresh r = elim (state-cases r.state) [
  | inl a ↦ inl (inl a, rw a refl, rw a refl, rw a refl)
  | inr (inl c) ↦ elim (Bool-cases (r.epoch == e)) [
    | inl same ↦
        inl
          (inr (c, ground arith), rw (c, same) refl, rw (c, same) refl, rw (c, same) (ground arith))
    | inr off ↦ rw (c, off) (inr (λ q. cc, inr (ground arith), _, refl, refl))
  ]
  | inr (inr (inl h)) ↦ rw h (inr (λ q. cc, inl (λ q. cc), _, refl, refl))
  | inr (inr (inr h)) ↦ rw h (inr (λ q. cc, inl (λ q. cc), _, refl, refl))
]

-- Only two calls make a runtime active that was not: a recovery with the current capability at the
-- epoch of a contained runtime, which moves to the next epoch, and `_restore_active`.
pub becomes_active :
    (s : Live) (c : Call)
    → s.runtime.state ≢ active
    → (step s c).runtime.state ≡ active
    → ((c ≡ recover_call s.runtime.recovery_capability (pos s.runtime.epoch))
        × (s.runtime.state ≡ contained)
        × ((step s c).runtime.epoch ≡ s.runtime.epoch + 1))
      ⊎ ((e : ℕ) × (c ≡ restore_active_call (pos e)))
unfolding step halt contain restore_contained rotate_recovery_capability recover restore_active
becomes_active s halt_call n a = ground arith
becomes_active s contain_call n a = ground arith
becomes_active s rotate_call n a = ground arith
becomes_active s (restore_contained_call (pos e)) n a = ground arith
becomes_active s (restore_contained_call (negsuc e)) n a = ground arith
becomes_active s (restore_active_call (pos e)) n a = inr (e, refl)
becomes_active s (restore_active_call (negsuc e)) n a = ground arith
becomes_active s (recover_call k (pos e)) n a = inl (ground arith)
becomes_active s (recover_call k (negsuc e)) n a = ground arith

-- The calls that rebuild a runtime from durable state, which may set any epoch.
abbrev pub is_restore : Call → Bool
is_restore (restore_contained_call _) = true
is_restore (restore_active_call _) = true
is_restore _ = false

abbrev pub NoRestore : List Call → Type 0
NoRestore [] = Unit
NoRestore (c ∷ cs) = (is_restore c ≡ false) × NoRestore cs

-- One call keeps the epoch, and then the state too, or adds one.
step-epoch :
    (s : Live) (c : Call)
    → is_restore c ≡ false
    → (((step s c).runtime.epoch ≡ s.runtime.epoch) × ((step s c).runtime.state ≡ s.runtime.state))
      ⊎ ((step s c).runtime.epoch ≡ s.runtime.epoch + 1)
unfolding step halt contain restore_contained rotate_recovery_capability recover restore_active
step-epoch s halt_call h = ground arith
step-epoch s (recover_call k (pos e)) h = ground arith
step-epoch s _ h = ground arith

-- Over any run without restore calls the epoch rises, or it is the same at the end as at the start
-- and then so is the lifecycle state: it never falls, and no epoch is used for two states.
pub run_epoch :
    (s : Live) (cs : List Call)
    → NoRestore cs
    → (s.runtime.epoch < (run s cs).runtime.epoch)
      ⊎ (((run s cs).runtime.epoch ≡ s.runtime.epoch)
          × ((run s cs).runtime.state ≡ s.runtime.state))
unfolding run
run_epoch s [] h = inr (refl, refl)
run_epoch s (c ∷ cs) h = ground (arith, step-epoch s c h.0, run_epoch (step s c) cs h.1)
