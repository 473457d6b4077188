-- ===== src/Runtime/Tests.antt =====
-- Concrete runtimes: tests, and each theorem about runs at an input that meets its hypotheses.
use agent_containment.Base.{
  ℕ, ◌+◌, ◌≡◌, ◌<◌, ◌⊎◌, refl, false, none, List, [], ◌∷◌, ◌++◌, pos, arith,
}
use agent_containment.Runtime.{
  Runtime, active, contained, new, acquire_lease, current_lease, lease_valid, contain, recover,
}
use agent_containment.Runtime.Trace.{Call, Live, step, run, contain_call, recover_call}
use agent_containment.Runtime.Leases.{lease_dies}
use agent_containment.Runtime.Recovery.{becomes_active, run_epoch}

abbrev agent : Runtime
agent = record {
  agent_id = "a";
  runtime_id = "r";
  state = active;
  epoch = 0;
  lease_proof = 0;
  recovery_capability = 1;
}

agent-new : new "a" none "r" 0 1 ≡ agent
unfolding new
agent-new = refl

abbrev start : Live
start = record { runtime = agent; next = 2 }

-- contain, then recover with the capability 1 at epoch 1
abbrev cycle : List Call
cycle = contain_call ∷ recover_call 1 (pos 1) ∷ []

cycle_end : (run start cycle).runtime ≡ record agent { epoch = 2; lease_proof = 3 }
unfolding run step contain recover
cycle_end = refl

fenced : (run start (contain_call ∷ [])).runtime.state ≡ contained
unfolding run step contain
fenced = refl

lease_dies_example :
    lease_valid
      (current_lease agent)
      (run start ((contain_call ∷ []) ++ (recover_call 1 (pos 1) ∷ []))).runtime
    ≡ false
unfolding acquire_lease
lease_dies_example =
    lease_dies start (contain_call ∷ []) (recover_call 1 (pos 1) ∷ []) (current_lease agent)
      (omega arith) refl (λ e. cc (fenced, e))

abbrev held : Runtime
held = record agent { state = contained; epoch = 1 }

becomes_active_example :
    ((recover_call 1 (pos 1) ≡ recover_call 1 (pos 1))
      × (held.state ≡ contained)
      × ((step (record { runtime = held; next = 3 }) (recover_call 1 (pos 1))).runtime.epoch
          ≡ 1 + 1))
    ⊎ ((e : ℕ) × (recover_call 1 (pos 1) ≡ Call.restore_active_call (pos e)))
unfolding step recover
becomes_active_example =
    becomes_active (record { runtime = held; next = 3 }) (recover_call 1 (pos 1)) (λ e. cc) refl

run_epoch_example :
    (0 < (run start cycle).runtime.epoch)
    ⊎ (((run start cycle).runtime.epoch ≡ 0) × ((run start cycle).runtime.state ≡ active))
run_epoch_example = run_epoch start cycle (refl, (refl, tt))
