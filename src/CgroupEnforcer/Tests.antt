-- ===== src/CgroupEnforcer/Tests.antt =====
-- A kernel whose world is its clock: the workload is gone after fifty milliseconds.
use agent_containment.Base.{
  ℕ, suc, ◌+◌, ◌≡◌, refl, true, List, [], ◌∷◌, ok, ltb, if◌then◌else◌, arith,
}
use agent_containment.Base.Dict.{lookup}
use agent_containment.Enforcement.{enforced}
use agent_containment.CgroupEnforcer.{
  Kernel, Identity, Boundaries, EventLine, reply, is_populated, wait, verify_contained,
}
use agent_containment.CgroupEnforcer.Observed.{Observed, verify_contained-Observed}
use agent_containment.CgroupEnforcer.Deadline.{Ticks, wait-more}

abbrev here : Identity
here = record { device = 1; inode = 2; ctime_ns = 3 }

abbrev events : ℕ → List EventLine
events w =
    record { key = "populated"; separator = true; value = (if ltb w 50 then "1" else "0") } ∷ []

abbrev kernel : Kernel ℕ
kernel = record {
  stat = λ path w. (ok here, w);
  is_dir = λ path w. (true, w);
  is_file = λ path control w. (true, w);
  read_events = λ path w. (ok (events w), w);
  write_kill = λ path w. (ok tt, w);
  monotonic = λ w. (w, w);
  sleep = λ w. w + 10;
}

abbrev paths : Boundaries
paths = ("a", ("/a", here)) ∷ []

reaped : verify_contained kernel paths "a" 0 ≡ (ok (reply enforced ""), 50)
unfolding verify_contained lookup
reaped = refl

verify_contained-Observed_example : Observed kernel paths "a" 0 50
verify_contained-Observed_example =
    verify_contained-Observed kernel paths "a" 0 50 (reply enforced "") reaped refl

kernel-Ticks : Ticks kernel "/a"
unfolding is_populated
kernel-Ticks w = omega arith

wait-more_example : wait kernel (suc 4) "/a" 40 0 ≡ wait kernel (suc (4 + 7)) "/a" 40 0
wait-more_example = wait-more kernel "/a" 4 7 40 0 kernel-Ticks (omega arith)
