-- ===== src/Containment/Recovery.antt =====
-- What `ContainmentController.recover` leaves: on every failure the runtime as it was, and a release
-- of the runtime only after every external boundary has confirmed its own.
use agent_containment.Base.{
  ℕ, ◌+◌, ◌≡◌, ◌≢◌, ◌↔◌, inl, inr, refl, String, true, Option, none, some, List, [], ◌∷◌, ap, ℤ,
  pos, Exc, Result, ok, raised, Bool-cases,
}
use mathlib.Core.List.{reverse}
use agent_containment.Runtime
use agent_containment.Runtime.{Ref, Runtime, contained, active}
use agent_containment.Runtime.Recovery.{recover_refused, recover_iff}
use agent_containment.Enforcement.{Enforcer, EnforcementResult, is_released}
use agent_containment.Containment.{
  Controller, RecoveryReport, recover, after_release, after_runtime, aborted, checked,
  release_provider, each_provider, release_enforcers, add_failure, refusal,
}

-- The enforcer returned that it released, and its verification then did too.
pub record Releases {W : Type 0} (agent : String) (e : Enforcer W) (w : W) : Type 0 where
  pub reply : EnforcementResult
  pub verification : EnforcementResult
  pub replied : (e.release agent w).0 ≡ ok reply
  pub releases : is_released reply.status ≡ true
  pub verified : (e.verify_released agent (e.release agent w).1).0 ≡ ok verification
  pub verifies : is_released verification.status ≡ true

-- One round reports no failure exactly if the enforcer releases.
release_provider_iff :
    {W : Type 0} (agent : String) (e : Enforcer W) (w : W)
    → ((release_provider agent e w).0 ≡ none) ↔ Releases agent e w
unfolding release_provider checked refusal
release_provider_iff {W} agent e w = on_reply (e.release agent w) refl
  where
    Closed : Option String × W → Type 0
    Closed q = (q.0 ≡ none) ↔ Releases agent e w

    on_verification :
        (r : EnforcementResult) (w' : W) (m : Result EnforcementResult × W)
        → e.release agent w ≡ (ok r, w')
        → is_released r.status ≡ true
        → e.verify_released agent w' ≡ m
        → Closed (refusal is_released e.name "release verification" m.0, m.1)
    on_verification r w' (raised x, v) c g k =
        (λ h. cc, λ q. cc (ap (λ (t : Result EnforcementResult × W). t.0) k, rw c at (q.verified)))
    on_verification r w' (ok u, v) c g k = elim (Bool-cases (is_released u.status)) [
      | inl good ↦ (
        λ _. record {
          reply = r;
          verification = u;
          replied = rw c refl;
          releases = g;
          verified = rw c (rw k refl);
          verifies = good;
        },
        λ _. rw good refl,
      )
      | inr bad ↦ (λ h. cc (rw bad at h), λ q. cc (rw k at (rw c at (q.verified)), q.verifies, bad))
    ]

    on_reply :
        (m : Result EnforcementResult × W)
        → e.release agent w ≡ m
        → Closed
            (checked is_released e "release" "release verification" (e.verify_released agent) m)
    on_reply (raised x, w') c = (λ h. cc, λ q. cc (q.replied, c))
    on_reply (ok r, w') c = elim (Bool-cases (is_released r.status)) [
      | inl good ↦
          rw (good, checked) (on_verification r w' (e.verify_released agent w') c good refl)
      | inr bad ↦ rw (bad, checked) (λ h. cc, λ q. cc (q.replied, c, q.releases, bad))
    ]

add_failure-keeps : (f : Option String) (l : List String) → l ≢ [] → add_failure f l ≢ []
add_failure-keeps none l h = h
add_failure-keeps (some f) [] h = λ k. cc
add_failure-keeps (some f) (x ∷ l) h = λ k. cc

module _ {W : Type 0} where
  -- Every enforcer of the list releases, each where the loop has come to.
  abbrev pub AllRelease : String → List (Enforcer W) → W → Type 0
  AllRelease agent [] w = Unit
  AllRelease agent (e ∷ es) w =
      Releases agent e w × AllRelease agent es (release_provider agent e w).1

  -- A failure that was found stays.
  each_provider-length :
      (round : Enforcer W → W → Option String × W) (es : List (Enforcer W)) (l : List String)
      (w : W)
      → l ≢ []
      → (each_provider round es l w).0 ≢ []
  unfolding each_provider
  each_provider-length round [] l w h = h
  each_provider-length round (e ∷ es) l w h =
      each_provider-length round es (add_failure (round e w).0 l) (round e w).1
        (add_failure-keeps (round e w).0 l h)

  pub each_provider-release :
      (agent : String) (es : List (Enforcer W)) (w : W)
      → ((each_provider (release_provider agent) es [] w).0 ≡ []) ↔ AllRelease agent es w
  unfolding each_provider
  each_provider-release agent [] w = (λ _. tt, λ _. refl)
  each_provider-release agent (e ∷ es) w =
      step (release_provider agent e w)
        (each_provider-release agent es (release_provider agent e w).1) refl
    where
      step :
          (m : Option String × W)
          → (((each_provider (release_provider agent) es [] m.1).0 ≡ []) ↔ AllRelease agent es m.1)
          → release_provider agent e w ≡ m
          → ((each_provider (release_provider agent) es (add_failure m.0 []) m.1).0 ≡ [])
            ↔ (Releases agent e w × AllRelease agent es m.1)
      step (none, w') i h = (
        λ k. ((release_provider_iff agent e w).0 (ap (λ (t : Option String × W). t.0) h), i.0 k),
        λ k. i.1 k.1,
      )
      step (some f, w') i h = (
        λ k. absurd (each_provider-length (release_provider agent) es (f ∷ []) w' (λ q. cc) k),
        λ k. cc ((release_provider_iff agent e w).1 k.0, ap (λ (t : Option String × W). t.0) h),
      )

-- What a controller is after a recovery that was refused.
abbrev Refused : {W : Type 0} → Controller W → Controller W → Type 0
Refused c c' =
    (report : RecoveryReport) × (c' ≡ record c { last_recovery_report = some report })
    × (report.recovered_epoch ≡ none)
    × (report.failures ≢ [])
    × (report.contained_epoch ≡ c.runtime.epoch)

module _ {W : Type 0} (capability : Ref) (e : ℤ) (fresh : Ref) (c : Controller W) where
  after_runtime-Refused :
      (w : W) (q : Result ℕ × Runtime) (x : Exc)
      → (q.0 ≡ raised x → q.1 ≡ c.runtime)
      → (after_runtime c w q).0.0 ≡ raised x
      → Refused c (after_runtime c w q).0.1
  unfolding after_runtime aborted
  after_runtime-Refused w (ok n, r) x same h = cc
  after_runtime-Refused w (raised y, r) x same h = rw (same h) (_, refl, refl, λ k. cc, refl)

  after_release-Refused :
      (m : List String × W) (x : Exc)
      → (after_release capability e fresh c m).0.0 ≡ raised x
      → Refused c (after_release capability e fresh c m).0.1
  unfolding after_release aborted
  after_release-Refused ([], w) x h =
      after_runtime-Refused w (Runtime.recover capability e fresh c.runtime) x
        (recover_refused capability e fresh c.runtime x) h
  after_release-Refused (f ∷ fs, w) x h = (_, refl, refl, λ k. cc, refl)

  after_release-ok :
      (m : List String × W) (n : ℕ)
      → (after_release capability e fresh c m).0.0 ≡ ok n
      → (m.0 ≡ [])
        × (Runtime.recover capability e fresh c.runtime
            ≡ (ok n, (after_release capability e fresh c m).0.1.runtime))
  unfolding after_release after_runtime
  after_release-ok (f ∷ fs, w) n h = cc
  after_release-ok ([], w) n h = (refl, on_runtime (Runtime.recover capability e fresh c.runtime) h)
    where
      on_runtime :
          (q : Result ℕ × Runtime)
          → (after_runtime c w q).0.0 ≡ ok n
          → q ≡ (ok n, (after_runtime c w q).0.1.runtime)
      on_runtime (ok k, r) p = rw p refl
      on_runtime (raised x, r) p = cc

-- A recovery that raises leaves the controller as it was but for the report it keeps: the runtime
-- in particular, which was not released. The report says that nothing was recovered and names at
-- least one failure.
pub recover_fails_closed :
    {W : Type 0} (capability : Ref) (e : ℤ) (fresh : Ref) (c : Controller W) (w : W) (x : Exc)
    → (recover capability e fresh c w).0.0 ≡ raised x
    → (report : RecoveryReport) × ((recover capability e fresh c w).0.1
        ≡ record c { last_recovery_report = some report })
      × (report.recovered_epoch ≡ none)
      × (report.failures ≢ [])
      × (report.contained_epoch ≡ c.runtime.epoch)
unfolding recover
recover_fails_closed capability e fresh c w x h =
    after_release-Refused capability e fresh c (release_enforcers c.runtime.agent_id c.enforcers w)
      x h

-- A recovery that returns was preceded by the release of every enforcer, in the reverse of their
-- order: each returned that it released and its verification then did too. The runtime was contained
-- at the expected epoch, the capability was its current one, and it is now active at the next epoch.
pub recover_released :
    {W : Type 0} (capability : Ref) (e : ℕ) (fresh : Ref) (c : Controller W) (w : W) (n : ℕ)
    → (recover capability (pos e) fresh c w).0.0 ≡ ok n
    → AllRelease c.runtime.agent_id (reverse c.enforcers) w
      × (capability ≡ c.runtime.recovery_capability)
      × (c.runtime.state ≡ contained)
      × (c.runtime.epoch ≡ e)
      × (n ≡ e + 1)
      × ((recover capability (pos e) fresh c w).0.1.runtime
          ≡ record c.runtime { state = active; epoch = e + 1; lease_proof = fresh })
unfolding recover release_enforcers
recover_released capability e fresh c w n h =
    let (none_failed, q) =
      after_release-ok capability (pos e) fresh c
        (release_enforcers c.runtime.agent_id c.enforcers w) n h in
    let (a, b, d, m, r) = (recover_iff capability e fresh c.runtime).0 n (rw q refl) in
    (
      (each_provider-release c.runtime.agent_id (reverse c.enforcers) w).0 none_failed,
      a,
      b,
      d,
      m,
      cc (q, r),
    )
