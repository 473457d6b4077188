-- ===== src/CgroupEnforcer/Observed.antt =====
-- What the enforcer has observed when it says that a workload is contained, or released.
use agent_containment.Base.{
  ◌≡◌, ◌≢◌, refl, sym, ap, ◌∙◌, inl, inr, String, Bool, true, false, Option, none, some, Exc,
  Result, ok, raised, ok-injective, arith, Bool-cases, Option-cases, concat, [], ◌∷◌,
}
use agent_containment.Base.Dict.{lookup}
use agent_containment.Enforcement.{
  EnforcementResult, EnforcementStatus, enforced, released, verification_failed, not_configured,
  is_enforced, is_released,
}
use agent_containment.CgroupEnforcer.{
  Kernel, Identity, Boundaries, is_populated, identity, controls, identity_checked, verify_identity,
  after_identity, handled, bound, emptied, waited, reaped, verify_contained, verify_released,
  same_identity, reply,
}

module _ {W : Type 0} (k : Kernel W) where
  controls-status :
      (path : String) (w : W) (r : EnforcementResult)
      → (controls k path w).0 ≡ ok (some r)
      → r.status ≡ verification_failed
  unfolding controls
  controls-status path w r h = ground (arith, h)

  identity_checked-status :
      (agent_id path : String) (expected : Identity) (i : Result Identity × W)
      (r : EnforcementResult)
      → (identity_checked k agent_id path expected i).0 ≡ ok (some r)
      → r.status ≡ verification_failed
  unfolding identity_checked
  identity_checked-status agent_id path expected (raised x, w) r h = ground (arith, h)
  identity_checked-status agent_id path expected (ok actual, w) r h =
      elim (Bool-cases (same_identity actual expected)) [
        | inl y ↦ controls-status path w r (rw (y, identity_checked) at h)
        | inr f ↦ ground (arith, rw (f, identity_checked) at h)
      ]

  -- The workload is configured, its identity was verified, and then the rest of the method returned,
  -- and left the world as it is after the call.
  abbrev pub Verified :
      Boundaries
      → (String → W → Result EnforcementResult × W)
      → String
      → W
      → Result EnforcementResult × W
      → Type 0
  Verified paths body agent_id w after =
      (path : String) × (expected : Identity) × (w' : W) × (lookup agent_id paths
        ≡ some (path, expected))
      × (verify_identity k agent_id path expected w ≡ (ok none, w'))
      × (body path w' ≡ after)

  verify_identity-status :
      (agent_id path : String) (expected : Identity) (w : W) (r : EnforcementResult)
      → (verify_identity k agent_id path expected w).0 ≡ ok (some r)
      → r.status ≡ verification_failed
  unfolding verify_identity
  verify_identity-status agent_id path expected w r h =
      identity_checked-status agent_id path expected (identity k path w) r h

  handled-raised :
      (status : EnforcementStatus) (x : Exc) (w after : W) (r : EnforcementResult)
      → handled k status (raised x, w) ≡ (ok r, after)
      → r.status ≡ status
  unfolding handled
  handled-raised status x w after r h = ap (λ z. z.status) (sym (ok-injective (ap (λ z. z.0) h)))

  handled-ok :
      (status : EnforcementStatus) (v : Result EnforcementResult × W) (after : W)
      (r : EnforcementResult)
      → handled k status v ≡ (ok r, after)
      → r.status ≢ status
      → v ≡ (ok r, after)
  unfolding handled
  handled-ok status (raised x, w) after r h n = absurd (n (handled-raised status x w after r h))
  handled-ok status (ok q, w) after r h n = h

  after_identity-Verified :
      (status : EnforcementStatus) (body : W → Result EnforcementResult × W)
      (v : Result (Option EnforcementResult) × W) (after : W) (r : EnforcementResult)
      → ((q : EnforcementResult) → v.0 ≡ ok (some q) → q.status ≡ verification_failed)
      → handled k status (after_identity k body v) ≡ (ok r, after)
      → r.status ≢ status
      → r.status ≢ verification_failed
      → (w' : W) × (v ≡ (ok none, w')) × (body w' ≡ (ok r, after))
  unfolding after_identity
  after_identity-Verified status body (raised x, w) after r q h n m =
      absurd (n (handled-raised status x w after r h))
  after_identity-Verified status body (ok (some p), w) after r q h n m =
      let e = ap (λ z. z.0) (handled-ok status (ok p, w) after r h n) in
      absurd (m (ap (λ z. z.status) (sym (ok-injective e)) ∙ q p refl))
  after_identity-Verified status body (ok none, w) after r q h n m =
      (w, refl, handled-ok status (body w) after r h n)

  bound-Verified :
      (paths : Boundaries) (status : EnforcementStatus)
      (body : String → W → Result EnforcementResult × W) (agent_id : String) (w after : W)
      (r : EnforcementResult)
      → bound k paths status body agent_id w ≡ (ok r, after)
      → r.status ≢ status
      → r.status ≢ verification_failed
      → r.status ≢ not_configured
      → Verified paths body agent_id w (ok r, after)
  unfolding bound
  bound-Verified paths status body agent_id w after r h n m c =
      elim (Option-cases (lookup agent_id paths)) [
        | inl e ↦
            let g : ◌≡◌ {A = Result EnforcementResult × W}
                (
                  ok (
                      reply not_configured
                        (concat ("no cgroup configured for agent " ∷ agent_id ∷ []))),
                  w,
                )
                (ok r, after) =
              rw (e, bound) at h in
            absurd (c (ap (λ z. z.status) (sym (ok-injective (ap (λ z. z.0) g)))))
        | inr ((path, expected), e) ↦
            let (w', v, b) =
              after_identity-Verified status (body path)
                (verify_identity k agent_id path expected w) after r
                (verify_identity-status agent_id path expected w) (rw (e, bound) at h) n m in
            (path, expected, w', e, v, b)
      ]

  emptied-good :
      (good bad : EnforcementStatus) (detail : String) (p : Result Bool × W) (after : W)
      (r : EnforcementResult)
      → emptied k good bad detail p ≡ (ok r, after)
      → r.status ≢ bad
      → p ≡ (ok false, after)
  unfolding emptied
  emptied-good good bad detail (raised x, w) after r h n = cc (ap (λ z. z.0) h)
  emptied-good good bad detail (ok true, w) after r h n =
      absurd (n (ap (λ z. z.status) (sym (ok-injective (ap (λ z. z.0) h)))))
  emptied-good good bad detail (ok false, w) after r h n = ap (λ z. (ok false, z.1)) h

  -- The workload that is configured for the agent had its expected identity, and the last call of the
  -- kernel, the one that leaves the world as it is after, observed that it has no process.
  abbrev pub Observed : Boundaries → String → W → W → Type 0
  Observed paths agent_id w after =
      (path : String) × (expected : Identity) × (w' : W) × (last : W) × (lookup agent_id paths
        ≡ some (path, expected))
      × (verify_identity k agent_id path expected w ≡ (ok none, w'))
      × (is_populated k path last ≡ (ok false, after))

  waited-empty :
      (agent_id path : String) (u : Result (Unit {0}) × W) (after : W) (r : EnforcementResult)
      → waited k agent_id path u ≡ (ok r, after)
      → r.status ≢ verification_failed
      → (last : W) × (is_populated k path last ≡ (ok false, after))
  unfolding waited
  waited-empty agent_id path (raised x, w) after r h n = cc (ap (λ z. z.0) h)
  waited-empty agent_id path (ok _, w) after r h n =
      (w, emptied-good enforced verification_failed _ (is_populated k path w) after r h n)

  reaped-empty :
      (agent_id path : String) (w after : W) (r : EnforcementResult)
      → reaped k agent_id path w ≡ (ok r, after)
      → r.status ≢ verification_failed
      → (last : W) × (is_populated k path last ≡ (ok false, after))
  unfolding reaped
  reaped-empty agent_id path w after r h n = waited-empty agent_id path _ after r h n

  -- The enforcer says that an agent is contained only if its workload was configured, still had the
  -- identity that it had at construction, and the last thing that was asked of the kernel, after
  -- which nothing else was called, observed it without a process.
  pub verify_contained-Observed :
      (paths : Boundaries) (agent_id : String) (w after : W) (r : EnforcementResult)
      → verify_contained k paths agent_id w ≡ (ok r, after)
      → is_enforced r.status ≡ true
      → Observed paths agent_id w after
  unfolding verify_contained
  verify_contained-Observed paths agent_id w after r h g =
      let e : r.status ≡ enforced = ground (arith, g) in
      let (path, expected, w', found, v, b) =
        bound-Verified paths verification_failed (reaped k agent_id) agent_id w after r h
          (λ z. cc (e, z)) (λ z. cc (e, z)) (λ z. cc (e, z)) in
      let (last, empty) = reaped-empty agent_id path w' after r b (λ z. cc (e, z)) in
      (path, expected, w', last, found, v, empty)

  -- It says that an agent is released only if its workload was configured, still had its identity,
  -- and was then observed without a process.
  pub verify_released-Observed :
      (paths : Boundaries) (agent_id : String) (w after : W) (r : EnforcementResult)
      → verify_released k paths agent_id w ≡ (ok r, after)
      → is_released r.status ≡ true
      → Observed paths agent_id w after
  unfolding verify_released
  verify_released-Observed paths agent_id w after r h g =
      let e : r.status ≡ released = ground (arith, g) in
      let (path, expected, w', found, v, b) =
        bound-Verified paths verification_failed _ agent_id w after r h (λ z. cc (e, z))
          (λ z. cc (e, z)) (λ z. cc (e, z)) in
      (
        path,
        expected,
        w',
        w',
        found,
        v,
        emptied-good released verification_failed _ (is_populated k path w') after r b
            (λ z. cc (e, z)),
      )
