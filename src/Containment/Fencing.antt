-- ===== src/Containment/Fencing.antt =====
-- What `contain` promises whatever the outside world does.
use agent_containment.Base.{
  ◌∙◌, ◌<◌, ap, ℕ, ◌+◌, ◌≡◌, ◌≢◌, ◌↔◌, ◌⊎◌, inl, inr, refl, String, Bool, true, false, Option, none,
  some, List, [], ◌∷◌, arith, Result, ok, raised, Bool-cases, ◌&&◌,
}
use agent_containment.Base.Lists.{length, length-append}
use agent_containment.Runtime
use agent_containment.Runtime.{Ref, Runtime}
use agent_containment.Runtime.Fenced.{IsContained, contain-IsContained}
use agent_containment.Credentials.{CredentialStore}
use agent_containment.Credentials.Revoked.{Revoked, revoke_all-Revoked}
use agent_containment.Enforcement.{Enforcer, EnforcementResult, is_enforced}
use agent_containment.Containment.{
  Controller, Clock, Progress, complete, certified, none_of, contain, contain_provider,
  after_contain, after_verification, applied, raised_by, returned, contain_providers, local_stages,
  fenced_start, all_verified, enforce, revoke_credentials,
}

-- The enforcer returned that it enforces, and its verification then did too.
pub record Confirms {W : Type 0} (monotonic : W → ℕ × W) (agent : String) (e : Enforcer W)
    (p : Progress W) : Type 0 where
  pub reply : EnforcementResult
  pub verification : EnforcementResult
  pub replied : (e.contain agent p.world).0 ≡ ok reply
  pub enforces : is_enforced reply.status ≡ true
  pub verified :
      (e.verify_contained agent (applied monotonic p.applied_at (e.contain agent p.world).1).1).0
      ≡ ok verification
  pub verifies : is_enforced verification.status ≡ true

-- One round: the enforcer confirms and is counted, or it does not and one failure is added.
abbrev Round : {W : Type 0} → Type 0 → Progress W → Progress W → Type 0
Round C p q =
    (C × (q.verified ≡ p.verified + 1) × (q.failures ≡ p.failures))
    ⊎ ((¬ C) × (q.verified ≡ p.verified) × (length q.failures ≡ length p.failures + 1))

module _ {W : Type 0} (monotonic : W → ℕ × W) (agent : String) where
  contain_provider-Round :
      (e : Enforcer W) (p : Progress W)
      → Round (Confirms monotonic agent e p) p (contain_provider monotonic agent e p)
  unfolding contain_provider
  contain_provider-Round e p = on_reply (e.contain agent p.world) refl
    where
      on_verification :
          (r : EnforcementResult) (w : W) (m : Result EnforcementResult × W)
          → e.contain agent p.world ≡ (ok r, w)
          → is_enforced r.status ≡ true
          → e.verify_contained agent (applied monotonic p.applied_at w).1 ≡ m
          → Round
              (Confirms monotonic agent e p)
              p
              (after_verification e (applied monotonic p.applied_at w).0 p m)
      on_verification r w (raised x, w') c en v = inr (
        λ k. cc (k.verified, ap (λ (t : Result EnforcementResult × W). t.0) v, c),
        refl,
        omega (arith, length-append p.failures (raised_by e.name x ∷ [])),
      )
      on_verification r w (ok u, w') c en v = elim (Bool-cases (is_enforced u.status)) [
        | inl good ↦ rw good (
            inl (
              record {
                reply = r;
                verification = u;
                replied = rw c refl;
                enforces = en;
                verified = rw c (rw v refl);
                verifies = good;
              },
              refl,
              refl,
            ))
        | inr bad ↦ rw bad (
            inr (
              λ k. cc (rw v at (rw c at (k.verified)), k.verifies, bad),
              refl,
              omega (
                arith,
                length-append p.failures (returned e.name "containment verification" u ∷ []),
              ),
            ))
      ]

      on_reply :
          (m : Result EnforcementResult × W)
          → e.contain agent p.world ≡ m
          → Round (Confirms monotonic agent e p) p (after_contain monotonic agent e p m)
      on_reply (raised x, w) c = inr (
        λ k. cc (k.replied, c),
        refl,
        omega (arith, length-append p.failures (raised_by e.name x ∷ [])),
      )
      on_reply (ok r, w) c = elim (Bool-cases (is_enforced r.status)) [
        | inl good ↦ rw good (
            on_verification r w (e.verify_contained agent (applied monotonic p.applied_at w).1) c
              good refl)
        | inr bad ↦ rw bad (
            inr (
              λ k. cc (k.replied, c, k.enforces, bad),
              refl,
              omega (arith, length-append p.failures (returned e.name "contain" r ∷ [])),
            ))
      ]

  -- Every enforcer of the list confirms, each where the loop has come to.
  abbrev pub AllConfirm : List (Enforcer W) → Progress W → Type 0
  AllConfirm [] p = Unit
  AllConfirm (e ∷ es) p =
      Confirms monotonic agent e p × AllConfirm es (contain_provider monotonic agent e p)

  -- Over the whole loop: all confirm and no failure is added, or one does not, the count falls
  -- short and some failure was added.
  contain_providers-Round :
      (es : List (Enforcer W)) (p : Progress W)
      → let q = contain_providers monotonic agent es p in
        (AllConfirm es p × (q.verified ≡ p.verified + length es) × (q.failures ≡ p.failures))
        ⊎ ((¬ AllConfirm es p)
            × (q.verified < p.verified + length es)
            × (length p.failures < length q.failures))
  unfolding contain_providers
  contain_providers-Round [] p = inl (tt, omega arith, refl)
  contain_providers-Round (e ∷ es) p =
      join (contain_provider-Round e p) (contain_providers-Round es p')
    where
      p' : Progress W
      p' = contain_provider monotonic agent e p

      join :
          Round (Confirms monotonic agent e p) p (contain_provider monotonic agent e p)
          → (let q = contain_providers monotonic agent es (contain_provider monotonic agent e p) in
              (AllConfirm es (contain_provider monotonic agent e p)
                × (q.verified ≡ (contain_provider monotonic agent e p).verified + length es)
                × (q.failures ≡ (contain_provider monotonic agent e p).failures))
              ⊎ ((¬ AllConfirm es (contain_provider monotonic agent e p))
                  × (q.verified < (contain_provider monotonic agent e p).verified + length es)
                  × (length (contain_provider monotonic agent e p).failures < length q.failures)))
          → (let q = contain_providers monotonic agent es (contain_provider monotonic agent e p) in
              (AllConfirm (e ∷ es) p
                × (q.verified ≡ p.verified + length (e ∷ es))
                × (q.failures ≡ p.failures))
              ⊎ ((¬ AllConfirm (e ∷ es) p)
                  × (q.verified < p.verified + length (e ∷ es))
                  × (length p.failures < length q.failures)))
      join (inl (c, n, f)) (inl (cs, m, g)) = inl ((c, cs), omega arith, g ∙ f)
      join (inl (c, n, f)) (inr (cs, m, g)) =
          inr (λ h. cs h.1, omega arith, omega (arith, ap (λ (l : List String). length l) f))
      join (inr (c, n, f)) (inl (cs, m, g)) =
          inr (λ h. c h.0, omega arith, omega (arith, ap (λ (l : List String). length l) g))
      join (inr (c, n, f)) (inr (cs, m, g)) = inr (λ h. c h.0, omega arith, omega arith)

local_stages-verified :
    {W : Type 0} (c : Controller W) (p : Progress W) → (local_stages c p).1.verified ≡ p.verified
unfolding local_stages enforce
local_stages-verified c p = ground arith

all_verified_iff :
    {W : Type 0} (es : List (Enforcer W)) (n : ℕ)
    → (all_verified es n ≡ true) ↔ ((es ≢ []) × (n ≡ length es))
all_verified_iff [] n = (λ h. cc, λ h. absurd (h.0 refl))
all_verified_iff (e ∷ es) n = (λ h. (λ k. cc, ground arith), λ h. ground arith)

and-split : (a b : Bool) → a && b ≡ true → (a ≡ true) × (b ≡ true)
and-split true b h = (refl, h)
and-split false b h = cc

and-join : (a b : Bool) → a ≡ true → b ≡ true → a && b ≡ true
and-join a b h k = rw h k

none_of-length : (l : List String) → none_of l ≡ true → length l ≡ 0
none_of-length [] h = refl
none_of-length (x ∷ xs) h = cc

pub credentials-Revoked : (s : Option CredentialStore) → Revoked s (revoke_credentials s)
unfolding revoke_credentials
credentials-Revoked none = refl
credentials-Revoked (some s) = revoke_all-Revoked s

module _ {W : Type 0} (clock : Clock W) (fresh : Ref) (c : Controller W) (w : W) where
  -- Whatever the enforcers, callbacks and terminators do: the runtime is contained at the next epoch
  -- with the fresh proof, so that it is not executable and no lease of it is valid; no capability is
  -- left; no lease of a credential is valid, and each credential of the store is at a later epoch;
  -- and the report, which is kept, is of this agent and epoch. The enforcers stay.
  pub contain_fences :
      let ((report, c'), w') = contain clock fresh c w in
      IsContained fresh c.runtime c'.runtime
      × (c'.capabilities ≡ [])
      × Revoked c.credentials c'.credentials
      × (c'.last_report ≡ some report)
      × (report.agent_id ≡ c.runtime.agent_id)
      × (report.epoch ≡ c.runtime.epoch + 1)
      × (c'.enforcers ≡ c.enforcers)
  unfolding contain Runtime.contain
  contain_fences = (
    contain-IsContained fresh c.runtime,
    refl,
    credentials-Revoked c.credentials,
    refl,
    refl,
    refl,
    refl,
  )

  -- Where the stages stand when the loop over the enforcers begins.
  abbrev pub before_enforcers : Progress W
  before_enforcers =
      (local_stages (record c { runtime = Runtime.contain fresh c.runtime })
        (fenced_start (clock.utc_now (clock.monotonic w).1).1)).1

  abbrev after_enforcers : Progress W
  after_enforcers =
      contain_providers clock.monotonic c.runtime.agent_id c.enforcers before_enforcers

  before-verified : before_enforcers.verified ≡ 0
  before-verified =
      local_stages-verified (record c { runtime = Runtime.contain fresh c.runtime })
        (fenced_start (clock.utc_now (clock.monotonic w).1).1)

  loop :
      let q = after_enforcers in
      (AllConfirm clock.monotonic c.runtime.agent_id c.enforcers before_enforcers
        × (q.verified ≡ before_enforcers.verified + length c.enforcers)
        × (q.failures ≡ before_enforcers.failures))
      ⊎ ((¬ AllConfirm clock.monotonic c.runtime.agent_id c.enforcers before_enforcers)
          × (q.verified < before_enforcers.verified + length c.enforcers)
          × (length before_enforcers.failures < length q.failures))
  loop = contain_providers-Round clock.monotonic c.runtime.agent_id c.enforcers before_enforcers

  counted :
      (after_enforcers.verified ≡ length c.enforcers)
      ↔ AllConfirm clock.monotonic c.runtime.agent_id c.enforcers before_enforcers
  counted = elim loop [
    | inl (a, v, _) ↦ (λ _. a, λ _. omega (arith, v, before-verified))
    | inr (a, v, _) ↦ (λ h. absurd (omega (arith, v, h, before-verified)), λ h. absurd (a h))
  ]

  verified_iff : (all_verified c.enforcers after_enforcers.verified ≡ true) ↔ (
      (c.enforcers ≢ [])
      × AllConfirm clock.monotonic c.runtime.agent_id c.enforcers before_enforcers)
  verified_iff =
      let i : (all_verified c.enforcers after_enforcers.verified ≡ true)
          ↔ ((c.enforcers ≢ []) × (after_enforcers.verified ≡ length c.enforcers)) =
        all_verified_iff c.enforcers after_enforcers.verified in
      (λ h. ((i.0 h).0, counted.0 (i.0 h).1), λ h. i.1 (h.0, counted.1 h.1))

  -- Without a failure every enforcer confirmed.
  clean_confirms :
      none_of after_enforcers.failures ≡ true
      → AllConfirm clock.monotonic c.runtime.agent_id c.enforcers before_enforcers
  clean_confirms h = elim loop [
    | inl (a, _, _) ↦ a
    | inr (_, _, f) ↦ absurd (omega (arith, f, none_of-length after_enforcers.failures h))
  ]

  clean_certified :
      (none_of after_enforcers.failures && all_verified c.enforcers after_enforcers.verified ≡ true)
      ↔ ((none_of after_enforcers.failures ≡ true) × (c.enforcers ≢ []))
  clean_certified = (
    λ h.
        let s : (none_of after_enforcers.failures ≡ true)
            × (all_verified c.enforcers after_enforcers.verified ≡ true) =
          and-split (none_of after_enforcers.failures)
            (all_verified c.enforcers after_enforcers.verified) h in
        (s.0, (verified_iff.0 s.1).0),
    λ h.
        and-join (none_of after_enforcers.failures)
          (all_verified c.enforcers after_enforcers.verified) h.0
          (verified_iff.1 (h.1, clean_confirms h.0)),
  )

  -- The report says that the containment is externally verified exactly if there are enforcers and
  -- every one of them confirmed: it returned that it enforces and its verification then did too.
  -- It is certified exactly if no stage failed and there are enforcers.
  pub contain_verified :
      let report = (contain clock fresh c w).0.0 in
      ((report.external_verified ≡ true) ↔ (
        (c.enforcers ≢ [])
        × AllConfirm clock.monotonic c.runtime.agent_id c.enforcers before_enforcers))
      × ((certified report ≡ true) ↔ ((complete report ≡ true) × (c.enforcers ≢ [])))
  unfolding contain Runtime.contain certified
  contain_verified = (verified_iff, clean_certified)
