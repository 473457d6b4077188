-- ===== src/Containment/Enforcers.antt =====
-- The loops of containment.py over the configured enforcers: containing with verification, the
-- same as compensation, and releasing with verification.
use agent_containment.Base.{
  ℕ, suc, ◌+◌, String, Bool, Option, none, some, List, [], ◌∷◌, ◌++◌, if◌then◌else◌, is_empty, Exc,
  Result, ok, raised, type_name, concat,
}
use mathlib.Core.List.{reverse}
use agent_containment.Enforcement.{
  Enforcer, EnforcementResult, EnforcementStatus, status_value, is_enforced, is_released,
}

-- The locals of `contain` that its stages change.
pub record Progress (W : Type 0) : Type 0 where
  pub stages : List String
  pub failures : List String
  pub applied_at : Option ℕ
  pub verified : ℕ
  pub world : W

-- `f"{provider}: {what} returned {status}"` with the detail, if there is one.
unfoldable pub returned : String → String → EnforcementResult → String
returned provider what r = concat (
    provider
    ∷ ": "
    ∷ what
    ∷ " returned "
    ∷ status_value r.status
    ∷ (if is_empty r.detail then [] else ": " ∷ r.detail ∷ []))

-- `f"{name}: {type(exc).__name__}: {exc}"`
unfoldable pub raised_by : String → Exc → String
raised_by name x = concat (name ∷ ": " ∷ type_name x.kind ∷ ": " ∷ x.message ∷ [])

-- A reply held against the status that is wanted: a failure to report, if there is one.
unfoldable pub refusal :
    (EnforcementStatus → Bool) → String → String → Result EnforcementResult → Option String
refusal wanted provider what (raised x) = some (raised_by provider x)
refusal wanted provider what (ok r) =
    if wanted r.status then none else some (returned provider what r)

abbrev pub add_failure : Option String → List String → List String
add_failure none failures = failures
add_failure (some f) failures = failures ++ (f ∷ [])

module _ {W : Type 0} where
  -- The nested function `enforce` of `contain`.
  enforced_stage : String → Progress W → Result (Unit {0}) × W → Progress W
  enforced_stage name p (ok _, w) = record p { stages = p.stages ++ (name ∷ []); world = w }
  enforced_stage name p (raised x, w) = record p {
    failures = p.failures ++ (raised_by name x ∷ []);
    world = w;
  }

  unfoldable pub enforce : String → (W → Result (Unit {0}) × W) → Progress W → Progress W
  unfolding enforced_stage
  enforce name callback p = enforced_stage name p (callback p.world)

  abbrev pub fail : Progress W → String → W → Progress W
  fail p failure w = record p { failures = p.failures ++ (failure ∷ []); world = w }

  -- `provider_applied_at or monotonic()`: a reading of 0.0 counts as none.
  unfoldable pub applied : (W → ℕ × W) → Option ℕ → W → Option ℕ × W
  applied monotonic (some (suc t)) w = (some (suc t), w)
  applied monotonic _ w = let (t, w') = monotonic w in (some t, w')

  unfoldable pub after_verification :
      Enforcer W → Option ℕ → Progress W → Result EnforcementResult × W → Progress W
  after_verification e at p (raised x, w) = record (fail p (raised_by e.name x) w) {
    applied_at = at;
  }
  after_verification e at p (ok v, w) =
      if is_enforced v.status
      then record p {
        stages = p.stages ++ (concat ("enforcer:" ∷ e.name ∷ ":verified" ∷ []) ∷ []);
        applied_at = at;
        verified = p.verified + 1;
        world = w;
      }
      else record (fail p (returned e.name "containment verification" v) w) { applied_at = at }

  unfoldable pub after_contain :
      (W → ℕ × W) → String → Enforcer W → Progress W → Result EnforcementResult × W → Progress W
  unfolding applied after_verification
  after_contain monotonic agent e p (raised x, w) = fail p (raised_by e.name x) w
  after_contain monotonic agent e p (ok r, w) =
      if is_enforced r.status
      then (let (at, w') = applied monotonic p.applied_at w in
          after_verification e at p (e.verify_contained agent w'))
      else fail p (returned e.name "contain" r) w

  -- One round of the enforcer loop of `contain`.
  unfoldable pub contain_provider : (W → ℕ × W) → String → Enforcer W → Progress W → Progress W
  unfolding after_contain
  contain_provider monotonic agent e p = after_contain monotonic agent e p (e.contain agent p.world)

  unfoldable pub contain_providers :
      (W → ℕ × W) → String → List (Enforcer W) → Progress W → Progress W
  contain_providers monotonic agent [] p = p
  contain_providers monotonic agent (e ∷ es) p =
      contain_providers monotonic agent es (contain_provider monotonic agent e p)

  -- A call and, if it is not refused, the verification: the failure of the first that is refused.
  unfoldable pub checked :
      (EnforcementStatus → Bool)
      → Enforcer W
      → String
      → String
      → (W → Result EnforcementResult × W)
      → Result EnforcementResult × W
      → Option String × W
  unfolding refusal
  checked wanted e what verified_what verify (r, w) = elim (refusal wanted e.name what r) [
    | some failure ↦ (some failure, w)
    | none ↦ let (v, w') = verify w in (refusal wanted e.name verified_what v, w')
  ]

  -- One round of `recontain_enforcers`, and one of `release_enforcers`.
  unfoldable pub recontain_provider : String → Enforcer W → W → Option String × W
  unfolding checked
  recontain_provider agent e w =
      checked is_enforced e "recontain" "recontain verification" (e.verify_contained agent)
        (e.contain agent w)

  unfoldable pub release_provider : String → Enforcer W → W → Option String × W
  unfolding checked
  release_provider agent e w =
      checked is_released e "release" "release verification" (e.verify_released agent)
        (e.release agent w)

  unfoldable pub each_provider :
      (Enforcer W → W → Option String × W) → List (Enforcer W) → List String → W → List String × W
  each_provider round [] failures w = (failures, w)
  each_provider round (e ∷ es) failures w =
      let (f, w') = round e w in each_provider round es (add_failure f failures) w'

  unfoldable pub recontain_enforcers : String → List (Enforcer W) → W → List String × W
  unfolding each_provider recontain_provider
  recontain_enforcers agent es w = each_provider (recontain_provider agent) es [] w

  unfoldable pub release_enforcers : String → List (Enforcer W) → W → List String × W
  unfolding each_provider release_provider
  release_enforcers agent es w = each_provider (release_provider agent) (reverse es) [] w
