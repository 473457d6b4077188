-- ===== src/CgroupEnforcer/Deadline.antt =====
-- That the loop that waits for the workload's end ends itself.
use agent_containment.Base.{
  ℕ, zero, suc, ◌+◌, ◌*◌, ◌≤◌, ◌≡◌, ◌≢◌, refl, sym, ap, ◌∙◌, ◌⊎◌, inl, inr, String, Bool, true,
  false, Exc, Result, ok, raised, arith, if◌then◌else◌, ltb, Bool-cases,
}
use agent_containment.CgroupEnforcer.{Kernel, is_populated, wait}

Result-cases : {A : Type 0} (r : Result A) → ((x : Exc) × (r ≡ raised x)) ⊎ ((a : A) × (r ≡ ok a))
Result-cases (raised x) = inl (x, refl)
Result-cases (ok a) = inr (a, refl)

if-false :
    {A : Type 0} {b : Bool} (x y z : A) → b ≡ false → (if b then x else z) ≡ (if b then y else z)
if-false x y z f = rw f refl

module _ {W : Type 0} (k : Kernel W) (path : String) where
  -- The clock, as a round of the loop reads it.
  abbrev pub now : W → ℕ
  now w = (k.monotonic (is_populated k path w).1).0

  abbrev pub round : W → W
  round w = k.sleep (k.monotonic (is_populated k path w).1).1

  -- `sleep(0.01)` lasts ten milliseconds at least, and the clock does not go back.
  abbrev pub Ticks : Type 0
  Ticks = (w : W) → now w + 10 ≤ now (round w)

  wait-round :
      (fuel deadline : ℕ) (w : W)
      → (is_populated k path w).0 ≡ ok true
      → wait k (suc fuel) path deadline w ≡ (
          if ltb (now w) deadline
          then wait k fuel path deadline (round w)
          else (ok tt, (k.monotonic (is_populated k path w).1).1))
  unfolding wait
  wait-round fuel deadline w e = rw (e, wait) refl

  -- An empty workload, and an exception, end the loop whatever fuel is left.
  wait-ended :
      (m n deadline : ℕ) (w : W) (r : Result Bool)
      → (is_populated k path w).0 ≡ r
      → r ≢ ok true
      → wait k (suc m) path deadline w ≡ wait k (suc n) path deadline w
  unfolding wait
  wait-ended m n deadline w (raised x) e g = rw (e, wait) refl
  wait-ended m n deadline w (ok false) e g = rw (e, wait) refl
  wait-ended m n deadline w (ok true) e g = absurd (g refl)

  -- So does the deadline.
  wait-late :
      (m n deadline : ℕ) (w : W)
      → (is_populated k path w).0 ≡ ok true
      → ltb (now w) deadline ≡ false
      → wait k (suc m) path deadline w ≡ wait k (suc n) path deadline w
  wait-late m n deadline w e f =
      wait-round m deadline w e
      ∙ if-false (wait k m path deadline (round w)) (wait k n path deadline (round w)) _ f
      ∙ sym (wait-round n deadline w e)

  populated-cases :
      (w : W) → ((is_populated k path w).0 ≡ ok true) ⊎ ((is_populated k path w).0 ≢ ok true)
  populated-cases w = elim (Result-cases (is_populated k path w).0) [
    | inl (x, e) ↦ inr (λ g. cc (e, g))
    | inr (true, e) ↦ inl e
    | inr (false, e) ↦ inr (λ g. cc (e, g))
  ]

  -- If sleeping takes its ten milliseconds, then with one round for every ten milliseconds up to the
  -- deadline, and one more, the loop ends before its fuel does: any more fuel gives the same.
  pub wait-more :
      (fuel more deadline : ℕ) (w : W)
      → Ticks
      → deadline ≤ now w + 10 * fuel
      → wait k (suc fuel) path deadline w ≡ wait k (suc (fuel + more)) path deadline w
  wait-more zero more deadline w t d = elim (populated-cases w) [
    | inr g ↦ wait-ended zero (zero + more) deadline w _ refl g
    | inl e ↦ wait-late zero (zero + more) deadline w e (ground (arith, d))
  ]
  wait-more (suc fuel) more deadline w t d = elim (populated-cases w) [
    | inr g ↦ wait-ended (suc fuel) (suc fuel + more) deadline w _ refl g
    | inl e ↦ elim (Bool-cases (ltb (now w) deadline)) [
      | inr f ↦ wait-late (suc fuel) (suc fuel + more) deadline w e f
      | inl y ↦
          wait-round (suc fuel) deadline w e
          ∙ ap
              (λ r.
                if ltb (now w) deadline
                then r
                else (ok tt, (k.monotonic (is_populated k path w).1).1))
              (wait-more fuel more deadline (round w) t (omega (arith, d, t w))
                ∙ ap (λ f. wait k f path deadline (round w)) (omega arith))
          ∙ sym (wait-round (suc fuel + more) deadline w e)
    ]
  ]

  -- So for the two seconds after a time that the clock has reached, the 202 rounds of the enforcer's
  -- wait are as good as any more.
  wait-enough :
      (start more : ℕ) (w : W)
      → Ticks
      → start ≤ now w
      → wait k 202 path (start + 2000) w ≡ wait k (suc (201 + more)) path (start + 2000) w
  wait-enough start more w t d = wait-more 201 more (start + 2000) w t (omega (arith, d))
