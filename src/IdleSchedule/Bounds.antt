-- ===== src/IdleSchedule/Bounds.antt =====
-- The delays of an idle worker are bounded, grow by doubling, and never spin.
use agent_bench_x.Prelude.{
  ℕ, suc, ◌+◌, ◌*◌, ◌/◌, ◌^◌, ◌≤◌, ◌<◌, ◌≡◌, refl, sym, ap, ◌∙◌, ℕ_order, inl, inr, ◌⊎◌, true,
  false, List, [], ◌∷◌, arith, min, max, length,
}
use native.Mathlib.Nat.{pow-succ', one-le-pow, mul_assoc}
use agent_bench_x.Models.{Moment}
use agent_bench_x.IdleSchedule.{
  IdleSchedule, heartbeat_due, poll_due, wait_seconds, IsUniform, empty,
}

-- The delay stays between the two bounds.
pub record IsBounded (s : IdleSchedule) : Type 0 where
  pub least : s.minimum ≤ s.delay
  pub most : s.delay ≤ s.maximum

module _ (uniform : ℕ → ℕ → ℕ) (fair : IsUniform uniform) where
  -- If the generator draws between its bounds and the delay lies between minimum and maximum, then
  -- after an empty poll the next one comes no sooner than the minimum and no later than the
  -- maximum, no sooner than four fifths of the delay and no later than the delay; the delay
  -- doubles up to the maximum, and stays between the two.
  pub empty_bounds :
      (s : IdleSchedule) (now : Moment)
      → IsBounded s
      → let s' = empty uniform s now in
        (now + s.minimum ≤ s'.next_poll)
        × (s'.next_poll ≤ now + s.maximum)
        × (now + s.delay * 4 / 5 ≤ s'.next_poll)
        × (s'.next_poll ≤ now + s.delay)
        × (s'.delay ≡ min s.maximum (s.delay * 2))
        × IsBounded s'
  unfolding empty
  empty_bounds s now b =
      let (low, high) = fair (max s.minimum (s.delay * 4 / 5)) s.delay (omega arith) in
      (
        omega arith,
        omega arith,
        omega arith,
        omega arith,
        refl,
        record { least = omega arith; most = omega arith },
      )

  abbrev pub empties : IdleSchedule → List Moment → IdleSchedule
  empties s [] = s
  empties s (now ∷ moments) = empties (empty uniform s now) moments

  min-mul : (m e p : ℕ) → 1 ≤ p → min m (min m e * p) ≡ min m (e * p)
  min-mul m e p h = elim (ℕ_order m e) [
    | inl less ↦
        let capped : min m e ≡ m = omega arith in
        let grows : m ≤ m * p = grind arith in
        let more : m * p ≤ e * p = grind arith in rw capped (omega (arith, grows, more))
    | inr most ↦ let uncapped : min m e ≡ e = omega arith in rw uncapped refl
  ]

  -- After `n` empty polls in a row the delay is the first one times 2ⁿ, up to the maximum, if it
  -- was at most the maximum.
  pub empties-delay :
      (s : IdleSchedule) (moments : List Moment)
      → s.delay ≤ s.maximum
      → (empties s moments).delay ≡ min s.maximum (s.delay * 2 ^ length moments)
  unfolding empty
  empties-delay s [] h = omega arith
  empties-delay s (now ∷ moments) h =
      let p = 2 ^ length moments in
      let power : 2 ^ suc (length moments) ≡ 2 * p = pow-succ' 2 (length moments) in
      empties-delay (empty uniform s now) moments (omega arith)
      ∙ (min-mul s.maximum (s.delay * 2) p (one-le-pow (length moments) 2 (omega arith))
          ∙ ap (min s.maximum) (mul_assoc s.delay 2 p ∙ ap (λ (t : ℕ). s.delay * t) (sym power)))

-- Waiting ends no later than the next poll or heartbeat is due, and an idle worker waits a while
-- unless one of them is due now.
pub wait_seconds-due :
    (s : IdleSchedule) (now : Moment)
    → ((heartbeat_due s now ≡ false) × (poll_due s now ≡ false) → 0 < wait_seconds s now)
      × (((heartbeat_due s (now + wait_seconds s now)) ≡ true)
          ⊎ (poll_due s (now + wait_seconds s now) ≡ true))
unfolding heartbeat_due poll_due wait_seconds
wait_seconds-due s now = ((λ h. ground arith), ground arith)
