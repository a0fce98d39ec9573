-- ===== src/Llm/Delay.antt =====
-- llm_client.go: the delays of calculateDelay.
use native.Mathlib.Nat.{pow-le-pow_right}
use go_debug_agent.Prelude.{ℕ, ◌+◌, ◌*◌, ◌/◌, ◌^◌, ◌≤◌, ◌<◌, ◌≡◌, refl, true, some, arith, min}
use go_debug_agent.Prelude.Int.{ℤ, pos, negsuc, to_int64_small, exceeds}
use go_debug_agent.Llm.Types.{LlmConfig, Network}
use go_debug_agent.Llm.Retry.{delay_ms, milliseconds, calculate_delay, cap_delay}

abbrev pub FitsUpTo : ℕ → ℤ → Type 0
FitsUpTo base (pos n) = base * 2 ^ n * 2 < 2 ^ 63
FitsUpTo base (negsuc n) = Unit

-- The delay of the last turn, jitter included, stays clear of the sign bit.
abbrev pub DelaysFit : LlmConfig → Type 0
DelaysFit cfg = FitsUpTo cfg.retry_base_delay_ms cfg.max_retries

cap_delay-pos : (m d : ℕ) → cap_delay m (pos d) ≡ pos (min d m)
unfolding cap_delay
cap_delay-pos m d = ground arith

base_fits :
    (base attempt : ℕ) (max_retries : ℤ)
    → FitsUpTo base max_retries
    → exceeds max_retries attempt ≡ true
    → base * 2 ^ attempt * 2 < 2 ^ 63
base_fits base attempt (pos n) fit more =
    let le : attempt ≤ n = ground arith in
    let p : 2 ^ attempt ≤ 2 ^ n = pow-le-pow_right (omega arith) le in grind (arith, p, fit)
base_fits base attempt (negsuc n) fit more = cc

module _ {W X : Type 0} (net : Network W X) (cfg : LlmConfig) (attempt : ℕ) (w : W) where
  -- The delay in milliseconds.
  delay_ms_bounds :
      ((n : ℕ) (v : W) → 1 ≤ n → (net.intn n v).0 < n)
      → DelaysFit cfg
      → exceeds cfg.max_retries attempt ≡ true
      → let base = cfg.retry_base_delay_ms * 2 ^ attempt in
        (d : ℕ) × (v : W) × (delay_ms net cfg attempt w ≡ some (pos d, v))
        × (d ≤ cfg.retry_max_delay_ms)
        × (min base cfg.retry_max_delay_ms ≤ d)
        × (d ≤ base + base / 2)
  unfolding delay_ms
  delay_ms_bounds rand fit more =
      let b = cfg.retry_base_delay_ms * 2 ^ attempt in
      let small : b * 2 < 2 ^ 63 =
        base_fits cfg.retry_base_delay_ms attempt cfg.max_retries fit more in
      let j = (net.intn (b / 2 + 1) w).0 in
      let jl : j < b / 2 + 1 = rand (b / 2 + 1) w (omega arith) in
      let m = cfg.retry_max_delay_ms in
      (
        min (b + j) m,
        (net.intn (b / 2 + 1) w).1,
        rw (to_int64_small b (omega arith), delay_ms)
            (rw (to_int64_small (b + j) (omega arith), cap_delay-pos m (b + j)) refl),
        omega arith,
        omega arith,
        omega arith,
      )

  -- While the product and the sum of calculateDelay fit in 64 bits, and rand.Intn stays below its
  -- bound, calculateDelay returns before the last turn.
  pub calculate_delay_returns :
      ((n : ℕ) (v : W) → 1 ≤ n → (net.intn n v).0 < n)
      → DelaysFit cfg
      → exceeds cfg.max_retries attempt ≡ true
      → (d : ℤ) × (v : W) × (calculate_delay net cfg attempt w ≡ some (d, v))
  unfolding calculate_delay
  calculate_delay_returns rand fit more =
      let (d, v, eq, _, _, _) = delay_ms_bounds rand fit more in
      (milliseconds (pos d), v, rw (eq, calculate_delay) refl)

  -- While the delays fit in 64 bits, the maximum also in nanoseconds, and rand.Intn stays below its
  -- bound, calculateDelay returns before the last turn: a delay in nanoseconds of at most the maximum,
  -- at most one and a half times the base delay doubled for each turn, and at least that or the
  -- maximum.
  pub calculate_delay_bounds :
      ((n : ℕ) (v : W) → 1 ≤ n → (net.intn n v).0 < n)
      → DelaysFit cfg
      → cfg.retry_max_delay_ms * 1000000 < 2 ^ 63
      → exceeds cfg.max_retries attempt ≡ true
      → let base = cfg.retry_base_delay_ms * 2 ^ attempt in
        (d : ℕ) × (v : W) × (calculate_delay net cfg attempt w ≡ some (pos d, v))
        × (d ≤ cfg.retry_max_delay_ms * 1000000)
        × (min base cfg.retry_max_delay_ms * 1000000 ≤ d)
        × (d ≤ (base + base / 2) * 1000000)
  unfolding calculate_delay milliseconds
  calculate_delay_bounds rand fit small more =
      let (d, v, eq, most, least, top) = delay_ms_bounds rand fit more in
      (
        d * 1000000,
        v,
        rw (eq, calculate_delay) (rw (to_int64_small (d * 1000000) (omega arith)) refl),
        omega arith,
        omega arith,
        omega arith,
      )
