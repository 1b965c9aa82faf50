-- ===== src/Delivery/Schedule.antt =====
-- internal/delivery/delivery.go: the bounds of a delay and the schedule that the code means.
use native.Mathlib.Nat.{mul-pos}
use letopis.Prelude.{
  ◌≡◌, ℕ, zero, suc, ◌*◌, ◌%◌, ◌^◌, ◌<◌, ◌≤◌, ◌&&◌, ltb, if◌then◌else◌, arith, none, some,
}
use letopis.Prelude.Int.{ℤ, pos, negsuc}
use letopis.Delivery.Backoff.{
  BackoffConfig, positive_or, base_of, max_of, default_backoff_base, default_backoff_max, shifted,
  schedule, next_delay, is_positive,
}

positive_or-positive : (fallback : ℕ) (d : ℤ) → 0 < fallback → 0 < positive_or fallback d
positive_or-positive fallback (pos zero) h = h
positive_or-positive fallback (pos (suc n)) h = omega arith
positive_or-positive fallback (negsuc n) h = h

schedule-bounds :
    (attempt d m : ℕ)
    → 0 < m
    → 0 < (if ltb attempt 62 then (if is_positive d && ltb d m then d else m) else m)
      × (if ltb attempt 62 then (if is_positive d && ltb d m then d else m) else m) ≤ m
schedule-bounds attempt d m h = ground arith

le_trans : {a b c : ℕ} → a ≤ b → b ≤ c → a ≤ c
le_trans h k = omega arith

clipped-min :
    (attempt d m : ℕ)
    → attempt < 62
    → d < 9223372036854775808
    → 0 < d
    → (if ltb attempt 62
        then (let r = d % 18446744073709551616 in if is_positive r && ltb r m then r else m)
        else m)
      ≡ (if ltb d m then d else m)
clipped-min attempt d m early small positive =
    let wrapped : d % 18446744073709551616 ≡ d = omega arith in ground arith

pow-positive : (n : ℕ) → 0 < 2 ^ n
pow-positive zero = omega arith
pow-positive (suc n) = let h = pow-positive n in omega arith

product-positive : (b n : ℕ) → 0 < b → 0 < b * 2 ^ n
product-positive b n h = mul-pos h (pow-positive n)

-- Whatever the attempt and the configuration are, the delay before jitter is positive and at most
-- the configured cap, and a jitter that stays below its bound stays below the cap.
pub next_delay_bounds :
    (attempt : ℤ) (cfg : BackoffConfig) (jitter : ℕ → ℕ)
    → ((d : ℕ) → jitter d ≤ d)
    → 0 < next_delay attempt cfg none
      × next_delay attempt cfg none ≤ max_of cfg
      × next_delay attempt cfg (some jitter) ≤ max_of cfg
unfolding next_delay schedule
next_delay_bounds (negsuc n) cfg jitter h =
    let m = positive_or-positive default_backoff_max cfg.max (omega arith) in
    (m, omega arith, h (max_of cfg))
next_delay_bounds (pos attempt) cfg jitter h =
    let m = positive_or-positive default_backoff_max cfg.max (omega arith) in
    let b = schedule-bounds attempt (shifted (base_of cfg) attempt) (max_of cfg) m in
    (b.0, b.1, le_trans (h (schedule attempt cfg)) b.1)

-- As long as the doubled base stays below 2 ^ 63, the delay before jitter is the smaller one of
-- the base doubled at each attempt and the cap.
pub next_delay_min :
    (attempt : ℕ) (cfg : BackoffConfig)
    → attempt < 62
    → base_of cfg * 2 ^ attempt < 9223372036854775808
    → next_delay (pos attempt) cfg none ≡ (
        if ltb (base_of cfg * 2 ^ attempt) (max_of cfg)
        then base_of cfg * 2 ^ attempt
        else max_of cfg)
unfolding next_delay schedule
next_delay_min attempt cfg early small =
    clipped-min attempt (base_of cfg * 2 ^ attempt) (max_of cfg) early small (
      product-positive (base_of cfg) attempt
        (positive_or-positive default_backoff_base cfg.base (omega arith)))
