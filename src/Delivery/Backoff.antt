-- ===== src/Delivery/Backoff.antt =====
-- internal/delivery/delivery.go: BackoffConfig and nextDelay. A duration is a number of
-- nanoseconds, in 64 bits.
use letopis.Prelude.{
  ℕ, zero, suc, ◌*◌, ◌%◌, ◌^◌, Bool, ltb, ◌&&◌, Option, none, some, if◌then◌else◌,
}
use letopis.Prelude.Int.{ℤ, pos, negsuc}

pub record BackoffConfig : Type 0 where
  pub base : ℤ
  pub max : ℤ

-- 500 ms, the delay that stands for a base that is not positive
abbrev pub default_backoff_base : ℕ
default_backoff_base = 500000000

-- 30 s, the delay that stands for a cap that is not positive
abbrev pub default_backoff_max : ℕ
default_backoff_max = 30000000000

-- `if d <= 0 { d = fallback }`
abbrev pub positive_or : ℕ → ℤ → ℕ
positive_or fallback (pos zero) = fallback
positive_or fallback (pos (suc n)) = suc n
positive_or fallback (negsuc n) = fallback

abbrev pub base_of : BackoffConfig → ℕ
base_of cfg = positive_or default_backoff_base cfg.base

abbrev pub max_of : BackoffConfig → ℕ
max_of cfg = positive_or default_backoff_max cfg.max

-- `base << attempt` in 64 bits: what is not below 2 ^ 63 is negative
abbrev pub shifted : ℕ → ℕ → ℕ
shifted base attempt = base * 2 ^ attempt % 18446744073709551616

abbrev pub is_positive : ℕ → Bool
is_positive d = ltb 0 d && ltb d 9223372036854775808

-- the delay before jitter, of an attempt that is not negative
unfoldable pub schedule : ℕ → BackoffConfig → ℕ
schedule attempt cfg =
    let d = shifted (base_of cfg) attempt in
    if ltb attempt 62
    then (if is_positive d && ltb d (max_of cfg) then d else max_of cfg)
    else max_of cfg

-- the guard on the attempt
abbrev pub delay_of : ℤ → BackoffConfig → ℕ
delay_of (pos attempt) cfg = schedule attempt cfg
delay_of (negsuc n) cfg = max_of cfg

-- `none` is a nil jitter.
unfoldable pub next_delay : ℤ → BackoffConfig → Option (ℕ → ℕ) → ℕ
unfolding schedule
next_delay attempt cfg none = delay_of attempt cfg
next_delay attempt cfg (some jitter) = jitter (delay_of attempt cfg)
