-- ===== src/Delivery/Task.antt =====
-- internal/delivery/delivery.go: Task, and the configuration and the dead letter of
-- internal/delivery/dispatcher.go.
use letopis.Prelude.{ℕ, Str}
use letopis.Prelude.Int.{ℤ}
use letopis.Delivery.Backoff.{BackoffConfig}

-- where the tenant's database is
pub record TenantRef : Type 0 where
  pub id : Str
  pub db_uri : Str
  pub db_name : Str

pub record Task : Type 0 where
  pub tenant : TenantRef
  pub delivery_id : Str
  pub rule_id : Str
  pub rule_name : Str
  pub collection : Str
  pub url : Str
  pub secret_ref : Str
  pub timeout_ms : ℤ
  pub max_attempts : ℤ
  pub attempt : ℕ
  pub body : Str

pub record Config : Type 0 where
  pub default_timeout : ℤ
  pub max_attempts : ℤ
  pub backoff : BackoffConfig
  pub reclaim_interval : ℤ
  pub reclaim_min_idle : ℤ

-- The letter without its random id and its time.
pub record DeadLetter : Type 0 where
  pub rule_id : Str
  pub collection : Str
  pub delivery_id : Str
  pub url : Str
  pub secret_ref : Str
  pub body : Str
  pub attempts : ℕ
  pub last_error : Str
