-- ===== src/Product/Metrics.antt =====
-- BatchMetrics of internal/domain/product/batch.go: counters that are 64-bit words.
use cross_border_ecommerce.Base.{ℕ, ◌+◌, ◌||◌, is_negative, Result, negative_metric, fail_if}

pub record BatchMetrics : Type 0 where
  pub seen : ℕ
  pub new : ℕ
  pub changed : ℕ
  pub unchanged : ℕ
  pub failures : ℕ

abbrev pub no_metrics : BatchMetrics
no_metrics = record { seen = 0; new = 0; changed = 0; unchanged = 0; failures = 0 }

-- BatchMetrics.Validate.
unfoldable pub validate_metrics : BatchMetrics → Result (Unit {0})
validate_metrics m =
    fail_if
      (is_negative m.seen
        || (is_negative m.new
            || (is_negative m.changed || (is_negative m.unchanged || is_negative m.failures))))
      negative_metric

-- The addition of counters by a statement of the database.
abbrev pub sum_metrics : BatchMetrics → BatchMetrics → BatchMetrics
sum_metrics a b = record {
  seen = a.seen + b.seen;
  new = a.new + b.new;
  changed = a.changed + b.changed;
  unchanged = a.unchanged + b.unchanged;
  failures = a.failures + b.failures;
}
