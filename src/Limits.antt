-- ===== src/Limits.antt =====
-- bantam/security.py: DatabaseRateLimiter, which counts the attempts of a key in fixed windows.
-- SHA-256 is a parameter. A count stays far below what INTEGER holds and is taken as a number.
use bantam_bank.Prelude.{
  ℕ, suc, ◌+◌, ◌-◌, ◌*◌, ◌/◌, ◌%◌, ltb, leb, ◌==◌, not, any, find?, update, select, Bool, true,
  false, Option, none, some, List, [], ◌∷◌, if◌then◌else◌,
}
use bantam_bank.Prelude.Text.{Text, ◌==ₜ◌}
use bantam_bank.Domain.{Time}
pub mod Window
pub mod Body
pub mod Tests

pub record RateLimit : Type 0 where
  pub allowed : Bool
  pub retry_after_seconds : ℕ

-- auth_rate_limits
pub record RateRow : Type 0 where
  pub key_hash : Text
  pub window_started_at : Time
  pub attempts : ℕ
  pub updated_at : Time

-- `DatabaseRateLimiter`, with its digest.
pub record Limiter : Type 0 where
  pub sha256 : Text → Text
  pub limit : ℕ
  pub window_seconds : ℕ

abbrev pub max : ℕ → ℕ → ℕ
max a b = if leb a b then b else a

-- `__init__`: at least one attempt, and at least one second.
unfoldable pub new_limiter : (Text → Text) → (limit window : ℕ) → Limiter
new_limiter sha256 limit window = record {
  sha256 = sha256;
  limit = max 1 limit;
  window_seconds = max 1 window;
}

-- The rows, and `_checks` of this replica.
pub record Limits : Type 0 where
  pub rows : List RateRow
  pub checks : ℕ

abbrev pub micros : ℕ → Time
micros seconds = seconds * 1000000

abbrev pub is_key : Text → RateRow → Bool
is_key key_hash r = r.key_hash ==ₜ key_hash

-- `window_started_at <= now() - make_interval(secs => …)`
abbrev pub is_over : (window_seconds : ℕ) → Time → RateRow → Bool
is_over window_seconds now r = leb (r.window_started_at + micros window_seconds) now

-- `DO UPDATE SET`
abbrev pub counted : (window_seconds : ℕ) → Time → RateRow → RateRow
counted window_seconds now r = record r {
  attempts = if is_over window_seconds now r then 1 else suc r.attempts;
  window_started_at = if is_over window_seconds now r then now else r.window_started_at;
  updated_at = now;
}

abbrev pub first_attempt : Text → Time → RateRow
first_attempt key_hash now = record {
  key_hash = key_hash;
  window_started_at = now;
  attempts = 1;
  updated_at = now;
}

-- The INSERT with its conflict: the rows, and the row of `RETURNING`.
unfoldable pub upsert : (window_seconds : ℕ) → Text → Time → List RateRow → RateRow × List RateRow
upsert window_seconds key_hash now rows = elim (find? (is_key key_hash) rows) [
  | none ↦ (first_attempt key_hash now, first_attempt key_hash now ∷ rows)
  | some r ↦
      (counted window_seconds now r, update (is_key key_hash) (counted window_seconds now) rows)
]

-- 24 hours.
abbrev pub day : Time
day = micros 86400

abbrev pub is_kept : Time → RateRow → Bool
is_kept now r = not (ltb (r.updated_at + day) now)

-- `_maintenance_due`, and the DELETE where it is.
unfoldable pub sweep : Time → (checks : ℕ) → List RateRow → Limits
sweep now checks rows = record {
  rows = if suc checks % 256 == 0 then select (is_kept now) rows else rows;
  checks = suc checks;
}

unfoldable pub verdict : Limiter → Time → RateRow → RateLimit
verdict l now r =
    if leb r.attempts l.limit then record { allowed = true; retry_after_seconds = 0 } else record {
      allowed = false;
      retry_after_seconds =
          max 1000000 (r.window_started_at + micros l.window_seconds - now) / 1000000;
    }

-- A call: the key, and `now()` in its two statements.
pub record Check : Type 0 where
  pub key : Text
  pub now : Time
  pub swept_at : Time

-- `check`
unfoldable pub check : Limiter → Check → Limits → RateLimit × Limits
unfolding upsert sweep verdict
check l c state =
    let (r, rows) = upsert l.window_seconds (l.sha256 c.key) c.now state.rows in
    (verdict l c.now r, sweep c.swept_at state.checks rows)
