-- ===== src/Config/Timely.antt =====
-- bantam/config.py: the durations that `Settings.from_env` reads.
use bantam_bank.Prelude.{◌<◌, ◌≡◌, Bool, arith}
use bantam_bank.Domain.{Time}
use bantam_bank.Errors.{ok}
use Prim.Native.String.{String}
use bantam_bank.Config.{Platform}
use bantam_bank.Config.Environment
use bantam_bank.Config.Reading
use bantam_bank.Config.Reading.{Env}
use bantam_bank.Config.{Config}
use bantam_bank.Errors.{◌>>=◌}
use bantam_bank.Config.Environment.{Pool, Thresholds, Switches, Values, Lifetimes, Bounds}

duration-pos :
    {N : Type 0} (platform : Platform N) (env : Env) (name default : String) (t : Time)
    → Reading.duration platform env name default ≡ ok t
    → 0 < t
unfolding Reading.duration
duration-pos platform env name default t e = ground (arith, e)

read_lifetimes-pos :
    {N : Type 0} (platform : Platform N) (env : Env) (l : Lifetimes)
    → Environment.read_lifetimes platform env ≡ ok l
    → (0 < l.jwt_ttl) × (0 < l.transaction_ttl) × (0 < l.step_up_ttl) × (0 < l.sca_ttl)
unfolding Environment.read_lifetimes
read_lifetimes-pos platform env l e = (
  ground (arith, e, duration-pos platform env "JWT_TTL" "15m" l.jwt_ttl),
  ground (arith, e, duration-pos platform env "MFA_TRANSACTION_TTL" "5m" l.transaction_ttl),
  ground (arith, e, duration-pos platform env "MFA_STEP_UP_TTL" "5m" l.step_up_ttl),
  ground (arith, e, duration-pos platform env "SCA_TTL" "5m" l.sca_ttl),
)

read_bounds-pos :
    {N : Type 0} (platform : Platform N) (env : Env) (b : Bounds N)
    → Environment.read_bounds platform env ≡ ok b
    → 0 < b.window
unfolding Environment.read_bounds
read_bounds-pos platform env b e =
    ground (arith, e, duration-pos platform env "AUTH_RATE_LIMIT_WINDOW" "5m" b.window)

-- Five readings, one after the other, that all give a value.
five_parts :
    {N : Type 0} (a : Config Pool) (b : Config Lifetimes) (c : Config Thresholds)
    (d : Config (Bounds N)) (f : Config Switches) (v : Values N)
    → (do
      pool ← a
      lifetimes ← b
      thresholds ← c
      bounds ← d
      switches ← f
      ok (record {
        pool = pool;
        lifetimes = lifetimes;
        thresholds = thresholds;
        bounds = bounds;
        switches = switches;
      }))
      ≡ ok v
    → (a ≡ ok v.pool)
      × (b ≡ ok v.lifetimes)
      × (c ≡ ok v.thresholds)
      × (d ≡ ok v.bounds)
      × (f ≡ ok v.switches)
five_parts a b c d f v e =
    (ground (arith, e), ground (arith, e), ground (arith, e), ground (arith, e), ground (arith, e))

pub read_values_parts :
    {N : Type 0} (platform : Platform N) (env : Env) (developing : Bool) (v : Values N)
    → Environment.read_values platform env developing ≡ ok v
    → (Environment.read_pool platform env ≡ ok v.pool)
      × (Environment.read_lifetimes platform env ≡ ok v.lifetimes)
      × (Environment.read_thresholds platform env ≡ ok v.thresholds)
      × (Environment.read_bounds platform env ≡ ok v.bounds)
      × (Environment.read_switches platform env developing ≡ ok v.switches)
unfolding Environment.read_values
read_values_parts platform env developing v e =
    five_parts (Environment.read_pool platform env) (Environment.read_lifetimes platform env)
      (Environment.read_thresholds platform env) (Environment.read_bounds platform env)
      (Environment.read_switches platform env developing) v e

-- The lifetimes that are read are positive.
pub record IsTimely {N : Type 0} (v : Values N) : Type 0 where
  pub lifetimes :
      (0 < v.lifetimes.jwt_ttl)
      × (0 < v.lifetimes.transaction_ttl)
      × (0 < v.lifetimes.step_up_ttl)
      × (0 < v.lifetimes.sca_ttl)
  pub window : 0 < v.bounds.window

pub read_values-IsTimely :
    {N : Type 0} (platform : Platform N) (env : Env) (developing : Bool) (v : Values N)
    → Environment.read_values platform env developing ≡ ok v
    → IsTimely v
read_values-IsTimely platform env developing v e =
    let (_, lifetimes, _, bounds, _) = read_values_parts platform env developing v e in
    record {
      lifetimes = read_lifetimes-pos platform env v.lifetimes lifetimes;
      window = read_bounds-pos platform env v.bounds bounds;
    }
