-- ===== src/RateLimit.antt =====
-- internal/middleware/ratelimit.go: the limiter of requests by client address, fixed and dynamic.
-- Times and durations are nanoseconds; `time.Now()` is an argument of each operation. The mutex
-- makes each operation one step. A map entry is a pointer that only the map holds, so a write
-- through it is a write to the map.
pub mod Window
pub mod Sweep
pub mod Dynamic
mod Tests
use iflygo.Prelude.{
  ℕ, ◌+◌, ◌*◌, String, Bool, true, false, Option, none, some, List, [], ◌∷◌, ltb, str_eq,
  if◌then◌else◌,
}
use iflygo.Prelude.Int.{ℤ, pos, leb_ℤ}
use iflygo.Prelude.Dict.{Dict, empty, insert}

pub record Bucket : Type 0 where
  pub count : ℕ
  pub reset_time : ℕ

pub record RateLimiter : Type 0 where
  pub limits : Dict Bucket
  pub max_req : ℤ
  pub window : ℕ
  pub clean_int : ℕ

unfoldable pub new_rate_limiter : ℤ → ℕ → RateLimiter
new_rate_limiter max_req window = record {
  limits = empty;
  max_req = max_req;
  window = window;
  clean_int = window * 2;
}

-- `now.After(b.resetTime)`.
abbrev pub expired : ℕ → Bucket → Bool
expired now b = ltb b.reset_time now

-- The entry for a new address or a window that is over.
abbrev open_window : ℕ → String → RateLimiter → RateLimiter × Bool
open_window now ip rl = (
  record rl { limits = insert ip (record { count = 1; reset_time = now + rl.window }) rl.limits },
  true,
)

abbrev use_window : String → Bucket → RateLimiter → RateLimiter × Bool
use_window ip b rl =
    if leb_ℤ rl.max_req (pos b.count)
    then (rl, false)
    else (record rl { limits = insert ip (record b { count = b.count + 1 }) rl.limits }, true)

abbrev allow_at : ℕ → String → Option Bucket → RateLimiter → RateLimiter × Bool
allow_at now ip none rl = open_window now ip rl
allow_at now ip (some b) rl = if expired now b then open_window now ip rl else use_window ip b rl

unfoldable pub allow : ℕ → String → RateLimiter → RateLimiter × Bool
allow now ip rl = allow_at now ip (rl.limits ip) rl

abbrev drop_expired : ℕ → Option Bucket → Option Bucket
drop_expired now none = none
drop_expired now (some b) = if expired now b then none else some b

-- One tick of the cleanup goroutine.
unfoldable pub cleanup : ℕ → RateLimiter → RateLimiter
cleanup now rl = record rl { limits = λ ip. drop_expired now (rl.limits ip) }

-- What happens to a limiter: a request from an address, or a tick of the cleanup.
pub data Event : Type 0 where
  request : String → ℕ → Event
  tick : ℕ → Event

abbrev pub time_of : Event → ℕ
time_of (request ip now) = now
time_of (tick now) = now

unfoldable pub step : Event → RateLimiter → RateLimiter
unfolding allow cleanup
step (request ip now) rl = (allow now ip rl).0
step (tick now) rl = cleanup now rl

-- How many requests of `ip` pass along a list of events.
abbrev pub passes : String → Event → RateLimiter → ℕ
passes ip (tick now) rl = 0
passes ip (request j now) rl = if str_eq ip j then (if (allow now j rl).1 then 1 else 0) else 0

unfoldable pub granted : String → List Event → RateLimiter → ℕ
granted ip [] rl = 0
granted ip (e ∷ es) rl = passes ip e rl + granted ip es (step e rl)

abbrev pub requests : String → List Event → ℕ
requests ip [] = 0
requests ip (request j now ∷ es) = (if str_eq ip j then 1 else 0) + requests ip es
requests ip (tick now ∷ es) = requests ip es
