-- ===== src/RateLimit/Tests.antt =====
-- Examples of ratelimit.go: three requests per window of ten.
use iflygo.Prelude.{◌≡◌, false, none, List, [], ◌∷◌, arith, min, max}
use iflygo.Prelude.Int.{pos, pos_part}
use iflygo.Prelude.Dict.{insert, empty}
use iflygo.RateLimit.{RateLimiter, Event, request, tick, granted, requests}
use iflygo.RateLimit.Window.{granted_in_window}
use iflygo.RateLimit.Dynamic.{DynamicRateLimiter}

abbrev three : RateLimiter
three = record { limits = empty; max_req = pos 3; window = 10; clean_int = 20 }

abbrev busy : List Event
busy = request "a" 6 ∷ request "b" 7 ∷ request "a" 8 ∷ tick 9 ∷ request "a" 9 ∷ []

granted_in_window_example :
    granted "a" (request "a" 5 ∷ busy) three
    ≡ min (requests "a" (request "a" 5 ∷ busy)) (max 1 (pos_part three.max_req))
granted_in_window_example = granted_in_window "a" 5 busy three tt (omega arith)

abbrev used : RateLimiter
used = record three { limits = insert "a" (record { count = 1; reset_time = 15 }) empty }

abbrev new_dynamic : DynamicRateLimiter
new_dynamic = record { cur = none; cur_limit = pos 0; window = 10; stopped = false }
