-- ===== src/UploadLimiter/Tests.antt =====
-- Examples of limiter.go.
use iflygo.Prelude.{ℕ, refl, [], ◌∷◌}
use iflygo.Prelude.Int.{pos}
use iflygo.UploadLimiter.{UploadLimiter, acquire, set_limit, wake, new_upload_limiter, clamp_limit}
use iflygo.UploadLimiter.Wake.{Wakes, wake_done}
use iflygo.UploadLimiter.Slots.{
  System, take, change, here, next, Inv, Reach-Inv, new_upload_limiter-Inv,
}

-- Two slots, of which two are taken, and a waiter.
abbrev crowded : UploadLimiter
crowded = record { limit = 2; active = 2; waiters = 5 ∷ []; granted = [] }

abbrev first : UploadLimiter → ℕ
first l = 0

abbrev starting : System
starting = record { limiter = new_upload_limiter (pos 1); holders = 0 }

Reach-Inv_example : Inv (record {
  limiter = set_limit first (pos 3) (acquire 8 (new_upload_limiter (pos 1))).0;
  holders = 1;
})
unfolding acquire new_upload_limiter clamp_limit
Reach-Inv_example = Reach-Inv {choose = first} {s = starting} (new_upload_limiter-Inv (pos 1)) (
    next (next here (take 8 starting refl)) (
      change (pos 3)
        (record { limiter = (acquire 8 (new_upload_limiter (pos 1))).0; holders = 1 })))

wake_done_example : Wakes (record crowded { limit = 3 }) (wake first (record crowded { limit = 3 }))
wake_done_example = wake_done first (record crowded { limit = 3 })
