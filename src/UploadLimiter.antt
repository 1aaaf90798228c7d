-- ===== src/UploadLimiter.antt =====
-- internal/logic/artifact/limiter.go: the limiter of concurrent uploads, whose limit can change
-- while it is in use.
--
-- The critical sections under the mutex are the steps. A waiter is a number; `granted` holds the
-- waiters in whose channel a slot lies that their goroutine has not yet received, and `holders`
-- counts the callers that have a slot and have not released it. Go's `for w := range waiters`
-- picks any waiter: the choice is an argument of `wake`.
pub mod Wake
pub mod Slots
mod Tests
use iflygo.Prelude.{
  ℕ, zero, suc, ◌+◌, ◌-◌, Bool, true, false, Option, none, some, List, [], ◌∷◌, ltb, leb, ◌==◌,
  if◌then◌else◌, length, any_of,
}
use iflygo.Prelude.Int.{ℤ, pos, negsuc, pos_part, leb_ℤ, ltb_ℤ}

abbrev pub default_upload_concurrency : ℕ
default_upload_concurrency = 4

abbrev pub max_upload_concurrency : ℕ
max_upload_concurrency = 64

pub record UploadLimiter : Type 0 where
  pub limit : ℕ
  pub active : ℕ
  pub waiters : List ℕ
  pub granted : List ℕ

-- The limit that is set for a requested one.
unfoldable pub clamp_limit : ℤ → ℕ
clamp_limit n =
    if leb_ℤ n (pos 0)
    then default_upload_concurrency
    else if ltb_ℤ (pos max_upload_concurrency) n
    then max_upload_concurrency
    else pos_part n

unfoldable pub new_upload_limiter : ℤ → UploadLimiter
new_upload_limiter limit = record {
  limit = clamp_limit limit;
  active = 0;
  waiters = [];
  granted = [];
}

-- Takes the element at a place out of a list; the last one if the place is past it.
abbrev pub pick : ℕ → ℕ → List ℕ → ℕ × List ℕ
pick i w [] = (w, [])
pick zero w (v ∷ ws) = (w, v ∷ ws)
pick (suc i) w (v ∷ ws) = let (x, rest) = pick i v ws in (x, w ∷ rest)

-- One round of `wakeLocked` for the waiter that the map iteration meets first.
abbrev pub grant_slot : ℕ → List ℕ → UploadLimiter → UploadLimiter
grant_slot w rest l = record l { waiters = rest; active = l.active + 1; granted = w ∷ l.granted }

-- One turn of `wakeLocked`'s loop: `more` is the rest of the loop, `i` the choice.
abbrev pub wake_turn : (UploadLimiter → UploadLimiter) → ℕ → List ℕ → UploadLimiter → UploadLimiter
wake_turn more i [] l = l
wake_turn more i (w ∷ ws) l =
    let (x, rest) = pick i w ws in
    let woken = more (grant_slot x rest l) in if ltb l.active l.limit then woken else l

-- `wakeLocked`, for at most `fuel` rounds. `choose` is the choice in each state.
unfoldable pub wake_locked : (UploadLimiter → ℕ) → ℕ → UploadLimiter → UploadLimiter
wake_locked choose zero l = l
wake_locked choose (suc fuel) l = wake_turn (wake_locked choose fuel) (choose l) l.waiters l

-- Every round takes a waiter, so their number is fuel enough (`Wake.wake_done`).
unfoldable pub wake : (UploadLimiter → ℕ) → UploadLimiter → UploadLimiter
unfolding wake_locked
wake choose l = wake_locked choose (length l.waiters) l

-- The first critical section of `acquire`: a slot, or a place among the waiters.
unfoldable pub acquire : ℕ → UploadLimiter → UploadLimiter × Bool
acquire w l =
    if ltb l.active l.limit
    then (record l { active = l.active + 1 }, true)
    else (record l { waiters = w ∷ l.waiters }, false)

unfoldable pub release : (UploadLimiter → ℕ) → UploadLimiter → UploadLimiter
release choose l = wake choose (if ltb 0 l.active then record l { active = l.active - 1 } else l)

unfoldable pub set_limit : (UploadLimiter → ℕ) → ℤ → UploadLimiter → UploadLimiter
set_limit choose n l = wake choose (record l { limit = clamp_limit n })

-- `delete`: a waiter stands in the map once.
abbrev pub without : ℕ → List ℕ → List ℕ
without w [] = []
without w (v ∷ ws) = if v == w then ws else v ∷ without w ws

abbrev pub contains : ℕ → List ℕ → Bool
contains w = any_of (λ v. v == w)

-- The waiter receives its slot from the channel. With its context done in the meantime it gives
-- the slot back and fails.
unfoldable pub receive : (UploadLimiter → ℕ) → ℕ → Bool → UploadLimiter → UploadLimiter × Bool
receive choose w ctx_done l =
    let l' = record l { granted = without w l.granted } in
    if ctx_done then (release choose l', false) else (l', true)

-- The waiter's context ends first: it leaves the map, or, where a slot was granted meanwhile, it
-- gives the slot back.
unfoldable pub cancel : (UploadLimiter → ℕ) → ℕ → UploadLimiter → UploadLimiter
cancel choose w l =
    if contains w l.waiters
    then record l { waiters = without w l.waiters }
    else release choose (record l { granted = without w l.granted })
