-- ===== src/RateLimit/Sweep.antt =====
-- The cleanup goroutine of ratelimit.go frees memory and changes no answer.
use iflygo.Prelude.{
  ℕ, ◌≤◌, ◌≡◌, refl, sym, ◌∙◌, ap, Bool, Option, none, some, List, [], ◌∷◌, String, arith,
}
use native.Mathlib.Nat.{le_refl}
use iflygo.RateLimit.{
  Bucket, RateLimiter, drop_expired, allow, cleanup, step, Event, request, tick, time_of,
}

-- The answers to the requests of a list of events.
pub answers : List Event → RateLimiter → List Bool
answers [] rl = []
answers (tick now ∷ es) rl = answers es (step (tick now) rl)
answers (request ip now ∷ es) rl = (allow now ip rl).1 ∷ answers es (step (request ip now) rl)

abbrev pub without_ticks : List Event → List Event
without_ticks [] = []
without_ticks (tick now ∷ es) = without_ticks es
without_ticks (request ip now ∷ es) = request ip now ∷ without_ticks es

-- The events follow the clock, from `now` on.
abbrev pub InOrder : ℕ → List Event → Type 0
InOrder now [] = Unit
InOrder now (e ∷ es) = (now ≤ time_of e) × InOrder (time_of e) es

-- Two limiters that differ in what has expired by `now`.
record SameLive (now : ℕ) (rl rl' : RateLimiter) : Type 0 where
  live : (ip : String) → drop_expired now (rl.limits ip) ≡ drop_expired now (rl'.limits ip)
  max_req : rl.max_req ≡ rl'.max_req
  window : rl.window ≡ rl'.window

drop_expired_later :
    (now later : ℕ) (o : Option Bucket)
    → now ≤ later
    → drop_expired later (drop_expired now o) ≡ drop_expired later o
drop_expired_later now later none h = refl
drop_expired_later now later (some b) h = ground arith

module _ (now : ℕ) (ip : String) (rl rl' : RateLimiter) (s : SameLive now rl rl') where
  allow-answer : (allow now ip rl).1 ≡ (allow now ip rl').1
  unfolding allow
  allow-answer = ground (arith, s.live ip)

  allow-limits :
      (j : String)
      → drop_expired now ((allow now ip rl).0.limits j)
        ≡ drop_expired now ((allow now ip rl').0.limits j)
  unfolding allow
  allow-limits j = ground (arith, s.live ip, s.live j)

  allow-max_req : (allow now ip rl).0.max_req ≡ (allow now ip rl').0.max_req
  unfolding allow
  allow-max_req = ground arith

  allow-window : (allow now ip rl).0.window ≡ (allow now ip rl').0.window
  unfolding allow
  allow-window = ground arith

  allow-SameLive : SameLive now (allow now ip rl).0 (allow now ip rl').0
  allow-SameLive = record { live = allow-limits; max_req = allow-max_req; window = allow-window }

SameLive-later :
    (now later : ℕ) (rl rl' : RateLimiter)
    → now ≤ later
    → SameLive now rl rl'
    → SameLive later rl rl'
SameLive-later now later rl rl' h s = record {
  live = λ ip.
      sym (drop_expired_later now later (rl.limits ip) h)
      ∙ ap (drop_expired later) (s.live ip)
      ∙ drop_expired_later now later (rl'.limits ip) h;
  max_req = s.max_req;
  window = s.window;
}

cleanup-SameLive :
    (now : ℕ) (rl rl' : RateLimiter) → SameLive now rl rl' → SameLive now (cleanup now rl) rl'
unfolding cleanup
cleanup-SameLive now rl rl' s = record {
  live = λ ip. drop_expired_later now now (rl.limits ip) (le_refl now) ∙ s.live ip;
  max_req = s.max_req;
  window = s.window;
}

answers_live :
    (es : List Event) (now : ℕ) (rl rl' : RateLimiter)
    → InOrder now es
    → SameLive now rl rl'
    → answers es rl ≡ answers (without_ticks es) rl'
unfolding answers step
answers_live [] now rl rl' o s = refl
answers_live (tick later ∷ es) now rl rl' (h, o) s =
    answers_live es later (cleanup later rl) rl' o
      (cleanup-SameLive later rl rl' (SameLive-later now later rl rl' h s))
answers_live (request ip later ∷ es) now rl rl' (h, o) s =
    let s' = SameLive-later now later rl rl' h s in
    let tail =
      answers_live es later (allow later ip rl).0 (allow later ip rl').0 o
        (allow-SameLive later ip rl rl' s') in
    cc (allow-answer later ip rl rl' s', tail)

-- For events in the order of the clock, every request is answered as it would be if the cleanup
-- never ran.
pub answers-without_ticks :
    (es : List Event) (now : ℕ) (rl : RateLimiter)
    → InOrder now es
    → answers es rl ≡ answers (without_ticks es) rl
answers-without_ticks es now rl o =
    answers_live es now rl rl o (record { live = λ ip. refl; max_req = refl; window = refl })
