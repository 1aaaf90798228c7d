-- ===== src/RateLimit/Window.antt =====
-- How many requests of one address pass within a window (`Allow` of ratelimit.go).
use iflygo.Prelude.{
  ℕ, zero, suc, ◌+◌, ◌-◌, ◌≤◌, ◌<◌, ◌≡◌, refl, sym, ap, ◌∙◌, inl, inr, String, true, Option, none,
  some, List, [], ◌∷◌, ◌++◌, min, max, arith, str_eq, eq_iff, All, Bool-cases,
}
use native.Mathlib.Nat.{le_refl, le-add_right}
use iflygo.Prelude.Int.{pos_part}
use iflygo.RateLimit.{
  Bucket, RateLimiter, allow, step, Event, request, tick, time_of, granted, requests, passes,
}

abbrev pub is_from : String → Event → ℕ
is_from ip e = requests ip (e ∷ [])

-- While the window of `ip` is open, an event changes its bucket by what it grants.
module _ (ip : String) (rl : RateLimiter) (b : Bucket) (held : rl.limits ip ≡ some b) where
  step-limits :
      (e : Event)
      → time_of e ≤ b.reset_time
      → (step e rl).limits ip ≡ some (record b { count = b.count + passes ip e rl })
  unfolding step
  step-limits (tick now) w = ground arith
  step-limits (request j now) w = elim (Bool-cases (str_eq ip j)) [
    | inl same ↦ rw (sym ((eq_iff ip j).0 same)) (ground (arith, eq_iff ip ip))
    | inr other ↦ ground (arith, eq_iff ip j, eq_iff j ip)
  ]

  passes_lem :
      (e : Event)
      → time_of e ≤ b.reset_time
      → passes ip e rl ≡ min (is_from ip e) (pos_part rl.max_req - b.count)
  unfolding allow
  passes_lem (tick now) w = omega arith
  passes_lem (request j now) w = elim (Bool-cases (str_eq ip j)) [
    | inl same ↦ rw (sym ((eq_iff ip j).0 same)) (ground (arith, eq_iff ip ip))
    | inr other ↦ ground arith
  ]

step-max_req : (e : Event) (rl : RateLimiter) → (step e rl).max_req ≡ rl.max_req
unfolding step
step-max_req (tick now) rl = refl
step-max_req (request j now) rl = ground arith

requests-cons :
    (ip : String) (e : Event) (es : List Event)
    → requests ip (e ∷ es) ≡ is_from ip e + requests ip es
requests-cons ip (tick now) es = omega arith
requests-cons ip (request j now) es = omega arith

-- As long as the window of an address is open, whatever other addresses and the cleanup do, the
-- requests that pass are as many as were made, up to what the limit leaves.
pub granted-eq-min :
    (ip : String) (es : List Event) (rl : RateLimiter) (b : Bucket)
    → rl.limits ip ≡ some b
    → All (λ e. time_of e ≤ b.reset_time) es
    → granted ip es rl ≡ min (requests ip es) (pos_part rl.max_req - b.count)
unfolding granted
granted-eq-min ip [] rl b h w = omega arith
granted-eq-min ip (e ∷ es) rl b h (now, later) =
    let more = record b { count = b.count + passes ip e rl } in
    let rest = granted-eq-min ip es (step e rl) more (step-limits ip rl b h e now) later in
    omega (
      arith,
      rest,
      requests-cons ip e es,
      passes_lem ip rl b h e now,
      ap pos_part (step-max_req e rl),
    )

-- Opening a window: the state after a request that finds no bucket, or an expired one.
abbrev pub IsClosed : ℕ → Option Bucket → Type 0
IsClosed now none = Unit
IsClosed now (some b) = b.reset_time < now

pub allow_opens :
    (ip : String) (now : ℕ) (rl : RateLimiter)
    → IsClosed now (rl.limits ip)
    → let (rl', passed) = allow now ip rl in
      (passed ≡ true)
      × (rl'.limits ip ≡ some (record { count = 1; reset_time = now + rl.window }))
      × (rl'.max_req ≡ rl.max_req)
unfolding allow
allow_opens ip now rl c = ground (arith, eq_iff ip ip)

-- A request that finds no open window passes and opens one. Up to the end of that window the
-- requests of the address that pass, the first included, are as many as were made, and at most
-- the limit (at most one where the limit is not positive), whatever else happens meanwhile.
pub granted_in_window :
    (ip : String) (now : ℕ) (es : List Event) (rl : RateLimiter)
    → IsClosed now (rl.limits ip)
    → All (λ e. time_of e ≤ now + rl.window) es
    → granted ip (request ip now ∷ es) rl
      ≡ min (requests ip (request ip now ∷ es)) (max 1 (pos_part rl.max_req))
unfolding granted step
granted_in_window ip now es rl c w =
    let (passed, opened, same) = allow_opens ip now rl c in
    let rest = granted-eq-min ip es (step (request ip now) rl) _ opened w in
    rw ((eq_iff ip ip).1 refl, passed) (omega (arith, rest, ap pos_part same))

abbrev pub repeat : ℕ → Event → List Event
repeat zero e = []
repeat (suc n) e = e ∷ repeat n e

requests-repeat : (ip : String) (now n : ℕ) → requests ip (repeat n (request ip now)) ≡ n
requests-repeat ip now zero = refl
requests-repeat ip now (suc n) =
    rw ((eq_iff ip ip).1 refl) (omega (arith, requests-repeat ip now n))

All-repeat :
    (now bound n : ℕ) (ip : String)
    → now ≤ bound
    → All (λ e. time_of e ≤ bound) (repeat n (request ip now))
All-repeat now bound zero ip h = tt
All-repeat now bound (suc n) ip h = (h, All-repeat now bound n ip h)

run : List Event → RateLimiter → RateLimiter
run [] rl = rl
run (e ∷ es) rl = run es (step e rl)

granted-append :
    (ip : String) (es fs : List Event) (rl : RateLimiter)
    → granted ip (es ++ fs) rl ≡ granted ip es rl + granted ip fs (run es rl)
unfolding granted run
granted-append ip [] fs rl = omega arith
granted-append ip (e ∷ es) fs rl = omega (arith, granted-append ip es fs (step e rl))

-- The bucket keeps its end through the events of its window.
run-limits :
    (ip : String) (es : List Event) (rl : RateLimiter) (b : Bucket)
    → rl.limits ip ≡ some b
    → All (λ e. time_of e ≤ b.reset_time) es
    → (n : ℕ) × ((run es rl).limits ip ≡ some (record b { count = n }))
      × ((run es rl).max_req ≡ rl.max_req)
unfolding run
run-limits ip [] rl b h w = (b.count, h, refl)
run-limits ip (e ∷ es) rl b h (now, later) =
    let more = record b { count = b.count + passes ip e rl } in
    let (n, at, same) = run-limits ip es (step e rl) more (step-limits ip rl b h e now) later in
    (n, at, same ∙ step-max_req e rl)

-- A window that is full when it ends does not count against the next one: `n` requests at its last
-- instant and `n` one nanosecond later all pass, where `n` is what the limit leaves to the one and
-- no more than the limit of the other.
pub granted-across_windows :
    (ip : String) (n : ℕ) (rl : RateLimiter) (b : Bucket)
    → rl.limits ip ≡ some b
    → b.count + suc n ≤ pos_part rl.max_req
    → granted ip
        (repeat (suc n) (request ip b.reset_time) ++ repeat (suc n) (request ip (suc b.reset_time)))
        rl
      ≡ suc n + suc n
granted-across_windows ip n rl b h room =
    let t = b.reset_time in
    let first = repeat (suc n) (request ip t) in
    let second = repeat n (request ip (suc t)) in
    let (k, at, same) = run-limits ip first rl b h (All-repeat t t (suc n) ip (le_refl t)) in
    let closed : IsClosed (suc t) ((run first rl).limits ip) = rw at (le_refl (suc t)) in
    let early = granted-eq-min ip first rl b h (All-repeat t t (suc n) ip (le_refl t)) in
    let late =
      granted_in_window ip (suc t) second (run first rl) closed
        (All-repeat (suc t) _ n ip (le-add_right (suc t) _)) in
    let made = requests-repeat ip t (suc n) in
    let made_late = requests-repeat ip (suc t) (suc n) in
    rw (granted-append ip first (request ip (suc t) ∷ second) rl)
      (omega (arith, early, late, made, made_late, ap pos_part same))
