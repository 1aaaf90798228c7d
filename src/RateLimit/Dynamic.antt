-- ===== src/RateLimit/Dynamic.antt =====
-- `DynamicRateLimiter` of ratelimit.go: the limit comes with each request. `Allow` chooses a limiter
-- under one mutex and asks it under that limiter's own; both are one step here.
use iflygo.Prelude.{
  ◌∙◌, ℕ, ◌+◌, ◌≤◌, ◌<◌, ◌≡◌, ◌≢◌, refl, Bool, true, false, Option, none, some, List, [], ◌∷◌,
  String, arith, if◌then◌else◌, min, All, ◌⊎◌, inl, inr, Bool-cases, eq_iff,
}
use iflygo.Prelude.Int.{ℤ, pos, pos_part, leb_ℤ, ◌==ℤ◌, ==ℤ_iff, ◌<ℤ◌}
use iflygo.RateLimit.{
  RateLimiter, new_rate_limiter, allow, Event, request, time_of, requests, granted, step,
}
use iflygo.RateLimit.Window.{granted_in_window}

pub record DynamicRateLimiter : Type 0 where
  pub cur : Option RateLimiter
  pub cur_limit : ℤ
  pub window : ℕ
  pub stopped : Bool

unfoldable pub new_dynamic_rate_limiter : ℕ → DynamicRateLimiter
new_dynamic_rate_limiter window = record {
  cur = none;
  cur_limit = pos 0;
  window = window;
  stopped = false;
}

-- The limiter in use for `limit`: the current one if it was made for that limit, else a new one.
abbrev limiter_for : ℤ → DynamicRateLimiter → RateLimiter
limiter_for limit d = elim d.cur [
  | none ↦ new_rate_limiter limit d.window
  | some rl ↦ if d.cur_limit ==ℤ limit then rl else new_rate_limiter limit d.window
]

abbrev allow_with : ℕ → String → ℤ → RateLimiter → DynamicRateLimiter → DynamicRateLimiter × Bool
allow_with now ip limit rl d =
    let (rl', passed) = allow now ip rl in (record d { cur = some rl'; cur_limit = limit }, passed)

-- `Allow(ip, limit)`.
unfoldable pub dynamic_allow : ℕ → String → ℤ → DynamicRateLimiter → DynamicRateLimiter × Bool
dynamic_allow now ip limit d =
    if leb_ℤ limit (pos 0)
    then (d, true)
    else if d.stopped
    then (d, true)
    else allow_with now ip limit (limiter_for limit d) d

-- `Stop()`.
unfoldable pub stop : DynamicRateLimiter → DynamicRateLimiter
stop d = if d.stopped then d else record d { stopped = true; cur = none }

-- Requests of one address with one limit, at the given times.
unfoldable pub dynamic_granted : String → ℤ → List ℕ → DynamicRateLimiter → ℕ
dynamic_granted ip limit [] d = 0
dynamic_granted ip limit (now ∷ ts) d =
    (if (dynamic_allow now ip limit d).1 then 1 else 0)
    + dynamic_granted ip limit ts (dynamic_allow now ip limit d).0

abbrev pub requests_at : String → List ℕ → List Event
requests_at ip [] = []
requests_at ip (now ∷ ts) = request ip now ∷ requests_at ip ts

-- What holds between two requests: a stopped limiter holds none, and the limiter in use was made
-- for the limit that is recorded.
abbrev pub IsConsistent : DynamicRateLimiter → Type 0
IsConsistent d =
    (d.cur ≡ none)
    ⊎ ((rl : RateLimiter) × (d.cur ≡ some rl)
        × (d.stopped ≡ false)
        × (rl.max_req ≡ d.cur_limit)
        × (rl.window ≡ d.window))

allow_keeps :
    (now : ℕ) (ip : String) (rl : RateLimiter)
    → ((allow now ip rl).0.max_req ≡ rl.max_req) × ((allow now ip rl).0.window ≡ rl.window)
unfolding allow
allow_keeps now ip rl = ground arith

limiter_for_made :
    (limit : ℤ) (d : DynamicRateLimiter)
    → IsConsistent d
    → ((limiter_for limit d).max_req ≡ limit) × ((limiter_for limit d).window ≡ d.window)
unfolding new_rate_limiter
limiter_for_made limit d (inl none_yet) = ground arith
limiter_for_made limit d (inr (rl, held, live, m, w)) = ground arith

allow_with-IsConsistent :
    (now : ℕ) (ip : String) (limit : ℤ) (rl : RateLimiter) (d : DynamicRateLimiter)
    → d.stopped ≡ false
    → rl.max_req ≡ limit
    → rl.window ≡ d.window
    → IsConsistent (allow_with now ip limit rl d).0
allow_with-IsConsistent now ip limit rl d s m w =
    let (m', w') = allow_keeps now ip rl in inr ((allow now ip rl).0, refl, s, m' ∙ m, w' ∙ w)

dynamic_allow_off :
    (now : ℕ) (ip : String) (limit : ℤ) (d : DynamicRateLimiter)
    → (leb_ℤ limit (pos 0) ≡ true) ⊎ (d.stopped ≡ true)
    → dynamic_allow now ip limit d ≡ (d, true)
unfolding dynamic_allow
dynamic_allow_off now ip limit d (inl off) = rw off
dynamic_allow_off now ip limit d (inr s) = elim (Bool-cases (leb_ℤ limit (pos 0))) [
  | inl off ↦ rw off
  | inr on ↦ rw on (simp s)
]

dynamic_allow_active :
    (now : ℕ) (ip : String) (limit : ℤ) (d : DynamicRateLimiter)
    → pos 0 <ℤ limit
    → d.stopped ≡ false
    → dynamic_allow now ip limit d ≡ allow_with now ip limit (limiter_for limit d) d
unfolding dynamic_allow
dynamic_allow_active now ip limit d p s =
    let on : leb_ℤ limit (pos 0) ≡ false = ground arith in rw (on, s)

-- Every request keeps the limiter consistent: the limiter in use has the limit that is recorded
-- and the window of the whole, and there is none once it has been stopped.
pub dynamic_allow-IsConsistent :
    (now : ℕ) (ip : String) (limit : ℤ) (d : DynamicRateLimiter)
    → IsConsistent d
    → IsConsistent (dynamic_allow now ip limit d).0
dynamic_allow-IsConsistent now ip limit d c = elim (Bool-cases (leb_ℤ limit (pos 0))) [
  | inl off ↦ rw (dynamic_allow_off now ip limit d (inl off)) c
  | inr on ↦ elim (Bool-cases d.stopped) [
    | inl s ↦ rw (dynamic_allow_off now ip limit d (inr s)) c
    | inr s ↦
        let (m, w) = limiter_for_made limit d c in
        rw (dynamic_allow_active now ip limit d (ground arith) s)
          (allow_with-IsConsistent now ip limit (limiter_for limit d) d s m w)
  ]
]

granted-request_self :
    (ip : String) (now : ℕ) (es : List Event) (rl : RateLimiter)
    → granted ip (request ip now ∷ es) rl
      ≡ (if (allow now ip rl).1 then 1 else 0) + granted ip es (allow now ip rl).0
unfolding granted step
granted-request_self ip now es rl = rw ((eq_iff ip ip).1 refl)

limiter_for_same :
    (limit : ℤ) (d : DynamicRateLimiter) (rl : RateLimiter)
    → d.cur ≡ some rl
    → d.cur_limit ≡ limit
    → limiter_for limit d ≡ rl
limiter_for_same limit d rl h e = ground arith

-- With one positive limit the dynamic limiter grants what the fixed limiter that it holds grants.
pub dynamic_granted-eq-granted :
    (ip : String) (limit : ℤ) (ts : List ℕ) (d : DynamicRateLimiter) (rl : RateLimiter)
    → pos 0 <ℤ limit
    → d.stopped ≡ false
    → d.cur ≡ some rl
    → d.cur_limit ≡ limit
    → dynamic_granted ip limit ts d ≡ granted ip (requests_at ip ts) rl
unfolding dynamic_granted
dynamic_granted-eq-granted ip limit [] d rl p s h e = unfold granted in refl
dynamic_granted-eq-granted ip limit (now ∷ ts) d rl p s h e =
    let rl' = (allow now ip rl).0 in
    let d' = (allow_with now ip limit rl d).0 in
    let rest = dynamic_granted-eq-granted ip limit ts d' rl' p s refl refl in
    rw (
      dynamic_allow_active now ip limit d p s,
      limiter_for_same limit d rl h e,
      rest,
      granted-request_self ip now (requests_at ip ts) rl,
    )

pos_part-pos : (n : ℤ) → pos 0 <ℤ n → 0 < pos_part n
pos_part-pos n h = ground arith

limiter_for_new :
    (limit : ℤ) (d : DynamicRateLimiter)
    → (d.cur ≡ none) ⊎ (d.cur_limit ≢ limit)
    → limiter_for limit d ≡ new_rate_limiter limit d.window
limiter_for_new limit d new = ground (arith, ==ℤ_iff d.cur_limit limit)

-- A request whose limit is positive and differs from the recorded one, or that is the first,
-- starts afresh: up to the end of its window, as many of the address's requests with that limit
-- pass as are made, and at most the limit.
pub dynamic_granted_new_limit :
    (ip : String) (limit : ℤ) (now : ℕ) (ts : List ℕ) (d : DynamicRateLimiter)
    → pos 0 <ℤ limit
    → d.stopped ≡ false
    → (d.cur ≡ none) ⊎ (d.cur_limit ≢ limit)
    → All (λ e. time_of e ≤ now + d.window) (requests_at ip ts)
    → dynamic_granted ip limit (now ∷ ts) d
      ≡ min (requests ip (requests_at ip (now ∷ ts))) (pos_part limit)
unfolding dynamic_granted
dynamic_granted_new_limit ip limit now ts d p s new w =
    let rl = new_rate_limiter limit d.window in
    let d' = (allow_with now ip limit rl d).0 in
    let later = dynamic_granted-eq-granted ip limit ts d' (allow now ip rl).0 p s refl refl in
    let whole =
      granted_in_window ip now (requests_at ip ts) rl (unfold new_rate_limiter in tt)
        (unfold new_rate_limiter in w) in
    rw
      (
        dynamic_allow_active now ip limit d p s,
        limiter_for_new limit d new,
        later,
        ← granted-request_self ip now (requests_at ip ts) rl,
      )
      (unfold new_rate_limiter in omega (arith, whole, pos_part-pos limit p))

-- Once stopped, the limiter holds no window, lets every request pass and no longer changes;
-- stopping it again changes nothing.
pub stop_allows :
    (now : ℕ) (ip : String) (limit : ℤ) (d : DynamicRateLimiter)
    → IsConsistent d
    → ((stop d).cur ≡ none)
      × (dynamic_allow now ip limit (stop d) ≡ (stop d, true))
      × (stop (stop d) ≡ stop d)
unfolding stop dynamic_allow
stop_allows now ip limit d c = elim (Bool-cases d.stopped) [
  | inl s ↦ (stopped_empty c s, ground arith, ground arith)
  | inr s ↦ (ground arith, ground arith, ground arith)
]
  where
    stopped_empty : IsConsistent d → d.stopped ≡ true → (stop d).cur ≡ none
    stopped_empty (inl e) s = ground arith
    stopped_empty (inr (rl, held, live, m, w)) s = ground arith
