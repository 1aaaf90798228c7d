-- ===== src/UploadLimiter/Slots.antt =====
-- The callers of limiter.go, interleaved in any order: slots are neither lost nor made up, and a
-- waiter never waits while there is room.
use iflygo.Prelude.{
  ℕ, suc, ◌+◌, ◌-◌, ◌≤◌, ◌<◌, ◌≡◌, refl, ◌⊎◌, inl, inr, true, false, List, [], ◌∷◌, ltb, arith,
  length, Bool-cases,
}
use iflygo.Prelude.Int.{ℤ}
use iflygo.UploadLimiter.{
  UploadLimiter, max_upload_concurrency, clamp_limit, new_upload_limiter, wake, acquire, release,
  set_limit, without, contains, receive, cancel,
}
use iflygo.UploadLimiter.Wake.{IsSettled, wake_done}

-- The limiter, and how many callers have a slot that they have not given back.
pub record System : Type 0 where
  pub limiter : UploadLimiter
  pub holders : ℕ

-- A critical section of one caller. A release function runs once (`releaseOnce`), so only a
-- holder releases; a caller receives or cancels while it waits.
pub data Step (choose : UploadLimiter → ℕ) : System → System → Type 0 where
  take :
      (w : ℕ) (s : System)
      → (acquire w s.limiter).1 ≡ true
      → Step choose s (record { limiter = (acquire w s.limiter).0; holders = s.holders + 1 })
  enqueue :
      (w : ℕ) (s : System)
      → (acquire w s.limiter).1 ≡ false
      → Step choose s (record { limiter = (acquire w s.limiter).0; holders = s.holders })
  obtain :
      (w : ℕ) (s : System)
      → contains w s.limiter.granted ≡ true
      → Step choose s
          (record { limiter = (receive choose w false s.limiter).0; holders = s.holders + 1 })
  too_late :
      (w : ℕ) (s : System)
      → contains w s.limiter.granted ≡ true
      → Step choose s
          (record { limiter = (receive choose w true s.limiter).0; holders = s.holders })
  give_up :
      (w : ℕ) (s : System)
      → (contains w s.limiter.waiters ≡ true) ⊎ (contains w s.limiter.granted ≡ true)
      → Step choose s (record { limiter = cancel choose w s.limiter; holders = s.holders })
  give_back :
      (s : System)
      → 0 < s.holders
      → Step choose s (record { limiter = release choose s.limiter; holders = s.holders - 1 })
  change :
      (n : ℤ) (s : System)
      → Step choose s (record { limiter = set_limit choose n s.limiter; holders = s.holders })

pub data Reach (choose : UploadLimiter → ℕ) (s : System) : System → Type 0 where
  here : Reach choose s s
  next : {t u : System} → Reach choose s t → Step choose t u → Reach choose s u

pub record Inv (s : System) : Type 0 where
  pub settled : IsSettled s.limiter
  pub accounted : s.limiter.active ≡ s.holders + length s.limiter.granted
  pub limit_low : 1 ≤ s.limiter.limit
  pub limit_high : s.limiter.limit ≤ max_upload_concurrency
  pub bounded : s.limiter.active ≤ max_upload_concurrency

clamp_limit_bounds : (n : ℤ) → (1 ≤ clamp_limit n) × (clamp_limit n ≤ max_upload_concurrency)
unfolding clamp_limit
clamp_limit_bounds n = ground arith

length-without :
    (w : ℕ) (ws : List ℕ) → contains w ws ≡ true → length ws ≡ suc (length (without w ws))
length-without w [] h = cc
length-without w (v ∷ ws) h = ground (arith, length-without w ws)

-- A wake-up of a limiter whose slots are accounted for.
wake-Inv :
    (choose : UploadLimiter → ℕ) (l : UploadLimiter) (holders : ℕ)
    → l.active ≡ holders + length l.granted
    → 1 ≤ l.limit
    → l.limit ≤ max_upload_concurrency
    → l.active ≤ max_upload_concurrency
    → Inv (record { limiter = wake choose l; holders = holders })
wake-Inv choose l holders a low high b =
    let w = wake_done choose l in
    record {
      settled = w.settled;
      accounted = omega (arith, w.moved);
      limit_low = omega (arith, w.same_limit);
      limit_high = omega (arith, w.same_limit);
      bounded = omega (arith, w.within);
    }

release-Inv :
    (choose : UploadLimiter → ℕ) (l : UploadLimiter) (holders : ℕ)
    → l.active ≡ suc (holders + length l.granted)
    → 1 ≤ l.limit
    → l.limit ≤ max_upload_concurrency
    → l.active ≤ max_upload_concurrency
    → Inv (record { limiter = release choose l; holders = holders })
unfolding release
release-Inv choose l holders a low high b =
    let l' = record l { active = l.active - 1 } in
    let some_active : ltb 0 l.active ≡ true = ground arith in
    rw some_active (wake-Inv choose l' holders (omega arith) low high (omega arith))

module _ (choose : UploadLimiter → ℕ) (w : ℕ) (s : System) where
  abbrev cancelled : System
  cancelled = record { limiter = cancel choose w s.limiter; holders = s.holders }

  cancel_waiting : contains w s.limiter.waiters ≡ true → Inv s → Inv cancelled
  unfolding cancel
  cancel_waiting h v = simp h (record {
    settled = ground arith;
    accounted = v.accounted;
    limit_low = v.limit_low;
    limit_high = v.limit_high;
    bounded = v.bounded;
  })

  cancel_granted :
      contains w s.limiter.waiters ≡ false
      → contains w s.limiter.granted ≡ true
      → Inv s
      → Inv cancelled
  unfolding cancel
  cancel_granted gone h v = simp gone (
      release-Inv choose _ s.holders (omega (arith, length-without w s.limiter.granted h))
        v.limit_low v.limit_high v.bounded)

  cancel-Inv :
      (contains w s.limiter.waiters ≡ true) ⊎ (contains w s.limiter.granted ≡ true)
      → Inv s
      → Inv cancelled
  cancel-Inv h v = elim (Bool-cases (contains w s.limiter.waiters)) [
    | inl waiting ↦ cancel_waiting waiting v
    | inr gone ↦ cancel_granted gone (ground arith) v
  ]

-- Every critical section of every caller keeps the invariant.
pub Step-Inv : {choose : UploadLimiter → ℕ} {s t : System} → Step choose s t → Inv s → Inv t
unfolding acquire set_limit receive cancel
Step-Inv (take w s h) v = ground arith
Step-Inv (enqueue w s h) v = ground arith
Step-Inv (obtain w s h) v = ground (arith, length-without w s.limiter.granted h)
Step-Inv {choose} (too_late w s h) v =
    release-Inv choose _ s.holders (omega (arith, length-without w s.limiter.granted h)) v.limit_low
      v.limit_high v.bounded
Step-Inv {choose} (give_up w s h) v = cancel-Inv choose w s h v
Step-Inv {choose} (give_back s h) v =
    release-Inv choose s.limiter (s.holders - 1) (omega arith) v.limit_low v.limit_high v.bounded
Step-Inv {choose} (change n s) v =
    let (low, high) = clamp_limit_bounds n in
    wake-Inv choose _ s.holders v.accounted low high v.bounded

-- In every state that the callers reach, in any order and with any choices: nobody waits while
-- there is room, every active slot is held by one caller or lies in one channel, the limit is from
-- 1 to 64, and at most 64 slots are active.
pub Reach-Inv : {choose : UploadLimiter → ℕ} {s t : System} → Inv s → Reach choose s t → Inv t
Reach-Inv v here = v
Reach-Inv v (next r st) = Step-Inv st (Reach-Inv v r)

-- A limiter that has just been made, for any requested limit, starts so.
pub new_upload_limiter-Inv : (n : ℤ) → Inv (record { limiter = new_upload_limiter n; holders = 0 })
unfolding new_upload_limiter
new_upload_limiter-Inv n =
    let (low, high) = clamp_limit_bounds n in
    record {
      settled = inr refl;
      accounted = refl;
      limit_low = low;
      limit_high = high;
      bounded = omega arith;
    }

wake_within :
    (choose : UploadLimiter → ℕ) (l : UploadLimiter)
    → ((wake choose l).active ≤ (wake choose l).limit) ⊎ ((wake choose l).active ≤ l.active)
wake_within choose l = let w = wake_done choose l in omega (arith, w.within, w.same_limit)

release_within :
    (choose : UploadLimiter → ℕ) (l : UploadLimiter)
    → ((release choose l).active ≤ (release choose l).limit)
      ⊎ ((release choose l).active ≤ l.active)
unfolding release
release_within choose l = elim (Bool-cases (ltb 0 l.active)) [
  | inl some_active ↦
      simp some_active (omega (arith, wake_within choose (record l { active = l.active - 1 })))
  | inr idle ↦ simp idle (wake_within choose l)
]

cancel_within :
    (choose : UploadLimiter → ℕ) (w : ℕ) (l : UploadLimiter)
    → ((cancel choose w l).active ≤ (cancel choose w l).limit)
      ⊎ ((cancel choose w l).active ≤ l.active)
unfolding cancel
cancel_within choose w l = elim (Bool-cases (contains w l.waiters)) [
  | inl waiting ↦ simp waiting (omega arith)
  | inr gone ↦ simp gone (release_within choose (record l { granted = without w l.granted }))
]

-- No step makes more slots active than its limit allows: where the number grows, it stays within
-- the limit, also after the limit was lowered below it.
pub Step-within :
    {choose : UploadLimiter → ℕ} {s t : System}
    → Step choose s t
    → (t.limiter.active ≤ t.limiter.limit) ⊎ (t.limiter.active ≤ s.limiter.active)
unfolding acquire receive
Step-within (take w s h) = ground arith
Step-within (enqueue w s h) = ground arith
Step-within (obtain w s h) = ground arith
Step-within {choose} (too_late w s h) = release_within choose _
Step-within {choose} (give_up w s h) = cancel_within choose w s.limiter
Step-within {choose} (give_back s h) = release_within choose s.limiter
Step-within {choose} (change n s) = unfold set_limit in wake_within choose _
