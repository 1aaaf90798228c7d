-- ===== src/UploadLimiter/Wake.antt =====
-- `wakeLocked` of limiter.go: it ends by its own test, and it loses no waiter.
use iflygo.Prelude.{
  ℕ, zero, suc, ◌+◌, ◌≤◌, ◌<◌, ◌≡◌, refl, ap, ◌∙◌, sym, ◌==◌, count_if, ◌⊎◌, inl, inr, ltb→lt, List,
  [], ◌∷◌, ltb, arith, length, Bool-cases,
}
use native.Mathlib.Nat.{le_refl}
use iflygo.UploadLimiter.{UploadLimiter, pick, grant_slot, wake_turn, wake_locked, wake}

length-pick : (i w : ℕ) (ws : List ℕ) → length (pick i w ws).1 ≡ length ws
length-pick i w [] = refl
length-pick zero w (v ∷ ws) = refl
length-pick (suc i) w (v ∷ ws) = omega (arith, length-pick i v ws)

-- How often a waiter stands in a list.
abbrev pub copies : ℕ → List ℕ → ℕ
copies w = count_if (λ v. v == w)

copies-pick :
    (u i w : ℕ) (ws : List ℕ) → copies u ((pick i w ws).0 ∷ (pick i w ws).1) ≡ copies u (w ∷ ws)
copies-pick u i w [] = refl
copies-pick u zero w (v ∷ ws) = refl
copies-pick u (suc i) w (v ∷ ws) = ground (arith, copies-pick u i v ws)

-- No waiter is left while there is room.
abbrev pub IsSettled : UploadLimiter → Type 0
IsSettled l = (l.limit ≤ l.active) ⊎ (l.waiters ≡ [])

-- What `wakeLocked` does: it turns waiters into granted slots, each of them as often as it waited,
-- stays within the limit, and stops only when there is no room or nobody waits.
pub record Wakes (l l' : UploadLimiter) : Type 0 where
  pub settled : IsSettled l'
  pub same_limit : l'.limit ≡ l.limit
  pub moved : l'.active + length l.granted ≡ l.active + length l'.granted
  pub kept :
      (w : ℕ) → copies w l'.waiters + copies w l'.granted ≡ copies w l.waiters + copies w l.granted
  pub grows : l.active ≤ l'.active
  pub within : (l'.active ≤ l.limit) ⊎ (l'.active ≡ l.active)

nil_of_length : (ws : List ℕ) → length ws ≤ 0 → ws ≡ []
nil_of_length [] h = refl
nil_of_length (w ∷ ws) h = absurd (omega arith)

Wakes-refl : (l : UploadLimiter) → IsSettled l → Wakes l l
Wakes-refl l s = record {
  settled = s;
  same_limit = refl;
  moved = refl;
  kept = λ w. refl;
  grows = omega arith;
  within = inr refl;
}

Wakes-step :
    (x : ℕ) (rest : List ℕ) (l l' : UploadLimiter)
    → l.active < l.limit
    → ((w : ℕ) → copies w (x ∷ rest) ≡ copies w l.waiters)
    → Wakes (grant_slot x rest l) l'
    → Wakes l l'
Wakes-step x rest l l' room n r = record {
  settled = r.settled;
  same_limit = r.same_limit;
  moved = omega (arith, r.moved);
  kept = λ w. ground (arith, r.kept w, n w);
  grows = omega (arith, r.grows);
  within = omega (arith, r.within);
}

wake_turn-Wakes :
    (more : UploadLimiter → UploadLimiter) (i : ℕ) (ws : List ℕ) (l : UploadLimiter)
    → ((x : ℕ) (rest : List ℕ)
        → suc (length rest) ≡ length ws
        → Wakes (grant_slot x rest l) (more (grant_slot x rest l)))
    → l.waiters ≡ ws
    → Wakes l (wake_turn more i ws l)
wake_turn-Wakes more i [] l h e = Wakes-refl l (inr e)
wake_turn-Wakes more i (w ∷ ws) l h e =
    let (x, rest) = pick i w ws in
    let fewer : suc (length rest) ≡ suc (length ws) = ap suc (length-pick i w ws) in
    elim (Bool-cases (ltb l.active l.limit)) [
      | inl room ↦ simp room (
          Wakes-step x rest l (more (grant_slot x rest l)) (ltb→lt _ _ room)
            (λ u. copies-pick u i w ws ∙ ap (copies u) (sym e)) (h x rest fewer))
      | inr full ↦ simp full (Wakes-refl l (inl (ground arith)))
    ]

wake_locked_done :
    (choose : UploadLimiter → ℕ) (fuel : ℕ) (l : UploadLimiter)
    → length l.waiters ≤ fuel
    → Wakes l (wake_locked choose fuel l)
unfolding wake_locked
wake_locked_done choose zero l h = Wakes-refl l (inr (nil_of_length l.waiters h))
wake_locked_done choose (suc fuel) l h =
    wake_turn-Wakes (wake_locked choose fuel) (choose l) l.waiters l
      (λ x rest n. wake_locked_done choose fuel (grant_slot x rest l) (omega arith)) refl

-- `wakeLocked` leaves no waiter while there is room, whatever the map iteration picks: it makes
-- granted slots of waiters, within the limit, and loses none: each waiter stands among those who wait
-- and those granted a slot as often as before.
pub wake_done : (choose : UploadLimiter → ℕ) (l : UploadLimiter) → Wakes l (wake choose l)
unfolding wake
wake_done choose l = wake_locked_done choose (length l.waiters) l (le_refl _)
