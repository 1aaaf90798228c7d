-- ===== src/Task/Batches/Sizes.antt =====
-- The batches of a task cover its hosts (`splitBatches` of internal/logic/task/task.go).
use iflygo.Prelude.{
  ℕ, zero, suc, max, ◌+◌, ◌-◌, ◌≤◌, ◌<◌, ◌≡◌, refl, List, [], ◌∷◌, ltb, ◌⊎◌, arith, Bool-cases, inl,
  inr,
}
use iflygo.Task.Batches.{
  SplitStrategy, split_batches, split_rest, canary_size, regular_size, size_or_all, with_canary,
}

abbrev pub total_of : List ℕ → ℕ
total_of [] = 0
total_of (n ∷ ns) = n + total_of ns

-- Every size is at least one, and at most `most`.
abbrev pub Within : ℕ → List ℕ → Type 0
Within most [] = Unit
Within most (n ∷ ns) = (1 ≤ n) × (n ≤ most) × Within most ns

split_rest_lem :
    (fuel size remaining : ℕ)
    → remaining ≤ fuel
    → 1 ≤ size ⊎ (remaining ≡ 0)
    → (total_of (split_rest fuel size remaining) ≡ remaining)
      × Within size (split_rest fuel size remaining)
unfolding split_rest
split_rest_lem zero size remaining enough h = (omega arith, tt)
split_rest_lem (suc fuel) size zero enough h = (refl, tt)
split_rest_lem (suc fuel) size (suc r) enough (inr h) = cc
split_rest_lem (suc fuel) size (suc r) enough (inl h) = elim (Bool-cases (ltb (suc r) size)) [
  | inl small ↦
      let (e, w) = split_rest_lem fuel size (suc r - suc r) (omega arith) (inl h) in
      rw small (omega (arith, e), (omega arith, ground (arith, small), w))
  | inr large ↦
      let (e, w) = split_rest_lem fuel size (suc r - size) (omega arith) (inl h) in
      rw large (ground (arith, e), (h, omega arith, w))
]

Within-weaken : (a b : ℕ) → a ≤ b → (ns : List ℕ) → Within a ns → Within b ns
Within-weaken a b h [] w = tt
Within-weaken a b h (n ∷ ns) (low, high, w) = (low, omega arith, Within-weaken a b h ns w)

canary_size-lt :
    (total : ℕ) (st : SplitStrategy) → (canary_size total st ≡ 0) ⊎ (canary_size total st < total)
unfolding canary_size
canary_size-lt total st = ground arith

with_canary_lem :
    (c most : ℕ) (ns : List ℕ)
    → Within most ns
    → c ≤ most
    → (total_of (with_canary c ns) ≡ c + total_of ns) × Within most (with_canary c ns)
with_canary_lem zero most ns w h = (omega arith, w)
with_canary_lem (suc c) most ns w h = (omega arith, (omega arith, h, w))

size_or_all-positive : (size remaining : ℕ) → (1 ≤ size_or_all size remaining) ⊎ (remaining ≡ 0)
size_or_all-positive zero zero = inr refl
size_or_all-positive zero (suc r) = inl (omega arith)
size_or_all-positive (suc n) r = inl (omega arith)

size_or_all-le : (size a b : ℕ) → a ≤ b → size_or_all size a ≤ size_or_all size b
size_or_all-le zero a b h = h
size_or_all-le (suc n) a b h = omega arith

-- The batches cover every host once: their sizes add up to the number of hosts, none is empty, and
-- none is larger than the canary batch and the strategy's size (than all the hosts, where the
-- strategy gives no size).
pub split_batches_lem :
    (total : ℕ) (st : SplitStrategy)
    → (total_of (split_batches total st) ≡ total)
      × Within
          (max (canary_size total st) (size_or_all (regular_size total st) total))
          (split_batches total st)
unfolding split_batches
split_batches_lem total st =
    let c = canary_size total st in
    let left = total - c in
    let size = size_or_all (regular_size total st) left in
    let (e, w) =
      split_rest_lem left size left (omega arith)
        (size_or_all-positive (regular_size total st) left) in
    let below : c ≤ total = ground (arith, canary_size-lt total st) in
    let most = max c (size_or_all (regular_size total st) total) in
    let (sum, within) =
      with_canary_lem c most (split_rest left size left)
        (Within-weaken size most
          (omega (arith, size_or_all-le (regular_size total st) left total (omega arith))) _ w)
        (omega arith) in
    (omega (arith, sum, e, below), within)
