-- ===== src/Task/Batches.antt =====
-- `splitBatches` of internal/logic/task/task.go: the sizes of a task's batches.
pub mod Sizes
use iflygo.Prelude.{
  ℕ, zero, suc, ◌+◌, ◌-◌, ◌*◌, ◌/◌, Bool, true, false, List, [], ◌∷◌, if◌then◌else◌, ltb, ◌==◌, min,
  ◌&&◌,
}
use iflygo.Prelude.Int.{ℤ, pos, negsuc}

pub data Mode : Type 0 where
  canary percent plain : Mode

-- The part of `Strategy` that is read here; any other text than "canary" and "percent" is `plain`.
pub record SplitStrategy : Type 0 where
  pub mode : Mode
  pub canary_count : ℤ
  pub batch_size : ℤ

-- The value where it is positive, and else 0.
abbrev pub positive : ℤ → ℕ
positive (pos n) = n
positive (negsuc n) = 0

-- The loop: a batch of the size, or of what is left. Every round but one that has nothing left
-- takes at least one host, so as many rounds as there are hosts are enough.
unfoldable pub split_rest : (fuel : ℕ) → ℕ → ℕ → List ℕ
split_rest zero size remaining = []
split_rest (suc fuel) size zero = []
split_rest (suc fuel) size (suc r) =
    let n = if ltb (suc r) size then suc r else size in
    let rest = split_rest fuel size (suc r - n) in n ∷ rest

-- The size of the first batch of a canary roll-out, or 0 where there is none.
unfoldable pub canary_size : ℕ → SplitStrategy → ℕ
canary_size total st = elim st.mode [
  | canary ↦ if ltb (positive st.canary_count) total then positive st.canary_count else 0
  | _ ↦ 0
]

-- `batchSize`, which is not positive where all that is left is one batch.
unfoldable pub regular_size : ℕ → SplitStrategy → ℕ
regular_size total st = elim st.mode [
  | percent ↦
      if ltb 0 (positive st.batch_size)
      then (let n = total * positive st.batch_size / 100 in if ltb n 1 then 1 else n)
      else 0
  | _ ↦ positive st.batch_size
]

abbrev pub size_or_all : ℕ → ℕ → ℕ
size_or_all zero remaining = remaining
size_or_all (suc n) remaining = suc n

abbrev with_canary : ℕ → List ℕ → List ℕ
with_canary zero sizes = sizes
with_canary (suc n) sizes = suc n ∷ sizes

unfoldable pub split_batches : ℕ → SplitStrategy → List ℕ
split_batches total st =
    let first = canary_size total st in
    let remaining = total - first in
    with_canary first
      (split_rest remaining (size_or_all (regular_size total st) remaining) remaining)
