-- ===== src/Ipx/Bytes.antt =====
-- Addresses as numbers: what `nextIP` and `compareIP` compute (internal/pkg/ipx/ipx.go).
use iflygo.Prelude.{
  ℕ, ◌+◌, ◌*◌, ◌%◌, ◌<◌, ◌≤◌, ◌≡◌, refl, ◌⊎◌, Bool, true, false, [], ◌∷◌, ltb, leb, ◌==◌,
  if◌then◌else◌, length, All, arith, ap, Bool-cases, inl, inr, ltb→lt,
}
use iflygo.Ipx.{Ip, carry_into, count_up, next_ip, Order, less, more, compare_ip, at_most}

abbrev pub IsByte : ℕ → Type 0
IsByte b = (b < 256)

-- How many addresses have so many bytes, and the number that an address stands for.
unfoldable pub weight : Ip → ℕ
weight [] = 1
weight (b ∷ bs) = 256 * weight bs

unfoldable pub value : Ip → ℕ
unfolding weight
value [] = 0
value (b ∷ bs) = b * weight bs + value bs

pub value-lt : (ip : Ip) → All IsByte ip → value ip < weight ip
unfolding value weight
value-lt [] h = omega arith
value-lt (b ∷ bs) h = grind (arith, value-lt bs h.1)

-- A carry out of the first byte is worth all addresses.
abbrev carried : ℕ → Bool → ℕ
carried w true = w
carried w false = 0

weight-carry_into :
    (b : ℕ) (bs : Ip) (r : Ip × Bool)
    → weight r.0 ≡ weight bs
    → weight (carry_into b r).0 ≡ 256 * weight bs
unfolding weight
weight-carry_into b bs (rest, true) h = ap (λ w. 256 * w) h
weight-carry_into b bs (rest, false) h = ap (λ w. 256 * w) h

weight-count_up : (ip : Ip) → weight (count_up ip).0 ≡ weight ip
unfolding weight count_up
weight-count_up [] = refl
weight-count_up (b ∷ bs) = weight-carry_into b bs (count_up bs) (weight-count_up bs)

value-carry_into :
    (b v w : ℕ) (r : Ip × Bool)
    → b < 256
    → weight r.0 ≡ w
    → value r.0 + carried w r.1 ≡ v + 1
    → value (carry_into b r).0 + carried (256 * w) (carry_into b r).1 ≡ b * w + v + 1
unfolding value
value-carry_into b v w (rest, false) small hw h = rw hw (omega (arith, h))
value-carry_into b v w (rest, true) small hw h = elim (Bool-cases (b == 255)) [
  | inl last ↦ let e : b ≡ 255 = ground arith in rw (e, hw) (omega (arith, h))
  | inr inner ↦
      let m : (b + 1) % 256 ≡ b + 1 = ground arith in
      let n : (b + 1 == 0) ≡ false = ground arith in rw (m, n, hw) (grind (arith, h))
]

value-count_up :
    (ip : Ip)
    → All IsByte ip
    → value (count_up ip).0 + carried (weight ip) (count_up ip).1 ≡ value ip + 1
unfolding value weight count_up
value-count_up [] h = refl
value-count_up (b ∷ bs) h =
    value-carry_into b (value bs) (weight bs) (count_up bs) h.0 (weight-count_up bs)
      (value-count_up bs h.1)

-- `nextIP` adds one, and after the last address comes the first.
pub value-next_ip :
    (ip : Ip)
    → All IsByte ip
    → value (next_ip ip) + carried (weight ip) (count_up ip).1 ≡ value ip + 1
unfolding next_ip
value-next_ip ip h = value-count_up ip h

pub weight-next_ip : (ip : Ip) → weight (next_ip ip) ≡ weight ip
unfolding next_ip
weight-next_ip ip = weight-count_up ip

carry_into-IsByte :
    (b : ℕ) (r : Ip × Bool) → IsByte b → All IsByte r.0 → All IsByte (carry_into b r).0
carry_into-IsByte b (rest, true) h k = (omega arith, k)
carry_into-IsByte b (rest, false) h k = (h, k)

pub next_ip-IsByte : (ip : Ip) → All IsByte ip → All IsByte (next_ip ip)
unfolding next_ip count_up
next_ip-IsByte [] h = tt
next_ip-IsByte (b ∷ bs) h = carry_into-IsByte b (count_up bs) h.0 (next_ip-IsByte bs h.1)

carried_cases : (w : ℕ) (b : Bool) → (carried w b ≡ 0) ⊎ (carried w b ≡ w)
carried_cases w true = inr refl
carried_cases w false = inl refl

-- Before the last address `nextIP` gives the next number.
pub next_value :
    (ip : Ip) → All IsByte ip → value ip + 1 < weight ip → value (next_ip ip) ≡ value ip + 1
next_value ip h lt = elim (carried_cases (weight ip) (count_up ip).1) [
  | inl none_carried ↦ omega (arith, value-next_ip ip h)
  | inr all_carried ↦ omega (arith, value-next_ip ip h)
]

pub weight-length : (xs ys : Ip) → length xs ≡ length ys → weight xs ≡ weight ys
unfolding weight
weight-length [] [] h = refl
weight-length [] (y ∷ ys) h = absurd (omega arith)
weight-length (x ∷ xs) [] h = absurd (omega arith)
weight-length (x ∷ xs) (y ∷ ys) h = ap (λ w. 256 * w) (weight-length xs ys (omega arith))

head-lt : (a b v u w : ℕ) → a < b → v < w → a * w + v < b * w + u
head-lt a b v u w lt small =
    let up : (a + 1) * w ≤ b * w = grind arith in
    let open_up : (a + 1) * w ≡ a * w + w = grind arith in omega arith

compare_heads :
    (a b v u w : ℕ) (rest : Order)
    → v < w
    → u < w
    → at_most rest ≡ leb v u
    → at_most (if ltb a b then less else if ltb b a then more else rest)
      ≡ leb (a * w + v) (b * w + u)
compare_heads a b v u w rest hv hu e = elim (Bool-cases (ltb a b)) [
  | inl lt ↦
      let below = head-lt a b v u w (ltb→lt a b lt) hv in
      let yes_le : leb (a * w + v) (b * w + u) ≡ true = ground arith in rw (lt, yes_le) refl
  | inr not_lt ↦ elim (Bool-cases (ltb b a)) [
    | inl gt ↦
        let above = head-lt b a u v w (ltb→lt b a gt) hu in
        let not_le : leb (a * w + v) (b * w + u) ≡ false = ground arith in
        rw (not_lt, gt, not_le) refl
    | inr not_gt ↦
        let a_b : a ≡ b = ground arith in
        let tails : leb (a * w + v) (b * w + u) ≡ leb v u = rw a_b (ground arith) in
        rw (not_lt, not_gt, tails) e
  ]
]

-- `compareIP` compares the numbers.
pub compare-leb :
    (xs ys : Ip)
    → All IsByte xs
    → All IsByte ys
    → length xs ≡ length ys
    → at_most (compare_ip xs ys) ≡ leb (value xs) (value ys)
unfolding compare_ip value
compare-leb [] [] hx hy same_length = refl
compare-leb [] (b ∷ ys) hx hy same_length = absurd (omega arith)
compare-leb (a ∷ xs) [] hx hy same_length = absurd (omega arith)
compare-leb (a ∷ xs) (b ∷ ys) hx hy same_length =
    let same_weight = weight-length xs ys (omega arith) in
    let lt = value-lt ys hy.1 in
    rw (← same_weight) (
      compare_heads a b (value xs) (value ys) (weight xs) (compare_ip xs ys) (value-lt xs hx.1)
        (omega arith) (compare-leb xs ys hx.1 hy.1 (omega arith)))

length-carry_into : (b : ℕ) (r : Ip × Bool) → length (carry_into b r).0 ≡ length r.0 + 1
length-carry_into b (rest, true) = omega arith
length-carry_into b (rest, false) = omega arith

pub length-next_ip : (ip : Ip) → length (next_ip ip) ≡ length ip
unfolding next_ip count_up
length-next_ip [] = refl
length-next_ip (b ∷ bs) = omega (arith, length-carry_into b (count_up bs), length-next_ip bs)
