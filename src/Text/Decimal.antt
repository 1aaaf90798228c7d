-- ===== src/Text/Decimal.antt =====
-- Numbers in decimal, as strconv.FormatInt and fmt.Sprintf("%d") write them, and read back.
use iflygo.Prelude.{
  ℕ, zero, suc, ◌+◌, ◌-◌, ◌*◌, ◌/◌, ◌%◌, ◌<◌, ◌≤◌, List, [], ◌∷◌, ◌++◌, ◌≡◌, refl, ltb,
  if◌then◌else◌, All, arith, ap, ◌∙◌, sym, Bool-cases, inl, inr,
}

abbrev Text : Type 0
Text = List ℕ

-- The last digit of a number is written last.
unfoldable pub digits : (fuel n : ℕ) → Text
digits zero n = []
digits (suc fuel) n =
    let front = digits fuel (n / 10) in
    if ltb n 10 then (48 + n) ∷ [] else front ++ ((48 + n % 10) ∷ [])

unfoldable pub decimal : ℕ → Text
unfolding digits
decimal n = digits (suc n) n

-- The number whose digits follow those of `acc`.
read : (acc : ℕ) → Text → ℕ
read acc [] = acc
read acc (d ∷ ds) = read (acc * 10 + (d - 48)) ds

read-append : (acc d : ℕ) (s : Text) → read acc (s ++ (d ∷ [])) ≡ read acc s * 10 + (d - 48)
unfolding read
read-append acc d [] = refl
read-append acc d (c ∷ s) = read-append (acc * 10 + (c - 48)) d s

read_digit : (k : ℕ) → read 0 ((48 + k) ∷ []) ≡ k
unfolding read
read_digit k = omega arith

read-digits : (fuel n : ℕ) → n < fuel → read 0 (digits fuel n) ≡ n
unfolding digits
read-digits zero n h = absurd (omega arith)
read-digits (suc fuel) n h = elim (Bool-cases (ltb n 10)) [
  | inl one ↦ simp one (read_digit n)
  | inr more ↦
      let ih = read-digits fuel (n / 10) (ground arith) in
      simp more (read-append 0 (48 + n % 10) (digits fuel (n / 10)) ∙ omega (arith, ih))
]

-- Two numbers with the same digits are the same.
pub decimal-same : (m n : ℕ) → decimal m ≡ decimal n → m ≡ n
unfolding decimal
decimal-same m n e =
    sym (read-digits (suc m) m (omega arith)) ∙ ap (read 0) e ∙ read-digits (suc n) n (omega arith)

abbrev pub IsDigit : ℕ → Type 0
IsDigit c = (48 ≤ c) × (c ≤ 57)

All-last : (s : Text) (c : ℕ) → All IsDigit s → IsDigit c → All IsDigit (s ++ (c ∷ []))
All-last [] c h hc = (hc, tt)
All-last (d ∷ s) c h hc = (h.0, All-last s c h.1 hc)

digits-IsDigit : (fuel n : ℕ) → All IsDigit (digits fuel n)
unfolding digits
digits-IsDigit zero n = tt
digits-IsDigit (suc fuel) n = elim (Bool-cases (ltb n 10)) [
  | inl one ↦ simp one ((omega arith, ground arith), tt)
  | inr more ↦ simp more (
      All-last (digits fuel (n / 10)) (48 + n % 10) (digits-IsDigit fuel (n / 10))
        (omega arith, omega arith))
]

pub decimal-IsDigit : (n : ℕ) → All IsDigit (decimal n)
unfolding decimal
decimal-IsDigit n = digits-IsDigit (suc n) n
