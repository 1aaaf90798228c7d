-- ===== src/Text/Pieces.antt =====
-- Texts joined by a separator: where one side has no more separators than it needs, the pieces of
-- equal texts are equal.
use iflygo.Prelude.{
  ℕ, ◌+◌, List, [], ◌∷◌, ◌++◌, ◌≡◌, refl, if◌then◌else◌, ◌==◌, arith, ◌≢◌, All, ◌<◌, ◌⊎◌,
}
use iflygo.Text.Decimal.{decimal, decimal-IsDigit, IsDigit}

abbrev Text : Type 0
Text = List ℕ

-- How often a character is in a text.
unfoldable pub count : ℕ → Text → ℕ
count sep [] = 0
count sep (c ∷ s) = (if c == sep then 1 else 0) + count sep s

pub count-append : (sep : ℕ) (s t : Text) → count sep (s ++ t) ≡ count sep s + count sep t
unfolding count
count-append sep [] t = omega arith
count-append sep (c ∷ s) t = omega (arith, count-append sep s t)

-- Two texts joined by a separator.
abbrev pub joined : ℕ → Text → Text → Text
joined sep s t = s ++ (sep ∷ t)

pub count-joined :
    (sep : ℕ) (s t : Text) → count sep (joined sep s t) ≡ count sep s + 1 + count sep t
unfolding count
count-joined sep s t = ground (arith, count-append sep s (sep ∷ t))

-- The first pieces have no separator: they are equal, and so are the rests.
pub joined-same :
    (sep : ℕ) (s s' t t' : Text)
    → count sep s ≡ 0
    → count sep s' ≡ 0
    → joined sep s t ≡ joined sep s' t'
    → (s ≡ s') × (t ≡ t')
unfolding count
joined-same sep [] [] t t' h h' e = (refl, search)
joined-same sep [] (c ∷ s') t t' h h' e = absurd (ground arith)
joined-same sep (c ∷ s) [] t t' h h' e = absurd (ground arith)
joined-same sep (c ∷ s) (c' ∷ s') t t' h h' e =
    let ih = joined-same sep s s' t t' (ground arith) (ground arith) in ground (arith, ih)

pub count-All :
    {P : ℕ → Type 0} → (sep : ℕ) (s : Text) → ((c : ℕ) → P c → c ≢ sep) → All P s → count sep s ≡ 0
unfolding count
count-All sep [] differs h = refl
count-All sep (c ∷ s) differs h =
    let d = differs c h.0 in let ih = count-All sep s differs h.1 in ground (arith, d, ih)

no_digit : (sep c : ℕ) → (sep < 48) ⊎ (57 < sep) → IsDigit c → c ≢ sep
no_digit sep c h d e = ground arith

-- A number has no separator in it that is no digit.
pub count-decimal : (sep n : ℕ) → (sep < 48) ⊎ (57 < sep) → count sep (decimal n) ≡ 0
count-decimal sep n h = count-All sep (decimal n) (λ c. no_digit sep c h) (decimal-IsDigit n)
