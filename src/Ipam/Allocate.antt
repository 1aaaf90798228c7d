-- ===== src/Ipam/Allocate.antt =====
-- What `Allocate` of internal/ipam/ipam.go gives out.
use iflygo.Prelude.{
  ℕ, zero, suc, ◌+◌, ◌-◌, ◌≤◌, ◌<◌, ◌≡◌, ◌≢◌, refl, sym, subst, String, Bool, true, false, ◌||◌,
  Option, none, some, List, [], ◌∷◌, ◌++◌, arith, str_eq, Bool-cases, inl, inr,
}
use iflygo.Ipam.{
  Allocation, Prefix, contains_address, has_row, insert_address, insert_free, is_reserved,
  allocate_from, allocate, allocate_parsed,
}

-- A row as it is added.
abbrev pub new_row : ℕ → String → Allocation
new_row network ip = record { network = network; ip = ip; node = none }

-- The text is free, and a row for it was added.
abbrev pub IsGiven : ℕ → (String → Bool) → List Allocation → String → List Allocation → Type 0
IsGiven network reserved now ip after =
    (has_row network ip now ≡ false)
    × (reserved ip ≡ false)
    × (after ≡ now ++ (new_row network ip ∷ []))

-- What an allocation answers: a free text, with its row added, or nothing, with no row added.
abbrev pub Answer : ℕ → (String → Bool) → List Allocation → Option String × List Allocation → Type 0
Answer network reserved now (none, after) = after ≡ now
Answer network reserved now (some ip, after) = IsGiven network reserved now ip after

module _ (show : ℕ → String) (parse : String → Option ℕ) where
  insert-Answer :
      (network : ℕ) (reserved : String → Bool) (now : List Allocation) (ip : String)
      → reserved ip ≡ false
      → Answer network reserved now (insert_address network ip now)
  unfolding insert_address
  insert-Answer network reserved now ip free = row_cases (has_row network ip now) refl
    where
      row_cases :
          (b : Bool)
          → has_row network ip now ≡ b
          → Answer network reserved now (insert_free b network ip now)
      row_cases true e = refl
      row_cases false e = (e, free, refl)

  allocate_from-Answer :
      (left network a : ℕ) (reserved : String → Bool) (now : List Allocation)
      → Answer network reserved now (allocate_from show parse left network a reserved now)
  unfolding allocate_from
  allocate_from-Answer zero network a reserved now = refl
  allocate_from-Answer (suc left) network a reserved now =
      elim (Bool-cases (reserved (show a) || has_row network (show a) now)) [
        | inl busy ↦ rw busy (allocate_from-Answer left network (suc a) reserved now)
        | inr free ↦ rw free (insert-Answer network reserved now (show a) (ground arith))
      ]

  parsed-Answer :
      (network : ℕ) (p : Prefix) (requested : String) (reserved : String → Bool) (o : Option ℕ)
      (now : List Allocation)
      → Answer network reserved now (allocate_parsed show parse network p requested reserved o now)
  parsed-Answer network p requested reserved none now = refl
  parsed-Answer network p requested reserved (some a) now =
      elim (Bool-cases (contains_address p a)) [
        | inr out ↦ rw out refl
        | inl within ↦ elim (Bool-cases (reserved requested)) [
          | inl busy ↦ rw (within, busy) refl
          | inr free ↦ rw (within, free) (insert-Answer network reserved now requested free)
        ]
      ]

  -- `Allocate` gives out a text only if it is not reserved and no row has it when the row is added,
  -- also if the rows have changed since they were read, and it adds just this row; where it gives
  -- nothing, it adds nothing.
  pub allocate-Answer :
      (network : ℕ) (p : Prefix) (requested : String) (exclude : List String)
      (seen now : List Allocation)
      → Answer network
          (is_reserved show parse network p exclude seen)
          now
          (allocate show parse network p requested exclude seen now)
  unfolding allocate
  allocate-Answer network p requested exclude seen now = elim (Bool-cases (str_eq requested "")) [
    | inl any ↦ rw any (
        allocate_from-Answer (p.size - 1) network (suc p.first)
          (is_reserved show parse network p exclude seen) now)
    | inr named ↦ rw named (
        parsed-Answer network p requested (is_reserved show parse network p exclude seen)
          (parse requested) now)
  ]

  lowest_lem :
      (left network a b : ℕ) (reserved : String → Bool) (now : List Allocation)
      → a ≤ b
      → b < a + left
      → reserved (show b) ≡ false
      → has_row network (show b) now ≡ false
      → (c : ℕ) × ((allocate_from show parse left network a reserved now).0 ≡ some (show c))
        × (a ≤ c)
        × (c ≤ b)
  unfolding allocate_from insert_address
  lowest_lem zero network a b reserved now low high free fresh = absurd (omega arith)
  lowest_lem (suc left) network a b reserved now low high free fresh =
      elim (Bool-cases (reserved (show a) || has_row network (show a) now)) [
        | inr idle ↦
            let none_yet : has_row network (show a) now ≡ false = ground arith in
            (a, rw idle (rw none_yet refl), omega arith, low)
        | inl busy ↦
            let apart : a ≢ b = λ e.
              let free_a : reserved (show a) ≡ false =
                subst (λ x. reserved (show x) ≡ false) (sym e) free in
              let fresh_a : has_row network (show a) now ≡ false =
                subst (λ x. has_row network (show x) now ≡ false) (sym e) fresh in
              ground arith in
            let (c, e, l, h) =
              lowest_lem left network (suc a) b reserved now (omega (arith, apart)) (omega arith)
                free fresh in
            (c, rw busy e, omega arith, h)
      ]

  -- A request for any address fails only when there is none: as long as an address of the prefix,
  -- after its first, is neither reserved nor in a row, it is given that one or a lower one.
  pub allocate_any :
      (network : ℕ) (p : Prefix) (exclude : List String) (seen now : List Allocation) (b : ℕ)
      → p.first < b
      → b < p.first + p.size
      → is_reserved show parse network p exclude seen (show b) ≡ false
      → has_row network (show b) now ≡ false
      → (c : ℕ) × ((allocate show parse network p "" exclude seen now).0 ≡ some (show c))
        × (p.first < c)
        × (c ≤ b)
  unfolding allocate
  allocate_any network p exclude seen now b low high free fresh =
      lowest_lem (p.size - 1) network (suc p.first) b
        (is_reserved show parse network p exclude seen) now low (omega arith) free fresh

  -- Addresses are told apart by their texts alone: another text of an address that is in the table
  -- is given out on request, unless that text is reserved or in the table.
  pub allocate_alias :
      (network : ℕ) (p : Prefix) (requested : String) (exclude : List String)
      (now : List Allocation) (a : ℕ)
      → parse requested ≡ some a
      → contains_address p a ≡ true
      → has_row network (show a) now ≡ true
      → str_eq requested "" ≡ false
      → is_reserved show parse network p exclude now requested ≡ false
      → has_row network requested now ≡ false
      → (allocate show parse network p requested exclude now now).0 ≡ some requested
  unfolding allocate insert_address
  allocate_alias network p requested exclude now a e within old named free fresh =
      rw (named, e, within, free, fresh) refl
