-- ===== src/Ipx/Ranges.antt =====
-- What a range expands to, and where its loop does not end (internal/pkg/ipx/ipx.go).
use iflygo.Prelude.{
  ℕ, zero, suc, ◌+◌, ◌-◌, ◌<◌, ◌≤◌, ◌≡◌, refl, subst, sym, ◌∙◌, true, false, List, [], ◌∷◌, ltb,
  leb, length, All, arith, Bool-cases, inl, inr, leb→le, ◌⊎◌,
}
use iflygo.Ipx.{
  Ip, next_ip, compare_ip, at_most, as_int, Result, ok, err, runs_on, reversed, too_many,
  before_all, range_loop, expand_range,
}
use iflygo.Ipx.Bytes.{
  IsByte, weight, value, value-lt, next_value, next_ip-IsByte, compare-leb, weight-length,
  length-next_ip,
}

-- The addresses of the list are the numbers from `v` on, one after the other.
abbrev pub IsRun : ℕ → List Ip → Type 0
IsRun v [] = Unit
IsRun v (ip ∷ ips) = (value ip ≡ v) × IsRun (v + 1) ips

-- An address of IPv4.
abbrev pub IsIpv4 : Ip → Type 0
IsIpv4 ip = (length ip ≡ 4) × All IsByte ip

-- A loop that ends has given the run of so many numbers from `v` on.
abbrev Gives : ℕ → ℕ → Result (List Ip) → Type 0
Gives v n (ok ips) = IsRun v ips × (length ips ≡ n)
Gives v n (err e) = ⊥
Gives v n runs_on = ⊥

Gives-before :
    (ip : Ip) (v n : ℕ) (r : Result (List Ip))
    → value ip ≡ v
    → Gives (v + 1) n r
    → Gives v (n + 1) (before_all ip r)
Gives-before ip v n (ok ips) e (run, len) = ((e, run), omega arith)
Gives-before ip v n (err x) e h = h
Gives-before ip v n runs_on e h = h

next-IsIpv4 : (ip : Ip) → IsIpv4 ip → IsIpv4 (next_ip ip)
next-IsIpv4 ip (len, bytes) = (omega (arith, length-next_ip ip), next_ip-IsByte ip bytes)

weight_ipv4 : (ip : Ip) → length ip ≡ 4 → weight ip ≡ 4294967296
unfolding weight
weight_ipv4 ip h = weight-length ip (0 ∷ 0 ∷ 0 ∷ 0 ∷ []) h

range_loop_lem :
    (fuel : ℕ) (cur end : Ip)
    → IsIpv4 cur
    → IsIpv4 end
    → value end < 4294967295
    → value end + 1 - value cur < fuel
    → Gives (value cur) (value end + 1 - value cur) (range_loop fuel cur end)
unfolding range_loop
range_loop_lem zero cur end hc he top enough = absurd (omega arith)
range_loop_lem (suc fuel) cur end hc he top enough =
    let order = compare-leb cur end hc.1 he.1 (hc.0 ∙ sym he.0) in
    elim (Bool-cases (leb (value cur) (value end))) [
      | inl go_on ↦
          let le = leb→le (value cur) (value end) go_on in
          let w = weight_ipv4 cur hc.0 in
          let up : value (next_ip cur) ≡ value cur + 1 = next_value cur hc.1 (omega arith) in
          let ih =
            range_loop_lem fuel (next_ip cur) end (next-IsIpv4 cur hc) he top (omega arith) in
          let n : value end + 1 - value cur ≡ (value end + 1 - value (next_ip cur)) + 1 =
            omega arith in
          rw (order, go_on)
            (subst (λ k. Gives (value cur) k (before_all cur (range_loop fuel (next_ip cur) end)))
              (sym n)
              (Gives-before cur (value cur) (value end + 1 - value (next_ip cur))
                (range_loop fuel (next_ip cur) end) refl
                (subst
                  (λ v.
                    Gives v (value end + 1 - value (next_ip cur))
                      (range_loop fuel (next_ip cur) end))
                  up ih)))
      | inr over ↦ rw (order, over) (tt, ground arith)
    ]

-- Up to 255.255.255.255 the test always holds.
range_loop_endless :
    (fuel : ℕ) (cur end : Ip)
    → IsIpv4 cur
    → IsIpv4 end
    → value end ≡ 4294967295
    → range_loop fuel cur end ≡ runs_on
unfolding range_loop
range_loop_endless zero cur end hc he top = refl
range_loop_endless (suc fuel) cur end hc he top =
    let order = compare-leb cur end hc.1 he.1 (hc.0 ∙ sym he.0) in
    let w = weight_ipv4 cur hc.0 in
    let lt = value-lt cur hc.1 in
    let below : leb (value cur) (value end) ≡ true = ground arith in
    let ih = range_loop_endless fuel (next_ip cur) end (next-IsIpv4 cur hc) he top in
    rw (order, below) (rw ih refl)

as_int-value : (ip : Ip) → length ip ≡ 4 → as_int ip ≡ value ip
unfolding value weight
as_int-value [] h = absurd (omega arith)
as_int-value (a ∷ []) h = absurd (omega arith)
as_int-value (a ∷ b ∷ []) h = absurd (omega arith)
as_int-value (a ∷ b ∷ c ∷ []) h = absurd (omega arith)
as_int-value (a ∷ b ∷ c ∷ d ∷ []) h = omega arith
as_int-value (a ∷ b ∷ c ∷ d ∷ e ∷ r) h = absurd (omega arith)

-- A loop that gives a run has ended.
given :
    (v n : ℕ) (r : Result (List Ip))
    → Gives v n r
    → (ips : List Ip) × (r ≡ ok ips) × IsRun v ips × (length ips ≡ n)
given v n (ok ips) (run, len) = (ips, refl, run, len)
given v n (err e) h = absurd h
given v n runs_on h = absurd h

module _ (start end : Ip) (max : ℕ) (hs : IsIpv4 start) (he : IsIpv4 end) where
  order : at_most (compare_ip start end) ≡ leb (value start) (value end)
  order = compare-leb start end hs.1 he.1 (hs.0 ∙ sym he.0)

  -- A range of IPv4 addresses that ends before 255.255.255.255 is refused if it is reversed or has more than `max`
  -- addresses, and expands to all its addresses in order if not; the loop ends if it may go round
  -- more than `max` and one times.
  pub expand_range_lem :
      (fuel : ℕ)
      → max + 1 < fuel
      → value end < 4294967295
      → ((value end < value start) × (expand_range fuel start end max ≡ err reversed))
        ⊎ (((value start + max ≤ value end) × (expand_range fuel start end max ≡ err too_many))
            ⊎ ((ips : List Ip) × (expand_range fuel start end max ≡ ok ips)
                × IsRun (value start) ips
                × (length ips ≡ value end + 1 - value start)
                × (length ips ≤ max)))
  unfolding expand_range
  expand_range_lem fuel enough top =
      let s = as_int-value start hs.0 in
      let e = as_int-value end he.0 in
      elim (Bool-cases (leb (value start) (value end))) [
        | inr over ↦ inl (ground arith, rw (order, over) refl)
        | inl le ↦ elim (Bool-cases (ltb max (value end - value start + 1))) [
          | inl many ↦ inr (inl (ground arith, rw (order, le, s, e, many) refl))
          | inr few ↦
              let (ips, r, run, len) =
                given (value start) (value end + 1 - value start) (range_loop fuel start end)
                  (range_loop_lem fuel start end hs he top (ground arith)) in
              inr (inr (ips, rw (order, le, s, e, few) r, run, len, ground arith))
        ]
      ]

  -- A range of at most `max` IPv4 addresses that ends with 255.255.255.255 is never expanded: however often
  -- the loop goes round, it has not ended.
  pub expand_range_endless :
      (fuel : ℕ)
      → value end ≡ 4294967295
      → value end < value start + max
      → expand_range fuel start end max ≡ runs_on
  unfolding expand_range
  expand_range_endless fuel top few =
      let s = as_int-value start hs.0 in
      let e = as_int-value end he.0 in
      let w = weight_ipv4 start hs.0 in
      let lt = value-lt start hs.1 in
      let le : leb (value start) (value end) ≡ true = ground arith in
      let not_many : ltb max (value end - value start + 1) ≡ false = ground arith in
      rw (order, le, s, e, not_many) (range_loop_endless fuel start end hs he top)
