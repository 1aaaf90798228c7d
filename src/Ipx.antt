-- ===== src/Ipx.antt =====
-- The expansion of IP expressions (internal/pkg/ipx/ipx.go), from the parsed parts on: an address is
-- the list of its bytes, and the parts are IPv4.
pub mod Bytes
pub mod Ranges
mod Tests
use iflygo.Prelude.{
  ℕ, zero, suc, ◌+◌, ◌-◌, ◌*◌, ◌/◌, ◌%◌, Bool, true, false, Option, none, some, List, [], ◌∷◌, ◌++◌,
  ltb, leb, ◌==◌, ◌&&◌, ◌||◌, not, if◌then◌else◌, length,
}

abbrev pub Ip : Type 0
Ip = List ℕ

-- `DefaultMaxExpand`
abbrev pub default_max_expand : ℕ
default_max_expand = 65536

-- The loop of `nextIP`, from the last byte on: the bytes, and whether the loop goes on before them.
abbrev pub carry_into : ℕ → Ip × Bool → Ip × Bool
carry_into b (rest, true) = ((b + 1) % 256 ∷ rest, (b + 1) % 256 == 0)
carry_into b (rest, false) = (b ∷ rest, false)

unfoldable pub count_up : Ip → Ip × Bool
count_up [] = ([], true)
count_up (b ∷ bs) = carry_into b (count_up bs)

unfoldable pub next_ip : Ip → Ip
unfolding count_up
next_ip ip = (count_up ip).0

pub data Order : Type 0 where
  less same more : Order

-- `compareIP`
unfoldable pub compare_ip : Ip → Ip → Order
compare_ip [] bs = same
compare_ip (a ∷ rest_a) [] = same
compare_ip (a ∷ rest_a) (b ∷ bs) =
    let rest = compare_ip rest_a bs in if ltb a b then less else if ltb b a then more else rest

abbrev pub at_most : Order → Bool
at_most more = false
at_most _ = true

pub data Error : Type 0 where
  bad_ip reversed too_many nothing empty : Error

pub data Result (A : Type 0) : Type 0 where
  ok : A → Result A
  err : Error → Result A
  -- the loop has not ended within its fuel
  runs_on : Result A

-- `int64(ip[0])<<24 | int64(ip[1])<<16 | int64(ip[2])<<8 | int64(ip[3])`
abbrev pub as_int : Ip → ℕ
as_int (a ∷ b ∷ c ∷ d ∷ []) = a * 16777216 + b * 65536 + c * 256 + d
as_int _ = 0

-- An address before those that the rest of a loop gives.
abbrev pub before_all : Ip → Result (List Ip) → Result (List Ip)
before_all ip (ok ips) = ok (ip ∷ ips)
before_all ip (err e) = err e
before_all ip runs_on = runs_on

-- `for cur := start; compareIP(cur, end) <= 0; cur = nextIP(cur)`
unfoldable pub range_loop : (fuel : ℕ) → (cur end : Ip) → Result (List Ip)
range_loop zero cur end = runs_on
range_loop (suc fuel) cur end =
    let rest = range_loop fuel (next_ip cur) end in
    if at_most (compare_ip cur end) then before_all cur rest else ok []

-- `expandRange`, for two addresses that were read.
unfoldable pub expand_range : (fuel : ℕ) → (start end : Ip) → (max : ℕ) → Result (List Ip)
expand_range fuel start end max =
    if not (at_most (compare_ip start end))
    then err reversed
    else if ltb max (as_int end - as_int start + 1)
    then err too_many
    else range_loop fuel start end
