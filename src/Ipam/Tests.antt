-- ===== src/Ipam/Tests.antt =====
-- Examples of ipam.go: a small network with two texts for one of its addresses.
use iflygo.Prelude.{
  ℕ, ◌≡◌, refl, String, false, Option, none, some, List, [], ◌∷◌, str_eq, ◌==◌, if◌then◌else◌,
}
use iflygo.Ipam.{Allocation, Prefix, allocate, is_reserved}
use iflygo.Ipam.Allocate.{allocate-Answer, allocate_alias, Answer}

abbrev text_of : ℕ → String
text_of a = if a == 0 then "fd00::" else if a == 1 then "fd00::1" else "fd00::2"

abbrev number_of : String → Option ℕ
number_of s =
    if str_eq s "fd00::"
    then some 0
    else if str_eq s "fd00::1"
    then some 1
    else if str_eq s "fd00::0:1"
    then some 1
    else none

abbrev small : Prefix
small = record { first = 0; size = 3; broadcast = false }

abbrev one_row : List Allocation
one_row = record { network = 4; ip = "fd00::1"; node = none } ∷ []

allocate-Answer_example :
    Answer 4
      (is_reserved text_of number_of 4 small [] one_row)
      one_row
      (allocate text_of number_of 4 small "" [] one_row one_row)
allocate-Answer_example = allocate-Answer text_of number_of 4 small "" [] one_row one_row

allocate_alias_example :
    (allocate text_of number_of 4 small "fd00::0:1" [] one_row one_row).0 ≡ some "fd00::0:1"
unfolding is_reserved
allocate_alias_example =
    allocate_alias text_of number_of 4 small "fd00::0:1" [] one_row 1 refl refl refl refl refl refl
