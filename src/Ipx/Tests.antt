-- ===== src/Ipx/Tests.antt =====
-- Two ranges at the ends of a network and of the address space (internal/pkg/ipx/ipx.go).
use iflygo.Prelude.{◌+◌, ◌-◌, ◌<◌, ◌≤◌, ◌≡◌, refl, List, [], ◌∷◌, length, arith, ◌⊎◌}
use iflygo.Ipx.{Ip, expand_range, ok, err, runs_on, reversed, too_many}
use iflygo.Ipx.Bytes.{weight, value}
use iflygo.Ipx.Ranges.{IsRun, IsIpv4, expand_range_lem, expand_range_endless}

abbrev first_host : Ip
first_host = 10 ∷ 0 ∷ 0 ∷ 254 ∷ []

abbrev next_net : Ip
next_net = 10 ∷ 0 ∷ 1 ∷ 1 ∷ []

abbrev near_top : Ip
near_top = 255 ∷ 255 ∷ 255 ∷ 250 ∷ []

abbrev top : Ip
top = 255 ∷ 255 ∷ 255 ∷ 255 ∷ []

first_host-IsIpv4 : IsIpv4 first_host
first_host-IsIpv4 = (refl, (omega arith, (omega arith, (omega arith, (omega arith, tt)))))

next_net-IsIpv4 : IsIpv4 next_net
next_net-IsIpv4 = (refl, (omega arith, (omega arith, (omega arith, (omega arith, tt)))))

near_top-IsIpv4 : IsIpv4 near_top
near_top-IsIpv4 = (refl, (omega arith, (omega arith, (omega arith, (omega arith, tt)))))

top-IsIpv4 : IsIpv4 top
top-IsIpv4 = (refl, (omega arith, (omega arith, (omega arith, (omega arith, tt)))))

next_net-below : value next_net < 4294967295
unfolding value weight
next_net-below = omega arith

value-top : value top ≡ 4294967295
unfolding value weight
value-top = refl

top_near : value top < value near_top + 100
unfolding value weight
top_near = omega arith

-- The addresses go over from one network to the next.
expand_range_lem_example :
    ((value next_net < value first_host) × (expand_range 20 first_host next_net 10 ≡ err reversed))
    ⊎ (((value first_host + 10 ≤ value next_net)
          × (expand_range 20 first_host next_net 10 ≡ err too_many))
        ⊎ ((ips : List Ip) × (expand_range 20 first_host next_net 10 ≡ ok ips)
            × IsRun (value first_host) ips
            × (length ips ≡ value next_net + 1 - value first_host)
            × (length ips ≤ 10)))
expand_range_lem_example =
    expand_range_lem first_host next_net 10 first_host-IsIpv4 next_net-IsIpv4 20 (omega arith)
      next_net-below

expand_range_endless_example : expand_range 1000 near_top top 100 ≡ runs_on
expand_range_endless_example =
    expand_range_endless near_top top 100 near_top-IsIpv4 top-IsIpv4 1000 value-top top_near
