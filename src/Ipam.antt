-- ===== src/Ipam.antt =====
-- internal/ipam/ipam.go: the addresses of an overlay network.
--
-- An address is its number; `show` is its canonical text (`netip.Addr.String`) and `parse` is
-- `netip.ParseAddr`. A prefix is its first address and how many there are. The state is the table
-- ip_allocations, which a constraint keeps free of doubles of network and text. `seen` is the table
-- when the allocated addresses are read (an empty list where that fails, since the error is
-- ignored), `now` the one that is written to. The columns family and state, which follow from the
-- address and are constant, are left out.
pub mod Allocate
pub mod Unique
mod Tests
use iflygo.Prelude.{
  ℕ, zero, suc, ◌+◌, ◌-◌, String, Bool, true, false, not, ◌&&◌, ◌||◌, Option, none, some, List, [],
  ◌∷◌, ◌++◌, map, str_eq, ◌==◌, ltb, leb, if◌then◌else◌, any_of, keep_if,
}

pub record Allocation : Type 0 where
  pub network : ℕ
  pub ip : String
  pub node : Option ℕ

-- A masked prefix. `broadcast` holds for IPv4 with fewer than 32 bits.
pub record Prefix : Type 0 where
  pub first : ℕ
  pub size : ℕ
  pub broadcast : Bool

abbrev pub contains_address : Prefix → ℕ → Bool
contains_address p a = leb p.first a && ltb a (p.first + p.size)

abbrev pub is_row : ℕ → String → Allocation → Bool
is_row network ip r = r.network == network && str_eq r.ip ip

abbrev pub has_row : ℕ → String → List Allocation → Bool
has_row network ip = any_of (is_row network ip)

-- `insert`: with no row for the address, one is added; else it is an error.
abbrev insert_free : (there : Bool) → ℕ → String → List Allocation → Option String × List Allocation
insert_free true network ip table = (none, table)
insert_free false network ip table =
    (some ip, table ++ (record { network = network; ip = ip; node = none } ∷ []))

unfoldable pub insert_address : ℕ → String → List Allocation → Option String × List Allocation
insert_address network ip table = insert_free (has_row network ip table) network ip table

module _ (show : ℕ → String) (parse : String → Option ℕ) where
  -- `reserved[ip]`
  unfoldable pub is_reserved : ℕ → Prefix → List String → List Allocation → String → Bool
  is_reserved network p exclude seen ip =
      any_of (λ e. not (str_eq e "") && str_eq e ip) exclude
      || (str_eq (show p.first) ip
          || ((p.broadcast && str_eq (show (p.first + p.size - 1)) ip) || has_row network ip seen))

  -- The loop over the addresses after the first of the prefix, of which there are `left`.
  unfoldable pub allocate_from :
      (left : ℕ)
      → ℕ
      → ℕ
      → (reserved : String → Bool) → List Allocation
      → Option String × List Allocation
  allocate_from zero network a reserved now = (none, now)
  allocate_from (suc left) network a reserved now =
      let rest = allocate_from left network (suc a) reserved now in
      if reserved (show a) || has_row network (show a) now
      then rest
      else insert_address network (show a) now

  abbrev allocate_parsed :
      ℕ
      → Prefix
      → String
      → (reserved : String → Bool) → Option ℕ
      → List Allocation
      → Option String × List Allocation
  allocate_parsed network p requested reserved none now = (none, now)
  allocate_parsed network p requested reserved (some a) now =
      if not (contains_address p a)
      then (none, now)
      else if reserved requested
      then (none, now)
      else insert_address network requested now

  -- `Allocate`; an empty request is one for any address.
  unfoldable pub allocate :
      ℕ
      → Prefix
      → String
      → List String
      → (seen now : List Allocation) → Option String × List Allocation
  allocate network p requested exclude seen now =
      let reserved = is_reserved network p exclude seen in
      if str_eq requested ""
      then allocate_from (p.size - 1) network (suc p.first) reserved now
      else allocate_parsed network p requested reserved (parse requested) now

unfoldable pub bind_node : ℕ → String → ℕ → List Allocation → List Allocation
bind_node network ip node =
    map (λ r. if is_row network ip r then record r { node = some node } else r)

unfoldable pub release_ip : ℕ → String → List Allocation → List Allocation
release_ip network ip = keep_if (λ r. not (is_row network ip r))

abbrev is_node : ℕ → Option ℕ → Bool
is_node node none = false
is_node node (some n) = n == node

unfoldable pub release_node : ℕ → List Allocation → List Allocation
release_node node = keep_if (λ r. not (is_node node r.node))
