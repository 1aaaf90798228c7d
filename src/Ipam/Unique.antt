-- ===== src/Ipam/Unique.antt =====
-- The table of internal/ipam/ipam.go holds no address text twice.
use iflygo.Prelude.{
  ℕ, ◌≡◌, refl, sym, ◌∙◌, String, Bool, false, Option, none, some, List, [], ◌∷◌, ◌++◌, map, arith,
  keep_if, Bool-cases, inl, inr, eq_iff, ==_iff, subst,
}
use iflygo.Ipam.{
  Allocation, Prefix, is_row, has_row, is_reserved, allocate, bind_node, release_ip, release_node,
}
use iflygo.Ipam.Allocate.{new_row, Answer, allocate-Answer}

abbrev pub NoDoubles : List Allocation → Type 0
NoDoubles [] = Unit
NoDoubles (r ∷ rs) = (has_row r.network r.ip rs ≡ false) × NoDoubles rs

is_row-sym :
    (network : ℕ) (ip : String) (r : Allocation)
    → is_row network ip r ≡ false
    → is_row r.network r.ip (new_row network ip) ≡ false
is_row-sym network ip r h =
    ground
      (arith, ==_iff r.network network, ==_iff network r.network, eq_iff r.ip ip, eq_iff ip r.ip)

has_row-append :
    (network : ℕ) (ip : String) (rs : List Allocation) (r : Allocation)
    → has_row network ip rs ≡ false
    → is_row network ip r ≡ false
    → has_row network ip (rs ++ (r ∷ [])) ≡ false
has_row-append network ip [] r h h' = rw h' refl
has_row-append network ip (x ∷ rs) r h h' = elim (Bool-cases (is_row network ip x)) [
  | inl hit ↦ ground arith
  | inr miss ↦ rw miss (has_row-append network ip rs r (ground arith) h')
]

NoDoubles-append :
    (network : ℕ) (ip : String) (rs : List Allocation)
    → NoDoubles rs
    → has_row network ip rs ≡ false
    → NoDoubles (rs ++ (new_row network ip ∷ []))
NoDoubles-append network ip [] d h = (refl, tt)
NoDoubles-append network ip (r ∷ rs) (apart, d) h = elim (Bool-cases (is_row network ip r)) [
  | inl hit ↦ ground arith
  | inr miss ↦ (
    has_row-append r.network r.ip rs (new_row network ip) apart (is_row-sym network ip r miss),
    NoDoubles-append network ip rs d (ground arith),
  )
]

has_row-keep_if :
    (network : ℕ) (ip : String) (p : Allocation → Bool) (rs : List Allocation)
    → has_row network ip rs ≡ false
    → has_row network ip (keep_if p rs) ≡ false
has_row-keep_if network ip p [] h = refl
has_row-keep_if network ip p (r ∷ rs) h = elim (Bool-cases (is_row network ip r)) [
  | inl hit ↦ ground arith
  | inr miss ↦
      let rest = has_row-keep_if network ip p rs (ground arith) in
      elim (Bool-cases (p r)) [ inl keep ↦ rw keep (rw miss rest) | inr drop ↦ rw drop rest ]
]

NoDoubles-keep_if :
    (p : Allocation → Bool) (rs : List Allocation) → NoDoubles rs → NoDoubles (keep_if p rs)
NoDoubles-keep_if p [] d = tt
NoDoubles-keep_if p (r ∷ rs) (apart, d) = elim (Bool-cases (p r)) [
  | inl keep ↦ rw keep (has_row-keep_if r.network r.ip p rs apart, NoDoubles-keep_if p rs d)
  | inr drop ↦ rw drop (NoDoubles-keep_if p rs d)
]

-- A change that leaves networks and texts.
module _ (f : Allocation → Allocation)
    (same : (n : ℕ) (ip : String) (r : Allocation) → is_row n ip (f r) ≡ is_row n ip r)
    (keys : (r : Allocation) → ((f r).network ≡ r.network) × ((f r).ip ≡ r.ip)) where
  has_row-map :
      (n : ℕ) (ip : String) (rs : List Allocation) → has_row n ip (map f rs) ≡ has_row n ip rs
  has_row-map n ip [] = refl
  has_row-map n ip (r ∷ rs) = rw (same n ip r, has_row-map n ip rs) refl

  NoDoubles-map : (rs : List Allocation) → NoDoubles rs → NoDoubles (map f rs)
  NoDoubles-map [] d = tt
  NoDoubles-map (r ∷ rs) (apart, d) =
      (rw ((keys r).0, (keys r).1) (has_row-map r.network r.ip rs ∙ apart), NoDoubles-map rs d)

Answer-NoDoubles :
    (network : ℕ) (reserved : String → Bool) (now : List Allocation)
    (answer : Option String × List Allocation)
    → Answer network reserved now answer
    → NoDoubles now
    → NoDoubles answer.1
Answer-NoDoubles network reserved now (none, after) a d = subst NoDoubles (sym a) d
Answer-NoDoubles network reserved now (some ip, after) (free, r, e) d =
    subst NoDoubles (sym e) (NoDoubles-append network ip now d free)

-- An allocation, whatever was read before it, a binding to a node and both releases leave no text
-- twice in a network if there was none.
pub ipam-NoDoubles :
    (show : ℕ → String) (parse : String → Option ℕ) (network : ℕ) (p : Prefix) (requested : String)
    (exclude : List String) (node : ℕ) (seen now : List Allocation)
    → NoDoubles now
    → NoDoubles (allocate show parse network p requested exclude seen now).1
      × NoDoubles (bind_node network requested node now)
      × NoDoubles (release_ip network requested now)
      × NoDoubles (release_node node now)
unfolding bind_node release_ip release_node
ipam-NoDoubles show parse network p requested exclude node seen now d = (
  Answer-NoDoubles network (is_reserved show parse network p exclude seen) now
      (allocate show parse network p requested exclude seen now)
      (allocate-Answer show parse network p requested exclude seen now) d,
  NoDoubles-map _ (λ n ip r. ground arith) (λ r. ground arith) now d,
  NoDoubles-keep_if _ now d,
  NoDoubles-keep_if _ now d,
)
