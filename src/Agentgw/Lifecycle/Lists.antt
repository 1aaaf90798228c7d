-- ===== src/Agentgw/Lifecycle/Lists.antt =====
-- The lives of all commands of the table, which are in the order of their ids.
use iflygo.Prelude.{
  ℕ, ◌<◌, ◌≡◌, refl, sym, ◌∙◌, subst, Bool, true, false, some, List, [], ◌∷◌, ◌++◌, map,
  if◌then◌else◌, ◌==◌, find_first, All, All-append, arith, Bool-cases, inl, inr, find_first-hit,
  find_first-miss,
}
use iflygo.Task.Rows.{CommandStatus}
use iflygo.Agentgw.Rows.{Command}
use iflygo.Agentgw.Lifecycle.{Life, still, Life-trans}

-- A command that began its life waiting, never handed out.
pub record Born (d : Command) : Type 0 where
  pub first : Command
  pub waits : first.status ≡ CommandStatus.pending
  pub fresh : first.attempts ≡ 0
  pub life : Life first d

-- Each command of the first list lives on at its place in the second; behind those are new ones.
pub data Evolve : List Command → List Command → Type 0 where
  news : (ds : List Command) → All Born ds → Evolve [] ds
  both : {c d : Command} {cs ds : List Command} → Life c d → Evolve cs ds → Evolve (c ∷ cs) (d ∷ ds)

-- The ids rise.
abbrev pub Ascending : List Command → Type 0
Ascending [] = Unit
Ascending (c ∷ cs) = All (λ x. c.id < x.id) cs × Ascending cs

pub Evolve-refl : (cs : List Command) → Evolve cs cs
Evolve-refl [] = news [] tt
Evolve-refl (c ∷ cs) = both still (Evolve-refl cs)

Born-Life : {c d : Command} → Born c → Life c d → Born d
Born-Life b l = record {
  first = b.first;
  waits = b.waits;
  fresh = b.fresh;
  life = Life-trans b.life l;
}

Born-map :
    (f : Command → Command) (cs : List Command)
    → All (λ c. Life c (f c)) cs
    → All Born cs
    → All Born (map f cs)
Born-map f [] h b = tt
Born-map f (c ∷ cs) h b = (Born-Life b.0 h.0, Born-map f cs h.1 b.1)

-- An update under which every command lives on.
pub Evolve-map :
    (f : Command → Command) {cs ds : List Command}
    → Evolve cs ds
    → All (λ c. Life c (f c)) ds
    → Evolve cs (map f ds)
Evolve-map f (news ds b) h = news (map f ds) (Born-map f ds h b)
Evolve-map f (both l e) h = both (Life-trans l h.0) (Evolve-map f e h.1)

pub Evolve-append :
    (c : Command) {cs ds : List Command} → Evolve cs ds → Born c → Evolve cs (ds ++ (c ∷ []))
Evolve-append c (news ds b) new = news (ds ++ (c ∷ [])) (All-append Born ds (c ∷ []) b (new, tt))
Evolve-append c (both l e) new = both l (Evolve-append c e new)

-- What holds of commands and is kept by their lives.
module _ (P : Command → Type 0) (keep : (c d : Command) → Life c d → P c → P d) where
  Born-All :
      (ds : List Command)
      → ((c : Command) → c.status ≡ CommandStatus.pending → c.attempts ≡ 0 → P c)
      → All Born ds
      → All P ds
  Born-All [] new b = tt
  Born-All (d ∷ ds) new (b, bs) =
      (keep b.first d b.life (new b.first b.waits b.fresh), Born-All ds new bs)

  pub Evolve-All :
      {cs ds : List Command}
      → ((c : Command) → c.status ≡ CommandStatus.pending → c.attempts ≡ 0 → P c)
      → Evolve cs ds
      → All P cs
      → All P ds
  Evolve-All new (news ds b) h = Born-All ds new b
  Evolve-All new (both {c} {d} l e) h = (keep c d l h.0, Evolve-All new e h.1)

map-All :
    (n : ℕ) (f : Command → Command) (cs : List Command)
    → ((c : Command) → (f c).id ≡ c.id)
    → All (λ x. n < x.id) cs
    → All (λ x. n < x.id) (map f cs)
map-All n f [] same h = tt
map-All n f (c ∷ cs) same h = (omega (arith, same c, h.0), map-All n f cs same h.1)

pub map-Ascending :
    (f : Command → Command) (cs : List Command)
    → ((c : Command) → (f c).id ≡ c.id)
    → Ascending cs
    → Ascending (map f cs)
map-Ascending f [] same h = tt
map-Ascending f (c ∷ cs) same h =
    (rw (same c) (map-All c.id f cs same h.0), map-Ascending f cs same h.1)

pub append-Ascending :
    (c : Command) (cs : List Command)
    → All (λ x. x.id < c.id) cs
    → Ascending cs
    → Ascending (cs ++ (c ∷ []))
append-Ascending c [] below h = (tt, tt)
append-Ascending c (x ∷ cs) below h =
    (All-append (λ y. x.id < y.id) cs (c ∷ []) h.0 (below.0, tt), append-Ascending c cs below.1 h.1)

some_inj : {a b : Command} → some a ≡ some b → a ≡ b
some_inj q = cc

-- The command that a search finds is one of the list.
pub found-All :
    (P : Command → Type 0) (p : Command → Bool) (c : Command) (cs : List Command)
    → find_first p cs ≡ some c
    → All P cs
    → P c
found-All P p c [] e h = absurd (cc)
found-All P p c (x ∷ cs) e h = elim (Bool-cases (p x)) [
  | inl hit ↦ subst P (some_inj (sym (find_first-hit p x cs hit) ∙ e)) h.0
  | inr miss ↦ found-All P p c cs (sym (find_first-miss p x cs miss) ∙ e) h.1
]

module _ (f : Command → Command) (c : Command) (life : Life c (f c)) where
  if_Life : (b : Bool) (x : Command) → (b ≡ true → x ≡ c) → Life x (if b then f x else x)
  if_Life true x same = subst (λ y. Life y (f y)) (sym (same refl)) life
  if_Life false x same = still

  others-Life :
      (cs : List Command)
      → All (λ x. c.id < x.id) cs
      → All (λ x. Life x (if x.id == c.id then f x else x)) cs
  others-Life [] h = tt
  others-Life (x ∷ cs) h =
      (if_Life (x.id == c.id) x (λ e. absurd (ground arith)), others-Life cs h.1)

  -- An update of a command that a search has found, by its id.
  pub found-Life :
      (p : Command → Bool) (cs : List Command)
      → find_first p cs ≡ some c
      → Ascending cs
      → All (λ x. Life x (if x.id == c.id then f x else x)) cs
  found-Life p [] e asc = tt
  found-Life p (x ∷ cs) e asc = elim (Bool-cases (p x)) [
    | inl hit ↦
        let same : x ≡ c = some_inj (sym (find_first-hit p x cs hit) ∙ e) in
        (
          if_Life (x.id == c.id) x (λ q. same),
          others-Life cs (subst (λ y. All (λ z. y.id < z.id) cs) same asc.0),
        )
    | inr miss ↦
        let e' : find_first p cs ≡ some c = sym (find_first-miss p x cs miss) ∙ e in
        let lt : x.id < c.id = found-All (λ y. x.id < y.id) p c cs e' asc.0 in
        (if_Life (x.id == c.id) x (λ q. absurd (ground arith)), found-Life p cs e' asc.1)
  ]

-- What is found passes the test.
pub find_first-true :
    (p : Command → Bool) (c : Command) (cs : List Command) → find_first p cs ≡ some c → p c ≡ true
find_first-true p c [] e = absurd (cc)
find_first-true p c (x ∷ cs) e = elim (Bool-cases (p x)) [
  | inl hit ↦ subst (λ y. p y ≡ true) (some_inj (sym (find_first-hit p x cs hit) ∙ e)) hit
  | inr miss ↦ find_first-true p c cs (sym (find_first-miss p x cs miss) ∙ e)
]
