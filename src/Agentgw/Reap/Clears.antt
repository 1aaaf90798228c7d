-- ===== src/Agentgw/Reap/Clears.antt =====
-- How a reaping works off its list of expired commands (internal/logic/agentgw/reap.go).
use iflygo.Prelude.{
  ℕ, zero, suc, ◌<◌, ◌≤◌, ◌≡◌, refl, sym, ◌∙◌, subst, ap, Bool, false, not, Option, none, some,
  List, [], ◌∷◌, ◌==◌, ◌&&◌, if◌then◌else◌, find_first, find_first-hit, find_first-miss, All, arith,
  inl, inr, Bool-cases, any_of, keep_if, count_if, length, ==_iff,
}
use iflygo.Agentgw.Rows.{Command, TaskHost, GatewayDb, Env, set_where, update_task_hosts, in_hand}
use iflygo.Agentgw.Reap.{is_expired, first, time_out, in_hand_by_id, lock_host}
use iflygo.Agentgw.Lifecycle.Lists.{Ascending}

module _ (now : ℕ) where
  -- An expired command is one of those that are still to be given up.
  abbrev pub listed : List Command → Command → Bool
  listed cs x = any_of (λ c. c.id == x.id) cs

  abbrev pub IsClear : List Command → Command → Type 0
  IsClear cs x = ((is_expired now x && not (listed cs x)) ≡ false)

  pub first_all : {A : Type 0} (n : ℕ) (xs : List A) → length xs ≤ n → first n xs ≡ xs
  first_all zero [] h = refl
  first_all zero (x ∷ xs) h = absurd (omega arith)
  first_all (suc n) [] h = refl
  first_all (suc n) (x ∷ xs) h = ap (λ l. x ∷ l) (first_all n xs (omega arith))

  pub length-keep_if :
      (p : Command → Bool) (cs : List Command) → length (keep_if p cs) ≡ count_if p cs
  length-keep_if p [] = refl
  length-keep_if p (c ∷ cs) = ground (arith, length-keep_if p cs)

  more_listed : (cs : List Command) (c x : Command) → IsClear cs x → IsClear (c ∷ cs) x
  more_listed cs c x h = ground arith

  All-map :
      (P Q : Command → Type 0) (cs : List Command)
      → ((c : Command) → P c → Q c)
      → All P cs
      → All Q cs
  All-map P Q [] f h = tt
  All-map P Q (c ∷ cs) f h = (f c h.0, All-map P Q cs f h.1)

  -- At the beginning all expired commands are listed.
  pub All-listed : (cs : List Command) → All (IsClear (keep_if (is_expired now) cs)) cs
  All-listed [] = tt
  All-listed (c ∷ cs) = elim (Bool-cases (is_expired now c)) [
    | inl over ↦
        let some_more : keep_if (is_expired now) (c ∷ cs) ≡ c ∷ keep_if (is_expired now) cs =
          simp over refl in
        subst (λ l. All (IsClear l) (c ∷ cs)) (sym some_more)
          (
            ground arith,
            All-map (IsClear (keep_if (is_expired now) cs))
                (IsClear (c ∷ keep_if (is_expired now) cs)) cs
                (λ x h. more_listed (keep_if (is_expired now) cs) c x h) (All-listed cs),
          )
    | inr not_over ↦
        let no_more : keep_if (is_expired now) (c ∷ cs) ≡ keep_if (is_expired now) cs =
          simp not_over refl in
        subst (λ l. All (IsClear l) (c ∷ cs)) (sym no_more) (simp not_over refl, All-listed cs)
  ]

pub timed_out_id : (env : Env) (c : Command) → (time_out env c).id ≡ c.id
unfolding time_out
timed_out_id env c = refl

timed_out_over : (env : Env) (c : Command) → is_expired env.now (time_out env c) ≡ false
unfolding time_out
timed_out_over env c = refl

module _ (env : Env) (c : Command) where
  abbrev given_up : Command → Command
  given_up x = if in_hand_by_id c.id x then time_out env x else x

  -- The update of one command takes it off the list.
  given_up-IsClear :
      (cs : List Command) (x : Command)
      → IsClear env.now (c ∷ cs) x
      → IsClear env.now cs (given_up x)
  given_up-IsClear cs x h = elim (Bool-cases (x.id == c.id)) [
    | inl same ↦ elim (Bool-cases (in_hand x.status)) [
      | inl held ↦ simp (same, held, timed_out_over env x) refl
      | inr free ↦ simp (same, free) refl
    ]
    | inr other ↦
        let not_it : (c.id == x.id) ≡ false = ground arith in simp other (simp not_it at h)
  ]

  -- A command that is not expired, or is another one, was not on the list for this one.
  skip-IsClear :
      (cs : List Command) (x : Command)
      → (is_expired env.now x && (x.id == c.id)) ≡ false
      → IsClear env.now (c ∷ cs) x
      → IsClear env.now cs x
  skip-IsClear cs x h k = ground (arith, ==_iff c.id x.id, ==_iff x.id c.id)

  -- None has the id, or the one that has it is not expired.
  pub absent :
      (xs : List Command)
      → find_first (λ x. x.id == c.id) xs ≡ none
      → All (λ x. (is_expired env.now x && (x.id == c.id)) ≡ false) xs
  absent [] e = tt
  absent (x ∷ xs) e = elim (Bool-cases (x.id == c.id)) [
    | inl hit ↦ absurd (some_none (sym (find_first-hit (λ y. y.id == c.id) x xs hit) ∙ e))
    | inr miss ↦ (ground arith, absent xs (sym (find_first-miss (λ y. y.id == c.id) x xs miss) ∙ e))
  ]
    where
      some_none : {a : Command} → some a ≡ none → ⊥
      some_none q = cc

  others :
      (n : ℕ) (xs : List Command)
      → n ≡ c.id
      → All (λ x. n < x.id) xs
      → All (λ x. (is_expired env.now x && (x.id == c.id)) ≡ false) xs
  others n [] e h = tt
  others n (x ∷ xs) e h = (ground arith, others n xs e h.1)

  pub not_over :
      (xs : List Command) (c' : Command)
      → Ascending xs
      → find_first (λ x. x.id == c.id) xs ≡ some c'
      → is_expired env.now c' ≡ false
      → All (λ x. (is_expired env.now x && (x.id == c.id)) ≡ false) xs
  not_over [] c' asc e h = tt
  not_over (x ∷ xs) c' asc e h = elim (Bool-cases (x.id == c.id)) [
    | inl hit ↦
        let x_c : x ≡ c' = some_eq (sym (find_first-hit (λ y. y.id == c.id) x xs hit) ∙ e) in
        let idle : is_expired env.now x ≡ false = ap (is_expired env.now) x_c ∙ h in
        (ground arith, others x.id xs (ground arith) asc.0)
    | inr miss ↦ (
      ground arith,
      not_over xs c' asc.1 (sym (find_first-miss (λ y. y.id == c.id) x xs miss) ∙ e) h,
    )
  ]
    where
      some_eq : {a b : Command} → some a ≡ some b → a ≡ b
      some_eq q = cc

  pub IsClear-list :
      (cs xs : List Command)
      → All (λ x. (is_expired env.now x && (x.id == c.id)) ≡ false) xs
      → All (IsClear env.now (c ∷ cs)) xs
      → All (IsClear env.now cs) xs
  IsClear-list cs [] h k = tt
  IsClear-list cs (x ∷ xs) h k = (skip-IsClear cs x h.0 k.0, IsClear-list cs xs h.1 k.1)

  pub given_up_list :
      (cs xs : List Command)
      → All (IsClear env.now (c ∷ cs)) xs
      → All (IsClear env.now cs) (set_where (in_hand_by_id c.id) (time_out env) xs)
  given_up_list cs [] h = tt
  given_up_list cs (x ∷ xs) h = (given_up-IsClear cs x h.0, given_up_list cs xs h.1)

-- A host's row is there after an update as before it.
pub lock_host-update :
    (f : TaskHost → TaskHost) (p : TaskHost → Bool) (th : Option ℕ) (d : GatewayDb)
    → ((t : TaskHost) → (f t).id ≡ t.id)
    → lock_host th (update_task_hosts p f d) ≡ lock_host th d
lock_host-update f p none d same = refl
lock_host-update f p (some h) d same = any_same d.task_hosts
  where
    any_same :
        (ts : List TaskHost)
        → any_of (λ t. t.id == h) (set_where p f ts) ≡ any_of (λ t. t.id == h) ts
    any_same [] = refl
    any_same (t ∷ ts) = ground (arith, same t, any_same ts)
