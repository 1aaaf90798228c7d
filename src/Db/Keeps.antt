-- ===== src/Db/Keeps.antt =====
-- Invariants of the rows that an action keeps whatever statements fail.
use iflygo.Prelude.{Bool, true, false, List, if◌then◌else◌}
use iflygo.Db.{
  Error, Result, ok, err, World, Db, at, ◌>>=◌, or_default, exec, exec_if, query, pure, fail,
  statement, transaction, Outcome, commit, rollback,
}
use iflygo.Db.Atomic.{Post, Settled, bind-Post, statement-Post, query-Post, transaction-Post}

pub record Keeps {S A : Type 0} (I : S → Type 0) (m : Db S A) : Type 0 where
  pub keeps : (d : S) (faults : List Bool) → I d → Post (λ a d'. I d') I (m (at d faults))

module _ {S : Type 0} (I : S → Type 0) where
  -- What is kept by success and by failure alike.
  pub kept : {A : Type 0} (rw : Result A × World S) → Post (λ a d'. I d') I rw → I rw.1.db
  kept (ok a, w) h = h
  kept (err e, w) h = h

  pub weaken :
      {A : Type 0} (P : A → S → Type 0) (E : S → Type 0) (rw : Result A × World S)
      → Post P E rw
      → ((a : A) (d : S) → P a d → I d)
      → ((d : S) → E d → I d)
      → Post (λ a d. I d) I rw
  weaken P E (ok a, w) h p e = p a w.db h
  weaken P E (err x, w) h p e = e w.db h

  pub pure-Keeps : {A : Type 0} (a : A) → Keeps I (pure a)
  pure-Keeps a = record { keeps = λ d faults h. h }

  pub fail-Keeps : (e : Error) → Keeps I (fail {A = Unit {0}} e)
  fail-Keeps e = record { keeps = λ d faults h. h }

  pub query-Keeps : {A : Type 0} (f : S → A) → Keeps I (query f)
  query-Keeps f = record { keeps = λ d faults h. statement-Post _ _ _ d faults h h }

  pub exec-Keeps : (f : S → S) → ((d : S) → I d → I (f d)) → Keeps I (exec f)
  exec-Keeps f step = record { keeps = λ d faults h. statement-Post _ _ _ d faults (step d h) h }

  follow :
      {A B : Type 0} (f : A → Db S B)
      → ((a : A) → Keeps I (f a))
      → (rw : Result A × World S) → Post (λ a d. I d) I rw
      → Post (λ a d. (fs : List Bool) → Post (λ b d'. I d') I (f a (at d fs))) I rw
  follow f h (ok a, w) i = λ fs. (h a).keeps w.db fs i
  follow f h (err e, w) i = i

  pub bind-Keeps :
      {A B : Type 0} (m : Db S A) (f : A → Db S B)
      → Keeps I m
      → ((a : A) → Keeps I (f a))
      → Keeps I (m >>= f)
  bind-Keeps m f h h' = record {
    keeps = λ d faults i.
        bind-Post _ _ m f (at d faults) (follow f h' (m (at d faults)) (h.keeps d faults i));
  }

  swallow :
      {A : Type 0} (a : A) (rw : Result A × World S)
      → Post (λ x d. I d) I rw
      → Post (λ x d. I d) I (let (r, w) = rw in (elim r [ ok x ↦ ok x | err e ↦ ok a ], w))
  swallow a (ok x, w) i = i
  swallow a (err e, w) i = i

  pub default-Keeps : {A : Type 0} (a : A) (m : Db S A) → Keeps I m → Keeps I (or_default a m)
  unfolding or_default
  default-Keeps a m h = record {
    keeps = λ d faults i. swallow a (m (at d faults)) (h.keeps d faults i);
  }

  pub if-Keeps :
      {A : Type 0} (b : Bool) (m k : Db S A) → Keeps I m → Keeps I k → Keeps I (if b then m else k)
  if-Keeps true m k h h' = h
  if-Keeps false m k h h' = h'

  Settled-Keeps :
      {A : Type 0} (d : S) (rw : Result (Outcome A) × World S)
      → I d
      → Post (λ a d'. I d') I rw
      → Post (Settled (λ a d'. I d') I d) (λ x. Unit) rw
  Settled-Keeps d (ok (commit a), w) i h = h
  Settled-Keeps d (ok (rollback a), w) i h = i
  Settled-Keeps d (err e, w) i h = tt

  pub transaction-Keeps :
      {A : Type 0} (body : Db S (Outcome A)) → Keeps I body → Keeps I (transaction body)
  transaction-Keeps body h = record {
    keeps = λ d faults i.
        transaction-Post (λ a d'. I d') I body d faults i
          (λ fs. Settled-Keeps d (body (at d fs)) i (h.keeps d fs i));
  }

  pub statement-Keeps :
      {A : Type 0} (f : S → A × S) → ((d : S) → I d → I (f d).1) → Keeps I (statement f)
  statement-Keeps f step = record {
    keeps = λ d faults h. statement-Post _ _ _ d faults (step d h) h;
  }

  pub exec_if-Keeps : (b : Bool) (f : S → S) → ((d : S) → I d → I (f d)) → Keeps I (exec_if b f)
  exec_if-Keeps true f step = exec-Keeps f step
  exec_if-Keeps false f step = pure-Keeps tt

  -- An action that looks at the rows first: what it does may rest on what it has seen.
  pub seen-Keeps :
      {A B : Type 0} (f : S → A) (k : A → Db S B)
      → ((d : S) (faults : List Bool) → I d → Post (λ b d'. I d') I (k (f d) (at d faults)))
      → Keeps I (query f >>= k)
  seen-Keeps f k h = record {
    keeps = λ d faults i. query-Post (λ b d'. I d') I f k d faults i (λ fs. h d fs i);
  }
