-- ===== src/Db/Sure.antt =====
-- Actions that succeed where no statement fails.
use iflygo.Prelude.{◌≡◌, refl, Bool, true, false, [], if◌then◌else◌}
use iflygo.Db.{
  ok, Db, at, Outcome, commit, rollback, pure, exec, exec_if, query, statement, transaction, ◌>>=◌,
}

-- With no failing statement the action gives a result, and none fails later.
pub record Sure {S A : Type 0} (m : Db S A) : Type 0 where
  pub succeeds : (d : S) → (a : A) × (d' : S) × (m (at d []) ≡ (ok a, at d' []))

module _ {S : Type 0} where
  pub pure-Sure : {A : Type 0} (a : A) → Sure (pure {S = S} a)
  pure-Sure a = record { succeeds = λ d. (a, d, refl) }

  pub statement-Sure : {A : Type 0} (f : S → A × S) → Sure (statement f)
  unfolding statement
  statement-Sure f = record { succeeds = λ d. ((f d).0, (f d).1, refl) }

  pub exec-Sure : (f : S → S) → Sure (exec f)
  exec-Sure f = statement-Sure (λ d. (tt, f d))

  pub query-Sure : {A : Type 0} (f : S → A) → Sure (query f)
  query-Sure f = statement-Sure (λ d. (f d, d))

  pub exec_if-Sure : (b : Bool) (f : S → S) → Sure (exec_if b f)
  exec_if-Sure true f = exec-Sure f
  exec_if-Sure false f = pure-Sure tt

  pub if-Sure : {A : Type 0} (b : Bool) (m k : Db S A) → Sure m → Sure k → Sure (if b then m else k)
  if-Sure true m k h h' = h
  if-Sure false m k h h' = h'

  pub bind-Sure :
      {A B : Type 0} (m : Db S A) (f : A → Db S B)
      → Sure m
      → ((a : A) → Sure (f a))
      → Sure (m >>= f)
  unfolding ◌>>=◌
  bind-Sure m f h h' = record {
    succeeds = λ d.
        let (a, d', e) = h.succeeds d in let (b, d2, e') = (h' a).succeeds d' in (b, d2, rw e e');
  }

  settled :
      {A : Type 0} (body : Db S (Outcome A)) (d d' : S) (o : Outcome A)
      → body (at d []) ≡ (ok o, at d' [])
      → (a : A) × (d2 : S) × (transaction body (at d []) ≡ (ok a, at d2 []))
  unfolding transaction statement ◌>>=◌
  settled body d d' (commit a) e = (a, d', rw e refl)
  settled body d d' (rollback a) e = (a, d, rw e refl)

  pub transaction-Sure :
      {A : Type 0} (body : Db S (Outcome A)) → Sure body → Sure (transaction body)
  transaction-Sure body h = record {
    succeeds = λ d. let (o, d', e) = h.succeeds d in settled body d d' o e;
  }
