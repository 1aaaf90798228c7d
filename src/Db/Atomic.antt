-- ===== src/Db/Atomic.antt =====
-- What holds after an action, whatever statements fail: a rule for each way to build an action.
use iflygo.Prelude.{◌≡◌, refl, Bool, true, false, not, List, [], ◌∷◌, if◌then◌else◌}
use iflygo.Db.{
  Result, ok, err, World, Db, at, Outcome, commit, rollback, settle, transaction, statement,
  bind_result, ◌>>=◌, ◌>>◌, or_default, exec, exec_if, query,
}

module _ {S A : Type 0} (P : A → S → Type 0) (E : S → Type 0) where
  -- `P` of the result and the rows after a success, `E` of the rows after an error.
  abbrev pub PostOf : Result A → S → Type 0
  PostOf (ok a) d = P a d
  PostOf (err e) d = E d

  abbrev pub Post : Result A × World S → Type 0
  Post (r, w) = PostOf r w.db

  pub statement-Post :
      (f : S → A × S) (d : S) (faults : List Bool)
      → P (f d).0 (f d).1
      → E d
      → Post (statement f (at d faults))
  unfolding statement
  statement-Post f d [] p e = p
  statement-Post f d (true ∷ faults) p e = e
  statement-Post f d (false ∷ faults) p e = p

  pub if-Post :
      (b : Bool) (m k : Db S A) (w : World S)
      → (b ≡ true → Post (m w))
      → (b ≡ false → Post (k w))
      → Post ((if b then m else k) w)
  if-Post true m k w h h' = h refl
  if-Post false m k w h h' = h' refl

  pub if_not-Post :
      (b : Bool) (m k : Db S A) (w : World S)
      → (b ≡ false → Post (m w))
      → (b ≡ true → Post (k w))
      → Post ((if not b then m else k) w)
  if_not-Post true m k w h h' = h' refl
  if_not-Post false m k w h h' = h refl

  -- What a transaction's body must ensure: of the rows that are written, or of those before it.
  abbrev pub Settled : S → Outcome A → S → Type 0
  Settled d (commit a) d' = P a d'
  Settled d (rollback a) d' = P a d

  abbrev pub PostOfOutcome : S → Result (Outcome A) → S → Type 0
  PostOfOutcome d (ok o) d' = Settled d o d'
  PostOfOutcome d (err e) d' = Unit

  settle-Post :
      (d : S) (r : Result (Outcome A)) (w : World S)
      → E d
      → PostOfOutcome d r w.db
      → Post (settle d r w)
  settle-Post d (err x) w e h = e
  settle-Post d (ok (rollback a)) w e h = h
  settle-Post d (ok (commit a)) w e h = settle_commit w.faults
    where
      settle_commit : (fs : List Bool) → Post (settle d (ok (commit a)) (at w.db fs))
      settle_commit [] = h
      settle_commit (true ∷ fs) = e
      settle_commit (false ∷ fs) = h

module _ {S A B : Type 0} (P : B → S → Type 0) (E : S → Type 0) where
  bind_result-Post :
      (f : A → Db S B) (r : Result A) (w : World S)
      → PostOf (λ a d. (faults : List Bool) → Post P E (f a (at d faults))) E r w.db
      → Post P E (bind_result r f w)
  bind_result-Post f (ok a) w h = h w.faults
  bind_result-Post f (err e) w h = h

  pub bind-Post :
      (m : Db S A) (f : A → Db S B) (w : World S)
      → Post (λ a d. (faults : List Bool) → Post P E (f a (at d faults))) E (m w)
      → Post P E ((m >>= f) w)
  unfolding ◌>>=◌
  bind-Post m f w h = bind_result-Post f (m w).0 (m w).1 h

-- A statement and what follows it.
module _ {S B : Type 0} (P : B → S → Type 0) (E : S → Type 0) where
  pub exec-Post :
      (f : S → S) (k : Db S B) (d : S) (faults : List Bool)
      → E d
      → ((fs : List Bool) → Post P E (k (at (f d) fs)))
      → Post P E ((exec f >> k) (at d faults))
  exec-Post f k d faults e h = bind-Post P E _ _ _ (statement-Post _ _ _ d faults h e)

  pub exec_if-Post :
      (b : Bool) (f : S → S) (k : Db S B) (d : S) (faults : List Bool)
      → E d
      → ((fs : List Bool) → Post P E (k (at (if b then f d else d) fs)))
      → Post P E ((exec_if b f >> k) (at d faults))
  exec_if-Post true f k d faults e h = exec-Post f k d faults e h
  exec_if-Post false f k d faults e h = bind-Post P E _ _ _ h

  pub query-Post :
      {A : Type 0} (f : S → A) (k : A → Db S B) (d : S) (faults : List Bool)
      → E d
      → ((fs : List Bool) → Post P E (k (f d) (at d fs)))
      → Post P E ((query f >>= k) (at d faults))
  query-Post f k d faults e h = bind-Post P E _ _ _ (statement-Post _ _ _ d faults h e)

  -- A query whose error is ignored.
  pub default-Post :
      {A : Type 0} (a : A) (f : S → A) (k : A → Db S B) (d : S) (faults : List Bool)
      → ((fs : List Bool) → Post P E (k (f d) (at d fs)))
      → ((fs : List Bool) → Post P E (k a (at d fs)))
      → Post P E ((or_default a (query f) >>= k) (at d faults))
  unfolding ◌>>=◌ statement or_default
  default-Post a f k d [] h h' = h []
  default-Post a f k d (true ∷ fs) h h' = h' fs
  default-Post a f k d (false ∷ fs) h h' = h fs

module _ {S A : Type 0} (P : A → S → Type 0) (E : S → Type 0) where
  outcome-Post :
      (d : S) (rw : Result (Outcome A) × World S)
      → Post (Settled P E d) (λ x. Unit) rw
      → PostOfOutcome P E d rw.0 rw.1.db
  outcome-Post d (ok o, w) h = h
  outcome-Post d (err x, w) h = h

  -- A transaction whose body does as it should, with no care for its failures, does so, or fails
  -- and leaves the rows as they were.
  pub transaction-Post :
      (body : Db S (Outcome A)) (d : S) (faults : List Bool)
      → E d
      → ((fs : List Bool) → Post (Settled P E d) (λ x. Unit) (body (at d fs)))
      → Post P E (transaction body (at d faults))
  unfolding transaction statement ◌>>=◌
  transaction-Post body d [] e h = settle-Post P E d _ _ e (outcome-Post d (body (at d [])) (h []))
  transaction-Post body d (true ∷ faults) e h = e
  transaction-Post body d (false ∷ faults) e h =
      settle-Post P E d _ _ e (outcome-Post d (body (at d faults)) (h faults))
