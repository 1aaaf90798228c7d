-- ===== src/Task/Reconcile.antt =====
-- What the reconciliation at the beginning of a tick may do to the rows of one task
-- (internal/logic/agentgw/reap.go, as internal/logic/task/orchestrator.go calls it): commands in hand
-- end, and hosts that wait get a result.
use iflygo.Prelude.{◌≡◌, refl, subst, ◌⊎◌, inl, inr, Bool, true, false, List, [], ◌∷◌, arith}
use iflygo.Task.Rows.{CommandStatus, HostStatus, CommandRow, HostRow, TaskDb, is_active}

-- `status IN ('dispatched','accepted','running')`
abbrev pub is_in_hand : CommandStatus → Bool
is_in_hand CommandStatus.dispatched = true
is_in_hand CommandStatus.accepted = true
is_in_hand CommandStatus.running = true
is_in_hand _ = false

-- `status IN ('pending','running')`
abbrev pub is_unsettled : HostStatus → Bool
is_unsettled HostStatus.pending = true
is_unsettled HostStatus.running = true
is_unsettled _ = false

-- A command stays, or was in hand and has ended.
abbrev pub MayEnd : CommandRow → CommandRow → Type 0
MayEnd c c' =
    (c' ≡ c)
    ⊎ ((is_in_hand c.status ≡ true) × (is_active c'.status ≡ false) × (c'.task_host ≡ c.task_host))

abbrev pub MaySettle : HostRow → HostRow → Type 0
MaySettle h h' =
    (h' ≡ h)
    ⊎ ((is_unsettled h.status ≡ true)
        × (is_unsettled h'.status ≡ false)
        × (h'.id ≡ h.id)
        × (h'.batch ≡ h.batch))

-- Two lists are related row by row.
abbrev pub Pairwise : {A : Type 0} → (A → A → Type 0) → List A → List A → Type 0
Pairwise R [] [] = Unit
Pairwise R [] (y ∷ ys) = ⊥
Pairwise R (x ∷ xs) [] = ⊥
Pairwise R (x ∷ xs) (y ∷ ys) = R x y × Pairwise R xs ys

pub Pairwise-refl :
    {A : Type 0} (R : A → A → Type 0) → ((x : A) → R x x) → (xs : List A) → Pairwise R xs xs
Pairwise-refl R r [] = tt
Pairwise-refl R r (x ∷ xs) = (r x, Pairwise-refl R r xs)

pub Pairwise-trans :
    {A : Type 0} (R : A → A → Type 0)
    → ((x y z : A) → R x y → R y z → R x z)
    → (xs ys zs : List A) → Pairwise R xs ys
    → Pairwise R ys zs
    → Pairwise R xs zs
Pairwise-trans R t [] [] [] h k = tt
Pairwise-trans R t [] [] (z ∷ zs) h k = absurd k
Pairwise-trans R t [] (y ∷ ys) zs h k = absurd h
Pairwise-trans R t (x ∷ xs) [] zs h k = absurd h
Pairwise-trans R t (x ∷ xs) (y ∷ ys) [] h k = absurd k
Pairwise-trans R t (x ∷ xs) (y ∷ ys) (z ∷ zs) h k =
    (t x y z h.0 k.0, Pairwise-trans R t xs ys zs h.1 k.1)

pub MayEnd-refl : (c : CommandRow) → MayEnd c c
MayEnd-refl c = inl refl

not_in_hand : (st : CommandStatus) → is_active st ≡ false → is_in_hand st ≡ false
not_in_hand st h = ground arith

pub MayEnd-trans : (a b c : CommandRow) → MayEnd a b → MayEnd b c → MayEnd a c
MayEnd-trans a b c (inl same) k = subst (λ x. MayEnd x c) same k
MayEnd-trans a b c (inr (hand, ended, host)) (inl same) = inr (hand, cc, cc)
MayEnd-trans a b c (inr (hand, ended, host)) (inr (hand', ended', host')) =
    let idle = not_in_hand b.status ended in absurd (cc)

abbrev pub Reconciled : TaskDb → TaskDb → Type 0
Reconciled d d' =
    (d'.task ≡ d.task)
    × (d'.batches ≡ d.batches)
    × Pairwise MayEnd d.commands d'.commands
    × Pairwise MaySettle d.hosts d'.hosts
