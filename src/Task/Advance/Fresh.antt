-- ===== src/Task/Advance/Fresh.antt =====
-- The commands that a batch's dispatch makes are for its hosts (internal/logic/task/orchestrator.go).
use iflygo.Prelude.{
  ℕ, ◌≡◌, sym, ap, ◌∙◌, Bool, true, Option, none, some, List, [], ◌∷◌, ◌++◌, String, ◌==◌, ◌&&◌,
  any_of, keep_if, All, All-append, arith, Bool-cases, inl, inr, ltb,
}
use mathlib.Core.List.{append_assoc, append-nil}
use iflygo.Task.Rows.{Kind, HostRow, CommandRow, TaskDb, host_is_pending}
use iflygo.Task.Db.{Error, at}
use iflygo.Db.Atomic.{Post, query-Post}
use iflygo.Db.Keeps.{pure-Keeps, exec-Keeps, query-Keeps, bind-Keeps, if-Keeps}
use iflygo.Task.Orchestrator.{mark_batch}
use iflygo.Task.Orchestrator.Dispatch.{
  Env, is_waiting_in, dispatch_checked, dispatch_batch, check_spec, new_command, has_active_command,
}
use iflygo.Task.Orchestrator.Host.{dispatched, is_ready}
use iflygo.Task.Advance.Keeps.{dispatch_rows-Keeps}

-- A host with this id waits in the batch.
abbrev pub waits_there : ℕ → ℕ → List HostRow → Bool
waits_there index id = any_of (λ h. h.id == id && (h.batch == index && host_is_pending h.status))

-- The commands are those of before and new ones, each for a host that waited in the batch.
abbrev pub OnlyFor : ℕ → TaskDb → TaskDb → Type 0
OnlyFor index d d' =
    (new : List CommandRow) × (d'.commands ≡ d.commands ++ new)
    × All (λ c. waits_there index c.task_host d.hosts ≡ true) new

waiting-All :
    (index : ℕ) (all hs : List HostRow)
    → ((id : ℕ) → waits_there index id hs ≡ true → waits_there index id all ≡ true)
    → All (λ h. waits_there index h.id all ≡ true) (keep_if (is_waiting_in index) hs)
waiting-All index all [] within = tt
waiting-All index all (h ∷ hs) within =
    let ih = waiting-All index all hs (λ id t. within id (ground arith)) in
    elim (Bool-cases (h.batch == index && host_is_pending h.status)) [
      | inl waits ↦ simp waits (within h.id (ground arith), ih)
      | inr not_there ↦ simp not_there ih
    ]

module _ (index : ℕ) (d : TaskDb) where
  pub OnlyFor-refl : OnlyFor index d d
  OnlyFor-refl = ([], sym (append-nil d.commands), tt)

  dispatched-OnlyFor :
      (now id : ℕ) (agent : String) (kind : Kind) (d' : TaskDb)
      → waits_there index id d.hosts ≡ true
      → OnlyFor index d d'
      → OnlyFor index d (dispatched now id agent kind d').1
  dispatched-OnlyFor now id agent kind d' waits (new, e, all) = elim (Bool-cases (is_ready id d')) [
    | inr idle ↦ simp idle (new, e, all)
    | inl ready ↦ elim (Bool-cases (has_active_command id d'.commands)) [
      | inl old ↦ simp (ready, old) (new, e, all)
      | inr none_yet ↦
          simp (ready, none_yet)
            (
              new ++ (new_command now id agent kind ∷ []),
              ap (λ l. l ++ (new_command now id agent kind ∷ [])) e
                  ∙ append_assoc d.commands new (new_command now id agent kind ∷ []),
              All-append (λ c. waits_there index c.task_host d.hosts ≡ true) new
                  (new_command now id agent kind ∷ []) all (waits, tt),
            )
    ]
  ]

  checked-OnlyFor :
      (env : Env) (kind : Kind) (e : Option Error) (fs : List Bool)
      → Post
          (λ u d'. OnlyFor index d d')
          (OnlyFor index d)
          (dispatch_checked env kind index e (at d fs))
  unfolding mark_batch
  checked-OnlyFor env kind (some e) fs = OnlyFor-refl
  checked-OnlyFor env kind none fs = query-Post _ (OnlyFor index d) _ _ d fs OnlyFor-refl (λ fs'.
      (bind-Keeps (OnlyFor index d) _ _
          (dispatch_rows-Keeps (OnlyFor index d) (λ id. waits_there index id d.hosts ≡ true)
            (λ now id lines d' i. i) dispatched-OnlyFor env kind
            (keep_if (is_waiting_in index) d.hosts) (waiting-All index d.hosts d.hosts (λ id t. t)))
          (λ u. bind-Keeps (OnlyFor index d) _ _ (query-Keeps (OnlyFor index d) _) (λ left.
            if-Keeps (OnlyFor index d) (ltb 0 left) _ _ (pure-Keeps (OnlyFor index d) tt)
              (exec-Keeps (OnlyFor index d) _ (λ d' i. i))))).keeps
        d fs' OnlyFor-refl)

  pub dispatch_batch-OnlyFor :
      (env : Env) (kind : Kind) (fs : List Bool)
      → Post
          (λ u d'. OnlyFor index d d')
          (OnlyFor index d)
          (dispatch_batch env kind index (at d fs))
  unfolding dispatch_batch
  dispatch_batch-OnlyFor env kind fs = checked-OnlyFor env kind (check_spec env kind) fs
