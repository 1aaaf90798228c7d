-- ===== src/Task/Retry/Hosts.antt =====
-- Which hosts `Retry` resets (internal/logic/task/retry.go), and in what state they are then.
use iflygo.Prelude.{
  ℕ, ◌≡◌, ◌≢◌, refl, ◌∙◌, ◌≤◌, Bool, false, Option, none, some, List, [], ◌∷◌, map, arith,
  if◌then◌else◌, Bool-cases, inl, inr, ◌⊎◌, All, ==_iff,
}
use iflygo.Task.Rows.{HostStatus, HostRow, CommandRow, TaskDb}
use iflygo.Task.Advance.Safety.{active_for}
use iflygo.Task.Api.{Request}
use iflygo.Task.Retry.{
  RetryRequest, SkipReason, judge, file_row, drop_command, reset_host, is_in, has_live,
  retry_refusal,
}
use iflygo.Task.Retry.Effect.{reset_all, to_reset, ids_of}

file_row-All :
    (P : HostRow → Type 0) (h : HostRow) (o : Option SkipReason) (rows : List HostRow)
    (skipped : List (ℕ × SkipReason))
    → (o ≡ none → P h)
    → All P rows
    → All P (file_row h o rows skipped).0
file_row-All P h none rows skipped f all = (f refl, all)
file_row-All P h (some reason) rows skipped f all = all

judge-refusal :
    (now : ℕ) (commands : List CommandRow) (req : RetryRequest) (hs : List HostRow)
    → All
        (λ h. retry_refusal req (has_live now commands h.id) h.status ≡ none)
        (judge now commands req hs).0
unfolding judge
judge-refusal now commands req [] = tt
judge-refusal now commands req (h ∷ hs) =
    file_row-All _ h (retry_refusal req (has_live now commands h.id) h.status) _ _ (λ e. e)
      (judge-refusal now commands req hs)

-- A status from which a host is reset without `force`.
abbrev pub IsSpent : Request → TaskDb → HostRow → Type 0
IsSpent r d h =
    (h.status ≢ HostStatus.success)
    × ((h.status ≢ HostStatus.running) ⊎ (has_live r.now d.commands h.id ≡ false))

spent_lem :
    (req : RetryRequest) (live : Bool) (s : HostStatus)
    → req.force ≡ false
    → retry_refusal req live s ≡ none
    → (s ≢ HostStatus.success) × ((s ≢ HostStatus.running) ⊎ (live ≡ false))
unfolding retry_refusal
spent_lem req live HostStatus.pending calm e = (λ h. cc, inl (λ h. cc))
spent_lem req live HostStatus.running calm e = (λ h. cc, inr (ground arith))
spent_lem req live HostStatus.success calm e = (λ h. ground arith, inl (λ h. cc))
spent_lem req live HostStatus.failed calm e = (λ h. cc, inl (λ h. cc))
spent_lem req live HostStatus.rolled_back calm e = (λ h. cc, inl (λ h. cc))
spent_lem req live HostStatus.timeout calm e = (λ h. cc, inl (λ h. cc))
spent_lem req live HostStatus.skipped calm e = (λ h. cc, inl (λ h. cc))
spent_lem req live HostStatus.canceled calm e = (λ h. cc, inl (λ h. cc))

All-map :
    {A : Type 0} (P Q : A → Type 0) → ((x : A) → P x → Q x) → (xs : List A) → All P xs → All Q xs
All-map P Q f [] h = tt
All-map P Q f (x ∷ xs) h = (f x h.0, All-map P Q f xs h.1)

All-every : {A : Type 0} (P : A → Type 0) → ((x : A) → P x) → (xs : List A) → All P xs
All-every P f [] = tt
All-every P f (x ∷ xs) = (f x, All-every P f xs)

All-every_map :
    {A B : Type 0} (P : B → Type 0) (g : A → B)
    → ((x : A) → P (g x))
    → (xs : List A) → All P (map g xs)
All-every_map P g f [] = tt
All-every_map P g f (x ∷ xs) = (f x, All-every_map P g f xs)

-- Without `force`, no host is reset that has succeeded, or that runs under a lease that is not over.
pub to_reset_spares :
    (host_exists : ℕ → Bool) (r : Request) (req : RetryRequest) (d : TaskDb)
    → req.force ≡ false
    → All (IsSpent r d) (to_reset host_exists r req d)
to_reset_spares host_exists r req d calm =
    All-map _ _ (λ h e. spent_lem req (has_live r.now d.commands h.id) h.status calm e) _
      (judge-refusal r.now d.commands req _)

active_for-drop :
    (now : ℕ) (ids : List ℕ) (id : ℕ) (commands : List CommandRow)
    → active_for id (map (drop_command now ids) commands)
      ≡ (if is_in id ids then 0 else active_for id commands)
active_for-drop now ids id [] = ground arith
active_for-drop now ids id (c ∷ commands) =
    ground (arith, active_for-drop now ids id commands, ==_iff c.task_host id)

reset_one :
    (now : ℕ) (ids : List ℕ) (commands : List CommandRow) (h : HostRow)
    → (is_in (reset_host now ids h).id ids ≡ false)
      ⊎ (((reset_host now ids h).status ≡ HostStatus.pending)
          × (active_for (reset_host now ids h).id (map (drop_command now ids) commands) ≡ 0))
reset_one now ids commands h = elim (Bool-cases (is_in h.id ids)) [
  | inl there ↦ inr (simp there (refl, active_for-drop now ids h.id commands ∙ rw there refl))
  | inr apart ↦ inl (simp apart refl)
]

-- After a retry, every host that was reset waits and has no active command, and no host has more
-- active commands than before.
pub reset_all_lem :
    (r : Request) (rows : List HostRow) (d : TaskDb)
    → All
        (λ h.
          (is_in h.id (ids_of rows) ≡ false)
          ⊎ ((h.status ≡ HostStatus.pending) × (active_for h.id (reset_all r rows d).commands ≡ 0)))
        (reset_all r rows d).hosts
      × ((id : ℕ) → active_for id (reset_all r rows d).commands ≤ active_for id d.commands)
reset_all_lem r [] d = (All-every _ (λ h. inl refl) d.hosts, λ id. omega arith)
reset_all_lem r (x ∷ rows) d = (
  All-every_map _ (reset_host r.now ids) (reset_one r.now ids d.commands) d.hosts,
  λ id. ground (arith, active_for-drop r.now ids id d.commands),
)
  where
    ids : List ℕ
    ids = ids_of (x ∷ rows)
