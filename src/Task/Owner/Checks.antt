-- ===== src/Task/Owner/Checks.antt =====
-- The checks of a task's owner agree (internal/logic/task/task.go).
use iflygo.Prelude.{
  ◌≡◌, ◌≢◌, refl, ◌∙◌, String, Bool, true, false, Option, none, some, List, [], ◌∷◌, map, arith,
  ◌||◌, str_eq, eq_iff, Bool-cases, inl, inr,
}
use iflygo.Prelude.Dict.{Dict, empty, insert}
use iflygo.Access.{User, Scope, allows}
use iflygo.Task.Rows.{TaskRow, TaskDb}
use iflygo.Task.Db.{
  Error, not_owner, World, unless_error, Result, ok, err, at, ◌>>=◌, statement, or_default,
}
use iflygo.Task.Owner.{
  Service, OwnerMode, on, off, inherit, is_privileged, owner_mode_for, owner_checker, checker_step,
  checker_run, check_task_owner, cached, limits, looked_up, may_share, check_mode, may_act,
  shares_by, visible_task,
}

module _ (share : Option (String → String → Option Bool)) (username : String) where
  abbrev IsSound : Dict Bool → Type 0
  IsSound cache = (c : String) (b : Bool) → cache c ≡ some b → b ≡ shares_by share username c

  insert-IsSound :
      (c : String) (cache : Dict Bool)
      → IsSound cache
      → IsSound (insert c (shares_by share username c) cache)
  insert-IsSound c cache sound j b h = elim (Bool-cases (str_eq c j)) [
    | inl same ↦ ground (arith, eq_iff c j)
    | inr apart ↦ sound j b (ground arith)
  ]

cached_lem :
    (share : Option (String → String → Option Bool)) (username c : String) (cache : Dict Bool)
    (o : Option Bool)
    → IsSound share username cache
    → cache c ≡ o
    → let (answer, cache') = cached share username c o cache in
      (answer ≡ shares_by share username c) × IsSound share username cache'
cached_lem share username c cache (some b) sound h = (sound c b h, sound)
cached_lem none username c cache none sound h = (refl, sound)
cached_lem (some f) username c cache none sound h =
    (refl, insert-IsSound (some f) username c cache sound)

-- A call answers as the code without a cache would, and leaves a cache that is still right.
checker_step_lem :
    (s : Service) (username : String) (mode : OwnerMode) (c : String) (cache : Dict Bool)
    → IsSound s.share_allowed username cache
    → let (allowed, cache') = checker_step s username mode c cache in
      (allowed ≡ may_act s mode username c) × IsSound s.share_allowed username cache'
unfolding checker_step
checker_step_lem s username mode c cache sound =
    elim (Bool-cases (str_eq c "" || str_eq c username)) [
      | inl own ↦ rw own (refl, sound)
      | inr other ↦ rw other (by_mode mode)
    ]
  where
    by_mode :
        (m : OwnerMode)
        → let (allowed, cache') = looked_up s m username c cache in
          (allowed ≡ may_share s m username c) × IsSound s.share_allowed username cache'
    by_mode on = (refl, sound)
    by_mode off = cached_lem s.share_allowed username c cache (cache c) sound refl
    by_mode inherit = (refl, sound)

checker_run_lem :
    (s : Service) (username : String) (mode : OwnerMode) (creators : List String)
    (cache : Dict Bool)
    → IsSound s.share_allowed username cache
    → checker_run s username mode creators cache ≡ map (may_act s mode username) creators
unfolding checker_run
checker_run_lem s username mode [] cache sound = refl
checker_run_lem s username mode (c ∷ creators) cache sound =
    let (e, sound') = checker_step_lem s username mode c cache sound in
    rw (e, checker_run_lem s username mode creators (checker_step s username mode c cache).1 sound')
      refl

abbrev pub is_ok : Result (Unit {0}) → Bool
is_ok (ok u) = true
is_ok (err e) = false

-- `checkTaskOwner` lets the actor work on this task.
abbrev pub owner_allows : Service → Scope → Option User → TaskDb → TaskRow → Bool
owner_allows s sc actor d t =
    is_ok (check_task_owner s sc actor (at (record d { task = some t }) [])).0

abbrev pub AllVisible : Scope → List TaskRow → Type 0
AllVisible sc [] = Unit
AllVisible sc (t ∷ ts) = (allows sc t.tenant ≡ true) × AllVisible sc ts

module _ (f g : TaskRow → Bool) (sc : Scope) where
  agree :
      ((t : TaskRow) → allows sc t.tenant ≡ true → f t ≡ g t)
      → (ts : List TaskRow) → AllVisible sc ts
      → map f ts ≡ map g ts
  agree h [] visible = refl
  agree h (t ∷ ts) visible = rw (h t visible.0, agree h ts visible.1) refl

map-map :
    {A B C : Type 0} (f : A → B) (g : B → C) (xs : List A)
    → map g (map f xs) ≡ map (λ x. g (f x)) xs
map-map f g [] = refl
map-map f g (x ∷ xs) = rw (map-map f g xs) refl

is_ok-unless : (b : Bool) (e : Error) (w : World) → b ≡ is_ok (unless_error b e w).0
is_ok-unless true e w = refl
is_ok-unless false e w = refl

one_task :
    (s : Service) (sc : Scope) (mode : OwnerMode) (username : String) (d : TaskDb) (t : TaskRow)
    → allows sc t.tenant ≡ true
    → mode ≢ inherit
    → may_act s mode username t.created_by
      ≡ is_ok (check_mode s mode sc username (at (record d { task = some t }) [])).0
unfolding visible_task statement or_default ◌>>=◌
one_task s sc on username d t visible h =
    simp visible (is_ok-unless (may_act s on username t.created_by) not_owner _)
one_task s sc off username d t visible h =
    simp visible (is_ok-unless (may_act s off username t.created_by) not_owner _)
one_task s sc inherit username d t visible h = elim (h refl) [ ]

abbrev answers : Service → Option (String × OwnerMode) → List String → List Bool
answers s none creators = map (λ c. true) creators
answers s (some (username, mode)) creators = checker_run s username mode creators empty

-- The answers of the bulk check to creators, in order.
abbrev pub bulk_checks : Service → Option User → List String → List Bool
bulk_checks s actor = answers s (owner_checker s actor)

limited_agree :
    (s : Service) (sc : Scope) (username : String) (mode : OwnerMode) (d : TaskDb)
    (ts : List TaskRow)
    → AllVisible sc ts
    → answers s (limits username mode) (map (λ t. t.created_by) ts)
      ≡ map (λ t. is_ok (check_mode s mode sc username (at (record d { task = some t }) [])).0) ts
limited_agree s sc username on d ts visible =
    checker_run_lem s username on (map (λ t. t.created_by) ts) empty (λ c b h. cc)
    ∙ map-map (λ t. t.created_by) (may_act s on username) ts
    ∙ agree _ _ sc (λ t v. one_task s sc on username d t v (λ h. cc)) ts visible
limited_agree s sc username off d ts visible =
    checker_run_lem s username off (map (λ t. t.created_by) ts) empty (λ c b h. cc)
    ∙ map-map (λ t. t.created_by) (may_act s off username) ts
    ∙ agree _ _ sc (λ t v. one_task s sc off username d t v (λ h. cc)) ts visible
limited_agree s sc username inherit d ts visible = map-map (λ t. t.created_by) (λ c. true) ts

-- The bulk check of `ownerChecker`, with its cache of team answers, gives for any list of visible
-- tasks the answers that `checkTaskOwner` gives for each of them, whatever the policies answer.
pub bulk_checks-check_task_owner :
    (s : Service) (sc : Scope) (actor : Option User) (d : TaskDb) (ts : List TaskRow)
    → AllVisible sc ts
    → bulk_checks s actor (map (λ t. t.created_by) ts) ≡ map (owner_allows s sc actor d) ts
unfolding owner_checker check_task_owner
bulk_checks-check_task_owner s sc none d ts visible = map-map (λ t. t.created_by) (λ c. true) ts
bulk_checks-check_task_owner s sc (some u) d ts visible =
    elim (Bool-cases (is_privileged (some u))) [
      | inl all ↦
          rw all (map-map (λ t. t.created_by) (λ c. true) ts)
          ∙ agree (λ t. true) (owner_allows s sc (some u) d) sc (λ t v. rw all refl) ts visible
      | inr limited ↦
          rw limited (limited_agree s sc u.username (owner_mode_for s u.username) d ts visible)
          ∙ agree
              (λ t.
                is_ok
                  (check_mode s (owner_mode_for s u.username) sc u.username
                    (at (record d { task = some t }) [])).0)
              (owner_allows s sc (some u) d) sc (λ t v. rw limited refl) ts visible
    ]
