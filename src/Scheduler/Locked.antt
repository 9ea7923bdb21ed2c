-- ===== src/Scheduler/Locked.antt =====
-- The tasks that cannot be disabled.
use mathlib.Core.Path.{subst}
use caslink.Prelude.{
  ℕ, Text, text_eq, text_eq_iff, Bool, true, false, not, List, [], ◌∷◌, ◌&&◌, ◌*◌, ◌+◌, ◌≡◌, refl,
  ap, sym, ◌∙◌, arith, Option, none, some, leb, map, All, Bool-cases, inl, inr, is_some,
}
use caslink.Cron.{Schedule, Zone, Parsed, parsed, invalid, panics}
use caslink.Scheduler.{
  Row, Task, second, is_non_skippable, Definition, forced, add_task, add_tasks, load_row,
  load_or_init, tick_task, tick, Outcome, ended, run_task, change_task, find_task, enable,
  set_task_enabled, run_found, run_now, Event, ticked, run_ended, set_enabled, asked_to_run, step,
  run,
}

-- A task that cannot be disabled is enabled.
abbrev pub IsLocked : Task → Type 0
IsLocked t = is_non_skippable t.id ≡ true → t.enabled ≡ true

forced_lem : (id : Text) (b : Bool) → is_non_skippable id ≡ true → forced id b ≡ true
forced_lem id b h = rw h refl

abbrev AreLocked : Parsed (List Task) → Type 0
AreLocked (parsed ts) = All IsLocked ts
AreLocked invalid = Unit
AreLocked panics = Unit

add_task-AreLocked :
    (d : Definition) (c : Parsed Schedule) (others : Parsed (List Task))
    → AreLocked others
    → AreLocked (add_task d c others)
add_task-AreLocked d (parsed cron) (parsed ts) h = (forced_lem d.id d.enabled, h)
add_task-AreLocked d (parsed cron) invalid h = tt
add_task-AreLocked d (parsed cron) panics h = tt
add_task-AreLocked d invalid others h = h
add_task-AreLocked d panics others h = tt

add_tasks-AreLocked :
    (parse : Text → Parsed Schedule) (ds : List Definition) → AreLocked (add_tasks parse ds)
unfolding add_tasks
add_tasks-AreLocked parse [] = tt
add_tasks-AreLocked parse (d ∷ ds) =
    add_task-AreLocked d (parse d.schedule) (add_tasks parse ds) (add_tasks-AreLocked parse ds)

load_row-IsLocked :
    (zone : Zone) (window now : ℕ) (w v : Bool) (row : Option Row) (t : Task)
    → IsLocked t
    → IsLocked (load_row zone window now w v row t)
load_row-IsLocked zone window now w v none t h = h
load_row-IsLocked zone window now w v (some r) t h =
    elim (Bool-cases (leb now (r.next_run * second))) [
      | inl early ↦ rw early (forced_lem t.id r.enabled)
      | inr due ↦ elim (Bool-cases (leb now (r.next_run * second + window))) [
        | inl missed ↦ rw (due, missed) (forced_lem t.id r.enabled)
        | inr late ↦ rw (due, late) (forced_lem t.id r.enabled)
      ]
    ]

change_task-IsLocked :
    (id : Text) (change : Task → Task) (ts : List Task)
    → ((t : Task) → text_eq t.id id ≡ true → IsLocked t → IsLocked (change t))
    → All IsLocked ts
    → All IsLocked (change_task id change ts)
unfolding change_task
change_task-IsLocked id change [] f h = tt
change_task-IsLocked id change (t ∷ ts) f h = elim (Bool-cases (text_eq t.id id)) [
  | inl same ↦ rw same (f t same h.0, h.1)
  | inr other ↦ rw other (h.0, change_task-IsLocked id change ts f h.1)
]

tick_task-IsLocked : (now : ℕ) (t : Task) → IsLocked t → IsLocked (tick_task now t)
unfolding tick_task
tick_task-IsLocked now t h = elim (Bool-cases (t.enabled && not t.running && leb t.next_run now)) [
  | inl ready ↦ rw ready h
  | inr waits ↦ rw waits h
]

tick-IsLocked : (now : ℕ) (ts : List Task) → All IsLocked ts → All IsLocked (tick now ts)
unfolding tick
tick-IsLocked now [] h = tt
tick-IsLocked now (t ∷ ts) h = (tick_task-IsLocked now t h.0, tick-IsLocked now ts h.1)

ended-IsLocked :
    (zone : Zone) (ok : Bool) (finished : ℕ) (t : Task)
    → IsLocked t
    → IsLocked (ended zone ok finished t)
ended-IsLocked zone true finished t h = h
ended-IsLocked zone false finished t h = h

run_task-IsLocked :
    (zone : Zone) (o : Outcome) (t : Task) → IsLocked t → IsLocked (run_task zone o t)
unfolding run_task
run_task-IsLocked zone o t h = elim (Bool-cases (t.is_global && not o.acquired)) [
  | inl refused ↦ rw refused h
  | inr ran ↦ rw ran (ended-IsLocked zone o.is_ok o.finished t h)
]

allowed_lem :
    (id own : Text) (b : Bool)
    → (not b && is_non_skippable id) ≡ false
    → text_eq own id ≡ true
    → is_non_skippable own ≡ true
    → b ≡ true
allowed_lem id own b allowed same k =
    let locked : is_non_skippable id ≡ true =
      ap is_non_skippable (sym ((text_eq_iff own id).0 same)) ∙ k in
    ground (arith, allowed, locked)

set_task_enabled-IsLocked :
    (id : Text) (b w : Bool) (ts : List Task)
    → All IsLocked ts
    → All IsLocked (set_task_enabled id b w ts).0
unfolding set_task_enabled
set_task_enabled-IsLocked id b w ts h = elim (Bool-cases (not b && is_non_skippable id)) [
  | inl refused ↦ rw refused h
  | inr allowed ↦ elim (Bool-cases (not (is_some (find_task id ts)))) [
    | inl missing ↦ rw (allowed, missing) h
    | inr found ↦
        rw (allowed, found)
          (change_task-IsLocked id (enable b w) ts
            (λ t same l k. allowed_lem id t.id b allowed same k) h)
  ]
]

run_found-IsLocked :
    (id : Text) (o : Option Task) (ts : List Task)
    → All IsLocked ts
    → All IsLocked (run_found id o ts).0
run_found-IsLocked id none ts h = h
run_found-IsLocked id (some t) ts h = elim (Bool-cases t.running) [
  | inl busy ↦ rw busy h
  | inr free ↦ rw free (change_task-IsLocked id _ ts (λ u same k. k) h)
]

step-IsLocked :
    (zone : Zone) (ts : List Task) (e : Event) → All IsLocked ts → All IsLocked (step zone ts e)
unfolding step run_now
step-IsLocked zone ts (ticked now) h = tick-IsLocked now ts h
step-IsLocked zone ts (run_ended id o) h =
    change_task-IsLocked id (run_task zone o) ts (λ t same k. run_task-IsLocked zone o t k) h
step-IsLocked zone ts (set_enabled id b w) h = set_task_enabled-IsLocked id b w ts h
step-IsLocked zone ts (asked_to_run id) h = run_found-IsLocked id (find_task id ts) ts h

run_on :
    (zone : Zone) (es : List Event) (ts : List Task)
    → All IsLocked ts
    → All IsLocked (run zone ts es)
unfolding run
run_on zone [] ts h = h
run_on zone (e ∷ es) ts h = run_on zone es (step zone ts e) (step-IsLocked zone ts e h)

load_or_init-IsLocked :
    (zone : Zone) (window now : ℕ) (w v : Bool) (ts : List Task)
    → All IsLocked ts
    → All IsLocked (map (load_or_init zone window now w v) ts)
unfolding load_or_init
load_or_init-IsLocked zone window now w v [] h = tt
load_or_init-IsLocked zone window now w v (t ∷ ts) h = (
  load_row-IsLocked zone window now w v t.row t h.0,
  load_or_init-IsLocked zone window now w v ts h.1,
)

-- Of the tasks that are registered, those that `nonSkippableTasks` lists are enabled at any time.
pub run-IsLocked :
    (zone : Zone) (parse : Text → Parsed Schedule) (ds : List Definition) (ts : List Task)
    (window now : ℕ) (w v : Bool) (es : List Event)
    → add_tasks parse ds ≡ parsed ts
    → All IsLocked (run zone (map (load_or_init zone window now w v) ts) es)
run-IsLocked zone parse ds ts window now w v es e =
    run_on zone es (map (load_or_init zone window now w v) ts) (
      load_or_init-IsLocked zone window now w v ts
        (subst AreLocked e (add_tasks-AreLocked parse ds)))
