-- ===== src/Scheduler/Critical.antt =====
-- The critical tasks stay registered and enabled.
use caslink.Prelude.{
  ℕ, Text, text_eq, text_eq_refl, Bool, true, false, not, ◌&&◌, ◌||◌, List, [], ◌∷◌, ◌++◌, ◌≡◌,
  refl, ap, sym, ◌∙◌, Option, none, some, leb, map, any, All, Bool-cases, inl, inr, is_some,
  text_eq_iff, ◌*◌, ◌+◌,
}
use mathlib.Core.Path.{subst}
use caslink.Cron.{Schedule, Zone, Parsed, parsed, invalid, panics}
use caslink.Scheduler.{
  Row, Task, second, is_non_skippable, Definition, add_task, add_tasks, load_row, load_or_init,
  tick_task, tick, Outcome, ended, run_task, change_task, find_task, enable, set_task_enabled,
  run_found, run_now, Event, ticked, run_ended, set_enabled, asked_to_run, step, run,
}
use caslink.Scheduler.Locked.{IsLocked, run-IsLocked}

abbrev ids : List Task → List Text
ids ts = map (λ (t : Task). t.id) ts

-- A list of ids holds one.
abbrev is_listed : Text → List Text → Bool
is_listed id names = any (λ n. text_eq n id) names

abbrev AreListed : Text → Parsed (List Task) → Type 0
AreListed id (parsed ts) = is_listed id (ids ts) ≡ true
AreListed id invalid = Unit
AreListed id panics = Unit

any_later : (a b : Bool) → b ≡ true → (a || b) ≡ true
any_later true b h = refl
any_later false b h = h

add_task-AreListed :
    (id : Text) (d : Definition) (c : Parsed Schedule) (others : Parsed (List Task))
    → AreListed id others
    → AreListed id (add_task d c others)
add_task-AreListed id d (parsed cron) (parsed ts) h = any_later (text_eq d.id id) _ h
add_task-AreListed id d (parsed cron) invalid h = tt
add_task-AreListed id d (parsed cron) panics h = tt
add_task-AreListed id d invalid others h = h
add_task-AreListed id d panics others h = tt

added :
    (d : Definition) (cron : Schedule) (others : Parsed (List Task))
    → AreListed d.id (add_task d (parsed cron) others)
added d cron (parsed ts) = rw (text_eq_refl d.id) refl
added d cron invalid = tt
added d cron panics = tt

add_tasks-AreListed :
    (parse : Text → Parsed Schedule) (before after : List Definition) (d : Definition)
    (cron : Schedule)
    → parse d.schedule ≡ parsed cron
    → AreListed d.id (add_tasks parse (before ++ d ∷ after))
unfolding add_tasks
add_tasks-AreListed parse [] after d cron e = rw e (added d cron (add_tasks parse after))
add_tasks-AreListed parse (b ∷ before) after d cron e =
    add_task-AreListed d.id b (parse b.schedule) (add_tasks parse (before ++ d ∷ after))
      (add_tasks-AreListed parse before after d cron e)

load_row-id :
    (zone : Zone) (window now : ℕ) (w v : Bool) (row : Option Row) (t : Task)
    → (load_row zone window now w v row t).id ≡ t.id
load_row-id zone window now w v none t = refl
load_row-id zone window now w v (some r) t = elim (Bool-cases (leb now (r.next_run * second))) [
  | inl early ↦ rw early refl
  | inr due ↦ elim (Bool-cases (leb now (r.next_run * second + window))) [
    | inl missed ↦ rw (due, missed) refl
    | inr late ↦ rw (due, late) refl
  ]
]

ids-load_or_init :
    (zone : Zone) (window now : ℕ) (w v : Bool) (ts : List Task)
    → ids (map (load_or_init zone window now w v) ts) ≡ ids ts
unfolding load_or_init
ids-load_or_init zone window now w v [] = refl
ids-load_or_init zone window now w v (t ∷ ts) =
    rw (load_row-id zone window now w v t.row t, ids-load_or_init zone window now w v ts) refl

ids-change_task :
    (id : Text) (change : Task → Task) (ts : List Task)
    → ((t : Task) → (change t).id ≡ t.id)
    → ids (change_task id change ts) ≡ ids ts
unfolding change_task
ids-change_task id change [] h = refl
ids-change_task id change (t ∷ ts) h = elim (Bool-cases (text_eq t.id id)) [
  | inl same ↦ rw (same, h t) refl
  | inr other ↦ rw (other, ids-change_task id change ts h) refl
]

tick_task-id : (now : ℕ) (t : Task) → (tick_task now t).id ≡ t.id
unfolding tick_task
tick_task-id now t = elim (Bool-cases (t.enabled && not t.running && leb t.next_run now)) [
  | inl ready ↦ rw ready refl
  | inr waits ↦ rw waits refl
]

ids-tick : (now : ℕ) (ts : List Task) → ids (tick now ts) ≡ ids ts
unfolding tick
ids-tick now [] = refl
ids-tick now (t ∷ ts) = rw (tick_task-id now t, ids-tick now ts) refl

ended-id :
    (zone : Zone) (ok : Bool) (finished : ℕ) (t : Task) → (ended zone ok finished t).id ≡ t.id
ended-id zone true finished t = refl
ended-id zone false finished t = refl

run_task-id : (zone : Zone) (o : Outcome) (t : Task) → (run_task zone o t).id ≡ t.id
unfolding run_task
run_task-id zone o t = elim (Bool-cases (t.is_global && not o.acquired)) [
  | inl refused ↦ rw refused refl
  | inr ran ↦ rw ran (ended-id zone o.is_ok o.finished t)
]

ids-set_task_enabled :
    (id : Text) (b w : Bool) (ts : List Task) → ids (set_task_enabled id b w ts).0 ≡ ids ts
unfolding set_task_enabled
ids-set_task_enabled id b w ts = elim (Bool-cases (not b && is_non_skippable id)) [
  | inl refused ↦ rw refused refl
  | inr allowed ↦ elim (Bool-cases (not (is_some (find_task id ts)))) [
    | inl missing ↦ rw (allowed, missing) refl
    | inr found ↦ rw (allowed, found) (ids-change_task id (enable b w) ts (λ t. refl))
  ]
]

ids-run_found : (id : Text) (o : Option Task) (ts : List Task) → ids (run_found id o ts).0 ≡ ids ts
ids-run_found id none ts = refl
ids-run_found id (some t) ts = elim (Bool-cases t.running) [
  | inl busy ↦ rw busy refl
  | inr free ↦ rw free (ids-change_task id _ ts (λ u. refl))
]

ids-step : (zone : Zone) (ts : List Task) (e : Event) → ids (step zone ts e) ≡ ids ts
unfolding step run_now
ids-step zone ts (ticked now) = ids-tick now ts
ids-step zone ts (run_ended id o) = ids-change_task id (run_task zone o) ts (run_task-id zone o)
ids-step zone ts (set_enabled id b w) = ids-set_task_enabled id b w ts
ids-step zone ts (asked_to_run id) = ids-run_found id (find_task id ts) ts

ids-run : (zone : Zone) (es : List Event) (ts : List Task) → ids (run zone ts es) ≡ ids ts
unfolding run
ids-run zone [] ts = refl
ids-run zone (e ∷ es) ts = ids-run zone es (step zone ts e) ∙ ids-step zone ts e

find_listed :
    (id : Text) (ts : List Task)
    → is_listed id (ids ts) ≡ true
    → is_non_skippable id ≡ true
    → All IsLocked ts
    → (t : Task) × (find_task id ts ≡ some t) × (t.enabled ≡ true)
unfolding find_task
find_listed id [] listed critical h = cc
find_listed id (t ∷ ts) listed critical h = elim (Bool-cases (text_eq t.id id)) [
  | inl same ↦
      (t, rw same refl, h.0 (ap is_non_skippable ((text_eq_iff t.id id).0 same) ∙ critical))
  | inr other ↦
      let later =
        find_listed id ts (sym (ap (λ (b : Bool). b || is_listed id (ids ts)) other) ∙ listed)
          critical h.1 in
      (later.0, rw other later.1, later.2)
]

-- A task that `nonSkippableTasks` lists and whose schedule is valid is registered and enabled at any
-- time after a start whose registration does not panic, whatever the configuration and the rows say of
-- it, whatever the admin panel asks for, and however ticks and ends of runs fall in between.
pub find_task-run :
    (zone : Zone) (parse : Text → Parsed Schedule) (before after : List Definition) (d : Definition)
    (cron : Schedule) (ts : List Task) (window now : ℕ) (w v : Bool) (es : List Event)
    → is_non_skippable d.id ≡ true
    → parse d.schedule ≡ parsed cron
    → add_tasks parse (before ++ d ∷ after) ≡ parsed ts
    → (t : Task) × (find_task d.id (run zone (map (load_or_init zone window now w v) ts) es)
        ≡ some t)
      × (t.enabled ≡ true)
find_task-run zone parse before after d cron ts window now w v es critical valid e =
    let started = map (load_or_init zone window now w v) ts in
    let listed : is_listed d.id (ids ts) ≡ true =
      subst (AreListed d.id) e (add_tasks-AreListed parse before after d cron valid) in
    let kept : ids (run zone started es) ≡ ids ts =
      ids-run zone es started ∙ ids-load_or_init zone window now w v ts in
    find_listed d.id (run zone started es) (ap (is_listed d.id) kept ∙ listed) critical
      (run-IsLocked zone parse (before ++ d ∷ after) ts window now w v es e)
