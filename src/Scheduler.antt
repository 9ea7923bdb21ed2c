-- ===== src/Scheduler.antt =====
-- The tasks of src/scheduler/scheduler.go and admin.go: registration, the state at start, ticks, runs
-- with their retries, and what the admin panel does. Times are nanoseconds since the zero time. A task
-- carries its row of `scheduler_tasks`; whether a write of it succeeds is an argument, and so are the
-- lock of a cluster and the outcome of a run. A row is read without errors. Names, counters, history,
-- metrics and logs are left out.
pub mod Locked
pub mod Critical
pub mod Retries
pub mod CatchUp
use caslink.Prelude.{
  ℕ, zero, suc, ◌+◌, ◌-◌, ◌*◌, ◌/◌, ◌%◌, ◌^◌, Text, codes, text_eq, Bool, true, false, not, List,
  [], ◌∷◌, ◌&&◌, Option, none, some, if◌then◌else◌, ltb, leb, any, map, is_some, is_nil,
}
use caslink.Cron.{Schedule, Zone, Parsed, parsed, invalid, panics, ◌>>=◌, next}

-- `next_run`, in seconds, and `enabled`.
pub record Row : Type 0 where
  pub next_run : ℕ
  pub enabled : Bool

pub record Task : Type 0 where
  pub id : Text
  pub is_global : Bool
  pub cron : Schedule
  pub enabled : Bool
  pub max_retries : ℕ
  pub retry_delay : ℕ
  pub running : Bool
  pub next_run : ℕ
  pub attempt : ℕ
  pub row : Option Row

-- `nonSkippableTasks`
abbrev pub non_skippable_tasks : List Text
non_skippable_tasks =
    codes "session_cleanup"
    ∷ codes "token_cleanup"
    ∷ codes "log_rotation"
    ∷ codes "ssl_renewal"
    ∷ codes "healthcheck_self"
    ∷ codes "tor_health"
    ∷ codes "cluster_heartbeat"
    ∷ []

unfoldable pub is_non_skippable : Text → Bool
is_non_skippable id = any (text_eq id) non_skippable_tasks

-- A task as `addTasks` lists it, with its row if there is one.
pub record Definition : Type 0 where
  pub id : Text
  pub is_global : Bool
  pub schedule : Text
  pub enabled : Bool
  pub max_retries : ℕ
  pub retry_delay : ℕ
  pub row : Option Row

abbrev pub forced : Text → Bool → Bool
forced id enabled = if is_non_skippable id then true else enabled

abbrev pub new_task : Definition → Schedule → Task
new_task d cron = record {
  id = d.id;
  is_global = d.is_global;
  cron = cron;
  enabled = forced d.id d.enabled;
  max_retries = d.max_retries;
  retry_delay = d.retry_delay;
  running = false;
  next_run = 0;
  attempt = 0;
  row = d.row;
}

-- A task with an invalid schedule is passed over.
abbrev pub add_task : Definition → Parsed Schedule → Parsed (List Task) → Parsed (List Task)
add_task d (parsed cron) others = others >>= (λ ts. parsed (new_task d cron ∷ ts))
add_task d invalid others = others
add_task d panics others = panics

-- `addTasks`
unfoldable pub add_tasks : (Text → Parsed Schedule) → List Definition → Parsed (List Task)
add_tasks parse [] = parsed []
add_tasks parse (d ∷ ds) = add_task d (parse d.schedule) (add_tasks parse ds)

abbrev pub second : ℕ
second = 1_000_000_000

-- What a write leaves in a row.
abbrev pub save : Bool → (Row → Row) → Option Row → Option Row
save is_written change none = none
save is_written change (some r) = some (if is_written then change r else r)

module _ (zone : Zone) (catch_up_window : ℕ) where
  abbrev pub load_row : ℕ → Bool → Bool → Option Row → Task → Task
  load_row now is_written is_saved none t =
      let due = next zone t.cron now in
      record t {
        next_run = due;
        row =
            if is_written
            then some (record { next_run = due / second; enabled = t.enabled })
            else none;
      }
  load_row now is_written is_saved (some r) t =
      let enabled = forced t.id r.enabled in
      let synced = record r { enabled = if is_written then enabled else r.enabled } in
      let stored = r.next_run * second in
      let due = next zone t.cron now in
      if leb now stored
      then record t { enabled = enabled; next_run = stored; row = some synced }
      else if leb now (stored + catch_up_window)
      then record t { enabled = enabled; next_run = now; row = some synced }
      else record t {
        enabled = enabled;
        next_run = due;
        row = some (record synced { next_run = if is_saved then due / second else r.next_run });
      }

  -- `loadOrInitTaskState`; the second write is that of a run that is passed over.
  unfoldable pub load_or_init : ℕ → Bool → Bool → Task → Task
  load_or_init now is_written is_saved t = load_row now is_written is_saved t.row t

-- One task at a tick: it is started if it is ready.
unfoldable pub tick_task : ℕ → Task → Task
tick_task now t =
    if t.enabled && not t.running && leb t.next_run now then record t { running = true } else t

unfoldable pub tick : ℕ → List Task → List Task
tick now ts = map (tick_task now) ts

-- `backoff *= 2`, so many times, in 64 bits.
unfoldable pub doubled : ℕ → ℕ → ℕ
doubled zero d = d
doubled (suc n) d = doubled n (d * 2 % 2 ^ 64)

-- `finished.Add(backoff)`: a duration of 2^63 or more is negative. The zero time is more than 2^63
-- nanoseconds before any reading of the clock.
abbrev pub add_duration : ℕ → ℕ → ℕ
add_duration t d = if ltb d (2 ^ 63) then t + d else t + d - 2 ^ 64

-- The end of a run: whether the lock was acquired and the time when it was asked for, whether the run
-- succeeded and the time of its end, and whether the row is written.
pub record Outcome : Type 0 where
  pub acquired : Bool
  pub asked : ℕ
  pub is_ok : Bool
  pub finished : ℕ
  pub is_written : Bool

module _ (zone : Zone) where
  -- `nextRun` behind a run, with the attempt counted.
  unfoldable pub due_after : ℕ → Task → ℕ
  unfolding doubled
  due_after finished t =
      if ltb 0 t.max_retries && leb t.attempt t.max_retries
      then add_duration finished (doubled (t.attempt - 1) t.retry_delay)
      else next zone t.cron finished

  abbrev pub ended : Bool → ℕ → Task → Task
  ended true finished t = record t { attempt = 0; next_run = next zone t.cron finished }
  ended false finished t =
      let counted = record t { attempt = t.attempt + 1 } in
      record counted { next_run = due_after finished counted }

  abbrev pub recorded : Bool → Task → Task
  recorded is_written t = record t {
    running = false;
    row = save is_written (λ r. record r { next_run = t.next_run / second }) t.row;
  }

  -- `runTask`, to its end.
  unfoldable pub run_task : Outcome → Task → Task
  run_task o t =
      if t.is_global && not o.acquired
      then record t { running = false; next_run = next zone t.cron o.asked }
      else recorded o.is_written (ended o.is_ok o.finished t)

-- The first task with an id, changed.
unfoldable pub change_task : Text → (Task → Task) → List Task → List Task
change_task id change [] = []
change_task id change (t ∷ ts) =
    if text_eq t.id id then change t ∷ ts else t ∷ change_task id change ts

pub data AdminError : Type 0 where
  not_skippable not_found already_running store_failed : AdminError

-- `findTask`
unfoldable pub find_task : Text → List Task → Option Task
find_task id [] = none
find_task id (t ∷ ts) = if text_eq t.id id then some t else find_task id ts

abbrev pub enable : Bool → Bool → Task → Task
enable enabled is_written t = record t {
  enabled = enabled;
  row = save is_written (λ r. record r { enabled = enabled }) t.row;
}

-- `SetTaskEnabled`, with the error.
unfoldable pub set_task_enabled : Text → Bool → Bool → List Task → List Task × Option AdminError
unfolding find_task change_task
set_task_enabled id enabled is_written ts =
    if not enabled && is_non_skippable id
    then (ts, some not_skippable)
    else if not (is_some (find_task id ts))
    then (ts, some not_found)
    else (
      change_task id (enable enabled is_written) ts,
      if is_written then none else some store_failed,
    )

abbrev pub run_found : Text → Option Task → List Task → List Task × Option AdminError
run_found id none ts = (ts, some not_found)
run_found id (some t) ts =
    if t.running
    then (ts, some already_running)
    else (change_task id (λ u. record u { running = true }) ts, none)

-- `RunNow`, with the error.
unfoldable pub run_now : Text → List Task → List Task × Option AdminError
unfolding find_task change_task
run_now id ts = run_found id (find_task id ts) ts

-- A tick, the end of a run of a task, or a call of the admin panel. Runs end in any order.
pub data Event : Type 0 where
  ticked : ℕ → Event
  run_ended : Text → Outcome → Event
  set_enabled : Text → Bool → Bool → Event
  asked_to_run : Text → Event

module _ (zone : Zone) where
  unfoldable pub step : List Task → Event → List Task
  step ts (ticked now) = tick now ts
  step ts (run_ended id o) = change_task id (run_task zone o) ts
  step ts (set_enabled id enabled is_written) = (set_task_enabled id enabled is_written ts).0
  step ts (asked_to_run id) = (run_now id ts).0

  unfoldable pub run : List Task → List Event → List Task
  run ts [] = ts
  run ts (e ∷ es) = run (step ts e) es
