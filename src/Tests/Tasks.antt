-- ===== src/Tests/Tasks.antt =====
-- The tasks of the scheduler, and the addresses of clients.
use caslink.Prelude.{
  ℕ, ◌+◌, ◌*◌, ◌^◌, ◌≤◌, ◌<◌, ◌≡◌, ◌⊎◌, refl, arith, Text, codes, text_eq, Bool, true, false, [],
  ◌∷◌, ◌&&◌, none, some, map, leb,
}
use caslink.OrgSlug.{ascii_text}
use caslink.Cron.{Schedule, every, Zone, Parsed, parsed}
use caslink.Scheduler.{
  Row, Task, Definition, forced, second, new_task, add_tasks, find_task, is_non_skippable,
  load_or_init, tick_task, Outcome, run_task, ticked, run_ended, set_enabled, run,
}
use caslink.Scheduler.Critical.{find_task-run}
use caslink.Scheduler.Retries.{run_task-failed}
use caslink.Scheduler.CatchUp.{tick_task-load_or_init}
use caslink.RateLimit.{next}
use caslink.ClientIp.{Request, real_ip, real_ip_middleware}
use caslink.ClientIp.Peers.{real_ip-untrusted}
use caslink.ClientIp.Attempts.{attempts, login_path, forwarded, IsClaim, attempts-forwarded}

abbrev zone : Zone
zone = record {
  minute_of = λ t. 0;
  hour_of = λ t. 0;
  day_of = λ t. 1;
  month_of = λ t. 1;
  weekday_of = λ t. 0;
}

abbrev minutely : Text → Parsed Schedule
minutely schedule = parsed (every (60 * second))

abbrev off : Row
off = record { next_run = 1000; enabled = false }

-- Disabled by configuration and row.
abbrev rotation : Definition
rotation = record {
  id = codes "log_rotation";
  is_global = false;
  schedule = codes "@every 1m";
  enabled = false;
  max_retries = 3;
  retry_delay = 300 * second;
  row = some off;
}

abbrev rotation_task : Task
rotation_task = new_task rotation (every (60 * second))

abbrev failed_run : Outcome
failed_run = record {
  acquired = false;
  asked = 0;
  is_ok = false;
  finished = 2000 * second;
  is_written = true;
}

rotation_is_added : add_tasks minutely (rotation ∷ []) ≡ parsed (rotation_task ∷ [])
unfolding add_tasks
rotation_is_added = refl

rotation_is_critical : is_non_skippable (codes "log_rotation") ≡ true
unfolding is_non_skippable text_eq
rotation_is_critical = refl

find_task-run_example :
    (t : Task) × (find_task (codes "log_rotation") (
        run zone
          (map (load_or_init zone (3600 * second) (1001 * second) true true) (rotation_task ∷ []))
          (set_enabled (codes "log_rotation") false true
            ∷ ticked (1001 * second)
            ∷ run_ended (codes "log_rotation") failed_run
            ∷ []))
      ≡ some t)
    × (t.enabled ≡ true)
find_task-run_example =
    find_task-run zone minutely [] [] rotation (every (60 * second)) (rotation_task ∷ [])
      (3600 * second) (1001 * second) true true
      (set_enabled (codes "log_rotation") false true
        ∷ ticked (1001 * second)
        ∷ run_ended (codes "log_rotation") failed_run
        ∷ [])
      rotation_is_critical refl rotation_is_added

run_task-failed_example :
    ((run_task zone failed_run rotation_task).attempt ≡ 1)
    × ((run_task zone failed_run rotation_task).running ≡ false)
    × ((((run_task zone failed_run rotation_task).attempt ≤ 3)
          × ((run_task zone failed_run rotation_task).next_run
              ≡ 2000 * second + 300 * second * 2 ^ 0))
        ⊎ ((3 < (run_task zone failed_run rotation_task).attempt)
            × ((run_task zone failed_run rotation_task).next_run
                ≡ caslink.Cron.next zone (every (60 * second)) (2000 * second))))
run_task-failed_example = run_task-failed zone failed_run rotation_task refl refl (omega arith)

tick_task-load_or_init_example :
    (tick_task
      (1001 * second)
      (load_or_init zone (3600 * second) (1001 * second) true true rotation_task)).running
    ≡ (forced (codes "log_rotation") false
        && (leb (1000 * second) (1001 * second)
            && leb (1001 * second) (1000 * second + 3600 * second)))
tick_task-load_or_init_example =
    tick_task-load_or_init zone (3600 * second) (1001 * second) true true rotation_task off refl
      refl (omega arith)

-- Peers on the local network are trusted.
abbrev is_local : Text → Bool
is_local addr = text_eq addr (codes "10.0.0.1:80")

abbrev spoofing : Request
spoofing = record {
  remote_addr = codes "8.8.8.8:4711";
  x_forwarded_for = codes "1.1.1.1";
  x_real_ip = codes "2.2.2.2";
}

not_local : is_local (codes "8.8.8.8:4711") ≡ false
unfolding text_eq
not_local = refl

real_ip-untrusted_example :
    real_ip ascii_text (real_ip_middleware ascii_text is_local spoofing) ≡ codes "8.8.8.8"
real_ip-untrusted_example =
    real_ip-untrusted ascii_text is_local (codes "8.8.8.8") (codes "4711") spoofing refl
      (omega arith, (omega arith, (omega arith, (omega arith, tt)))) not_local

one_digit : (c : ℕ) → 47 < c → c < 58 → IsClaim (c ∷ [])
one_digit c l u = record {
  without_comma = (omega (arith, l), tt);
  visible = ((omega (arith, l), omega (arith, u)), tt);
  is_address = (ground (arith, l, u), tt);
  some_text = λ e. cc;
}

digits_differ : text_eq (codes "1") (codes "2") ≡ false
unfolding text_eq
digits_differ = refl

attempts-forwarded_example :
    attempts ascii_text
      (λ addr. true)
      login_path
      5
      (λ k. none)
      (map (forwarded (codes "10.0.0.1:80") (codes "8.8.8.8")) (codes "1" ∷ codes "2" ∷ []))
    ≡ next ∷ next ∷ []
attempts-forwarded_example =
    attempts-forwarded ascii_text (λ addr. true) (codes "10.0.0.1:80") (codes "8.8.8.8") refl 5
      (codes "1" ∷ codes "2" ∷ [])
      (one_digit b'1' (omega arith) (omega arith), (one_digit b'2' (omega arith) (omega arith), tt))
      ((digits_differ, tt), (tt, tt))
