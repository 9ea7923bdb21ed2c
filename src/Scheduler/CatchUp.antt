-- ===== src/Scheduler/CatchUp.antt =====
-- Runs that were missed while the server was down.
use caslink.Prelude.{
  ℕ, ◌+◌, ◌*◌, ◌<◌, Bool, true, false, not, ◌&&◌, ◌≡◌, inl, inr, ap, ◌∙◌, arith, some, leb,
  Bool-cases,
}
use caslink.Cron.{Schedule, every, at_fields, Zone, next}
use caslink.Cron.Next.{next_lem}
use caslink.Scheduler.{Row, Task, forced, second, load_or_init, tick_task}

-- What `parseCronSchedule` lets through: an interval is positive.
abbrev pub IsPositive : Schedule → Type 0
IsPositive (every d) = 0 < d
IsPositive (at_fields f) = Unit

next_later : (zone : Zone) (s : Schedule) (from : ℕ) → IsPositive s → from < next zone s from
unfolding next
next_later zone (every d) from h = omega (arith, h)
next_later zone (at_fields f) from h = elim (next_lem zone f from).2 [
  | inl r ↦ omega (arith, r.at_round, (next_lem zone f from).0)
  | inr (m, e) ↦ omega (arith, e)
]

tick_task_lem :
    (now : ℕ) (t : Task)
    → t.running ≡ false
    → (tick_task now t).running ≡ (t.enabled && leb t.next_run now)
unfolding tick_task
tick_task_lem now t h = elim (Bool-cases (t.enabled && not t.running && leb t.next_run now)) [
  | inl ready ↦ rw ready (ground (arith, ready, h))
  | inr waits ↦ rw waits (ground (arith, waits, h))
]

on_time :
    (stored window now : ℕ)
    → leb now stored ≡ true
    → leb stored now ≡ (leb stored now && leb now (stored + window))
on_time stored window now h = ground (arith, h)

missed_run : (stored now : ℕ) → leb now stored ≡ false → leb now now ≡ (leb stored now && true)
missed_run stored now h = ground (arith, h)

not_yet : (due now : ℕ) (b : Bool) → now < due → leb due now ≡ (b && false)
not_yet due now b h = ground (arith, h)

-- A task with a row, a schedule whose interval is positive if it is one, and no run, is started by a
-- tick at the time when it is loaded exactly if it is enabled, by its row or since it cannot be
-- disabled, and the run of its row is due, and overdue for no longer than the window.
pub tick_task-load_or_init :
    (zone : Zone) (window now : ℕ) (w v : Bool) (t : Task) (r : Row)
    → t.row ≡ some r
    → t.running ≡ false
    → IsPositive t.cron
    → (tick_task now (load_or_init zone window now w v t)).running ≡ (
        forced t.id r.enabled
        && (leb (r.next_run * second) now && leb now (r.next_run * second + window)))
unfolding load_or_init
tick_task-load_or_init zone window now w v t r e h p =
    let later = next_later zone t.cron now p in
    rw e (elim (Bool-cases (leb now (r.next_run * second))) [
      | inl early ↦ rw early (
          tick_task_lem now _ h
          ∙ ap (λ b. forced t.id r.enabled && b) (on_time (r.next_run * second) window now early))
      | inr due ↦ elim (Bool-cases (leb now (r.next_run * second + window))) [
        | inl missed ↦
            rw (due, missed)
              (tick_task_lem now _ h
                ∙ ap (λ b. forced t.id r.enabled && b) (missed_run (r.next_run * second) now due))
        | inr late ↦
            rw (due, late)
              (tick_task_lem now _ h ∙ ap (λ b. forced t.id r.enabled && b) (not_yet _ now _ later))
      ]
    ])
