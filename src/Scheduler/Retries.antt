-- ===== src/Scheduler/Retries.antt =====
-- When a task that fails runs again.
use native.Mathlib.Nat.{pow-suc, pow-le-pow_right, mul-le-mul_left}
use caslink.Prelude.{
  ℕ, zero, suc, ◌+◌, ◌-◌, ◌*◌, ◌%◌, ◌^◌, ◌≤◌, ◌<◌, true, false, not, List, [], ◌∷◌, ◌&&◌, ◌≡◌, ◌⊎◌,
  inl, inr, refl, sym, ◌∙◌, arith, ltb, leb, map, All, Bool-cases,
}
use caslink.Cron.{Zone, next}
use caslink.Scheduler.{Task, doubled, add_duration, Outcome, due_after, run_task}

-- Without overflow.
doubled_lem : (n d : ℕ) → d * 2 ^ n < 2 ^ 63 → doubled n d ≡ d * 2 ^ n
unfolding doubled
doubled_lem zero d h = omega arith
doubled_lem (suc n) d h =
    let grown : d * 2 ^ suc n ≡ d * 2 * 2 ^ n = grind (arith, pow-suc 2 n) in
    let once : d * 2 ≤ d * 2 ^ suc n =
      mul-le-mul_left d
        (pow-le-pow_right {n = 2} (omega arith) {i = 1} {j = suc n} (omega arith)) in
    let kept : d * 2 % 2 ^ 64 ≡ d * 2 = omega (arith, once, h) in
    rw kept (doubled_lem n (d * 2) (omega (arith, grown, h)) ∙ sym grown)

within : (n m d : ℕ) → n ≤ m → d * 2 ^ m < 2 ^ 63 → d * 2 ^ n < 2 ^ 63
within n m d l h =
    omega (arith, h, mul-le-mul_left d (pow-le-pow_right {n = 2} (omega arith) {i = n} {j = m} l))

add_duration_short : (t d : ℕ) → d < 2 ^ 63 → add_duration t d ≡ t + d
add_duration_short t d h = ground (arith, h)

module _ (zone : Zone) where
  due_lem :
      (finished n : ℕ) (t : Task)
      → t.attempt ≡ n + 1
      → t.retry_delay * 2 ^ (t.max_retries - 1) < 2 ^ 63
      → ((t.attempt ≤ t.max_retries)
          × (due_after zone finished t ≡ finished + t.retry_delay * 2 ^ n))
        ⊎ ((t.max_retries < t.attempt) × (due_after zone finished t ≡ next zone t.cron finished))
  unfolding due_after
  due_lem finished n t count short =
      elim (Bool-cases (ltb 0 t.max_retries && leb t.attempt t.max_retries)) [
        | inl again ↦
            let l : t.attempt ≤ t.max_retries = ground (arith, again) in
            let b = within n (t.max_retries - 1) t.retry_delay (omega (arith, l, count)) short in
            let before : t.attempt - 1 ≡ n = omega (arith, count) in
            inl (
              l,
              rw (again, before, doubled_lem n t.retry_delay b) (add_duration_short finished _ b),
            )
        | inr over ↦ inr (ground (arith, over, count), rw over refl)
      ]

  -- A run that the lock lets start and that fails is counted. If the count is within the limit, the
  -- task runs again after its delay, doubled for each failure before; if it is beyond, the task waits
  -- for its schedule. The longest delay is below 2^63 nanoseconds.
  pub run_task-failed :
      (o : Outcome) (t : Task)
      → (t.is_global && not o.acquired) ≡ false
      → o.is_ok ≡ false
      → t.retry_delay * 2 ^ (t.max_retries - 1) < 2 ^ 63
      → let t' = run_task zone o t in
        (t'.attempt ≡ t.attempt + 1)
        × (t'.running ≡ false)
        × (((t'.attempt ≤ t.max_retries)
              × (t'.next_run ≡ o.finished + t.retry_delay * 2 ^ t.attempt))
            ⊎ ((t.max_retries < t'.attempt) × (t'.next_run ≡ next zone t.cron o.finished)))
  unfolding run_task
  run_task-failed o t ran failed short =
      rw (ran, failed)
        (refl, refl, due_lem o.finished t.attempt (record t { attempt = t.attempt + 1 }) refl short)

  -- What `nextRun` is after each of some runs.
  unfoldable pub due_times : Task → List Outcome → List ℕ
  due_times t [] = []
  due_times t (o ∷ os) = let t' = run_task zone o t in t'.next_run ∷ due_times t' os

  over_lem :
      (o : Outcome) (t : Task)
      → o.acquired ≡ true
      → o.is_ok ≡ false
      → t.max_retries ≤ t.attempt
      → let t' = run_task zone o t in
        (t'.next_run ≡ next zone t.cron o.finished)
        × (t'.cron ≡ t.cron)
        × (t'.max_retries ≤ t'.attempt)
  unfolding run_task due_after
  over_lem o t lock failed l =
      let runs : (t.is_global && not o.acquired) ≡ false = ground (arith, lock) in
      let over : (ltb 0 t.max_retries && leb (t.attempt + 1) t.max_retries) ≡ false =
        ground (arith, l) in
      rw (runs, failed, over) (refl, refl, omega (arith, l))

  -- Once the retries are used up, every further failure until a success waits for the schedule: a
  -- later run by the schedule that fails is not tried again.
  pub due_times-failed :
      (os : List Outcome) (t : Task)
      → All (λ o. (o.acquired ≡ true) × (o.is_ok ≡ false)) os
      → t.max_retries ≤ t.attempt
      → due_times t os ≡ map (λ o. next zone t.cron o.finished) os
  unfolding due_times
  due_times-failed [] t h l = refl
  due_times-failed (o ∷ os) t h l =
      let over = over_lem o t h.0.0 h.0.1 l in
      rw (due_times-failed os (run_task zone o t) h.1 over.2, over.1, over.0) refl
