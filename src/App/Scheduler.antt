-- ===== src/App/Scheduler.antt =====
-- src/app/scheduler.c and include/app/scheduler.h: the cooperative scheduler. A task's function
-- with its context is a function on the rest of the program's state, `W`. The scheduler's address is
-- never null; the array of tasks and a registered function may be, and are options.
pub mod Once
pub mod Register
pub mod Keep
pub mod Timetable
use climate_node.Prelude.{
  ℕ, ◌+◌, ◌-◌, ◌%◌, ◌^◌, Bool, true, false, not, ◌||◌, Option, none, some, List, [], ◌∷◌, ◌++◌, u32,
  sub32, ltb, leb, ◌==◌, if◌then◌else◌, set, take, drop,
}
use Prim.Native.String.{String}

-- `sched_task_t`
pub record Task (W : Type 0) : Type 0 where
  pub period_ms : ℕ
  pub next_ms : ℕ
  pub fn : W → W
  pub name : String

-- `scheduler_t`
pub record Scheduler (W : Type 0) : Type 0 where
  pub tasks : Option (List (Task W))
  pub capacity : ℕ
  pub count : ℕ

-- `(int32_t)(now_ms - next_ms) >= 0`: the difference modulo 2 ^ 32 has its top bit clear.
abbrev pub sched_is_due : ℕ → ℕ → Bool
sched_is_due now_ms next_ms = ltb (sub32 now_ms next_ms) (2 ^ 31)

module _ {W : Type 0} where
  unfoldable pub sched_init : Option (List (Task W)) → ℕ → Scheduler W
  sched_init tasks capacity = record { tasks = tasks; capacity = capacity; count = 0 }

  -- The result says whether the task was registered.
  unfoldable pub sched_register : Scheduler W → ℕ → Option (W → W) → String → Bool × Scheduler W
  sched_register s period_ms fn name = elim s.tasks [
    | none ↦ (false, s)
    | some tasks ↦ elim fn [
      | none ↦ (false, s)
      | some f ↦
          if period_ms == 0 then (false, s) else if leb s.capacity s.count then (false, s) else (
            true,
            record s {
              tasks = some (
                  set tasks s.count
                    record { period_ms = period_ms; next_ms = 0; fn = f; name = name });
              count = s.count + 1;
            },
          )
    ]
  ]

  -- The next time of a task that has just run: one period on, or one period from now if that has
  -- passed too.
  abbrev pub reschedule : ℕ → Task W → Task W
  reschedule now_ms t =
      let next = u32 (t.next_ms + t.period_ms) in
      record t { next_ms = if sched_is_due now_ms next then u32 (now_ms + t.period_ms) else next }

  -- The body of the loop on one task: whether it ran, the task and the state after it.
  abbrev pub run_task : ℕ → Task W → W → Bool × Task W × W
  run_task now_ms t w =
      if sched_is_due now_ms t.next_ms then (true, reschedule now_ms t, t.fn w) else (false, t, w)

  unfoldable pub run_tasks : ℕ → List (Task W) → W → Bool × List (Task W) × W
  run_tasks now_ms [] w = (false, [], w)
  run_tasks now_ms (t ∷ ts) w =
      let (ran, t', w') = run_task now_ms t w in
      let (any, ts', w'') = run_tasks now_ms ts w' in (ran || any, t' ∷ ts', w'')

  -- The loop goes over the first `count` slots.
  unfoldable pub sched_run_once : Scheduler W → ℕ → W → Bool × Scheduler W × W
  unfolding run_tasks
  sched_run_once s now_ms w = elim s.tasks [
    | none ↦ (false, s, w)
    | some tasks ↦
        let (any, ts, w') = run_tasks now_ms (take s.count tasks) w in
        (any, record s { tasks = some (ts ++ drop s.count tasks) }, w')
  ]
