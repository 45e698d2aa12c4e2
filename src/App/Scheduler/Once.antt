-- ===== src/App/Scheduler/Once.antt =====
-- One pass of the scheduler: which tasks run, in which order, and when they are due again.
use climate_node.Prelude.{
  ℕ, suc, ◌^◌, ◌≤◌, ◌<◌, ◌≡◌, refl, ◌∙◌, sym, ap, some, ◌++◌, length, take, drop, length-take,
  take-append_left, drop-append_left, Bool, true, false, ◌||◌, List, [], ◌∷◌, arith, sub32,
  if◌then◌else◌, Bool-cases, inl, inr,
}
use climate_node.App.Scheduler.{
  Task, Scheduler, sched_is_due, reschedule, run_tasks, sched_run_once,
}

later :
    (now n p : ℕ)
    → now < 2 ^ 32
    → n < 2 ^ 32
    → 0 < sub32 n now
    → sub32 n now ≤ p
    → p < 2 ^ 31
    → sched_is_due now n ≡ false
later now n p h k a b c = ground arith

module _ {W : Type 0} where
  -- The effect of the due tasks alone, in the order of the array.
  abbrev pub due_effects : ℕ → List (Task W) → W → W
  due_effects now [] w = w
  due_effects now (t ∷ ts) w = due_effects now ts (if sched_is_due now t.next_ms then t.fn w else w)

  abbrev pub any_due : ℕ → List (Task W) → Bool
  any_due now [] = false
  any_due now (t ∷ ts) = sched_is_due now t.next_ms || any_due now ts

  abbrev pub rescheduled : ℕ → List (Task W) → List (Task W)
  rescheduled now [] = []
  rescheduled now (t ∷ ts) =
      (if sched_is_due now t.next_ms then reschedule now t else t) ∷ rescheduled now ts

  -- Times are `uint32_t`, and a period is at least 1 and below 2 ^ 31.
  abbrev pub AllTimed : List (Task W) → Type 0
  AllTimed [] = Unit {0}
  AllTimed (t ∷ ts) =
      (0 < t.period_ms) × (t.period_ms < 2 ^ 31) × (t.next_ms < 2 ^ 32) × AllTimed ts

  -- A pass runs exactly the tasks that are due, each once and in the order of the array, reports
  -- whether there was one, and reschedules those and no other.
  pub run_tasks_lem :
      (now : ℕ) (ts : List (Task W)) (w : W)
      → run_tasks now ts w ≡ (any_due now ts, rescheduled now ts, due_effects now ts w)
  unfolding run_tasks
  run_tasks_lem now [] w = refl
  run_tasks_lem now (t ∷ ts) w = elim (Bool-cases (sched_is_due now t.next_ms)) [
    | inl e ↦ rw (e, run_tasks_lem now ts (t.fn w))
    | inr e ↦ rw (e, run_tasks_lem now ts w)
  ]

  -- A task that was due is next due within one period from now, and not before the next millisecond.
  reschedule_range :
      (now : ℕ) (t : Task W)
      → now < 2 ^ 32
      → 0 < t.period_ms
      → t.period_ms < 2 ^ 31
      → t.next_ms < 2 ^ 32
      → sched_is_due now t.next_ms ≡ true
      → let n = (reschedule now t).next_ms in
        (0 < sub32 n now) × (sub32 n now ≤ t.period_ms) × (n < 2 ^ 32)
  reschedule_range now t h p q k e = ground arith

  none_due_again :
      (now : ℕ) (ts : List (Task W))
      → now < 2 ^ 32
      → AllTimed ts
      → any_due now (rescheduled now ts) ≡ false
  none_due_again now [] h k = refl
  none_due_again now (t ∷ ts) h k = elim (Bool-cases (sched_is_due now t.next_ms)) [
    | inl e ↦
        let r = reschedule_range now t h k.0 k.1 k.2 e in
        let n : sched_is_due now (reschedule now t).next_ms ≡ false =
          later now (reschedule now t).next_ms t.period_ms h r.2 r.0 r.1 k.1 in
        rw (e, n) (none_due_again now ts h k.3)
    | inr e ↦ rw (e, e) (none_due_again now ts h k.3)
  ]

  idle :
      (now : ℕ) (ts : List (Task W)) (w : W)
      → any_due now ts ≡ false
      → (rescheduled now ts ≡ ts) × (due_effects now ts w ≡ w)
  idle now [] w h = (refl, refl)
  idle now (t ∷ ts) w h = elim (Bool-cases (sched_is_due now t.next_ms)) [
    | inl e ↦ cc (rw e at h)
    | inr e ↦ let r = idle now ts w (rw e at h) in (rw e (ap (λ l. t ∷ l) r.0), rw e r.1)
  ]

  pub length-rescheduled : (now : ℕ) (ts : List (Task W)) → length (rescheduled now ts) ≡ length ts
  length-rescheduled now [] = refl
  length-rescheduled now (t ∷ ts) = ap suc (length-rescheduled now ts)

  -- One pass over a scheduler with an array: exactly the due tasks among the registered ones run,
  -- each once and in the order of the array; the result says whether there was one; the tasks that
  -- ran are rescheduled, and all other slots are kept.
  pub sched_run_once_lem :
      (s : Scheduler W) (ts : List (Task W)) (now : ℕ) (w : W)
      → s.tasks ≡ some ts
      → let mine = take s.count ts in
        sched_run_once s now w ≡ (
          any_due now mine,
          record s { tasks = some (rescheduled now mine ++ drop s.count ts) },
          due_effects now mine w,
        )
  unfolding sched_run_once
  sched_run_once_lem s ts now w e = rw (e, run_tasks_lem now (take s.count ts) w)

  -- A second pass in the same millisecond runs nothing and changes nothing.
  sched_run_once_again :
      (s : Scheduler W) (ts : List (Task W)) (now : ℕ) (w : W)
      → s.tasks ≡ some ts
      → s.count ≤ length ts
      → now < 2 ^ 32
      → AllTimed (take s.count ts)
      → let (any, s', w') = sched_run_once s now w in sched_run_once s' now w' ≡ (false, s', w')
  sched_run_once_again s ts now w e fits h k =
      let mine = take s.count ts in
      let done = rescheduled now mine in
      let rest = drop s.count ts in
      let n : length done ≡ s.count =
        length-rescheduled now mine ∙ omega (arith, length-take s.count ts) in
      let same : take s.count (done ++ rest) ≡ done =
        ap (λ c. take c (done ++ rest)) (sym n) ∙ take-append_left done rest in
      let others : drop s.count (done ++ rest) ≡ rest =
        ap (λ c. drop c (done ++ rest)) (sym n) ∙ drop-append_left done rest in
      let w' = due_effects now mine w in
      let no = none_due_again now mine h k in
      let i = idle now done w' no in
      rw (sched_run_once_lem s ts now w e) (
        sched_run_once_lem (record s { tasks = some (done ++ rest) }) (done ++ rest) now w' refl
        ∙ rw (same, others, no, i.0, i.1))
