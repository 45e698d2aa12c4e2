-- ===== src/App/Scheduler/Timetable/Passes.antt =====
-- Any number of evenly spaced passes of the scheduler in src/app/scheduler.c, against the timetable.
use climate_node.Prelude.{
  ℕ, zero, suc, ◌+◌, ◌^◌, ◌<◌, ◌≡◌, refl, ◌∙◌, sym, ap, ap₂, true, some, List, [], ◌∷◌, ◌++◌, u32,
  if◌then◌else◌, length, take, drop, take-append_left, drop-append_left,
}
use climate_node.App.Scheduler.{Task, Scheduler, sched_is_due, sched_run_once}
use climate_node.App.Scheduler.Once.{
  due_effects, rescheduled, length-rescheduled, sched_run_once_lem,
}
use climate_node.App.Scheduler.Timetable.{
  passes, Entry, on_schedule, timetable, runs_in, left_over, IsPaced, IsOnTime, first_step,
  IsOnTime-step,
}

module _ {W : Type 0} (d : ℕ) where
  -- The entries of the tasks as they are at the first pass.
  abbrev pub entries : ℕ → List (Task W) → List (Entry W)
  entries now [] = []
  entries now (t ∷ ts) = (left_over now t.next_ms t.period_ms, t) ∷ entries now ts

  -- Every task is due and of a period that is as long as the time between two passes, or longer.
  abbrev pub AllDue : ℕ → List (Task W) → Type 0
  AllDue now [] = Unit {0}
  AllDue now (t ∷ ts) =
      IsPaced d t × (t.next_ms < 2 ^ 32) × (sched_is_due (u32 now) t.next_ms ≡ true) × AllDue now ts

  -- Each task is on time, on a period of the kind.
  abbrev AllOnTime : ℕ → ℕ → List (Entry W) → List (Task W) → Type 0
  AllOnTime now i [] [] = Unit {0}
  AllOnTime now i [] (t ∷ ts) = ⊥
  AllOnTime now i (e ∷ es) [] = ⊥
  AllOnTime now i (e ∷ es) (t ∷ ts) = IsPaced d e.1 × IsOnTime d now i e t × AllOnTime now i es ts

  first_pass :
      (now : ℕ) (ts : List (Task W)) (w : W)
      → 0 < d
      → AllDue now ts
      → (due_effects (u32 now) ts w ≡ on_schedule d 0 (entries now ts) w)
        × AllOnTime (now + d) 0 (entries now ts) (rescheduled (u32 now) ts)
  first_pass now [] w pos h = (refl, tt)
  first_pass now (t ∷ ts) w pos (paced, word, due, hs) =
      let (effects, rest) = first_pass now ts (t.fn w) pos hs in
      rw due (effects, (paced, first_step d now t pos paced word due, rest))

  later_pass :
      (now i : ℕ) (es : List (Entry W)) (ts : List (Task W)) (w : W)
      → 0 < d
      → AllOnTime now i es ts
      → (due_effects (u32 now) ts w ≡ on_schedule d (suc i) es w)
        × AllOnTime (now + d) (suc i) es (rescheduled (u32 now) ts)
  later_pass now i [] [] w pos h = (refl, tt)
  later_pass now i [] (t ∷ ts) w pos h = elim h [ ]
  later_pass now i (e ∷ es) [] w pos h = elim h [ ]
  later_pass now i (e ∷ es) (t ∷ ts) w pos (paced, is, hs) =
      let (due, next) = IsOnTime-step d now i e t pos paced is in
      let now_run = if runs_in d e.0 (suc i) e.1.period_ms then e.1.fn w else w in
      let (effects, rest) = later_pass now i es ts now_run pos hs in
      (
        ap (λ b. due_effects (u32 now) ts (if b then t.fn w else w)) due
            ∙ ap
                (λ f.
                  due_effects (u32 now) ts (if runs_in d e.0 (suc i) e.1.period_ms then f w else w))
                is.fn
            ∙ effects,
        (paced, next, rest),
      )

  -- One pass, on the registered tasks and the slots after them.
  pass_lem :
      (now : ℕ) (s : Scheduler W) (mine rest : List (Task W)) (w : W)
      → s.tasks ≡ some (mine ++ rest)
      → s.count ≡ length mine
      → let (any, s', w') = sched_run_once s (u32 now) w in
        (s'.tasks ≡ some (rescheduled (u32 now) mine ++ rest))
        × (s'.count ≡ length (rescheduled (u32 now) mine))
        × (w' ≡ due_effects (u32 now) mine w)
  pass_lem now s mine rest w table count =
      let ran = sched_run_once_lem s (mine ++ rest) (u32 now) w table in
      let first : take s.count (mine ++ rest) ≡ mine =
        ap (λ c. take c (mine ++ rest)) count ∙ take-append_left mine rest in
      let last : drop s.count (mine ++ rest) ≡ rest =
        ap (λ c. drop c (mine ++ rest)) count ∙ drop-append_left mine rest in
      (
        ap (λ r. r.1.tasks) ran ∙ ap₂ (λ ts us. some (rescheduled (u32 now) ts ++ us)) first last,
        ap (λ r. r.1.count) ran ∙ count ∙ sym (length-rescheduled (u32 now) mine),
        ap (λ r. r.2) ran ∙ ap (λ ts. due_effects (u32 now) ts w) first,
      )

  passes_from :
      (n now i : ℕ) (s : Scheduler W) (es : List (Entry W)) (mine rest : List (Task W)) (w : W)
      → 0 < d
      → s.tasks ≡ some (mine ++ rest)
      → s.count ≡ length mine
      → AllOnTime now i es mine
      → (passes d n now s w).1 ≡ timetable d (suc i) n es w
  unfolding passes timetable
  passes_from zero now i s es mine rest w pos table count h = refl
  passes_from (suc n) now i s es mine rest w pos table count h =
      let (any, s', w') = sched_run_once s (u32 now) w in
      let (table', count', effects) = pass_lem now s mine rest w table count in
      let (scheduled, on_time) = later_pass now i es mine w pos h in
      passes_from n (now + d) (suc i) s' es (rescheduled (u32 now) mine) rest w' pos table' count'
        on_time
      ∙ ap (timetable d (suc (suc i)) n es) (effects ∙ scheduled)

  -- From any time at which all tasks are due, however late each of them is, any number of passes that are
  -- `d` milliseconds apart, for periods of at least `d` and below 2 ^ 31, does exactly what the timetable
  -- says: each task runs in the first pass, and then once in each pass by which another multiple of its
  -- period has passed, counted from its next time, or from the first pass if that was a period late or
  -- more; the tasks of one pass run in the order of the array, also across the wraps of the clock.
  pub passes_lem :
      (n now : ℕ) (s : Scheduler W) (mine rest : List (Task W)) (w : W)
      → 0 < d
      → s.tasks ≡ some (mine ++ rest)
      → s.count ≡ length mine
      → AllDue now mine
      → (passes d n now s w).1 ≡ timetable d 0 n (entries now mine) w
  unfolding passes timetable
  passes_lem zero now s mine rest w pos table count h = refl
  passes_lem (suc n) now s mine rest w pos table count h =
      let (any, s', w') = sched_run_once s (u32 now) w in
      let (table', count', effects) = pass_lem now s mine rest w table count in
      let (scheduled, on_time) = first_pass now mine w pos h in
      passes_from n (now + d) 0 s' (entries now mine) (rescheduled (u32 now) mine) rest w' pos
        table' count' on_time
      ∙ ap (timetable d 1 n (entries now mine)) (effects ∙ scheduled)
