-- ===== src/App/Scheduler/Timetable.antt =====
-- What the scheduler of src/app/scheduler.c does over a long run of evenly spaced passes, against a
-- timetable: when each task is due, and where its next time lies.
use climate_node.Prelude.{
  ℕ, zero, suc, ◌+◌, ◌-◌, ◌*◌, ◌%◌, ◌^◌, ◌≤◌, ◌<◌, ◌≡◌, refl, ◌∙◌, sym, ap, inl, inr, arith, Bool,
  true, false, List, [], ◌∷◌, u32, sub32, ltb, leb, ◌==◌, ◌||◌, if◌then◌else◌, Bool-cases,
}
use native.Mathlib.Nat.{mul-suc, mul-zero, mod-lt, mod-eq_of_lt, mod-add-mod, add-mod_right}
use climate_node.App.Scheduler.{Task, Scheduler, sched_is_due, reschedule, sched_run_once}
pub mod Passes

-- The time since the last multiple of the period, some time below the period later.
mod_step :
    (a d p : ℕ)
    → 0 < d
    → d ≤ p
    → (a + d) % p ≡ (if leb p (a % p + d) then a % p + d - p else a % p + d)
mod_step a d p pos short =
    let some_time : 0 < p = omega arith in
    let l = mod-lt a some_time in
    let sum = sym (mod-add-mod a p d) in
    elim (Bool-cases (leb p (a % p + d))) [
      | inl over ↦
          let back : a % p + d ≡ a % p + d - p + p = ground arith in
          rw over (
            sum
            ∙ ap (λ n. n % p) back
            ∙ add-mod_right (a % p + d - p) p
            ∙ mod-eq_of_lt (ground arith))
      | inr under ↦ rw under (sum ∙ mod-eq_of_lt (ground arith))
    ]

-- A next time `p` after a multiple of the period that lies `g` back.
abbrev next_after : ℕ → ℕ → ℕ → ℕ
next_after now p g = u32 (now + 2 ^ 32 + p - g)

due_after :
    (now p g : ℕ)
    → 0 < g
    → g < 2 * p
    → p < 2 ^ 31
    → sched_is_due (u32 now) (next_after now p g) ≡ leb p g
due_after now p g some_time below short = ground arith

rescheduled_after :
    (now p g d next : ℕ)
    → next ≡ next_after now p g
    → p ≤ g
    → g < 2 * p
    → p < 2 ^ 31
    → d ≤ p
    → (if sched_is_due (u32 now) (u32 (next + p)) then u32 (u32 now + p) else u32 (next + p))
      ≡ next_after (now + d) p (g - p + d)
rescheduled_after now p g d next e over below short few = ground arith

-- How long ago a task's next time was, and what is left of it when the task has run.
abbrev pub late : ℕ → ℕ → ℕ
late now next = sub32 (u32 now) next

abbrev pub left_over : ℕ → ℕ → ℕ → ℕ
left_over now next p = let x = late now next in if ltb x p then x else 0

first_rescheduled :
    (now p d next : ℕ)
    → next < 2 ^ 32
    → sched_is_due (u32 now) next ≡ true
    → p < 2 ^ 31
    → 0 < d
    → d ≤ p
    → (if sched_is_due (u32 now) (u32 (next + p)) then u32 (u32 now + p) else u32 (next + p))
      ≡ next_after (now + d) p (left_over now next p + d)
first_rescheduled now p d next word due short pos few = ground arith

-- A task of the timetable, and how late it is when the passes begin.
abbrev pub Entry : Type 0 → Type 0
Entry W = ℕ × Task W

-- A task runs in the first pass, and in each one by which another multiple of its period has passed since
-- the pass before, `d` milliseconds earlier.
abbrev pub runs_in : ℕ → ℕ → ℕ → ℕ → Bool
runs_in d x i p = (i == 0) || ltb ((x + d * i) % p) d

module _ {W : Type 0} (d : ℕ) where
  -- `n` passes, `d` milliseconds apart.
  unfoldable pub passes : ℕ → ℕ → Scheduler W → W → Scheduler W × W
  passes zero now s w = (s, w)
  passes (suc n) now s w =
      let (any, s', w') = sched_run_once s (u32 now) w in passes n (now + d) s' w'

  -- The timetable: pass `i`, in the order of the array, and `n` passes from the `i`-th on.
  abbrev pub on_schedule : ℕ → List (Entry W) → W → W
  on_schedule i [] w = w
  on_schedule i ((x, t) ∷ es) w = on_schedule i es (if runs_in d x i t.period_ms then t.fn w else w)

  unfoldable pub timetable : ℕ → ℕ → List (Entry W) → W → W
  timetable i zero es w = w
  timetable i (suc n) es w = timetable (suc i) n es (on_schedule i es w)

  -- The period is as long as the time between two passes, or longer.
  abbrev pub IsPaced : Task W → Type 0
  IsPaced t = (d ≤ t.period_ms) × (t.period_ms < 2 ^ 31)

  -- Before pass `i + 1` a task is that of its entry but for its next time, which is a period after the last
  -- multiple.
  pub record IsOnTime (now i : ℕ) (e : Entry W) (t : Task W) : Type 0 where
    pub period : t.period_ms ≡ e.1.period_ms
    pub fn : t.fn ≡ e.1.fn
    pub next : t.next_ms ≡ next_after now e.1.period_ms ((e.0 + d * i) % e.1.period_ms + d)

  -- The first pass, in which every task is due.
  pub first_step :
      (now : ℕ) (t : Task W)
      → 0 < d
      → IsPaced t
      → t.next_ms < 2 ^ 32
      → sched_is_due (u32 now) t.next_ms ≡ true
      → IsOnTime (now + d) 0 (left_over now t.next_ms t.period_ms, t) (reschedule (u32 now) t)
  first_step now t pos (few, short) word due =
      let x = left_over now t.next_ms t.period_ms in
      let small : x < t.period_ms = ground arith in
      let start : (x + d * 0) % t.period_ms ≡ x =
        ap (λ n. n % t.period_ms) (omega (arith, mul-zero d)) ∙ mod-eq_of_lt small in
      record {
        period = refl;
        fn = refl;
        next =
            first_rescheduled now t.period_ms d t.next_ms word due short pos few
            ∙ ap (λ r. next_after (now + d) t.period_ms (r + d)) (sym start);
      }

  -- Every later pass.
  pub IsOnTime-step :
      (now i : ℕ) (e : Entry W) (t : Task W)
      → 0 < d
      → IsPaced e.1
      → IsOnTime now i e t
      → (sched_is_due (u32 now) t.next_ms ≡ runs_in d e.0 (suc i) e.1.period_ms)
        × IsOnTime
            (now + d)
            (suc i)
            e
            (if sched_is_due (u32 now) t.next_ms then reschedule (u32 now) t else t)
  IsOnTime-step now i (x, e) t pos (few, short) is =
      let p = e.period_ms in
      let a = x + d * i in
      let some_time : 0 < p = omega arith in
      let l = mod-lt a some_time in
      let step : (x + d * suc i) % p ≡ (if leb p (a % p + d) then a % p + d - p else a % p + d) =
        ap (λ n. n % p) (omega (arith, mul-suc d i)) ∙ mod_step a d p pos few in
      let due : sched_is_due (u32 now) t.next_ms ≡ leb p (a % p + d) =
        ap (sched_is_due (u32 now)) is.next
        ∙ due_after now p (a % p + d) (omega arith) (omega arith) short in
      let same = is.period in
      elim (Bool-cases (leb p (a % p + d))) [
        | inl over ↦
            let now_due = due ∙ over in
            let back : (x + d * suc i) % p ≡ a % p + d - p = rw over at step in
            rw now_due (
              ground (arith, back),
              record {
                period = same;
                fn = is.fn;
                next =
                    ap
                      (λ q.
                        if sched_is_due (u32 now) (u32 (t.next_ms + q))
                        then u32 (u32 now + q)
                        else u32 (t.next_ms + q))
                      same
                    ∙ rescheduled_after now p (a % p + d) d t.next_ms is.next (ground arith)
                        (omega arith) short few
                    ∙ ap (λ r. next_after (now + d) p (r + d)) (sym back);
              },
            )
        | inr under ↦
            let not_due = due ∙ under in
            let on : (x + d * suc i) % p ≡ a % p + d = rw under at step in
            rw not_due (
              ground (arith, on),
              record {
                period = same;
                fn = is.fn;
                next =
                    is.next
                    ∙ ap u32 (omega arith)
                    ∙ ap (λ r. next_after (now + d) p (r + d)) (sym on);
              },
            )
      ]
