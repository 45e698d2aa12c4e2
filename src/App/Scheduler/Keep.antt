-- ===== src/App/Scheduler/Keep.antt =====
-- What every registered task keeps, a pass of the scheduler keeps.
use climate_node.Prelude.{
  ℕ, ◌≡◌, refl, ◌∙◌, sym, ap, inl, inr, some, List, [], ◌∷◌, ◌++◌, length, take, drop,
  take-append_left, drop-append_left, Bool-cases,
}
use Prim.Native.String.{String}
use climate_node.App.Scheduler.{Task, Scheduler, sched_is_due, sched_run_once}
use climate_node.App.Scheduler.Once.{
  due_effects, rescheduled, length-rescheduled, sched_run_once_lem,
}

-- A task as it is registered.
abbrev pub registered : {W : Type 0} → ℕ → (W → W) → String → Task W
registered period fn name = record { period_ms = period; next_ms = 0; fn = fn; name = name }

module _ {W : Type 0} (P : W → Type 0) where
  abbrev pub AllKeep : List (Task W) → Type 0
  AllKeep [] = Unit {0}
  AllKeep (t ∷ ts) = ((w : W) → P w → P (t.fn w)) × AllKeep ts

  -- The registered tasks are `mine`, and each keeps `P`.
  pub record IsKeeping (s : Scheduler W) (mine rest : List (Task W)) : Type 0 where
    pub tasks : s.tasks ≡ some (mine ++ rest)
    pub count : s.count ≡ length mine
    pub keep : AllKeep mine

  effects_keep :
      (now : ℕ) (ts : List (Task W)) (w : W) → AllKeep ts → P w → P (due_effects now ts w)
  effects_keep now [] w k p = p
  effects_keep now (t ∷ ts) w (k, ks) p = elim (Bool-cases (sched_is_due now t.next_ms)) [
    | inl due ↦ rw due (effects_keep now ts (t.fn w) ks (k w p))
    | inr idle ↦ rw idle (effects_keep now ts w ks p)
  ]

  rescheduled_keep : (now : ℕ) (ts : List (Task W)) → AllKeep ts → AllKeep (rescheduled now ts)
  rescheduled_keep now [] k = tt
  rescheduled_keep now (t ∷ ts) (k, ks) = elim (Bool-cases (sched_is_due now t.next_ms)) [
    | inl due ↦ rw due (k, rescheduled_keep now ts ks)
    | inr idle ↦ rw idle (k, rescheduled_keep now ts ks)
  ]

  pub pass_keep :
      (s : Scheduler W) (mine rest : List (Task W)) (now : ℕ) (w : W)
      → IsKeeping s mine rest
      → P w
      → let (any, s', w') = sched_run_once s now w in
        IsKeeping s' (rescheduled now mine) rest × P w'
  pass_keep s mine rest now w is p =
      let ran = sched_run_once_lem s (mine ++ rest) now w is.tasks in
      let first : take s.count (mine ++ rest) ≡ mine =
        ap (λ n. take n (mine ++ rest)) is.count ∙ take-append_left mine rest in
      let last : drop s.count (mine ++ rest) ≡ rest =
        ap (λ n. drop n (mine ++ rest)) is.count ∙ drop-append_left mine rest in
      rw ran (
        rw (first, last)
          (
            record {
              tasks = refl;
              count = is.count ∙ sym (length-rescheduled now mine);
              keep = rescheduled_keep now mine is.keep;
            },
            effects_keep now mine w is.keep p,
          ))
