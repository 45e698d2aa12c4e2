-- ===== src/App/Scheduler/Register.antt =====
-- The table of tasks: what `sched_register` accepts, and that it never writes outside the array.
use climate_node.Prelude.{
  ℕ, suc, ◌+◌, ◌^◌, ◌≤◌, ◌<◌, ◌≡◌, refl, ◌∙◌, true, false, Option, none, some, List, [], ◌∷◌, arith,
  length, length-set, set, take, leb, ◌==◌, ◌⊎◌, inl, inr, Bool-cases, zero, subst,
}
use Prim.Native.String.{String}
use climate_node.App.Scheduler.{Task, Scheduler, sched_init, sched_register}
use climate_node.App.Scheduler.Once.{AllTimed}

module _ {W : Type 0} where
  -- The array has `capacity` slots; the registered tasks are the first `count`, each with a period of
  -- at least 1 below 2 ^ 31 and a time that fits 32 bits.
  pub record IsTable (s : Scheduler W) (ts : List (Task W)) : Type 0 where
    pub stored : s.tasks ≡ some ts
    pub sized : length ts ≡ s.capacity
    pub fits : s.count ≤ s.capacity
    pub timed : AllTimed (take s.count ts)

  pub sched_init-IsTable : (ts : List (Task W)) → IsTable (sched_init (some ts) (length ts)) ts
  unfolding sched_init
  sched_init-IsTable ts = record { stored = refl; sized = refl; fits = omega arith; timed = tt }

  AllTimed-set :
      (n : ℕ) (ts : List (Task W)) (t : Task W)
      → n < length ts
      → AllTimed (take n ts)
      → AllTimed (t ∷ [])
      → AllTimed (take (suc n) (set ts n t))
  AllTimed-set n [] t h k p = absurd (omega arith)
  AllTimed-set zero (u ∷ ts) t h k p = p
  AllTimed-set (suc n) (u ∷ ts) t h k p =
      let (a, b, c, d) = k in (a, b, c, AllTimed-set n ts t (omega arith) d p)

  -- On a well-formed table, with a period below 2 ^ 31: a registration is refused for no function, for
  -- period 0 or on a full table, and then changes nothing; or else the period is at least 1, the task
  -- takes the next slot, due at time 0, the count goes up by one and the table stays well-formed.
  pub sched_register-IsTable :
      (s : Scheduler W) (ts : List (Task W)) (period : ℕ) (fn : Option (W → W)) (name : String)
      → IsTable s ts
      → period < 2 ^ 31
      → let (done, s') = sched_register s period fn name in
        ((done ≡ false) × (s' ≡ s) × ((fn ≡ none) ⊎ ((period ≡ 0) ⊎ (s.count ≡ s.capacity))))
        ⊎ ((f : W → W) × (fn ≡ some f)
            × (done ≡ true)
            × (0 < period)
            × IsTable s'
                (set ts s.count (record { period_ms = period; next_ms = 0; fn = f; name = name }))
            × (s'.count ≡ s.count + 1))
  unfolding sched_register
  sched_register-IsTable s ts period none name h k = rw h.stored (inl (refl, refl, inl refl))
  sched_register-IsTable s ts period (some f) name h k = elim (Bool-cases (period == 0)) [
    | inl e ↦ rw (h.stored, e) (inl (refl, refl, inr (inl (ground arith))))
    | inr p ↦ elim (Bool-cases (leb s.capacity s.count)) [
      | inl e ↦ rw (h.stored, p, e) (inl (refl, refl, inr (inr (ground (arith, h.fits)))))
      | inr e ↦
          let pos : 0 < period = ground arith in
          let room : s.count < s.capacity = ground arith in
          let task : Task W = record { period_ms = period; next_ms = 0; fn = f; name = name } in
          let next : suc s.count ≡ s.count + 1 = omega arith in
          rw (h.stored, p, e)
            (inr (
              f,
              refl,
              refl,
              pos,
              record {
                stored = refl;
                sized = length-set ts s.count _ ∙ h.sized;
                fits = omega arith;
                timed =
                    subst (λ c. AllTimed (take c (set ts s.count task))) next
                      (AllTimed-set s.count ts task (rw h.sized room) h.timed
                        (pos, k, omega arith, tt));
              },
              refl,
            ))
    ]
  ]
