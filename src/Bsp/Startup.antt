-- ===== src/Bsp/Startup.antt =====
-- src/bsp/stm32f1/startup_stm32f103.c: the vector table, the tick interrupt and what the reset handler does
-- before `main`. The addresses of the linker script are parameters; memory is the word at each address.
pub mod Laws
use climate_node.Prelude.{
  ℕ, zero, suc, ◌+◌, ◌*◌, ◌%◌, ◌^◌, ◌≤◌, ◌<◌, ◌≡◌, ◌≢◌, ◌⊎◌, ◌∙◌, refl, sym, ap, inl, inr, arith,
  Bool, true, false, Option, none, some, ◌==◌, ltb, leb, u32, ◌&&◌, if◌then◌else◌, List, [], ◌∷◌,
  ◌++◌, replicate,
}

-- What the entries of the table point to; `no_handler` is a reserved entry.
pub data Vector : Type 0 where
  stack_top no_handler default_handler reset_handler nmi_handler hard_fault_handler : Vector
  mem_manage_handler bus_fault_handler usage_fault_handler sv_call_handler : Vector
  debug_mon_handler pend_sv_handler sys_tick_handler usart1_irq_handler : Vector

-- The table, from index 0 to 67.
abbrev pub g_isr_vector : List Vector
g_isr_vector =
    (stack_top ∷ reset_handler ∷ nmi_handler ∷ hard_fault_handler ∷ mem_manage_handler ∷ [])
    ++ (bus_fault_handler ∷ usage_fault_handler ∷ [])
    ++ replicate 4 no_handler
    ++ (sv_call_handler ∷ debug_mon_handler ∷ no_handler ∷ no_handler ∷ [])
    ++ (pend_sv_handler ∷ sys_tick_handler ∷ [])
    ++ replicate 36 default_handler
    ++ (usart1_irq_handler ∷ [])
    ++ replicate 14 default_handler

unfoldable pub sys_tick : ℕ → ℕ
sys_tick system_ticks = u32 (system_ticks + 1)

abbrev pub Memory : Type 0
Memory = ℕ → ℕ

abbrev pub store_word : ℕ → ℕ → Memory → Memory
store_word addr val mem = λ a. if a == addr then val else mem a

-- The loop that copies the initial values, on fuel: none if it runs out.
unfoldable pub copy_data : ℕ → ℕ → ℕ → ℕ → Memory → Option Memory
copy_data zero src dst edata mem = none
copy_data (suc n) src dst edata mem =
    let rest = copy_data n (src + 4) (dst + 4) edata (store_word dst (mem src) mem) in
    if ltb dst edata then rest else some mem

-- The loop that clears the rest.
unfoldable pub zero_bss : ℕ → ℕ → ℕ → Memory → Option Memory
zero_bss zero dst ebss mem = none
zero_bss (suc n) dst ebss mem =
    let rest = zero_bss n (dst + 4) ebss (store_word dst 0 mem) in
    if ltb dst ebss then rest else some mem

-- The addresses that the linker gives.
pub record Layout : Type 0 where
  pub sidata : ℕ
  pub sdata : ℕ
  pub edata : ℕ
  pub sbss : ℕ
  pub ebss : ℕ

-- The memory when `main` is called.
unfoldable pub reset : ℕ → Layout → Memory → Option Memory
reset fuel l mem =
    elim (copy_data fuel l.sidata l.sdata l.edata (store_word 0xe000ed08 0x08000000 mem)) [
      | none ↦ none
      | some copied ↦ zero_bss fuel l.sbss l.ebss copied
    ]
