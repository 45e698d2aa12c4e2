-- ===== src/Bsp/Stm32.antt =====
-- src/platform/stm32f1/platform_stm32f1.c: the platform functions of the microcontroller on its registers.
-- Addresses that are passed in are never null, and lengths never 0.
pub mod Flash
pub mod Laws
pub mod Persist
use climate_node.Prelude.{
  ℕ, zero, suc, ◌+◌, ◌-◌, ◌*◌, ◌/◌, ◌%◌, ◌^◌, Bool, true, false, Option, none, some, List, [], ◌∷◌,
  u8, u32, low_bits, shr, ltb, ◌==◌, if◌then◌else◌,
}
use Prim.Native.Nat.{bit_or}
use climate_node.Platform.{Board}
use climate_node.Core.Controller.{Controller, ctrl_force_emergency_shutdown}
use climate_node.Core.Types.{ResetCause}
use climate_node.Bsp.Registers.{Bus, has_bit, clear_field, or_reg}
use climate_node.Bsp.Uart.{Uart, nvic_iser0, uart1_set_rs485_pin}

-- The addresses of the registers.
abbrev pub rcc_apb2enr : ℕ
rcc_apb2enr = 0x40021018

abbrev pub rcc_csr : ℕ
rcc_csr = 0x40021024

abbrev pub gpioc_crh : ℕ
gpioc_crh = 0x40011004

abbrev pub gpioc_bsrr : ℕ
gpioc_bsrr = 0x4001100c

abbrev pub gpioc_brr : ℕ
gpioc_brr = 0x40011010

abbrev pub gpiob_base : ℕ
gpiob_base = 0x40010c00

abbrev pub gpiob_crl : ℕ
gpiob_crl = 0x40010c00

abbrev pub gpiob_brr : ℕ
gpiob_brr = 0x40010c10

abbrev pub systick_ctrl : ℕ
systick_ctrl = 0xe000e010

abbrev pub systick_load : ℕ
systick_load = 0xe000e014

abbrev pub systick_val : ℕ
systick_val = 0xe000e018

abbrev platform_clock_hz : ℕ
platform_clock_hz = 8000000

abbrev pub systick_reload_1ms : ℕ
systick_reload_1ms = platform_clock_hz / 1000 - 1

abbrev pub pwr_cr : ℕ
pwr_cr = 0x40007000

abbrev pub bkp_dr1 : ℕ
bkp_dr1 = 0x40006c04

abbrev pub iwdg_kr : ℕ
iwdg_kr = 0x40003000

abbrev pub iwdg_pr : ℕ
iwdg_pr = 0x40003004

abbrev pub iwdg_rlr : ℕ
iwdg_rlr = 0x40003008

abbrev pub iwdg_sr : ℕ
iwdg_sr = 0x4000300c

-- Their bits and keys.
abbrev rcc_apb2enr_iopcen : ℕ
rcc_apb2enr_iopcen = 2 ^ 4

abbrev rcc_apb2enr_iopben : ℕ
rcc_apb2enr_iopben = 2 ^ 3

abbrev systick_ctrl_enable : ℕ
systick_ctrl_enable = 1

abbrev systick_ctrl_tickint : ℕ
systick_ctrl_tickint = 2 ^ 1

abbrev systick_ctrl_clksource : ℕ
systick_ctrl_clksource = 2 ^ 2

abbrev pwr_cr_pvde : ℕ
pwr_cr_pvde = 2 ^ 4

abbrev pwr_cr_pls_2v9 : ℕ
pwr_cr_pls_2v9 = 5 * 2 ^ 5

abbrev pvd_irq_bit : ℕ
pvd_irq_bit = 2 ^ 1

abbrev iwdg_kr_key_start : ℕ
iwdg_kr_key_start = 0xcccc

abbrev iwdg_kr_key_reload : ℕ
iwdg_kr_key_reload = 0xaaaa

abbrev iwdg_kr_key_unlock : ℕ
iwdg_kr_key_unlock = 0x5555

-- The flags of the reset register, in the order of the tests.
abbrev pub cause_of_flags : ℕ → ResetCause
cause_of_flags csr =
    if has_bit csr 29
    then ResetCause.watchdog
    else if has_bit csr 28
    then ResetCause.software
    else if has_bit csr 26
    then ResetCause.external
    else if has_bit csr 27
    then ResetCause.power_on
    else ResetCause.unknown

-- The value that the watchdog counts down from.
abbrev pub wdg_reload : ℕ → ℕ
wdg_reload timeout_ms =
    let reload_val = u32 (timeout_ms * 5) / 8 in
    let low = if ltb 4095 reload_val then 4095 else reload_val in if ltb low 1 then 1 else low

-- `SystemTicks`, which the interrupt of Bsp/Startup counts up, is an argument.
unfoldable pub platform_millis : ℕ → ℕ
platform_millis system_ticks = system_ticks

-- `g_relay_state`, as `platform_relay_set` left it.
unfoldable pub platform_relay_get : Bool → Bool
platform_relay_get relay_state = relay_state

module _ {H : Type 0} (bus : Bus H) where
  unfoldable pub platform_reset_cause_get : H → ResetCause × H
  platform_reset_cause_get h =
      let (csr, h1) = bus.load rcc_csr h in (cause_of_flags csr, or_reg bus rcc_csr (2 ^ 24) h1)

  unfoldable pub platform_pvd_init : H → H
  platform_pvd_init h =
      let h1 = or_reg bus 0x4002101c (2 ^ 28 + 2 ^ 27) h in
      let h2 = bus.store pwr_cr (bit_or pwr_cr_pls_2v9 pwr_cr_pvde) h1 in
      let h3 = or_reg bus 0x40010400 (2 ^ 16) h2 in
      let h4 = or_reg bus 0x40010408 (2 ^ 16) h3 in or_reg bus nvic_iser0 pvd_irq_bit h4

  -- Saves the first byte of the data.
  unfoldable pub platform_emergency_backup_save : ℕ → H → H
  platform_emergency_backup_save byte h = bus.store bkp_dr1 byte (or_reg bus pwr_cr (2 ^ 8) h)

  -- Whether a byte was loaded, and the byte.
  unfoldable pub platform_emergency_backup_load : H → (Bool × ℕ) × H
  platform_emergency_backup_load h =
      let (dr1, h1) = bus.load bkp_dr1 h in ((true, u8 (low_bits dr1 8)), h1)

  -- The relay's output and `g_relay_state`, which is returned.
  unfoldable pub platform_relay_set : Bool → H → Bool × H
  platform_relay_set on h = (on, bus.store (if on then gpioc_brr else gpioc_bsrr) (2 ^ 13) h)

  -- `PVD_IRQHandler`, on the controller that `g_app_controller` stands for.
  unfoldable pub pvd_irq_handler : Controller → Board → H → Controller × Board × H
  unfolding ctrl_force_emergency_shutdown
  pvd_irq_handler c b h =
      let (c', b') = ctrl_force_emergency_shutdown c b in (c', b', bus.store 0x40010414 (2 ^ 16) h)

  unfoldable pub platform_wdg_feed : H → H
  platform_wdg_feed h = bus.store iwdg_kr iwdg_kr_key_reload h

  -- A loop that waits until a bit of the watchdog's status is clear, on fuel: none if it runs out.
  unfoldable pub wait_clear : ℕ → ℕ → H → Option H
  wait_clear zero bit h = none
  wait_clear (suc n) bit h =
      let (sr, h') = bus.load iwdg_sr h in
      let rest = wait_clear n bit h' in if has_bit sr bit then rest else some h'

  unfoldable pub platform_wdg_init : ℕ → ℕ → H → Option H
  platform_wdg_init fuel timeout_ms h =
      elim (wait_clear fuel 0 (bus.store iwdg_pr 4 (bus.store iwdg_kr iwdg_kr_key_unlock h))) [
        | none ↦ none
        | some h1 ↦ elim (wait_clear fuel 1 (bus.store iwdg_rlr (wdg_reload timeout_ms) h1)) [
          | none ↦ none
          | some h2 ↦ some (bus.store iwdg_kr iwdg_kr_key_start h2)
        ]
      ]

  unfoldable pub stm32f1_platform_init : {W : Type 0} → Uart W → H → Uart W × H
  stm32f1_platform_init u h =
      let h1 = or_reg bus rcc_apb2enr (bit_or rcc_apb2enr_iopcen rcc_apb2enr_iopben) h in
      let (crh, h2) = bus.load gpioc_crh h1 in
      let h3 = bus.store gpioc_crh (bit_or (clear_field crh 20 4) (2 * 2 ^ 20)) h2 in
      let (crl, h4) = bus.load gpiob_crl (bus.store gpioc_bsrr (2 ^ 13) h3) in
      let h5 = bus.store gpiob_crl (bit_or (clear_field crl 0 4) 1) h4 in
      let h6 = bus.store systick_load systick_reload_1ms (bus.store gpiob_brr 1 h5) in
      let h7 =
        bus.store systick_ctrl
          (bit_or (bit_or systick_ctrl_clksource systick_ctrl_tickint) systick_ctrl_enable)
          (bus.store systick_val 0 h6) in
      let (u', h8) = uart1_set_rs485_pin bus gpiob_base 0 u h7 in (u', platform_pvd_init h8)
