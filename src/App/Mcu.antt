-- ===== src/App/Mcu.antt =====
-- src/app/main_mcu.c: the program of the microcontroller. Its objects and the static variables of the
-- services are one record; the clock, the UART and the watchdog are operations on the hardware's state
-- `U`, so that two reads of the clock may differ. The context's pointers are never null.
pub mod Handler
pub mod Loop
pub mod Reply
pub mod Setting
pub mod Tickets
pub mod Watchdog
pub mod Invariant
pub mod Boot
pub mod Reach
pub mod Reception
pub mod Answer
use climate_node.Prelude.{ℕ, ◌+◌, ◌%◌, ◌^◌, Bool, List, ℤ, to_u16, u16, codes, signed16}
use climate_node.Core.Types.{ResetCause}
use climate_node.Core.Controller.{CtrlState}
use climate_node.Core.Diagnostics.{Diagnostics, diag_uptime_ms}
use climate_node.Service.Logger.{
  Logger, logger_write_char, logger_write_str, logger_write_u32_padded,
}
use climate_node.Service.ModbusRegs.{RegMap}
use climate_node.Service.ModbusServer.{Server}
use climate_node.App.Node.{App, World, app_report}

-- The functions of src/platform/stm32f1/platform_stm32f1.c and src/bsp/stm32f1/uart.c that the program calls:
-- `platform_millis`, `uart1_tx_dma_async`, `uart1_async_init` with the server's callback, and those on the
-- reset, the watchdog and the sleep. A transmission is given the bytes that the buffer holds at the call.
pub record McuOps (U : Type 0) : Type 0 where
  pub platform_init : U → U
  pub reset_cause_get : U → ResetCause × U
  pub wdg_init : ℕ → U → U
  pub wfi : U → U
  pub millis : U → ℕ × U
  pub tx_dma_async : List ℕ → U → Bool × U
  pub async_init : U → U
  pub wdg_feed : U → U

-- `mcu_ctx_t` with what it points to, the server's static variables, the log and the rest of the
-- program's world.
pub record Mcu (F D U : Type 0) : Type 0 where
  pub app : App D
  pub diag : Diagnostics
  pub regs : RegMap
  pub srv : Server U
  pub initialized : Bool
  pub log : Logger
  pub world : World F D
  pub hw : U

-- The place of a state in its enumeration.
abbrev pub state_code : CtrlState → ℕ
state_code CtrlState.init = 0
state_code CtrlState.warmup = 1
state_code CtrlState.run = 2
state_code CtrlState.sensor_fault = 3
state_code CtrlState.math_fault = 4
state_code CtrlState.safe = 5

unfoldable pub log_timestamp : ℕ → Logger → Logger
log_timestamp ms l =
    logger_write_str (codes "] ") (logger_write_u32_padded ms 6 (logger_write_char 0x5b l))

module _ {F D U : Type 0} (ops : McuOps U) where
  unfoldable pub sync_registers : Mcu F D U → Mcu F D U
  sync_registers c =
      let r = app_report c.app in
      let (now, hw) = ops.millis c.hw in
      record c {
        hw = hw;
        regs = record {
          temp_filt_cd = signed16 (to_u16 r.filtered_temp_cd);
          rh_cp = u16 r.humidity_cp;
          dew_point_cd = signed16 (to_u16 r.dew_point_cd);
          relay_on = r.relay_on;
          dev_status = state_code r.state;
          err_count = u16 c.diag.fault_events;
          uptime_ms = diag_uptime_ms c.diag now;
          cfg_margin_on_cd = c.app.cfg.dew_margin_on_cd;
          cfg_margin_off_cd = c.app.cfg.dew_margin_off_cd;
          cfg_sample_ms = c.app.cfg.sample_period_ms;
        };
      }
