-- ===== src/Service/ModbusRegs.antt =====
-- src/service/modbus_regs.c and include/service/modbus_regs.h: the register map that a master reads
-- and writes. The map and the output buffer are never null.
pub mod Laws
use climate_node.Prelude.{
  ℕ, zero, suc, ◌+◌, ◌-◌, ◌*◌, ◌%◌, ◌^◌, Bool, true, false, ◌||◌, Option, none, some, List, [], ◌∷◌,
  ℤ, pos, u8, u16, shr, low_bits, ltb, ◌==◌, if◌then◌else◌, set, to_u16, signed16,
}

-- `modbus_reg_map_t`
pub record RegMap : Type 0 where
  pub temp_filt_cd : ℤ
  pub rh_cp : ℕ
  pub dew_point_cd : ℤ
  pub relay_on : Bool
  pub dev_status : ℕ
  pub err_count : ℕ
  pub uptime_ms : ℕ
  pub cfg_margin_on_cd : ℤ
  pub cfg_margin_off_cd : ℤ
  pub cfg_sample_ms : ℕ

-- The addresses.
abbrev pub mb_reg_temp_filt : ℕ
mb_reg_temp_filt = 0x0000

abbrev pub mb_reg_rh : ℕ
mb_reg_rh = 0x0001

abbrev pub mb_reg_dew_point : ℕ
mb_reg_dew_point = 0x0002

abbrev pub mb_relay_state : ℕ
mb_relay_state = 0x0003

abbrev pub mb_dev_status : ℕ
mb_dev_status = 0x0004

abbrev pub mb_err_count : ℕ
mb_err_count = 0x0005

abbrev pub mb_uptime_lo : ℕ
mb_uptime_lo = 0x0006

abbrev pub mb_uptime_hi : ℕ
mb_uptime_hi = 0x0007

abbrev pub mb_cfg_margin_on : ℕ
mb_cfg_margin_on = 0x0100

abbrev pub mb_cfg_margin_off : ℕ
mb_cfg_margin_off = 0x0101

abbrev pub mb_cfg_sample_ms : ℕ
mb_cfg_sample_ms = 0x0102

unfoldable pub mb_regs_init : RegMap
mb_regs_init = record {
  temp_filt_cd = pos 0;
  rh_cp = 0;
  dew_point_cd = pos 0;
  relay_on = false;
  dev_status = 0;
  err_count = 0;
  uptime_ms = 0;
  cfg_margin_on_cd = pos 500;
  cfg_margin_off_cd = pos 700;
  cfg_sample_ms = 1000;
}

-- The first byte is at index `i`.
abbrev pub put_be16 : List ℕ → ℕ → ℕ → List ℕ
put_be16 buf i val = set (set buf i (u8 (shr val 8))) (i + 1) (low_bits val 8)

-- The `switch` of a read, none for an illegal address.
unfoldable pub reg_value : RegMap → ℕ → Option ℕ
reg_value regs addr =
    if addr == mb_reg_temp_filt
    then some (to_u16 regs.temp_filt_cd)
    else if addr == mb_reg_rh
    then some regs.rh_cp
    else if addr == mb_reg_dew_point
    then some (to_u16 regs.dew_point_cd)
    else if addr == mb_relay_state
    then some (if regs.relay_on then 1 else 0)
    else if addr == mb_dev_status
    then some regs.dev_status
    else if addr == mb_err_count
    then some regs.err_count
    else if addr == mb_uptime_lo
    then some (low_bits regs.uptime_ms 16)
    else if addr == mb_uptime_hi
    then some (low_bits (shr regs.uptime_ms 16) 16)
    else if addr == mb_cfg_margin_on
    then some (to_u16 regs.cfg_margin_on_cd)
    else if addr == mb_cfg_margin_off
    then some (to_u16 regs.cfg_margin_off_cd)
    else if addr == mb_cfg_sample_ms
    then some regs.cfg_sample_ms
    else none

-- The loop, from register `i` on for `n` more; it stops at the first illegal address, the registers
-- before it written.
unfoldable pub read_from : RegMap → ℕ → ℕ → ℕ → List ℕ → Bool × List ℕ
read_from regs start_addr i zero out_data = (true, out_data)
read_from regs start_addr i (suc n) out_data = elim (reg_value regs (u16 (start_addr + i))) [
  | none ↦ (false, out_data)
  | some val ↦ read_from regs start_addr (i + 1) n (put_be16 out_data (i * 2) val)
]

unfoldable pub mb_regs_read : RegMap → ℕ → ℕ → List ℕ → ℕ → Bool × List ℕ
mb_regs_read regs start_addr quantity out_data out_capacity =
    if quantity == 0 || ltb 125 quantity
    then (false, out_data)
    else if ltb out_capacity (quantity * 2)
    then (false, out_data)
    else read_from regs start_addr 0 quantity out_data

unfoldable pub mb_regs_write_single : RegMap → ℕ → ℕ → Bool × RegMap
mb_regs_write_single regs reg_addr value =
    if reg_addr == mb_cfg_margin_on
    then (true, record regs { cfg_margin_on_cd = signed16 value })
    else if reg_addr == mb_cfg_margin_off
    then (true, record regs { cfg_margin_off_cd = signed16 value })
    else if reg_addr == mb_cfg_sample_ms
    then if value == 0 then (false, regs) else (true, record regs { cfg_sample_ms = value })
    else (false, regs)
