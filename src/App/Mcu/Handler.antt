-- ===== src/App/Mcu/Handler.antt =====
-- The Modbus requests of src/app/main_mcu.c: a write to a setting, and the reply to every request.
use climate_node.Prelude.{
  ℕ, ◌+◌, ◌*◌, not, ◌&&◌, ◌||◌, Option, none, some, List, ◌++◌, u8, u16, u32, shl, ltb, ◌==◌,
  if◌then◌else◌, get_or, set, take, drop, replicate, signed16, codes,
}
use Prim.Native.Nat.{bit_or}
use climate_node.Core.Types.{Err, err_str}
use climate_node.Service.Logger.{
  LogLevel, logger_level_enabled, logger_write_str, logger_write_u32, logger_new_line,
}
use climate_node.Service.Modbus.{Request, put_crc, modbus_build_exception}
use climate_node.Service.ModbusRegs.{
  RegMap, mb_cfg_margin_on, mb_cfg_margin_off, mb_cfg_sample_ms, mb_regs_read, mb_regs_write_single,
}
use climate_node.Service.Storage.{DeviceConfig, storage_finalize}
use climate_node.Service.Storage.Persist.{FlashOps, is_ok}
use climate_node.App.Node.{app_update_config}
use climate_node.App.Mcu.{McuOps, Mcu, log_timestamp, sync_registers}

abbrev pub modbus_ex_illegal_func : ℕ
modbus_ex_illegal_func = 1

abbrev pub modbus_ex_illegal_data_addr : ℕ
modbus_ex_illegal_data_addr = 2

abbrev pub modbus_ex_illegal_data_val : ℕ
modbus_ex_illegal_data_val = 3

abbrev pub modbus_ex_slave_device_fail : ℕ
modbus_ex_slave_device_fail = 4

-- `resp_buf`; every byte that is sent has been written, so what it starts with does not matter.
abbrev pub resp_buf : List ℕ
resp_buf = replicate 260 0

-- `req->data[i]`
abbrev pub data_at : Request → ℕ → ℕ
data_at req i = elim req.bytes [ none ↦ 0 | some bytes ↦ get_or bytes i 0 ]

-- Two bytes of the request, the high one first.
abbrev pub be16_at : Request → ℕ → ℕ
be16_at req i = u16 (bit_or (shl (data_at req i) 8) (data_at req (i + 1)))

-- An exception reply, as every branch makes it: its length and the buffer.
abbrev pub exception : Request → ℕ → ℕ → List ℕ → ℕ × List ℕ
exception req function code buf = modbus_build_exception req.slave_addr function code buf 260

-- The changed settings, or none: an address that is no setting, or a period of 0.
abbrev pub changed_config : DeviceConfig → ℕ → ℕ → Option DeviceConfig
changed_config cfg reg_addr value =
    if reg_addr == mb_cfg_margin_on
    then some (record cfg { dew_margin_on_cd = signed16 value })
    else if reg_addr == mb_cfg_margin_off
    then some (record cfg { dew_margin_off_cd = signed16 value })
    else if reg_addr == mb_cfg_sample_ms
    then if value == 0 then none else some (record cfg { sample_period_ms = value })
    else none

-- `case 0x03`: the reply's length and the buffer.
unfoldable pub read_holding : Request → RegMap → ℕ × List ℕ
read_holding req regs =
    if not (req.data_len == 4)
    then exception req 0x03 modbus_ex_illegal_data_val resp_buf
    else let start_addr = be16_at req 0 in
      let quantity = be16_at req 2 in
      if quantity == 0 || ltb 125 quantity
      then exception req 0x03 modbus_ex_illegal_data_val resp_buf
      else let byte_count = quantity * 2 in
        if ltb 260 (5 + byte_count)
        then exception req 0x03 modbus_ex_slave_device_fail resp_buf
        else let buf = set (set (set resp_buf 0 req.slave_addr) 1 0x03) 2 (u8 byte_count) in
          let (done, tail) = mb_regs_read regs start_addr quantity (drop 3 buf) byte_count in
          if not done
          then exception req 0x03 modbus_ex_illegal_data_addr (take 3 buf ++ tail)
          else (3 + byte_count + 2, put_crc (take 3 buf ++ tail) (3 + byte_count))

-- The reply to an accepted write: the request's own address and value.
abbrev pub echo : Request → ℕ × List ℕ
echo req = (
  8,
  put_crc
      (set
        (set
          (set (set (set (set resp_buf 0 req.slave_addr) 1 0x06) 2 (data_at req 0)) 3
            (data_at req 1))
          4 (data_at req 2))
        5 (data_at req 3))
      6,
)

module _ {F D U : Type 0} (fops : FlashOps F) (ops : McuOps U) where
  -- The warning about a configuration that could not be saved.
  unfoldable pub log_save_error : Err → Mcu F D U → Mcu F D U
  log_save_error e c =
      if not (is_ok e) && logger_level_enabled LogLevel.warn c.log
      then (let (now, hw) = ops.millis c.hw in
          record c {
            hw = hw;
            log = logger_new_line (
                logger_write_str (codes (err_str e))
                  (logger_write_str (codes "CFG SAVE ERROR=") (log_timestamp now c.log)));
          })
      else c

  unfoldable pub apply_modbus_write_to_app : Mcu F D U → ℕ → ℕ → Mcu F D U
  apply_modbus_write_to_app c reg_addr value = elim (changed_config c.app.cfg reg_addr value) [
    | none ↦ c
    | some tmp_cfg ↦
        let (e, app, world) = app_update_config fops c.app (storage_finalize tmp_cfg) c.world in
        log_save_error e (record c { app = app; world = world })
  ]

  -- `case 0x06`: the reply's length and the buffer, and the program.
  unfoldable pub write_single : Request → Mcu F D U → (ℕ × List ℕ) × Mcu F D U
  write_single req c =
      if not (req.data_len == 4)
      then (exception req 0x06 modbus_ex_illegal_data_val resp_buf, c)
      else let reg_addr = be16_at req 0 in
        let value = be16_at req 2 in
        let (done, regs) = mb_regs_write_single c.regs reg_addr value in
        if not done
        then (exception req 0x06 modbus_ex_illegal_data_addr resp_buf, record c { regs = regs })
        else (echo req, apply_modbus_write_to_app (record c { regs = regs }) reg_addr value)

  -- The `switch` on the function, after `sync_registers`.
  unfoldable pub respond : Request → Mcu F D U → (ℕ × List ℕ) × Mcu F D U
  respond req c =
      if req.function == 0x03
      then (read_holding req c.regs, c)
      else if req.function == 0x06
      then write_single req c
      else (exception req req.function modbus_ex_illegal_func resp_buf, c)

  -- The transmission, whose refusal is ignored, and its log line.
  unfoldable pub send_response : ℕ → List ℕ → Mcu F D U → Mcu F D U
  send_response resp_len buf c =
      if ltb 0 resp_len
      then (let (sent, hw) = ops.tx_dma_async (take resp_len buf) c.hw in
          if logger_level_enabled LogLevel.debug c.log
          then (let (now, hw') = ops.millis hw in
              record c {
                hw = hw';
                log = logger_new_line (
                    logger_write_u32 (u32 resp_len)
                      (logger_write_str (codes "TX len=") (log_timestamp now c.log)));
              })
          else record c { hw = hw })
      else c

  unfoldable pub handle_modbus_request : Request → Mcu F D U → Mcu F D U
  handle_modbus_request req c =
      let ((resp_len, buf), d) = respond req (sync_registers ops c) in send_response resp_len buf d
