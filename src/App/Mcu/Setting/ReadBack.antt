-- ===== src/App/Mcu/Setting/ReadBack.antt =====
-- A setting that a master writes is what it reads back (src/app/main_mcu.c).
use climate_node.Prelude.{
  ℕ, ◌+◌, ◌*◌, ◌^◌, ◌<◌, ◌≡◌, ◌∙◌, refl, sym, ap, subst, arith, true, none, some, if◌then◌else◌,
  List, [], ◌∷◌, ◌==◌, ◌||◌, ltb, u8, u16, shr, low_bits,
}
use climate_node.Service.Modbus.{Request}
use climate_node.Service.Modbus.Crc.{AllBytes}
use climate_node.Service.Modbus.Build.{rtu_frame}
use climate_node.Service.ModbusRegs.{RegMap, reg_value}
use climate_node.Service.ModbusRegs.Laws.{block}
use climate_node.Service.Storage.Persist.{FlashOps}
use climate_node.App.Mcu.{McuOps, Mcu, sync_registers}
use climate_node.App.Mcu.Handler.{be16_at, handle_modbus_request}
use climate_node.App.Mcu.Reply.{is_writable, request_bytes, reply, refusal}
use climate_node.App.Mcu.Answer.{ClockReads, IsFree, IsSent, handle-IsSent}
use climate_node.App.Mcu.Setting.{setting, sync-setting, writable_ge, write_setting_lem}

one_block :
    (regs : RegMap) (start v : ℕ)
    → start < 2 ^ 16
    → reg_value regs start ≡ some v
    → block regs start 0 1 ≡ some (u8 (shr v 8) ∷ low_bits v 8 ∷ [])
one_block regs start v small value =
    let at : u16 (start + 0) ≡ start = omega arith in rw (block, at, value) refl

-- The reply to a read, by the number of registers.
abbrev answer_of : Request → RegMap → ℕ → List ℕ
answer_of req regs quantity =
    if quantity == 0 || ltb 125 quantity
    then refusal req 3 3
    else elim (block regs (be16_at req 0) 0 quantity) [
      | none ↦ refusal req 3 2
      | some bs ↦ rtu_frame req.slave_addr 3 (quantity * 2 ∷ bs)
    ]

-- The reply to a read of one register.
one_register :
    (req : Request) (regs : RegMap) (v : ℕ)
    → req.function ≡ 3
    → be16_at req 2 ≡ 1
    → reg_value regs (be16_at req 0) ≡ some v
    → reply req regs ≡ rtu_frame req.slave_addr 3 (2 ∷ u8 (shr v 8) ∷ low_bits v 8 ∷ [])
one_register req regs v three one value =
    let is_read : (req.function == 3) ≡ true = ground arith in
    rw is_read
      (ap (answer_of req regs) one ∙ rw (one_block regs (be16_at req 0) v (omega arith) value) refl)

module _ {F D U : Type 0} (fops : FlashOps F) (ops : McuOps U) where
  -- After an accepted write, and whatever has happened since that kept the configuration, a read of that
  -- one register while the transmitter is free begins one transmission, which is accepted: the reply with
  -- the written value, the high byte first.
  pub write_read_back :
      (write read : Request) (c later : Mcu F D U)
      → write.function ≡ 6
      → write.data_len ≡ 4
      → is_writable (be16_at write 0) (be16_at write 2) ≡ true
      → later.app.cfg ≡ (handle_modbus_request fops ops write c).app.cfg
      → IsFree ops later.hw
      → read.function ≡ 3
      → read.data_len ≡ 4
      → AllBytes (read.slave_addr ∷ request_bytes read)
      → be16_at read 0 ≡ be16_at write 0
      → be16_at read 2 ≡ 1
      → let value = be16_at write 2 in
        IsSent ops later.hw
          (rtu_frame read.slave_addr 3 (2 ∷ u8 (shr value 8) ∷ low_bits value 8 ∷ []))
          (handle_modbus_request fops ops read later).hw
  write_read_back write read c later six four good kept free three four' bytes same one =
      let addr = be16_at write 0 in
      let after = handle_modbus_request fops ops write c in
      let high = writable_ge addr (be16_at write 2) good in
      let (valid, written, others) = write_setting_lem fops ops write c six four good in
      let value : reg_value (sync_registers ops later).regs (be16_at read 0)
          ≡ some (be16_at write 2) =
        ap (reg_value (sync_registers ops later).regs) same
        ∙ sync-setting fops ops later addr high
        ∙ ap (λ cfg. setting cfg addr) kept
        ∙ sym (sync-setting fops ops after addr high)
        ∙ written in
      subst (λ bs. IsSent ops later.hw bs (handle_modbus_request fops ops read later).hw)
        (one_register read (sync_registers ops later).regs (be16_at write 2) three one value)
        (handle-IsSent fops ops later.hw read later ClockReads.done free bytes (omega arith) four')
