-- ===== src/App/Mcu/Setting.antt =====
-- What a write request does to the program: the setting it changes, as the next read shows it.
pub mod ReadBack
use climate_node.Prelude.{
  ℕ, ◌^◌, ◌≤◌, ◌<◌, ◌≡◌, ◌≢◌, ◌⊎◌, ◌∙◌, refl, sym, ap, inl, inr, arith, true, false, Option, none,
  some, List, if◌then◌else◌, ◌==◌, Bool-cases, to_u16, signed16, to_u16-signed16,
}
use climate_node.Core.Types.{Err}
use climate_node.Core.Diagnostics.{Diagnostics}
use climate_node.Service.Modbus.{Request}
use climate_node.Service.ModbusRegs.{reg_value, mb_regs_write_single}
use climate_node.Service.Storage.{DeviceConfig, storage_finalize, storage_validate}
use climate_node.Service.Storage.Laws.{finalize_valid}
use climate_node.Service.Storage.Persist.{FlashOps, is_ok, storage_save}
use climate_node.App.Node.{App, World, app_update_config, app_apply_config}
use climate_node.App.Mcu.{McuOps, Mcu, sync_registers}
use climate_node.App.Mcu.Handler.{
  be16_at, changed_config, apply_modbus_write_to_app, log_save_error, write_single, respond,
  send_response, handle_modbus_request,
}
use climate_node.App.Mcu.Reply.{is_writable, writable_lem}

-- The setting at an address.
abbrev setting : DeviceConfig → ℕ → Option ℕ
setting cfg addr =
    if addr == 0x100
    then some (to_u16 cfg.dew_margin_on_cd)
    else if addr == 0x101
    then some (to_u16 cfg.dew_margin_off_cd)
    else if addr == 0x102
    then some cfg.sample_period_ms
    else none

-- What logging and sending leave alone.
abbrev pub kept : {F D U : Type 0} → Mcu F D U → App D × Diagnostics × World F D
kept c = (c.app, c.diag, c.world)

-- Finalizing a configuration keeps its settings.
finalize-setting :
    (cfg : DeviceConfig) (addr : ℕ) → setting (storage_finalize cfg) addr ≡ setting cfg addr
unfolding storage_finalize
finalize-setting cfg addr = refl

writable_cases :
    (addr value : ℕ)
    → is_writable addr value ≡ true
    → (addr ≡ 0x100) ⊎ ((addr ≡ 0x101) ⊎ ((addr ≡ 0x102) × ((value == 0) ≡ false)))
writable_cases addr value h = ground arith

writable_ge : (addr value : ℕ) → is_writable addr value ≡ true → 0x100 ≤ addr
writable_ge addr value h = ground arith

-- The configuration with one setting changed.
record IsChanged (cfg : DeviceConfig) (addr value : ℕ) (d : DeviceConfig) : Type 0 where
  changed : changed_config cfg addr value ≡ some d
  reads : setting d addr ≡ some value
  others : (other : ℕ) → other ≢ addr → setting d other ≡ setting cfg other

change :
    (cfg : DeviceConfig) (addr value : ℕ)
    → value < 2 ^ 16
    → is_writable addr value ≡ true
    → (d : DeviceConfig) × IsChanged cfg addr value d
change cfg addr value small h = elim (writable_cases addr value h) [
  | inl e ↦ (
    record cfg { dew_margin_on_cd = signed16 value },
    rw e record {
      changed = refl;
      reads = ap some (to_u16-signed16 value small);
      others = λ other ne. ground arith;
    },
  )
  | inr (inl e) ↦ (
    record cfg { dew_margin_off_cd = signed16 value },
    rw e record {
      changed = refl;
      reads = ap some (to_u16-signed16 value small);
      others = λ other ne. ground arith;
    },
  )
  | inr (inr (e, positive)) ↦ (
    record cfg { sample_period_ms = value },
    rw e record { changed = rw positive refl; reads = refl; others = λ other ne. ground arith },
  )
]

module _ {F D U : Type 0} (fops : FlashOps F) (ops : McuOps U) where
  -- The settings are read from the application's configuration.
  sync-setting :
      (c : Mcu F D U) (addr : ℕ)
      → 0x100 ≤ addr
      → reg_value (sync_registers ops c).regs addr ≡ setting c.app.cfg addr
  unfolding sync_registers reg_value
  sync-setting c addr h = ground arith

  pub save_error-kept : (e : Err) (c : Mcu F D U) → kept (log_save_error fops ops e c) ≡ kept c
  unfolding log_save_error
  save_error-kept e c = ground arith

  pub send-kept :
      (n : ℕ) (buf : List ℕ) (c : Mcu F D U) → kept (send_response fops ops n buf c) ≡ kept c
  unfolding send_response
  send-kept n buf c = ground arith

  -- A finalized configuration is valid, so it is taken over whether or not it can be saved.
  update-cfg :
      (app : App D) (cfg : DeviceConfig) (w : World F D)
      → (app_update_config fops app (storage_finalize cfg) w).1.cfg ≡ storage_finalize cfg
  unfolding app_update_config app_apply_config
  update-cfg app cfg w =
      elim (Bool-cases (is_ok (storage_save fops (storage_finalize cfg) w.flash).0)) [
        | inl saved ↦ rw ((finalize_valid cfg).0, saved) refl
        | inr failed ↦ rw ((finalize_valid cfg).0, failed) refl
      ]

  -- What the application's configuration becomes.
  apply-cfg :
      (c : Mcu F D U) (addr value : ℕ) (cfg : DeviceConfig)
      → changed_config c.app.cfg addr value ≡ some cfg
      → (apply_modbus_write_to_app fops ops c addr value).app.cfg ≡ storage_finalize cfg
  unfolding apply_modbus_write_to_app
  apply-cfg c addr value cfg h =
      rw (apply_modbus_write_to_app, h)
        (ap (λ k. k.0.cfg) (save_error-kept _ _) ∙ update-cfg c.app cfg c.world)

  respond-write :
      (req : Request) (c : Mcu F D U)
      → req.function ≡ 6
      → req.data_len ≡ 4
      → is_writable (be16_at req 0) (be16_at req 2) ≡ true
      → (respond fops ops req c).1
        ≡ apply_modbus_write_to_app fops ops
            (record c { regs = (mb_regs_write_single c.regs (be16_at req 0) (be16_at req 2)).1 })
            (be16_at req 0)
            (be16_at req 2)
  unfolding respond write_single
  respond-write req c six four good =
      let same = writable_lem c.regs (be16_at req 0) (be16_at req 2) ∙ good in
      rw (six, four, same) refl

  sync-app : (c : Mcu F D U) → (sync_registers ops c).app ≡ c.app
  unfolding sync_registers
  sync-app c = refl

  -- After an accepted write request the written register reads as the value and every other setting
  -- as before, and the configuration is valid.
  pub write_setting_lem :
      (req : Request) (c : Mcu F D U)
      → req.function ≡ 6
      → req.data_len ≡ 4
      → is_writable (be16_at req 0) (be16_at req 2) ≡ true
      → let after = handle_modbus_request fops ops req c in
        let regs = (sync_registers ops after).regs in
        (storage_validate after.app.cfg ≡ true)
        × (reg_value regs (be16_at req 0) ≡ some (be16_at req 2))
        × ((other : ℕ)
            → 0x100 ≤ other
            → other ≢ be16_at req 0
            → reg_value regs other ≡ reg_value (sync_registers ops c).regs other)
  unfolding handle_modbus_request
  write_setting_lem req c six four good =
      let addr = be16_at req 0 in
      let value = be16_at req 2 in
      let (d, is) = change c.app.cfg addr value (omega arith) good in
      let after = handle_modbus_request fops ops req c in
      let cfg : after.app.cfg ≡ storage_finalize d =
        ap (λ k. k.0.cfg) (send-kept _ _ _)
        ∙ ap (λ p. p.app.cfg) (respond-write req (sync_registers ops c) six four good)
        ∙ apply-cfg _ addr value d
            (ap (λ app. changed_config app.cfg addr value) (sync-app c) ∙ is.changed) in
      let same : (a : ℕ) → setting after.app.cfg a ≡ setting d a =
        λ a. ap (λ x. setting x a) cfg ∙ finalize-setting d a in
      (
        ap storage_validate cfg ∙ (finalize_valid d).0,
        sync-setting after addr (writable_ge addr value good) ∙ same addr ∙ is.reads,
        λ other ge ne.
            sync-setting after other ge
            ∙ same other
            ∙ is.others other ne
            ∙ sym (sync-setting c other ge),
      )
