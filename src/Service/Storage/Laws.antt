-- ===== src/Service/Storage/Laws.antt =====
-- What the rest of the program may rely on: a loaded configuration is always valid, a saved one is
-- loaded again, and the second slot stands in for a damaged first one.
use climate_node.Prelude.{
  ℕ, ◌*◌, ◌≤◌, ◌≡◌, refl, ◌∙◌, sym, ap, arith, Bool, true, false, ◌&&◌, ◌⊎◌, inl, inr, List, ◌++◌,
  length, take, drop, take-append_left, drop-append_left, take_all, ◌==◌, leb, Bool-cases, ◌<◌,
}
use climate_node.Core.Types.{Err}
use climate_node.Service.Storage.{
  DeviceConfig, config_magic, storage_finalize, storage_load_defaults, storage_validate,
}
use climate_node.Service.Storage.Flash.{
  Flash, config_bytes, config_of_bytes, is_erased, platform_flash_read_config,
  platform_flash_write_config,
}
use climate_node.Service.Storage.Persist.{FlashOps, host_flash, is_ok, storage_load, storage_save}
use climate_node.Service.Storage.Layout.{
  IsConfig, length-config_bytes, config_of_bytes-config_bytes, config_bytes-not_erased,
}

same : (n : ℕ) → (n == n) ≡ true
same n = ground arith

and_right : (a : Bool) {b : Bool} → (a && b) ≡ true → b ≡ true
and_right true h = h
and_right false h = absurd (ground arith)

-- A finalized configuration is valid, whatever it was, and keeps its settings.
pub finalize_valid :
    (c : DeviceConfig)
    → let d = storage_finalize c in
      (storage_validate d ≡ true)
      × (d.dew_margin_on_cd ≡ c.dew_margin_on_cd)
      × (d.dew_margin_off_cd ≡ c.dew_margin_off_cd)
      × (d.sample_period_ms ≡ c.sample_period_ms)
      × (d.reserved ≡ c.reserved)
unfolding storage_finalize storage_validate
finalize_valid c = (same _, refl, refl, refl, refl)

defaults_valid : storage_validate storage_load_defaults ≡ true
unfolding storage_load_defaults storage_validate
defaults_valid = same _

pub load_valid :
    {F : Type 0} (ops : FlashOps F) (f : F) (old : DeviceConfig)
    → let (e, c) = storage_load ops f old in
      (storage_validate c ≡ true)
      × ((e ≡ Err.ok) ⊎ ((e ≡ Err.not_ready) × (c ≡ storage_load_defaults)))
unfolding storage_load
load_valid ops f old =
    let (e0, c0) = ops.read_config 0 f old in
    let (e1, c1) = ops.read_config 1 f c0 in
    elim (Bool-cases (is_ok e0 && storage_validate c0)) [
      | inl h ↦ rw h (and_right (is_ok e0) h, inl refl)
      | inr h ↦ elim (Bool-cases (is_ok e1 && storage_validate c1)) [
        | inl k ↦ rw (h, k) (and_right (is_ok e1) k, inl refl)
        | inr k ↦ rw (h, k) (defaults_valid, inr (refl, refl))
      ]
    ]

valid_magic : (c : DeviceConfig) → storage_validate c ≡ true → c.magic ≡ config_magic
unfolding storage_validate
valid_magic c h = ground arith

load_first :
    (f : Flash) (c old : DeviceConfig)
    → storage_validate c ≡ true
    → platform_flash_read_config 0 f old ≡ (Err.ok, c)
    → storage_load host_flash f old ≡ (Err.ok, c)
unfolding storage_load
load_first f c old valid h = rw (h, valid) refl

load_second :
    (f : Flash) (c old : DeviceConfig)
    → storage_validate c ≡ true
    → (let (e, d) = platform_flash_read_config 0 f old in is_ok e && storage_validate d) ≡ false
    → ((out : DeviceConfig) → platform_flash_read_config 1 f out ≡ (Err.ok, c))
    → storage_load host_flash f old ≡ (Err.ok, c)
unfolding storage_load
load_second f c old valid h k = rw (h, k _, valid) refl

-- A slot with valid contents is read.
read_slot :
    (f : Flash) (slot : ℕ) (c old : DeviceConfig)
    → slot < 2
    → IsConfig c
    → storage_validate c ≡ true
    → take 28 (drop (slot * 28) f.cells) ≡ config_bytes c
    → platform_flash_read_config slot f old ≡ (Err.ok, c)
unfolding platform_flash_read_config
read_slot f slot c old h k valid bytes =
    let inside : leb 2 slot ≡ false = ground arith in
    rw
      (
        inside,
        bytes,
        config_bytes-not_erased c (valid_magic c valid),
        config_of_bytes-config_bytes c k,
      )
      refl

-- A valid configuration is saved to slot 0, leaves slot 1 as it was and is what the next load gives;
-- any other is refused and changes nothing.
pub save_load :
    (c : DeviceConfig) (f : Flash)
    → IsConfig c
    → 56 ≤ length f.cells
    → let (e, f') = storage_save host_flash c f in
      ((storage_validate c ≡ true)
        × (e ≡ Err.ok)
        × ((old : DeviceConfig) → storage_load host_flash f' old ≡ (Err.ok, c))
        × (drop 28 f'.cells ≡ drop 28 f.cells))
      ⊎ ((storage_validate c ≡ false) × (e ≡ Err.invalid_arg) × (f' ≡ f))
unfolding storage_save platform_flash_write_config
save_load c f k room = elim (Bool-cases (storage_validate c)) [
  | inl v ↦
      let size = length-config_bytes c k.padding in
      let slot0 : take 28 (config_bytes c ++ drop 28 f.cells) ≡ config_bytes c =
        ap (λ n. take n (config_bytes c ++ drop 28 f.cells)) (sym size)
        ∙ take-append_left (config_bytes c) (drop 28 f.cells) in
      let slot1 : drop 28 (config_bytes c ++ drop 28 f.cells) ≡ drop 28 f.cells =
        ap (λ n. drop n (config_bytes c ++ drop 28 f.cells)) (sym size)
        ∙ drop-append_left (config_bytes c) (drop 28 f.cells) in
      rw v (
        inl (
          refl,
          refl,
          λ old. load_first _ c old v (read_slot _ 0 c old (omega arith) k v slot0),
          slot1,
        ))
  | inr v ↦ rw v (inr (refl, refl, refl))
]

torn_refused :
    (f : Flash) (torn : List ℕ) (old : DeviceConfig)
    → take 28 f.cells ≡ torn
    → storage_validate (config_of_bytes torn) ≡ false
    → (let (e, d) = platform_flash_read_config 0 f old in is_ok e && storage_validate d) ≡ false
unfolding platform_flash_read_config
torn_refused f torn old h bad = elim (Bool-cases (is_erased torn)) [
  | inl e ↦ rw (h, e) refl
  | inr e ↦ rw (h, e) bad
]

-- If slot 0 holds bytes that are no valid configuration, as after a write that power loss cut short,
-- and slot 1 holds a valid one, that one is loaded.
pub load_backup :
    (c old : DeviceConfig) (torn : List ℕ) (writes : ℕ)
    → IsConfig c
    → storage_validate c ≡ true
    → length torn ≡ 28
    → storage_validate (config_of_bytes torn) ≡ false
    → storage_load host_flash (record { cells = torn ++ config_bytes c; write_count = writes }) old
      ≡ (Err.ok, c)
load_backup c old torn writes k valid size bad =
    let f : Flash = record { cells = torn ++ config_bytes c; write_count = writes } in
    let slot0 : take 28 f.cells ≡ torn =
      ap (λ n. take n f.cells) (sym size) ∙ take-append_left torn (config_bytes c) in
    let after : drop 28 f.cells ≡ config_bytes c =
      ap (λ n. drop n f.cells) (sym size) ∙ drop-append_left torn (config_bytes c) in
    let slot1 : take 28 (drop 28 f.cells) ≡ config_bytes c =
      ap (take 28) after
      ∙ take_all 28 (config_bytes c) (omega (arith, length-config_bytes c k.padding)) in
    load_second f c old valid (torn_refused f torn old slot0 bad)
      (λ out. read_slot f 1 c out (omega arith) k valid slot1)
