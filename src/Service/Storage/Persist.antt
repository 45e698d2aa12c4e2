-- ===== src/Service/Storage/Persist.antt =====
-- `storage_load` and `storage_save` of src/service/storage.c, on the two flash functions that
-- include/platform/platform.h declares and each platform implements.
use climate_node.Prelude.{ℕ, Bool, true, false, not, ◌&&◌, if◌then◌else◌}
use climate_node.Core.Types.{Err}
use climate_node.Service.Storage.{DeviceConfig, storage_load_defaults, storage_validate}
use climate_node.Service.Storage.Flash.{
  Flash, platform_flash_read_config, platform_flash_write_config,
}

abbrev pub is_ok : Err → Bool
is_ok Err.ok = true
is_ok _ = false

-- The flash functions of a platform whose flash memory is an `F`.
pub record FlashOps (F : Type 0) : Type 0 where
  pub read_config : ℕ → F → DeviceConfig → Err × DeviceConfig
  pub write_config : ℕ → DeviceConfig → F → Err × F

-- Those of the host program.
abbrev pub host_flash : FlashOps Flash
host_flash = record {
  read_config = platform_flash_read_config;
  write_config = platform_flash_write_config;
}

module _ {F : Type 0} (ops : FlashOps F) where
  -- Slot 0 is tried first, then slot 1; the status says whether the defaults were loaded instead.
  unfoldable pub storage_load : F → DeviceConfig → Err × DeviceConfig
  storage_load f cfg =
      let (e0, c0) = ops.read_config 0 f cfg in
      if is_ok e0 && storage_validate c0
      then (Err.ok, c0)
      else let (e1, c1) = ops.read_config 1 f c0 in
        if is_ok e1 && storage_validate c1
        then (Err.ok, c1)
        else (Err.not_ready, storage_load_defaults)

  -- Always to slot 0.
  unfoldable pub storage_save : DeviceConfig → F → Err × F
  storage_save cfg f =
      if not (storage_validate cfg) then (Err.invalid_arg, f) else ops.write_config 0 cfg f
