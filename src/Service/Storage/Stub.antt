-- ===== src/Service/Storage/Stub.antt =====
-- The weak flash functions of src/core/platform_stubs.c, for programs that link no flash memory: every
-- read and every write fails. They keep no state.
use climate_node.Prelude.{ℕ, ◌≡◌, refl, inl, inr, Bool-cases, if◌then◌else◌}
use climate_node.Core.Types.{Err}
use climate_node.Service.Storage.{DeviceConfig, storage_load_defaults, storage_validate}
use climate_node.Service.Storage.Persist.{FlashOps, storage_load, storage_save}

-- The output's magic is cleared, so that it is no valid configuration.
unfoldable pub platform_flash_read_config : {F : Type 0} → ℕ → F → DeviceConfig → Err × DeviceConfig
platform_flash_read_config slot_index f out = (Err.not_found, record out { magic = 0 })

unfoldable pub platform_flash_write_config : {F : Type 0} → ℕ → DeviceConfig → F → Err × F
platform_flash_write_config slot_index cfg f = (Err.storage, f)

abbrev pub stub_flash : {F : Type 0} → FlashOps F
stub_flash = record {
  read_config = platform_flash_read_config;
  write_config = platform_flash_write_config;
}

-- Loading gives the defaults, and saving fails, for another reason if the configuration is valid.
stub_lem :
    {F : Type 0} (f : F) (cfg : DeviceConfig)
    → (storage_load stub_flash f cfg ≡ (Err.not_ready, storage_load_defaults))
      × (storage_save stub_flash cfg f
          ≡ (if storage_validate cfg then Err.storage else Err.invalid_arg, f))
unfolding storage_load storage_save platform_flash_read_config platform_flash_write_config
stub_lem f cfg = (
  refl,
  elim (Bool-cases (storage_validate cfg)) [ inl valid ↦ rw valid refl | inr bad ↦ rw bad refl ],
)
