-- ===== src/Bsp/Stm32/Flash.antt =====
-- The flash functions of src/platform/stm32f1/platform_stm32f1.c: two slots in memory-mapped words, and a
-- write that does nothing.
use climate_node.Prelude.{ℕ, zero, suc, ◌+◌, List, [], ◌∷◌, ◌==◌, low_bits, shr, if◌then◌else◌}
use climate_node.Core.Types.{Err}
use climate_node.Service.Storage.{DeviceConfig}
use climate_node.Service.Storage.Flash.{config_of_bytes, is_erased}
use climate_node.Service.Storage.Persist.{FlashOps}

-- The word at each address.
abbrev pub Memory : Type 0
Memory = ℕ → ℕ

-- The configuration's two pages.
abbrev flash_config_a_addr : ℕ
flash_config_a_addr = 0x0800f800

abbrev flash_config_b_addr : ℕ
flash_config_b_addr = 0x0800fc00

abbrev pub slot_address : ℕ → ℕ
slot_address slot_index = if slot_index == 0 then flash_config_a_addr else flash_config_b_addr

-- The loop over the words, `n` more from the address on.
unfoldable pub read_words : ℕ → ℕ → Memory → List ℕ
read_words zero addr mem = []
read_words (suc n) addr mem =
    let val = mem addr in
    low_bits val 8
    ∷ low_bits (shr val 8) 8
    ∷ low_bits (shr val 16) 8
    ∷ low_bits (shr val 24) 8
    ∷ read_words n (addr + 4) mem

-- The output is written even if the slot is empty.
unfoldable pub platform_flash_read_config : ℕ → Memory → DeviceConfig → Err × DeviceConfig
platform_flash_read_config slot_index mem out =
    let dst = read_words 7 (slot_address slot_index) mem in
    (if is_erased dst then Err.not_found else Err.ok, config_of_bytes dst)

unfoldable pub platform_flash_write_config : ℕ → DeviceConfig → Memory → Err × Memory
platform_flash_write_config slot_index cfg mem = (Err.ok, mem)

abbrev pub stm32_flash : FlashOps Memory
stm32_flash = record {
  read_config = platform_flash_read_config;
  write_config = platform_flash_write_config;
}
