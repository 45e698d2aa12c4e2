-- ===== src/Service/Storage/Flash.antt =====
-- The flash memory of the host program, src/platform/host/platform_host.c: two slots of bytes, all
-- 0xff when erased, and a count of the writes.
use climate_node.Prelude.{
  ℕ, ◌+◌, ◌*◌, ◌^◌, Bool, true, ◌&&◌, List, [], ◌∷◌, ◌++◌, u32, leb, ◌==◌, if◌then◌else◌, get_or,
  take, drop, replicate, signed16,
}
use climate_node.Core.Types.{Err}
use climate_node.Service.Storage.{DeviceConfig, config_size, data_bytes, le32}

pub record Flash : Type 0 where
  pub cells : List ℕ
  pub write_count : ℕ

unfoldable pub mock_flash_init : Flash
mock_flash_init = record { cells = replicate (2 * config_size) 0xff; write_count = 0 }

unfoldable pub mock_flash_get_write_count : Flash → ℕ
mock_flash_get_write_count f = f.write_count

-- The two copies by `memcpy`: the struct's bytes, and the struct that bytes stand for.
abbrev pub config_bytes : DeviceConfig → List ℕ
config_bytes c = data_bytes c ++ le32 c.crc32

abbrev pub u16_at : List ℕ → ℕ → ℕ
u16_at bs i = get_or bs i 0 + get_or bs (i + 1) 0 * 2 ^ 8

abbrev pub u32_at : List ℕ → ℕ → ℕ
u32_at bs i = u16_at bs i + u16_at bs (i + 2) * 2 ^ 16

unfoldable pub config_of_bytes : List ℕ → DeviceConfig
config_of_bytes bs = record {
  magic = u32_at bs 0;
  version = u16_at bs 4;
  size = u16_at bs 6;
  dew_margin_on_cd = signed16 (u16_at bs 8);
  dew_margin_off_cd = signed16 (u16_at bs 10);
  sample_period_ms = u16_at bs 12;
  reserved = take 10 (drop 14 bs);
  crc32 = u32_at bs 24;
}

-- The loop that looks for a byte that is not 0xff.
unfoldable pub is_erased : List ℕ → Bool
is_erased [] = true
is_erased (b ∷ bs) = (b == 0xff) && is_erased bs

-- The status and the output, given what it was before.
unfoldable pub platform_flash_read_config : ℕ → Flash → DeviceConfig → Err × DeviceConfig
platform_flash_read_config slot f out =
    if leb 2 slot
    then (Err.invalid_arg, out)
    else let bytes = take config_size (drop (slot * config_size) f.cells) in
      if is_erased bytes then (Err.not_found, out) else (Err.ok, config_of_bytes bytes)

unfoldable pub platform_flash_write_config : ℕ → DeviceConfig → Flash → Err × Flash
platform_flash_write_config slot cfg f =
    if leb 2 slot
    then (Err.invalid_arg, f)
    else let offset = slot * config_size in
      (
        Err.ok,
        record {
          cells = take offset f.cells ++ config_bytes cfg ++ drop (offset + config_size) f.cells;
          write_count = u32 (f.write_count + 1);
        },
      )
