-- ===== src/Service/Storage.antt =====
-- src/service/storage.c and include/service/storage.h: the persistent configuration, kept in two slots of
-- flash memory. The struct is packed; its bytes are those of the little-endian targets. Addresses of
-- configurations are never null.
pub mod Flash
pub mod Persist
pub mod Layout
pub mod Laws
pub mod Stub
use climate_node.Prelude.{
  ℕ, zero, suc, ◌+◌, ◌-◌, ◌*◌, ◌/◌, ◌%◌, ◌^◌, Bool, true, false, not, ◌&&◌, List, [], ◌∷◌, ◌++◌, ℤ,
  pos, u8, shr, low_bits, ◌==◌, if◌then◌else◌, replicate, to_u16,
}
use Prim.Native.Nat.{bit_xor}

-- `device_config_t`
pub record DeviceConfig : Type 0 where
  pub magic : ℕ
  pub version : ℕ
  pub size : ℕ
  pub dew_margin_on_cd : ℤ
  pub dew_margin_off_cd : ℤ
  pub sample_period_ms : ℕ
  pub reserved : List ℕ
  pub crc32 : ℕ

abbrev pub config_magic : ℕ
config_magic = 0xcafebabe

-- `sizeof(device_config_t)`
abbrev pub config_size : ℕ
config_size = 28

abbrev pub le16 : ℕ → List ℕ
le16 n = u8 n ∷ u8 (shr n 8) ∷ []

abbrev pub le32 : ℕ → List ℕ
le32 n = u8 n ∷ u8 (shr n 8) ∷ u8 (shr n 16) ∷ u8 (shr n 24) ∷ []

-- The bytes before the checksum: `offsetof(device_config_t, crc32)` of them.
abbrev pub data_bytes : DeviceConfig → List ℕ
data_bytes c =
    le32 c.magic
    ++ le16 c.version
    ++ le16 c.size
    ++ le16 (to_u16 c.dew_margin_on_cd)
    ++ le16 (to_u16 c.dew_margin_off_cd)
    ++ le16 c.sample_period_ms
    ++ c.reserved

unfoldable pub crc32_bits : ℕ → ℕ → ℕ
crc32_bits zero crc = crc
crc32_bits (suc n) crc =
    crc32_bits n (if not (low_bits crc 1 == 0) then bit_xor (shr crc 1) 0xedb88320 else shr crc 1)

unfoldable pub crc32_bytes : ℕ → List ℕ → ℕ
crc32_bytes crc [] = crc
crc32_bytes crc (b ∷ bs) = crc32_bytes (crc32_bits 8 (bit_xor crc b)) bs

-- `~crc` is the complement in 32 bits.
unfoldable pub calc_crc32 : List ℕ → ℕ
calc_crc32 bytes = 2 ^ 32 - 1 - crc32_bytes 0xffffffff bytes

unfoldable pub storage_finalize : DeviceConfig → DeviceConfig
storage_finalize cfg =
    let c = record cfg { magic = config_magic; version = 1; size = config_size } in
    record c { crc32 = calc_crc32 (data_bytes c) }

unfoldable pub storage_load_defaults : DeviceConfig
storage_load_defaults =
    let c : DeviceConfig = record {
      magic = config_magic;
      version = 1;
      size = config_size;
      dew_margin_on_cd = pos 500;
      dew_margin_off_cd = pos 700;
      sample_period_ms = 1000;
      reserved = replicate 10 0;
      crc32 = 0;
    } in
    record c { crc32 = calc_crc32 (data_bytes c) }

unfoldable pub storage_validate : DeviceConfig → Bool
storage_validate cfg =
    if not (cfg.magic == config_magic)
    then false
    else if not (cfg.size == config_size)
    then false
    else cfg.crc32 == calc_crc32 (data_bytes cfg)
