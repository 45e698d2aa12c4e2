-- ===== src/Service/Storage/Layout.antt =====
-- The 28 bytes of a configuration, and that the struct is read back from them.
use climate_node.Prelude.{
  ℕ, ◌+◌, ◌*◌, ◌^◌, ◌<◌, ◌≡◌, refl, ◌∙◌, sym, ap, arith, false, ◌++◌, ℤ, InI16, u8, shr, length,
  length-append, get_or-append_at, take, take-append_left, to_u16, signed16, signed16-to_u16,
}
use climate_node.Service.Storage.{DeviceConfig, config_magic, le32}
use climate_node.Service.Storage.Flash.{config_bytes, u32_at, config_of_bytes, is_erased}

-- Every field fits its type.
pub record IsConfig (c : DeviceConfig) : Type 0 where
  pub magic : c.magic < 2 ^ 32
  pub version : c.version < 2 ^ 16
  pub size : c.size < 2 ^ 16
  pub on : InI16 c.dew_margin_on_cd
  pub off : InI16 c.dew_margin_off_cd
  pub period : c.sample_period_ms < 2 ^ 16
  pub padding : length c.reserved ≡ 10
  pub crc : c.crc32 < 2 ^ 32

pub length-config_bytes : (c : DeviceConfig) → length c.reserved ≡ 10 → length (config_bytes c) ≡ 28
length-config_bytes c h = omega (arith, length-append c.reserved (le32 c.crc32))

join16 : (n : ℕ) → n < 2 ^ 16 → u8 n + u8 (shr n 8) * 2 ^ 8 ≡ n
join16 n h = omega arith

join32 :
    (n : ℕ)
    → n < 2 ^ 32
    → u8 n + u8 (shr n 8) * 2 ^ 8 + (u8 (shr n 16) + u8 (shr n 24) * 2 ^ 8) * 2 ^ 16 ≡ n
join32 n h = omega arith

to_u16_lt : (z : ℤ) → to_u16 z < 2 ^ 16
to_u16_lt z = ground arith

margin : (z : ℤ) → InI16 z → signed16 (u8 (to_u16 z) + u8 (shr (to_u16 z) 8) * 2 ^ 8) ≡ z
margin z h = ap signed16 (join16 (to_u16 z) (to_u16_lt z)) ∙ signed16-to_u16 z h

-- The checksum stands after the padding.
crc_at : (c : DeviceConfig) → IsConfig c → u32_at (config_bytes c) 24 ≡ c.crc32
crc_at c k =
    let tail = le32 c.crc32 in
    let pad = k.padding in
    let b0 = get_or-append_at c.reserved tail 0 10 0 (omega arith) in
    let b1 = get_or-append_at c.reserved tail 1 11 0 (omega arith) in
    let b2 = get_or-append_at c.reserved tail 2 12 0 (omega arith) in
    let b3 = get_or-append_at c.reserved tail 3 13 0 (omega arith) in
    rw (b0, b1, b2, b3) (join32 c.crc32 k.crc)

-- A configuration copied to flash and back is the same.
pub config_of_bytes-config_bytes :
    (c : DeviceConfig) → IsConfig c → config_of_bytes (config_bytes c) ≡ c
unfolding config_of_bytes
config_of_bytes-config_bytes c k =
    let pad : take 10 (c.reserved ++ le32 c.crc32) ≡ c.reserved =
      ap (λ n. take n (c.reserved ++ le32 c.crc32)) (sym k.padding)
      ∙ take-append_left c.reserved (le32 c.crc32) in
    rw
      (
        join32 c.magic k.magic,
        join16 c.version k.version,
        join16 c.size k.size,
        margin c.dew_margin_on_cd k.on,
        margin c.dew_margin_off_cd k.off,
        join16 c.sample_period_ms k.period,
        pad,
        crc_at c k,
      )
      refl

-- A configuration with the magic number is never taken for erased flash.
pub config_bytes-not_erased :
    (c : DeviceConfig) → c.magic ≡ config_magic → is_erased (config_bytes c) ≡ false
unfolding is_erased
config_bytes-not_erased c h = rw h refl
