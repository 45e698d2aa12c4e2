-- ===== src/Bsp/Stm32/Persist.antt =====
-- The configuration on the microcontroller: loaded as on the host, and never saved.
use climate_node.Prelude.{
  ℕ, zero, suc, ◌+◌, ◌*◌, ◌^◌, ◌≤◌, ◌<◌, ◌≡◌, refl, inl, inr, arith, true, false, ◌&&◌, List, [],
  ◌∷◌, length, take, drop, length-take, length-drop, leb, low_bits, shr, if◌then◌else◌, Bool-cases,
}
use climate_node.Core.Types.{Err}
use climate_node.Service.Modbus.Crc.{AllBytes}
use climate_node.Service.Storage.{DeviceConfig, storage_validate, storage_load_defaults}
use climate_node.Service.Storage.Flash.{Flash, config_of_bytes, is_erased}
use climate_node.Service.Storage.Flash as Host
use climate_node.Service.Storage.Persist.{FlashOps, host_flash, is_ok, storage_load, storage_save}
use climate_node.Bsp.Stm32.Flash.{
  Memory, slot_address, read_words, platform_flash_read_config, platform_flash_write_config,
  stm32_flash,
}

-- The words from an address on hold the bytes, the lowest one first.
abbrev pub HoldsBytes : Memory → ℕ → List ℕ → Type 0
HoldsBytes mem addr (a ∷ b ∷ c ∷ d ∷ rest) =
    (mem addr ≡ a + b * 2 ^ 8 + c * 2 ^ 16 + d * 2 ^ 24) × HoldsBytes mem (addr + 4) rest
HoldsBytes mem addr _ = Unit {0}

read_words-bytes :
    (n addr : ℕ) (mem : Memory) (bytes : List ℕ)
    → length bytes ≡ n * 4
    → AllBytes bytes
    → HoldsBytes mem addr bytes
    → read_words n addr mem ≡ bytes
unfolding read_words
read_words-bytes zero addr mem [] size small held = refl
read_words-bytes zero addr mem (a ∷ bs) size small held = absurd (omega arith)
read_words-bytes (suc n) addr mem (a ∷ b ∷ c ∷ d ∷ rest) size (ha, (hb, (hc, (hd, small))))
      (word, held) =
    let ih = read_words-bytes n (addr + 4) mem rest (omega arith) small held in
    let b0 : low_bits (mem addr) 8 ≡ a = omega arith in
    let b1 : low_bits (shr (mem addr) 8) 8 ≡ b = omega arith in
    let b2 : low_bits (shr (mem addr) 16) 8 ≡ c = omega arith in
    let b3 : low_bits (shr (mem addr) 24) 8 ≡ d = omega arith in rw (b0, b1, b2, b3, ih) refl
read_words-bytes (suc n) addr mem [] size small held = absurd (omega arith)
read_words-bytes (suc n) addr mem (a ∷ []) size small held = absurd (omega arith)
read_words-bytes (suc n) addr mem (a ∷ b ∷ []) size small held = absurd (omega arith)
read_words-bytes (suc n) addr mem (a ∷ b ∷ c ∷ []) size small held = absurd (omega arith)

abbrev slot_bytes : Flash → ℕ → List ℕ
slot_bytes f slot = take 28 (drop (slot * 28) f.cells)

-- The microcontroller's memory and the host's hold the same bytes in both slots.
pub record HoldsFlash (f : Flash) (mem : Memory) : Type 0 where
  pub room : 56 ≤ length f.cells
  pub bytes0 : AllBytes (slot_bytes f 0)
  pub bytes1 : AllBytes (slot_bytes f 1)
  pub slot0 : HoldsBytes mem (slot_address 0) (slot_bytes f 0)
  pub slot1 : HoldsBytes mem (slot_address 1) (slot_bytes f 1)

-- A read of either platform, in terms of the slot's bytes.
read_stm32 :
    (f : Flash) (mem : Memory) (slot : ℕ) (out : DeviceConfig)
    → slot < 2
    → 56 ≤ length f.cells
    → AllBytes (slot_bytes f slot)
    → HoldsBytes mem (slot_address slot) (slot_bytes f slot)
    → let bytes = slot_bytes f slot in
      platform_flash_read_config slot mem out
      ≡ (if is_erased bytes then Err.not_found else Err.ok, config_of_bytes bytes)
unfolding platform_flash_read_config
read_stm32 f mem slot out h room small held =
    let size : length (slot_bytes f slot) ≡ 7 * 4 =
      omega (arith, length-take 28 (drop (slot * 28) f.cells), length-drop (slot * 28) f.cells) in
    rw (read_words-bytes 7 (slot_address slot) mem (slot_bytes f slot) size small held) refl

read_host :
    (f : Flash) (slot : ℕ) (out : DeviceConfig)
    → slot < 2
    → let bytes = slot_bytes f slot in
      Host.platform_flash_read_config slot f out
      ≡ (if is_erased bytes then (Err.not_found, out) else (Err.ok, config_of_bytes bytes))
unfolding Host.platform_flash_read_config
read_host f slot out h = let inside : leb 2 slot ≡ false = ground arith in rw inside refl

-- What is left of a load after the first slot.
abbrev second : {F : Type 0} → FlashOps F → F → DeviceConfig → Err × DeviceConfig
second ops f out =
    let (e1, c1) = ops.read_config 1 f out in
    if is_ok e1 && storage_validate c1 then (Err.ok, c1) else (Err.not_ready, storage_load_defaults)

second_same :
    (f : Flash) (mem : Memory) (out old : DeviceConfig)
    → HoldsFlash f mem
    → second stm32_flash mem out ≡ second host_flash f old
second_same f mem out old is =
    let s1 = read_stm32 f mem 1 out (omega arith) is.room is.bytes1 is.slot1 in
    elim (Bool-cases (is_erased (slot_bytes f 1))) [
      | inl empty ↦ rw (s1, read_host f 1 old (omega arith), empty) refl
      | inr full ↦ rw (s1, read_host f 1 old (omega arith), full) refl
    ]

-- On the same bytes the microcontroller loads the configuration, with the status, that the host does.
load_same :
    (f : Flash) (mem : Memory) (old : DeviceConfig)
    → HoldsFlash f mem
    → storage_load stm32_flash mem old ≡ storage_load host_flash f old
unfolding storage_load
load_same f mem old is =
    let s0 = read_stm32 f mem 0 old (omega arith) is.room is.bytes0 is.slot0 in
    let h0 = read_host f 0 old (omega arith) in
    let c0 = config_of_bytes (slot_bytes f 0) in
    elim (Bool-cases (is_erased (slot_bytes f 0))) [
      | inl empty ↦ rw (s0, h0, empty) (second_same f mem c0 old is)
      | inr full ↦ elim (Bool-cases (storage_validate c0)) [
        | inl valid ↦ rw (s0, h0, full, valid) refl
        | inr bad ↦ rw (s0, h0, full, bad) (second_same f mem c0 c0 is)
      ]
    ]

-- A save on the microcontroller reports success for a valid configuration and changes nothing, so the
-- next load gives what the one before it did.
save_lost :
    (cfg old : DeviceConfig) (mem : Memory)
    → storage_validate cfg ≡ true
    → let (e, mem') = storage_save stm32_flash cfg mem in
      (e ≡ Err.ok) × (storage_load stm32_flash mem' old ≡ storage_load stm32_flash mem old)
unfolding storage_save platform_flash_write_config
save_lost cfg old mem valid = rw valid (refl, refl)
