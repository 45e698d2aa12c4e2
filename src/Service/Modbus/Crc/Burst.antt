-- ===== src/Service/Modbus/Crc/Burst.antt =====
-- Errors in two neighbouring bytes, the checksum's own bytes included.
use climate_node.Prelude.{
  ℕ, zero, suc, ◌^◌, ◌≤◌, ◌<◌, ◌≡◌, ◌≢◌, ◌⊎◌, refl, ◌∙◌, sym, ap, arith, true, false, some, List,
  [], ◌∷◌, length, length-set, get_or, set, inl, inr, Bool-cases, get_or-set_ne,
}
use climate_node.Service.Modbus.{crc_byte, crc_bytes, modbus_frame_has_valid_crc}
use climate_node.Service.Modbus.Crc.{
  AllBytes, AllBytes-get_or, AllBytes-set, crc_byte_lt, crc_bytes_inj,
}
use climate_node.Service.Modbus.Crc.Residue.{crc_bytes_inj_pair, residue_lem}

-- Two neighbouring bytes are replaced.
abbrev pub set_pair : List ℕ → ℕ → ℕ → ℕ → List ℕ
set_pair bs i x y = set (set bs i x) (suc i) y

-- The checksum of all the bytes tells the pair.
crc_bytes-set_pair :
    (crc : ℕ) (bs : List ℕ) (i x y : ℕ)
    → crc < 2 ^ 16
    → AllBytes bs
    → suc i < length bs
    → x < 2 ^ 8
    → y < 2 ^ 8
    → crc_bytes crc (set_pair bs i x y) ≡ crc_bytes crc bs
    → (x ≡ get_or bs i 0) × (y ≡ get_or bs (suc i) 0)
unfolding crc_bytes
crc_bytes-set_pair crc [] i x y h p k l m e = absurd (omega arith)
crc_bytes-set_pair crc (a ∷ []) i x y h p k l m e = absurd (omega arith)
crc_bytes-set_pair crc (a ∷ b ∷ bs) zero x y h (pa, (pb, q)) k l m e =
    crc_bytes_inj_pair crc x y a b h (l, (m, (pa, (pb, tt))))
      (crc_bytes_inj (crc_byte (crc_byte crc x) y) (crc_byte (crc_byte crc a) b) bs
        (crc_byte_lt (crc_byte crc x) y (crc_byte_lt crc x h l) m)
        (crc_byte_lt (crc_byte crc a) b (crc_byte_lt crc a h pa) pb) q e)
crc_bytes-set_pair crc (a ∷ b ∷ bs) (suc i) x y h (pa, q) k l m e =
    crc_bytes-set_pair (crc_byte crc a) (b ∷ bs) i x y (crc_byte_lt crc a h pa) q (omega arith) l m
      e

-- A frame with a valid checksum in which two neighbouring bytes, those of the checksum too, are
-- replaced by others, one of them at least different, has no valid checksum.
pub corrupt_burst_detected :
    (frame : List ℕ) (i x y : ℕ)
    → 3 ≤ length frame
    → AllBytes frame
    → modbus_frame_has_valid_crc (some frame) (length frame) ≡ true
    → suc i < length frame
    → x < 2 ^ 8
    → y < 2 ^ 8
    → (x ≢ get_or frame i 0) ⊎ (y ≢ get_or frame (suc i) 0)
    → modbus_frame_has_valid_crc (some (set_pair frame i x y)) (length frame) ≡ false
corrupt_burst_detected frame i x y long bytes valid inside small_x small_y other =
    let bad = set_pair frame i x y in
    let size : length bad ≡ length frame = length-set _ (suc i) y ∙ length-set frame i x in
    let all = AllBytes-set _ (suc i) y (AllBytes-set frame i x bytes small_x) small_y in
    elim (Bool-cases (modbus_frame_has_valid_crc (some bad) (length frame))) [
      | inr e ↦ e
      | inl e ↦
          let now =
            (residue_lem bad (omega (arith, size)) all).0
              (ap (modbus_frame_has_valid_crc (some bad)) size ∙ e) in
          let (same_x, same_y) =
            crc_bytes-set_pair 0xffff frame i x y (omega arith) bytes inside small_x small_y
              (now ∙ sym ((residue_lem frame long bytes).0 valid)) in
          absurd (elim other [ inl ne ↦ ne same_x | inr ne ↦ ne same_y ])
    ]

set-same : (xs : List ℕ) (i : ℕ) → set xs i (get_or xs i 0) ≡ xs
set-same [] i = refl
set-same (x ∷ xs) zero = refl
set-same (x ∷ xs) (suc i) = ap (λ t. x ∷ t) (set-same xs i)

-- In particular one byte that is replaced by another shows.
corrupt_byte_detected :
    (frame : List ℕ) (i x : ℕ)
    → 3 ≤ length frame
    → AllBytes frame
    → modbus_frame_has_valid_crc (some frame) (length frame) ≡ true
    → i < length frame
    → x < 2 ^ 8
    → x ≢ get_or frame i 0
    → modbus_frame_has_valid_crc (some (set frame i x)) (length frame) ≡ false
corrupt_byte_detected frame zero x long bytes valid inside small other =
    let next = get_or frame 1 0 in
    let kept : set_pair frame 0 x next ≡ set frame 0 x =
      ap (λ b. set (set frame 0 x) 1 b) (sym (get_or-set_ne frame 0 1 x 0 (omega arith)))
      ∙ set-same (set frame 0 x) 1 in
    ap (λ t. modbus_frame_has_valid_crc (some t) (length frame)) (sym kept)
    ∙ corrupt_burst_detected frame 0 x next long bytes valid (omega arith) small
        (AllBytes-get_or frame 1 bytes) (inl other)
corrupt_byte_detected frame (suc i) x long bytes valid inside small other =
    let here = get_or frame i 0 in
    ap (λ t. modbus_frame_has_valid_crc (some (set t (suc i) x)) (length frame))
      (sym (set-same frame i))
    ∙ corrupt_burst_detected frame i here x long bytes valid inside (AllBytes-get_or frame i bytes)
        small (inr other)
