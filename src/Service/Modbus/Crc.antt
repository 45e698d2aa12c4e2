-- ===== src/Service/Modbus/Crc.antt =====
-- The checksum of a frame: a 16-bit word in which a change of one byte always shows.
pub mod Residue
pub mod Burst
use climate_node.Prelude.{
  ℕ, zero, suc, ◌+◌, ◌-◌, ◌/◌, ◌%◌, ◌^◌, ◌≤◌, ◌<◌, ◌≡◌, ◌≢◌, ◌↔◌, ◌⊎◌, ◌*◌, take-set, set_out,
  get_or-take, get_or-set_ne, get_or-set_self, length-take, u16, ◌∙◌, sym, ap, subst, arith, true,
  false, some, List, [], ◌∷◌, low_bits, ◌==◌, length, get_or, set, take, inl, inr, Bool-cases,
}
use climate_node.Prelude.Bits.{bit_xor_lt, bit_xor_ge, bit_xor_comm, bit_xor_cancel, bit_or_fields}
use climate_node.Service.Modbus.{
  crc_bit, crc_bits, crc_byte, crc_bytes, modbus_crc16, received_crc, modbus_frame_has_valid_crc,
}
use Prim.Native.Nat.{bit_xor}

-- Every item is a byte.
abbrev pub AllBytes : List ℕ → Type 0
AllBytes [] = Unit {0}
AllBytes (b ∷ bs) = (b < 2 ^ 8) × AllBytes bs

odd : (a : ℕ) → (low_bits a 1 == 0) ≡ false → a % 2 ≡ 1
odd a h = ground arith

even : (a : ℕ) → (low_bits a 1 == 0) ≡ true → a % 2 ≡ 0
even a h = ground arith

pub crc_bit_lt : (a : ℕ) → a < 2 ^ 16 → crc_bit a < 2 ^ 16
unfolding crc_bit
crc_bit_lt a h = elim (Bool-cases (low_bits a 1 == 0)) [
  | inl e ↦ rw e (omega arith)
  | inr e ↦ rw e (bit_xor_lt 16 (a / 2) 0xa001 (omega arith) (omega arith))
]

-- The top bit of the result tells which branch was taken.
pub crc_bit_inj : (a b : ℕ) → a < 2 ^ 16 → b < 2 ^ 16 → crc_bit a ≡ crc_bit b → a ≡ b
unfolding crc_bit
crc_bit_inj a b h k e =
    let ga = bit_xor_ge 15 (a / 2) 0xa001 (omega arith) (omega arith) in
    let gb = bit_xor_ge 15 (b / 2) 0xa001 (omega arith) (omega arith) in
    let same : bit_xor (a / 2) 0xa001 ≡ bit_xor (b / 2) 0xa001 → a / 2 ≡ b / 2 =
      bit_xor_cancel 15 (a / 2) (b / 2) 0xa001 (omega arith) (omega arith) in
    ground arith

pub crc_bits_lt : (n a : ℕ) → a < 2 ^ 16 → crc_bits n a < 2 ^ 16
unfolding crc_bits
crc_bits_lt zero a h = h
crc_bits_lt (suc n) a h = crc_bits_lt n (crc_bit a) (crc_bit_lt a h)

pub crc_bits_inj : (n a b : ℕ) → a < 2 ^ 16 → b < 2 ^ 16 → crc_bits n a ≡ crc_bits n b → a ≡ b
unfolding crc_bits
crc_bits_inj zero a b h k e = e
crc_bits_inj (suc n) a b h k e =
    crc_bit_inj a b h k (crc_bits_inj n (crc_bit a) (crc_bit b) (crc_bit_lt a h) (crc_bit_lt b k) e)

pub crc_byte_lt : (crc byte : ℕ) → crc < 2 ^ 16 → byte < 2 ^ 8 → crc_byte crc byte < 2 ^ 16
unfolding crc_byte
crc_byte_lt crc byte h k = crc_bits_lt 8 (bit_xor crc byte) (bit_xor_lt 16 crc byte h (omega arith))

-- A byte step loses nothing of the checksum so far, nor of the byte.
crc_byte_inj :
    (a b byte : ℕ)
    → a < 2 ^ 16
    → b < 2 ^ 16
    → byte < 2 ^ 8
    → crc_byte a byte ≡ crc_byte b byte
    → a ≡ b
unfolding crc_byte
crc_byte_inj a b byte h k p e = bit_xor_cancel 16 a b byte h k (
    crc_bits_inj 8 (bit_xor a byte) (bit_xor b byte) (bit_xor_lt 16 a byte h (omega arith))
      (bit_xor_lt 16 b byte k (omega arith)) e)

crc_byte_inj_byte :
    (crc x y : ℕ) → crc < 2 ^ 16 → x < 2 ^ 8 → y < 2 ^ 8 → crc_byte crc x ≡ crc_byte crc y → x ≡ y
unfolding crc_byte
crc_byte_inj_byte crc x y h p q e =
    let mixed : bit_xor crc x ≡ bit_xor crc y =
      crc_bits_inj 8 (bit_xor crc x) (bit_xor crc y) (bit_xor_lt 16 crc x h (omega arith))
        (bit_xor_lt 16 crc y h (omega arith)) e in
    bit_xor_cancel 16 x y crc (omega arith) (omega arith)
      (bit_xor_comm 16 x crc (omega arith) h ∙ mixed ∙ bit_xor_comm 16 crc y h (omega arith))

pub crc_bytes_lt : (crc : ℕ) (bs : List ℕ) → crc < 2 ^ 16 → AllBytes bs → crc_bytes crc bs < 2 ^ 16
unfolding crc_bytes
crc_bytes_lt crc [] h p = h
crc_bytes_lt crc (b ∷ bs) h (p, q) = crc_bytes_lt (crc_byte crc b) bs (crc_byte_lt crc b h p) q

pub crc_bytes_inj :
    (a b : ℕ) (bs : List ℕ)
    → a < 2 ^ 16
    → b < 2 ^ 16
    → AllBytes bs
    → crc_bytes a bs ≡ crc_bytes b bs
    → a ≡ b
unfolding crc_bytes
crc_bytes_inj a b [] h k p e = e
crc_bytes_inj a b (x ∷ bs) h k (p, q) e =
    crc_byte_inj a b x h k p (
      crc_bytes_inj (crc_byte a x) (crc_byte b x) bs (crc_byte_lt a x h p) (crc_byte_lt b x k p) q
        e)

pub AllBytes-take : (n : ℕ) (bs : List ℕ) → AllBytes bs → AllBytes (take n bs)
AllBytes-take zero bs h = tt
AllBytes-take (suc n) [] h = tt
AllBytes-take (suc n) (b ∷ bs) (p, q) = (p, AllBytes-take n bs q)

pub AllBytes-get_or : (bs : List ℕ) (i : ℕ) → AllBytes bs → get_or bs i 0 < 2 ^ 8
AllBytes-get_or [] i h = omega arith
AllBytes-get_or (b ∷ bs) zero (p, q) = p
AllBytes-get_or (b ∷ bs) (suc i) (p, q) = AllBytes-get_or bs i q

pub AllBytes-set : (bs : List ℕ) (i x : ℕ) → AllBytes bs → x < 2 ^ 8 → AllBytes (set bs i x)
AllBytes-set [] i x h k = tt
AllBytes-set (b ∷ bs) zero x (p, q) k = (k, q)
AllBytes-set (b ∷ bs) (suc i) x (p, q) k = (p, AllBytes-set bs i x q k)

pub received_crc_lem :
    (frame : List ℕ) (len : ℕ)
    → AllBytes frame
    → received_crc frame len ≡ get_or frame (len - 1) 0 * 2 ^ 8 + get_or frame (len - 2) 0
unfolding received_crc
received_crc_lem frame len h =
    let low = AllBytes-get_or frame (len - 2) h in
    let high = AllBytes-get_or frame (len - 1) h in
    let whole : u16 (get_or frame (len - 1) 0 * 2 ^ 8) ≡ get_or frame (len - 1) 0 * 2 ^ 8 =
      omega arith in
    rw whole (bit_or_fields 8 (get_or frame (len - 1) 0) (get_or frame (len - 2) 0) low)

pub valid_crc_lem :
    (frame : List ℕ) (len : ℕ)
    → 3 ≤ len
    → ((modbus_frame_has_valid_crc (some frame) len ≡ true)
        ↔ (crc_bytes 0xffff (take (len - 2) frame) ≡ received_crc frame len))
unfolding modbus_frame_has_valid_crc modbus_crc16
valid_crc_lem frame len h = ground arith
