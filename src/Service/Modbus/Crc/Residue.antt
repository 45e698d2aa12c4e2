-- ===== src/Service/Modbus/Crc/Residue.antt =====
-- The checksum as a shift register: bytes that are shifted in next to each other act as one word, and a
-- frame is valid exactly if its own checksum leaves nothing.
use climate_node.Prelude.{
  ℕ, zero, suc, ◌+◌, ◌-◌, ◌*◌, ◌/◌, ◌%◌, ◌^◌, ◌≤◌, ◌<◌, ◌≡◌, ◌↔◌, refl, ◌∙◌, sym, ap, arith, true,
  some, List, [], ◌∷◌, ◌++◌, ◌==◌, length, get_or, take, inl, inr, Bool-cases,
}
use climate_node.Prelude.Bits.{
  bit_xor_step, differ_parity, bit_xor_lt, bit_xor_assoc, bit_xor_self, bit_xor_fields,
  bit_xor_cancel, bit_xor_comm,
}
use climate_node.Service.Modbus.{crc_bit, crc_bits, crc_byte, crc_bytes, modbus_frame_has_valid_crc}
use climate_node.Service.Modbus.Crc.{
  AllBytes, AllBytes-take, AllBytes-get_or, crc_bit_lt, crc_bits_lt, crc_bits_inj, crc_bytes_lt,
  received_crc_lem, valid_crc_lem,
}
use native.Mathlib.Nat.{mul_assoc}
use Prim.Native.Nat.{bit_xor}

-- What stands above the bit that is shifted out is shifted along.
crc_bit-shift :
    (x y : ℕ) → x < 2 ^ 16 → y < 2 ^ 15 → crc_bit (bit_xor x (y * 2)) ≡ bit_xor (crc_bit x) y
unfolding crc_bit
crc_bit-shift x y h k =
    let step = bit_xor_step x (y * 2) in
    let digit = differ_parity x (y * 2) in
    let half : y * 2 / 2 ≡ y = omega arith in
    let joined : bit_xor x (y * 2) ≡ bit_xor (x / 2) y * 2 + (x + y * 2) % 2 =
      step ∙ rw (half, digit) refl in
    let high : bit_xor x (y * 2) / 2 ≡ bit_xor (x / 2) y = omega arith in
    let low : bit_xor x (y * 2) % 2 ≡ x % 2 = omega arith in
    elim (Bool-cases (x % 2 == 0)) [
      | inl even ↦ rw (high, low, even) refl
      | inr odd ↦
          rw (high, low, odd)
            (bit_xor_assoc 16 (x / 2) y 0xa001 (omega arith) (omega arith) (omega arith)
              ∙ ap (bit_xor (x / 2)) (bit_xor_comm 16 y 0xa001 (omega arith) (omega arith))
              ∙ sym (bit_xor_assoc 16 (x / 2) 0xa001 y (omega arith) (omega arith) (omega arith)))
    ]

crc_bits-shift :
    (n x y : ℕ)
    → x < 2 ^ 16
    → y * 2 ^ n < 2 ^ 16
    → crc_bits n (bit_xor x (y * 2 ^ n)) ≡ bit_xor (crc_bits n x) y
unfolding crc_bits
crc_bits-shift zero x y h k = ap (bit_xor x) (omega arith)
crc_bits-shift (suc n) x y h k =
    let power : 2 ^ suc n ≡ 2 ^ n * 2 = omega arith in
    let twice : y * 2 ^ suc n ≡ y * 2 ^ n * 2 = rw power (sym (mul_assoc y (2 ^ n) 2)) in
    ap (λ w. crc_bits n (crc_bit (bit_xor x w))) twice
    ∙ ap (crc_bits n) (crc_bit-shift x (y * 2 ^ n) h (omega arith))
    ∙ crc_bits-shift n (crc_bit x) y (crc_bit_lt x h) (omega arith)

-- Two bytes in a row act as one word.
crc_word : ℕ → ℕ → ℕ → ℕ
crc_word crc low high = crc_bits 8 (crc_bits 8 (bit_xor crc (high * 2 ^ 8 + low)))

crc_byte-word :
    (crc low high : ℕ)
    → crc < 2 ^ 16
    → low < 2 ^ 8
    → high < 2 ^ 8
    → crc_byte (crc_byte crc low) high ≡ crc_word crc low high
unfolding crc_byte crc_word
crc_byte-word crc low high h k l = ap (crc_bits 8) (
    sym (
      crc_bits-shift 8 (bit_xor crc low) high (bit_xor_lt 16 crc low h (omega arith)) (omega arith))
    ∙ ap (crc_bits 8) (
        bit_xor_assoc 16 crc low (high * 2 ^ 8) h (omega arith) (omega arith)
        ∙ ap (bit_xor crc) (bit_xor_fields 8 high low k)))

word_lt : (low high : ℕ) → low < 2 ^ 8 → high < 2 ^ 8 → high * 2 ^ 8 + low < 2 ^ 16
word_lt low high h k = omega arith

word_bits_inj :
    (x y : ℕ)
    → x < 2 ^ 16
    → y < 2 ^ 16
    → crc_bits 8 (crc_bits 8 x) ≡ crc_bits 8 (crc_bits 8 y)
    → x ≡ y
word_bits_inj x y h k e =
    crc_bits_inj 8 x y h k
      (crc_bits_inj 8 (crc_bits 8 x) (crc_bits 8 y) (crc_bits_lt 8 x h) (crc_bits_lt 8 y k) e)

-- The step on two bytes loses nothing of them.
pub crc_bytes_inj_pair :
    (crc a b x y : ℕ)
    → crc < 2 ^ 16
    → AllBytes (a ∷ b ∷ x ∷ y ∷ [])
    → crc_byte (crc_byte crc a) b ≡ crc_byte (crc_byte crc x) y
    → (a ≡ x) × (b ≡ y)
unfolding crc_word
crc_bytes_inj_pair crc a b x y h (ha, (hb, (hx, (hy, t)))) e =
    let old = word_lt a b ha hb in
    let new = word_lt x y hx hy in
    let words = sym (crc_byte-word crc a b h ha hb) ∙ e ∙ crc_byte-word crc x y h hx hy in
    let mixed =
      word_bits_inj _ _ (bit_xor_lt 16 crc (b * 2 ^ 8 + a) h old)
        (bit_xor_lt 16 crc (y * 2 ^ 8 + x) h new) words in
    let same : b * 2 ^ 8 + a ≡ y * 2 ^ 8 + x =
      bit_xor_cancel 16 (b * 2 ^ 8 + a) (y * 2 ^ 8 + x) crc old new
        (bit_xor_comm 16 _ crc old h ∙ mixed ∙ bit_xor_comm 16 crc _ h new) in
    (omega arith, omega arith)

-- A word leaves nothing of the checksum that it is equal to, and of no other.
crc_word-zero :
    (crc low high : ℕ)
    → crc < 2 ^ 16
    → low < 2 ^ 8
    → high < 2 ^ 8
    → (crc ≡ high * 2 ^ 8 + low) ↔ (crc_word crc low high ≡ 0)
unfolding crc_word crc_bits crc_bit
crc_word-zero crc low high h k l =
    let w = high * 2 ^ 8 + low in
    let small = word_lt low high k l in
    (
      λ e. rw (e, bit_xor_self 16 w small) refl,
      λ e. bit_xor_cancel 16 crc w w h small (
          word_bits_inj (bit_xor crc w) 0 (bit_xor_lt 16 crc w h small) (omega arith) e
          ∙ sym (bit_xor_self 16 w small)),
    )

crc_bytes-append :
    (crc : ℕ) (xs ys : List ℕ) → crc_bytes crc (xs ++ ys) ≡ crc_bytes (crc_bytes crc xs) ys
unfolding crc_bytes
crc_bytes-append crc [] ys = refl
crc_bytes-append crc (x ∷ xs) ys = crc_bytes-append (crc_byte crc x) xs ys

last_two :
    (n : ℕ) (xs : List ℕ)
    → length xs ≡ suc (suc n)
    → xs ≡ take n xs ++ (get_or xs n 0 ∷ get_or xs (suc n) 0 ∷ [])
last_two n [] h = absurd (omega arith)
last_two n (x ∷ []) h = absurd (omega arith)
last_two zero (x ∷ y ∷ []) h = refl
last_two zero (x ∷ y ∷ z ∷ xs) h = absurd (omega arith)
last_two (suc n) (x ∷ y ∷ xs) h = ap (λ t. x ∷ t) (last_two n (y ∷ xs) (omega arith))

-- A frame has a valid checksum exactly if the checksum of all its bytes is 0.
pub residue_lem :
    (frame : List ℕ)
    → 3 ≤ length frame
    → AllBytes frame
    → ((modbus_frame_has_valid_crc (some frame) (length frame) ≡ true)
        ↔ (crc_bytes 0xffff frame ≡ 0))
unfolding crc_bytes
residue_lem frame long bytes =
    let n = length frame in
    let body = take (n - 2) frame in
    let low = get_or frame (n - 2) 0 in
    let high = get_or frame (n - 1) 0 in
    let crc = crc_bytes 0xffff body in
    let small = crc_bytes_lt 0xffff body (omega arith) (AllBytes-take (n - 2) frame bytes) in
    let low_byte = AllBytes-get_or frame (n - 2) bytes in
    let high_byte = AllBytes-get_or frame (n - 1) bytes in
    let next : suc (n - 2) ≡ n - 1 = omega arith in
    let whole : crc_bytes 0xffff frame ≡ crc_word crc low high =
      ap (crc_bytes 0xffff) (
        last_two (n - 2) frame (omega arith) ∙ ap (λ j. body ++ (low ∷ get_or frame j 0 ∷ [])) next)
      ∙ crc_bytes-append 0xffff body (low ∷ high ∷ [])
      ∙ crc_byte-word crc low high small low_byte high_byte in
    let (valid_sum, sum_valid) = valid_crc_lem frame n long in
    let (zero_left, equal) = crc_word-zero crc low high small low_byte high_byte in
    let received = received_crc_lem frame n bytes in
    (
      λ valid. whole ∙ zero_left (valid_sum valid ∙ received),
      λ nothing. sum_valid (equal (sym whole ∙ nothing) ∙ sym received),
    )
