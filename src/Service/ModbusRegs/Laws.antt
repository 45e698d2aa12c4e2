-- ===== src/Service/ModbusRegs/Laws.antt =====
-- What a master sees of the registers: a block is read in full or refused, a write is read back and
-- touches no other register.
use climate_node.Prelude.{
  ℕ, zero, suc, ◌+◌, ◌*◌, ◌^◌, ◌≤◌, ◌<◌, ◌≡◌, ◌≢◌, ◌⊎◌, ◌↔◌, refl, ◌∙◌, sym, ap, arith, true, false,
  Option, none, some, List, [], ◌∷◌, ◌++◌, ltb, ◌==◌, u8, u16, shr, low_bits, length, length-set,
  set, take, take-set_end, append_assoc, append-nil, inl, inr, Bool-cases, Option-cases, to_u16,
  to_u16-signed16, ℤ,
}
use climate_node.Service.ModbusRegs.{
  RegMap, put_be16, reg_value, read_from, mb_regs_read, mb_regs_write_single,
}

-- The registers of a block as bytes, the high one first, or none if one of them does not exist.
abbrev pub block : RegMap → ℕ → ℕ → ℕ → Option (List ℕ)
block regs start i zero = some []
block regs start i (suc n) =
    let rest = block regs start (i + 1) n in
    elim (reg_value regs (u16 (start + i))) [
      | none ↦ none
      | some v ↦ elim rest [ none ↦ none | some bs ↦ some (u8 (shr v 8) ∷ low_bits v 8 ∷ bs) ]
    ]

take-put_be16 :
    (buf : List ℕ) (i v : ℕ)
    → i + 2 ≤ length buf
    → take (i + 2) (put_be16 buf i v) ≡ take i buf ++ (u8 (shr v 8) ∷ low_bits v 8 ∷ [])
take-put_be16 buf i v h =
    ap (λ k. take k (put_be16 buf i v)) (omega arith)
    ∙ take-set_end (i + 1) (set buf i (u8 (shr v 8))) (low_bits v 8)
        (omega (arith, length-set buf i (u8 (shr v 8))))
    ∙ ap (λ t. t ++ (low_bits v 8 ∷ [])) (take-set_end i buf (u8 (shr v 8)) (omega arith))
    ∙ append_assoc (take i buf) (u8 (shr v 8) ∷ []) (low_bits v 8 ∷ [])

length-put_be16 : (buf : List ℕ) (i v : ℕ) → length (put_be16 buf i v) ≡ length buf
length-put_be16 buf i v = length-set (set buf i _) (i + 1) _ ∙ length-set buf i _

length-read_from :
    (regs : RegMap) (start i n : ℕ) (buf : List ℕ)
    → length (read_from regs start i n buf).1 ≡ length buf
unfolding read_from
length-read_from regs start i zero buf = refl
length-read_from regs start i (suc n) buf = elim (Option-cases (reg_value regs (u16 (start + i)))) [
  | inl e ↦ rw (read_from, e) refl
  | inr (v, e) ↦
      rw (read_from, e)
        (length-read_from regs start (i + 1) n (put_be16 buf (i * 2) v)
          ∙ length-put_be16 buf (i * 2) v)
]

pub length-mb_regs_read :
    (regs : RegMap) (start quantity : ℕ) (buf : List ℕ) (cap : ℕ)
    → length (mb_regs_read regs start quantity buf cap).1 ≡ length buf
unfolding mb_regs_read
length-mb_regs_read regs start quantity buf cap =
    ground (arith, length-read_from regs start 0 quantity buf)

-- The loop appends the bytes of the registers to what is in the buffer already.
pub read_from_lem :
    (regs : RegMap) (start i n : ℕ) (buf : List ℕ)
    → (i + n) * 2 ≤ length buf
    → let (done, buf') = read_from regs start i n buf in
      ((bs : List ℕ) × (block regs start i n ≡ some bs)
        × (done ≡ true)
        × (take ((i + n) * 2) buf' ≡ take (i * 2) buf ++ bs))
      ⊎ ((block regs start i n ≡ none) × (done ≡ false))
unfolding read_from
read_from_lem regs start i zero buf h =
    inl ([], refl, refl, ap (λ k. take k buf) (omega arith) ∙ sym (append-nil (take (i * 2) buf)))
read_from_lem regs start i (suc n) buf h = elim (Option-cases (reg_value regs (u16 (start + i)))) [
  | inl e ↦ rw (block, read_from, e) (inr (refl, refl))
  | inr (v, e) ↦
      let whole = take-put_be16 buf (i * 2) v (omega arith) in
      let next = put_be16 buf (i * 2) v in
      let ih =
        read_from_lem regs start (i + 1) n (put_be16 buf (i * 2) v)
          (omega (arith, length-put_be16 buf (i * 2) v)) in
      elim ih [
        | inl (bs, more, done, bytes) ↦
            let joined =
              ap (λ k. take k (read_from regs start (i + 1) n next).1) (omega arith)
              ∙ bytes
              ∙ ap (λ k. take k next ++ bs) (omega arith)
              ∙ ap (λ t. t ++ bs) whole
              ∙ append_assoc (take (i * 2) buf) (u8 (shr v 8) ∷ low_bits v 8 ∷ []) bs in
            rw (block, read_from, e, more) (inl (_, refl, done, joined))
        | inr (more, done) ↦ rw (block, read_from, e, more) (inr (refl, done))
      ]
]

-- A read of a block fills the buffer with all its registers, high byte first, if it has 1 to 125
-- registers that all exist and the buffer has room; otherwise it is refused, for one of these
-- reasons.
pub regs_read_lem :
    (regs : RegMap) (start quantity : ℕ) (buf : List ℕ) (cap : ℕ)
    → cap ≤ length buf
    → let (done, buf') = mb_regs_read regs start quantity buf cap in
      ((bs : List ℕ) × (block regs start 0 quantity ≡ some bs)
        × (done ≡ true)
        × (0 < quantity)
        × (quantity ≤ 125)
        × (quantity * 2 ≤ cap)
        × (take (quantity * 2) buf' ≡ bs))
      ⊎ ((done ≡ false)
          × ((quantity ≡ 0)
              ⊎ ((125 < quantity) ⊎ ((cap < quantity * 2) ⊎ (block regs start 0 quantity ≡ none)))))
unfolding mb_regs_read
regs_read_lem regs start quantity buf cap room = elim (Bool-cases (quantity == 0)) [
  | inl e ↦ rw e (inr (refl, inl (ground arith)))
  | inr some_regs ↦ elim (Bool-cases (ltb 125 quantity)) [
    | inl e ↦ rw (some_regs, e) (inr (refl, inr (inl (ground arith))))
    | inr few ↦ elim (Bool-cases (ltb cap (quantity * 2))) [
      | inl e ↦ rw (some_regs, few, e) (inr (refl, inr (inr (inl (ground arith)))))
      | inr fits ↦
          rw (some_regs, few, fits)
            (elim (read_from_lem regs start 0 quantity buf (ground arith)) [
              | inl (bs, e, done, bytes) ↦ inl (
                bs,
                e,
                done,
                ground arith,
                ground arith,
                ground arith,
                ap (λ k. take k (read_from regs start 0 quantity buf).1) (omega arith) ∙ bytes,
              )
              | inr (e, done) ↦ inr (done, inr (inr (inr e)))
            ])
    ]
  ]
]

-- The registers that exist are the eight inputs from 0 and the three settings from 0x100.
reg_value-exists_iff :
    (regs : RegMap) (addr : ℕ)
    → (reg_value regs addr ≡ none) ↔ ((7 < addr) × ((addr < 0x100) ⊎ (0x102 < addr)))
unfolding reg_value
reg_value-exists_iff regs addr = ground arith

kept_on :
    (regs : RegMap) (z : ℤ) (other : ℕ)
    → other ≢ 0x100
    → reg_value (record regs { cfg_margin_on_cd = z }) other ≡ reg_value regs other
unfolding reg_value
kept_on regs z other h = ground arith

kept_off :
    (regs : RegMap) (z : ℤ) (other : ℕ)
    → other ≢ 0x101
    → reg_value (record regs { cfg_margin_off_cd = z }) other ≡ reg_value regs other
unfolding reg_value
kept_off regs z other h = ground arith

kept_sample :
    (regs : RegMap) (n other : ℕ)
    → other ≢ 0x102
    → reg_value (record regs { cfg_sample_ms = n }) other ≡ reg_value regs other
unfolding reg_value
kept_sample regs n other h = ground arith

read_on :
    (regs : RegMap) (z : ℤ)
    → reg_value (record regs { cfg_margin_on_cd = z }) 0x100 ≡ some (to_u16 z)
unfolding reg_value
read_on regs z = refl

read_off :
    (regs : RegMap) (z : ℤ)
    → reg_value (record regs { cfg_margin_off_cd = z }) 0x101 ≡ some (to_u16 z)
unfolding reg_value
read_off regs z = refl

read_sample : (regs : RegMap) (n : ℕ) → reg_value (record regs { cfg_sample_ms = n }) 0x102 ≡ some n
unfolding reg_value
read_sample regs n = refl

equal : (a b : ℕ) → (a == b) ≡ true → a ≡ b
equal a b h = ground arith

-- A write is accepted for the three settings alone, and no period of 0; then the register reads
-- back as the value and every other register as before. A write that is refused changes nothing.
write_single_lem :
    (regs : RegMap) (addr value : ℕ)
    → value < 2 ^ 16
    → let (done, regs') = mb_regs_write_single regs addr value in
      ((done ≡ true)
        × (0x100 ≤ addr)
        × (addr ≤ 0x102)
        × (reg_value regs' addr ≡ some value)
        × ((other : ℕ) → other ≢ addr → reg_value regs' other ≡ reg_value regs other))
      ⊎ ((done ≡ false)
          × (regs' ≡ regs)
          × ((addr < 0x100) ⊎ ((0x102 < addr) ⊎ ((addr ≡ 0x102) × (value ≡ 0)))))
unfolding mb_regs_write_single
write_single_lem regs addr value small = elim (Bool-cases (addr == 0x100)) [
  | inl e ↦ rw (equal addr 0x100 e) (
      inl (
        refl,
        omega arith,
        omega arith,
        read_on regs _ ∙ ap some (to_u16-signed16 value small),
        kept_on regs _,
      ))
  | inr not_on ↦ elim (Bool-cases (addr == 0x101)) [
    | inl e ↦ rw (equal addr 0x101 e) (
        inl (
          refl,
          omega arith,
          omega arith,
          read_off regs _ ∙ ap some (to_u16-signed16 value small),
          kept_off regs _,
        ))
    | inr not_off ↦ elim (Bool-cases (addr == 0x102)) [
      | inl e ↦ elim (Bool-cases (value == 0)) [
        | inl z ↦ rw (equal addr 0x102 e, z) (inr (refl, refl, inr (inr (refl, equal value 0 z))))
        | inr z ↦
            rw (equal addr 0x102 e, z)
              (inl (refl, omega arith, omega arith, read_sample regs value, kept_sample regs value))
      ]
      | inr e ↦ rw (not_on, not_off, e) (inr (refl, refl, ground arith))
    ]
  ]
]
