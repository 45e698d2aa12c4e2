-- ===== src/App/Mcu/Reply.antt =====
-- The frame that answers each request, against a description of the device's replies.
use climate_node.Prelude.{
  ℕ, zero, suc, ◌+◌, ◌*◌, ◌^◌, ◌≤◌, ◌<◌, ◌≡◌, ◌∙◌, refl, ap, subst, inl, inr, arith, Bool, false,
  not, ◌&&◌, leb, ◌||◌, Option, none, some, List, [], ◌∷◌, ◌++◌, u8, u16, ltb, ◌==◌, if◌then◌else◌,
  length, take, drop, Bool-cases, Option-cases,
}
use climate_node.Service.Modbus.{Request, put_crc}
use climate_node.Service.Modbus.Crc.{AllBytes}
use climate_node.Service.Modbus.Build.{rtu_frame, crc_tail, take-put_crc, build_exception_lem}
use climate_node.Service.ModbusRegs.{RegMap, reg_value, mb_regs_read, mb_regs_write_single}
use climate_node.Service.ModbusRegs.Laws.{block, length-mb_regs_read, regs_read_lem}
use climate_node.Service.Storage.Persist.{FlashOps}
use climate_node.App.Mcu.{McuOps, Mcu}
use climate_node.App.Mcu.Handler.{
  resp_buf, data_at, be16_at, exception, write_single, read_holding, echo, respond,
}

-- The exception reply to a function, with a code.
abbrev pub refusal : Request → ℕ → ℕ → List ℕ
refusal req function code = rtu_frame req.slave_addr (function + 2 ^ 7) (code ∷ [])

-- The reply to a read: the registers' bytes after their count, code 3 for a bad quantity, or code 2
-- for a register that does not exist.
abbrev pub read_reply : Request → RegMap → List ℕ
read_reply req regs =
    let quantity = be16_at req 2 in
    if quantity == 0 || ltb 125 quantity
    then refusal req 3 3
    else elim (block regs (be16_at req 0) 0 quantity) [
      | none ↦ refusal req 3 2
      | some bs ↦ rtu_frame req.slave_addr 3 (quantity * 2 ∷ bs)
    ]

abbrev BytesIn : Option (List ℕ) → Type 0
BytesIn none = Unit {0}
BytesIn (some bs) = AllBytes bs

block-BytesIn : (regs : RegMap) (start i n : ℕ) → BytesIn (block regs start i n)
block-BytesIn regs start i zero = tt
block-BytesIn regs start i (suc n) = elim (Option-cases (reg_value regs (u16 (start + i)))) [
  | inl e ↦ rw (block, e) tt
  | inr (v, e) ↦ elim (Option-cases (block regs start (i + 1) n)) [
    | inl none_left ↦ rw (block, e, none_left) tt
    | inr (bs, some_left) ↦
        rw (block, e, some_left)
          (omega arith, (omega arith, subst BytesIn some_left (block-BytesIn regs start (i + 1) n)))
  ]
]

-- The frame in the buffer: the head, the bytes after it and the checksum.
framed :
    (a b c : ℕ) (tail bs : List ℕ) (n : ℕ)
    → AllBytes (a ∷ b ∷ c ∷ bs)
    → take n tail ≡ bs
    → n + 2 ≤ length tail
    → take (3 + n + 2) (put_crc (a ∷ b ∷ c ∷ tail) (3 + n)) ≡ rtu_frame a b (c ∷ bs)
framed a b c tail bs n bytes h room =
    let three : 3 + n ≡ suc (suc (suc n)) = omega arith in
    let start : take (3 + n) (a ∷ b ∷ c ∷ tail) ≡ a ∷ b ∷ c ∷ bs = rw (three, h) refl in
    take-put_crc (a ∷ b ∷ c ∷ tail) (3 + n) (omega arith) (omega arith) (rw start bytes)
    ∙ ap (λ body. body ++ crc_tail body) start

refusal_lem :
    (req : Request) (function code : ℕ) (buf : List ℕ)
    → req.slave_addr < 2 ^ 8
    → function < 2 ^ 7
    → code < 2 ^ 8
    → 260 ≤ length buf
    → let (len, out) = exception req function code buf in take len out ≡ refusal req function code
refusal_lem req function code buf a b c room =
    (build_exception_lem req.slave_addr function code buf 260 (omega arith) room a b c).1

-- What the buffer holds after the registers are read into it.
read_block :
    (req : Request) (regs : RegMap)
    → req.slave_addr < 2 ^ 8
    → req.data_len ≡ 4
    → (be16_at req 2 == 0 || ltb 125 (be16_at req 2)) ≡ false
    → let (len, buf) = read_holding req regs in take len buf ≡ read_reply req regs
unfolding read_holding
read_block req regs small four fine =
    let q = be16_at req 2 in
    let start = be16_at req 0 in
    let tail = drop 3 resp_buf in
    let fits : ltb 260 (5 + q * 2) ≡ false = ground arith in
    let count : u8 (q * 2) ≡ q * 2 = ground arith in
    let long : 257 ≤ length (mb_regs_read regs start q tail (q * 2)).1 =
      omega (arith, length-mb_regs_read regs start q tail (q * 2)) in
    elim (regs_read_lem regs start q tail (q * 2) (ground arith)) [
      | inl (bs, e, done, pos, few, cap, bytes) ↦
          rw (four, fine, fits, done, count, e)
            (framed req.slave_addr 3 (q * 2) _ bs (q * 2)
              (small, (omega arith, (omega arith, subst BytesIn e (block-BytesIn regs start 0 q))))
              bytes (omega arith))
      | inr (done, reason) ↦
          let e : block regs start 0 q ≡ none = ground arith in
          rw (four, fine, fits, done, count, e)
            (refusal_lem req 3 2 _ small (omega arith) (omega arith) (omega (arith, long)))
    ]

-- The reply to a read of four data bytes is the one described, on every branch.
read_holding_lem :
    (req : Request) (regs : RegMap)
    → req.slave_addr < 2 ^ 8
    → req.data_len ≡ 4
    → let (len, buf) = read_holding req regs in take len buf ≡ read_reply req regs
unfolding read_holding
read_holding_lem req regs small four =
    elim (Bool-cases (be16_at req 2 == 0 || ltb 125 (be16_at req 2))) [
      | inl bad ↦
          rw (four, bad)
            (refusal_lem req 3 3 resp_buf small (omega arith) (omega arith) (omega arith))
      | inr fine ↦ read_block req regs small four fine
    ]

-- The writes that are accepted: to a setting, and no period of 0.
abbrev pub is_writable : ℕ → ℕ → Bool
is_writable addr value = leb 0x100 addr && leb addr 0x102 && not (addr == 0x102 && value == 0)

pub writable_lem :
    (regs : RegMap) (addr value : ℕ)
    → (mb_regs_write_single regs addr value).0 ≡ is_writable addr value
unfolding mb_regs_write_single
writable_lem regs addr value = ground arith

-- The address and the value of a write as the request has them.
abbrev pub request_bytes : Request → List ℕ
request_bytes req = data_at req 0 ∷ data_at req 1 ∷ data_at req 2 ∷ data_at req 3 ∷ []

echo_lem :
    (req : Request)
    → AllBytes (req.slave_addr ∷ request_bytes req)
    → let (len, buf) = echo req in take len buf ≡ rtu_frame req.slave_addr 6 (request_bytes req)
echo_lem req (a, (b, (c, (d, (e, t))))) =
    take-put_crc _ 6 (omega arith) (omega arith) (a, (omega arith, (b, (c, (d, (e, t))))))

-- The device's reply to a request of four data bytes, a broadcast too: the registers, the echo of an accepted write, code 2 for
-- a write that is not, or code 1 for any other function.
abbrev pub reply : Request → RegMap → List ℕ
reply req regs =
    if req.function == 3
    then read_reply req regs
    else if req.function == 6
    then if is_writable (be16_at req 0) (be16_at req 2)
      then rtu_frame req.slave_addr 6 (request_bytes req)
      else refusal req 6 2
    else refusal req req.function 1

module _ {F D U : Type 0} (fops : FlashOps F) (ops : McuOps U) where
  write_single_reply :
      (req : Request) (c : Mcu F D U)
      → AllBytes (req.slave_addr ∷ request_bytes req)
      → req.data_len ≡ 4
      → let (len, buf) = (write_single fops ops req c).0 in
        take len buf ≡ (
          if is_writable (be16_at req 0) (be16_at req 2)
          then rtu_frame req.slave_addr 6 (request_bytes req)
          else refusal req 6 2)
  unfolding write_single
  write_single_reply req c bytes four =
      let same = writable_lem c.regs (be16_at req 0) (be16_at req 2) in
      elim (Bool-cases (is_writable (be16_at req 0) (be16_at req 2))) [
        | inl good ↦ rw (four, same, good) (echo_lem req bytes)
        | inr bad ↦
            rw (four, same, bad)
              (refusal_lem req 6 2 resp_buf bytes.0 (omega arith) (omega arith) (omega arith))
      ]

  -- The bytes that answer a request of four data bytes and a function below 128 are those of the
  -- device's reply, with its checksum, on every branch.
  pub respond_lem :
      (req : Request) (c : Mcu F D U)
      → AllBytes (req.slave_addr ∷ request_bytes req)
      → req.function < 2 ^ 7
      → req.data_len ≡ 4
      → let (len, buf) = (respond fops ops req c).0 in take len buf ≡ reply req c.regs
  unfolding respond
  respond_lem req c bytes small four = elim (Bool-cases (req.function == 3)) [
    | inl read ↦ rw read (read_holding_lem req c.regs bytes.0 four)
    | inr other ↦ elim (Bool-cases (req.function == 6)) [
      | inl write ↦ rw (other, write) (write_single_reply req c bytes four)
      | inr unknown ↦
          rw (other, unknown)
            (refusal_lem req req.function 1 resp_buf bytes.0 small (omega arith) (omega arith))
    ]
  ]
