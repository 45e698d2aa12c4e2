-- ===== src/Service/Modbus/Build.antt =====
-- The frames that the builders make: their bytes, and that the checksum in them is valid.
use climate_node.Prelude.{
  ℕ, ◌+◌, ◌/◌, ◌%◌, ◌^◌, ◌≤◌, ◌<◌, ◌≡◌, refl, ◌⊎◌, append_assoc, append-nil, take-set_end, take_all,
  ◌∙◌, sym, ap, arith, true, false, some, List, [], ◌∷◌, ◌++◌, u8, shr, low_bits, ltb, length, set,
  take, length-set, inl, inr,
}
use climate_node.Service.Modbus.{
  crc_bytes, modbus_crc16, copy_from, put_crc, modbus_build_response, modbus_build_exception,
}
use climate_node.Service.Modbus.Crc.{AllBytes, crc_bytes_lt}
use climate_node.Prelude.Bits.{bit_or_fields}
use Prim.Native.Nat.{bit_or}

-- The frame the protocol asks for: address, function, payload and the checksum of these, its low
-- byte first.
abbrev pub crc_tail : List ℕ → List ℕ
crc_tail body = let crc = crc_bytes 0xffff body in crc % 2 ^ 8 ∷ crc / 2 ^ 8 ∷ []

abbrev pub rtu_frame : ℕ → ℕ → List ℕ → List ℕ
rtu_frame slave function payload =
    (slave ∷ function ∷ payload) ++ crc_tail (slave ∷ function ∷ payload)

headed_lem : (out : List ℕ) (a f : ℕ) → 2 ≤ length out → take 2 (set (set out 0 a) 1 f) ≡ a ∷ f ∷ []
headed_lem [] a f h = absurd (omega arith)
headed_lem (x ∷ []) a f h = absurd (omega arith)
headed_lem (x ∷ y ∷ out) a f h = refl

length-copy_from : (buf : List ℕ) (i : ℕ) (bs : List ℕ) → length (copy_from buf i bs) ≡ length buf
unfolding copy_from
length-copy_from buf i [] = refl
length-copy_from buf i (b ∷ bs) = length-copy_from (set buf i b) (i + 1) bs ∙ length-set buf i b

take-copy_from :
    (buf : List ℕ) (i : ℕ) (bs : List ℕ)
    → i + length bs ≤ length buf
    → take (i + length bs) (copy_from buf i bs) ≡ take i buf ++ bs
unfolding copy_from
take-copy_from buf i [] h = ap (λ n. take n buf) (omega arith) ∙ sym (append-nil (take i buf))
take-copy_from buf i (b ∷ bs) h =
    let room = length-set buf i b in
    ap (λ n. take n (copy_from (set buf i b) (i + 1) bs)) (omega arith)
    ∙ take-copy_from (set buf i b) (i + 1) bs (omega arith)
    ∙ ap (λ t. t ++ bs) (take-set_end i buf b (omega arith))
    ∙ append_assoc (take i buf) (b ∷ []) bs

pub take-put_crc :
    (buf : List ℕ) (n : ℕ)
    → 0 < n
    → n + 2 ≤ length buf
    → AllBytes (take n buf)
    → take (n + 2) (put_crc buf n) ≡ take n buf ++ crc_tail (take n buf)
unfolding put_crc modbus_crc16
take-put_crc buf n pos room bytes =
    let crc = crc_bytes 0xffff (take n buf) in
    let small = crc_bytes_lt 0xffff (take n buf) (omega arith) bytes in
    let some_bytes : modbus_crc16 (some buf) n ≡ crc = ground arith in
    let high : u8 (shr crc 8) ≡ crc / 2 ^ 8 = omega arith in
    rw (some_bytes, high)
      (ap (λ k. take k (set (set buf n (low_bits crc 8)) (n + 1) (crc / 2 ^ 8))) (omega arith)
        ∙ take-set_end (n + 1) (set buf n (low_bits crc 8)) (crc / 2 ^ 8)
            (omega (arith, length-set buf n (low_bits crc 8)))
        ∙ ap (λ t. t ++ (crc / 2 ^ 8 ∷ [])) (take-set_end n buf (low_bits crc 8) (omega arith))
        ∙ append_assoc (take n buf) (low_bits crc 8 ∷ []) (crc / 2 ^ 8 ∷ []))

room_cases : (a b : ℕ) → (a ≤ b) ⊎ (b < a)
room_cases a b = ground arith

-- The buffer just before the checksum.
filled :
    (a f : ℕ) (payload out : List ℕ)
    → length payload + 2 ≤ length out
    → take
        (2 + length payload)
        (copy_from (set (set out 0 a) 1 f) 2 (take (length payload) payload))
      ≡ a ∷ f ∷ payload
filled a f payload out room =
    let headed = set (set out 0 a) 1 f in
    let size : length headed ≡ length out = length-set (set out 0 a) 1 f ∙ length-set out 0 a in
    rw (take_all (length payload) payload (omega arith)) (
      take-copy_from headed 2 payload (omega arith)
      ∙ ap (λ t. t ++ payload) (headed_lem out a f (omega arith)))

-- With room for the frame, the builder puts exactly the frame of the protocol at the start of the
-- buffer and returns its length; without room it returns 0.
pub build_response_lem :
    (a f : ℕ) (payload out : List ℕ) (cap : ℕ)
    → 0 < length payload
    → cap ≤ length out
    → AllBytes (a ∷ f ∷ payload)
    → let (len, buf) = modbus_build_response a f (some payload) (length payload) out cap in
      ((length payload + 4 ≤ cap)
        × (len ≡ length payload + 4)
        × (take len buf ≡ rtu_frame a f payload))
      ⊎ ((cap < length payload + 4) × (len ≡ 0))
unfolding modbus_build_response
build_response_lem a f payload out cap pos room bytes = elim (room_cases (length payload + 4) cap) [
  | inr h ↦ inr (h, ground arith)
  | inl h ↦
      let p = length payload in
      let buf = copy_from (set (set out 0 a) 1 f) 2 (take p payload) in
      let long : ltb cap 5 ≡ false = ground arith in
      let some_bytes : ltb 0 p ≡ true = ground arith in
      let fits : ltb cap (2 + p + 2) ≡ false = ground arith in
      let size : length buf ≡ length out =
        length-copy_from (set (set out 0 a) 1 f) 2 (take p payload)
        ∙ length-set (set out 0 a) 1 f
        ∙ length-set out 0 a in
      let start = filled a f payload out (omega arith) in
      rw (long, some_bytes, fits)
        (inl (
          h,
          omega arith,
          take-put_crc buf (2 + p) (omega arith) (omega arith) (rw start bytes)
              ∙ ap (λ body. body ++ crc_tail body) start,
        ))
]

-- A reply with an exception code, to a function code below 128, is the frame whose function has
-- its top bit set and whose payload is the code.
pub build_exception_lem :
    (a f code : ℕ) (out : List ℕ) (cap : ℕ)
    → 5 ≤ cap
    → cap ≤ length out
    → a < 2 ^ 8
    → f < 2 ^ 7
    → code < 2 ^ 8
    → let (len, buf) = modbus_build_exception a f code out cap in
      (len ≡ 5) × (take len buf ≡ rtu_frame a (f + 2 ^ 7) (code ∷ []))
unfolding modbus_build_exception
build_exception_lem a f code out cap long room small_a small_f small_code =
    let marked : bit_or f 0x80 ≡ f + 2 ^ 7 = bit_or_fields 7 1 f small_f ∙ omega arith in
    let roomy : ltb cap 5 ≡ false = ground arith in
    let headed = set (set out 0 a) 1 (f + 2 ^ 7) in
    let size : length headed ≡ length out =
      length-set (set out 0 a) 1 (f + 2 ^ 7) ∙ length-set out 0 a in
    let start : take 3 (set headed 2 code) ≡ a ∷ (f + 2 ^ 7) ∷ code ∷ [] =
      take-set_end 2 headed code (omega arith)
      ∙ ap (λ t. t ++ (code ∷ [])) (headed_lem out a (f + 2 ^ 7) (omega arith)) in
    rw (roomy, marked)
      (
        refl,
        take-put_crc (set headed 2 code) 3 (omega arith) (omega (arith, length-set headed 2 code))
              (rw start (small_a, (omega arith, (small_code, tt))))
            ∙ ap (λ body. body ++ crc_tail body) start,
      )
