-- ===== src/Service/Modbus.antt =====
-- src/service/modbus.c and include/service/modbus.h: the CRC, the request parser and the two
-- response builders. A buffer is a list of bytes; a buffer that may be null is an option. The output
-- structure of the parser is never null and is passed in and returned.
pub mod Crc
pub mod Parse
pub mod Build
use climate_node.Prelude.{
  ℕ, zero, suc, ◌+◌, ◌-◌, ◌%◌, ◌^◌, Bool, true, false, not, ◌&&◌, ◌||◌, Option, none, some, List,
  [], ◌∷◌, u8, u16, shr, shl, low_bits, ltb, leb, ◌==◌, if◌then◌else◌, length, get_or, set, take,
  drop,
}
use Prim.Native.Nat.{bit_or, bit_xor}
use Prim.Native.String.{String}

-- One round of the inner loop on a bit.
unfoldable pub crc_bit : ℕ → ℕ
crc_bit crc = if not (low_bits crc 1 == 0) then bit_xor (shr crc 1) 0xa001 else shr crc 1

unfoldable pub crc_bits : ℕ → ℕ → ℕ
crc_bits zero crc = crc
crc_bits (suc n) crc = crc_bits n (crc_bit crc)

-- The body of the outer loop on a byte, and the loop.
unfoldable pub crc_byte : ℕ → ℕ → ℕ
crc_byte crc byte = crc_bits 8 (bit_xor crc byte)

unfoldable pub crc_bytes : ℕ → List ℕ → ℕ
crc_bytes crc [] = crc
crc_bytes crc (b ∷ bs) = crc_bytes (crc_byte crc b) bs

unfoldable pub modbus_crc16 : Option (List ℕ) → ℕ → ℕ
modbus_crc16 buf len =
    if len == 0
    then 0xffff
    else elim buf [ none ↦ 0 | some bytes ↦ crc_bytes 0xffff (take len bytes) ]

-- The two bytes of the checksum, the low one first.
unfoldable pub received_crc : List ℕ → ℕ → ℕ
received_crc frame len = bit_or (get_or frame (len - 2) 0) (u16 (shl (get_or frame (len - 1) 0) 8))

unfoldable pub modbus_frame_has_valid_crc : Option (List ℕ) → ℕ → Bool
modbus_frame_has_valid_crc none len = false
modbus_frame_has_valid_crc (some frame) len =
    if ltb len 3 then false else modbus_crc16 (some frame) (len - 2) == received_crc frame len

-- `modbus_parse_err_t`
pub data ParseErr : Type 0 where
  ok : ParseErr
  invalid_arg : ParseErr
  short_frame : ParseErr
  bad_crc : ParseErr
  bad_addr : ParseErr
  unsupported_func : ParseErr
  bad_length : ParseErr

unfoldable pub modbus_parse_err_str : ParseErr → String
modbus_parse_err_str ok = "OK"
modbus_parse_err_str invalid_arg = "INVALID_ARG"
modbus_parse_err_str short_frame = "SHORT_FRAME"
modbus_parse_err_str bad_crc = "CRC"
modbus_parse_err_str bad_addr = "BAD_ADDR"
modbus_parse_err_str unsupported_func = "UNSUPPORTED_FUNC"
modbus_parse_err_str bad_length = "BAD_LENGTH"

-- `modbus_request_t`; `bytes` is what the pointer `data` sees of the frame.
pub record Request : Type 0 where
  pub slave_addr : ℕ
  pub function : ℕ
  pub bytes : Option (List ℕ)
  pub data_len : ℕ

-- The `switch` on the function code.
unfoldable pub check_function : ℕ → ℕ → ParseErr
check_function function payload_len =
    if function == 0x03 || function == 0x06
    then if not (payload_len == 4) then bad_length else ok
    else unsupported_func

unfoldable pub modbus_parse_request : Option (List ℕ) → ℕ → ℕ → Request → ParseErr × Request
modbus_parse_request none len own out = (invalid_arg, out)
modbus_parse_request (some frame) len own out =
    if ltb len 5
    then (short_frame, out)
    else if not (modbus_frame_has_valid_crc (some frame) len)
    then (bad_crc, out)
    else let slave_addr = get_or frame 0 0 in
      let function = get_or frame 1 0 in
      if not (slave_addr == own) && not (slave_addr == 0) then (bad_addr, out) else (
        check_function function (len - 4),
        record {
          slave_addr = slave_addr;
          function = function;
          bytes = some (drop 2 frame);
          data_len = len - 4;
        },
      )

-- The loop that copies the payload into the buffer from index `i` on.
unfoldable pub copy_from : List ℕ → ℕ → List ℕ → List ℕ
copy_from buf i [] = buf
copy_from buf i (b ∷ bs) = copy_from (set buf i b) (i + 1) bs

unfoldable pub put_crc : List ℕ → ℕ → List ℕ
put_crc buf n =
    let crc = modbus_crc16 (some buf) n in set (set buf n (low_bits crc 8)) (n + 1) (u8 (shr crc 8))

-- The result is the number of bytes of the frame, 0 for none, and the buffer. Past the first guard
-- there is room for four bytes, so the test of that on an empty payload is left out. A write out of
-- bounds changes nothing; it takes a null payload with a length.
unfoldable pub modbus_build_response : ℕ → ℕ → Option (List ℕ) → ℕ → List ℕ → ℕ → ℕ × List ℕ
modbus_build_response slave_addr function payload payload_len out_buf out_cap =
    if ltb out_cap 5
    then (0, out_buf)
    else let headed = set (set out_buf 0 slave_addr) 1 function in
      let total = 2 + payload_len in
      elim payload [
        | none ↦ (total + 2, put_crc headed total)
        | some bytes ↦
            if ltb 0 payload_len
            then if ltb out_cap (2 + payload_len + 2)
              then (0, headed)
              else (total + 2, put_crc (copy_from headed 2 (take payload_len bytes)) total)
            else (total + 2, put_crc headed total)
      ]

unfoldable pub modbus_build_exception : ℕ → ℕ → ℕ → List ℕ → ℕ → ℕ × List ℕ
modbus_build_exception slave_addr original_func exception_code out_buf out_cap =
    if ltb out_cap 5
    then (0, out_buf)
    else let headed = set (set out_buf 0 slave_addr) 1 (bit_or original_func 0x80) in
      (5, put_crc (set headed 2 exception_code) 3)
