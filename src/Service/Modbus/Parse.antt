-- ===== src/Service/Modbus/Parse.antt =====
-- What the parser accepts, and that it reads back what a builder made.
use climate_node.Prelude.{
  ℕ, ◌+◌, ◌-◌, ◌/◌, ◌%◌, ◌^◌, ◌<◌, ◌≡◌, ◌⊎◌, ◌↔◌, refl, ◌∙◌, sym, ap, arith, true, false, some,
  List, [], ◌∷◌, ◌++◌, ltb, ◌==◌, length, get_or, take, take-append_left, get_or-append_at,
}
use climate_node.Service.Modbus.{
  ParseErr, Request, check_function, crc_bytes, modbus_frame_has_valid_crc, modbus_parse_request,
}
use ParseErr.{ok}
use climate_node.Service.Modbus.Crc.{AllBytes, crc_bytes_lt, received_crc_lem, valid_crc_lem}
use climate_node.Service.Modbus.Build.{crc_tail, rtu_frame}

AllBytes-append : (xs ys : List ℕ) → AllBytes xs → AllBytes ys → AllBytes (xs ++ ys)
AllBytes-append [] ys h k = k
AllBytes-append (x ∷ xs) ys (p, q) k = (p, AllBytes-append xs ys q k)

-- Any bytes followed by their checksum are a frame with a valid checksum.
pub valid-crc_tail :
    (body : List ℕ)
    → 0 < length body
    → AllBytes body
    → modbus_frame_has_valid_crc (some (body ++ crc_tail body)) (length body + 2) ≡ true
valid-crc_tail body pos bytes =
    let n = length body in
    let crc = crc_bytes 0xffff body in
    let small = crc_bytes_lt 0xffff body (omega arith) bytes in
    let frame = body ++ crc_tail body in
    let all : AllBytes frame =
      AllBytes-append body (crc_tail body) bytes (omega arith, (omega arith, tt)) in
    let lo : get_or frame (n + 2 - 2) 0 ≡ crc % 2 ^ 8 =
      get_or-append_at body (crc_tail body) 0 (n + 2 - 2) 0 (omega arith) in
    let hi : get_or frame (n + 2 - 1) 0 ≡ crc / 2 ^ 8 =
      get_or-append_at body (crc_tail body) 1 (n + 2 - 1) 0 (omega arith) in
    let data_part : take (n + 2 - 2) frame ≡ body =
      ap (λ k. take k frame) (omega arith) ∙ take-append_left body (crc_tail body) in
    (valid_crc_lem frame (n + 2) (omega arith)).1
      (ap (crc_bytes 0xffff) data_part ∙ sym (received_crc_lem frame (n + 2) all ∙ omega arith))

-- The parser accepts a frame exactly if it has 8 bytes, its checksum is valid, it is sent to this
-- slave or to all, and its function is 3 or 6.
pub parse_request-ok_iff :
    (frame : List ℕ) (own : ℕ) (out : Request)
    → let (err, req) = modbus_parse_request (some frame) (length frame) own out in
      (err ≡ ok) ↔ (
        (length frame ≡ 8)
        × (modbus_frame_has_valid_crc (some frame) (length frame) ≡ true)
        × ((get_or frame 0 0 ≡ own) ⊎ (get_or frame 0 0 ≡ 0))
        × ((get_or frame 1 0 ≡ 3) ⊎ (get_or frame 1 0 ≡ 6)))
unfolding modbus_parse_request check_function
parse_request-ok_iff frame own out = ground arith

pub parse-rtu_frame :
    (a f : ℕ) (payload : List ℕ) (req : Request)
    → 0 < length payload
    → AllBytes (a ∷ f ∷ payload)
    → modbus_parse_request (some (rtu_frame a f payload)) (length payload + 4) a req ≡ (
      check_function f (length payload),
      record {
        slave_addr = a;
        function = f;
        bytes = some (payload ++ crc_tail (a ∷ f ∷ payload));
        data_len = length payload;
      },
    )
unfolding modbus_parse_request
parse-rtu_frame a f payload req pos bytes =
    let n = length payload in
    let long : ltb (n + 4) 5 ≡ false = ground arith in
    let own : (a == a) ≡ true = ground arith in
    let size : n + 4 - 4 ≡ n = omega arith in
    let valid : modbus_frame_has_valid_crc (some (rtu_frame a f payload)) (n + 4) ≡ true =
      ap (modbus_frame_has_valid_crc (some (rtu_frame a f payload))) (omega arith)
      ∙ valid-crc_tail (a ∷ f ∷ payload) (omega arith) bytes in
    rw (long, valid, own, size) refl
