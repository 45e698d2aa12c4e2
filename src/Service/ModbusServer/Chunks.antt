-- ===== src/Service/ModbusServer/Chunks.antt =====
-- The callback of src/service/modbus_server.c on a chunk of received bytes: it takes each chunk for a whole
-- frame.
use climate_node.Prelude.{
  ℕ, zero, suc, ◌+◌, ◌≡◌, ◌≢◌, ◌⊎◌, ◌∙◌, refl, ap, arith, true, some, List, [], ◌∷◌, ◌++◌, length,
  take, drop, u32, ◌==◌,
}
use climate_node.Service.Modbus.{
  ParseErr, Request, check_function, modbus_parse_request, modbus_frame_has_valid_crc, modbus_crc16,
  received_crc,
}
use climate_node.Service.Modbus.Crc.{AllBytes}
use climate_node.Service.Modbus.Build.{crc_tail, rtu_frame}
use climate_node.Service.Modbus.Parse.{valid-crc_tail}
use climate_node.Service.ModbusServer.{
  Event, UartEvent, Server, on_parsed, modbus_uart_event_callback,
}

-- Bytes after a frame do not matter to its checksum.
valid_prefix :
    (a f p q r t : ℕ) (rest : List ℕ)
    → AllBytes (a ∷ f ∷ p ∷ q ∷ r ∷ t ∷ [])
    → modbus_frame_has_valid_crc (some (rtu_frame a f (p ∷ q ∷ r ∷ t ∷ []) ++ rest)) 8 ≡ true
unfolding modbus_frame_has_valid_crc modbus_crc16 received_crc
valid_prefix a f p q r t rest bytes =
    valid-crc_tail (a ∷ f ∷ p ∷ q ∷ r ∷ t ∷ []) (omega arith) bytes

parse_len :
    (frame : List ℕ) (len own : ℕ) (out : Request)
    → (modbus_parse_request (some frame) len own out).0 ≡ ParseErr.ok
    → len ≡ 8
unfolding modbus_parse_request check_function
parse_len frame len own out h = ground arith

take-append_drop : (n : ℕ) (xs : List ℕ) → xs ≡ take n xs ++ drop n xs
take-append_drop zero xs = refl
take-append_drop (suc n) [] = refl
take-append_drop (suc n) (x ∷ xs) = ap (λ t. x ∷ t) (take-append_drop n xs)

accepted : (f : ℕ) → (f ≡ 3) ⊎ (f ≡ 6) → check_function f 4 ≡ ParseErr.ok
unfolding check_function
accepted f h = ground arith

parse_prefix :
    (a f p q r t : ℕ) (rest : List ℕ) (out : Request)
    → AllBytes (a ∷ f ∷ p ∷ q ∷ r ∷ t ∷ [])
    → (f ≡ 3) ⊎ (f ≡ 6)
    → let payload = p ∷ q ∷ r ∷ t ∷ [] in
      modbus_parse_request (some (rtu_frame a f payload ++ rest)) 8 a out ≡ (
        ParseErr.ok,
        record {
          slave_addr = a;
          function = f;
          bytes = some ((payload ++ crc_tail (a ∷ f ∷ payload)) ++ rest);
          data_len = 4;
        },
      )
unfolding modbus_parse_request
parse_prefix a f p q r t rest out small func =
    let own : (a == a) ≡ true = ground arith in
    rw (valid_prefix a f p q r t rest small, own, accepted f func) refl

module _ {W : Type 0} (ready : Request → W → W) where
  -- What an error of the parser does.
  parsed_refused :
      (e : ParseErr) (s : Server W) (w : W)
      → e ≢ ParseErr.ok
      → let (s', w') = on_parsed e ready s w in
        (s'.event ≢ Event.request)
        × (s'.frame_count ≡ s.frame_count)
        × (s'.error_count ≡ u32 (s.error_count + 1))
        × (w' ≡ w)
  unfolding on_parsed
  parsed_refused e s w ne = ground arith

  -- A chunk that is not of 8 bytes is an error.
  pub chunk_refused :
      (frame : List ℕ) (len : ℕ) (s : Server W) (w : W)
      → len ≢ 8
      → let (s', w') = modbus_uart_event_callback ready (some frame) len UartEvent.rx_chunk s w in
        (s'.event ≢ Event.request)
        × (s'.frame_count ≡ s.frame_count)
        × (s'.error_count ≡ u32 (s.error_count + 1))
        × (w' ≡ w)
  unfolding modbus_uart_event_callback
  chunk_refused frame len s w ne =
      parsed_refused (modbus_parse_request (some frame) len s.slave_addr s.request).0 _ w
        (λ ok. ne (parse_len frame len s.slave_addr s.request ok))

  -- A chunk that starts with a frame to this slave is a request, with its four bytes of data.
  pub chunk_accepted :
      (f : ℕ) (payload bytes : List ℕ) (s : Server W) (w : W)
      → length payload ≡ 4
      → (f ≡ 3) ⊎ (f ≡ 6)
      → AllBytes (s.slave_addr ∷ f ∷ payload)
      → take 8 bytes ≡ rtu_frame s.slave_addr f payload
      → let (s', w') = modbus_uart_event_callback ready (some bytes) 8 UartEvent.rx_chunk s w in
        (s'.event ≡ Event.request)
        × (s'.request ≡ record {
          slave_addr = s.slave_addr;
          function = f;
          bytes = some ((payload ++ crc_tail (s.slave_addr ∷ f ∷ payload)) ++ drop 8 bytes);
          data_len = 4;
        })
        × (s'.frame_count ≡ u32 (s.frame_count + 1))
        × (s'.error_count ≡ s.error_count)
        × (s'.recv ≡ s.recv)
        × (w' ≡ ready s'.request w)
  unfolding modbus_uart_event_callback on_parsed
  chunk_accepted f (p ∷ q ∷ r ∷ t ∷ []) bytes s w four func small frame =
      let whole = take-append_drop 8 bytes ∙ ap (λ b. b ++ drop 8 bytes) frame in
      let parsed =
        ap (λ b. modbus_parse_request (some b) 8 s.slave_addr s.request) whole
        ∙ parse_prefix s.slave_addr f p q r t (drop 8 bytes) s.request small func in
      rw parsed (refl, refl, refl, refl, refl, refl)
  chunk_accepted f [] bytes s w four func small frame = absurd (omega arith)
  chunk_accepted f (p ∷ []) bytes s w four func small frame = absurd (omega arith)
  chunk_accepted f (p ∷ q ∷ []) bytes s w four func small frame = absurd (omega arith)
  chunk_accepted f (p ∷ q ∷ r ∷ []) bytes s w four func small frame = absurd (omega arith)
  chunk_accepted f (p ∷ q ∷ r ∷ t ∷ u ∷ ps) bytes s w four func small frame = absurd (omega arith)
