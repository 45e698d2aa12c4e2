-- ===== src/Service/ModbusServer/Frames.antt =====
-- The reception of frames: the buffer is never written outside its 256 bytes.
use climate_node.Prelude.{
  ℕ, zero, suc, ◌+◌, ◌≤◌, ◌≡◌, refl, ◌∙◌, ap, arith, true, ◌&&◌, some, inl, inr, ◌⊎◌, List, ◌∷◌,
  ◌++◌, length, length-set, set, take, leb, ltb, u32, Bool-cases, Option-cases,
}
use climate_node.Service.Modbus.{ParseErr, Request, check_function, modbus_parse_request}
use climate_node.Service.Modbus.Crc.{AllBytes}
use climate_node.Service.Modbus.Build.{crc_tail, rtu_frame}
use climate_node.Service.Modbus.Parse.{parse-rtu_frame}
use climate_node.Service.ModbusServer.{
  Event, ReceiveByte, Server, on_parsed, modbus_uart_event_callback, receive, is_silent, end_frame,
  modbus_server_task,
}

-- The buffer has 256 bytes and `len` of them are in use.
abbrev pub IsBuffer : {W : Type 0} → Server W → Type 0
IsBuffer s = (length s.buf ≡ 256) × (s.len ≤ 256)

accepted : (f n : ℕ) → (f ≡ 3) ⊎ (f ≡ 6) → n ≡ 4 → check_function f n ≡ ParseErr.ok
unfolding check_function
accepted f n h k = ground arith

module _ {W : Type 0} where
  receive-IsBuffer :
      (n : ℕ) (recv : ReceiveByte W) (now : ℕ) (s : Server W) (w : W)
      → IsBuffer s
      → IsBuffer (receive n recv now s w).1
  unfolding receive
  receive-IsBuffer zero recv now s w h = h
  receive-IsBuffer (suc n) recv now s w h = elim (Option-cases (recv w).0) [
    | inl e ↦ rw (receive, e) h
    | inr (byte, e) ↦ elim (Bool-cases (leb 256 s.len)) [
      | inl full ↦ rw (receive, e, full) (h.0, omega arith)
      | inr room ↦
          rw (receive, e, room)
            (receive-IsBuffer n recv now
              (record s {
                buf = set s.buf s.len byte;
                len = s.len + 1;
                last_byte_ms = now;
                rx_byte_count = u32 (s.rx_byte_count + 1);
              })
              (recv w).1 (length-set s.buf s.len byte ∙ h.0, ground arith))
    ]
  ]

  parsed-IsBuffer :
      (e : ParseErr) (ready : Request → W → W) (s : Server W) (w : W)
      → IsBuffer s
      → IsBuffer (on_parsed e ready s w).0
  unfolding on_parsed
  parsed-IsBuffer e ready s w h = ground arith

  end_frame-IsBuffer :
      (ready : Request → W → W) (now : ℕ) (s : Server W) (w : W)
      → IsBuffer s
      → IsBuffer (end_frame ready now s w).0
  unfolding end_frame modbus_uart_event_callback
  end_frame-IsBuffer ready now s w h = elim (Bool-cases (ltb 0 s.len && is_silent s now)) [
    | inl e ↦ rw e (parsed-IsBuffer _ ready _ w (h.0, omega arith))
    | inr e ↦ rw e h
  ]

  -- Every call of the task keeps the buffer at 256 bytes and leaves at most 256 of them in use, for
  -- any source of bytes and any time.
  pub server_task-IsBuffer :
      (ready : Request → W → W) (now : ℕ) (s : Server W) (w : W)
      → IsBuffer s
      → IsBuffer (modbus_server_task ready now s w).1
  unfolding modbus_server_task
  server_task-IsBuffer ready now s w h = elim (Option-cases s.recv) [
    | inl e ↦ rw (modbus_server_task, e) h
    | inr (recv, e) ↦
        let (over, t, w') = receive 16 recv now s w in
        let kept = receive-IsBuffer 16 recv now s w h in
        elim (Bool-cases over) [
          | inl o ↦ rw (modbus_server_task, e, o) kept
          | inr o ↦ rw (modbus_server_task, e, o) (end_frame-IsBuffer ready now t w' kept)
        ]
  ]

  -- When the line has been silent for the configured time after a frame to this slave with function
  -- 3 or 6 and four bytes of payload, the request is handed to the application once, as it was sent,
  -- it is counted, and the buffer is free again.
  pub frame_delivered :
      (ready : Request → W → W) (now : ℕ) (s : Server W) (w : W) (f : ℕ) (payload : List ℕ)
      → s.len ≡ 8
      → take 8 s.buf ≡ rtu_frame s.slave_addr f payload
      → length payload ≡ 4
      → (f ≡ 3) ⊎ (f ≡ 6)
      → AllBytes (s.slave_addr ∷ f ∷ payload)
      → is_silent s now ≡ true
      → let (s', w') = end_frame ready now s w in
        let req : Request = record {
          slave_addr = s.slave_addr;
          function = f;
          bytes = some (payload ++ crc_tail (s.slave_addr ∷ f ∷ payload));
          data_len = length payload;
        } in
        (w' ≡ ready req w)
        × (s'.event ≡ Event.request)
        × (s'.frame_count ≡ u32 (s.frame_count + 1))
        × (s'.error_count ≡ s.error_count)
        × (s'.len ≡ 0)
  unfolding end_frame modbus_uart_event_callback on_parsed
  frame_delivered ready now s w f payload len frame four func bytes silent =
      let req : Request = record {
        slave_addr = s.slave_addr;
        function = f;
        bytes = some (payload ++ crc_tail (s.slave_addr ∷ f ∷ payload));
        data_len = length payload;
      } in
      let parsed : modbus_parse_request (some (take s.len s.buf)) s.len s.slave_addr s.request
          ≡ (ParseErr.ok, req) =
        ap (λ n. modbus_parse_request (some (take n s.buf)) n s.slave_addr s.request) len
        ∙ ap (λ t. modbus_parse_request (some t) 8 s.slave_addr s.request) frame
        ∙ ap
            (λ n.
              modbus_parse_request (some (rtu_frame s.slave_addr f payload)) n s.slave_addr
                s.request)
            (omega arith)
        ∙ parse-rtu_frame s.slave_addr f payload s.request (omega arith) bytes
        ∙ ap (λ e. (e, req)) (accepted f (length payload) func four) in
      let waiting : ltb 0 s.len ≡ true = ground arith in
      rw (waiting, silent, parsed) (refl, refl, refl, refl, refl)
