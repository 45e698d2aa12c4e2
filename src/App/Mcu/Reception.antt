-- ===== src/App/Mcu/Reception.antt =====
-- Requests to the program of src/app/main_mcu.c on their way from the receive buffer of
-- src/bsp/stm32f1/uart.c to the server of src/service/modbus_server.c, which is the UART's callback.
use climate_node.Prelude.{
  ℕ, ◌+◌, ◌-◌, ◌≤◌, ◌<◌, ◌≡◌, ◌≢◌, ◌⊎◌, ◌∙◌, refl, sym, ap, inl, inr, arith, some, List, ◌∷◌, ◌++◌,
  length, length-append, take, drop, u32, leb, Bool-cases,
}
use climate_node.Prelude.Ring.{slot, window}
use climate_node.Bsp.Uart.{Uart, UartCallback, take_chunks}
use climate_node.Bsp.Uart.Receive.{dma_write, dma_write-window, slice-window}
use climate_node.Service.Modbus.{Request}
use climate_node.Service.Modbus.Crc.{AllBytes}
use climate_node.Service.Modbus.Build.{crc_tail, rtu_frame}
use climate_node.Service.ModbusServer.Chunks.{chunk_refused, chunk_accepted}
use climate_node.Bsp.Uart.Chunks.{one_chunk, two_chunks}
use climate_node.Service.ModbusServer.{Event, UartEvent, Server, modbus_uart_event_callback}

-- The server as the UART's callback, on itself and the rest of the world.
abbrev pub on_uart : {W : Type 0} → (Request → W → W) → UartCallback (Server W × W)
on_uart ready bytes len event (s, w) = modbus_uart_event_callback ready bytes len event s w

frame_length :
    (a f : ℕ) (payload : List ℕ) → length payload ≡ 4 → length (rtu_frame a f payload) ≡ 8
frame_length a f payload four = omega (arith, length-append payload (crc_tail (a ∷ f ∷ payload)))

-- The server after a request that arrived whole, and after one that was torn.
abbrev pub IsRequested :
    {W : Type 0} → (Request → W → W) → ℕ → List ℕ → Server W × W → Server W × W → Type 0
IsRequested ready f payload (s, w) (s', w') =
    (s'.event ≡ Event.request)
    × ((rest : List ℕ) × (s'.request ≡ record {
      slave_addr = s.slave_addr;
      function = f;
      bytes = some ((payload ++ crc_tail (s.slave_addr ∷ f ∷ payload)) ++ rest);
      data_len = 4;
    }))
    × (s'.frame_count ≡ u32 (s.frame_count + 1))
    × (s'.error_count ≡ s.error_count)
    × (s'.recv ≡ s.recv)
    × (w' ≡ ready s'.request w)

abbrev pub IsTorn : {W : Type 0} → Server W × W → Server W × W → Type 0
IsTorn (s, w) (s', w') =
    (s'.event ≢ Event.request)
    × (s'.frame_count ≡ s.frame_count)
    × (s'.error_count ≡ u32 (u32 (s.error_count + 1) + 1))
    × (w' ≡ w)

module _ {W : Type 0} (ready : Request → W → W) where
  pub request_received :
      (u : Uart (Server W × W)) (before payload : List ℕ) (s : Server W) (w : W) (f : ℕ)
      → length before ≡ 256
      → u.last_rx_pos < 256
      → u.callback ≡ some (on_uart ready)
      → length payload ≡ 4
      → (f ≡ 3) ⊎ (f ≡ 6)
      → AllBytes (s.slave_addr ∷ f ∷ payload)
      → let (buf, pos) = dma_write before u.last_rx_pos (rtu_frame s.slave_addr f payload) in
        let (u', after) = take_chunks buf pos u (s, w) in
        (u' ≡ record u { last_rx_pos = pos })
        × (((u.last_rx_pos + 8 ≤ 256) × IsRequested ready f payload (s, w) after)
            ⊎ ((256 < u.last_rx_pos + 8) × IsTorn (s, w) after))
  request_received u before payload s w f size start cb four func small =
      let last = u.last_rx_pos in
      let frame = rtu_frame s.slave_addr f payload in
      let (buf, pos) = dma_write before last frame in
      let len = frame_length s.slave_addr f payload four in
      let (bytes, at, kept) =
        dma_write-window before frame last 0 last size start (omega (arith, len)) (ground arith) in
      let eight : 0 + length frame ≡ 8 = omega (arith, len) in
      let here : pos ≡ slot 256 last 8 = at ∙ ap (slot 256 last) eight in
      elim (Bool-cases (leb (last + 8) 256)) [
        | inl inside ↦
            let whole : take 8 (drop last buf) ≡ frame =
              slice-window buf last 8 kept (ground arith)
              ∙ ap (window 256 0 buf last) (sym eight)
              ∙ bytes in
            let (event, request, count, errors, source, handed) =
              chunk_accepted ready f payload (drop last buf) s w four func small whole in
            rw (one_chunk u buf pos (on_uart ready) (s, w) (ground arith) here cb)
              (refl, inl (ground arith, (event, (_, request), count, errors, source, handed)))
        | inr past ↦
            let (s1, w1) =
              modbus_uart_event_callback ready (some (drop last buf)) (256 - last)
                UartEvent.rx_chunk s w in
            let (e1, count1, errors1, same1) =
              chunk_refused ready (drop last buf) (256 - last) s w (ground arith) in
            let (e2, count2, errors2, same2) = chunk_refused ready buf pos s1 w1 (ground arith) in
            rw (two_chunks u buf pos (on_uart ready) (s, w) start (ground arith) here cb) (
              refl,
              inr (
                ground arith,
                (e2, count2 ∙ count1, errors2 ∙ ap (λ k. u32 (k + 1)) errors1, same2 ∙ same1),
              ),
            )
      ]
