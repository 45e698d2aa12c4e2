-- ===== src/Bsp/Uart/Chunks.antt =====
-- The chunks that the interrupt of src/bsp/stm32f1/uart.c hands on for eight new bytes.
use climate_node.Prelude.{
  ℕ, ◌+◌, ◌-◌, ◌≤◌, ◌<◌, ◌≡◌, refl, inl, inr, arith, true, false, some, List, drop, ltb, ◌==◌,
  Bool-cases,
}
use climate_node.Prelude.Ring.{slot}
use climate_node.Bsp.Uart.{Uart, UartCallback, take_chunks}
use climate_node.Service.ModbusServer.{UartEvent}

-- Eight new bytes that end within the buffer are one chunk.
pub one_chunk :
    {V : Type 0} (u : Uart V) (buf : List ℕ) (cur : ℕ) (cb : UartCallback V) (v : V)
    → u.last_rx_pos + 8 ≤ 256
    → cur ≡ slot 256 u.last_rx_pos 8
    → u.callback ≡ some cb
    → take_chunks buf cur u v
      ≡ (record u { last_rx_pos = cur }, cb (some (drop u.last_rx_pos buf)) 8 UartEvent.rx_chunk v)
unfolding take_chunks
one_chunk u buf cur cb v inside at h =
    let moved : (cur == u.last_rx_pos) ≡ false = ground arith in
    elim (Bool-cases (ltb u.last_rx_pos cur)) [
      | inl up ↦ let len : cur - u.last_rx_pos ≡ 8 = ground arith in rw (moved, up, h, len) refl
      | inr down ↦
          let len : 256 - u.last_rx_pos ≡ 8 = ground arith in
          let none_left : ltb 0 cur ≡ false = ground arith in
          rw (moved, down, h, len, none_left) refl
    ]

-- Those that go past its end are two.
pub two_chunks :
    {V : Type 0} (u : Uart V) (buf : List ℕ) (cur : ℕ) (cb : UartCallback V) (v : V)
    → u.last_rx_pos < 256
    → 256 < u.last_rx_pos + 8
    → cur ≡ slot 256 u.last_rx_pos 8
    → u.callback ≡ some cb
    → take_chunks buf cur u v ≡ (
      record u { last_rx_pos = cur },
      cb
          (some buf)
          cur
          UartEvent.rx_chunk
          (cb (some (drop u.last_rx_pos buf)) (256 - u.last_rx_pos) UartEvent.rx_chunk v),
    )
unfolding take_chunks
two_chunks u buf cur cb v start past at h =
    let moved : (cur == u.last_rx_pos) ≡ false = ground arith in
    let down : ltb u.last_rx_pos cur ≡ false = ground arith in
    let first : ltb 0 (256 - u.last_rx_pos) ≡ true = ground arith in
    let second : ltb 0 cur ≡ true = ground arith in rw (moved, down, h, first, second) refl
