-- ===== src/Bsp/Uart.antt =====
-- src/bsp/stm32f1/uart.c: the UART with its two DMA channels. The callback is a function on the state `W` of
-- its owner, or null; the receive buffer, which the DMA writes, is read from the hardware.
pub mod Receive
pub mod Chunks
pub mod Transmit
use climate_node.Prelude.{
  ℕ, zero, suc, ◌+◌, ◌-◌, ◌%◌, ◌^◌, Bool, true, false, not, ◌&&◌, Option, none, some, List, sub32,
  u32, shl, ltb, ◌==◌, if◌then◌else◌, drop,
}
use Prim.Native.Nat.{bit_or}
use climate_node.Service.ModbusServer.{UartEvent}
use climate_node.Bsp.Registers.{Bus, has_bit, clear_field, or_reg, clear_reg}

abbrev usart1_cr1_idleie : ℕ
usart1_cr1_idleie = 2 ^ 4

abbrev usart1_cr3_dmat : ℕ
usart1_cr3_dmat = 2 ^ 7

abbrev usart1_cr3_dmar : ℕ
usart1_cr3_dmar = 2 ^ 6

abbrev rcc_ahbenr_dma1en : ℕ
rcc_ahbenr_dma1en = 1

abbrev dma1_ch4_irq_bit : ℕ
dma1_ch4_irq_bit = 2 ^ 14

abbrev usart1_irq_bit : ℕ
usart1_irq_bit = 2 ^ (37 - 32)

abbrev pub uart_rx_dma_buf_size : ℕ
uart_rx_dma_buf_size = 256

-- The addresses of the registers.
abbrev pub dma1_isr : ℕ
dma1_isr = 0x40020000

abbrev pub dma1_ifcr : ℕ
dma1_ifcr = 0x40020004

abbrev pub dma1_ccr4 : ℕ
dma1_ccr4 = 0x40020044

abbrev pub dma1_cndtr4 : ℕ
dma1_cndtr4 = 0x40020048

abbrev pub dma1_cpar4 : ℕ
dma1_cpar4 = 0x4002004c

abbrev pub dma1_cmar4 : ℕ
dma1_cmar4 = 0x40020050

abbrev pub dma1_ccr5 : ℕ
dma1_ccr5 = 0x40020058

abbrev pub dma1_cndtr5 : ℕ
dma1_cndtr5 = 0x4002005c

abbrev pub dma1_cpar5 : ℕ
dma1_cpar5 = 0x40020060

abbrev pub dma1_cmar5 : ℕ
dma1_cmar5 = 0x40020064

abbrev pub usart1_sr : ℕ
usart1_sr = 0x40013800

abbrev pub usart1_dr : ℕ
usart1_dr = 0x40013804

abbrev pub usart1_cr1 : ℕ
usart1_cr1 = 0x4001380c

abbrev pub usart1_cr3 : ℕ
usart1_cr3 = 0x40013814

abbrev pub rcc_ahbenr : ℕ
rcc_ahbenr = 0x40021014

abbrev pub nvic_iser0 : ℕ
nvic_iser0 = 0xe000e100

abbrev pub nvic_iser1 : ℕ
nvic_iser1 = 0xe000e104

-- `uart_callback_fn`
abbrev pub UartCallback : Type 0 → Type 0
UartCallback W = Option (List ℕ) → ℕ → UartEvent → W → W

-- The static variables but the buffer; the GPIO addresses are null until the pin is set.
pub record Uart (W : Type 0) : Type 0 where
  pub last_rx_pos : ℕ
  pub callback : Option (UartCallback W)
  pub rs485_mode : Bool
  pub gpio_bsrr : Option ℕ
  pub gpio_brr : Option ℕ
  pub de_pin_mask : ℕ

-- A call through the callback's pointer, if it is not null.
abbrev pub notify : {W : Type 0} → Option (UartCallback W) → Option (List ℕ) → ℕ → UartEvent → W → W
notify none bytes len event w = w
notify (some f) bytes len event w = f bytes len event w

module _ {W : Type 0} where
  -- What `USART1_IRQHandler` does with the position that the DMA has reached in the buffer.
  unfoldable pub take_chunks : List ℕ → ℕ → Uart W → W → Uart W × W
  take_chunks buf current u w =
      let last = u.last_rx_pos in
      if current == last
      then (u, w)
      else let u' = record u { last_rx_pos = current } in
        if ltb last current
        then (u', notify u.callback (some (drop last buf)) (current - last) UartEvent.rx_chunk w)
        else let len = uart_rx_dma_buf_size - last in
          let w1 =
            if ltb 0 len
            then notify u.callback (some (drop last buf)) len UartEvent.rx_chunk w
            else w in
          (
            u',
            if ltb 0 current
                then notify u.callback (some buf) current UartEvent.rx_chunk w1
                else w1,
          )

module _ {H : Type 0} (bus : Bus H) where
  -- The loop that waits for the last stop bit, on fuel: none if it runs out.
  unfoldable pub wait_sent : ℕ → H → Option H
  wait_sent zero h = none
  wait_sent (suc n) h =
      let (sr, h') = bus.load usart1_sr h in
      let rest = wait_sent n h' in if has_bit sr 6 then some h' else rest

module _ {H W : Type 0} (bus : Bus H) where
  -- A write to a GPIO register in RS-485 mode, if its address is not null.
  abbrev pub drive_pin : Uart W → Option ℕ → H → H
  drive_pin u none h = h
  drive_pin u (some addr) h = if u.rs485_mode then bus.store addr u.de_pin_mask h else h

  unfoldable pub uart1_set_rs485_pin : ℕ → ℕ → Uart W → H → Uart W × H
  uart1_set_rs485_pin gpio_base_address de_pin_number u h =
      if ltb 15 de_pin_number
      then (u, h)
      else let set = record u {
        de_pin_mask = shl 1 de_pin_number;
        gpio_bsrr = some (u32 (gpio_base_address + 0x0c));
        gpio_brr = some (u32 (gpio_base_address + 0x10));
        rs485_mode = true;
      } in
        (set, bus.store (u32 (gpio_base_address + 0x10)) set.de_pin_mask h)

  -- `rx_buffer` is the address of the receive buffer.
  unfoldable pub uart1_async_init : ℕ → Option (UartCallback W) → Uart W → H → Uart W × H
  uart1_async_init rx_buffer callback u h =
      let h1 =
        or_reg bus rcc_ahbenr rcc_ahbenr_dma1en
          (or_reg bus 0x40021018 (bit_or (2 ^ 2) (2 ^ 14)) h) in
      let (crh, h2) = bus.load 0x40010804 h1 in
      let h3 = bus.store 0x40010804 (bit_or (clear_field crh 4 8) 0x4b0) h2 in
      let h4 = bus.store 0x40013808 0x457 h3 in
      let h5 = bus.store dma1_cmar5 rx_buffer (bus.store dma1_cpar5 usart1_dr h4) in
      let h6 = bus.store dma1_cndtr5 uart_rx_dma_buf_size h5 in
      let h7 = bus.store dma1_ccr5 (2 ^ 7 + 2 ^ 5 + 1) h6 in
      let h8 = bus.store dma1_ccr4 (2 ^ 4 + 2 ^ 7 + 2 ^ 1) (bus.store dma1_cpar4 usart1_dr h7) in
      let h9 = or_reg bus usart1_cr3 (bit_or usart1_cr3_dmat usart1_cr3_dmar) h8 in
      let h10 = bus.store usart1_cr1 (2 ^ 13 + 2 ^ 3 + 2 ^ 2 + usart1_cr1_idleie) h9 in
      (
        record u { callback = callback; last_rx_pos = 0 },
        or_reg bus nvic_iser1 usart1_irq_bit (or_reg bus nvic_iser0 dma1_ch4_irq_bit h10),
      )

  -- `addr` is the address of the data.
  unfoldable pub uart1_tx_dma_async : ℕ → ℕ → Uart W → H → Bool × H
  uart1_tx_dma_async addr len u h =
      let (ccr4, h1) = bus.load dma1_ccr4 h in
      if has_bit ccr4 0
      then (false, h1)
      else let h2 = clear_reg bus usart1_sr 6 (drive_pin u u.gpio_bsrr h1) in
        let h3 = clear_reg bus dma1_ccr4 0 h2 in
        let h4 = bus.store dma1_cndtr4 len (bus.store dma1_cmar4 addr h3) in
        (true, or_reg bus dma1_ccr4 1 h4)

  -- `DMA1_Channel4_IRQHandler`, none if the fuel runs out.
  unfoldable pub dma1_channel4_irq_handler : ℕ → Uart W → H → W → Option (H × W)
  dma1_channel4_irq_handler fuel u h w =
      let (isr, h1) = bus.load dma1_isr h in
      if has_bit isr 13
      then elim (wait_sent bus fuel (clear_reg bus dma1_ccr4 0 (bus.store dma1_ifcr (2 ^ 13) h1))) [
        | none ↦ none
        | some h2 ↦
            some (drive_pin u u.gpio_brr h2, notify u.callback none 0 UartEvent.tx_complete w)
      ]
      else some (h1, w)

  -- `rx_buffer` gives what the receive buffer holds.
  unfoldable pub usart1_irq_handler : (H → List ℕ) → Uart W → H → W → Uart W × H × W
  usart1_irq_handler rx_buffer u h w =
      let (sr, h1) = bus.load usart1_sr h in
      if has_bit sr 4
      then (let (dummy, h2) = bus.load usart1_dr h1 in
          let (left, h3) = bus.load dma1_cndtr5 h2 in
          let (u', w') = take_chunks (rx_buffer h3) (sub32 uart_rx_dma_buf_size left) u w in
          (u', h3, w'))
      else (u, h1, w)
