-- ===== src/Bsp/Uart/Transmit.antt =====
-- Transmission: one at a time, from its start to the interrupt that completes it.
use climate_node.Prelude.{
  ℕ, zero, suc, ◌^◌, ◌≡◌, ◌≢◌, ◌⊎◌, ◌∙◌, refl, ap, inl, inr, arith, true, false, Option, none, some,
  low_bits, Bool-cases,
}
use Prim.Native.Nat.{bit_or}
use climate_node.Prelude.Bits.{bit_or_step}
use climate_node.Service.ModbusServer.{UartEvent}
use climate_node.Bsp.Registers.{Bus, IsHeld, has_bit, clear_field, or_reg, clear_reg}
use climate_node.Bsp.Uart.{
  Uart, notify, drive_pin, dma1_ccr4, dma1_isr, dma1_ifcr, usart1_sr, uart1_tx_dma_async, wait_sent,
  dma1_channel4_irq_handler,
}

or_one : (v : ℕ) → has_bit (bit_or v 1) 0 ≡ true
or_one v = ground (arith, bit_or_step v 1)

clear_one : (v : ℕ) → has_bit (clear_field v 0 1) 0 ≡ false
clear_one v = ground arith

-- The bit is the lowest digit.
bit_zero : (v w : ℕ) → low_bits v 1 ≡ low_bits w 1 → has_bit v 0 ≡ has_bit w 0
bit_zero v w h = ground arith

module _ {H : Type 0} (bus : Bus H) where
  -- One of the next reads of the status register, at most `n` of them after the first, finds the
  -- transmission complete.
  abbrev pub SentWithin : ℕ → H → Type 0
  SentWithin zero h = has_bit (bus.load usart1_sr h).0 6 ≡ true
  SentWithin (suc n) h =
      let (sr, h') = bus.load usart1_sr h in (has_bit sr 6 ≡ true) ⊎ SentWithin n h'

module _ {H W : Type 0} (bus : Bus H) where
  refused :
      (addr len : ℕ) (u : Uart W) (h : H)
      → has_bit (bus.load dma1_ccr4 h).0 0 ≡ true
      → uart1_tx_dma_async bus addr len u h ≡ (false, (bus.load dma1_ccr4 h).1)
  unfolding uart1_tx_dma_async
  refused addr len u h busy = rw busy refl

  accepted :
      (addr len : ℕ) (u : Uart W) (h : H)
      → has_bit (bus.load dma1_ccr4 h).0 0 ≡ false
      → (uart1_tx_dma_async bus addr len u h).0 ≡ true
  unfolding uart1_tx_dma_async
  accepted addr len u h free = rw free refl

module _ {H : Type 0} (bus : Bus H) (held : IsHeld bus dma1_ccr4 1) where
  -- The wait ends, and leaves the channel's register as it was.
  wait_sent-ends :
      (n : ℕ) (h : H)
      → SentWithin bus n h
      → (h' : H) × (wait_sent bus (suc n) h ≡ some h')
        × (low_bits (bus.load dma1_ccr4 h').0 1 ≡ low_bits (bus.load dma1_ccr4 h).0 1)
  unfolding wait_sent
  wait_sent-ends zero h sent = (_, rw sent refl, held.loaded usart1_sr h)
  wait_sent-ends (suc n) h sent = elim (Bool-cases (has_bit (bus.load usart1_sr h).0 6)) [
    | inl now ↦ (_, rw now refl, held.loaded usart1_sr h)
    | inr later ↦ elim sent [
      | inl now ↦ absurd (ground (arith, now, later))
      | inr soon ↦
          let (h', ends, kept) = wait_sent-ends n (bus.load usart1_sr h).1 soon in
          (h', rw later ends, kept ∙ held.loaded usart1_sr h)
    ]
  ]

module _ {H W : Type 0} (bus : Bus H) (held : IsHeld bus dma1_ccr4 1) where
  -- After a call the channel is on, whether it was or not.
  started :
      (addr len : ℕ) (u : Uart W) (h : H)
      → has_bit (bus.load dma1_ccr4 (uart1_tx_dma_async bus addr len u h).1).0 0 ≡ true
  unfolding uart1_tx_dma_async or_reg
  started addr len u h = elim (Bool-cases (has_bit (bus.load dma1_ccr4 h).0 0)) [
    | inl busy ↦ rw busy (bit_zero _ _ (held.loaded dma1_ccr4 h) ∙ busy)
    | inr free ↦ rw free (bit_zero _ _ (held.same _ _) ∙ or_one _)
  ]

  -- Of two calls in a row the second is refused, and reads the channel's register alone.
  pub tx_busy :
      (addr1 len1 addr2 len2 : ℕ) (u : Uart W) (h : H)
      → let (done, h1) = uart1_tx_dma_async bus addr1 len1 u h in
        uart1_tx_dma_async bus addr2 len2 u h1 ≡ (false, (bus.load dma1_ccr4 h1).1)
  tx_busy addr1 len1 addr2 len2 u h = refused bus addr2 len2 u _ (started addr1 len1 u h)

  pin_kept :
      (u : Uart W) (pin : Option ℕ) (h : H)
      → pin ≢ some dma1_ccr4
      → low_bits (bus.load dma1_ccr4 (drive_pin bus u pin h)).0 1
        ≡ low_bits (bus.load dma1_ccr4 h).0 1
  pin_kept u none h ne = refl
  pin_kept u (some a) h ne = elim (Bool-cases u.rs485_mode) [
    | inl on ↦ rw on (held.other a u.de_pin_mask h (λ e. ne (ap some e)))
    | inr off ↦ rw off refl
  ]

  -- If, once the interrupt has turned the channel off, the status register shows the transmission
  -- complete within `n` further reads, the interrupt returns with that fuel, tells the callback once, and
  -- the next transmission is accepted. The pin's register is not that of the channel.
  pub transmission_ends :
      (n addr len : ℕ) (u : Uart W) (h : H) (w : W)
      → u.gpio_brr ≢ some dma1_ccr4
      → has_bit (bus.load dma1_isr h).0 13 ≡ true
      → SentWithin bus n
          (clear_reg bus dma1_ccr4 0 (bus.store dma1_ifcr (2 ^ 13) (bus.load dma1_isr h).1))
      → (h' : H) × (dma1_channel4_irq_handler bus (suc n) u h w
          ≡ some (h', notify u.callback none 0 UartEvent.tx_complete w))
        × ((uart1_tx_dma_async bus addr len u h').0 ≡ true)
  unfolding dma1_channel4_irq_handler clear_reg
  transmission_ends n addr len u h w pin done silent =
      let h1 = (bus.load dma1_isr h).1 in
      let h2 = clear_reg bus dma1_ccr4 0 (bus.store dma1_ifcr (2 ^ 13) h1) in
      let (h3, ends, kept) = wait_sent-ends bus held n h2 silent in
      let off : has_bit (bus.load dma1_ccr4 h3).0 0 ≡ false =
        bit_zero _ _ (kept ∙ held.same _ _) ∙ clear_one _ in
      (
        drive_pin bus u u.gpio_brr h3,
        rw (done, ends) refl,
        accepted bus addr len u _ (bit_zero _ _ (pin_kept u u.gpio_brr h3 pin) ∙ off),
      )
