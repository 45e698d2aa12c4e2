-- ===== src/Tests/Bsp.antt =====
-- The theorems on the microcontroller's hardware and on the drivers at concrete data.
use climate_node.Prelude.{
  ℕ, ◌+◌, ◌*◌, ◌<◌, ◌≡◌, ◌≢◌, ◌⊎◌, refl, arith, true, false, none, some, List, [], ◌∷◌, ◌++◌, pos,
  ◌==◌, if◌then◌else◌, replicate,
}
use climate_node.Core.Types.{Err, Quality, Sample}
use climate_node.Service.ModbusServer.{UartEvent}
use climate_node.Bsp.Registers.{Bus, IsHeld}
use climate_node.Bsp.Uart.{
  Uart, notify, dma1_ccr4, dma1_channel4_irq_handler, uart1_tx_dma_async, take_chunks,
}
use climate_node.Bsp.Uart.Receive.{collect, dma_write, take_chunks_lem}
use climate_node.Bsp.Uart.Transmit.{transmission_ends}
use climate_node.Bsp.Startup.{Layout, reset}
use climate_node.Bsp.Startup.Laws.{IsLaidOut, Outside, reset_lem}
use climate_node.Driver.I2c.{I2cOps}
use climate_node.Driver.Sht31.{sht31_read_sample}
use climate_node.Driver.Sht31.Laws.{Converted, sht31_read_lem}

-- Hardware with one register that is kept; every other reads as bits 6 and 13.
abbrev one_register : ℕ → Bus ℕ
one_register addr = record {
  load = λ a h. (if a == addr then h else 0x2040, h);
  store = λ a v h. if a == addr then v else h;
}

one_register-IsHeld : (addr width : ℕ) → IsHeld (one_register addr) addr width
one_register-IsHeld addr width = record {
  same = λ v h. let here : (addr == addr) ≡ true = ground arith in rw here refl;
  other = λ a v h ne.
      let here : (addr == addr) ≡ true = ground arith in
      let there : (a == addr) ≡ false = ground arith in rw (here, there) refl;
  loaded = λ a h. refl;
}

abbrev uart : Uart (List ℕ)
uart = record {
  last_rx_pos = 254;
  callback = some collect;
  rs485_mode = true;
  gpio_bsrr = some 0x40010c0c;
  gpio_brr = some 0x40010c10;
  de_pin_mask = 1;
}

abbrev received : List ℕ
received = 1 ∷ 3 ∷ 0 ∷ 7 ∷ []

take_chunks_lem_example :
    let (buf, reached) = dma_write (replicate 256 0) 254 received in
    let (u', w') = take_chunks buf reached uart (9 ∷ []) in
    (w' ≡ (9 ∷ []) ++ received) × (u' ≡ record uart { last_rx_pos = reached })
take_chunks_lem_example =
    take_chunks_lem uart (replicate 256 0) received (9 ∷ []) refl (omega arith) (omega arith) refl

transmission_ends_example :
    let bus = one_register dma1_ccr4 in
    (h' : ℕ) × (dma1_channel4_irq_handler bus 1 uart 0x93 []
      ≡ some (h', notify uart.callback none 0 UartEvent.tx_complete []))
    × ((uart1_tx_dma_async bus 0x20000000 8 uart h').0 ≡ true)
transmission_ends_example =
    transmission_ends (one_register dma1_ccr4) (one_register-IsHeld dma1_ccr4 1) 0 0x20000000 8 uart
      0x93 [] (ground arith) refl refl

abbrev layout : Layout
layout = record {
  sidata = 0x08004000;
  sdata = 0x20000000;
  edata = 0x20000008;
  sbss = 0x20000008;
  ebss = 0x20000014;
}

layout-IsLaidOut : IsLaidOut layout 2 3
layout-IsLaidOut = record {
  data_words = omega arith;
  bss_words = omega arith;
  load_apart = omega arith;
  load_low = omega arith;
  bss_after = omega arith;
  registers_after = omega arith;
}

abbrev noise : ℕ → ℕ
noise addr = addr * 7

reset_lem_example :
    (out : ℕ → ℕ) × (reset 6 layout noise ≡ some out)
    × ((i : ℕ) → i < 2 → out (0x20000000 + 4 * i) ≡ noise (0x08004000 + 4 * i))
    × ((i : ℕ) → i < 3 → out (0x20000008 + 4 * i) ≡ 0)
    × (out 0xe000ed08 ≡ 0x08000000)
    × ((a : ℕ) → Outside 0x20000000 2 a → Outside 0x20000008 3 a → a ≢ 0xe000ed08 → out a ≡ noise a)
reset_lem_example = reset_lem layout 2 3 noise layout-IsLaidOut

-- A bus with a sensor at 25 degrees and 50 per cent.
abbrev sensor_bus : I2cOps ℕ
sensor_bus = record {
  mem_write = λ dev reg bytes n. (Err.ok, n + 1);
  mem_read = λ dev reg len n. (Err.ok, 0x66 ∷ 0x66 ∷ 0 ∷ 0x80 ∷ 0 ∷ 0 ∷ [], n + 1);
}

abbrev blank : Sample
blank = record { temp_cd = pos 0; rh_cp = 0; timestamp_ms = 0; quality = Quality.invalid }

sht31_read_lem_example :
    let (e, s, bus') = sht31_read_sample sensor_bus 0 blank in
    ((Err.ok ≢ Err.ok) × (e ≡ Err.ok) × (s ≡ record blank { quality = Quality.fault }) × (bus' ≡ 1))
    ⊎ (((Err.ok ≡ Err.ok)
          × (Err.ok ≢ Err.ok)
          × (e ≡ Err.ok)
          × (s ≡ record blank { quality = Quality.fault })
          × (bus' ≡ 2))
        ⊎ ((Err.ok ≡ Err.ok) × (Err.ok ≡ Err.ok) × (bus' ≡ 2) × Converted 0x6666 0x8000 blank e s))
sht31_read_lem_example = sht31_read_lem sensor_bus 0 blank
