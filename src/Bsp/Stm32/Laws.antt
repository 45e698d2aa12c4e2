-- ===== src/Bsp/Stm32/Laws.antt =====
-- The platform functions against what the rest of the program expects of them.
use climate_node.Prelude.{
  ℕ, zero, suc, ◌+◌, ◌*◌, ◌^◌, ◌≤◌, ◌<◌, ◌≡◌, ◌⊎◌, refl, ap, inl, inr, arith, true, false, some,
  Bool-cases,
}
use climate_node.Bsp.Registers.{Bus, IsHeld, has_bit, or_reg}
use climate_node.Bsp.Stm32.{
  bkp_dr1, pwr_cr, iwdg_kr, iwdg_pr, iwdg_rlr, iwdg_sr, wdg_reload, platform_emergency_backup_save,
  platform_emergency_backup_load, wait_clear, platform_wdg_init,
}

-- The byte that is saved is loaded again, if the backup register keeps its low byte.
backup_lem :
    {H : Type 0} (bus : Bus H) (byte : ℕ) (h : H)
    → IsHeld bus bkp_dr1 8
    → byte < 2 ^ 8
    → (platform_emergency_backup_load bus (platform_emergency_backup_save bus byte h)).0
      ≡ (true, byte)
unfolding platform_emergency_backup_load platform_emergency_backup_save
backup_lem bus byte h held small =
    let kept = held.same byte (or_reg bus pwr_cr (2 ^ 8) h) in
    ap (λ b. (true, b)) (omega (arith, kept))

-- For 2 to 6552 ms the timeout is the longest one that is not above what is asked for, at 625 counts per
-- second.
reload_lem :
    (timeout_ms : ℕ)
    → 2 ≤ timeout_ms
    → timeout_ms ≤ 6552
    → let reload = wdg_reload timeout_ms in
      (reload * 8 ≤ timeout_ms * 5)
      × (timeout_ms * 5 < (reload + 1) * 8)
      × (1 ≤ reload)
      × (reload ≤ 4095)
reload_lem timeout_ms h k = ground arith

module _ {H : Type 0} (bus : Bus H) (bit : ℕ) where
  -- One of the next reads of the status register, at most `n` of them after the first, finds the bit
  -- clear.
  abbrev pub ClearWithin : ℕ → H → Type 0
  ClearWithin zero h = has_bit (bus.load iwdg_sr h).0 bit ≡ false
  ClearWithin (suc n) h =
      let (sr, h') = bus.load iwdg_sr h in (has_bit sr bit ≡ false) ⊎ ClearWithin n h'

  wait_clear-ends :
      (n : ℕ) (h : H) → ClearWithin n h → (h' : H) × (wait_clear bus (suc n) bit h ≡ some h')
  unfolding wait_clear
  wait_clear-ends zero h clear = ((bus.load iwdg_sr h).1, rw clear refl)
  wait_clear-ends (suc n) h clear = elim (Bool-cases (has_bit (bus.load iwdg_sr h).0 bit)) [
    | inr now ↦ ((bus.load iwdg_sr h).1, rw now refl)
    | inl later ↦ elim clear [
      | inl now ↦ absurd (ground (arith, now, later))
      | inr soon ↦
          let (h', ends) = wait_clear-ends n (bus.load iwdg_sr h).1 soon in (h', rw later ends)
    ]
  ]

-- For a timeout of 2 to 6552 ms, if the watchdog takes over its prescaler and its reload value within
-- `n` further reads each, the set-up ends with that fuel, its last write starts the watchdog, and the
-- reload value fits twelve bits and is the largest whose time, at 625 counts per second, is not above
-- the timeout.
wdg_init_lem :
    {H : Type 0} (bus : Bus H) (n timeout_ms : ℕ) (h : H)
    → ((h' : H) → ClearWithin bus 0 n h')
    → ((h' : H) → ClearWithin bus 1 n h')
    → 2 ≤ timeout_ms
    → timeout_ms ≤ 6552
    → let reload = wdg_reload timeout_ms in
      (h' : H) × (platform_wdg_init bus (suc n) timeout_ms h ≡ some (bus.store iwdg_kr 0xcccc h'))
      × (reload * 8 ≤ timeout_ms * 5)
      × (timeout_ms * 5 < (reload + 1) * 8)
      × (1 ≤ reload)
      × (reload ≤ 4095)
unfolding platform_wdg_init
wdg_init_lem bus n timeout_ms h prescaler reload low high =
    let start = bus.store iwdg_pr 4 (bus.store iwdg_kr 0x5555 h) in
    let (h1, first) = wait_clear-ends bus 0 n start (prescaler start) in
    let set = bus.store iwdg_rlr (wdg_reload timeout_ms) h1 in
    let (h2, second) = wait_clear-ends bus 1 n set (reload set) in
    let (least, most, positive, fits) = reload_lem timeout_ms low high in
    (h2, rw (platform_wdg_init, first, second) refl, least, most, positive, fits)
