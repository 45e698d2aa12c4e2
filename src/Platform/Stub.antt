-- ===== src/Platform/Stub.antt =====
-- The weak functions of src/core/platform_stubs.c for a program that links no platform: a clock that stands
-- still, a relay that is off, and nothing that changes the state `W`. Its backup byte is in Platform, its
-- flash memory in Service/Storage/Stub.
use climate_node.Prelude.{ℕ, Bool, false, List}

unfoldable pub platform_millis : ℕ
platform_millis = 0

unfoldable pub platform_relay_get : Bool
platform_relay_get = false

module _ {W : Type 0} where
  unfoldable pub platform_wfi : W → W
  platform_wfi w = w

  unfoldable pub platform_relay_set : Bool → W → W
  platform_relay_set on w = w

  unfoldable pub platform_write : List ℕ → W → W
  platform_write bytes w = w

  unfoldable pub platform_poll : W → W
  platform_poll w = w

  unfoldable pub platform_wdg_init : ℕ → W → W
  platform_wdg_init timeout_ms w = w

  unfoldable pub platform_wdg_feed : W → W
  platform_wdg_feed w = w
