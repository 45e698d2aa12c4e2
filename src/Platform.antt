-- ===== src/Platform.antt =====
-- What the core sees of the board: the relay output and the byte that survives a reset.
-- The relay is that of src/platform/host/platform_host.c; the backup byte is that of
-- src/core/platform_stubs.c, which the host program links. Addresses passed in are never null.
pub mod Stub
use climate_node.Prelude.{ℕ, Bool, true}

pub record Board : Type 0 where
  pub relay : Bool
  pub backup : ℕ

unfoldable pub platform_relay_set : Bool → Board → Board
platform_relay_set on b = record b { relay = on }

unfoldable pub platform_relay_get : Board → Bool
platform_relay_get b = b.relay

-- Saves the first byte of the data.
unfoldable pub platform_emergency_backup_save : ℕ → Board → Board
platform_emergency_backup_save value b = record b { backup = value }

-- Whether a byte was loaded, and the byte.
unfoldable pub platform_emergency_backup_load : Board → Bool × ℕ
platform_emergency_backup_load b = (true, b.backup)
