-- ===== src/Tests/Service.antt =====
-- The theorems on the services at concrete data.
use climate_node.Prelude.{
  inl, ℕ, ◌≤◌, ◌<◌, ◌≡◌, ◌⊎◌, ◌↔◌, refl, arith, true, false, none, some, List, [], ◌∷◌, ◌++◌, pos,
  length, get_or, take, drop, replicate,
}
use climate_node.Core.Types.{Err}
use climate_node.Service.Modbus.{
  ParseErr, Request, crc_bit, crc_bits, crc_byte, crc_bytes, modbus_crc16, received_crc,
  modbus_frame_has_valid_crc, modbus_parse_request,
}
use climate_node.Service.Modbus.Crc.Burst.{set_pair, corrupt_burst_detected}
use climate_node.Service.Modbus.Build.{crc_tail}
use climate_node.Service.Modbus.Parse.{parse_request-ok_iff}
use climate_node.Service.Storage.{
  DeviceConfig, storage_finalize, storage_load_defaults, storage_validate, calc_crc32, crc32_bytes,
  crc32_bits,
}
use climate_node.Service.Storage.Flash.{mock_flash_init, config_bytes, config_of_bytes}
use climate_node.Service.Storage.Persist.{host_flash, storage_load, storage_save}
use climate_node.Service.Storage.Layout.{IsConfig}
use climate_node.Service.Storage.Laws.{finalize_valid, save_load, load_backup}
use climate_node.Service.Logger.{
  Logger, LogLevel, logger_init, logger_push_char, logger_write_char, logger_write_fixed_cd,
  logger_flush,
}
use climate_node.Service.Logger.Queue.{Queued, logger_init-Queued, joined, flush_lem}
use climate_node.Service.Logger.Decimal.{value_of, AllDigits, backwards}
use climate_node.Service.Logger.Fixed.{magnitude, sign_of, write_fixed_lem}
use climate_node.Prelude.{u32, ◌+◌, inr, negsuc, Option, get_or}
use climate_node.Service.ModbusServer.{Event, ReceiveByte, Server, modbus_server_task}
use climate_node.Service.ModbusServer.Frames.{IsBuffer, server_task-IsBuffer}
use climate_node.Service.ModbusServer.Stream.{Call}
use climate_node.Service.ModbusServer.Stream.Delivery.{whole_request, polled, stream_delivered}

-- A request to slave 1 to read two registers from address 0, with its checksum.
abbrev request : List ℕ
request = 0x01 ∷ 0x03 ∷ 0x00 ∷ 0x00 ∷ 0x00 ∷ 0x02 ∷ 0xc4 ∷ 0x0b ∷ []

request_valid : modbus_frame_has_valid_crc (some request) (length request) ≡ true
unfolding modbus_frame_has_valid_crc modbus_crc16 crc_bytes crc_byte crc_bits crc_bit received_crc
request_valid = refl

corrupt_burst_detected_example :
    modbus_frame_has_valid_crc (some (set_pair request 5 0x10 0x7f)) 8 ≡ false
corrupt_burst_detected_example =
    corrupt_burst_detected request 5 0x10 0x7f (omega arith) (ground arith) request_valid
      (omega arith) (omega arith) (omega arith) (inl (omega arith))

abbrev no_request : Request
no_request = record { slave_addr = 0; function = 0; bytes = none; data_len = 0 }

abbrev four : List ℕ
four = 0x01 ∷ 0x00 ∷ 0x02 ∷ 0x58 ∷ []

abbrev buffer : List ℕ
buffer = replicate 16 0

parse_request-ok_iff_example :
    ((modbus_parse_request (some request) 8 1 no_request).0 ≡ ParseErr.ok) ↔ (
      (length request ≡ 8)
      × (modbus_frame_has_valid_crc (some request) 8 ≡ true)
      × ((get_or request 0 0 ≡ 1) ⊎ (get_or request 0 0 ≡ 0))
      × ((get_or request 1 0 ≡ 3) ⊎ (get_or request 1 0 ≡ 6)))
parse_request-ok_iff_example = parse_request-ok_iff request 1 no_request

abbrev pub settings : DeviceConfig
settings = record storage_load_defaults { dew_margin_on_cd = pos 300; dew_margin_off_cd = pos 450 }

pub final-IsConfig : IsConfig (storage_finalize settings)
unfolding storage_finalize storage_load_defaults calc_crc32 crc32_bytes crc32_bits
final-IsConfig = record {
  magic = omega arith;
  version = omega arith;
  size = omega arith;
  on = omega arith;
  off = omega arith;
  period = omega arith;
  padding = refl;
  crc = omega arith;
}

pub flash_room : 56 ≤ length mock_flash_init.cells
unfolding mock_flash_init
flash_room = omega arith

save_load_example :
    let c = storage_finalize settings in
    let (e, f') = storage_save host_flash c mock_flash_init in
    ((storage_validate c ≡ true)
      × (e ≡ Err.ok)
      × ((old : DeviceConfig) → storage_load host_flash f' old ≡ (Err.ok, c))
      × (drop 28 f'.cells ≡ drop 28 mock_flash_init.cells))
    ⊎ ((storage_validate c ≡ false) × (e ≡ Err.invalid_arg) × (f' ≡ mock_flash_init))
save_load_example = save_load (storage_finalize settings) mock_flash_init final-IsConfig flash_room

-- The first half of a configuration over erased cells.
abbrev torn : List ℕ
torn = take 14 (config_bytes (storage_finalize settings)) ++ replicate 14 0xff

torn_bad : storage_validate (config_of_bytes torn) ≡ false
unfolding storage_validate config_of_bytes storage_finalize storage_load_defaults calc_crc32
    crc32_bytes crc32_bits
torn_bad = refl

load_backup_example :
    storage_load host_flash
      (record { cells = torn ++ config_bytes (storage_finalize settings); write_count = 1 })
      settings
    ≡ (Err.ok, storage_finalize settings)
load_backup_example =
    load_backup (storage_finalize settings) settings torn 1 final-IsConfig
      (finalize_valid settings).0 refl torn_bad

abbrev pub static_log : Logger
static_log = record {
  buf = replicate 256 0;
  head = 7;
  tail = 3;
  count = 9;
  level = LogLevel.debug;
  dropped = 1;
}

abbrev fresh_log : Logger
fresh_log = logger_init static_log

fresh-Queued : Queued fresh_log []
fresh-Queued = logger_init-Queued static_log refl

one-Queued : Queued (logger_write_char 65 fresh_log) (65 ∷ [])
unfolding logger_write_char logger_push_char logger_init
one-Queued = record {
  storage = refl;
  tail_in = omega arith;
  fits = omega arith;
  head_at = refl;
  contents = refl;
}

write_fixed_lem_example :
    (ds : List ℕ) × (tens units : ℕ) × Queued
      (logger_write_fixed_cd (negsuc 1023) fresh_log)
      ([] ++ (sign_of (negsuc 1023) ++ (backwards ds ++ (0x2e ∷ tens ∷ units ∷ []))))
    × (value_of (units ∷ tens ∷ ds) ≡ magnitude (negsuc 1023))
    × AllDigits (units ∷ tens ∷ ds)
    × (0 < length ds)
write_fixed_lem_example =
    write_fixed_lem (negsuc 1023) fresh_log [] (omega arith) fresh-Queued (omega arith)

flush_lem_example :
    let (l', out') = logger_flush (logger_write_char 65 fresh_log) [] in
    (joined out' ≡ 65 ∷ []) × Queued l' []
flush_lem_example = flush_lem (logger_write_char 65 fresh_log) (65 ∷ []) [] one-Queued

-- A line that gives a byte or none at each look.
abbrev look : ReceiveByte (List (Option ℕ))
look [] = (none, [])
look (x ∷ line) = (x, line)

-- The application puts an answer on the line.
abbrev answer : Request → List (Option ℕ) → List (Option ℕ)
answer req line = some req.function ∷ line

abbrev listening : Server (List (Option ℕ))
listening = record {
  buf = replicate 256 0;
  len = 0;
  last_byte_ms = 0;
  silence_ms = 5;
  slave_addr = 1;
  recv = some look;
  event = Event.no_event;
  request = no_request;
  parse_error = ParseErr.ok;
  rx_byte_count = 0;
  frame_count = 0;
  error_count = 0;
  overflow_count = 0;
}

-- Two bytes, none, and then the other six.
abbrev calls : List Call
calls = (100, 1 ∷ 6 ∷ []) ∷ (103, []) ∷ (104, four ++ crc_tail (1 ∷ 6 ∷ four)) ∷ []

abbrev line : List (Option ℕ)
line =
    some 1
    ∷ some 6
    ∷ none
    ∷ none
    ∷ some (get_or four 0 0)
    ∷ some (get_or four 1 0)
    ∷ some (get_or four 2 0)
    ∷ some (get_or four 3 0)
    ∷ some (get_or (crc_tail (1 ∷ 6 ∷ four)) 0 0)
    ∷ some (get_or (crc_tail (1 ∷ 6 ∷ four)) 1 0)
    ∷ none
    ∷ []

stream_delivered_example :
    let (s1, w1) = polled answer calls listening line in
    let (e, s2, w2) = modbus_server_task answer 109 s1 w1 in
    (w2 ≡ answer (whole_request 1 6 four) [])
    × (s2.event ≡ Event.request)
    × (s2.frame_count ≡ u32 (0 + 1))
    × (s2.error_count ≡ 0)
    × (s2.len ≡ 0)
stream_delivered_example =
    stream_delivered answer look calls 109 listening line [] [] 6 four refl refl refl
      (
        _,
        (_, refl, (_, refl, refl)),
        (
          _,
          refl,
          (_, (_, refl, (_, refl, (_, refl, (_, refl, (_, refl, (_, refl, refl)))))), refl),
        ),
      )
      (refl, (refl, (refl, tt))) refl refl (inr refl) (ground arith) refl refl

-- One byte short of full, with bytes waiting: the second byte finds the buffer full.
abbrev nearly_full : Server (List (Option ℕ))
nearly_full = record listening { len = 255 }

server_task-IsBuffer_example : IsBuffer (modbus_server_task answer 104 nearly_full line).1
server_task-IsBuffer_example = server_task-IsBuffer answer 104 nearly_full line (refl, omega arith)
