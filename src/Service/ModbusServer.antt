-- ===== src/Service/ModbusServer.antt =====
-- src/service/modbus_server.c and include/service/modbus_server.h: reception of requests. The byte source
-- is a function on its state `W` that gives a byte or none, and may be null. The server that the
-- interrupt callback works on (`g_current_server_ctx`) is the one that `modbus_server_init` was last called
-- on. The callback on a good request is the application's, a function on the same state.
pub mod Frames
pub mod Chunks
pub mod Stream
use climate_node.Prelude.{
  ℕ, zero, suc, ◌+◌, ◌-◌, ◌%◌, ◌^◌, Bool, true, false, not, ◌&&◌, ◌||◌, Option, none, some, List,
  [], ◌∷◌, u32, sub32, ltb, leb, if◌then◌else◌, set, take, ℤ, leb_ℤ, signed32,
}
use Prim.Native.String.{String}
use climate_node.Core.Types.{Err}
use climate_node.Service.Modbus.{ParseErr, Request, modbus_parse_request}

abbrev pub modbus_server_max_frame : ℕ
modbus_server_max_frame = 256

-- `modbus_event_t`
pub data Event : Type 0 where
  no_event request crc_error address_error function_error length_error overflow : Event

-- `uart_event_t`
pub data UartEvent : Type 0 where
  rx_chunk tx_complete error : UartEvent

-- `modbus_rx_byte_fn` with its context.
abbrev pub ReceiveByte : Type 0 → Type 0
ReceiveByte W = W → Option ℕ × W

-- `modbus_server_t`
pub record Server (W : Type 0) : Type 0 where
  pub buf : List ℕ
  pub len : ℕ
  pub last_byte_ms : ℕ
  pub silence_ms : ℕ
  pub slave_addr : ℕ
  pub recv : Option (ReceiveByte W)
  pub event : Event
  pub request : Request
  pub parse_error : ParseErr
  pub rx_byte_count : ℕ
  pub frame_count : ℕ
  pub error_count : ℕ
  pub overflow_count : ℕ

module _ {W : Type 0} where
  unfoldable pub modbus_server_init : ℕ → ℕ → Option (ReceiveByte W) → Server W → Server W
  modbus_server_init slave_addr silence_ms recv s = record s {
    len = 0;
    last_byte_ms = 0;
    silence_ms = silence_ms;
    slave_addr = slave_addr;
    recv = recv;
    event = Event.no_event;
    request = record { slave_addr = 0; function = 0; bytes = none; data_len = 0 };
    parse_error = ParseErr.ok;
    rx_byte_count = 0;
    frame_count = 0;
    error_count = 0;
    overflow_count = 0;
  }

  abbrev count_error : Event → Server W → Server W
  count_error e s = record s { event = e; error_count = u32 (s.error_count + 1) }

  -- The `switch` on the parser's status.
  unfoldable pub on_parsed : ParseErr → (Request → W → W) → Server W → W → Server W × W
  on_parsed ParseErr.ok ready s w =
      (record s { frame_count = u32 (s.frame_count + 1); event = Event.request }, ready s.request w)
  on_parsed ParseErr.bad_crc ready s w = (count_error Event.crc_error s, w)
  on_parsed ParseErr.bad_addr ready s w = (count_error Event.address_error s, w)
  on_parsed ParseErr.unsupported_func ready s w = (count_error Event.function_error s, w)
  on_parsed e ready s w = (count_error Event.length_error s, w)

  unfoldable pub modbus_uart_event_callback :
      (Request → W → W) → Option (List ℕ) → ℕ → UartEvent → Server W → W → Server W × W
  modbus_uart_event_callback ready bytes len UartEvent.error s w =
      (record s { error_count = u32 (s.error_count + 1); event = Event.crc_error }, w)
  modbus_uart_event_callback ready bytes len UartEvent.tx_complete s w = (s, w)
  modbus_uart_event_callback ready bytes len UartEvent.rx_chunk s w =
      let t = record s { rx_byte_count = u32 (s.rx_byte_count + len) } in
      let (err, req) = modbus_parse_request bytes len t.slave_addr t.request in
      on_parsed err ready (record t { request = req; parse_error = err }) w

  -- The loop that takes at most 16 bytes: whether it ended in an overflow, the server, the source.
  unfoldable pub receive : ℕ → ReceiveByte W → ℕ → Server W → W → Bool × Server W × W
  receive zero recv now_ms s w = (false, s, w)
  receive (suc n) recv now_ms s w =
      let (got, w') = recv w in
      elim got [
        | none ↦ (false, s, w')
        | some byte ↦
            let t = record s {
              buf = set s.buf s.len byte;
              len = s.len + 1;
              last_byte_ms = now_ms;
              rx_byte_count = u32 (s.rx_byte_count + 1);
            } in
            let rest = receive n recv now_ms t w' in
            if leb modbus_server_max_frame s.len
            then (
              true,
              record s {
                overflow_count = u32 (s.overflow_count + 1);
                error_count = u32 (s.error_count + 1);
                len = 0;
                event = Event.overflow;
              },
              w',
            )
            else rest
      ]

  -- `(int32_t)(now_ms - last_byte_ms) >= (int32_t)silence_ms`
  abbrev pub is_silent : Server W → ℕ → Bool
  is_silent s now_ms = leb_ℤ (signed32 s.silence_ms) (signed32 (sub32 now_ms s.last_byte_ms))

  unfoldable pub end_frame : (Request → W → W) → ℕ → Server W → W → Server W × W
  end_frame ready now_ms s w =
      if ltb 0 s.len && is_silent s now_ms
      then modbus_uart_event_callback ready (some (take s.len s.buf)) s.len UartEvent.rx_chunk
          (record s { len = 0 }) w
      else (s, w)

  unfoldable pub modbus_server_task : (Request → W → W) → ℕ → Server W → W → Err × Server W × W
  modbus_server_task ready now_ms s w = elim s.recv [
    | none ↦ (Err.invalid_arg, s, w)
    | some recv ↦
        let (overflowed, t, w') = receive 16 recv now_ms s w in
        if overflowed
        then (Err.ok, t, w')
        else let (u, w'') = end_frame ready now_ms t w' in (Err.ok, u, w'')
  ]

  unfoldable pub modbus_server_clear_event : Server W → Server W
  modbus_server_clear_event s = record s { event = Event.no_event; parse_error = ParseErr.ok }

unfoldable pub modbus_event_str : Event → String
modbus_event_str Event.no_event = "NONE"
modbus_event_str Event.request = "REQUEST"
modbus_event_str Event.crc_error = "CRC_ERROR"
modbus_event_str Event.address_error = "ADDRESS_ERROR"
modbus_event_str Event.function_error = "FUNCTION_ERROR"
modbus_event_str Event.length_error = "LENGTH_ERROR"
modbus_event_str Event.overflow = "OVERFLOW"
