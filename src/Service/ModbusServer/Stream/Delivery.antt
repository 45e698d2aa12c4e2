-- ===== src/Service/ModbusServer/Stream/Delivery.antt =====
-- What the calls of `modbus_server_task` (src/service/modbus_server.c) make of a request that arrives byte
-- by byte.
use climate_node.Prelude.{
  ℕ, ◌+◌, ◌≤◌, ◌<◌, ◌≡◌, ◌∙◌, sym, ap, ap₂, subst, arith, if◌then◌else◌, Option, true, false, none,
  some, ◌⊎◌, List, [], ◌∷◌, ◌++◌, length, length-append, take, u32, Bool,
}
use climate_node.Core.Types.{Err}
use climate_node.Service.Modbus.{Request}
use climate_node.Service.Modbus.Crc.{AllBytes}
use climate_node.Service.Modbus.Build.{crc_tail, rtu_frame}
use climate_node.Service.ModbusServer.{
  Event, ReceiveByte, Server, receive, is_silent, end_frame, modbus_server_task,
}
use climate_node.Service.ModbusServer.Frames.{frame_delivered}
use climate_node.Service.ModbusServer.Stream.{
  Call, bytes_of, is_over, last_heard, Paced, GivesAll, Gives, receive_lem, filled, filled-SameLink,
  filled_last, filled-Stored, filled_calls, filled_calls-Stored, filled_calls-SameLink,
  filled_calls_last,
}

-- The request of a frame, with the checksum after its data.
abbrev pub whole_request : ℕ → ℕ → List ℕ → Request
whole_request a f payload = record {
  slave_addr = a;
  function = f;
  bytes = some (payload ++ crc_tail (a ∷ f ∷ payload));
  data_len = length payload;
}

module _ {W : Type 0} where
  module _ (ready : Request → W → W) where
    -- The calls of the task, one after the other.
    unfoldable pub polled : List Call → Server W → W → Server W × W
    polled [] s w = (s, w)
    polled ((now, bs) ∷ calls) s w =
        let (e, s', w') = modbus_server_task ready now s w in polled calls s' w'

    -- The task on what the source is, and after the loop.
    abbrev after_receive : ℕ → Bool × Server W × W → Err × Server W × W
    after_receive now (overflowed, t, w) =
        if overflowed
        then (Err.ok, t, w)
        else let (u, w') = end_frame ready now t w in (Err.ok, u, w')

    abbrev task_from : ℕ → Server W → W → Option (ReceiveByte W) → Err × Server W × W
    task_from now s w none = (Err.invalid_arg, s, w)
    task_from now s w (some r) = after_receive now (receive 16 r now s w)

    module _ (recv : ReceiveByte W) where
      -- A call that takes bytes, and then goes on as after the last of them.
      task_lem :
          (now : ℕ) (s : Server W) (w w' : W) (bs : List ℕ)
          → s.recv ≡ some recv
          → Gives recv w bs w'
          → length bs < 16
          → s.len + length bs ≤ 256
          → modbus_server_task ready now s w ≡ (
            Err.ok,
            (end_frame ready now (filled now s bs) w').0,
            (end_frame ready now (filled now s bs) w').1,
          )
      unfolding modbus_server_task
      task_lem now s w w' bs source g few fits =
          ap (task_from now s w) source
          ∙ ap (after_receive now) (receive_lem 16 recv now s w w' bs g few fits)

      not_over :
          (now : ℕ) (s : Server W) (w : W)
          → is_silent s now ≡ false
          → end_frame ready now s w ≡ (s, w)
      unfolding end_frame
      not_over now s w h = ground arith

      calls_lem :
          (calls : List Call) (s : Server W) (w w' : W)
          → s.recv ≡ some recv
          → GivesAll recv w calls w'
          → Paced s.silence_ms s.last_byte_ms calls
          → length s.buf ≡ 256
          → s.len + length (bytes_of calls) < 16
          → polled calls s w ≡ (filled_calls s calls, w')
      unfolding polled
      calls_lem [] s w w' source g pace size few = ap (λ v. (s, v)) g
      calls_lem ((now, bs) ∷ calls) s w w' source (v, g, gs) (going, pace) size few =
          let whole = length-append bs (bytes_of calls) in
          let t = filled now s bs in
          let (addr, silence, link, frames, errors) = filled-SameLink now s bs in
          let last = filled_last now s bs in
          let still : is_silent t now ≡ false = ap₂ (λ a b. is_over a b now) silence last ∙ going in
          let step = task_lem now s w v bs source g (omega arith) (omega arith) in
          let on = not_over now t v still in
          ap (λ r. polled calls r.1 r.2) step
          ∙ ap (λ r. polled calls r.0 r.1) on
          ∙ calls_lem calls t v w' (link ∙ source) gs
              (subst (λ a. Paced a t.last_byte_ms calls) (sym silence)
                (subst (λ b. Paced s.silence_ms b calls) (sym last) pace))
              (filled-Stored now s bs size (omega arith)).0
              (omega (arith, (filled-Stored now s bs size (omega arith)).1, whole))

      -- A request to this slave with function 3 or 6, whose bytes come over any number of calls, in a free
      -- buffer, with no pause in it as long as the silence, is handed on once and as it was sent by the
      -- first call after such a silence; it is counted, no error is, and the buffer is free again.
      pub stream_delivered :
          (calls : List Call) (now : ℕ) (s : Server W) (w v v' : W) (f : ℕ) (payload : List ℕ)
          → s.recv ≡ some recv
          → length s.buf ≡ 256
          → s.len ≡ 0
          → GivesAll recv w calls v
          → Paced s.silence_ms s.last_byte_ms calls
          → bytes_of calls ≡ rtu_frame s.slave_addr f payload
          → length payload ≡ 4
          → (f ≡ 3) ⊎ (f ≡ 6)
          → AllBytes (s.slave_addr ∷ f ∷ payload)
          → recv v ≡ (none, v')
          → is_over s.silence_ms (last_heard s.last_byte_ms calls) now ≡ true
          → let (s1, w1) = polled calls s w in
            let (e, s2, w2) = modbus_server_task ready now s1 w1 in
            (w2 ≡ ready (whole_request s.slave_addr f payload) v')
            × (s2.event ≡ Event.request)
            × (s2.frame_count ≡ u32 (s.frame_count + 1))
            × (s2.error_count ≡ s.error_count)
            × (s2.len ≡ 0)
      stream_delivered calls now s w v v' f payload source size free gives pace sent four func bytes
            stop over =
          let whole : length (bytes_of calls) ≡ 8 =
            ap length sent
            ∙ omega (arith, length-append payload (crc_tail (s.slave_addr ∷ f ∷ payload))) in
          let t = filled_calls s calls in
          let (size', len, text) = filled_calls-Stored s calls size (omega arith) in
          let (addr, silence, link, frames, errors) = filled_calls-SameLink s calls in
          let eight : t.len ≡ 8 = omega (arith, len) in
          let frame : take 8 t.buf ≡ rtu_frame s.slave_addr f payload =
            ap (λ n. take n t.buf) (sym eight)
            ∙ text
            ∙ ap (λ n. take n s.buf ++ bytes_of calls) free
            ∙ sent in
          let silent : is_silent t now ≡ true =
            ap₂ (λ a b. is_over a b now) silence (filled_calls_last s calls) ∙ over in
          let last = task_lem now t v v' [] (link ∙ source) stop (omega arith) (omega arith) in
          let arrived = calls_lem calls s w v source gives pace size (omega arith) in
          let (handed, event, count, faults, empty) =
            frame_delivered ready now t v' f payload eight
              (frame ∙ ap (λ a. rtu_frame a f payload) (sym addr)) four func
              (subst (λ a. AllBytes (a ∷ f ∷ payload)) (sym addr) bytes) silent in
          subst
            (λ r.
              let (e, s2, w2) = modbus_server_task ready now r.0 r.1 in
              (w2 ≡ ready (whole_request s.slave_addr f payload) v')
              × (s2.event ≡ Event.request)
              × (s2.frame_count ≡ u32 (s.frame_count + 1))
              × (s2.error_count ≡ s.error_count)
              × (s2.len ≡ 0))
            (sym arrived)
            (
              ap (λ r. r.2) last ∙ handed ∙ ap (λ a. ready (whole_request a f payload) v') addr,
              ap (λ r. r.1.event) last ∙ event,
              ap (λ r. r.1.frame_count) last ∙ count ∙ ap (λ n. u32 (n + 1)) frames,
              ap (λ r. r.1.error_count) last ∙ faults ∙ errors,
              ap (λ r. r.1.len) last ∙ empty,
            )
