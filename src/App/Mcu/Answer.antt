-- ===== src/App/Mcu/Answer.antt =====
-- From a received request to the frame that answers it: the UART's interrupt and the task of
-- src/app/main_mcu.c that runs next.
use climate_node.Prelude.{
  ℕ, zero, suc, ◌+◌, ◌≤◌, ◌<◌, ◌^◌, ◌≡◌, ◌⊎◌, ◌∙◌, refl, sym, ap, subst, inl, inr, arith, true,
  none, some, List, [], ◌∷◌, ltb, length, take, Bool-cases, Option-cases, ◌==◌, ◌||◌, ◌&&◌, not,
}
use climate_node.Service.Modbus.{Request}
use climate_node.Service.Modbus.Crc.{AllBytes}
use climate_node.Service.Modbus.Build.{rtu_frame}
use climate_node.Service.ModbusRegs.{RegMap}
use climate_node.Service.ModbusRegs.Laws.{block}
use climate_node.Bsp.Uart.{Uart, take_chunks}
use climate_node.Bsp.Uart.Receive.{dma_write}
use climate_node.App.Mcu.Reception.{on_uart, request_received}
use climate_node.Service.ModbusServer.{Event, Server, modbus_server_task, modbus_server_clear_event}
use climate_node.Service.Logger.{LogLevel, logger_level_enabled}
use climate_node.Service.Storage.{storage_finalize}
use climate_node.Service.Storage.Persist.{FlashOps, is_ok}
use climate_node.Core.Types.{Err}
use climate_node.Service.ModbusRegs.{mb_regs_write_single}
use climate_node.App.Node.{app_mark_ticket, app_update_config}
use climate_node.App.Mcu.{McuOps, Mcu, sync_registers}
use climate_node.App.Mcu.Handler.{
  be16_at, changed_config, log_save_error, apply_modbus_write_to_app, write_single, respond,
  send_response, handle_modbus_request,
}
use climate_node.App.Mcu.Loop.{start_server, on_event, modbus_task}
use climate_node.App.Mcu.Reply.{is_writable, request_bytes, read_reply, reply, respond_lem}

module _ {U : Type 0} (ops : McuOps U) where
  -- Nothing is done with the hardware but looks at the clock.
  pub data ClockReads : U → U → Type 0 where
    done : {u : U} → ClockReads u u
    look : {u v : U} → ClockReads u v → ClockReads u (ops.millis v).1

  -- The transmitter is free, and looking at the clock does not change that: a transmission is accepted.
  abbrev pub IsFree : U → Type 0
  IsFree hw =
      (before : U) (bytes : List ℕ)
      → ClockReads hw before
      → (ops.tx_dma_async bytes before).0 ≡ true

  -- Since `start` one transmission was begun, that of the bytes, and it was accepted.
  abbrev pub IsSent : U → List ℕ → U → Type 0
  IsSent start bytes hw =
      (before : U) × ClockReads start before
      × ((ops.tx_dma_async bytes before).0 ≡ true)
      × ClockReads (ops.tx_dma_async bytes before).1 hw

  reads_trans : {u v w : U} → ClockReads u v → ClockReads v w → ClockReads u w
  reads_trans p ClockReads.done = p
  reads_trans p (ClockReads.look q) = ClockReads.look (reads_trans p q)

frame_some : (a f : ℕ) (payload : List ℕ) → 0 < length (rtu_frame a f payload)
frame_some a f payload = omega arith

-- Every request is answered by some bytes.
reply_some : (req : Request) (regs : RegMap) → 0 < length (reply req regs)
reply_some req regs = elim (Bool-cases (req.function == 3)) [
  | inl read ↦ rw read (read_some req regs)
  | inr other ↦ elim (Bool-cases (req.function == 6)) [
    | inl write ↦ elim (Bool-cases (is_writable (be16_at req 0) (be16_at req 2))) [
      | inl good ↦ rw (other, write, good) (omega arith)
      | inr bad ↦ rw (other, write, bad) (omega arith)
    ]
    | inr unknown ↦ rw (other, unknown) (omega arith)
  ]
]
  where
    read_some : (req : Request) (regs : RegMap) → 0 < length (read_reply req regs)
    read_some req regs =
        let quantity = be16_at req 2 in
        elim (Bool-cases (quantity == 0 || ltb 125 quantity)) [
          | inl bad ↦ rw bad (omega arith)
          | inr fine ↦ elim (Option-cases (block regs (be16_at req 0) 0 quantity)) [
            | inl none_left ↦ rw (fine, none_left) (omega arith)
            | inr (bs, some_left) ↦ rw (fine, some_left) (omega arith)
          ]
        ]

some_len : (n : ℕ) (buf bytes : List ℕ) → take n buf ≡ bytes → 0 < length bytes → ltb 0 n ≡ true
some_len zero buf bytes e h = absurd (omega (arith, ap length e))
some_len (suc n) buf bytes e h = ground arith

small_function : (f : ℕ) → (f ≡ 3) ⊎ (f ≡ 6) → f < 2 ^ 7
small_function f h = omega arith

-- The request of a frame, and what the server keeps of it.
abbrev pub request_of : ℕ → ℕ → List ℕ → Request
request_of a f bytes = record { slave_addr = a; function = f; bytes = some bytes; data_len = 4 }

module _ {F D U : Type 0} (fops : FlashOps F) (ops : McuOps U) where
  send_lem :
      (start : U) (n : ℕ) (buf : List ℕ) (c : Mcu F D U)
      → ClockReads ops start c.hw
      → IsFree ops start
      → ltb 0 n ≡ true
      → IsSent ops start (take n buf) (send_response fops ops n buf c).hw
  unfolding send_response
  send_lem start n buf c reads free h =
      elim (Bool-cases (logger_level_enabled LogLevel.debug c.log)) [
        | inl e ↦
            rw (h, e) (c.hw, reads, free c.hw (take n buf) reads, ClockReads.look ClockReads.done)
        | inr e ↦ rw (h, e) (c.hw, reads, free c.hw (take n buf) reads, ClockReads.done)
      ]

  save_reads : (e : Err) (c : Mcu F D U) → ClockReads ops c.hw (log_save_error fops ops e c).hw
  unfolding log_save_error
  save_reads e c = elim (Bool-cases (not (is_ok e) && logger_level_enabled LogLevel.warn c.log)) [
    | inl bad ↦ rw bad (ClockReads.look ClockReads.done)
    | inr fine ↦ rw fine ClockReads.done
  ]

  apply_reads :
      (c : Mcu F D U) (addr value : ℕ)
      → ClockReads ops c.hw (apply_modbus_write_to_app fops ops c addr value).hw
  unfolding apply_modbus_write_to_app
  apply_reads c addr value = elim (Option-cases (changed_config c.app.cfg addr value)) [
    | inl e ↦ rw (apply_modbus_write_to_app, e) ClockReads.done
    | inr (cfg, e) ↦
        let (err, app, world) = app_update_config fops c.app (storage_finalize cfg) c.world in
        rw (apply_modbus_write_to_app, e) (save_reads err (record c { app = app; world = world }))
  ]

  -- To make up the reply, the clock is looked at, and nothing is sent.
  respond_reads :
      (req : Request) (c : Mcu F D U) → ClockReads ops c.hw (respond fops ops req c).1.hw
  unfolding respond write_single
  respond_reads req c = elim (Bool-cases (req.function == 3)) [
    | inl read ↦ rw read ClockReads.done
    | inr other ↦ elim (Bool-cases (req.function == 6)) [
      | inr unknown ↦ rw (other, unknown) ClockReads.done
      | inl write ↦ elim (Bool-cases (req.data_len == 4)) [
        | inr bad ↦ rw (other, write, bad) ClockReads.done
        | inl four ↦
            let (good, regs) = mb_regs_write_single c.regs (be16_at req 0) (be16_at req 2) in
            elim (Bool-cases good) [
              | inr bad ↦ rw (other, write, four, bad) ClockReads.done
              | inl set ↦
                  rw (other, write, four, set)
                    (apply_reads (record c { regs = regs }) (be16_at req 0) (be16_at req 2))
            ]
      ]
    ]
  ]

  sync_reads :
      (start : U) (c : Mcu F D U)
      → ClockReads ops start c.hw
      → ClockReads ops start (sync_registers ops c).hw
  unfolding sync_registers
  sync_reads start c reads = ClockReads.look reads

  pub handle-IsSent :
      (start : U) (req : Request) (c : Mcu F D U)
      → ClockReads ops start c.hw
      → IsFree ops start
      → AllBytes (req.slave_addr ∷ request_bytes req)
      → req.function < 2 ^ 7
      → req.data_len ≡ 4
      → IsSent ops start
          (reply req (sync_registers ops c).regs)
          (handle_modbus_request fops ops req c).hw
  unfolding handle_modbus_request
  handle-IsSent start req c reads free bytes small four =
      let d = sync_registers ops c in
      let ((len, buf), e) = respond fops ops req d in
      let frame = respond_lem fops ops req d bytes small four in
      let reads' = reads_trans ops (sync_reads start c reads) (respond_reads req d) in
      subst (λ bs. IsSent ops start bs (send_response fops ops len buf e).hw) frame
        (send_lem start len buf e reads' free
          (some_len len buf (reply req d.regs) frame (reply_some req d.regs)))

  -- What a run of the task on a waiting request gives.
  abbrev Answered : Mcu F D U → Type 0
  Answered c =
      let after = modbus_task fops ops c in
      let at_start = record c { hw = (ops.millis c.hw).1 } in
      IsSent ops c.hw (reply c.srv.request (sync_registers ops at_start).regs) after.hw
      × (after.srv.event ≡ Event.no_event)

  task_answers :
      (c : Mcu F D U)
      → IsFree ops c.hw
      → c.initialized ≡ true
      → c.srv.recv ≡ none
      → c.srv.event ≡ Event.request
      → AllBytes (c.srv.request.slave_addr ∷ request_bytes c.srv.request)
      → c.srv.request.function < 2 ^ 7
      → c.srv.request.data_len ≡ 4
      → Answered c
  unfolding modbus_task start_server on_event modbus_server_task modbus_server_clear_event
      app_mark_ticket
  task_answers c free init silent event bytes small four =
      let ready = record c {
        initialized = true;
        srv = record c.srv { recv = none; event = Event.request };
      } in
      let same : ready ≡ c = λ i. record c {
        initialized = sym init i;
        srv = record c.srv { recv = sym silent i; event = sym event i };
      } in
      subst Answered same (
        handle-IsSent c.hw ready.srv.request (record ready { hw = (ops.millis c.hw).1 })
            (ClockReads.look ClockReads.done) free bytes small four,
        refl,
      )

  waiting_answered :
      (c : Mcu F D U) (a f p q r t : ℕ) (rest : List ℕ)
      → IsFree ops c.hw
      → c.initialized ≡ true
      → c.srv.recv ≡ none
      → c.srv.event ≡ Event.request
      → c.srv.request ≡ request_of a f (p ∷ q ∷ r ∷ t ∷ rest)
      → (f ≡ 3) ⊎ (f ≡ 6)
      → AllBytes (a ∷ f ∷ p ∷ q ∷ r ∷ t ∷ [])
      → let after = modbus_task fops ops c in
        let regs = (sync_registers ops (record c { hw = (ops.millis c.hw).1 })).regs in
        IsSent ops c.hw (reply (request_of a f (p ∷ q ∷ r ∷ t ∷ [])) regs) after.hw
        × (after.srv.event ≡ Event.no_event)
  waiting_answered c a f p q r t rest free init silent event request func (ha, (hf, bytes)) =
      let regs = (sync_registers ops (record c { hw = (ops.millis c.hw).1 })).regs in
      let (sent, over) =
        task_answers c free init silent event
          (subst (λ req. AllBytes (req.slave_addr ∷ request_bytes req)) (sym request) (ha, bytes))
          (subst (λ req. req.function < 2 ^ 7) (sym request) (small_function f func))
          (ap (λ req. req.data_len) request) in
      (
        subst (λ req. IsSent ops c.hw (reply req regs) (modbus_task fops ops c).hw) request sent,
        over,
      )

  -- A request with function 3 or 6 to this slave, which the DMA has written within the circular buffer
  -- while the transmitter is free, is answered by the next run of the task: it begins one transmission,
  -- that of the device's reply, which is accepted, and the server is free for the next request. The
  -- server has been started, as the program starts it.
  pub request_answered :
      (u : Uart (Server U × U)) (before : List ℕ) (c : Mcu F D U) (f p q r t : ℕ)
      → length before ≡ 256
      → u.last_rx_pos + 8 ≤ 256
      → u.callback ≡ some (on_uart (λ req hw. hw))
      → IsFree ops c.hw
      → c.initialized ≡ true
      → c.srv.recv ≡ none
      → (f ≡ 3) ⊎ (f ≡ 6)
      → AllBytes (c.srv.slave_addr ∷ f ∷ p ∷ q ∷ r ∷ t ∷ [])
      → let frame = rtu_frame c.srv.slave_addr f (p ∷ q ∷ r ∷ t ∷ []) in
        let (buf, pos) = dma_write before u.last_rx_pos frame in
        let (srv, hw) = (take_chunks buf pos u (c.srv, c.hw)).1 in
        let d = record c { srv = srv; hw = hw } in
        let after = modbus_task fops ops d in
        let req = request_of c.srv.slave_addr f (p ∷ q ∷ r ∷ t ∷ []) in
        let regs = (sync_registers ops (record d { hw = (ops.millis hw).1 })).regs in
        IsSent ops c.hw (reply req regs) after.hw × (after.srv.event ≡ Event.no_event)
  request_answered u before c f p q r t size inside cb free init silent func small =
      let payload = p ∷ q ∷ r ∷ t ∷ [] in
      let frame = rtu_frame c.srv.slave_addr f payload in
      let (buf, pos) = dma_write before u.last_rx_pos frame in
      let (srv, hw) = (take_chunks buf pos u (c.srv, c.hw)).1 in
      let d = record c { srv = srv; hw = hw } in
      let (moved, how) =
        request_received (λ req hw. hw) u before payload c.srv c.hw f size (omega arith) cb refl
          func small in
      elim how [
        | inr (past, torn) ↦ absurd (omega arith)
        | inl (whole, (event, (rest, request), count, errors, source, handed)) ↦
            let start : hw ≡ c.hw = handed in
            let (sent, over) =
              waiting_answered d c.srv.slave_addr f p q r t _ (subst (IsFree ops) (sym start) free)
                init (source ∙ silent) event request func small in
            (
              subst
                  (λ b.
                    IsSent ops b
                      (reply (request_of c.srv.slave_addr f payload)
                        (sync_registers ops (record d { hw = (ops.millis hw).1 })).regs)
                      (modbus_task fops ops d).hw)
                  start sent,
              over,
            )
      ]
