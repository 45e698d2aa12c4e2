-- ===== src/Service/ModbusServer/Stream.antt =====
-- A request that arrives byte by byte over several calls of `modbus_server_task`
-- (src/service/modbus_server.c), ended by silence.
pub mod Delivery
use climate_node.Prelude.{
  ℕ, zero, suc, ◌+◌, ◌≤◌, ◌<◌, ◌^◌, ◌≡◌, refl, ◌∙◌, sym, ap, ap₂, subst, arith, if◌then◌else◌,
  Option, true, false, none, some, inl, inr, ◌⊎◌, ◌&&◌, List, [], ◌∷◌, ◌++◌, append_assoc,
  append-nil, length, length-append, length-set, set, take, take-set_end, leb, ltb, u32, sub32,
  leb_ℤ, signed32, Bool, Bool-cases,
}
use climate_node.Core.Types.{Err}
use climate_node.Service.Modbus.{Request}
use climate_node.Service.Modbus.Crc.{AllBytes}
use climate_node.Service.Modbus.Build.{crc_tail, rtu_frame}
use climate_node.Service.ModbusServer.{
  Event, ReceiveByte, Server, receive, is_silent, end_frame, modbus_server_task,
}
use climate_node.Service.ModbusServer.Frames.{frame_delivered}

-- A call of the task: its time and the bytes that have come since the one before.
abbrev pub Call : Type 0
Call = ℕ × List ℕ

abbrev pub bytes_of : List Call → List ℕ
bytes_of [] = []
bytes_of ((now, bs) ∷ calls) = bs ++ bytes_of calls

-- Whether a frame whose last byte came at `last` is over at `now`.
abbrev pub is_over : ℕ → ℕ → ℕ → Bool
is_over silence last now = leb_ℤ (signed32 silence) (signed32 (sub32 now last))

-- The time of the last byte.
abbrev heard : ℕ → ℕ → List ℕ → ℕ
heard now last [] = last
heard now last (b ∷ bs) = now

abbrev pub last_heard : ℕ → List Call → ℕ
last_heard last [] = last
last_heard last ((now, bs) ∷ calls) = last_heard (heard now last bs) calls

-- Each call has new bytes, or the last one did not come too long ago.
abbrev pub Paced : ℕ → ℕ → List Call → Type 0
Paced silence last [] = Unit {0}
Paced silence last ((now, bs) ∷ calls) =
    (is_over silence (heard now last bs) now ≡ false) × Paced silence (heard now last bs) calls

module _ {W : Type 0} where
  -- The source gives the bytes and then none.
  abbrev pub Gives : ReceiveByte W → W → List ℕ → W → Type 0
  Gives recv w [] w' = recv w ≡ (none, w')
  Gives recv w (b ∷ bs) w' = (v : W) × (recv w ≡ (some b, v)) × Gives recv v bs w'

  -- It does so in every call.
  abbrev pub GivesAll : ReceiveByte W → W → List Call → W → Type 0
  GivesAll recv w [] w' = w ≡ w'
  GivesAll recv w ((now, bs) ∷ calls) w' = (v : W) × Gives recv w bs v × GivesAll recv v calls w'

  abbrev put : ℕ → Server W → ℕ → Server W
  put now s byte = record s {
    buf = set s.buf s.len byte;
    len = s.len + 1;
    last_byte_ms = now;
    rx_byte_count = u32 (s.rx_byte_count + 1);
  }

  abbrev pub filled : ℕ → Server W → List ℕ → Server W
  filled now s [] = s
  filled now s (b ∷ bs) = filled now (put now s b) bs

  pub receive_lem :
      (n : ℕ) (recv : ReceiveByte W) (now : ℕ) (s : Server W) (w w' : W) (bs : List ℕ)
      → Gives recv w bs w'
      → length bs < n
      → s.len + length bs ≤ 256
      → receive n recv now s w ≡ (false, filled now s bs, w')
  unfolding receive
  receive_lem zero recv now s w w' bs g few fits = absurd (omega arith)
  receive_lem (suc n) recv now s w w' [] g few fits = rw (receive, g) (ap (λ r. (false, s, r.1)) g)
  receive_lem (suc n) recv now s w w' (b ∷ bs) (v, got, g) few fits =
      let room : leb 256 s.len ≡ false = ground arith in
      rw (receive, got, room)
        (ap (λ r. receive n recv now (put now s b) r.1) got
          ∙ receive_lem n recv now (put now s b) v w' bs g (omega arith) (omega arith))

  -- What the bytes leave alone.
  abbrev SameLink : Server W → Server W → Type 0
  SameLink s t =
      (t.slave_addr ≡ s.slave_addr)
      × (t.silence_ms ≡ s.silence_ms)
      × (t.recv ≡ s.recv)
      × (t.frame_count ≡ s.frame_count)
      × (t.error_count ≡ s.error_count)

  pub filled-SameLink : (now : ℕ) (s : Server W) (bs : List ℕ) → SameLink s (filled now s bs)
  filled-SameLink now s [] = (refl, refl, refl, refl, refl)
  filled-SameLink now s (b ∷ bs) = filled-SameLink now (put now s b) bs

  pub filled_last :
      (now : ℕ) (s : Server W) (bs : List ℕ)
      → (filled now s bs).last_byte_ms ≡ heard now s.last_byte_ms bs
  filled_last now s [] = refl
  filled_last now s (b ∷ []) = refl
  filled_last now s (b ∷ c ∷ bs) = filled_last now (put now s b) (c ∷ bs)

  -- The bytes stand in the buffer after those before.
  abbrev Stored : Server W → List ℕ → Server W → Type 0
  Stored s bs t =
      (length t.buf ≡ 256)
      × (t.len ≡ s.len + length bs)
      × (take t.len t.buf ≡ take s.len s.buf ++ bs)

  pub filled-Stored :
      (now : ℕ) (s : Server W) (bs : List ℕ)
      → length s.buf ≡ 256
      → s.len + length bs ≤ 256
      → Stored s bs (filled now s bs)
  filled-Stored now s [] size fits = (size, omega arith, sym (append-nil _))
  filled-Stored now s (b ∷ bs) size fits =
      let (size', len, text) =
        filled-Stored now (put now s b) bs (length-set s.buf s.len b ∙ size) (omega arith) in
      (
        size',
        omega (arith, len),
        text
            ∙ ap (λ t. t ++ bs) (take-set_end s.len s.buf b (omega arith))
            ∙ append_assoc (take s.len s.buf) (b ∷ []) bs,
      )

  abbrev pub filled_calls : Server W → List Call → Server W
  filled_calls s [] = s
  filled_calls s ((now, bs) ∷ calls) = filled_calls (filled now s bs) calls

  pub filled_calls-Stored :
      (s : Server W) (calls : List Call)
      → length s.buf ≡ 256
      → s.len + length (bytes_of calls) ≤ 256
      → Stored s (bytes_of calls) (filled_calls s calls)
  filled_calls-Stored s [] size fits = (size, omega arith, sym (append-nil _))
  filled_calls-Stored s ((now, bs) ∷ calls) size fits =
      let whole = length-append bs (bytes_of calls) in
      let (size1, len1, text1) = filled-Stored now s bs size (omega arith) in
      let (size2, len2, text2) = filled_calls-Stored (filled now s bs) calls size1 (omega arith) in
      (
        size2,
        omega (arith, len1, len2, whole),
        text2
            ∙ ap (λ t. t ++ bytes_of calls) text1
            ∙ append_assoc (take s.len s.buf) bs (bytes_of calls),
      )

  pub filled_calls-SameLink : (s : Server W) (calls : List Call) → SameLink s (filled_calls s calls)
  filled_calls-SameLink s [] = (refl, refl, refl, refl, refl)
  filled_calls-SameLink s ((now, bs) ∷ calls) =
      let (a, b, c, d, e) = filled-SameLink now s bs in
      let (a', b', c', d', e') = filled_calls-SameLink (filled now s bs) calls in
      (a' ∙ a, b' ∙ b, c' ∙ c, d' ∙ d, e' ∙ e)

  pub filled_calls_last :
      (s : Server W) (calls : List Call)
      → (filled_calls s calls).last_byte_ms ≡ last_heard s.last_byte_ms calls
  filled_calls_last s [] = refl
  filled_calls_last s ((now, bs) ∷ calls) =
      filled_calls_last (filled now s bs) calls
      ∙ ap (λ t. last_heard t calls) (filled_last now s bs)
