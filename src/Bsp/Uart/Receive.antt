-- ===== src/Bsp/Uart/Receive.antt =====
-- Reception: what the interrupt hands to the callback, against the bytes that the DMA wrote.
use climate_node.Prelude.{
  ℕ, zero, suc, ◌+◌, ◌-◌, ◌≤◌, ◌<◌, ◌≡◌, ◌⊎◌, ◌∙◌, refl, sym, ap, ap₂, inl, inr, arith, true, false,
  none, some, List, [], ◌∷◌, ◌++◌, ltb, ◌==◌, if◌then◌else◌, length, length-set, get_or, set, take,
  drop, append-nil, append_assoc, Bool-cases,
}
use climate_node.Prelude.Ring.{bump, slot, window, window-set}
use climate_node.Bsp.Uart.{Uart, UartCallback, take_chunks}

-- What the circular DMA does with received bytes: each goes to the position, which is then bumped
-- round the buffer.
abbrev pub dma_write : List ℕ → ℕ → List ℕ → List ℕ × ℕ
dma_write buf pos [] = (buf, pos)
dma_write buf pos (b ∷ bs) = dma_write (set buf pos b) (bump 256 pos) bs

-- A callback that keeps the bytes of the chunks.
abbrev pub collect : UartCallback (List ℕ)
collect none len event w = w
collect (some bytes) len event w = w ++ take len bytes

bump-slot : (i n : ℕ) → i < 256 → n < 256 → bump 256 (slot 256 i n) ≡ slot 256 i (suc n)
bump-slot i n h k = ground arith

slot_lt : (i n : ℕ) → i < 256 → n ≤ 256 → slot 256 i n < 256
slot_lt i n h k = ground arith

-- The bytes that the DMA wrote follow those that were in the window.
pub dma_write-window :
    (buf bs : List ℕ) (i n pos : ℕ)
    → length buf ≡ 256
    → i < 256
    → n + length bs ≤ 256
    → pos ≡ slot 256 i n
    → let (buf', pos') = dma_write buf pos bs in
      (window 256 0 buf' i (n + length bs) ≡ window 256 0 buf i n ++ bs)
      × (pos' ≡ slot 256 i (n + length bs))
      × (length buf' ≡ 256)
dma_write-window buf [] i n pos size hi room at = (
  ap (λ k. window 256 0 buf i k) (omega arith) ∙ sym (append-nil (window 256 0 buf i n)),
  at ∙ ap (slot 256 i) (omega arith),
  size,
)
dma_write-window buf (b ∷ bs) i n pos size hi room at =
    let here = set buf pos b in
    let (bytes, pos', kept) =
      dma_write-window here bs i (suc n) (bump 256 pos) (length-set buf pos b ∙ size) hi
        (omega arith) (ap (bump 256) at ∙ bump-slot i n hi (omega arith)) in
    let count : n + suc (length bs) ≡ suc n + length bs = omega arith in
    rw count (
      bytes
          ∙ ap (λ t. t ++ bs) (window-set 256 0 buf b i n pos (omega arith) hi (omega arith) at)
          ∙ append_assoc (window 256 0 buf i n) (b ∷ []) bs,
      pos',
      kept,
    )

take-drop :
    (buf : List ℕ) (i n : ℕ)
    → i < length buf
    → take (suc n) (drop i buf) ≡ get_or buf i 0 ∷ take n (drop (suc i) buf)
take-drop [] i n h = absurd (omega arith)
take-drop (x ∷ xs) zero n h = refl
take-drop (x ∷ xs) (suc i) n h = take-drop xs i n (omega arith)

bump_cases : (i : ℕ) → i < 256 → ((i ≡ 255) × (bump 256 i ≡ 0)) ⊎ (bump 256 i ≡ suc i)
bump_cases i h = ground arith

-- Up to the end of the buffer a window is a slice.
pub slice-window :
    (buf : List ℕ) (i n : ℕ)
    → length buf ≡ 256
    → i + n ≤ 256
    → take n (drop i buf) ≡ window 256 0 buf i n
slice-window buf i zero size h = refl
slice-window buf i (suc n) size h =
    take-drop buf i n (omega arith)
    ∙ ap (λ t. get_or buf i 0 ∷ t)
        (elim (bump_cases i (omega arith)) [
          | inl (last, back) ↦ let none_left : n ≡ 0 = omega arith in rw none_left refl
          | inr next ↦ rw next (slice-window buf (suc i) n size (omega arith))
        ])

-- Past the end it is two.
window-wrap :
    (buf : List ℕ) (i n m : ℕ)
    → i + suc n ≡ 256
    → window 256 0 buf i (suc (n + m)) ≡ window 256 0 buf i (suc n) ++ window 256 0 buf 0 m
window-wrap buf i zero m h =
    let back : bump 256 i ≡ 0 = ground arith in
    let count : 0 + m ≡ m = omega arith in rw (back, count) refl
window-wrap buf i (suc n) m h =
    let next : bump 256 i ≡ suc i = ground arith in
    let count : suc n + m ≡ suc (n + m) = omega arith in
    rw (next, count) (ap (λ t. get_or buf i 0 ∷ t) (window-wrap buf (suc i) n m (omega arith)))

-- The three cases of the interrupt: nothing new, a slice, or two across the end of the buffer.
position_cases :
    (last n cur : ℕ)
    → last < 256
    → n < 256
    → cur ≡ slot 256 last n
    → ((n ≡ 0) × (cur ≡ last))
      ⊎ ((((cur == last) ≡ false) × (ltb last cur ≡ true) × (cur - last ≡ n) × (last + n ≤ 256))
          ⊎ ((k : ℕ) × ((cur == last) ≡ false)
              × (ltb last cur ≡ false)
              × (256 - last ≡ suc k)
              × (n ≡ suc (k + cur))
              × (last + suc k ≡ 256)
              × (cur ≤ 256)))
position_cases last n cur h k e = elim (Bool-cases (ltb (last + n) 256)) [
  | inl inside ↦ ground arith
  | inr wrapped ↦ inr (
      inr (
        256 - last - 1,
        ground arith,
        ground arith,
        ground arith,
        ground arith,
        ground arith,
        ground arith,
      ))
]

-- The second chunk is left out if it is empty.
second_chunk :
    (buf : List ℕ) (w : List ℕ) (cur : ℕ)
    → (if ltb 0 cur then w ++ take cur buf else w) ≡ w ++ take cur buf
second_chunk buf w zero = sym (append-nil w)
second_chunk buf w (suc cur) =
    let positive : ltb 0 (suc cur) ≡ true = ground arith in rw positive refl

chunks-window :
    (u : Uart (List ℕ)) (buf w : List ℕ) (n cur : ℕ)
    → length buf ≡ 256
    → u.last_rx_pos < 256
    → n < 256
    → u.callback ≡ some collect
    → cur ≡ slot 256 u.last_rx_pos n
    → let (u', w') = take_chunks buf cur u w in
      (w' ≡ w ++ window 256 0 buf u.last_rx_pos n) × (u' ≡ record u { last_rx_pos = cur })
unfolding take_chunks
chunks-window u buf w n cur size start few cb at =
    let last = u.last_rx_pos in
    elim (position_cases last n cur start few at) [
      | inl (empty, same) ↦
          let still : (cur == last) ≡ true = ground arith in
          rw (still, empty) (sym (append-nil w), ap (λ p. record u { last_rx_pos = p }) (sym same))
      | inr (inl (moved, up, len, inside)) ↦
          rw (moved, up, cb, len) (ap (λ t. w ++ t) (slice-window buf last n size inside), refl)
      | inr (inr (k, moved, down, len, count, whole, small)) ↦
          let some_left : ltb 0 (suc k) ≡ true = ground arith in
          rw (moved, down, cb, len, some_left, count)
            (
              second_chunk buf _ cur
                  ∙ append_assoc w (take (suc k) (drop last buf)) (take cur buf)
                  ∙ ap₂ (λ a b. w ++ (a ++ b)) (slice-window buf last (suc k) size (omega arith))
                      (slice-window buf 0 cur size (omega arith))
                  ∙ ap (λ t. w ++ t) (sym (window-wrap buf last k cur whole)),
              refl,
            )
    ]

-- Fewer than 256 bytes since the last interrupt are handed on exactly as they came, in one chunk or
-- in two across the end of the buffer, and the position follows.
pub take_chunks_lem :
    (u : Uart (List ℕ)) (before new w : List ℕ)
    → length before ≡ 256
    → u.last_rx_pos < 256
    → length new < 256
    → u.callback ≡ some collect
    → let (buf, pos) = dma_write before u.last_rx_pos new in
      let (u', w') = take_chunks buf pos u w in
      (w' ≡ w ++ new) × (u' ≡ record u { last_rx_pos = pos })
take_chunks_lem u before new w size start few cb =
    let last = u.last_rx_pos in
    let (buf, pos) = dma_write before last new in
    let (bytes, at, kept) =
      dma_write-window before new last 0 last size start (omega arith) (ground arith) in
    let (given, moved) =
      chunks-window u buf w (length new) pos kept start few cb
        (at ∙ ap (slot 256 last) (omega arith)) in
    (given ∙ ap (λ t. w ++ t) (ap (λ k. window 256 0 buf last k) (omega arith) ∙ bytes), moved)
