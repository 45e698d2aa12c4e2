-- ===== src/Bsp/Startup/Laws.antt =====
-- The memory that `main` starts with.
use climate_node.Prelude.{
  ℕ, zero, suc, ◌+◌, ◌*◌, ◌≤◌, ◌<◌, ◌≡◌, ◌≢◌, ◌⊎◌, ◌∙◌, refl, ap, inl, arith, true, false, some,
  ◌==◌, ltb,
}
use climate_node.Bsp.Startup.{Memory, Layout, store_word, copy_data, zero_bss, reset}

stored : (a v : ℕ) (mem : Memory) → store_word a v mem a ≡ v
stored a v mem = let same : (a == a) ≡ true = ground arith in rw same refl

unstored : (a b v : ℕ) (mem : Memory) → b ≢ a → store_word a v mem b ≡ mem b
unstored a b v mem ne = let other : (b == a) ≡ false = ground arith in rw other refl

-- Outside the `k` words from `dst` on.
abbrev pub Outside : ℕ → ℕ → ℕ → Type 0
Outside dst k a = (a < dst) ⊎ (dst + 4 * k ≤ a)

-- The first word and those after it.
each_word :
    (out want : Memory) (dst src k : ℕ)
    → out dst ≡ want src
    → ((j : ℕ) → j < k → out (dst + 4 + 4 * j) ≡ want (src + 4 + 4 * j))
    → (i : ℕ) → i < suc k
    → out (dst + 4 * i) ≡ want (src + 4 * i)
each_word out want dst src k first others zero h =
    ap out (omega arith) ∙ first ∙ ap want (omega arith)
each_word out want dst src k first others (suc j) h =
    ap out (omega arith) ∙ others j (omega arith) ∙ ap want (omega arith)

copy_lem :
    (k fuel src dst edata : ℕ) (mem : Memory)
    → k < fuel
    → dst + 4 * k ≡ edata
    → (src + 4 * k ≤ dst) ⊎ (dst + 4 * k ≤ src)
    → (out : Memory) × (copy_data fuel src dst edata mem ≡ some out)
      × ((i : ℕ) → i < k → out (dst + 4 * i) ≡ mem (src + 4 * i))
      × ((a : ℕ) → Outside dst k a → out a ≡ mem a)
unfolding copy_data
copy_lem k zero src dst edata mem h e apart = absurd (omega arith)
copy_lem zero (suc fuel) src dst edata mem h e apart =
    let ends : ltb dst edata ≡ false = ground arith in
    (mem, rw ends refl, λ i less. absurd (omega arith), λ a out. refl)
copy_lem (suc k) (suc fuel) src dst edata mem h e apart =
    let more : ltb dst edata ≡ true = ground arith in
    let next = store_word dst (mem src) mem in
    let (out, done, copied, kept) =
      copy_lem k fuel (src + 4) (dst + 4) edata next (omega arith) (omega arith) (ground arith) in
    (
      out,
      rw more done,
      each_word out mem dst src k (kept dst (ground arith) ∙ stored dst (mem src) mem)
          (λ j less. copied j less ∙ unstored dst (src + 4 + 4 * j) (mem src) mem (ground arith)),
      λ a outside. kept a (ground arith) ∙ unstored dst a (mem src) mem (ground arith),
    )

zero_lem :
    (k fuel dst ebss : ℕ) (mem : Memory)
    → k < fuel
    → dst + 4 * k ≡ ebss
    → (out : Memory) × (zero_bss fuel dst ebss mem ≡ some out)
      × ((i : ℕ) → i < k → out (dst + 4 * i) ≡ 0)
      × ((a : ℕ) → Outside dst k a → out a ≡ mem a)
unfolding zero_bss
zero_lem k zero dst ebss mem h e = absurd (omega arith)
zero_lem zero (suc fuel) dst ebss mem h e =
    let ends : ltb dst ebss ≡ false = ground arith in
    (mem, rw ends refl, λ i less. absurd (omega arith), λ a out. refl)
zero_lem (suc k) (suc fuel) dst ebss mem h e =
    let more : ltb dst ebss ≡ true = ground arith in
    let next = store_word dst 0 mem in
    let (out, done, cleared, kept) =
      zero_lem k fuel (dst + 4) ebss next (omega arith) (omega arith) in
    (
      out,
      rw more done,
      each_word out (λ a. 0) dst 0 k (kept dst (ground arith) ∙ stored dst 0 mem) cleared,
      λ a outside. kept a (ground arith) ∙ unstored dst a 0 mem (ground arith),
    )

-- What the linker script gives: `k` words of data, `m` words of zeros, apart from each other, from the
-- initial values and from the register of the vector table.
pub record IsLaidOut (l : Layout) (k m : ℕ) : Type 0 where
  pub data_words : l.sdata + 4 * k ≡ l.edata
  pub bss_words : l.sbss + 4 * m ≡ l.ebss
  pub load_apart : l.sidata + 4 * k ≤ l.sdata
  pub load_low : l.sidata + 4 * k ≤ 0xe000ed08
  pub bss_after : l.edata ≤ l.sbss
  pub registers_after : l.ebss ≤ 0xe000ed08

-- Before `main` both loops end, the data has its initial values, the rest is zero, the vector table is at
-- the start of the flash memory, and no other word has changed.
pub reset_lem :
    (l : Layout) (k m : ℕ) (mem : Memory)
    → IsLaidOut l k m
    → (out : Memory) × (reset (suc (k + m)) l mem ≡ some out)
      × ((i : ℕ) → i < k → out (l.sdata + 4 * i) ≡ mem (l.sidata + 4 * i))
      × ((i : ℕ) → i < m → out (l.sbss + 4 * i) ≡ 0)
      × (out 0xe000ed08 ≡ 0x08000000)
      × ((a : ℕ) → Outside l.sdata k a → Outside l.sbss m a → a ≢ 0xe000ed08 → out a ≡ mem a)
unfolding reset
reset_lem l k m mem is =
    let start = store_word 0xe000ed08 0x08000000 mem in
    let data_words = is.data_words in
    let bss_words = is.bss_words in
    let load_apart = is.load_apart in
    let load_low = is.load_low in
    let bss_after = is.bss_after in
    let registers_after = is.registers_after in
    let (mid, copied, values, kept) =
      copy_lem k (suc (k + m)) l.sidata l.sdata l.edata start (omega arith) data_words
        (inl load_apart) in
    let (out, cleared, zeros, rest) =
      zero_lem m (suc (k + m)) l.sbss l.ebss mid (omega arith) bss_words in
    (
      out,
      rw (reset, copied, cleared) refl,
      λ i less.
          rest (l.sdata + 4 * i) (ground arith)
          ∙ values i less
          ∙ unstored 0xe000ed08 (l.sidata + 4 * i) 0x08000000 mem (ground arith),
      zeros,
      rest 0xe000ed08 (ground arith)
          ∙ kept 0xe000ed08 (ground arith)
          ∙ stored 0xe000ed08 0x08000000 mem,
      λ a out_data out_bss ne.
          rest a out_bss ∙ kept a out_data ∙ unstored 0xe000ed08 a 0x08000000 mem ne,
    )
