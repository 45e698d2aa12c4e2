-- ===== src/Core/Filter.antt =====
-- src/core/filter.c: the moving average over the last five samples.
-- The filter's address is never null in the model; `*out_count` is always returned.
pub mod Window
pub mod Mean
pub mod History
use climate_node.Prelude.{
  ℕ, ◌+◌, ◌%◌, ◌^◌, List, [], ◌∷◌, ℤ, pos, ◌+ℤ◌, ◌-ℤ◌, ◌/ℤ◌, i32, u8, ltb, leb, if◌then◌else◌,
  get_or, set, replicate,
}
use climate_node.Core.Types.{Err}

abbrev pub ma_filter_size : ℕ
ma_filter_size = 5

abbrev pub ma_warmup_samples : ℕ
ma_warmup_samples = ma_filter_size

-- `ma_filter_t`
pub record Filter : Type 0 where
  pub buf : List ℤ
  pub sum : ℤ
  pub head : ℕ
  pub count : ℕ

unfoldable pub ma_init : Filter
ma_init = record { buf = replicate ma_filter_size (pos 0); sum = pos 0; head = 0; count = 0 }

-- The write of the sample into the buffer and the sum.
unfoldable pub ma_store : Filter → ℤ → Filter
ma_store f x =
    if ltb f.count ma_filter_size
    then record f { buf = set f.buf f.head x; sum = i32 (f.sum +ℤ x); count = u8 (f.count + 1) }
    else record f {
      buf = set f.buf f.head x;
      sum = i32 (i32 (f.sum -ℤ get_or f.buf f.head (pos 0)) +ℤ x);
    }

-- `f->head++`, with the reset at the end of the buffer.
unfoldable pub ma_advance : Filter → Filter
ma_advance f =
    let head = u8 (f.head + 1) in record f { head = if leb ma_filter_size head then 0 else head }

-- The status, `*out_avg`, `*out_count` and the filter after the call.
unfoldable pub ma_update : Filter → ℤ → Err × ℤ × ℕ × Filter
unfolding ma_store ma_advance
ma_update f x =
    let g = ma_advance (ma_store f x) in
    (
      if leb ma_warmup_samples g.count then Err.ok else Err.warmup,
      i32 (g.sum /ℤ pos g.count),
      g.count,
      g,
    )
