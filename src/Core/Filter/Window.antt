-- ===== src/Core/Filter/Window.antt =====
-- What the filter holds: the sliding window of its last five samples.
use climate_node.Prelude.{
  ℕ, suc, ◌+◌, ◌*◌, ◌^◌, ◌≤◌, ◌<◌, ◌≡◌, ◌∙◌, sym, ap, ap₂, subst, List, [], ◌∷◌, ◌++◌, arith, ℤ,
  pos, ◌+ℤ◌, ◌-ℤ◌, ◌/ℤ◌, i32, i32_id, int_laws, +ℤ-Within, Within, ltb, ◌==◌, if◌then◌else◌, length,
  length-append, length-set, get_or, set, drop, inl, inr, Bool-cases,
}
use climate_node.Prelude.Ring.{bump, window, window-set}
use climate_node.Core.Types.{Err}
use climate_node.Core.Filter.{
  Filter, ma_filter_size, ma_warmup_samples, ma_init, ma_store, ma_advance, ma_update,
}
use climate_node.Core.Filter.Mean.{
  total, total-append, AllWithin, total-Within, AllWithin-append, mean-Within,
}

-- The abstract filter: the samples in order, oldest first. A full window loses its oldest.
abbrev pub slide : List ℤ → ℤ → List ℤ
slide w x = (if ltb (length w) ma_filter_size then w else drop 1 w) ++ (x ∷ [])

-- Where the oldest sample stands.
abbrev pub start : Filter → ℕ
start f = if ltb f.count ma_filter_size then 0 else f.head

-- `f` holds the samples `w`, all between `-lo` and `hi`.
pub record Holds (lo hi : ℕ) (f : Filter) (w : List ℤ) : Type 0 where
  pub storage : length f.buf ≡ ma_filter_size
  pub head_in : f.head < ma_filter_size
  pub filling : f.count < ma_filter_size → f.head ≡ f.count
  pub counted : f.count ≡ length w
  pub fits : length w ≤ ma_filter_size
  pub contents : window ma_filter_size (pos 0) f.buf (start f) f.count ≡ w
  pub summed : f.sum ≡ total w
  pub ranged : AllWithin lo hi w

pub ma_init-Holds : (lo hi : ℕ) → Holds lo hi ma_init []
unfolding ma_init total
ma_init-Holds lo hi = ground arith

-- A sum of at most six samples fits 32 bits.
abbrev Small : ℕ → Type 0
Small b = b ≤ 2 ^ 28

push_filling :
    (f : Filter) (x : ℤ)
    → f.count < ma_filter_size
    → f.head ≡ f.count
    → ma_advance (ma_store f x) ≡ record {
      buf = set f.buf f.head x;
      sum = i32 (f.sum +ℤ x);
      head = bump ma_filter_size f.head;
      count = f.count + 1;
    }
unfolding ma_store ma_advance
push_filling f x c e = ground arith

push_full :
    (f : Filter) (x : ℤ)
    → f.count ≡ ma_filter_size
    → f.head < ma_filter_size
    → ma_advance (ma_store f x) ≡ record {
      buf = set f.buf f.head x;
      sum = i32 (i32 (f.sum -ℤ get_or f.buf f.head (pos 0)) +ℤ x);
      head = bump ma_filter_size f.head;
      count = ma_filter_size;
    }
unfolding ma_store ma_advance
push_full f x c e = ground arith

add-one : (n : ℕ) → n + 1 ≡ suc n
add-one n = omega arith

start_zero : (f : Filter) → f.count < ma_filter_size → start f ≡ 0
start_zero f c = ground arith

contents_filling :
    (buf : List ℤ) (n : ℕ) (x : ℤ)
    → length buf ≡ ma_filter_size
    → n < ma_filter_size
    → window ma_filter_size
        (pos 0)
        (set buf n x)
        (if ltb (n + 1) ma_filter_size then 0 else bump ma_filter_size n)
        (n + 1)
      ≡ window ma_filter_size (pos 0) buf 0 n ++ (x ∷ [])
contents_filling buf n x s h =
    let at_zero : (if ltb (n + 1) ma_filter_size then 0 else bump ma_filter_size n) ≡ 0 =
      ground arith in
    rw (at_zero, add-one)
      (window-set ma_filter_size (pos 0) buf x 0 n n (omega arith) (omega arith) h (ground arith))

module _ (lo hi : ℕ) (small_lo : Small lo) (small_hi : Small hi) where
  total_bounds :
      (w : List ℤ) → length w ≤ 5 → AllWithin lo hi w → Within (5 * lo) (5 * hi) (total w)
  total_bounds w h k = let b = total-Within lo hi w k in (grind arith, grind arith)

  sum_filling :
      (w : List ℤ) (x : ℤ)
      → length w ≤ 5
      → AllWithin lo hi w
      → Within lo hi x
      → i32 (total w +ℤ x) ≡ total (w ++ (x ∷ []))
  sum_filling w x h r k =
      let b = total_bounds w h r in
      let c = +ℤ-Within (5 * lo) (5 * hi) lo hi (total w) x b k in
      i32_id (total w +ℤ x) (omega arith) ∙ sym (total-append w x)

  store_filling :
      {f : Filter} {w : List ℤ} (x : ℤ)
      → Holds lo hi f w
      → Within lo hi x
      → f.count < ma_filter_size
      → Holds lo hi (ma_advance (ma_store f x)) (w ++ (x ∷ []))
  store_filling {f} {w} x h k c = rw (push_filling f x c (h.filling c)) record {
    storage = length-set f.buf f.head x ∙ h.storage;
    head_in = ground (arith, h.head_in);
    filling = λ p. ground (arith, h.filling c);
    counted = omega (arith, h.counted, length-append w (x ∷ []));
    fits = omega (arith, h.counted, h.fits, length-append w (x ∷ []));
    contents =
        rw (h.filling c) (contents_filling f.buf f.count x h.storage c)
        ∙ ap (λ t. t ++ (x ∷ [])) (rw (start_zero f c) at h.contents);
    summed = rw h.summed (sum_filling w x h.fits h.ranged k);
    ranged = AllWithin-append lo hi w x h.ranged k;
  }

  sum_full :
      (o x : ℤ) (t : List ℤ)
      → length t ≤ 4
      → AllWithin lo hi (o ∷ t)
      → Within lo hi x
      → i32 (i32 (total (o ∷ t) -ℤ o) +ℤ x) ≡ total (t ++ (x ∷ []))
  unfolding total
  sum_full o x t h r k =
      let back : o +ℤ total t -ℤ o ≡ total t = omega int_laws in
      let b = total_bounds t (omega arith) r.1 in
      rw (back, i32_id (total t) (omega arith)) (sum_filling t x (omega arith) r.1 k)

  -- The filter is full: its oldest sample is the head of the window.
  oldest :
      {f : Filter} {w : List ℤ}
      → Holds lo hi f w
      → f.count ≡ ma_filter_size
      → w
        ≡ get_or f.buf f.head (pos 0)
          ∷ window ma_filter_size (pos 0) f.buf (bump ma_filter_size f.head) 4
  oldest {f} h c = sym h.contents ∙ ap₂ (window ma_filter_size (pos 0) f.buf) (ground arith) c

  store_full :
      {f : Filter} {w : List ℤ} (x : ℤ)
      → Holds lo hi f w
      → Within lo hi x
      → f.count ≡ ma_filter_size
      → Holds lo hi (ma_advance (ma_store f x)) (drop 1 w ++ (x ∷ []))
  store_full {f} {w} x h k c =
      let o = get_or f.buf f.head (pos 0) in
      let t = window ma_filter_size (pos 0) f.buf (bump ma_filter_size f.head) 4 in
      let e : w ≡ o ∷ t = oldest h c in
      let r : AllWithin lo hi (o ∷ t) = subst (AllWithin lo hi) e h.ranged in
      rw (push_full f x c h.head_in, e)
        record {
          storage = length-set f.buf f.head x ∙ h.storage;
          head_in = ground (arith, h.head_in);
          filling = λ p. absurd (omega arith);
          counted = omega (arith, length-append t (x ∷ []));
          fits = omega (arith, length-append t (x ∷ []));
          contents =
              window-set ma_filter_size (pos 0) f.buf x (bump ma_filter_size f.head) 4 f.head
                (omega (arith, h.storage)) (ground (arith, h.head_in)) (omega arith)
                (ground (arith, h.head_in));
          summed = rw (h.summed, e) (sum_full o x t (omega arith) r k);
          ranged = AllWithin-append lo hi t x r.1 k;
        }

  store-Holds :
      {f : Filter} {w : List ℤ} (x : ℤ)
      → Holds lo hi f w
      → Within lo hi x
      → Holds lo hi (ma_advance (ma_store f x)) (slide w x)
  store-Holds {f} {w} x h k = elim (Bool-cases (ltb (length w) ma_filter_size)) [
    | inl p ↦ rw p (store_filling x h k (ground (arith, h.counted)))
    | inr p ↦ rw p (store_full x h k (ground (arith, h.counted, h.fits)))
  ]

  pub length-slide : (w : List ℤ) (x : ℤ) → 0 < length (slide w x)
  length-slide w x = ground (arith, length-append w (x ∷ []), length-append (drop 1 w) (x ∷ []))

  average :
      {g : Filter} {w : List ℤ}
      → Holds lo hi g w
      → 0 < length w
      → (i32 (g.sum /ℤ pos g.count) ≡ total w /ℤ pos (length w))
        × Within lo hi (total w /ℤ pos (length w))
  average {g} {w} h p =
      let m : Within lo hi (total w /ℤ pos (length w)) =
        mean-Within lo hi (length w) (total w) p (total-Within lo hi w h.ranged) in
      (rw (h.summed, h.counted) (i32_id _ (omega arith)), m)

  -- A sample in range slides the window that the filter holds; the status, the average and the
  -- count are those of the new window, and no 32-bit sum wraps on the way.
  pub ma_update-Holds :
      {f : Filter} {w : List ℤ} (x : ℤ)
      → Holds lo hi f w
      → Within lo hi x
      → let (e, avg, n, g) = ma_update f x in
        let w' = slide w x in
        Holds lo hi g w'
        × (avg ≡ total w' /ℤ pos (length w'))
        × (n ≡ length w')
        × (e ≡ (if length w' == ma_warmup_samples then Err.ok else Err.warmup))
        × Within lo hi avg
  unfolding ma_update
  ma_update-Holds {f} {w} x h k =
      let g = store-Holds x h k in
      let a = average g (length-slide w x) in
      (g, a.0, g.counted, ground (arith, g.counted, g.fits), rw a.0 a.1)
