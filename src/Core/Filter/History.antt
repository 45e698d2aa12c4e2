-- ===== src/Core/Filter/History.antt =====
-- The filter over a whole run of samples, from `ma_init` on.
use climate_node.Prelude.{
  ℕ, suc, ◌-◌, ◌^◌, ◌≤◌, ◌≡◌, List, [], ◌∷◌, ◌++◌, arith, ℤ, ltb, length, length-append,
  length-drop, drop, drop-append, drop-one-drop, false, inl, inr, Bool-cases,
}
use mathlib.Core.List.{append_assoc, append-nil}
use climate_node.Core.Filter.{Filter, ma_filter_size, ma_init, ma_update}
use climate_node.Core.Filter.Mean.{AllWithin}
use climate_node.Core.Filter.Window.{Holds, slide, ma_init-Holds, ma_update-Holds}

-- The filter after a run of samples.
pub ma_run : Filter → List ℤ → Filter
ma_run f [] = f
ma_run f (x ∷ xs) = let (e, avg, n, g) = ma_update f x in ma_run g xs

-- The last `n` of a list.
abbrev pub last_items : ℕ → List ℤ → List ℤ
last_items n xs = drop (length xs - n) xs

slide_all : List ℤ → List ℤ → List ℤ
slide_all w [] = w
slide_all w (x ∷ xs) = slide_all (slide w x) xs

slide-last_items :
    (xs : List ℤ) (x : ℤ)
    → slide (last_items ma_filter_size xs) x ≡ last_items ma_filter_size (xs ++ (x ∷ []))
slide-last_items xs x = elim (Bool-cases (ltb (length xs) ma_filter_size)) [
  | inl p ↦
      let none_gone : length xs - 5 ≡ 0 = ground arith in
      let none_going : length (xs ++ (x ∷ [])) - 5 ≡ 0 =
        ground (arith, length-append xs (x ∷ [])) in
      rw (none_gone, none_going, p)
  | inr p ↦
      let n = length xs - 5 in
      let one_going : length (xs ++ (x ∷ [])) - 5 ≡ suc n =
        ground (arith, length-append xs (x ∷ [])) in
      let full : ltb (length (drop n xs)) 5 ≡ false = ground (arith, length-drop n xs) in
      rw (one_going, full, drop-one-drop, drop-append (suc n) xs (x ∷ []) (ground arith))
]

slide_all-last_items :
    (seen xs : List ℤ)
    → slide_all (last_items ma_filter_size seen) xs ≡ last_items ma_filter_size (seen ++ xs)
unfolding slide_all
slide_all-last_items seen [] = rw append-nil
slide_all-last_items seen (x ∷ xs) =
    rw (slide-last_items seen x, slide_all-last_items (seen ++ (x ∷ [])) xs, append_assoc)

module _ (lo hi : ℕ) (small_lo : lo ≤ 2 ^ 28) (small_hi : hi ≤ 2 ^ 28) where
  ma_run-slide_all :
      (xs : List ℤ) {f : Filter} {w : List ℤ}
      → Holds lo hi f w
      → AllWithin lo hi xs
      → Holds lo hi (ma_run f xs) (slide_all w xs)
  unfolding ma_run slide_all
  ma_run-slide_all [] h k = h
  ma_run-slide_all (x ∷ xs) h k =
      ma_run-slide_all xs (ma_update-Holds lo hi small_lo small_hi x h k.0).0 k.1

  -- After any run of samples in range from `ma_init` on, the filter holds the last five of them, or
  -- all of them while there are fewer.
  ma_run-Holds :
      (xs : List ℤ)
      → AllWithin lo hi xs
      → Holds lo hi (ma_run ma_init xs) (last_items ma_filter_size xs)
  ma_run-Holds xs k =
      rw (← slide_all-last_items [] xs) (ma_run-slide_all xs (ma_init-Holds lo hi) k)
