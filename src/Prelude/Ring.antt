-- ===== src/Prelude/Ring.antt =====
-- Reading round a circular buffer whose index is bumped and reset to 0 at the capacity.
use climate_node.Prelude.{
  ℕ, zero, suc, ◌+◌, ◌-◌, ◌≤◌, ◌<◌, ◌≡◌, refl, ◌∙◌, ap, ◌≢◌, List, [], ◌∷◌, ◌++◌, arith, ltb, leb,
  if◌then◌else◌, length, get_or, set, get_or-set_self, get_or-set_ne,
}

-- `i++; if (i >= cap) i = 0;`
abbrev pub bump : ℕ → ℕ → ℕ
bump cap i = if leb cap (i + 1) then 0 else i + 1

-- The index `n` bumps after `i`, for `n` at most the capacity.
abbrev pub slot : ℕ → ℕ → ℕ → ℕ
slot cap i n = if ltb (i + n) cap then i + n else i + n - cap

module _ {ℓ} {A : Type ℓ} (cap : ℕ) (d : A) where
  -- The `n` items from index `i` on.
  abbrev pub window : List A → ℕ → ℕ → List A
  window buf i zero = []
  window buf i (suc n) = get_or buf i d ∷ window buf (bump cap i) n

  pub length-window : (buf : List A) (i n : ℕ) → length (window buf i n) ≡ n
  length-window buf i zero = refl
  length-window buf i (suc n) = ap suc (length-window buf (bump cap i) n)

slot_ne : (cap i n : ℕ) → i < cap → suc n < cap → slot cap i (suc n) ≢ i
slot_ne cap i n h k = ground arith

slot-bump : (cap i n : ℕ) → i < cap → suc n < cap → slot cap i (suc n) ≡ slot cap (bump cap i) n
slot-bump cap i n h k = ground arith

bump-lt : (cap i : ℕ) → i < cap → bump cap i < cap
bump-lt cap i h = ground arith

-- Writing the slot just past a window that is not full appends the item to it.
pub window-set {ℓ} :
    {A : Type ℓ} (cap : ℕ) (d : A) (buf : List A) (x : A) (i n j : ℕ)
    → cap ≤ length buf
    → i < cap
    → n < cap
    → j ≡ slot cap i n
    → window cap d (set buf j x) i (suc n) ≡ window cap d buf i n ++ (x ∷ [])
window-set cap d buf x i zero j room hi hn e =
    let here : j ≡ i = ground arith in
    rw here (ap (λ t. t ∷ []) (get_or-set_self buf i x d (omega arith)))
window-set cap d buf x i (suc n) j room hi hn e =
    let ne : j ≢ i = rw e (slot_ne cap i n hi hn) in
    rw (get_or-set_ne buf j i x d ne) (
      ap (λ t. get_or buf i d ∷ t)
        (window-set cap d buf x (bump cap i) n j room (bump-lt cap i hi) (omega arith)
          (e ∙ slot-bump cap i n hi hn)))
