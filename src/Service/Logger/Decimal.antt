-- ===== src/Service/Logger/Decimal.antt =====
-- The numbers in the log: the text that is written reads back as the number.
use climate_node.Prelude.{
  ℕ, zero, suc, ◌+◌, ◌-◌, ◌*◌, ◌/◌, ◌^◌, ◌≤◌, ◌<◌, ◌≡◌, refl, arith, inl, inr, List, [], ◌∷◌, ◌++◌,
  ◌==◌, Bool-cases, length, length-append, append_assoc, append-nil,
}
use climate_node.Service.Logger.{Logger, logger_write_char, digits_of, write_back, logger_write_u32}
use climate_node.Service.Logger.Queue.{Queued, push_char_lem}

-- The value of the digits, the last one first.
abbrev pub value_of : List ℕ → ℕ
value_of [] = 0
value_of (c ∷ cs) = (c - 0x30) + 10 * value_of cs

abbrev pub AllDigits : List ℕ → Type 0
AllDigits [] = Unit {0}
AllDigits (c ∷ cs) = (0x30 ≤ c) × (c ≤ 0x39) × AllDigits cs

abbrev pub backwards : List ℕ → List ℕ
backwards [] = []
backwards (c ∷ cs) = backwards cs ++ (c ∷ [])

-- Enough digits hold the number.
pub digits_of_value : (n x : ℕ) → x < 10 ^ n → value_of (digits_of n x) ≡ x
unfolding digits_of
digits_of_value zero x h = omega arith
digits_of_value (suc n) x h = elim (Bool-cases (x == 0)) [
  | inl e ↦ rw (digits_of, e) (ground arith)
  | inr e ↦
      let rest = digits_of_value n (x / 10) (omega arith) in rw (digits_of, e, rest) (omega arith)
]

pub digits_of-AllDigits : (n x : ℕ) → AllDigits (digits_of n x)
unfolding digits_of
digits_of-AllDigits zero x = tt
digits_of-AllDigits (suc n) x = elim (Bool-cases (x == 0)) [
  | inl e ↦ rw (digits_of, e) tt
  | inr e ↦ rw (digits_of, e) (omega arith, omega arith, digits_of-AllDigits n (x / 10))
]

pub length-digits_of : (n x : ℕ) → length (digits_of n x) ≤ n
unfolding digits_of
length-digits_of zero x = omega arith
length-digits_of (suc n) x = elim (Bool-cases (x == 0)) [
  | inl e ↦ rw (digits_of, e) (omega arith)
  | inr e ↦ rw (digits_of, e) (omega (arith, length-digits_of n (x / 10)))
]

pub write_char-Queued :
    (c : ℕ) (l : Logger) (q : List ℕ)
    → Queued l q
    → length q < 256
    → Queued (logger_write_char c l) (q ++ (c ∷ []))
unfolding logger_write_char
write_char-Queued c l q h k = elim (push_char_lem c l q h) [
  | inl (room, done, queued, kept) ↦ queued
  | inr (full, done, queued, kept) ↦ absurd (omega arith)
]

pub length-backwards : (cs : List ℕ) → length (backwards cs) ≡ length cs
length-backwards [] = refl
length-backwards (c ∷ cs) =
    omega (arith, length-append (backwards cs) (c ∷ []), length-backwards cs)

pub write_back-Queued :
    (cs : List ℕ) (l : Logger) (q : List ℕ)
    → Queued l q
    → length q + length cs ≤ 256
    → Queued (write_back cs l) (q ++ backwards cs)
unfolding write_back
write_back-Queued [] l q h k = rw (append-nil q) h
write_back-Queued (c ∷ cs) l q h k =
    let ih = write_back-Queued cs l q h (omega arith) in
    let size = length-backwards cs in
    rw⁻¹ (append_assoc q (backwards cs) (c ∷ [])) (
      write_char-Queued c (write_back cs l) (q ++ backwards cs) ih
        (omega (arith, length-append q (backwards cs))))

-- With room for ten characters, a 32-bit number is appended to the queue as decimal digits, at
-- least one and at most ten, the first one first, and these read back as the number.
pub write_u32_lem :
    (x : ℕ) (l : Logger) (q : List ℕ)
    → x < 2 ^ 32
    → Queued l q
    → length q + 10 ≤ 256
    → (ds : List ℕ) × Queued (logger_write_u32 x l) (q ++ backwards ds)
      × (value_of ds ≡ x)
      × AllDigits ds
      × (0 < length ds)
      × (length ds ≤ 10)
unfolding logger_write_u32
write_u32_lem x l q small h room = elim (Bool-cases (x == 0)) [
  | inl e ↦ rw e (
    0x30 ∷ [],
    write_char-Queued 0x30 l q h (omega arith),
    ground arith,
    (omega arith, omega arith, tt),
    omega arith,
    omega arith,
  )
  | inr e ↦
      let value = digits_of_value 10 x (omega arith) in
      let most = length-digits_of 10 x in
      rw e (
        digits_of 10 x,
        write_back-Queued (digits_of 10 x) l q h (omega arith),
        value,
        digits_of-AllDigits 10 x,
        some_digit (digits_of 10 x) (ground arith),
        most,
      )
]
  where
    some_digit : (ds : List ℕ) → 0 < value_of ds → 0 < length ds
    some_digit [] h = h
    some_digit (d ∷ ds) h = omega arith
