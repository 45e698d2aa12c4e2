-- ===== src/Service/Logger/Fixed.antt =====
-- The signed numbers and those with two decimals in the log: the text reads back as the number.
use climate_node.Prelude.{
  ℕ, suc, ◌+◌, ◌/◌, ◌%◌, ◌^◌, ◌≤◌, ◌<◌, ◌≡◌, ◌∙◌, subst, arith, inl, inr, false, List, [], ◌∷◌,
  ◌++◌, ℤ, pos, negsuc, ltb, ◌==◌, if◌then◌else◌, u32, Bool-cases, length, length-append,
  append_assoc,
}
use climate_node.Service.Logger.{
  Logger, digits_of, write_back, logger_write_char, logger_write_u32, logger_write_i32,
  logger_write_fixed_mag, logger_write_fixed_cd,
}
use climate_node.Service.Logger.Queue.{Queued}
use climate_node.Service.Logger.Decimal.{
  value_of, AllDigits, backwards, length-backwards, write_char-Queued, write_back-Queued,
  write_u32_lem,
}

-- The magnitude of a number, and the sign before it.
abbrev pub magnitude : ℤ → ℕ
magnitude (pos n) = n
magnitude (negsuc n) = suc n

abbrev pub sign_of : ℤ → List ℕ
sign_of (pos n) = []
sign_of (negsuc n) = 0x2d ∷ []

write_digit :
    (x : ℕ) (l : Logger) (q : List ℕ)
    → x < 10
    → Queued l q
    → length q < 256
    → Queued (logger_write_u32 x l) (q ++ ((0x30 + x) ∷ []))
unfolding logger_write_u32 digits_of write_back
write_digit x l q h k room = elim (Bool-cases (x == 0)) [
  | inl e ↦ let none_left : x ≡ 0 = ground arith in rw none_left (write_char-Queued 0x30 l q k room)
  | inr e ↦
      let last : x / 10 ≡ 0 = omega arith in
      let self : x % 10 ≡ x = omega arith in
      rw (e, last, self) (write_char-Queued (0x30 + x) l q k room)
]

write_two_digits :
    (x : ℕ) (l : Logger) (q : List ℕ)
    → 10 ≤ x
    → x < 100
    → Queued l q
    → length q + 2 ≤ 256
    → Queued (logger_write_u32 x l) (q ++ ((0x30 + x / 10) ∷ (0x30 + x % 10) ∷ []))
unfolding logger_write_u32 digits_of
write_two_digits x l q h g k room =
    let some_left : (x == 0) ≡ false = ground arith in
    let more : (x / 10 == 0) ≡ false = ground arith in
    let last : x / 10 / 10 ≡ 0 = omega arith in
    let tens : x / 10 % 10 ≡ x / 10 = omega arith in
    rw (some_left, more, last, tens)
      (write_back-Queued ((0x30 + x % 10) ∷ (0x30 + x / 10) ∷ []) l q k (omega arith))

-- The decimals are two digits.
write_decimals :
    (x : ℕ) (l : Logger) (q : List ℕ)
    → x < 100
    → Queued l q
    → length q + 2 ≤ 256
    → Queued
        (logger_write_u32 x (if ltb x 10 then logger_write_char 0x30 l else l))
        (q ++ ((0x30 + x / 10) ∷ (0x30 + x % 10) ∷ []))
write_decimals x l q h k room = elim (Bool-cases (ltb x 10)) [
  | inl small ↦
      let less : x < 10 = ground arith in
      let none_left : x / 10 ≡ 0 = omega arith in
      let self : x % 10 ≡ x = omega arith in
      let size = length-append q (0x30 ∷ []) in
      rw (small, none_left, self)
        (subst (Queued (logger_write_u32 x (logger_write_char 0x30 l)))
          (append_assoc q (0x30 ∷ []) ((0x30 + x) ∷ []))
          (write_digit x (logger_write_char 0x30 l) (q ++ (0x30 ∷ [])) less
            (write_char-Queued 0x30 l q k (omega arith)) (omega (arith, size))))
  | inr large ↦ rw large (write_two_digits x l q (ground arith) h k room)
]

-- A number of hundredths: its digits with a point before the last two.
fixed_lem :
    (mag : ℕ) (l : Logger) (q : List ℕ)
    → mag < 2 ^ 32
    → Queued l q
    → length q + 13 ≤ 256
    → (ds : List ℕ) × (tens units : ℕ) × Queued
        (logger_write_fixed_mag mag l)
        (q ++ (backwards ds ++ (0x2e ∷ tens ∷ units ∷ [])))
      × (value_of (units ∷ tens ∷ ds) ≡ mag)
      × AllDigits (units ∷ tens ∷ ds)
      × (0 < length ds)
unfolding logger_write_fixed_mag
fixed_lem mag l q h k room =
    let (ds, whole, value, digits, some_left, few) =
      write_u32_lem (mag / 100) l q (omega arith) k (omega arith) in
    let size = length-append q (backwards ds) in
    let short = length-backwards ds in
    let point = write_char-Queued 0x2e _ _ whole (omega arith) in
    let joined =
      append_assoc (q ++ backwards ds) (0x2e ∷ [])
        ((0x30 + mag % 100 / 10) ∷ (0x30 + mag % 100 % 10) ∷ [])
      ∙ append_assoc q (backwards ds) _ in
    let size' = length-append (q ++ backwards ds) (0x2e ∷ []) in
    (
      ds,
      0x30 + mag % 100 / 10,
      0x30 + mag % 100 % 10,
      subst (Queued _) joined (write_decimals (mag % 100) _ _ (omega arith) point (omega arith)),
      omega arith,
      (omega arith, omega arith, (omega arith, omega arith, digits)),
      some_left,
    )

-- With room for 14 characters, a number of hundredths is appended to the log as its sign, at least one
-- digit, a point and two digits, and these read back as the number.
pub write_fixed_lem :
    (x : ℤ) (l : Logger) (q : List ℕ)
    → magnitude x < 2 ^ 32
    → Queued l q
    → length q + 14 ≤ 256
    → (ds : List ℕ) × (tens units : ℕ) × Queued
        (logger_write_fixed_cd x l)
        (q ++ (sign_of x ++ (backwards ds ++ (0x2e ∷ tens ∷ units ∷ []))))
      × (value_of (units ∷ tens ∷ ds) ≡ magnitude x)
      × AllDigits (units ∷ tens ∷ ds)
      × (0 < length ds)
unfolding logger_write_fixed_cd
write_fixed_lem (pos n) l q h k room = fixed_lem n l q h k (omega arith)
write_fixed_lem (negsuc n) l q h k room =
    let whole : u32 (n + 1) ≡ suc n = omega arith in
    let size = length-append q (0x2d ∷ []) in
    let (ds, tens, units, queued, value, digits, some_left) =
      fixed_lem (suc n) (logger_write_char 0x2d l) (q ++ (0x2d ∷ [])) h
        (write_char-Queued 0x2d l q k (omega arith)) (omega (arith, size)) in
    rw whole (
      ds,
      tens,
      units,
      subst (Queued _) (append_assoc q (0x2d ∷ []) _) queued,
      value,
      digits,
      some_left,
    )

-- With room for 11 characters, a signed number is appended as its sign and at most ten digits, which read
-- back as the number.
write_i32_lem :
    (x : ℤ) (l : Logger) (q : List ℕ)
    → magnitude x < 2 ^ 32
    → Queued l q
    → length q + 11 ≤ 256
    → (ds : List ℕ) × Queued (logger_write_i32 x l) (q ++ (sign_of x ++ backwards ds))
      × (value_of ds ≡ magnitude x)
      × AllDigits ds
      × (0 < length ds)
      × (length ds ≤ 10)
unfolding logger_write_i32
write_i32_lem (pos n) l q h k room = write_u32_lem n l q h k (omega arith)
write_i32_lem (negsuc n) l q h k room =
    let whole : u32 (n + 1) ≡ suc n = omega arith in
    let size = length-append q (0x2d ∷ []) in
    let (ds, queued, value, digits, some_left, few) =
      write_u32_lem (suc n) (logger_write_char 0x2d l) (q ++ (0x2d ∷ [])) h
        (write_char-Queued 0x2d l q k (omega arith)) (omega (arith, size)) in
    rw whole
      (ds, subst (Queued _) (append_assoc q (0x2d ∷ []) _) queued, value, digits, some_left, few)
