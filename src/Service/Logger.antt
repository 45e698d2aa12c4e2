-- ===== src/Service/Logger.antt =====
-- src/service/logger.c and include/service/logger.h: the log, a ring buffer of 256 characters that
-- `logger_task` writes to the console in chunks. Characters are their codes; the static variables
-- are a record, and the console is the list of the chunks written to it.
pub mod Queue
pub mod Decimal
pub mod Fixed
pub mod Calls
pub mod Abstract
use climate_node.Prelude.{
  ℕ, zero, suc, ◌+◌, ◌-◌, ◌*◌, ◌/◌, ◌%◌, ◌^◌, Bool, true, false, Option, none, some, List, [], ◌∷◌,
  ◌++◌, ℤ, pos, negsuc, u32, leb, ltb, ◌==◌, if◌then◌else◌, get_or, set,
}

abbrev pub logger_buffer_size : ℕ
logger_buffer_size = 256

abbrev pub logger_chunk_size : ℕ
logger_chunk_size = 32

-- `log_level_t`
pub data LogLevel : Type 0 where
  error warn info debug : LogLevel

-- The static variables.
pub record Logger : Type 0 where
  pub buf : List ℕ
  pub head : ℕ
  pub tail : ℕ
  pub count : ℕ
  pub level : LogLevel
  pub dropped : ℕ

unfoldable pub logger_push_char : ℕ → Logger → Bool × Logger
logger_push_char c l =
    if leb logger_buffer_size l.count
    then (false, record l { dropped = u32 (l.dropped + 1) })
    else (
      true,
      record l {
        buf = set l.buf l.head c;
        head = if leb logger_buffer_size (l.head + 1) then 0 else l.head + 1;
        count = l.count + 1;
      },
    )

-- The character, if there is one.
unfoldable pub logger_pop_char : Logger → Option ℕ × Logger
logger_pop_char l = if l.count == 0 then (none, l) else (
  some (get_or l.buf l.tail 0),
  record l {
    tail = if leb logger_buffer_size (l.tail + 1) then 0 else l.tail + 1;
    count = l.count - 1;
  },
)

unfoldable pub logger_init : Logger → Logger
logger_init l = record l { head = 0; tail = 0; count = 0; dropped = 0; level = LogLevel.info }

unfoldable pub logger_set_level : LogLevel → Logger → Logger
logger_set_level level l = record l { level = level }

unfoldable pub logger_get_level : Logger → LogLevel
logger_get_level l = l.level

-- The place of a level in the enumeration.
abbrev pub rank : LogLevel → ℕ
rank LogLevel.error = 0
rank LogLevel.warn = 1
rank LogLevel.info = 2
rank LogLevel.debug = 3

unfoldable pub logger_level_enabled : LogLevel → Logger → Bool
logger_level_enabled level l = leb (rank level) (rank l.level)

unfoldable pub logger_write_char : ℕ → Logger → Logger
logger_write_char c l = (logger_push_char c l).1

-- The characters before the terminating null.
unfoldable pub logger_write_str : List ℕ → Logger → Logger
logger_write_str [] l = l
logger_write_str (c ∷ cs) l = logger_write_str cs (logger_write_char c l)

-- The first loop of `logger_write_u32`: the digits, the last one first. Ten are enough for 32 bits.
unfoldable pub digits_of : ℕ → ℕ → List ℕ
digits_of zero x = []
digits_of (suc n) x =
    let rest = digits_of n (x / 10) in if x == 0 then [] else (0x30 + x % 10) ∷ rest

-- The second loop: from the end of the array down.
unfoldable pub write_back : List ℕ → Logger → Logger
write_back [] l = l
write_back (c ∷ cs) l = logger_write_char c (write_back cs l)

unfoldable pub logger_write_u32 : ℕ → Logger → Logger
logger_write_u32 x l = if x == 0 then logger_write_char 0x30 l else write_back (digits_of 10 x) l

-- The loop that counts the digits, one at least.
unfoldable pub count_digits : ℕ → ℕ → ℕ
count_digits zero y = 0
count_digits (suc n) y = let rest = count_digits n (y / 10) in if y / 10 == 0 then 1 else 1 + rest

unfoldable pub write_zeros : ℕ → Logger → Logger
write_zeros zero l = l
write_zeros (suc n) l = write_zeros n (logger_write_char 0x30 l)

unfoldable pub logger_write_u32_padded : ℕ → ℕ → Logger → Logger
logger_write_u32_padded x width l = logger_write_u32 x (write_zeros (width - count_digits 10 x) l)

-- `(uint32_t)(-(x + 1)) + 1` is the magnitude of a negative `x`, -2 ^ 31 included.
unfoldable pub logger_write_i32 : ℤ → Logger → Logger
logger_write_i32 (pos n) l = logger_write_u32 n l
logger_write_i32 (negsuc n) l = logger_write_u32 (u32 (n + 1)) (logger_write_char 0x2d l)

unfoldable pub logger_write_fixed_mag : ℕ → Logger → Logger
logger_write_fixed_mag mag l =
    let frac_part = mag % 100 in
    let l' = logger_write_char 0x2e (logger_write_u32 (mag / 100) l) in
    logger_write_u32 frac_part (if ltb frac_part 10 then logger_write_char 0x30 l' else l')

unfoldable pub logger_write_fixed_cd : ℤ → Logger → Logger
logger_write_fixed_cd (pos n) l = logger_write_fixed_mag n l
logger_write_fixed_cd (negsuc n) l = logger_write_fixed_mag (u32 (n + 1)) (logger_write_char 0x2d l)

unfoldable pub logger_write_fixed_cp : ℕ → Logger → Logger
logger_write_fixed_cp value l = logger_write_fixed_mag value l

unfoldable pub logger_new_line : Logger → Logger
logger_new_line l = logger_write_char 0x0a (logger_write_char 0x0d l)

-- The loop of `logger_task`: at most `n` characters, until there is none.
unfoldable pub pop_chunk : ℕ → Logger → List ℕ × Logger
pop_chunk zero l = ([], l)
pop_chunk (suc n) l =
    let (got, l') = logger_pop_char l in
    let (cs, l'') = pop_chunk n l' in elim got [ none ↦ ([], l') | some c ↦ (c ∷ cs, l'') ]

-- A chunk with no character is not written.
abbrev pub write_chunk : List ℕ → List (List ℕ) → List (List ℕ)
write_chunk [] out = out
write_chunk (c ∷ cs) out = out ++ ((c ∷ cs) ∷ [])

unfoldable pub logger_task : Logger → List (List ℕ) → Logger × List (List ℕ)
logger_task l out = let (chunk, l') = pop_chunk logger_chunk_size l in (l', write_chunk chunk out)

-- The loop of `logger_flush`, on fuel; every round takes a character, so the count is enough.
unfoldable pub flush_loop : ℕ → Logger → List (List ℕ) → Logger × List (List ℕ)
flush_loop zero l out = (l, out)
flush_loop (suc n) l out =
    let (l', out') = logger_task l out in
    let rest = flush_loop n l' out' in if ltb 0 l.count then rest else (l, out)

unfoldable pub logger_flush : Logger → List (List ℕ) → Logger × List (List ℕ)
logger_flush l out = flush_loop l.count l out

unfoldable pub logger_dropped_chars : Logger → ℕ
logger_dropped_chars l = l.dropped
