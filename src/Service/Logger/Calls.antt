-- ===== src/Service/Logger/Calls.antt =====
-- The calls that change the logger of src/service/logger.c, and what a caller can see of it.
use climate_node.Prelude.{
  ℕ, ◌+◌, ◌≡◌, refl, ◌∙◌, sym, ap, ap₂, subst, arith, inl, inr, Option, none, some, true, false,
  List, [], ◌∷◌, ◌++◌, ltb, leb, ◌==◌, u32, Bool-cases, if◌then◌else◌, length,
}
use climate_node.Service.Logger.{
  Logger, LogLevel, logger_push_char, logger_write_char, logger_pop_char, logger_set_level,
  logger_get_level, logger_dropped_chars,
}
use climate_node.Service.Logger.Queue.{Queued, push_char_lem, pop_char_lem, pop_empty}

-- The calls that change a logger.
pub data Op : Type 0 where
  write : ℕ → Op
  take : Op
  set_level : LogLevel → Op

unfoldable pub call : Op → Logger → Logger
call (Op.write c) l = logger_write_char c l
call Op.take l = (logger_pop_char l).1
call (Op.set_level v) l = logger_set_level v l

unfoldable pub calls : List Op → Logger → Logger
calls [] l = l
calls (o ∷ os) l = calls os (call o l)

-- What a caller can see of a logger: the character that comes out next, the level and the count of
-- dropped characters.
abbrev pub Seen : Type 0
Seen = Option ℕ × LogLevel × ℕ

abbrev pub seen : Logger → Seen
seen l = ((logger_pop_char l).0, logger_get_level l, logger_dropped_chars l)

-- A ring buffer, with the text it holds.
abbrev pub Ring : Type 0
Ring = (q : List ℕ) × (l : Logger) × Queued l q

-- After the same calls the same is seen.
abbrev pub IsSame : Logger → Logger → Type 0
IsSame l m = (os : List Op) → seen (calls os l) ≡ seen (calls os m)

-- What a text becomes when a character is written, and when one is taken, and the count of dropped
-- characters when one is written.
abbrev pub written : ℕ → List ℕ → List ℕ
written c q = if ltb (length q) 256 then q ++ (c ∷ []) else q

abbrev pub first : List ℕ → Option ℕ
first [] = none
first (c ∷ q) = some c

abbrev pub others : List ℕ → List ℕ
others [] = []
others (c ∷ q) = q

abbrev pub dropped_after : List ℕ → ℕ → ℕ
dropped_after q n = if ltb (length q) 256 then n else u32 (n + 1)

pub write-level : (c : ℕ) (l : Logger) → (logger_write_char c l).level ≡ l.level
unfolding logger_write_char logger_push_char
write-level c l = elim (Bool-cases (leb 256 l.count)) [
  | inl e ↦ rw (logger_write_char, logger_push_char, e) refl
  | inr e ↦ rw (logger_write_char, logger_push_char, e) refl
]

pub write-dropped :
    (c : ℕ) (l : Logger) (q : List ℕ)
    → Queued l q
    → (logger_write_char c l).dropped ≡ dropped_after q l.dropped
unfolding logger_write_char
write-dropped c l q h = elim (push_char_lem c l q h) [
  | inl (room, done, queued, kept) ↦ let e : ltb (length q) 256 ≡ true = ground arith in rw e kept
  | inr (full, done, queued, lost) ↦ let e : ltb (length q) 256 ≡ false = ground arith in rw e lost
]

pub pop-rest :
    (l : Logger)
    → ((logger_pop_char l).1.level ≡ l.level) × ((logger_pop_char l).1.dropped ≡ l.dropped)
unfolding logger_pop_char
pop-rest l = elim (Bool-cases (l.count == 0)) [
  | inl e ↦ rw (logger_pop_char, e) (refl, refl)
  | inr e ↦ rw (logger_pop_char, e) (refl, refl)
]

pub write-Queued :
    (c : ℕ) (l : Logger) (q : List ℕ) → Queued l q → Queued (logger_write_char c l) (written c q)
unfolding logger_write_char
write-Queued c l q h = elim (push_char_lem c l q h) [
  | inl (room, done, queued, kept) ↦ let e : ltb (length q) 256 ≡ true = ground arith in rw e queued
  | inr (full, done, queued, lost) ↦
      let e : ltb (length q) 256 ≡ false = ground arith in rw e queued
]

pub pop-Queued :
    (l : Logger) (q : List ℕ)
    → Queued l q
    → ((logger_pop_char l).0 ≡ first q) × Queued (logger_pop_char l).1 (others q)
pop-Queued l [] h = let (got, same) = pop_empty l h in (got, subst (λ k. Queued k []) (sym same) h)
pop-Queued l (c ∷ q) h = pop_char_lem c l q h

pub set_level-Queued :
    (v : LogLevel) (l : Logger) (q : List ℕ) → Queued l q → Queued (logger_set_level v l) q
unfolding logger_set_level
set_level-Queued v l q h = record {
  storage = h.storage;
  tail_in = h.tail_in;
  fits = h.fits;
  head_at = h.head_at;
  contents = h.contents;
}

-- The calls on a ring, and on what they make of its view.
unfoldable pub called : Op → Ring → Ring
called (Op.write c) r = (written c r.0, logger_write_char c r.1, write-Queued c r.1 r.0 r.2)
called Op.take r = (others r.0, (logger_pop_char r.1).1, (pop-Queued r.1 r.0 r.2).1)
called (Op.set_level v) r = (r.0, logger_set_level v r.1, set_level-Queued v r.1 r.0 r.2)

-- Rings with the same text, level and count are the same for every sequence of calls.
pub record IsAlike (r s : Ring) : Type 0 where
  pub text : r.0 ≡ s.0
  pub level : r.1.level ≡ s.1.level
  pub dropped : r.1.dropped ≡ s.1.dropped

called-IsAlike : (o : Op) (r s : Ring) → IsAlike r s → IsAlike (called o r) (called o s)
unfolding called logger_set_level
called-IsAlike (Op.write c) r s h = record {
  text = ap (written c) h.text;
  level = write-level c r.1 ∙ h.level ∙ sym (write-level c s.1);
  dropped =
      write-dropped c r.1 r.0 r.2
      ∙ ap₂ dropped_after h.text h.dropped
      ∙ sym (write-dropped c s.1 s.0 s.2);
}
called-IsAlike Op.take r s h = record {
  text = ap others h.text;
  level = (pop-rest r.1).0 ∙ h.level ∙ sym (pop-rest s.1).0;
  dropped = (pop-rest r.1).1 ∙ h.dropped ∙ sym (pop-rest s.1).1;
}
called-IsAlike (Op.set_level v) r s h = record { text = h.text; level = refl; dropped = h.dropped }

pub called-call : (o : Op) (r : Ring) → (called o r).1 ≡ call o r.1
unfolding called call
called-call (Op.write c) r = refl
called-call Op.take r = refl
called-call (Op.set_level v) r = refl

pub IsAlike-IsSame : (r s : Ring) → IsAlike r s → IsSame r.1 s.1
unfolding calls logger_get_level logger_dropped_chars
IsAlike-IsSame r s h [] =
    ap₂ (λ (c : Option ℕ) (v : LogLevel × ℕ). (c, v.0, v.1))
      ((pop-Queued r.1 r.0 r.2).0 ∙ ap first h.text ∙ sym (pop-Queued s.1 s.0 s.2).0)
      (ap₂ (λ (v : LogLevel) (n : ℕ). (v, n)) h.level h.dropped)
IsAlike-IsSame r s h (o ∷ os) =
    ap (λ l. seen (calls os l)) (sym (called-call o r))
    ∙ IsAlike-IsSame (called o r) (called o s) (called-IsAlike o r s h) os
    ∙ ap (λ l. seen (calls os l)) (called-call o s)
