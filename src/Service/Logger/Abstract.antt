-- ===== src/Service/Logger/Abstract.antt =====
-- The log of src/service/logger.c without its representation: two loggers are one if no calls of the
-- log's functions tell them apart.
use climate_node.Prelude.{
  ℕ, suc, ◌+◌, ◌-◌, ◌≤◌, ◌≡◌, refl, ◌∙◌, sym, ap, ap₂, arith, Option, none, some, List, [], ◌∷◌,
  ◌++◌, ltb, if◌then◌else◌, length, length-append, replicate, length-replicate, get_or-append_at,
  append_assoc,
}
use std.Equiv.{IsEquiv, iso_to_equiv}
use mathlib.Core.HLevel.{Σ_prop_path, prop→set}
use mathlib.Core.Quot
use mathlib.Core.Quot.{Quot, Quot-set}
use native.Mathlib.Bridge.{le_prop}
use climate_node.Prelude.Ring.{window, bump}
use climate_node.Service.Logger.{
  Logger, LogLevel, logger_pop_char, logger_set_level, logger_get_level, logger_dropped_chars,
}
use climate_node.Service.Logger.Queue.{Queued, Queued-length, pop_char_lem, pop_empty}
use climate_node.Service.Logger.Calls.{
  Op, call, calls, Seen, seen, Ring, IsSame, written, first, others, dropped_after, write-level,
  write-dropped, pop-rest, pop-Queued, called, called-call, IsAlike-IsSame,
}

abbrev pub Log : Type 0
Log = Quot (λ (r : Ring) (s : Ring). IsSame r.1 s.1)

-- A text that fits the log, and with it the level and the count of dropped characters.
abbrev pub Text : Type 0
Text = (q : List ℕ) × (length q ≤ 256)

abbrev pub View : Type 0
View = Text × LogLevel × ℕ

Text-ext : {s t : Text} → s.0 ≡ t.0 → s ≡ t
Text-ext h = Σ_prop_path (λ q. le_prop) h

View-ext :
    {s t : Text} {v w : LogLevel} {m n : ℕ}
    → s.0 ≡ t.0
    → v ≡ w
    → m ≡ n
    → ◌≡◌ {A = View} (s, v, m) (t, w, n)
View-ext text level dropped =
    ap₂ (λ (a : Text) (b : LogLevel × ℕ). (a, b.0, b.1)) (Text-ext text)
      (ap₂ (λ (v : LogLevel) (n : ℕ). (v, n)) level dropped)

fits_set : (q : List ℕ) → IsSet (length q ≤ 256)
fits_set q = prop→set le_prop

Level-set : IsSet LogLevel
Level-set = hlevel

Rest-set : IsSet (LogLevel × ℕ)
Rest-set = hlevel (Level-set)

View-set : IsSet View
View-set = hlevel (fits_set, Rest-set)

Option-set : IsSet (Option ℕ)
Option-set = hlevel

-- Taking the characters one by one shows the text.
same_text : (q p : List ℕ) (l m : Logger) → Queued l q → Queued m p → IsSame l m → q ≡ p
unfolding calls call
same_text [] [] l m h k same = refl
same_text [] (d ∷ p) l m h k same =
    let e : none ≡ some d =
      sym (pop_empty l h).0 ∙ ap (λ x. x.0) (same []) ∙ (pop_char_lem d m p k).0 in
    cc
same_text (c ∷ q) [] l m h k same =
    let e : some c ≡ none =
      sym (pop_char_lem c l q h).0 ∙ ap (λ x. x.0) (same []) ∙ (pop_empty m k).0 in
    cc
same_text (c ∷ q) (d ∷ p) l m h k same =
    let (got, after) = pop_char_lem c l q h in
    let (got', after') = pop_char_lem d m p k in
    let e : some c ≡ some d = sym got ∙ ap (λ x. x.0) (same []) ∙ got' in
    let head : c ≡ d = cc in
    ap₂ (λ x t. x ∷ t) head
      (same_text q p (logger_pop_char l).1 (logger_pop_char m).1 after after'
        (λ os. same (Op.take ∷ os)))

-- The ring that starts at index 0.
window-append :
    (before q after : List ℕ)
    → length before + length q ≤ 256
    → window 256 0 (before ++ (q ++ after)) (length before) (length q) ≡ q
window-append before [] after h = refl
window-append before (c ∷ []) after h =
    ap (λ x. x ∷ []) (get_or-append_at before (c ∷ after) 0 (length before) 0 (omega arith))
window-append before (c ∷ d ∷ q) after h =
    let buf = before ++ (c ∷ d ∷ (q ++ after)) in
    let size = length-append before (c ∷ []) in
    let next : bump 256 (length before) ≡ length (before ++ (c ∷ [])) = ground (arith, size) in
    ap₂ (λ x t. x ∷ t)
      (get_or-append_at before (c ∷ d ∷ (q ++ after)) 0 (length before) 0 (omega arith))
      (ap₂ (λ b i. window 256 0 b i (suc (length q)))
          (sym (append_assoc before (c ∷ []) (d ∷ (q ++ after)))) next
        ∙ window-append (before ++ (c ∷ [])) (d ∷ q) after (omega (arith, size)))

ring_of : View → Ring
ring_of ((q, h), level, dropped) = (
  q,
  record {
    buf = q ++ replicate (256 - length q) 0;
    head = if ltb (length q) 256 then length q else 0;
    tail = 0;
    count = length q;
    level = level;
    dropped = dropped;
  },
  record {
    storage = omega (
      arith,
      length-append q (replicate (256 - length q) 0),
      length-replicate {A = ℕ} (256 - length q) 0,
    );
    tail_in = omega arith;
    fits = h;
    head_at = ground arith;
    contents = window-append [] q (replicate (256 - length q) 0) (omega arith);
  },
)

-- The calls and what is seen, on the quotient.
pub do_call : Op → Log → Log
unfolding call calls
do_call o =
    Quot.lift Quot-set (λ r. Quot.mk (called o r))
      (λ r s e. Quot.sound (λ os.
        ap (λ l. seen (calls os l)) (called-call o r)
        ∙ e (o ∷ os)
        ∙ ap (λ l. seen (calls os l)) (sym (called-call o s))))

Seen-set : IsSet Seen
Seen-set = hlevel (Option-set, Rest-set)

pub seen_of : Log → Seen
unfolding calls
seen_of = Quot.lift Seen-set (λ r. seen r.1) (λ r s e. e [])

pub view_of : Log → View
unfolding calls logger_get_level logger_dropped_chars
view_of =
    Quot.lift View-set
      (λ r. ((r.0, omega (arith, Queued-length r.2, r.2.fits)), r.1.level, r.1.dropped))
      (λ r s e.
        View-ext (same_text r.0 s.0 r.1 s.1 r.2 s.2 e) (ap (λ x. x.1) (e []))
          (ap (λ x. x.2) (e [])))

view_of-IsEquiv : IsEquiv view_of
unfolding view_of ring_of
view_of-IsEquiv =
    (iso_to_equiv record {
      fun = view_of;
      inv = λ t. Quot.mk (ring_of t);
      rinv = λ t. View-ext refl refl refl;
      linv =
          Quot.ind (λ x. Quot-set _ _)
            (λ r. Quot.sound (
              IsAlike-IsSame (ring_of (view_of (Quot.mk r))) r
                record { text = refl; level = refl; dropped = refl }));
    }).1

-- The view without the proof that the text fits.
abbrev Plain : Type 0
Plain = List ℕ × LogLevel × ℕ

abbrev plain : View → Plain
plain ((q, h), level, dropped) = (q, level, dropped)

-- What a call makes of a text, a level and a count.
abbrev after : Op → Plain → Plain
after (Op.write c) (q, level, n) = (written c q, level, dropped_after q n)
after Op.take (q, level, n) = (others q, level, n)
after (Op.set_level v) (q, level, n) = (q, v, n)

after_lem :
    (o : Op) (r : Ring)
    → let r' = called o r in
      ◌≡◌ {A = Plain} (r'.0, r'.1.level, r'.1.dropped) (after o (r.0, r.1.level, r.1.dropped))
unfolding called logger_set_level
after_lem (Op.write c) r = rw (write-level c r.1, write-dropped c r.1 r.0 r.2) refl
after_lem Op.take r = rw ((pop-rest r.1).0, (pop-rest r.1).1) refl
after_lem (Op.set_level v) r = refl

-- Loggers that no sequence of writing, taking and setting the level tells apart, by the character
-- taken next, the level or the count of dropped characters, have the same text of at most 256 characters, level
-- and count, and each such triple is that of one logger up to this. Writing appends the character if there is
-- room and otherwise counts it as dropped, modulo 2 ^ 32; taking removes the first character; setting the level sets that alone.
-- What is seen is the first character, if there is one, the level and the count.
pub log_text :
    IsEquiv view_of
    × ((o : Op) (x : Log) → plain (view_of (do_call o x)) ≡ after o (plain (view_of x)))
    × ((x : Log) → seen_of x ≡ (first (view_of x).0.0, (view_of x).1, (view_of x).2))
unfolding view_of do_call seen_of logger_get_level logger_dropped_chars
log_text = (
  view_of-IsEquiv,
  λ o. Quot.ind (λ x. hlevel (Rest-set)) (λ r. after_lem o r),
  Quot.ind (λ x. Seen-set _ _)
      (λ r. ap (λ (c : Option ℕ). (c, r.1.level, r.1.dropped)) (pop-Queued r.1 r.0 r.2).0),
)
