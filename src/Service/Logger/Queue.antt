-- ===== src/Service/Logger/Queue.antt =====
-- The log as a queue: what is written comes out in order, and only a full buffer drops.
use climate_node.Prelude.{
  ℕ, zero, suc, ◌+◌, ◌-◌, ◌≤◌, ◌<◌, ◌≡◌, refl, ◌∙◌, sym, ap, arith, true, false, none, some, ◌⊎◌,
  inl, inr, List, [], ◌∷◌, ◌++◌, u32, leb, ltb, ◌==◌, if◌then◌else◌, Bool-cases, length, length-set,
  append-nil, append_assoc, length-drop, subst, get_or, take, drop,
}
use climate_node.Prelude.Ring.{window, length-window, window-set}
use climate_node.Service.Logger.{
  Logger, logger_push_char, logger_pop_char, logger_init, pop_chunk, write_chunk, logger_task,
  flush_loop, logger_flush,
}

-- The log holds the text `q`, oldest character first.
pub record Queued (l : Logger) (q : List ℕ) : Type 0 where
  pub storage : length l.buf ≡ 256
  pub tail_in : l.tail < 256
  pub fits : l.count ≤ 256
  pub head_at :
      l.head ≡ (if ltb (l.tail + l.count) 256 then l.tail + l.count else l.tail + l.count - 256)
  pub contents : window 256 0 l.buf l.tail l.count ≡ q

pub Queued-length : {l : Logger} {q : List ℕ} → Queued l q → length q ≡ l.count
Queued-length {l} h = ap length (sym h.contents) ∙ length-window 256 0 l.buf l.tail l.count

pub logger_init-Queued : (l : Logger) → length l.buf ≡ 256 → Queued (logger_init l) []
unfolding logger_init
logger_init-Queued l h = record {
  storage = h;
  tail_in = omega arith;
  fits = omega arith;
  head_at = refl;
  contents = refl;
}

-- A character that is written comes after what is queued; if 256 are queued it is dropped and
-- counted, and the queue is as it was.
pub push_char_lem :
    (c : ℕ) (l : Logger) (q : List ℕ)
    → Queued l q
    → let (done, l') = logger_push_char c l in
      ((length q < 256) × (done ≡ true) × Queued l' (q ++ (c ∷ [])) × (l'.dropped ≡ l.dropped))
      ⊎ ((length q ≡ 256) × (done ≡ false) × Queued l' q × (l'.dropped ≡ u32 (l.dropped + 1)))
unfolding logger_push_char
push_char_lem c l q h =
    let n = Queued-length h in
    elim (Bool-cases (leb 256 l.count)) [
      | inl e ↦ rw e (
          inr (
            ground (arith, h.fits, n),
            refl,
            record {
              storage = h.storage;
              tail_in = h.tail_in;
              fits = h.fits;
              head_at = h.head_at;
              contents = h.contents;
            },
            refl,
          ))
      | inr e ↦
          let room : l.count < 256 = ground arith in
          let next : l.count + 1 ≡ suc l.count = omega arith in
          let at = h.head_at in
          rw e (
            inl (
              omega arith,
              refl,
              record {
                storage = length-set l.buf l.head c ∙ h.storage;
                tail_in = h.tail_in;
                fits = omega arith;
                head_at = ground (arith, h.tail_in);
                contents = rw next (
                    window-set 256 0 l.buf c l.tail l.count l.head (omega (arith, h.storage))
                      h.tail_in room (h.head_at)
                    ∙ ap (λ t. t ++ (c ∷ [])) h.contents);
              },
              refl,
            ))
    ]

-- The oldest character comes out first.
pub pop_char_lem :
    (c : ℕ) (l : Logger) (q : List ℕ)
    → Queued l (c ∷ q)
    → let (got, l') = logger_pop_char l in (got ≡ some c) × Queued l' q
unfolding logger_pop_char
pop_char_lem c l q h =
    let n = Queued-length h in
    let some_left : (l.count == 0) ≡ false = ground arith in
    let m = l.count - 1 in
    let back : suc m ≡ l.count = omega arith in
    let whole : window 256 0 l.buf l.tail (suc m) ≡ c ∷ q =
      ap (window 256 0 l.buf l.tail) back ∙ h.contents in
    let at = h.head_at in
    rw some_left (
      ap (λ t. some (get_or t 0 0)) whole,
      record {
        storage = h.storage;
        tail_in = ground (arith, h.tail_in);
        fits = omega (arith, h.fits);
        head_at = ground (arith, h.tail_in, h.fits);
        contents = ap (drop 1) whole;
      },
    )

pub pop_empty :
    (l : Logger) → Queued l [] → ((logger_pop_char l).0 ≡ none) × ((logger_pop_char l).1 ≡ l)
unfolding logger_pop_char
pop_empty l h =
    let n = Queued-length h in
    let none_left : (l.count == 0) ≡ true = ground arith in rw none_left (refl, refl)

-- At most `n` characters come out, the oldest first, and the rest stays queued.
pop_chunk_lem :
    (n : ℕ) (l : Logger) (q : List ℕ)
    → Queued l q
    → let (cs, l') = pop_chunk n l in (cs ≡ take n q) × Queued l' (drop n q)
unfolding pop_chunk
pop_chunk_lem zero l q h = (refl, h)
pop_chunk_lem (suc n) l [] h =
    let (got, same) = pop_empty l h in
    rw (pop_chunk, got) (refl, subst (λ k. Queued k []) (sym same) h)
pop_chunk_lem (suc n) l (c ∷ q) h =
    let (got, rest) = pop_char_lem c l q h in
    let (cs, after) = pop_chunk_lem n (logger_pop_char l).1 q rest in
    rw (pop_chunk, got) (ap (λ t. c ∷ t) cs, after)

-- Everything that the console got, chunk after chunk.
abbrev pub joined : List (List ℕ) → List ℕ
joined [] = []
joined (c ∷ cs) = c ++ joined cs

joined-write_chunk :
    (c : List ℕ) (out : List (List ℕ)) → joined (write_chunk c out) ≡ joined out ++ c
joined-write_chunk [] out = sym (append-nil (joined out))
joined-write_chunk (c ∷ cs) [] = append-nil (c ∷ cs)
joined-write_chunk (c ∷ cs) (o ∷ out) =
    ap (λ t. o ++ t) (joined-write_chunk (c ∷ cs) out) ∙ sym (append_assoc o (joined out) (c ∷ cs))

-- A call of the task sends the next 32 queued characters, or all if there are fewer.
task_lem :
    (l : Logger) (q : List ℕ) (out : List (List ℕ))
    → Queued l q
    → let (l', out') = logger_task l out in
      (joined out' ≡ joined out ++ take 32 q) × Queued l' (drop 32 q)
unfolding logger_task
task_lem l q out h =
    let (cs, rest) = pop_chunk_lem 32 l q h in
    (joined-write_chunk (pop_chunk 32 l).0 out ∙ ap (λ t. joined out ++ t) cs, rest)

take-append-drop : (n : ℕ) (q : List ℕ) → take n q ++ drop n q ≡ q
take-append-drop zero q = refl
take-append-drop (suc n) [] = refl
take-append-drop (suc n) (c ∷ q) = ap (λ t. c ∷ t) (take-append-drop n q)

flush_loop_lem :
    (n : ℕ) (l : Logger) (q : List ℕ) (out : List (List ℕ))
    → Queued l q
    → length q ≤ n
    → let (l', out') = flush_loop n l out in (joined out' ≡ joined out ++ q) × Queued l' []
unfolding flush_loop
flush_loop_lem zero l [] out h k = (sym (append-nil (joined out)), h)
flush_loop_lem zero l (c ∷ q) out h k = absurd (omega arith)
flush_loop_lem (suc n) l q out h k = elim (Bool-cases (ltb 0 l.count)) [
  | inl e ↦
      let size = Queued-length h in
      let (sent, left) = task_lem l q out h in
      let some_left : 0 < l.count = ground arith in
      let (all, empty) =
        flush_loop_lem n (logger_task l out).0 (drop 32 q) (logger_task l out).1 left
          (omega (arith, length-drop 32 q)) in
      rw (flush_loop, e)
        (
          all
              ∙ ap (λ t. t ++ drop 32 q) sent
              ∙ append_assoc (joined out) (take 32 q) (drop 32 q)
              ∙ ap (λ t. joined out ++ t) (take-append-drop 32 q),
          empty,
        )
  | inr e ↦
      let size = Queued-length h in
      let nothing : q ≡ [] = empty_of q (ground arith) in
      rw (flush_loop, e) (rw nothing (sym (append-nil (joined out))), subst (Queued l) nothing h)
]
  where
    empty_of : (q : List ℕ) → length q ≡ 0 → q ≡ []
    empty_of [] h = refl
    empty_of (c ∷ q) h = absurd (omega arith)

-- Flushing sends all that is queued, in order, and leaves the queue empty.
pub flush_lem :
    (l : Logger) (q : List ℕ) (out : List (List ℕ))
    → Queued l q
    → let (l', out') = logger_flush l out in (joined out' ≡ joined out ++ q) × Queued l' []
unfolding logger_flush
flush_lem l q out h = flush_loop_lem l.count l q out h (omega (arith, Queued-length h))
