-- ===== src/Pipe/Wakeup.antt =====
-- The goroutines that wait in `Read` of spdyframing/pipe.go: `c.Wait()` puts one to sleep and
-- `c.Signal()`, at the end of `Write` and `Close`, wakes the one that has slept longest.
use spdy.Base.{
  ℕ, zero, suc, Bool-cases, ap, ◌∙◌, ◌+◌, ◌≤◌, ◌≡◌, refl, ◌⊎◌, inl, inr, true, false, Bytes, List,
  [], ◌∷◌, ◌++◌, length, Option, none, some, arith,
}
use spdy.Errors.{Error}
use spdy.Buffer
use spdy.Buffer.{Buffer}
use spdy.Pipe
use spdy.Pipe.{is_blocked}

-- The sizes that the sleeping readers asked for, the oldest first, and those of the woken ones, which
-- have yet to go round their loop.
pub record Readers : Type 0 where
  pub buf : Buffer
  pub asleep : List ℕ
  pub awake : List ℕ

abbrev signal_reader : Readers → List ℕ → Readers
signal_reader s [] = s
signal_reader s (p ∷ rest) = record s { asleep = rest; awake = s.awake ++ p ∷ [] }

-- The reader goes to sleep, or `Read` returns.
abbrev try_read : Readers → ℕ → Option ((Bytes × Option Error) × Buffer) → Readers
try_read s p none = record s { asleep = s.asleep ++ p ∷ [] }
try_read s p (some (got, b)) = record s { buf = b }

unfoldable pub call_read : Readers → ℕ → Readers
call_read s p = try_read s p (Pipe.read s.buf p)

abbrev read_again_from : Readers → List ℕ → Readers
read_again_from s [] = s
read_again_from s (p ∷ rest) = try_read (record s { awake = rest }) p (Pipe.read s.buf p)

-- The first woken reader goes round its loop.
unfoldable pub read_again : Readers → Readers
read_again s = read_again_from s s.awake

unfoldable pub call_write : Readers → Bytes → Readers
call_write s p = signal_reader (record s { buf = (Pipe.write s.buf p).1 }) s.asleep

unfoldable pub close_pipe : Readers → Error → Readers
close_pipe s e = signal_reader (record s { buf = Pipe.close s.buf e }) s.asleep

-- The steps of a program in which one goroutine at a time calls `Read`.
pub data Step (s : Readers) : Readers → Type 0 where
  reads : (p : ℕ) → s.asleep ≡ [] → s.awake ≡ [] → Step s (call_read s p)
  reads_again : Step s (read_again s)
  writes : (p : Bytes) → Step s (call_write s p)
  closes : (e : Error) → Step s (close_pipe s e)

pub data Reach (s : Readers) : Readers → Type 0 where
  here : Reach s s
  next : {t u : Readers} → Reach s t → Step t u → Reach s u

-- One reader at most, and none asleep but at an open pipe with nothing in it.
pub record IsAttended (s : Readers) : Type 0 where
  pub single : length s.asleep + length s.awake ≤ 1
  pub rightly : (s.asleep ≡ []) ⊎ (is_blocked s.buf ≡ true)

read-waits : (b : Buffer) (p : ℕ) → is_blocked b ≡ true → Pipe.read b p ≡ none
unfolding Pipe.read
read-waits b p h = ground (arith, h)

read-returns : (b : Buffer) (p : ℕ) → is_blocked b ≡ false → Pipe.read b p ≡ some (Buffer.read b p)
unfolding Pipe.read
read-returns b p h = ground (arith, h)

nil_of_length : (xs : List ℕ) → length xs ≤ 0 → xs ≡ []
nil_of_length [] h = refl
nil_of_length (x ∷ xs) h = absurd (omega arith)

try_read-IsAttended :
    (s : Readers) (p : ℕ)
    → s.asleep ≡ []
    → s.awake ≡ []
    → IsAttended (try_read s p (Pipe.read s.buf p))
try_read-IsAttended s p a w = elim (Bool-cases (is_blocked s.buf)) [
  | inl blocked ↦
      rw (read-waits s.buf p blocked)
        (record { single = rw (a, w) (omega arith); rightly = inr blocked })
  | inr free ↦
      rw (read-returns s.buf p free) (record { single = rw (a, w) (omega arith); rightly = inl a })
]

read_again-IsAttended :
    (s : Readers) (l : List ℕ) → s.awake ≡ l → IsAttended s → IsAttended (read_again_from s l)
read_again-IsAttended s [] h v = v
read_again-IsAttended s (p ∷ rest) h v =
    let total : length s.awake ≡ suc (length rest) = ap length h in
    try_read-IsAttended (record s { awake = rest }) p
      (nil_of_length s.asleep (omega (arith, v.single, total)))
      (nil_of_length rest (omega (arith, v.single, total)))

signal_reader-IsAttended :
    (s : Readers) (l : List ℕ) (b : Buffer)
    → s.asleep ≡ l
    → IsAttended s
    → IsAttended (signal_reader (record s { buf = b }) l)
signal_reader-IsAttended s [] b h v = record { single = v.single; rightly = inl h }
signal_reader-IsAttended s (p ∷ rest) b h v =
    let total : length s.asleep ≡ suc (length rest) = ap length h in
    let no_rest : rest ≡ [] = nil_of_length rest (omega (arith, v.single, total)) in
    let none_awake : s.awake ≡ [] = nil_of_length s.awake (omega (arith, v.single, total)) in
    record { single = rw (no_rest, none_awake) (omega arith); rightly = inl no_rest }

Step-IsAttended : {s t : Readers} → Step s t → IsAttended s → IsAttended t
unfolding call_read read_again call_write close_pipe
Step-IsAttended {s} (reads p a w) v = try_read-IsAttended s p a w
Step-IsAttended {s} reads_again v = read_again-IsAttended s s.awake refl v
Step-IsAttended {s} (writes p) v = signal_reader-IsAttended s s.asleep (Pipe.write s.buf p).1 refl v
Step-IsAttended {s} (closes e) v = signal_reader-IsAttended s s.asleep (Pipe.close s.buf e) refl v

-- While one goroutine at a time calls `Read`, no wakeup is lost: after any interleaving of calls,
-- writes, closes and woken readers that go round their loop, at most one goroutine is asleep or awake in
-- it, and it sleeps only at an open pipe with nothing in it.
pub Reach-IsAttended : {s t : Readers} → IsAttended s → Reach s t → IsAttended t
Reach-IsAttended v here = v
Reach-IsAttended v (next r st) = Step-IsAttended st (Reach-IsAttended v r)

-- So many times, a woken reader goes round its loop.
abbrev pub reads_on : ℕ → Readers → Readers
reads_on zero s = s
reads_on (suc k) s = reads_on k (read_again s)

closed-blocked : (b : Buffer) → b.closed ≡ true → is_blocked b ≡ false
closed-blocked b h = ground (arith, h)

read-closed : (b : Buffer) (p : ℕ) → (Buffer.read b p).1.closed ≡ b.closed
unfolding Buffer.read
read-closed b p = refl

pipe_close-closed : (b : Buffer) (e : Error) → (Pipe.close b e).closed ≡ true
unfolding Pipe.close Buffer.close
pipe_close-closed b e = ground arith

read_again_closed :
    (s : Readers) (l : List ℕ)
    → s.buf.closed ≡ true
    → ((read_again_from s l).buf.closed ≡ true) × ((read_again_from s l).asleep ≡ s.asleep)
read_again_closed s [] h = (h, refl)
read_again_closed s (p ∷ rest) h =
    rw (read-returns s.buf p (closed-blocked s.buf h)) (rw (read-closed s.buf p) h, refl)

reads_on-asleep : (k : ℕ) (s : Readers) → s.buf.closed ≡ true → (reads_on k s).asleep ≡ s.asleep
unfolding read_again
reads_on-asleep zero s h = refl
reads_on-asleep (suc k) s h =
    let (shut, same) = read_again_closed s s.awake h in reads_on-asleep k (read_again s) shut ∙ same

-- With several readers asleep, Close wakes the oldest alone, and a reader that returns wakes nobody:
-- until the next Write or Close the others sleep on at the closed pipe, however often woken readers go
-- round their loop.
pub close_pipe_strands :
    (s : Readers) (p : ℕ) (rest : List ℕ) (e : Error) (k : ℕ)
    → s.asleep ≡ p ∷ rest
    → ((close_pipe s e).buf.closed ≡ true) × ((reads_on k (close_pipe s e)).asleep ≡ rest)
unfolding close_pipe
close_pipe_strands s p rest e k h =
    let shut = pipe_close-closed s.buf e in rw h (shut, reads_on-asleep k _ shut)
