-- ===== src/Semaphore/Wakeup.antt =====
-- The goroutines that wait in `Dec` of spdyframing/semaphore.go: `c.Wait()` puts one to sleep and
-- `c.Signal()`, at the end of `Inc` and `Close`, wakes the one that has slept longest.
use spdy.Base.{
  ℕ, zero, suc, Bool-cases, ap, if◌then◌else◌, ◌+◌, ◌≤◌, ◌≡◌, refl, ◌⊎◌, inl, inr, true, false,
  List, [], ◌∷◌, ◌++◌, length, length-append, ◌≢◌, sym, subst, none, some, Option, arith,
}
use spdy.Base.Int.{ℤ, pos, ltb_ℤ, sub_i32}
use spdy.Errors.{Error, reset_error}
use spdy.Semaphore.{Semaphore, Outcome, waits, returns, is_blocked, dec, inc, close}

-- The counts that the sleeping goroutines asked for, the oldest first, and those that the woken
-- ones will ask for again.
pub record Waiting : Type 0 where
  pub sem : Semaphore
  pub asleep : List ℤ
  pub awake : List ℤ

abbrev signal : Waiting → List ℤ → Waiting
signal s [] = s
signal s (n ∷ rest) = record s { asleep = rest; awake = s.awake ++ n ∷ [] }

unfoldable pub call_close : Waiting → Error → Waiting
call_close s e = signal (record s { sem = close s.sem e }) s.asleep

-- What `Dec` comes to: the goroutine goes to sleep, or `Dec` returns to its one caller, writeData, which
-- on an error resets the stream, and so closes the window once more.
abbrev attempt : Waiting → ℤ → Outcome → Waiting
attempt s n waits = record s { asleep = s.asleep ++ n ∷ [] }
attempt s n (returns m none t) = record s { sem = t }
attempt s n (returns m (some e) t) = call_close (record s { sem = t }) (reset_error 6)

unfoldable pub call_dec : Waiting → ℤ → Waiting
call_dec s n = attempt s n (dec s.sem n)

abbrev resume_from : Waiting → List ℤ → Waiting
resume_from s [] = s
resume_from s (n ∷ rest) = attempt (record s { awake = rest }) n (dec s.sem n)

-- The first woken goroutine goes round its loop, and goes on from there.
unfoldable pub resume : Waiting → Waiting
resume s = resume_from s s.awake

unfoldable pub call_inc : Waiting → ℤ → Waiting
call_inc s n = signal (record s { sem = (inc s.sem n).1 }) s.asleep

-- The steps of a program in which one goroutine at a time calls `Dec`.
pub data Step (s : Waiting) : Waiting → Type 0 where
  decs : (n : ℤ) → s.asleep ≡ [] → s.awake ≡ [] → Step s (call_dec s n)
  resumes : Step s (resume s)
  incs : (n : ℤ) → Step s (call_inc s n)
  closes : (e : Error) → Step s (call_close s e)

pub data Reach (s : Waiting) : Waiting → Type 0 where
  here : Reach s s
  next : {t u : Waiting} → Reach s t → Step t u → Reach s u

-- One writer at most, and none asleep but at an open window with nothing left.
pub record IsServed (s : Waiting) : Type 0 where
  pub single : length s.asleep + length s.awake ≤ 1
  pub rightly : (s.asleep ≡ []) ⊎ (is_blocked s.sem ≡ true)

dec-waits : (s : Semaphore) (n : ℤ) → is_blocked s ≡ true → dec s n ≡ waits
unfolding dec
dec-waits s n h = ground arith

dec-returns :
    (s : Semaphore) (n : ℤ)
    → is_blocked s ≡ false
    → (m : ℤ) × (e : Option Error) × (t : Semaphore) × (dec s n ≡ returns m e t)
unfolding dec
dec-returns s n h = elim (Bool-cases s.closed) [
  | inl shut ↦ (pos 0, s.err, s, ground arith)
  | inr still ↦
      let m = if ltb_ℤ s.n n then s.n else n in
      (m, none, record s { n = sub_i32 s.n m }, ground arith)
]

nil_of_length {ℓ} : {A : Type ℓ} (xs : List A) → length xs ≤ 0 → xs ≡ []
nil_of_length [] h = refl
nil_of_length (x ∷ xs) h = absurd (omega arith)

signal_nobody : (s : Waiting) (l : List ℤ) → l ≡ [] → signal s l ≡ s
signal_nobody s [] h = refl
signal_nobody s (n ∷ rest) h = cc

returned-IsServed :
    (s : Waiting) (n m : ℤ) (e : Option Error) (t : Semaphore)
    → s.asleep ≡ []
    → s.awake ≡ []
    → IsServed (attempt s n (returns m e t))
unfolding call_close
returned-IsServed s n m none t a w = record { single = rw (a, w) (omega arith); rightly = inl a }
returned-IsServed s n m (some e) t a w =
    subst IsServed (sym (signal_nobody _ s.asleep a))
      (record { single = rw (a, w) (omega arith); rightly = inl a })

attempt-IsServed :
    (s : Waiting) (n : ℤ) → s.asleep ≡ [] → s.awake ≡ [] → IsServed (attempt s n (dec s.sem n))
attempt-IsServed s n a w = elim (Bool-cases (is_blocked s.sem)) [
  | inl blocked ↦
      rw (dec-waits s.sem n blocked)
        (record { single = rw (a, w) (omega arith); rightly = inr blocked })
  | inr free ↦
      let (m, e, t, eq) = dec-returns s.sem n free in rw eq (returned-IsServed s n m e t a w)
]

resume-IsServed : (s : Waiting) (l : List ℤ) → s.awake ≡ l → IsServed s → IsServed (resume_from s l)
resume-IsServed s [] h v = v
resume-IsServed s (n ∷ rest) h v =
    let total : length s.awake ≡ suc (length rest) = ap length h in
    attempt-IsServed (record s { awake = rest }) n
      (nil_of_length s.asleep (omega (arith, v.single, total)))
      (nil_of_length rest (omega (arith, v.single, total)))

signal-IsServed :
    (s : Waiting) (l : List ℤ) (t : Semaphore)
    → s.asleep ≡ l
    → IsServed s
    → IsServed (signal (record s { sem = t }) l)
signal-IsServed s [] t h v = record { single = v.single; rightly = inl h }
signal-IsServed s (n ∷ rest) t h v =
    let total : length s.asleep ≡ suc (length rest) = ap length h in
    let no_rest : rest ≡ [] = nil_of_length rest (omega (arith, v.single, total)) in
    let none_awake : s.awake ≡ [] = nil_of_length s.awake (omega (arith, v.single, total)) in
    record { single = rw (no_rest, none_awake) (omega arith); rightly = inl no_rest }

Step-IsServed : {s t : Waiting} → Step s t → IsServed s → IsServed t
unfolding call_dec resume call_inc call_close
Step-IsServed {s} (decs n a w) v = attempt-IsServed s n a w
Step-IsServed {s} resumes v = resume-IsServed s s.awake refl v
Step-IsServed {s} (incs n) v = signal-IsServed s s.asleep (inc s.sem n).1 refl v
Step-IsServed {s} (closes e) v = signal-IsServed s s.asleep (close s.sem e) refl v

-- While one goroutine at a time calls `Dec`, no wakeup is lost: after any interleaving of calls,
-- increments, closes and resumptions, a goroutine sleeps only at an open window with nothing left.
pub Reach-IsServed : {s t : Waiting} → IsServed s → Reach s t → IsServed t
Reach-IsServed v here = v
Reach-IsServed v (next r st) = Step-IsServed st (Reach-IsServed v r)

-- `k` resumptions in a row.
abbrev pub resumed : ℕ → Waiting → Waiting
resumed zero s = s
resumed (suc k) s = resumed k (resume s)

-- A window that is closed, with its error.
abbrev pub IsShut : Semaphore → Type 0
IsShut w = (w.closed ≡ true) × (w.err ≢ none)

close-IsShut : (w : Semaphore) (e : Error) → (w.closed ≡ true → w.err ≢ none) → IsShut (close w e)
unfolding close
close-IsShut w e v = ground (arith, v)

-- Somebody is awake while there are sleepers.
abbrev IsMoving : Waiting → Type 0
IsMoving s = s.awake ≡ [] → s.asleep ≡ []

signal-IsShut : (s : Waiting) (l : List ℤ) → IsShut s.sem → IsShut (signal s l).sem
signal-IsShut s [] v = v
signal-IsShut s (n ∷ rest) v = v

signal_moves :
    (s : Waiting) (l : List ℤ)
    → s.asleep ≡ l
    → IsMoving (signal s l)
      × (length (signal s l).asleep + length (signal s l).awake ≡ length l + length s.awake)
signal_moves s [] h = (λ _. h, ap (λ l. length l + length s.awake) h)
signal_moves s (n ∷ rest) h = (
  λ e. absurd (
      let none_left : length (s.awake ++ n ∷ []) ≡ 0 = ap length e in
      omega (arith, none_left, length-append s.awake (n ∷ []))),
  omega (arith, length-append s.awake (n ∷ [])),
)

-- One writer fewer, after each that is woken.
resume_one :
    (s : Waiting) (n : ℤ) (rest : List ℤ)
    → IsShut s.sem
    → let t = resume_from s (n ∷ rest) in
      IsShut t.sem × IsMoving t × (length t.asleep + length t.awake ≡ length s.asleep + length rest)
unfolding dec call_close close
resume_one s n rest (shut, failed) = from s.sem.err refl
  where
    returned : (e : Option Error) → s.sem.err ≡ e → dec s.sem n ≡ returns (pos 0) e s.sem
    returned e h = ground (arith, shut, h)

    from :
        (e : Option Error)
        → s.sem.err ≡ e
        → let t = resume_from s (n ∷ rest) in
          IsShut t.sem
          × IsMoving t
          × (length t.asleep + length t.awake ≡ length s.asleep + length rest)
    from none h = absurd (failed h)
    from (some x) h =
        let left : Waiting = record s { awake = rest; sem = close s.sem (reset_error 6) } in
        let (moves, fewer) = signal_moves left s.asleep refl in
        rw (returned (some x) h) (
          signal-IsShut left s.asleep (close-IsShut s.sem (reset_error 6) (λ _. failed)),
          moves,
          fewer,
        )

-- So many resumptions as there are goroutines, and all have returned.
drained :
    (k : ℕ) (s : Waiting)
    → IsShut s.sem
    → IsMoving s
    → length s.asleep + length s.awake ≤ k
    → let t = resumed k s in (t.asleep ≡ []) × (t.awake ≡ []) × (t.sem.closed ≡ true)
unfolding resume
drained zero s v m h =
    (nil_of_length s.asleep (omega (arith, h)), nil_of_length s.awake (omega (arith, h)), v.0)
drained (suc k) s v m h = from s.awake refl (drained k)
  where
    from :
        (l : List ℤ)
        → s.awake ≡ l
        → ((t : Waiting)
            → IsShut t.sem
            → IsMoving t
            → length t.asleep + length t.awake ≤ k
            → let u = resumed k t in (u.asleep ≡ []) × (u.awake ≡ []) × (u.sem.closed ≡ true))
        → let u = resumed k (resume_from s l) in
          (u.asleep ≡ []) × (u.awake ≡ []) × (u.sem.closed ≡ true)
    from [] e ih = ih s v m (omega (arith, h, ap length (m e), ap length e))
    from (n ∷ rest) e ih =
        let (shut, moves, fewer) = resume_one s n rest v in
        ih (resume_from s (n ∷ rest)) shut moves (omega (arith, h, fewer, ap length e))

-- However many goroutines are asleep in `Dec`, in calls of writeData, at a window that has its error if
-- it is closed: once the window is closed, resumptions of woken goroutines, as many as there are
-- goroutines, bring all of them back, since each that returns closes the window again and so wakes
-- another.
pub close_wakes :
    (s : Waiting) (e : Error)
    → (s.sem.closed ≡ true → s.sem.err ≢ none)
    → let t = resumed (length s.asleep + length s.awake) (call_close s e) in
      (t.asleep ≡ []) × (t.awake ≡ []) × (t.sem.closed ≡ true)
unfolding call_close
close_wakes s e v =
    let left : Waiting = record s { sem = close s.sem e } in
    let (moves, fewer) = signal_moves left s.asleep refl in
    drained (length s.asleep + length s.awake) (signal left s.asleep)
      (signal-IsShut left s.asleep (close-IsShut s.sem e v)) moves (omega (arith, fewer))
