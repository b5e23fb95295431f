-- ===== src/Semaphore/Bounds.antt =====
-- What the operations of spdyframing/semaphore.go do to the count.
use spdy.Base.{
  ltb, ℕ, zero, suc, ◌+◌, ◌-◌, ◌^◌, ◌≤◌, ◌<◌, ◌≡◌, refl, ◌↔◌, ◌⊎◌, inl, inr, Bool, true, false,
  ◌&&◌, Option, none, arith, Bool-cases,
}
use spdy.Base.Int.{+ℤ_parts, ℤ, pos, negsuc, add_i32, sub_i32, ◌+ℤ◌, ◌-ℤ◌, ◌≤ℤ◌, ltb_ℤ, IsI32}
use spdy.Errors.{Error}
use spdy.Semaphore.{Semaphore, Outcome, waits, returns, dec, inc}

-- The largest window.
abbrev pub max_i32 : ℤ
max_i32 = pos (2 ^ 31 - 1)

-- An `int32` sum that fits is the true sum; a positive sum that does not fit turns negative.
add_i32-eq : (a b : ℤ) → IsI32 a → IsI32 b → pos 1 ≤ℤ b → a +ℤ b ≤ℤ max_i32 → add_i32 a b ≡ a +ℤ b
unfolding add_i32 ◌+ℤ◌
add_i32-eq (pos a) (pos b) ha hb h k = ground arith
add_i32-eq (negsuc a) (pos b) ha hb h k = ground arith
add_i32-eq a (negsuc b) ha hb h k = absurd (omega arith)

add_i32_wraps :
    (a b : ℤ)
    → IsI32 a
    → IsI32 b
    → pos 1 ≤ℤ b
    → ((ltb_ℤ (pos 0) a && ltb_ℤ (add_i32 a b) (pos 0)) ≡ false) ↔ (a +ℤ b ≤ℤ max_i32)
unfolding add_i32 ◌+ℤ◌
add_i32_wraps (pos a) (pos b) ha hb h = (λ e. ground arith, λ e. ground arith)
add_i32_wraps (negsuc a) (pos b) ha hb h = (λ e. ground arith, λ e. ground arith)
add_i32_wraps a (negsuc b) ha hb h = absurd (omega arith)

-- `Inc` succeeds exactly when the increment is positive and the true sum fits an `int32`, and then
-- adds it; the test of the signs misses no overflow.
pub inc_lem :
    (s : Semaphore) (n : ℤ)
    → IsI32 s.n
    → IsI32 n
    → ((inc s n).0 ≡ none) ↔ ((pos 1 ≤ℤ n) × (s.n +ℤ n ≤ℤ max_i32))
unfolding inc
inc_lem s n hs hn =
    let wraps = add_i32_wraps s.n n hs hn in
    (λ e. ground (arith, wraps), λ e. ground (arith, wraps))

-- A window in good order: not negative, and within an `int32`.
abbrev pub IsWindow : Semaphore → Type 0
IsWindow s = (pos 0 ≤ℤ s.n) × (s.n ≤ℤ max_i32)

window-IsI32 : (a : ℤ) → (pos 0 ≤ℤ a) × (a ≤ℤ max_i32) → IsI32 a
window-IsI32 (pos a) v = omega arith
window-IsI32 (negsuc a) v = absurd (omega arith)

-- A successful `Inc` adds exactly its argument to a window and keeps it one.
pub inc-IsWindow :
    (s : Semaphore) (n : ℤ)
    → IsWindow s
    → IsI32 n
    → (inc s n).0 ≡ none
    → ((inc s n).1.n ≡ s.n +ℤ n) × IsWindow (inc s n).1
unfolding inc
inc-IsWindow s n v hn ok =
    let fits = (inc_lem s n (window-IsI32 s.n v) hn).0 ok in
    let sum : (inc s n).1.n ≡ s.n +ℤ n = add_i32-eq s.n n (window-IsI32 s.n v) hn fits.0 fits.1 in
    (sum, rw sum (omega (arith, +ℤ_parts s.n n, fits)))

-- What `Dec` may do, called on a window with a positive count.
pub data Served (s : Semaphore) (n : ℕ) : Outcome → Type 0 where
  empty : s.n ≡ pos 0 → s.closed ≡ false → Served s n waits
  refused : s.closed ≡ true → Served s n (returns (pos 0) s.err s)
  granted :
      (m : ℕ) (t : Semaphore)
      → 0 < m
      → m ≤ n
      → (m ≡ n) ⊎ (s.n ≡ pos m)
      → t.n +ℤ pos m ≡ s.n
      → IsWindow t
      → t.closed ≡ false
      → Served s n (returns (pos m) none t)

sub_i32-eq : (w m : ℕ) → m ≤ w → w < 2 ^ 31 → sub_i32 (pos w) (pos m) ≡ pos (w - m)
unfolding sub_i32 ◌-ℤ◌
sub_i32-eq w m h k = ground arith

sub-add : (w m : ℕ) → m ≤ w → pos (w - m) +ℤ pos m ≡ pos w
unfolding ◌+ℤ◌
sub-add w m h = ground arith

dec_at :
    (a : ℤ) (c : Bool) (e : Option Error) (n : ℕ)
    → let s : Semaphore = record { n = a; closed = c; err = e } in
      IsWindow s → 0 < n → n < 2 ^ 31 → Served s n (dec s (pos n))
unfolding dec
dec_at (negsuc a) c e n v h k = absurd (omega arith)
dec_at (pos zero) false e n v h k = empty refl refl
dec_at (pos zero) true e n v h k = refused refl
dec_at (pos (suc a)) true e n v h k =
    let some_left : ltb (suc a + 0) 1 ≡ false = ground arith in rw some_left (refused refl)
dec_at (pos (suc a)) false e n v h k =
    let some_left : ltb (suc a + 0) 1 ≡ false = ground arith in
    elim (Bool-cases (ltb (suc a + 0) (n + 0))) [
      | inl less ↦
          rw (some_left, less)
            (granted (suc a) _ (omega arith) (ground arith) (inr refl)
              (taken (suc a) (omega arith)).0 (taken (suc a) (omega arith)).1 refl)
      | inr enough ↦
          rw (some_left, enough)
            (granted n _ h (omega arith) (inl refl) (taken n (ground arith)).0
              (taken n (ground arith)).1 refl)
    ]
  where
    taken :
        (m : ℕ)
        → m ≤ suc a
        → let t : Semaphore = record {
          n = sub_i32 (pos (suc a)) (pos m);
          closed = false;
          err = e;
        } in
          (t.n +ℤ pos m ≡ pos (suc a)) × IsWindow t
    taken m le =
        rw (sub_i32-eq (suc a) m le (omega arith), sub-add (suc a) m le) (refl, omega arith)

-- `Dec` of a positive count from a window waits only if the window is open and empty; a closed one
-- returns the error that closed it; otherwise it takes at least one and at most `n`, never more than
-- there is, and all that was asked for or all that there was.
pub dec_lem : (s : Semaphore) (n : ℕ) → IsWindow s → 0 < n → n < 2 ^ 31 → Served s n (dec s (pos n))
dec_lem s n v h k = dec_at s.n s.closed s.err n v h k
