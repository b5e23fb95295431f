-- ===== src/Semaphore/Window.antt =====
-- The send window of spdyframing/semaphore.go over a history of calls.
use spdy.Base.{ℕ, ◌+◌, ◌^◌, ◌<◌, ◌≡◌, refl, none, arith}
use spdy.Base.Int.{pos, ◌+ℤ◌, +ℤ_zero, +ℤ_spend, +ℤ_earn}
use spdy.Errors.{Error}
use spdy.Semaphore.{Semaphore, Outcome, returns, dec, inc, close}
use spdy.Semaphore.Bounds.{IsWindow, Served, empty, refused, granted, dec_lem, inc-IsWindow}

-- A history of one window: how much `Dec` granted and how much `Inc` added on the way.
pub data History (s : Semaphore) : Semaphore → ℕ → ℕ → Type 0 where
  start : History s s 0 0
  decs :
      {t : Semaphore} {g a : ℕ} (n m : ℕ) (u : Semaphore)
      → History s t g a
      → 0 < n
      → n < 2 ^ 31
      → dec t (pos n) ≡ returns (pos m) none u
      → History s u (g + m) a
  incs :
      {t : Semaphore} {g a : ℕ} (n : ℕ)
      → History s t g a
      → n < 2 ^ 31
      → (inc t (pos n)).0 ≡ none
      → History s (inc t (pos n)).1 g (a + n)
  closes : {t : Semaphore} {g a : ℕ} (e : Error) → History s t g a → History s (close t e) g a

grant_takes :
    {s : Semaphore} {n : ℕ} {o : Outcome} (m : ℕ) (u : Semaphore)
    → Served s n o
    → IsWindow s
    → o ≡ returns (pos m) none u
    → (u.n +ℤ pos m ≡ s.n) × IsWindow u
grant_takes m u (empty z c) v e = cc
grant_takes {s} m u (refused c) v e =
    let same : u ≡ s = cc in
    let nothing : m ≡ 0 = ground arith in rw (same, nothing) (+ℤ_zero s.n, v)
grant_takes m u (granted k t lo hi all sum w c) v e =
    let same : u ≡ t = cc in let as_much : m ≡ k = ground arith in rw (same, as_much) (sum, w)

n-close : (s : Semaphore) (e : Error) → (close s e).n ≡ s.n
unfolding close
n-close s e = ground arith

-- However `Dec` of a positive count below 2³¹, successful `Inc` and `Close` follow one another, what is
-- left of the window and what was granted make up the initial window and all that was added; and the
-- window stays between 0 and the largest int32, so that never more is granted than the peer has allowed.
pub grants_balance :
    {s t : Semaphore} {g a : ℕ}
    → IsWindow s
    → History s t g a
    → (t.n +ℤ pos g ≡ s.n +ℤ pos a) × IsWindow t
grants_balance v start = (refl, v)
grants_balance {s} v (decs {t} {g} {a} n m u h lo hi e) =
    let (balance, w) = grants_balance v h in
    let (taken, w') = grant_takes m u (dec_lem t n w lo hi) w e in
    (+ℤ_spend s.n t.n u.n g m a taken balance, w')
grants_balance {s} v (incs {t} {g} {a} n h hi ok) =
    let (balance, w) = grants_balance v h in
    let (added, w') = inc-IsWindow t (pos n) w hi ok in
    (+ℤ_earn s.n t.n (inc t (pos n)).1.n g n a added balance, w')
grants_balance v (closes {t = t} e h) = rw (n-close t e) (grants_balance v h)
