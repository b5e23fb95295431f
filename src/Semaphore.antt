-- ===== src/Semaphore.antt =====
-- spdyframing/semaphore.go: a counting semaphore over an `int32`, the send window of a stream.
-- The lock is held through each method but for `c.Wait()`, so a method is one step, and `dec` of
-- an empty open semaphore is the step that goes to sleep.
pub mod Bounds
pub mod Window
pub mod Wakeup
use spdy.Base.{Bool, true, false, not, ◌&&◌, ◌||◌, Option, none, some, if◌then◌else◌}
use spdy.Base.Int.{ℤ, pos, add_i32, sub_i32, ltb_ℤ}
use spdy.Errors.{Error, bad_increment}

pub record Semaphore : Type 0 where
  pub n : ℤ
  pub closed : Bool
  pub err : Option Error

-- What `Dec` does when it is called or woken: it waits, or returns a count and an error.
pub data Outcome : Type 0 where
  waits : Outcome
  returns : ℤ → Option Error → Semaphore → Outcome

-- The condition of the waiting loop.
abbrev pub is_blocked : Semaphore → Bool
is_blocked s = ltb_ℤ s.n (pos 1) && not s.closed

unfoldable pub dec : Semaphore → ℤ → Outcome
dec s n =
    if is_blocked s
    then waits
    else if s.closed
    then returns (pos 0) s.err s
    else let m = if ltb_ℤ s.n n then s.n else n in returns m none (record s { n = sub_i32 s.n m })

unfoldable pub inc : Semaphore → ℤ → Option Error × Semaphore
inc s n =
    let total = add_i32 s.n n in
    let wrapped = ltb_ℤ (pos 0) s.n && ltb_ℤ total (pos 0) in
    (if ltb_ℤ n (pos 1) || wrapped then some bad_increment else none, record s { n = total })

unfoldable pub close : Semaphore → Error → Semaphore
close s e = if s.closed then s else record s { closed = true; err = some e }
