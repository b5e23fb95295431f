-- ===== src/Pipe.antt =====
-- spdyframing/pipe.go: a buffer whose reader waits for data or for the end. A method holds the lock
-- but for `c.Wait()`, so it is one step; a read that has to wait is `none`. Pipe/Wakeup adds the
-- goroutines that sleep in it, and `c.Signal()`.
pub mod Laws
pub mod Wakeup
use spdy.Base.{ℕ, Bytes, Bool, not, ◌&&◌, Option, none, some, ◌==◌, if◌then◌else◌}
use spdy.Errors.{Error}
use spdy.Buffer
use spdy.Buffer.{Buffer}

-- The condition of the waiting loop.
abbrev pub is_blocked : Buffer → Bool
is_blocked b = (Buffer.len b == 0) && not b.closed

unfoldable pub read : Buffer → ℕ → Option ((Bytes × Option Error) × Buffer)
read b p = if is_blocked b then none else some (Buffer.read b p)

unfoldable pub write : Buffer → Bytes → (ℕ × Option Error) × Buffer
write b p = Buffer.write b p

unfoldable pub close : Buffer → Error → Buffer
close b e = Buffer.close b e
