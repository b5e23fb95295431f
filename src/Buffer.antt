-- ===== src/Buffer.antt =====
-- spdyframing/buffer.go: a queue of bytes in a fixed array, sliding its data to the front when
-- the space behind it runs short. A method returns its results and the new buffer.
pub mod Fifo
pub mod Inv
pub mod Refine
pub mod Stream
use spdy.Base.{
  ℕ, ◌+◌, ◌-◌, Bytes, Bool, true, false, ◌&&◌, Option, none, some, ltb, ◌==◌, if◌then◌else◌, length,
  take, drop, slice, copy_at, min, replicate, List, [], ◌∷◌,
}
use spdy.Errors.{Error, read_empty, write_full, buffer_closed}
use Fifo.{Op, reads, writes, closes, Reply, got, put, shut}

-- `err` is nil in an open buffer.
pub record Buffer : Type 0 where
  pub buf : Bytes
  pub r : ℕ
  pub w : ℕ
  pub closed : Bool
  pub err : Option Error

-- A buffer over `make([]byte, size)`.
abbrev pub fresh : ℕ → Buffer
fresh size = record { buf = replicate size 0; r = 0; w = 0; closed = false; err = none }

-- The unread bytes, `b.buf[b.r:b.w]`.
abbrev pub contents : Buffer → Bytes
contents b = slice b.buf b.r b.w

-- Of the destination `p` only the length matters; the bytes copied into it are the result.
unfoldable pub read : Buffer → ℕ → (Bytes × Option Error) × Buffer
read b p =
    let n = min p (length (contents b)) in
    let b' : Buffer = record b { r = b.r + n } in ((take n (contents b), read_error b' n), b')
  where
    read_error : Buffer → ℕ → Option Error
    read_error c n =
        if c.closed && (c.r == c.w)
        then c.err
        else if (c.r == c.w) && (n == 0)
        then some read_empty
        else none

unfoldable pub len : Buffer → ℕ
len b = b.w - b.r

-- Slide existing data to the beginning.
unfoldable pub slide : Buffer → Buffer
slide b = record b { buf = copy_at b.buf 0 (contents b); r = 0; w = b.w - b.r }

unfoldable pub make_room : Buffer → Bytes → Buffer
make_room b p = if ltb 0 b.r && ltb (length b.buf - b.w) (length p) then slide b else b

-- Write new data behind the old.
unfoldable pub append : Buffer → Bytes → (ℕ × Option Error) × Buffer
append b p =
    let n = min (length b.buf - b.w) (length p) in
    (
      (n, if ltb n (length p) then some write_full else none),
      record b { buf = copy_at b.buf b.w p; w = b.w + n },
    )

unfoldable pub write : Buffer → Bytes → (ℕ × Option Error) × Buffer
write b p = if b.closed then ((0, some buffer_closed), b) else append (make_room b p) p

unfoldable pub close : Buffer → Error → Buffer
close b e = if b.closed then b else record b { closed = true; err = some e }

-- A client's calls in order, with what each returns.
unfoldable pub run : Buffer → List Op → List Reply
run b [] = []
run b (reads p ∷ ops) = let ((bytes, e), b') = read b p in got bytes e ∷ run b' ops
run b (writes p ∷ ops) = let ((n, e), b') = write b p in put n e ∷ run b' ops
run b (closes e ∷ ops) = shut ∷ run (close b e) ops

-- The buffer after those calls.
unfoldable pub after : Buffer → List Op → Buffer
after b [] = b
after b (reads p ∷ ops) = after (read b p).1 ops
after b (writes p ∷ ops) = after (write b p).1 ops
after b (closes e ∷ ops) = after (close b e) ops
