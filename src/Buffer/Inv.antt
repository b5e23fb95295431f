-- ===== src/Buffer/Inv.antt =====
-- The representation invariant of the buffer of spdyframing/buffer.go.
use spdy.Base.{
  ℕ, ◌-◌, ◌≤◌, ◌≡◌, refl, ◌⊎◌, inl, Bytes, true, false, none, some, length, copy_at, length-copy_at,
  length-slice, copy_at, arith,
}
use spdy.Errors.{Error}
use spdy.Buffer.{Buffer, fresh, contents, read, slide, make_room, append, write, close}

-- The offsets are in order and in range, and the error is set exactly by a close.
pub record IsValid (b : Buffer) : Type 0 where
  pub ordered : b.r ≤ b.w
  pub in_range : b.w ≤ length b.buf
  pub ended :
      ((b.closed ≡ false) × (b.err ≡ none)) ⊎ ((e : Error) × (b.closed ≡ true) × (b.err ≡ some e))

pub fresh-IsValid : (size : ℕ) → IsValid (fresh size)
fresh-IsValid size = record {
  ordered = omega arith;
  in_range = omega arith;
  ended = inl (refl, refl);
}

pub length-contents : {b : Buffer} → IsValid b → length (contents b) ≡ b.w - b.r
length-contents {b} v = length-slice b.buf b.r b.w v.ordered v.in_range

pub read-IsValid : {b : Buffer} (p : ℕ) → IsValid b → IsValid (read b p).1
unfolding read
read-IsValid p v = record {
  ordered = omega (arith, length-contents v);
  in_range = v.in_range;
  ended = v.ended;
}

slide-IsValid : {b : Buffer} → IsValid b → IsValid (slide b)
unfolding slide
slide-IsValid {b} v = record {
  ordered = omega arith;
  in_range = omega (arith, length-copy_at b.buf 0 (contents b), v.in_range);
  ended = v.ended;
}

append-IsValid : {b : Buffer} (p : Bytes) → IsValid b → IsValid (append b p).1
unfolding append
append-IsValid {b} p v = record {
  ordered = omega (arith, v.ordered);
  in_range = omega (arith, length-copy_at b.buf b.w p, v.in_range);
  ended = v.ended;
}

pub make_room-IsValid : {b : Buffer} (p : Bytes) → IsValid b → IsValid (make_room b p)
unfolding make_room
make_room-IsValid {b} p v = ground (arith, slide-IsValid v)

-- A write keeps the offsets in order and in range, sliding or not, and the error as it was.
pub write-IsValid : {b : Buffer} (p : Bytes) → IsValid b → IsValid (write b p).1
unfolding write
write-IsValid {b} p v = ground (arith, append-IsValid p (make_room-IsValid p v))

pub close-IsValid : {b : Buffer} (e : Error) → IsValid b → IsValid (close b e)
unfolding close
close-IsValid {b} e v = ground (arith, v.ended)

-- The array is never reallocated.
pub length-write : (b : Buffer) (p : Bytes) → length (write b p).1.buf ≡ length b.buf
unfolding write make_room slide append
length-write b p = ground (
  arith,
  length-copy_at b.buf 0 (contents b),
  length-copy_at b.buf b.w p,
  length-copy_at (copy_at b.buf 0 (contents b)) (b.w - b.r) p,
)

pub length-read : (b : Buffer) (p : ℕ) → length (read b p).1.buf ≡ length b.buf
unfolding read
length-read b p = refl

pub length-close : (b : Buffer) (e : Error) → length (close b e).buf ≡ length b.buf
unfolding close
length-close b e = ground arith
