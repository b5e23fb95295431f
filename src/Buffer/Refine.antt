-- ===== src/Buffer/Refine.antt =====
-- A valid buffer of spdyframing/buffer.go behaves as the queue of its unread bytes.
use spdy.Base.{
  ℕ, ◌+◌, ◌-◌, ◌≤◌, ◌≡◌, refl, ap, ◌∙◌, ◌⊎◌, inl, inr, Bytes, true, none, some, List, [], ◌∷◌, ◌++◌,
  ltb, ◌==◌, ◌&&◌, if◌then◌else◌, length, take, drop, slice, copy_at, min, drop-slice,
  slice-copy_at, length-copy_at, length-drop, take_all, Bool-cases, arith,
}
use spdy.Errors.{Error, read_empty}
use spdy.Buffer.{Buffer, contents, read, slide, make_room, append, write, close, run}
use spdy.Buffer.Fifo
use spdy.Buffer.Fifo.{Fifo, Op, reads, writes, closes, read_status}
use spdy.Buffer.Inv.{
  IsValid, length-contents, make_room-IsValid, read-IsValid, write-IsValid, close-IsValid,
  length-write, length-read, length-close,
}

abbrev pub view : Buffer → Fifo
view b = record { queue = contents b; ended = b.err }

contents-slide : {b : Buffer} → IsValid b → contents (slide b) ≡ contents b
unfolding slide
contents-slide {b} v =
    let e : b.w - b.r ≡ 0 + (b.w - b.r) = omega arith in
    ap (λ k. take (k - 0) (copy_at b.buf 0 (contents b))) e
    ∙ slice-copy_at b.buf (contents b) 0 0 (b.w - b.r) (omega arith) (omega arith)
        (omega (arith, length-contents v))
    ∙ take_all (b.w - b.r) (contents b) (omega (arith, length-contents v))

read_status_eq :
    {b : Buffer} (n : ℕ)
    → IsValid b
    → n ≤ b.w - b.r
    → (if b.closed && (b.r + n == b.w)
        then b.err
        else if (b.r + n == b.w) && (n == 0)
        then some read_empty
        else none)
      ≡ read_status b.err (b.w - b.r - n) n
read_status_eq {b} n v h = ground (arith, v.ended)

-- A read takes the oldest bytes, as many as there are and fit, and reports what the queue does.
pub read_refines :
    {b : Buffer} (p : ℕ)
    → IsValid b
    → let (out, b') = read b p in (out, view b') ≡ Fifo.read (view b) p
unfolding read Fifo.read
read_refines {b} p v =
    let n : ℕ = min p (length (contents b)) in
    let left : length (drop n (contents b)) ≡ b.w - b.r - n =
      omega (arith, length-drop n (contents b), length-contents v) in
    rw (read_status_eq n v (omega (arith, length-contents v)), left, drop-slice b.buf b.r b.w n)

-- `append` takes what the queue takes, if the data fits behind `w` or all the room is there.
append_refines :
    {b : Buffer} (p : Bytes)
    → IsValid b
    → b.err ≡ none
    → (length p ≤ length b.buf - b.w) ⊎ (b.r ≡ 0)
    → let (out, b') = append b p in (out, view b') ≡ Fifo.write (length b.buf) (view b) p
unfolding append Fifo.write
append_refines {b} p v o fits =
    let n : ℕ = min (length b.buf - b.w) (length p) in
    let room : n ≡ min (length b.buf - length (contents b)) (length p) =
      omega (arith, length-contents v, v.ordered, v.in_range) in
    let moved : slice (copy_at b.buf b.w p) b.r (b.w + n) ≡ contents b ++ take n p =
      slice-copy_at b.buf p b.r b.w n v.ordered (omega (arith, v.in_range)) (omega arith) in
    ground (arith, o, room, moved)

-- Making room moves the unread bytes at most, and leaves room for `p` or all the room there is.
record HasRoom (b : Buffer) (p : Bytes) (c : Buffer) : Type 0 where
  fits : (length p ≤ length c.buf - c.w) ⊎ (c.r ≡ 0)
  size : length c.buf ≡ length b.buf
  kept : contents c ≡ contents b
  same_err : c.err ≡ b.err

make_room-HasRoom : {b : Buffer} (p : Bytes) → IsValid b → HasRoom b p (make_room b p)
unfolding make_room
make_room-HasRoom {b} p v = elim (Bool-cases (ltb 0 b.r && ltb (length b.buf - b.w) (length p))) [
  | inl slides ↦ rw slides (slid slides)
  | inr stays ↦ rw stays (record { fits = ground arith; size = refl; kept = refl; same_err = refl })
]
  where
    slid : (ltb 0 b.r && ltb (length b.buf - b.w) (length p)) ≡ true → HasRoom b p (slide b)
    slid h =
        unfold slide in
        record {
          fits = inr refl;
          size = length-copy_at b.buf 0 (contents b);
          kept = contents-slide v;
          same_err = refl;
        }

-- A write takes as many bytes as the queue has room for, wherever the data lies in the array, and
-- a closed buffer takes none.
pub write_refines :
    {b : Buffer} (p : Bytes)
    → IsValid b
    → let (out, b') = write b p in (out, view b') ≡ Fifo.write (length b.buf) (view b) p
unfolding write Fifo.write
write_refines {b} p v =
    let c : Buffer = make_room b p in
    let room : HasRoom b p c = make_room-HasRoom p v in
    ground (arith, v.ended, room, append_refines {b = c} p (make_room-IsValid p v))

pub close_refines : {b : Buffer} (e : Error) → IsValid b → view (close b e) ≡ Fifo.close (view b) e
unfolding close Fifo.close
close_refines {b} e v = ground (arith, v.ended)

-- No sequence of reads, writes and closes tells a valid buffer from the bounded queue of its
-- unread bytes.
pub run_refines :
    (ops : List Op) {b : Buffer} → IsValid b → run b ops ≡ Fifo.run (length b.buf) (view b) ops
unfolding run Fifo.run
run_refines [] v = refl
run_refines (reads p ∷ ops) {b} v =
    rw (run_refines ops (read-IsValid p v), ← read_refines p v, length-read)
run_refines (writes p ∷ ops) {b} v =
    rw (run_refines ops (write-IsValid p v), ← write_refines p v, length-write)
run_refines (closes e ∷ ops) {b} v =
    rw (run_refines ops (close-IsValid e v), ← close_refines e v, length-close)
