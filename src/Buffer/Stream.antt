-- ===== src/Buffer/Stream.antt =====
-- The bytes that pass through a buffer of spdyframing/buffer.go over a sequence of calls.
use spdy.Base.{
  ℕ, ◌≡◌, refl, sym, ap, Bytes, Option, none, some, List, [], ◌∷◌, ◌++◌, length, take, min,
  append_assoc, append-nil, take-append-drop, arith,
}
use spdy.Errors.{Error}
use spdy.Buffer.{Buffer, contents, read, write, close, run, after}
use spdy.Buffer.Fifo
use spdy.Buffer.Fifo.{Fifo, Op, reads, writes, closes, Reply, got, put, shut}
use spdy.Buffer.Inv.{IsValid, read-IsValid, write-IsValid, close-IsValid}
use spdy.Buffer.Refine.{read_refines, write_refines}

-- The bytes that the reads returned, and those that the writes took.
abbrev pub received : List Reply → Bytes
received [] = []
received (got bytes e ∷ rs) = bytes ++ received rs
received (put n e ∷ rs) = received rs
received (shut ∷ rs) = received rs

abbrev pub accepted : List Op → List Reply → Bytes
accepted (writes p ∷ ops) (put n e ∷ rs) = take n p ++ accepted ops rs
accepted (_ ∷ ops) (_ ∷ rs) = accepted ops rs
accepted _ _ = []

read_splits :
    {b : Buffer} (p : ℕ) → IsValid b → (read b p).0.0 ++ contents (read b p).1 ≡ contents b
unfolding Fifo.read
read_splits {b} p v =
    let taken = ap (λ r. r.0.0) (read_refines p v) in
    let left = ap (λ r. r.1.queue) (read_refines p v) in
    rw (taken, left) (take-append-drop (min p (length (contents b))) (contents b))

accept_joins :
    (cap : ℕ) (e : Option Error) (queue p : Bytes)
    → let ((n, _), q) = Fifo.accept cap e queue p in q.queue ≡ queue ++ take n p
unfolding Fifo.accept
accept_joins cap none queue p = refl
accept_joins cap (some e) queue p = sym (append-nil queue)

write_joins :
    {b : Buffer} (p : Bytes)
    → IsValid b
    → contents (write b p).1 ≡ contents b ++ take (write b p).0.0 p
unfolding Fifo.write
write_joins {b} p v =
    let taken = ap (λ r. r.0.0) (write_refines p v) in
    let held = ap (λ r. r.1.queue) (write_refines p v) in
    rw (held, taken) (accept_joins (length b.buf) b.err (contents b) p)

pub contents-close : (b : Buffer) (e : Error) → contents (close b e) ≡ contents b
unfolding close
contents-close b e = ground arith

-- Bytes come out of a valid buffer in the order in which they went in, none lost, repeated or made
-- up: what the reads returned, followed by what is still unread, is what was unread at first,
-- followed by what the writes accepted.
pub received-accepted :
    (ops : List Op) {b : Buffer}
    → IsValid b
    → received (run b ops) ++ contents (after b ops) ≡ contents b ++ accepted ops (run b ops)
unfolding run after
received-accepted [] {b} v = sym (append-nil (contents b))
received-accepted (reads p ∷ ops) {b} v =
    let rest = received-accepted ops (read-IsValid p v) in
    rw (append_assoc, rest, ← append_assoc, read_splits p v)
received-accepted (writes p ∷ ops) {b} v =
    let rest = received-accepted ops (write-IsValid p v) in rw (rest, write_joins p v, append_assoc)
received-accepted (closes e ∷ ops) {b} v =
    let rest = received-accepted ops (close-IsValid e v) in rw (rest, contents-close)
