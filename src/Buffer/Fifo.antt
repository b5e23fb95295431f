-- ===== src/Buffer/Fifo.antt =====
-- What a buffer promises: a bounded first-in first-out queue of bytes that can be closed.
use spdy.Base.{
  ℕ, ◌-◌, Bytes, Option, none, some, ltb, ◌==◌, ◌&&◌, if◌then◌else◌, length, take, drop, ◌++◌, min,
  List, [], ◌∷◌,
}
use spdy.Errors.{Error, read_empty, write_full, buffer_closed}

-- The calls and what a client sees of each.
pub data Op : Type 0 where
  reads : ℕ → Op
  writes : Bytes → Op
  closes : Error → Op

pub data Reply : Type 0 where
  got : Bytes → Option Error → Reply
  put : ℕ → Option Error → Reply
  shut : Reply

-- `ended` is the error that the closer gave.
pub record Fifo : Type 0 where
  pub queue : Bytes
  pub ended : Option Error

-- Whether a read of `p` bytes that took `n` and left `left` bytes reports an error.
abbrev pub read_status : Option Error → ℕ → ℕ → Option Error
read_status (some e) left n = if left == 0 then some e else none
read_status none left n = if left == 0 && n == 0 then some read_empty else none

unfoldable pub read : Fifo → ℕ → (Bytes × Option Error) × Fifo
read q p =
    let n = min p (length q.queue) in
    let rest = drop n q.queue in
    ((take n q.queue, read_status q.ended (length rest) n), record q { queue = rest })

module _ (cap : ℕ) where
  unfoldable pub accept : Option Error → Bytes → Bytes → (ℕ × Option Error) × Fifo
  accept (some e) queue p = ((0, some buffer_closed), record { queue = queue; ended = some e })
  accept none queue p =
      let n = min (cap - length queue) (length p) in
      (
        (n, if ltb n (length p) then some write_full else none),
        record { queue = queue ++ take n p; ended = none },
      )

  unfoldable pub write : Fifo → Bytes → (ℕ × Option Error) × Fifo
  unfolding accept
  write q p = accept q.ended q.queue p

unfoldable pub close : Fifo → Error → Fifo
close q e = record q { ended = elim q.ended [ none ↦ some e | some d ↦ some d ] }

unfoldable pub run : ℕ → Fifo → List Op → List Reply
run cap q [] = []
run cap q (reads p ∷ ops) = let ((bytes, e), q') = read q p in got bytes e ∷ run cap q' ops
run cap q (writes p ∷ ops) = let ((n, e), q') = write cap q p in put n e ∷ run cap q' ops
run cap q (closes e ∷ ops) = shut ∷ run cap (close q e) ops
