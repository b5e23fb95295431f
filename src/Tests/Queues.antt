-- ===== src/Tests/Queues.antt =====
-- Runs of the buffer and the pipe of spdyframing/buffer.go and spdyframing/pipe.go.
use spdy.Base.{◌≡◌, refl, List, [], ◌∷◌, ◌++◌, length, false, none, some, inl, true, arith}
use spdy.Errors.{write_full, buffer_closed, eof}
use spdy.Buffer
use spdy.Buffer.{Buffer, fresh, contents, run, after, write}
use spdy.Buffer.Fifo
use spdy.Buffer.Fifo.{Op, reads, writes, closes, got, put, shut}
use spdy.Buffer.Inv.{IsValid, write-IsValid}
use spdy.Buffer.Refine.{view, run_refines}
use spdy.Buffer.Stream.{received, accepted, received-accepted}
use spdy.Pipe
use spdy.Pipe.Laws.{Read, read_lem}
use spdy.Pipe.Wakeup
use spdy.Pipe.Wakeup.{
  Readers, IsAttended, Reach, here, next, reads_again, call_read, read_again, call_write,
  close_pipe, reads_on, Reach-IsAttended, close_pipe_strands,
}

-- Four bytes of room, with two unread bytes at the end of the array.
abbrev half_read : Buffer
half_read = record { buf = 1 ∷ 2 ∷ 3 ∷ 4 ∷ []; r = 2; w = 4; closed = false; err = none }

half_read-IsValid : IsValid half_read
half_read-IsValid = record {
  ordered = omega arith;
  in_range = omega arith;
  ended = inl (refl, refl);
}

-- The write slides, the next is cut short, and the reads drain the buffer after the close.
abbrev calls : List Op
calls =
    writes (5 ∷ [])
    ∷ writes (6 ∷ 7 ∷ [])
    ∷ reads 3
    ∷ closes eof
    ∷ writes (8 ∷ [])
    ∷ reads 3
    ∷ reads 3
    ∷ []

calls_test : run half_read calls ≡ (
    put 1 none
    ∷ put 1 (some write_full)
    ∷ got (3 ∷ 4 ∷ 5 ∷ []) none
    ∷ shut
    ∷ put 0 (some buffer_closed)
    ∷ got (6 ∷ []) (some eof)
    ∷ got [] (some eof)
    ∷ [])
unfolding run Buffer.read Buffer.write Buffer.make_room Buffer.slide Buffer.append Buffer.close
calls_test = refl

run_refines_example : run half_read calls ≡ Fifo.run (length half_read.buf) (view half_read) calls
run_refines_example = run_refines calls {b = half_read} half_read-IsValid

received-accepted_example :
    received (run half_read calls) ++ contents (after half_read calls)
    ≡ contents half_read ++ accepted calls (run half_read calls)
received-accepted_example = received-accepted calls {b = half_read} half_read-IsValid

write-IsValid_example : IsValid (write half_read (5 ∷ [])).1
write-IsValid_example = write-IsValid {b = half_read} (5 ∷ []) half_read-IsValid

read_lem_example : Read half_read 1 (Pipe.read half_read 1)
read_lem_example = read_lem {b = half_read} 1 half_read-IsValid

abbrev idle : Readers
idle = record { buf = fresh 4; asleep = []; awake = [] }

idle-IsAttended : IsAttended idle
idle-IsAttended = record { single = omega arith; rightly = inl refl }

-- A reader waits, bytes arrive, and it returns with some of them.
attended : Reach idle (read_again (call_write (call_read idle 2) (7 ∷ 8 ∷ 9 ∷ [])))
attended =
    next (next (next here (Wakeup.reads 2 refl refl)) (Wakeup.writes (7 ∷ 8 ∷ 9 ∷ []))) reads_again

Reach-IsAttended_example : IsAttended (read_again (call_write (call_read idle 2) (7 ∷ 8 ∷ 9 ∷ [])))
Reach-IsAttended_example =
    Reach-IsAttended {s = idle} {t = read_again (call_write (call_read idle 2) (7 ∷ 8 ∷ 9 ∷ []))}
      idle-IsAttended attended

abbrev two_readers : Readers
two_readers = record { buf = fresh 4; asleep = 2 ∷ 3 ∷ []; awake = [] }

close_pipe_strands_example :
    ((close_pipe two_readers eof).buf.closed ≡ true)
    × ((reads_on 2 (close_pipe two_readers eof)).asleep ≡ 3 ∷ [])
close_pipe_strands_example = close_pipe_strands two_readers 2 (3 ∷ []) eof 2 refl
