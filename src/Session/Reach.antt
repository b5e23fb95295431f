-- ===== src/Session/Reach.antt =====
-- A session of spdyframing/session.go under any interleaving of its goroutines. A method is one step:
-- the source's locks hold for parts of it, and its unlocked accesses are not interleaved here.
use spdy.Base.{
  ℕ, ◌+◌, ◌^◌, ◌<◌, ◌≡◌, refl, subst, Bool, true, false, Bytes, Option, some, List, ◌∷◌, ◌++◌,
  arith,
}
use spdy.Errors.{Error}
use spdy.Stdlib.{Stdlib}
use spdy.Wire.{Result, ok, err}
use spdy.Header.{Header}
use spdy.Frame.{Frame}
use spdy.Framer.{Framer}
use spdy.Session.Table.{lookup}
use spdy.Session.{Session, Task, writes, handles, start, write_frame}
use spdy.Session.Receive.{read_round, take_frame}
use spdy.Session.Calls.{
  sent, open_stream, header, reply, read, reset_stream, write_data, ask_window, close, run_write,
}
use spdy.Session.Inv.{IsValid}
use spdy.Session.Steps.{handle_read-IsValid}
use spdy.Session.End.{tear_down-IsValid}
use spdy.Session.Leaves.{Leaves}
use spdy.Session.CallSteps.{
  open_stream-IsValid, header-IsValid, reply-IsValid, read-IsValid, reset_stream-IsValid,
  close-IsValid, write_data-IsValid, ask_window-IsValid,
}

module _ (std : Stdlib) where
  abbrev S : Type 0
  S = Session std

  abbrev pub run_task : Task → S → S
  run_task (writes f) s = run_write std f s
  run_task (handles p) s = s

  -- One goroutine does one thing: the reading one a round of its loop, a user's a call, with any
  -- arguments and on any stream, and a spawned one its task; `wakes` is writeData that has slept. Ids are not used up.
  pub data Step (s : S) : S → Type 0 where
    reads_frame : s.done ≡ false → Step s (read_round std s).1
    opens :
        (h : Header) (flag : ℕ) → s.next_syn_id + 2 < 2 ^ 32 → Step s (open_stream std h flag s).1
    takes_header : (p : ℕ) (h : Option Header) (t : S) → header std p s ≡ some (h, t) → Step s t
    replies : (p : ℕ) (h : Header) (flag : ℕ) → Step s (reply std p h flag s).1
    reads :
        (p n : ℕ) (out : Bytes × Option Error) (t : S) → read std p n s ≡ some (out, t) → Step s t
    sends :
        (p : ℕ) (bytes : Bytes) (n : ℕ) (e : Option Error) (t : S)
        → write_data std p bytes s ≡ sent n e t
        → Step s t
    wakes :
        (p : ℕ) (bytes : Bytes) (n : ℕ) (e : Option Error) (t : S)
        → ask_window std p bytes s ≡ sent n e t
        → Step s t
    resets : (p status : ℕ) → Step s (reset_stream std p status s).1
    closes : (p : ℕ) → Step s (close std p s).1
    runs :
        (t : Task) (before after : List Task)
        → s.tasks ≡ before ++ t ∷ after
        → Step s (run_task t (record s { tasks = before ++ after }))

  pub data Reach (s : S) : S → Type 0 where
    here : Reach s s
    next : {t u : S} → Reach s t → Step t u → Reach s u

  pub start-IsValid : (fr : Framer std) (server : Bool) → IsValid std (start std fr server)
  unfolding start lookup
  start-IsValid fr true = record {
    parity = refl;
    positive = omega arith;
    used = λ p h. absurd (omega arith);
    held = λ id p e. cc;
    live = λ p h o. absurd (omega arith);
  }
  start-IsValid fr false = record {
    parity = refl;
    positive = omega arith;
    used = λ p h. absurd (omega arith);
    held = λ id p e. cc;
    live = λ p h o. absurd (omega arith);
  }

  take_frame-IsValid :
      (r : Result Frame × Framer std) (s : S) → IsValid std s → IsValid std (take_frame std r s).1
  take_frame-IsValid (ok f, fr) s v = handle_read-IsValid std f (record s { fr = fr }) v
  take_frame-IsValid (err e, fr) s v = tear_down-IsValid std e (record s { fr = fr }) v

  run_task-IsValid : (t : Task) (s : S) → IsValid std s → IsValid std (run_task t s)
  unfolding run_write write_frame
  run_task-IsValid (writes f) s v = v
  run_task-IsValid (handles p) s v = v

  Step-IsValid : {s t : S} → Step s t → IsValid std s → IsValid std t
  unfolding read_round
  Step-IsValid {s} (reads_frame h) v = take_frame-IsValid _ s v
  Step-IsValid {s} (opens h flag few) v = open_stream-IsValid std h flag s few v
  Step-IsValid {s} (takes_header p h t e) v = header-IsValid std p s t h e v
  Step-IsValid {s} (replies p h flag) v = reply-IsValid std p h flag s v
  Step-IsValid {s} (reads p n out t e) v = read-IsValid std p n s t out e v
  Step-IsValid {s} (sends p bytes n x t e) v =
      subst (Leaves std (IsValid std)) e (write_data-IsValid std p bytes s v)
  Step-IsValid {s} (wakes p bytes n x t e) v =
      subst (Leaves std (IsValid std)) e (ask_window-IsValid std p bytes s v)
  Step-IsValid {s} (resets p status) v = reset_stream-IsValid std p status s v
  Step-IsValid {s} (closes p) v = close-IsValid std p s v
  Step-IsValid {s} (runs t before after e) v =
      run_task-IsValid t (record s { tasks = before ++ after }) v

  -- From its start, under any interleaving of the reading goroutine, its users' calls and the tasks it
  -- spawned, and whatever the connection brings, a session's map holds each stream that is not over
  -- under its id and nothing else; its own ids have its own parity and lie below the next one, and
  -- those of the other endpoint do not exceed the last one received.
  pub Reach-IsValid :
      (fr : Framer std) (server : Bool) {t : S} → Reach (start std fr server) t → IsValid std t
  Reach-IsValid fr server here = start-IsValid fr server
  Reach-IsValid fr server (next r st) = Step-IsValid st (Reach-IsValid fr server r)
