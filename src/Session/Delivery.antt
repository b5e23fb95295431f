-- ===== src/Session/Delivery.antt =====
-- DATA frames in spdyframing/session.go: from the connection to the stream's pipe.
use spdy.Base.{
  ℕ, ◌-◌, ◌≤◌, ◌<◌, ◌≡◌, ◌⊎◌, refl, sym, ap, ◌∙◌, Bool, true, false, Bytes, Option, none, some,
  ◌++◌, length, arith, Bool-cases, inl, inr, ltb, leb, take, take_all, min,
}
use spdy.Errors.{Error, eof, flow_control, write_full}
use spdy.Stdlib.{Stdlib}
use spdy.Buffer.{Buffer, contents}
use spdy.Buffer.Fifo
use spdy.Buffer.Inv.{IsValid}
use spdy.Buffer.Refine.{write_refines}
use spdy.Buffer.Stream.{contents-close}
use spdy.Pipe
use spdy.Semaphore
use spdy.Frame.{DataFrame}
use spdy.Framer.Write
use spdy.Session.{
  Session, Stream, modify, maybe_remove, rclose, reset, write_frame, get, rst_frame,
  flow_control_error, has_flag, data_flag_fin, shut_read,
}
use spdy.Session.Receive.{deliver, receive_data, handle_data}
use spdy.Session.Inv.{put_self}
use spdy.Session.End.{heap-maybe_remove, wnd-closed}

-- The room that a pipe has left, and a pipe that is in order and open.
abbrev pub room : Buffer → ℕ
room b = length b.buf - length (contents b)

abbrev pub IsOpen : Buffer → Type 0
IsOpen b = IsValid b × (b.closed ≡ false)

open_err : (b : Buffer) → IsOpen b → b.err ≡ none
open_err b (v, o) = elim v.ended [
  | inl (still, e) ↦ e
  | inr (x, shut, e) ↦ absurd (let bad : true ≡ false = sym shut ∙ o in cc)
]

-- What the queue does with data that it has room for, and with more.
queue_takes :
    (cap : ℕ) (e : Option Error) (queue p : Bytes)
    → e ≡ none
    → length p ≤ cap - length queue
    → ((Fifo.accept cap e queue p).0.1 ≡ none) × ((Fifo.accept cap e queue p).1.queue ≡ queue ++ p)
unfolding Fifo.accept
queue_takes cap (some x) queue p h k = absurd (cc h)
queue_takes cap none queue p h k =
    let n : min (cap - length queue) (length p) ≡ length p = omega arith in
    let all : take (length p) p ≡ p = take_all (length p) p (omega arith) in
    let whole : ltb (length p) (length p) ≡ false = ground arith in rw (n, all, whole) (refl, refl)

queue_overflows :
    (cap : ℕ) (e : Option Error) (queue p : Bytes)
    → e ≡ none
    → cap - length queue < length p
    → (Fifo.accept cap e queue p).0.1 ≡ some write_full
unfolding Fifo.accept
queue_overflows cap (some x) queue p h k = absurd (cc h)
queue_overflows cap none queue p h k =
    let n : min (cap - length queue) (length p) ≡ cap - length queue = omega arith in
    let short : ltb (cap - length queue) (length p) ≡ true = ground arith in rw (n, short) refl

pub pipe_takes :
    (b : Buffer) (p : Bytes)
    → IsOpen b
    → length p ≤ room b
    → ((Pipe.write b p).0.1 ≡ none) × (contents (Pipe.write b p).1 ≡ contents b ++ p)
unfolding Pipe.write Fifo.write
pipe_takes b p o h =
    let (status, queue) = queue_takes (length b.buf) b.err (contents b) p (open_err b o) h in
    (
      ap (λ r. r.0.1) (write_refines p o.0) ∙ status,
      ap (λ r. r.1.queue) (write_refines p o.0) ∙ queue,
    )

pipe_overflows :
    (b : Buffer) (p : Bytes) → IsOpen b → room b < length p → (Pipe.write b p).0.1 ≡ some write_full
unfolding Pipe.write Fifo.write
pipe_overflows b p o h =
    ap (λ r. r.0.1) (write_refines p o.0)
    ∙ queue_overflows (length b.buf) b.err (contents b) p (open_err b o) h

module _ (std : Stdlib) where
  abbrev S : Type 0
  S = Session std

  -- The stream at `p` once it is closed for reading.
  pub heap-rclose : (p : ℕ) (e : Error) (s : S) → (rclose std p e s).heap p ≡ shut_read e (s.heap p)
  unfolding rclose
  heap-rclose p e s =
      rw (heap-maybe_remove std p (modify std p (shut_read e) s))
        (put_self s.heap p (shut_read e (s.heap p)))

  rest-rclose :
      (p : ℕ) (e : Error) (s : S)
      → ((rclose std p e s).fr ≡ s.fr) × ((rclose std p e s).tasks ≡ s.tasks)
  unfolding rclose maybe_remove
  rest-rclose p e s = (ground arith, ground arith)

  -- A frame whose data fits: it is behind what was unread, and nothing is sent.
  pub record IsDelivered (p : ℕ) (content : Bytes) (fin : Bool) (s t : S) : Type 0 where
    pub arrived : contents (t.heap p).pipe ≡ contents (s.heap p).pipe ++ content
    pub ended : (t.heap p).rclosed ≡ fin
    pub nothing_sent : t.fr ≡ s.fr
    pub nothing_left : t.tasks ≡ s.tasks

  delivered :
      (p : ℕ) (content : Bytes) (fin : Bool) (s : S) (r : (ℕ × Option Error) × Buffer)
      → (s.heap p).rclosed ≡ false
      → r.0.1 ≡ none
      → contents r.1 ≡ contents (s.heap p).pipe ++ content
      → IsDelivered p content fin s (deliver std p fin r s)
  unfolding Pipe.close
  delivered p content fin s ((n, some e), pipe) still k h = absurd (cc k)
  delivered p content false s ((n, none), pipe) still k h =
      let now = put_self s.heap p (record (s.heap p) { pipe = pipe }) in
      record {
        arrived = ap (λ st. contents st.pipe) now ∙ h;
        ended = ap (λ st. st.rclosed) now ∙ still;
        nothing_sent = refl;
        nothing_left = refl;
      }
  delivered p content true s ((n, none), pipe) still k h =
      let s1 = modify std p (λ st. record st { pipe = pipe }) s in
      let now = put_self s.heap p (record (s.heap p) { pipe = pipe }) in
      let shut = heap-rclose p eof s1 in
      record {
        arrived =
            ap (λ st. contents st.pipe) (shut ∙ ap (shut_read eof) now)
            ∙ contents-close pipe eof
            ∙ h;
        ended = ap (λ st. st.rclosed) shut;
        nothing_sent = (rest-rclose p eof s1).0;
        nothing_left = (rest-rclose p eof s1).1;
      }

  -- A frame with too much: the stream is closed with a flow control error, which is sent.
  pub record IsRefused (p : ℕ) (s t : S) : Type 0 where
    pub no_more : (t.heap p).rclosed ≡ true
    pub no_window : (t.heap p).wnd.closed ≡ true
    pub reset_sent :
        t.fr ≡ (Write.write_frame std (rst_frame (s.heap p).id flow_control_error) s.fr).1

  overflowed :
      (p : ℕ) (fin : Bool) (s : S) (r : (ℕ × Option Error) × Buffer) (e : Error)
      → r.0.1 ≡ some e
      → IsRefused p s (deliver std p fin r s)
  unfolding reset write_frame
  overflowed p fin s ((n, none), pipe) e h = absurd (cc h)
  overflowed p fin s ((n, some x), pipe) e h =
      let g : Stream → Stream =
        λ st. record st { pipe = pipe; wnd = Semaphore.close st.wnd flow_control } in
      let s1 = modify std p g s in
      let now : (rclose std p flow_control s1).heap p ≡ shut_read flow_control (g (s.heap p)) =
        heap-rclose p flow_control s1
        ∙ ap (shut_read flow_control) (put_self s.heap p (g (s.heap p))) in
      record {
        no_more = ap (λ st. st.rclosed) now;
        no_window = ap (λ st. st.wnd.closed) now ∙ wnd-closed (s.heap p).wnd flow_control;
        reset_sent =
            let id = ap (λ st. st.id) now in
            let fr = (rest-rclose p flow_control s1).0 in rw (id, fr) refl;
      }

  -- A DATA frame for a stream in the map whose pipe is open: if there is room, its bytes come behind
  -- the unread ones, the stream ends for reading exactly with the flag FIN, and nothing is sent; and if
  -- there is not, the stream is closed for reading, its window too, and a reset is written.
  pub handle_data_lem :
      (f : DataFrame) (s : S) (p : ℕ)
      → get std f.stream_id s ≡ some p
      → (s.heap p).rclosed ≡ false
      → IsOpen (s.heap p).pipe
      → ((length f.content ≤ room (s.heap p).pipe)
          × IsDelivered p f.content (has_flag f.flags data_flag_fin) s (handle_data std f s))
        ⊎ ((room (s.heap p).pipe < length f.content) × IsRefused p s (handle_data std f s))
  unfolding handle_data receive_data
  handle_data_lem f s p found still o =
      elim (Bool-cases (leb (length f.content) (room (s.heap p).pipe))) [
        | inl fits ↦
            let (status, queue) = pipe_takes (s.heap p).pipe f.content o (ground arith) in
            rw found
              (rw still (inl (ground arith, delivered p f.content _ s taken still status queue)))
        | inr over ↦ rw found (
            rw still (
              inr (
                ground arith,
                overflowed p _ s taken write_full
                    (pipe_overflows (s.heap p).pipe f.content o (ground arith)),
              )))
      ]
    where
      taken : (ℕ × Option Error) × Buffer
      taken = Pipe.write (s.heap p).pipe f.content
