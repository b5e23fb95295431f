-- ===== src/Session.antt =====
-- spdyframing/session.go: a session, its streams, and the bookkeeping that its methods share. Streams
-- are objects at addresses; the map `rstreams` holds the addresses of those that a frame can reach.
-- A `go` statement leaves a task, which runs as a step of its own.
pub mod Table
pub mod Receive
pub mod Calls
pub mod Inv
pub mod Adds
pub mod Steps
pub mod End
pub mod Leaves
pub mod CallSteps
pub mod Reach
pub mod Loop
pub mod Round
pub mod Writing
pub mod Delivery
pub mod Resets
pub mod Oversize
pub mod Writable
pub mod Others
pub mod Fate
pub mod Released
pub mod Waits
pub mod Carrying
pub mod Rounds
pub mod Arrival
use spdy.Base.{
  ℕ, ◌+◌, ◌*◌, ◌%◌, ◌^◌, Bytes, Bool, true, false, not, ◌&&◌, ◌||◌, Option, none, some, List, [],
  ◌∷◌, ◌++◌, ltb, leb, ◌==◌, if◌then◌else◌, bit_and,
}
use spdy.Base.Int.{ℤ, pos}
use spdy.Errors.{Error, closing}
use spdy.Stdlib.{Stdlib}
use spdy.Wire.{Result, ok, err, Action}
use spdy.Header.{Header}
use spdy.Buffer.{Buffer, fresh}
use spdy.Pipe
use spdy.Semaphore
use spdy.Semaphore.{Semaphore}
use spdy.Frame.{ControlFrameHeader, RstStreamFrame, Frame, rst_stream}
use spdy.Framer.{Framer}
use spdy.Framer.Write
use Table.{Streams, lookup, insert, delete}

-- `defaultInitWnd`; shut, so that a proof does not build the array.
unfoldable pub default_init_wnd : ℕ
default_init_wnd = 64 * 1024

unfoldable pub new_pipe : Buffer
unfolding default_init_wnd
new_pipe = fresh default_init_wnd

-- The flags of a control frame and of a data frame, and the statuses that the session sends.
abbrev pub control_flag_fin : ℕ
control_flag_fin = 0x01

abbrev pub control_flag_unidirectional : ℕ
control_flag_unidirectional = 0x02

abbrev pub data_flag_fin : ℕ
data_flag_fin = 0x01

abbrev pub protocol_error : ℕ
protocol_error = 1

abbrev pub invalid_stream : ℕ
invalid_stream = 2

abbrev pub internal_error : ℕ
internal_error = 6

abbrev pub flow_control_error : ℕ
flow_control_error = 7

abbrev pub stream_already_closed : ℕ
stream_already_closed = 9

abbrev pub settings_initial_window_size : ℕ
settings_initial_window_size = 7

abbrev pub has_flag : ℕ → ℕ → Bool
has_flag flags flag = not (bit_and flags flag == 0)

-- The channel `reply`, of capacity one: nil, empty, or holding a header, which may be nil.
pub data Reply : Type 0 where
  unset awaited : Reply
  given : Option Header → Reply

-- `id` is 0 until the stream gets one.
pub record Stream : Type 0 where
  pub id : ℕ
  pub pipe : Buffer
  pub rclosed : Bool
  pub wready : Bool
  pub wnd : Semaphore
  pub wclosed : Bool
  pub header : Option Header
  pub reply : Reply

-- What a `go` statement leaves to do: to write a frame, or to call the session's `handle`.
pub data Task : Type 0 where
  writes : Frame → Task
  handles : ℕ → Task

-- `heap` holds the streams that have been added, at the addresses below `count`. `done` is set when
-- the channel of that name is closed.
pub record Session (std : Stdlib) : Type 0 where
  pub fr : Framer std
  pub rstreams : Streams
  pub next_syn_id : ℕ
  pub initwnd : ℤ
  pub closing : Bool
  pub last_recv_id : ℕ
  pub err : Option Error
  pub is_server : Bool
  pub done : Bool
  pub heap : ℕ → Stream
  pub count : ℕ
  pub tasks : List Task

unfoldable pub put : (ℕ → Stream) → ℕ → Stream → ℕ → Stream
put heap p st q = if p == q then st else heap q

abbrev pub rst_frame : ℕ → ℕ → Frame
rst_frame id status = rst_stream (record {
  cf_header = record { version = 0; frame_type = 0; flags = 0; length = 0 };
  stream_id = id;
  status = status;
})

-- No stream of the heap is read before it is added; any value will do.
abbrev pub no_stream : Stream
no_stream = record {
  id = 0;
  pipe = record { buf = []; r = 0; w = 0; closed = false; err = none };
  rclosed = false;
  wready = false;
  wnd = record { n = pos 0; closed = false; err = none };
  wclosed = false;
  header = none;
  reply = unset;
}

abbrev pub shut_read : Error → Stream → Stream
shut_read e st = record st { rclosed = true; pipe = Pipe.close st.pipe e }

abbrev pub shut_write : Error → Stream → Stream
shut_write e st = record st { wclosed = true; wnd = Semaphore.close st.wnd e }

module _ (std : Stdlib) where
  abbrev S : Type 0
  S = Session std

  -- `Start`, but for the goroutine that runs `read`.
  unfoldable pub start : Framer std → Bool → S
  unfolding default_init_wnd
  start fr server = record {
    fr = fr;
    rstreams = [];
    next_syn_id = if server then 2 else 1;
    initwnd = pos default_init_wnd;
    closing = false;
    last_recv_id = 0;
    err = none;
    is_server = server;
    done = false;
    heap = λ _. no_stream;
    count = 0;
    tasks = [];
  }

  -- `*st = …`, and `go …`.
  abbrev pub modify : ℕ → (Stream → Stream) → S → S
  modify p g s = record s { heap = put s.heap p (g (s.heap p)) }

  abbrev pub spawn : Task → S → S
  spawn t s = record s { tasks = s.tasks ++ t ∷ [] }

  unfoldable pub set : ℕ → ℕ → S → S
  set id val s =
      if id == settings_initial_window_size && ltb val (2 ^ 31)
      then record s { initwnd = pos val }
      else s

  -- The stream and the state once `add` has given it an id.
  abbrev pub with_id : Stream → S → Stream × S
  with_id st s =
      if st.id == 0
      then (
        record st { id = s.next_syn_id },
        record s { next_syn_id = (s.next_syn_id + 2) % 2 ^ 32 },
      )
      else (st, s)

  -- The address of the stream that was added, under its id.
  abbrev pub store : Stream × S → ℕ × S
  store (st, s) = (
    s.count,
    record s {
      rstreams = insert st.id s.count s.rstreams;
      heap = put s.heap s.count st;
      count = s.count + 1;
    },
  )

  unfoldable pub add : Stream → Action S ℕ
  add st s =
      if s.closing then (err closing, s) else let (p, s') = store (with_id st s) in (ok p, s')

  abbrev pub remove_if : ℕ → ℕ → Option ℕ → S → S
  remove_if p id none s = s
  remove_if p id (some q) s = if q == p then record s { rstreams = delete id s.rstreams } else s

  unfoldable pub maybe_remove : ℕ → S → S
  maybe_remove p s =
      let st = s.heap p in
      if st.rclosed && st.wclosed then remove_if p st.id (lookup st.id s.rstreams) s else s

  unfoldable pub get : ℕ → S → Option ℕ
  get id s = lookup id s.rstreams

  unfoldable pub write_frame : Frame → Action S (Unit {0})
  write_frame f s = let (x, fr) = Write.write_frame std f s.fr in (x, record s { fr = fr })

  unfoldable pub reset : ℕ → ℕ → Action S (Unit {0})
  unfolding write_frame
  reset id status s = write_frame (rst_frame id status) s

  unfoldable pub new_stream : S → Stream
  new_stream s = record {
    id = 0;
    pipe = new_pipe;
    rclosed = false;
    wready = false;
    wnd = record { n = s.initwnd; closed = false; err = none };
    wclosed = false;
    header = none;
    reply = unset;
  }

  unfoldable pub rclose : ℕ → Error → S → S
  rclose p e s = maybe_remove p (modify p (shut_read e) s)

  unfoldable pub wclose : ℕ → Error → S → S
  wclose p e s = maybe_remove p (modify p (shut_write e) s)
