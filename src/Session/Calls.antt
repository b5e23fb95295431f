-- ===== src/Session/Calls.antt =====
-- spdyframing/session.go: `Open`, and the methods of a stream that its user calls. A call that has to
-- wait is a step that cannot be made yet.
use spdy.Base.{
  ℕ, zero, suc, ◌%◌, ◌^◌, ◌-◌, ◌+◌, Bytes, true, not, ◌||◌, Option, none, some, [], ◌∷◌, ltb,
  if◌then◌else◌, bit_and, bit_or, length, take, drop,
}
use spdy.Base.Int.{pos, negsuc, signed32}
use spdy.Errors.{Error, closed, not_readable, cannot_reply, not_writable, window_delta, reset_error}
use spdy.Stdlib.{Stdlib}
use spdy.Wire.{Result, ok, err, Action}
use spdy.Header.{Header}
use spdy.Buffer.{Buffer}
use spdy.Pipe
use spdy.Semaphore
use spdy.Semaphore.{Outcome, waits, returns}
use spdy.Frame.{ControlFrameHeader, Frame, syn_stream, syn_reply, window_update, data_frame}
use spdy.Session.{
  Session, Reply, unset, awaited, given, control_flag_fin, control_flag_unidirectional,
  data_flag_fin, internal_error, has_flag, modify, add, write_frame, reset, new_stream, rclose,
  wclose,
}
use spdy.Session.Receive.{close_write_if}

abbrev pub flags_only : ℕ → ControlFrameHeader
flags_only flags = record { version = 0; frame_type = 0; flags = flags; length = 0 }

-- The frame that `Open` sends.
abbrev pub open_frame : ℕ → Header → ℕ → Frame
open_frame id h flag = syn_stream (record {
  cf_header = flags_only (bit_and flag (bit_or control_flag_unidirectional control_flag_fin));
  stream_id = id;
  associated_to_stream_id = 0;
  priority = 0;
  slot = 0;
  headers = h;
})

abbrev pub content_frame : ℕ → Bytes → ℕ → Frame
content_frame id content flags =
    data_frame (record { stream_id = id; flags = flags; content = content })

-- What became of a call of `writeData` or `Write`: it sleeps in `Dec`, panics in `p[:n]`, or
-- returns a count and an error.
pub data Sent (A : Type 0) : Type 0 where
  blocked : ℕ → A → Sent A
  panics : Sent A
  sent : ℕ → Option Error → A → Sent A

module _ (std : Stdlib) where
  abbrev S : Type 0
  S = Session std

  abbrev pub finish_open : ℕ → Result (Unit {0}) × S → Result ℕ × S
  finish_open p (ok u, s) = (ok p, s)
  finish_open p (err e, s) = (err e, wclose std p e (rclose std p e s))

  abbrev pub opened : Header → ℕ → Result ℕ × S → Result ℕ × S
  opened h flag (err e, s) = (err e, s)
  opened h flag (ok p, s) =
      let s1 =
        if has_flag flag control_flag_unidirectional
        then rclose std p not_readable s
        else modify std p (λ st. record st { reply = awaited }) s in
      let s2 = close_write_if std (has_flag flag control_flag_fin) p not_writable s1 in
      finish_open p (write_frame std (open_frame (s2.heap p).id h flag) s2)

  -- `Open`, to the address of the new stream.
  unfoldable pub open_stream : Header → ℕ → Action S ℕ
  open_stream h flag s = opened h flag (add std (record (new_stream std s) { wready = true }) s)

  -- `Header`; `none` waits for the reply.
  abbrev pub header_from : ℕ → Reply → S → Option (Option Header × S)
  header_from p unset s = some ((s.heap p).header, s)
  header_from p awaited s = none
  header_from p (given h) s =
      some (h, modify std p (λ st. record st { header = h; reply = unset }) s)

  unfoldable pub header : ℕ → S → Option (Option Header × S)
  header p s = header_from p (s.heap p).reply s

  abbrev pub reply_frame : ℕ → Header → ℕ → Frame
  reply_frame id h flag =
      syn_reply (record { cf_header = flags_only flag; stream_id = id; headers = h })

  -- `Reply`; a deferred close runs after the write, whatever comes of it.
  unfoldable pub reply : ℕ → Header → ℕ → Action S (Unit {0})
  reply p h flag s =
      if (s.heap p).wready
      then (err cannot_reply, s)
      else (let s1 = modify std p (λ st. record st { wready = true }) s in
          let (x, s2) = write_frame std (reply_frame (s.heap p).id h flag) s1 in
          (x, close_write_if std (has_flag flag control_flag_fin) p closed s2))

  unfoldable pub update_window : ℕ → ℕ → Action S (Unit {0})
  update_window p delta s =
      if ltb delta 1 || ltb (2 ^ 31 - 1) delta
      then (err (window_delta delta), s)
      else write_frame std
          (window_update (record {
            cf_header = flags_only 0;
            stream_id = (s.heap p).id;
            delta_window_size = delta;
          }))
          s

  -- `Read` into `n` bytes; `none` waits for data.
  abbrev pub received :
      ℕ → Option ((Bytes × Option Error) × Buffer) → S → Option ((Bytes × Option Error) × S)
  received p none s = none
  received p (some ((bytes, e), pipe)) s =
      let s1 = modify std p (λ st. record st { pipe = pipe }) s in
      some ((bytes, e), (update_window p (length bytes % 2 ^ 32) s1).1)

  unfoldable pub read : ℕ → ℕ → S → Option ((Bytes × Option Error) × S)
  read p n s = received p (Pipe.read (s.heap p).pipe n) s

  -- `Reset`: the write, and then the deferred closes, the last deferred first.
  unfoldable pub reset_stream : ℕ → ℕ → Action S (Unit {0})
  reset_stream p status s =
      let (x, s1) = reset std (s.heap p).id status s in
      (x, wclose std p (reset_error status) (rclose std p (reset_error status) s1))

  abbrev pub count_sent : ℕ → Result (Unit {0}) × S → Sent S
  count_sent n (ok u, s) = sent n none s
  count_sent n (err e, s) = sent 0 (some e) s

  abbrev pub send_granted : ℕ → Bytes → Outcome → S → Sent S
  send_granted p bytes waits s = blocked 0 s
  send_granted p bytes (returns n (some e) wnd) s =
      let s1 = modify std p (λ st. record st { wnd = wnd }) s in
      sent 0 (some e) (reset_stream p internal_error s1).1
  send_granted p bytes (returns (negsuc n) none wnd) s = panics
  send_granted p bytes (returns (pos n) none wnd) s =
      let s1 = modify std p (λ st. record st { wnd = wnd }) s in
      count_sent n (write_frame std (content_frame (s.heap p).id (take n bytes) 0) s1)

  -- `writeData` from its call of Dec on, where it goes on once it has slept.
  abbrev pub ask_window : ℕ → Bytes → S → Sent S
  ask_window p bytes s =
      send_granted p bytes (Semaphore.dec (s.heap p).wnd (signed32 (length bytes % 2 ^ 32))) s

  -- `writeData`: one DATA frame with as much of `bytes` as the window allows.
  unfoldable pub write_data : ℕ → Bytes → S → Sent S
  write_data p bytes s =
      if (s.heap p).wclosed
      then sent 0 (some closed) s
      else if not (s.heap p).wready
      then sent 0 (some not_writable) s
      else ask_window p bytes s

  abbrev pub further : ℕ → Sent S → Sent S
  further c (blocked n s) = blocked (c + n) s
  further c panics = panics
  further c (sent n e s) = sent (c + n) e s

  -- `Write` with no other goroutine in between, on fuel; `none` if the fuel runs out. Where it
  -- blocks, the count is of what it has sent so far.
  abbrev pub map_further : ℕ → Option (Sent S) → Option (Sent S)
  map_further c none = none
  map_further c (some x) = some (further c x)

  abbrev pub go_on : (ℕ → S → Option (Sent S)) → Sent S → Option (Sent S)
  go_on rest (blocked n s) = some (blocked n s)
  go_on rest panics = some panics
  go_on rest (sent n (some e) s) = some (sent n (some e) s)
  go_on rest (sent n none s) = map_further n (rest n s)

  unfoldable pub write : ℕ → ℕ → Bytes → S → Option (Sent S)
  write zero p bytes s = none
  write (suc fuel) p [] s = some (sent 0 none s)
  write (suc fuel) p (b ∷ bytes) s =
      go_on (λ n s'. write fuel p (drop n (b ∷ bytes)) s') (write_data p (b ∷ bytes) s)

  -- `Close` of the writing side.
  unfoldable pub close : ℕ → Action S (Unit {0})
  close p s =
      if (s.heap p).wclosed
      then (err closed, s)
      else if not (s.heap p).wready
      then (err not_writable, s)
      else (let (x, s1) = write_frame std (content_frame (s.heap p).id [] data_flag_fin) s in
          (x, wclose std p closed s1))

  -- `Wait`: the error, if any, once the session is done; `none` waits for that.
  unfoldable pub wait : S → Option (Option Error)
  wait s = if s.done then some s.err else none

  -- A task that a `go` statement left: it writes its frame and drops the error; the session's
  -- `handle` is its user's code, whose calls are steps of their own.
  unfoldable pub run_write : Frame → S → S
  run_write f s = (write_frame std f s).1
