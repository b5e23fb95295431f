-- ===== src/Session/Receive.antt =====
-- spdyframing/session.go: what the reading goroutine does with each frame, and when it ends.
use spdy.Base.{
  ℕ, zero, suc, ◌%◌, ◌^◌, Bytes, Bool, true, false, not, ◌||◌, Option, none, some, List, [], ◌∷◌,
  leb, ◌==◌, if◌then◌else◌,
}
use spdy.Base.Int.{ℤ, signed32}
use spdy.Errors.{Error, eof, closed, flow_control}
use spdy.Stdlib.{Stdlib}
use spdy.Wire.{Result, ok, err}
use spdy.Buffer.{Buffer}
use spdy.Pipe
use spdy.Semaphore
use spdy.Frame.{
  SynStreamFrame, SynReplyFrame, SettingsFlagIdValue, SettingsFrame, WindowUpdateFrame, DataFrame,
  Frame, syn_stream, syn_reply, rst_stream, settings, ping, go_away, headers, window_update,
  data_frame,
}
use spdy.Framer.{Framer}
use spdy.Framer.Read
use spdy.Session.Table.{Streams}
use spdy.Session.{
  Session, Stream, Reply, unset, awaited, given, writes, handles, rst_frame, control_flag_fin,
  control_flag_unidirectional, data_flag_fin, protocol_error, invalid_stream, flow_control_error,
  stream_already_closed, has_flag, modify, spawn, set, add, get, reset, new_stream, rclose, wclose,
}

abbrev pub same : Bool → Bool → Bool
same true b = b
same false b = not b

-- The end of `read`: each stream that the map held is closed for reading, its window is closed,
-- and a reply that is awaited comes as nil.
abbrev pub hang_up : Stream → Stream
hang_up st = record st {
  wnd = Semaphore.close st.wnd closed;
  reply = elim st.reply [ unset ↦ unset | awaited ↦ given none | given h ↦ given h ];
}

module _ (std : Stdlib) where
  abbrev S : Type 0
  S = Session std

  abbrev pub spawn_reset : ℕ → ℕ → S → S
  spawn_reset id status s = spawn std (writes (rst_frame id status)) s

  -- The stream that a SYN_STREAM frame brings, before it is added.
  abbrev pub incoming : SynStreamFrame → S → Stream
  incoming f s = record (new_stream std s) { id = f.stream_id; header = some f.headers }

  abbrev pub close_write_if : Bool → ℕ → Error → S → S
  close_write_if b p e s = if b then wclose std p e s else s

  abbrev pub close_read_if : Bool → ℕ → Error → S → S
  close_read_if b p e s = if b then rclose std p e s else s

  abbrev pub greet : SynStreamFrame → Result ℕ × S → S
  greet f (err e, s) = s
  greet f (ok p, s) =
      let flags = f.cf_header.flags in
      spawn std (handles p) (
        close_read_if (has_flag flags control_flag_fin) p eof
          (close_write_if (has_flag flags control_flag_unidirectional) p closed s))

  unfoldable pub handle_syn_stream : SynStreamFrame → S → S
  handle_syn_stream f s =
      let from_server = f.stream_id % 2 == 0 in
      if same s.is_server from_server || leb f.stream_id s.last_recv_id
      then spawn_reset f.stream_id protocol_error s
      else (let s' : S = record s { last_recv_id = f.stream_id } in
          greet f (add std (incoming f s') s'))

  abbrev pub offer : SynReplyFrame → ℕ → Reply → S → S
  offer f p awaited s =
      close_read_if (has_flag f.cf_header.flags control_flag_fin) p eof
        (modify std p (λ st. record st { reply = given (some f.headers) }) s)
  offer f p _ s = spawn_reset f.stream_id invalid_stream s

  abbrev pub reply_to : SynReplyFrame → Option ℕ → S → S
  reply_to f none s = spawn_reset f.stream_id invalid_stream s
  reply_to f (some p) s = offer f p (s.heap p).reply s

  unfoldable pub handle_syn_reply : SynReplyFrame → S → S
  handle_syn_reply f s = reply_to f (get std f.stream_id s) s

  unfoldable pub set_all : List SettingsFlagIdValue → S → S
  set_all [] s = s
  set_all (v ∷ vs) s = set_all vs (set std v.id v.value s)

  unfoldable pub handle_settings : SettingsFrame → S → S
  handle_settings f s = set_all f.flag_id_values s

  -- `handleWindowUpdate` of a stream.
  abbrev pub widen : ℕ → Option Error × Semaphore.Semaphore → S → S
  widen p (none, wnd) s = modify std p (λ st. record st { wnd = wnd }) s
  widen p (some e, wnd) s =
      let s1 = modify std p (λ st. record st { wnd = wnd }) s in
      let s2 = (reset std (s1.heap p).id flow_control_error s1).1 in
      rclose std p flow_control
        (modify std p (λ st. record st { wnd = Semaphore.close st.wnd flow_control }) s2)

  unfoldable pub update_stream : ℕ → ℤ → S → S
  update_stream p delta s = widen p (Semaphore.inc (s.heap p).wnd delta) s

  abbrev pub widen_if : ℕ → Option ℕ → S → S
  widen_if delta none s = s
  widen_if delta (some p) s = update_stream p (signed32 (delta % 2 ^ 32)) s

  unfoldable pub handle_window_update : WindowUpdateFrame → S → S
  handle_window_update f s = widen_if f.delta_window_size (get std f.stream_id s) s

  -- `handleData` of a stream.
  abbrev pub deliver : ℕ → Bool → (ℕ × Option Error) × Buffer → S → S
  deliver p fin ((n, some e), pipe) s =
      let s1 =
        modify std p (λ st. record st { pipe = pipe; wnd = Semaphore.close st.wnd flow_control })
          s in
      let s2 = rclose std p flow_control s1 in (reset std (s2.heap p).id flow_control_error s2).1
  deliver p fin ((n, none), pipe) s =
      close_read_if fin p eof (modify std p (λ st. record st { pipe = pipe }) s)

  unfoldable pub receive_data : ℕ → Bytes → ℕ → S → S
  receive_data p content flags s =
      if (s.heap p).rclosed
      then spawn_reset (s.heap p).id stream_already_closed s
      else deliver p (has_flag flags data_flag_fin) (Pipe.write (s.heap p).pipe content) s

  abbrev pub data_to : DataFrame → Option ℕ → S → S
  data_to f none s = spawn_reset f.stream_id invalid_stream s
  data_to f (some p) s = receive_data p f.content f.flags s

  unfoldable pub handle_data : DataFrame → S → S
  handle_data f s = data_to f (get std f.stream_id s) s

  -- `handleRead`
  unfoldable pub handle_read : Frame → S → S
  handle_read (syn_stream f) s = handle_syn_stream f s
  handle_read (syn_reply f) s = handle_syn_reply f s
  handle_read (settings f) s = handle_settings f s
  handle_read (ping f) s = spawn std (writes (ping f)) s
  handle_read (window_update f) s = handle_window_update f s
  handle_read (data_frame f) s = handle_data f s
  handle_read (rst_stream f) s = s
  handle_read (go_away f) s = s
  handle_read (headers f) s = s

  unfoldable pub abandon : Streams → S → S
  abandon [] s = s
  abandon ((_, p) ∷ a) s = abandon a (modify std p hang_up (rclose std p closed s))

  unfoldable pub tear_down : Error → S → S
  tear_down e s =
      let s' : S = record s { err = some e; closing = true } in
      record (abandon s'.rstreams s') { done = true }

  -- The frame that `ReadFrame` returns, or the end.
  abbrev pub take_frame : Result Frame × Framer std → S → Option Frame × S
  take_frame (ok f, fr) s = (some f, handle_read f (record s { fr = fr }))
  take_frame (err e, fr) s = (none, tear_down e (record s { fr = fr }))

  -- One round of the loop in `read`.
  unfoldable pub read_round : S → Option Frame × S
  read_round s = take_frame (Read.read_frame std s.fr) s

  -- The loop on fuel, with no other goroutine in between; `none` if the fuel runs out.
  unfoldable pub read_loop : ℕ → S → Option S
  read_loop zero s = none
  read_loop (suc fuel) s =
      let (x, s') = read_round s in elim x [ some f ↦ read_loop fuel s' | none ↦ some s' ]
