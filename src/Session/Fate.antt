-- ===== src/Session/Fate.antt =====
-- Only the end of the reading goroutine of spdyframing/session.go decides that a session is over, and by
-- which error.
use spdy.Base.{
  ℕ, ◌≡◌, refl, ap, ◌∙◌, Bool, true, false, not, Bytes, Option, none, some, List, [], ◌∷◌, arith,
  if◌then◌else◌,
}
use spdy.Errors.{not_readable, cannot_reply, not_writable, Error, eof, closed, flow_control}
use spdy.Stdlib.{Stdlib}
use spdy.Wire.{Result, ok, err}
use spdy.Buffer.{Buffer}
use spdy.Pipe
use spdy.Semaphore
use spdy.Frame.{
  Frame, SynStreamFrame, SynReplyFrame, SettingsFlagIdValue, DataFrame, syn_stream, syn_reply,
  rst_stream, settings, ping, go_away, headers, window_update, data_frame,
}
use spdy.Session.{
  Session, Stream, Reply, unset, awaited, given, maybe_remove, rclose, wclose, add, reset, set,
  write_frame, has_flag, data_flag_fin,
}
use spdy.Session.Receive.{
  close_read_if, close_write_if, greet, handle_syn_stream, offer, reply_to, handle_syn_reply,
  set_all, handle_settings, widen, update_stream, widen_if, handle_window_update, deliver,
  receive_data, data_to, handle_data, handle_read,
}
use spdy.Header.{Header}
use spdy.Semaphore.{Outcome, waits, returns}
use spdy.Session.{modify, internal_error, control_flag_unidirectional}
use spdy.Session.Table.{Streams}
use spdy.Session.Receive.{tear_down, abandon}
use spdy.Session.Calls.{
  finish_open, opened, open_stream, header_from, header, reply, update_window, received, read,
  reset_stream, write_data, ask_window, close,
}
use spdy.Session.Leaves.{Leaves, Keeps, write_data-Leaves, send_granted-Leaves}

-- Of two branches, both of which have `P`.
either : {A : Type 0} (P : A → Type 0) (b : Bool) (x y : A) → P x → P y → P (if b then x else y)
either P true x y v w = v
either P false x y v w = w

module _ (std : Stdlib) where
  abbrev S : Type 0
  S = Session std

  -- Whether the session is closing, whether it is over, and by which error.
  abbrev pub fate : S → Bool × Bool × Option Error
  fate s = (s.closing, s.done, s.err)

  fate-rclose : (p : ℕ) (e : Error) (s : S) → fate (rclose std p e s) ≡ fate s
  unfolding rclose maybe_remove
  fate-rclose p e s = ground arith

  fate-wclose : (p : ℕ) (e : Error) (s : S) → fate (wclose std p e s) ≡ fate s
  unfolding wclose maybe_remove
  fate-wclose p e s = ground arith

  fate-close_read_if :
      (b : Bool) (p : ℕ) (e : Error) (s : S) → fate (close_read_if std b p e s) ≡ fate s
  fate-close_read_if true p e s = fate-rclose p e s
  fate-close_read_if false p e s = refl

  fate-close_write_if :
      (b : Bool) (p : ℕ) (e : Error) (s : S) → fate (close_write_if std b p e s) ≡ fate s
  fate-close_write_if true p e s = fate-wclose p e s
  fate-close_write_if false p e s = refl

  fate-reset : (id status : ℕ) (s : S) → fate (reset std id status s).1 ≡ fate s
  unfolding reset write_frame
  fate-reset id status s = refl

  fate-add : (st : Stream) (s : S) → fate (add std st s).1 ≡ fate s
  unfolding add
  fate-add st s = ground arith

  fate-greet : (f : SynStreamFrame) (r : Result ℕ × S) → fate (greet std f r) ≡ fate r.1
  fate-greet f (err e, s) = refl
  fate-greet f (ok p, s) = fate-close_read_if _ p eof _ ∙ fate-close_write_if _ p closed s

  fate-syn_stream : (f : SynStreamFrame) (s : S) → fate (handle_syn_stream std f s) ≡ fate s
  unfolding handle_syn_stream
  fate-syn_stream f s =
      either (λ t. fate t ≡ fate s) _ _ _ refl
        (fate-greet f _ ∙ fate-add _ (record s { last_recv_id = f.stream_id }))

  fate-reply_to : (f : SynReplyFrame) (r : Option ℕ) (s : S) → fate (reply_to std f r s) ≡ fate s
  fate-reply_to f none s = refl
  fate-reply_to f (some p) s = from (s.heap p).reply
    where
      from : (r : Reply) → fate (offer std f p r s) ≡ fate s
      from unset = refl
      from (given h) = refl
      from awaited = fate-close_read_if _ p eof _

  fate-set_all : (vs : List SettingsFlagIdValue) (s : S) → fate (set_all std vs s) ≡ fate s
  unfolding set_all set
  fate-set_all [] s = refl
  fate-set_all (v ∷ vs) s = fate-set_all vs (set std v.id v.value s) ∙ ground arith

  fate-widen :
      (p : ℕ) (r : Option Error × Semaphore.Semaphore) (s : S) → fate (widen std p r s) ≡ fate s
  fate-widen p (none, wnd) s = refl
  fate-widen p (some e, wnd) s = fate-rclose p flow_control _ ∙ fate-reset _ _ _

  fate-widen_if : (delta : ℕ) (r : Option ℕ) (s : S) → fate (widen_if std delta r s) ≡ fate s
  unfolding update_stream
  fate-widen_if delta none s = refl
  fate-widen_if delta (some p) s = fate-widen p _ s

  fate-deliver :
      (p : ℕ) (fin : Bool) (r : (ℕ × Option Error) × Buffer) (s : S)
      → fate (deliver std p fin r s) ≡ fate s
  fate-deliver p fin ((n, none), pipe) s = fate-close_read_if fin p eof _
  fate-deliver p fin ((n, some e), pipe) s = fate-reset _ _ _ ∙ fate-rclose p flow_control _

  fate-data_to : (f : DataFrame) (r : Option ℕ) (s : S) → fate (data_to std f r s) ≡ fate s
  unfolding receive_data
  fate-data_to f none s = refl
  fate-data_to f (some p) s =
      either (λ t. fate t ≡ fate s) _ _ _ refl
        (fate-deliver p (has_flag f.flags data_flag_fin) (Pipe.write (s.heap p).pipe f.content) s)

  pub fate-handle_read : (f : Frame) (s : S) → fate (handle_read std f s) ≡ fate s
  unfolding handle_read handle_syn_reply handle_settings handle_window_update handle_data
  fate-handle_read (syn_stream f) s = fate-syn_stream f s
  fate-handle_read (syn_reply f) s = fate-reply_to f _ s
  fate-handle_read (settings f) s = fate-set_all f.flag_id_values s
  fate-handle_read (ping f) s = refl
  fate-handle_read (window_update f) s = fate-widen_if f.delta_window_size _ s
  fate-handle_read (data_frame f) s = fate-data_to f _ s
  fate-handle_read (rst_stream f) s = refl
  fate-handle_read (go_away f) s = refl
  fate-handle_read (headers f) s = refl

  fate-abandon : (a : Streams) (s : S) → fate (abandon std a s) ≡ fate s
  unfolding abandon
  fate-abandon [] s = refl
  fate-abandon ((_, p) ∷ a) s = fate-abandon a _ ∙ fate-rclose p closed s

  pub fate-tear_down : (e : Error) (s : S) → fate (tear_down std e s) ≡ (true, true, some e)
  unfolding tear_down
  fate-tear_down e s =
      ap (λ x. (x.0, true, x.2))
        (fate-abandon s.rstreams (record s { err = some e; closing = true }))

  fate-finish_open : (p : ℕ) (r : Result (Unit {0}) × S) → fate (finish_open std p r).1 ≡ fate r.1
  fate-finish_open p (ok u, s) = refl
  fate-finish_open p (err e, s) = fate-wclose p e _ ∙ fate-rclose p e s

  fate-opened : (h : Header) (flag : ℕ) (r : Result ℕ × S) → fate (opened std h flag r).1 ≡ fate r.1
  unfolding write_frame
  fate-opened h flag (err e, s) = refl
  fate-opened h flag (ok p, s) =
      fate-finish_open p _
      ∙ fate-close_write_if _ p _ _
      ∙ half (has_flag flag control_flag_unidirectional)
    where
      half :
          (b : Bool)
          → fate (
              if b
              then rclose std p not_readable s
              else modify std p (λ st. record st { reply = awaited }) s)
            ≡ fate s
      half true = fate-rclose p not_readable s
      half false = refl

  pub fate-open_stream :
      (h : Header) (flag : ℕ) (s : S) → fate (open_stream std h flag s).1 ≡ fate s
  unfolding open_stream
  fate-open_stream h flag s = fate-opened h flag _ ∙ fate-add _ s

  pub fate-header :
      (p : ℕ) (h : Option Header) (s t : S) → header std p s ≡ some (h, t) → fate t ≡ fate s
  unfolding header
  fate-header p h s t = from (s.heap p).reply
    where
      from : (r : Reply) → header_from std p r s ≡ some (h, t) → fate t ≡ fate s
      from unset e = cc
      from awaited e = cc
      from (given x) e = cc

  pub fate-reply : (p : ℕ) (h : Header) (flag : ℕ) (s : S) → fate (reply std p h flag s).1 ≡ fate s
  unfolding reply write_frame
  fate-reply p h flag s =
      either (λ (r : Result (Unit {0}) × S). fate r.1 ≡ fate s) (s.heap p).wready
        (err cannot_reply, s) _ refl (fate-close_write_if _ p closed _)

  pub fate-read :
      (p n : ℕ) (out : Bytes × Option Error) (s t : S)
      → read std p n s ≡ some (out, t)
      → fate t ≡ fate s
  unfolding read update_window write_frame
  fate-read p n out s t = from (Pipe.read (s.heap p).pipe n)
    where
      from :
          (r : Option ((Bytes × Option Error) × Buffer))
          → received std p r s ≡ some (out, t)
          → fate t ≡ fate s
      from none e = cc
      from (some ((bytes, x), pipe)) e = ground (arith, e)

  pub fate-reset_stream : (p status : ℕ) (s : S) → fate (reset_stream std p status s).1 ≡ fate s
  unfolding reset_stream
  fate-reset_stream p status s = fate-wclose p _ _ ∙ fate-rclose p _ _ ∙ fate-reset _ status s

  pub fate-close : (p : ℕ) (s : S) → fate (close std p s).1 ≡ fate s
  unfolding close write_frame
  fate-close p s =
      either (λ (r : Result (Unit {0}) × S). fate r.1 ≡ fate s) (s.heap p).wclosed (err closed, s) _
        refl
        (either (λ (r : Result (Unit {0}) × S). fate r.1 ≡ fate s) (not (s.heap p).wready)
          (err not_writable, s) _ refl (fate-wclose p closed _))

  same_fate : (p : ℕ) (s : S) → Keeps std (λ t. fate t ≡ fate s) p
  same_fate p s = record {
    windows = λ wnd t v. v;
    framers = λ fr t v. v;
    resets = λ t v. fate-reset_stream p internal_error t ∙ v;
  }

  pub fate-write_data :
      (p : ℕ) (bytes : Bytes) (s : S) → Leaves std (λ t. fate t ≡ fate s) (write_data std p bytes s)
  fate-write_data p bytes s =
      write_data-Leaves std (λ t. fate t ≡ fate s) p (same_fate p s) bytes s refl

  pub fate-ask_window :
      (p : ℕ) (bytes : Bytes) (s : S) → Leaves std (λ t. fate t ≡ fate s) (ask_window std p bytes s)
  fate-ask_window p bytes s =
      send_granted-Leaves std (λ t. fate t ≡ fate s) p (same_fate p s) bytes _ s refl
