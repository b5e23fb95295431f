-- ===== src/Session/Loop.antt =====
-- The loop of the reading goroutine of spdyframing/session.go ends: each round takes bytes off the
-- connection, and what it writes in between leaves those to come alone.
use spdy.Base.{
  ℕ, zero, suc, ◌+◌, ◌≤◌, ◌<◌, ◌≡◌, ◌⊎◌, refl, ap, ◌∙◌, Bool, true, false, Bytes, Option, none,
  some, List, [], ◌∷◌, length, ◌==◌, arith, inl, inr,
}
use spdy.Errors.{Error, eof, closed, flow_control}
use spdy.Stdlib.{Stdlib}
use spdy.Wire.{Result, ok, err, Action, continue, ◌>>◌, fail_if}
use spdy.Buffer.{Buffer}
use spdy.Pipe
use spdy.Semaphore
use spdy.Frame.{
  ControlFrameHeader, RstStreamFrame, Frame, SynStreamFrame, SynReplyFrame, SettingsFlagIdValue,
  DataFrame, syn_stream, syn_reply, rst_stream, settings, ping, go_away, headers, window_update,
  data_frame,
}
use spdy.Framer.{Framer, send}
use spdy.Framer.Write.{write_control_frame_header, write_rst_stream}
use spdy.Framer.Read.{read_frame}
use spdy.Framer.Progress.{read_frame_shrinks}
use spdy.Session.{
  Session, Stream, Reply, unset, awaited, given, maybe_remove, rclose, wclose, add, reset, set,
  write_frame, has_flag, data_flag_fin,
}
use spdy.Session.End.{tear_down-closing}
use spdy.Session.Receive.{
  incoming, close_read_if, close_write_if, greet, handle_syn_stream, offer, reply_to,
  handle_syn_reply, set_all, handle_settings, widen, update_stream, widen_if, handle_window_update,
  deliver, receive_data, data_to, handle_data, handle_read, take_frame, read_round, read_loop,
}

module _ (std : Stdlib) where
  abbrev S : Type 0
  S = Session std

  -- An action that leaves what is to be read alone.
  abbrev Spares : Action (Framer std) (Unit {0}) → Type 0
  Spares m = (f : Framer std) → (m f).1.input ≡ f.input

  send-Spares : (bs : Bytes) → Spares (send std bs)
  unfolding send
  send-Spares bs f = ground arith

  then-Spares : (m k : Action (Framer std) (Unit {0})) → Spares m → Spares k → Spares (m >> k)
  then-Spares m k v w f = from (m f) (v f)
    where
      from :
          (r : Result (Unit {0}) × Framer std)
          → r.1.input ≡ f.input
          → (continue r (λ _. k)).1.input ≡ f.input
      from (ok u, g) e = w g ∙ e
      from (err x, g) e = e

  header-Spares : (h : ControlFrameHeader) → Spares (write_control_frame_header std h)
  unfolding write_control_frame_header
  header-Spares h =
      then-Spares (send std _) _ (send-Spares _)
        (then-Spares (send std _) _ (send-Spares _) (send-Spares _))

  rst_stream-Spares : (fr : RstStreamFrame) → Spares (write_rst_stream std fr)
  unfolding write_rst_stream
  rst_stream-Spares fr =
      then-Spares (fail_if (fr.stream_id == 0) _) _ (λ f. refl)
        (then-Spares (write_control_frame_header std _) _ (header-Spares _) (
          then-Spares (send std _) _ (send-Spares _)
            (then-Spares (fail_if (fr.status == 0) _) _ (λ f. refl) (send-Spares _))))

  input-reset : (id status : ℕ) (s : S) → (reset std id status s).1.fr.input ≡ s.fr.input
  unfolding reset write_frame spdy.Framer.Write.write_frame
  input-reset id status s = rst_stream-Spares _ s.fr

  fr-rclose : (p : ℕ) (e : Error) (s : S) → (rclose std p e s).fr ≡ s.fr
  unfolding rclose maybe_remove
  fr-rclose p e s = ground arith

  fr-wclose : (p : ℕ) (e : Error) (s : S) → (wclose std p e s).fr ≡ s.fr
  unfolding wclose maybe_remove
  fr-wclose p e s = ground arith

  fr-close_read_if : (b : Bool) (p : ℕ) (e : Error) (s : S) → (close_read_if std b p e s).fr ≡ s.fr
  fr-close_read_if true p e s = fr-rclose p e s
  fr-close_read_if false p e s = refl

  fr-close_write_if :
      (b : Bool) (p : ℕ) (e : Error) (s : S) → (close_write_if std b p e s).fr ≡ s.fr
  fr-close_write_if true p e s = fr-wclose p e s
  fr-close_write_if false p e s = refl

  fr-add : (st : Stream) (s : S) → (add std st s).1.fr ≡ s.fr
  unfolding add
  fr-add st s = ground arith

  fr-greet : (f : SynStreamFrame) (r : Result ℕ × S) → (greet std f r).fr ≡ r.1.fr
  fr-greet f (err e, s) = refl
  fr-greet f (ok p, s) = fr-close_read_if _ p eof _ ∙ fr-close_write_if _ p closed s

  fr-syn_stream : (f : SynStreamFrame) (s : S) → (handle_syn_stream std f s).fr ≡ s.fr
  unfolding handle_syn_stream
  fr-syn_stream f s = ground (
    arith,
    fr-greet f (
        add std (incoming std f (record s { last_recv_id = f.stream_id }))
          (record s { last_recv_id = f.stream_id })),
    fr-add (incoming std f (record s { last_recv_id = f.stream_id }))
        (record s { last_recv_id = f.stream_id }),
  )

  fr-reply_to : (f : SynReplyFrame) (r : Option ℕ) (s : S) → (reply_to std f r s).fr ≡ s.fr
  fr-reply_to f none s = refl
  fr-reply_to f (some p) s = from (s.heap p).reply
    where
      from : (r : Reply) → (offer std f p r s).fr ≡ s.fr
      from unset = refl
      from (given h) = refl
      from awaited = fr-close_read_if _ p eof _

  fr-set_all : (vs : List SettingsFlagIdValue) (s : S) → (set_all std vs s).fr ≡ s.fr
  unfolding set_all set
  fr-set_all [] s = refl
  fr-set_all (v ∷ vs) s = fr-set_all vs (set std v.id v.value s) ∙ ground arith

  input-widen :
      (p : ℕ) (r : Option Error × Semaphore.Semaphore) (s : S)
      → (widen std p r s).fr.input ≡ s.fr.input
  input-widen p (none, wnd) s = refl
  input-widen p (some e, wnd) s = ap (λ f. f.input) (fr-rclose p flow_control _) ∙ input-reset _ _ _

  input-widen_if :
      (delta : ℕ) (r : Option ℕ) (s : S) → (widen_if std delta r s).fr.input ≡ s.fr.input
  unfolding update_stream
  input-widen_if delta none s = refl
  input-widen_if delta (some p) s = input-widen p _ s

  input-deliver :
      (p : ℕ) (fin : Bool) (r : (ℕ × Option Error) × Buffer) (s : S)
      → (deliver std p fin r s).fr.input ≡ s.fr.input
  input-deliver p fin ((n, none), pipe) s = ap (λ f. f.input) (fr-close_read_if fin p eof _)
  input-deliver p fin ((n, some e), pipe) s =
      input-reset _ _ _ ∙ ap (λ f. f.input) (fr-rclose p flow_control _)

  input-data_to : (f : DataFrame) (r : Option ℕ) (s : S) → (data_to std f r s).fr.input ≡ s.fr.input
  unfolding receive_data
  input-data_to f none s = refl
  input-data_to f (some p) s =
      let taken = Pipe.write (s.heap p).pipe f.content in
      ground (arith, input-deliver p (has_flag f.flags data_flag_fin) taken s)

  input-handle_read : (f : Frame) (s : S) → (handle_read std f s).fr.input ≡ s.fr.input
  unfolding handle_read handle_syn_reply handle_settings handle_window_update handle_data
  input-handle_read (syn_stream f) s = ap (λ r. r.input) (fr-syn_stream f s)
  input-handle_read (syn_reply f) s = ap (λ r. r.input) (fr-reply_to f _ s)
  input-handle_read (settings f) s = ap (λ r. r.input) (fr-set_all f.flag_id_values s)
  input-handle_read (ping f) s = refl
  input-handle_read (window_update f) s = input-widen_if f.delta_window_size _ s
  input-handle_read (data_frame f) s = input-data_to f _ s
  input-handle_read (rst_stream f) s = refl
  input-handle_read (go_away f) s = refl
  input-handle_read (headers f) s = refl

  -- What a round comes to: it takes at least eight bytes, or tears the session down.
  round_lem :
      (s : S)
      → ((f : Frame) × ((read_round std s).0 ≡ some f)
          × (8 + length (read_round std s).1.fr.input ≤ length s.fr.input))
        ⊎ (((read_round std s).0 ≡ none)
            × ((read_round std s).1.closing ≡ true)
            × ((read_round std s).1.done ≡ true))
  unfolding read_round
  round_lem s = from (read_frame std s.fr) refl
    where
      from :
          (r : Result Frame × Framer std)
          → read_frame std s.fr ≡ r
          → ((f : Frame) × ((take_frame std r s).0 ≡ some f)
              × (8 + length (take_frame std r s).1.fr.input ≤ length s.fr.input))
            ⊎ (((take_frame std r s).0 ≡ none)
                × ((take_frame std r s).1.closing ≡ true)
                × ((take_frame std r s).1.done ≡ true))
      from (ok f, g) e = inl (
        f,
        refl,
        rw (input-handle_read f (record s { fr = g })) (read_frame_shrinks std s.fr g f e),
      )
      from (err x, g) e =
          let (shut, over) = tear_down-closing std x (record s { fr = g }) in inr (refl, shut, over)

  -- With no other goroutine in between, the loop ends for any bytes that the connection brings, given
  -- more fuel than those: the session then takes no more streams, and `Wait` returns.
  pub read_loop_ends :
      (fuel : ℕ) (s : S)
      → length s.fr.input < fuel
      → (t : S) × (read_loop std fuel s ≡ some t) × (t.closing ≡ true) × (t.done ≡ true)
  unfolding read_loop
  read_loop_ends zero s h = absurd (omega arith)
  read_loop_ends (suc fuel) s h = elim (round_lem s) [
    | inl (f, more, shrinks) ↦
        rw (more, read_loop) (read_loop_ends fuel (read_round std s).1 (omega (arith, shrinks)))
    | inr (last, shut, over) ↦ rw (last, read_loop) ((read_round std s).1, refl, shut, over)
  ]
