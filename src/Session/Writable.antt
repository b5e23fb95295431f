-- ===== src/Session/Writable.antt =====
-- A stream of spdyframing/session.go that can be written stays so, whatever the reading goroutine does.
use spdy.Base.{
  ℕ, ◌%◌, ◌||◌, leb, ◌<◌, ◌==◌, sym, subst, Bool-cases, inl, inr, ◌≡◌, Bool, true, false, Option,
  none, some, List, [], ◌∷◌, arith, if◌then◌else◌,
}
use spdy.Errors.{closing, Error, eof, closed, flow_control}
use spdy.Stdlib.{Stdlib}
use spdy.Wire.{Result, ok, err}
use spdy.Buffer.{Buffer}
use spdy.Pipe
use spdy.Semaphore
use spdy.Frame.{
  Frame, SynStreamFrame, SynReplyFrame, SettingsFlagIdValue, DataFrame, syn_stream, syn_reply,
  rst_stream, settings, ping, go_away, headers, window_update, data_frame,
}
use spdy.Session.{
  Session, Stream, Reply, unset, awaited, given, maybe_remove, rclose, wclose, add, reset, set,
  write_frame, has_flag, data_flag_fin,
}
use spdy.Session.Receive.{
  close_read_if, close_write_if, greet, handle_syn_stream, offer, reply_to, handle_syn_reply,
  set_all, handle_settings, widen, update_stream, widen_if, handle_window_update, deliver,
  receive_data, data_to, handle_data, handle_read,
}
use spdy.Semaphore.{Semaphore, Outcome, waits, returns}
use spdy.Framer.{Framer}
use spdy.Session.{
  protocol_error, stream_already_closed, put, store, with_id, shut_read, shut_write,
  flow_control_error, modify, control_flag_fin, control_flag_unidirectional,
}
use spdy.Session.Table.{Streams}
use spdy.Session.Receive.{tear_down, abandon, take_frame, incoming, same, spawn_reset, hang_up}

module _ (std : Stdlib) (p : ℕ) where
  abbrev S : Type 0
  S = Session std

  -- If the stream at `p` is there in `s` it is there in `t`, and if it can be written it still can be.
  pub record Grows (s t : S) : Type 0 where
    pub kept : p < s.count → (p < t.count) × ((s.heap p).wready ≡ true → (t.heap p).wready ≡ true)

  pub grow : (s t u : S) → Grows s t → Grows t u → Grows s u
  grow s t u v w = record {
    kept = λ h. let (k, r) = v.kept h in let (l, r') = w.kept k in (l, λ e. r' (r e));
  }

  pub Grows-same : (s : S) → Grows s s
  Grows-same s = record { kept = λ h. (h, λ e. e) }

  either : (s : S) (b : Bool) (x y : S) → Grows s x → Grows s y → Grows s (if b then x else y)
  either s true x y v w = v
  either s false x y v w = w

  pub Grows-modify :
      (q : ℕ) (g : Stream → Stream) (s : S)
      → ((st : Stream) → st.wready ≡ true → (g st).wready ≡ true)
      → Grows s (modify std q g s)
  unfolding put
  Grows-modify q g s v = record {
    kept = λ h. (
      h,
      λ e. elim (Bool-cases (q == p)) [
        | inl hit ↦
            let same : q ≡ p = ground (arith, hit) in
            rw hit (v (s.heap q) (subst (λ x. (s.heap x).wready ≡ true) (sym same) e))
        | inr miss ↦ rw miss e
      ],
    );
  }

  Grows-maybe_remove : (q : ℕ) (s : S) → Grows s (maybe_remove std q s)
  unfolding maybe_remove
  Grows-maybe_remove q s = record { kept = λ h. ground (arith, h) }

  pub Grows-rclose : (q : ℕ) (e : Error) (s : S) → Grows s (rclose std q e s)
  unfolding rclose
  Grows-rclose q e s =
      grow s _ _ (Grows-modify q (shut_read e) s (λ st e. e)) (Grows-maybe_remove q _)

  pub Grows-wclose : (q : ℕ) (e : Error) (s : S) → Grows s (wclose std q e s)
  unfolding wclose
  Grows-wclose q e s =
      grow s _ _ (Grows-modify q (shut_write e) s (λ st e. e)) (Grows-maybe_remove q _)

  Grows-close_read_if : (b : Bool) (q : ℕ) (e : Error) (s : S) → Grows s (close_read_if std b q e s)
  Grows-close_read_if true q e s = Grows-rclose q e s
  Grows-close_read_if false q e s = Grows-same s

  pub Grows-close_write_if :
      (b : Bool) (q : ℕ) (e : Error) (s : S) → Grows s (close_write_if std b q e s)
  Grows-close_write_if true q e s = Grows-wclose q e s
  Grows-close_write_if false q e s = Grows-same s

  pub Grows-reset : (id status : ℕ) (s : S) → Grows s (reset std id status s).1
  unfolding reset write_frame
  Grows-reset id status s = record { kept = λ h. (h, λ e. e) }

  Grows-store : (x : Stream × S) → Grows x.1 (store std x).1
  unfolding put
  Grows-store (st, s) = record {
    kept = λ h.
        let other : (s.count == p) ≡ false = ground (arith, h) in
        (omega (arith, h), λ e. rw other e);
  }

  Grows-with_id : (st : Stream) (s : S) → Grows s (with_id std st s).1
  Grows-with_id st s = record { kept = λ h. ground (arith, h) }

  pub Grows-add : (st : Stream) (s : S) → Grows s (add std st s).1
  unfolding add
  Grows-add st s = from s.closing
    where
      added : Bool → Result ℕ × S
      added b =
          if b then (err closing, s) else (let (q, t) = store std (with_id std st s) in (ok q, t))

      from : (b : Bool) → Grows s (added b).1
      from true = Grows-same s
      from false = grow s _ _ (Grows-with_id st s) (Grows-store (with_id std st s))

  Grows-greet : (f : SynStreamFrame) (r : Result ℕ × S) → Grows r.1 (greet std f r)
  Grows-greet f (err e, s) = Grows-same s
  Grows-greet f (ok q, s) =
      let t =
        close_write_if std (has_flag f.cf_header.flags control_flag_unidirectional) q closed s in
      let u = close_read_if std (has_flag f.cf_header.flags control_flag_fin) q eof t in
      let v : Grows s u =
        grow s t u (Grows-close_write_if _ q closed s) (Grows-close_read_if _ q eof t) in
      record { kept = v.kept }

  Grows-syn_stream : (f : SynStreamFrame) (s : S) → Grows s (handle_syn_stream std f s)
  unfolding handle_syn_stream
  Grows-syn_stream f s =
      let s' : S = record s { last_recv_id = f.stream_id } in
      let r : Result ℕ × S = add std (incoming std f s') s' in
      let v : Grows s' r.1 = Grows-add (incoming std f s') s' in
      either s (same s.is_server (f.stream_id % 2 == 0) || leb f.stream_id s.last_recv_id)
        (spawn_reset std f.stream_id protocol_error s) (greet std f r)
        (record { kept = λ h. (h, λ e. e) })
        (grow s r.1 _ (record { kept = v.kept }) (Grows-greet f r))

  Grows-reply_to : (f : SynReplyFrame) (r : Option ℕ) (s : S) → Grows s (reply_to std f r s)
  Grows-reply_to f none s = record { kept = λ h. (h, λ e. e) }
  Grows-reply_to f (some q) s = from (s.heap q).reply
    where
      from : (r : Reply) → Grows s (offer std f q r s)
      from unset = record { kept = λ h. (h, λ e. e) }
      from (given h) = record { kept = λ k. (k, λ e. e) }
      from awaited =
          grow s _ _
            (Grows-modify q (λ st. record st { reply = given (some f.headers) }) s (λ st e. e))
            (Grows-close_read_if _ q eof _)

  Grows-set : (id val : ℕ) (s : S) → Grows s (set std id val s)
  unfolding set
  Grows-set id val s = record { kept = λ h. ground (arith, h) }

  Grows-set_all : (vs : List SettingsFlagIdValue) (s : S) → Grows s (set_all std vs s)
  unfolding set_all
  Grows-set_all [] s = Grows-same s
  Grows-set_all (v ∷ vs) s = grow s _ _ (Grows-set v.id v.value s) (Grows-set_all vs _)

  Grows-widen : (q : ℕ) (r : Option Error × Semaphore) (s : S) → Grows s (widen std q r s)
  Grows-widen q (none, wnd) s = Grows-modify q (λ st. record st { wnd = wnd }) s (λ st e. e)
  Grows-widen q (some e, wnd) s =
      let s1 = modify std q (λ st. record st { wnd = wnd }) s in
      let s2 = (reset std (s1.heap q).id flow_control_error s1).1 in
      let g : Stream → Stream = λ st. record st { wnd = Semaphore.close st.wnd flow_control } in
      grow s s1 _ (Grows-modify q (λ st. record st { wnd = wnd }) s (λ st e. e)) (
        grow s1 s2 _ (Grows-reset _ _ s1) (
          grow s2 (modify std q g s2) _ (Grows-modify q g s2 (λ st e. e))
            (Grows-rclose q flow_control _)))

  Grows-widen_if : (delta : ℕ) (r : Option ℕ) (s : S) → Grows s (widen_if std delta r s)
  unfolding update_stream
  Grows-widen_if delta none s = Grows-same s
  Grows-widen_if delta (some q) s = Grows-widen q _ s

  Grows-deliver :
      (q : ℕ) (fin : Bool) (r : (ℕ × Option Error) × Buffer) (s : S)
      → Grows s (deliver std q fin r s)
  Grows-deliver q fin ((n, none), pipe) s =
      grow s _ _ (Grows-modify q (λ st. record st { pipe = pipe }) s (λ st e. e))
        (Grows-close_read_if fin q eof _)
  Grows-deliver q fin ((n, some e), pipe) s =
      let g : Stream → Stream =
        λ st. record st { pipe = pipe; wnd = Semaphore.close st.wnd flow_control } in
      grow s (modify std q g s) _ (Grows-modify q g s (λ st e. e)) (
        grow _ (rclose std q flow_control (modify std q g s)) _ (Grows-rclose q flow_control _)
          (Grows-reset _ _ _))

  Grows-data_to : (f : DataFrame) (r : Option ℕ) (s : S) → Grows s (data_to std f r s)
  unfolding receive_data
  Grows-data_to f none s = record { kept = λ h. (h, λ e. e) }
  Grows-data_to f (some q) s =
      let fin = has_flag f.flags data_flag_fin in
      let taken = Pipe.write (s.heap q).pipe f.content in
      either s (s.heap q).rclosed (spawn_reset std (s.heap q).id stream_already_closed s)
        (deliver std q fin taken s) (record { kept = λ h. (h, λ e. e) })
        (Grows-deliver q fin taken s)

  Grows-handle_read : (f : Frame) (s : S) → Grows s (handle_read std f s)
  unfolding handle_read handle_syn_reply handle_settings handle_window_update handle_data
  Grows-handle_read (syn_stream f) s = Grows-syn_stream f s
  Grows-handle_read (syn_reply f) s = Grows-reply_to f _ s
  Grows-handle_read (settings f) s = Grows-set_all f.flag_id_values s
  Grows-handle_read (ping f) s = record { kept = λ h. (h, λ e. e) }
  Grows-handle_read (window_update f) s = Grows-widen_if f.delta_window_size _ s
  Grows-handle_read (data_frame f) s = Grows-data_to f _ s
  Grows-handle_read (rst_stream f) s = Grows-same s
  Grows-handle_read (go_away f) s = Grows-same s
  Grows-handle_read (headers f) s = Grows-same s

  Grows-abandon : (a : Streams) (s : S) → Grows s (abandon std a s)
  unfolding abandon
  Grows-abandon [] s = Grows-same s
  Grows-abandon ((_, q) ∷ a) s = grow s _ _ (Grows-rclose q closed s) (
      grow _ (modify std q hang_up (rclose std q closed s)) _ (Grows-modify q hang_up _ (λ st e. e))
        (Grows-abandon a _))

  Grows-tear_down : (e : Error) (s : S) → Grows s (tear_down std e s)
  unfolding tear_down
  Grows-tear_down e s =
      let s' : S = record s { err = some e; closing = true } in
      let v : Grows s' (abandon std s'.rstreams s') = Grows-abandon s'.rstreams s' in
      record { kept = v.kept }

  pub Grows-take_frame : (r : Result Frame × Framer std) (s : S) → Grows s (take_frame std r s).1
  Grows-take_frame (ok f, fr) s =
      let v : Grows (record s { fr = fr }) (handle_read std f (record s { fr = fr })) =
        Grows-handle_read f (record s { fr = fr }) in
      record { kept = v.kept }
  Grows-take_frame (err e, fr) s =
      let v : Grows (record s { fr = fr }) (tear_down std e (record s { fr = fr })) =
        Grows-tear_down e (record s { fr = fr }) in
      record { kept = v.kept }
