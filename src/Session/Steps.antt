-- ===== src/Session/Steps.antt =====
-- Each step of spdyframing/session.go keeps the map and the ids in order.
use spdy.Base.{
  ℕ, ◌%◌, ◌^◌, ◌≡◌, refl, Bool, true, false, ◌&&◌, ◌||◌, Option, none, some, List, ◌∷◌, ◌==◌,
  if◌then◌else◌, arith, Bool-cases, inl, inr, [], ltb, leb,
}
use spdy.Errors.{Error, eof, closed, flow_control}
use spdy.Stdlib.{Stdlib}
use spdy.Wire.{Result}
use spdy.Buffer.{Buffer}
use spdy.Pipe
use spdy.Semaphore
use spdy.Semaphore.{Outcome, waits, returns}
use spdy.Frame.{
  SynStreamFrame, SynReplyFrame, SettingsFlagIdValue, DataFrame, Frame, syn_stream, syn_reply,
  rst_stream, settings, ping, go_away, headers, window_update, data_frame,
}
use spdy.Session.{
  Session, Stream, Reply, unset, awaited, given, modify, set, add, get, write_frame, reset,
  new_stream, rclose, wclose, shut_read, shut_write, settings_initial_window_size,
  flow_control_error, stream_already_closed, has_flag, data_flag_fin,
}
use spdy.Session.Receive.{
  same, incoming, spawn_reset, close_read_if, close_write_if, greet, handle_syn_stream, offer,
  reply_to, handle_syn_reply, set_all, handle_settings, widen, update_stream, widen_if,
  handle_window_update, deliver, receive_data, data_to, handle_data, handle_read,
}
use spdy.Session.Inv.{over, IsValid, modify-IsValid, remove-IsValid}
use spdy.Session.Adds.{Added, refused, added, add_other-Added}

module _ (std : Stdlib) where
  abbrev S : Type 0
  S = Session std

  pub rclose-IsValid : (p : ℕ) (e : Error) (s : S) → IsValid std s → IsValid std (rclose std p e s)
  unfolding rclose
  rclose-IsValid p e s v = remove-IsValid std s p (shut_read e) refl (λ o. ground arith) v

  pub wclose-IsValid : (p : ℕ) (e : Error) (s : S) → IsValid std s → IsValid std (wclose std p e s)
  unfolding wclose
  wclose-IsValid p e s v = remove-IsValid std s p (shut_write e) refl (λ o. ground arith) v

  pub close_read_if-IsValid :
      (b : Bool) (p : ℕ) (e : Error) (s : S)
      → IsValid std s
      → IsValid std (close_read_if std b p e s)
  close_read_if-IsValid true p e s v = rclose-IsValid p e s v
  close_read_if-IsValid false p e s v = v

  pub close_write_if-IsValid :
      (b : Bool) (p : ℕ) (e : Error) (s : S)
      → IsValid std s
      → IsValid std (close_write_if std b p e s)
  close_write_if-IsValid true p e s v = wclose-IsValid p e s v
  close_write_if-IsValid false p e s v = v

  -- A change of one stream in its other fields.
  pub modified :
      (p : ℕ) (g : Stream → Stream) (s : S)
      → (g (s.heap p)).id ≡ (s.heap p).id
      → over (g (s.heap p)) ≡ over (s.heap p)
      → IsValid std s
      → IsValid std (modify std p g s)
  modified p g s = modify-IsValid std s p g

  greet-IsValid :
      (f : SynStreamFrame) {st : Stream} {s : S} {r : Result ℕ × S}
      → Added std st s r
      → IsValid std s
      → IsValid std (greet std f r)
  greet-IsValid f (refused shut) v = v
  greet-IsValid f (added p t still w h) v =
      close_read_if-IsValid _ p eof _ (close_write_if-IsValid _ p closed t w)

  not_over : (s : S) → over (new_stream std s) ≡ false
  unfolding new_stream
  not_over s = refl

  handle_syn_stream-IsValid :
      (f : SynStreamFrame) (s : S) → IsValid std s → IsValid std (handle_syn_stream std f s)
  unfolding handle_syn_stream
  handle_syn_stream-IsValid f s v =
      elim (Bool-cases
        (same s.is_server (f.stream_id % 2 == 0) || leb f.stream_id s.last_recv_id)) [
          | inl bad ↦ rw bad v
          | inr good ↦ rw good (greet-IsValid f (newcomer good) (later good))
        ]
    where
      s' : S
      s' = record s { last_recv_id = f.stream_id }

      later :
          (same s.is_server (f.stream_id % 2 == 0) || leb f.stream_id s.last_recv_id) ≡ false
          → IsValid std s'
      later good = record {
        parity = v.parity;
        positive = v.positive;
        used = λ q h. ground (arith, v.used q h, good);
        held = v.held;
        live = v.live;
      }

      newcomer :
          (same s.is_server (f.stream_id % 2 == 0) || leb f.stream_id s.last_recv_id) ≡ false
          → Added std (incoming std f s') s' (add std (incoming std f s') s')
      newcomer good =
          add_other-Added std (incoming std f s') s' (not_over s') (later good)
            (ground (arith, good)) (ground (arith, good)) (λ q h. ground (arith, v.used q h, good))

  offer-IsValid :
      (f : SynReplyFrame) (p : ℕ) (r : Reply) (s : S)
      → IsValid std s
      → IsValid std (offer std f p r s)
  offer-IsValid f p unset s v = v
  offer-IsValid f p (given h) s v = v
  offer-IsValid f p awaited s v =
      close_read_if-IsValid _ p eof _
        (modified p (λ st. record st { reply = given (some f.headers) }) s refl refl v)

  reply_to-IsValid :
      (f : SynReplyFrame) (r : Option ℕ) (s : S) → IsValid std s → IsValid std (reply_to std f r s)
  reply_to-IsValid f none s v = v
  reply_to-IsValid f (some p) s v = offer-IsValid f p (s.heap p).reply s v

  set-IsValid : (id val : ℕ) (s : S) → IsValid std s → IsValid std (set std id val s)
  unfolding set
  set-IsValid id val s v =
      elim (Bool-cases (id == settings_initial_window_size && ltb val (2 ^ 31))) [
        | inl yes_set ↦ rw yes_set v
        | inr not_set ↦ rw not_set v
      ]

  set_all-IsValid :
      (vs : List SettingsFlagIdValue) (s : S) → IsValid std s → IsValid std (set_all std vs s)
  unfolding set_all
  set_all-IsValid [] s v = v
  set_all-IsValid (w ∷ vs) s v =
      set_all-IsValid vs (set std w.id w.value s) (set-IsValid w.id w.value s v)

  widen-IsValid :
      (p : ℕ) (r : Option Error × Semaphore.Semaphore) (s : S)
      → IsValid std s
      → IsValid std (widen std p r s)
  unfolding reset write_frame
  widen-IsValid p (none, wnd) s v = modified p (λ st. record st { wnd = wnd }) s refl refl v
  widen-IsValid p (some e, wnd) s v =
      let s1 = modify std p (λ st. record st { wnd = wnd }) s in
      let s2 = (reset std (s1.heap p).id flow_control_error s1).1 in
      let shut : Stream → Stream = λ st. record st { wnd = Semaphore.close st.wnd flow_control } in
      rclose-IsValid p flow_control _
        (modified p shut s2 refl refl (modified p (λ st. record st { wnd = wnd }) s refl refl v))

  widen_if-IsValid :
      (delta : ℕ) (r : Option ℕ) (s : S) → IsValid std s → IsValid std (widen_if std delta r s)
  unfolding update_stream
  widen_if-IsValid delta none s v = v
  widen_if-IsValid delta (some p) s v = widen-IsValid p _ s v

  deliver-IsValid :
      (p : ℕ) (fin : Bool) (r : (ℕ × Option Error) × Buffer) (s : S)
      → IsValid std s
      → IsValid std (deliver std p fin r s)
  unfolding reset write_frame
  deliver-IsValid p fin ((n, none), pipe) s v =
      close_read_if-IsValid fin p eof _ (modified p (λ st. record st { pipe = pipe }) s refl refl v)
  deliver-IsValid p fin ((n, some e), pipe) s v =
      let g : Stream → Stream =
        λ st. record st { pipe = pipe; wnd = Semaphore.close st.wnd flow_control } in
      rclose-IsValid p flow_control _ (modified p g s refl refl v)

  data_to-IsValid :
      (f : DataFrame) (r : Option ℕ) (s : S) → IsValid std s → IsValid std (data_to std f r s)
  unfolding receive_data
  data_to-IsValid f none s v = v
  data_to-IsValid f (some p) s v = from (s.heap p).rclosed
    where
      taken : (ℕ × Option Error) × Buffer
      taken = Pipe.write (s.heap p).pipe f.content

      from :
          (b : Bool)
          → IsValid std (
              if b
              then spawn_reset std (s.heap p).id stream_already_closed s
              else deliver std p (has_flag f.flags data_flag_fin) taken s)
      from true = v
      from false = deliver-IsValid p (has_flag f.flags data_flag_fin) taken s v

  pub handle_read-IsValid : (f : Frame) (s : S) → IsValid std s → IsValid std (handle_read std f s)
  unfolding handle_read handle_settings handle_syn_reply handle_window_update handle_data
  handle_read-IsValid (syn_stream f) s v = handle_syn_stream-IsValid f s v
  handle_read-IsValid (syn_reply f) s v = reply_to-IsValid f (get std f.stream_id s) s v
  handle_read-IsValid (settings f) s v = set_all-IsValid f.flag_id_values s v
  handle_read-IsValid (ping f) s v = v
  handle_read-IsValid (window_update f) s v =
      widen_if-IsValid f.delta_window_size (get std f.stream_id s) s v
  handle_read-IsValid (data_frame f) s v = data_to-IsValid f (get std f.stream_id s) s v
  handle_read-IsValid (rst_stream f) s v = v
  handle_read-IsValid (go_away f) s v = v
  handle_read-IsValid (headers f) s v = v
