-- ===== src/Framer/RoundTrip/Sends.antt =====
-- `WriteFrame` of spdyframing/write.go puts the layout of a frame on the connection, or as much of
-- it as the connection takes.
use spdy.Base.{
  ◌<◌, ◌≤◌, le→leb, ◌≡◌, ◌≢◌, refl, ◌∙◌, Bytes, true, false, ◌++◌, leb, length, take, lt→not_leb,
}
use spdy.Errors.{broken, framing, invalid_control_frame}
use spdy.Stdlib.{Stdlib}
use spdy.Framer.Encoding.{control_header}
use spdy.Wire.{ok, err, Action, continue, be32}
use spdy.Header.{Header}
use spdy.Frame.{
  RstStreamFrame, type_rst_stream, Frame, syn_stream, syn_reply, rst_stream, settings, ping,
  go_away, headers, window_update, data_frame,
}
use spdy.Framer.{Framer, send}
use spdy.Framer.Emit.{Emits, send-fits, send-breaks}
use spdy.Framer.Write.{reset_buffer, write_frame, write_rst_stream}
use spdy.Framer.Encode.{
  write_ping-Emits, write_go_away-Emits, write_window_update-Emits, write_rst_stream-Emits,
  write_rst_stream_zero, write_settings-Emits, write_data-Emits,
}
use spdy.Framer.EncodeHeaders.{
  holding, write_syn_stream_flushes, write_syn_reply_flushes, write_headers_flushes,
}
use spdy.Framer.RoundTrip.{wire, IsWire, IsPlain, sent}

module _ (std : Stdlib) where
  pub emit_fits :
      {m : Action (Framer std) (Unit {0})} (bs : Bytes) (f : Framer std)
      → Emits std m bs (ok tt)
      → leb (length bs) f.room ≡ true
      → m f ≡ (ok tt, sent std f bs)
  emit_fits bs f p h = p f ∙ rw (send-fits std bs f h)

  flush_fits :
      (h : Header) (bs : Bytes) (f : Framer std)
      → IsPlain std f
      → leb (length bs) f.room ≡ true
      → continue (send std bs (holding std f h)) (λ _. reset_buffer std) ≡ (ok tt, sent std f bs)
  flush_fits h bs f p fits = rw (send-fits std bs (holding std f h) fits) (rw p.drained refl)

  pub write_fits :
      (fr : Frame) (f : Framer std)
      → IsWire std.unicode_lower fr
      → IsPlain std f
      → leb (length (wire std.unicode_lower fr)) f.room ≡ true
      → write_frame std fr f ≡ (ok tt, sent std f (wire std.unicode_lower fr))
  unfolding write_frame
  write_fits (syn_stream fr) f (i, w, a, p, s, fl, hs) v h =
      write_syn_stream_flushes std fr f i fl hs.block_fits v.disabled v.drained
      ∙ flush_fits fr.headers _ f v h
  write_fits (syn_reply fr) f (i, w, fl, hs) v h =
      write_syn_reply_flushes std fr f i fl hs.block_fits v.disabled v.drained
      ∙ flush_fits fr.headers _ f v h
  write_fits (rst_stream fr) f (i, w, s, t) v h =
      emit_fits _ f (write_rst_stream-Emits std fr i s) h
  write_fits (settings fr) f (fl, n, vs) v h = emit_fits _ f (write_settings-Emits std fr fl n vs) h
  write_fits (ping fr) f (i, w) v h = emit_fits _ f (write_ping-Emits std fr i) h
  write_fits (go_away fr) f w v h = emit_fits _ f (write_go_away-Emits std fr) h
  write_fits (headers fr) f (i, w, fl, hs) v h =
      write_headers_flushes std fr f i fl hs.block_fits v.disabled v.drained
      ∙ flush_fits fr.headers _ f v h
  write_fits (window_update fr) f w v h = emit_fits _ f (write_window_update-Emits std fr) h
  write_fits (data_frame fr) f (i, w, fl, n) v h =
      emit_fits _ f (write_data-Emits std fr i w fl n) h

  pub emit_breaks :
      {m : Action (Framer std) (Unit {0})} (bs : Bytes) (f : Framer std)
      → Emits std m bs (ok tt)
      → leb (length bs) f.room ≡ false
      → ((m f).0 ≡ err broken) × ((m f).1.out ≡ f.out ++ take f.room bs)
  emit_breaks bs f p h = rw (p f) (rw (send-breaks std bs f h) (refl, refl))

  flush_breaks :
      (h : Header) (bs : Bytes) (f : Framer std)
      → leb (length bs) f.room ≡ false
      → let r = continue (send std bs (holding std f h)) (λ _. reset_buffer std) in
        (r.0 ≡ err broken) × (r.1.out ≡ f.out ++ take f.room bs)
  flush_breaks h bs f short = rw (send-breaks std bs (holding std f h) short) (refl, refl)

  -- Without header compression, a write of a frame fit for the wire on a connection that takes too
  -- little for it fails, having written as much of the frame's layout as the connection took.
  pub write_frame_breaks :
      (fr : Frame) (f : Framer std)
      → IsWire std.unicode_lower fr
      → IsPlain std f
      → f.room < length (wire std.unicode_lower fr)
      → ((write_frame std fr f).0 ≡ err broken)
        × ((write_frame std fr f).1.out ≡ f.out ++ take f.room (wire std.unicode_lower fr))
  unfolding write_frame
  write_frame_breaks (syn_stream fr) f (i, w, a, p, s, fl, hs) v h =
      rw (write_syn_stream_flushes std fr f i fl hs.block_fits v.disabled v.drained)
        (flush_breaks fr.headers _ f (lt→not_leb _ _ h))
  write_frame_breaks (syn_reply fr) f (i, w, fl, hs) v h =
      rw (write_syn_reply_flushes std fr f i fl hs.block_fits v.disabled v.drained)
        (flush_breaks fr.headers _ f (lt→not_leb _ _ h))
  write_frame_breaks (rst_stream fr) f (i, w, s, t) v h =
      emit_breaks _ f (write_rst_stream-Emits std fr i s) (lt→not_leb _ _ h)
  write_frame_breaks (settings fr) f (fl, n, vs) v h =
      emit_breaks _ f (write_settings-Emits std fr fl n vs) (lt→not_leb _ _ h)
  write_frame_breaks (ping fr) f (i, w) v h =
      emit_breaks _ f (write_ping-Emits std fr i) (lt→not_leb _ _ h)
  write_frame_breaks (go_away fr) f w v h =
      emit_breaks _ f (write_go_away-Emits std fr) (lt→not_leb _ _ h)
  write_frame_breaks (headers fr) f (i, w, fl, hs) v h =
      rw (write_headers_flushes std fr f i fl hs.block_fits v.disabled v.drained)
        (flush_breaks fr.headers _ f (lt→not_leb _ _ h))
  write_frame_breaks (window_update fr) f w v h =
      emit_breaks _ f (write_window_update-Emits std fr) (lt→not_leb _ _ h)
  write_frame_breaks (data_frame fr) f (i, w, fl, n) v h =
      emit_breaks _ f (write_data-Emits std fr i w fl n) (lt→not_leb _ _ h)

  -- A RST_STREAM frame with a status of zero is refused, but only after twelve of the sixteen bytes
  -- that its header announces have been written, on a connection that takes them.
  pub write_rst_stream_halts :
      (fr : RstStreamFrame) (f : Framer std)
      → fr.stream_id ≢ 0
      → fr.status ≡ 0
      → 12 ≤ f.room
      → write_rst_stream std fr f ≡ (
        err (framing invalid_control_frame fr.stream_id),
        sent std f (control_header type_rst_stream 0 8 ++ be32 fr.stream_id),
      )
  write_rst_stream_halts fr f i s h =
      let head = control_header type_rst_stream 0 8 ++ be32 fr.stream_id in
      write_rst_stream_zero std fr i s f ∙ rw (send-fits std head f (le→leb _ _ h))
