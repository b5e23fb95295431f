-- ===== src/Framer/Progress.antt =====
-- What the methods of spdyframing/read.go take from the connection.
use spdy.Base.{
  ℕ, zero, suc, ◌+◌, ◌≤◌, ◌≡◌, ap, Bytes, Bool, true, false, not, List, [], length, ◌==◌,
  if◌then◌else◌, bit_and, Option, some, none,
}
use spdy.Errors.{Error, framing, invalid_header_present, zero_stream_id, invalid_control_frame}
use spdy.Stdlib.{Stdlib}
use spdy.Wire.{Result, ok, err, Action, ◌>>=◌, return, number}
use spdy.Header.{Header}
use spdy.Frame.{
  ControlFrameHeader, Frame, syn_stream, syn_reply, rst_stream, settings, ping, go_away, headers,
  window_update, type_syn_stream, type_syn_reply, type_rst_stream, type_settings, type_ping,
  type_go_away, type_headers, type_window_update,
}
use spdy.Framer.{Framer, receive, receive_number, receive_block}
use spdy.Framer.Block.{read_string, read_entry, read_entries, finish, parse_header_value_block}
use spdy.Framer.Read.{
  invalid_resp_headers, invalid_req_headers, invalid_headers_for, has_invalid, minus, uncork,
  check_payload, read_rst_stream, read_flag_id_values, read_settings, read_ping, read_go_away,
  read_window_update, read_header_block, read_syn_stream, read_syn_reply, read_headers, read_body,
  parse_control_frame, parse_data_frame, read_frame,
}
use spdy.Framer.Takes.{
  Takes, Keeps, return-Takes, throw-Takes, bind-Takes, check-Takes, if-Takes, receive-Takes,
  number-Takes, weaken, then-Keeps, number-Keeps, uncork-Keeps, block-Keeps,
}

unless :
    (b : Bool) (x : Result Header) (d : Error) (h : Header)
    → (if b then err d else x) ≡ ok h
    → x ≡ ok h
unless true x d h e = absurd (let bad : err d ≡ ok h = e in cc)
unless false x d h e = e

module _ {std : Stdlib} where
  string-Keeps : Keeps (read_string std.unicode_lower (receive_block std))
  unfolding read_string
  string-Keeps = then-Keeps (receive_block std 4) _ (block-Keeps 4) λ n. block-Keeps (number n)

  entry-Keeps :
      (id : ℕ) (acc : Header × Option Error)
      → Keeps (read_entry std.unicode_lower (receive_block std) id acc)
  unfolding read_entry
  entry-Keeps id (h, e) =
      then-Keeps (read_string std.unicode_lower (receive_block std)) _ string-Keeps λ name.
        then-Keeps (read_string std.unicode_lower (receive_block std)) _ string-Keeps
          λ value. return-Takes _

  entries-Keeps :
      (id n : ℕ) (acc : Header × Option Error)
      → Keeps (read_entries std.unicode_lower (receive_block std) id n acc)
  unfolding read_entries
  entries-Keeps id zero acc = return-Takes acc
  entries-Keeps id (suc n) acc =
      then-Keeps (read_entry std.unicode_lower (receive_block std) id acc) _ (entry-Keeps id acc)
        (entries-Keeps id n)

  finish-Keeps :
      (acc : Header × Option Error) → Keeps (finish std.unicode_lower (receive_block std) acc)
  finish-Keeps (h, none) = return-Takes h
  finish-Keeps (h, some e) = throw-Takes 0 e

  parse-Keeps : (id : ℕ) → Keeps (parse_header_value_block std.unicode_lower (receive_block std) id)
  unfolding parse_header_value_block
  parse-Keeps id = then-Keeps (receive_block std 4) _ (block-Keeps 4) λ n.
      then-Keeps (read_entries std.unicode_lower (receive_block std) id (number n) ([], none)) _
        (entries-Keeps id (number n) ([], none)) finish-Keeps

  parsed-Keeps :
      (id : ℕ)
      → Keeps (λ f.
        check_payload std (parse_header_value_block std.unicode_lower (receive_block std) id f))
  unfolding check_payload
  parsed-Keeps id = record {
    holds = λ f g h e.
        let r = parse_header_value_block std.unicode_lower (receive_block std) id f in
        let same : r.1 ≡ g = ap (λ r. r.1) e in
        rw (← same) ((parse-Keeps id).holds f r.1 h (was_ok r h (ap (λ r. r.0) e)));
  }
    where
      was_ok :
          (r : Result Header × Framer std) (h : Header)
          → (check_payload std r).0 ≡ ok h
          → r ≡ (ok h, r.1)
      was_ok (x, f) h e = ap (λ y. (y, f)) (unless _ x _ h e)

  header_block-Keeps :
      (size : ℕ) (invalid : List Bytes) (id : ℕ) → Keeps (read_header_block std size invalid id)
  unfolding read_header_block
  header_block-Keeps size invalid id = then-Keeps (uncork std size) _ (uncork-Keeps size) λ _.
      then-Keeps _ _ (parsed-Keeps id) λ h.
        check-Takes (has_invalid invalid h) (framing invalid_header_present id) _
          (check-Takes (id == 0) (framing zero_stream_id 0) _ (return-Takes h))

  syn_stream-Keeps : (h : ControlFrameHeader) → Keeps (read_syn_stream std h)
  unfolding read_syn_stream
  syn_stream-Keeps h = number-Keeps 4 _ λ id. number-Keeps 4 _ λ associated.
      number-Keeps 1 _ λ priority. number-Keeps 1 _ λ slot.
        then-Keeps (read_header_block std (minus h.length 10) invalid_req_headers id) _
          (header_block-Keeps _ _ id) λ hs. return-Takes _

  syn_reply-Keeps : (h : ControlFrameHeader) → Keeps (read_syn_reply std h)
  unfolding read_syn_reply
  syn_reply-Keeps h = number-Keeps 4 _ λ id.
      then-Keeps (read_header_block std (minus h.length 4) invalid_resp_headers id) _
        (header_block-Keeps _ _ id) λ hs. return-Takes _

  headers-Keeps : (h : ControlFrameHeader) → Keeps (read_headers std h)
  unfolding read_headers
  headers-Keeps h = number-Keeps 4 _ λ id.
      then-Keeps (read_header_block std (minus h.length 4) (invalid_headers_for id) id) _
        (header_block-Keeps _ _ id) λ hs. return-Takes _

  rst_stream-Keeps : (h : ControlFrameHeader) → Keeps (read_rst_stream std h)
  unfolding read_rst_stream
  rst_stream-Keeps h = number-Keeps 4 _ λ id. number-Keeps 4 _ λ status.
      check-Takes (status == 0) (framing invalid_control_frame id) _
        (check-Takes (id == 0) (framing zero_stream_id 0) _ (return-Takes _))

  values-Keeps : (n : ℕ) → Keeps (read_flag_id_values std n)
  unfolding read_flag_id_values
  values-Keeps zero = return-Takes []
  values-Keeps (suc n) = number-Keeps 4 _ λ id.
      number-Keeps 4 _
        λ value. then-Keeps (read_flag_id_values std n) _ (values-Keeps n) λ vs. return-Takes _

  settings-Keeps : (h : ControlFrameHeader) → Keeps (read_settings std h)
  unfolding read_settings
  settings-Keeps h =
      number-Keeps 4 _
        λ n. then-Keeps (read_flag_id_values std n) _ (values-Keeps n) λ vs. return-Takes _

  ping-Keeps : (h : ControlFrameHeader) → Keeps (read_ping std h)
  unfolding read_ping
  ping-Keeps h = number-Keeps 4 _ λ id.
      check-Takes (id == 0) (framing zero_stream_id 0) _
        (check-Takes (not (h.flags == 0)) (framing invalid_control_frame id) _ (return-Takes _))

  go_away-Keeps : (h : ControlFrameHeader) → Keeps (read_go_away std h)
  unfolding read_go_away
  go_away-Keeps h = number-Keeps 4 _ λ last.
      check-Takes (not (h.flags == 0)) (framing invalid_control_frame last) _ (
        check-Takes (not (h.length == 8)) (framing invalid_control_frame last) _
          (number-Keeps 4 _ λ status. return-Takes _))

  window_update-Keeps : (h : ControlFrameHeader) → Keeps (read_window_update std h)
  unfolding read_window_update
  window_update-Keeps h = number-Keeps 4 _ λ id.
      check-Takes (not (h.flags == 0)) (framing invalid_control_frame id) _ (
        check-Takes (not (h.length == 8)) (framing invalid_control_frame id) _
          (number-Keeps 4 _ λ delta. return-Takes _))

  wrapped-Keeps :
      {A : Type 0} (con : A → Frame) (m : Action (Framer std) A)
      → Keeps m
      → Keeps (m >>= λ fr. return (con fr))
  wrapped-Keeps con m v = then-Keeps m _ v λ fr. return-Takes (con fr)

  body-Keeps : (h : ControlFrameHeader) → Keeps (read_body std h)
  unfolding read_body
  body-Keeps h = if-Takes (t == type_syn_stream) (wrapped-Keeps syn_stream _ (syn_stream-Keeps h)) (
      if-Takes (t == type_syn_reply) (wrapped-Keeps syn_reply _ (syn_reply-Keeps h)) (
        if-Takes (t == type_rst_stream) (wrapped-Keeps rst_stream _ (rst_stream-Keeps h)) (
          if-Takes (t == type_settings) (wrapped-Keeps settings _ (settings-Keeps h)) (
            if-Takes (t == type_ping) (wrapped-Keeps ping _ (ping-Keeps h)) (
              if-Takes (t == type_go_away) (wrapped-Keeps go_away _ (go_away-Keeps h)) (
                if-Takes (t == type_headers) (wrapped-Keeps headers _ (headers-Keeps h)) (
                  if-Takes (t == type_window_update)
                    (wrapped-Keeps window_update _ (window_update-Keeps h))
                    (throw-Takes 0 (framing invalid_control_frame 0)))))))))
    where
      t : ℕ
      t = h.frame_type

  control-Takes : (version frame_type : ℕ) → Takes 4 (parse_control_frame std version frame_type)
  unfolding parse_control_frame
  control-Takes version frame_type =
      bind-Takes 4 0 (receive_number std 4) _ (number-Takes 4) λ word. body-Keeps _

  data-Takes : (id : ℕ) → Takes 4 (parse_data_frame std id)
  unfolding parse_data_frame
  data-Takes id = bind-Takes 4 0 (receive_number std 4) _ (number-Takes 4) λ word.
      then-Keeps (receive std (bit_and word 0xffffff)) _ (weaken _ (receive-Takes _))
        λ bytes. check-Takes (id == 0) (framing zero_stream_id 0) _ (return-Takes _)

  frame-Takes : Takes 8 (read_frame std)
  unfolding read_frame
  frame-Takes =
      bind-Takes 4 4 (receive_number std 4) _ (number-Takes 4)
        λ word. if-Takes (not (bit_and word 0x80000000 == 0)) (control-Takes _ _) (data-Takes _)

module _ (std : Stdlib) where
  -- A frame that is read takes at least eight bytes off the connection, whatever it brings and with
  -- or without header compression.
  pub read_frame_shrinks :
      (f g : Framer std) (fr : Frame)
      → read_frame std f ≡ (ok fr, g)
      → 8 + length g.input ≤ length f.input
  read_frame_shrinks f g fr e = frame-Takes.holds f g fr e
