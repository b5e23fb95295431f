-- ===== src/Framer/Accept.antt =====
-- What the methods of spdyframing/read.go have checked of a frame that they return.
use spdy.Base.{ℕ, ◌≡◌, ◌≢◌, Bytes, false, not, List, ◌==◌, bit_and, arith}
use spdy.Errors.{framing, invalid_header_present, zero_stream_id, invalid_control_frame}
use spdy.Stdlib.{Stdlib}
use spdy.Wire.{ok, Action, ◌>>=◌, return}
use spdy.Header.{Header}
use spdy.Frame.{
  ControlFrameHeader, SynStreamFrame, SynReplyFrame, RstStreamFrame, PingFrame, GoAwayFrame,
  HeadersFrame, WindowUpdateFrame, Frame, syn_stream, syn_reply, rst_stream, settings, ping,
  go_away, headers, window_update, data_frame, type_syn_stream, type_syn_reply, type_rst_stream,
  type_settings, type_ping, type_go_away, type_headers, type_window_update,
}
use spdy.Framer.{Framer, receive, receive_number, receive_block}
use spdy.Framer.Block.{parse_header_value_block}
use spdy.Framer.Read.{
  invalid_resp_headers, invalid_req_headers, invalid_headers_for, has_invalid, minus, uncork,
  check_payload, read_rst_stream, read_settings, read_ping, read_go_away, read_window_update,
  read_header_block, read_syn_stream, read_syn_reply, read_headers, read_body, parse_control_frame,
  parse_data_frame, read_frame,
}
use spdy.Framer.Yields.{
  Yields, return-Yields, bind-Yields, through-Yields, check-Yields, throw-Yields, if-Yields,
}

-- The checks that a frame has passed.
abbrev pub IsChecked : Frame → Type 0
IsChecked (syn_stream fr) =
    (fr.stream_id ≢ 0) × (has_invalid invalid_req_headers fr.headers ≡ false)
IsChecked (syn_reply fr) =
    (fr.stream_id ≢ 0) × (has_invalid invalid_resp_headers fr.headers ≡ false)
IsChecked (rst_stream fr) = (fr.stream_id ≢ 0) × (fr.status ≢ 0)
IsChecked (settings fr) = Unit {0}
IsChecked (ping fr) = (fr.id ≢ 0) × (fr.cf_header.flags ≡ 0)
IsChecked (go_away fr) = (fr.cf_header.flags ≡ 0) × (fr.cf_header.length ≡ 8)
IsChecked (headers fr) =
    (fr.stream_id ≢ 0) × (has_invalid (invalid_headers_for fr.stream_id) fr.headers ≡ false)
IsChecked (window_update fr) = (fr.cf_header.flags ≡ 0) × (fr.cf_header.length ≡ 8)
IsChecked (data_frame fr) = fr.stream_id ≢ 0

not_zero : (n : ℕ) → (n == 0) ≡ false → n ≢ 0
not_zero n h = ground arith

is_that : (n k : ℕ) → not (n == k) ≡ false → n ≡ k
is_that n k h = ground arith

module _ (std : Stdlib) where
  abbrev parsed : ℕ → Action (Framer std) Header
  parsed id f =
      check_payload std (parse_header_value_block std.unicode_lower (receive_block std) id f)

  header_block-Yields :
      (size : ℕ) (invalid : List Bytes) (id : ℕ)
      → Yields
          (λ h. (id ≢ 0) × (has_invalid invalid h ≡ false))
          (read_header_block std size invalid id)
  unfolding read_header_block
  header_block-Yields size invalid id =
      let P : Header → Type 0 = λ h. (id ≢ 0) × (has_invalid invalid h ≡ false) in
      bind-Yields P (uncork std size) _ λ _. bind-Yields P (parsed id) _ λ h.
        check-Yields P (has_invalid invalid h) (framing invalid_header_present id) _ λ allowed.
          check-Yields P (id == 0) (framing zero_stream_id 0) _
            λ some_id. return-Yields P h (not_zero id some_id, allowed)

  rst_stream-Yields :
      (h : ControlFrameHeader) → Yields (λ fr. IsChecked (rst_stream fr)) (read_rst_stream std h)
  unfolding read_rst_stream
  rst_stream-Yields h =
      let P : RstStreamFrame → Type 0 = λ fr. IsChecked (rst_stream fr) in
      bind-Yields P (receive_number std 4) _ λ id. bind-Yields P (receive_number std 4) _ λ status.
        check-Yields P (status == 0) (framing invalid_control_frame id) _ λ some_status.
          check-Yields P (id == 0) (framing zero_stream_id 0) _
            λ some_id. return-Yields P _ (not_zero id some_id, not_zero status some_status)

  ping-Yields : (h : ControlFrameHeader) → Yields (λ fr. IsChecked (ping fr)) (read_ping std h)
  unfolding read_ping
  ping-Yields h =
      let P : PingFrame → Type 0 = λ fr. IsChecked (ping fr) in
      bind-Yields P (receive_number std 4) _ λ id.
        check-Yields P (id == 0) (framing zero_stream_id 0) _ λ some_id.
          check-Yields P (not (h.flags == 0)) (framing invalid_control_frame id) _
            λ no_flags. return-Yields P _ (not_zero id some_id, is_that h.flags 0 no_flags)

  go_away-Yields :
      (h : ControlFrameHeader) → Yields (λ fr. IsChecked (go_away fr)) (read_go_away std h)
  unfolding read_go_away
  go_away-Yields h =
      let P : GoAwayFrame → Type 0 = λ fr. IsChecked (go_away fr) in
      bind-Yields P (receive_number std 4) _ λ last.
        check-Yields P (not (h.flags == 0)) (framing invalid_control_frame last) _ λ no_flags.
          check-Yields P (not (h.length == 8)) (framing invalid_control_frame last) _ λ eight.
            bind-Yields P (receive_number std 4) _
              λ status. return-Yields P _ (is_that h.flags 0 no_flags, is_that h.length 8 eight)

  window_update-Yields :
      (h : ControlFrameHeader)
      → Yields (λ fr. IsChecked (window_update fr)) (read_window_update std h)
  unfolding read_window_update
  window_update-Yields h =
      let P : WindowUpdateFrame → Type 0 = λ fr. IsChecked (window_update fr) in
      bind-Yields P (receive_number std 4) _ λ id.
        check-Yields P (not (h.flags == 0)) (framing invalid_control_frame id) _ λ no_flags.
          check-Yields P (not (h.length == 8)) (framing invalid_control_frame id) _ λ eight.
            bind-Yields P (receive_number std 4) _
              λ delta. return-Yields P _ (is_that h.flags 0 no_flags, is_that h.length 8 eight)

  syn_stream-Yields :
      (h : ControlFrameHeader) → Yields (λ fr. IsChecked (syn_stream fr)) (read_syn_stream std h)
  unfolding read_syn_stream
  syn_stream-Yields h =
      let P : SynStreamFrame → Type 0 = λ fr. IsChecked (syn_stream fr) in
      bind-Yields P (receive_number std 4) _ λ id.
        bind-Yields P (receive_number std 4) _ λ associated.
          bind-Yields P (receive_number std 1) _ λ priority.
            bind-Yields P (receive_number std 1) _ λ slot.
              through-Yields _ P (read_header_block std (minus h.length 10) invalid_req_headers id)
                _ (header_block-Yields (minus h.length 10) invalid_req_headers id)
                λ hs passed. return-Yields P _ passed

  syn_reply-Yields :
      (h : ControlFrameHeader) → Yields (λ fr. IsChecked (syn_reply fr)) (read_syn_reply std h)
  unfolding read_syn_reply
  syn_reply-Yields h =
      let P : SynReplyFrame → Type 0 = λ fr. IsChecked (syn_reply fr) in
      bind-Yields P (receive_number std 4) _ λ id.
        through-Yields _ P (read_header_block std (minus h.length 4) invalid_resp_headers id) _
          (header_block-Yields (minus h.length 4) invalid_resp_headers id)
          λ hs passed. return-Yields P _ passed

  headers-Yields :
      (h : ControlFrameHeader) → Yields (λ fr. IsChecked (headers fr)) (read_headers std h)
  unfolding read_headers
  headers-Yields h =
      let P : HeadersFrame → Type 0 = λ fr. IsChecked (headers fr) in
      bind-Yields P (receive_number std 4) _ λ id.
        through-Yields _ P (read_header_block std (minus h.length 4) (invalid_headers_for id) id) _
          (header_block-Yields (minus h.length 4) (invalid_headers_for id) id)
          λ hs passed. return-Yields P _ passed

  settings-Yields :
      (h : ControlFrameHeader) → Yields (λ fr. IsChecked (settings fr)) (read_settings std h)
  settings-Yields h = record { holds = λ s t fr e. tt }

  -- A frame as one of the constructors of `Frame`.
  wrapped-Yields :
      {A : Type 0} (con : A → Frame) (m : Action (Framer std) A)
      → Yields (λ fr. IsChecked (con fr)) m
      → Yields IsChecked (m >>= λ fr. return (con fr))
  wrapped-Yields con m v =
      through-Yields (λ fr. IsChecked (con fr)) IsChecked m _ v
        λ fr passed. return-Yields IsChecked (con fr) passed

  body-Yields : (h : ControlFrameHeader) → Yields IsChecked (read_body std h)
  unfolding read_body
  body-Yields h =
      if-Yields (t == type_syn_stream) (wrapped-Yields syn_stream _ (syn_stream-Yields h)) (
        if-Yields (t == type_syn_reply) (wrapped-Yields syn_reply _ (syn_reply-Yields h)) (
          if-Yields (t == type_rst_stream) (wrapped-Yields rst_stream _ (rst_stream-Yields h)) (
            if-Yields (t == type_settings) (wrapped-Yields settings _ (settings-Yields h)) (
              if-Yields (t == type_ping) (wrapped-Yields ping _ (ping-Yields h)) (
                if-Yields (t == type_go_away) (wrapped-Yields go_away _ (go_away-Yields h)) (
                  if-Yields (t == type_headers) (wrapped-Yields headers _ (headers-Yields h)) (
                    if-Yields (t == type_window_update)
                      (wrapped-Yields window_update _ (window_update-Yields h))
                      (throw-Yields IsChecked (framing invalid_control_frame 0)))))))))
    where
      t : ℕ
      t = h.frame_type

  data-Yields : (id : ℕ) → Yields IsChecked (parse_data_frame std id)
  unfolding parse_data_frame
  data-Yields id = bind-Yields IsChecked (receive_number std 4) _ λ word.
      bind-Yields IsChecked (receive std (bit_and word 0xffffff)) _ λ bytes.
        check-Yields IsChecked (id == 0) (framing zero_stream_id 0) _
          λ some_id. return-Yields IsChecked _ (not_zero id some_id)

  control-Yields :
      (version frame_type : ℕ) → Yields IsChecked (parse_control_frame std version frame_type)
  unfolding parse_control_frame
  control-Yields version frame_type =
      bind-Yields IsChecked (receive_number std 4) _ λ word. body-Yields _

  frame-Yields : Yields IsChecked (read_frame std)
  unfolding read_frame
  frame-Yields =
      bind-Yields IsChecked (receive_number std 4) _
        λ word. if-Yields (not (bit_and word 0x80000000 == 0)) (control-Yields _ _) (data-Yields _)

  -- A frame that is read, whatever the connection brings and with or without header compression,
  -- has passed the checks of its type: the stream id of a DATA frame, of a frame with a header and of a
  -- reset, a reset's status and a ping's id are not zero, a header names no forbidden field, and a ping,
  -- a GOAWAY and a window update have no flags, the last two with a length of eight. Of the stream id of
  -- a window update nothing is said.
  pub read_frame-IsChecked :
      (f g : Framer std) (fr : Frame) → read_frame std f ≡ (ok fr, g) → IsChecked fr
  read_frame-IsChecked f g fr e = frame-Yields.holds f g fr e
