-- ===== src/Framer/Write.antt =====
-- spdyframing/write.go: the methods that serialise a frame. The fields of the frame's own header
-- that a method sets are those of the header written here; the frame is not read again.
use Prim.Native.Nat.{bit_or}
use spdy.Base.{
  ℕ, ◌+◌, ◌*◌, ◌%◌, ◌^◌, Bytes, ◌||◌, not, List, [], ◌∷◌, ◌++◌, length, ltb, ◌==◌, if◌then◌else◌,
  bit_and,
}
use spdy.Errors.{framing, invalid_control_frame, invalid_data_frame, zero_stream_id}
use spdy.Stdlib.{Stdlib}
use spdy.Wire.{ok, Action, ◌>>=◌, ◌>>◌, return, fail_if, be8, be16, be32}
use spdy.Header.{Header}
use spdy.Frame.{
  ControlFrameHeader, SynStreamFrame, SynReplyFrame, RstStreamFrame, SettingsFlagIdValue,
  SettingsFrame, PingFrame, GoAwayFrame, HeadersFrame, WindowUpdateFrame, DataFrame, Frame,
  syn_stream, syn_reply, rst_stream, settings, ping, go_away, headers, window_update, data_frame,
  type_syn_stream, type_syn_reply, type_rst_stream, type_settings, type_ping, type_go_away,
  type_headers, type_window_update, version, max_data_length,
}
use spdy.Framer.{Framer, send}
use spdy.Framer.Block.{write_header_value_block}

-- `uint32(x)<<24 | y`
abbrev pub top_and_low : ℕ → ℕ → ℕ
top_and_low x y = bit_or (x * 2 ^ 24 % 2 ^ 32) y

-- The header that a method writes: the frame's flags are kept or cleared by the caller.
abbrev pub stamp : ℕ → ℕ → ℕ → ControlFrameHeader
stamp frame_type flags len = record {
  version = version;
  frame_type = frame_type;
  flags = flags;
  length = len % 2 ^ 32;
}

module _ (std : Stdlib) where
  abbrev Out : Type 0
  Out = Action (Framer std) (Unit {0})

  unfoldable pub write_control_frame_header : ControlFrameHeader → Out
  write_control_frame_header h = do
    send std (be16 (bit_or 0x8000 h.version))
    send std (be16 h.frame_type)
    send std (be32 (top_and_low h.flags h.length))

  unfoldable pub write_rst_stream : RstStreamFrame → Out
  write_rst_stream frame = do
    fail_if (frame.stream_id == 0) (framing zero_stream_id 0)
    write_control_frame_header (stamp type_rst_stream 0 8)
    send std (be32 frame.stream_id)
    fail_if (frame.status == 0) (framing invalid_control_frame frame.stream_id)
    send std (be32 frame.status)

  unfoldable pub write_flag_id_values : List SettingsFlagIdValue → Out
  write_flag_id_values [] = return tt
  write_flag_id_values (v ∷ vs) = do
    send std (be32 (top_and_low v.flag v.id))
    send std (be32 v.value)
    write_flag_id_values vs

  unfoldable pub write_settings : SettingsFrame → Out
  write_settings frame = do
    write_control_frame_header
        (stamp type_settings frame.cf_header.flags (length frame.flag_id_values * 8 + 4))
    send std (be32 (length frame.flag_id_values))
    write_flag_id_values frame.flag_id_values

  unfoldable pub write_ping : PingFrame → Out
  write_ping frame = do
    fail_if (frame.id == 0) (framing zero_stream_id 0)
    write_control_frame_header (stamp type_ping 0 4)
    send std (be32 frame.id)

  unfoldable pub write_go_away : GoAwayFrame → Out
  write_go_away frame = do
    write_control_frame_header (stamp type_go_away 0 8)
    send std (be32 frame.last_good_stream_id)
    send std (be32 frame.status)

  unfoldable pub write_window_update : WindowUpdateFrame → Out
  write_window_update frame = do
    write_control_frame_header (stamp type_window_update 0 8)
    send std (be32 frame.stream_id)
    send std (be32 frame.delta_window_size)

  -- Writes into `f.headerCompressor` end up in `f.headerBuf`.
  abbrev pub put_compressed : Bytes → Bytes × std.Deflater → Bytes × std.Deflater
  put_compressed bs (buf, z) = let (more, z') = std.deflate bs z in (buf ++ more, z')

  abbrev pub put_plain : Bytes → Bytes → Bytes
  put_plain bs buf = buf ++ bs

  -- Marshal the headers: in memory, so that no write fails.
  unfoldable pub marshal : Header → Out
  marshal h f =
      if f.header_compression_disabled
      then (let (_, buf) = write_header_value_block std.unicode_lower put_plain h f.header_buf in
          (ok tt, record f { header_buf = buf }))
      else (let (_, (buf, z)) =
            write_header_value_block std.unicode_lower put_compressed h
              (f.header_buf, f.header_compressor) in
          let (more, z') = std.flush z in
          (ok tt, record f { header_buf = buf ++ more; header_compressor = z' }))

  -- `len(f.headerBuf.Bytes())`, `f.w.Write(f.headerBuf.Bytes())` and `f.headerBuf.Reset()`
  abbrev pub buffered : Action (Framer std) ℕ
  buffered f = (ok (length f.header_buf), f)

  abbrev pub send_buffered : Out
  send_buffered f = send std f.header_buf f

  abbrev pub reset_buffer : Out
  reset_buffer f = (ok tt, record f { header_buf = [] })

  unfoldable pub write_syn_stream : SynStreamFrame → Out
  write_syn_stream frame = do
    fail_if (frame.stream_id == 0) (framing zero_stream_id 0)
    marshal frame.headers
    n ← buffered
    write_control_frame_header (stamp type_syn_stream frame.cf_header.flags (n + 10))
    send std (be32 frame.stream_id)
    send std (be32 frame.associated_to_stream_id)
    send std (be8 (frame.priority * 2 ^ 5))
    send std (be8 frame.slot)
    send_buffered
    reset_buffer

  -- SYN_REPLY and HEADERS have one layout.
  unfoldable pub write_reply_or_headers : ℕ → ControlFrameHeader → ℕ → Header → Out
  write_reply_or_headers frame_type cf stream_id h = do
    fail_if (stream_id == 0) (framing zero_stream_id 0)
    marshal h
    n ← buffered
    write_control_frame_header (stamp frame_type cf.flags (n + 4))
    send std (be32 stream_id)
    send_buffered
    reset_buffer

  unfoldable pub write_syn_reply : SynReplyFrame → Out
  write_syn_reply frame =
      write_reply_or_headers type_syn_reply frame.cf_header frame.stream_id frame.headers

  unfoldable pub write_headers : HeadersFrame → Out
  write_headers frame =
      write_reply_or_headers type_headers frame.cf_header frame.stream_id frame.headers

  unfoldable pub write_data : DataFrame → Out
  write_data frame = do
    fail_if (frame.stream_id == 0) (framing zero_stream_id 0)
    fail_if
        (not (bit_and frame.stream_id 0x80000000 == 0)
          || ltb max_data_length (length frame.content))
        (framing invalid_data_frame frame.stream_id)
    send std (be32 frame.stream_id)
    send std (be32 (top_and_low frame.flags (length frame.content)))
    if ltb 0 (length frame.content) then send std frame.content else return tt

  -- `WriteFrame`
  unfoldable pub write_frame : Frame → Out
  write_frame (syn_stream frame) = write_syn_stream frame
  write_frame (syn_reply frame) = write_syn_reply frame
  write_frame (rst_stream frame) = write_rst_stream frame
  write_frame (settings frame) = write_settings frame
  write_frame (ping frame) = write_ping frame
  write_frame (go_away frame) = write_go_away frame
  write_frame (headers frame) = write_headers frame
  write_frame (window_update frame) = write_window_update frame
  write_frame (data_frame frame) = write_data frame
