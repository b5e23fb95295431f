-- ===== src/Framer/Read.antt =====
-- spdyframing/read.go: the methods that read a frame.
use Prim.Native.Nat.{bit_and}
use spdy.Base.{
  ℕ, zero, suc, ◌+◌, ◌-◌, ◌/◌, ◌%◌, ◌^◌, Bytes, Bool, true, false, ◌&&◌, ◌||◌, not, List, [], ◌∷◌,
  ◌==◌, if◌then◌else◌, bytes_eq,
}
use spdy.Base.Text.{codes}
use spdy.Errors.{
  eof, framing, invalid_control_frame, wrong_compressed_payload_size, invalid_header_present,
  zero_stream_id,
}
use spdy.Stdlib.{Stdlib}
use spdy.Wire.{Result, ok, err, Action, ◌>>=◌, ◌>>◌, return, throw, fail_if}
use spdy.Header.{Header}
use spdy.Frame.{
  ControlFrameHeader, SynStreamFrame, SynReplyFrame, RstStreamFrame, SettingsFlagIdValue,
  SettingsFrame, PingFrame, GoAwayFrame, HeadersFrame, WindowUpdateFrame, Frame, syn_stream,
  syn_reply, rst_stream, settings, ping, go_away, headers, window_update, data_frame,
  type_syn_stream, type_syn_reply, type_rst_stream, type_settings, type_ping, type_go_away,
  type_headers, type_window_update,
}
use spdy.Framer.{Framer, receive, receive_number, uncork_header_decompressor, receive_block}
use spdy.Framer.Block.{parse_header_value_block}

-- `invalidReqHeaders` and `invalidRespHeaders`, whose names are canonical.
abbrev pub invalid_resp_headers : List Bytes
invalid_resp_headers =
    codes "Connection"
    ∷ codes "Keep-Alive"
    ∷ codes "Proxy-Connection"
    ∷ codes "Transfer-Encoding"
    ∷ []

abbrev pub invalid_req_headers : List Bytes
invalid_req_headers = codes "Host" ∷ invalid_resp_headers

-- The list that `readHeadersFrame` chooses.
abbrev pub invalid_headers_for : ℕ → List Bytes
invalid_headers_for stream_id =
    if stream_id % 2 == 0 then invalid_req_headers else invalid_resp_headers

unfoldable pub is_listed : List Bytes → Bytes → Bool
is_listed [] name = false
is_listed (n ∷ ns) name = bytes_eq n name || is_listed ns name

unfoldable pub has_invalid : List Bytes → Header → Bool
has_invalid invalid [] = false
has_invalid invalid ((name, _) ∷ h) = is_listed invalid name || has_invalid invalid h

-- `uint32(length - n)`
abbrev pub minus : ℕ → ℕ → ℕ
minus len n = (len + 2 ^ 32 - n) % 2 ^ 32

module _ (std : Stdlib) where
  abbrev In : Type 0 → Type 0
  In = Action (Framer std)

  unfoldable pub read_rst_stream : ControlFrameHeader → In RstStreamFrame
  read_rst_stream h = do
    stream_id ← receive_number std 4
    status ← receive_number std 4
    fail_if (status == 0) (framing invalid_control_frame stream_id)
    fail_if (stream_id == 0) (framing zero_stream_id 0)
    return (record { cf_header = h; stream_id = stream_id; status = status })

  unfoldable pub read_flag_id_values : ℕ → In (List SettingsFlagIdValue)
  read_flag_id_values zero = return []
  read_flag_id_values (suc n) = do
    id ← receive_number std 4
    value ← receive_number std 4
    vs ← read_flag_id_values n
    return (
        record { flag = bit_and id 0xff000000 / 2 ^ 24; id = bit_and id 0xffffff; value = value }
        ∷ vs)

  unfoldable pub read_settings : ControlFrameHeader → In SettingsFrame
  read_settings h = do
    n ← receive_number std 4
    vs ← read_flag_id_values n
    return (record { cf_header = h; flag_id_values = vs })

  unfoldable pub read_ping : ControlFrameHeader → In PingFrame
  read_ping h = do
    id ← receive_number std 4
    fail_if (id == 0) (framing zero_stream_id 0)
    fail_if (not (h.flags == 0)) (framing invalid_control_frame id)
    return (record { cf_header = h; id = id })

  unfoldable pub read_go_away : ControlFrameHeader → In GoAwayFrame
  read_go_away h = do
    last ← receive_number std 4
    fail_if (not (h.flags == 0)) (framing invalid_control_frame last)
    fail_if (not (h.length == 8)) (framing invalid_control_frame last)
    status ← receive_number std 4
    return (record { cf_header = h; last_good_stream_id = last; status = status })

  unfoldable pub read_window_update : ControlFrameHeader → In WindowUpdateFrame
  read_window_update h = do
    stream_id ← receive_number std 4
    fail_if (not (h.flags == 0)) (framing invalid_control_frame stream_id)
    fail_if (not (h.length == 8)) (framing invalid_control_frame stream_id)
    delta ← receive_number std 4
    return (record { cf_header = h; stream_id = stream_id; delta_window_size = delta })

  abbrev is_eof : Result Header → Bool
  is_eof (err eof) = true
  is_eof _ = false

  -- The error that the compressed payload's size overrides the parser's result with.
  unfoldable pub check_payload : Result Header × Framer std → Result Header × Framer std
  check_payload (x, f) = (
    if not f.header_compression_disabled && ((is_eof x && f.limit == 0) || not (f.limit == 0))
        then err (framing wrong_compressed_payload_size 0)
        else x,
    f,
  )

  unfoldable pub uncork : ℕ → In (Unit {0})
  uncork size f =
      if f.header_compression_disabled then (ok tt, f) else uncork_header_decompressor std size f

  -- What the three frames with a header have in common: the block of `size` bytes, its checks,
  -- and the check of the stream id.
  unfoldable pub read_header_block : ℕ → List Bytes → ℕ → In Header
  read_header_block size invalid stream_id = do
    uncork size
    h ← λ f.
        check_payload (parse_header_value_block std.unicode_lower (receive_block std) stream_id f)
    fail_if (has_invalid invalid h) (framing invalid_header_present stream_id)
    fail_if (stream_id == 0) (framing zero_stream_id 0)
    return h

  unfoldable pub read_syn_stream : ControlFrameHeader → In SynStreamFrame
  read_syn_stream h = do
    stream_id ← receive_number std 4
    associated ← receive_number std 4
    priority ← receive_number std 1
    slot ← receive_number std 1
    hs ← read_header_block (minus h.length 10) invalid_req_headers stream_id
    return (record {
      cf_header = h;
      stream_id = stream_id;
      associated_to_stream_id = associated;
      priority = priority / 2 ^ 5;
      slot = slot;
      headers = hs;
    })

  unfoldable pub read_syn_reply : ControlFrameHeader → In SynReplyFrame
  read_syn_reply h = do
    stream_id ← receive_number std 4
    hs ← read_header_block (minus h.length 4) invalid_resp_headers stream_id
    return (record { cf_header = h; stream_id = stream_id; headers = hs })

  unfoldable pub read_headers : ControlFrameHeader → In HeadersFrame
  read_headers h = do
    stream_id ← receive_number std 4
    hs ← read_header_block (minus h.length 4) (invalid_headers_for stream_id) stream_id
    return (record { cf_header = h; stream_id = stream_id; headers = hs })

  -- `cframeCtor`: the reader for each known type, its result as a frame.
  unfoldable pub read_body : ControlFrameHeader → In Frame
  read_body h =
      if t == type_syn_stream
      then (do frame ← read_syn_stream h; return (syn_stream frame))
      else if t == type_syn_reply
      then (do frame ← read_syn_reply h; return (syn_reply frame))
      else if t == type_rst_stream
      then (do frame ← read_rst_stream h; return (rst_stream frame))
      else if t == type_settings
      then (do frame ← read_settings h; return (settings frame))
      else if t == type_ping
      then (do frame ← read_ping h; return (ping frame))
      else if t == type_go_away
      then (do frame ← read_go_away h; return (go_away frame))
      else if t == type_headers
      then (do frame ← read_headers h; return (headers frame))
      else if t == type_window_update
      then (do frame ← read_window_update h; return (window_update frame))
      else throw (framing invalid_control_frame 0)
    where
      t : ℕ
      t = h.frame_type

  unfoldable pub parse_control_frame : ℕ → ℕ → In Frame
  parse_control_frame version frame_type = do
    word ← receive_number std 4
    read_body (record {
      version = version;
      frame_type = frame_type;
      flags = bit_and word 0xff000000 / 2 ^ 24;
      length = bit_and word 0xffffff;
    })

  unfoldable pub parse_data_frame : ℕ → In Frame
  parse_data_frame stream_id = do
    word ← receive_number std 4
    bytes ← receive std (bit_and word 0xffffff)
    fail_if (stream_id == 0) (framing zero_stream_id 0)
    return (data_frame (record { stream_id = stream_id; flags = word / 2 ^ 24; content = bytes }))

  unfoldable pub read_frame : In Frame
  read_frame = do
    word ← receive_number std 4
    if not (bit_and word 0x80000000 == 0)
        then parse_control_frame (bit_and (word / 2 ^ 16) 0x7fff) (bit_and word 0xffff)
        else parse_data_frame (bit_and word 0x7fffffff)
