-- ===== src/Framer/RoundTrip.antt =====
-- What it takes for a frame of spdyframing/types.go to be written and read back, with the header
-- compression disabled: its layout on the wire and the ranges of its fields.
pub mod Sends
pub mod Receives
pub mod Rows
use spdy.Base.{
  ℕ, suc, zero, ◌+◌, ◌-◌, ◌*◌, ◌^◌, ◌≤◌, ◌<◌, ◌≡◌, ◌≢◌, refl, sym, ap, ◌∙◌, Bytes, Bool, true,
  false, [], ◌∷◌, ◌++◌, List, map, leb, length, take, drop, append_assoc, append-nil, arith,
  if◌then◌else◌, Bool-cases, inl, inr, length-append, le→leb, lt→not_leb, drop-append,
}
use spdy.Errors.{Error, broken}
use spdy.Stdlib.{Stdlib}
use spdy.Wire.{Result, ok, err, Action, continue, ◌>>=◌, ◌>>◌, return}
use spdy.Wire.Reads.{Reads}
use spdy.Header.{Header, to_lower}
use spdy.Frame.{
  Frame, SynStreamFrame, SynReplyFrame, RstStreamFrame, SettingsFrame, PingFrame, GoAwayFrame,
  HeadersFrame, WindowUpdateFrame, DataFrame, syn_stream, syn_reply, rst_stream, settings, ping,
  go_away, headers, window_update, data_frame, type_syn_stream, type_syn_reply, type_rst_stream,
  type_settings, type_ping, type_go_away, type_headers, type_window_update,
}
use spdy.Framer.{Framer, send}
use spdy.Framer.Emit.{Emits, emit, send-fits, send-breaks}
use spdy.Framer.Block.RoundTrip.{IsHeader}
use spdy.Framer.Write.{reset_buffer, write_frame}
use spdy.Framer.Read.{
  has_invalid, invalid_headers_for, invalid_req_headers, invalid_resp_headers, read_frame,
}
use spdy.Framer.Encoding.{
  rst_stream_bytes, settings_bytes, ping_bytes, go_away_bytes, window_update_bytes, data_bytes,
  block_bytes, syn_stream_bytes, reply_bytes, header_of, IsU8, IsU24, IsU32, AreValues,
}
use spdy.Framer.Encode.{
  write_ping-Emits, write_go_away-Emits, write_window_update-Emits, write_rst_stream-Emits,
  write_settings-Emits, write_data-Emits,
}
use spdy.Framer.EncodeHeaders.{
  holding, write_syn_stream_flushes, write_syn_reply_flushes, write_headers_flushes,
}
use spdy.Framer.Decode.{
  Ahead, ahead, ping-Reads, rst_stream-Reads, go_away-Reads, window_update-Reads, settings-Reads,
  data-Reads,
}
use spdy.Framer.DecodeHeaders.{syn_stream-Reads, syn_reply-Reads, headers-Reads}

module _ (unicode_lower : Bytes → Bytes) where
  abbrev low : Bytes → Bytes
  low = to_lower unicode_lower

  -- The layout of a frame on the wire.
  abbrev pub wire : Frame → Bytes
  wire (syn_stream fr) = syn_stream_bytes low fr
  wire (syn_reply fr) = reply_bytes low type_syn_reply fr.cf_header.flags fr.stream_id fr.headers
  wire (rst_stream fr) = rst_stream_bytes fr
  wire (settings fr) = settings_bytes fr
  wire (ping fr) = ping_bytes fr
  wire (go_away fr) = go_away_bytes fr
  wire (headers fr) = reply_bytes low type_headers fr.cf_header.flags fr.stream_id fr.headers
  wire (window_update fr) = window_update_bytes fr
  wire (data_frame fr) = data_bytes fr

  -- The frame with the control header that the writer sets, which the reader finds.
  abbrev pub stamped : Frame → Frame
  stamped (syn_stream fr) = syn_stream (record fr {
    cf_header =
        header_of type_syn_stream fr.cf_header.flags (length (block_bytes low fr.headers) + 10);
  })
  stamped (syn_reply fr) = syn_reply (record fr {
    cf_header =
        header_of type_syn_reply fr.cf_header.flags (length (block_bytes low fr.headers) + 4);
  })
  stamped (rst_stream fr) = rst_stream (record fr { cf_header = header_of type_rst_stream 0 8 })
  stamped (settings fr) = settings (record fr {
    cf_header = header_of type_settings fr.cf_header.flags (length fr.flag_id_values * 8 + 4);
  })
  stamped (ping fr) = ping (record fr { cf_header = header_of type_ping 0 4 })
  stamped (go_away fr) = go_away (record fr { cf_header = header_of type_go_away 0 8 })
  stamped (headers fr) = headers (record fr {
    cf_header = header_of type_headers fr.cf_header.flags (length (block_bytes low fr.headers) + 4);
  })
  stamped (window_update fr) =
      window_update (record fr { cf_header = header_of type_window_update 0 8 })
  stamped (data_frame fr) = data_frame fr

  -- A header that a reader takes: it comes back as it was, holds no forbidden field and fits.
  pub record IsSendable (invalid : List Bytes) (extra : ℕ) (h : Header) : Type 0 where
    pub comes_back : IsHeader unicode_lower h
    pub allowed : has_invalid invalid h ≡ false
    pub block_fits : IsU24 (length (block_bytes low h) + extra)
    pub count_fits : IsU32 (length h)

  -- A frame that can be written and read: its fields are in the ranges of their widths on the
  -- wire, and the ids that must not be zero are not.
  abbrev pub IsWire : Frame → Type 0
  IsWire (syn_stream fr) =
      (fr.stream_id ≢ 0)
      × IsU32 fr.stream_id
      × IsU32 fr.associated_to_stream_id
      × (fr.priority < 2 ^ 3)
      × IsU8 fr.slot
      × IsU8 fr.cf_header.flags
      × IsSendable invalid_req_headers 10 fr.headers
  IsWire (syn_reply fr) =
      (fr.stream_id ≢ 0)
      × IsU32 fr.stream_id
      × IsU8 fr.cf_header.flags
      × IsSendable invalid_resp_headers 4 fr.headers
  IsWire (rst_stream fr) =
      (fr.stream_id ≢ 0) × IsU32 fr.stream_id × (fr.status ≢ 0) × IsU32 fr.status
  IsWire (settings fr) =
      IsU8 fr.cf_header.flags
      × IsU24 (length fr.flag_id_values * 8 + 4)
      × AreValues fr.flag_id_values
  IsWire (ping fr) = (fr.id ≢ 0) × IsU32 fr.id
  IsWire (go_away fr) = IsU32 fr.last_good_stream_id × IsU32 fr.status
  IsWire (headers fr) =
      (fr.stream_id ≢ 0)
      × IsU32 fr.stream_id
      × IsU8 fr.cf_header.flags
      × IsSendable (invalid_headers_for fr.stream_id) 4 fr.headers
  IsWire (window_update fr) = IsU32 fr.stream_id × IsU32 fr.delta_window_size
  IsWire (data_frame fr) =
      (fr.stream_id ≢ 0) × (fr.stream_id < 2 ^ 31) × IsU8 fr.flags × IsU24 (length fr.content)

module _ (std : Stdlib) where
  -- A framer without compression, between two frames.
  pub record IsPlain (f : Framer std) : Type 0 where
    pub disabled : f.header_compression_disabled ≡ true
    pub drained : f.header_buf ≡ []

  -- `f` after writing `bs`.
  abbrev pub sent : Framer std → Bytes → Framer std
  sent f bs = record f { out = f.out ++ bs; room = f.room - length bs }

  -- Frames in a row: written one after the other, and so many read.
  abbrev pub write_frames : List Frame → Action (Framer std) (Unit {0})
  write_frames [] = return tt
  write_frames (fr ∷ frs) = write_frame std fr >> write_frames frs

  abbrev pub read_frames : ℕ → Action (Framer std) (List Frame)
  read_frames zero = return []
  read_frames (suc n) = read_frame std >>= λ fr. read_frames n >>= λ frs. return (fr ∷ frs)

  abbrev pub AreWire : List Frame → Type 0
  AreWire [] = Unit {0}
  AreWire (fr ∷ frs) = IsWire std.unicode_lower fr × AreWire frs

  abbrev pub wires : List Frame → Bytes
  wires [] = []
  wires (fr ∷ frs) = wire std.unicode_lower fr ++ wires frs
