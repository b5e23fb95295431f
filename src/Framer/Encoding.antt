-- ===== src/Framer/Encoding.antt =====
-- The layout of the frames of SPDY/3 on the wire, in plain arithmetic: what spdyframing/write.go
-- is to write and spdyframing/read.go to read back.
use spdy.Base.{ℕ, ◌+◌, ◌*◌, ◌<◌, ◌^◌, Bytes, List, [], ◌∷◌, ◌++◌, length}
use spdy.Wire.{be8, be16, be32}
use spdy.Header.{Header, join}
use spdy.Frame.{
  ControlFrameHeader, SynStreamFrame, RstStreamFrame, SettingsFlagIdValue, SettingsFrame, PingFrame,
  GoAwayFrame, WindowUpdateFrame, DataFrame, type_rst_stream, type_settings, type_ping,
  type_go_away, type_window_update, type_syn_stream,
}

-- Version 3 with the control bit, the type, and the flags above a length of 24 bits.
abbrev pub control_header : ℕ → ℕ → ℕ → Bytes
control_header frame_type flags len = be16 0x8003 ++ be16 frame_type ++ be32 (flags * 2 ^ 24 + len)

abbrev pub rst_stream_bytes : RstStreamFrame → Bytes
rst_stream_bytes fr = control_header type_rst_stream 0 8 ++ be32 fr.stream_id ++ be32 fr.status

abbrev pub values_bytes : List SettingsFlagIdValue → Bytes
values_bytes [] = []
values_bytes (v ∷ vs) = be32 (v.flag * 2 ^ 24 + v.id) ++ be32 v.value ++ values_bytes vs

abbrev pub settings_bytes : SettingsFrame → Bytes
settings_bytes fr =
    control_header type_settings fr.cf_header.flags (length fr.flag_id_values * 8 + 4)
    ++ be32 (length fr.flag_id_values)
    ++ values_bytes fr.flag_id_values

abbrev pub ping_bytes : PingFrame → Bytes
ping_bytes fr = control_header type_ping 0 4 ++ be32 fr.id

abbrev pub go_away_bytes : GoAwayFrame → Bytes
go_away_bytes fr = control_header type_go_away 0 8 ++ be32 fr.last_good_stream_id ++ be32 fr.status

abbrev pub window_update_bytes : WindowUpdateFrame → Bytes
window_update_bytes fr =
    control_header type_window_update 0 8 ++ be32 fr.stream_id ++ be32 fr.delta_window_size

abbrev pub data_bytes : DataFrame → Bytes
data_bytes fr = be32 fr.stream_id ++ be32 (fr.flags * 2 ^ 24 + length fr.content) ++ fr.content

-- The header that a reader finds in front of such a frame.
abbrev pub header_of : ℕ → ℕ → ℕ → ControlFrameHeader
header_of frame_type flags len = record {
  version = 3;
  frame_type = frame_type;
  flags = flags;
  length = len;
}

-- A frame around the bytes of its header block; SYN_REPLY and HEADERS differ in their type.
abbrev pub syn_stream_around : SynStreamFrame → Bytes → Bytes
syn_stream_around fr block =
    control_header type_syn_stream fr.cf_header.flags (length block + 10)
    ++ (be32 fr.stream_id
        ++ (be32 fr.associated_to_stream_id
            ++ (be8 (fr.priority * 2 ^ 5) ++ (be8 fr.slot ++ block))))

abbrev pub reply_around : ℕ → ℕ → ℕ → Bytes → Bytes
reply_around frame_type flags stream_id block =
    control_header frame_type flags (length block + 4) ++ (be32 stream_id ++ block)

-- A header block, the names in the lower case that `lower` gives.
module _ (lower : Bytes → Bytes) where
  abbrev pub entry_bytes : Bytes → List Bytes → Bytes
  entry_bytes name values =
      (be32 (length name) ++ lower name) ++ (be32 (length (join values)) ++ join values)

  abbrev pub entries_bytes : Header → Bytes
  entries_bytes [] = []
  entries_bytes ((name, values) ∷ h) = entry_bytes name values ++ entries_bytes h

  abbrev pub block_bytes : Header → Bytes
  block_bytes h = be32 (length h) ++ entries_bytes h

  abbrev pub syn_stream_bytes : SynStreamFrame → Bytes
  syn_stream_bytes fr = syn_stream_around fr (block_bytes fr.headers)

  abbrev pub reply_bytes : ℕ → ℕ → ℕ → Header → Bytes
  reply_bytes frame_type flags stream_id h = reply_around frame_type flags stream_id (block_bytes h)

-- The ranges of the fields.
abbrev pub IsU32 : ℕ → Type 0
IsU32 n = n < 2 ^ 32

abbrev pub IsU8 : ℕ → Type 0
IsU8 n = n < 2 ^ 8

abbrev pub IsU24 : ℕ → Type 0
IsU24 n = n < 2 ^ 24

abbrev pub AreValues : List SettingsFlagIdValue → Type 0
AreValues [] = Unit {0}
AreValues (v ∷ vs) = IsU8 v.flag × IsU24 v.id × IsU32 v.value × AreValues vs
