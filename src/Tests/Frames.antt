-- ===== src/Tests/Frames.antt =====
-- Runs of the framer of spdyframing/read.go and spdyframing/write.go, over a stand-in for package
-- zlib that leaves its data as it is.
use spdy.Base.{
  ℕ, ◌≡◌, ◌≢◌, ◌+◌, ◌≤◌, length, refl, List, [], ◌∷◌, ◌++◌, take, drop, map, bytes_eq, true, none,
  arith,
}
use spdy.Base.Text.{codes}
use spdy.Errors.{broken, framing, invalid_control_frame}
use spdy.Stdlib.{Stdlib}
use spdy.Wire.{ok, err, read_full, be32}
use spdy.Header.{
  Header, is_ascii, is_token, is_token_byte, capitalise, canonical_key, contains, join, split,
  values_of, to_lower,
}
use spdy.Header.Entries.{Names}
use spdy.Framer.Block.{name_error}
use spdy.Framer.Block.Duplicates.{name_error_passes}
use spdy.Header.Values.{split-join}
use spdy.Frame.{
  ControlFrameHeader, SynStreamFrame, RstStreamFrame, DataFrame, Frame, syn_stream, rst_stream,
  data_frame, type_rst_stream, type_ping, ping, PingFrame,
}
use spdy.Framer.{Framer, receive, receive_number}
use spdy.Framer.Write.{write_frame, write_rst_stream}
use spdy.Framer.Accept.{IsChecked, read_frame-IsChecked}
use spdy.Framer.Progress.{read_frame_shrinks}
use spdy.Framer.Read.{read_frame, parse_control_frame, read_body, read_ping, has_invalid, is_listed}
use spdy.Framer.Block.RoundTrip.{IsField}
use spdy.Framer.Decode.{ahead}
use spdy.Framer.Encoding.{control_header, header_of}
use spdy.Framer.RoundTrip.{wire, stamped, IsWire, IsPlain, sent, write_frames, read_frames, AreWire}
use spdy.Framer.RoundTrip.Sends.{write_frame_breaks, write_rst_stream_halts}
use spdy.Framer.RoundTrip.Rows.{read_frames-write_frames}

abbrev pub stored : Stdlib
stored = record {
  unicode_lower = λ bs. bs;
  Deflater = Unit {0};
  new_deflater = λ dict. tt;
  deflate = λ bs z. (bs, z);
  flush = λ z. ([], z);
  Inflater = Unit {0};
  new_inflater = λ dict bs. (ok tt, 0);
  inflate = λ n z bs. (((read_full n bs).0, z), n);
}

-- A framer without compression on a connection that takes `room` bytes.
abbrev pub plain : ℕ → Framer stored
plain room = record {
  header_compression_disabled = true;
  out = 9 ∷ [];
  room = room;
  header_buf = [];
  header_compressor = tt;
  input = [];
  limit = 0;
  header_decompressor = none;
}

pub plain-IsPlain : (room : ℕ) → IsPlain stored (plain room)
plain-IsPlain room = record { disabled = refl; drained = refl }

abbrev pub no_header : ControlFrameHeader
no_header = record { version = 0; frame_type = 0; flags = 1; length = 0 }

-- A request with two fields, one with two values; a reset; some data.
abbrev pub fields : Header
fields = (codes "Accept", codes "a" ∷ codes "b" ∷ []) ∷ (codes "X-Id", codes "7" ∷ []) ∷ []

abbrev pub request : SynStreamFrame
request = record {
  cf_header = no_header;
  stream_id = 1;
  associated_to_stream_id = 0;
  priority = 5;
  slot = 0;
  headers = fields;
}

abbrev pub stop : RstStreamFrame
stop = record { cf_header = no_header; stream_id = 3; status = 5 }

abbrev pub hello : DataFrame
hello = record { stream_id = 1; flags = 1; content = codes "hello" }

abbrev pub frames : List Frame
frames = syn_stream request ∷ rst_stream stop ∷ data_frame hello ∷ []

pub accept-IsField : IsField stored.unicode_lower (codes "Accept") (codes "a" ∷ codes "b" ∷ [])
unfolding is_ascii is_token is_token_byte capitalise canonical_key contains join to_lower
accept-IsField = record {
  canonical = (refl, refl);
  some_value = λ e. cc;
  plain = (refl, (refl, tt));
  name_fits = omega arith;
  values_fit = omega arith;
}

pub x_id-IsField : IsField stored.unicode_lower (codes "X-Id") (codes "7" ∷ [])
unfolding is_ascii is_token is_token_byte capitalise canonical_key contains join to_lower
x_id-IsField = record {
  canonical = (refl, refl);
  some_value = λ e. cc;
  plain = (refl, tt);
  name_fits = omega arith;
  values_fit = omega arith;
}

request-IsWire : IsWire stored.unicode_lower (syn_stream request)
unfolding values_of has_invalid is_listed join to_lower is_ascii bytes_eq
request-IsWire = (
  λ e. omega arith,
  omega arith,
  omega arith,
  omega arith,
  omega arith,
  omega arith,
  record {
    comes_back = (accept-IsField, refl, (x_id-IsField, refl, tt));
    allowed = refl;
    block_fits = omega arith;
    count_fits = omega arith;
  },
)

frames-AreWire : AreWire stored frames
frames-AreWire = (
  request-IsWire,
  (
    (λ e. omega arith, omega arith, λ e. omega arith, omega arith),
    ((λ e. omega arith, omega arith, omega arith, omega arith), tt),
  ),
)

read_frames-write_frames_example :
    let (x, f) = write_frames stored frames (plain 100) in
    (x ≡ ok tt)
    × (read_frames stored 3 (ahead stored (plain 0) (drop 1 f.out ++ 7 ∷ []))
        ≡ (ok (map (stamped stored.unicode_lower) frames), ahead stored (plain 0) (7 ∷ [])))
unfolding to_lower is_ascii join
read_frames-write_frames_example =
    read_frames-write_frames stored frames (plain 100) (plain 0) (7 ∷ []) frames-AreWire
      (plain-IsPlain 100) (plain-IsPlain 0) (omega arith)

write_frame_breaks_example :
    ((write_frame stored (syn_stream request) (plain 20)).0 ≡ err broken)
    × ((write_frame stored (syn_stream request) (plain 20)).1.out
        ≡ 9 ∷ take 20 (wire stored.unicode_lower (syn_stream request)))
unfolding to_lower is_ascii join
write_frame_breaks_example =
    write_frame_breaks stored (syn_stream request) (plain 20) request-IsWire (plain-IsPlain 20)
      (omega arith)

abbrev no_status : RstStreamFrame
no_status = record { cf_header = no_header; stream_id = 3; status = 0 }

write_rst_stream_halts_example : write_rst_stream stored no_status (plain 100) ≡ (
  err (framing invalid_control_frame 3),
  sent stored (plain 100) (control_header type_rst_stream 0 8 ++ be32 3),
)
write_rst_stream_halts_example =
    write_rst_stream_halts stored no_status (plain 100) (λ e. omega arith) refl (omega arith)

split-join_example : split (join (codes "a" ∷ codes "b" ∷ [])) ≡ codes "a" ∷ codes "b" ∷ []
split-join_example = split-join (codes "a") (codes "b" ∷ []) accept-IsField.plain

-- A ping on the connection, with one byte after it.
abbrev pub pinged : Framer stored
pinged = ahead stored (plain 0) (control_header type_ping 0 4 ++ be32 5 ++ 7 ∷ [])

abbrev one_ping : PingFrame
one_ping = record { cf_header = header_of type_ping 0 4; id = 5 }

ping_read : read_frame stored pinged ≡ (ok (ping one_ping), ahead stored (plain 0) (7 ∷ []))
unfolding read_frame receive_number receive read_full parse_control_frame read_body read_ping
ping_read = refl

read_frame-IsChecked_example : IsChecked (ping one_ping)
read_frame-IsChecked_example =
    read_frame-IsChecked stored pinged (ahead stored (plain 0) (7 ∷ [])) (ping one_ping) ping_read

read_frame_shrinks_example : 8 + 1 ≤ length pinged.input
read_frame_shrinks_example =
    read_frame_shrinks stored pinged (ahead stored (plain 0) (7 ∷ [])) (ping one_ping) ping_read

-- A name that the header has already.
fields-Names : Names stored.unicode_lower fields
fields-Names = (accept-IsField.canonical, (x_id-IsField.canonical, tt))

accept_unlike : to_lower stored.unicode_lower (codes "Accept") ≢ codes "Accept"
unfolding to_lower is_ascii
accept_unlike e = cc

name_error_passes_example :
    name_error stored.unicode_lower 1 (to_lower stored.unicode_lower (codes "Accept")) fields none
    ≡ none
name_error_passes_example =
    name_error_passes stored.unicode_lower 1 (codes "Accept") fields none accept-IsField.canonical
      accept_unlike fields-Names
