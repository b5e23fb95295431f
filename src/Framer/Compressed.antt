-- ===== src/Framer/Compressed.antt =====
-- Header compression: what spdyframing/read.go and spdyframing/write.go rely on in package
-- compress/zlib, and the blocks and frames that a writer makes with a compressor in a given state.
pub mod Writes
pub mod Blocks
pub mod Frames
pub mod Rows
use spdy.Base.{
  ℕ, ◌+◌, ◌≤◌, ◌≡◌, ◌≢◌, ◌<◌, ◌^◌, Bytes, Bool, true, false, Option, none, some, List, [], ◌∷◌,
  ◌++◌, length, drop,
}
use spdy.Stdlib.{Stdlib}
use spdy.Wire.{ok}
use spdy.Header.{Header, to_lower}
use spdy.Frame.{
  Frame, SynStreamFrame, syn_stream, syn_reply, rst_stream, settings, ping, go_away, headers,
  window_update, data_frame, type_syn_stream, type_syn_reply, type_headers,
}
use spdy.Framer.Block.{write_header_value_block}
use spdy.Framer.Block.RoundTrip.{IsHeader}
use spdy.Framer.Write.{put_compressed}
use spdy.Framer.Read.{has_invalid, invalid_headers_for, invalid_req_headers, invalid_resp_headers}
use spdy.Framer.Encoding.{syn_stream_around, reply_around, header_of, IsU8, IsU24, IsU32}
use spdy.Framer.RoundTrip.{wire, stamped, IsWire}

-- From the state `d`, writes of `plain` in all put `comp` on the buffer and leave a state.
pub data Deflated (std : Stdlib) (d : std.Deflater) : Bytes → Bytes → std.Deflater → Type 0 where
  nothing : Deflated std d [] [] d
  more :
      {plain comp : Bytes} {e : std.Deflater} (bs : Bytes)
      → Deflated std d plain comp e
      → Deflated std d (plain ++ bs) (comp ++ (std.deflate bs e).0) (std.deflate bs e).1

-- Package zlib: a reader gives the bytes that a writer was given up to a flush, and goes on from
-- there. It may read ahead, so that how much it takes from its source is not said.
pub record Zlib (std : Stdlib) : Type 1 where
  -- Reading `src`, the reader gives `plain`, and has then followed the writer to a state.
  pub Gives : std.Inflater → Bytes → Bytes → std.Deflater → Type 0
  pub gives :
      (z : std.Inflater) (src bs rest : Bytes) (d : std.Deflater)
      → Gives z src (bs ++ rest) d
      → (next : std.Inflater) × (m : ℕ) × (std.inflate (length bs) z src ≡ ((ok bs, next), m))
        × (m ≤ length src)
        × Gives next (drop m src) rest d
  pub starts :
      (dict plain comp : Bytes) (d : std.Deflater)
      → Deflated std (std.new_deflater dict) plain comp d
      → let src = comp ++ (std.flush d).0 in
        (z : std.Inflater) × (n : ℕ) × (std.new_inflater dict src ≡ (ok z, n))
        × (n ≤ length src)
        × Gives z (drop n src) plain (std.flush d).1
  pub resumes :
      (z : std.Inflater) (d : std.Deflater) (plain comp : Bytes) (e : std.Deflater)
      → Gives z [] [] d
      → Deflated std d plain comp e
      → Gives z (comp ++ (std.flush e).0) plain (std.flush e).1

module _ (std : Stdlib) where
  -- The bytes of a block, and the compressor afterwards.
  abbrev pub flushed : Bytes × std.Deflater → Bytes × std.Deflater
  flushed (buf, z) = let (last, z') = std.flush z in (buf ++ last, z')

  abbrev pub packed : Header → std.Deflater → Bytes × std.Deflater
  packed h d = flushed (write_header_value_block std.unicode_lower (put_compressed std) h ([], d)).1

  -- The bytes of a frame, and the frame as it is read, with the control header that the writer sets.
  pub record Packed : Type 0 where
    pub bytes : Bytes
    pub frame : Frame
    pub left : std.Deflater

  abbrev pub pack : Frame → std.Deflater → Packed
  pack (syn_stream fr) d =
      let (block, d') = packed fr.headers d in
      record {
        bytes = syn_stream_around fr block;
        frame = syn_stream (record fr {
          cf_header = header_of type_syn_stream fr.cf_header.flags (length block + 10);
        });
        left = d';
      }
  pack (syn_reply fr) d =
      let (block, d') = packed fr.headers d in
      record {
        bytes = reply_around type_syn_reply fr.cf_header.flags fr.stream_id block;
        frame = syn_reply (record fr {
          cf_header = header_of type_syn_reply fr.cf_header.flags (length block + 4);
        });
        left = d';
      }
  pack (headers fr) d =
      let (block, d') = packed fr.headers d in
      record {
        bytes = reply_around type_headers fr.cf_header.flags fr.stream_id block;
        frame = headers (record fr {
          cf_header = header_of type_headers fr.cf_header.flags (length block + 4);
        });
        left = d';
      }
  pack fr d = record {
    bytes = wire std.unicode_lower fr;
    frame = stamped std.unicode_lower fr;
    left = d;
  }

  abbrev pub pack_all : List Frame → std.Deflater → Bytes × List Frame
  pack_all [] d = ([], [])
  pack_all (fr ∷ frs) d =
      let p = pack fr d in let (bs, gs) = pack_all frs p.left in (p.bytes ++ bs, p.frame ∷ gs)

  -- A header that a reader takes, and whose compressed block fits in a frame.
  pub record IsPackable (invalid : List Bytes) (extra : ℕ) (h : Header) (d : std.Deflater)
      : Type 0 where
    pub comes_back : IsHeader std.unicode_lower h
    pub allowed : has_invalid invalid h ≡ false
    pub block_fits : IsU24 (length (packed h d).0 + extra)
    pub count_fits : IsU32 (length h)

  -- A frame that can be written with the compressor in a given state, and read.
  abbrev pub IsReady : Frame → std.Deflater → Type 0
  IsReady (syn_stream fr) d =
      (fr.stream_id ≢ 0)
      × IsU32 fr.stream_id
      × IsU32 fr.associated_to_stream_id
      × (fr.priority < 2 ^ 3)
      × IsU8 fr.slot
      × IsU8 fr.cf_header.flags
      × IsPackable invalid_req_headers 10 fr.headers d
  IsReady (syn_reply fr) d =
      (fr.stream_id ≢ 0)
      × IsU32 fr.stream_id
      × IsU8 fr.cf_header.flags
      × IsPackable invalid_resp_headers 4 fr.headers d
  IsReady (headers fr) d =
      (fr.stream_id ≢ 0)
      × IsU32 fr.stream_id
      × IsU8 fr.cf_header.flags
      × IsPackable (invalid_headers_for fr.stream_id) 4 fr.headers d
  IsReady fr d = IsWire std.unicode_lower fr

  abbrev pub AreReady : List Frame → std.Deflater → Type 0
  AreReady [] d = Unit {0}
  AreReady (fr ∷ frs) d = IsReady fr d × AreReady frs (pack fr d).left
