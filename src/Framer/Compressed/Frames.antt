-- ===== src/Framer/Compressed/Frames.antt =====
-- `ReadFrame` of spdyframing/read.go on a frame that a writer has compressed, and on the frames
-- without a header block in between.
use spdy.Base.{
  ℕ, ◌+◌, ◌*◌, ◌/◌, ◌^◌, ◌<◌, ◌≡◌, ◌≢◌, refl, sym, ap, subst, ◌∙◌, Bytes, false, Option, some, List,
  ◌++◌, length, arith, inl, inr,
}
use spdy.Stdlib.{Stdlib}
use spdy.Wire.{Result, ok, be8, be32}
use spdy.Wire.Reads.{Reads, Runs, Comes, bind-Runs, then-Comes}
use spdy.Header.{Header}
use spdy.Frame.{
  ControlFrameHeader, Frame, SynStreamFrame, SynReplyFrame, HeadersFrame, syn_stream, syn_reply,
  rst_stream, settings, ping, go_away, headers, window_update, data_frame, type_syn_stream,
  type_syn_reply, type_headers,
}
use spdy.Framer.{Framer, receive_number}
use spdy.Framer.Read.{
  minus, has_invalid, invalid_headers_for, invalid_req_headers, invalid_resp_headers,
  read_header_block, read_body, read_syn_stream, read_syn_reply, read_headers, read_frame,
}
use spdy.Framer.RoundTrip.{wire, stamped}
use spdy.Framer.Encoding.{header_of, IsU32}
use spdy.Framer.Block.RoundTrip.{IsHeader}
use spdy.Framer.Decode.{
  Ahead, u32-Reads, u8-Reads, control-Runs, ping-Reads, rst_stream-Reads, go_away-Reads,
  window_update-Reads, settings-Reads, data-Reads,
}
use spdy.Framer.Compressed.{Zlib, packed, pack, IsReady}
use spdy.Framer.Compressed.Blocks.{IsPaired, Left, Slack, wrong_size, header_block-Comes}

-- The reader's count of the bytes of a block.
minus_lem : (n k : ℕ) → n + k < 2 ^ 24 → minus (n + k) k ≡ n
minus_lem n k h = omega arith

module _ (std : Stdlib) (zlib : Zlib std) (f : Framer std)
    (enabled : f.header_compression_disabled ≡ false) (o : Option std.Inflater) (d : std.Deflater)
    (same : f.header_decompressor ≡ o) (pair : IsPaired std zlib d o) where
  -- The reader after a frame: as before, but for its decompressor, which has kept up.
  abbrev pub Kept : std.Deflater → Framer std → Bytes → Type 0
  Kept d' g rest =
      (o' : Option std.Inflater) × (limit : ℕ) × (g
        ≡ record f { input = rest; limit = limit; header_decompressor = o' })
      × IsPaired std zlib d' o'

  abbrev pub Frames : {A : Type 0} → std.Deflater → A → Result A × Framer std → Bytes → Type 0
  Frames d' a = Comes (Kept d') (Slack std zlib) (wrong_size std zlib f enabled) a

  block-Frames :
      (size : ℕ) (invalid : List Bytes) (id : ℕ) (h : Header)
      → size ≡ length (packed std h d).0
      → IsHeader std.unicode_lower h
      → IsU32 (length h)
      → has_invalid invalid h ≡ false
      → id ≢ 0
      → Runs
          (Ahead std f)
          (Frames (packed std h d).1 h)
          (read_header_block std size invalid id)
          (packed std h d).0
  block-Frames size invalid id h e hs fits allowed present g rest v = from (
      subst
        (λ n.
          Comes (Left std zlib f enabled (packed std h d).1) (Slack std zlib)
            (wrong_size std zlib f enabled) h (read_header_block std n invalid id g) rest)
        (sym e)
        (header_block-Comes std zlib f enabled o d invalid id h same pair hs fits allowed present g
          rest v))
    where
      from :
          {r : Result Header × Framer std}
          → Comes
              (Left std zlib f enabled (packed std h d).1)
              (Slack std zlib)
              (wrong_size std zlib f enabled)
              h
              r
              rest
          → Frames (packed std h d).1 h r rest
      from (inl (t, done, (z, left, given))) = inl (t, done, (some z, 0, left, given))
      from (inr bad) = inr bad

  -- A frame without a header block.
  plain-Frames :
      (fr : Frame)
      → Reads
          (Ahead std f)
          (read_frame std)
          (wire std.unicode_lower fr)
          (stamped std.unicode_lower fr)
      → Runs
          (Ahead std f)
          (Frames d (stamped std.unicode_lower fr))
          (read_frame std)
          (wire std.unicode_lower fr)
  plain-Frames fr p g rest v =
      let (t, read, left) = p g rest v in
      inl (
        t,
        read,
        (
          o,
          f.limit,
          left ∙ ap (λ x. record f { input = rest; header_decompressor = x }) same,
          pair,
        ),
      )

  -- The frame's control header, with the size of a compressed block.
  abbrev stamp : ℕ → ControlFrameHeader → ℕ → Header → ControlFrameHeader
  stamp frame_type cf extra h = header_of frame_type cf.flags (length (packed std h d).0 + extra)

  -- What follows the control header.
  abbrev syn_stream_body : SynStreamFrame → Bytes
  syn_stream_body fr =
      be32 fr.stream_id
      ++ (be32 fr.associated_to_stream_id
          ++ (be8 (fr.priority * 2 ^ 5) ++ (be8 fr.slot ++ (packed std fr.headers d).0)))

  abbrev reply_body : ℕ → Header → Bytes
  reply_body id h = be32 id ++ (packed std h d).0

  syn_stream-Frames :
      (fr : SynStreamFrame)
      → IsReady std (syn_stream fr) d
      → let cf = stamp type_syn_stream fr.cf_header 10 fr.headers in
        Runs
          (Ahead std f)
          (Frames (packed std fr.headers d).1 (record fr { cf_header = cf }))
          (read_syn_stream std cf)
          (syn_stream_body fr)
  unfolding read_syn_stream
  syn_stream-Frames fr (i, w, a, p, s, fl, hs) =
      let (block, d') = packed std fr.headers d in
      let cf = stamp type_syn_stream fr.cf_header 10 fr.headers in
      let slot_on = be8 fr.slot ++ block in
      let priority_on = be8 (fr.priority * 2 ^ 5) ++ slot_on in
      let associated_on = be32 fr.associated_to_stream_id ++ priority_on in
      let unshifted : fr.priority * 2 ^ 5 / 2 ^ 5 ≡ fr.priority = omega arith in
      let Last = Frames d' (record fr { cf_header = cf }) in
      bind-Runs (Ahead std f) Last (receive_number std 4) _ (be32 fr.stream_id) associated_on
        fr.stream_id (u32-Reads std f fr.stream_id w)
        (bind-Runs (Ahead std f) Last (receive_number std 4) _ (be32 fr.associated_to_stream_id)
          priority_on fr.associated_to_stream_id (u32-Reads std f fr.associated_to_stream_id a)
          (bind-Runs (Ahead std f) Last (receive_number std 1) _ (be8 (fr.priority * 2 ^ 5)) slot_on
            (fr.priority * 2 ^ 5) (u8-Reads std f (fr.priority * 2 ^ 5) (omega arith))
            (bind-Runs (Ahead std f) Last (receive_number std 1) _ (be8 fr.slot) block fr.slot
              (u8-Reads std f fr.slot s)
              (then-Comes (Ahead std f) (Kept d') (Slack std zlib) (wrong_size std zlib f enabled)
                (read_header_block std (minus cf.length 10) invalid_req_headers fr.stream_id) _
                block fr.headers (record fr { cf_header = cf })
                (block-Frames _ invalid_req_headers fr.stream_id fr.headers
                  (minus_lem (length block) 10 hs.block_fits) hs.comes_back hs.count_fits hs.allowed
                  i)
                (λ t. ap (λ n. (ok (record fr { cf_header = cf; priority = n }), t)) unshifted)))))

  syn_reply-Frames :
      (fr : SynReplyFrame)
      → IsReady std (syn_reply fr) d
      → let cf = stamp type_syn_reply fr.cf_header 4 fr.headers in
        Runs
          (Ahead std f)
          (Frames (packed std fr.headers d).1 (record fr { cf_header = cf }))
          (read_syn_reply std cf)
          (reply_body fr.stream_id fr.headers)
  unfolding read_syn_reply
  syn_reply-Frames fr (i, w, fl, hs) =
      let (block, d') = packed std fr.headers d in
      let cf = stamp type_syn_reply fr.cf_header 4 fr.headers in
      bind-Runs (Ahead std f) (Frames d' (record fr { cf_header = cf })) (receive_number std 4) _
        (be32 fr.stream_id) block fr.stream_id (u32-Reads std f fr.stream_id w)
        (then-Comes (Ahead std f) (Kept d') (Slack std zlib) (wrong_size std zlib f enabled)
          (read_header_block std (minus cf.length 4) invalid_resp_headers fr.stream_id) _ block
          fr.headers (record fr { cf_header = cf })
          (block-Frames _ invalid_resp_headers fr.stream_id fr.headers
            (minus_lem (length block) 4 hs.block_fits) hs.comes_back hs.count_fits hs.allowed i)
          (λ t. refl))

  headers-Frames :
      (fr : HeadersFrame)
      → IsReady std (headers fr) d
      → let cf = stamp type_headers fr.cf_header 4 fr.headers in
        Runs
          (Ahead std f)
          (Frames (packed std fr.headers d).1 (record fr { cf_header = cf }))
          (read_headers std cf)
          (reply_body fr.stream_id fr.headers)
  unfolding read_headers
  headers-Frames fr (i, w, fl, hs) =
      let (block, d') = packed std fr.headers d in
      let cf = stamp type_headers fr.cf_header 4 fr.headers in
      bind-Runs (Ahead std f) (Frames d' (record fr { cf_header = cf })) (receive_number std 4) _
        (be32 fr.stream_id) block fr.stream_id (u32-Reads std f fr.stream_id w)
        (then-Comes (Ahead std f) (Kept d') (Slack std zlib) (wrong_size std zlib f enabled)
          (read_header_block std (minus cf.length 4) (invalid_headers_for fr.stream_id)
            fr.stream_id)
          _ block fr.headers (record fr { cf_header = cf })
          (block-Frames _ (invalid_headers_for fr.stream_id) fr.stream_id fr.headers
            (minus_lem (length block) 4 hs.block_fits) hs.comes_back hs.count_fits hs.allowed i)
          (λ t. refl))

  pub frame-Frames :
      (fr : Frame)
      → IsReady std fr d
      → Runs
          (Ahead std f)
          (Frames (pack std fr d).left (pack std fr d).frame)
          (read_frame std)
          (pack std fr d).bytes
  unfolding read_body
  frame-Frames (syn_stream fr) (i, w, a, p, s, fl, hs) =
      let cf = stamp type_syn_stream fr.cf_header 10 fr.headers in
      control-Runs std f
        (Frames (packed std fr.headers d).1 (syn_stream (record fr { cf_header = cf })))
        type_syn_stream fr.cf_header.flags _ (syn_stream_body fr) (omega arith) fl hs.block_fits
        (then-Comes (Ahead std f) (Kept (packed std fr.headers d).1) (Slack std zlib)
          (wrong_size std zlib f enabled) (read_syn_stream std cf) _ (syn_stream_body fr)
          (record fr { cf_header = cf }) _ (syn_stream-Frames fr (i, w, a, p, s, fl, hs))
          (λ t. refl))
  frame-Frames (syn_reply fr) (i, w, fl, hs) =
      let cf = stamp type_syn_reply fr.cf_header 4 fr.headers in
      control-Runs std f
        (Frames (packed std fr.headers d).1 (syn_reply (record fr { cf_header = cf })))
        type_syn_reply fr.cf_header.flags _ (reply_body fr.stream_id fr.headers) (omega arith) fl
        hs.block_fits
        (then-Comes (Ahead std f) (Kept (packed std fr.headers d).1) (Slack std zlib)
          (wrong_size std zlib f enabled) (read_syn_reply std cf) _
          (reply_body fr.stream_id fr.headers) (record fr { cf_header = cf }) _
          (syn_reply-Frames fr (i, w, fl, hs)) (λ t. refl))
  frame-Frames (headers fr) (i, w, fl, hs) =
      let cf = stamp type_headers fr.cf_header 4 fr.headers in
      control-Runs std f
        (Frames (packed std fr.headers d).1 (headers (record fr { cf_header = cf }))) type_headers
        fr.cf_header.flags _ (reply_body fr.stream_id fr.headers) (omega arith) fl hs.block_fits
        (then-Comes (Ahead std f) (Kept (packed std fr.headers d).1) (Slack std zlib)
          (wrong_size std zlib f enabled) (read_headers std cf) _
          (reply_body fr.stream_id fr.headers) (record fr { cf_header = cf }) _
          (headers-Frames fr (i, w, fl, hs)) (λ t. refl))
  frame-Frames (rst_stream fr) (i, w, s, t) =
      plain-Frames (rst_stream fr) (rst_stream-Reads std f fr i s w t)
  frame-Frames (settings fr) (fl, n, vs) =
      plain-Frames (settings fr) (settings-Reads std f fr fl n vs)
  frame-Frames (ping fr) (i, w) = plain-Frames (ping fr) (ping-Reads std f fr i w)
  frame-Frames (go_away fr) (w, s) = plain-Frames (go_away fr) (go_away-Reads std f fr w s)
  frame-Frames (window_update fr) (w, u) =
      plain-Frames (window_update fr) (window_update-Reads std f fr w u)
  frame-Frames (data_frame fr) (i, w, fl, n) =
      plain-Frames (data_frame fr) (data-Reads std f fr i w fl n)
