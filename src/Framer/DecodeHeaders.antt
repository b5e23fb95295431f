-- ===== src/Framer/DecodeHeaders.antt =====
-- The three methods of spdyframing/read.go for frames with a header block, with the header
-- compression disabled: each reads its layout back.
use spdy.Base.{
  ℕ, ◌+◌, ◌*◌, ◌/◌, ◌^◌, ◌<◌, ◌≡◌, ◌≢◌, refl, ap, ◌∙◌, Bytes, true, false, ◌++◌, List, length, ◌==◌,
  arith,
}
use spdy.Stdlib.{Stdlib}
use spdy.Wire.{Result, ok, be8, be32}
use spdy.Wire.Reads.{Reads, return-Reads, bind-Reads, last-Reads}
use spdy.Header.{Header, to_lower}
use spdy.Frame.{
  SynStreamFrame, SynReplyFrame, HeadersFrame, type_syn_stream, type_syn_reply, type_headers,
  syn_stream, syn_reply, headers,
}
use spdy.Framer.{Framer, receive, receive_number, receive_block}
use spdy.Framer.Block.RoundTrip.{IsHeader, block-Reads}
use spdy.Framer.Read.{
  has_invalid, invalid_headers_for, invalid_req_headers, invalid_resp_headers, check_payload,
  uncork, read_header_block, read_syn_stream, read_syn_reply, read_headers, read_body, read_frame,
}
use spdy.Framer.Encoding.{block_bytes, syn_stream_bytes, reply_bytes, header_of, IsU8, IsU24, IsU32}
use spdy.Framer.Decode.{Ahead, receive-Reads, u32-Reads, u8-Reads, control-Reads}

-- What the methods do where the compression is disabled.
module _ (std : Stdlib) where
  abbrev IsPlain : Framer std → Type 0
  IsPlain g = g.header_compression_disabled ≡ true

  receive_block_plain :
      (n : ℕ) (g : Framer std) → IsPlain g → receive_block std n g ≡ receive std n g
  unfolding receive_block
  receive_block_plain n g d = ground arith

  uncork_plain : (n : ℕ) (g : Framer std) → IsPlain g → uncork std n g ≡ (ok tt, g)
  unfolding uncork
  uncork_plain n g d = ground arith

  check_payload_plain : (r : Result Header × Framer std) → IsPlain r.1 → check_payload std r ≡ r
  unfolding check_payload
  check_payload_plain (x, g) d = ground arith

module _ (std : Stdlib) (f : Framer std) (plain : f.header_compression_disabled ≡ true) where
  abbrev low : Bytes → Bytes
  low = to_lower std.unicode_lower

  abbrev View : Framer std → Bytes → Type 0
  View = Ahead std f

  is_plain : {g : Framer std} {bs : Bytes} → View g bs → IsPlain std g
  is_plain v = ap (λ s. s.header_compression_disabled) v ∙ plain

  block-receive-Reads :
      (n : ℕ) (bs : Bytes) → length bs ≡ n → Reads View (receive_block std n) bs bs
  block-receive-Reads n bs h g rest v =
      let (t, read, left) = receive-Reads std f n bs h g rest v in
      (t, receive_block_plain std n g (is_plain v) ∙ read, left)

  -- A block that is fit for the wire, with no forbidden field, on a stream.
  header_block-Reads :
      (size : ℕ) (invalid : List Bytes) (id : ℕ) (h : Header)
      → IsHeader std.unicode_lower h
      → IsU32 (length h)
      → has_invalid invalid h ≡ false
      → id ≢ 0
      → Reads View (read_header_block std size invalid id) (block_bytes low h) h
  unfolding read_header_block
  header_block-Reads size invalid id h hs fits allowed present g rest v =
      let (t, parsed, left) =
        block-Reads std.unicode_lower View (receive_block std) block-receive-Reads id h hs fits g
          rest v in
      let checked =
        ap (check_payload std) parsed ∙ check_payload_plain std (ok h, t) (is_plain left) in
      let some_id : (id == 0) ≡ false = ground arith in
      (t, rw (uncork_plain std size g (is_plain v), checked, allowed, some_id) refl, left)

  pub syn_stream-Reads :
      (fr : SynStreamFrame)
      → IsHeader std.unicode_lower fr.headers
      → has_invalid invalid_req_headers fr.headers ≡ false
      → fr.stream_id ≢ 0
      → IsU32 fr.stream_id
      → IsU32 fr.associated_to_stream_id
      → fr.priority < 2 ^ 3
      → IsU8 fr.slot
      → IsU8 fr.cf_header.flags
      → IsU24 (length (block_bytes low fr.headers) + 10)
      → IsU32 (length fr.headers)
      → Reads View (read_frame std) (syn_stream_bytes low fr) (
          syn_stream (record fr {
            cf_header =
                header_of type_syn_stream fr.cf_header.flags
                  (length (block_bytes low fr.headers) + 10);
          }))
  unfolding read_body read_syn_stream
  syn_stream-Reads fr hs allowed present i a p s hf hl n =
      let block = block_bytes low fr.headers in
      let slot_on = be8 fr.slot ++ block in
      let priority_on = be8 (fr.priority * 2 ^ 5) ++ slot_on in
      let associated_on = be32 fr.associated_to_stream_id ++ priority_on in
      let body = be32 fr.stream_id ++ associated_on in
      let unshifted : fr.priority * 2 ^ 5 / 2 ^ 5 ≡ fr.priority = omega arith in
      control-Reads std f type_syn_stream _ _ body _ (omega arith) hf hl (
        last-Reads View _ _ body _ _
          (bind-Reads View (receive_number std 4) _ (be32 fr.stream_id) associated_on fr.stream_id _
            (u32-Reads std f fr.stream_id i)
            (bind-Reads View (receive_number std 4) _ (be32 fr.associated_to_stream_id) priority_on
              fr.associated_to_stream_id _ (u32-Reads std f fr.associated_to_stream_id a)
              (bind-Reads View (receive_number std 1) _ (be8 (fr.priority * 2 ^ 5)) slot_on
                (fr.priority * 2 ^ 5) _ (u8-Reads std f (fr.priority * 2 ^ 5) (omega arith))
                (bind-Reads View (receive_number std 1) _ (be8 fr.slot) block fr.slot _
                  (u8-Reads std f fr.slot s)
                  (last-Reads View _ _ block fr.headers _
                    (header_block-Reads _ invalid_req_headers fr.stream_id fr.headers hs n allowed
                      present)
                    (rw unshifted (return-Reads View _)))))))
          (return-Reads View _))

  pub syn_reply-Reads :
      (fr : SynReplyFrame)
      → IsHeader std.unicode_lower fr.headers
      → has_invalid invalid_resp_headers fr.headers ≡ false
      → fr.stream_id ≢ 0
      → IsU32 fr.stream_id
      → IsU8 fr.cf_header.flags
      → IsU24 (length (block_bytes low fr.headers) + 4)
      → IsU32 (length fr.headers)
      → Reads View
          (read_frame std)
          (reply_bytes low type_syn_reply fr.cf_header.flags fr.stream_id fr.headers)
          (syn_reply (record fr {
            cf_header =
                header_of type_syn_reply fr.cf_header.flags
                  (length (block_bytes low fr.headers) + 4);
          }))
  unfolding read_body read_syn_reply
  syn_reply-Reads fr hs allowed present i hf hl n =
      let block = block_bytes low fr.headers in
      let body = be32 fr.stream_id ++ block in
      control-Reads std f type_syn_reply _ _ body _ (omega arith) hf hl (
        last-Reads View _ _ body _ _
          (bind-Reads View (receive_number std 4) _ (be32 fr.stream_id) block fr.stream_id _
            (u32-Reads std f fr.stream_id i)
            (last-Reads View _ _ block fr.headers _
              (header_block-Reads _ invalid_resp_headers fr.stream_id fr.headers hs n allowed
                present)
              (return-Reads View _)))
          (return-Reads View _))

  -- HEADERS on an even stream must not hold what a request must not, on an odd one what a response
  -- must not.
  pub headers-Reads :
      (fr : HeadersFrame)
      → IsHeader std.unicode_lower fr.headers
      → has_invalid (invalid_headers_for fr.stream_id) fr.headers ≡ false
      → fr.stream_id ≢ 0
      → IsU32 fr.stream_id
      → IsU8 fr.cf_header.flags
      → IsU24 (length (block_bytes low fr.headers) + 4)
      → IsU32 (length fr.headers)
      → Reads View
          (read_frame std)
          (reply_bytes low type_headers fr.cf_header.flags fr.stream_id fr.headers)
          (headers (record fr {
            cf_header =
                header_of type_headers fr.cf_header.flags (length (block_bytes low fr.headers) + 4);
          }))
  unfolding read_body read_headers
  headers-Reads fr hs allowed present i hf hl n =
      let block = block_bytes low fr.headers in
      let body = be32 fr.stream_id ++ block in
      control-Reads std f type_headers _ _ body _ (omega arith) hf hl (
        last-Reads View _ _ body _ _
          (bind-Reads View (receive_number std 4) _ (be32 fr.stream_id) block fr.stream_id _
            (u32-Reads std f fr.stream_id i)
            (last-Reads View _ _ block fr.headers _
              (header_block-Reads _ _ fr.stream_id fr.headers hs n allowed present)
              (return-Reads View _)))
          (return-Reads View _))
