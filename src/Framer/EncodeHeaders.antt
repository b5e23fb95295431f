-- ===== src/Framer/EncodeHeaders.antt =====
-- The three methods of spdyframing/write.go for frames with a header block, with the header
-- compression disabled: each writes its layout and leaves the buffer of the block empty.
use spdy.Base.{
  ℕ, ◌+◌, ◌*◌, ◌^◌, ◌≡◌, ◌≢◌, refl, ◌∙◌, Bytes, true, false, [], ◌++◌, length, ◌==◌, arith,
}
use spdy.Stdlib.{Stdlib}
use spdy.Wire.{Result, ok, err, Action, continue, ◌>>◌, be8, be32}
use spdy.Header.{Header, to_lower}
use spdy.Frame.{
  ControlFrameHeader, SynStreamFrame, SynReplyFrame, HeadersFrame, type_syn_stream, type_syn_reply,
  type_headers,
}
use spdy.Framer.{Framer, send}
use spdy.Framer.Block.RoundTrip.{write_header_value_block_bytes}
use spdy.Framer.Write.{
  marshal, send_buffered, reset_buffer, write_syn_stream, write_reply_or_headers, write_syn_reply,
  write_headers,
}
use spdy.Framer.Emit.{Emits, send-Emits, send-append}
use spdy.Framer.Encode.{control_header-Emits}
use spdy.Framer.Encoding.{
  block_bytes, IsU8, IsU24, syn_stream_around, reply_around, syn_stream_bytes, reply_bytes,
}

module _ (std : Stdlib) where
  -- With `buf` in the buffer, the action writes `bs` and, if that succeeds, empties the buffer.
  abbrev Flushes : Bytes → Action (Framer std) (Unit {0}) → Bytes → Type 0
  Flushes buf m bs =
      (f : Framer std) → f.header_buf ≡ buf → m f ≡ continue (send std bs f) (λ _. reset_buffer std)

  header_buf-send : (bs : Bytes) (f : Framer std) → (send std bs f).1.header_buf ≡ f.header_buf
  unfolding send
  header_buf-send bs f = ground arith

  last-Flushes : (buf : Bytes) → Flushes buf (send_buffered std >> reset_buffer std) buf
  last-Flushes buf f h = rw h

  then-Flushes :
      (buf : Bytes) {m k : Action (Framer std) (Unit {0})} (xs ys : Bytes)
      → Emits std m xs (ok tt)
      → Flushes buf k ys
      → Flushes buf (m >> k) (xs ++ ys)
  then-Flushes buf {m} {k} xs ys p q f h =
      rw (p f, ← send-append std xs ys f) (joined (send std xs f) (header_buf-send xs f ∙ h))
    where
      joined :
          (r : Result (Unit {0}) × Framer std)
          → r.1.header_buf ≡ buf
          → continue (continue {B = Unit {0}} r (λ _ g. (ok tt, g))) (λ _. k)
            ≡ continue (continue {B = Unit {0}} r (λ _. send std ys)) (λ _. reset_buffer std)
      joined (ok u, g) e = q g e
      joined (err d, g) e = refl

  abbrev low : Bytes → Bytes
  low = to_lower std.unicode_lower

  -- `f` with a marshalled block in its buffer.
  abbrev pub holding : Framer std → Header → Framer std
  holding f h = record f { header_buf = block_bytes low h }

  marshal_plain :
      (h : Header) (f : Framer std)
      → f.header_compression_disabled ≡ true
      → f.header_buf ≡ []
      → marshal std h f ≡ (ok tt, holding f h)
  unfolding marshal
  marshal_plain h f d e = rw (d, e, write_header_value_block_bytes std.unicode_lower h [])

  -- The two layouts around a block that has been marshalled, `f'` the framer that holds it.
  pub syn_stream_flushes :
      (fr : SynStreamFrame) (f f' : Framer std)
      → fr.stream_id ≢ 0
      → IsU8 fr.cf_header.flags
      → IsU24 (length f'.header_buf + 10)
      → marshal std fr.headers f ≡ (ok tt, f')
      → write_syn_stream std fr f
        ≡ continue (send std (syn_stream_around fr f'.header_buf) f') (λ _. reset_buffer std)
  unfolding write_syn_stream
  syn_stream_flushes fr f f' h hf hl m =
      let present : (fr.stream_id == 0) ≡ false = ground arith in
      let block = f'.header_buf in
      rw (present, m)
        (then-Flushes block _ _
          (control_header-Emits std type_syn_stream fr.cf_header.flags (length f'.header_buf + 10)
            hf hl)
          (then-Flushes block (be32 fr.stream_id) _ (send-Emits std _) (
            then-Flushes block (be32 fr.associated_to_stream_id) _ (send-Emits std _) (
              then-Flushes block (be8 (fr.priority * 2 ^ 5)) _ (send-Emits std _)
                (then-Flushes block (be8 fr.slot) block (send-Emits std _) (last-Flushes block)))))
          f' refl)

  pub reply_flushes :
      (t : ℕ) (cf : ControlFrameHeader) (id : ℕ) (hs : Header) (f f' : Framer std)
      → id ≢ 0
      → IsU8 cf.flags
      → IsU24 (length f'.header_buf + 4)
      → marshal std hs f ≡ (ok tt, f')
      → write_reply_or_headers std t cf id hs f
        ≡ continue (send std (reply_around t cf.flags id f'.header_buf) f') (λ _. reset_buffer std)
  unfolding write_reply_or_headers
  reply_flushes t cf id hs f f' h hf hl m =
      let present : (id == 0) ≡ false = ground arith in
      let block = f'.header_buf in
      rw (present, m)
        (then-Flushes block _ _
          (control_header-Emits std t cf.flags (length f'.header_buf + 4) hf hl)
          (then-Flushes block (be32 id) block (send-Emits std _) (last-Flushes block)) f' refl)

  pub write_syn_stream_flushes :
      (fr : SynStreamFrame) (f : Framer std)
      → fr.stream_id ≢ 0
      → IsU8 fr.cf_header.flags
      → IsU24 (length (block_bytes low fr.headers) + 10)
      → f.header_compression_disabled ≡ true
      → f.header_buf ≡ []
      → write_syn_stream std fr f
        ≡ continue
            (send std (syn_stream_bytes low fr) (holding f fr.headers))
            (λ _. reset_buffer std)
  write_syn_stream_flushes fr f h hf hl d e =
      syn_stream_flushes fr f (holding f fr.headers) h hf hl (marshal_plain fr.headers f d e)

  write_reply_flushes :
      (t : ℕ) (cf : ControlFrameHeader) (id : ℕ) (hs : Header) (f : Framer std)
      → id ≢ 0
      → IsU8 cf.flags
      → IsU24 (length (block_bytes low hs) + 4)
      → f.header_compression_disabled ≡ true
      → f.header_buf ≡ []
      → write_reply_or_headers std t cf id hs f
        ≡ continue
            (send std (reply_bytes low t cf.flags id hs) (holding f hs))
            (λ _. reset_buffer std)
  write_reply_flushes t cf id hs f h hf hl d e =
      reply_flushes t cf id hs f (holding f hs) h hf hl (marshal_plain hs f d e)

  pub write_syn_reply_flushes :
      (fr : SynReplyFrame) (f : Framer std)
      → fr.stream_id ≢ 0
      → IsU8 fr.cf_header.flags
      → IsU24 (length (block_bytes low fr.headers) + 4)
      → f.header_compression_disabled ≡ true
      → f.header_buf ≡ []
      → write_syn_reply std fr f
        ≡ continue
            (send std
              (reply_bytes low type_syn_reply fr.cf_header.flags fr.stream_id fr.headers)
              (holding f fr.headers))
            (λ _. reset_buffer std)
  unfolding write_syn_reply
  write_syn_reply_flushes fr =
      write_reply_flushes type_syn_reply fr.cf_header fr.stream_id fr.headers

  pub write_headers_flushes :
      (fr : HeadersFrame) (f : Framer std)
      → fr.stream_id ≢ 0
      → IsU8 fr.cf_header.flags
      → IsU24 (length (block_bytes low fr.headers) + 4)
      → f.header_compression_disabled ≡ true
      → f.header_buf ≡ []
      → write_headers std fr f
        ≡ continue
            (send std
              (reply_bytes low type_headers fr.cf_header.flags fr.stream_id fr.headers)
              (holding f fr.headers))
            (λ _. reset_buffer std)
  unfolding write_headers
  write_headers_flushes fr = write_reply_flushes type_headers fr.cf_header fr.stream_id fr.headers
