-- ===== src/Framer/Compressed/Writes.antt =====
-- `marshal` and the methods of spdyframing/write.go for frames with a header block, with compression.
use spdy.Base.{
  ℕ, ◌+◌, ◌-◌, ◌≡◌, refl, sym, subst, ◌∙◌, Bytes, true, false, [], ◌∷◌, ◌++◌, length, leb,
  append_assoc, append-nil,
}
use spdy.Stdlib.{Stdlib}
use spdy.Wire.{ok, continue, be32}
use spdy.Header.{Header, to_lower, join}
use spdy.Frame.{
  Frame, syn_stream, syn_reply, rst_stream, settings, ping, go_away, headers, window_update,
  data_frame, type_syn_reply, type_headers,
}
use spdy.Framer.{Framer, send}
use spdy.Framer.Block.{write_entries, write_header_value_block}
use spdy.Framer.Write.{
  put_compressed, marshal, reset_buffer, write_frame, write_syn_reply, write_headers,
}
use spdy.Framer.Encoding.{block_bytes, entries_bytes}
use spdy.Framer.EncodeHeaders.{syn_stream_flushes, reply_flushes}
use spdy.Framer.Encode.{
  write_ping-Emits, write_go_away-Emits, write_window_update-Emits, write_rst_stream-Emits,
  write_settings-Emits, write_data-Emits,
}
use spdy.Framer.Emit.{send-fits}
use spdy.Framer.RoundTrip.Sends.{emit_fits}
use spdy.Framer.Compressed.{Deflated, nothing, more, packed, pack, Packed, IsReady}

module _ (std : Stdlib) where
  abbrev low : Bytes → Bytes
  low = to_lower std.unicode_lower

  -- The bytes that a run of writes has compressed.
  abbrev Wrote : std.Deflater → Bytes → Bytes × std.Deflater → Type 0
  Wrote d plain (buf, z) = Deflated std d plain buf z

  again :
      (d : std.Deflater) (plain bs : Bytes) (w : Bytes × std.Deflater)
      → Wrote d plain w
      → Wrote d (plain ++ bs) (put_compressed std bs w)
  again d plain bs (buf, z) v = more bs v

  entries-Wrote :
      (d : std.Deflater) (h : Header) (n : ℕ) (plain : Bytes) (w : Bytes × std.Deflater)
      → Wrote d plain w
      → Wrote d
          (plain ++ entries_bytes low h)
          (write_entries std.unicode_lower (put_compressed std) h (n, w)).1
  unfolding write_entries
  entries-Wrote d [] n plain w v = subst (λ p. Wrote d p w) (sym (append-nil plain)) v
  entries-Wrote d ((name, values) ∷ h) n plain w v =
      subst (λ p. Wrote d p (write_entries std.unicode_lower (put_compressed std) h (n4, w4)).1)
        (simp append_assoc)
        (entries-Wrote d h n4 _ w4 (
          again d _ (join values) w3 (
            again d _ (be32 (length (join values))) w2
              (again d _ (low name) w1 (again d plain (be32 (length name)) w v)))))
    where
      n4 : ℕ
      n4 = n + 2 + length (low name) + 2 + length (join values)

      w1 : Bytes × std.Deflater
      w1 = put_compressed std (be32 (length name)) w

      w2 : Bytes × std.Deflater
      w2 = put_compressed std (low name) w1

      w3 : Bytes × std.Deflater
      w3 = put_compressed std (be32 (length (join values))) w2

      w4 : Bytes × std.Deflater
      w4 = put_compressed std (join values) w3

  -- A compressed block is a run of writes of its layout, and a flush.
  pub block-Wrote :
      (h : Header) (d : std.Deflater)
      → (comp : Bytes) × (e : std.Deflater) × Deflated std d (block_bytes low h) comp e
        × (packed std h d ≡ (comp ++ (std.flush e).0, (std.flush e).1))
  unfolding write_header_value_block
  block-Wrote h d =
      let w = (write_header_value_block std.unicode_lower (put_compressed std) h ([], d)).1 in
      (
        w.0,
        w.1,
        entries-Wrote d h 2 (be32 (length h)) _ (again d [] (be32 (length h)) ([], d) nothing),
        refl,
      )

  -- A framer with compression, between two frames.
  pub record IsPacking (f : Framer std) : Type 0 where
    pub enabled : f.header_compression_disabled ≡ false
    pub drained : f.header_buf ≡ []

  -- `f` with a block in its buffer, and after a frame has been written.
  abbrev packing : Framer std → Bytes × std.Deflater → Framer std
  packing f (block, d) = record f { header_buf = block; header_compressor = d }

  abbrev pub after : Framer std → Packed std → Framer std
  after f p = record f {
    out = f.out ++ p.bytes;
    room = f.room - length p.bytes;
    header_compressor = p.left;
  }

  marshal_packs :
      (h : Header) (f : Framer std)
      → IsPacking f
      → marshal std h f ≡ (ok tt, packing f (packed std h f.header_compressor))
  unfolding marshal
  marshal_packs h f v = rw (v.enabled, v.drained) refl

  -- The frame is sent from the buffer, which is then empty.
  flush_after :
      (f : Framer std) (p : Packed std) (block : Bytes)
      → IsPacking f
      → leb (length p.bytes) f.room ≡ true
      → continue (send std p.bytes (packing f (block, p.left))) (λ _. reset_buffer std)
        ≡ (ok tt, after f p)
  flush_after f p block v fits =
      rw (send-fits std p.bytes (packing f (block, p.left)) fits) (rw v.drained refl)

  pub write_packs :
      (fr : Frame) (f : Framer std)
      → IsReady std fr f.header_compressor
      → IsPacking f
      → leb (length (pack std fr f.header_compressor).bytes) f.room ≡ true
      → write_frame std fr f ≡ (ok tt, after f (pack std fr f.header_compressor))
  unfolding write_frame write_syn_reply write_headers
  write_packs (syn_stream fr) f (i, w, a, p, s, fl, hs) v h =
      syn_stream_flushes std fr f _ i fl hs.block_fits (marshal_packs fr.headers f v)
      ∙ flush_after f (pack std (syn_stream fr) f.header_compressor) _ v h
  write_packs (syn_reply fr) f (i, w, fl, hs) v h =
      reply_flushes std type_syn_reply fr.cf_header fr.stream_id fr.headers f _ i fl hs.block_fits
        (marshal_packs fr.headers f v)
      ∙ flush_after f (pack std (syn_reply fr) f.header_compressor) _ v h
  write_packs (headers fr) f (i, w, fl, hs) v h =
      reply_flushes std type_headers fr.cf_header fr.stream_id fr.headers f _ i fl hs.block_fits
        (marshal_packs fr.headers f v)
      ∙ flush_after f (pack std (headers fr) f.header_compressor) _ v h
  write_packs (rst_stream fr) f (i, w, s, t) v h =
      emit_fits std _ f (write_rst_stream-Emits std fr i s) h
  write_packs (settings fr) f (fl, n, vs) v h =
      emit_fits std _ f (write_settings-Emits std fr fl n vs) h
  write_packs (ping fr) f (i, w) v h = emit_fits std _ f (write_ping-Emits std fr i) h
  write_packs (go_away fr) f w v h = emit_fits std _ f (write_go_away-Emits std fr) h
  write_packs (window_update fr) f w v h = emit_fits std _ f (write_window_update-Emits std fr) h
  write_packs (data_frame fr) f (i, w, fl, n) v h =
      emit_fits std _ f (write_data-Emits std fr i w fl n) h
