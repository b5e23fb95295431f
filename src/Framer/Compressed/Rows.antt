-- ===== src/Framer/Compressed/Rows.antt =====
-- Frames in a row, compressed by spdyframing/write.go and read by spdyframing/read.go.
use spdy.Base.{
  ℕ, ◌≤◌, ◌≡◌, ◌⊎◌, refl, sym, ap, ◌∙◌, Bytes, false, Option, List, [], ◌∷◌, ◌++◌, length, drop,
  append_assoc, append-nil, length-append, drop-append, le→leb, arith, inl, inr,
}
use spdy.Errors.{framing, wrong_compressed_payload_size}
use spdy.Stdlib.{Stdlib}
use spdy.Wire.{Result, ok, err, continue, return, ◌>>=◌}
use spdy.Wire.Reads.{Comes}
use spdy.Frame.{Frame}
use spdy.Framer.{Framer}
use spdy.Framer.Read.{read_frame}
use spdy.Framer.Decode.{ahead}
use spdy.Framer.RoundTrip.{write_frames, read_frames}
use spdy.Framer.Compressed.{Zlib, pack, pack_all, AreReady}
use spdy.Framer.Compressed.Writes.{IsPacking, after, write_packs}
use spdy.Framer.Compressed.Blocks.{IsPaired, Slack, wrong_size}
use spdy.Framer.Compressed.Frames.{Kept, frame-Frames}

module _ (std : Stdlib) where
  -- `f` after the frames have been written.
  abbrev written : List Frame → Framer std → Framer std
  written [] f = f
  written (fr ∷ frs) f = written frs (after std f (pack std fr f.header_compressor))

  out-written :
      (frs : List Frame) (f : Framer std)
      → (written frs f).out ≡ f.out ++ (pack_all std frs f.header_compressor).0
  out-written [] f = sym (append-nil f.out)
  out-written (fr ∷ frs) f =
      let p = pack std fr f.header_compressor in
      out-written frs (after std f p) ∙ append_assoc f.out p.bytes _

  write_frames_pack :
      (frs : List Frame) (f : Framer std)
      → AreReady std frs f.header_compressor
      → IsPacking std f
      → length (pack_all std frs f.header_compressor).0 ≤ f.room
      → write_frames std frs f ≡ (ok tt, written frs f)
  write_frames_pack [] f ws v h = refl
  write_frames_pack (fr ∷ frs) f (w, ws) v h =
      let p = pack std fr f.header_compressor in
      let more = (pack_all std frs p.left).0 in
      rw (write_packs std fr f w v (le→leb _ _ (omega (arith, length-append p.bytes more)))) (
        write_frames_pack frs (after std f p) ws
          (record { enabled = v.enabled; drained = v.drained })
          (omega (arith, length-append p.bytes more)))

  module _ (zlib : Zlib std) where
    -- What reading the frames comes to.
    abbrev pub Arrive : List Frame → Bytes → Result (List Frame) × Framer std → Type 0
    Arrive frs rest r =
        ((g : Framer std) × (r ≡ (ok frs, g)) × (g.input ≡ rest))
        ⊎ (Slack std zlib × (r.0 ≡ err (framing wrong_compressed_payload_size 0)))

    -- The first frame, and then the others, from a reader that has kept up.
    one_more :
        (fr : Frame) (frs : List Frame) (d : std.Deflater) (g : Framer std) (rest : Bytes) (n : ℕ)
        (enabled : g.header_compression_disabled ≡ false)
        (pair : IsPaired std zlib d g.header_decompressor) (bs : Bytes) (e : std.Deflater)
        (r : Result Frame × Framer std)
        → Comes
            (Kept std zlib g enabled g.header_decompressor d refl pair e)
            (Slack std zlib)
            (wrong_size std zlib g enabled)
            fr
            r
            (bs ++ rest)
        → ((o : Option std.Inflater) (limit : ℕ)
            → IsPaired std zlib e o
            → Arrive frs rest (
                read_frames std n
                  (record g { input = bs ++ rest; limit = limit; header_decompressor = o })))
        → Arrive (fr ∷ frs) rest (continue r (λ x. read_frames std n >>= λ xs. return (x ∷ xs)))
    one_more fr frs d g rest n enabled pair bs e r (inr (why, bad)) next = failed r bad
      where
        failed :
            (r : Result Frame × Framer std)
            → r.0 ≡ err (wrong_size std zlib g enabled)
            → Arrive (fr ∷ frs) rest (continue r (λ x. read_frames std n >>= λ xs. return (x ∷ xs)))
        failed (ok x, t) bad = cc
        failed (err x, t) bad =
            inr (why, let same : x ≡ wrong_size std zlib g enabled = cc in ap err same)
    one_more fr frs d g rest n enabled pair bs e r (inl (t, read, (o, limit, is, v))) next =
        rw (read, is) (from _ (next o limit v))
      where
        from :
            (r : Result (List Frame) × Framer std)
            → Arrive frs rest r
            → Arrive (fr ∷ frs) rest (continue r (λ xs. return (fr ∷ xs)))
        from (ok xs, t) (inl (u, read, left)) = inl (u, cc, left)
        from (ok xs, t) (inr (why, bad)) = cc
        from (err x, t) (inl (u, read, left)) = cc
        from (err x, t) (inr (why, bad)) =
            inr (why, let same : x ≡ framing wrong_compressed_payload_size 0 = cc in ap err same)

    read_frames_unpack :
        (frs : List Frame) (g : Framer std) (d : std.Deflater) (rest : Bytes)
        → AreReady std frs d
        → g.header_compression_disabled ≡ false
        → IsPaired std zlib d g.header_decompressor
        → let (bs, gs) = pack_all std frs d in
          Arrive gs rest (read_frames std (length frs) (ahead std g (bs ++ rest)))
    read_frames_unpack [] g d rest ws v pair = inl (_, refl, refl)
    read_frames_unpack (fr ∷ frs) g d rest (w, ws) v pair =
        let p = pack std fr d in
        let (bs, gs) = pack_all std frs p.left in
        rw (append_assoc p.bytes bs rest) (
          one_more p.frame gs d g rest (length frs) v pair bs p.left
            (read_frame std (ahead std g (p.bytes ++ (bs ++ rest))))
            (frame-Frames std zlib g v g.header_decompressor d refl pair fr w
              (ahead std g (p.bytes ++ (bs ++ rest))) (bs ++ rest) refl)
            (λ o limit pair'.
              read_frames_unpack frs (record g { limit = limit; header_decompressor = o }) p.left
                rest ws v pair'))

    -- With header compression, by the laws of zlib: frames fit for the wire, written one after the
    -- other on a connection with room for them, come out of a reader that has kept up with the writer
    -- in the same order, each as it was but for the control header that the writer sets, with what
    -- follows them left to read; or the reader complains of the size of a compressed block, and there
    -- is a decompressor that has given all of a block and left bytes of it.
    pub read_frames-write_frames_packed :
        (frs : List Frame) (f g : Framer std) (rest : Bytes)
        → AreReady std frs f.header_compressor
        → IsPacking std f
        → g.header_compression_disabled ≡ false
        → IsPaired std zlib f.header_compressor g.header_decompressor
        → length (pack_all std frs f.header_compressor).0 ≤ f.room
        → let (x, f') = write_frames std frs f in
          (x ≡ ok tt)
          × Arrive
              (pack_all std frs f.header_compressor).1
              rest
              (read_frames std (length frs) (ahead std g (drop (length f.out) f'.out ++ rest)))
    read_frames-write_frames_packed frs f g rest ws v w pair h =
        let p = pack_all std frs f.header_compressor in
        rw (write_frames_pack frs f ws v h, out-written frs f)
          (
            refl,
            rw (drop-append (length f.out) f.out p.0 refl)
                (read_frames_unpack frs g f.header_compressor rest ws w pair),
          )
