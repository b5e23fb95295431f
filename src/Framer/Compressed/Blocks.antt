-- ===== src/Framer/Compressed/Blocks.antt =====
-- A compressed header block, read by `uncorkHeaderDecompressor` and `parseHeaderValueBlock` of
-- spdyframing/read.go from the connection that a writer of the same session has written.
use Prim.Native.Nat.{min}
use spdy.Base.{
  ℕ, ◌≤◌, ◌≡◌, ◌≢◌, refl, sym, ap, subst, ◌∙◌, Bytes, false, Option, none, some, List, [], ◌∷◌,
  ◌++◌, length, drop, take, take-append, drop-append_le, length-drop, append-nil, ◌==◌, arith, inl,
  inr,
}
use spdy.Errors.{Error, framing, wrong_compressed_payload_size}
use spdy.Stdlib.{Stdlib}
use spdy.Wire.{ok}
use spdy.Wire.Reads.{Reads, Runs, Comes, Comes-continue}
use spdy.Header.{Header, to_lower}
use spdy.Framer.{Framer, receive_block, uncork_header_decompressor, skip}
use spdy.Framer.Dictionary.{header_dictionary}
use spdy.Framer.Block.RoundTrip.{IsHeader, block-Reads}
use spdy.Framer.Block.{parse_header_value_block}
use spdy.Framer.Read.{has_invalid, check_payload, uncork, read_header_block}
use spdy.Framer.Encoding.{block_bytes, IsU32}
use spdy.Framer.Decode.{ahead, Ahead}
use spdy.Framer.Compressed.{Zlib, Deflated, packed}
use spdy.Framer.Compressed.Writes.{block-Wrote}

module _ (std : Stdlib) (zlib : Zlib std) where
  abbrev low : Bytes → Bytes
  low = to_lower std.unicode_lower

  -- What a reader has done so far goes with what the writer has: nothing yet, or the same flushes.
  abbrev pub IsPaired : std.Deflater → Option std.Inflater → Type 0
  IsPaired d none = d ≡ std.new_deflater header_dictionary
  IsPaired d (some z) = zlib.Gives z [] [] d

  -- A decompressor that has given a whole block and left bytes of it.
  abbrev pub Slack : Type 0
  Slack =
      (z : std.Inflater) × (src : Bytes) × (d : std.Deflater) × zlib.Gives z src [] d × (src ≢ [])

  module _ (f : Framer std) (enabled : f.header_compression_disabled ≡ false) where
    -- `f` inside a block: `src` is what the decompressor may still take, and `rest` comes after it.
    abbrev inside : Bytes → std.Inflater → Bytes → Framer std
    inside src z rest = record f {
      input = src ++ rest;
      limit = length src;
      header_decompressor = some z;
    }

    -- The decompressor has `bs` to give, and will then have followed the writer to `d`.
    abbrev Block : Bytes → std.Deflater → Framer std → Bytes → Type 0
    Block rest d g bs =
        (z : std.Inflater) × (src : Bytes) × (g ≡ inside src z rest) × zlib.Gives z src bs d

    skip_lem :
        (n : ℕ) (src rest : Bytes) (z : Option std.Inflater)
        → n ≤ length src
        → skip std n (record f { input = src ++ rest; limit = length src; header_decompressor = z })
          ≡ record f {
            input = drop n src ++ rest;
            limit = length (drop n src);
            header_decompressor = z;
          }
    skip_lem n src rest z h =
        let seen : take (length src) (src ++ rest) ≡ src = take-append (length src) src rest refl in
        let taken : min n (length src) ≡ n = omega arith in
        rw (seen, taken, drop-append_le n src rest h, length-drop n src) refl

    receive_block_lem :
        (src bs rest : Bytes) (z next : std.Inflater) (m : ℕ)
        → std.inflate (length bs) z src ≡ ((ok bs, next), m)
        → m ≤ length src
        → receive_block std (length bs) (inside src z rest) ≡ (ok bs, inside (drop m src) next rest)
    unfolding receive_block
    receive_block_lem src bs rest z next m given fits =
        let seen : take (length src) (src ++ rest) ≡ src = take-append (length src) src rest refl in
        let taken : min m (length src) ≡ m = omega arith in
        rw (enabled, seen, given, taken, drop-append_le m src rest fits, length-drop m src) refl

    receive_block-Reads :
        (rest : Bytes) (d : std.Deflater) (n : ℕ) (bs : Bytes)
        → length bs ≡ n
        → Reads (Block rest d) (receive_block std n) bs bs
    receive_block-Reads rest d n bs h g more (z, src, e, v) =
        let (next, m, given, fits, w) = zlib.gives z src bs more d v in
        (
          inside (drop m src) next rest,
          ap (receive_block std n) e
              ∙ ap (λ k. receive_block std k (inside src z rest)) (sym h)
              ∙ receive_block_lem src bs rest z next m given fits,
          (next, drop m src, refl, w),
        )

    -- The decompressor is there, or is begun now.
    uncork_lem :
        (o : Option std.Inflater) (d : std.Deflater) (plain comp : Bytes) (e : std.Deflater)
        (rest : Bytes)
        → f.header_decompressor ≡ o
        → IsPaired d o
        → Deflated std d plain comp e
        → let src = comp ++ (std.flush e).0 in
          (g : Framer std) × (uncork std (length src) (ahead std f (src ++ rest)) ≡ (ok tt, g))
          × Block rest (std.flush e).1 g plain
    unfolding uncork uncork_header_decompressor
    uncork_lem none d plain comp e rest same pair run =
        let src = comp ++ (std.flush e).0 in
        let (z, n, begun, fits, v) =
          zlib.starts header_dictionary plain comp e
            (subst (λ s. Deflated std s plain comp e) pair run) in
        let seen : take (length src) (src ++ rest) ≡ src = take-append (length src) src rest refl in
        let taken : min n (length src) ≡ n = omega arith in
        (
          inside (drop n src) z rest,
          rw (enabled, same, seen, begun, taken, drop-append_le n src rest fits, length-drop n src)
              refl,
          (z, drop n src, refl, v),
        )
    uncork_lem (some z) d plain comp e rest same pair run =
        let src = comp ++ (std.flush e).0 in
        (
          inside src z rest,
          rw (enabled, same, same) refl,
          (z, src, refl, zlib.resumes z d plain comp e pair run),
        )

    -- After a block: the decompressor has kept up, and has taken all of it.
    abbrev pub Left : std.Deflater → Framer std → Bytes → Type 0
    Left d g rest =
        (z : std.Inflater) × (g
          ≡ record f { input = rest; limit = 0; header_decompressor = some z })
        × zlib.Gives z [] [] d

    abbrev pub wrong_size : Error
    wrong_size = framing wrong_compressed_payload_size 0

    checked :
        (h : Header) (d : std.Deflater) (rest : Bytes) (z : std.Inflater) (src : Bytes)
        → zlib.Gives z src [] d
        → Comes (Left d) Slack wrong_size h (check_payload std (ok h, inside src z rest)) rest
    unfolding check_payload
    checked h d rest z [] v = inl (_, rw enabled refl, (z, refl, v))
    checked h d rest z (c ∷ src) v =
        let more : (length (c ∷ src) == 0) ≡ false = ground arith in
        inr ((z, c ∷ src, d, v, λ e. cc), rw (enabled, more) refl)

    block_read :
        (o : Option std.Inflater) (d : std.Deflater) (invalid : List Bytes) (id : ℕ) (h : Header)
        (comp : Bytes) (e : std.Deflater) (rest : Bytes)
        → f.header_decompressor ≡ o
        → IsPaired d o
        → Deflated std d (block_bytes low h) comp e
        → IsHeader std.unicode_lower h
        → IsU32 (length h)
        → has_invalid invalid h ≡ false
        → id ≢ 0
        → let src = comp ++ (std.flush e).0 in
          Comes
            (Left (std.flush e).1)
            Slack
            wrong_size
            h
            (read_header_block std (length src) invalid id (ahead std f (src ++ rest)))
            rest
    unfolding read_header_block
    block_read o d invalid id h comp e rest same pair run hs fits allowed present =
        let (g1, started, block) = uncork_lem o d (block_bytes low h) comp e rest same pair run in
        let (g2, parsed, (z, src, at_end, given)) =
          block-Reads std.unicode_lower (Block rest (std.flush e).1) (receive_block std)
            (receive_block-Reads rest (std.flush e).1) id h hs fits g1 []
            (subst (Block rest (std.flush e).1 g1) (sym (append-nil (block_bytes low h))) block) in
        let read = parsed ∙ ap (λ g. (ok h, g)) at_end in
        let some_id : (id == 0) ≡ false = ground arith in
        rw started (
          Comes-continue (Left (std.flush e).1) Slack wrong_size _ h h
            (check_payload std
              (parse_header_value_block std.unicode_lower (receive_block std) id g1))
            rest (λ t. rw (allowed, some_id) refl)
            (rw read (checked h (std.flush e).1 rest z src given)))

    pub header_block-Comes :
        (o : Option std.Inflater) (d : std.Deflater) (invalid : List Bytes) (id : ℕ) (h : Header)
        → f.header_decompressor ≡ o
        → IsPaired d o
        → IsHeader std.unicode_lower h
        → IsU32 (length h)
        → has_invalid invalid h ≡ false
        → id ≢ 0
        → Runs
            (Ahead std f)
            (Comes (Left (packed std h d).1) Slack wrong_size h)
            (read_header_block std (length (packed std h d).0) invalid id)
            (packed std h d).0
    header_block-Comes o d invalid id h same pair hs fits allowed present g rest v =
        let (comp, e, run, is) = block-Wrote std h d in
        subst
          (λ g.
            Comes (Left (packed std h d).1) Slack wrong_size h
              (read_header_block std (length (packed std h d).0) invalid id g) rest)
          (sym v)
          (subst
            (λ (p : Bytes × std.Deflater).
              Comes (Left p.1) Slack wrong_size h
                (read_header_block std (length p.0) invalid id (ahead std f (p.0 ++ rest))) rest)
            (sym is)
            (block_read o d invalid id h comp e rest same pair run hs fits allowed present))
