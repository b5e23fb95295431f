-- ===== src/Tests/Packed.antt =====
-- A run of the framer of spdyframing/read.go and spdyframing/write.go with header compression, over
-- the stand-in for package zlib, which has its laws.
use spdy.Base.{
  ℕ, ◌≤◌, ◌≡◌, refl, sym, ap, subst, ◌∙◌, Bytes, false, [], ◌∷◌, ◌++◌, length, drop, drop-append,
  length-append, append-nil, bytes_eq, arith,
}
use spdy.Wire.{ok, read_full}
use spdy.Wire.Laws.{read_full-append}
use spdy.Header.{join, to_lower, is_ascii, values_of}
use spdy.Framer.{Framer}
use spdy.Framer.Block.{write_entries, write_header_value_block}
use spdy.Framer.Read.{has_invalid, is_listed}
use spdy.Framer.Decode.{ahead}
use spdy.Framer.RoundTrip.{write_frames, read_frames}
use spdy.Framer.Compressed.{Zlib, Deflated, nothing, more, pack_all, AreReady}
use spdy.Framer.Compressed.Writes.{IsPacking}
use spdy.Framer.Compressed.Rows.{Arrive, read_frames-write_frames_packed}
use spdy.Tests.Frames.{stored, plain, frames, accept-IsField, x_id-IsField}

stored-same :
    (given comp : Bytes) (d e : stored.Deflater) → Deflated stored d given comp e → comp ≡ given
stored-same given comp d e nothing = refl
stored-same given comp d e (more {plain = p} {comp = c} {e = z} bs run) =
    ap (λ x. x ++ bs) (stored-same p c d z run)

stored_zlib : Zlib stored
stored_zlib = record {
  Gives = λ z src given d. src ≡ given;
  gives = λ z src bs rest d e. (
    tt,
    length bs,
    ap (λ x. (((read_full (length bs) x).0, z), length bs)) e
        ∙ ap (λ r. ((r.0, tt), length bs)) (read_full-append (length bs) bs rest refl),
    subst (λ x. length bs ≤ length x) (sym e) (omega (arith, length-append bs rest)),
    ap (drop (length bs)) e ∙ drop-append (length bs) bs rest refl,
  );
  starts = λ dict given comp d run.
      (tt, 0, refl, omega arith, append-nil comp ∙ stored-same given comp tt d run);
  resumes = λ z d given comp e kept run. append-nil comp ∙ stored-same given comp d e run;
}

-- Framers with compression, at the beginning of a session.
abbrev packing : ℕ → Framer stored
packing room = record (plain room) { header_compression_disabled = false }

packing-IsPacking : (room : ℕ) → IsPacking stored (packing room)
packing-IsPacking room = record { enabled = refl; drained = refl }

frames-AreReady : AreReady stored frames tt
unfolding values_of has_invalid is_listed join to_lower is_ascii bytes_eq write_entries
    write_header_value_block
frames-AreReady = (
  (
    λ e. omega arith,
    omega arith,
    omega arith,
    omega arith,
    omega arith,
    omega arith,
    record {
      comes_back = (accept-IsField, refl, (x_id-IsField, refl, tt));
      allowed = refl;
      block_fits = omega arith;
      count_fits = omega arith;
    },
  ),
  (
    (λ e. omega arith, omega arith, λ e. omega arith, omega arith),
    ((λ e. omega arith, omega arith, omega arith, omega arith), tt),
  ),
)

read_frames-write_frames_packed_example :
    let (x, f) = write_frames stored frames (packing 100) in
    (x ≡ ok tt)
    × Arrive stored stored_zlib
        (pack_all stored frames tt).1
        (7 ∷ [])
        (read_frames stored 3 (ahead stored (packing 0) (drop 1 f.out ++ 7 ∷ [])))
unfolding to_lower is_ascii join write_entries write_header_value_block
read_frames-write_frames_packed_example =
    read_frames-write_frames_packed stored stored_zlib frames (packing 100) (packing 0) (7 ∷ [])
      frames-AreReady (packing-IsPacking 100) refl refl (omega arith)
