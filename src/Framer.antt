-- ===== src/Framer.antt =====
-- The `Framer` of spdyframing/types.go: its state, and the reads and writes that its methods make.
pub mod Dictionary
pub mod Block
pub mod Write
pub mod Read
pub mod Emit
pub mod Encoding
pub mod Yields
pub mod Accept
pub mod Takes
pub mod Progress
pub mod Encode
pub mod Decode
pub mod EncodeHeaders
pub mod DecodeHeaders
pub mod RoundTrip
pub mod Compressed
use Prim.Native.Nat.{min}
use spdy.Base.{
  ℕ, ◌+◌, ◌-◌, Bytes, Bool, true, false, Option, none, some, List, [], ◌∷◌, ◌++◌, leb,
  if◌then◌else◌, length, take, drop,
}
use spdy.Errors.{Error, broken}
use spdy.Stdlib.{Stdlib}
use spdy.Wire.{Result, ok, err, Action, ◌>>=◌, return, number, read_full}
use Dictionary.{header_dictionary}

-- The connection that `w` writes to takes `room` more bytes and then fails; `input` is what `r` has
-- left before its end; `limit` is `headerReader.N`. The decompressor is nil until first needed.
pub record Framer (std : Stdlib) : Type 0 where
  pub header_compression_disabled : Bool
  pub out : Bytes
  pub room : ℕ
  pub header_buf : Bytes
  pub header_compressor : std.Deflater
  pub input : Bytes
  pub limit : ℕ
  pub header_decompressor : Option std.Inflater

module _ (std : Stdlib) where
  -- `NewFramer`, on a connection that takes `room` bytes and brings `input`.
  unfoldable pub new_framer : ℕ → Bytes → Framer std
  new_framer room input = record {
    header_compression_disabled = false;
    out = [];
    room = room;
    header_buf = [];
    header_compressor = std.new_deflater header_dictionary;
    input = input;
    limit = 0;
    header_decompressor = none;
  }

  -- `f.w.Write(bs)`
  unfoldable pub send : Bytes → Action (Framer std) (Unit {0})
  send bs f =
      if leb (length bs) f.room
      then (ok tt, record f { out = f.out ++ bs; room = f.room - length bs })
      else (err broken, record f { out = f.out ++ take f.room bs; room = 0 })

  -- `io.ReadFull(f.r, …)` of `n` bytes, and `binary.Read` of a number.
  unfoldable pub receive : ℕ → Action (Framer std) Bytes
  receive n f = let (x, rest) = read_full n f.input in (x, record f { input = rest })

  unfoldable pub receive_number : ℕ → Action (Framer std) ℕ
  receive_number n = do bs ← receive n; return (number bs)

  -- What `f.headerReader` shows of the connection, and a read through it of `n` bytes.
  abbrev pub window : Framer std → Bytes
  window f = take f.limit f.input

  abbrev pub skip : ℕ → Framer std → Framer std
  skip n f =
      let m = min n (length (window f)) in record f { input = drop m f.input; limit = f.limit - m }

  -- `uncorkHeaderDecompressor`
  abbrev pub keep_decompressor : Framer std → Result std.Inflater → Result (Unit {0}) × Framer std
  keep_decompressor f (ok z) = (ok tt, record f { header_decompressor = some z })
  keep_decompressor f (err e) = (err e, f)

  abbrev pub start_decompressor : Action (Framer std) (Unit {0})
  start_decompressor f =
      let (x, n) = std.new_inflater header_dictionary (window f) in keep_decompressor (skip n f) x

  unfoldable pub uncork_header_decompressor : ℕ → Action (Framer std) (Unit {0})
  uncork_header_decompressor size f = elim f.header_decompressor [
    | some z ↦ (ok tt, record f { limit = size })
    | none ↦ start_decompressor (record f { limit = size })
  ]

  -- A read of the block's bytes: from `f.headerDecompressor`, or from `f.r` if compression is
  -- disabled.
  abbrev pub through : ℕ → std.Inflater → Action (Framer std) Bytes
  through n z f =
      let ((x, z'), m) = std.inflate n z (window f) in
      (x, record (skip m f) { header_decompressor = some z' })

  unfoldable pub receive_block : ℕ → Action (Framer std) Bytes
  receive_block n f =
      if f.header_compression_disabled
      then receive n f
      else elim f.header_decompressor [ some z ↦ through n z f | none ↦ receive n f ]
