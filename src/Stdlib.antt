-- ===== src/Stdlib.antt =====
-- What the package uses of Go's standard library and does not implement, as one interface: the
-- Unicode part of `strings.ToLower`, and package compress/zlib.
use spdy.Base.{ℕ, Bytes}
use spdy.Wire.{Result}

pub record Stdlib : Type 1 where
  -- `strings.ToLower` of a string with a byte outside ASCII.
  pub unicode_lower : Bytes → Bytes
  -- A `zlib.Writer` over a bytes.Buffer, begun with a dictionary: `Write` and `Flush` give what they add to that buffer.
  pub Deflater : Type 0
  pub new_deflater : Bytes → Deflater
  pub deflate : Bytes → Deflater → Bytes × Deflater
  pub flush : Deflater → Bytes × Deflater
  -- A reader of `zlib.NewReaderDict`. It is shown what its source has left and says how many
  -- bytes of that it took: to start, and for an `io.ReadFull` of a given length.
  pub Inflater : Type 0
  pub new_inflater : Bytes → Bytes → Result Inflater × ℕ
  pub inflate : ℕ → Inflater → Bytes → (Result Bytes × Inflater) × ℕ
