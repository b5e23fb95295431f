-- ===== src/Framer/Block.antt =====
-- The header block: `parseHeaderValueBlock` of spdyframing/read.go over any reader, and
-- `writeHeaderValueBlock` of spdyframing/write.go over any writer.
pub mod Duplicates
pub mod RoundTrip
use spdy.Base.{
  ℕ, zero, suc, ◌+◌, Bytes, Bool, true, false, Option, none, some, List, [], ◌∷◌, length, bytes_eq,
  if◌then◌else◌,
}
use spdy.Errors.{Error, framing, unlowercased_header_name, duplicate_headers}
use spdy.Wire.{Result, ok, err, Action, continue, ◌>>=◌, return, number, be32}
use spdy.Header.{Header, to_lower, values_of, add_all, join, split}

-- The error that a name brings to light: the later test overrides the earlier one, and either
-- overrides what was found before.
unfoldable pub name_error : (Bytes → Bytes) → ℕ → Bytes → Header → Option Error → Option Error
name_error unicode_lower id name h e =
    let lowered = to_lower unicode_lower name in
    elim (values_of lowered h) [
      | some vs ↦ some (framing duplicate_headers id)
      | none ↦ if bytes_eq name lowered then e else some (framing unlowercased_header_name id)
    ]

module _ (unicode_lower : Bytes → Bytes) {S : Type 0} (read_block : ℕ → Action S Bytes) where
  -- A 32-bit length and as many bytes.
  unfoldable pub read_string : Action S Bytes
  read_string = do n ← read_block 4; read_block (number n)

  -- One round of the loop: a name and its values are added to the header.
  unfoldable pub read_entry : ℕ → Header × Option Error → Action S (Header × Option Error)
  read_entry id (h, e) = do
    name ← read_string
    value ← read_string
    return (
      add_all (to_lower unicode_lower name) (split value) h,
      name_error unicode_lower id name h e,
    )

  unfoldable pub read_entries : ℕ → ℕ → Header × Option Error → Action S (Header × Option Error)
  read_entries id zero acc = return acc
  read_entries id (suc n) acc = do acc' ← read_entry id acc; read_entries id n acc'

  abbrev pub finish : Header × Option Error → Action S Header
  finish (h, none) s = (ok h, s)
  finish (h, some e) s = (err e, s)

  unfoldable pub parse_header_value_block : ℕ → Action S Header
  parse_header_value_block id = do
    n ← read_block 4
    acc ← read_entries id (number n) ([], none)
    finish acc

module _ (unicode_lower : Bytes → Bytes) {W : Type 0} (put : Bytes → W → W) where
  unfoldable pub write_entries : Header → ℕ × W → ℕ × W
  write_entries [] acc = acc
  write_entries ((name, values) ∷ h) (n, w) =
      let lowered = to_lower unicode_lower name in
      let v = join values in
      write_entries h (
        n + 2 + length lowered + 2 + length v,
        put v (put (be32 (length v)) (put lowered (put (be32 (length name)) w))),
      )

  -- The count that the source returns is not the number of bytes, and no caller reads it.
  unfoldable pub write_header_value_block : Header → W → ℕ × W
  write_header_value_block h w = write_entries h (2, put (be32 (length h)) w)
