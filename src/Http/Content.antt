-- ===== src/Http/Content.antt =====
-- transfer.go: the body of a message, over any reader, and its trailer.
use spdy.Base.{
  ℕ, zero, suc, Bytes, Bool, true, false, not, ◌||◌, Option, none, some, [], if◌then◌else◌,
}
use spdy.Header.{Header}
use spdy.Http.{copy_header}

-- What a Read of an io.Reader gives besides its bytes.
pub data Status : Type 0 where
  fine at_eof : Status
  broken : ℕ → Status
  read_after_close : Status

-- The reader `r` is an object of state `R`; `is_eof_reader` says that it is `eofReader`. `hdr` is set
-- while the message may still get its trailer, which `copied` shows as the message has it.
pub record Body (R : Type 0) : Type 0 where
  pub r : R
  pub is_eof_reader : Bool
  pub closed : Bool
  pub hdr : Bool
  pub trailer : Option Header
  pub copied : Option Header

-- `ioutil.Discard` reads by so many bytes.
abbrev pub discard_size : ℕ
discard_size = 8192

module _ {R : Type 0} (read : ℕ → R → (Bytes × Status) × R) where
  unfoldable pub copy_trailer : Body R → Body R
  copy_trailer b = elim b.trailer [
    | none ↦ b
    | some t ↦ record b {
      copied = if b.hdr then some (copy_header [] t) else b.copied;
      trailer = none;
    }
  ]

  abbrev pub has_trailer : Option Header → Bool
  has_trailer none = false
  has_trailer (some t) = true

  abbrev pub at_end : Status → Body R → Body R
  at_end at_eof b = if has_trailer b.trailer then record (copy_trailer b) { hdr = false } else b
  at_end s b = b

  -- `Read`
  unfoldable pub read_body : ℕ → Body R → (Bytes × Status) × Body R
  read_body n b =
      if b.closed
      then (([], read_after_close), b)
      else (let ((bytes, s), r) = read n b.r in ((bytes, s), at_end s (record b { r = r })))

  -- `io.Copy(ioutil.Discard, b)` on fuel; `none` if that runs out.
  abbrev pub discard_on :
      (Body R → Option (Status × Body R)) → (Bytes × Status) × Body R → Option (Status × Body R)
  discard_on rest ((bytes, fine), b) = rest b
  discard_on rest ((bytes, at_eof), b) = some (fine, b)
  discard_on rest ((bytes, s), b) = some (s, b)

  unfoldable pub discard : ℕ → Body R → Option (Status × Body R)
  discard zero b = none
  discard (suc fuel) b = discard_on (discard fuel) (read_body discard_size b)

  abbrev pub shut : Option (Status × Body R) → Option (Status × Body R)
  shut none = none
  shut (some (s, b)) = some (s, record b { closed = true })

  -- `Close`
  unfoldable pub close_body : ℕ → Body R → Option (Status × Body R)
  close_body fuel b =
      if b.closed
      then some (fine, b)
      else shut (if not b.hdr || b.is_eof_reader then some (fine, b) else discard fuel b)
