-- ===== src/Http/Trailers.antt =====
-- When the body of transfer.go gives the message its trailer, and when not.
use spdy.Base.{ℕ, suc, ◌≡◌, ◌≢◌, Bytes, true, false, Option, none, some, []}
use spdy.Header.{Header}
use spdy.Http.{copy_header}
use spdy.Http.Content.{Status, fine, at_eof, Body, discard_size}

module _ {R : Type 0} (read : ℕ → R → (Bytes × Status) × R) where
  -- By so many Reads or fewer, each of the size that Close discards by, the reader comes to a status
  -- other than `fine`.
  pub data Ends : ℕ → R → Status → R → Type 0 where
    last :
        {n : ℕ} {r after : R} {s : Status} (bytes : Bytes)
        → read discard_size r ≡ ((bytes, s), after)
        → s ≢ fine
        → Ends (suc n) r s after
    more :
        {n : ℕ} {r next after : R} {s : Status} (bytes : Bytes)
        → read discard_size r ≡ ((bytes, fine), next)
        → Ends n next s after
        → Ends (suc n) r s after

  -- An open body over `r` whose message is to get the trailer `t` and now shows `c`.
  abbrev pub waiting : Header → Option Header → R → Body R
  waiting t c r = record {
    r = r;
    is_eof_reader = false;
    closed = false;
    hdr = true;
    trailer = some t;
    copied = c;
  }

  -- The same body after the end of its reader.
  abbrev pub trailed : Header → R → Body R
  trailed t r = record {
    r = r;
    is_eof_reader = false;
    closed = false;
    hdr = false;
    trailer = none;
    copied = some (copy_header [] t);
  }

  -- What Close makes of that body when its reader comes to the status.
  abbrev pub closed_at : Header → Option Header → Status → R → Status × Body R
  closed_at t c at_eof r = (fine, record (trailed t r) { closed = true })
  closed_at t c s r = (s, record (waiting t c r) { closed = true })

  -- The body after a Read that gave the status.
  abbrev pub read_on : Header → Option Header → Status → R → Body R
  read_on t c at_eof r = trailed t r
  read_on t c s r = waiting t c r
