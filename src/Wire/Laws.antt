-- ===== src/Wire/Laws.antt =====
-- Round trips of the fixed-size numbers.
use spdy.Base.{
  ℕ, ◌<◌, ◌≡◌, Bytes, ◌++◌, ltb, length, length-append, take-append, drop-append, false, arith,
}
use spdy.Wire.{ok, be8, be16, be32, number, read_full}

pub number-be8 : (n : ℕ) → n < 0x100 → number (be8 n) ≡ n
number-be8 n h = omega arith

pub number-be16 : (n : ℕ) → n < 0x10000 → number (be16 n) ≡ n
number-be16 n h = omega arith

pub number-be32 : (n : ℕ) → n < 0x100000000 → number (be32 n) ≡ n
number-be32 n h = omega arith

-- Reading as many bytes as stand in front of the rest of a stream gives those, and leaves the rest.
pub read_full-append :
    (n : ℕ) (bs rest : Bytes) → length bs ≡ n → read_full n (bs ++ rest) ≡ (ok bs, rest)
unfolding read_full
read_full-append n bs rest h =
    let long : ltb (length (bs ++ rest)) n ≡ false = ground (arith, length-append bs rest) in
    rw (long, take-append n bs rest h, drop-append n bs rest h)
