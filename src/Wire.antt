-- ===== src/Wire.antt =====
-- Reading and writing fixed-size numbers: encoding/binary with BigEndian, and io.ReadFull, as
-- spdyframing/read.go and spdyframing/write.go use them.
pub mod Laws
pub mod Reads
use spdy.Base.{
  ℕ, zero, suc, ◌+◌, ◌*◌, ◌/◌, ◌%◌, ◌<◌, Bytes, Bool, List, [], ◌∷◌, if◌then◌else◌, ◌==◌, ltb,
  length, take, drop, ◌&&◌,
}
use spdy.Errors.{Error, eof, unexpected_eof}

pub data Result {ℓ} (A : Type ℓ) : Type ℓ where
  ok : A → Result A
  err : Error → Result A

-- A fallible action that reads from a state, such as a stream of bytes.
abbrev pub Action : Type 0 → Type 0 → Type 0
Action S A = S → Result A × S

abbrev pub continue : {S A B : Type 0} → Result A × S → (A → Action S B) → Result B × S
continue (ok a, s) k = k a s
continue (err e, s) k = (err e, s)

infixl 5 ◌>>=◌ ◌>>◌
abbrev pub ◌>>=◌ : {S A B : Type 0} → Action S A → (A → Action S B) → Action S B
◌>>=◌ m k s = continue (m s) k

abbrev pub ◌>>◌ : {S B : Type 0} → Action S (Unit {0}) → Action S B → Action S B
m >> k = m >>= λ _. k

abbrev pub return : {S A : Type 0} → A → Action S A
return a s = (ok a, s)

abbrev pub throw : {S A : Type 0} → Error → Action S A
throw e s = (err e, s)

-- Go's `if bad { return e }`.
abbrev pub fail_if : {S : Type 0} → Bool → Error → Action S (Unit {0})
fail_if b e s = (if b then err e else ok tt, s)

-- The big-endian bytes of a number of 8, 16 or 32 bits, and the number of some bytes.
abbrev pub be8 : ℕ → Bytes
be8 n = (n % 0x100) ∷ []

abbrev pub be16 : ℕ → Bytes
be16 n = (n / 0x100 % 0x100) ∷ (n % 0x100) ∷ []

abbrev pub be32 : ℕ → Bytes
be32 n = (n / 0x1000000 % 0x100) ∷ (n / 0x10000 % 0x100) ∷ (n / 0x100 % 0x100) ∷ (n % 0x100) ∷ []

abbrev number_from : ℕ → Bytes → ℕ
number_from acc [] = acc
number_from acc (b ∷ bs) = number_from (acc * 0x100 + b) bs

abbrev pub number : Bytes → ℕ
number bs = number_from 0 bs

-- `io.ReadFull` of `n` bytes from a stream of which so many bytes are left before its end.
unfoldable pub read_full : ℕ → Action Bytes Bytes
read_full n s =
    if ltb (length s) n
    then (err (if length s == 0 then eof else unexpected_eof), [])
    else (ok (take n s), drop n s)
