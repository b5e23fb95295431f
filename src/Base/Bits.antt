-- ===== src/Base/Bits.antt =====
-- Go's `&` and `|` at variables: masks, shifted fields, and fields joined by `|`.
use Prim.Native.Nat.{
  ℕ, zero, suc, ◌+◌, ◌-◌, ◌*◌, ◌/◌, ◌%◌, ◌≤◌, ◌<◌, min, max, bit_and, bit_or, digits,
  bit_and-bitwise, bit_or-bitwise,
}
use mathlib.Core.Path.{◌≡◌, refl, sym, ap, ◌∙◌}
use native.Mathlib.Omega.{arith}

-- The native operations stand for a recursion over binary digits, on fuel. Fuel beyond the first
-- argument changes nothing, so that the lowest digit can be taken off.
module _ (base : ℕ → ℕ) (digit : ℕ → ℕ → ℕ) where
  digits-zero : (fuel y : ℕ) → digits base digit fuel 0 y ≡ base y
  digits-zero zero y = refl
  digits-zero (suc fuel) y = refl

  spare_fuel :
      (spare fuel x y : ℕ)
      → x ≤ fuel
      → digits base digit (fuel + spare) x y ≡ digits base digit fuel x y
  spare_fuel spare fuel zero y h = digits-zero (fuel + spare) y ∙ sym (digits-zero fuel y)
  spare_fuel spare (suc fuel) (suc x) y h =
      let more : suc fuel + spare ≡ suc (fuel + spare) = omega arith in
      ap (λ n. digits base digit n (suc x) y) more
      ∙ ap (λ d. d * 2 + digit (suc x % 2) (y % 2))
          (spare_fuel spare fuel (suc x / 2) (y / 2) (omega arith))
  spare_fuel spare zero (suc x) y h = absurd (omega arith)

  lowest_digit :
      (x y : ℕ)
      → digits base digit (suc x) (suc x) y
        ≡ digits base digit (suc x / 2) (suc x / 2) (y / 2) * 2 + digit (suc x % 2) (y % 2)
  lowest_digit x y =
      let enough : x ≡ suc x / 2 + (x - suc x / 2) = omega arith in
      ap (λ fuel. digits base digit fuel (suc x / 2) (y / 2) * 2 + digit (suc x % 2) (y % 2)) enough
      ∙ rw (spare_fuel (x - suc x / 2) (suc x / 2) (suc x / 2) (y / 2) (omega arith))

bit_and-halves : (x y : ℕ) → bit_and x y ≡ bit_and (x / 2) (y / 2) * 2 + min (x % 2) (y % 2)
bit_and-halves zero y = omega (arith, bit_and-bitwise 0 y, bit_and-bitwise 0 (y / 2))
bit_and-halves (suc x) y =
    let whole = bit_and-bitwise (suc x) y in
    let half = bit_and-bitwise (suc x / 2) (y / 2) in
    omega (arith, whole, half, lowest_digit (λ _. 0) min x y)

bit_or-halves : (x y : ℕ) → bit_or x y ≡ bit_or (x / 2) (y / 2) * 2 + max (x % 2) (y % 2)
bit_or-halves zero y = omega (arith, bit_or-bitwise 0 y, bit_or-bitwise 0 (y / 2))
bit_or-halves (suc x) y =
    let whole = bit_or-bitwise (suc x) y in
    let half = bit_or-bitwise (suc x / 2) (y / 2) in
    omega (arith, whole, half, lowest_digit (λ y. y) max x y)

-- `k` halvings of a number and `k` doublings.
abbrev halve : ℕ → ℕ → ℕ
halve zero a = a
halve (suc k) a = halve k (a / 2)

abbrev double : ℕ → ℕ → ℕ
double zero a = a
double (suc k) a = double k a * 2

-- `k` ones below `m`.
abbrev ones : ℕ → ℕ → ℕ
ones zero m = m
ones (suc k) m = ones k m * 2 + 1

abbrev low : ℕ → ℕ → ℕ → ℕ
low zero a m = bit_and a m
low (suc k) a m = low k (a / 2) m * 2 + a % 2

bit_and-double : (k a m : ℕ) → bit_and a (double k m) ≡ double k (bit_and (halve k a) m)
bit_and-double zero a m = refl
bit_and-double (suc k) a m =
    let half : double k m * 2 / 2 ≡ double k m = omega arith in
    rw (bit_and-halves a (double k m * 2), half, bit_and-double k (a / 2) m) (omega arith)

bit_and-ones : (k a m : ℕ) → bit_and a (ones k m) ≡ low k a m
bit_and-ones zero a m = refl
bit_and-ones (suc k) a m =
    let half : (ones k m * 2 + 1) / 2 ≡ ones k m = omega arith in
    rw (bit_and-halves a (ones k m * 2 + 1), half, bit_and-ones k (a / 2) m) (omega arith)

abbrev low_part : ℕ → ℕ → ℕ
low_part zero b = 0
low_part (suc k) b = low_part k (b / 2) * 2 + b % 2

bit_or-double : (k a b : ℕ) → bit_or (double k a) b ≡ double k (bit_or a (halve k b)) + low_part k b
bit_or-double zero a b = omega arith
bit_or-double (suc k) a b =
    let half : double k a * 2 / 2 ≡ double k a = omega arith in
    rw (bit_or-halves (double k a * 2) b, half, bit_or-double k a (b / 2)) (omega arith)

-- Digits against none.
and_none : (fuel x : ℕ) → digits (λ _. 0) min fuel x 0 ≡ 0
and_none zero x = refl
and_none (suc fuel) zero = refl
and_none (suc fuel) (suc x) = omega (arith, and_none fuel (suc x / 2))

or_none : (fuel x : ℕ) → x ≤ fuel → digits (λ y. y) max fuel x 0 ≡ x
or_none fuel zero h = digits-zero (λ y. y) max fuel 0
or_none (suc fuel) (suc x) h = omega (arith, or_none fuel (suc x / 2) (omega arith))
or_none zero (suc x) h = absurd (omega arith)

bit_and-none : (x : ℕ) → bit_and x 0 ≡ 0
bit_and-none x = bit_and-bitwise x 0 ∙ and_none x x

bit_or-none : (x : ℕ) → bit_or x 0 ≡ x
bit_or-none x = bit_or-bitwise x 0 ∙ or_none x x (omega arith)

bit_and-parity : (x : ℕ) → bit_and x 1 ≡ x % 2
bit_and-parity x = omega (arith, bit_and-halves x 1, bit_and-none (x / 2))

-- `hi << 24 | lo` for a `lo` of 24 bits.
pub bit_or-join24 : (hi lo : ℕ) → lo < 0x1000000 → bit_or (hi * 0x1000000) lo ≡ hi * 0x1000000 + lo
bit_or-join24 hi lo h =
    let shifted : hi * 0x1000000 ≡ double 24 hi = omega arith in
    let none_left : halve 24 lo ≡ 0 = omega arith in
    rw (shifted, bit_or-double 24 hi lo, none_left, bit_or-none hi) (omega arith)

-- `a & 0x7fff`, `a & 0xffff`, `a & 0xffffff` and `a & 0x7fffffff`.
pub mask15 : (a : ℕ) → bit_and a 0x7fff ≡ a % 0x8000
mask15 a = omega (arith, bit_and-ones 15 a 0, bit_and-none (halve 15 a))

pub mask16 : (a : ℕ) → bit_and a 0xffff ≡ a % 0x10000
mask16 a = omega (arith, bit_and-ones 16 a 0, bit_and-none (halve 16 a))

pub mask24 : (a : ℕ) → bit_and a 0xffffff ≡ a % 0x1000000
mask24 a = omega (arith, bit_and-ones 24 a 0, bit_and-none (halve 24 a))

pub mask31 : (a : ℕ) → bit_and a 0x7fffffff ≡ a % 0x80000000
mask31 a = omega (arith, bit_and-ones 31 a 0, bit_and-none (halve 31 a))

-- `a & 0xff000000 >> 24` and `a & 0x80000000`, of 32 bits.
pub top_byte : (a : ℕ) → a < 0x100000000 → bit_and a 0xff000000 / 0x1000000 ≡ a / 0x1000000
top_byte a h =
    let top : bit_and a 0xff000000 ≡ double 24 (bit_and (halve 24 a) 255) =
      bit_and-double 24 a 255 in
    let mask : bit_and (halve 24 a) 255 ≡ low 8 (halve 24 a) 0 = bit_and-ones 8 (halve 24 a) 0 in
    omega (arith, top, mask, bit_and-none (halve 32 a))

pub control_bit : (a : ℕ) → bit_and a 0x80000000 ≡ a / 0x80000000 % 2 * 0x80000000
control_bit a = omega (arith, bit_and-double 31 a 1, bit_and-parity (halve 31 a))
