-- ===== src/Http/Decimal.antt =====
-- Numbers in decimal: what request.go formats, transfer.go parses.
use spdy.Base.{
  ℕ, zero, suc, ◌+◌, ◌-◌, ◌*◌, ◌/◌, ◌%◌, ◌^◌, ◌<◌, ◌≡◌, ◌≢◌, refl, sym, ap, ◌∙◌, Bytes, Bool, true,
  false, ◌&&◌, Option, none, some, [], ◌∷◌, ◌++◌, append_assoc, append-nil, ltb, leb, ◌==◌,
  if◌then◌else◌, Bool-cases, inl, inr, arith,
}
use spdy.Base.Int.{pos}
use spdy.Http.{digits_of, decimal, parse_digits, parse_int}

parse_digits-digits_of :
    (fuel n : ℕ) (s : Bytes) → n < fuel → parse_digits 0 (digits_of fuel n ++ s) ≡ parse_digits n s
unfolding digits_of parse_digits
parse_digits-digits_of zero n s h = absurd (omega arith)
parse_digits-digits_of (suc fuel) n s h = elim (Bool-cases (ltb n 10)) [
  | inl e ↦
      let digit : (leb 48 (48 + n) && leb (48 + n) 57) ≡ true = ground arith in
      let value : 0 * 10 + (48 + n - 48) ≡ n = omega arith in rw e (rw (digit, value) refl)
  | inr e ↦
      let digit : (leb 48 (48 + n % 10) && leb (48 + n % 10) 57) ≡ true = ground arith in
      let value : n / 10 * 10 + (48 + n % 10 - 48) ≡ n = omega arith in
      rw
        (
          e,
          append_assoc (digits_of fuel (n / 10)) ((48 + n % 10) ∷ []) s,
          parse_digits-digits_of fuel (n / 10) ((48 + n % 10) ∷ s) (ground arith),
        )
        (rw (digit, value) refl)
]

parse_int-digits :
    (bs : Bytes) (n : ℕ)
    → bs ≢ []
    → parse_digits 0 bs ≡ some n
    → n < 2 ^ 63
    → parse_int bs ≡ some (pos n)
unfolding parse_int parse_digits
parse_int-digits [] n e d h = absurd (e refl)
parse_int-digits (c ∷ bs) n e d h = elim (Bool-cases (leb 48 c && leb c 57)) [
  | inl digit ↦
      let plus : (c == 43) ≡ false = ground arith in
      let minus : (c == 45) ≡ false = ground arith in
      let fits : ltb n (2 ^ 63) ≡ true = ground arith in rw (plus, minus, d, fits) refl
  | inr other ↦ absurd (let bad : ◌≡◌ {A = Option ℕ} none (some n) = sym (rw other refl) ∙ d in cc)
]

some_digits : (b : Bool) (c d : ℕ) (xs : Bytes) → (if b then c ∷ [] else xs ++ d ∷ []) ≢ []
some_digits true c d xs e = cc
some_digits false c d [] e = cc
some_digits false c d (x ∷ xs) e = cc

decimal-some : (n : ℕ) → decimal n ≢ []
unfolding decimal digits_of
decimal-some n = some_digits (ltb n 10) (48 + n) (48 + n % 10) (digits_of n (n / 10))

pub parse_digits-decimal : (n : ℕ) → parse_digits 0 (decimal n) ≡ some n
unfolding decimal parse_digits
parse_digits-decimal n =
    ap (parse_digits 0) (sym (append-nil (digits_of (suc n) n)))
    ∙ parse_digits-digits_of (suc n) n [] (omega arith)

-- ParseInt reads a number below 2⁶³ back from what FormatInt or Itoa makes of it.
pub parse_int-decimal : (n : ℕ) → n < 2 ^ 63 → parse_int (decimal n) ≡ some (pos n)
parse_int-decimal n h = parse_int-digits (decimal n) n (decimal-some n) (parse_digits-decimal n) h
