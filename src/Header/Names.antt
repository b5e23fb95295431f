-- ===== src/Header/Names.antt =====
-- Field names in lower case and in canonical form.
use spdy.Base.{ℕ, suc, ◌≡◌, refl, sym, ap, ap₂, ◌∙◌, Bytes, true, [], ◌∷◌, map, length, arith}
use spdy.Header.{lower_byte, is_ascii, to_lower, canonical_key}

lower_byte_twice : (c : ℕ) → lower_byte (lower_byte c) ≡ lower_byte c
lower_byte_twice c = ground arith

lower_twice : (s : Bytes) → map lower_byte (map lower_byte s) ≡ map lower_byte s
lower_twice [] = refl
lower_twice (c ∷ s) = ap₂ ◌∷◌ (lower_byte_twice c) (lower_twice s)

is_ascii-lower : (s : Bytes) → is_ascii s ≡ true → is_ascii (map lower_byte s) ≡ true
unfolding is_ascii
is_ascii-lower [] h = refl
is_ascii-lower (c ∷ s) h = ground (arith, is_ascii-lower s)

length-lower : (s : Bytes) → length (map lower_byte s) ≡ length s
length-lower [] = refl
length-lower (c ∷ s) = ap suc (length-lower s)

module _ (unicode_lower : Bytes → Bytes) where
  abbrev low : Bytes → Bytes
  low = to_lower unicode_lower

  -- An ASCII name is put in lower case byte by byte: its length stays, and once is enough.
  to_lower_ascii : (s : Bytes) → is_ascii s ≡ true → low s ≡ map lower_byte s
  unfolding to_lower
  to_lower_ascii s h = rw h

  pub length-to_lower : (s : Bytes) → is_ascii s ≡ true → length (low s) ≡ length s
  length-to_lower s h = rw (to_lower_ascii s h) (length-lower s)

  pub to_lower_twice : (s : Bytes) → is_ascii s ≡ true → low (low s) ≡ low s
  to_lower_twice s h =
      rw (to_lower_ascii s h, to_lower_ascii (map lower_byte s) (is_ascii-lower s h))
        (lower_twice s)

  -- The names that survive the wire: their lower case has them for its canonical form.
  abbrev pub IsName : Bytes → Type 0
  IsName s = (is_ascii s ≡ true) × (canonical_key (low s) ≡ s)

  -- A name whose lower case is another such name is that name.
  pub name_of_lower : (k s : Bytes) → IsName k → IsName s → k ≡ low s → k ≡ s
  name_of_lower k s hk hs e =
      sym (hk.1) ∙ ap canonical_key (ap low e ∙ to_lower_twice s hs.0) ∙ hs.1
