-- ===== src/Header/Values.antt =====
-- Values joined by NUL bytes and split again.
use spdy.Base.{◌≡◌, refl, Bytes, false, List, [], ◌∷◌, ◌++◌, ap, ◌∙◌, arith}
use spdy.Header.{contains, join, split}

-- No value of the list holds a NUL byte.
abbrev pub Plain : List Bytes → Type 0
Plain [] = Unit {0}
Plain (v ∷ vs) = (contains v 0 ≡ false) × Plain vs

split-plain : (v : Bytes) → contains v 0 ≡ false → split v ≡ v ∷ []
unfolding contains split
split-plain [] h = refl
split-plain (c ∷ v) h = ground (arith, split-plain v)

split-append : (v s : Bytes) → contains v 0 ≡ false → split (v ++ 0 ∷ s) ≡ v ∷ split s
unfolding contains split
split-append [] s h = refl
split-append (c ∷ v) s h = ground (arith, split-append v s)

-- `Split` undoes `Join`.
pub split-join : (v : Bytes) (vs : List Bytes) → Plain (v ∷ vs) → split (join (v ∷ vs)) ≡ v ∷ vs
unfolding join
split-join v [] h = split-plain v h.0
split-join v (w ∷ vs) h =
    split-append v (join (w ∷ vs)) h.0 ∙ ap (λ us. v ∷ us) (split-join w vs h.1)
