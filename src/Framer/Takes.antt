-- ===== src/Framer/Takes.antt =====
-- Actions that take bytes from the connection: the rules for sequences, and the reads of
-- the framer of spdyframing/types.go.
use spdy.Base.{
  ℕ, ◌+◌, ◌≤◌, ◌≡◌, ◌⊎◌, refl, subst, sym, ap, Bytes, Bool, true, false, length, if◌then◌else◌,
  arith, Bool-cases, inl, inr, min, drop, length-drop, ltb, Option, some, none,
}
use spdy.Errors.{Error}
use spdy.Stdlib.{Stdlib}
use spdy.Wire.{
  Result, ok, err, Action, continue, ◌>>=◌, ◌>>◌, return, throw, fail_if, read_full, number,
}
use spdy.Framer.{
  Framer, receive, receive_number, receive_block, uncork_header_decompressor, keep_decompressor,
  start_decompressor, through, skip, window,
}
use spdy.Framer.Dictionary.{header_dictionary}
use spdy.Framer.Read.{uncork}

module _ {std : Stdlib} where
  -- An action that takes at least `n` bytes from the connection, if it returns.
  pub record Takes {A : Type 0} (n : ℕ) (m : Action (Framer std) A) : Type 0 where
    pub holds : (f g : Framer std) (a : A) → m f ≡ (ok a, g) → n + length g.input ≤ length f.input

  pub return-Takes : {A : Type 0} (a : A) → Takes 0 (return a)
  return-Takes a = record {
    holds = λ f g b e. let same : f ≡ g = ap (λ r. r.1) e in rw same (omega arith);
  }

  pub throw-Takes : {A : Type 0} (n : ℕ) (x : Error) → Takes {A = A} n (throw x)
  throw-Takes n x = record {
    holds = λ f g b e. absurd (let bad : err x ≡ ok b = ap (λ r. r.0) e in cc);
  }

  pub bind-Takes :
      {A B : Type 0} (n k : ℕ) (m : Action (Framer std) A) (next : A → Action (Framer std) B)
      → Takes n m
      → ((a : A) → Takes k (next a))
      → Takes (n + k) (m >>= next)
  bind-Takes {A} {B} n k m next v h = record { holds = λ f g b e. from f g b (m f) refl e }
    where
      from :
          (f g : Framer std) (b : B) (r : Result A × Framer std)
          → m f ≡ r
          → continue r next ≡ (ok b, g)
          → n + k + length g.input ≤ length f.input
      from f g b (ok a, u) i e = omega (arith, v.holds f u a i, (h a).holds u g b e)
      from f g b (err x, u) i e = absurd (let bad : err x ≡ ok b = ap (λ r. r.0) e in cc)

  pub check-Takes :
      {B : Type 0} (bad : Bool) (x : Error) (k : Action (Framer std) B)
      → Takes 0 k
      → Takes 0 (fail_if bad x >> k)
  check-Takes {B} true x k v = record {
    holds = λ f g b e. absurd (let bad : err x ≡ ok b = ap (λ r. r.0) e in cc);
  }
  check-Takes false x k v = record { holds = λ f g b e. v.holds f g b e }

  pub if-Takes :
      {A : Type 0} {n : ℕ} {m k : Action (Framer std) A} (b : Bool)
      → Takes n m
      → Takes n k
      → Takes n (if b then m else k)
  if-Takes true v w = v
  if-Takes false v w = w

  pub receive-Takes : (n : ℕ) → Takes n (receive std n)
  unfolding receive read_full
  receive-Takes n = record {
    holds = λ f g b e. taken f g b (Bool-cases (ltb (length f.input) n)) e;
  }
    where
      taken :
          (f g : Framer std) (b : Bytes)
          → (ltb (length f.input) n ≡ true) ⊎ (ltb (length f.input) n ≡ false)
          → receive std n f ≡ (ok b, g)
          → n + length g.input ≤ length f.input
      taken f g b (inl short) e = absurd (ground (arith, ap (λ r. r.0) e))
      taken f g b (inr enough) e =
          let left : drop n f.input ≡ g.input = ground (arith, ap (λ r. r.1.input) e) in
          rw (← left) (ground (arith, length-drop n f.input))

  pub number-Takes : (n : ℕ) → Takes n (receive_number std n)
  unfolding receive_number
  number-Takes n =
      let none_more : n + 0 ≡ n = omega arith in
      subst (λ k. Takes k (receive_number std n)) none_more
        (bind-Takes n 0 (receive std n) _ (receive-Takes n) λ bs. return-Takes (number bs))

  -- The bound of zero, for what follows the first two words of a frame.
  abbrev pub Keeps : {A : Type 0} → Action (Framer std) A → Type 0
  Keeps m = Takes 0 m

  pub weaken : {A : Type 0} {m : Action (Framer std) A} (n : ℕ) → Takes n m → Keeps m
  weaken n v = record { holds = λ f g a e. omega (arith, v.holds f g a e) }

  pub then-Keeps :
      {A B : Type 0} (m : Action (Framer std) A) (next : A → Action (Framer std) B)
      → Keeps m
      → ((a : A) → Keeps (next a))
      → Keeps (m >>= next)
  then-Keeps m next v h = bind-Takes 0 0 m next v h

  pub number-Keeps :
      {B : Type 0} (n : ℕ) (next : ℕ → Action (Framer std) B)
      → ((a : ℕ) → Keeps (next a))
      → Keeps (receive_number std n >>= next)
  number-Keeps n next h = then-Keeps (receive_number std n) next (weaken n (number-Takes n)) h

  -- Reads through the limited reader take bytes off the connection too.
  skip_lem : (n : ℕ) (f : Framer std) → length (skip std n f).input ≤ length f.input
  skip_lem n f = omega (arith, length-drop (min n (length (window std f))) f.input)

  keep_lem :
      (f g : Framer std) (x : Result std.Inflater) (u : Unit {0})
      → keep_decompressor std f x ≡ (ok u, g)
      → g.input ≡ f.input
  keep_lem f g (ok z) u e = sym (ap (λ r. r.1.input) e)
  keep_lem f g (err x) u e = sym (ap (λ r. r.1.input) e)

  start-Keeps : Keeps (start_decompressor std)
  start-Keeps = record {
    holds = λ f g u e.
        let (x, n) = std.new_inflater header_dictionary (window std f) in
        rw (keep_lem (skip std n f) g x u e) (omega (arith, skip_lem n f));
  }

  uncork_decompressor-Keeps : (size : ℕ) → Keeps (uncork_header_decompressor std size)
  unfolding uncork_header_decompressor
  uncork_decompressor-Keeps size = record {
    holds = λ f g u e. (from f.header_decompressor).holds f g u e;
  }
    where
      from :
          (d : Option std.Inflater)
          → Keeps {A = Unit {0}} (λ f. elim d [
            | some z ↦ (ok tt, record f { limit = size })
            | none ↦ start_decompressor std (record f { limit = size })
          ])
      from none = record { holds = λ f g u e. start-Keeps.holds (record f { limit = size }) g u e }
      from (some z) = record {
        holds = λ f g u e.
            let same : f.input ≡ g.input = ap (λ r. r.1.input) e in rw same (omega arith);
      }

  pub uncork-Keeps : (size : ℕ) → Keeps (uncork std size)
  unfolding uncork
  uncork-Keeps size = record {
    holds = λ f g u e. (if-Keeps f.header_compression_disabled).holds f g u e;
  }
    where
      if-Keeps :
          (b : Bool) → Keeps (λ f. if b then (ok tt, f) else uncork_header_decompressor std size f)
      if-Keeps true = return-Takes tt
      if-Keeps false = uncork_decompressor-Keeps size

  through-Keeps : (n : ℕ) (z : std.Inflater) → Keeps (through std n z)
  through-Keeps n z = record {
    holds = λ f g a e.
        let ((x, z'), m) = std.inflate n z (window std f) in
        let same : (skip std m f).input ≡ g.input = ap (λ r. r.1.input) e in
        rw (← same) (omega (arith, skip_lem m f));
  }

  pub block-Keeps : (n : ℕ) → Keeps (receive_block std n)
  unfolding receive_block
  block-Keeps n = record {
    holds = λ f g a e. (from f.header_compression_disabled f.header_decompressor).holds f g a e;
  }
    where
      from :
          (b : Bool) (d : Option std.Inflater)
          → Keeps (λ f.
            if b
            then receive std n f
            else elim d [ some z ↦ through std n z f | none ↦ receive std n f ])
      from true d = weaken n (receive-Takes n)
      from false none = weaken n (receive-Takes n)
      from false (some z) = through-Keeps n z
