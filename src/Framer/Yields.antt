-- ===== src/Framer/Yields.antt =====
-- What an action of spdyframing/read.go has established when it returns: the rules for sequences.
use spdy.Base.{◌≡◌, refl, subst, ap, Bool, true, false, if◌then◌else◌}
use spdy.Errors.{Error}
use spdy.Wire.{Result, ok, err, Action, continue, ◌>>=◌, ◌>>◌, return, throw, fail_if}

-- What an action returns, if it returns, satisfies `P`.
pub record Yields {S A : Type 0} (P : A → Type 0) (m : Action S A) : Type 0 where
  pub holds : (s t : S) (a : A) → m s ≡ (ok a, t) → P a

module _ {S : Type 0} where
  pub return-Yields : {A : Type 0} (P : A → Type 0) (a : A) → P a → Yields {S = S} P (return a)
  return-Yields P a p = record { holds = λ s t b e. let same : a ≡ b = cc in subst P same p }

  pub bind-Yields :
      {A B : Type 0} (P : B → Type 0) (m : Action S A) (k : A → Action S B)
      → ((a : A) → Yields P (k a))
      → Yields P (m >>= k)
  bind-Yields {A} {B} P m k h = record { holds = λ s t b e. from t b (m s) e }
    where
      from : (t : S) (b : B) (r : Result A × S) → continue r k ≡ (ok b, t) → P b
      from t b (ok a, u) e = (h a).holds u t b e
      from t b (err x, u) e = absurd (let bad : err x ≡ ok b = ap (λ r. r.0) e in cc)

  -- What the first action yields is known to the second.
  pub through-Yields :
      {A B : Type 0} (Q : A → Type 0) (P : B → Type 0) (m : Action S A) (k : A → Action S B)
      → Yields Q m
      → ((a : A) → Q a → Yields P (k a))
      → Yields P (m >>= k)
  through-Yields {A} {B} Q P m k q h = record { holds = λ s t b e. from s t b (m s) refl e }
    where
      from : (s t : S) (b : B) (r : Result A × S) → m s ≡ r → continue r k ≡ (ok b, t) → P b
      from s t b (ok a, u) i e = (h a (q.holds s u a i)).holds u t b e
      from s t b (err x, u) i e = absurd (let bad : err x ≡ ok b = ap (λ r. r.0) e in cc)

  pub check-Yields :
      {B : Type 0} (P : B → Type 0) (bad : Bool) (x : Error) (k : Action S B)
      → (bad ≡ false → Yields P k)
      → Yields P (fail_if bad x >> k)
  check-Yields {B} P true x k h = record {
    holds = λ s t b e. absurd (let bad : err x ≡ ok b = ap (λ r. r.0) e in cc);
  }
  check-Yields P false x k h = record { holds = λ s t b e. (h refl).holds s t b e }

  pub throw-Yields : {A : Type 0} (P : A → Type 0) (x : Error) → Yields {S = S} P (throw x)
  throw-Yields P x = record {
    holds = λ s t b e. absurd (let bad : err x ≡ ok b = ap (λ r. r.0) e in cc);
  }

  pub if-Yields :
      {A : Type 0} {P : A → Type 0} {m k : Action S A} (b : Bool)
      → Yields P m
      → Yields P k
      → Yields P (if b then m else k)
  if-Yields true v w = v
  if-Yields false v w = w
