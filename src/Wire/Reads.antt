-- ===== src/Wire/Reads.antt =====
-- What it is to read a layout: from any state that has the bytes ahead, an action returns a given
-- value and leaves a state that has the rest ahead. `Runs` says the like of any outcome.
use spdy.Base.{◌≡◌, ap, ◌∙◌, ◌⊎◌, inl, inr, refl, Bytes, Bool, false, [], ◌++◌, append_assoc}
use spdy.Errors.{Error}
use spdy.Wire.{Result, ok, err, Action, continue, ◌>>=◌, ◌>>◌, return, fail_if}

module _ {S : Type 0} where
  -- One of two outcomes: the value, in a state of which `Left` holds, or the error, for a reason.
  abbrev pub Comes :
      {A : Type 0} → (S → Bytes → Type 0) → Type 0 → Error → A → Result A × S → Bytes → Type 0
  Comes Left Why e a r rest = ((t : S) × (r ≡ (ok a, t)) × Left t rest) ⊎ (Why × (r.0 ≡ err e))

  pub Comes-continue :
      {A B : Type 0} (Left : S → Bytes → Type 0) (Why : Type 0) (e : Error) (k : A → Action S B)
      (a : A) (b : B) (r : Result A × S) (rest : Bytes)
      → ((s : S) → k a s ≡ (ok b, s))
      → Comes Left Why e a r rest
      → Comes Left Why e b (continue r k) rest
  Comes-continue Left Why e k a b r rest p (inl (t, same, v)) =
      inl (t, ap (λ q. continue q k) same ∙ p t, v)
  Comes-continue Left Why e k a b (ok x, t) rest p (inr (why, bad)) = cc
  Comes-continue Left Why e k a b (err x, t) rest p (inr (why, bad)) =
      inr (why, let same : x ≡ e = cc in ap err same)

-- `View s bs` says that `bs` is what the state `s` has ahead.
module _ {S : Type 0} (View : S → Bytes → Type 0) where
  abbrev pub Reads : {A : Type 0} → Action S A → Bytes → A → Type 0
  Reads m bs a =
      (s : S) (rest : Bytes) → View s (bs ++ rest) → (t : S) × (m s ≡ (ok a, t)) × View t rest

  pub return-Reads : {A : Type 0} (a : A) → Reads (return a) [] a
  return-Reads a s rest v = (s, refl, v)

  pub bind-Reads :
      {A B : Type 0} (m : Action S A) (k : A → Action S B) (xs ys : Bytes) (a : A) (b : B)
      → Reads m xs a
      → Reads (k a) ys b
      → Reads (m >>= k) (xs ++ ys) b
  bind-Reads m k xs ys a b p q s rest v =
      let (t, read, ahead) = p s (ys ++ rest) (rw append_assoc at v) in
      let (u, read', ahead') = q t rest ahead in (u, rw read read', ahead')

  -- The same where the last part of the layout has been read.
  pub last-Reads :
      {A B : Type 0} (m : Action S A) (k : A → Action S B) (xs : Bytes) (a : A) (b : B)
      → Reads m xs a
      → Reads (k a) [] b
      → Reads (m >>= k) xs b
  last-Reads m k xs a b p q s rest v =
      let (t, read, ahead) = p s rest v in
      let (u, read', ahead') = q t rest ahead in (u, rw read read', ahead')

  pub pass-Reads :
      {B : Type 0} (c : Bool) (e : Error) (k : Action S B) (ys : Bytes) (b : B)
      → c ≡ false
      → Reads k ys b
      → Reads (fail_if c e >> k) ys b
  pass-Reads c e k ys b h q s rest v = rw h (q s rest v)

  -- From any state that has `bs` ahead, the action comes to `After`, with the rest ahead.
  abbrev pub Runs : {A : Type 0} → (Result A × S → Bytes → Type 0) → Action S A → Bytes → Type 0
  Runs After m bs = (s : S) (rest : Bytes) → View s (bs ++ rest) → After (m s) rest

  pub bind-Runs :
      {A B : Type 0} (After : Result B × S → Bytes → Type 0) (m : Action S A) (k : A → Action S B)
      (xs ys : Bytes) (a : A)
      → Reads m xs a
      → Runs After (k a) ys
      → Runs After (m >>= k) (xs ++ ys)
  bind-Runs After m k xs ys a p q s rest v =
      let (t, read, ahead) = p s (ys ++ rest) (rw append_assoc at v) in rw read (q t rest ahead)

  -- What follows the part that runs.
  pub then-Runs :
      {A B : Type 0} (After : Result A × S → Bytes → Type 0) (Last : Result B × S → Bytes → Type 0)
      (m : Action S A) (k : A → Action S B) (xs : Bytes)
      → Runs After m xs
      → ((r : Result A × S) (rest : Bytes) → After r rest → Last (continue r k) rest)
      → Runs Last (m >>= k) xs
  then-Runs After Last m k xs p q s rest v = q (m s) rest (p s rest v)

  pub then-Comes :
      {A B : Type 0} (Left : S → Bytes → Type 0) (Why : Type 0) (e : Error) (m : Action S A)
      (k : A → Action S B) (xs : Bytes) (a : A) (b : B)
      → Runs (Comes Left Why e a) m xs
      → ((s : S) → k a s ≡ (ok b, s))
      → Runs (Comes Left Why e b) (m >>= k) xs
  then-Comes Left Why e m k xs a b p q =
      then-Runs (Comes Left Why e a) (Comes Left Why e b) m k xs p
        (λ r rest. Comes-continue Left Why e k a b r rest q)
