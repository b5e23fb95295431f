-- ===== src/Framer/Emit.antt =====
-- What a sequence of writes of spdyframing/write.go puts on the connection: the bytes of its parts
-- in order, as one write would, whatever the connection still takes.
use spdy.Base.{
  ◌-◌, ◌≡◌, refl, inl, inr, Bytes, true, false, [], ◌++◌, leb, length, take, append-nil,
  append_assoc, length-append, take-append_le, take-append_ge, arith, Bool-cases,
}
use spdy.Errors.{Error, broken}
use spdy.Stdlib.{Stdlib}
use spdy.Wire.{Result, ok, err, Action, continue, ◌>>◌}
use spdy.Framer.{Framer, send}

module _ (std : Stdlib) where
  -- Write `bs`, and then return `x`.
  abbrev pub emit : Bytes → Result (Unit {0}) → Action (Framer std) (Unit {0})
  emit bs x f = continue (send std bs f) (λ _ g. (x, g))

  abbrev pub Emits : Action (Framer std) (Unit {0}) → Bytes → Result (Unit {0}) → Type 0
  Emits m bs x = (f : Framer std) → m f ≡ emit bs x f

  pub send-fits :
      (bs : Bytes) (f : Framer std)
      → leb (length bs) f.room ≡ true
      → send std bs f ≡ (ok tt, record f { out = f.out ++ bs; room = f.room - length bs })
  unfolding send
  send-fits bs f h = rw h

  pub send-breaks :
      (bs : Bytes) (f : Framer std)
      → leb (length bs) f.room ≡ false
      → send std bs f ≡ (err broken, record f { out = f.out ++ take f.room bs; room = 0 })
  unfolding send
  send-breaks bs f h = rw h

  send-nil : (f : Framer std) → send std [] f ≡ (ok tt, f)
  unfolding send
  send-nil f =
      let fits : leb 0 f.room ≡ true = ground arith in
      let space : f.room - 0 ≡ f.room = omega arith in rw (fits, append-nil f.out, space)

  pub return-Emits : (x : Result (Unit {0})) → Emits (λ f. (x, f)) [] x
  return-Emits x f = rw (send-nil f)

  pub send-Emits : (bs : Bytes) → Emits (send std bs) bs (ok tt)
  send-Emits bs f = unchanged (send std bs f)
    where
      unchanged : (r : Result (Unit {0}) × Framer std) → r ≡ continue r (λ _ g. (ok tt, g))
      unchanged (ok u, g) = refl
      unchanged (err e, g) = refl

  -- Two writes one after the other are one write of both.
  pub send-append :
      (xs ys : Bytes) (f : Framer std)
      → continue (send std xs f) (λ _. send std ys) ≡ send std (xs ++ ys) f
  send-append xs ys f = elim (Bool-cases (leb (length xs) f.room)) [
    | inl fits ↦ rw (send-fits xs f fits) (after fits)
    | inr not_all ↦
        let short : leb (length (xs ++ ys)) f.room ≡ false =
          ground (arith, not_all, length-append xs ys) in
        rw (
          send-breaks xs f not_all,
          send-breaks (xs ++ ys) f short,
          take-append_le f.room xs ys (ground arith),
        )
  ]
    where
      g : Framer std
      g = record f { out = f.out ++ xs; room = f.room - length xs }

      after : leb (length xs) f.room ≡ true → send std ys g ≡ send std (xs ++ ys) f
      after fits = elim (Bool-cases (leb (length ys) g.room)) [
        | inl rest_fits ↦
            let both : leb (length (xs ++ ys)) f.room ≡ true =
              ground (arith, fits, rest_fits, length-append xs ys) in
            rw (send-fits ys g rest_fits, send-fits (xs ++ ys) f both)
              (let space : f.room - length xs - length ys ≡ f.room - length (xs ++ ys) =
                  omega (arith, length-append xs ys) in
                rw (append_assoc f.out xs ys, space))
        | inr rest_breaks ↦
            let short : leb (length (xs ++ ys)) f.room ≡ false =
              ground (arith, fits, rest_breaks, length-append xs ys) in
            rw (send-breaks ys g rest_breaks, send-breaks (xs ++ ys) f short)
              (rw (
                append_assoc f.out xs (take (f.room - length xs) ys),
                take-append_ge f.room xs ys (ground arith),
              ))
      ]

  -- The rules for sequences.
  pub then-Emits :
      {m k : Action (Framer std) (Unit {0})} (xs ys : Bytes) (x : Result (Unit {0}))
      → Emits m xs (ok tt)
      → Emits k ys x
      → Emits (m >> k) (xs ++ ys) x
  then-Emits {m} {k} xs ys x p q f = rw (p f, ← send-append xs ys f) (joined (send std xs f))
    where
      joined :
          (r : Result (Unit {0}) × Framer std)
          → continue (continue r (λ _ g. (ok tt, g))) (λ _. k)
            ≡ continue (continue r (λ _. send std ys)) (λ _ g. (x, g))
      joined (ok u, g) = q g
      joined (err e, g) = refl

  pub stop-Emits :
      {m : Action (Framer std) (Unit {0})} (k : Action (Framer std) (Unit {0})) (xs : Bytes)
      (e : Error)
      → Emits m xs (err e)
      → Emits (m >> k) xs (err e)
  stop-Emits k xs e p f = rw (p f) (stopped (send std xs f))
    where
      stopped :
          (r : Result (Unit {0}) × Framer std)
          → continue (continue {B = Unit {0}} r (λ _ g. (err e, g))) (λ _. k)
            ≡ continue r (λ _ g. (err e, g))
      stopped (ok u, g) = refl
      stopped (err d, g) = refl
