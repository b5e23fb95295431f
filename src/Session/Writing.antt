-- ===== src/Session/Writing.antt =====
-- `Write` of a stream in spdyframing/session.go: what becomes of the bytes.
use spdy.Base.{
  ℕ, zero, suc, ◌+◌, ◌^◌, ◌≤◌, ◌<◌, ◌≡◌, refl, sym, ap, ◌∙◌, subst, Bytes, Option, none, some, List,
  [], ◌∷◌, ◌++◌, length, arith, take_all, take, drop, length-drop,
}
use spdy.Stdlib.{Stdlib}
use spdy.Wire.{ok}
use spdy.Frame.{Frame}
use spdy.Framer.{Framer}
use spdy.Framer.Write
use spdy.Framer.RoundTrip.{write_frames}
use spdy.Session.{Session}
use spdy.Session.Round.{IsSound, Round, waited, failed, wrote, write_data-Round}
use spdy.Session.Calls.{Sent, blocked, panics, sent, content_frame, further, go_on, write}

abbrev pub concat : List Bytes → Bytes
concat [] = []
concat (c ∷ cs) = c ++ concat cs

abbrev pub frames_of : ℕ → List Bytes → List Frame
frames_of id [] = []
frames_of id (c ∷ cs) = content_frame id c 0 ∷ frames_of id cs

take-add :
    (m n : ℕ) (xs : Bytes) → m ≤ length xs → take (m + n) xs ≡ take m xs ++ take n (drop m xs)
take-add zero n xs h = let e : 0 + n ≡ n = omega arith in rw e
take-add (suc m) n [] h = absurd (omega arith)
take-add (suc m) n (x ∷ xs) h =
    let e : suc m + n ≡ suc (m + n) = omega arith in
    rw e (ap (λ ys. x ∷ ys) (take-add m n xs (omega arith)))

module _ (std : Stdlib) where
  abbrev S : Type 0
  S = Session std

  -- DATA frames of stream `id` whose contents are `bs` in all, all written.
  abbrev pub Carries : ℕ → Framer std → Bytes → Framer std → Type 0
  Carries id f bs g =
      (chunks : List Bytes) × (concat chunks ≡ bs)
      × (write_frames std (frames_of id chunks) f ≡ (ok tt, g))

  -- What `Write` has done when it returns or sleeps: with no error, all bytes went out, and else the
  -- counted ones did before what failed.
  abbrev pub Wrote : ℕ → Bytes → S → Sent S → Type 0
  Wrote p bytes s (blocked n t) =
      (n ≤ length bytes) × Carries (s.heap p).id s.fr (take n bytes) t.fr
  Wrote p bytes s panics = ⊥
  Wrote p bytes s (sent n none t) = (n ≡ length bytes) × Carries (s.heap p).id s.fr bytes t.fr
  Wrote p bytes s (sent n (some e) t) =
      (n ≤ length bytes) × (f : Framer std) × Carries (s.heap p).id s.fr (take n bytes) f

  -- A frame in front of those that carry the rest.
  one_more :
      (id m n : ℕ) (bytes : Bytes) (f g h : Framer std)
      → m ≤ length bytes
      → Write.write_frame std (content_frame id (take m bytes) 0) f ≡ (ok tt, g)
      → Carries id g (take n (drop m bytes)) h
      → Carries id f (take (m + n) bytes) h
  one_more id m n bytes f g h le e (chunks, same, out) = (
    take m bytes ∷ chunks,
    ap (λ r. take m bytes ++ r) same ∙ sym (take-add m n bytes le),
    rw e out,
  )

  further-Wrote :
      (p m : ℕ) (bytes : Bytes) (s t : S) (r : Sent S)
      → m ≤ length bytes
      → Write.write_frame std (content_frame (s.heap p).id (take m bytes) 0) s.fr ≡ (ok tt, t.fr)
      → (t.heap p).id ≡ (s.heap p).id
      → Wrote p (drop m bytes) t r
      → Wrote p bytes s (further std m r)
  further-Wrote p m bytes s t (blocked n u) le e id (n_le, c) = (
    omega (arith, length-drop m bytes),
    one_more (s.heap p).id m n bytes s.fr t.fr u.fr le e
        (subst (λ i. Carries i t.fr (take n (drop m bytes)) u.fr) id c),
  )
  further-Wrote p m bytes s t panics le e id w = w
  further-Wrote p m bytes s t (sent n none u) le e id (all, c) =
      let total : m + n ≡ length bytes = omega (arith, length-drop m bytes) in
      let rest : take n (drop m bytes) ≡ drop m bytes = take_all n (drop m bytes) (omega arith) in
      let whole : take (m + n) bytes ≡ bytes = take_all (m + n) bytes (omega arith) in
      (
        total,
        subst (λ bs. Carries (s.heap p).id s.fr bs u.fr) whole
            (one_more (s.heap p).id m n bytes s.fr t.fr u.fr le e (
              subst (λ bs. Carries (s.heap p).id t.fr bs u.fr) (sym rest)
                (subst (λ i. Carries i t.fr (drop m bytes) u.fr) id c))),
      )
  further-Wrote p m bytes s t (sent n (some x) u) le e id (n_le, f, c) = (
    omega (arith, length-drop m bytes),
    f,
    one_more (s.heap p).id m n bytes s.fr t.fr f le e
        (subst (λ i. Carries i t.fr (take n (drop m bytes)) f) id c),
  )

  -- The stream after a call that has returned without an error: its window is sound, its id the same.
  abbrev pub Stays : ℕ → S → Sent S → Type 0
  Stays p s (sent n none t) = IsSound (t.heap p).wnd × ((t.heap p).id ≡ (s.heap p).id)
  Stays p s r = Unit {0}

  further-Stays :
      (p m : ℕ) (s t : S) (r : Sent S)
      → (t.heap p).id ≡ (s.heap p).id
      → Stays p t r
      → Stays p s (further std m r)
  further-Stays p m s t (blocked n u) id v = tt
  further-Stays p m s t panics id v = tt
  further-Stays p m s t (sent n none u) id (w, same) = (w, same ∙ id)
  further-Stays p m s t (sent n (some e) u) id v = tt

  go_on-Wrote :
      (p : ℕ) (bytes : Bytes) (s : S) (rest : ℕ → S → Option (Sent S)) (x : Sent S)
      → Round std p bytes s x
      → ((m : ℕ) (t : S)
          → 0 < m
          → m ≤ length bytes
          → IsSound (t.heap p).wnd
          → (r : Sent S) × (rest m t ≡ some r) × Wrote p (drop m bytes) t r × Stays p t r)
      → (r : Sent S) × (go_on std rest x ≡ some r) × Wrote p bytes s r × Stays p s r
  go_on-Wrote p bytes s rest x waited ih = (blocked 0 s, refl, (omega arith, ([], refl, refl)), tt)
  go_on-Wrote p bytes s rest x (failed e t) ih =
      (sent 0 (some e) t, refl, (omega arith, s.fr, ([], refl, refl)), tt)
  go_on-Wrote p bytes s rest x (wrote m t lo hi e id w) ih =
      let (r, done, wr, stays) = ih m t lo hi w in
      (
        further std m r,
        rw done refl,
        further-Wrote p m bytes s t r hi e id wr,
        further-Stays p m s t r id stays,
      )

  pub write_rounds :
      (fuel p : ℕ) (bytes : Bytes) (s : S)
      → length bytes < fuel
      → length bytes < 2 ^ 31
      → IsSound (s.heap p).wnd
      → (r : Sent S) × (write std fuel p bytes s ≡ some r) × Wrote p bytes s r × Stays p s r
  unfolding write
  write_rounds zero p bytes s h k w = absurd (omega arith)
  write_rounds (suc fuel) p [] s h k w = (sent 0 none s, refl, (refl, ([], refl, refl)), (w, refl))
  write_rounds (suc fuel) p (b ∷ bs) s h k w =
      go_on-Wrote p (b ∷ bs) s _ _ (write_data-Round std p (b ∷ bs) s (omega arith) k w)
        (λ m t lo hi v.
          write_rounds fuel p (drop m (b ∷ bs)) t (omega (arith, length-drop m (b ∷ bs)))
            (omega (arith, length-drop m (b ∷ bs))) v)

  -- `Write` of fewer than 2³¹ bytes on a stream whose window is an int32 of 0 or more that has its
  -- error if it is closed, with no other goroutine in between, returns or falls asleep and never
  -- panics, given more fuel than bytes. It has then written the counted bytes in order, in DATA frames
  -- of the stream, and all of them if it returns no error.
  pub write_lem :
      (fuel p : ℕ) (bytes : Bytes) (s : S)
      → length bytes < fuel
      → length bytes < 2 ^ 31
      → IsSound (s.heap p).wnd
      → (r : Sent S) × (write std fuel p bytes s ≡ some r) × Wrote p bytes s r
  write_lem fuel p bytes s h k w =
      let (r, e, done, _) = write_rounds fuel p bytes s h k w in (r, e, done)
