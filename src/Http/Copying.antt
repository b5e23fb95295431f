-- ===== src/Http/Copying.antt =====
-- The goroutine of RoundTrip in conn.go that copies the request's body to the stream.
use spdy.Base.{
  ℕ, suc, ◌+◌, ◌^◌, ◌≤◌, ◌<◌, ◌≡◌, refl, sym, ap, ◌∙◌, subst, Bytes, Option, none, some, List, [],
  ◌∷◌, ◌++◌, length, length-append, take, take-append_le, arith, append_assoc, if◌then◌else◌,
}
use spdy.Stdlib.{Stdlib}
use spdy.Wire.{Result, ok, err, continue}
use spdy.Framer.{Framer}
use spdy.Framer.Write.{write_frame}
use spdy.Framer.RoundTrip.{write_frames}
use spdy.Session.{Session}
use spdy.Session.Calls
use spdy.Session.Calls.{Sent, blocked, panics, sent, further, map_further, write, content_frame}
use spdy.Session.Round.{IsSound}
use spdy.Session.Writing.{Carries, Wrote, Stays, concat, frames_of, write_rounds}
use spdy.Http
use spdy.Http.Client.{Content, copy, copy_body, close_after, go_on_copying}

-- Each chunk is of fewer than 2³¹ bytes.
abbrev pub AreShort : List Bytes → Type 0
AreShort [] = Unit {0}
AreShort (c ∷ cs) = (length c < 2 ^ 31) × AreShort cs

concat_both : (xs ys : List Bytes) → concat (xs ++ ys) ≡ concat xs ++ concat ys
concat_both [] ys = refl
concat_both (x ∷ xs) ys =
    ap (λ r. x ++ r) (concat_both xs ys) ∙ sym (append_assoc x (concat xs) (concat ys))

module _ (std : Stdlib) (net : Http.Net) where
  abbrev S : Type 0
  S = Session std

  write_both :
      (id : ℕ) (xs ys : List Bytes) (f g : Framer std) (r : Result (Unit {0}) × Framer std)
      → write_frames std (frames_of id xs) f ≡ (ok tt, g)
      → write_frames std (frames_of id ys) g ≡ r
      → write_frames std (frames_of id (xs ++ ys)) f ≡ r
  write_both id [] ys f g r e d = ap (λ x. write_frames std (frames_of id ys) x.1) e ∙ d
  write_both id (x ∷ xs) ys f g r e d =
      from (write_frame std (content_frame id x 0) f) e (λ t h. write_both id xs ys t g r h d)
    where
      from :
          (y : Result (Unit {0}) × Framer std)
          → continue y (λ _. write_frames std (frames_of id xs)) ≡ (ok tt, g)
          → ((t : Framer std)
              → write_frames std (frames_of id xs) t ≡ (ok tt, g)
              → write_frames std (frames_of id (xs ++ ys)) t ≡ r)
          → continue y (λ _. write_frames std (frames_of id (xs ++ ys))) ≡ r
      from (ok u, t) e next = next t e
      from (err x, t) e next = cc

  carry_both :
      (id : ℕ) (xs ys : Bytes) (f g h : Framer std)
      → Carries std id f xs g
      → Carries std id g ys h
      → Carries std id f (xs ++ ys) h
  carry_both id xs ys f g h (cs, same, out) (ds, same', out') = (
    cs ++ ds,
    concat_both cs ds ∙ ap (λ z. z ++ concat ds) same ∙ ap (λ z. xs ++ z) same',
    write_both id cs ds f g (ok tt, h) out out',
  )

  -- What has been written when the first chunk is not all out.
  cut_off :
      (n : ℕ) (c bytes : Bytes) (P : Bytes → Type 0)
      → n ≤ length c
      → P (take n c)
      → (n ≤ length (c ++ bytes)) × P (take n (c ++ bytes))
  cut_off n c bytes P le v =
      (omega (arith, le, length-append c bytes), subst P (sym (take-append_le n c bytes le)) v)

  take-both : (n : ℕ) (c bytes : Bytes) → take (length c + n) (c ++ bytes) ≡ c ++ take n bytes
  take-both n [] bytes = let e : 0 + n ≡ n = omega arith in rw e refl
  take-both n (b ∷ c) bytes =
      let e : suc (length c) + n ≡ suc (length c + n) = omega arith in
      rw e (ap (λ r. b ∷ r) (take-both n c bytes))

  joined :
      (p n m : ℕ) (c bytes : Bytes) (s t : S) (f : Framer std)
      → n ≡ length c
      → Carries std (s.heap p).id s.fr c t.fr
      → (t.heap p).id ≡ (s.heap p).id
      → Carries std (t.heap p).id t.fr (take m bytes) f
      → Carries std (s.heap p).id s.fr (take (n + m) (c ++ bytes)) f
  joined p n m c bytes s t f e v id w =
      rw (e, take-both m c bytes)
        (carry_both (s.heap p).id c (take m bytes) s.fr t.fr f v
          (subst (λ i. Carries std i t.fr (take m bytes) f) id w))

  after_chunk :
      (p n : ℕ) (c bytes : Bytes) (s t : S) (r : Sent S)
      → n ≡ length c
      → Carries std (s.heap p).id s.fr c t.fr
      → (t.heap p).id ≡ (s.heap p).id
      → Wrote std p bytes t r
      → Wrote std p (c ++ bytes) s (further std n r)
  after_chunk p n c bytes s t (blocked m u) e v id (le, w) =
      (omega (arith, le, e, length-append c bytes), joined p n m c bytes s t u.fr e v id w)
  after_chunk p n c bytes s t panics e v id w = w
  after_chunk p n c bytes s t (sent m none u) e v id (all, w) = (
    omega (arith, all, e, length-append c bytes),
    carry_both (s.heap p).id c bytes s.fr t.fr u.fr v
        (subst (λ i. Carries std i t.fr bytes u.fr) id w),
  )
  after_chunk p n c bytes s t (sent m (some x) u) e v id (le, f, w) =
      (omega (arith, le, e, length-append c bytes), f, joined p n m c bytes s t f e v id w)

  go_on_copying-Wrote :
      (p : ℕ) (c bytes : Bytes) (s : S) (rest : S → Option (Sent S)) (x : Sent S)
      → Wrote std p c s x
      → Stays std p s x
      → ((t : S)
          → IsSound (t.heap p).wnd
          → (r : Sent S) × (rest t ≡ some r) × Wrote std p bytes t r)
      → (r : Sent S) × (go_on_copying std net rest (some x) ≡ some r) × Wrote std p (c ++ bytes) s r
  go_on_copying-Wrote p c bytes s rest (blocked n t) (le, w) v ih =
      (_, refl, cut_off n c bytes (λ bs. Carries std (s.heap p).id s.fr bs t.fr) le w)
  go_on_copying-Wrote p c bytes s rest panics w v ih = absurd w
  go_on_copying-Wrote p c bytes s rest (sent n (some e) t) (le, f, w) v ih =
      let (le', w') = cut_off n c bytes (λ bs. Carries std (s.heap p).id s.fr bs f) le w in
      (_, refl, (le', f, w'))
  go_on_copying-Wrote p c bytes s rest (sent n none t) (all, w) (sound, id) ih =
      let (r, e, wr) = ih t sound in
      (further std n r, ap (Calls.map_further std n) e, after_chunk p n c bytes s t r all w id wr)

  pub copy_lem :
      (p : ℕ) (cs : List Bytes) (s : S)
      → AreShort cs
      → IsSound (s.heap p).wnd
      → (r : Sent S) × (copy std net p cs s ≡ some r) × Wrote std p (concat cs) s r
  unfolding copy
  copy_lem p [] s k w = (sent 0 none s, refl, (refl, ([], refl, refl)))
  copy_lem p (c ∷ cs) s (k, ks) w =
      let (x, e, wr, stays) = write_rounds std (suc (length c)) p c s (omega arith) k w in
      rw e (
        go_on_copying-Wrote p c (concat cs) s (copy std net p cs) x wr stays
          (λ t v. copy_lem p cs t ks v))

  -- What the goroutine has done when it ends or sleeps. At the end of a body that does not break it has
  -- closed the stream for writing, after the last byte.
  abbrev pub Copied : ℕ → Content → S → Sent S → Type 0
  Copied p body s (sent n none t) =
      (u : S) × Wrote std p (concat body.chunks) s (sent n none u)
      × (t ≡ (if body.is_broken then u else (Calls.close std p u).1))
  Copied p body s r = Wrote std p (concat body.chunks) s r

  close_after-Copied :
      (p : ℕ) (body : Content) (s : S) (r : Sent S)
      → Wrote std p (concat body.chunks) s r
      → (x : Sent S) × (close_after std net p body.is_broken (some r) ≡ some x) × Copied p body s x
  close_after-Copied p body s (blocked n t) w = (_, refl, w)
  close_after-Copied p body s panics w = absurd w
  close_after-Copied p body s (sent n none t) w = (_, refl, (t, w, refl))
  close_after-Copied p body s (sent n (some e) t) w = (_, refl, w)

  -- The goroutine that copies a request's body, in reads of fewer than 2³¹ bytes each, to a stream with
  -- a sound window, with no other goroutine in between, ends or falls asleep and never panics. It has
  -- then written the bytes that it counts, in order, in DATA frames of the stream. If no write fails and
  -- it does not sleep, these are all the bytes of the body, and it has called Close after them, unless
  -- the body broke.
  pub copy_body_lem :
      (p : ℕ) (body : Content) (s : S)
      → AreShort body.chunks
      → IsSound (s.heap p).wnd
      → (r : Sent S) × (copy_body std net p body s ≡ some r) × Copied p body s r
  unfolding copy_body
  copy_body_lem p body s k w =
      let (r, e, wr) = copy_lem p body.chunks s k w in rw e (close_after-Copied p body s r wr)
