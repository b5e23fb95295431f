-- ===== src/Session/Carrying.antt =====
-- DATA frames that `Write` of spdyframing/session.go has written, as bytes on the connection.
use spdy.Base.{
  ℕ, ◌^◌, ◌<◌, ◌≡◌, ◌≢◌, refl, sym, ap, ◌∙◌, Bytes, List, [], ◌∷◌, ◌++◌, length, leb, ltb, arith,
  Bool-cases, inl, inr, append_assoc, append-nil,
}
use spdy.Errors.{Error}
use spdy.Stdlib.{Stdlib}
use spdy.Wire.{Result, ok, err, continue}
use spdy.Framer.{Framer}
use spdy.Framer.Write.{write_frame}
use spdy.Framer.Encoding.{IsU24}
use spdy.Framer.Encode.{write_data-Emits}
use spdy.Framer.RoundTrip.{write_frames, wires, wire, sent}
use spdy.Framer.RoundTrip.Sends.{emit_fits, emit_breaks}
use spdy.Session.Calls.{content_frame}
use spdy.Session.Writing.{frames_of}
use spdy.Session.Oversize.{too_long}

-- The chunks fit frames.
abbrev pub AreSmall : List Bytes → Type 0
AreSmall [] = Unit {0}
AreSmall (c ∷ cs) = IsU24 (length c) × AreSmall cs

module _ (std : Stdlib) where
  abbrev pub chunk_bytes : ℕ → Bytes → Bytes
  chunk_bytes id c = wire std.unicode_lower (content_frame id c 0)

  clash : {x : Error} {r : Result (Unit {0})} → r ≡ ok tt → r ≡ err x → ⊥
  clash d e = cc

  write_chunk-ok :
      (id : ℕ) (c : Bytes) (f g : Framer std)
      → id ≢ 0
      → id < 2 ^ 31
      → write_frame std (content_frame id c 0) f ≡ (ok tt, g)
      → IsU24 (length c) × (g ≡ sent std f (chunk_bytes id c))
  unfolding write_frame
  write_chunk-ok id c f g h k e = elim (Bool-cases (ltb (length c) (2 ^ 24))) [
    | inl low ↦
        let small : IsU24 (length c) = ground arith in
        let puts =
          write_data-Emits std (record { stream_id = id; flags = 0; content = c }) h k (omega arith)
            small in
        (
          small,
          elim (Bool-cases (leb (length (chunk_bytes id c)) f.room)) [
            | inl fits ↦ ap (λ r. r.1) (sym e ∙ emit_fits std (chunk_bytes id c) f puts fits)
            | inr short ↦
                absurd (clash (ap (λ r. r.0) e) (emit_breaks std (chunk_bytes id c) f puts short).0)
          ],
        )
    | inr big ↦
        absurd (clash (ap (λ r. r.0) e) (ap (λ r. r.0) (too_long std id c f h (ground arith))))
  ]

  pub write_chunks-ok :
      (id : ℕ) (cs : List Bytes) (f g : Framer std)
      → id ≢ 0
      → id < 2 ^ 31
      → write_frames std (frames_of id cs) f ≡ (ok tt, g)
      → AreSmall cs × (g.out ≡ f.out ++ wires std (frames_of id cs))
  write_chunks-ok id [] f g h k e = (tt, ap (λ r. r.1.out) (sym e) ∙ sym (append-nil f.out))
  write_chunks-ok id (c ∷ cs) f g h k e =
      from (write_frame std (content_frame id c 0) f) refl e (λ t. write_chunks-ok id cs t g h k)
    where
      from :
          (r : Result (Unit {0}) × Framer std)
          → write_frame std (content_frame id c 0) f ≡ r
          → continue r (λ _. write_frames std (frames_of id cs)) ≡ (ok tt, g)
          → ((t : Framer std)
              → write_frames std (frames_of id cs) t ≡ (ok tt, g)
              → AreSmall cs × (g.out ≡ t.out ++ wires std (frames_of id cs)))
          → AreSmall (c ∷ cs) × (g.out ≡ f.out ++ wires std (frames_of id (c ∷ cs)))
      from (err x, t) d e next = cc
      from (ok u, t) d e next =
          let (small, out) = write_chunk-ok id c f t h k d in
          let (all, rest) = next t e in
          (
            (small, all),
            rest
                ∙ ap (λ x. x.out ++ wires std (frames_of id cs)) out
                ∙ append_assoc f.out (chunk_bytes id c) _,
          )
