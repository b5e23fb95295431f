-- ===== src/Framer/RoundTrip/Rows.antt =====
-- Frames in a row, written by spdyframing/write.go and read back by spdyframing/read.go.
use spdy.Base.{
  ◌-◌, ◌≤◌, ◌≡◌, refl, ap, ◌∙◌, Bytes, [], ◌∷◌, ◌++◌, List, map, length, drop, append_assoc,
  append-nil, arith, length-append, le→leb, drop-append,
}
use spdy.Stdlib.{Stdlib}
use spdy.Wire.{ok}
use spdy.Frame.{Frame}
use spdy.Framer.{Framer}
use spdy.Framer.Decode.{ahead}
use spdy.Framer.RoundTrip.{wire, stamped, IsPlain, sent, write_frames, read_frames, AreWire, wires}
use spdy.Framer.RoundTrip.Sends.{write_fits}
use spdy.Framer.RoundTrip.Receives.{wire-Reads}

module _ (std : Stdlib) where
  abbrev wire_of : Frame → Bytes
  wire_of = wire std.unicode_lower

  sent-append :
      (f : Framer std) (xs ys : Bytes) → sent std (sent std f xs) ys ≡ sent std f (xs ++ ys)
  sent-append f xs ys =
      let space : f.room - length xs - length ys ≡ f.room - length (xs ++ ys) =
        omega (arith, length-append xs ys) in
      rw (append_assoc f.out xs ys, space)

  write_frames_lem :
      (frs : List Frame) (f : Framer std)
      → AreWire std frs
      → IsPlain std f
      → length (wires std frs) ≤ f.room
      → write_frames std frs f ≡ (ok tt, sent std f (wires std frs))
  write_frames_lem [] f ws v h =
      let space : f.room - 0 ≡ f.room = omega arith in rw (append-nil f.out, space)
  write_frames_lem (fr ∷ frs) f (w, ws) v h =
      rw
        (write_fits std fr f w v
          (le→leb _ _ (omega (arith, length-append (wire_of fr) (wires std frs)))))
        (write_frames_lem frs (sent std f (wire_of fr)) ws
            (record { disabled = v.disabled; drained = v.drained })
            (omega (arith, length-append (wire_of fr) (wires std frs)))
          ∙ ap (λ g. (ok tt, g)) (sent-append f (wire_of fr) (wires std frs)))

  read_frames_lem :
      (frs : List Frame) (g : Framer std) (rest : Bytes)
      → AreWire std frs
      → IsPlain std g
      → read_frames std (length frs) (ahead std g (wires std frs ++ rest))
        ≡ (ok (map (stamped std.unicode_lower) frs), ahead std g rest)
  read_frames_lem [] g rest ws v = refl
  read_frames_lem (fr ∷ frs) g rest (w, ws) v =
      let more = wires std frs ++ rest in
      let (t, read, left) = wire-Reads std fr g w v (ahead std g (wire_of fr ++ more)) more refl in
      rw (
        append_assoc (wire_of fr) (wires std frs) rest,
        read,
        left,
        read_frames_lem frs g rest ws v,
      )

  -- Without header compression, any frames fit for the wire, written one after the other on a
  -- connection with room for them,
  -- come out of the reader at the other end in the same order, each as it was but for the control
  -- header that the writer sets; and what follows them on the connection is left to read.
  pub read_frames-write_frames :
      (frs : List Frame) (f g : Framer std) (rest : Bytes)
      → AreWire std frs
      → IsPlain std f
      → IsPlain std g
      → length (wires std frs) ≤ f.room
      → let (x, f') = write_frames std frs f in
        (x ≡ ok tt)
        × (read_frames std (length frs) (ahead std g (drop (length f.out) f'.out ++ rest))
            ≡ (ok (map (stamped std.unicode_lower) frs), ahead std g rest))
  read_frames-write_frames frs f g rest ws v w h = rw (write_frames_lem frs f ws v h) (
    refl,
    rw (drop-append (length f.out) f.out (wires std frs) refl) (read_frames_lem frs g rest ws w),
  )
