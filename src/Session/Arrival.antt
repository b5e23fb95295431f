-- ===== src/Session/Arrival.antt =====
-- From Write of spdyframing/session.go to the stream's pipe in the session at the other end.
use spdy.Base.{
  some-injective, length-take, ℕ, ◌^◌, ◌≤◌, ◌<◌, ◌≡◌, ◌≢◌, refl, sym, ◌∙◌, subst, Bytes, Option,
  none, some, ◌++◌, length, arith, drop, drop-append, take, take_all,
}
use spdy.Stdlib.{Stdlib}
use spdy.Framer.{Framer}
use spdy.Framer.RoundTrip.{wires}
use spdy.Session.{Session}
use spdy.Session.Calls.{Sent, blocked, panics, sent, write}
use spdy.Session.Delivery.{room}
use spdy.Session.Round.{IsSound}
use spdy.Session.Writing.{Carries, Wrote, frames_of, write_lem}
use spdy.Session.Carrying.{write_chunks-ok}
use spdy.Session.Rounds.{IsTaking, Has, rounds, bring, many_rounds}

module _ (std : Stdlib) where
  abbrev S : Type 0
  S = Session std

  -- The count that Write has come to, and the session then, unless it fails.
  abbrev pub counted : Sent S → Option (ℕ × S)
  counted (blocked n t) = some (n, t)
  counted panics = none
  counted (sent n none t) = some (n, t)
  counted (sent n (some e) t) = none

  carried :
      (p : ℕ) (bytes : Bytes) (s : S) (r : Sent S) (x : ℕ × S)
      → counted r ≡ some x
      → Wrote std p bytes s r
      → (x.0 ≤ length bytes) × Carries std (s.heap p).id s.fr (take x.0 bytes) x.1.fr
  carried p bytes s (blocked m u) x e w =
      let same : (m, u) ≡ x = some-injective _ _ e in
      subst (λ y. (y.0 ≤ length bytes) × Carries std (s.heap p).id s.fr (take y.0 bytes) y.1.fr)
        same w
  carried p bytes s panics x e w = absurd w
  carried p bytes s (sent m none u) x e (all, c) =
      let same : (m, u) ≡ x = some-injective _ _ e in
      let whole : take m bytes ≡ bytes = take_all m bytes (omega arith) in
      subst (λ y. (y.0 ≤ length bytes) × Carries std (s.heap p).id s.fr (take y.0 bytes) y.1.fr)
        same (omega arith, rw whole c)
  carried p bytes s (sent m (some d) u) x e w = cc

  -- What a carrying of `bs` put on the connection, in rounds at the other end.
  carried-Has :
      (id q : ℕ) (bs rest : Bytes) (f g : Framer std) (u : S)
      → id ≢ 0
      → id < 2 ^ 31
      → IsTaking std id q u
      → length bs ≤ room (u.heap q).pipe
      → Carries std id f bs g
      → (k : ℕ) × Has std id q bs rest u
          (rounds std k (bring std (drop (length f.out) g.out ++ rest) u))
  carried-Has id q bs rest f g u h k v fits (cs, same, done) =
      let (small, out) = write_chunks-ok std id cs f g h k done in
      let all = wires std (frames_of id cs) in
      rw (out, drop-append (length f.out) f.out all refl, sym same)
        (many_rounds std id q cs rest u h k small v
          (subst (λ x. length x ≤ room (u.heap q).pipe) (sym same) fits))

  -- Two sessions, of which one calls Write, with fewer than 2³¹ bytes and a sound window, and with more
  -- fuel than bytes, and does not fail; and the other takes data for the stream's id, a positive one
  -- below 2³¹, and has room for the bytes. When what Write put on the connection comes in at the other
  -- end, some number of rounds of the reading goroutine put the bytes that Write counted behind the
  -- unread ones of the stream, in order, and leave what follows on the connection to come. The stream
  -- goes on taking data, nothing is written and no task is left.
  pub write-Has :
      (fuel p q n : ℕ) (bytes rest : Bytes) (s t u : S) (r : Sent S)
      → length bytes < fuel
      → length bytes < 2 ^ 31
      → IsSound (s.heap p).wnd
      → (s.heap p).id ≢ 0
      → (s.heap p).id < 2 ^ 31
      → IsTaking std (s.heap p).id q u
      → length bytes ≤ room (u.heap q).pipe
      → write std fuel p bytes s ≡ some r
      → counted r ≡ some (n, t)
      → (k : ℕ) × Has std
          (s.heap p).id
          q
          (take n bytes)
          rest
          u
          (rounds std k (bring std (drop (length s.fr.out) t.fr.out ++ rest) u))
  write-Has fuel p q n bytes rest s t u r enough lo w h k v fits e c =
      let (r', e', wrote) = write_lem std fuel p bytes s enough lo w in
      let same : r' ≡ r = some-injective _ _ (sym e' ∙ e) in
      let (le, c') = carried p bytes s r (n, t) c (subst (Wrote std p bytes s) same wrote) in
      carried-Has (s.heap p).id q (take n bytes) rest s.fr t.fr u h k v
        (omega (arith, le, fits, length-take n bytes)) c'
