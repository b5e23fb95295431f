-- ===== src/Session/Round.antt =====
-- One call of `writeData` in spdyframing/session.go, on a window that is in order.
use spdy.Base.{
  ℕ, ◌%◌, ◌^◌, ◌≤◌, ◌<◌, ◌≡◌, ◌≢◌, refl, sym, ap, ◌∙◌, subst, Bool, true, false, not, Bytes, Option,
  none, some, length, if◌then◌else◌, arith, ltb, take,
}
use spdy.Base.Int.{pos}
use spdy.Errors.{Error, closed, not_writable}
use spdy.Stdlib.{Stdlib}
use spdy.Wire.{Result, ok, err}
use spdy.Semaphore.{Semaphore, Outcome, returns}
use spdy.Semaphore.Bounds.{IsWindow, Served, empty, refused, granted, dec_lem}
use spdy.Framer.{Framer}
use spdy.Framer.Write
use spdy.Session.{Session, modify, write_frame}
use spdy.Session.Inv.{put_self}
use spdy.Session.Calls.{Sent, blocked, sent, content_frame, count_sent, send_granted, write_data}

-- A window that has the error that closed it.
abbrev pub IsSound : Semaphore → Type 0
IsSound w = IsWindow w × (w.closed ≡ true → w.err ≢ none)

module _ (std : Stdlib) where
  abbrev S : Type 0
  S = Session std

  -- What one call of `writeData` comes to.
  pub data Round (p : ℕ) (bytes : Bytes) (s : S) : Sent S → Type 0 where
    waited : Round p bytes s (blocked 0 s)
    failed : (e : Error) (t : S) → Round p bytes s (sent 0 (some e) t)
    wrote :
        (m : ℕ) (t : S)
        → 0 < m
        → m ≤ length bytes
        → Write.write_frame std (content_frame (s.heap p).id (take m bytes) 0) s.fr ≡ (ok tt, t.fr)
        → (t.heap p).id ≡ (s.heap p).id
        → IsSound (t.heap p).wnd
        → Round p bytes s (sent m none t)

  granted-Round :
      (p : ℕ) (bytes : Bytes) (s : S) (o : Outcome)
      → IsSound (s.heap p).wnd
      → Served (s.heap p).wnd (length bytes) o
      → Round p bytes s (send_granted std p bytes o s)
  unfolding write_frame
  granted-Round p bytes s o w (empty z c) = waited
  granted-Round p bytes s o w (refused c) = from (s.heap p).wnd.err refl
    where
      from :
          (e : Option Error)
          → (s.heap p).wnd.err ≡ e
          → Round p bytes s (send_granted std p bytes (returns (pos 0) e (s.heap p).wnd) s)
      from none e = absurd (w.1 c e)
      from (some x) e = failed x _
  granted-Round p bytes s o w (granted m t lo hi all sum v c) =
      from (Write.write_frame std (content_frame (s.heap p).id (take m bytes) 0) s.fr) refl
    where
      s1 : S
      s1 = modify std p (λ st. record st { wnd = t }) s

      now : s1.heap p ≡ record (s.heap p) { wnd = t }
      now = put_self s.heap p (record (s.heap p) { wnd = t })

      from :
          (r : Result (Unit {0}) × Framer std)
          → Write.write_frame std (content_frame (s.heap p).id (take m bytes) 0) s.fr ≡ r
          → Round p bytes s (count_sent std m (r.0, record s1 { fr = r.1 }))
      from (ok u, g) e =
          wrote m (record s1 { fr = g }) lo hi e (ap (λ st. st.id) now)
            (subst (λ st. IsSound st.wnd) (sym now) (v, λ shut. absurd (clash shut)))
        where
          clash : t.closed ≡ true → ⊥
          clash shut = let bad : true ≡ false = sym shut ∙ c in cc
      from (err x, g) e = failed x _

  pub write_data-Round :
      (p : ℕ) (bytes : Bytes) (s : S)
      → 0 < length bytes
      → length bytes < 2 ^ 31
      → IsSound (s.heap p).wnd
      → Round p bytes s (write_data std p bytes s)
  unfolding write_data
  write_data-Round p bytes s lo hi w =
      let small : length bytes % 2 ^ 32 ≡ length bytes = omega arith in
      let fits : ltb (length bytes) (2 ^ 31) ≡ true = ground arith in
      rw (small, fits)
        (either (s.heap p).wclosed _ _ (failed closed s) (
          either (not (s.heap p).wready) _ _ (failed not_writable s)
            (granted-Round p bytes s _ w (dec_lem (s.heap p).wnd (length bytes) w.0 lo hi))))
    where
      either :
          (b : Bool) (x y : Sent S)
          → Round p bytes s x
          → Round p bytes s y
          → Round p bytes s (if b then x else y)
      either true x y v w = v
      either false x y v w = w
