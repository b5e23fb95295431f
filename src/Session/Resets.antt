-- ===== src/Session/Resets.antt =====
-- `Reset` of a stream in spdyframing/session.go, and a caller of `Header` who waits for its reply.
use spdy.Base.{ℕ, ◌≡◌, ◌≢◌, refl, sym, ap, ◌∙◌, true, false, none, some}
use spdy.Errors.{Error, reset_error}
use spdy.Stdlib.{Stdlib}
use spdy.Session.{Session, awaited, modify, wclose, get, reset, write_frame, shut_read, shut_write}
use spdy.Session.Calls.{header, reset_stream}
use spdy.Session.Inv.{over, IsValid, put_self}
use spdy.Session.End.{heap-maybe_remove}
use spdy.Session.CallSteps.{reset_stream-IsValid}
use spdy.Session.Delivery.{heap-rclose}

module _ (std : Stdlib) where
  abbrev S : Type 0
  S = Session std

  pub heap-wclose :
      (p : ℕ) (e : Error) (s : S) → (wclose std p e s).heap p ≡ shut_write e (s.heap p)
  unfolding wclose
  heap-wclose p e s =
      rw (heap-maybe_remove std p (modify std p (shut_write e) s))
        (put_self s.heap p (shut_write e (s.heap p)))

  pub heap-reset_stream :
      (p status : ℕ) (s : S)
      → (reset_stream std p status s).1.heap p
        ≡ shut_write (reset_error status) (shut_read (reset_error status) (s.heap p))
  unfolding reset_stream reset write_frame
  heap-reset_stream p status s =
      heap-wclose p (reset_error status) _
      ∙ ap (shut_write (reset_error status)) (heap-rclose std p (reset_error status) _)

  -- A call of `Header` that waits for a reply goes on waiting after `Reset`, and the map no longer
  -- leads to the stream under any id, so that neither a frame nor the end of the session will find it.
  pub reset_strands :
      (s : S) (p status id : ℕ)
      → IsValid std s
      → (s.heap p).reply ≡ awaited
      → (header std p (reset_stream std p status s).1 ≡ none)
        × (get std id (reset_stream std p status s).1 ≢ some p)
  unfolding header get
  reset_strands s p status id v waiting =
      let now = heap-reset_stream p status s in
      let t = (reset_stream std p status s).1 in
      let still : (t.heap p).reply ≡ awaited = ap (λ st. st.reply) now ∙ waiting in
      let finished : over (t.heap p) ≡ true = ap over now in
      let w : IsValid std t = reset_stream-IsValid std p status s v in
      (rw still refl, λ e. let bad : true ≡ false = sym finished ∙ (w.held id p e).2 in cc)
