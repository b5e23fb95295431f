-- ===== src/Http/Ready.antt =====
-- The writing half of a stream of spdyframing/session.go, as server.go finds it: ready, or closed.
use spdy.Base.{ℕ, Bool, true, false, ◌≡◌, ap, ◌∙◌, Bool-cases, inl, inr}
use spdy.Errors.{Error, closed}
use spdy.Stdlib.{Stdlib}
use spdy.Wire.{Result, ok, err}
use spdy.Header.{Header}
use spdy.Session.{Session, modify, write_frame, has_flag, control_flag_fin, internal_error}
use spdy.Session.Calls.{reset_stream, reply, reply_frame}
use spdy.Session.Receive.{close_write_if}
use spdy.Session.Inv.{put_self}
use spdy.Session.Leaves.{Keeps}
use spdy.Session.Resets.{heap-wclose, heap-reset_stream}
use spdy.Http.{Net}
use spdy.Http.Server.{replied}

module _ (std : Stdlib) where
  abbrev S : Type 0
  S = Session std

  abbrev pub IsReady : ℕ → S → Type 0
  IsReady p s = (s.heap p).wready ≡ true

  abbrev pub IsShut : ℕ → S → Type 0
  IsShut p s = (s.heap p).wclosed ≡ true

  close_write_if-IsReady :
      (b : Bool) (p : ℕ) (e : Error) (s : S) → IsReady p s → IsReady p (close_write_if std b p e s)
  close_write_if-IsReady true p e s v = ap (λ st. st.wready) (heap-wclose std p e s) ∙ v
  close_write_if-IsReady false p e s v = v

  -- The session once `Reply` has written its frame.
  abbrev pub replying : ℕ → Header → ℕ → S → S
  replying p h flag s =
      (write_frame std (reply_frame std (s.heap p).id h flag)
        (modify std p (λ st. record st { wready = true }) s)).1

  -- `Reply` makes the stream writable, or finds that it is.
  pub reply-IsReady : (p : ℕ) (h : Header) (flag : ℕ) (s : S) → IsReady p (reply std p h flag s).1
  unfolding reply write_frame
  reply-IsReady p h flag s = elim (Bool-cases (s.heap p).wready) [
    | inl e ↦ rw e e
    | inr e ↦ rw e (
        close_write_if-IsReady (has_flag flag control_flag_fin) p closed (replying p h flag s)
          (ap (λ st. st.wready) (put_self s.heap p (record (s.heap p) { wready = true }))))
  ]

  pub reset_stream-IsReady :
      (p status : ℕ) (s : S) → IsReady p s → IsReady p (reset_stream std p status s).1
  reset_stream-IsReady p status s v = ap (λ st. st.wready) (heap-reset_stream std p status s) ∙ v

  pub reset_stream-IsShut : (p status : ℕ) (s : S) → IsShut p (reset_stream std p status s).1
  reset_stream-IsShut p status s = ap (λ st. st.wclosed) (heap-reset_stream std p status s)

  pub replied-IsReady :
      (net : Net) (p : ℕ) (r : Result (Unit {0}) × S)
      → IsReady p r.1
      → IsReady p (replied std net p r)
  replied-IsReady net p (ok u, s) v = v
  replied-IsReady net p (err e, s) v = reset_stream-IsReady p internal_error s v

  pub writing : (p : ℕ) → Keeps std (IsReady p) p
  writing p = record {
    windows =
        λ wnd s v. ap (λ st. st.wready) (put_self s.heap p (record (s.heap p) { wnd = wnd })) ∙ v;
    framers = λ fr s v. v;
    resets = reset_stream-IsReady p internal_error;
  }
