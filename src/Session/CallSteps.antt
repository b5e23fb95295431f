-- ===== src/Session/CallSteps.antt =====
-- The calls of a stream's user in spdyframing/session.go keep the map and the ids in order.
use spdy.Base.{
  subst, ◌||◌, ◌-◌, ℕ, ◌+◌, ◌^◌, ◌<◌, ◌≡◌, refl, Bool, true, false, not, Bytes, Option, none, some,
  if◌then◌else◌, ltb,
}
use spdy.Errors.{Error, closed, not_readable, not_writable, reset_error}
use spdy.Stdlib.{Stdlib}
use spdy.Wire.{Result, ok, err}
use spdy.Header.{Header}
use spdy.Buffer.{Buffer}
use spdy.Pipe
use spdy.Session.{
  Session, Stream, Reply, unset, awaited, given, modify, write_frame, reset, new_stream, rclose,
  control_flag_unidirectional, control_flag_fin, has_flag, internal_error,
}
use spdy.Session.Leaves.{Leaves, Keeps, write_data-Leaves, send_granted-Leaves}
use spdy.Session.Calls.{
  opened, finish_open, open_stream, header_from, header, reply, update_window, received, read,
  reset_stream, write_data, ask_window, close,
}
use spdy.Session.Inv.{IsValid}
use spdy.Session.Adds.{Added, refused, added, add_own-Added}
use spdy.Session.Steps.{rclose-IsValid, wclose-IsValid, close_write_if-IsValid, modified}

module _ (std : Stdlib) where
  abbrev S : Type 0
  S = Session std

  finish_open-IsValid :
      (p : ℕ) (r : Result (Unit {0}) × S) → IsValid std r.1 → IsValid std (finish_open std p r).1
  finish_open-IsValid p (ok u, s) v = v
  finish_open-IsValid p (err e, s) v = wclose-IsValid std p e _ (rclose-IsValid std p e s v)

  -- The two ways in which `Open` sets up the incoming half.
  half_open-IsValid :
      (b : Bool) (p : ℕ) (s : S)
      → IsValid std s
      → IsValid std (
          if b
          then rclose std p not_readable s
          else modify std p (λ st. record st { reply = awaited }) s)
  half_open-IsValid true p s v = rclose-IsValid std p not_readable s v
  half_open-IsValid false p s v = modified std p (λ st. record st { reply = awaited }) s refl refl v

  opened-IsValid :
      (h : Header) (flag : ℕ) {st : Stream} {s : S} {r : Result ℕ × S}
      → Added std st s r
      → IsValid std s
      → IsValid std (opened std h flag r).1
  unfolding write_frame
  opened-IsValid h flag (refused shut) v = v
  opened-IsValid h flag (added p t still w here) v = finish_open-IsValid p _ (
      close_write_if-IsValid std _ p not_writable _
        (half_open-IsValid (has_flag flag control_flag_unidirectional) p t w))

  pub open_stream-IsValid :
      (h : Header) (flag : ℕ) (s : S)
      → s.next_syn_id + 2 < 2 ^ 32
      → IsValid std s
      → IsValid std (open_stream std h flag s).1
  unfolding open_stream new_stream
  open_stream-IsValid h flag s few v =
      opened-IsValid h flag
        (add_own-Added std (record (new_stream std s) { wready = true }) s refl v refl few) v

  moved :
      {A : Type 0} (a b : A) (x y : S)
      → ◌≡◌ {A = Option (A × S)} (some (a, x)) (some (b, y))
      → x ≡ y
  moved a b x y e = cc

  pub header-IsValid :
      (p : ℕ) (s t : S) (h : Option Header)
      → header std p s ≡ some (h, t)
      → IsValid std s
      → IsValid std t
  unfolding header
  header-IsValid p s t h e v = from (s.heap p).reply e
    where
      from : (r : Reply) → header_from std p r s ≡ some (h, t) → IsValid std t
      from unset e = subst (IsValid std) (moved _ _ _ _ e) v
      from awaited e = cc
      from (given g) e =
          subst (IsValid std) (moved _ _ _ _ e)
            (modified std p (λ st. record st { header = g; reply = unset }) s refl refl v)

  -- A call that is one of two.
  either-IsValid :
      {A : Type 0} (b : Bool) (x y : A × S)
      → IsValid std x.1
      → IsValid std y.1
      → IsValid std (if b then x else y).1
  either-IsValid true x y v w = v
  either-IsValid false x y v w = w

  pub reply-IsValid :
      (p : ℕ) (h : Header) (flag : ℕ) (s : S) → IsValid std s → IsValid std (reply std p h flag s).1
  unfolding reply write_frame
  reply-IsValid p h flag s v = either-IsValid (s.heap p).wready _ _ v (
      close_write_if-IsValid std (has_flag flag control_flag_fin) p closed _
        (modified std p (λ st. record st { wready = true }) s refl refl v))

  update_window-IsValid :
      (p delta : ℕ) (s : S) → IsValid std s → IsValid std (update_window std p delta s).1
  unfolding update_window write_frame
  update_window-IsValid p delta s v = either-IsValid (ltb delta 1 || ltb (2 ^ 31 - 1) delta) _ _ v v

  pub read-IsValid :
      (p n : ℕ) (s t : S) (out : Bytes × Option Error)
      → read std p n s ≡ some (out, t)
      → IsValid std s
      → IsValid std t
  unfolding read
  read-IsValid p n s t out e v = from (Pipe.read (s.heap p).pipe n) e
    where
      from :
          (r : Option ((Bytes × Option Error) × Buffer))
          → received std p r s ≡ some (out, t)
          → IsValid std t
      from none e = cc
      from (some ((bytes, x), pipe)) e = subst (IsValid std) (moved _ _ _ _ e) (
          update_window-IsValid p _ _
            (modified std p (λ st. record st { pipe = pipe }) s refl refl v))

  pub reset_stream-IsValid :
      (p status : ℕ) (s : S) → IsValid std s → IsValid std (reset_stream std p status s).1
  unfolding reset_stream reset write_frame
  reset_stream-IsValid p status s v =
      wclose-IsValid std p (reset_error status) _ (rclose-IsValid std p (reset_error status) _ v)

  pub close-IsValid : (p : ℕ) (s : S) → IsValid std s → IsValid std (close std p s).1
  unfolding close write_frame
  close-IsValid p s v =
      either-IsValid (s.heap p).wclosed _ _ v
        (either-IsValid (not (s.heap p).wready) _ _ v (wclose-IsValid std p closed _ v))

  sending : (p : ℕ) → Keeps std (IsValid std) p
  sending p = record {
    windows = λ wnd s. modified std p (λ st. record st { wnd = wnd }) s refl refl;
    framers = λ fr s v. v;
    resets = reset_stream-IsValid p internal_error;
  }

  pub write_data-IsValid :
      (p : ℕ) (bytes : Bytes) (s : S)
      → IsValid std s
      → Leaves std (IsValid std) (write_data std p bytes s)
  write_data-IsValid p = write_data-Leaves std (IsValid std) p (sending p)

  pub ask_window-IsValid :
      (p : ℕ) (bytes : Bytes) (s : S)
      → IsValid std s
      → Leaves std (IsValid std) (ask_window std p bytes s)
  ask_window-IsValid p bytes s = send_granted-Leaves std (IsValid std) p (sending p) bytes _ s
