-- ===== src/Session/Others.antt =====
-- What any goroutine of spdyframing/session.go leaves of a stream that can be written.
use spdy.Base.{
  ℕ, ◌++◌, ◌%◌, ◌^◌, length, some-injective, subst, ◌≡◌, refl, ap, Bool, true, false, not, Bytes,
  Option, none, some, [], arith, if◌then◌else◌,
}
use spdy.Errors.{not_readable, cannot_reply, not_writable, Error, closed}
use spdy.Stdlib.{Stdlib}
use spdy.Wire.{Result, ok, err}
use spdy.Buffer.{Buffer}
use spdy.Pipe
use spdy.Frame.{Frame}
use spdy.Session.{
  Session, Reply, unset, awaited, given, rclose, wclose, add, reset, write_frame, has_flag,
  data_flag_fin,
}
use spdy.Session.Receive.{close_write_if}
use spdy.Header.{Header}
use spdy.Session.{modify, internal_error, control_flag_unidirectional}
use spdy.Session.Calls.{
  finish_open, opened, open_stream, header_from, header, reply, received, read, reset_stream, close,
  content_frame, write, run_write, update_window, reply_frame, open_frame,
}
use spdy.Session.Leaves.{
  LeavesIf, write-LeavesIf, Leaves, Keeps, write_data-Leaves, send_granted-Leaves,
}
use spdy.Session.{Task, writes, handles, control_flag_fin, new_stream}
use spdy.Session.Receive.{read_round}
use spdy.Session.Reach.{
  Step, reads_frame, opens, takes_header, replies, reads, sends, wakes, resets, closes, runs,
  run_task,
}
use spdy.Session.Writable.{
  Grows, grow, Grows-same, Grows-modify, Grows-rclose, Grows-wclose, Grows-close_write_if,
  Grows-reset, Grows-add, Grows-take_frame,
}

module _ (std : Stdlib) (p : ℕ) where
  abbrev S : Type 0
  S = Session std

  abbrev To : S → S → Type 0
  To = Grows std p

  after_write : (f : Frame) (s : S) → To s (write_frame std f s).1
  unfolding write_frame
  after_write f s = record { kept = λ h. (h, λ e. e) }

  Grows-finish_open : (q : ℕ) (r : Result (Unit {0}) × S) → To r.1 (finish_open std q r).1
  Grows-finish_open q (ok u, s) = Grows-same std p s
  Grows-finish_open q (err e, s) =
      grow std p s _ _ (Grows-rclose std p q e s) (Grows-wclose std p q e _)

  Grows-opened : (h : Header) (flag : ℕ) (r : Result ℕ × S) → To r.1 (opened std h flag r).1
  Grows-opened h flag (err e, s) = Grows-same std p s
  Grows-opened h flag (ok q, s) =
      let s1 =
        if has_flag flag control_flag_unidirectional
        then rclose std q not_readable s
        else modify std q (λ st. record st { reply = awaited }) s in
      let s2 = close_write_if std (has_flag flag control_flag_fin) q not_writable s1 in
      let w = write_frame std (open_frame (s2.heap q).id h flag) s2 in
      grow std p s s1 _ (half (has_flag flag control_flag_unidirectional)) (
        grow std p s1 s2 _ (Grows-close_write_if std p _ q not_writable s1)
          (grow std p s2 w.1 _ (after_write _ s2) (Grows-finish_open q w)))
    where
      half :
          (b : Bool)
          → To s (
              if b
              then rclose std q not_readable s
              else modify std q (λ st. record st { reply = awaited }) s)
      half true = Grows-rclose std p q not_readable s
      half false = Grows-modify std p q (λ st. record st { reply = awaited }) s (λ st e. e)

  Grows-open_stream : (h : Header) (flag : ℕ) (s : S) → To s (open_stream std h flag s).1
  unfolding open_stream
  Grows-open_stream h flag s =
      let r : Result ℕ × S = add std (record (new_stream std s) { wready = true }) s in
      grow std p s r.1 _ (Grows-add std p (record (new_stream std s) { wready = true }) s)
        (Grows-opened h flag r)

  pub Grows-header : (q : ℕ) (h : Option Header) (s t : S) → header std q s ≡ some (h, t) → To s t
  unfolding header
  Grows-header q h s t = from (s.heap q).reply
    where
      stored : S
      stored = modify std q (λ st. record st { reply = unset }) s

      from : (r : Reply) → header_from std q r s ≡ some (h, t) → To s t
      from unset e = let same : s ≡ t = cc in subst (To s) same (Grows-same std p s)
      from awaited e = cc
      from (given x) e =
          let u : S = modify std q (λ st. record st { header = x; reply = unset }) s in
          let same : u ≡ t = cc in
          subst (To s) same
            (Grows-modify std p q (λ st. record st { header = x; reply = unset }) s (λ st e. e))

  pub Grows-reset_stream : (q status : ℕ) (s : S) → To s (reset_stream std q status s).1
  unfolding reset_stream
  Grows-reset_stream q status s =
      let r = reset std (s.heap q).id status s in
      grow std p s r.1 _ (Grows-reset std p _ status s) (
        grow std p r.1 (rclose std q _ r.1) _ (Grows-rclose std p q _ r.1)
          (Grows-wclose std p q _ _))

  growing : (q : ℕ) (s : S) → Keeps std (To s) q
  growing q s = record {
    windows = λ wnd t v.
        grow std p s t _ v (Grows-modify std p q (λ st. record st { wnd = wnd }) t (λ st e. e));
    framers = λ fr t v. record { kept = v.kept };
    resets = λ t v. grow std p s t _ v (Grows-reset_stream q internal_error t);
  }

  either :
      (s : S) (b : Bool) (x y : Result (Unit {0}) × S)
      → To s x.1
      → To s y.1
      → To s (if b then x else y).1
  either s true x y v w = v
  either s false x y v w = w

  pub Grows-reply : (q : ℕ) (h : Header) (flag : ℕ) (s : S) → To s (reply std q h flag s).1
  unfolding reply
  Grows-reply q h flag s =
      let s1 : S = modify std q (λ st. record st { wready = true }) s in
      let r = write_frame std (reply_frame std (s.heap q).id h flag) s1 in
      let s2 : S = close_write_if std (has_flag flag control_flag_fin) q closed r.1 in
      either s (s.heap q).wready (err cannot_reply, s) (r.0, s2) (Grows-same std p s)
        (grow std p s s1 s2
          (Grows-modify std p q (λ st. record st { wready = true }) s (λ st e. refl))
          (grow std p s1 r.1 s2 (after_write _ s1) (Grows-close_write_if std p _ q closed r.1)))

  pub Grows-close : (q : ℕ) (s : S) → To s (close std q s).1
  unfolding close
  Grows-close q s =
      let r = write_frame std (content_frame (s.heap q).id [] data_flag_fin) s in
      let t : S = wclose std q closed r.1 in
      either s (s.heap q).wclosed (err closed, s)
        (if not (s.heap q).wready then (err not_writable, s) else (r.0, t)) (Grows-same std p s)
        (either s (not (s.heap q).wready) (err not_writable, s) (r.0, t) (Grows-same std p s)
          (grow std p s r.1 t (after_write _ s) (Grows-wclose std p q closed r.1)))

  Grows-update_window : (q delta : ℕ) (s : S) → To s (update_window std q delta s).1
  unfolding update_window write_frame
  Grows-update_window q delta s = record { kept = λ h. ground (arith, h) }

  pub Grows-read :
      (q n : ℕ) (out : Bytes × Option Error) (s t : S) → read std q n s ≡ some (out, t) → To s t
  unfolding read
  Grows-read q n out s t = from (Pipe.read (s.heap q).pipe n)
    where
      from :
          (r : Option ((Bytes × Option Error) × Buffer))
          → received std q r s ≡ some (out, t)
          → To s t
      from none e = cc
      from (some ((bytes, x), pipe)) e =
          let s1 : S = modify std q (λ st. record st { pipe = pipe }) s in
          let u : S = (update_window std q (length bytes % 2 ^ 32) s1).1 in
          let same : u ≡ t = ap (λ r. r.1) (some-injective ((bytes, x), u) (out, t) e) in
          subst (To s) same (
            grow std p s s1 u (Grows-modify std p q (λ st. record st { pipe = pipe }) s (λ st e. e))
              (Grows-update_window q _ s1))

  pub Grows-run_task : (t : Task) (s : S) → To s (run_task std t s)
  unfolding run_write
  Grows-run_task (writes f) s = after_write f s
  Grows-run_task (handles q) s = Grows-same std p s

  -- A stream that is there and can be written is so after a step of any goroutine.
  pub Grows-Step : {s t : S} → Step std s t → To s t
  unfolding read_round
  Grows-Step {s} (reads_frame h) = Grows-take_frame std p _ s
  Grows-Step {s} (opens h flag few) = Grows-open_stream h flag s
  Grows-Step {s} (takes_header q h t e) = Grows-header q h s t e
  Grows-Step {s} (replies q h flag) = Grows-reply q h flag s
  Grows-Step {s} (reads q n out t e) = Grows-read q n out s t e
  Grows-Step {s} (sends q bytes n x t e) =
      subst (Leaves std (To s)) e
        (write_data-Leaves std (To s) q (growing q s) bytes s (Grows-same std p s))
  Grows-Step {s} (wakes q bytes n x t e) =
      subst (Leaves std (To s)) e
        (send_granted-Leaves std (To s) q (growing q s) bytes _ s (Grows-same std p s))
  Grows-Step {s} (resets q status) = Grows-reset_stream q status s
  Grows-Step {s} (closes q) = Grows-close q s
  Grows-Step {s} (runs t before after e) =
      let s' : S = record s { tasks = before ++ after } in
      let v : To s' (run_task std t s') = Grows-run_task t s' in record { kept = v.kept }

  pub Grows-write :
      (fuel q : ℕ) (bytes : Bytes) (s : S) → LeavesIf std (To s) (write std fuel q bytes s)
  Grows-write fuel q bytes s =
      write-LeavesIf std (To s) q (growing q s) fuel bytes s (Grows-same std p s)
