-- ===== src/Http/Serves.antt =====
-- Every request that server.go takes is brought to an end: `serveStream`, whatever the handler does.
use spdy.Base.{
  ℕ, ◌<◌, some-injective, Bytes, Bool, true, false, Option, none, some, [], ◌≡◌, refl, sym, ap,
  subst, ◌∙◌, if◌then◌else◌, Bool-cases, inl, inr,
}
use spdy.Errors.{Error, closed}
use spdy.Stdlib.{Stdlib}
use spdy.Wire.{Result, ok, err}
use spdy.Header.{Header}
use spdy.Session.{Session, write_frame, wclose, control_flag_fin, internal_error, data_flag_fin}
use spdy.Session.Calls
use spdy.Session.Calls.{
  Sent, blocked, panics, sent, reset_stream, reply, reply_frame, send_granted, count_sent,
  content_frame, go_on, further,
}
use spdy.Session.Reach.{Step}
use spdy.Session.Writable.{Grows, grow}
use spdy.Session.Others.{Grows-Step, Grows-write, Grows-reply, Grows-reset_stream, Grows-header}
use spdy.Session.Leaves.{LeavesIf}
use spdy.Session.Resets.{heap-wclose}
use spdy.Http.{Net, Problem, Parsed, parsed, failed}
use spdy.Http.Request.{Request, read_request}
use spdy.Http.Server.{
  Response, take_request, replied, write_header_fin, write_header, written, write, finish_request,
  refuse, from_header, new_response, fields_of, refused_stream, framing_header,
}
use spdy.Http.Ready.{IsReady, IsShut, replying, reply-IsReady, reset_stream-IsShut, replied-IsReady}

module _ (std : Stdlib) (net : Net) where
  abbrev S : Type 0
  S = Session std

  -- A response stands for a stream that is there, and which can be written if it has a header.
  abbrev IsBegun : Response × S → Type 0
  IsBegun (w, s) = (w.stream < s.count) × (w.wrote_header ≡ true → IsReady std w.stream s)

  Grows-replied :
      (p : ℕ) (s : S) (r : Result (Unit {0}) × S)
      → Grows std p s r.1
      → Grows std p s (replied std net p r)
  Grows-replied p s (ok u, t) v = v
  Grows-replied p s (err e, t) v = grow std p s t _ v (Grows-reset_stream std p p internal_error t)

  write_header_fin-IsReady :
      (code : ℕ) (fin : Bool) (w : Response) (s : S)
      → IsBegun (w, s)
      → let (w', s') = write_header_fin std net code fin (w, s) in
        (w'.stream ≡ w.stream)
        × (w'.wrote_header ≡ true)
        × (w.stream < s'.count)
        × IsReady std w.stream s'
  unfolding write_header_fin
  write_header_fin-IsReady code fin w s (there, v) = elim (Bool-cases w.wrote_header) [
    | inl e ↦ rw e (refl, refl, there, v e)
    | inr e ↦
        let r = reply std w.stream (header_of w) (flag_of fin) s in
        rw e (
          refl,
          refl,
          ((Grows-replied w.stream s r
                (Grows-reply std w.stream w.stream (header_of w) (flag_of fin) s)).kept
              there).0,
          replied-IsReady std net w.stream r
              (reply-IsReady std w.stream (header_of w) (flag_of fin) s),
        )
  ]
    where
      header_of : Response → Header
      header_of w = framing_header net code w.header

      flag_of : Bool → ℕ
      flag_of fin = if fin then control_flag_fin else 0

  -- What happens until a handler returns: it changes the fields of its response, and calls WriteHeader
  -- and Write; and any goroutine, its own as well, does something else to the session, such as to read
  -- from a stream, the body of the request among them. A Write that sleeps before it returns is
  -- WriteHeader with 200, if the response has no header, and then calls of writeData, each a step.
  pub data Handles : Response × S → Response × S → Type 0 where
    done : {x : Response × S} → Handles x x
    changes :
        {w : Response} {s : S} {y : Response × S} (header : Header)
        → Handles (record w { header = header }, s) y
        → Handles (w, s) y
    writes_header :
        {x y : Response × S} (code : ℕ) → Handles (write_header std net code x) y → Handles x y
    writes :
        {x y : Response × S} (fuel : ℕ) (bytes : Bytes) (w : Response) (n : ℕ) (e : Option Error)
        (s : S)
        → write std net fuel bytes x ≡ some (w, sent n e s)
        → Handles (w, s) y
        → Handles x y
    others :
        {w : Response} {s t : S} {y : Response × S}
        → Step std s t
        → Handles (w, t) y
        → Handles (w, s) y

  -- The response `x` has a header, which stands for the same stream.
  abbrev IsBegunAs : ℕ → Response × S → Type 0
  IsBegunAs p x = (x.0.stream ≡ p) × (p < x.1.count) × IsReady std p x.1

  either-IsBegunAs :
      (b : Bool) (p : ℕ) (x y : Response × S)
      → (b ≡ true → IsBegunAs p x)
      → IsBegunAs p y
      → IsBegunAs p (if b then x else y)
  either-IsBegunAs true p x y v w = v refl
  either-IsBegunAs false p x y v w = w

  begun_by :
      (x : Response × S)
      → IsBegun x
      → IsBegunAs x.0.stream (if x.0.wrote_header then x else write_header std net 200 x)
  unfolding write_header
  begun_by x v =
      let (same, _, there, ready) = write_header_fin-IsReady 200 false x.0 x.1 v in
      either-IsBegunAs x.0.wrote_header x.0.stream x _ (λ e. (refl, v.0, v.1 e))
        (same, there, ready)

  returned :
      (P : S → Type 0) (w : Response) (r : Option (Sent S)) (w' : Response) (n : ℕ)
      (e : Option Error) (s : S)
      → written std net w r ≡ some (w', sent n e s)
      → LeavesIf std P r
      → (w ≡ w') × P s
  returned P w none w' n e s h v = cc
  returned P w (some (blocked m t)) w' n e s h v = cc
  returned P w (some panics) w' n e s h v = cc
  returned P w (some (sent m x t)) w' n e s h v = let same : t ≡ s = cc in (cc, subst P same v)

  write-IsBegun :
      (fuel : ℕ) (bytes : Bytes) (x : Response × S) (w : Response) (n : ℕ) (e : Option Error)
      (s : S)
      → write std net fuel bytes x ≡ some (w, sent n e s)
      → IsBegun x
      → (w.stream ≡ x.0.stream) × IsBegun (w, s)
  unfolding write
  write-IsBegun fuel bytes x w n e s h v =
      from (if x.0.wrote_header then x else write_header std net 200 x) (begun_by x v) h
    where
      from :
          (y : Response × S)
          → IsBegunAs x.0.stream y
          → written std net y.0 (Calls.write std fuel y.0.stream bytes y.1) ≡ some (w, sent n e s)
          → (w.stream ≡ x.0.stream) × IsBegun (w, s)
      from (u, t) (same, there, ready) h =
          let (is, left) =
            returned (Grows std u.stream t) u (Calls.write std fuel u.stream bytes t) w n e s h
              (Grows-write std u.stream fuel u.stream bytes t) in
          let (there', still) = left.kept (subst (λ p. p < t.count) (sym same) there) in
          (
            ap (λ r. r.stream) (sym is) ∙ same,
            subst (λ r. IsBegun (r, s)) is
                (there', λ _. still (subst (λ p. IsReady std p t) (sym same) ready)),
          )

  Handles-IsBegun :
      {x y : Response × S} → Handles x y → IsBegun x → (y.0.stream ≡ x.0.stream) × IsBegun y
  unfolding write_header
  Handles-IsBegun done v = (refl, v)
  Handles-IsBegun (changes header h) v = Handles-IsBegun h v
  Handles-IsBegun {x} (writes_header code h) v =
      let (same, _, there, ready) = write_header_fin-IsReady code false x.0 x.1 v in
      let s = (write_header std net code x).1 in
      let (rest, begun) = Handles-IsBegun h (
        subst (λ p. p < s.count) (sym same) there,
        λ e. subst (λ p. IsReady std p s) (sym same) ready,
      ) in
      (rest ∙ same, begun)
  Handles-IsBegun {x} (writes fuel bytes w n e s k h) v =
      let (same, ready) = write-IsBegun fuel bytes x w n e s k v in
      let (rest, begun) = Handles-IsBegun h ready in (rest ∙ same, begun)
  Handles-IsBegun (others {w = w} {s = s} {t = t} step h) v =
      let (there, still) = (Grows-Step std w.stream step).kept v.0 in
      Handles-IsBegun h (there, λ e. still (v.1 e))

  close-IsShut : (p : ℕ) (s : S) → IsReady std p s → IsShut std p (Calls.close std p s).1
  unfolding Calls.close write_frame
  close-IsShut p s v = elim (Bool-cases (s.heap p).wclosed) [
    | inl e ↦ rw e e
    | inr e ↦ rw (e, v) (ap (λ st. st.wclosed) (heap-wclose std p closed (closing p s)))
  ]
    where
      closing : ℕ → S → S
      closing p s = (write_frame std (content_frame (s.heap p).id [] data_flag_fin) s).1

  replied-IsShut :
      (p : ℕ) (r : Result (Unit {0}) × S) → IsShut std p r.1 → IsShut std p (replied std net p r)
  replied-IsShut p (ok u, s) v = v
  replied-IsShut p (err e, s) v = reset_stream-IsShut std p internal_error s

  -- A reply with the flag FIN, or the reset that follows if it cannot be sent.
  last_reply-IsShut :
      (p : ℕ) (h : Header) (s : S)
      → IsShut std p (replied std net p (reply std p h control_flag_fin s))
  unfolding reply write_frame
  last_reply-IsShut p h s = elim (Bool-cases (s.heap p).wready) [
    | inl e ↦ rw e (reset_stream-IsShut std p internal_error s)
    | inr e ↦ rw e (
        replied-IsShut p (_, wclose std p closed (replying std p h control_flag_fin s))
          (ap (λ st. st.wclosed) (heap-wclose std p closed (replying std p h control_flag_fin s))))
  ]

  finish_request-IsShut :
      (x : Response × S) → IsBegun x → IsShut std x.0.stream (finish_request std net x)
  unfolding finish_request write_header_fin
  finish_request-IsShut (w, s) v = elim (Bool-cases w.wrote_header) [
    | inl e ↦ rw e (close-IsShut w.stream s (v.1 e))
    | inr e ↦ rw e (last_reply-IsShut w.stream (framing_header net 200 w.header) s)
  ]

  -- `serveStream` of the stream at `p`: any goroutine may run while the handler does.
  pub data Serves (p : ℕ) (s : S) : S → Type 0 where
    refuses :
        (e : Problem) (t : S)
        → take_request std net p s ≡ some (failed e, t)
        → Serves p s (refuse std net p t)
    serves :
        (w : Response) (t : S) (y : Response × S)
        → take_request std net p s ≡ some (parsed w, t)
        → Handles (w, t) y
        → Serves p s (finish_request std net y)

  read_by :
      (p : ℕ) (r : Option (Option Header × S)) (w : Response) (t : S)
      → from_header std net p r ≡ some (parsed w, t)
      → (w.stream ≡ p) × (w.wrote_header ≡ false)
  read_by p none w t h = cc
  read_by p (some (h, u)) w t e = from (read_request net (fields_of h) none (some p)) e
    where
      from :
          (r : Parsed Request)
          → ◌≡◌ {A = Option (Parsed Response × S)} (some (new_response p r, u)) (some (parsed w, t))
          → (w.stream ≡ p) × (w.wrote_header ≡ false)
      from (failed x) e = cc
      from (parsed req) e = (cc, cc)

  read_keeps :
      (p : ℕ) (r : Option (Option Header × S)) (s : S) (w : Response) (t : S)
      → ((h : Option Header) (u : S) → r ≡ some (h, u) → Grows std p s u)
      → from_header std net p r ≡ some (parsed w, t)
      → Grows std p s t
  read_keeps p none s w t v e = cc
  read_keeps p (some (h, u)) s w t v e =
      let same : u ≡ t = ap (λ x. x.1) (some-injective (_, u) (_, t) e) in
      subst (Grows std p s) same (v h u refl)

  -- When `serveStream` returns, of a stream that is there, the stream is closed for writing: whatever
  -- request came, whatever its handler did to the response, whatever it and the other goroutines did to
  -- the session until it returned, and whether or not the connection took it.
  pub Serves-ends : (p : ℕ) (s t : S) → p < s.count → Serves p s t → (t.heap p).wclosed ≡ true
  unfolding refuse take_request
  Serves-ends p s t there (refuses e u h) = reset_stream-IsShut std p refused_stream _
  Serves-ends p s t there (serves w u y h run) =
      let (same, fresh) = read_by p (Calls.header std p s) w u h in
      let (there', _) =
        (read_keeps p (Calls.header std p s) s w u (λ g v e. Grows-header std p p g s v e) h).kept
          there in
      let (still, begun) = Handles-IsBegun run (
        subst (λ q. q < u.count) (sym same) there',
        λ e. absurd (let bad : true ≡ false = sym e ∙ fresh in cc),
      ) in
      subst (λ q. IsShut std q (finish_request std net y)) (still ∙ same)
        (finish_request-IsShut y begun)
