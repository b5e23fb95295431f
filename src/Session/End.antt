-- ===== src/Session/End.antt =====
-- The end of the reading goroutine of spdyframing/session.go: `abandon` goes through the streams that
-- the map held, `tear_down` is the whole of it.
use spdy.Base.{
  ℕ, ◌≡◌, ◌≢◌, refl, Bool, true, false, none, some, [], ◌∷◌, ◌==◌, if◌then◌else◌, arith, Bool-cases,
  inl, inr,
}
use spdy.Errors.{Error, closed}
use spdy.Stdlib.{Stdlib}
use spdy.Buffer
use spdy.Buffer.{Buffer}
use spdy.Pipe
use spdy.Semaphore
use spdy.Semaphore.{Semaphore}
use spdy.Session.Table.{Streams, lookup}
use spdy.Session.{
  Session, Stream, Reply, unset, awaited, given, put, modify, maybe_remove, rclose, shut_read,
}
use spdy.Session.Receive.{hang_up, abandon, tear_down}
use spdy.Session.Inv.{IsValid}
use spdy.Session.Steps.{modified, rclose-IsValid}

pipe-closed : (b : Buffer) (e : Error) → (Pipe.close b e).closed ≡ true
unfolding Pipe.close Buffer.close
pipe-closed b e = ground arith

pub wnd-closed : (w : Semaphore) (e : Error) → (Semaphore.close w e).closed ≡ true
unfolding Semaphore.close
wnd-closed w e = ground arith

-- What the end of the reading goroutine makes of a stream.
pub record IsEnded (st : Stream) : Type 0 where
  pub no_reads : st.rclosed ≡ true
  pub no_data : st.pipe.closed ≡ true
  pub no_window : st.wnd.closed ≡ true
  pub no_reply : st.reply ≢ awaited

not_awaited :
    (r : Reply) → elim r [ unset ↦ unset | awaited ↦ given none | given h ↦ given h ] ≢ awaited
not_awaited unset e = cc
not_awaited awaited e = cc
not_awaited (given h) e = cc

hang_up-IsEnded : (st : Stream) → IsEnded (hang_up (shut_read closed st))
hang_up-IsEnded st = record {
  no_reads = refl;
  no_data = pipe-closed st.pipe closed;
  no_window = wnd-closed st.wnd closed;
  no_reply = not_awaited st.reply;
}

module _ (std : Stdlib) where
  abbrev S : Type 0
  S = Session std

  pub heap-maybe_remove : (p : ℕ) (s : S) → (maybe_remove std p s).heap ≡ s.heap
  unfolding maybe_remove
  heap-maybe_remove p s = ground arith

  -- One round of the loop.
  abbrev ended_at : ℕ → S → S
  ended_at p s = modify std p hang_up (rclose std p closed s)

  heap-ended_at :
      (p q : ℕ) (s : S)
      → (ended_at p s).heap q ≡ (if p == q then hang_up (shut_read closed (s.heap p)) else s.heap q)
  unfolding rclose put
  heap-ended_at p q s = rw (heap-maybe_remove p (modify std p (shut_read closed) s)) (ground arith)

  ended_at-IsEnded : (p q : ℕ) (s : S) → IsEnded (s.heap q) → IsEnded ((ended_at p s).heap q)
  ended_at-IsEnded p q s v = rw (heap-ended_at p q s) (from (p == q) refl)
    where
      from :
          (b : Bool)
          → (p == q) ≡ b
          → IsEnded (if b then hang_up (shut_read closed (s.heap p)) else s.heap q)
      from true e = hang_up-IsEnded (s.heap p)
      from false e = v

  abandon_keeps :
      (a : Streams) (q : ℕ) (s : S) → IsEnded (s.heap q) → IsEnded ((abandon std a s).heap q)
  unfolding abandon
  abandon_keeps [] q s v = v
  abandon_keeps ((id, p) ∷ a) q s v = abandon_keeps a q (ended_at p s) (ended_at-IsEnded p q s v)

  abandon-IsEnded :
      (a : Streams) (id q : ℕ) (s : S) → lookup id a ≡ some q → IsEnded ((abandon std a s).heap q)
  unfolding abandon lookup
  abandon-IsEnded [] id q s e = cc
  abandon-IsEnded ((k, p) ∷ a) id q s e = elim (Bool-cases (k == id)) [
    | inl hit ↦
        let same : p ≡ q = ground (arith, hit) in
        abandon_keeps a q (ended_at p s) (
          rw (heap-ended_at p q s)
            (let test : (p == q) ≡ true = ground arith in rw test (hang_up-IsEnded (s.heap p))))
    | inr miss ↦ abandon-IsEnded a id q (ended_at p s) (ground (arith, miss))
  ]

  abandon-closing : (a : Streams) (s : S) → (abandon std a s).closing ≡ s.closing
  unfolding abandon rclose maybe_remove
  abandon-closing [] s = refl
  abandon-closing ((id, p) ∷ a) s = ground (arith, abandon-closing a (ended_at p s))

  -- At the end of the reading goroutine `closing` and `done` are set, and each stream that was in the map
  -- is closed for reading, its pipe and its window too, and its reply is not awaited.
  pub tear_down-IsEnded :
      (s : S) (e : Error) (id p : ℕ)
      → lookup id s.rstreams ≡ some p
      → IsEnded ((tear_down std e s).heap p)
        × ((tear_down std e s).closing ≡ true)
        × ((tear_down std e s).done ≡ true)
  unfolding tear_down
  tear_down-IsEnded s e id p h =
      let s' : S = record s { err = some e; closing = true } in
      (abandon-IsEnded s.rstreams id p s' h, abandon-closing s.rstreams s', refl)

  abandon-IsValid : (a : Streams) (s : S) → IsValid std s → IsValid std (abandon std a s)
  unfolding abandon
  abandon-IsValid [] s v = v
  abandon-IsValid ((id, p) ∷ a) s v =
      abandon-IsValid a (ended_at p s)
        (modified std p hang_up (rclose std p closed s) refl refl (rclose-IsValid std p closed s v))

  pub tear_down-IsValid : (e : Error) (s : S) → IsValid std s → IsValid std (tear_down std e s)
  unfolding tear_down
  tear_down-IsValid e s v = abandon-IsValid s.rstreams (record s { err = some e; closing = true }) v

  pub tear_down-closing :
      (e : Error) (s : S) → ((tear_down std e s).closing ≡ true) × ((tear_down std e s).done ≡ true)
  unfolding tear_down
  tear_down-closing e s =
      (abandon-closing s.rstreams (record s { err = some e; closing = true }), refl)
