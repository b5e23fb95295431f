-- ===== src/Session/Leaves.antt =====
-- What a call of `writeData` or `Write` of spdyframing/session.go keeps, by what its parts keep.
use spdy.Base.{
  ℕ, zero, suc, Bytes, Bool, true, false, not, Option, none, some, [], ◌∷◌, if◌then◌else◌, drop,
}
use spdy.Base.Int.{pos, negsuc}
use spdy.Stdlib.{Stdlib}
use spdy.Wire.{Result, ok, err}
use spdy.Semaphore.{Semaphore, Outcome, waits, returns}
use spdy.Framer.{Framer}
use spdy.Session.{Session, modify, write_frame, internal_error}
use spdy.Session.Calls.{
  Sent, blocked, panics, sent, reset_stream, count_sent, send_granted, write_data, map_further,
  go_on, write,
}

module _ (std : Stdlib) where
  -- The session that is left has `P`.
  abbrev pub Leaves : (Session std → Type 0) → Sent (Session std) → Type 0
  Leaves P (blocked n s) = P s
  Leaves P panics = Unit {0}
  Leaves P (sent n e s) = P s

  abbrev pub LeavesIf : (Session std → Type 0) → Option (Sent (Session std)) → Type 0
  LeavesIf P none = Unit {0}
  LeavesIf P (some r) = Leaves P r

  -- What is kept by a change of the window, of the framer, and by a reset.
  pub record Keeps (P : Session std → Type 0) (p : ℕ) : Type 0 where
    pub windows :
        (wnd : Semaphore) (s : Session std)
        → P s
        → P (modify std p (λ st. record st { wnd = wnd }) s)
    pub framers : (fr : Framer std) (s : Session std) → P s → P (record s { fr = fr })
    pub resets : (s : Session std) → P s → P (reset_stream std p internal_error s).1

  module _ (P : Session std → Type 0) (p : ℕ) (k : Keeps P p) where
    either-Leaves :
        (b : Bool) (x y : Sent (Session std))
        → Leaves P x
        → Leaves P y
        → Leaves P (if b then x else y)
    either-Leaves true x y v w = v
    either-Leaves false x y v w = w

    count_sent-Leaves :
        (n : ℕ) (r : Result (Unit {0}) × Session std) → P r.1 → Leaves P (count_sent std n r)
    count_sent-Leaves n (ok u, s) v = v
    count_sent-Leaves n (err e, s) v = v

    pub send_granted-Leaves :
        (bytes : Bytes) (o : Outcome) (s : Session std)
        → P s
        → Leaves P (send_granted std p bytes o s)
    unfolding write_frame
    send_granted-Leaves bytes waits s v = v
    send_granted-Leaves bytes (returns n (some e) wnd) s v = k.resets _ (k.windows wnd s v)
    send_granted-Leaves bytes (returns (negsuc n) none wnd) s v = tt
    send_granted-Leaves bytes (returns (pos n) none wnd) s v =
        count_sent-Leaves n _ (k.framers _ _ (k.windows wnd s v))

    pub write_data-Leaves :
        (bytes : Bytes) (s : Session std) → P s → Leaves P (write_data std p bytes s)
    unfolding write_data
    write_data-Leaves bytes s v =
        either-Leaves (s.heap p).wclosed _ _ v
          (either-Leaves (not (s.heap p).wready) _ _ v (send_granted-Leaves bytes _ s v))

    map_further-LeavesIf :
        (c : ℕ) (r : Option (Sent (Session std))) → LeavesIf P r → LeavesIf P (map_further std c r)
    map_further-LeavesIf c none v = tt
    map_further-LeavesIf c (some (blocked n s)) v = v
    map_further-LeavesIf c (some panics) v = tt
    map_further-LeavesIf c (some (sent n e s)) v = v

    go_on-LeavesIf :
        (rest : ℕ → Session std → Option (Sent (Session std))) (x : Sent (Session std))
        → ((n : ℕ) (s : Session std) → P s → LeavesIf P (rest n s))
        → Leaves P x
        → LeavesIf P (go_on std rest x)
    go_on-LeavesIf rest (blocked n s) h v = v
    go_on-LeavesIf rest panics h v = tt
    go_on-LeavesIf rest (sent n (some e) s) h v = v
    go_on-LeavesIf rest (sent n none s) h v = map_further-LeavesIf n (rest n s) (h n s v)

    pub write-LeavesIf :
        (fuel : ℕ) (bytes : Bytes) (s : Session std) → P s → LeavesIf P (write std fuel p bytes s)
    unfolding write
    write-LeavesIf zero bytes s v = tt
    write-LeavesIf (suc fuel) [] s v = v
    write-LeavesIf (suc fuel) (b ∷ bytes) s v =
        go_on-LeavesIf _ (write_data std p (b ∷ bytes) s)
          (λ n t. write-LeavesIf fuel (drop n (b ∷ bytes)) t) (write_data-Leaves (b ∷ bytes) s v)
