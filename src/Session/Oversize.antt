-- ===== src/Session/Oversize.antt =====
-- `writeData` in spdyframing/session.go, with more bytes than a DATA frame takes.
use spdy.Base.{
  ℕ, ◌-◌, ◌%◌, ◌^◌, ◌≤◌, ◌<◌, ◌≡◌, ◌≢◌, refl, sym, ap, subst, ◌∙◌, true, false, not, ◌||◌, ◌==◌,
  Bytes, none, some, length, arith, take, take_all, ltb, bit_and, inl, inr,
}
use spdy.Base.Int.{pos, int_laws, ◌≤ℤ◌, parts_of_eq, eq_of_parts}
use spdy.Errors.{framing, invalid_data_frame}
use spdy.Stdlib.{Stdlib}
use spdy.Wire.{err}
use spdy.Semaphore.{Semaphore, Outcome, returns}
use spdy.Semaphore.Bounds.{max_i32, IsWindow, Served, empty, refused, granted, dec_lem}
use spdy.Frame.{max_data_length}
use spdy.Framer.{Framer}
use spdy.Framer.Write
use spdy.Session.{Session, modify, write_frame}
use spdy.Session.Calls.{sent, content_frame, send_granted, write_data}
use spdy.Session.Inv.{put_self}

module _ (std : Stdlib) where
  abbrev S : Type 0
  S = Session std

  -- The frame is refused before anything is written.
  pub too_long :
      (id : ℕ) (bytes : Bytes) (f : Framer std)
      → id ≢ 0
      → 2 ^ 24 ≤ length bytes
      → Write.write_frame std (content_frame id bytes 0) f
        ≡ (err (framing invalid_data_frame id), f)
  unfolding Write.write_frame Write.write_data
  too_long id bytes f h k =
      let some_id : (id == 0) ≡ false = ground arith in
      let refused : (not (bit_and id 0x80000000 == 0) || ltb max_data_length (length bytes))
          ≡ true =
        ground arith in
      rw (some_id, refused) refl

  -- A grant of all that was asked for.
  grant_all :
      (w : Semaphore) (a n : ℕ) (o : Outcome)
      → w.n ≡ pos a
      → w.closed ≡ false
      → 0 < n
      → n ≤ a
      → Served w n o
      → (t : Semaphore) × (o ≡ returns (pos n) none t) × (t.n ≡ pos (a - n))
  grant_all w a n o e c lo le (empty z d) =
      absurd (let bad : pos a ≡ pos 0 = sym e ∙ z in omega (arith, parts_of_eq _ _ bad))
  grant_all w a n o e c lo le (refused d) = absurd (let bad : true ≡ false = sym d ∙ c in cc)
  grant_all w a n o e c lo le (granted m t lo' hi all sum v d) =
      let same : m ≡ n = elim all [ inl q ↦ q | inr q ↦ ground (arith, e) ] in
      (
        t,
        ap (λ i. returns (pos i) none t) same,
        eq_of_parts t.n (pos (a - n)) (omega (int_laws, same, parts_of_eq _ _ (sum ∙ e))),
      )

  -- What `writeData` does with the grant.
  refuse_granted :
      (p : ℕ) (bytes : Bytes) (wnd : Semaphore) (s : S)
      → (s.heap p).id ≢ 0
      → 2 ^ 24 ≤ length bytes
      → send_granted std p bytes (returns (pos (length bytes)) none wnd) s
        ≡ sent 0
            (some (framing invalid_data_frame (s.heap p).id))
            (modify std p (λ st. record st { wnd = wnd }) s)
  unfolding write_frame
  refuse_granted p bytes wnd s id big =
      let all : take (length bytes) bytes ≡ bytes = take_all (length bytes) bytes (omega arith) in
      rw (all, too_long (s.heap p).id bytes s.fr id big) refl

  -- `writeData` of 2²⁴ bytes or more, on an open stream whose window allows them all, fails and writes
  -- nothing, but the window is spent on them all the same.
  pub write_data_oversize :
      (p a : ℕ) (bytes : Bytes) (s : S)
      → (s.heap p).id ≢ 0
      → (s.heap p).wclosed ≡ false
      → (s.heap p).wready ≡ true
      → (s.heap p).wnd.closed ≡ false
      → (s.heap p).wnd.n ≡ pos a
      → a < 2 ^ 31
      → 2 ^ 24 ≤ length bytes
      → length bytes ≤ a
      → (t : S) × (write_data std p bytes s
          ≡ sent 0 (some (framing invalid_data_frame (s.heap p).id)) t)
        × (t.fr ≡ s.fr)
        × ((t.heap p).wnd.n ≡ pos (a - length bytes))
  unfolding write_data
  write_data_oversize p a bytes s id still ready open_wnd n hi big le =
      let window : IsWindow (s.heap p).wnd =
        subst (λ k. (pos 0 ≤ℤ k) × (k ≤ℤ max_i32)) (sym n) (omega (arith, int_laws)) in
      let served = dec_lem (s.heap p).wnd (length bytes) window (omega arith) (omega arith) in
      let (wnd, o, left) =
        grant_all (s.heap p).wnd a (length bytes) _ n open_wnd (omega arith) le served in
      let small : length bytes % 2 ^ 32 ≡ length bytes = omega arith in
      let fits : ltb (length bytes) (2 ^ 31) ≡ true = ground arith in
      let s1 = modify std p (λ st. record st { wnd = wnd }) s in
      let done : write_data std p bytes s
          ≡ sent 0 (some (framing invalid_data_frame (s.heap p).id)) s1 =
        rw (still, ready, small, fits) refl
        ∙ ap (λ out. send_granted std p bytes out s) o
        ∙ refuse_granted p bytes wnd s id big in
      (
        s1,
        done,
        refl,
        ap (λ st. st.wnd.n) (put_self s.heap p (record (s.heap p) { wnd = wnd })) ∙ left,
      )
