-- ===== src/Session/Waits.antt =====
-- Wait of spdyframing/session.go under any interleaving.
use spdy.Base.{
  some-injective, ◌≡◌, ◌≢◌, ◌⊎◌, inl, inr, refl, sym, ap, ◌∙◌, subst, Bool, true, false, Option,
  none, some, if◌then◌else◌,
}
use spdy.Errors.{Error}
use spdy.Stdlib.{Stdlib}
use spdy.Wire.{Result, ok, err}
use spdy.Frame.{Frame}
use spdy.Framer.{Framer}
use spdy.Session.{Session, Task, writes, handles, start, write_frame}
use spdy.Session.Receive.{read_round, take_frame}
use spdy.Session.Calls.{run_write, wait}
use spdy.Session.Leaves.{Leaves}
use spdy.Session.Fate.{
  fate, fate-handle_read, fate-tear_down, fate-open_stream, fate-header, fate-reply, fate-read,
  fate-reset_stream, fate-close, fate-write_data, fate-ask_window,
}
use spdy.Session.Reach.{
  Step, reads_frame, opens, takes_header, replies, reads, sends, wakes, resets, closes, runs,
  run_task, Reach, here, next,
}

module _ (std : Stdlib) where
  abbrev S : Type 0
  S = Session std

  -- A session that is over takes no more streams, and has its error.
  abbrev IsSettled : Bool × Bool × Option Error → Type 0
  IsSettled (c, d, e) = d ≡ true → (c ≡ true) × (e ≢ none)

  fate-run_task : (t : Task) (s : S) → fate std (run_task std t s) ≡ fate std s
  unfolding run_write write_frame
  fate-run_task (writes f) s = refl
  fate-run_task (handles p) s = refl

  -- What a step leaves of it: the same; or the reading goroutine ends, which it does once.
  abbrev Left : S → S → Type 0
  Left s t =
      (fate std t ≡ fate std s)
      ⊎ ((s.done ≡ false) × (x : Error) × (fate std t ≡ (true, true, some x)))

  taken-Left :
      (r : Result Frame × Framer std) (s : S) → s.done ≡ false → Left s (take_frame std r s).1
  taken-Left (ok f, fr) s h = inl (fate-handle_read std f (record s { fr = fr }))
  taken-Left (err e, fr) s h = inr (h, e, fate-tear_down std e (record s { fr = fr }))

  step-Left : {s t : S} → Step std s t → Left s t
  unfolding read_round
  step-Left {s} (reads_frame h) = taken-Left _ s h
  step-Left {s} (opens h flag few) = inl (fate-open_stream std h flag s)
  step-Left {s} (takes_header p h t e) = inl (fate-header std p h s t e)
  step-Left {s} (replies p h flag) = inl (fate-reply std p h flag s)
  step-Left {s} (reads p n out t e) = inl (fate-read std p n out s t e)
  step-Left {s} (sends p bytes n x t e) =
      inl (subst (Leaves std (λ u. fate std u ≡ fate std s)) e (fate-write_data std p bytes s))
  step-Left {s} (wakes p bytes n x t e) =
      inl (subst (Leaves std (λ u. fate std u ≡ fate std s)) e (fate-ask_window std p bytes s))
  step-Left {s} (resets p status) = inl (fate-reset_stream std p status s)
  step-Left {s} (closes p) = inl (fate-close std p s)
  step-Left {s} (runs t before after e) = inl (fate-run_task t _)

  settles : (s t : S) → Left s t → IsSettled (fate std s) → IsSettled (fate std t)
  settles s t (inl same) v = subst IsSettled (sym same) v
  settles s t (inr (h, x, over)) v = subst IsSettled (sym over) (λ d. (refl, λ none_of. cc))

  Reach-IsSettled :
      (fr : Framer std) (server : Bool) {t : S}
      → Reach std (start std fr server) t
      → IsSettled (fate std t)
  unfolding start
  Reach-IsSettled fr server here = λ d. cc
  Reach-IsSettled fr server (next {t = u} {u = w} r st) =
      settles u w (step-Left st) (Reach-IsSettled fr server r)

  -- A session that is over stays as it is.
  stays_over : {s t : S} → Reach std s t → s.done ≡ true → fate std t ≡ fate std s
  stays_over here d = refl
  stays_over {s} {t} (next {t = u} r st) d = from (stays_over r d) (step-Left st)
    where
      from : fate std u ≡ fate std s → Left u t → fate std t ≡ fate std s
      from same (inl e) = e ∙ same
      from same (inr (h, x, over)) =
          absurd (let bad : true ≡ false = sym d ∙ sym (ap (λ f. f.1) same) ∙ h in cc)

  waited : (e : Option Error) (s : S) → wait std s ≡ some e → (s.done ≡ true) × (s.err ≡ e)
  unfolding wait
  waited e s h = from s.done h
    where
      from : (b : Bool) → (if b then some s.err else none) ≡ some e → (b ≡ true) × (s.err ≡ e)
      from true k = (refl, some-injective _ _ k)
      from false k = cc

  -- Once Wait returns, on a session under any interleaving from its start, it returns an error; and
  -- under any interleaving from there on it returns the same one, and the session takes no more streams.
  pub Reach-wait :
      (fr : Framer std) (server : Bool) (e : Option Error) {s t : S}
      → Reach std (start std fr server) s
      → wait std s ≡ some e
      → Reach std s t
      → (e ≢ none) × (wait std t ≡ some e) × (t.closing ≡ true)
  unfolding wait
  Reach-wait fr server e {s} {t} r w later =
      let (over, is) = waited e s w in
      let (shut, failed) = Reach-IsSettled fr server r over in
      let same : fate std t ≡ fate std s = stays_over later over in
      let done : t.done ≡ true = ap (λ f. f.1) same ∙ over in
      let err_is : t.err ≡ e = ap (λ f. f.2) same ∙ is in
      (λ h. failed (is ∙ h), rw (done, err_is) refl, ap (λ f. f.0) same ∙ shut)
