-- ===== src/Http/Trips.antt =====
-- What a RoundTrip of conn.go leaves behind when it fails, and that it does not outlast its session.
use spdy.Base.{
  some-injective, ℕ, ◌+◌, ◌<◌, ◌^◌, ◌≡◌, ◌≢◌, refl, sym, ap, subst, ◌∙◌, Bytes, Bool, true, false,
  Option, none, some, arith, if◌then◌else◌,
}
use spdy.Errors.{Error, not_readable, closing}
use spdy.Stdlib.{Stdlib}
use spdy.Wire.{Result, ok, err}
use spdy.Header.{Header}
use spdy.Session.{
  Session, Reply, unset, awaited, given, add, modify, get, rclose, wclose, maybe_remove, shut_write,
  write_frame, protocol_error, new_stream, has_flag, store, with_id, control_flag_unidirectional,
}
use spdy.Session.Table.{lookup}
use spdy.Session.Receive.{tear_down, close_write_if}
use spdy.Session.Calls
use spdy.Session.Calls.{open_stream, opened, finish_open, reset_stream}
use spdy.Session.Inv.{over, IsValid}
use spdy.Session.End.{tear_down-IsEnded}
use spdy.Session.CallSteps.{open_stream-IsValid, reset_stream-IsValid, header-IsValid}
use spdy.Session.Delivery.{heap-rclose}
use spdy.Session.Resets.{heap-wclose, heap-reset_stream}
use spdy.Http.{Net, Parsed, parsed, failed}
use spdy.Http.Answer.{Answer, read_response}
use spdy.Http.Framing.{Outgoing, request_framing_header}
use spdy.Http.Server.{fields_of}
use spdy.Http.Client.{
  Failure, Attempt, gave_up, begin_with, begin_round_trip, answered, with_reply, finish_round_trip,
  opened_for,
}

module _ (std : Stdlib) (net : Net) where
  abbrev S : Type 0
  S = Session std

  -- Each stream in the map was there before, or it is over and so in no map.
  abbrev Holds : ℕ → S → Type 0
  Holds n t = (id q : ℕ) → get std id t ≡ some q → q < n

  old_streams : (s : S) → IsValid std s → Holds s.count s
  unfolding get
  old_streams s v id q e = (v.held id q e).0

  -- A stream that is over, and the newest.
  newest_over :
      (n : ℕ) (t : S) → IsValid std t → t.count ≡ n + 1 → over (t.heap n) ≡ true → Holds n t
  unfolding get
  newest_over n t v c o id q e =
      let (below, same, still) = v.held id q e in
      let other : q ≢ n = λ same.
        let bad : true ≡ false = sym o ∙ ap (λ p. over (t.heap p)) (sym same) ∙ still in cc in
      ground (arith, below, other, c)

  count-rclose : (p : ℕ) (e : Error) (s : S) → (rclose std p e s).count ≡ s.count
  unfolding rclose maybe_remove
  count-rclose p e s = ground arith

  count-wclose : (p : ℕ) (e : Error) (s : S) → (wclose std p e s).count ≡ s.count
  unfolding wclose maybe_remove
  count-wclose p e s = ground arith

  count-close_write_if :
      (b : Bool) (p : ℕ) (e : Error) (s : S) → (close_write_if std b p e s).count ≡ s.count
  count-close_write_if true p e s = count-wclose p e s
  count-close_write_if false p e s = refl

  -- Both halves of the newest stream are closed, and there is one more than before.
  abbrev Fallen : ℕ → S → Type 0
  Fallen n t = (t.count ≡ n + 1) × (over (t.heap n) ≡ true)

  both-Fallen :
      (n : ℕ) (e : Error) (s : S) → s.count ≡ n + 1 → Fallen n (wclose std n e (rclose std n e s))
  both-Fallen n e s c = (
    count-wclose n e _ ∙ count-rclose n e s ∙ c,
    ap over (heap-wclose std n e _ ∙ ap (shut_write e) (heap-rclose std n e s)),
  )

  finish_open-Fallen :
      (n : ℕ) (r : Result (Unit {0}) × S) (e : Error) (t : S)
      → r.1.count ≡ n + 1
      → finish_open std n r ≡ (err e, t)
      → Fallen n t
  finish_open-Fallen n (ok u, s) e t c h = cc
  finish_open-Fallen n (err x, s) e t c h = subst (Fallen n) (ap (λ r. r.1) h) (both-Fallen n x s c)

  -- What `Open` does after `add`.
  opened-Fallen :
      (h : Header) (flag n : ℕ) (s : S) (e : Error) (t : S)
      → s.count ≡ n + 1
      → opened std h flag (ok n, s) ≡ (err e, t)
      → Fallen n t
  unfolding write_frame
  opened-Fallen h flag n s e t c o =
      finish_open-Fallen n _ e t
        (count-close_write_if _ n _ _ ∙ half (has_flag flag control_flag_unidirectional) ∙ c) o
    where
      half :
          (b : Bool)
          → (if b
              then rclose std n not_readable s
              else modify std n (λ st. record st { reply = awaited }) s).count
            ≡ s.count
      half true = count-rclose n not_readable s
      half false = refl

  open_stream-Holds :
      (h : Header) (flag : ℕ) (s t : S) (e : Error)
      → s.next_syn_id + 2 < 2 ^ 32
      → IsValid std s
      → open_stream std h flag s ≡ (err e, t)
      → Holds s.count t
  unfolding open_stream add new_stream
  open_stream-Holds h flag s t e few v o =
      from s.closing o
        (subst (IsValid std) (ap (λ r. r.1) o) (open_stream-IsValid std h flag s few v))
    where
      added : ℕ × S
      added = store std (with_id std (record (new_stream std s) { wready = true }) s)

      from :
          (b : Bool)
          → opened std h flag (if b then (err closing, s) else (ok added.0, added.1)) ≡ (err e, t)
          → IsValid std t
          → Holds s.count t
      from true o w = subst (Holds s.count) (ap (λ r. r.1) o) (old_streams s v)
      from false o w =
          let (c, fallen) = opened-Fallen h flag s.count added.1 e t refl o in
          newest_over s.count t w c fallen

  -- A RoundTrip that fails before it waits for its reply leaves no stream of its own in the map of a
  -- valid session whose ids are not used up: each stream there was there before.
  pub begin_round_trip-get :
      (r : Outgoing) (s t : S) (x : Failure) (id q : ℕ)
      → s.next_syn_id + 2 < 2 ^ 32
      → IsValid std s
      → begin_round_trip std net r s ≡ (gave_up x, t)
      → get std id t ≡ some q
      → q < s.count
  unfolding begin_round_trip
  begin_round_trip-get r s t x id q few v o held = from (request_framing_header r) o id q held
    where
      with_stream :
          (h : Header) (flag : ℕ) (y : Result ℕ × S)
          → open_stream std h flag s ≡ y
          → opened_for std net y ≡ (gave_up x, t)
          → Holds s.count t
      with_stream h flag (ok p, u) e o = cc
      with_stream h flag (err d, u) e o =
          subst (Holds s.count) (ap (λ r. r.1) o) (open_stream-Holds h flag s u d few v e)

      from : (y : Parsed (Header × ℕ)) → begin_with std net y s ≡ (gave_up x, t) → Holds s.count t
      from (failed e) o = subst (Holds s.count) (ap (λ r. r.1) o) (old_streams s v)
      from (parsed (h, flag)) o = with_stream h flag _ refl o

  -- A RoundTrip of the stream at `p` of a valid session that fails on the reply leaves the stream under
  -- no id in the map.
  pub finish_round_trip_drops :
      (p id : ℕ) (method : Bytes) (s t : S) (x : Failure)
      → IsValid std s
      → finish_round_trip std net p method s ≡ some (gave_up x, t)
      → get std id t ≢ some p
  unfolding finish_round_trip get
  finish_round_trip_drops p id method s t x v = waited (Calls.header std p s) refl
    where
      given_up :
          (y : Parsed Answer) (u : S)
          → IsValid std u
          → answered std net p y u ≡ (gave_up x, t)
          → lookup id t.rstreams ≢ some p
      given_up (parsed a) u w o found = cc
      given_up (failed e) u w o found =
          let same : (reset_stream std p protocol_error u).1 ≡ t = ap (λ r. r.1) o in
          let finished : over (t.heap p) ≡ true =
            ap (λ r. over (r.heap p)) (sym same)
            ∙ ap over (heap-reset_stream std p protocol_error u) in
          let w' : IsValid std t =
            subst (IsValid std) same (reset_stream-IsValid std p protocol_error u w) in
          let bad : true ≡ false = sym finished ∙ (w'.held id p found).2 in cc

      waited :
          (r : Option (Option Header × S))
          → Calls.header std p s ≡ r
          → with_reply std net p method r ≡ some (gave_up x, t)
          → lookup id t.rstreams ≢ some p
      waited none e o = cc
      waited (some (h, u)) e o =
          given_up (read_response net (fields_of h) none (some p) method) u
            (header-IsValid std p s u h e v) (some-injective _ _ o)

  -- A RoundTrip that waits for its reply when the session ends, its stream in the map, returns.
  pub finish_round_trip-tear_down :
      (p id : ℕ) (method : Bytes) (s : S) (e : Error)
      → lookup id s.rstreams ≡ some p
      → (r : Attempt Answer × S) × (finish_round_trip std net p method (tear_down std e s) ≡ some r)
  unfolding finish_round_trip Calls.header
  finish_round_trip-tear_down p id method s e found =
      from (t.heap p).reply (tear_down-IsEnded std s e id p found).0.no_reply
    where
      t : S
      t = tear_down std e s

      from :
          (y : Reply)
          → y ≢ awaited
          → (r : Attempt Answer × S) × (with_reply std net p method (Calls.header_from std p y t)
              ≡ some r)
      from unset w = (_, refl)
      from awaited w = absurd (w refl)
      from (given h) w = (_, refl)
