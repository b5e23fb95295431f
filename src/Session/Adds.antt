-- ===== src/Session/Adds.antt =====
-- `add` of spdyframing/session.go keeps the map and the ids in order.
use spdy.Base.{ℕ, ◌+◌, ◌%◌, ◌^◌, ◌<◌, ◌≡◌, ◌≢◌, refl, Bool, true, false, ◌==◌, if◌then◌else◌, arith}
use spdy.Errors.{closing}
use spdy.Stdlib.{Stdlib}
use spdy.Wire.{Result, ok, err}
use spdy.Session.Table.{lookup-insert}
use spdy.Session.{Session, Stream, put, add, store}
use spdy.Session.Inv.{over, IsUsed, IsValid}

module _ (std : Stdlib) where
  -- A stream with an id that no other has.
  pub store-IsValid :
      (st : Stream) (s : Session std)
      → IsUsed s.is_server s.next_syn_id s.last_recv_id st.id
      → ((q : ℕ) → q < s.count → (s.heap q).id ≢ st.id)
      → over st ≡ false
      → IsValid std s
      → IsValid std (store std (st, s)).1
  unfolding put
  store-IsValid st s u fresh o v = record {
    parity = v.parity;
    positive = v.positive;
    used = λ q h. ground (arith, v.used q);
    held = λ id q h. ground (arith, v.held id q, lookup-insert id st.id s.count s.rstreams);
    live = λ q h m. ground (
      arith,
      v.live q,
      fresh q,
      lookup-insert (s.heap q).id st.id s.count s.rstreams,
      lookup-insert st.id st.id s.count s.rstreams,
    );
  }

  -- What `add` comes to.
  pub data Added (st : Stream) (s : Session std) : Result ℕ × Session std → Type 0 where
    refused : s.closing ≡ true → Added st s (err closing, s)
    added :
        (p : ℕ) (t : Session std)
        → s.closing ≡ false
        → IsValid std t
        → p < t.count
        → Added st s (ok p, t)

  -- A stream of this endpoint gets the next id.
  module _ (st : Stream) (s : Session std) (o : over st ≡ false) (v : IsValid std s) where
    own-IsValid :
        s.next_syn_id + 2 < 2 ^ 32
        → let numbered : Stream = record st { id = s.next_syn_id } in
          IsValid std
            (store std (numbered, record s { next_syn_id = (s.next_syn_id + 2) % 2 ^ 32 })).1
    own-IsValid few =
        let small : (s.next_syn_id + 2) % 2 ^ 32 ≡ s.next_syn_id + 2 = omega arith in
        rw small (
          store-IsValid (record st { id = s.next_syn_id })
            (record s { next_syn_id = s.next_syn_id + 2 }) (ground (arith, v.parity, v.positive))
            (λ q h e. ground (arith, v.used q h, v.parity)) o
            (record {
              parity = ground (arith, v.parity);
              positive = omega arith;
              used = λ q h. ground (arith, v.used q h);
              held = v.held;
              live = v.live;
            }))

    -- Whichever id the stream has in `r`.
    store-Added :
        (r : Stream × Session std)
        → IsValid std (store std r).1
        → (b : Bool) → s.closing ≡ b
        → Added st s (if b then (err closing, s) else (let (p, s') = store std r in (ok p, s')))
    store-Added r w true shut = refused shut
    store-Added r w false still = added _ _ still w (omega arith)

    pub add_own-Added : st.id ≡ 0 → s.next_syn_id + 2 < 2 ^ 32 → Added st s (add std st s)
    unfolding add
    add_own-Added zero_id few =
        let test : (st.id == 0) ≡ true = ground arith in
        rw test (store-Added _ (own-IsValid few) s.closing refl)

    -- A stream of the other endpoint keeps the id that it came with.
    pub add_other-Added :
        st.id ≢ 0
        → IsUsed s.is_server s.next_syn_id s.last_recv_id st.id
        → ((q : ℕ) → q < s.count → (s.heap q).id ≢ st.id)
        → Added st s (add std st s)
    unfolding add
    add_other-Added some_id u fresh =
        let test : (st.id == 0) ≡ false = ground arith in
        rw test (store-Added (st, s) (store-IsValid st s u fresh o v) s.closing refl)
