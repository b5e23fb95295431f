-- ===== src/Session/Rounds.antt =====
-- Rounds of the reading goroutine of spdyframing/session.go on DATA frames for one stream.
use spdy.Base.{
  ℕ, zero, suc, ◌^◌, ◌≤◌, ◌<◌, ◌≡◌, ◌≢◌, refl, sym, ap, ◌∙◌, subst, Bool, false, Bytes, Option,
  none, some, List, [], ◌∷◌, ◌++◌, length, arith, if◌then◌else◌, append_assoc, append-nil,
  length-append,
}
use spdy.Errors.{Error}
use spdy.Stdlib.{Stdlib}
use spdy.Buffer
use spdy.Buffer.{Buffer, contents}
use spdy.Buffer.Inv.{write-IsValid}
use spdy.Buffer.Inv.{length-write}
use spdy.Pipe
use spdy.Frame.{DataFrame}
use spdy.Framer.Encoding.{IsU24}
use spdy.Framer.Decode.{ahead, data-Reads}
use spdy.Framer.RoundTrip.{wires}
use spdy.Session.{Session, Stream, modify, get}
use spdy.Session.Receive.{deliver, handle_data, receive_data, handle_read, read_round}
use spdy.Session.Inv.{put_self}
use spdy.Session.Delivery.{room, IsOpen, pipe_takes}
use spdy.Session.Writing.{concat, frames_of}
use spdy.Session.Carrying.{AreSmall, chunk_bytes}

pipe_stays :
    (b : Buffer) (p : Bytes)
    → IsOpen b
    → IsOpen (Pipe.write b p).1 × (length (Pipe.write b p).1.buf ≡ length b.buf)
unfolding Pipe.write Buffer.write Buffer.append Buffer.make_room Buffer.slide
pipe_stays b p (v, o) = ((write-IsValid p v, ground (arith, o)), length-write b p)

module _ (std : Stdlib) where
  abbrev S : Type 0
  S = Session std

  -- The session takes data for stream `id`, the one at `p`: it has not been closed for reading.
  pub record IsTaking (id p : ℕ) (s : S) : Type 0 where
    pub found : get std id s ≡ some p
    pub still : (s.heap p).rclosed ≡ false
    pub is_open : IsOpen (s.heap p).pipe

  -- The session as it stands after so many rounds of the reading goroutine.
  abbrev pub rounds : ℕ → S → S
  rounds zero s = s
  rounds (suc n) s = rounds n (read_round std s).1

  -- The same session with these bytes to come on its connection.
  abbrev pub bring : Bytes → S → S
  bring bs s = record s { fr = ahead std s.fr bs }

  -- The session `t` is `s` with `bs` come to the stream's pipe and `rest` still to come.
  pub record Has (id p : ℕ) (bs rest : Bytes) (s t : S) : Type 0 where
    pub takes : IsTaking id p t
    pub arrived : contents (t.heap p).pipe ≡ contents (s.heap p).pipe ++ bs
    pub size : length (t.heap p).pipe.buf ≡ length (s.heap p).pipe.buf
    pub left : t.fr ≡ ahead std s.fr rest
    pub no_tasks : t.tasks ≡ s.tasks

  handle_chunk :
      (id p : ℕ) (c : Bytes) (s : S)
      → IsTaking id p s
      → length c ≤ room (s.heap p).pipe
      → handle_data std (record { stream_id = id; flags = 0; content = c }) s
        ≡ modify std p (λ st. record st { pipe = (Pipe.write (s.heap p).pipe c).1 }) s
  unfolding handle_data receive_data
  handle_chunk id p c s v h = rw v.found (
      otherwise _ _ _ (s.heap p).rclosed v.still
        (from (Pipe.write (s.heap p).pipe c) (pipe_takes (s.heap p).pipe c v.is_open h).0))
    where
      otherwise : (x y z : S) (b : Bool) → b ≡ false → y ≡ z → (if b then x else y) ≡ z
      otherwise x y z b e same = rw e same

      from :
          (r : (ℕ × Option Error) × Buffer)
          → r.0.1 ≡ none
          → deliver std p false r s ≡ modify std p (λ st. record st { pipe = r.1 }) s
      from ((n, none), b) e = refl
      from ((n, some x), b) e = cc

  bring-IsTaking : (id p : ℕ) (bs : Bytes) (s : S) → IsTaking id p s → IsTaking id p (bring bs s)
  unfolding get
  bring-IsTaking id p bs s v = record { found = v.found; still = v.still; is_open = v.is_open }

  -- A round on the connection that brings the chunk.
  round_of :
      (id p : ℕ) (c rest : Bytes) (s : S)
      → id ≢ 0
      → id < 2 ^ 31
      → IsU24 (length c)
      → IsTaking id p s
      → length c ≤ room (s.heap p).pipe
      → (read_round std (bring (chunk_bytes std id c ++ rest) s)).1
        ≡ modify std p (λ st. record st { pipe = (Pipe.write (s.heap p).pipe c).1 }) (bring rest s)
  unfolding read_round handle_read
  round_of id p c rest s h k small v fits =
      let f : DataFrame = record { stream_id = id; flags = 0; content = c } in
      let (t, read, is) =
        data-Reads std s.fr f h k (omega arith) small
          (ahead std s.fr (chunk_bytes std id c ++ rest)) rest refl in
      rw (read, is) (handle_chunk id p c (bring rest s) (bring-IsTaking id p rest s v) fits)

  one_round :
      (id p : ℕ) (c rest : Bytes) (s : S)
      → id ≢ 0
      → id < 2 ^ 31
      → IsU24 (length c)
      → IsTaking id p s
      → length c ≤ room (s.heap p).pipe
      → Has id p c rest s (read_round std (bring (chunk_bytes std id c ++ rest) s)).1
  unfolding get
  one_round id p c rest s h k small v fits =
      subst (Has id p c rest s) (sym (round_of id p c rest s h k small v fits)) has
    where
      after : Stream
      after = record (s.heap p) { pipe = (Pipe.write (s.heap p).pipe c).1 }

      t : S
      t = modify std p (λ st. record st { pipe = (Pipe.write (s.heap p).pipe c).1 }) (bring rest s)

      now : t.heap p ≡ after
      now = put_self s.heap p after

      stays : IsOpen after.pipe × (length after.pipe.buf ≡ length (s.heap p).pipe.buf)
      stays = pipe_stays (s.heap p).pipe c v.is_open

      has : Has id p c rest s t
      has = record {
        takes = record {
          found = v.found;
          still = ap (λ st. st.rclosed) now ∙ v.still;
          is_open = subst (λ st. IsOpen st.pipe) (sym now) stays.0;
        };
        arrived = ap (λ st. contents st.pipe) now ∙ (pipe_takes (s.heap p).pipe c v.is_open fits).1;
        size = ap (λ st. length st.pipe.buf) now ∙ stays.1;
        left = refl;
        no_tasks = refl;
      }

  still_fits :
      (id p : ℕ) (c bs more : Bytes) (s t : S)
      → Has id p c more s t
      → length (c ++ bs) ≤ room (s.heap p).pipe
      → length bs ≤ room (t.heap p).pipe
  still_fits id p c bs more s t v h =
      rw (v.arrived, v.size)
        (omega (arith, h, length-append c bs, length-append (contents (s.heap p).pipe) c))

  brought : (id p : ℕ) (c more : Bytes) (s t : S) → Has id p c more s t → bring more t ≡ t
  brought id p c more s t v =
      ap (λ fr. record t { fr = fr }) (ap (λ fr. ahead std fr more) v.left ∙ sym v.left)

  after_first :
      (id p : ℕ) (c bs more rest : Bytes) (s t u : S)
      → Has id p c more s t
      → Has id p bs rest t u
      → Has id p (c ++ bs) rest s u
  after_first id p c bs more rest s t u v w = record {
    takes = w.takes;
    arrived =
        w.arrived ∙ ap (λ x. x ++ bs) v.arrived ∙ append_assoc (contents (s.heap p).pipe) c bs;
    size = w.size ∙ v.size;
    left = w.left ∙ ap (λ fr. ahead std fr rest) v.left;
    no_tasks = w.no_tasks ∙ v.no_tasks;
  }

  -- The rounds that take the chunks.
  pub many_rounds :
      (id p : ℕ) (cs : List Bytes) (rest : Bytes) (s : S)
      → id ≢ 0
      → id < 2 ^ 31
      → AreSmall cs
      → IsTaking id p s
      → length (concat cs) ≤ room (s.heap p).pipe
      → (k : ℕ) × Has id p
          (concat cs)
          rest
          s
          (rounds k (bring (wires std (frames_of id cs) ++ rest) s))
  many_rounds id p [] rest s h k small v fits = (
    0,
    record {
      takes = bring-IsTaking id p rest s v;
      arrived = sym (append-nil (contents (s.heap p).pipe));
      size = refl;
      left = refl;
      no_tasks = refl;
    },
  )
  many_rounds id p (c ∷ cs) rest s h k (small, all) v fits =
      let more : Bytes = wires std (frames_of id cs) ++ rest in
      let t : S = (read_round std (bring (chunk_bytes std id c ++ more) s)).1 in
      let first : Has id p c more s t =
        one_round id p c more s h k small v (omega (arith, length-append c (concat cs))) in
      let (n, rest_has) =
        many_rounds id p cs rest t h k all first.takes
          (still_fits id p c (concat cs) more s t first fits) in
      (
        suc n,
        rw (append_assoc (chunk_bytes std id c) (wires std (frames_of id cs)) rest) (
            after_first id p c (concat cs) more rest s t _ first (
              subst (λ x. Has id p (concat cs) rest t (rounds n x)) (brought id p c more s t first)
                rest_has)),
      )
