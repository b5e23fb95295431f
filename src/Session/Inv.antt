-- ===== src/Session/Inv.antt =====
-- The invariant of a session of spdyframing/session.go: its map and its ids. It speaks of the fields
-- that it needs, so that a step that leaves them alone keeps it by computation.
use spdy.Base.{
  ℕ, ◌%◌, ◌<◌, ◌≤◌, ◌≡◌, refl, sym, ◌∙◌, Bool, true, false, ◌&&◌, Option, none, some, ◌==◌,
  if◌then◌else◌, arith, Bool-cases, inl, inr,
}
use spdy.Stdlib.{Stdlib}
use spdy.Session.Table.{Streams, lookup, lookup-delete}
use spdy.Session.{Session, Stream, put, modify, remove_if, maybe_remove}

-- A stream is over when both of its halves are closed.
abbrev pub over : Stream → Bool
over st = st.rclosed && st.wclosed

-- The parity of the ids that an endpoint gives.
abbrev pub own_parity : Bool → ℕ
own_parity server = if server then 0 else 1

-- An id that has been given by this endpoint, or has come from the other one.
abbrev pub IsUsed : Bool → ℕ → ℕ → ℕ → Type 0
IsUsed server next last id =
    (0 < id) × (if id % 2 == own_parity server then id < next else id ≤ last)

-- The map holds, under its id, each stream that is not over, and nothing else; ids are used once.
pub record IsConsistent (server : Bool) (next last : ℕ) (table : Streams) (heap : ℕ → Stream)
    (count : ℕ) : Type 0 where
  pub parity : next % 2 ≡ own_parity server
  pub positive : 0 < next
  pub used : (p : ℕ) → p < count → IsUsed server next last (heap p).id
  pub held :
      (id p : ℕ)
      → lookup id table ≡ some p
      → (p < count) × ((heap p).id ≡ id) × (over (heap p) ≡ false)
  pub live : (p : ℕ) → p < count → over (heap p) ≡ false → lookup (heap p).id table ≡ some p

pub put_self : (heap : ℕ → Stream) (p : ℕ) (st : Stream) → put heap p st p ≡ st
unfolding put
put_self heap p st = ground arith

module _ (std : Stdlib) where
  abbrev pub IsValid : Session std → Type 0
  IsValid s = IsConsistent s.is_server s.next_syn_id s.last_recv_id s.rstreams s.heap s.count

  -- A change of one stream that leaves its id, and whether it is over.
  pub modify-IsValid :
      (s : Session std) (p : ℕ) (g : Stream → Stream)
      → (g (s.heap p)).id ≡ (s.heap p).id
      → over (g (s.heap p)) ≡ over (s.heap p)
      → IsValid s
      → IsValid (modify std p g s)
  unfolding put
  modify-IsValid s p g same_id same_over v = record {
    parity = v.parity;
    positive = v.positive;
    used = λ q h. ground (arith, v.used q h);
    held = λ id q h. ground (arith, v.held id q h);
    live = λ q h o. ground (arith, v.live q h);
  }

  -- A change that may close halves of a stream, and the removal that follows it.
  module _ (s : Session std) (p : ℕ) (g : Stream → Stream)
      (same_id : (g (s.heap p)).id ≡ (s.heap p).id)
      (closes : over (g (s.heap p)) ≡ false → over (s.heap p) ≡ false) (v : IsValid s) where
    -- The stream is over: no entry but its own is lost.
    over-IsValid :
        over (g (s.heap p)) ≡ true
        → (r : Option ℕ) → lookup (g (s.heap p)).id s.rstreams ≡ r
        → IsValid (remove_if std p (g (s.heap p)).id r (modify std p g s))
    unfolding put
    over-IsValid o none e = record {
      parity = v.parity;
      positive = v.positive;
      used = λ q h. ground (arith, v.used q h);
      held = λ id q h. ground (arith, v.held id q h);
      live = λ q h m. ground (arith, v.live q h);
    }
    over-IsValid o (some q) e = elim (Bool-cases (q == p)) [
      | inl hit ↦ rw hit (record {
        parity = v.parity;
        positive = v.positive;
        used = λ i h. ground (arith, v.used i h);
        held = λ id i h. ground (arith, lookup-delete id (g (s.heap p)).id s.rstreams, v.held id i);
        live = λ i h m.
            ground (arith, lookup-delete (s.heap i).id (g (s.heap p)).id s.rstreams, v.live i h);
      })
      | inr miss ↦ rw miss (record {
        parity = v.parity;
        positive = v.positive;
        used = λ i h. ground (arith, v.used i h);
        held = λ id i h. ground (arith, v.held id i h);
        live = λ i h m. ground (arith, v.live i h);
      })
    ]

    pub remove-IsValid : IsValid (maybe_remove std p (modify std p g s))
    unfolding maybe_remove
    remove-IsValid = elim (Bool-cases (over (g (s.heap p)))) [
      | inl o ↦
          rw (put_self s.heap p (g (s.heap p)), o)
            (over-IsValid o (lookup (g (s.heap p)).id s.rstreams) refl)
      | inr m ↦
          rw (put_self s.heap p (g (s.heap p)), m)
            (modify-IsValid s p g same_id (m ∙ sym (closes m)) v)
    ]
