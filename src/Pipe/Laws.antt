-- ===== src/Pipe/Laws.antt =====
-- What a reader sees of the pipe of spdyframing/pipe.go.
use spdy.Base.{
  ℕ, zero, suc, ◌+◌, ◌<◌, ◌≡◌, refl, ◌⊎◌, inl, inr, Bytes, true, false, Option, none, some, [], ◌∷◌,
  length, take, drop, min, ◌==◌, ap, ◌∙◌, arith, Bool-cases, length-drop,
}
use spdy.Errors.{Error}
use spdy.Buffer
use spdy.Buffer.{Buffer, contents}
use spdy.Buffer.Fifo
use spdy.Buffer.Fifo.{read_status}
use spdy.Buffer.Inv.{IsValid, length-contents}
use spdy.Buffer.Refine.{read_refines}
use spdy.Pipe.{is_blocked, read}

-- What may happen to a read of `p` bytes.
pub data Read (b : Buffer) (p : ℕ) : Option ((Bytes × Option Error) × Buffer) → Type 0 where
  waits : contents b ≡ [] → b.closed ≡ false → Read b p none
  delivers :
      (bytes : Bytes) (e : Option Error) (c : Buffer)
      → bytes ≡ take p (contents b)
      → contents c ≡ drop p (contents b)
      → ((e ≡ none) × (0 < length (contents b)))
        ⊎ ((e ≡ b.err) × (b.closed ≡ true) × (contents c ≡ []))
      → Read b p (some ((bytes, e), c))

nil_of_length : (xs : Bytes) → length xs ≡ 0 → xs ≡ []
nil_of_length [] h = refl
nil_of_length (x ∷ xs) h = absurd (omega arith)

take-min : (p : ℕ) (xs : Bytes) → take (min p (length xs)) xs ≡ take p xs
take-min zero xs = let e : min 0 (length xs) ≡ 0 = omega arith in rw e
take-min (suc p) [] = let e : min (suc p) 0 ≡ 0 = omega arith in rw e
take-min (suc p) (x ∷ xs) =
    let e : min (suc p) (suc (length xs)) ≡ suc (min p (length xs)) = omega arith in
    rw e (ap (λ ys. x ∷ ys) (take-min p xs))

drop-min : (p : ℕ) (xs : Bytes) → drop (min p (length xs)) xs ≡ drop p xs
drop-min zero xs = let e : min 0 (length xs) ≡ 0 = omega arith in rw e
drop-min (suc p) [] = let e : min (suc p) 0 ≡ 0 = omega arith in rw e
drop-min (suc p) (x ∷ xs) =
    let e : min (suc p) (suc (length xs)) ≡ suc (min p (length xs)) = omega arith in
    rw e (drop-min p xs)

-- The status that the queue reports, for a reader who did not have to wait.
status_lem :
    {b : Buffer} (left n : ℕ)
    → IsValid b
    → left + n ≡ length (contents b)
    → is_blocked b ≡ false
    → ((read_status b.err left n ≡ none) × (0 < length (contents b)))
      ⊎ ((read_status b.err left n ≡ b.err) × (b.closed ≡ true) × (left ≡ 0))
unfolding Buffer.len
status_lem {b} left n v sum free = elim v.ended [
  | inl (still, e) ↦
      inl
        (rw e (ground (arith, still, length-contents v)), ground (arith, still, length-contents v))
  | inr (x, shut, e) ↦ elim (Bool-cases (left == 0)) [
    | inl last ↦ inr (rw (e, read_status, last), shut, ground arith)
    | inr more ↦ inl (rw (e, read_status, more), ground arith)
  ]
]

-- A read waits exactly if the pipe is empty and open. Otherwise it delivers the oldest bytes, as
-- many as there are and fit; its error is the one given to `Close`, reported by a reader who takes
-- the last byte or finds none after it; and without an error there was something to read: the
-- buffer's own error for a read of nothing never reaches a reader.
pub read_lem : {b : Buffer} (p : ℕ) → IsValid b → Read b p (read b p)
unfolding read Fifo.read Buffer.len
read_lem {b} p v = elim (Bool-cases (is_blocked b)) [
  | inl blocked ↦
      rw blocked
        (waits (nil_of_length (contents b) (ground (arith, length-contents v))) (ground arith))
  | inr free ↦
      let c = Buffer.read b p in
      let taken = ap (λ r. r.0.0) (read_refines p v) ∙ take-min p (contents b) in
      let left = ap (λ r. r.1.queue) (read_refines p v) in
      let status = ap (λ r. r.0.1) (read_refines p v) in
      rw free
        (delivers c.0.0 c.0.1 c.1 taken (left ∙ drop-min p (contents b)) (told free status left))
]
  where
    n : ℕ
    n = min p (length (contents b))

    told :
        is_blocked b ≡ false
        → (Buffer.read b p).0.1 ≡ read_status b.err (length (drop n (contents b))) n
        → contents (Buffer.read b p).1 ≡ drop n (contents b)
        → (((Buffer.read b p).0.1 ≡ none) × (0 < length (contents b)))
          ⊎ (((Buffer.read b p).0.1 ≡ b.err)
              × (b.closed ≡ true)
              × (contents (Buffer.read b p).1 ≡ []))
    told free status left =
        rw (status, left)
          (elim (status_lem (length (drop n (contents b))) n v
            (omega (arith, length-drop n (contents b))) free) [
              | inl (e, some_left) ↦ inl (e, some_left)
              | inr (e, shut, gone) ↦ inr (e, shut, nil_of_length _ gone)
            ])
