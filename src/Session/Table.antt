-- ===== src/Session/Table.antt =====
-- The map `rstreams` of spdyframing/session.go, from ids to pointers: a list of its entries.
use spdy.Base.{ℕ, ◌≡◌, refl, Option, none, some, List, [], ◌∷◌, ◌==◌, if◌then◌else◌, arith}

abbrev pub Streams : Type 0
Streams = List (ℕ × ℕ)

unfoldable pub lookup : ℕ → Streams → Option ℕ
lookup id [] = none
lookup id ((k, p) ∷ t) = if k == id then some p else lookup id t

unfoldable pub insert : ℕ → ℕ → Streams → Streams
insert id p [] = (id, p) ∷ []
insert id p ((k, q) ∷ t) = if k == id then (id, p) ∷ t else (k, q) ∷ insert id p t

unfoldable pub delete : ℕ → Streams → Streams
delete id [] = []
delete id ((k, q) ∷ t) = if k == id then delete id t else (k, q) ∷ delete id t

pub lookup-insert :
    (i id p : ℕ) (t : Streams) → lookup i (insert id p t) ≡ (if id == i then some p else lookup i t)
unfolding lookup insert
lookup-insert i id p [] = refl
lookup-insert i id p ((k, q) ∷ t) = ground (arith, lookup-insert i id p t)

pub lookup-delete :
    (i id : ℕ) (t : Streams) → lookup i (delete id t) ≡ (if id == i then none else lookup i t)
unfolding lookup delete
lookup-delete i id [] = ground arith
lookup-delete i id ((k, q) ∷ t) = ground (arith, lookup-delete i id t)
