-- ===== src/Http/Offers.antt =====
-- What ListenAndServeTLS of server.go offers.
use spdy.Base.{
  ℕ, ◌≡◌, ◌≢◌, refl, Bytes, true, false, Option, none, some, List, [], ◌∷◌, bytes_eq,
  bytes_eq_sound, if◌then◌else◌, arith, Bool-cases, inl, inr, sym, ap, subst, ◌∙◌,
}
use spdy.Http.Config.{
  Upgrade, serve_conn_of, Protos, empty, entry, find, assign, Store, put_map, Config, Server, spdy3,
  listening, offer_spdy, offer_unless, map_of, with_protos, config_of,
}
use spdy.Base.Text.{codes}

find-assign :
    (name other : Bytes) (u : Upgrade) (m : Protos)
    → find other (assign name u m) ≡ (if bytes_eq name other then some u else find other m)
unfolding find assign
find-assign name other u empty = refl
find-assign name other u (entry k v m) = elim (Bool-cases (bytes_eq k name)) [
  | inl e ↦ let same : k ≡ name = bytes_eq_sound k name e in rw (e, same) (ground arith)
  | inr e ↦
      let clash : bytes_eq name other ≡ true → bytes_eq k other ≡ false =
        λ f. subst (λ x. bytes_eq k x ≡ false) (bytes_eq_sound name other f) e in
      rw e (ground (arith, clash, find-assign name other u m))
]

abbrev pub or_ours : ℕ → Option Upgrade → Upgrade
or_ours self none = serve_conn_of self
or_ours self (some u) = u

put_map_same : (maps : ℕ → Protos) (a : ℕ) (m : Protos) → put_map maps a m a ≡ m
put_map_same maps a m = ground arith

-- The map at `a` offers spdy/3, by what it had before or else by the function of `self`.
offer_unless_lem :
    (self a : ℕ) (st : Store) (name : Bytes) (u : Option Upgrade)
    → find spdy3 (st.maps a) ≡ u
    → find name ((offer_unless u self a st).maps a)
      ≡ (if bytes_eq spdy3 name then some (or_ours self u) else find name (st.maps a))
offer_unless_lem self a st name none e =
    ap (λ m. find name m) (put_map_same st.maps a (assign spdy3 (serve_conn_of self) (st.maps a)))
    ∙ find-assign spdy3 name (serve_conn_of self) (st.maps a)
offer_unless_lem self a st name (some v) e = elim (Bool-cases (bytes_eq spdy3 name)) [
  | inl f ↦ rw f (subst (λ n. find n (st.maps a) ≡ some v) (bytes_eq_sound spdy3 name f) e)
  | inr f ↦ rw f refl
]

offer_unless_other :
    (self a b : ℕ) (st : Store) (u : Option Upgrade)
    → b ≢ a
    → (offer_unless u self a st).maps b ≡ st.maps b
offer_unless_other self a b st none h = ground (arith, h)
offer_unless_other self a b st (some v) h = refl

-- The entries of a map, of which a nil one has none.
abbrev pub entries : Option ℕ → Store → Protos
entries none st = empty
entries (some a) st = st.maps a

offered :
    (self : ℕ) (o : Option ℕ) (st : Store) (name : Bytes) (b : ℕ)
    → o ≢ some b
    → b ≢ st.count
    → let (a, st1) = map_of o st in
      let st2 = offer_spdy self a st1 in
      (find name (st2.maps a) ≡ (
        if bytes_eq spdy3 name
        then some (or_ours self (find spdy3 (entries o st)))
        else find name (entries o st)))
      × (st2.maps b ≡ st.maps b)
offered self (some a) st name b h k = (
  offer_unless_lem self a st name _ refl,
  offer_unless_other self a b st _ (λ e. h (ap some (sym e))),
)
offered self none st name b h k =
    let fresh : Store = (map_of none st).1 in
    let was : fresh.maps st.count ≡ empty = put_map_same st.maps st.count empty in
    (
      subst
          (λ m.
            find name ((offer_spdy self st.count fresh).maps st.count)
            ≡ (if bytes_eq spdy3 name then some (or_ours self (find spdy3 m)) else find name m))
          was (offer_unless_lem self st.count fresh name _ refl),
      offer_unless_other self st.count b fresh (find spdy3 (fresh.maps st.count)) k
          ∙ ground (arith, k),
    )

-- The protocols that a Server is set to announce.
abbrev pub protos_of : {C : Type 0} → Option (Config C) → Option (List Bytes)
protos_of none = none
protos_of (some c) = c.next_protos

abbrev pub announced : {C H : Type 0} → Server C H → Option (List Bytes)
announced s = protos_of s.tls_config

abbrev pub or_both : Option (List Bytes) → List Bytes
or_both none = spdy3 ∷ codes "http/1.1" ∷ []
or_both (some ps) = ps

with_protos_lem :
    {C : Type 0} (zero_config : C) (o : Option (Config C))
    → (with_protos (config_of zero_config o)).next_protos ≡ some (or_both (protos_of o))
with_protos_lem zero_config none = refl
with_protos_lem zero_config (some c) = from c.next_protos refl
  where
    from :
        (ps : Option (List Bytes))
        → c.next_protos ≡ ps
        → (with_protos c).next_protos ≡ some (or_both ps)
    from none e = ground (arith, e)
    from (some ps) e = ground (arith, e)

-- The Server that listens has for the protocol spdy/3 the function of the caller's map, or the
-- serveConn of the Server called if that map has none; for each other protocol it has what the
-- caller's map has; and no map but the caller's, or a new one where that is nil, is changed. It
-- announces the caller's protocols, or spdy/3 and http/1.1 if there are none.
pub listening_lem :
    {C H : Type 0} (zero_config : C) (self : ℕ) (s : Server C H) (st : Store) (name : Bytes) (b : ℕ)
    → s.tls_next_proto ≢ some b
    → b ≢ st.count
    → let (t, st') = listening zero_config self s st in
      (find name (entries t.tls_next_proto st') ≡ (
        if bytes_eq spdy3 name
        then some (or_ours self (find spdy3 (entries s.tls_next_proto st)))
        else find name (entries s.tls_next_proto st)))
      × (st'.maps b ≡ st.maps b)
      × (announced t ≡ some (or_both (announced s)))
unfolding listening
listening_lem zero_config self s st name b h k =
    let (there, rest) = offered self s.tls_next_proto st name b h k in
    (there, rest, with_protos_lem zero_config s.tls_config)
