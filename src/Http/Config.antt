-- ===== src/Http/Config.antt =====
-- server.go: what ListenAndServeTLS sets up for a Server, and what serveConn makes of it for a
-- connection. TLSNextProto is a map, so a copy of a Server shares it; maps stand in a store.
use spdy.Base.{ℕ, Bytes, Option, none, some, List, [], ◌∷◌, bytes_eq, ◌==◌, if◌then◌else◌, ◌+◌}
use spdy.Base.Text.{codes}

-- A function for a protocol: one of the user's, or `serveConn` of the Server at the address.
pub data Upgrade : Type 0 where
  theirs serve_conn_of : ℕ → Upgrade

pub data Protos : Type 0 where
  empty : Protos
  entry : Bytes → Upgrade → Protos → Protos

unfoldable pub find : Bytes → Protos → Option Upgrade
find name empty = none
find name (entry k u m) = if bytes_eq k name then some u else find name m

unfoldable pub assign : Bytes → Upgrade → Protos → Protos
assign name u empty = entry name u empty
assign name u (entry k v m) = if bytes_eq k name then entry k u m else entry k v (assign name u m)

-- The maps, at the addresses below `count`.
pub record Store : Type 0 where
  pub maps : ℕ → Protos
  pub count : ℕ

abbrev pub put_map : (ℕ → Protos) → ℕ → Protos → ℕ → Protos
put_map maps a m b = if b == a then m else maps b

-- `C` is what else a tls.Config holds, and `H` a handler.
pub record Config (C : Type 0) : Type 0 where
  pub next_protos : Option (List Bytes)
  pub others : C

pub record Server (C H : Type 0) : Type 0 where
  pub tls_config : Option (Config C)
  pub tls_next_proto : Option ℕ
  pub handler : Option H

abbrev pub spdy3 : Bytes
spdy3 = codes "spdy/3"

-- The map of the copy: a new one if there is none.
abbrev pub map_of : Option ℕ → Store → ℕ × Store
map_of (some a) st = (a, st)
map_of none st = (st.count, record { maps = put_map st.maps st.count empty; count = st.count + 1 })

-- The function for spdy/3, unless the map at `a` has one.
abbrev pub offer_unless : Option Upgrade → ℕ → ℕ → Store → Store
offer_unless (some u) self a st = st
offer_unless none self a st = record st {
  maps = put_map st.maps a (assign spdy3 (serve_conn_of self) (st.maps a));
}

abbrev pub offer_spdy : ℕ → ℕ → Store → Store
offer_spdy self a st = offer_unless (find spdy3 (st.maps a)) self a st

module _ {C : Type 0} where
  -- `new(tls.Config)`, or the copy of what there is.
  abbrev pub config_of : C → Option (Config C) → Config C
  config_of zero_config none = record { next_protos = none; others = zero_config }
  config_of zero_config (some c) = c

  abbrev pub with_protos : Config C → Config C
  with_protos c = record c {
    next_protos = elim c.next_protos [
      | none ↦ some (spdy3 ∷ codes "http/1.1" ∷ [])
      | some ps ↦ some ps
    ];
  }

module _ {C H : Type 0} where
  -- The Server that `ListenAndServeTLS` of the one at `self` listens with.
  unfoldable pub listening : C → ℕ → Server C H → Store → Server C H × Store
  listening zero_config self s st =
      let (a, st1) = map_of s.tls_next_proto st in
      (
        record s {
          tls_config = some (with_protos (config_of zero_config s.tls_config));
          tls_next_proto = some a;
        },
        offer_spdy self a st1,
      )

  -- `serveConn(hs, c, h)`: the Server that serves the connection.
  abbrev pub replaced : Option (Server C H) → Server C H → Server C H
  replaced none s = s
  replaced (some hs) s = hs

  abbrev pub with_handler : Option H → Server C H → Server C H
  with_handler none s = s
  with_handler (some h) s = record s { handler = some h }

  unfoldable pub for_connection : Option (Server C H) → Option H → Server C H → Server C H
  for_connection hs h s = with_handler h (replaced hs s)

  -- The handler that `serveStream` runs.
  unfoldable pub handler_of : H → Server C H → H
  handler_of default_mux s = elim s.handler [ none ↦ default_mux | some h ↦ h ]
