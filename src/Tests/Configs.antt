-- ===== src/Tests/Configs.antt =====
-- A Server that is asked to listen.
use spdy.Base.{ℕ, ◌≡◌, none, some, [], ◌∷◌, bytes_eq, arith}
use spdy.Base.Text.{codes}
use spdy.Http.Config.{theirs, empty, entry, find, Store, Server, spdy3, listening, serve_conn_of}
use spdy.Http.Offers.{entries, announced, listening_lem}

-- The Server at address 5 has a map with one protocol, at address 0.
abbrev site : Server (Unit {0}) ℕ
site = record { tls_config = none; tls_next_proto = some 0; handler = some 1 }

abbrev store : Store
store = record { maps = λ a. entry (codes "h2") (theirs 4) empty; count = 3 }

listening_lem_example :
    let (t, store') = listening tt 5 site store in
    (find spdy3 (entries t.tls_next_proto store') ≡ some (serve_conn_of 5))
    × (store'.maps 2 ≡ entry (codes "h2") (theirs 4) empty)
    × (announced t ≡ some (spdy3 ∷ codes "http/1.1" ∷ []))
unfolding find bytes_eq
listening_lem_example = listening_lem tt 5 site store spdy3 2 (λ e. cc) (omega arith)
