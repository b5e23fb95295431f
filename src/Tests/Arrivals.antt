-- ===== src/Tests/Arrivals.antt =====
-- Bytes from one session to another.
use spdy.Base.{ℕ, ◌≡◌, refl, Bytes, none, some, [], ◌∷◌, ◌++◌, length, drop, arith}
use spdy.Session.{Session, Stream, get}
use spdy.Session.Table.{lookup}
use spdy.Session.Calls.{sent, write, write_data}
use spdy.Semaphore.{dec}
use spdy.Framer.{send}
use spdy.Framer.Write
use spdy.Session.Rounds.{IsTaking, Has, rounds, bring}
use spdy.Session.Arrival.{write-Has}
use spdy.Tests.Frames.{stored, plain}
use spdy.Tests.Sessions.{client, small-IsValid}

abbrev sender : Session stored
sender = record (client 8) { fr = plain 100 }

abbrev two : Bytes
two = 7 ∷ 8 ∷ []

two_sent : (t : Session stored) × (write stored 3 0 two sender ≡ some (sent 2 none t))
unfolding write write_data dec spdy.Session.write_frame spdy.Framer.Write.write_frame
    spdy.Framer.Write.write_data send
two_sent = (_, refl)

client-IsTaking : IsTaking stored 1 0 (client 3)
unfolding get lookup
client-IsTaking = record { found = refl; still = refl; is_open = (small-IsValid 3, refl) }

write-Has_example :
    (k : ℕ) × Has stored 1 0 two (9 ∷ []) (client 3) (
      rounds stored k
        (bring stored (drop (length sender.fr.out) two_sent.0.fr.out ++ 9 ∷ []) (client 3)))
write-Has_example =
    write-Has stored 3 0 0 2 two (9 ∷ []) sender two_sent.0 (client 3) (sent 2 none two_sent.0)
      (omega arith) (omega arith) ((omega arith, omega arith), λ shut. cc) (omega arith)
      (omega arith) client-IsTaking (omega arith) two_sent.1 refl
