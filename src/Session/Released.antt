-- ===== src/Session/Released.antt =====
-- The calls on a session of spdyframing/session.go once its reading goroutine has ended.
use spdy.Stdlib.{Stdlib}
use spdy.Header.{Header}
use spdy.Semaphore
use spdy.Semaphore.{Outcome, waits}
use spdy.Pipe
use spdy.Session.{Session}

module _ (std : Stdlib) where
  abbrev S : Type 0
  S = Session std
