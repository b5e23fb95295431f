-- ===== src/Http/Client.antt =====
-- conn.go: RoundTrip of a client's connection, in two parts: up to where it waits for the reply, and
-- from there on; and the goroutine that copies the request's body.
use spdy.Base.{ℕ, suc, Bytes, Bool, false, Option, none, some, List, [], ◌∷◌, length, if◌then◌else◌}
use spdy.Errors.{Error}
use spdy.Stdlib.{Stdlib}
use spdy.Wire.{Result, ok, err}
use spdy.Header.{Header}
use spdy.Framer.{Framer}
use spdy.Session.{Session, start, protocol_error}
use spdy.Session.Calls
use spdy.Session.Calls.{Sent, blocked, panics, sent, open_stream, reset_stream, further}
use spdy.Http.{Net, Problem, Parsed, parsed, failed}
use spdy.Http.Answer.{Answer, read_response}
use spdy.Http.Framing.{Outgoing, request_framing_header}
use spdy.Http.Server.{fields_of, refused_stream}

-- Why a RoundTrip failed: its request was not one, its stream did not open, or the answer was none.
pub data Failure : Type 0 where
  bad_request bad_answer : Problem → Failure
  not_opened : Error → Failure

pub data Attempt (A : Type 0) : Type 0 where
  done : A → Attempt A
  gave_up : Failure → Attempt A

-- The request's body: what each Read gives, and whether it ends in an error other than EOF.
pub record Content : Type 0 where
  pub chunks : List Bytes
  pub is_broken : Bool

module _ (std : Stdlib) (net : Net) where
  abbrev S : Type 0
  S = Session std

  -- `c.once.Do(…)`: the session, started on the connection's framer if this is the first call.
  unfoldable pub session_of : Framer std → Option S → S
  session_of fr (some s) = s
  session_of fr none = start std fr false

  -- What the client does with a stream that the server has opened.
  unfoldable pub turn_away : ℕ → S → S
  turn_away p s = (reset_stream std p refused_stream s).1

  abbrev pub opened_for : Result ℕ × S → Attempt ℕ × S
  opened_for (ok p, s) = (done p, s)
  opened_for (err e, s) = (gave_up (not_opened e), s)

  abbrev pub begin_with : Parsed (Header × ℕ) → S → Attempt ℕ × S
  begin_with (failed e) s = (gave_up (bad_request e), s)
  begin_with (parsed (h, flag)) s = opened_for (open_stream std h flag s)

  -- `RoundTrip(r)` to its stream; the copying goroutine starts when it has one.
  unfoldable pub begin_round_trip : Outgoing → S → Attempt ℕ × S
  begin_round_trip r s = begin_with (request_framing_header r) s

  abbrev pub answered : ℕ → Parsed Answer → S → Attempt Answer × S
  answered p (parsed a) s = (done a, s)
  answered p (failed e) s = (gave_up (bad_answer e), (reset_stream std p protocol_error s).1)

  abbrev pub with_reply : ℕ → Bytes → Option (Option Header × S) → Option (Attempt Answer × S)
  with_reply p method none = none
  with_reply p method (some (h, s)) =
      some (answered p (read_response net (fields_of h) none (some p) method) s)

  -- The rest of `RoundTrip`, for the stream at `p`; `none` while the reply is awaited.
  unfoldable pub finish_round_trip : ℕ → Bytes → S → Option (Attempt Answer × S)
  finish_round_trip p method s = with_reply p method (Calls.header std p s)

  -- `io.Copy(st, body)`, by writes with fuel of their own.
  abbrev pub go_on_copying : (S → Option (Sent S)) → Option (Sent S) → Option (Sent S)
  go_on_copying rest none = none
  go_on_copying rest (some (sent n none s)) = Calls.map_further std n (rest s)
  go_on_copying rest (some r) = some r

  unfoldable pub copy : ℕ → List Bytes → S → Option (Sent S)
  copy p [] s = some (sent 0 none s)
  copy p (c ∷ cs) s = go_on_copying (copy p cs) (Calls.write std (suc (length c)) p c s)

  -- The goroutine: after a copy without an error, the stream is closed for writing.
  abbrev pub close_after : ℕ → Bool → Option (Sent S) → Option (Sent S)
  close_after p is_broken (some (sent n none s)) =
      some (sent n none (if is_broken then s else (Calls.close std p s).1))
  close_after p is_broken r = r

  unfoldable pub copy_body : ℕ → Content → S → Option (Sent S)
  copy_body p body s = close_after p body.is_broken (copy p body.chunks s)
