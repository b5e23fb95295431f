-- ===== src/Tests/Trips.antt =====
-- Runs of a client's RoundTrip that fail, and of bodies with a trailer.
use spdy.Base.{ℕ, ◌≡◌, ◌≢◌, false, ◌<◌, refl, Bytes, List, none, some, [], ◌∷◌, take, arith}
use spdy.Base.Text.{codes}
use spdy.Errors.{eof}
use spdy.Header.{Header, values_of}
use spdy.Session.{
  Session, start, get, given, add, put, new_stream, wclose, rclose, maybe_remove, write_frame,
}
use spdy.Session.Table.{lookup, insert, delete}
use spdy.Session.Receive.{tear_down}
use spdy.Session.Inv.{IsValid}
use spdy.Http.{parse_int}
use spdy.Http.Answer.{Answer, first_bad, read_response, before_space}
use spdy.Http.Client.{
  Content, copy_body, Failure, Attempt, gave_up, begin_round_trip, finish_round_trip,
}
use spdy.Http.Copying.{Copied, copy_body_lem}
use spdy.Http.Trips.{begin_round_trip-get, finish_round_trip_drops, finish_round_trip-tear_down}
use spdy.Http.Content.{Status, fine, at_eof}
use spdy.Http.Checks.{is_refused, read_response-has_invalid}
use spdy.Framer.Read.{has_invalid, invalid_resp_headers}
use spdy.Framer.Write.{marshal, write_syn_stream, write_control_frame_header}
use spdy.Framer.{send}
use spdy.Http.Framing.{request_framing_header}
use spdy.Session.Calls.{Sent, open_stream, header}
use spdy.Tests.Frames.{stored, plain}
use spdy.Tests.Sessions.{client, small}
use spdy.Tests.Requests.{net, page}

-- A client with a stream, whose connection takes no bytes.
abbrev unheard : Session stored
unheard = record (client 3) { fr = plain 0 }

unheard-IsValid : IsValid stored unheard
unfolding lookup
unheard-IsValid = record {
  parity = refl;
  positive = omega arith;
  used = λ p h. (omega arith, omega arith);
  held = λ id p e. ground (arith, e);
  live = λ p h o. ground arith;
}

unheard_gave_up :
    (x : Failure) × (begin_round_trip stored net page unheard
      ≡ (gave_up x, (begin_round_trip stored net page unheard).1))
unfolding begin_round_trip start request_framing_header open_stream add write_frame put new_stream
    wclose maybe_remove spdy.Framer.Write.write_frame write_syn_stream marshal
    write_control_frame_header send
unheard_gave_up = (_, refl)

-- The stream that it had is still there.
unheard_held : get stored 1 (begin_round_trip stored net page unheard).1 ≡ some 0
unfolding get lookup begin_round_trip request_framing_header open_stream add write_frame
    spdy.Framer.Write.write_frame write_syn_stream wclose maybe_remove put new_stream marshal
    write_control_frame_header send rclose insert delete
unheard_held = refl

begin_round_trip-get_example : 0 < 1
begin_round_trip-get_example =
    begin_round_trip-get stored net page unheard (begin_round_trip stored net page unheard).1
      unheard_gave_up.0 1 0 (omega arith) unheard-IsValid unheard_gave_up.1 unheard_held

-- A client that has the reply to its request, one with no fields.
abbrev replied : Session stored
replied = record (client 3) { heap = λ _. record (small 3) { reply = given (some []) } }

replied-IsValid : IsValid stored replied
unfolding lookup
replied-IsValid = record {
  parity = refl;
  positive = omega arith;
  used = λ p h. (omega arith, omega arith);
  held = λ id p e. ground (arith, e);
  live = λ p h o. ground arith;
}

replied_gave_up :
    (x : Failure) × (t : Session stored) × (finish_round_trip stored net 0 (codes "GET") replied
      ≡ some (gave_up x, t))
unfolding finish_round_trip header read_response first_bad values_of parse_int before_space
    spdy.Http.get
replied_gave_up = (_, _, refl)

finish_round_trip_drops_example : get stored 1 replied_gave_up.1 ≢ some 0
finish_round_trip_drops_example =
    finish_round_trip_drops stored net 0 1 (codes "GET") replied replied_gave_up.1 replied_gave_up.0
      replied-IsValid replied_gave_up.2

finish_round_trip-tear_down_example :
    (r : Attempt Answer × Session stored) × (finish_round_trip stored net 0
        (codes "GET")
        (tear_down stored eof (client 3))
      ≡ some r)
unfolding lookup
finish_round_trip-tear_down_example =
    finish_round_trip-tear_down stored net 0 1 (codes "GET") (client 3) eof refl

-- A reader that gives a list of chunks, one by one.
abbrev read_chunk : ℕ → List Bytes → (Bytes × Status) × List Bytes
read_chunk n [] = (([], at_eof), [])
read_chunk n (c ∷ cs) = ((take n c, fine), cs)

abbrev chunks : List Bytes
chunks = (1 ∷ 2 ∷ []) ∷ (3 ∷ []) ∷ []

abbrev checksum : Header
checksum = (codes "X-Sum", codes "6" ∷ []) ∷ []

-- A reply with a field that a reader of SYN_REPLY refuses.
read_response-has_invalid_example :
    is_refused
      (read_response net ((codes "Keep-Alive", codes "5" ∷ []) ∷ []) none (some 0) (codes "GET"))
    ≡ has_invalid invalid_resp_headers ((codes "Keep-Alive", codes "5" ∷ []) ∷ [])
read_response-has_invalid_example =
    read_response-has_invalid net ((codes "Keep-Alive", codes "5" ∷ []) ∷ []) none (some 0)
      (codes "GET")

-- A body in two reads, on a stream with a window for all of it.
abbrev upload : Content
upload = record { chunks = (1 ∷ 2 ∷ []) ∷ (3 ∷ []) ∷ []; is_broken = false }

copy_body_lem_example :
    (r : Sent (Session stored)) × (copy_body stored net 0 upload (client 8) ≡ some r)
    × Copied stored net 0 upload (client 8) r
copy_body_lem_example =
    copy_body_lem stored net 0 upload (client 8) (omega arith, (omega arith, tt))
      ((omega arith, omega arith), λ shut. cc)
