-- ===== src/Tests/Sessions.antt =====
-- Runs of the sessions of spdyframing/session.go, over the stand-in for package zlib.
use spdy.Base.{
  ℕ, ◌≡◌, ◌≢◌, ◌-◌, ◌^◌, ◌≤◌, ◌<◌, ◌⊎◌, length, refl, Bytes, [], ◌∷◌, replicate, length-replicate,
  true, false, none, some, inl, arith,
}
use spdy.Base.Int.{pos}
use spdy.Errors.{closing, framing, invalid_data_frame}
use spdy.Frame.{DataFrame}
use spdy.Session.{Session, Stream, awaited, start, get, has_flag, data_flag_fin}
use spdy.Session.Table.{lookup}
use spdy.Session.Receive.{read_loop, handle_data}
use spdy.Session.Calls.{Sent, sent, open_stream, header, reset_stream, write, write_data, close}
use spdy.Session.Inv.{IsValid}
use spdy.Session.Reach.{opens, closes, here, next, Reach, Reach-IsValid}
use spdy.Session.Loop.{read_loop_ends}
use spdy.Wire.{err}
use spdy.Session.Writing.{Wrote, write_lem}
use spdy.Session.Delivery.{room, IsDelivered, IsRefused, handle_data_lem}
use spdy.Session.Resets.{reset_strands}
use spdy.Session.Oversize.{write_data_oversize}
use spdy.Tests.Frames.{stored, plain, pinged, fields}

-- A stream that a client has opened, with `window` bytes to send, two bytes unread and room for two.
abbrev pub small : ℕ → Stream
small window = record {
  id = 1;
  pipe = record { buf = 1 ∷ 2 ∷ 0 ∷ 0 ∷ []; r = 0; w = 2; closed = false; err = none };
  rclosed = false;
  wready = true;
  wnd = record { n = pos window; closed = false; err = none };
  wclosed = false;
  header = none;
  reply = awaited;
}

abbrev pub client : ℕ → Session stored
client window = record {
  fr = pinged;
  rstreams = (1, 0) ∷ [];
  next_syn_id = 3;
  initwnd = pos window;
  closing = false;
  last_recv_id = 0;
  err = none;
  is_server = false;
  done = false;
  heap = λ _. small window;
  count = 1;
  tasks = [];
}

pub client-IsValid : (window : ℕ) → IsValid stored (client window)
unfolding lookup
client-IsValid window = record {
  parity = refl;
  positive = omega arith;
  used = λ p h. (omega arith, omega arith);
  held = λ id p e. ground (arith, e);
  live = λ p h o. ground arith;
}

-- A server opens a stream and closes it for writing.
abbrev first_calls : Session stored
first_calls = (close stored 0 (open_stream stored fields 0 (start stored (plain 100) true)).1).1

first_calls-Reach : Reach stored (start stored (plain 100) true) first_calls
unfolding start
first_calls-Reach = next (next here (opens fields 0 (omega arith))) (closes 0)

Reach-IsValid_example : IsValid stored first_calls
Reach-IsValid_example = Reach-IsValid stored (plain 100) true first_calls-Reach

read_loop_ends_example :
    (t : Session stored) × (read_loop stored 20 (client 3) ≡ some t)
    × (t.closing ≡ true)
    × (t.done ≡ true)
read_loop_ends_example = read_loop_ends stored 20 (client 3) (omega arith)

-- Three of the five bytes go out, and the rest waits for the window.
write_lem_example :
    (r : Sent (Session stored)) × (write stored 6 0 (1 ∷ 2 ∷ 3 ∷ 4 ∷ 5 ∷ []) (client 3) ≡ some r)
    × Wrote stored 0 (1 ∷ 2 ∷ 3 ∷ 4 ∷ 5 ∷ []) (client 3) r
write_lem_example =
    write_lem stored 6 0 (1 ∷ 2 ∷ 3 ∷ 4 ∷ 5 ∷ []) (client 3) (omega arith) (omega arith)
      ((omega arith, omega arith), λ shut. cc)

-- Data that fits, and ends the stream.
abbrev last_data : DataFrame
last_data = record { stream_id = 1; flags = 1; content = 8 ∷ 9 ∷ [] }

pub small-IsValid : (window : ℕ) → spdy.Buffer.Inv.IsValid (small window).pipe
small-IsValid window = record {
  ordered = omega arith;
  in_range = omega arith;
  ended = inl (refl, refl);
}

handle_data_lem_example :
    ((length last_data.content ≤ room (small 3).pipe)
      × IsDelivered stored 0 last_data.content
          (has_flag last_data.flags data_flag_fin)
          (client 3)
          (handle_data stored last_data (client 3)))
    ⊎ ((room (small 3).pipe < length last_data.content)
        × IsRefused stored 0 (client 3) (handle_data stored last_data (client 3)))
unfolding get lookup
handle_data_lem_example =
    handle_data_lem stored last_data (client 3) 0 refl refl (small-IsValid 3, refl)

reset_strands_example :
    (header stored 0 (reset_stream stored 0 5 (client 3)).1 ≡ none)
    × (get stored 1 (reset_stream stored 0 5 (client 3)).1 ≢ some 0)
reset_strands_example = reset_strands stored (client 3) 0 5 1 (client-IsValid 3) refl

of_length : (n : ℕ) → (bytes : Bytes) × (length bytes ≡ n)
of_length n = (replicate n 7, length-replicate n 7)

write_data_oversize_example :
    (t : Session stored) × (write_data stored 0 (of_length (2 ^ 24)).0 (client (2 ^ 25))
      ≡ sent 0 (some (framing invalid_data_frame 1)) t)
    × (t.fr ≡ pinged)
    × ((t.heap 0).wnd.n ≡ pos (2 ^ 25 - length (of_length (2 ^ 24)).0))
write_data_oversize_example =
    write_data_oversize stored 0 (2 ^ 25) (of_length (2 ^ 24)).0 (client (2 ^ 25))
      (λ e. omega arith) refl refl refl refl (omega arith) (omega (arith, (of_length (2 ^ 24)).1))
      (omega (arith, (of_length (2 ^ 24)).1))
