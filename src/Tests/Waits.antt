-- ===== src/Tests/Waits.antt =====
-- A server whose connection ends at once.
use spdy.Base.{◌≡◌, ◌≢◌, refl, true, some, none, arith}
use spdy.Errors.{eof}
use spdy.Session.{Session, start}
use spdy.Session.Receive.{read_round, tear_down, abandon}
use spdy.Framer.{receive, receive_number}
use spdy.Framer.Read.{read_frame}
use spdy.Wire.{read_full}
use spdy.Session.Calls.{open_stream, wait}
use spdy.Session.Reach.{Reach, here, next, reads_frame, opens}
use spdy.Session.Waits.{Reach-wait}
use spdy.Tests.Frames.{stored, plain, fields}

abbrev ended : Session stored
ended = (read_round stored (start stored (plain 100) true)).1

ended-Reach : Reach stored (start stored (plain 100) true) ended
unfolding start
ended-Reach = next here (reads_frame refl)

ended_waited : wait stored ended ≡ some (some eof)
unfolding wait read_round start read_frame receive_number receive read_full tear_down abandon
ended_waited = refl

-- A call of Open comes too late.
abbrev late : Session stored
late = (open_stream stored fields 0 ended).1

late-Reach : Reach stored ended late
unfolding read_round start read_frame receive_number receive read_full tear_down abandon
late-Reach = next here (opens fields 0 (omega arith))

Reach-wait_example :
    (some eof ≢ none) × (wait stored late ≡ some (some eof)) × (late.closing ≡ true)
Reach-wait_example =
    Reach-wait stored (plain 100) true (some eof) ended-Reach ended_waited late-Reach
