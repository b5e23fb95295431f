-- ===== src/Tests/Windows.antt =====
-- Runs of the send window of spdyframing/semaphore.go.
use spdy.Base.{◌≡◌, ◌↔◌, refl, [], ◌∷◌, false, true, none, inl, arith}
use spdy.Base.Int.{pos, ◌+ℤ◌, ◌≤ℤ◌, ◌-ℤ◌, add_i32, sub_i32}
use spdy.Errors.{eof}
use spdy.Semaphore.{Semaphore, dec, inc, close}
use spdy.Semaphore.Bounds.{max_i32, IsWindow, Served, inc_lem, inc-IsWindow, dec_lem}
use spdy.Semaphore.Window.{History, start, decs, incs, closes, grants_balance}
use spdy.Semaphore.Wakeup
use spdy.Semaphore.Wakeup.{
  Waiting, call_dec, call_inc, call_close, resume, resumed, Reach, here, next, resumes, IsServed,
  Reach-IsServed, close_wakes,
}

abbrev ten : Semaphore
ten = record { n = pos 10; closed = false; err = none }

abbrev none_left : Semaphore
none_left = record { n = pos 0; closed = false; err = none }

ten-IsWindow : IsWindow ten
ten-IsWindow = (omega arith, omega arith)

inc_lem_example : ((inc ten (pos 7)).0 ≡ none) ↔ ((pos 1 ≤ℤ pos 7) × (pos 10 +ℤ pos 7 ≤ℤ max_i32))
inc_lem_example = inc_lem ten (pos 7) (omega arith) (omega arith)

inc-ten : (inc ten (pos 7)).0 ≡ none
unfolding inc add_i32 ◌+ℤ◌
inc-ten = refl

inc-IsWindow_example : ((inc ten (pos 7)).1.n ≡ pos 10 +ℤ pos 7) × IsWindow (inc ten (pos 7)).1
inc-IsWindow_example = inc-IsWindow ten (pos 7) ten-IsWindow (omega arith) inc-ten

dec_lem_example : Served ten 4 (dec ten (pos 4))
dec_lem_example = dec_lem ten 4 ten-IsWindow (omega arith) (omega arith)

abbrev six_left : Semaphore
six_left = record { n = pos 6; closed = false; err = none }

-- `Dec` takes four, `Inc` adds seven, and the window is closed.
four_taken : History ten six_left 4 0
unfolding dec sub_i32 ◌-ℤ◌
four_taken = decs 4 4 six_left start (omega arith) (omega arith) refl

inc-six : (inc six_left (pos 7)).0 ≡ none
unfolding inc add_i32 ◌+ℤ◌
inc-six = refl

past_ten : History ten (close (inc six_left (pos 7)).1 eof) 4 7
past_ten = closes eof (incs 7 four_taken (omega arith) inc-six)

grants_balance_example :
    ((close (inc six_left (pos 7)).1 eof).n +ℤ pos 4 ≡ pos 10 +ℤ pos 7)
    × IsWindow (close (inc six_left (pos 7)).1 eof)
grants_balance_example =
    grants_balance {s = ten} {t = close (inc six_left (pos 7)).1 eof} {g = 4} {a = 7} ten-IsWindow
      past_ten

-- One writer goes to sleep at an empty window, is woken by an increment, and resumes.
abbrev idle : Waiting
idle = record { sem = none_left; asleep = []; awake = [] }

idle-IsServed : IsServed idle
idle-IsServed = record { single = omega arith; rightly = inl refl }

abbrev blocked : Waiting
blocked = call_dec idle (pos 3)

woken : Reach idle (resume (call_inc blocked (pos 5)))
woken = next (next (next here (Wakeup.decs (pos 3) refl refl)) (Wakeup.incs (pos 5))) resumes

Reach-IsServed_example : IsServed (resume (call_inc blocked (pos 5)))
Reach-IsServed_example =
    Reach-IsServed {s = idle} {t = resume (call_inc blocked (pos 5))} idle-IsServed woken

abbrev two_asleep : Waiting
two_asleep = record { sem = none_left; asleep = pos 3 ∷ pos 4 ∷ []; awake = [] }

close_wakes_example :
    let s = resumed 2 (call_close two_asleep eof) in
    (s.asleep ≡ []) × (s.awake ≡ []) × (s.sem.closed ≡ true)
close_wakes_example = close_wakes two_asleep eof (λ e. cc)
