-- ===== src/Tests/Queue.antt =====
-- Concrete runs of the theorems on the wait queue.
use api_gateway.Prelude.{◌≡◌, refl, true, none, some, arith, pos}
use api_gateway.Scheduler.Waiting.{
  Room, Inv, Step, Reach, Later, deadline_exceeded, wait_timeout, queue_cleared, poll, arrive, wake,
  empty_room, empty_room-Reach-Inv, timeout_clears,
}

-- Two requests wait, of at most two; the wait of the first comes to its deadline.
abbrev two_waiting : Room
two_waiting = arrive (pos 2) (arrive (pos 2) empty_room)

two_waiting-Reach : Reach (pos 2) two_waiting
two_waiting-Reach = Reach.also (Reach.also Reach.start Step.arrives) Step.arrives

empty_room-Reach-Inv_example :
    Inv (pos 2) (wake 1 true (some deadline_exceeded) 900 100 two_waiting)
unfolding arrive
empty_room-Reach-Inv_example = empty_room-Reach-Inv (pos 2) refl (
    Reach.also two_waiting-Reach (Step.wakes 1 true (some deadline_exceeded) 900 100 (omega arith)))

times_out : (poll true (some deadline_exceeded) 900 100 0 two_waiting.queue).1 ≡ wait_timeout
unfolding poll arrive
times_out = refl

-- The first times out, a third arrives, and then the second is woken.
timeout_clears_example :
    (poll true none 900 101 0
      (arrive (pos 2) (wake 1 true (some deadline_exceeded) 900 100 two_waiting)).queue).1
    ≡ queue_cleared
unfolding arrive
timeout_clears_example =
    timeout_clears (pos 2) 1 true (some deadline_exceeded) 900 100 refl two_waiting-Reach times_out
      (Later.and_then Later.at_once Step.arrives) 0 true none 900 101 (omega arith)
