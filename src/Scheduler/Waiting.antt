-- ===== src/Scheduler/Waiting.antt =====
-- internal/scheduler/scheduler.go: the wait queue of a local API, in Wait.
-- A waiter holds the generation that it read on entering. The lock is given up only while it sleeps, so
-- entering, and each round of its loop, is one atomic step; the environment chooses whose round is next,
-- the state of that waiter's context and the time. Sleeping, timers and broadcasts only decide when a
-- round is run, and are not modelled. The counts are int and int64 in Go and are left unbounded.
use api_gateway.Prelude.{
  ℕ, zero, suc, ◌+◌, ◌-◌, ◌≡◌, ◌<◌, ◌≤◌, refl, Bool, true, false, not, ◌&&◌, ◌||◌, Option, none,
  some, List, [], ◌∷◌, arith, if◌then◌else◌, leb, ◌==◌, ℤ, pos_part, is_positive, All, length, ◌⊎◌,
  inl, inr, Bool-cases,
}
use api_gateway.Clock.{Time, after, is_zero}
use api_gateway.Scheduler.Manager.{WaitQueue}

pub data ContextError : Type 0 where
  deadline_exceeded canceled : ContextError

pub data WaitResult : Type 0 where
  ready queue_full queue_cleared wait_timeout still_waiting : WaitResult
  context_error : ContextError → WaitResult

-- `q.count >= m.cfg.QueueMaxLen` refuses.
unfoldable pub enter : ℤ → WaitQueue → WaitQueue × Bool
enter max_len q =
    if leb (pos_part max_len) q.count then (q, false) else (record q { count = q.count + 1 }, true)

abbrev pub is_deadline : ContextError → Bool
is_deadline deadline_exceeded = true
is_deadline canceled = false

-- One round of the loop, before the decrement on leaving: `timed` says whether RequestMaxWait is set.
unfoldable pub round :
    Bool → Option ContextError → Time → Time → ℕ → WaitQueue → WaitQueue × WaitResult
round timed error until now generation q =
    if not (q.generation == generation) then (q, queue_cleared) else elim error [
      | some e ↦
          if timed && is_deadline e
          then (record q { generation = q.generation + 1 }, wait_timeout)
          else (q, context_error e)
      | none ↦ if is_zero until || not (after until now) then (q, ready) else (q, still_waiting)
    ]

abbrev pub stays : WaitResult → Bool
stays still_waiting = true
stays _ = false

-- The deferred `q.count--`, on every result but going on waiting.
unfoldable pub poll :
    Bool → Option ContextError → Time → Time → ℕ → WaitQueue → WaitQueue × WaitResult
unfolding round
poll timed error until now generation q =
    let (q', res) = round timed error until now generation q in
    (if stays res then q' else record q' { count = q'.count - 1 }, res)

-- The queue and the generations of those who wait in it.
pub record Room : Type 0 where
  pub queue : WaitQueue
  pub waiters : List ℕ

-- The rest of a list without its element at a place.
abbrev pub remove_at : ℕ → List ℕ → List ℕ
remove_at i [] = []
remove_at zero (g ∷ gs) = gs
remove_at (suc i) (g ∷ gs) = g ∷ remove_at i gs

abbrev pub nth_or : ℕ → List ℕ → ℕ → ℕ
nth_or i [] d = d
nth_or zero (g ∷ gs) d = g
nth_or (suc i) (g ∷ gs) d = nth_or i gs d

unfoldable pub arrive : ℤ → Room → Room
unfolding enter
arrive max_len r =
    let (q, entered) = enter max_len r.queue in
    if entered then record { queue = q; waiters = r.queue.generation ∷ r.waiters } else r

unfoldable pub wake : ℕ → Bool → Option ContextError → Time → Time → Room → Room
wake i timed error until now r =
    let (q, res) = poll timed error until now (nth_or i r.waiters 0) r.queue in
    record { queue = q; waiters = if stays res then r.waiters else remove_at i r.waiters }

pub data Step (max_len : ℤ) (r : Room) : Room → Type 0 where
  arrives : Step max_len r (arrive max_len r)
  wakes :
      (i : ℕ) (timed : Bool) (error : Option ContextError) (until now : Time)
      → i < length r.waiters
      → Step max_len r (wake i timed error until now r)

abbrev pub empty_room : Room
empty_room = record { queue = record { count = 0; generation = 0 }; waiters = [] }

pub data Reach (max_len : ℤ) : Room → Type 0 where
  start : Reach max_len empty_room
  also : {r s : Room} → Reach max_len r → Step max_len r s → Reach max_len s

pub record Inv (max_len : ℤ) (r : Room) : Type 0 where
  pub counted : r.queue.count ≡ length r.waiters
  pub bounded : r.queue.count ≤ pos_part max_len
  pub known : All (λ g. g ≤ r.queue.generation) r.waiters

length-remove_at : (i : ℕ) (gs : List ℕ) → i < length gs → length (remove_at i gs) + 1 ≡ length gs
length-remove_at i [] h = elim h [ ]
length-remove_at zero (g ∷ gs) h = omega arith
length-remove_at (suc i) (g ∷ gs) h = omega (arith, length-remove_at i gs (omega arith))

module _ (P : ℕ → Type 0) where
  All-remove_at : (i : ℕ) (gs : List ℕ) → All P gs → All P (remove_at i gs)
  All-remove_at i [] a = tt
  All-remove_at zero (g ∷ gs) a = a.1
  All-remove_at (suc i) (g ∷ gs) a = (a.0, All-remove_at i gs a.1)

All-le_mono : (a b : ℕ) (gs : List ℕ) → a ≤ b → All (λ g. g ≤ a) gs → All (λ g. g ≤ b) gs
All-le_mono a b [] h k = tt
All-le_mono a b (g ∷ gs) h k = (omega arith, All-le_mono a b gs h k.1)

arrive-Inv :
    (max_len : ℤ) (r : Room)
    → is_positive max_len ≡ true
    → Inv max_len r
    → Inv max_len (arrive max_len r)
unfolding arrive
arrive-Inv max_len r p v = elim (Bool-cases (leb (pos_part max_len) r.queue.count)) [
  | inl full ↦ rw (full, arrive, enter) v
  | inr room ↦
      rw (room, arrive, enter)
        (record {
          counted = omega (arith, v.counted);
          bounded = ground arith;
          known = (omega arith, v.known);
        })
]

-- A round leaves the queue alone and the waiter in it, or takes the waiter out.
poll_cases :
    (timed : Bool) (error : Option ContextError) (until now : Time) (g : ℕ) (q : WaitQueue)
    → let (q', res) = poll timed error until now g q in
      ((stays res ≡ true) × (q' ≡ q))
      ⊎ ((stays res ≡ false) × (q'.count ≡ q.count - 1) × (q.generation ≤ q'.generation))
unfolding poll
poll_cases timed error until now g q = ground arith

wake-Inv :
    (max_len : ℤ) (i : ℕ) (timed : Bool) (error : Option ContextError) (until now : Time) (r : Room)
    → i < length r.waiters
    → Inv max_len r
    → Inv max_len (wake i timed error until now r)
unfolding wake
wake-Inv max_len i timed error until now r h v =
    elim (poll_cases timed error until now (nth_or i r.waiters 0) r.queue) [
      | inl (s, e) ↦ rw (s, e) v
      | inr (s, c, g) ↦ rw s (record {
        counted = omega (arith, c, length-remove_at i r.waiters h, v.counted);
        bounded = omega (arith, c, v.bounded);
        known =
            All-le_mono r.queue.generation _ (remove_at i r.waiters) g
              (All-remove_at (λ n. n ≤ r.queue.generation) i r.waiters v.known);
      })
    ]

Step-Inv :
    (max_len : ℤ) {r s : Room}
    → is_positive max_len ≡ true
    → Step max_len r s
    → Inv max_len r
    → Inv max_len s
Step-Inv max_len {r} p arrives v = arrive-Inv max_len r p v
Step-Inv max_len {r} p (wakes i timed error until now h) v =
    wake-Inv max_len i timed error until now r h v

-- With a positive maximum: in any interleaving of arrivals and wake-ups the count is the number of those who wait and never passes
-- the configured maximum, and no waiter has a generation that the queue has not reached.
pub empty_room-Reach-Inv :
    (max_len : ℤ) {r : Room} → is_positive max_len ≡ true → Reach max_len r → Inv max_len r
empty_room-Reach-Inv max_len p start = record { counted = refl; bounded = omega arith; known = tt }
empty_room-Reach-Inv max_len p (also q s) = Step-Inv max_len p s (empty_room-Reach-Inv max_len p q)

-- The rooms that steps lead to.
pub data Later (max_len : ℤ) (r : Room) : Room → Type 0 where
  at_once : Later max_len r r
  and_then : {s t : Room} → Later max_len r s → Step max_len s t → Later max_len r t

poll_generation :
    (timed : Bool) (error : Option ContextError) (until now : Time) (g : ℕ) (q : WaitQueue)
    → q.generation ≤ (poll timed error until now g q).0.generation
unfolding poll
poll_generation timed error until now g q = ground arith

Step-generation :
    (max_len : ℤ) {r s : Room} → Step max_len r s → r.queue.generation ≤ s.queue.generation
unfolding arrive wake enter
Step-generation max_len {r} arrives = ground arith
Step-generation max_len {r} (wakes i timed error until now h) =
    poll_generation timed error until now (nth_or i r.waiters 0) r.queue

Later-generation :
    (max_len : ℤ) {r s : Room} → Later max_len r s → r.queue.generation ≤ s.queue.generation
Later-generation max_len at_once = omega arith
Later-generation max_len (and_then l p) =
    omega (arith, Later-generation max_len l, Step-generation max_len p)

nth_or-All : (P : ℕ → Type 0) (i : ℕ) (gs : List ℕ) → All P gs → i < length gs → P (nth_or i gs 0)
nth_or-All P i [] a h = elim h [ ]
nth_or-All P zero (g ∷ gs) a h = a.0
nth_or-All P (suc i) (g ∷ gs) a h = nth_or-All P i gs a.1 (omega arith)

wake_timeout :
    (i : ℕ) (timed : Bool) (error : Option ContextError) (until now : Time) (r : Room)
    → (poll timed error until now (nth_or i r.waiters 0) r.queue).1 ≡ wait_timeout
    → (wake i timed error until now r).queue.generation ≡ r.queue.generation + 1
unfolding wake poll
wake_timeout i timed error until now r h = ground arith

poll_cleared :
    (timed : Bool) (error : Option ContextError) (until now : Time) (g : ℕ) (q : WaitQueue)
    → g < q.generation
    → (poll timed error until now g q).1 ≡ queue_cleared
unfolding poll
poll_cleared timed error until now g q h = ground arith

-- With a positive maximum: once the round of a waiter has ended with the wait timeout, in any queue that can
-- come about, everybody who waited in it then is turned away: after any further arrivals and
-- wake-ups, however many, the round of each of them finds the queue cleared, whatever its context and the
-- time are.
pub timeout_clears :
    (max_len : ℤ) {r t : Room} (i : ℕ) (timed : Bool) (error : Option ContextError)
    (until now : Time)
    → is_positive max_len ≡ true
    → Reach max_len r
    → (poll timed error until now (nth_or i r.waiters 0) r.queue).1 ≡ wait_timeout
    → Later max_len (wake i timed error until now r) t
    → (j : ℕ) (timed' : Bool) (error' : Option ContextError) (until' later : Time)
    → j < length r.waiters
    → (poll timed' error' until' later (nth_or j r.waiters 0) t.queue).1 ≡ queue_cleared
timeout_clears max_len {r} {t} i timed error until now p q e l j timed' error' until' later h =
    let v = empty_room-Reach-Inv max_len p q in
    poll_cleared timed' error' until' later (nth_or j r.waiters 0) t.queue (
      omega (
        arith,
        nth_or-All (λ g. g ≤ r.queue.generation) j r.waiters v.known h,
        wake_timeout i timed error until now r e,
        Later-generation max_len l,
      ))
