-- ===== src/Core/TimerTests.antt =====
-- Small queues: the theorems on the priority queue and on its timers at concrete events.
use nvmrdisplay.Prelude.{
  ℕ, ◌+◌, ◌-◌, ◌*◌, ◌/◌, ◌<◌, ◌≡◌, ◌⊎◌, refl, arith, Bool, none, some, ltb, if◌then◌else◌,
}
use nvmrdisplay.Prelude.Int.{ℤ, pos, sub_ℕ}
use nvmrdisplay.Common.Timeval.{Timeval, timeval_compare}
use nvmrdisplay.Core.Prioq.{Queue, shuffle, put, remove}
use nvmrdisplay.Core.Prioq.Order.{IsOrder, IsHeap, IsHeapBut}
use nvmrdisplay.Core.Prioq.Heap.{shuffle-IsHeap}
use nvmrdisplay.Core.Prioq.Bag.{count, count-remove}
use nvmrdisplay.Core.Timeeventq.{
  TimeEvent, TimeEventQueue, time_event_queue_new, time_event_new, expiration_event, update_timeout,
  replace,
}
use nvmrdisplay.Core.Timeeventq.Events.{NotLater}
use nvmrdisplay.Core.Timeeventq.Armed.{Reaches, start, added, Reaches-timeout, expiration_event_lem}

-- Numbers by their size.
abbrev by_size : ℕ → ℕ → ℤ
by_size a b = sub_ℕ a b

by_size-IsOrder : IsOrder by_size
by_size-IsOrder = record { swap = λ a b. ground arith; trans = λ a b c h g. ground (arith, h, g) }

-- 1, 5 and 3, and the same with 9 in place of 1.
abbrev three_numbers : Queue ℕ
three_numbers = record { n_nodes = 3; node = λ i. if ltb i 1 then 1 else if ltb i 2 then 5 else 3 }

abbrev nine_at_root : Queue ℕ
nine_at_root = record { n_nodes = 3; node = λ i. if ltb i 1 then 9 else if ltb i 2 then 5 else 3 }

abbrev is_odd : ℕ → Bool
is_odd n = ltb 0 (n - n / 2 * 2)

nine_at_root-IsHeapBut : IsHeapBut by_size 0 nine_at_root
nine_at_root-IsHeapBut = record {
  edges = λ k kl kh nk np. absurd (ground (arith, kl, kh, np));
  around = λ k il kl kh e. absurd (omega (arith, il));
}

shuffle-IsHeap_example : IsHeap by_size (shuffle by_size 0 nine_at_root)
shuffle-IsHeap_example =
    shuffle-IsHeap by_size by_size-IsOrder 0 nine_at_root (omega arith) nine_at_root-IsHeapBut

count-remove_example : 1 + count is_odd (remove by_size 1 three_numbers) ≡ 3
count-remove_example = count-remove is_odd by_size 1 three_numbers (omega arith)

abbrev seconds : ℕ → Timeval
seconds n = record { sec = pos n; usec = pos 0 }

abbrev absent : ℕ → TimeEvent ℕ
absent i = record { expiry = seconds 0; last_run = seconds 0; action = i }

-- One timer, for the fifth second.
abbrev one_timer : TimeEventQueue ℕ
one_timer = time_event_new (some (seconds 5)) 1 (time_event_queue_new absent)

abbrev ignore : ℕ → TimeEventQueue ℕ → TimeEventQueue ℕ
ignore a q = q

one_timer-Reaches : Reaches ignore one_timer
one_timer-Reaches = added (some (seconds 5)) 1 (start absent)

Reaches-timeout_example :
    ((one_timer.prioq.n_nodes ≡ 0) × (one_timer.timeout ≡ none))
    ⊎ ((i : ℕ) × (i < one_timer.prioq.n_nodes)
        × (one_timer.timeout ≡ some (one_timer.prioq.node i).expiry)
        × ((k : ℕ)
            → k < one_timer.prioq.n_nodes
            → NotLater (one_timer.prioq.node i).expiry (one_timer.prioq.node k).expiry))
Reaches-timeout_example = Reaches-timeout ignore (λ a q w. w) one_timer-Reaches

-- The sixth second.
expiration_event_lem_example :
    (i : ℕ) × (i < one_timer.prioq.n_nodes)
    × (expiration_event ignore (seconds 6) one_timer
        ≡ update_timeout (record one_timer {
          prioq =
              replace i (record (one_timer.prioq.node i) { last_run = seconds 6 }) one_timer.prioq;
        }))
    × NotLater (one_timer.prioq.node i).expiry (seconds 6)
    × ((j : ℕ)
        → j < one_timer.prioq.n_nodes
        → NotLater (one_timer.prioq.node i).expiry (one_timer.prioq.node j).expiry)
unfolding time_event_new put time_event_queue_new timeval_compare
expiration_event_lem_example =
    expiration_event_lem ignore (seconds 6) 0 (λ a q w. w) one_timer-Reaches (omega arith) refl
