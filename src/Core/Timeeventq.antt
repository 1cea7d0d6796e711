-- ===== src/Core/Timeeventq.antt =====
-- avahi-core/timeeventq.c: timers in a priority queue, and the one timeout of the event loop that wakes
-- them. The event loop is what it was last told by `timeout_update`. The place of an event in the queue is
-- that of its node. `fix_expiry_time` returns before it does anything.
pub mod Events
pub mod Armed
use nvmrdisplay.Prelude.{ℕ, zero, suc, ◌==◌, Bool, true, false, Option, none, some, if◌then◌else◌}
use nvmrdisplay.Prelude.Int.{ℤ, pos, negsuc, ltb_ℤ}
use nvmrdisplay.Common.Timeval.{Timeval, timeval_compare}
use mathlib.Core.Option
use nvmrdisplay.Core.Prioq.{Queue, set_node, shuffle, put, remove}

-- `AvahiTimeEvent`; the call-back and its argument are what `action` stands for.
pub record TimeEvent {ℓ} (A : Type ℓ) : Type ℓ where
  pub expiry : Timeval
  pub last_run : Timeval
  pub action : A

-- `AvahiTimeEventQueue`
pub record TimeEventQueue {ℓ} (A : Type ℓ) : Type ℓ where
  pub prioq : Queue (TimeEvent A)
  pub timeout : Option Timeval

-- The time whose seconds and microseconds are zero.
abbrev pub no_time : Timeval
no_time = record { sec = pos 0; usec = pos 0 }

abbrev pub is_zero : ℤ → Bool
is_zero (pos zero) = true
is_zero (pos (suc n)) = false
is_zero (negsuc n) = false

module _ {ℓ} {A : Type ℓ} where
  unfoldable pub compare : TimeEvent A → TimeEvent A → ℤ
  compare a b =
      let ret = timeval_compare a.expiry b.expiry in
      let by_run = timeval_compare a.last_run b.last_run in if is_zero ret then by_run else ret

  -- `avahi_time_event_queue_new`; what stands in the place of the nodes that are not there is any event.
  unfoldable pub time_event_queue_new : (ℕ → TimeEvent A) → TimeEventQueue A
  time_event_queue_new absent = record {
    prioq = record { n_nodes = 0; node = absent };
    timeout = none;
  }

  unfoldable pub time_event_queue_root : TimeEventQueue A → Option (TimeEvent A)
  time_event_queue_root q = if q.prioq.n_nodes == 0 then none else some (q.prioq.node 0)

  unfoldable pub update_timeout : TimeEventQueue A → TimeEventQueue A
  unfolding time_event_queue_root
  update_timeout q = record q { timeout = Option.map (λ e. e.expiry) (time_event_queue_root q) }

  -- `avahi_time_event_new`, where a time that is not given is zero.
  unfoldable pub time_event_new : Option Timeval → A → TimeEventQueue A → TimeEventQueue A
  unfolding update_timeout
  time_event_new t action q =
      let expiry : Timeval = elim t [ none ↦ no_time | some e ↦ e ] in
      update_timeout (record q {
        prioq =
            put compare (record { expiry = expiry; last_run = no_time; action = action }) q.prioq;
      })

  unfoldable pub time_event_free : ℕ → TimeEventQueue A → TimeEventQueue A
  unfolding update_timeout
  time_event_free i q = update_timeout (record q { prioq = remove compare i q.prioq })

  -- The node i gets another event, and is shuffled.
  unfoldable pub replace : ℕ → TimeEvent A → Queue (TimeEvent A) → Queue (TimeEvent A)
  replace i e q = shuffle compare i (record q { node = set_node i e q.node })

  unfoldable pub time_event_update : ℕ → Timeval → TimeEventQueue A → TimeEventQueue A
  unfolding update_timeout replace
  time_event_update i t q =
      update_timeout
        (record q { prioq = replace i (record (q.prioq.node i) { expiry = t }) q.prioq })

  -- The root, if it is expired.
  unfoldable pub due : Timeval → TimeEventQueue A → Option (TimeEvent A)
  unfolding time_event_queue_root
  due now q = elim (time_event_queue_root q) [
    | none ↦ none
    | some e ↦ if ltb_ℤ (timeval_compare now e.expiry) (pos 0) then none else some e
  ]

  module _ (call_back : A → TimeEventQueue A → TimeEventQueue A) where
    -- An event that is due leaves the front and is called back; it calls the queue as it likes.
    unfoldable pub run_due : Timeval → TimeEventQueue A → Option (TimeEvent A) → TimeEventQueue A
    unfolding replace
    run_due now q none = q
    run_due now q (some e) =
        call_back e.action (record q { prioq = replace 0 (record e { last_run = now }) q.prioq })

    unfoldable pub expiration_event : Timeval → TimeEventQueue A → TimeEventQueue A
    unfolding due update_timeout run_due
    expiration_event now q = update_timeout (run_due now q (due now q))
