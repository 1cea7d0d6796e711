-- ===== src/Core/Timeeventq/Armed.antt =====
-- The event loop wakes the queue at the time of its earliest event, and that event is run.
use nvmrdisplay.Prelude.{ℕ, ◌<◌, ◌≡◌, refl, ap, ◌∙◌, arith, Bool, true, false, Option, none, some}
use nvmrdisplay.Prelude.{◌==◌, if◌then◌else◌, if_rule, ==_false, ◌⊎◌, inl, inr, ℕ_discrete}
use mathlib.Core.Option
use nvmrdisplay.Prelude.Int.{pos, ltb_ℤ}
use nvmrdisplay.Common.Timeval.{Timeval, timeval_compare}
use nvmrdisplay.Common.Timeval.Order.{timeval_compare_flip, timeval_compare_trans}
use nvmrdisplay.Core.Prioq.{Queue}
use nvmrdisplay.Core.Prioq.Order.{IsHeap}
use nvmrdisplay.Core.Prioq.Heap.{put-IsHeap, remove-IsHeap, root_least}
use nvmrdisplay.Core.Timeeventq.{TimeEvent, TimeEventQueue, compare, time_event_queue_new}
use nvmrdisplay.Core.Timeeventq.{
  time_event_queue_root, update_timeout, time_event_new, time_event_free, replace,
}
use nvmrdisplay.Core.Timeeventq.{time_event_update, due, run_due, expiration_event}
use nvmrdisplay.Core.Timeeventq.Events.{NotLater, compare_expiry, compare-IsOrder, replace-IsHeap}

module _ {ℓ} {A : Type ℓ} where
  -- The queue is in order, and the event loop has the time of its root.
  pub record IsOrdered (q : TimeEventQueue A) : Type ℓ where
    pub heap : IsHeap compare q.prioq
    pub told : q.timeout ≡ (update_timeout q).timeout

  update_timeout-IsOrdered :
      (q : Queue (TimeEvent A)) (t : Option Timeval)
      → IsHeap compare q
      → IsOrdered (update_timeout (record { prioq = q; timeout = t }))
  unfolding update_timeout
  update_timeout-IsOrdered q t w = record { heap = w; told = refl }

  root_none : (q : TimeEventQueue A) → q.prioq.n_nodes ≡ 0 → time_event_queue_root q ≡ none
  unfolding time_event_queue_root
  root_none q e = rw e refl

  root_some :
      (q : TimeEventQueue A) → 0 < q.prioq.n_nodes → time_event_queue_root q ≡ some (q.prioq.node 0)
  unfolding time_event_queue_root
  root_some q low = rw (==_false q.prioq.n_nodes 0 (omega arith)) refl

  due-some :
      (now : Timeval) (q : TimeEventQueue A)
      → 0 < q.prioq.n_nodes
      → NotLater (q.prioq.node 0).expiry now
      → due now q ≡ some (q.prioq.node 0)
  unfolding due
  due-some now q low early =
      rw
        (
          due,
          ==_false q.prioq.n_nodes 0 (omega arith),
          timeval_compare_flip now (q.prioq.node 0).expiry,
          early,
        )
        refl

  module _ (call_back : A → TimeEventQueue A → TimeEventQueue A) where
    -- Call-backs leave the priority queue in order, as those do that only call the functions here.
    abbrev pub IsClient : Type ℓ
    IsClient =
        (a : A) (q : TimeEventQueue A)
        → IsHeap compare q.prioq
        → IsHeap compare (call_back a q).prioq

    -- What a new queue becomes by any calls in any order; the event loop calls at any time.
    pub data Reaches : TimeEventQueue A → Type ℓ where
      start : (absent : ℕ → TimeEvent A) → Reaches (time_event_queue_new absent)
      added :
          {q : TimeEventQueue A} (t : Option Timeval) (a : A)
          → Reaches q
          → Reaches (time_event_new t a q)
      freed :
          {q : TimeEventQueue A} (i : ℕ)
          → i < q.prioq.n_nodes
          → Reaches q
          → Reaches (time_event_free i q)
      updated :
          {q : TimeEventQueue A} (i : ℕ) (t : Timeval)
          → i < q.prioq.n_nodes
          → Reaches q
          → Reaches (time_event_update i t q)
      woken :
          {q : TimeEventQueue A} (now : Timeval)
          → Reaches q
          → Reaches (expiration_event call_back now q)

    run_due-IsHeap :
        (now : Timeval) (q : TimeEventQueue A) (b : Bool) (c : TimeEvent A → Bool)
        → (b ≡ false → 0 < q.prioq.n_nodes)
        → IsClient
        → IsHeap compare q.prioq
        → IsHeap compare
            (run_due call_back now q (elim (if b then none else some (q.prioq.node 0)) [
              | none ↦ none
              | some e ↦ if c e then none else some e
            ])).prioq
    unfolding run_due
    run_due-IsHeap now q true c full client w = w
    run_due-IsHeap now q false c full client w =
        let e = q.prioq.node 0 in
        let moved = replace 0 (record e { last_run = now }) q.prioq in
        if_rule {A = Option (TimeEvent A)} (λ o. IsHeap compare (run_due call_back now q o).prioq)
          (c e) (λ t. w)
          (λ f.
            client e.action (record q { prioq = moved })
              (replace-IsHeap 0 (record e { last_run = now }) q.prioq (full refl) w))

    expiration_event-IsHeap :
        (now : Timeval) (q : TimeEventQueue A)
        → IsClient
        → IsHeap compare q.prioq
        → IsHeap compare (run_due call_back now q (due now q)).prioq
    unfolding due
    expiration_event-IsHeap now q client w =
        run_due-IsHeap now q (q.prioq.n_nodes == 0)
          (λ e. ltb_ℤ (timeval_compare now e.expiry) (pos 0)) (λ e. ground (arith, e)) client w

    Reaches-IsOrdered : {q : TimeEventQueue A} → IsClient → Reaches q → IsOrdered q
    unfolding time_event_new time_event_free time_event_update time_event_queue_new expiration_event
    Reaches-IsOrdered client (start absent) = record {
      heap = λ k kl kh. absurd (omega arith);
      told = refl;
    }
    Reaches-IsOrdered client (added {q} t a r) =
        update_timeout-IsOrdered _ q.timeout
          (put-IsHeap compare compare-IsOrder _ q.prioq (Reaches-IsOrdered client r).heap)
    Reaches-IsOrdered client (freed {q} i low r) =
        update_timeout-IsOrdered _ q.timeout
          (remove-IsHeap compare compare-IsOrder i q.prioq low (Reaches-IsOrdered client r).heap)
    Reaches-IsOrdered client (updated {q} i t low r) =
        update_timeout-IsOrdered _ q.timeout
          (replace-IsHeap i _ q.prioq low (Reaches-IsOrdered client r).heap)
    Reaches-IsOrdered client (woken {q} now r) =
        update_timeout-IsOrdered _ (run_due call_back now q (due now q)).timeout
          (expiration_event-IsHeap now q client (Reaches-IsOrdered client r).heap)

    -- Whatever calls a new queue sees, in whatever order, if call-backs leave its tree in order: without
    -- events no timeout is set, and else the timeout is the time of an event that no event is before.
    pub Reaches-timeout :
        {q : TimeEventQueue A}
        → IsClient
        → Reaches q
        → ((q.prioq.n_nodes ≡ 0) × (q.timeout ≡ none))
          ⊎ ((i : ℕ) × (i < q.prioq.n_nodes)
              × (q.timeout ≡ some (q.prioq.node i).expiry)
              × ((k : ℕ)
                  → k < q.prioq.n_nodes
                  → NotLater (q.prioq.node i).expiry (q.prioq.node k).expiry))
    unfolding update_timeout
    Reaches-timeout {q} client r =
        let v = Reaches-IsOrdered client r in
        elim (ℕ_discrete q.prioq.n_nodes 0) [
          | yes e ↦
              inl (e, v.told ∙ ap (Option.map (λ (t : TimeEvent A). t.expiry)) (root_none q e))
          | no ne ↦
              let low : 0 < q.prioq.n_nodes = omega (arith, ne) in
              inr (
                0,
                low,
                v.told ∙ ap (Option.map (λ (t : TimeEvent A). t.expiry)) (root_some q low),
                λ k kh.
                    compare_expiry (q.prioq.node 0) (q.prioq.node k)
                      (root_least compare compare-IsOrder k q.prioq kh v.heap),
              )
        ]

    -- Whenever an event is expired in what a new queue became by any calls, and the event loop calls,
    -- the call-back of an event is run that is expired and that no event is before, its last run being
    -- noted first, if call-backs leave the tree of the queue in order.
    pub expiration_event_lem :
        {q : TimeEventQueue A} (now : Timeval) (k : ℕ)
        → IsClient
        → Reaches q
        → k < q.prioq.n_nodes
        → NotLater (q.prioq.node k).expiry now
        → (i : ℕ) × (i < q.prioq.n_nodes)
          × (expiration_event call_back now q
              ≡ update_timeout (
                  call_back (q.prioq.node i).action (record q {
                    prioq = replace i (record (q.prioq.node i) { last_run = now }) q.prioq;
                  })))
          × NotLater (q.prioq.node i).expiry now
          × ((j : ℕ)
              → j < q.prioq.n_nodes
              → NotLater (q.prioq.node i).expiry (q.prioq.node j).expiry)
    unfolding expiration_event run_due
    expiration_event_lem {q} now k client r kh expired =
        let heap = (Reaches-IsOrdered client r).heap in
        let least : (j : ℕ)
            → j < q.prioq.n_nodes
            → NotLater (q.prioq.node 0).expiry (q.prioq.node j).expiry =
          λ j jh.
            compare_expiry (q.prioq.node 0) (q.prioq.node j)
              (root_least compare compare-IsOrder j q.prioq jh heap) in
        let early =
          timeval_compare_trans (q.prioq.node 0).expiry (q.prioq.node k).expiry now (least k kh)
            expired in
        (
          0,
          omega arith,
          ap (λ o. update_timeout (run_due call_back now q o)) (due-some now q (omega arith) early),
          early,
          least,
        )
