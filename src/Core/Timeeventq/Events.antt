-- ===== src/Core/Timeeventq/Events.antt =====
-- The events of the queue as an order, by their times and then by their last runs.
use nvmrdisplay.Prelude.{ℕ, zero, suc, ◌<◌, ◌≡◌, refl, arith, true, false}
use nvmrdisplay.Prelude.{if◌then◌else◌}
use nvmrdisplay.Prelude.Int.{ℤ, pos, negsuc, ltb_ℤ}
use nvmrdisplay.Common.Timeval.{Timeval, timeval_compare}
use nvmrdisplay.Common.Timeval.Order.{timeval_compare_flip, timeval_compare_trans}
use nvmrdisplay.Core.Prioq.{Queue, set_node}
use nvmrdisplay.Core.Prioq.Order.{IsOrder, IsHeap, Le}
use nvmrdisplay.Core.Prioq.Heap.{shuffle-IsHeap, set_node-IsHeapBut}
use nvmrdisplay.Core.Timeeventq.{TimeEvent, compare}
use nvmrdisplay.Core.Timeeventq.{replace}
use nvmrdisplay.Core.Timeeventq.{is_zero}

-- a is not later than b.
abbrev pub NotLater : Timeval → Timeval → Type 0
NotLater a b = ltb_ℤ (pos 0) (timeval_compare a b) ≡ false

is_zero_lem :
    (z : ℤ)
    → is_zero z ≡ (if ltb_ℤ z (pos 0) then false else if ltb_ℤ (pos 0) z then false else true)
is_zero_lem (pos zero) = refl
is_zero_lem (pos (suc n)) = ground arith
is_zero_lem (negsuc n) = ground arith

module _ {ℓ} {A : Type ℓ} where
  compare_flip : (a b : TimeEvent A) → ltb_ℤ (compare a b) (pos 0) ≡ ltb_ℤ (pos 0) (compare b a)
  unfolding compare
  compare_flip a b = ground (
    arith,
    timeval_compare_flip a.expiry b.expiry,
    timeval_compare_flip b.expiry a.expiry,
    timeval_compare_flip a.last_run b.last_run,
    is_zero_lem (timeval_compare a.expiry b.expiry),
    is_zero_lem (timeval_compare b.expiry a.expiry),
  )

  pub compare_expiry : (a b : TimeEvent A) → Le compare a b → NotLater a.expiry b.expiry
  unfolding compare
  compare_expiry a b h = ground (arith, is_zero_lem (timeval_compare a.expiry b.expiry))

  -- Events that may stand in front of each other expire at one time, and go by their last runs.
  compare_last_run :
      (a b : TimeEvent A)
      → Le compare a b
      → NotLater b.expiry a.expiry
      → NotLater a.last_run b.last_run
  unfolding compare
  compare_last_run a b h g = ground (
    arith,
    timeval_compare_flip a.expiry b.expiry,
    is_zero_lem (timeval_compare a.expiry b.expiry),
  )

  earlier :
      (a b : TimeEvent A)
      → NotLater a.expiry b.expiry
      → (NotLater b.expiry a.expiry → NotLater a.last_run b.last_run)
      → Le compare a b
  unfolding compare
  earlier a b h g = ground (
    arith,
    timeval_compare_flip a.expiry b.expiry,
    is_zero_lem (timeval_compare a.expiry b.expiry),
  )

  compare_trans : (a b c : TimeEvent A) → Le compare a b → Le compare b c → Le compare a c
  compare_trans a b c h g =
      let ab = compare_expiry a b h in
      let bc = compare_expiry b c g in
      earlier a c (timeval_compare_trans a.expiry b.expiry c.expiry ab bc) (λ ca.
        timeval_compare_trans a.last_run b.last_run c.last_run
          (compare_last_run a b h (timeval_compare_trans b.expiry c.expiry a.expiry bc ca))
          (compare_last_run b c g (timeval_compare_trans c.expiry a.expiry b.expiry ca ab)))

  pub compare-IsOrder : IsOrder (compare {A = A})
  compare-IsOrder = record { swap = compare_flip; trans = compare_trans }

  pub replace-IsHeap :
      (i : ℕ) (e : TimeEvent A) (q : Queue (TimeEvent A))
      → i < q.n_nodes
      → IsHeap compare q
      → IsHeap compare (replace i e q)
  unfolding replace
  replace-IsHeap i e q low w =
      shuffle-IsHeap compare compare-IsOrder i (record q { node = set_node i e q.node }) low
        (set_node-IsHeapBut compare compare-IsOrder i e q low w)
