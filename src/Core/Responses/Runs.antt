-- ===== src/Core/Responses/Runs.antt =====
-- avahi-core/response-sched.c: the life of a scheduler, as a sequence of the calls that change it.
use nvmrdisplay.Prelude.{ℕ, ◌≡◌, ◌≤◌, Bool, Option}
use mathlib.Core.Path.{subst}
use nvmrdisplay.Prelude.Outcome.{done}
use nvmrdisplay.Core.Responses.{
  Ops, Scheduler, World, response_scheduler_new, response_scheduler_clear, response_scheduler_post,
  response_scheduler_incoming, response_scheduler_suppress, elapse_history, elapse_suppressed,
}
use nvmrdisplay.Core.Responses.Scheduled.{
  IsOps, IsValid, Gives, response_scheduler_post-Gives, response_scheduler_incoming-IsValid,
  response_scheduler_suppress-IsValid, elapse_history-IsValid, elapse_suppressed-IsValid,
}
use nvmrdisplay.Core.Responses.Sending.{Net, send_response_packet}
use nvmrdisplay.Core.Responses.Sending.Total.{IsNet, Sends, send_response_packet-Sends}

module _ {Rec Addr Packet : Type 0} (o : Ops Rec Addr) (net : Net Rec Packet) (laws : IsOps o)
    (v : IsNet o net) (fuel : ℕ) (enough : v.room net.new_response ≤ fuel) where
  -- What calls make of a new scheduler, in any order.
  pub data Reaches : Scheduler Rec Addr → Type 0 where
    fresh : Reaches (response_scheduler_new o)
    posted :
        {s : Scheduler Rec Addr} {t : Scheduler Rec Addr × Bool}
        → (w : World) → (r : Rec) → (flush : Bool) → (querier : Option Addr) → (immediately : Bool)
        → Reaches s
        → response_scheduler_post o w r flush querier immediately s ≡ done t
        → Reaches t.0
    heard :
        {s : Scheduler Rec Addr}
        → (w : World) → (r : Rec) → (flush : Bool) → Reaches s
        → Reaches (response_scheduler_incoming o w r flush s)
    known :
        {s : Scheduler Rec Addr}
        → (w : World) → (r : Rec) → (q : Addr) → Reaches s
        → Reaches (response_scheduler_suppress o w r q s)
    sent :
        {s : Scheduler Rec Addr} {t : Scheduler Rec Addr × Option (Packet × ℕ)}
        → (w : World) → (r : Rec) → Reaches s
        → send_response_packet o net fuel w r s ≡ done t
        → Reaches t.0
    forgotten : {s : Scheduler Rec Addr} → (i : ℕ) → Reaches s → Reaches (elapse_history o i s)
    over : {s : Scheduler Rec Addr} → (i : ℕ) → Reaches s → Reaches (elapse_suppressed o i s)
    cleared : {s : Scheduler Rec Addr} → Reaches s → Reaches (response_scheduler_clear o s)

  valid : {s : Scheduler Rec Addr} → Reaches s → IsValid o laws s
  unfolding response_scheduler_new response_scheduler_clear
  valid fresh = record { distinct = tt; queried = tt; timed = tt }
  valid (posted {s} w r flush querier immediately before e) =
      subst (Gives o laws) e
        (response_scheduler_post-Gives o laws w r flush querier immediately s (valid before))
  valid (heard {s} w r flush before) =
      response_scheduler_incoming-IsValid o laws w r flush s (valid before)
  valid (known {s} w r q before) = response_scheduler_suppress-IsValid o laws w r q s (valid before)
  valid (sent {s} {t = t} w r before e) =
      let (u, made, x, counts) =
        send_response_packet-Sends o net laws v fuel w r s enough (valid before) in
      subst (IsValid o laws) {x = u.0} {y = t.0} (cc (made, e)) x
  valid (forgotten {s} i before) = elapse_history-IsValid o laws i s (valid before)
  valid (over {s} i before) = elapse_suppressed-IsValid o laws i s (valid before)
  valid (cleared before) = record { distinct = tt; queried = tt; timed = tt }

  -- Whatever is done to a scheduler of responses, in whatever order: no two scheduled responses are for
  -- equal records, and each suppressed one has a querier. When the timer of a scheduled response expires,
  -- all that is to be done comes to an end, in as many rounds as there is room for in an empty packet, and
  -- no assert fails, if no auxiliary record has a pattern for its key; the packet that is then sent, if one
  -- is, has as many records as its header says.
  pub send_response_packet-Reaches :
      (w : World) (r : Rec) {s : Scheduler Rec Addr}
      → Reaches s
      → IsValid o laws s × Sends o net laws v (send_response_packet o net fuel w r s)
  send_response_packet-Reaches w r {s} before =
      let x = valid before in (x, send_response_packet-Sends o net laws v fuel w r s enough x)
