-- ===== src/Core/Queries/Runs.antt =====
-- avahi-core/query-sched.c: the life of a scheduler, as a sequence of the calls that change it.
use nvmrdisplay.Prelude.{ℕ, ◌-◌, ◌≡◌, refl, arith, Bool, true, false}
use nvmrdisplay.Prelude.{List, [], ◌∷◌, All, Bool-cases, inl, inr, leb, ◌==◌}
use mathlib.Core.Path.{subst}
use nvmrdisplay.Prelude.Outcome.{done}
use nvmrdisplay.Common.Timeval.{Timeval}
use nvmrdisplay.Core.Queries.{
  Job, Scheduler, query_scheduler_new, query_scheduler_clear, query_scheduler_post,
  query_scheduler_incoming, withdraw_loop, withdraw_by_id,
}
use nvmrdisplay.Core.Queries.Scheduled.{
  Absent, Distinct, IsDue, IsOrderly, query_scheduler_post-IsOrderly,
  query_scheduler_incoming-IsOrderly,
}
use nvmrdisplay.Core.Queries.Sending.{Packets, Sent, elapse_history, elapse_job}
use nvmrdisplay.Core.Queries.Sending.Answers.{View}
use nvmrdisplay.Core.Queries.Sending.Keeps.{elapse_job-IsOrderly}

module _ {Key : Type 0} (key_equal : Key → Key → Bool) where
  abbrev Due : List (Job Key) → Type 0
  Due = All (IsDue key_equal)

  -- The loop has a result, and what it leaves is scheduled as it should be.
  abbrev Withdraws : ℕ → List (Job Key) → Type 0
  Withdraws id l =
      (r : List (Job Key) × Bool) × (withdraw_loop key_equal id l ≡ done r)
      × Distinct key_equal r.0
      × Due r.0
      × ((k : Key) → Absent key_equal k l → Absent key_equal k r.0)

  withdraw_loop-Withdraws :
      (id : ℕ) (l : List (Job Key)) → Distinct key_equal l → Due l → Withdraws id l
  unfolding withdraw_loop
  withdraw_loop-Withdraws id [] d h = (([], false), refl, tt, tt, λ k a. tt)
  withdraw_loop-Withdraws id (j ∷ l) d h =
      let (r, made, dr, hr, absent) = withdraw_loop-Withdraws id l d.1 h.1 in
      elim (Bool-cases (j.id == id)) [
        | inr other ↦ (
          (j ∷ r.0, r.1),
          rw (other, withdraw_loop) (rw made refl),
          (absent j.key d.0, dr),
          (h.0, hr),
          λ k a. (a.0, absent k a.1),
        )
        | inl same ↦ elim (Bool-cases (leb j.n_posted 1)) [
          | inl last ↦ (
            (l, true),
            rw (same, withdraw_loop) (ground (arith, h.0, last)),
            d.1,
            h.1,
            λ k a. a.1,
          )
          | inr more ↦ (
            (record j { n_posted = j.n_posted - 1 } ∷ r.0, r.1),
            rw (same, withdraw_loop) (rw (made, more) (ground (arith, h.0))),
            (absent j.key d.0, dr),
            ((ground (arith, more), h.0.1), hr),
            λ k a. (a.0, absent k a.1),
          )
        ]
      ]

  pub withdraw_by_id-IsOrderly :
      (id : ℕ) (s : Scheduler Key)
      → IsOrderly key_equal s
      → (r : Scheduler Key × Bool) × (withdraw_by_id key_equal id s ≡ done r)
        × IsOrderly key_equal r.0
  unfolding withdraw_by_id
  withdraw_by_id-IsOrderly id s w =
      let (r, made, d, h, a) = withdraw_loop-Withdraws id s.jobs w.distinct w.due in
      ((record s { jobs = r.0 }, r.1), rw made refl, record { distinct = d; due = h })

module _ {Key Rec Packet : Type 0} (key_equal : Key → Key → Bool) (o : Packets Key Rec Packet)
    (v : View o) where
  -- What calls make of a new scheduler, in any order.
  pub data Reaches : Scheduler Key → Type 0 where
    fresh : Reaches (query_scheduler_new key_equal)
    posted :
        {s : Scheduler Key}
        → (now : Timeval) → (k : Key) → (immediately : Bool) → Reaches s
        → Reaches (query_scheduler_post key_equal now k immediately s).0
    heard :
        {s : Scheduler Key}
        → (now : Timeval) → (k : Key) → Reaches s
        → Reaches (query_scheduler_incoming key_equal now k s)
    withdrawn :
        {s : Scheduler Key} {r : Scheduler Key × Bool}
        → (id : ℕ) → Reaches s
        → withdraw_by_id key_equal id s ≡ done r
        → Reaches r.0
    elapsed :
        {s : Scheduler Key} {r : Scheduler Key × List (Sent Packet)}
        → (now : Timeval) → (i : ℕ) → Reaches s
        → elapse_job o now i s ≡ done r
        → Reaches r.0
    forgotten : {s : Scheduler Key} → (i : ℕ) → Reaches s → Reaches (elapse_history o i s)
    cleared : {s : Scheduler Key} → Reaches s → Reaches (query_scheduler_clear key_equal s)

  valid : {s : Scheduler Key} → Reaches s → IsOrderly key_equal s
  unfolding query_scheduler_new query_scheduler_clear elapse_history
  valid fresh = record { distinct = tt; due = tt }
  valid (posted {s} now k immediately r) =
      query_scheduler_post-IsOrderly key_equal now k immediately s (valid r)
  valid (heard {s} now k r) = query_scheduler_incoming-IsOrderly key_equal now k s (valid r)
  valid (withdrawn {s} id r e) =
      let (u, made, w) = withdraw_by_id-IsOrderly key_equal id s (valid r) in
      subst (IsOrderly key_equal) {x = u.0} (cc (made, e)) w
  valid (elapsed {s} now i r e) = elapse_job-IsOrderly key_equal o v now i s (valid r) e
  valid (forgotten i r) = let w = valid r in record { distinct = w.distinct; due = w.due }
  valid (cleared r) = record { distinct = tt; due = tt }

  -- Whatever is done to a scheduler, in whatever order: no two scheduled queries have the same key, each
  -- has been posted once more than withdrawn at least, and its timer is set to the time of its delivery;
  -- and a query can be withdrawn without a failed assert.
  pub Reaches-IsOrderly :
      {s : Scheduler Key}
      → Reaches s
      → IsOrderly key_equal s
        × ((id : ℕ) → (r : Scheduler Key × Bool) × (withdraw_by_id key_equal id s ≡ done r))
  Reaches-IsOrderly {s} reached =
      let w = valid reached in
      (w, λ id. let (r, made, still) = withdraw_by_id-IsOrderly key_equal id s w in (r, made))
