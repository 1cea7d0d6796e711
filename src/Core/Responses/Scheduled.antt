-- ===== src/Core/Responses/Scheduled.antt =====
-- avahi-core/response-sched.c: what holds of the jobs whatever is done to the scheduler.
use nvmrdisplay.Prelude.{
  ℕ, zero, suc, ◌≡◌, refl, sym, ◌∙◌, arith, Bool, true, false, Option, none, some, List, [], ◌∷◌,
}
use nvmrdisplay.Prelude.{if_rule, All, Option-cases, inl, inr}
use nvmrdisplay.Prelude.Outcome.{Outcome, done}
use nvmrdisplay.Common.Timeval.{Timeval}
use nvmrdisplay.Core.Responses.{
  Ops, Job, Scheduler, World, find_job, change_job, free_job, has_record, is_known, find_fresh,
  post_again, schedule, check_suppressed, check_history, response_scheduler_post,
  response_scheduler_incoming, drop_scheduled, response_scheduler_suppress, remove_place,
  elapse_history, elapse_suppressed, suppressed_outdated, history_outdated,
}
use nvmrdisplay.Core.Responses.Jobs.{All-free_job, All-change_job, find_job-none, All-find_fresh}

-- Equality of records is an equivalence.
pub record IsOps {Rec Addr : Type 0} (o : Ops Rec Addr) : Type 0 where
  pub record_refl : (a : Rec) → o.record_equal a a ≡ true
  pub record_sym : (a b : Rec) → o.record_equal a b ≡ o.record_equal b a
  pub record_trans :
      (a b c : Rec) → o.record_equal a b ≡ true → o.record_equal a c ≡ o.record_equal b c

module _ {Rec Addr : Type 0} (o : Ops Rec Addr) (laws : IsOps o) where
  open o use {record_equal}
  open laws use {record_sym, record_trans}

  abbrev pub Absent : Rec → List (Job Rec Addr) → Type 0
  Absent r = All λ j. record_equal j.rec r ≡ false

  abbrev pub Distinct : List (Job Rec Addr) → Type 0
  Distinct [] = Unit
  Distinct (j ∷ l) = Absent j.rec l × Distinct l

  abbrev pub HasQuerier : Job Rec Addr → Type 0
  HasQuerier j = (a : Addr) × (j.querier ≡ some a)

  -- The timer of a job is set to the time of its delivery.
  abbrev pub IsTimed : Job Rec Addr → Type 0
  IsTimed j = j.expiry ≡ j.delivery

  pub record IsValid (s : Scheduler Rec Addr) : Type 0 where
    pub distinct : Distinct s.jobs
    pub queried : All HasQuerier s.suppressed
    pub timed : All IsTimed s.jobs

  differs :
      (a b c : Rec) → record_equal a b ≡ true → record_equal a c ≡ false → record_equal b c ≡ false
  differs a b c h g = sym (record_trans a b c h) ∙ g

  -- No job has a record that is equal to one that none has.
  Absent-equal :
      (a b : Rec) (l : List (Job Rec Addr)) → record_equal a b ≡ true → Absent a l → Absent b l
  Absent-equal a b [] h g = tt
  Absent-equal a b (j ∷ l) h g = (
    record_sym j.rec b ∙ differs a b j.rec h (record_sym a j.rec ∙ g.0),
    Absent-equal a b l h g.1,
  )

  change_job-Distinct :
      (r : Rec) (f : Job Rec Addr → Job Rec Addr) (l : List (Job Rec Addr))
      → ((j : Job Rec Addr) → (f j).rec ≡ r)
      → Distinct l
      → Distinct (change_job (has_record o r) f l)
  unfolding change_job
  change_job-Distinct r f [] same d = tt
  change_job-Distinct r f (j ∷ l) same d =
      if_rule Distinct (record_equal j.rec r)
        (λ t. (rw (same j) (Absent-equal j.rec r l t d.0), d.1))
        (λ t. (
          All-change_job (λ k. record_equal k.rec j.rec ≡ false) (has_record o r) f l
              (λ k e g. rw (same k) (differs k.rec r j.rec e g)) d.0,
          change_job-Distinct r f l same d.1,
        ))

  pub free_job-Distinct :
      (test : Job Rec Addr → Bool) (l : List (Job Rec Addr))
      → Distinct l
      → Distinct (free_job test l)
  unfolding free_job
  free_job-Distinct test [] d = tt
  free_job-Distinct test (j ∷ l) d =
      if_rule Distinct (test j) (λ t. d.1)
        (λ t. (All-free_job _ test l d.0, free_job-Distinct test l d.1))

  pub post_again-IsTimed :
      (tv : Timeval) (r : Rec) (flush : Bool) (querier : Option Addr) (j : Job Rec Addr)
      → IsTimed j
      → IsTimed (post_again o tv r flush querier j)
  unfolding post_again
  post_again-IsTimed tv r flush querier j h = ground arith

  schedule-IsValid :
      (w : World) (r : Rec) (flush : Bool) (querier : Option Addr) (immediately : Bool)
      (s : Scheduler Rec Addr)
      → IsValid s
      → IsValid (schedule o w r flush querier immediately s)
  unfolding schedule post_again
  schedule-IsValid w r flush querier immediately s v =
      elim (Option-cases (find_job (has_record o r) s.jobs)) [
        | inl e ↦
            rw (e, schedule)
              (record {
                distinct = (find_job-none (has_record o r) s.jobs e, v.distinct);
                queried = v.queried;
                timed = (refl, v.timed);
              })
        | inr (j, e) ↦
            rw (e, schedule)
              (record {
                distinct = change_job-Distinct r _ s.jobs (λ k. refl) v.distinct;
                queried = v.queried;
                timed =
                    All-change_job IsTimed (has_record o r) _ s.jobs
                      (λ k t h. post_again-IsTimed _ r flush querier k h) v.timed;
              })
      ]

  check_suppressed_lem :
      (w : World) (r : Rec) (querier : Option Addr) (s : Scheduler Rec Addr)
      → IsValid s
      → IsValid (check_suppressed o w r querier s).1
  unfolding check_suppressed
  check_suppressed_lem w r none s v = v
  check_suppressed_lem w r (some q) s v = record {
    distinct = v.distinct;
    queried =
        All-find_fresh o HasQuerier (is_known o r q) (suppressed_outdated o w) s.suppressed
          v.queried;
    timed = v.timed;
  }

  check_history_lem :
      (w : World) (r : Rec) (flush : Bool) (s : Scheduler Rec Addr)
      → IsValid s
      → IsValid (check_history o w r flush s).1
  unfolding check_history
  check_history_lem w r flush s v =
      elim (Option-cases (find_fresh o (has_record o r) (history_outdated o w) s.history).0) [
        | inl e ↦
            rw (e, check_history)
              (record { distinct = v.distinct; queried = v.queried; timed = v.timed })
        | inr (j, e) ↦
            rw (e, check_history)
              (if_rule (λ (t : Bool × Scheduler Rec Addr). IsValid t.1) _
                (λ t. record { distinct = v.distinct; queried = v.queried; timed = v.timed })
                (λ t. record { distinct = v.distinct; queried = v.queried; timed = v.timed }))
      ]

  abbrev pub Gives : Outcome (Scheduler Rec Addr × Bool) → Type 0
  Gives (done t) = IsValid t.0
  Gives _ = Unit

  pub response_scheduler_post-Gives :
      (w : World) (r : Rec) (flush : Bool) (querier : Option Addr) (immediately : Bool)
      (s : Scheduler Rec Addr)
      → IsValid s
      → Gives (response_scheduler_post o w r flush querier immediately s)
  unfolding response_scheduler_post
  response_scheduler_post-Gives w r flush querier immediately s v =
      let first = check_suppressed_lem w r querier s v in
      let (known, s') = check_suppressed o w r querier s in
      let second = check_history_lem w r flush s' first in
      let (sent, s'') = check_history o w r flush s' in
      if_rule Gives (o.key_is_pattern r) (λ t. tt)
        (λ t.
          if_rule Gives known (λ t. first)
            (λ t.
              if_rule Gives sent (λ t. second)
                (λ t. schedule-IsValid w r flush querier immediately s'' second)))

  pub response_scheduler_incoming-IsValid :
      (w : World) (r : Rec) (flush : Bool) (s : Scheduler Rec Addr)
      → IsValid s
      → IsValid (response_scheduler_incoming o w r flush s)
  unfolding response_scheduler_incoming
  response_scheduler_incoming-IsValid w r flush s v =
      elim (Option-cases (find_job (has_record o r) s.jobs)) [
        | inl e ↦
            rw (e, response_scheduler_incoming)
              (record { distinct = v.distinct; queried = v.queried; timed = v.timed })
        | inr (j, e) ↦
            rw (e, response_scheduler_incoming)
              (if_rule IsValid _
                (λ t. record {
                  distinct = free_job-Distinct (has_record o r) s.jobs v.distinct;
                  queried = v.queried;
                  timed = All-free_job IsTimed (has_record o r) s.jobs v.timed;
                })
                (λ t. v))
      ]

  drop_scheduled-Distinct :
      (r : Rec) (q : Addr) (l : List (Job Rec Addr))
      → Distinct l
      → Distinct (drop_scheduled o r q l)
  unfolding drop_scheduled
  drop_scheduled-Distinct r q l d = elim (Option-cases (find_job (has_record o r) l)) [
    | inl e ↦ rw (e, drop_scheduled) d
    | inr (j, e) ↦
        rw (e, drop_scheduled)
          (if_rule Distinct _ (λ t. free_job-Distinct (has_record o r) l d) (λ t. d))
  ]

  drop_scheduled-IsTimed :
      (r : Rec) (q : Addr) (l : List (Job Rec Addr))
      → All IsTimed l
      → All IsTimed (drop_scheduled o r q l)
  unfolding drop_scheduled
  drop_scheduled-IsTimed r q l h = elim (Option-cases (find_job (has_record o r) l)) [
    | inl e ↦ rw (e, drop_scheduled) h
    | inr (j, e) ↦
        rw (e, drop_scheduled)
          (if_rule (All IsTimed) _ (λ t. All-free_job IsTimed (has_record o r) l h) (λ t. h))
  ]

  pub response_scheduler_suppress-IsValid :
      (w : World) (r : Rec) (q : Addr) (s : Scheduler Rec Addr)
      → IsValid s
      → IsValid (response_scheduler_suppress o w r q s)
  unfolding response_scheduler_suppress
  response_scheduler_suppress-IsValid w r q s v =
      let l =
        All-find_fresh o HasQuerier (is_known o r q) (suppressed_outdated o w) s.suppressed
          v.queried in
      let d = drop_scheduled-Distinct r q s.jobs v.distinct in
      let h = drop_scheduled-IsTimed r q s.jobs v.timed in
      elim (Option-cases (find_fresh o (is_known o r q) (suppressed_outdated o w) s.suppressed).0) [
        | inl e ↦
            rw (e, response_scheduler_suppress)
              (record { distinct = d; queried = ((q, refl), l); timed = h })
        | inr (j, e) ↦
            rw (e, response_scheduler_suppress)
              (record {
                distinct = d;
                queried = All-change_job HasQuerier (is_known o r q) _ _ (λ k t h. h) l;
                timed = h;
              })
      ]

  All-remove_place :
      (P : Job Rec Addr → Type 0) (i : ℕ) (l : List (Job Rec Addr))
      → All P l
      → All P (remove_place o i l)
  unfolding remove_place
  All-remove_place P i [] h = tt
  All-remove_place P zero (j ∷ l) h = h.1
  All-remove_place P (suc i) (j ∷ l) h = (h.0, All-remove_place P i l h.1)

  pub elapse_history-IsValid :
      (i : ℕ) (s : Scheduler Rec Addr) → IsValid s → IsValid (elapse_history o i s)
  unfolding elapse_history
  elapse_history-IsValid i s v = record {
    distinct = v.distinct;
    queried = v.queried;
    timed = v.timed;
  }

  pub elapse_suppressed-IsValid :
      (i : ℕ) (s : Scheduler Rec Addr) → IsValid s → IsValid (elapse_suppressed o i s)
  unfolding elapse_suppressed
  elapse_suppressed-IsValid i s v = record {
    distinct = v.distinct;
    queried = All-remove_place HasQuerier i s.suppressed v.queried;
    timed = v.timed;
  }
