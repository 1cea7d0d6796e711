-- ===== src/Core/Responses/Posted.antt =====
-- avahi-core/response-sched.c: what becomes of a response that is posted.
use nvmrdisplay.Prelude.{
  ◌+◌, ◌*◌, ◌≤◌, All, ◌≡◌, refl, sym, ◌∙◌, arith, Bool, true, false, ◌||◌, not, Option, none, some,
  List, [], ◌∷◌,
}
use nvmrdisplay.Prelude.{if◌then◌else◌, if_rule, Option-cases, Bool-cases, inl, inr, ◌⊎◌}
use mathlib.Core.Path.{subst}
use nvmrdisplay.Prelude.Int.{pos, ltb_ℤ}
use nvmrdisplay.Prelude.Outcome.{done}
use nvmrdisplay.Common.Timeval.{Timeval, timeval_compare}
use nvmrdisplay.Core.Responses.Jobs.{find_fresh_found}
use nvmrdisplay.Core.Responses.Scheduled.{IsOps, IsTimed, post_again-IsTimed}
use nvmrdisplay.Core.Responses.{
  Ops, Job, Scheduler, World, find_job, change_job, has_record, is_known, find_fresh, post_again,
  covers, schedule, check_suppressed, check_history, response_scheduler_post, suppressed_outdated,
  history_outdated, response_defer_msec, response_jitter_msec, elapse_time,
}

module _ {Rec Addr : Type 0} (o : Ops Rec Addr) (laws : IsOps o) where
  open o use {record_equal, ttl, is_goodbye}

  -- The time that a posted response is to be sent at.
  abbrev pub due_time : World → Bool → Timeval
  due_time w immediately =
      elapse_time w (if immediately then 0 else response_defer_msec)
        (if immediately then 0 else response_jitter_msec)

  -- The job has the record, with its time to live, and is to be sent with the flush bit if that was
  -- wanted, and not later than wanted, which its timer is set to.
  pub record Holds (r : Rec) (flush : Bool) (tv : Timeval) (j : Job Rec Addr) : Type 0 where
    pub same : j.rec ≡ r
    pub flushes : flush ≡ true → j.flush_cache ≡ true
    pub in_time : ltb_ℤ (timeval_compare tv j.delivery) (pos 0) ≡ false
    pub timed : j.expiry ≡ j.delivery

  -- Some job of the list is of this kind.
  abbrev pub Any : (Job Rec Addr → Type 0) → List (Job Rec Addr) → Type 0
  Any P [] = ⊥
  Any P (j ∷ l) = P j ⊎ Any P l

  -- An old record says as much as a new one: it is a goodbye if and only if that is, and has half of its
  -- time to live at least, rounded down.
  pub record SaysAsMuch (old new : Rec) : Type 0 where
    pub both_goodbyes : is_goodbye old ≡ is_goodbye new
    pub half_ttl : ttl new ≤ ttl old * 2 + 1

  covers-SaysAsMuch : (old new : Rec) → covers o old new ≡ true → SaysAsMuch old new
  covers-SaysAsMuch old new e = record {
    both_goodbyes = elim (Bool-cases (is_goodbye new)) [
      | inl t ↦ ground (arith, t, e)
      | inr f ↦ ground (arith, f, e)
    ];
    half_ttl = ground arith;
  }

  -- The reasons not to send: the querier said of late that it knows the record, or the record was sent or
  -- heard of late, with the flush bit if that is wanted now.
  abbrev pub Known : World → Rec → Addr → Job Rec Addr → Type 0
  Known w r q j =
      (is_known o r q j ≡ true) × SaysAsMuch j.rec r × (suppressed_outdated o w j ≡ false)

  abbrev pub WasSent : World → Rec → Bool → Job Rec Addr → Type 0
  WasSent w r flush j =
      (record_equal j.rec r ≡ true)
      × SaysAsMuch j.rec r
      × ((j.flush_cache || not flush) ≡ true)
      × (history_outdated o w j ≡ false)

  Any-found :
      (P : Job Rec Addr → Type 0) (test : Job Rec Addr → Bool) (l : List (Job Rec Addr))
      {j : Job Rec Addr}
      → find_job test l ≡ some j
      → (test j ≡ true → P j)
      → Any P l
  unfolding find_job
  Any-found P test [] e h = cc
  Any-found P test (x ∷ l) {j} e h = elim (Bool-cases (test x)) [
    | inl t ↦ inl (
        subst P {x = j} {y = x} (ground (arith, t, e))
          (h (subst (λ y. test y ≡ true) {x = x} {y = j} (ground (arith, t, e)) t)))
    | inr f ↦ inr (Any-found P test l {j = j} (ground (arith, f, e)) h)
  ]

  timeval_compare_self : (t : Timeval) → ltb_ℤ (timeval_compare t t) (pos 0) ≡ false
  unfolding timeval_compare
  timeval_compare_self t = ground arith

  post_again-Holds :
      (tv : Timeval) (r : Rec) (flush : Bool) (querier : Option Addr) (j : Job Rec Addr)
      → IsTimed o laws j
      → Holds r flush tv (post_again o tv r flush querier j)
  unfolding post_again
  post_again-Holds tv r flush querier j h = record {
    same = refl;
    flushes = λ e. rw e refl;
    in_time = ground (arith, timeval_compare_self tv);
    timed = post_again-IsTimed o laws tv r flush querier j h;
  }

  -- The first job that passes the test is the one that is changed.
  Any-change_job :
      (P : Job Rec Addr → Type 0) (test : Job Rec Addr → Bool) (f : Job Rec Addr → Job Rec Addr)
      (l : List (Job Rec Addr)) {j : Job Rec Addr}
      → find_job test l ≡ some j
      → ((k : Job Rec Addr) → IsTimed o laws k → P (f k))
      → All (IsTimed o laws) l
      → Any P (change_job test f l)
  unfolding find_job change_job
  Any-change_job P test f [] e h a = cc
  Any-change_job P test f (x ∷ l) {j} e h a = elim (Bool-cases (test x)) [
    | inl t ↦ rw t (inl (h x a.0))
    | inr n ↦ rw n (inr (Any-change_job P test f l {j = j} (ground (arith, n, e)) h a.1))
  ]

  schedule-Holds :
      (w : World) (r : Rec) (flush : Bool) (querier : Option Addr) (immediately : Bool)
      (s : Scheduler Rec Addr)
      → All (IsTimed o laws) s.jobs
      → Any
          (Holds r flush (due_time w immediately))
          (schedule o w r flush querier immediately s).jobs
  unfolding schedule
  schedule-Holds w r flush querier immediately s a =
      let tv = due_time w immediately in
      elim (Option-cases (find_job (has_record o r) s.jobs)) [
        | inl e ↦
            rw (e, schedule)
              (inl (record {
                same = refl;
                flushes = λ t. t;
                in_time = timeval_compare_self tv;
                timed = refl;
              }))
        | inr (j, e) ↦
            rw (e, schedule)
              (Any-change_job (Holds r flush tv) (has_record o r) (post_again o tv r flush querier)
                s.jobs {j = j} e (post_again-Holds tv r flush querier) a)
      ]

  check_suppressed_kept :
      (w : World) (r : Rec) (querier : Option Addr) (s : Scheduler Rec Addr)
      → let t = (check_suppressed o w r querier s).1 in (t.jobs ≡ s.jobs) × (t.history ≡ s.history)
  unfolding check_suppressed
  check_suppressed_kept w r none s = (refl, refl)
  check_suppressed_kept w r (some q) s = (refl, refl)

  check_suppressed-Known :
      (w : World) (r : Rec) (querier : Option Addr) (s : Scheduler Rec Addr)
      → (check_suppressed o w r querier s).0 ≡ true
      → (q : Addr) × (querier ≡ some q) × Any (Known w r q) s.suppressed
  unfolding check_suppressed
  check_suppressed-Known w r none s e = cc
  check_suppressed-Known w r (some q) s e =
      let found = find_fresh o (is_known o r q) (suppressed_outdated o w) s.suppressed in
      elim (Option-cases found.0) [
        | inl n ↦ absurd (ground (arith, n, e))
        | inr (j, f) ↦
            let (there, fresh) =
              find_fresh_found o (is_known o r q) (suppressed_outdated o w) s.suppressed {j = j}
                f in
            (
              q,
              refl,
              Any-found (Known w r q) (is_known o r q) s.suppressed {j = j} there
                  (λ t. (t, covers-SaysAsMuch j.rec r (ground (arith, f, e)), fresh)),
            )
      ]

  check_history_kept :
      (w : World) (r : Rec) (flush : Bool) (s : Scheduler Rec Addr)
      → (check_history o w r flush s).1.jobs ≡ s.jobs
  unfolding check_history
  check_history_kept w r flush s =
      elim (Option-cases (find_fresh o (has_record o r) (history_outdated o w) s.history).0) [
        | inl n ↦ rw (n, check_history) refl
        | inr (j, f) ↦
            rw (f, check_history)
              (if_rule (λ (t : Bool × Scheduler Rec Addr). t.1.jobs ≡ s.jobs) _ (λ t. refl)
                (λ t. refl))
      ]

  check_history-WasSent :
      (w : World) (r : Rec) (flush : Bool) (s : Scheduler Rec Addr)
      → (check_history o w r flush s).0 ≡ true
      → Any (WasSent w r flush) s.history
  unfolding check_history
  check_history-WasSent w r flush s e =
      let found = find_fresh o (has_record o r) (history_outdated o w) s.history in
      elim (Option-cases found.0) [
        | inl n ↦ absurd (ground (arith, n, e))
        | inr (j, f) ↦
            let (there, fresh) =
              find_fresh_found o (has_record o r) (history_outdated o w) s.history {j = j} f in
            Any-found (WasSent w r flush) (has_record o r) s.history {j = j} there (λ t.
              (t, covers-SaysAsMuch j.rec r (ground (arith, f, e)), ground (arith, f, e), fresh))
      ]

  -- What becomes of the response.
  abbrev pub Decides :
      World
      → Rec
      → Bool
      → Option Addr
      → Bool
      → Scheduler Rec Addr
      → Scheduler Rec Addr × Bool
      → Type 0
  Decides w r flush querier immediately s t =
      ((t.1 ≡ true) × Any (Holds r flush (due_time w immediately)) t.0.jobs)
      ⊎ ((t.1 ≡ false)
          × (t.0.jobs ≡ s.jobs)
          × (((q : Addr) × (querier ≡ some q) × Any (Known w r q) s.suppressed)
              ⊎ Any (WasSent w r flush) s.history))

  -- A posted response, whose key is no pattern, is scheduled: with its time to live, with the flush bit if
  -- that is wanted, and not later than wanted, which its timer is set to; or 0 is returned, the scheduled
  -- responses are as before, and there is a reason: an equal record is in the list of what the querier
  -- knows, or in the history, not outdated there, a goodbye if and only if this one is, with half of its
  -- time to live at least, and in the history with the flush bit if that is wanted. The timers of the
  -- scheduled responses are to be set to the times of their delivery.
  pub response_scheduler_post_lem :
      (w : World) (r : Rec) (flush : Bool) (querier : Option Addr) (immediately : Bool)
      (s : Scheduler Rec Addr)
      → o.key_is_pattern r ≡ false
      → All (IsTimed o laws) s.jobs
      → (t : Scheduler Rec Addr × Bool) × (response_scheduler_post o w r flush querier immediately s
          ≡ done t)
        × Decides w r flush querier immediately s t
  unfolding response_scheduler_post
  response_scheduler_post_lem w r flush querier immediately s plain timed =
      let s' = (check_suppressed o w r querier s).1 in
      let (jobs', history') = check_suppressed_kept w r querier s in
      let s'' = (check_history o w r flush s').1 in
      elim (Bool-cases (check_suppressed o w r querier s).0) [
        | inl known ↦ (
          (s', false),
          ground (arith, plain, known),
          inr (refl, jobs', inl (check_suppressed-Known w r querier s known)),
        )
        | inr unknown ↦ elim (Bool-cases (check_history o w r flush s').0) [
          | inl sent ↦ (
            (s'', false),
            ground (arith, plain, unknown, sent),
            inr (
              refl,
              check_history_kept w r flush s' ∙ jobs',
              inr (
                  subst (Any (WasSent w r flush)) history'
                    (check_history-WasSent w r flush s' sent)),
            ),
          )
          | inr unsent ↦ (
            (schedule o w r flush querier immediately s'', true),
            ground (arith, plain, unknown, unsent),
            inl (
              refl,
              schedule-Holds w r flush querier immediately s'' (
                  subst (All (IsTimed o laws)) (sym (check_history_kept w r flush s' ∙ jobs'))
                    timed),
            ),
          )
        ]
      ]
