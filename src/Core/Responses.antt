-- ===== src/Core/Responses.antt =====
-- avahi-core/response-sched.c: the responses of an interface that wait to be sent, those that were sent
-- or heard of late, and those that a querier knows already. A job is in one of three lists, which is its
-- state; its timer is the field `expiry`; `querier` is none where querier_valid is 0.
pub mod Jobs
pub mod Scheduled
pub mod Posted
pub mod Suppressed
pub mod Sending
pub mod Runs
mod Tests
use nvmrdisplay.Prelude.{
  ℕ, zero, suc, ◌+◌, ◌*◌, ◌/◌, Bool, true, false, ◌&&◌, ◌||◌, not, Option, none, some, List, [],
  ◌∷◌,
}
use nvmrdisplay.Prelude.{ltb, leb, ◌==◌, if◌then◌else◌}
use nvmrdisplay.Prelude.Int.{ℤ, pos, negsuc, ltb_ℤ, sub_ℕ}
use nvmrdisplay.Prelude.Outcome.{Outcome, done, abort, ◌>>=◌}
use nvmrdisplay.Common.Timeval.{Timeval, timeval_compare, timeval_diff, timeval_add}

-- What the scheduler asks of records and addresses (avahi-core/rr.c, avahi-common/address.c).
-- `record_equal` is avahi_record_equal_no_ttl.
pub record Ops (Rec Addr : Type 0) : Type 0 where
  pub record_equal : Rec → Rec → Bool
  pub ttl : Rec → ℕ
  pub is_goodbye : Rec → Bool
  pub key_is_pattern : Rec → Bool
  pub same_address : Addr → Addr → Bool

-- `AvahiResponseJob`
pub record Job (Rec Addr : Type 0) : Type 0 where
  pub rec : Rec
  pub flush_cache : Bool
  pub querier : Option Addr
  pub delivery : Timeval
  pub expiry : Timeval

-- `AvahiResponseScheduler`
pub record Scheduler (Rec Addr : Type 0) : Type 0 where
  pub jobs : List (Job Rec Addr)
  pub history : List (Job Rec Addr)
  pub suppressed : List (Job Rec Addr)

-- The clock, and the microseconds that avahi_elapse_time adds for a jitter.
pub record World : Type 0 where
  pub now : Timeval
  pub jitter : ℕ → ℕ

abbrev pub response_history_msec : ℕ
response_history_msec = 500

abbrev pub response_defer_msec : ℕ
response_defer_msec = 20

abbrev pub response_jitter_msec : ℕ
response_jitter_msec = 100

abbrev pub response_suppress_msec : ℕ
response_suppress_msec = 700

-- `avahi_elapse_time`
pub elapse_time : World → ℕ → ℕ → Timeval
elapse_time w msec jitter =
    let t = if msec == 0 then w.now else timeval_add w.now (pos (msec * 1000)) in
    if jitter == 0 then t else timeval_add t (pos (w.jitter jitter))

-- `/ 1000` of C.
abbrev pub msec_of : ℤ → ℤ
msec_of (pos n) = pos (n / 1000)
msec_of (negsuc n) = sub_ℕ 0 (suc n / 1000)

module _ {J : Type 0} where
  -- The first job of a list that passes a test: found, changed, taken out.
  pub find_job : (J → Bool) → List J → Option J
  find_job test [] = none
  find_job test (j ∷ l) = if test j then some j else find_job test l

  pub change_job : (J → Bool) → (J → J) → List J → List J
  change_job test f [] = []
  change_job test f (j ∷ l) = if test j then f j ∷ l else j ∷ change_job test f l

  pub free_job : (J → Bool) → List J → List J
  free_job test [] = []
  free_job test (j ∷ l) = if test j then l else j ∷ free_job test l

module _ {Rec Addr : Type 0} (o : Ops Rec Addr) where
  open o use {record_equal, ttl, is_goodbye, key_is_pattern, same_address}

  unfoldable pub response_scheduler_new : Scheduler Rec Addr
  response_scheduler_new = record { jobs = []; history = []; suppressed = [] }

  -- `avahi_response_scheduler_clear`
  unfoldable pub response_scheduler_clear : Scheduler Rec Addr → Scheduler Rec Addr
  response_scheduler_clear s = record { jobs = []; history = []; suppressed = [] }

  -- The tests of `find_scheduled_job` and `find_history_job`, and of `find_suppressed_job`, which a job
  -- without a querier, ruled out there by an assert, does not pass.
  abbrev pub has_record : Rec → Job Rec Addr → Bool
  has_record r j = record_equal j.rec r

  abbrev pub is_known : Rec → Addr → Job Rec Addr → Bool
  is_known r q j =
      record_equal j.rec r && elim j.querier [ none ↦ false | some a ↦ same_address a q ]

  pub history_outdated : World → Job Rec Addr → Bool
  history_outdated w j = ltb_ℤ (pos response_history_msec) (msec_of (timeval_diff w.now j.delivery))

  pub suppressed_outdated : World → Job Rec Addr → Bool
  suppressed_outdated w j =
      ltb_ℤ (pos (response_suppress_msec * 1000)) (timeval_diff w.now j.delivery)

  -- `find_history_job` and `find_suppressed_job`: the job, and the list less the job if it is outdated.
  pub find_fresh :
      (Job Rec Addr → Bool)
      → (Job Rec Addr → Bool)
      → List (Job Rec Addr)
      → Option (Job Rec Addr) × List (Job Rec Addr)
  unfolding find_job free_job
  find_fresh test outdated l = elim (find_job test l) [
    | none ↦ (none, l)
    | some j ↦ if outdated j then (none, free_job test l) else (some j, l)
  ]

  -- The new record says no more than the old one: both are goodbyes or neither is, and the time to
  -- live of the old one is half of that of the new one at least.
  abbrev pub covers : Rec → Rec → Bool
  covers old new =
      elim (is_goodbye new) [ true ↦ is_goodbye old | false ↦ not (is_goodbye old) ]
      && leb (ttl new / 2) (ttl old)

  -- The queries are answered to one querier, to another, or to all.
  abbrev pub same_querier : Option Addr → Option Addr → Option Addr
  same_querier none old = none
  same_querier (some q) none = none
  same_querier (some q) (some a) = if same_address q a then some a else none

  -- What is scheduled is posted again.
  pub post_again : Timeval → Rec → Bool → Option Addr → Job Rec Addr → Job Rec Addr
  post_again tv r flush querier j =
      let earlier = ltb_ℤ (timeval_compare tv j.delivery) (pos 0) in
      record {
        rec = r;
        flush_cache = flush || j.flush_cache;
        querier = same_querier querier j.querier;
        delivery = if earlier then tv else j.delivery;
        expiry = if earlier then tv else j.expiry;
      }

  -- The end of `avahi_response_scheduler_post`, from the look for a scheduled job.
  pub schedule : World → Rec → Bool → Option Addr → Bool → Scheduler Rec Addr → Scheduler Rec Addr
  unfolding find_job change_job post_again elapse_time
  schedule w r flush querier immediately s =
      let tv =
        elapse_time w (if immediately then 0 else response_defer_msec)
          (if immediately then 0 else response_jitter_msec) in
      elim (find_job (has_record r) s.jobs) [
        | some j ↦ record s {
          jobs = change_job (has_record r) (post_again tv r flush querier) s.jobs;
        }
        | none ↦ record s {
          jobs =
              record { rec = r; flush_cache = flush; querier = querier; delivery = tv; expiry = tv }
              ∷ s.jobs;
        }
      ]

  -- The look for a suppressed job: whether the response is suppressed.
  pub check_suppressed : World → Rec → Option Addr → Scheduler Rec Addr → Bool × Scheduler Rec Addr
  unfolding find_fresh suppressed_outdated
  check_suppressed w r none s = (false, s)
  check_suppressed w r (some q) s =
      let (found, l) = find_fresh (is_known r q) (suppressed_outdated w) s.suppressed in
      (elim found [ none ↦ false | some j ↦ covers j.rec r ], record s { suppressed = l })

  -- The look for a job in the history: whether it was sent, and if not the history without it.
  pub check_history : World → Rec → Bool → Scheduler Rec Addr → Bool × Scheduler Rec Addr
  unfolding find_fresh history_outdated free_job
  check_history w r flush s =
      let (found, l) = find_fresh (has_record r) (history_outdated w) s.history in
      elim found [
        | none ↦ (false, record s { history = l })
        | some j ↦
            if covers j.rec r && (j.flush_cache || not flush)
            then (true, record s { history = l })
            else (false, record s { history = free_job (has_record r) l })
      ]

  -- `avahi_response_scheduler_post`, with its result.
  unfoldable pub response_scheduler_post :
      World
      → Rec
      → Bool
      → Option Addr
      → Bool
      → Scheduler Rec Addr
      → Outcome (Scheduler Rec Addr × Bool)
  unfolding check_suppressed check_history schedule
  response_scheduler_post w r flush querier immediately s =
      if key_is_pattern r
      then abort
      else (let (known, s') = check_suppressed w r querier s in
          if known
          then done (s', false)
          else (let (sent, s'') = check_history w r flush s' in
              if sent
              then done (s'', false)
              else done (schedule w r flush querier immediately s'', true)))

  -- `job_mark_done`, on the job that is moved to the history.
  abbrev pub marked : World → Job Rec Addr → Job Rec Addr
  marked w j = record j { delivery = w.now; expiry = elapse_time w response_history_msec 0 }

  -- `avahi_response_scheduler_incoming`
  pub response_scheduler_incoming : World → Rec → Bool → Scheduler Rec Addr → Scheduler Rec Addr
  unfolding find_job find_fresh change_job free_job history_outdated elapse_time
  response_scheduler_incoming w r flush s = elim (find_job (has_record r) s.jobs) [
    | some j ↦
        if (not j.flush_cache || flush) && covers r j.rec
        then record s { jobs = free_job (has_record r) s.jobs; history = marked w j ∷ s.history }
        else s
    | none ↦
        (let (found, l) = find_fresh (has_record r) (history_outdated w) s.history in
          let heard : Job Rec Addr = record {
            rec = r;
            flush_cache = flush;
            querier = none;
            delivery = w.now;
            expiry = elapse_time w response_history_msec 0;
          } in
          record s {
            history = elim found [
              | none ↦ heard ∷ l
              | some j ↦ change_job (has_record r) (λ k. heard) l
            ];
          })
  ]

  -- The first part of `avahi_response_scheduler_suppress`.
  pub drop_scheduled : Rec → Addr → List (Job Rec Addr) → List (Job Rec Addr)
  unfolding find_job free_job
  drop_scheduled r q l = elim (find_job (has_record r) l) [
    | none ↦ l
    | some j ↦
        if elim j.querier [ none ↦ false | some a ↦ same_address q a ] && covers r j.rec
        then free_job (has_record r) l
        else l
  ]

  -- `avahi_response_scheduler_suppress`
  pub response_scheduler_suppress : World → Rec → Addr → Scheduler Rec Addr → Scheduler Rec Addr
  unfolding drop_scheduled find_fresh change_job suppressed_outdated elapse_time
  response_scheduler_suppress w r q s =
      let (found, l) = find_fresh (is_known r q) (suppressed_outdated w) s.suppressed in
      let times = λ (j : Job Rec Addr). record j {
        rec = r;
        delivery = w.now;
        expiry = elapse_time w response_suppress_msec 0;
      } in
      record s {
        jobs = drop_scheduled r q s.jobs;
        suppressed = elim found [
          | none ↦
              record {
                rec = r;
                flush_cache = false;
                querier = some q;
                delivery = w.now;
                expiry = elapse_time w response_suppress_msec 0;
              }
              ∷ l
          | some j ↦ change_job (is_known r q) times l
        ];
      }

  -- Take the job at a place out of a list.
  pub remove_place : ℕ → List (Job Rec Addr) → List (Job Rec Addr)
  remove_place i [] = []
  remove_place zero (j ∷ l) = l
  remove_place (suc i) (j ∷ l) = j ∷ remove_place i l

  -- `elapse_callback` of a job in the history, and of a suppressed job.
  pub elapse_history : ℕ → Scheduler Rec Addr → Scheduler Rec Addr
  elapse_history i s = record s { history = remove_place i s.history }

  pub elapse_suppressed : ℕ → Scheduler Rec Addr → Scheduler Rec Addr
  elapse_suppressed i s = record s { suppressed = remove_place i s.suppressed }
