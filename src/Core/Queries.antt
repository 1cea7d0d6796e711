-- ===== src/Core/Queries.antt =====
-- avahi-core/query-sched.c: the queries of an interface that wait to be sent, and those that were sent or
-- heard of late. A pointer to a job is its place in its list; its timer is the field `expiry`. The known
-- answers are a list of the call that gathers and sends them: between calls there are none.
pub mod Sending
pub mod Scheduled
pub mod Runs
mod Tests
pub mod Withdrawn
use nvmrdisplay.Prelude.{
  ℕ, zero, suc, ◌+◌, ◌-◌, ◌*◌, ◌%◌, ◌^◌, Bool, true, false, ◌&&◌, Option, none, some,
}
use nvmrdisplay.Prelude.{List, [], ◌∷◌, ltb, leb, ◌==◌, if◌then◌else◌}
use nvmrdisplay.Prelude.Int.{ℤ, pos, ltb_ℤ}
use nvmrdisplay.Prelude.Outcome.{Outcome, done, abort, ◌>>=◌}
use nvmrdisplay.Common.Timeval.{Timeval, timeval_compare, timeval_diff, timeval_add}

-- `AvahiQueryJob`; `done` is which of the two lists the job is in.
pub record Job (Key : Type 0) : Type 0 where
  pub id : ℕ
  pub n_posted : ℕ
  pub key : Key
  pub delivery : Timeval
  pub expiry : Timeval

-- `AvahiQueryScheduler`
pub record Scheduler (Key : Type 0) : Type 0 where
  pub next_id : ℕ
  pub jobs : List (Job Key)
  pub history : List (Job Key)

-- AVAHI_QUERY_HISTORY_MSEC and AVAHI_QUERY_DEFER_MSEC
abbrev pub query_history_msec : ℕ
query_history_msec = 100

abbrev pub query_defer_msec : ℕ
query_defer_msec = 100

-- `avahi_elapse_time` without jitter, at the time `now`.
unfoldable pub elapse_time : Timeval → ℕ → Timeval
elapse_time now msec = if msec == 0 then now else timeval_add now (pos (msec * 1000))

-- `job_mark_done`, on the job that is moved to the history.
unfoldable pub marked : {Key : Type 0} → Timeval → Job Key → Job Key
marked now j = record j { delivery = now; expiry = elapse_time now query_history_msec }

-- `key_equal` is avahi_key_equal; all calls of the clock in one call give the time `now`.
module _ {Key : Type 0} (key_equal : Key → Key → Bool) where
  unfoldable pub query_scheduler_new : Scheduler Key
  query_scheduler_new = record { next_id = 0; jobs = []; history = [] }

  -- `avahi_query_scheduler_clear`
  pub query_scheduler_clear : Scheduler Key → Scheduler Key
  query_scheduler_clear s = record s { jobs = []; history = [] }

  -- `job_new`, without its place in a list, and the counter of the scheduler behind it.
  pub job_new : Timeval → Key → Scheduler Key → Job Key
  job_new t k s = record { id = s.next_id; n_posted = 1; key = k; delivery = t; expiry = t }

  pub count_id : Scheduler Key → ℕ
  count_id s = (s.next_id + 1) % 2 ^ 32

  -- `find_scheduled_job`
  pub find_scheduled_job : Key → List (Job Key) → Option (Job Key)
  find_scheduled_job k [] = none
  find_scheduled_job k (j ∷ l) = if key_equal j.key k then some j else find_scheduled_job k l

  pub is_outdated : Timeval → Job Key → Bool
  is_outdated now j = ltb_ℤ (pos (query_history_msec * 1000)) (timeval_diff now j.delivery)

  -- `find_history_job`: the job, and the history less the job if that is outdated.
  pub find_history_job : Timeval → Key → List (Job Key) → Option (Job Key) × List (Job Key)
  unfolding is_outdated
  find_history_job now k [] = (none, [])
  find_history_job now k (j ∷ l) =
      let (found, rest) = find_history_job now k l in
      if key_equal j.key k
      then (if is_outdated now j then (none, l) else (some j, j ∷ l))
      else (found, j ∷ rest)

  -- Change the first job with a key, which is the one that is found.
  pub update_job : Key → (Job Key → Job Key) → List (Job Key) → List (Job Key)
  update_job k f [] = []
  update_job k f (j ∷ l) = if key_equal j.key k then f j ∷ l else j ∷ update_job k f l

  -- Another one asks for what is scheduled.
  pub post_again : Timeval → Job Key → Job Key
  post_again tv j =
      let again = record j { n_posted = j.n_posted + 1 } in
      if ltb_ℤ (timeval_compare tv j.delivery) (pos 0)
      then record again { delivery = tv; expiry = tv }
      else again

  -- `avahi_query_scheduler_post`: the id of the job, or `none` for 0.
  pub query_scheduler_post : Timeval → Key → Bool → Scheduler Key → Scheduler Key × Option ℕ
  unfolding find_scheduled_job find_history_job update_job post_again job_new count_id elapse_time
  query_scheduler_post now k immediately s =
      let (old, history) = find_history_job now k s.history in
      let tv = elapse_time now (if immediately then 0 else query_defer_msec) in
      elim old [
        | some j ↦ (record s { history = history }, none)
        | none ↦ elim (find_scheduled_job k s.jobs) [
          | some j ↦ (
            record s { history = history; jobs = update_job k (post_again tv) s.jobs },
            some j.id,
          )
          | none ↦ (
            record { next_id = count_id s; jobs = job_new tv k s ∷ s.jobs; history = history },
            some s.next_id,
          )
        ]
      ]

  -- Take the first job with a key out of a list.
  pub remove_job : Key → List (Job Key) → List (Job Key)
  remove_job k [] = []
  remove_job k (j ∷ l) = if key_equal j.key k then l else j ∷ remove_job k l

  -- `avahi_query_scheduler_incoming`
  pub query_scheduler_incoming : Timeval → Key → Scheduler Key → Scheduler Key
  unfolding find_scheduled_job find_history_job update_job remove_job job_new count_id marked
  query_scheduler_incoming now k s = elim (find_scheduled_job k s.jobs) [
    | some j ↦ record s { jobs = remove_job k s.jobs; history = marked now j ∷ s.history }
    | none ↦
        (let (old, history) = find_history_job now k s.history in
          elim old [
            | some j ↦ record s { history = update_job k (marked now) history }
            | none ↦ record {
              next_id = count_id s;
              jobs = s.jobs;
              history = marked now (job_new now k s) ∷ history;
            }
          ])
  ]

  -- The loop of `avahi_query_scheduler_withdraw_by_id`, with its result.
  pub withdraw_loop : ℕ → List (Job Key) → Outcome (List (Job Key) × Bool)
  withdraw_loop id [] = done ([], false)
  withdraw_loop id (j ∷ l) =
      let rest = withdraw_loop id l in
      if j.id == id
      then if leb 1 j.n_posted
        then if leb j.n_posted 1
          then done (l, true)
          else (rest >>= λ r. done (record j { n_posted = j.n_posted - 1 } ∷ r.0, r.1))
        else abort
      else (rest >>= λ r. done (j ∷ r.0, r.1))

  -- `avahi_query_scheduler_withdraw_by_id`
  pub withdraw_by_id : ℕ → Scheduler Key → Outcome (Scheduler Key × Bool)
  unfolding withdraw_loop
  withdraw_by_id id s = withdraw_loop id s.jobs >>= λ r. done (record s { jobs = r.0 }, r.1)
