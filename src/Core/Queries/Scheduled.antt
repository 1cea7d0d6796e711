-- ===== src/Core/Queries/Scheduled.antt =====
-- avahi-core/query-sched.c: what holds of the scheduled queries whatever is done to them.
use nvmrdisplay.Prelude.{◌≤◌, ◌≡◌, refl, arith, Bool, false, none}
use nvmrdisplay.Prelude.{List, [], ◌∷◌, if_rule, All, Option-cases, Bool-cases, inl, inr}
use nvmrdisplay.Common.Timeval.{Timeval}
use nvmrdisplay.Core.Queries.{
  Job, Scheduler, find_scheduled_job, find_history_job, update_job, post_again,
  query_scheduler_post, remove_job, query_scheduler_incoming, job_new,
}

module _ {Key : Type 0} (key_equal : Key → Key → Bool) where
  -- No job of the list has the key.
  abbrev pub Absent : Key → List (Job Key) → Type 0
  Absent k = All λ j. key_equal j.key k ≡ false

  abbrev pub Distinct : List (Job Key) → Type 0
  Distinct [] = Unit
  Distinct (j ∷ l) = Absent j.key l × Distinct l

  -- Somebody has posted the job, and its timer is set to the time of its delivery.
  abbrev pub IsDue : Job Key → Type 0
  IsDue j = (1 ≤ j.n_posted) × (j.expiry ≡ j.delivery)

  pub record IsOrderly (s : Scheduler Key) : Type 0 where
    pub distinct : Distinct s.jobs
    pub due : All IsDue s.jobs

  pub find_scheduled_job-Absent :
      (k : Key) (l : List (Job Key)) → find_scheduled_job key_equal k l ≡ none → Absent k l
  unfolding find_scheduled_job
  find_scheduled_job-Absent k [] h = tt
  find_scheduled_job-Absent k (j ∷ l) h = elim (Bool-cases (key_equal j.key k)) [
    | inl t ↦ absurd (ground (arith, t))
    | inr f ↦ (f, find_scheduled_job-Absent k l (ground (arith, f)))
  ]

  pub update_job-Absent :
      (k m : Key) (f : Job Key → Job Key) (l : List (Job Key))
      → ((j : Job Key) → (f j).key ≡ j.key)
      → Absent m l
      → Absent m (update_job key_equal k f l)
  unfolding update_job
  update_job-Absent k m f [] same h = tt
  update_job-Absent k m f (j ∷ l) same h =
      if_rule (Absent m) (key_equal j.key k) (λ t. (rw (same j) h.0, h.1))
        (λ t. (h.0, update_job-Absent k m f l same h.1))

  pub update_job-Distinct :
      (k : Key) (f : Job Key → Job Key) (l : List (Job Key))
      → ((j : Job Key) → (f j).key ≡ j.key)
      → Distinct l
      → Distinct (update_job key_equal k f l)
  unfolding update_job
  update_job-Distinct k f [] same h = tt
  update_job-Distinct k f (j ∷ l) same h =
      if_rule Distinct (key_equal j.key k) (λ t. (rw (same j) h.0, h.1))
        (λ t. (update_job-Absent k j.key f l same h.0, update_job-Distinct k f l same h.1))

  pub All-update_job :
      (P : Job Key → Type 0) (k : Key) (f : Job Key → Job Key) (l : List (Job Key))
      → ((j : Job Key) → P j → P (f j))
      → All P l
      → All P (update_job key_equal k f l)
  unfolding update_job
  All-update_job P k f [] keeps h = tt
  All-update_job P k f (j ∷ l) keeps h =
      if_rule (All P) (key_equal j.key k) (λ t. (keeps j h.0, h.1))
        (λ t. (h.0, All-update_job P k f l keeps h.1))

  All-remove_job :
      (P : Job Key → Type 0) (k : Key) (l : List (Job Key))
      → All P l
      → All P (remove_job key_equal k l)
  unfolding remove_job
  All-remove_job P k [] h = tt
  All-remove_job P k (j ∷ l) h =
      if_rule (All P) (key_equal j.key k) (λ t. h.1) (λ t. (h.0, All-remove_job P k l h.1))

  remove_job-Distinct :
      (k : Key) (l : List (Job Key)) → Distinct l → Distinct (remove_job key_equal k l)
  unfolding remove_job
  remove_job-Distinct k [] h = tt
  remove_job-Distinct k (j ∷ l) h =
      if_rule Distinct (key_equal j.key k) (λ t. h.1)
        (λ t. (All-remove_job _ k l h.0, remove_job-Distinct k l h.1))

  post_again-key : (tv : Timeval) (j : Job Key) → (post_again key_equal tv j).key ≡ j.key
  unfolding post_again
  post_again-key tv j = ground arith

  post_again-IsDue : (tv : Timeval) (j : Job Key) → IsDue j → IsDue (post_again key_equal tv j)
  unfolding post_again
  post_again-IsDue tv j h = ground arith

  pub query_scheduler_post-IsOrderly :
      (now : Timeval) (k : Key) (immediately : Bool) (s : Scheduler Key)
      → IsOrderly s
      → IsOrderly (query_scheduler_post key_equal now k immediately s).0
  unfolding query_scheduler_post job_new
  query_scheduler_post-IsOrderly now k immediately s v =
      elim (Option-cases (find_history_job key_equal now k s.history).0) [
        | inr (j, old) ↦
            rw (old, query_scheduler_post) (record { distinct = v.distinct; due = v.due })
        | inl free ↦ elim (Option-cases (find_scheduled_job key_equal k s.jobs)) [
          | inr (j, there) ↦
              rw (free, query_scheduler_post)
                (rw there (record {
                  distinct = update_job-Distinct k _ s.jobs (post_again-key _) v.distinct;
                  due = All-update_job IsDue k _ s.jobs (post_again-IsDue _) v.due;
                }))
          | inl absent ↦
              rw (free, query_scheduler_post)
                (rw absent (record {
                  distinct = (find_scheduled_job-Absent k s.jobs absent, v.distinct);
                  due = ((omega arith, refl), v.due);
                }))
        ]
      ]

  pub query_scheduler_incoming-IsOrderly :
      (now : Timeval) (k : Key) (s : Scheduler Key)
      → IsOrderly s
      → IsOrderly (query_scheduler_incoming key_equal now k s)
  unfolding query_scheduler_incoming
  query_scheduler_incoming-IsOrderly now k s v =
      elim (Option-cases (find_scheduled_job key_equal k s.jobs)) [
        | inr (j, there) ↦
            rw (there, query_scheduler_incoming)
              (record {
                distinct = remove_job-Distinct k s.jobs v.distinct;
                due = All-remove_job IsDue k s.jobs v.due;
              })
        | inl absent ↦ elim (Option-cases (find_history_job key_equal now k s.history).0) [
          | inr (j, old) ↦
              rw (absent, query_scheduler_incoming)
                (rw old (record { distinct = v.distinct; due = v.due }))
          | inl free ↦
              rw (absent, query_scheduler_incoming)
                (rw free (record { distinct = v.distinct; due = v.due }))
        ]
      ]
