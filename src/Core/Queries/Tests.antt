-- ===== src/Core/Queries/Tests.antt =====
-- Queries for the keys 1 and 2, in packets that have room for two things.
use nvmrdisplay.Prelude.{
  ℕ, ◌+◌, ◌≡◌, refl, Bool, false, Option, none, some, List, [], ◌∷◌, ◌++◌, arith, map, ltb, ◌==◌,
}
use nvmrdisplay.Prelude.{length, is_nil, if◌then◌else◌, ◌&&◌}
use nvmrdisplay.Prelude.Int.{pos}
use nvmrdisplay.Prelude.Outcome.{done}
use nvmrdisplay.Common.Timeval.{Timeval}
use nvmrdisplay.Core.Queries.{
  Job, Scheduler, query_scheduler_new, query_scheduler_post, withdraw_by_id, find_scheduled_job,
  find_history_job, job_new, count_id,
}
use nvmrdisplay.Core.Queries.Scheduled.{IsOrderly}
use nvmrdisplay.Core.Queries.Sending.{Packets}
use nvmrdisplay.Core.Queries.Sending.Answers.{View}
use nvmrdisplay.Core.Queries.Runs.{Reaches, fresh, posted, Reaches-IsOrderly}
use nvmrdisplay.Core.Queries.Withdrawn.{claim, is_none, withdraw_by_id-query_scheduler_post}

-- The questions and the answers of a packet.
abbrev Small : Type 0
Small = List ℕ × List ℕ

abbrev has_room : Small → Bool
has_room p = ltb (length p.0 + length p.1) 2

abbrev small_key : ℕ → Small → Option Small
small_key k p = if has_room p then some (p.0 ++ (k ∷ []), p.1) else none

abbrev small_record : ℕ → Small → Option Small
small_record r p = if has_room p then some (p.0, p.1 ++ (r ∷ [])) else none

-- Three records are known for each key.
abbrev small : Packets ℕ ℕ Small
small = record {
  new_query = ([], []);
  append_key = small_key;
  append_record = small_record;
  is_empty = λ p. is_nil p.0 && is_nil p.1;
  known = λ k. k ∷ (k + 10) ∷ (k + 20) ∷ [];
}

small_key_added :
    (k : ℕ) (p q : Small) → small_key k p ≡ some q → (q.0 ≡ p.0 ++ (k ∷ [])) × (q.1 ≡ p.1)
small_key_added k p q h = ground arith

small_record_added :
    (r : ℕ) (p q : Small) → small_record r p ≡ some q → (q.1 ≡ p.1 ++ (r ∷ [])) × (q.0 ≡ p.0)
small_record_added r p q h = ground arith

abbrev small-View : View small
small-View = record {
  questions = λ p. p.0;
  answers = λ p. p.1;
  new_empty = refl;
  new_questions = refl;
  new_answers = refl;
  key_added = small_key_added;
  record_added = small_record_added;
}

abbrev same_key : ℕ → ℕ → Bool
same_key a b = a == b

abbrev noon : Timeval
noon = record { sec = pos 43200; usec = pos 0 }

abbrev one_posted : Scheduler ℕ
one_posted = (query_scheduler_post same_key noon 1 false (query_scheduler_new same_key)).0

one_posted-Reaches : Reaches same_key small small-View one_posted
one_posted-Reaches = posted noon 1 false fresh

Reaches-IsOrderly_example :
    IsOrderly same_key one_posted
    × ((id : ℕ) → (r : Scheduler ℕ × Bool) × (withdraw_by_id same_key id one_posted ≡ done r))
Reaches-IsOrderly_example = Reaches-IsOrderly same_key small small-View one_posted-Reaches

abbrev job : ℕ → Job ℕ
job k = record { id = k; n_posted = 1; key = k; delivery = noon; expiry = noon }

abbrev two : Scheduler ℕ
two = record { next_id = 3; jobs = job 2 ∷ job 1 ∷ []; history = [] }

withdraw_by_id-query_scheduler_post_example :
    (r : Scheduler ℕ × Bool) × (withdraw_by_id same_key 1
        (query_scheduler_post same_key noon 1 false two).0
      ≡ done r)
    × (map (claim same_key) r.0.jobs ≡ map (claim same_key) two.jobs)
    × (r.1 ≡ is_none (find_scheduled_job same_key 1 two.jobs))
unfolding query_scheduler_post query_scheduler_new find_history_job find_scheduled_job job_new
    count_id
withdraw_by_id-query_scheduler_post_example =
    withdraw_by_id-query_scheduler_post same_key noon 1 false two (omega arith) (omega arith)
      (omega arith) refl
