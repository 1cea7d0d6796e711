-- ===== src/Core/Queries/Withdrawn.antt =====
-- avahi-core/query-sched.c: a query that is posted and withdrawn again.
use nvmrdisplay.Prelude.{
  ℕ, ◌+◌, ◌-◌, ◌≤◌, ◌≡◌, ◌≢◌, refl, sym, ap, arith, Bool, true, false, Option, none, some,
}
use nvmrdisplay.Prelude.{
  List, [], ◌∷◌, if◌then◌else◌, All, Option-cases, Bool-cases, inl, inr, map, ==_false, ==_self,
  ap₂,
}
use mathlib.Core.Path.{subst}
use nvmrdisplay.Prelude.Outcome.{done}
use nvmrdisplay.Common.Timeval.{Timeval}
use nvmrdisplay.Core.Queries.{
  Job, Scheduler, find_scheduled_job, find_history_job, update_job, post_again, elapse_time,
  query_defer_msec, query_scheduler_post, withdraw_loop, withdraw_by_id, job_new, count_id,
}

abbrev pub is_none {ℓ} : {A : Type ℓ} → Option A → Bool
is_none none = true
is_none (some a) = false

module _ {Key : Type 0} (key_equal : Key → Key → Bool) where
  -- What stands of a job whenever it is to be sent.
  abbrev pub claim : Job Key → ℕ × ℕ × Key
  claim j = (j.id, j.n_posted, j.key)

  abbrev pub Unused : ℕ → List (Job Key) → Type 0
  Unused id = All λ j. j.id ≢ id

  abbrev pub UniqueIds : List (Job Key) → Type 0
  UniqueIds [] = Unit
  UniqueIds (j ∷ l) = Unused j.id l × UniqueIds l

  withdraw_loop-Unused :
      (id : ℕ) (l : List (Job Key)) → Unused id l → withdraw_loop key_equal id l ≡ done (l, false)
  unfolding withdraw_loop
  withdraw_loop-Unused id [] u = refl
  withdraw_loop-Unused id (j ∷ l) u =
      rw (withdraw_loop-Unused id l u.1, ==_false j.id id u.0, withdraw_loop) refl

  found-Unused :
      (k : Key) (m : ℕ) (l : List (Job Key)) {j : Job Key}
      → Unused m l
      → find_scheduled_job key_equal k l ≡ some j
      → j.id ≢ m
  unfolding find_scheduled_job
  found-Unused k m [] u e = cc
  found-Unused k m (x ∷ l) {j} u e = elim (Bool-cases (key_equal x.key k)) [
    | inl t ↦ subst (λ (y : Job Key). y.id ≢ m) {x = x} {y = j} (ground (arith, t, e)) u.0
    | inr f ↦ found-Unused k m l {j = j} u.1 (ground (arith, f, e))
  ]

  withdraw_head :
      (id : ℕ) (y : Job Key) (l : List (Job Key))
      → y.id ≡ id
      → 2 ≤ y.n_posted
      → Unused id l
      → withdraw_loop key_equal id (y ∷ l)
        ≡ done (record y { n_posted = y.n_posted - 1 } ∷ l, false)
  unfolding withdraw_loop
  withdraw_head id y l same more u = ground (arith, withdraw_loop-Unused id l u)

  claim-post_again :
      (tv : Timeval) (x : Job Key)
      → claim (post_again key_equal tv x) ≡ (x.id, x.n_posted + 1, x.key)
  unfolding post_again
  claim-post_again tv x = ground arith

  -- The job that was posted once more is left, as often posted as before.
  withdraw_loop-update_job :
      (k : Key) (tv : Timeval) (l : List (Job Key)) {j : Job Key}
      → find_scheduled_job key_equal k l ≡ some j
      → UniqueIds l
      → All (λ x. 1 ≤ x.n_posted) l
      → (m : List (Job Key)) × (withdraw_loop key_equal j.id
            (update_job key_equal k (post_again key_equal tv) l)
          ≡ done (m, false))
        × (map claim m ≡ map claim l)
  unfolding find_scheduled_job withdraw_loop update_job
  withdraw_loop-update_job k tv [] e u h = cc
  withdraw_loop-update_job k tv (x ∷ l) {j} e u h = elim (Bool-cases (key_equal x.key k)) [
    | inl t ↦
        let y = post_again key_equal tv x in
        let c = claim-post_again tv x in
        let here : x ≡ j = ground (arith, t, e) in
        (
          record y { n_posted = y.n_posted - 1 } ∷ l,
          rw (← here, t)
              (withdraw_head x.id y l (ap (λ p. p.0) c)
                (omega (arith, ap (λ (p : ℕ × ℕ × Key). p.1) c, h.0)) u.0),
          ap₂ (λ (n : ℕ) (p : ℕ × ℕ × Key). (p.0, n, p.2) ∷ map claim l)
              (omega (arith, ap (λ (p : ℕ × ℕ × Key). p.1) c)) c,
        )
    | inr f ↦
        let found : find_scheduled_job key_equal k l ≡ some j = ground (arith, f, e) in
        let (m, made, same) = withdraw_loop-update_job k tv l {j = j} found u.1 h.1 in
        (
          x ∷ m,
          rw f (
              rw
                (
                  ==_false x.id j.id (λ q. found-Unused k x.id l {j = j} u.0 found (sym q)),
                  withdraw_loop,
                )
                (rw made refl)),
          ap (λ y. claim x ∷ y) same,
        )
  ]

  -- A query that is posted, whatever was scheduled, and withdrawn with the id that this gave leaves no
  -- trace among the scheduled queries: they have the ids, the keys and the numbers of posts from before;
  -- and what withdraw_by_id answers is whether the post was the only one. The ids are to be different,
  -- and the next one not in use.
  pub withdraw_by_id-query_scheduler_post :
      (now : Timeval) (k : Key) (immediately : Bool) (s : Scheduler Key) {id : ℕ}
      → UniqueIds s.jobs
      → Unused s.next_id s.jobs
      → All (λ x. 1 ≤ x.n_posted) s.jobs
      → (query_scheduler_post key_equal now k immediately s).1 ≡ some id
      → (r : Scheduler Key × Bool) × (withdraw_by_id key_equal id
            (query_scheduler_post key_equal now k immediately s).0
          ≡ done r)
        × (map claim r.0.jobs ≡ map claim s.jobs)
        × (r.1 ≡ is_none (find_scheduled_job key_equal k s.jobs))
  unfolding query_scheduler_post withdraw_by_id withdraw_loop job_new
  withdraw_by_id-query_scheduler_post now k immediately s {id} u fresh h e =
      let left = (find_history_job key_equal now k s.history).1 in
      elim (Option-cases (find_history_job key_equal now k s.history).0) [
        | inr (j, old) ↦ absurd (ground (arith, old, e))
        | inl free ↦ elim (Option-cases (find_scheduled_job key_equal k s.jobs)) [
          | inr (j, there) ↦
              let tv = elapse_time now (if immediately then 0 else query_defer_msec) in
              let (m, made, same) = withdraw_loop-update_job k tv s.jobs {j = j} there u h in
              let same_id : j.id ≡ id = ground (arith, free, there, e) in
              (
                (record s { history = left; jobs = m }, false),
                rw (free, query_scheduler_post) (rw (there, ← same_id) (rw made refl)),
                same,
                rw there refl,
              )
          | inl absent ↦
              let same_id : s.next_id ≡ id = ground (arith, free, absent, e) in
              (
                (record { next_id = count_id key_equal s; jobs = s.jobs; history = left }, true),
                rw (free, query_scheduler_post) (rw (absent, ← same_id, ==_self) refl),
                refl,
                rw absent refl,
              )
        ]
      ]
