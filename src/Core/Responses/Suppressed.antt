-- ===== src/Core/Responses/Suppressed.antt =====
-- avahi-core/response-sched.c: what a querier knows is not told to it again.
use nvmrdisplay.Prelude.{◌≡◌, refl, sym, ap, ◌∙◌, arith, Bool, true, false, some, List, [], ◌∷◌}
use nvmrdisplay.Prelude.{Option-cases, Bool-cases, inl, inr}
use mathlib.Core.Path.{subst}
use nvmrdisplay.Prelude.Int.{pos, ltb_ℤ}
use nvmrdisplay.Prelude.Outcome.{done}
use nvmrdisplay.Common.Timeval.{timeval_diff}
use nvmrdisplay.Core.Responses.{
  Ops, Job, Scheduler, World, find_job, change_job, is_known, find_fresh, covers, check_suppressed,
  response_scheduler_post, suppressed_outdated, response_suppress_msec, elapse_time,
  response_scheduler_suppress,
}
use nvmrdisplay.Core.Responses.Jobs.{find_fresh_found}

find_job-change_job :
    {J : Type 0} (test : J → Bool) (f : J → J) (l : List J) {j : J}
    → find_job test l ≡ some j
    → ((k : J) → test k ≡ true → test (f k) ≡ true)
    → find_job test (change_job test f l) ≡ some (f j)
unfolding find_job change_job
find_job-change_job test f [] e h = cc
find_job-change_job test f (x ∷ l) {j} e h = elim (Bool-cases (test x)) [
  | inl t ↦ let same : x ≡ j = ground (arith, t, e) in rw t (rw (h x t) (ap (λ y. some (f y)) same))
  | inr n ↦ rw n (rw n (find_job-change_job test f l {j = j} (ground (arith, n, e)) h))
]

find_job_test :
    {J : Type 0} (test : J → Bool) (l : List J) {j : J} → find_job test l ≡ some j → test j ≡ true
unfolding find_job
find_job_test test [] e = cc
find_job_test test (x ∷ l) {j} e = elim (Bool-cases (test x)) [
  | inl t ↦ subst (λ y. test y ≡ true) {x = x} {y = j} (ground (arith, t, e)) t
  | inr n ↦ find_job_test test l {j = j} (ground (arith, n, e))
]

module _ {Rec Addr : Type 0} (o : Ops Rec Addr) where
  open o use {record_equal, ttl, is_goodbye, same_address}

  find_fresh-some :
      (test outdated : Job Rec Addr → Bool) (l : List (Job Rec Addr)) {j : Job Rec Addr}
      → find_job test l ≡ some j
      → outdated j ≡ false
      → find_fresh o test outdated l ≡ (some j, l)
  unfolding find_fresh
  find_fresh-some test outdated l e f = rw (e, find_fresh) (rw f refl)

  covers_self : (r : Rec) → covers o r r ≡ true
  covers_self r = ground arith

  -- The querier's list has the record, from the time that it was told of it.
  Listed : World → Rec → Addr → List (Job Rec Addr) → Type 0
  Listed w r q l =
      (j : Job Rec Addr) × (find_job (is_known o r q) l ≡ some j)
      × (j.rec ≡ r)
      × (j.delivery ≡ w.now)

  suppress-Listed :
      (w : World) (r : Rec) (q : Addr) (s : Scheduler Rec Addr)
      → record_equal r r ≡ true
      → same_address q q ≡ true
      → Listed w r q (response_scheduler_suppress o w r q s).suppressed
  unfolding Listed response_scheduler_suppress find_job
  suppress-Listed w r q s self same =
      let found = find_fresh o (is_known o r q) (suppressed_outdated o w) s.suppressed in
      elim (Option-cases found.0) [
        | inl n ↦
            let j : Job Rec Addr = record {
              rec = r;
              flush_cache = false;
              querier = some q;
              delivery = w.now;
              expiry = elapse_time w response_suppress_msec 0;
            } in
            (j, rw (n, response_scheduler_suppress) (rw self (rw same refl)), refl, refl)
        | inr (j, f) ↦
            let (there, fresh) =
              find_fresh_found o (is_known o r q) (suppressed_outdated o w) s.suppressed {j = j}
                f in
            let told = λ (k : Job Rec Addr). record k {
              rec = r;
              delivery = w.now;
              expiry = elapse_time w response_suppress_msec 0;
            } in
            (
              told j,
              rw (f, response_scheduler_suppress)
                  (subst
                    (λ l.
                      find_job (is_known o r q) (change_job (is_known o r q) told l)
                      ≡ some (told j))
                    (sym (
                      ap (λ p. p.1)
                        (find_fresh-some (is_known o r q) (suppressed_outdated o w) s.suppressed
                          {j = j} there fresh)))
                    (find_job-change_job (is_known o r q) told s.suppressed {j = j} there
                      (λ k t. ground (arith, self, t)))),
              refl,
              refl,
            )
      ]

  -- A querier that was told of a record is not told it again within 700 ms, whatever else is known of the
  -- record: the post returns 0, and what is scheduled stays as it is.
  pub response_scheduler_post-response_scheduler_suppress :
      (w x : World) (r : Rec) (q : Addr) (flush immediately : Bool) (s : Scheduler Rec Addr)
      → record_equal r r ≡ true
      → same_address q q ≡ true
      → o.key_is_pattern r ≡ false
      → ltb_ℤ (pos 700000) (timeval_diff x.now w.now) ≡ false
      → let s' = response_scheduler_suppress o w r q s in
        (t : Scheduler Rec Addr) × (response_scheduler_post o x r flush (some q) immediately s'
          ≡ done (t, false))
        × (t.jobs ≡ s'.jobs)
  unfolding response_scheduler_post check_suppressed suppressed_outdated Listed
  response_scheduler_post-response_scheduler_suppress w x r q flush immediately s self same plain
        soon =
      let s' = response_scheduler_suppress o w r q s in
      let (j, there, is_r, when) = suppress-Listed w r q s self same in
      let fresh : suppressed_outdated o x j ≡ false = rw when soon in
      let found =
        find_fresh-some (is_known o r q) (suppressed_outdated o x) s'.suppressed {j = j} there
          fresh in
      let told : covers o j.rec r ≡ true = ap (λ k. covers o k r) is_r ∙ covers_self r in
      let known : (check_suppressed o x r (some q) s').0 ≡ true =
        rw (found, check_suppressed) told in
      (
        (check_suppressed o x r (some q) s').1,
        rw (known, response_scheduler_post) (rw plain refl),
        refl,
      )
