-- ===== src/Core/Responses/Jobs.antt =====
-- avahi-core/response-sched.c: the looks for a job, the writes to it and its removal, on any list.
use nvmrdisplay.Prelude.{
  ap, sym, ◌∙◌, ◌≡◌, arith, Bool, true, false, Option, none, some, List, [], ◌∷◌,
}
use nvmrdisplay.Prelude.{if_rule, All, Option-cases, Bool-cases, inl, inr}
use nvmrdisplay.Core.Responses.{Ops, Job, find_job, change_job, free_job, find_fresh}

module _ {J : Type 0} where
  pub All-free_job :
      (P : J → Type 0) (test : J → Bool) (l : List J) → All P l → All P (free_job test l)
  unfolding free_job
  All-free_job P test [] h = tt
  All-free_job P test (j ∷ l) h =
      if_rule (All P) (test j) (λ t. h.1) (λ t. (h.0, All-free_job P test l h.1))

  pub All-change_job :
      (P : J → Type 0) (test : J → Bool) (f : J → J) (l : List J)
      → ((j : J) → test j ≡ true → P j → P (f j))
      → All P l
      → All P (change_job test f l)
  unfolding change_job
  All-change_job P test f [] keeps h = tt
  All-change_job P test f (j ∷ l) keeps h =
      if_rule (All P) (test j) (λ t. (keeps j t h.0, h.1))
        (λ t. (h.0, All-change_job P test f l keeps h.1))

  pub find_job-none :
      (test : J → Bool) (l : List J) → find_job test l ≡ none → All (λ j. test j ≡ false) l
  unfolding find_job
  find_job-none test [] h = tt
  find_job-none test (j ∷ l) h = elim (Bool-cases (test j)) [
    | inl t ↦ absurd (ground (arith, t))
    | inr f ↦ (f, find_job-none test l (ground (arith, f)))
  ]

-- What the look for a job that is not outdated leaves.
pub All-find_fresh :
    {Rec Addr : Type 0} (o : Ops Rec Addr) (P : Job Rec Addr → Type 0)
    (test outdated : Job Rec Addr → Bool) (l : List (Job Rec Addr))
    → All P l
    → All P (find_fresh o test outdated l).1
unfolding find_fresh
All-find_fresh o P test outdated l h = elim (Option-cases (find_job test l)) [
  | inl e ↦ rw (e, find_fresh) h
  | inr (j, e) ↦
      rw (e, find_fresh)
        (if_rule (λ (s : Option _ × List _). All P s.1) (outdated j) (λ t. All-free_job P test l h)
          (λ t. h))
]

module _ {Rec Addr : Type 0} (o : Ops Rec Addr) where
  -- What is found passes the test and is not outdated.
  pub find_fresh_found :
      (test outdated : Job Rec Addr → Bool) (l : List (Job Rec Addr)) {j : Job Rec Addr}
      → (find_fresh o test outdated l).0 ≡ some j
      → (find_job test l ≡ some j) × (outdated j ≡ false)
  unfolding find_fresh
  find_fresh_found test outdated l {j} e = elim (Option-cases (find_job test l)) [
    | inl none_there ↦ absurd (ground (arith, none_there, e))
    | inr (k, there) ↦ elim (Bool-cases (outdated k)) [
      | inl old ↦ absurd (ground (arith, there, old, e))
      | inr fresh ↦
          let same : k ≡ j = ground (arith, there, fresh, e) in
          (there ∙ ap some same, ap outdated (sym same) ∙ fresh)
    ]
  ]
