-- ===== src/Core/Queriers/Sound.antt =====
-- avahi-core/querier.c and avahi-core/query-sched.c: what holds of the queriers of an interface.
use nvmrdisplay.Prelude.{ℕ, ◌≤◌, ◌≡◌, sym, ap, ◌∙◌, arith, Bool, true, false, Option, some}
use nvmrdisplay.Prelude.{if◌then◌else◌, if_rule, All}
use nvmrdisplay.Common.Timeval.{Timeval}
use nvmrdisplay.Core.Queries.{Scheduler}
use nvmrdisplay.Core.Queries.Scheduled.{IsOrderly, query_scheduler_post-IsOrderly}
use nvmrdisplay.Core.Queriers.{
  Querier, Interface, lookup, change, querier_free, post_query, next_delay,
}
use nvmrdisplay.Core.Queriers.Users.{
  IsEquality, uses, users, Distinct, users-change, users-querier_free, lookup-equal,
  change-Distinct, querier_free-Distinct, All-change, All-querier_free,
}

-- The interval lies between a second and an hour.
abbrev pub IsPaced : {Key : Type 0} → Querier Key → Type 0
IsPaced q = (1 ≤ q.sec_delay) × (q.sec_delay ≤ 3600)

pub next_delay_paced : (n : ℕ) → (1 ≤ n) × (n ≤ 3600) → (1 ≤ next_delay n) × (next_delay n ≤ 3600)
next_delay_paced n h = (ground arith, ground arith)

module _ {Key : Type 0} (key_equal : Key → Key → Bool) (laws : IsEquality key_equal) where
  pub record IsSound (i : Interface Key) : Type 0 where
    pub distinct : Distinct key_equal laws i.queriers
    pub paced : All IsPaced i.queriers
    pub orderly : IsOrderly key_equal i.query_scheduler

  abbrev pub count : Key → Interface Key → ℕ
  count m i = users key_equal laws m i.queriers

  -- The key is used as often as it was, but the one with the given key as often as said.
  abbrev pub Becomes : Key → ℕ → Interface Key → Interface Key → Type 0
  Becomes k n i j = IsSound j × ((m : Key) → count m j ≡ (if key_equal k m then n else count m i))

  pub found_count :
      (k m : Key) (i : Interface Key) {q : Querier Key}
      → lookup key_equal k i.queriers ≡ some q
      → key_equal k m ≡ true
      → count m i ≡ q.n_used
  found_count k m i {q} e c =
      ap (uses key_equal laws) (sym (lookup-equal key_equal laws k m i.queriers c) ∙ e)

  pub changed :
      (k : Key) (f : Querier Key → Querier Key) (i : Interface Key) (s : Scheduler Key)
      {q : Querier Key}
      → ((p : Querier Key) → (f p).key ≡ p.key)
      → ((p : Querier Key) → IsPaced p → IsPaced (f p))
      → lookup key_equal k i.queriers ≡ some q
      → IsSound i
      → IsOrderly key_equal s
      → Becomes k
          (f q).n_used
          i
          (record i { queriers = change key_equal k f i.queriers; query_scheduler = s })
  changed k f i s {q} same keeps e v o = (
    record {
      distinct = change-Distinct key_equal laws k f i.queriers same v.distinct;
      paced = All-change key_equal laws IsPaced k f i.queriers keeps v.paced;
      orderly = o;
    },
    λ m. users-change key_equal laws k m f i.queriers {q = q} same e,
  )

  pub freed :
      (k : Key) (i : Interface Key) (s : Scheduler Key)
      → IsSound i
      → IsOrderly key_equal s
      → Becomes k 0 i
          (record i { queriers = querier_free key_equal k i.queriers; query_scheduler = s })
  freed k i s v o = (
    record {
      distinct = querier_free-Distinct key_equal laws k i.queriers v.distinct;
      paced = All-querier_free key_equal laws IsPaced k i.queriers v.paced;
      orderly = o;
    },
    λ m. users-querier_free key_equal laws k m i.queriers v.distinct,
  )

  pub post_query-IsOrderly :
      (now : Timeval) (k : Key) (i : Interface Key)
      → IsSound i
      → IsOrderly key_equal (post_query key_equal now k i).1
  unfolding post_query
  post_query-IsOrderly now k i v =
      if_rule (λ (t : Option ℕ × Scheduler Key). IsOrderly key_equal t.1) i.announcing
        (λ t. query_scheduler_post-IsOrderly key_equal now k false i.query_scheduler v.orderly)
        (λ t. v.orderly)
