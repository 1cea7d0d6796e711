-- ===== src/Core/Queriers.antt =====
-- avahi-core/querier.c: the keys that somebody browses for on an interface, each asked for again and
-- again, in intervals that double. The hash table and the list of queriers are one list; the timer of a
-- querier is the field `expiry`. `post_id` is none where post_id_valid is 0.
pub mod Users
pub mod Sound
pub mod Calls
pub mod Runs
mod Tests
use nvmrdisplay.Prelude.{
  ℕ, suc, ◌+◌, ◌-◌, ◌*◌, ◌%◌, ◌^◌, Bool, true, false, Option, none, some, List, [], ◌∷◌,
}
use nvmrdisplay.Prelude.{ltb, leb, ◌==◌, if◌then◌else◌}
use nvmrdisplay.Prelude.Outcome.{Outcome, done, ◌>>=◌}
use nvmrdisplay.Common.Timeval.{Timeval}
use nvmrdisplay.Core.Queries.{Scheduler, query_scheduler_post, withdraw_by_id, elapse_time}

-- `AvahiQuerier`
pub record Querier (Key : Type 0) : Type 0 where
  pub key : Key
  pub n_used : ℕ
  pub sec_delay : ℕ
  pub expiry : Timeval
  pub creation_time : Timeval
  pub post_id : Option ℕ

-- What of `AvahiInterface` a querier reads and writes.
pub record Interface (Key : Type 0) : Type 0 where
  pub announcing : Bool
  pub queriers : List (Querier Key)
  pub query_scheduler : Scheduler Key

-- The next interval, in seconds; an `unsigned` of 32 bits.
abbrev pub next_delay : ℕ → ℕ
next_delay sec = let twice = sec * 2 % 2 ^ 32 in if leb 3600 twice then 3600 else twice

module _ {Key : Type 0} (key_equal : Key → Key → Bool) where
  -- The look for a querier in the hash table.
  pub lookup : Key → List (Querier Key) → Option (Querier Key)
  lookup k [] = none
  lookup k (q ∷ l) = if key_equal q.key k then some q else lookup k l

  -- Write to the querier that is found, and free it (`avahi_querier_free`).
  pub change : Key → (Querier Key → Querier Key) → List (Querier Key) → List (Querier Key)
  change k f [] = []
  change k f (q ∷ l) = if key_equal q.key k then f q ∷ l else q ∷ change k f l

  pub querier_free : Key → List (Querier Key) → List (Querier Key)
  querier_free k [] = []
  querier_free k (q ∷ l) = if key_equal q.key k then l else q ∷ querier_free k l

  -- `avahi_interface_post_query` (avahi-core/iface.c)
  pub post_query : Timeval → Key → Interface Key → Option ℕ × Scheduler Key
  post_query now k i =
      if i.announcing
      then (let (s, id) = query_scheduler_post key_equal now k false i.query_scheduler in (id, s))
      else (none, i.query_scheduler)

  -- What the id of the last query becomes: it is kept where the queue did not accept this one.
  abbrev pub newer : Option ℕ → Option ℕ → Option ℕ
  newer none old = old
  newer (some id) old = some id

  -- `querier_elapse_callback`, of the querier for a key.
  pub querier_elapse : Timeval → Key → Interface Key → Interface Key
  unfolding lookup change querier_free post_query
  querier_elapse now k i = elim (lookup k i.queriers) [
    | none ↦ i
    | some q ↦
        if leb q.n_used 0
        then record i { queriers = querier_free k i.queriers }
        else (let (id, s) = post_query now q.key i in
            let again = λ (p : Querier Key). record p {
              post_id = newer id p.post_id;
              sec_delay = next_delay p.sec_delay;
              expiry = elapse_time now (next_delay p.sec_delay * 1000 % 2 ^ 32);
            } in
            record i { queriers = change k again i.queriers; query_scheduler = s })
  ]

  -- `avahi_querier_add`, with the time that it returns.
  pub querier_add : Timeval → Key → Interface Key → Interface Key × Timeval
  unfolding lookup change post_query
  querier_add now k i = elim (lookup k i.queriers) [
    | some q ↦
        let used = λ (p : Querier Key). record p { n_used = p.n_used + 1 } in
        (record i { queriers = change k used i.queriers }, q.creation_time)
    | none ↦
        let (id, s) = post_query now k i in
        let q : Querier Key = record {
          key = k;
          n_used = 1;
          sec_delay = 1;
          expiry = elapse_time now 1000;
          creation_time = now;
          post_id = id;
        } in
        (record i { queriers = q ∷ i.queriers; query_scheduler = s }, now)
  ]

  -- The end of `avahi_querier_remove`, for a querier that nobody uses any more.
  pub withdraw : Key → Option ℕ → Interface Key → Outcome (Interface Key)
  unfolding querier_free
  withdraw k none i = done i
  withdraw k (some id) i = withdraw_by_id key_equal id i.query_scheduler >>= λ r. done (
      if r.1
      then record i { query_scheduler = r.0; queriers = querier_free k i.queriers }
      else record i { query_scheduler = r.0 })

  -- `avahi_querier_remove`
  pub querier_remove : Key → Interface Key → Outcome (Interface Key)
  unfolding lookup change withdraw
  querier_remove k i = elim (lookup k i.queriers) [
    | none ↦ done i
    | some q ↦
        let unused = λ (p : Querier Key). record p { n_used = p.n_used - 1 } in
        let j = record i { queriers = change k unused i.queriers } in
        if leb q.n_used 0
        then done i
        else if leb (q.n_used - 1) 0
        then withdraw k q.post_id j
        else done j
  ]

  -- `avahi_querier_shall_refresh_cache`
  pub querier_shall_refresh_cache : Timeval → Key → Interface Key → Interface Key × Bool
  unfolding lookup change querier_free
  querier_shall_refresh_cache now k i = elim (lookup k i.queriers) [
    | none ↦ (i, false)
    | some q ↦
        if leb q.n_used 0
        then (record i { queriers = querier_free k i.queriers }, false)
        else (let later = λ (p : Querier Key). record p {
          expiry = elapse_time now (p.sec_delay * 1000 % 2 ^ 32);
        } in
            (record i { queriers = change k later i.queriers }, true))
  ]
