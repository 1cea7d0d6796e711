-- ===== src/Core/Cache/Runs.antt =====
-- avahi-core/cache.c: the life of a cache, as a sequence of the calls that change it.
use nvmrdisplay.Prelude.{ℕ, ◌+◌, ◌≤◌, ◌≡◌, Bool, [], arith}
use nvmrdisplay.Prelude.Outcome.{done}
use nvmrdisplay.Core.Cache.{Ops, Cache, World, Step, empty_cache, cache_update}
use nvmrdisplay.Core.Cache.Timers.{elapse, start_poof, stop_poof, cache_flush}
use nvmrdisplay.Core.Cache.Invariant.{IsOps, IsValid}
use nvmrdisplay.Core.Cache.Keeps.{Keeps, cache_update-Keeps, news, losses}
use nvmrdisplay.Core.Cache.Timers.Keeps.{
  elapse-Keeps, start_poof-Keeps, stop_poof-Keeps, cache_flush-Keeps,
}

module _ {Rec Key Addr : Type 0} (o : Ops Rec Key Addr) where
  -- One call, with the events that it causes; `limit` is the server's configuration.
  pub data Call (limit : ℕ) : Cache Rec Addr → Step o → Type 0 where
    update :
        {c : Cache Rec Addr} {s : Step o}
        → (w : World) → (r : Rec) → (flush : Bool) → (a : Addr)
        → cache_update o w limit r flush a c ≡ done s
        → Call limit c s
    timer :
        {c : Cache Rec Addr}
        → (w : World) → (refresh : Bool) → (i : ℕ) → Call limit c (elapse o w refresh i c)
    question :
        {c : Cache Rec Addr}
        → (w : World) → (k : Key) → (a : Addr) → Call limit c (start_poof o w k a c, [])
    answer :
        {c : Cache Rec Addr}
        → (w : World) → (r : Rec) → (a : Addr) → Call limit c (stop_poof o w r a c, [])
    flushed : {c : Cache Rec Addr} → Call limit c (cache_flush o c)

  -- The cache that calls make of the new one, in any order, and how many records they reported as new
  -- and as gone.
  pub data Reaches (limit : ℕ) : Cache Rec Addr → ℕ → ℕ → Type 0 where
    start : Reaches limit (empty_cache o) 0 0
    step :
        {c : Cache Rec Addr} {n m : ℕ} {s : Step o}
        → Reaches limit c n m
        → Call limit c s
        → Reaches limit s.0 (n + news s.1) (m + losses s.1)

  module _ (h : IsOps o) where
    Call-Keeps :
        (limit : ℕ) {c : Cache Rec Addr} {s : Step o}
        → Call limit c s
        → IsValid o h c
        → Keeps o h limit c s
    Call-Keeps limit {c} (update w r flush a e) v = cache_update-Keeps o h w limit r flush a c v e
    Call-Keeps limit {c} (timer w refresh i) v = elapse-Keeps o h w refresh i limit c v
    Call-Keeps limit {c} (question w k a) v = start_poof-Keeps o h w k a limit c v
    Call-Keeps limit {c} (answer w r a) v = stop_poof-Keeps o h w r a limit c v
    Call-Keeps limit {c} flushed v = (cache_flush-Keeps o h limit c v).0

    -- Whatever calls a cache sees, in whatever order, from the time that it is made: it holds no record
    -- twice, its count is the number of its entries and never above the limit, and the entries are as
    -- many as the records that were reported as new, less those that were reported as gone.
    pub Reaches-IsValid :
        (limit : ℕ) {c : Cache Rec Addr} {n m : ℕ}
        → Reaches limit c n m
        → IsValid o h c × (c.n_entries ≤ limit) × (c.n_entries + m ≡ n)
    unfolding empty_cache
    Reaches-IsValid limit start =
        (record { counted = omega arith; distinct = tt }, omega arith, omega arith)
    Reaches-IsValid limit (step before call) =
        let v = Reaches-IsValid limit before in
        let k = Call-Keeps limit call v.0 in
        (k.valid_still, k.limited v.1, omega (arith, k.reported, v.2))
