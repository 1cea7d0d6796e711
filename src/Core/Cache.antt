-- ===== src/Core/Cache.antt =====
-- avahi-core/cache.c: the records that an interface has heard of, each with its time to live.
-- The chains of the hash table are the entries with one key, in the order of the list of all entries:
-- both get a new entry in front. A timer of an entry is its field `expiry`.
pub mod Timers
pub mod Invariant
pub mod Keeps
pub mod Runs
use nvmrdisplay.Prelude.{ℕ, zero, suc, ◌+◌, ◌-◌, ◌*◌, ◌/◌, ◌≤◌, Bool, true, false, ◌&&◌, ◌||◌, not}
use nvmrdisplay.Prelude.{Option, none, some, List, [], ◌∷◌, ◌++◌, ltb, leb, ◌==◌, if◌then◌else◌}
use nvmrdisplay.Prelude.Int.{ℤ, pos, ltb_ℤ}
use nvmrdisplay.Prelude.Outcome.{Outcome, done, abort}
use nvmrdisplay.Common.Timeval.{Timeval, timeval_diff, timeval_add}

-- What the cache asks of records, keys and addresses (avahi-core/rr.c, avahi-common/address.c).
-- `record_equal` is `avahi_record_equal_no_ttl`.
pub record Ops (Rec Key Addr : Type 0) : Type 0 where
  pub key : Rec → Key
  pub ttl : Rec → ℕ
  pub key_equal : Key → Key → Bool
  pub record_equal : Rec → Rec → Bool
  pub is_pattern : Key → Bool
  pub pattern_match : Key → Key → Bool
  pub same_address : Addr → Addr → Bool

-- `AvahiCacheEntryState`
pub data State : Type 0 where
  valid expiry1 expiry2 expiry3 expiry_final poof poof_final goodbye_final replace_final : State

pub record Entry (Rec Addr : Type 0) : Type 0 where
  pub rec : Rec
  pub timestamp : Timeval
  pub poof_timestamp : Timeval
  pub expiry : Timeval
  pub cache_flush : Bool
  pub poof_num : ℕ
  pub origin : Addr
  pub state : State
  pub poof_address : Addr

pub record Cache (Rec Addr : Type 0) : Type 0 where
  pub entries : List (Entry Rec Addr)
  pub n_entries : ℕ
  pub last_rand_timestamp : ℕ
  pub last_rand : ℕ

-- What a call reads of the world: `gettimeofday`, `time`, `rand`, and the product
-- `(double) d * r / (RAND_MAX+1.0)` as an integer.
pub record World : Type 0 where
  pub now : Timeval
  pub time : ℕ
  pub rand : ℕ
  pub scale : ℕ → ℕ → ℕ

-- What a call tells the rest of the server: `avahi_multicast_lookup_engine_notify` with
-- AVAHI_BROWSER_NEW or AVAHI_BROWSER_REMOVE, and `avahi_interface_post_query`.
pub data Event (Rec Key : Type 0) : Type 0 where
  new : Rec → Event Rec Key
  removed : Rec → Event Rec Key
  query : Key → Event Rec Key

abbrev pub second : ℤ
second = pos 1000000

module _ {Rec Key Addr : Type 0} (o : Ops Rec Key Addr) where
  open o use {key, ttl, key_equal, record_equal, is_pattern, pattern_match, same_address}

  unfoldable pub empty_cache : Cache Rec Addr
  empty_cache = record { entries = []; n_entries = 0; last_rand_timestamp = 0; last_rand = 0 }

  -- The random number of `next_expiry`, renewed every ten seconds.
  pub renew_rand : World → Cache Rec Addr → Cache Rec Addr
  renew_rand w c =
      if leb (c.last_rand_timestamp + 10) w.time
      then record c { last_rand = w.rand; last_rand_timestamp = w.time }
      else c

  -- `next_expiry`, on the entry: `left` and `right` are the bounds in microseconds.
  pub next_expiry : World → ℕ → ℕ → Entry Rec Addr → Entry Rec Addr
  next_expiry w random percent e =
      let usec = ttl e.rec * 10000 in
      let left = usec * percent in
      let right = usec * (percent + 2) in
      record e { expiry = timeval_add e.timestamp (pos (left + w.scale (right - left) random)) }

  pub expire_in_one_second : World → State → Entry Rec Addr → Entry Rec Addr
  expire_in_one_second w s e = record e { state = s; expiry = timeval_add w.now second }

  -- The entries that `avahi_cache_walk` visits.
  pub visits : Key → Entry Rec Addr → Bool
  visits k e = if is_pattern k then pattern_match k (key e.rec) else key_equal (key e.rec) k

  -- The call-back of `lookup_record`.
  abbrev pub found : Rec → Entry Rec Addr → Bool
  found r e = visits (key r) e && record_equal e.rec r

  -- Change the first entry that passes the test; `none` where there is none.
  pub update_first :
      (Entry Rec Addr → Bool)
      → (Entry Rec Addr → Entry Rec Addr)
      → List (Entry Rec Addr)
      → Option (List (Entry Rec Addr))
  update_first test f [] = none
  update_first test f (e ∷ es) =
      let rest : Option (List (Entry Rec Addr)) = elim (update_first test f es) [
        | none ↦ none
        | some l ↦ some (e ∷ l)
      ] in
      if test e then some (f e ∷ es) else rest

  -- For unique records: all entries of the key that are older than one second.
  pub flush_older : World → Key → List (Entry Rec Addr) → List (Entry Rec Addr)
  unfolding expire_in_one_second
  flush_older w k [] = []
  flush_older w k (e ∷ es) =
      (if key_equal (key e.rec) k && ltb_ℤ second (timeval_diff w.now e.timestamp)
        then expire_in_one_second w replace_final e
        else e)
      ∷ flush_older w k es

  -- The last lines of `avahi_cache_update`, for an entry that is found or new.
  pub refresh : World → ℕ → Rec → Bool → Addr → Entry Rec Addr → Entry Rec Addr
  unfolding next_expiry
  refresh w random r flush a e =
      record (next_expiry w random 80 (record e { rec = r; origin = a; timestamp = w.now })) {
        state = valid;
        cache_flush = flush;
      }

  -- The fields of a new entry that are not set stand for what the memory holds.
  pub new_entry : World → Rec → Addr → Entry Rec Addr
  new_entry w r a = record {
    rec = r;
    timestamp = w.now;
    poof_timestamp = w.now;
    expiry = w.now;
    cache_flush = false;
    poof_num = 0;
    origin = a;
    state = valid;
    poof_address = a;
  }

  abbrev pub Step : Type 0
  Step = Cache Rec Addr × List (Event Rec Key)

  -- A record with a time to live of 0.
  pub goodbye : World → Rec → Cache Rec Addr → Step
  unfolding update_first visits expire_in_one_second
  goodbye w r c = elim (update_first (found r) (expire_in_one_second w goodbye_final) c.entries) [
    | none ↦ (c, [])
    | some es ↦ (record c { entries = es }, [])
  ]

  -- A record that lives; `limit` is `n_cache_entries_max`. An entry that is found keeps its place. At
  -- the limit nothing is stored, but what was flushed stays so.
  pub store : World → ℕ → Rec → Bool → Addr → Cache Rec Addr → Step
  unfolding update_first flush_older refresh new_entry renew_rand
  store w limit r flush a c =
      let es = if flush then flush_older w (key r) c.entries else c.entries in
      let c' = renew_rand w c in
      elim (update_first (λ e. key_equal (key e.rec) (key r) && record_equal e.rec r)
        (refresh w c'.last_rand r flush a) es) [
          | some es' ↦ (record c' { entries = es' }, [])
          | none ↦ if leb limit c.n_entries then (record c { entries = es }, []) else (
            record c' {
              entries = refresh w c'.last_rand r flush a (new_entry w r a) ∷ es;
              n_entries = c.n_entries + 1;
            },
            new r ∷ [],
          )
        ]

  -- `avahi_cache_update`; `lookup_key` asserts that the key is no pattern.
  unfoldable pub cache_update : World → ℕ → Rec → Bool → Addr → Cache Rec Addr → Outcome Step
  unfolding goodbye store
  cache_update w limit r flush a c =
      if ttl r == 0
      then done (goodbye w r c)
      else if is_pattern (key r)
      then abort
      else done (store w limit r flush a c)
