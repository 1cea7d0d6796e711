-- ===== src/Core/Cache/Timers.antt =====
-- avahi-core/cache.c: what time and silence do to the entries, and the emptying of the cache.
pub mod Keeps
pub mod Poof
pub mod Expiry
use nvmrdisplay.Prelude.{ℕ, zero, suc, ◌+◌, ◌-◌, ◌/◌, ◌%◌, ◌^◌, Bool, true, false, ◌&&◌, ◌||◌, not}
use nvmrdisplay.Prelude.{
  Option, none, some, List, [], ◌∷◌, ◌++◌, get_elem?, ltb, leb, if◌then◌else◌,
}
use nvmrdisplay.Prelude.Int.{ℤ, pos, negsuc, ltb_ℤ}
use nvmrdisplay.Common.Timeval.{Timeval, timeval_diff, quot_million}
use nvmrdisplay.Core.Cache.{
  Ops, State, valid, expiry1, expiry2, expiry3, expiry_final, poof, poof_final,
}
use nvmrdisplay.Core.Cache.{
  goodbye_final, replace_final, Entry, Cache, World, Event, new, removed, query, second,
}
use nvmrdisplay.Core.Cache.{
  renew_rand, next_expiry, expire_in_one_second, visits, found, update_first, Step,
}

module _ {ℓ} {A : Type ℓ} where
  abbrev pub remove_at : ℕ → List A → List A
  remove_at i [] = []
  remove_at zero (x ∷ xs) = xs
  remove_at (suc i) (x ∷ xs) = x ∷ remove_at i xs

  abbrev pub set_at : ℕ → A → List A → List A
  set_at i a [] = []
  set_at zero a (x ∷ xs) = a ∷ xs
  set_at (suc i) a (x ∷ xs) = x ∷ set_at i a xs

-- The `switch` of `elapse_func`: the next state, and the share of the time to live, in per cent, when
-- the entry is looked at again; `none` where the entry goes.
unfoldable pub next_state : State → Option (State × ℕ)
next_state valid = some (expiry1, 85)
next_state poof = some (expiry1, 85)
next_state expiry1 = some (expiry2, 90)
next_state expiry2 = some (expiry3, 95)
next_state expiry3 = some (expiry_final, 100)
next_state expiry_final = none
next_state poof_final = none
next_state goodbye_final = none
next_state replace_final = none

-- An `AvahiUsec` as an `unsigned` of 32 bits.
abbrev pub to_unsigned : ℤ → ℕ
to_unsigned (pos n) = n % 2 ^ 32
to_unsigned (negsuc n) = (2 ^ 32 - suc n % 2 ^ 32) % 2 ^ 32

module _ {Rec Key Addr : Type 0} (o : Ops Rec Key Addr) where
  open o use {key, ttl, key_equal, record_equal, is_pattern, pattern_match, same_address}

  -- `remove_entry`, of the entry at a place of the list.
  pub remove_entry : ℕ → Entry Rec Addr → Cache Rec Addr → Step o
  remove_entry i e c = (
    record c { entries = remove_at i c.entries; n_entries = c.n_entries - 1 },
    removed e.rec ∷ [],
  )

  -- The rest of `elapse_func`, for an entry that stays; `refresh` is the answer of
  -- `avahi_querier_shall_refresh_cache`.
  pub keep_entry : World → Bool → ℕ → Entry Rec Addr → State → ℕ → Cache Rec Addr → Step o
  keep_entry w refresh i e s percent c =
      let c' = renew_rand o w c in
      (
        record c' {
          entries =
              set_at i (next_expiry o w c'.last_rand percent (record e { state = s })) c.entries;
        },
        if refresh then query (key e.rec) ∷ [] else [],
      )

  pub elapse_entry : World → Bool → ℕ → Entry Rec Addr → Cache Rec Addr → Step o
  unfolding next_state remove_entry keep_entry
  elapse_entry w refresh i e c = elim (next_state e.state) [
    | none ↦ remove_entry i e c
    | some (s, percent) ↦ keep_entry w refresh i e s percent c
  ]

  -- `elapse_func`, for the timer of the entry at a place.
  pub elapse : World → Bool → ℕ → Cache Rec Addr → Step o
  unfolding elapse_entry
  elapse w refresh i c = elim (get_elem? c.entries i) [
    | none ↦ (c, [])
    | some e ↦ elapse_entry w refresh i e c
  ]

  -- `start_poof_callback`, in the state POOF; the test of the number reads it behind the increment.
  pub poof_again : World → Addr → Entry Rec Addr → Entry Rec Addr
  poof_again w a e =
      let e' = record e { poof_timestamp = w.now; poof_address = a; poof_num = e.poof_num + 1 } in
      if ltb_ℤ (timeval_diff w.now e.poof_timestamp) second
      then e
      else if ltb 3 (e.poof_num + 1)
      then expire_in_one_second o w poof_final e'
      else e'

  pub poof_by_state : World → Addr → State → Entry Rec Addr → Entry Rec Addr
  unfolding poof_again
  poof_by_state w a valid e = record e {
    state = poof;
    poof_address = a;
    poof_timestamp = w.now;
    poof_num = 0;
  }
  poof_by_state w a poof e = poof_again w a e
  poof_by_state w a _ e = e

  pub start_poof_entry : World → Addr → Entry Rec Addr → Entry Rec Addr
  unfolding poof_by_state
  start_poof_entry w a e = poof_by_state w a e.state e

  pub start_poof_list : World → Key → Addr → List (Entry Rec Addr) → List (Entry Rec Addr)
  unfolding start_poof_entry
  start_poof_list w k a [] = []
  start_poof_list w k a (e ∷ es) =
      (if visits o k e then start_poof_entry w a e else e) ∷ start_poof_list w k a es

  -- `avahi_cache_start_poof`
  unfoldable pub start_poof : World → Key → Addr → Cache Rec Addr → Cache Rec Addr
  unfolding start_poof_list
  start_poof w k a c = record c { entries = start_poof_list w k a c.entries }

  abbrev pub is_poof : State → Bool
  is_poof poof = true
  is_poof poof_final = true
  is_poof _ = false

  pub stop_poof_entry : World → ℕ → Addr → Entry Rec Addr → Entry Rec Addr
  stop_poof_entry w random a e =
      if is_poof e.state && same_address a e.poof_address
      then next_expiry o w random 80 (record e { state = valid })
      else e

  -- The first entry that `lookup_record` finds.
  pub first_entry : (Entry Rec Addr → Bool) → List (Entry Rec Addr) → Option (Entry Rec Addr)
  first_entry test [] = none
  first_entry test (e ∷ es) = let rest = first_entry test es in if test e then some e else rest

  -- `avahi_cache_stop_poof`; the random number is renewed only where the entry is scheduled anew.
  pub stop_poof : World → Rec → Addr → Cache Rec Addr → Cache Rec Addr
  unfolding stop_poof_entry first_entry
  stop_poof w r a c = elim (first_entry (found o r) c.entries) [
    | none ↦ c
    | some e ↦
        if is_poof e.state && same_address a e.poof_address
        then (let c' = renew_rand o w c in
            elim (update_first o (found o r) (stop_poof_entry w c'.last_rand a) c.entries) [
              | none ↦ c
              | some es ↦ record c' { entries = es }
            ])
        else c
  ]

  -- `avahi_cache_flush` and the loop of `avahi_cache_free`.
  pub flush_loop : List (Entry Rec Addr) → ℕ → ℕ × List (Event Rec Key)
  flush_loop [] n = (n, [])
  flush_loop (e ∷ es) n = let (m, evs) = flush_loop es (n - 1) in (m, removed e.rec ∷ evs)

  unfoldable pub cache_flush : Cache Rec Addr → Step o
  unfolding flush_loop
  cache_flush c =
      let (m, evs) = flush_loop c.entries c.n_entries in
      (record c { entries = []; n_entries = m }, evs)

  -- `avahi_cache_entry_half_ttl`
  pub entry_half_ttl : World → Entry Rec Addr → Bool
  entry_half_ttl w e =
      leb (ttl e.rec / 2) (to_unsigned (quot_million (timeval_diff w.now e.timestamp)))
