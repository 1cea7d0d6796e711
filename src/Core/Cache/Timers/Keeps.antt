-- ===== src/Core/Cache/Timers/Keeps.antt =====
-- The timers of the cache, the passive observation of failure and the emptying keep the invariant.
use nvmrdisplay.Prelude.{ℕ, zero, suc, ◌+◌, ◌-◌, ◌≡◌, refl, sym, arith}
use nvmrdisplay.Prelude.{Bool, true, false, ◌&&◌, some, List, [], ◌∷◌, length, if◌then◌else◌}
use nvmrdisplay.Prelude.{Bool-cases, Option-cases, inl, inr, get_elem?}
use nvmrdisplay.Core.Cache.{Ops, State, Entry, Cache, World, Event, query, renew_rand, next_expiry}
use nvmrdisplay.Core.Cache.{expire_in_one_second, found, update_first}
use nvmrdisplay.Core.Cache.Timers.{
  remove_at, set_at, next_state, remove_entry, keep_entry, elapse_entry, elapse,
}
use nvmrdisplay.Core.Cache.Timers.{
  start_poof_entry, start_poof_list, start_poof, stop_poof_entry, stop_poof, flush_loop,
  cache_flush,
}
use nvmrdisplay.Core.Cache.Timers.{first_entry, is_poof}
use nvmrdisplay.Core.Cache.Invariant.{IsOps, IsValid, recs, Differs, Distinct}
use nvmrdisplay.Core.Cache.Invariant.{update_first-recs}
use nvmrdisplay.Core.Cache.Keeps.{news, losses, Keeps, same_recs, renew_rand-entries}

module _ {Rec Key Addr : Type 0} (o : Ops Rec Key Addr) (h : IsOps o) where
  open o use {key, ttl, key_equal, record_equal, is_pattern, same_address}

  recs-set_at :
      (i : ℕ) (e e' : Entry Rec Addr) (es : List (Entry Rec Addr))
      → get_elem? es i ≡ some e
      → e'.rec ≡ e.rec
      → recs o h (set_at i e' es) ≡ recs o h es
  recs-set_at i e e' [] g q = refl
  recs-set_at zero e e' (x ∷ es) g q = ground arith
  recs-set_at (suc i) e e' (x ∷ es) g q = rw (recs-set_at i e e' es g q)

  Differs-remove_at :
      (i : ℕ) (r : Rec) (es : List (Entry Rec Addr))
      → Differs o h r (recs o h es)
      → Differs o h r (recs o h (remove_at i es))
  Differs-remove_at i r [] d = d
  Differs-remove_at zero r (x ∷ es) d = d.1
  Differs-remove_at (suc i) r (x ∷ es) d = (d.0, Differs-remove_at i r es d.1)

  Distinct-remove_at :
      (i : ℕ) (es : List (Entry Rec Addr))
      → Distinct o h (recs o h es)
      → Distinct o h (recs o h (remove_at i es))
  Distinct-remove_at i [] d = d
  Distinct-remove_at zero (x ∷ es) d = d.1
  Distinct-remove_at (suc i) (x ∷ es) d =
      (Differs-remove_at i x.rec es d.0, Distinct-remove_at i es d.1)

  length-remove_at :
      (i : ℕ) (e : Entry Rec Addr) (es : List (Entry Rec Addr))
      → get_elem? es i ≡ some e
      → length (remove_at i es) + 1 ≡ length es
  length-remove_at i e [] g = absurd (cc)
  length-remove_at zero e (x ∷ es) g = omega arith
  length-remove_at (suc i) e (x ∷ es) g = omega (arith, length-remove_at i e es g)

  abbrev query_of : Bool → Entry Rec Addr → List (Event Rec Key)
  query_of refresh e = if refresh then query (key e.rec) ∷ [] else []

  -- A query is no report of a record.
  with_query :
      (refresh : Bool) (e : Entry Rec Addr) (limit : ℕ) (c c' : Cache Rec Addr)
      → Keeps o h limit c (c', [])
      → Keeps o h limit c (c', query_of refresh e)
  with_query true e limit c c' k = record {
    valid_still = k.valid_still;
    reported = k.reported;
    limited = k.limited;
  }
  with_query false e limit c c' k = k

  kept :
      (w : World) (refresh : Bool) (limit : ℕ) (c : Cache Rec Addr)
      → IsValid o h c
      → (i : ℕ) (e : Entry Rec Addr) (s : State) (percent : ℕ) → get_elem? c.entries i ≡ some e
      → Keeps o h limit c (keep_entry o w refresh i e s percent c)
  unfolding keep_entry next_expiry
  kept w refresh limit c v i e s percent at_i =
      let c' = renew_rand o w c in
      let e' = next_expiry o w c'.last_rand percent (record e { state = s }) in
      let c'' = record c' { entries = set_at i e' c.entries } in
      with_query refresh e limit c c'' (
        same_recs o h limit c c'' v (recs-set_at i e e' c.entries at_i refl)
          (renew_rand-entries o h w c).1)

  -- A timer that runs out leaves a valid cache, if the cache was valid; the count changes by what is
  -- reported, and stays within the limit.
  pub elapse-Keeps :
      (w : World) (refresh : Bool) (i limit : ℕ) (c : Cache Rec Addr)
      → IsValid o h c
      → Keeps o h limit c (elapse o w refresh i c)
  unfolding elapse elapse_entry remove_entry keep_entry next_expiry
  elapse-Keeps w refresh i limit c v = elim (Option-cases (get_elem? c.entries i)) [
    | inl out ↦ rw (elapse, out) (same_recs o h limit c c v refl refl)
    | inr (e, at_i) ↦ elim (Option-cases (next_state e.state)) [
      | inl gone ↦
          rw (elapse, at_i, elapse_entry, gone)
            (record {
              valid_still = record {
                counted = omega (arith, v.counted, length-remove_at i e c.entries at_i);
                distinct = Distinct-remove_at i c.entries v.distinct;
              };
              reported = omega (arith, v.counted, length-remove_at i e c.entries at_i);
              limited = λ l. omega arith;
            })
      | inr ((s, percent), stays) ↦
          rw (elapse, at_i, elapse_entry, stays) (kept w refresh limit c v i e s percent at_i)
    ]
  ]

  start_poof_entry-rec :
      (w : World) (a : Addr) (e : Entry Rec Addr) → (start_poof_entry o w a e).rec ≡ e.rec
  unfolding start_poof_entry expire_in_one_second
  start_poof_entry-rec w a e = ground arith

  start_poof_list-recs :
      (w : World) (k : Key) (a : Addr) (es : List (Entry Rec Addr))
      → recs o h (start_poof_list o w k a es) ≡ recs o h es
  unfolding start_poof_list
  start_poof_list-recs w k a [] = refl
  start_poof_list-recs w k a (e ∷ es) =
      ground (arith, start_poof_entry-rec w a e, start_poof_list-recs w k a es)

  -- A question leaves a valid cache with the same count, if the cache was valid.
  pub start_poof-Keeps :
      (w : World) (k : Key) (a : Addr) (limit : ℕ) (c : Cache Rec Addr)
      → IsValid o h c
      → Keeps o h limit c (start_poof o w k a c, [])
  unfolding start_poof
  start_poof-Keeps w k a limit c v =
      same_recs o h limit c (start_poof o w k a c) v (start_poof_list-recs w k a c.entries) refl

  stop_poof_entry-rec :
      (w : World) (random : ℕ) (a : Addr) (e : Entry Rec Addr)
      → (stop_poof_entry o w random a e).rec ≡ e.rec
  unfolding stop_poof_entry next_expiry
  stop_poof_entry-rec w random a e = ground arith

  -- A known answer of another host leaves a valid cache with the same count, if the cache was valid.
  pub stop_poof-Keeps :
      (w : World) (r : Rec) (a : Addr) (limit : ℕ) (c : Cache Rec Addr)
      → IsValid o h c
      → Keeps o h limit c (stop_poof o w r a c, [])
  unfolding stop_poof
  stop_poof-Keeps w r a limit c v = elim (Option-cases (first_entry o (found o r) c.entries)) [
    | inl stop ↦ rw (stop_poof, stop) (same_recs o h limit c c v refl refl)
    | inr (e, go) ↦ elim (Bool-cases (is_poof o e.state && same_address a e.poof_address)) [
      | inr calm ↦ rw (stop_poof, go, calm) (same_recs o h limit c c v refl refl)
      | inl again ↦
          let c' = renew_rand o w c in
          let f = stop_poof_entry o w c'.last_rand a in
          elim (Option-cases (update_first o (found o r) f c.entries)) [
            | inl stop ↦ rw (stop_poof, go, again, stop) (same_recs o h limit c c v refl refl)
            | inr (l, q) ↦
                rw (stop_poof, go, again, q)
                  (same_recs o h limit c (record c' { entries = l }) v
                    (update_first-recs o h (found o r) f c.entries l
                      (stop_poof_entry-rec w c'.last_rand a) q)
                    (renew_rand-entries o h w c).1)
          ]
    ]
  ]

  flush_loop-count :
      (es : List (Entry Rec Addr)) (n : ℕ)
      → length es ≡ n
      → ((flush_loop o es n).0 ≡ 0)
        × (losses (flush_loop o es n).1 ≡ n)
        × (news (flush_loop o es n).1 ≡ 0)
  unfolding flush_loop
  flush_loop-count [] n e = omega arith
  flush_loop-count (x ∷ es) n e = ground (arith, flush_loop-count es (n - 1))

  -- `avahi_cache_flush` leaves a valid cache with a count of 0, if the cache was valid, and reports as
  -- many records as gone as there were.
  pub cache_flush-Keeps :
      (limit : ℕ) (c : Cache Rec Addr)
      → IsValid o h c
      → Keeps o h limit c (cache_flush o c) × ((cache_flush o c).0.n_entries ≡ 0)
  unfolding cache_flush
  cache_flush-Keeps limit c v =
      let k = flush_loop-count c.entries c.n_entries (sym v.counted) in
      (
        record {
          valid_still = record { counted = omega (arith, k.0); distinct = tt };
          reported = omega (arith, k);
          limited = λ l. omega (arith, k.0);
        },
        k.0,
      )
