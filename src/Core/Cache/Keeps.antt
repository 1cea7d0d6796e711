-- ===== src/Core/Cache/Keeps.antt =====
-- Every operation of the cache keeps the invariant, and reports what it adds and removes.
use nvmrdisplay.Prelude.{ℕ, suc, ◌+◌, ◌≤◌, ◌≡◌, refl, ap, arith}
use nvmrdisplay.Prelude.{Bool, true, false, ◌&&◌, none, List, [], ◌∷◌, length, if◌then◌else◌}
use nvmrdisplay.Prelude.{Bool-cases, Option-cases, inl, inr, leb, ◌==◌}
use mathlib.Core.Path.{subst}
use nvmrdisplay.Prelude.Outcome.{done}
use nvmrdisplay.Core.Cache.{
  Ops, Entry, Cache, World, Event, new, removed, query, Step, renew_rand, next_expiry,
}
use nvmrdisplay.Core.Cache.{expire_in_one_second, found, update_first, flush_older, refresh}
use nvmrdisplay.Core.Cache.{goodbye, store, cache_update, goodbye_final}
use nvmrdisplay.Core.Cache.Invariant.{
  IsOps, IsValid, recs, Differs, Distinct, length-recs, flush_older-recs,
}
use nvmrdisplay.Core.Cache.Invariant.{update_first-recs, replaced-Distinct, length-update_first}

-- How many records the events report as new, and as gone.
abbrev pub news : {Rec Key : Type 0} → List (Event Rec Key) → ℕ
news [] = 0
news (new r ∷ evs) = suc (news evs)
news (removed r ∷ evs) = news evs
news (query k ∷ evs) = news evs

abbrev pub losses : {Rec Key : Type 0} → List (Event Rec Key) → ℕ
losses [] = 0
losses (new r ∷ evs) = losses evs
losses (removed r ∷ evs) = suc (losses evs)
losses (query k ∷ evs) = losses evs

done_inj : {A : Type 0} {a b : A} → done a ≡ done b → a ≡ b
done_inj e = cc

module _ {Rec Key Addr : Type 0} (o : Ops Rec Key Addr) (h : IsOps o) where
  open o use {key, ttl, key_equal, record_equal, is_pattern}

  -- After the step the cache is valid, holds as many records more as the events report new ones and
  -- as many fewer as they report gone ones, and is within the limit if it was.
  pub record Keeps (limit : ℕ) (c : Cache Rec Addr) (s : Step o) : Type 0 where
    pub valid_still : IsValid o h s.0
    pub reported : s.0.n_entries + losses s.1 ≡ c.n_entries + news s.1
    pub limited : c.n_entries ≤ limit → s.0.n_entries ≤ limit

  -- A list with the records of the old one.
  pub same_recs :
      (limit : ℕ) (c c' : Cache Rec Addr)
      → IsValid o h c
      → recs o h c'.entries ≡ recs o h c.entries
      → c'.n_entries ≡ c.n_entries
      → Keeps limit c (c', [])
  same_recs limit c c' v e n = record {
    valid_still = record {
      counted =
          omega
            (arith, v.counted, ap length e, length-recs o h c.entries, length-recs o h c'.entries);
      distinct = rw e v.distinct;
    };
    reported = omega arith;
    limited = λ l. omega arith;
  }

  goodbye-Keeps :
      (w : World) (limit : ℕ) (r : Rec) (c : Cache Rec Addr)
      → IsValid o h c
      → Keeps limit c (goodbye o w r c)
  unfolding goodbye expire_in_one_second
  goodbye-Keeps w limit r c v =
      let f = expire_in_one_second o w goodbye_final in
      elim (Option-cases (update_first o (found o r) f c.entries)) [
        | inl stop ↦ rw (goodbye, stop) (same_recs limit c c v refl refl)
        | inr (l, go) ↦
            rw (goodbye, go)
              (same_recs limit c (record c { entries = l }) v
                (update_first-recs o h (found o r) f c.entries l (λ e. refl) go) refl)
      ]

  -- The entries that `store` looks through.
  abbrev flushed : World → Rec → Bool → Cache Rec Addr → List (Entry Rec Addr)
  flushed w r flush c = if flush then flush_older o w (key r) c.entries else c.entries

  flushed-recs :
      (w : World) (r : Rec) (flush : Bool) (c : Cache Rec Addr)
      → recs o h (flushed w r flush c) ≡ recs o h c.entries
  flushed-recs w r true c = flush_older-recs o h w (key r) c.entries
  flushed-recs w r false c = refl

  -- The test of `store` for an entry.
  abbrev same_entry : Rec → Entry Rec Addr → Bool
  same_entry r e = key_equal (key e.rec) (key r) && record_equal e.rec r

  not_found-Differs :
      (r : Rec) (f : Entry Rec Addr → Entry Rec Addr) (es : List (Entry Rec Addr))
      → update_first o (same_entry r) f es ≡ none
      → Differs o h r (recs o h es)
  unfolding update_first
  not_found-Differs r f [] q = tt
  not_found-Differs r f (e ∷ es) q = elim (Option-cases (update_first o (same_entry r) f es)) [
    | inl stop ↦ (
      ground (arith, h.record_key e.rec r, h.record_sym r e.rec, stop),
      not_found-Differs r f es stop,
    )
    | inr (m, go) ↦ absurd (ground (arith, go))
  ]

  pub renew_rand-entries :
      (w : World) (c : Cache Rec Addr)
      → ((renew_rand o w c).entries ≡ c.entries) × ((renew_rand o w c).n_entries ≡ c.n_entries)
  unfolding renew_rand
  renew_rand-entries w c = (ground arith, ground arith)

  store-Keeps :
      (w : World) (limit : ℕ) (r : Rec) (flush : Bool) (a : Addr) (c : Cache Rec Addr)
      → IsValid o h c
      → Keeps limit c (store o w limit r flush a c)
  unfolding store refresh next_expiry
  store-Keeps w limit r flush a c v =
      let es = flushed w r flush c in
      let c' = renew_rand o w c in
      let f = refresh o w c'.last_rand r flush a in
      let d : Distinct o h (recs o h es) = rw (flushed-recs w r flush c) v.distinct in
      let n : c.n_entries ≡ length es = omega (
        arith,
        v.counted,
        ap length (flushed-recs w r flush c),
        length-recs o h c.entries,
        length-recs o h es,
      ) in
      elim (Option-cases (update_first o (same_entry r) f es)) [
        | inr (l, go) ↦
            rw (store, go)
              (record {
                valid_still = record {
                  counted = omega (
                    arith,
                    n,
                    length-update_first o h (same_entry r) f es l go,
                    (renew_rand-entries w c).1,
                  );
                  distinct =
                      replaced-Distinct o h r (same_entry r) f (λ e t. ground arith) (λ e. refl) es
                        l go d;
                };
                reported = omega (arith, (renew_rand-entries w c).1);
                limited = λ le. omega (arith, (renew_rand-entries w c).1);
              })
        | inl stop ↦ elim (Bool-cases (leb limit c.n_entries)) [
          | inl full ↦
              rw (store, stop, full)
                (same_recs limit c (record c { entries = es }) v (flushed-recs w r flush c) refl)
          | inr free ↦
              rw (store, stop, free)
                (record {
                  valid_still = record {
                    counted = omega (arith, n);
                    distinct = (not_found-Differs r f es stop, d);
                  };
                  reported = omega arith;
                  limited = λ le. ground arith;
                })
        ]
      ]

  -- What `avahi_cache_update` leaves is a valid cache, if the cache was valid: the count is right and
  -- no record is held twice. The count changes by what is reported to the subscribers, and stays
  -- within the limit of the server's configuration.
  pub cache_update-Keeps :
      (w : World) (limit : ℕ) (r : Rec) (flush : Bool) (a : Addr) (c : Cache Rec Addr) {s : Step o}
      → IsValid o h c
      → cache_update o w limit r flush a c ≡ done s
      → Keeps limit c s
  unfolding cache_update
  cache_update-Keeps w limit r flush a c {s} v e = elim (Bool-cases (ttl r == 0)) [
    | inl t ↦ subst (Keeps limit c) (done_inj (rw t at e)) (goodbye-Keeps w limit r c v)
    | inr n ↦ elim (Bool-cases (is_pattern (key r))) [
      | inl t ↦ absurd (cc (rw (n, t) at e))
      | inr k ↦
          subst (Keeps limit c) (done_inj (rw (n, k) at e)) (store-Keeps w limit r flush a c v)
    ]
  ]
