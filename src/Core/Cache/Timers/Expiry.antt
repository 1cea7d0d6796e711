-- ===== src/Core/Cache/Timers/Expiry.antt =====
-- The looks at an entry that nobody refreshes: when they come, and how many they are.
use nvmrdisplay.Prelude.{ℕ, zero, suc, ◌+◌, ◌-◌, ◌*◌, ◌≤◌, ◌≡◌, refl, ap, ◌∙◌, arith, Bool}
use mathlib.Core.Path.{subst}
use nvmrdisplay.Prelude.{none, some, List, [], ◌∷◌, get_elem?, if◌then◌else◌}
use nvmrdisplay.Prelude.Int.{pos}
use nvmrdisplay.Common.Timeval.{timeval_diff}
use nvmrdisplay.Common.Timeval.Arithmetic.{timeval_diff-timeval_add}
use nvmrdisplay.Core.Cache.{
  Ops, State, valid, expiry1, expiry2, expiry3, expiry_final, Entry, Cache, World, Event, query,
  removed, renew_rand, next_expiry,
}
use nvmrdisplay.Core.Cache.Timers.{
  elapse, elapse_entry, remove_entry, next_state, set_at, remove_at,
}

get_elem?-set_at {ℓ} :
    {A : Type ℓ} (i : ℕ) (a : A) (l : List A) {b : A}
    → get_elem? l i ≡ some b
    → get_elem? (set_at i a l) i ≡ some a
get_elem?-set_at i a [] e = absurd (cc)
get_elem?-set_at zero a (x ∷ l) e = refl
get_elem?-set_at (suc i) a (x ∷ l) e = get_elem?-set_at i a l e

module _ {Rec Key Addr : Type 0} (o : Ops Rec Key Addr) where
  -- The entry at the place is in the state `s`, unchanged but for its timer, and the timer is set to
  -- between `percent` and `percent + 2` per cent of the time to live behind the last answer.
  pub record IsScheduled (i : ℕ) (e : Entry Rec Addr) (s : State) (percent : ℕ) (c : Cache Rec Addr)
      : Type 0 where
    pub entry : Entry Rec Addr
    pub at_place : get_elem? c.entries i ≡ some entry
    pub state_set : entry.state ≡ s
    pub rec_kept : entry.rec ≡ e.rec
    pub time_kept : entry.timestamp ≡ e.timestamp
    pub delay : ℕ
    pub expires : timeval_diff entry.expiry e.timestamp ≡ pos delay
    pub early : o.ttl e.rec * 10000 * percent ≤ delay
    pub late : delay ≤ o.ttl e.rec * 10000 * (percent + 2)

  -- One look, at an entry whose state has a successor.
  expires_to :
      (w : World) (refresh : Bool) (i : ℕ) (c : Cache Rec Addr) (e : Entry Rec Addr) {s : State}
      {percent : ℕ}
      → ((d r : ℕ) → w.scale d r ≤ d)
      → get_elem? c.entries i ≡ some e
      → next_state e.state ≡ some (s, percent)
      → IsScheduled i e s percent (elapse o w refresh i c).0
        × ((elapse o w refresh i c).1 ≡ (if refresh then query (o.key e.rec) ∷ [] else []))
  unfolding elapse next_expiry
  expires_to w refresh i c e {s} {percent} scaled at next =
      let random = (renew_rand o w c).last_rand in
      let usec = o.ttl e.rec * 10000 in
      let left = usec * percent in
      let d = w.scale (usec * (percent + 2) - left) random in
      rw (elapse, at, elapse_entry, next)
        (
          record {
            entry = next_expiry o w random percent (record e { state = s });
            at_place =
                get_elem?-set_at i (next_expiry o w random percent (record e { state = s }))
                  c.entries at;
            state_set = refl;
            rec_kept = refl;
            time_kept = refl;
            delay = left + d;
            expires = timeval_diff-timeval_add e.timestamp (pos (left + d));
            early = omega arith;
            late = ground (arith, scaled (usec * (percent + 2) - left) random);
          },
          refl,
        )

  -- The same of the entry that was scheduled before: its record and its time stamp are those of `e`.
  again :
      (w : World) (refresh : Bool) (i : ℕ) (c : Cache Rec Addr) (e : Entry Rec Addr) {s t : State}
      {percent next : ℕ}
      → ((d r : ℕ) → w.scale d r ≤ d)
      → IsScheduled i e s percent c
      → next_state s ≡ some (t, next)
      → IsScheduled i e t next (elapse o w refresh i c).0
        × ((elapse o w refresh i c).1 ≡ (if refresh then query (o.key e.rec) ∷ [] else []))
  again w refresh i c e {s} {t} {percent} {next} scaled v follows =
      let (x, told) =
        expires_to w refresh i c v.entry {s = t} {percent = next} scaled v.at_place
          (ap next_state v.state_set ∙ follows) in
      (
        record {
          entry = x.entry;
          at_place = x.at_place;
          state_set = x.state_set;
          rec_kept = x.rec_kept ∙ v.rec_kept;
          time_kept = x.time_kept ∙ v.time_kept;
          delay = x.delay;
          expires = subst (λ m. timeval_diff x.entry.expiry m ≡ pos x.delay) v.time_kept x.expires;
          early = subst (λ r. o.ttl r * 10000 * next ≤ x.delay) v.rec_kept x.early;
          late = subst (λ r. x.delay ≤ o.ttl r * 10000 * (next + 2)) v.rec_kept x.late;
        },
        told ∙ ap (λ r. if refresh then query (o.key r) ∷ [] else []) v.rec_kept,
      )

  removed_last :
      (w : World) (refresh : Bool) (i : ℕ) (c : Cache Rec Addr) (e : Entry Rec Addr) {percent : ℕ}
      → IsScheduled i e expiry_final percent c
      → let s = elapse o w refresh i c in
        (s.1 ≡ removed e.rec ∷ [])
        × (s.0.entries ≡ remove_at i c.entries)
        × (s.0.n_entries ≡ c.n_entries - 1)
  unfolding elapse elapse_entry remove_entry
  removed_last w refresh i c e v =
      let last : next_state v.entry.state ≡ none = unfold next_state in ap next_state v.state_set in
      rw (elapse, v.at_place, elapse_entry, last) (ap (λ r. removed r ∷ []) v.rec_kept, refl, refl)

  -- The timer of the entry at a place runs out again and again, in these worlds and with these answers
  -- of the querier.
  module _ (w : ℕ → World) (refresh : ℕ → Bool) (i : ℕ) (c : Cache Rec Addr) where
    abbrev pub rest : ℕ → Cache Rec Addr
    rest zero = c
    rest (suc n) = (elapse o (w n) (refresh n) i (rest n)).0

    abbrev pub told : ℕ → List (Event Rec Key)
    told n = (elapse o (w n) (refresh n) i (rest n)).1

    -- A valid entry that nobody refreshes is looked at four times, behind 85, 90, 95 and 100 per cent of
    -- its time to live, each time within two per cent of that, for every random number, where the share
    -- that this picks of a span is no longer than the span; at each but the last expiry of its timer a
    -- question is posted exactly if the querier wants the record refreshed. At the fifth expiry the entry
    -- is removed, and reported.
    pub elapse_lem :
        (e : Entry Rec Addr)
        → ((n d r : ℕ) → (w n).scale d r ≤ d)
        → get_elem? c.entries i ≡ some e
        → e.state ≡ valid
        → IsScheduled i e expiry1 85 (rest 1)
          × IsScheduled i e expiry2 90 (rest 2)
          × IsScheduled i e expiry3 95 (rest 3)
          × IsScheduled i e expiry_final 100 (rest 4)
          × (told 0 ≡ (if refresh 0 then query (o.key e.rec) ∷ [] else []))
          × (told 1 ≡ (if refresh 1 then query (o.key e.rec) ∷ [] else []))
          × (told 2 ≡ (if refresh 2 then query (o.key e.rec) ∷ [] else []))
          × (told 3 ≡ (if refresh 3 then query (o.key e.rec) ∷ [] else []))
          × (told 4 ≡ removed e.rec ∷ [])
          × ((rest 5).entries ≡ remove_at i (rest 4).entries)
          × ((rest 5).n_entries ≡ (rest 4).n_entries - 1)
    unfolding next_state
    elapse_lem e scaled at is_valid =
        let (v1, t1) =
          expires_to (w 0) (refresh 0) i c e {s = expiry1} {percent = 85} (scaled 0) at
            (ap next_state is_valid) in
        let (v2, t2) =
          again (w 1) (refresh 1) i (rest 1) e {t = expiry2} {next = 90} (scaled 1) v1 refl in
        let (v3, t3) =
          again (w 2) (refresh 2) i (rest 2) e {t = expiry3} {next = 95} (scaled 2) v2 refl in
        let (v4, t4) =
          again (w 3) (refresh 3) i (rest 3) e {t = expiry_final} {next = 100} (scaled 3) v3 refl in
        let gone = removed_last (w 4) (refresh 4) i (rest 4) e v4 in
        (v1, v2, v3, v4, t1, t2, t3, t4, gone.0, gone.1, gone.2)
