-- ===== src/Core/Queriers/Calls.antt =====
-- avahi-core/querier.c and avahi-core/query-sched.c: what each call does to those who browse for a key.
use nvmrdisplay.Prelude.{
  ℕ, ◌+◌, ◌-◌, ◌*◌, ◌%◌, ◌^◌, ◌≡◌, refl, ◌∙◌, arith, Bool, true, Option, none, some, ◌∷◌,
}
use nvmrdisplay.Prelude.{if◌then◌else◌, Option-cases, Bool-cases, inl, inr, leb}
use nvmrdisplay.Prelude.Outcome.{Outcome, done}
use nvmrdisplay.Common.Timeval.{Timeval}
use nvmrdisplay.Core.Queries.{elapse_time}
use nvmrdisplay.Core.Queries.Runs.{withdraw_by_id-IsOrderly}
use nvmrdisplay.Core.Queriers.{
  Querier, Interface, lookup, change, querier_free, post_query, newer, next_delay, querier_elapse,
  querier_add, withdraw, querier_remove, querier_shall_refresh_cache,
}
use nvmrdisplay.Core.Queriers.Users.{IsEquality, users, lookup-equal, lookup-Absent}
use nvmrdisplay.Core.Queriers.Sound.{
  IsSound, count, found_count, changed, freed, post_query-IsOrderly, next_delay_paced,
}

-- What is asked of the queriers of an interface.
pub data Call (Key : Type 0) : Type 0 where
  add : Timeval → Key → Call Key
  remove : Key → Call Key
  expire : Timeval → Key → Call Key
  refresh : Timeval → Key → Call Key

module _ {Key : Type 0} (key_equal : Key → Key → Bool) where
  abbrev pub call : Call Key → Interface Key → Outcome (Interface Key)
  call (add now k) i = done (querier_add key_equal now k i).0
  call (remove k) i = querier_remove key_equal k i
  call (expire now k) i = done (querier_elapse key_equal now k i)
  call (refresh now k) i = done (querier_shall_refresh_cache key_equal now k i).0

  -- The abstract view: how many browse for a key.
  abbrev pub interest : Key → Call Key → ℕ → ℕ
  interest m (add now k) n = if key_equal k m then n + 1 else n
  interest m (remove k) n = if key_equal k m then n - 1 else n
  interest m (expire now k) n = n
  interest m (refresh now k) n = n

  module _ (laws : IsEquality key_equal) where
    -- What a call does to the numbers of those who browse.
    abbrev pub Serves : Call Key → Interface Key → Type 0
    Serves c i =
        (j : Interface Key) × (call c i ≡ done j)
        × IsSound key_equal laws j
        × ((m : Key) → count key_equal laws m j ≡ interest m c (count key_equal laws m i))

    new_count :
        (k : Key) (i : Interface Key) (q : Querier Key)
        → q.key ≡ k
        → q.n_used ≡ 1
        → lookup key_equal k i.queriers ≡ none
        → (m : Key)
        → users key_equal laws m (q ∷ i.queriers)
          ≡ (if key_equal k m then count key_equal laws m i + 1 else count key_equal laws m i)
    unfolding lookup
    new_count k i q same one e m =
        ground (arith, same, one, e, lookup-equal key_equal laws k m i.queriers)

    add-Serves :
        (now : Timeval) (k : Key) (i : Interface Key)
        → IsSound key_equal laws i
        → Serves (add now k) i
    unfolding querier_add
    add-Serves now k i v = elim (Option-cases (lookup key_equal k i.queriers)) [
      | inr (q, e) ↦
          let used = λ (p : Querier Key). record p { n_used = p.n_used + 1 } in
          let (w, counts) =
            changed key_equal laws k used i i.query_scheduler {q = q} (λ p. refl) (λ p h. h) e v
              v.orderly in
          (
            record i { queriers = change key_equal k used i.queriers },
            rw (e, querier_add) refl,
            w,
            λ m. ground (arith, counts m, found_count key_equal laws k m i {q = q} e),
          )
      | inl e ↦
          let (id, s) = post_query key_equal now k i in
          let q : Querier Key = record {
            key = k;
            n_used = 1;
            sec_delay = 1;
            expiry = elapse_time now 1000;
            creation_time = now;
            post_id = id;
          } in
          (
            record i { queriers = q ∷ i.queriers; query_scheduler = s },
            rw (e, querier_add) refl,
            record {
              distinct = (lookup-Absent key_equal laws k i.queriers e, v.distinct);
              paced = (omega arith, v.paced);
              orderly = post_query-IsOrderly key_equal laws now k i v;
            },
            new_count k i q refl refl e,
          )
    ]

    expire-Serves :
        (now : Timeval) (k : Key) (i : Interface Key)
        → IsSound key_equal laws i
        → Serves (expire now k) i
    unfolding querier_elapse
    expire-Serves now k i v = elim (Option-cases (lookup key_equal k i.queriers)) [
      | inl e ↦ (i, rw (e, querier_elapse) refl, v, λ m. refl)
      | inr (q, e) ↦ elim (Bool-cases (leb q.n_used 0)) [
        | inl t ↦
            let (w, counts) = freed key_equal laws k i i.query_scheduler v v.orderly in
            (
              record i { queriers = querier_free key_equal k i.queriers },
              rw (e, querier_elapse) (rw t refl),
              w,
              λ m. ground (arith, t, counts m, found_count key_equal laws k m i {q = q} e),
            )
        | inr f ↦
            let (id, s) = post_query key_equal now q.key i in
            let again = λ (p : Querier Key). record p {
              post_id = newer key_equal id p.post_id;
              sec_delay = next_delay p.sec_delay;
              expiry = elapse_time now (next_delay p.sec_delay * 1000 % 2 ^ 32);
            } in
            let (w, counts) =
              changed key_equal laws k again i s {q = q} (λ p. refl)
                (λ p h. next_delay_paced p.sec_delay h) e v
                (post_query-IsOrderly key_equal laws now q.key i v) in
            (
              record i { queriers = change key_equal k again i.queriers; query_scheduler = s },
              rw (e, querier_elapse) (rw f refl),
              w,
              λ m. ground (arith, counts m, found_count key_equal laws k m i {q = q} e),
            )
      ]
    ]

    refresh-Serves :
        (now : Timeval) (k : Key) (i : Interface Key)
        → IsSound key_equal laws i
        → Serves (refresh now k) i
    unfolding querier_shall_refresh_cache
    refresh-Serves now k i v = elim (Option-cases (lookup key_equal k i.queriers)) [
      | inl e ↦ (i, rw (e, querier_shall_refresh_cache) refl, v, λ m. refl)
      | inr (q, e) ↦ elim (Bool-cases (leb q.n_used 0)) [
        | inl t ↦
            let (w, counts) = freed key_equal laws k i i.query_scheduler v v.orderly in
            (
              record i { queriers = querier_free key_equal k i.queriers },
              rw (e, querier_shall_refresh_cache) (rw t refl),
              w,
              λ m. ground (arith, t, counts m, found_count key_equal laws k m i {q = q} e),
            )
        | inr f ↦
            let later = λ (p : Querier Key). record p {
              expiry = elapse_time now (p.sec_delay * 1000 % 2 ^ 32);
            } in
            let (w, counts) =
              changed key_equal laws k later i i.query_scheduler {q = q} (λ p. refl) (λ p h. h) e v
                v.orderly in
            (
              record i { queriers = change key_equal k later i.queriers },
              rw (e, querier_shall_refresh_cache) (rw f refl),
              w,
              λ m. ground (arith, counts m, found_count key_equal laws k m i {q = q} e),
            )
      ]
    ]

    -- A querier that nobody uses is taken away or left, and the assert does not fail.
    withdraw_lem :
        (k : Key) (id : Option ℕ) (i : Interface Key)
        → IsSound key_equal laws i
        → ((m : Key) → key_equal k m ≡ true → count key_equal laws m i ≡ 0)
        → (j : Interface Key) × (withdraw key_equal k id i ≡ done j)
          × IsSound key_equal laws j
          × ((m : Key) → count key_equal laws m j ≡ count key_equal laws m i)
    unfolding withdraw
    withdraw_lem k none i v unused = (i, refl, v, λ m. refl)
    withdraw_lem k (some id) i v unused =
        let (r, made, o) = withdraw_by_id-IsOrderly key_equal id i.query_scheduler v.orderly in
        elim (Bool-cases r.1) [
          | inl t ↦
              let (w, counts) = freed key_equal laws k i r.0 v o in
              (
                record i { query_scheduler = r.0; queriers = querier_free key_equal k i.queriers },
                rw made (rw t refl),
                w,
                λ m. ground (arith, counts m, unused m),
              )
          | inr f ↦ (
            record i { query_scheduler = r.0 },
            rw made (rw f refl),
            record { distinct = v.distinct; paced = v.paced; orderly = o },
            λ m. refl,
          )
        ]

    remove-Serves : (k : Key) (i : Interface Key) → IsSound key_equal laws i → Serves (remove k) i
    unfolding querier_remove
    remove-Serves k i v = elim (Option-cases (lookup key_equal k i.queriers)) [
      | inl e ↦ (
        i,
        rw (e, querier_remove) refl,
        v,
        λ m. ground (arith, e, lookup-equal key_equal laws k m i.queriers),
      )
      | inr (q, e) ↦
          let unused = λ (p : Querier Key). record p { n_used = p.n_used - 1 } in
          let j = record i { queriers = change key_equal k unused i.queriers } in
          let (w, counts) =
            changed key_equal laws k unused i i.query_scheduler {q = q} (λ p. refl) (λ p h. h) e v
              v.orderly in
          let less : (m : Key)
              → count key_equal laws m j ≡ interest m (remove k) (count key_equal laws m i) =
            λ m. ground (arith, counts m, found_count key_equal laws k m i {q = q} e) in
          elim (Bool-cases (leb q.n_used 0)) [
            | inl t ↦ (
              i,
              rw (e, querier_remove) (rw t refl),
              v,
              λ m. ground (arith, t, found_count key_equal laws k m i {q = q} e),
            )
            | inr f ↦ elim (Bool-cases (leb (q.n_used - 1) 0)) [
              | inl last ↦
                  let (r, made, x, same) =
                    withdraw_lem k q.post_id j w (λ m c. ground (arith, counts m, c, last)) in
                  (r, rw (e, querier_remove) (rw (f, last) made), x, λ m. same m ∙ less m)
              | inr more ↦ (j, rw (e, querier_remove) (rw (f, more) refl), w, less)
            ]
          ]
    ]

    pub serves : (c : Call Key) (i : Interface Key) → IsSound key_equal laws i → Serves c i
    serves (add now k) i v = add-Serves now k i v
    serves (remove k) i v = remove-Serves k i v
    serves (expire now k) i v = expire-Serves now k i v
    serves (refresh now k) i v = refresh-Serves now k i v
