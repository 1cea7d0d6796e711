-- ===== src/Core/Responses/Sending/Total.antt =====
-- avahi-core/response-sched.c: the expiry of a scheduled response ends, and what it sends.
use nvmrdisplay.Prelude.{
  ℕ, zero, suc, ◌+◌, ◌≡◌, ◌≤◌, ◌<◌, refl, arith, Bool, false, Option, none, some, List, [], ◌∷◌,
  All,
}
use nvmrdisplay.Prelude.{Option-cases, inl, inr, ◌⊎◌}
use mathlib.Core.Path.{subst}
use nvmrdisplay.Prelude.Outcome.{Outcome, done, ◌>>=◌}
use nvmrdisplay.Core.Responses.{Ops, Scheduler, World, find_job, has_record}
use nvmrdisplay.Core.Responses.Scheduled.{
  IsOps, IsValid, Gives, response_scheduler_post-Gives, free_job-Distinct, IsTimed,
}
use nvmrdisplay.Core.Responses.Jobs.{All-free_job}
use nvmrdisplay.Core.Responses.Posted.{response_scheduler_post_lem}
use nvmrdisplay.Core.Responses.Sending.{
  Net, post_aux, mark_done, add_job, Filled, fill, send_response_packet,
}

List-cases {ℓ} : {A : Type ℓ} (l : List A) → (l ≡ []) ⊎ ((a : A) × (t : List A) × (l ≡ a ∷ t))
List-cases [] = inl refl
List-cases (a ∷ t) = inr (a, t, refl)

module _ {Rec Addr Packet : Type 0} (o : Ops Rec Addr) (net : Net Rec Packet) where
  open o use {record_equal, key_is_pattern}
  open net use {new_response, fitting, append_record, aux_records}

  -- `room` is a bound on what fits behind a packet, and `answers` the records in it.
  pub record IsNet : Type 0 where
    pub room : Packet → ℕ
    pub answers : Packet → ℕ
    pub no_patterns : (r : Rec) → All (λ a. key_is_pattern a.0 ≡ false) (aux_records r)
    pub new_empty : answers new_response ≡ 0
    pub fitting_empty : (r : Rec) → answers (fitting r) ≡ 0
    pub added :
        (r : Rec) (flush : Bool) (p q : Packet)
        → append_record r flush p ≡ some q
        → (room q < room p) × (answers q ≡ answers p + 1)

  module _ (laws : IsOps o) (v : IsNet) where
    open v use {room, answers, no_patterns, new_empty, fitting_empty, added}

    -- The posts of the auxiliary records have a result, and leave the scheduler as it should be.
    post_aux_lem :
        (w : World) (r : Rec) (l : List (Rec × Bool)) (s : Scheduler Rec Addr)
        → All (λ a. key_is_pattern a.0 ≡ false) l
        → IsValid o laws s
        → (t : Scheduler Rec Addr) × (post_aux o net w r l s ≡ done t) × IsValid o laws t
    unfolding post_aux
    post_aux_lem w r [] s h i = (s, refl, i)
    post_aux_lem w r ((a, flush) ∷ l) s h i =
        elim (Option-cases (find_job (has_record o r) s.jobs)) [
          | inl e ↦ let (t, made, u) = post_aux_lem w r l s h.1 i in (t, rw (e, post_aux) made, u)
          | inr (j, e) ↦
              let (t, made, d) =
                response_scheduler_post_lem o laws w a flush j.querier false s h.0 i.timed in
              let x : IsValid o laws t.0 =
                subst (Gives o laws) made
                  (response_scheduler_post-Gives o laws w a flush j.querier false s i) in
              let (u, rest, y) = post_aux_lem w r l t.0 h.1 x in
              (u, rw (e, post_aux) (rw made rest), y)
        ]

    mark_done-IsValid :
        (w : World) (r : Rec) (s : Scheduler Rec Addr)
        → IsValid o laws s
        → IsValid o laws (mark_done o net w r s)
    unfolding mark_done
    mark_done-IsValid w r s i = elim (Option-cases (find_job (has_record o r) s.jobs)) [
      | inl e ↦ rw (e, mark_done) i
      | inr (j, e) ↦
          rw (e, mark_done)
            (record {
              distinct = free_job-Distinct o laws (has_record o r) s.jobs i.distinct;
              queried = i.queried;
              timed = All-free_job (IsTimed o laws) (has_record o r) s.jobs i.timed;
            })
    ]

    -- What becomes of the packet and the scheduler, if there is room.
    abbrev Adds : Packet → Option (Packet × Scheduler Rec Addr) → Type 0
    Adds p none = Unit
    Adds p (some (q, t)) = (room q < room p) × (answers q ≡ answers p + 1) × IsValid o laws t

    add_job_lem :
        (w : World) (r : Rec) (p : Packet) (s : Scheduler Rec Addr)
        → IsValid o laws s
        → (a : Option (Packet × Scheduler Rec Addr)) × (add_job o net w r p s ≡ done a) × Adds p a
    unfolding add_job
    add_job_lem w r p s i = elim (Option-cases (find_job (has_record o r) s.jobs)) [
      | inl e ↦ (none, rw (e, add_job) refl, tt)
      | inr (j, e) ↦ elim (Option-cases (append_record j.rec j.flush_cache p)) [
        | inl full ↦ (none, rw (e, add_job) (rw full refl), tt)
        | inr (q, room_left) ↦
            let (t, made, u) = post_aux_lem w r (aux_records j.rec) s (no_patterns j.rec) i in
            let (less, more) = added j.rec j.flush_cache p q room_left in
            (
              some (q, mark_done o net w r t),
              rw (e, add_job) (rw room_left (rw made refl)),
              (less, more, mark_done-IsValid w r t u),
            )
      ]
    ]

    abbrev Fills : Outcome (Filled o net) → Type 0
    Fills x = (f : Filled o net) × (x ≡ done f) × (f.1 ≡ answers f.0) × IsValid o laws f.2

    -- A round of the loop that fills up the packet, by the rounds behind it.
    fill_round :
        (fuel : ℕ) (w : World) (n : ℕ) (p : Packet) (s : Scheduler Rec Addr)
        (a : Option (Packet × Scheduler Rec Addr))
        → ((q : Packet) (t : Scheduler Rec Addr)
            → room q < fuel
            → n + 1 ≡ answers q
            → IsValid o laws t
            → Fills (fill o net fuel w (n + 1) q t))
        → room p < suc fuel
        → n ≡ answers p
        → IsValid o laws s
        → Adds p a
        → Fills (elim a [ none ↦ done (p, n, s) | some (q, t) ↦ fill o net fuel w (n + 1) q t ])
    fill_round fuel w n p s none more h e i d = ((p, n, s), refl, e, i)
    fill_round fuel w n p s (some (q, t)) more h e i d =
        more q t (omega (arith, d.0)) (omega (arith, d.1)) d.2

    fill_lem :
        (fuel : ℕ) (w : World) (n : ℕ) (p : Packet) (s : Scheduler Rec Addr)
        → room p < fuel
        → n ≡ answers p
        → IsValid o laws s
        → Fills (fill o net fuel w n p s)
    unfolding fill
    fill_lem zero w n p s h e i = absurd (omega arith)
    fill_lem (suc fuel) w n p s h e i = elim (List-cases s.jobs) [
      | inl none_left ↦ rw (none_left, fill) ((p, n, s), refl, e, i)
      | inr (j, l, first) ↦
          let (a, made, adds) = add_job_lem w j.rec p s i in
          rw (first, fill)
            (rw made (
              fill_round fuel w n p s a (λ q t x y z. fill_lem fuel w (n + 1) q t x y z) h e i
                adds))
    ]

    -- The packet that is sent has as many records as its header says; there may be none.
    abbrev pub Sends : Outcome (Scheduler Rec Addr × Option (Packet × ℕ)) → Type 0
    Sends x =
        (t : Scheduler Rec Addr × Option (Packet × ℕ)) × (x ≡ done t)
        × IsValid o laws t.0
        × ((p : Packet) (n : ℕ) → t.1 ≡ some (p, n) → n ≡ answers p)

    first_sent :
        (fuel : ℕ) (w : World) (n : ℕ) (q : Packet) (t : Scheduler Rec Addr)
        → room q < fuel
        → n ≡ answers q
        → IsValid o laws t
        → Sends (fill o net fuel w n q t >>= λ f. done (f.2, some (f.0, f.1)))
    first_sent fuel w n q t h e i =
        let (f, made, counts, x) = fill_lem fuel w n q t h e i in
        rw made ((f.2, some (f.0, f.1)), refl, x, λ p m same. ground (arith, same, counts))

    second_sent :
        (w : World) (r : Rec) (s : Scheduler Rec Addr) (b : Option (Packet × Scheduler Rec Addr))
        → IsValid o laws s
        → Adds (fitting r) b
        → Sends (elim b [
          | some (q, t) ↦ done (t, some (q, 1))
          | none ↦ done (mark_done o net w r s, none)
        ])
    second_sent w r s none i d =
        ((mark_done o net w r s, none), refl, mark_done-IsValid w r s i, λ p n e. cc)
    second_sent w r s (some (q, t)) i d =
        ((t, some (q, 1)), refl, d.2, λ p n e. ground (arith, e, d.1, fitting_empty r))

    sent_after :
        (fuel : ℕ) (w : World) (r : Rec) (s : Scheduler Rec Addr)
        (a : Option (Packet × Scheduler Rec Addr))
        → room new_response ≤ fuel
        → IsValid o laws s
        → Adds new_response a
        → Sends (elim a [
          | some (q, t) ↦ fill o net fuel w 1 q t >>= λ f. done (f.2, some (f.0, f.1))
          | none ↦ add_job o net w r (fitting r) s >>= λ b. elim b [
            | some (q, t) ↦ done (t, some (q, 1))
            | none ↦ done (mark_done o net w r s, none)
          ]
        ])
    sent_after fuel w r s (some (q, t)) h i d =
        first_sent fuel w 1 q t (omega (arith, d.0)) (omega (arith, d.1, new_empty)) d.2
    sent_after fuel w r s none h i d =
        let (b, made, adds) = add_job_lem w r (fitting r) s i in
        rw made (second_sent w r s b i adds)

    -- With as much fuel as there is room in an empty packet the expiry of a scheduled response ends
    -- without a failed assert, if no auxiliary record has a pattern for its key: it leaves the scheduler
    -- as it should be, and the packet that is sent, if one is, has as many records as its header says.
    pub send_response_packet-Sends :
        (fuel : ℕ) (w : World) (r : Rec) (s : Scheduler Rec Addr)
        → room new_response ≤ fuel
        → IsValid o laws s
        → Sends (send_response_packet o net fuel w r s)
    unfolding send_response_packet
    send_response_packet-Sends fuel w r s h i =
        let (a, made, adds) = add_job_lem w r new_response s i in
        rw (made, send_response_packet) (sent_after fuel w r s a h i adds)
