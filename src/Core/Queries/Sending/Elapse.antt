-- ===== src/Core/Queries/Sending/Elapse.antt =====
-- avahi-core/query-sched.c: all that is done when the timer of a scheduled query expires.
use nvmrdisplay.Prelude.{ℕ, ◌+◌, ◌≡◌, refl, sym, ap, ◌∙◌, arith, true, false, some}
use nvmrdisplay.Prelude.{
  List, [], ◌∷◌, ◌++◌, append_assoc, append-nil, length, length-append, All, Option-cases, inl, inr,
  reverse, get_elem?,
}
use mathlib.Core.Path.{subst}
use nvmrdisplay.Prelude.Outcome.{done}
use nvmrdisplay.Common.Timeval.{Timeval}
use nvmrdisplay.Core.Queries.{Job, Scheduler, marked}
use nvmrdisplay.Core.Queries.Sending.{
  Packets, Sent, Progress, Filled, fill, append_known_answers_and_send, remove_place, elapse_job,
}
use nvmrdisplay.Core.Queries.Sending.Answers.{
  View, Keeps, all_answers, all_questions, IsLabelled, append_answers_lem, all_answers-append,
  all_questions-append,
}

module _ {Key Rec Packet : Type 0} (o : Packets Key Rec Packet) (v : View o) where
  open o use {new_query, append_key, append_record, is_empty, known}
  open v use {questions, answers, new_empty, new_questions, new_answers, key_added}

  -- The jobs go to the history one by one, and the records that are known go in front of those before.
  abbrev pub filed : Timeval → List (Job Key) → List (Job Key) → List (Job Key)
  filed now [] h = h
  filed now (j ∷ l) h = filed now l (marked now j ∷ h)

  abbrev pub gathered : List (Job Key) → List Rec → List Rec
  gathered [] a = a
  gathered (j ∷ l) a = gathered l (reverse (known j.key) ++ a)

  abbrev pub keys : List (Job Key) → List Key
  keys [] = []
  keys (j ∷ l) = j.key ∷ keys l

  -- What the loop has put into the packet.
  record Fills (now : Timeval) (p : Packet) (a : List Rec) (l h : List (Job Key)) (f : Filled o)
      : Type 0 where
    moved : List (Job Key)
    split : l ≡ moved ++ f.jobs
    history : f.history ≡ filed now moved h
    asks : questions f.packet ≡ questions p ++ keys moved
    tells : answers f.packet ≡ answers p
    counted : f.n ≡ length (questions f.packet)
    found : f.answers ≡ gathered moved a

  fill-Fills :
      (now : Timeval) (n : ℕ) (p : Packet) (a : List Rec) (l h : List (Job Key))
      → n ≡ length (questions p)
      → Fills now p a l h (fill o now n p a l h)
  unfolding fill
  fill-Fills now n p a [] h e = record {
    moved = [];
    split = refl;
    history = refl;
    asks = sym (append-nil (questions p));
    tells = refl;
    counted = e;
    found = refl;
  }
  fill-Fills now n p a (j ∷ l) h e = elim (Option-cases (append_key j.key p)) [
    | inl full ↦
        rw (full, fill)
          (record {
            moved = [];
            split = refl;
            history = refl;
            asks = sym (append-nil (questions p));
            tells = refl;
            counted = e;
            found = refl;
          })
    | inr (q, room) ↦
        let (more, same) = key_added j.key p q room in
        let r =
          fill-Fills now (n + 1) q (reverse (known j.key) ++ a) l (marked now j ∷ h)
            (rw more (omega (arith, e, length-append (questions p) (j.key ∷ [])))) in
        rw (room, fill)
          (record {
            moved = j ∷ r.moved;
            split = ap (λ t. j ∷ t) r.split;
            history = r.history;
            asks =
                r.asks
                ∙ (ap (λ t. t ++ keys r.moved) more
                    ∙ append_assoc (questions p) (j.key ∷ []) (keys r.moved));
            tells = r.tells ∙ same;
            counted = r.counted;
            found = r.found;
          })
  ]

  -- Packets as they follow one another: all but the last are marked as truncated, and the counts in the
  -- header are those of what a packet holds.
  abbrev pub IsSequence : List (Sent Packet) → Type 0
  IsSequence sent =
      (front : List (Sent Packet)) × (last : Sent Packet) × (sent ≡ front ++ (last ∷ []))
      × All (IsLabelled o v true) front
      × IsLabelled o v false last

  abbrev Sends : List Rec → Packet → ℕ → Type 0
  Sends l p n =
      (sent : List (Sent Packet)) × (append_known_answers_and_send o l p n ≡ done sent)
      × IsSequence sent
      × (all_questions o v sent ≡ questions p)
      × Keeps o v l (all_answers o v sent)

  append_known_answers_and_send_lem :
      (l : List Rec) (p : Packet) (n : ℕ) → n ≡ length (questions p) → answers p ≡ [] → Sends l p n
  unfolding append_known_answers_and_send
  append_known_answers_and_send_lem l p n e none_yet =
      let first : Progress Packet = record { packet = p; qdcount = n; ancount = 0; sent = [] } in
      let (q, m, made, good, same, keeps, all) =
        append_answers_lem o v l first (record { asks = e; tells = rw none_yet refl; full = tt }) in
      let last : Sent Packet = record {
        packet = q.packet;
        qdcount = q.qdcount;
        ancount = q.ancount;
        truncated = false;
      } in
      (
        q.sent ++ (last ∷ []),
        rw made refl,
        (q.sent, last, refl, good.full, (good.asks, good.tells, refl)),
        all_questions-append o v q.sent (last ∷ [])
            ∙ (ap (λ t. all_questions o v q.sent ++ t) (append-nil (questions q.packet)) ∙ same),
        subst (Keeps o v l)
            (sym (
              all_answers-append o v q.sent (last ∷ [])
              ∙ (ap (λ t. all_answers o v q.sent ++ t) (append-nil (answers q.packet))
                  ∙ (all ∙ ap (λ t. t ++ m) none_yet))))
            keeps,
      )

  -- What is sent for the job with number i, and what the scheduler is then.
  abbrev pub Elapses : Timeval → ℕ → Scheduler Key → Job Key → Type 0
  Elapses now i s j =
      (moved : List (Job Key)) × (left : List (Job Key)) × (sent : List (Sent Packet)) × (elapse_job
          o now i s
        ≡ done (record s { jobs = left; history = filed now (j ∷ moved) s.history }, sent))
      × (remove_place o i s.jobs ≡ moved ++ left)
      × (all_questions o v sent ≡ keys (j ∷ moved))
      × Keeps o v (gathered (j ∷ moved) []) (all_answers o v sent)
      × IsSequence sent

  pub elapse_job_lem :
      (now : Timeval) (i : ℕ) (s : Scheduler Key) (j : Job Key) (p : Packet)
      → get_elem? s.jobs i ≡ some j
      → append_key j.key new_query ≡ some p
      → Elapses now i s j
  unfolding elapse_job
  elapse_job_lem now i s j p at room =
      let (asks, tells) = key_added j.key new_query p room in
      let f =
        fill-Fills now 1 p (reverse (known j.key)) (remove_place o i s.jobs)
          (marked now j ∷ s.history) (rw (asks, new_questions) refl) in
      let filled =
        fill o now 1 p (reverse (known j.key)) (remove_place o i s.jobs)
          (marked now j ∷ s.history) in
      let (sent, made, sequence, questioned, keeps) =
        append_known_answers_and_send_lem filled.answers filled.packet filled.n f.counted
          (f.tells ∙ (tells ∙ new_answers)) in
      (
        f.moved,
        filled.jobs,
        sent,
        rw (at, elapse_job)
            (rw room (
              rw made
                (ap (λ t. done (record s { jobs = filled.jobs; history = t }, sent)) f.history))),
        f.split,
        questioned
            ∙ (f.asks
                ∙ ap (λ t. t ++ keys f.moved) (asks ∙ ap (λ t. t ++ (j.key ∷ [])) new_questions)),
        subst (λ t. Keeps o v t (all_answers o v sent))
            (f.found ∙ ap (gathered f.moved) (sym (append-nil (reverse (known j.key))))) keeps,
        sequence,
      )
