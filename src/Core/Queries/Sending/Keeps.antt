-- ===== src/Core/Queries/Sending/Keeps.antt =====
-- avahi-core/query-sched.c: an expired query leaves the others scheduled as they should be.
use nvmrdisplay.Prelude.{ℕ, zero, suc, ◌≡◌, arith, Bool}
use nvmrdisplay.Prelude.{List, [], ◌∷◌, ◌++◌, All, Option-cases, inl, inr, get_elem?}
use mathlib.Core.Path.{subst}
use nvmrdisplay.Prelude.Outcome.{done}
use nvmrdisplay.Common.Timeval.{Timeval}
use nvmrdisplay.Core.Queries.{Job, Scheduler}
use nvmrdisplay.Core.Queries.Scheduled.{Distinct, IsDue, IsOrderly}
use nvmrdisplay.Core.Queries.Sending.{Packets, Sent, remove_place, elapse_job}
use nvmrdisplay.Core.Queries.Sending.Answers.{View}
use nvmrdisplay.Core.Queries.Sending.Elapse.{elapse_job_lem, filed}

module _ {Key Rec Packet : Type 0} (key_equal : Key → Key → Bool) (o : Packets Key Rec Packet)
    (v : View o) where
  open o use {new_query, append_key}

  abbrev Due : Job Key → Type 0
  Due = IsDue key_equal

  All-remove_place :
      (P : Job Key → Type 0) (i : ℕ) (l : List (Job Key)) → All P l → All P (remove_place o i l)
  unfolding remove_place
  All-remove_place P i [] h = tt
  All-remove_place P zero (j ∷ l) h = h.1
  All-remove_place P (suc i) (j ∷ l) h = (h.0, All-remove_place P i l h.1)

  remove_place-Distinct :
      (i : ℕ) (l : List (Job Key)) → Distinct key_equal l → Distinct key_equal (remove_place o i l)
  unfolding remove_place
  remove_place-Distinct i [] h = tt
  remove_place-Distinct zero (j ∷ l) h = h.1
  remove_place-Distinct (suc i) (j ∷ l) h =
      (All-remove_place _ i l h.0, remove_place-Distinct i l h.1)

  All-behind : (P : Job Key → Type 0) (l m : List (Job Key)) → All P (l ++ m) → All P m
  All-behind P [] m h = h
  All-behind P (j ∷ l) m h = All-behind P l m h.1

  Distinct-behind : (l m : List (Job Key)) → Distinct key_equal (l ++ m) → Distinct key_equal m
  Distinct-behind [] m h = h
  Distinct-behind (j ∷ l) m h = Distinct-behind l m h.1

  pub elapse_job-IsOrderly :
      (now : Timeval) (i : ℕ) (s : Scheduler Key) {r : Scheduler Key × List (Sent Packet)}
      → IsOrderly key_equal s
      → elapse_job o now i s ≡ done r
      → IsOrderly key_equal r.0
  unfolding elapse_job
  elapse_job-IsOrderly now i s {r} w e = elim (Option-cases (get_elem? s.jobs i)) [
    | inl out ↦ subst (IsOrderly key_equal) (ground (arith, out, e)) w
    | inr (j, at) ↦ elim (Option-cases (append_key j.key new_query)) [
      | inl full ↦ absurd (ground (arith, at, full, e))
      | inr (p, room) ↦
          let (moved, left, sent, made, split, asks, keeps, sequence) =
            elapse_job_lem o v now i s j p at room in
          subst (IsOrderly key_equal)
            {x = record s { jobs = left; history = filed o v now (j ∷ moved) s.history }}
            (cc (made, e))
            (record {
              distinct =
                  Distinct-behind moved left
                    (subst (Distinct key_equal) split (remove_place-Distinct i s.jobs w.distinct));
              due =
                  All-behind Due moved left
                    (subst (All Due) split (All-remove_place Due i s.jobs w.due));
            })
    ]
  ]
