-- ===== src/Core/Queries/Sending/Answers.antt =====
-- avahi-core/query-sched.c: what stands in the packets that an expired query sends.
use nvmrdisplay.Prelude.{ℕ, suc, ◌+◌, ◌≡◌, refl, sym, ap, ◌∙◌, arith, Bool, true, none, some}
use nvmrdisplay.Prelude.{
  List, [], ◌∷◌, ◌++◌, append_assoc, append-nil, length, length-append, All, All-append,
  Option-cases, Bool-cases, inl, inr, ◌⊎◌,
}
use mathlib.Core.Path.{subst}
use nvmrdisplay.Prelude.Outcome.{done}
use nvmrdisplay.Core.Queries.Sending.{Packets, Sent, Progress, append_answer, append_answers}

-- What can be read in a packet, and that the functions on packets add to it at its end.
pub record View {Key Rec Packet : Type 0} (o : Packets Key Rec Packet) : Type 0 where
  pub questions : Packet → List Key
  pub answers : Packet → List Rec
  pub new_empty : o.is_empty o.new_query ≡ true
  pub new_questions : questions o.new_query ≡ []
  pub new_answers : answers o.new_query ≡ []
  pub key_added :
      (k : Key) (p q : Packet)
      → o.append_key k p ≡ some q
      → (questions q ≡ questions p ++ (k ∷ [])) × (answers q ≡ answers p)
  pub record_added :
      (r : Rec) (p q : Packet)
      → o.append_record r p ≡ some q
      → (answers q ≡ answers p ++ (r ∷ [])) × (questions q ≡ questions p)

module _ {Key Rec Packet : Type 0} (o : Packets Key Rec Packet) (v : View o) where
  open o use {new_query, append_key, append_record, is_empty, known}
  open v use {questions, answers, new_empty, new_questions, new_answers, record_added}

  -- The first list without some records that an empty packet has no room for.
  pub data Keeps : List Rec → List Rec → Type 0 where
    nothing : Keeps [] []
    kept : {l m : List Rec} → (r : Rec) → Keeps l m → Keeps (r ∷ l) (r ∷ m)
    refused :
        {l m : List Rec}
        → (r : Rec) → (e : Packet) → is_empty e ≡ true
        → append_record r e ≡ none
        → Keeps l m
        → Keeps (r ∷ l) m

  abbrev pub all_answers : List (Sent Packet) → List Rec
  all_answers [] = []
  all_answers (s ∷ l) = answers s.packet ++ all_answers l

  abbrev pub all_questions : List (Sent Packet) → List Key
  all_questions [] = []
  all_questions (s ∷ l) = questions s.packet ++ all_questions l

  pub all_answers-append :
      (l m : List (Sent Packet)) → all_answers (l ++ m) ≡ all_answers l ++ all_answers m
  all_answers-append [] m = refl
  all_answers-append (s ∷ l) m =
      rw (all_answers-append l m)
        (sym (append_assoc (answers s.packet) (all_answers l) (all_answers m)))

  pub all_questions-append :
      (l m : List (Sent Packet)) → all_questions (l ++ m) ≡ all_questions l ++ all_questions m
  all_questions-append [] m = refl
  all_questions-append (s ∷ l) m =
      rw (all_questions-append l m)
        (sym (append_assoc (questions s.packet) (all_questions l) (all_questions m)))

  -- The counts in the header are those of what the packet holds, and the flag says whether more follow.
  abbrev pub IsLabelled : Bool → Sent Packet → Type 0
  IsLabelled more s =
      (s.qdcount ≡ length (questions s.packet))
      × (s.ancount ≡ length (answers s.packet))
      × (s.truncated ≡ more)

  pub record IsGood (p : Progress Packet) : Type 0 where
    pub asks : p.qdcount ≡ length (questions p.packet)
    pub tells : p.ancount ≡ length (answers p.packet)
    pub full : All (IsLabelled true) p.sent

  abbrev pub told : Progress Packet → List Rec
  told p = all_answers p.sent ++ answers p.packet

  abbrev pub asked : Progress Packet → List Key
  asked p = all_questions p.sent ++ questions p.packet

  -- One more record is told, or an empty packet has no room for it.
  abbrev Tells : Rec → Progress Packet → Progress Packet → Type 0
  Tells r p q =
      (told q ≡ told p ++ (r ∷ []))
      ⊎ ((told q ≡ told p) × ((e : Packet) × (is_empty e ≡ true) × (append_record r e ≡ none)))

  abbrev Answered : ℕ → Rec → Progress Packet → Type 0
  Answered n r p =
      (q : Progress Packet) × (append_answer o n r p ≡ done q)
      × IsGood q
      × (asked q ≡ asked p)
      × Tells r p q

  added :
      (n : ℕ) (r : Rec) (p : Progress Packet) (q : Packet)
      → IsGood p
      → append_record r p.packet ≡ some q
      → Answered (suc n) r p
  unfolding append_answer
  added n r p q g e =
      let (a, b) = record_added r p.packet q e in
      (
        record p { packet = q; ancount = p.ancount + 1 },
        rw (e, append_answer) refl,
        record {
          asks = rw b g.asks;
          tells = rw a (omega (arith, g.tells, length-append (answers p.packet) (r ∷ [])));
          full = g.full;
        },
        rw b refl,
        inl (rw a (sym (append_assoc (all_answers p.sent) (answers p.packet) (r ∷ [])))),
      )

  no_room :
      (n : ℕ) (r : Rec) (p : Progress Packet)
      → IsGood p
      → append_record r p.packet ≡ none
      → is_empty p.packet ≡ true
      → Answered (suc n) r p
  unfolding append_answer
  no_room n r p g e empty =
      (p, rw (e, append_answer) (rw empty refl), g, refl, inr (refl, (p.packet, empty, e)))

  -- The packet is sent and a new one is begun.
  abbrev flushed : Progress Packet → Progress Packet
  flushed p = record {
    packet = new_query;
    qdcount = 0;
    ancount = 0;
    sent =
        p.sent
        ++ (record { packet = p.packet; qdcount = p.qdcount; ancount = p.ancount; truncated = true }
            ∷ []);
  }

  flushed-IsGood : (p : Progress Packet) → IsGood p → IsGood (flushed p)
  flushed-IsGood p g = record {
    asks = rw new_questions refl;
    tells = rw new_answers refl;
    full = All-append (IsLabelled true) p.sent _ g.full ((g.asks, g.tells, refl), tt);
  }

  told-flushed : (p : Progress Packet) → told (flushed p) ≡ told p
  told-flushed p = rw (new_answers, all_answers-append, append-nil, append-nil) refl

  asked-flushed : (p : Progress Packet) → asked (flushed p) ≡ asked p
  asked-flushed p = rw (new_questions, all_questions-append, append-nil, append-nil) refl

  -- The last packet had no room: the same for an empty one.
  begun : (n : ℕ) (r : Rec) (p : Progress Packet) → IsGood p → Answered (suc n) r (flushed p)
  begun n r p g = elim (Option-cases (append_record r new_query)) [
    | inl e ↦ no_room n r (flushed p) (flushed-IsGood p g) e new_empty
    | inr (q, e) ↦ added n r (flushed p) q (flushed-IsGood p g) e
  ]

  -- Two rounds are enough.
  append_answer_lem :
      (n : ℕ) (r : Rec) (p : Progress Packet) → IsGood p → Answered (suc (suc n)) r p
  unfolding append_answer
  append_answer_lem n r p g = elim (Option-cases (append_record r p.packet)) [
    | inr (q, e) ↦ added (suc n) r p q g e
    | inl e ↦ elim (Bool-cases (is_empty p.packet)) [
      | inl empty ↦ no_room (suc n) r p g e empty
      | inr full ↦
          let (q, made, good, same, tells) = begun n r p g in
          (
            q,
            rw (e, append_answer) (rw full made),
            good,
            same ∙ asked-flushed p,
            subst
                (λ t.
                  (told q ≡ t ++ (r ∷ []))
                  ⊎ ((told q ≡ t)
                      × ((x : Packet) × (is_empty x ≡ true) × (append_record r x ≡ none))))
                (told-flushed p) tells,
          )
    ]
  ]

  pub append_answers_lem :
      (l : List Rec) (p : Progress Packet)
      → IsGood p
      → (q : Progress Packet) × (m : List Rec) × (append_answers o l p ≡ done q)
        × IsGood q
        × (asked q ≡ asked p)
        × Keeps l m
        × (told q ≡ told p ++ m)
  unfolding append_answers
  append_answers_lem [] p g = (p, [], refl, g, refl, nothing, sym (append-nil (told p)))
  append_answers_lem (r ∷ l) p g =
      let (q, made, good, same, tells) = append_answer_lem 0 r p g in
      let (s, m, rest, fine, still, keeps, all) = append_answers_lem l q good in
      elim tells [
        | inl more ↦ (
          s,
          r ∷ m,
          rw made rest,
          fine,
          still ∙ same,
          kept r keeps,
          all ∙ (rw more (append_assoc (told p) (r ∷ []) m)),
        )
        | inr (none_more, (e, empty, full)) ↦ (
          s,
          m,
          rw made rest,
          fine,
          still ∙ same,
          refused r e empty full keeps,
          all ∙ ap (λ t. t ++ m) none_more,
        )
      ]
