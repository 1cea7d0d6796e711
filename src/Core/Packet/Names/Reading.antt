-- ===== src/Core/Packet/Names/Reading.antt =====
-- Reading a name from a packet, whatever the packet holds: no crash, no endless loop, no overrun.
use nvmrdisplay.Prelude.{ℕ, zero, suc, ◌+◌, ◌-◌, ◌/◌, ◌%◌, ◌<◌, ◌≤◌, ◌≡◌, arith}
use nvmrdisplay.Prelude.{true, false, List, [], ◌++◌, length, take, drop, leb, ltb, ◌==◌}
use nvmrdisplay.Prelude.{length-append, if_rule}
use nvmrdisplay.Prelude.Outcome.{Outcome, done, null, abort, stuck, ◌>>=◌}
use nvmrdisplay.Common.Label.{Escaped}
use nvmrdisplay.Common.Label.Bounds.{escape_label_fits, escape_label_done}
use nvmrdisplay.Core.Packet.{byte_at}
use nvmrdisplay.Core.Packet.Names.{labels_max, Reader, Round, finished, further, read_label, follow}
use nvmrdisplay.Core.Packet.Names.{round, proceed, dot, behind_label, labels_loop, consume_labels}

-- What a read of at most `l` bytes into the caller's memory may leave: NULL, or a name that fits with
-- its NUL, from bytes of the packet behind `start`.
module _ (bytes : List ℕ) (start l : ℕ) where
  -- The invariant of the loop.
  record IsReader (r : Reader) : Type 0 where
    room : 0 < r.room
    fits : length r.name + r.room ≤ l
    within : start + r.ret ≤ length bytes
    moved : r.compressed ≡ true → 0 < r.ret
    place : r.compressed ≡ false → r.idx ≡ start + r.ret

  abbrev pub IsResult : ℕ → List ℕ → Type 0
  IsResult ret name = (0 < ret) × (start + ret ≤ length bytes) × (length name < l)

  abbrev IsRound : Outcome Round → Type 0
  IsRound (done (finished ret name)) = IsResult ret name
  IsRound (done (further r)) = IsReader r
  IsRound null = Unit
  IsRound abort = ⊥
  IsRound stuck = ⊥

  abbrev pub IsOutcome : Outcome (ℕ × List ℕ) → Type 0
  IsOutcome (done (ret, name)) = IsResult ret name
  IsOutcome null = Unit
  IsOutcome abort = ⊥
  IsOutcome stuck = ⊥

  -- What `escape_label` left for a label makes up the variables of the next round.
  label-IsReader :
      (n : ℕ) (r : Reader) (e : Escaped)
      → IsReader r
      → 0 < n
      → r.idx + 1 + n ≤ length bytes
      → n + 1 ≤ r.room
      → (length e.written + e.size ≡ r.room - length (dot r)) × (0 < e.size)
      → IsReader (behind_label n e r)
  label-IsReader n r e i hn within room made = record {
    room = made.1;
    fits = ground (
      arith,
      made.0,
      i.fits,
      length-append (r.name ++ dot r) e.written,
      length-append r.name (dot r),
    );
    within = ground (arith, i.within, i.place);
    moved = ground (arith, i.moved);
    place = ground (arith, i.place);
  }

  read_label-IsRound :
      (n : ℕ) (r : Reader)
      → IsReader r
      → 0 < n
      → r.idx < length bytes
      → IsRound (read_label bytes n r)
  unfolding read_label
  read_label-IsRound n r i hn hi =
      let src = take n (drop (r.idx + 1) bytes) in
      let room = r.room - length (dot r) in
      if_rule IsRound (ltb (length bytes) (r.idx + 1 + n)) (λ t. tt)
        (λ inside.
          if_rule IsRound (ltb r.room (n + 1)) (λ t. tt)
            (λ enough.
              let (e, made) = escape_label_done src room (ground arith) in
              rw made (
                if_rule IsRound e.ok
                  (λ t.
                    label-IsReader n r e i hn (ground arith) (ground arith)
                      (escape_label_fits src room made))
                  (λ f. tt))))

  follow-IsRound :
      (n : ℕ) (r : Reader) → IsReader r → r.idx < length bytes → IsRound (follow bytes n r)
  unfolding follow
  follow-IsRound n r i hi = ground (arith, i.room, i.fits, i.within, i.moved, i.place)

  round-IsRound : (r : Reader) → IsReader r → IsRound (round bytes r)
  unfolding round
  round-IsRound r i =
      if_rule IsRound (ltb (length bytes) (r.idx + 1)) (λ t. tt)
        (λ inside.
          if_rule IsRound (byte_at r.idx bytes == 0)
            (λ z.
              if_rule IsRound (ltb r.room 1) (λ t. tt)
                (λ f. ground (arith, i.room, i.fits, i.within, i.moved, i.place)))
            (λ nz.
              if_rule IsRound (leb (byte_at r.idx bytes) 63)
                (λ t. read_label-IsRound (byte_at r.idx bytes) r i (ground arith) (ground arith))
                (λ f.
                  if_rule IsRound (byte_at r.idx bytes / 64 % 4 == 3)
                    (λ t. follow-IsRound (byte_at r.idx bytes) r i (ground arith)) (λ g. tt))))

  proceed-IsOutcome :
      (k : Reader → Outcome (ℕ × List ℕ))
      → ((r : Reader) → IsReader r → IsOutcome (k r))
      → (x : Outcome Round) → IsRound x
      → IsOutcome (x >>= proceed k)
  proceed-IsOutcome k h (done (finished ret name)) v = v
  proceed-IsOutcome k h (done (further r)) v = h r v
  proceed-IsOutcome k h null v = tt
  proceed-IsOutcome k h abort v = v
  proceed-IsOutcome k h stuck v = v

  labels_loop-IsOutcome : (i : ℕ) (r : Reader) → IsReader r → IsOutcome (labels_loop i bytes r)
  unfolding labels_loop
  labels_loop-IsOutcome zero r v = tt
  labels_loop-IsOutcome (suc i) r v =
      proceed-IsOutcome (labels_loop i bytes) (labels_loop-IsOutcome i) (round bytes r)
        (round-IsRound r v)

-- Reading a name from any bytes, at any place, into `l` bytes, `l` not 0: `consume_labels` comes to an
-- end, no assert fails, and if the result is not -1 then the name fits with its NUL, and the bytes that
-- it says the name takes are at least one and all inside the packet.
pub consume_labels-IsOutcome :
    (bytes : List ℕ) (idx l : ℕ)
    → 0 < l
    → idx ≤ length bytes
    → IsOutcome bytes idx l (consume_labels bytes idx l)
unfolding consume_labels
consume_labels-IsOutcome bytes idx l h inside =
    if_rule (IsOutcome bytes idx l) (l == 0) (λ z. absurd (ground arith))
      (λ nz.
        labels_loop-IsOutcome bytes idx l labels_max
          (record {
            idx = idx;
            ret = 0;
            compressed = false;
            first_label = true;
            name = [];
            room = l;
          })
          (record {
            room = h;
            fits = omega arith;
            within = omega arith;
            moved = λ c. absurd (cc);
            place = λ c. omega arith;
          }))
