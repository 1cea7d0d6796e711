-- ===== src/Core/Packet/Names/Uncompressed.antt =====
-- Reading a name that stands in a packet without pointers.
use nvmrdisplay.Prelude.{
  ℕ, zero, suc, ◌+◌, ◌-◌, ◌<◌, ◌≤◌, ◌≡◌, refl, ap, ap₂, sym, ◌∙◌, arith, Bool, true, false,
}
use nvmrdisplay.Prelude.{List, [], ◌∷◌, ◌++◌, length, take, drop, All, if◌then◌else◌}
use nvmrdisplay.Prelude.{
  length-append, append_assoc, append-nil, take-append_length, ltb-ge, ==_false,
}
use nvmrdisplay.Prelude.Outcome.{Outcome, done}
use nvmrdisplay.Common.Label.{escape_byte}
use nvmrdisplay.Common.Label.RoundTrip.{escaped, escape_label-escaped}
use nvmrdisplay.Common.Domain.Splits.{joined}
use nvmrdisplay.Core.Packet.{byte_at}
use nvmrdisplay.Core.Packet.Names.{
  labels_max, Reader, further, finished, counted, dot, behind_label, read_label, round,
}
use nvmrdisplay.Core.Packet.Names.{labels_loop, consume_labels}

-- The bytes of a name without pointers.
unfoldable pub wire_name : List (List ℕ) → List ℕ
wire_name [] = 0 ∷ []
wire_name (l ∷ ls) = length l ∷ (l ++ wire_name ls)

-- A label that a length byte can stand in front of.
abbrev pub IsShort : List ℕ → Type 0
IsShort l = (0 < length l) × (length l < 64)

byte_at-append : (pre : List ℕ) (x : ℕ) (ys : List ℕ) → byte_at (length pre) (pre ++ (x ∷ ys)) ≡ x
byte_at-append [] x ys = refl
byte_at-append (p ∷ pre) x ys = byte_at-append pre x ys

drop-append_head :
    (pre : List ℕ) (x : ℕ) (ys : List ℕ) → drop (suc (length pre)) (pre ++ (x ∷ ys)) ≡ ys
drop-append_head [] x ys = refl
drop-append_head (p ∷ pre) x ys = drop-append_head pre x ys

-- The variables behind a label whose escaped form fits.
abbrev behind_escaped : List ℕ → Reader → Reader
behind_escaped l r =
    behind_label (length l)
      (record {
        ok = true;
        written = escaped l;
        size = r.room - length (dot r) - length (escaped l);
      })
      r

read_label-escaped :
    (bytes l : List ℕ) (r : Reader)
    → take (length l) (drop (r.idx + 1) bytes) ≡ l
    → r.idx + 1 + length l ≤ length bytes
    → length l + 1 ≤ r.room
    → length (escaped l) < r.room - length (dot r)
    → read_label bytes (length l) r ≡ done (further (behind_escaped l r))
unfolding read_label
read_label-escaped bytes l r t within enough room =
    rw
      (
        ltb-ge (length bytes) (r.idx + 1 + length l) within,
        ltb-ge r.room (length l + 1) enough,
        t,
        escape_label-escaped l (r.room - length (dot r)) room,
      )
      refl

-- One round over a label.
round-label :
    (pre l rest : List ℕ) (r : Reader)
    → IsShort l
    → r.idx ≡ length pre
    → length l + 1 ≤ r.room
    → length (escaped l) < r.room - length (dot r)
    → round (pre ++ (length l ∷ (l ++ rest))) r ≡ done (further (behind_escaped l r))
unfolding round
round-label pre l rest r short at enough room =
    let bytes = pre ++ (length l ∷ (l ++ rest)) in
    let b : byte_at r.idx bytes ≡ length l = rw at (byte_at-append pre (length l) (l ++ rest)) in
    let next : r.idx + 1 ≡ suc (length pre) = omega arith in
    let t : take (length l) (drop (r.idx + 1) bytes) ≡ l =
      rw (next, drop-append_head pre (length l) (l ++ rest)) (take-append_length l rest) in
    let n : length bytes ≡ length pre + 1 + length l + length rest =
      omega (arith, length-append pre (length l ∷ (l ++ rest)), length-append l rest) in
    ground (arith, b, n, read_label-escaped bytes l r t (omega arith) enough room)

round-end :
    (pre post : List ℕ) (r : Reader)
    → r.idx ≡ length pre
    → 0 < r.room
    → round (pre ++ (0 ∷ post)) r ≡ done (finished (counted 1 r) r.name)
unfolding round
round-end pre post r at room =
    let b : byte_at r.idx (pre ++ (0 ∷ post)) ≡ 0 = rw at (byte_at-append pre 0 post) in
    ground (arith, b, length-append pre (0 ∷ post))

escaped_room : (l : List ℕ) → length l ≤ length (escaped l)
unfolding escaped escape_byte
escaped_room [] = omega arith
escaped_room (c ∷ l) = ground (arith, length-append (escape_byte c) (escaped l), escaped_room l)

dotted :
    (first : Bool) (l : List ℕ) (ls : List (List ℕ))
    → joined first (l ∷ ls) ≡ (if first then [] else 46 ∷ []) ++ (escaped l ++ joined false ls)
unfolding joined
dotted true l ls = refl
dotted false l ls = refl

abbrev result : ℕ → List ℕ → Outcome (ℕ × List ℕ)
result a c = done (a, c)

done_pair : {a b : ℕ} {c d : List ℕ} → a ≡ b → c ≡ d → result a c ≡ result b d
done_pair e h = ap₂ result e h

-- The name that the loop has yet to write.
abbrev rest_name : Reader → List (List ℕ) → List ℕ
rest_name r ls = joined r.first_label ls

labels_loop-wire_name :
    (ls : List (List ℕ)) (i : ℕ) (pre post : List ℕ) (r : Reader)
    → All IsShort ls
    → r.compressed ≡ false
    → r.idx ≡ length pre
    → length ls < i
    → length (rest_name r ls) < r.room
    → labels_loop i (pre ++ (wire_name ls ++ post)) r
      ≡ done (r.ret + length (wire_name ls), r.name ++ rest_name r ls)
unfolding labels_loop wire_name joined
labels_loop-wire_name ls zero pre post r short un at i room = absurd (omega arith)
labels_loop-wire_name [] (suc i) pre post r short un at h room =
    rw (round-end pre post r at (omega arith), append-nil r.name) (ground (arith, un))
labels_loop-wire_name (l ∷ ls) (suc i) pre post r short un at h room =
    let n : length (rest_name r (l ∷ ls))
        ≡ length (dot r) + (length (escaped l) + length (joined false ls)) =
      ap length (dotted r.first_label l ls)
      ∙ omega (
        arith,
        length-append (dot r) (escaped l ++ joined false ls),
        length-append (escaped l) (joined false ls),
      ) in
    let next = behind_escaped l r in
    let pre' = pre ++ (length l ∷ l) in
    let rest = wire_name ls ++ post in
    let bytes : pre ++ (length l ∷ (l ++ rest)) ≡ pre' ++ rest =
      sym (append_assoc pre (length l ∷ l) rest) in
    let at' : r.idx + 1 + length l ≡ length pre' =
      omega (arith, length-append pre (length l ∷ l)) in
    rw
      (
        append_assoc l (wire_name ls) post,
        round-label pre l rest r short.0 at (omega (arith, escaped_room l)) (omega arith),
        bytes,
        labels_loop-wire_name ls i pre' post next short.1 un at' (omega arith) (omega arith),
      )
      (done_pair (ground (arith, un, length-append l (wire_name ls))) (
        sym (
          ap (λ t. r.name ++ t) (dotted r.first_label l ls)
          ∙ sym (append_assoc r.name (dot r) (escaped l ++ joined false ls))
          ∙ sym (append_assoc (r.name ++ dot r) (escaped l) (joined false ls)))))

-- The labels of a name are read from its bytes, whatever stands behind them.
pub consume_labels-wire_name :
    (ls : List (List ℕ)) (pre post : List ℕ) (l : ℕ)
    → All IsShort ls
    → length ls < labels_max
    → length (joined true ls) < l
    → consume_labels (pre ++ (wire_name ls ++ post)) (length pre) l
      ≡ done (length (wire_name ls), joined true ls)
unfolding consume_labels
consume_labels-wire_name ls pre post l short few room = rw (==_false l 0 (λ z. omega arith)) (
    labels_loop-wire_name ls labels_max pre post
      (record {
        idx = length pre;
        ret = 0;
        compressed = false;
        first_label = true;
        name = [];
        room = l;
      })
      short refl refl few room
    ∙ done_pair (omega arith) refl)
