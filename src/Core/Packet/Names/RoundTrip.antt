-- ===== src/Core/Packet/Names/RoundTrip.antt =====
-- A name that is written into a packet that remembers no names is read from it in its normal form.
use nvmrdisplay.Prelude.{ℕ, zero, suc, ◌+◌, ◌<◌, ◌≤◌, ◌≡◌, refl, ap, sym, ◌∙◌, arith, true, false}
use nvmrdisplay.Prelude.{none, some, List, [], ◌∷◌, ◌++◌, length, All}
use nvmrdisplay.Prelude.{
  length-append, append_assoc, append-nil, take_all, bytes_eq, bytes_eq→eq, leb-gt, ltb-ge,
  Bool-cases, inl, inr,
}
use nvmrdisplay.Prelude.Outcome.{done}
use nvmrdisplay.Common.Label.{label_max, unescape_label}
use nvmrdisplay.Common.Label.Bounds.{unescape_label_bounds}
use nvmrdisplay.Common.Domain.Splits.{Splits, end, label, joined}
use nvmrdisplay.Core.Packet.{Packet, extend, append_string}
use nvmrdisplay.Core.Packet.Names.{labels_max}
use nvmrdisplay.Core.Packet.Names.{consume_labels, consume_name, lookup, insert, written}
use nvmrdisplay.Core.Packet.Names.{compressible, stale, write_name_label, append_loop, append_name}
use nvmrdisplay.Core.Packet.Names.Uncompressed.{wire_name, IsShort, consume_labels-wire_name}

-- No name of the table is as short as the name.
abbrev IsFresh : List ℕ → List (List ℕ × ℕ) → Type 0
IsFresh name table = All (λ e. length name < length e.0) table

IsFresh-rest :
    (name rest : List ℕ) (table : List (List ℕ × ℕ))
    → length rest < length name
    → IsFresh name table
    → IsFresh rest table
IsFresh-rest name rest [] h f = tt
IsFresh-rest name rest (e ∷ table) h f = (omega arith, IsFresh-rest name rest table h f.1)

lookup-IsFresh :
    (name : List ℕ) (table : List (List ℕ × ℕ)) → IsFresh name table → lookup name table ≡ none
lookup-IsFresh name [] h = refl
lookup-IsFresh name ((k, v) ∷ table) h = elim (Bool-cases (bytes_eq k name)) [
  | inl t ↦ absurd (omega (arith, h.0, ap length (bytes_eq→eq k name t)))
  | inr f ↦ rw f (lookup-IsFresh name table h.1)
]

pub extend-room :
    (b : List ℕ) (p : Packet)
    → length p.bytes + length b ≤ p.max_size
    → extend b p ≡ done (length p.bytes, record p { bytes = p.bytes ++ b })
unfolding extend
extend-room b p room = rw (ltb-ge p.max_size (length p.bytes + length b) room) refl

append_string-room :
    (l : List ℕ) (p : Packet)
    → length l < 64
    → length p.bytes + suc (length l) ≤ p.max_size
    → append_string l p ≡ done (length p.bytes, record p { bytes = p.bytes ++ (length l ∷ l) })
unfolding append_string
append_string-room l p short room =
    rw (leb-gt 255 (length l) (omega arith), take_all (length l) l (omega arith))
      (extend-room (length l ∷ l) p room)

-- The packet behind a label of a name.
abbrev labelled : List ℕ → List ℕ → Packet → Packet
labelled name l p = record p {
  bytes = p.bytes ++ (length l ∷ l);
  name_table = (name, length p.bytes) ∷ p.name_table;
}

insert-new :
    (name : List ℕ) (d : ℕ) (table : List (List ℕ × ℕ))
    → lookup name table ≡ none
    → insert name d table ≡ (name, d) ∷ table
insert-new name d table new = rw (insert, new) refl

write_name_label-room :
    (name l : List ℕ) (p : Packet)
    → length l < 64
    → length p.bytes + suc (length l) ≤ p.max_size
    → lookup name p.name_table ≡ none
    → write_name_label name l p ≡ some (labelled name l p)
unfolding write_name_label
write_name_label-room name l p short room new =
    rw (write_name_label, append_string-room l p short room)
      (ap (λ t. some (record p { bytes = p.bytes ++ (length l ∷ l); name_table = t }))
        (insert-new name (length p.bytes) p.name_table new))

compressible-new :
    (name : List ℕ) (p : Packet) → lookup name p.name_table ≡ none → compressible name p ≡ none
unfolding compressible
compressible-new name p new = rw (compressible, new) refl

stale-new : (name : List ℕ) (p : Packet) → lookup name p.name_table ≡ none → stale name p ≡ false
unfolding stale
stale-new name p new = rw (stale, new) refl

-- The loop writes the labels, one after the other.
append_loop-label :
    (fuel size c : ℕ) (s l rest : List ℕ) (p : Packet)
    → unescape_label label_max (c ∷ s) ≡ some (l, rest)
    → length p.bytes + suc (length l) ≤ p.max_size
    → lookup (c ∷ s) p.name_table ≡ none
    → append_loop (suc fuel) size (c ∷ s) p ≡ append_loop fuel size rest (labelled (c ∷ s) l p)
unfolding append_loop
append_loop-label fuel size c s l rest p u room new =
    rw
      (
        append_loop,
        stale-new (c ∷ s) p new,
        compressible-new (c ∷ s) p new,
        u,
        write_name_label-room (c ∷ s) l p (unescape_label_bounds label_max (c ∷ s) u).0 room new,
      )
      refl

pub append_loop-wire_name :
    {s : List ℕ} {ls : List (List ℕ)} (fuel size : ℕ) (p : Packet)
    → Splits s ls
    → length s ≤ fuel
    → IsFresh s p.name_table
    → length p.bytes + length (wire_name ls) ≤ p.max_size
    → (q : Packet) × (append_loop fuel size s p ≡ done (written q))
      × (q.bytes ≡ p.bytes ++ wire_name ls)
      × (q.rindex ≡ p.rindex)
      × (q.max_size ≡ p.max_size)
unfolding append_loop wire_name
append_loop-wire_name fuel size p end le fresh room = (
  record p { bytes = p.bytes ++ (0 ∷ []) },
  rw (append_loop, extend-room (0 ∷ []) p room) refl,
  refl,
  refl,
  refl,
)
append_loop-wire_name zero size p (label u sp) le fresh room = absurd (omega arith)
append_loop-wire_name (suc fuel) size p (label {c} {s} {l} {rest} {ls} u sp) le fresh room =
    let n = unescape_label_bounds label_max (c ∷ s) u in
    let p' = labelled (c ∷ s) l p in
    let total : length (wire_name (l ∷ ls)) ≡ suc (length l) + length (wire_name ls) =
      omega (arith, length-append l (wire_name ls)) in
    let (q, run, bytes, index, limit) =
      append_loop-wire_name fuel size p' sp (omega arith)
        (omega arith, IsFresh-rest (c ∷ s) rest p.name_table (omega arith) fresh)
        (omega (arith, length-append p.bytes (length l ∷ l))) in
    (
      q,
      append_loop-label fuel size c s l rest p u (omega arith)
            (lookup-IsFresh (c ∷ s) p.name_table fresh)
          ∙ run,
      bytes ∙ append_assoc p.bytes (length l ∷ l) (wire_name ls),
      index,
      limit,
    )

-- A name that reads as labels that are not empty, and fits a packet that is read to its end and has no
-- name to compress it by, is written, and is what is read next, in its normal form. The reader's
-- buffer has room for that with a NUL, and the labels are fewer than 127.
pub consume_name-append_name :
    {s : List ℕ} {ls : List (List ℕ)} (l : ℕ) (p : Packet)
    → Splits s ls
    → All IsShort ls
    → length ls < labels_max
    → length (joined true ls) < l
    → p.name_table ≡ []
    → p.rindex ≡ length p.bytes
    → length p.bytes + length (wire_name ls) ≤ p.max_size
    → (q : Packet) × (append_name s p ≡ done (written q))
      × (consume_name l q ≡ done (joined true ls, record q { rindex = length q.bytes }))
unfolding append_name consume_name
consume_name-append_name {s} {ls} l p sp short few room new read fits =
    let (q, run, bytes, index, limit) =
      append_loop-wire_name (length s) (length p.bytes) p sp (omega arith) (rw new tt) fits in
    let found : consume_labels q.bytes q.rindex l ≡ done (length (wire_name ls), joined true ls) =
      rw (bytes, index, read)
        (ap (λ t. consume_labels (p.bytes ++ t) (length p.bytes) l)
            (sym (append-nil (wire_name ls)))
          ∙ consume_labels-wire_name ls p.bytes [] l short few room) in
    let n : q.rindex + length (wire_name ls) ≡ length q.bytes =
      omega (arith, index, read, ap length bytes, length-append p.bytes (wire_name ls)) in
    (q, run, rw (found, n) refl)
