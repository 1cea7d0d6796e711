-- ===== src/Common/Label/Bounds.antt =====
-- Bounds of the label routines: what they read of the name and write into the buffer.
use nvmrdisplay.Prelude.{ℕ, zero, suc, ◌+◌, ◌-◌, ◌≤◌, ◌<◌, ◌≡◌, arith}
use nvmrdisplay.Prelude.{some, List, [], ◌∷◌, length, length-append, ltb}
use nvmrdisplay.Prelude.{Bool-cases, Option-cases, inl, inr}
use nvmrdisplay.Prelude.Outcome.{done}
use nvmrdisplay.Common.Label.{
  unescape_decimal, unescape_escaped, unescape_char, unescape_loop, unescape_label,
}
use nvmrdisplay.Common.Label.{Escaped, escape_room, escape_byte, escape_loop, escape_label}

pub length-escape_byte : (c : ℕ) → escape_room c ≡ length (escape_byte c) + 1
unfolding escape_room escape_byte
length-escape_byte c = ground arith

pub length-escape_byte-le : (c : ℕ) → length (escape_byte c) ≤ 4
unfolding escape_byte
length-escape_byte-le c = ground arith

-- The bytes written and the room that is left make up the room given, and a byte is left for the NUL.
pub escape_loop_room :
    (src : List ℕ) (size : ℕ)
    → 0 < size
    → (length (escape_loop src size).written + (escape_loop src size).size ≡ size)
      × (0 < (escape_loop src size).size)
unfolding escape_loop
escape_loop_room [] size h = omega arith
escape_loop_room (c ∷ s) size h = elim (Bool-cases (ltb size (escape_room c))) [
  | inl full ↦ rw full (omega arith)
  | inr more ↦ rw more (
      ground (
        arith,
        length-escape_byte c,
        length-append (escape_byte c) (escape_loop s (size - length (escape_byte c))).written,
        escape_loop_room s (size - length (escape_byte c)),
      ))
]

-- `avahi_escape_label` never writes past its buffer: the bytes written and the room that it leaves
-- make up the room given, and at least one byte is left, which is that of the NUL.
pub escape_label_fits :
    (src : List ℕ) (size : ℕ) {e : Escaped}
    → escape_label src size ≡ done e
    → (length e.written + e.size ≡ size) × (0 < e.size)
unfolding escape_label
escape_label_fits src zero h = ground arith
escape_label_fits src (suc size) {e} h = ground (arith, escape_loop_room src (suc size))

unescape_escaped_shorter :
    (s : List ℕ) (b : ℕ) (t : List ℕ) → unescape_escaped s ≡ some (b, t) → length t ≤ length s
unfolding unescape_escaped unescape_decimal
unescape_escaped_shorter [] b t e = ground arith
unescape_escaped_shorter (c ∷ []) b t e = ground arith
unescape_escaped_shorter (c ∷ d ∷ []) b t e = ground arith
unescape_escaped_shorter (c ∷ d ∷ f ∷ s) b t e = ground arith

unescape_char_shorter :
    (c : ℕ) (s : List ℕ) (b : ℕ) (t : List ℕ)
    → unescape_char c s ≡ some (b, t)
    → length t ≤ length s
unfolding unescape_char
unescape_char_shorter c s b t e = ground (arith, unescape_escaped_shorter s b t)

unescape_loop_bounds :
    (room : ℕ) (s label rest : List ℕ)
    → unescape_loop room s ≡ some (label, rest)
    → (length label < room) × (length label + length rest ≤ length s) × (length rest ≤ length s - 1)
unfolding unescape_loop
unescape_loop_bounds zero s label rest e = ground arith
unescape_loop_bounds (suc room) [] label rest e = ground arith
unescape_loop_bounds (suc room) (c ∷ s) label rest e = elim (Option-cases (unescape_char c s)) [
  | inl stop ↦ ground (arith, stop)
  | inr ((b, t), go) ↦ elim (Option-cases (unescape_loop room t)) [
    | inl stop ↦ ground (arith, go, stop)
    | inr ((l, r), found) ↦
        ground (
          arith,
          go,
          found,
          unescape_char_shorter c s b t go,
          unescape_loop_bounds room t l r found,
        )
  ]
]

-- A label that `avahi_unescape_label` answers fits `dest` with its NUL, label and rest are together no
-- longer than the name, and the rest is shorter than the name, unless the name is empty.
pub unescape_label_bounds :
    (size : ℕ) (s : List ℕ) {label rest : List ℕ}
    → unescape_label size s ≡ some (label, rest)
    → (length label < size) × (length label + length rest ≤ length s) × (length rest ≤ length s - 1)
unfolding unescape_label
unescape_label_bounds size s {label} {rest} e = elim (Option-cases (unescape_loop size s)) [
  | inl stop ↦ ground (arith, stop)
  | inr ((l, r), found) ↦ ground (arith, found, unescape_loop_bounds size s l r found)
]

pub escape_label_done :
    (src : List ℕ) (size : ℕ) → 0 < size → (e : Escaped) × (escape_label src size ≡ done e)
unfolding escape_label
escape_label_done src zero h = absurd (omega arith)
escape_label_done src (suc size) h = (escape_loop src (suc size), ground arith)
