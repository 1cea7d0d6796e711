-- ===== src/Common/Label/RoundTrip.antt =====
-- What `escape_label` writes is read back by `unescape_label`.
use nvmrdisplay.Prelude.{ℕ, zero, suc, ◌-◌, ◌*◌, ◌≤◌, ◌<◌, ◌≡◌, ◌≢◌, refl, arith}
use nvmrdisplay.Prelude.{none, some, List, [], ◌∷◌, ◌++◌, length, All, append_assoc, true, false}
use nvmrdisplay.Prelude.{length-append, dec_lt, cons_of_pos}
use nvmrdisplay.Prelude.Chars.{IsChar}
use nvmrdisplay.Prelude.Outcome.{done, abort}
use nvmrdisplay.Common.Utf8.{utf8_valid, utf8_valid_ascii}
use nvmrdisplay.Common.Label.{unescape_loop, unescape_label}
use nvmrdisplay.Common.Label.{Escaped, escape_byte, escape_loop, escape_label}
use nvmrdisplay.Common.Label.Bounds.{length-escape_byte, length-escape_byte-le}

-- The label with every byte escaped.
unfoldable pub escaped : List ℕ → List ℕ
escaped [] = []
escaped (c ∷ s) = escape_byte c ++ escaped s

-- A name goes on behind a label by a dot, or ends.
abbrev pub behind : List ℕ → List ℕ
behind [] = []
behind (c ∷ t) = t

abbrev pub IsEnd : List ℕ → Type 0
IsEnd [] = Unit {0}
IsEnd (c ∷ t) = c ≡ 46

unescape_loop_byte :
    (room c : ℕ) (s : List ℕ)
    → IsChar c
    → unescape_loop (suc room) (escape_byte c ++ s)
      ≡ (elim (unescape_loop room s) [ none ↦ none | some (l, r) ↦ some (c ∷ l, r) ])
unfolding unescape_loop escape_byte
unescape_loop_byte room c s h = ground arith

unescape_loop-escaped :
    (room : ℕ) (label tail : List ℕ)
    → All IsChar label
    → IsEnd tail
    → length label < room
    → unescape_loop room (escaped label ++ tail) ≡ some (label, behind tail)
unfolding escaped
unescape_loop-escaped zero label tail h e fits = absurd (omega arith)
unescape_loop-escaped (suc room) [] [] h e fits = unfold unescape_loop in refl
unescape_loop-escaped (suc room) [] (c ∷ t) h e fits = unfold unescape_loop in ground arith
unescape_loop-escaped (suc room) (c ∷ label) tail (hc, h) e fits =
    rw (append_assoc (escape_byte c) (escaped label) tail) (
      rw (
        unescape_loop_byte room c (escaped label ++ tail) hc,
        unescape_loop-escaped room label tail h e (omega arith),
      ))

pub unescape_label-escaped :
    (size : ℕ) (label tail : List ℕ)
    → All IsChar label
    → utf8_valid label ≡ true
    → length label < size
    → IsEnd tail
    → unescape_label size (escaped label ++ tail) ≡ some (label, behind tail)
unfolding unescape_label
unescape_label-escaped size label tail h u fits t =
    rw (unescape_label, unescape_loop-escaped size label tail h t fits, u)

-- The empty name reads as an empty label.
pub unescape_label_nil : (size : ℕ) → 0 < size → unescape_label size [] ≡ some ([], [])
unescape_label_nil zero h = absurd (omega arith)
unescape_label_nil (suc size) h = unfold unescape_label unescape_loop in rw (utf8_valid_ascii [] tt)

escape_byte_cons : (c : ℕ) → (b : ℕ) × (t : List ℕ) × (escape_byte c ≡ b ∷ t)
escape_byte_cons c = cons_of_pos (escape_byte c) (unfold escape_byte in ground arith)

pub escaped_cons : (l : List ℕ) → l ≢ [] → (b : ℕ) × (t : List ℕ) × (escaped l ≡ b ∷ t)
unfolding escaped
escaped_cons [] ne = absurd (ne refl)
escaped_cons (c ∷ l) ne = let (b, t, e) = escape_byte_cons c in (b, t ++ escaped l, rw e)

pub length-escaped-le : (l : List ℕ) → length (escaped l) ≤ 4 * length l
unfolding escaped
length-escaped-le [] = omega arith
length-escaped-le (c ∷ l) =
    omega (
      arith,
      length-escape_byte-le c,
      length-append (escape_byte c) (escaped l),
      length-escaped-le l,
    )

-- With room for the whole, all is written; else NULL is the answer.
pub escape_loop-escaped :
    (src : List ℕ) (size : ℕ)
    → length (escaped src) < size
    → escape_loop src size
      ≡ record { ok = true; written = escaped src; size = size - length (escaped src) }
unfolding escape_loop escaped
escape_loop-escaped [] size h = ground arith
escape_loop-escaped (c ∷ s) size h = ground (
  arith,
  length-escape_byte c,
  length-append (escape_byte c) (escaped s),
  escape_loop-escaped s (size - length (escape_byte c)),
)

pub escape_label-escaped :
    (src : List ℕ) (size : ℕ)
    → length (escaped src) < size
    → escape_label src size
      ≡ done (record { ok = true; written = escaped src; size = size - length (escaped src) })
unfolding escape_label
escape_label-escaped src size h = ground (arith, escape_loop-escaped src size h)

pub escape_label_none : (src : List ℕ) → escape_label src 0 ≡ abort
unfolding escape_label
escape_label_none src = refl

pub escape_loop_full :
    (src : List ℕ) (size : ℕ)
    → 0 < size
    → size ≤ length (escaped src)
    → (escape_loop src size).ok ≡ false
unfolding escape_loop escaped
escape_loop_full [] size p h = absurd (omega arith)
escape_loop_full (c ∷ s) size p h = ground (
  arith,
  length-escape_byte c,
  length-append (escape_byte c) (escaped s),
  escape_loop_full s (size - length (escape_byte c)),
)

-- `avahi_unescape_label` reads back the label that `avahi_escape_label` wrote, whether the name ends
-- behind it or goes on by a dot: for every well-formed label without NUL that fits `dest`, and
-- every buffer that the escaped label fits.
pub unescape_label-escape_label :
    (size room : ℕ) (label tail : List ℕ) {e : Escaped}
    → All IsChar label
    → utf8_valid label ≡ true
    → length label < size
    → IsEnd tail
    → escape_label label room ≡ done e
    → e.ok ≡ true
    → unescape_label size (e.written ++ tail) ≡ some (label, behind tail)
unescape_label-escape_label size zero label tail h u fits t d ok =
    unfold escape_label in absurd (ground arith)
unescape_label-escape_label size (suc room) label tail {e} h u fits t d ok =
    elim (dec_lt (length (escaped label)) (suc room)) [
      | yes p ↦
          let w : e.written ≡ escaped label =
            unfold escape_label in ground (arith, escape_loop-escaped label (suc room) p) in
          rw w (unescape_label-escaped size label tail h u fits t)
      | no p ↦ unfold escape_label in absurd (ground (arith, escape_loop_full label (suc room)))
    ]
