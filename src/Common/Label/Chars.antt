-- ===== src/Common/Label/Chars.antt =====
-- The bytes of a label are characters, none of them a NUL, where those of the name are.
use nvmrdisplay.Prelude.{ℕ, zero, suc, ◌+◌, ◌-◌, ◌*◌, ◌≡◌, arith, true, ◌&&◌, ◌||◌}
use nvmrdisplay.Prelude.{Option, none, some, List, [], ◌∷◌, All, if_rule, ◌==◌, ltb}
use nvmrdisplay.Prelude.{Option-cases, inl, inr}
use nvmrdisplay.Prelude.Chars.{IsChar, is_digit}
use mathlib.Core.Option
use mathlib.Core.Path.{subst}
use nvmrdisplay.Common.Utf8.{utf8_valid}
use nvmrdisplay.Common.Label.{
  unescape_decimal, unescape_escaped, unescape_char, unescape_loop, unescape_label,
}

abbrev HoldsChars : Option (ℕ × List ℕ) → Type 0
HoldsChars none = Unit {0}
HoldsChars (some r) = IsChar r.0 × All IsChar r.1

unescape_decimal_chars : (a : ℕ) (s : List ℕ) → All IsChar s → HoldsChars (unescape_decimal a s)
unfolding unescape_decimal
unescape_decimal_chars a [] h = tt
unescape_decimal_chars a (b ∷ []) h = tt
unescape_decimal_chars a (b ∷ c ∷ s) h =
    let n = (a - 48) * 100 + (b - 48) * 10 + (c - 48) in
    if_rule HoldsChars (is_digit b && is_digit c)
      (λ _. if_rule HoldsChars (ltb 255 n || n == 0) (λ _. tt) (λ ok. (ground arith, h.1.1)))
      (λ _. tt)

unescape_escaped_chars : (s : List ℕ) → All IsChar s → HoldsChars (unescape_escaped s)
unfolding unescape_escaped
unescape_escaped_chars [] h = tt
unescape_escaped_chars (c ∷ s) h =
    if_rule HoldsChars (c == 92 || c == 46) (λ _. h)
      (λ _. if_rule HoldsChars (is_digit c) (λ _. unescape_decimal_chars c s h.1) (λ _. tt))

unescape_char_chars :
    (c : ℕ) (s : List ℕ) → IsChar c → All IsChar s → HoldsChars (unescape_char c s)
unfolding unescape_char
unescape_char_chars c s hc hs =
    if_rule HoldsChars (c == 92) (λ _. unescape_escaped_chars s hs) (λ _. (hc, hs))

abbrev BothChars : Option (List ℕ × List ℕ) → Type 0
BothChars none = Unit {0}
BothChars (some r) = All IsChar r.0 × All IsChar r.1

cons_chars :
    (b : ℕ) (o : Option (List ℕ × List ℕ))
    → IsChar b
    → BothChars o
    → BothChars (Option.map (λ r. (b ∷ r.0, r.1)) o)
cons_chars b none hb h = tt
cons_chars b (some r) hb h = ((hb, h.0), h.1)

next_chars :
    (room : ℕ) (o : Option (ℕ × List ℕ))
    → HoldsChars o
    → ((t : List ℕ) → All IsChar t → BothChars (unescape_loop room t))
    → BothChars (elim o [
      | none ↦ none
      | some (b, t) ↦ Option.map (λ r. (b ∷ r.0, r.1)) (unescape_loop room t)
    ])
next_chars room none h ih = tt
next_chars room (some (b, t)) h ih = cons_chars b (unescape_loop room t) h.0 (ih t h.1)

unescape_loop_chars : (room : ℕ) (s : List ℕ) → All IsChar s → BothChars (unescape_loop room s)
unfolding unescape_loop
unescape_loop_chars zero s h = tt
unescape_loop_chars (suc room) [] h = (tt, tt)
unescape_loop_chars (suc room) (c ∷ s) h =
    if_rule BothChars (c == 46) (λ _. (tt, h.1))
      (λ _.
        next_chars room (unescape_char c s) (unescape_char_chars c s h.0 h.1)
          (unescape_loop_chars room))

-- A label that is read from characters holds characters, and is well-formed; the rest of the name
-- holds characters too.
pub unescape_label_chars :
    (size : ℕ) (s : List ℕ) {label rest : List ℕ}
    → All IsChar s
    → unescape_label size s ≡ some (label, rest)
    → All IsChar label × All IsChar rest × (utf8_valid label ≡ true)
unfolding unescape_label
unescape_label_chars size s {label} {rest} h e = elim (Option-cases (unescape_loop size s)) [
  | inl stop ↦ ground (arith, stop)
  | inr ((l, r), found) ↦
      let both : All IsChar l × All IsChar r =
        subst BothChars found (unescape_loop_chars size s h) in
      let same : (l ≡ label) × (r ≡ rest) × (utf8_valid l ≡ true) = ground (arith, found) in
      (subst (All IsChar) same.0 both.0, subst (All IsChar) same.1 both.1, rw (← same.0) same.2)
]
