-- ===== src/Common/Label.antt =====
-- avahi-common/domain.c: the labels of a domain name, with and without escapes.
-- A C string is the list of its bytes before the NUL; a `char *` that moves is the rest of it.
pub mod Bounds
pub mod RoundTrip
pub mod Chars
use nvmrdisplay.Prelude.{ℕ, zero, suc, ◌+◌, ◌-◌, ◌*◌, ◌/◌, ◌%◌, Bool, true, false, ◌&&◌, ◌||◌}
use nvmrdisplay.Prelude.{
  Option, none, some, List, [], ◌∷◌, ◌++◌, length, ltb, leb, ◌==◌, if◌then◌else◌,
}
use nvmrdisplay.Prelude.Chars.{is_digit}
use nvmrdisplay.Prelude.Outcome.{Outcome, done, null, abort}
use nvmrdisplay.Common.Utf8.{utf8_valid}
use mathlib.Core.Option

abbrev pub label_max : ℕ
label_max = 64

abbrev pub domain_name_max : ℕ
domain_name_max = 1014

-- A byte and the rest of the name: the escape of three digits behind a backslash.
pub unescape_decimal : ℕ → List ℕ → Option (ℕ × List ℕ)
unescape_decimal a [] = none
unescape_decimal a (b ∷ []) = none
unescape_decimal a (b ∷ c ∷ s) =
    let n = (a - 48) * 100 + (b - 48) * 10 + (c - 48) in
    if is_digit b && is_digit c then (if ltb 255 n || n == 0 then none else some (n, s)) else none

-- Behind a backslash.
pub unescape_escaped : List ℕ → Option (ℕ × List ℕ)
unfolding unescape_decimal
unescape_escaped [] = none
unescape_escaped (c ∷ s) =
    if c == 92 || c == 46 then some (c, s) else if is_digit c then unescape_decimal c s else none

pub unescape_char : ℕ → List ℕ → Option (ℕ × List ℕ)
unfolding unescape_escaped
unescape_char c s = if c == 92 then unescape_escaped s else some (c, s)

-- The loop of `avahi_unescape_label`, on the bytes `size - i` that are left of `dest`: the label and
-- the rest of the name, `none` for NULL.
pub unescape_loop : ℕ → List ℕ → Option (List ℕ × List ℕ)
unfolding unescape_char
unescape_loop zero s = none
unescape_loop (suc room) [] = some ([], [])
unescape_loop (suc room) (c ∷ s) =
    let next : Option (List ℕ × List ℕ) = elim (unescape_char c s) [
      | none ↦ none
      | some (b, t) ↦ Option.map (λ r. (b ∷ r.0, r.1)) (unescape_loop room t)
    ] in
    if c == 46 then some ([], s) else next

-- `avahi_unescape_label`. The callers do not look at the name again after NULL.
unfoldable pub unescape_label : ℕ → List ℕ → Option (List ℕ × List ℕ)
unfolding unescape_loop
unescape_label size s = elim (unescape_loop size s) [
  | none ↦ none
  | some (label, rest) ↦ if utf8_valid label then some (label, rest) else none
]

-- A character that stands for itself.
unfoldable pub is_proper : ℕ → Bool
is_proper c =
    c == 95
    || c == 45
    || (leb 48 c && leb c 57)
    || (leb 97 c && leb c 122)
    || (leb 65 c && leb c 90)

-- The room that `avahi_escape_label` asks for before it writes a byte, the NUL included.
pub escape_room : ℕ → ℕ
unfolding is_proper
escape_room c = if c == 46 || c == 92 then 3 else if is_proper c then 2 else 5

unfoldable pub escape_byte : ℕ → List ℕ
unfolding is_proper
escape_byte c =
    if c == 46 || c == 92
    then 92 ∷ c ∷ []
    else if is_proper c
    then c ∷ []
    else 92 ∷ (48 + c / 100) ∷ (48 + c / 10 % 10) ∷ (48 + c % 10) ∷ []

-- What `avahi_escape_label` leaves behind: whether it is not NULL (then a NUL stands behind what is
-- written), the bytes written, and `*ret_size`.
pub record Escaped : Type 0 where
  pub ok : Bool
  pub written : List ℕ
  pub size : ℕ

pub escape_loop : List ℕ → ℕ → Escaped
unfolding escape_room escape_byte
escape_loop [] size = record { ok = true; written = []; size = size }
escape_loop (c ∷ s) size =
    let rest = escape_loop s (size - length (escape_byte c)) in
    if ltb size (escape_room c)
    then record { ok = false; written = []; size = size }
    else record rest { written = escape_byte c ++ rest.written }

-- `avahi_escape_label`; `abort` is the `assert(*ret_size > 0)`.
unfoldable pub escape_label : List ℕ → ℕ → Outcome Escaped
unfolding escape_loop
escape_label src size = if size == 0 then abort else done (escape_loop src size)
