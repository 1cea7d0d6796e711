-- ===== src/Common/StringList/Text.antt =====
-- The text form of a string list: the buffer that is allocated, and the bytes written into it.
use nvmrdisplay.Prelude.{ℕ, ◌+◌, ◌≡◌, refl, arith, Bool, true, List, [], ◌∷◌, ◌++◌, reverse}
use nvmrdisplay.Prelude.{
  length, length-append, if◌then◌else◌, reverse-append, reverse-ne-nil, false, ◌≢◌,
}
use nvmrdisplay.Prelude.{
  zero, suc, ◌-◌, ◌*◌, ◌/◌, ◌%◌, ◌<◌, Option, none, some, append_assoc, All, ◌==◌,
}
use nvmrdisplay.Prelude.Chars.{is_digit}
use nvmrdisplay.Common.StringList.{
  StringList, char_room, text_room, list_room, escape_char, escape_text,
}
use nvmrdisplay.Common.StringList.{write_loop, to_string_size, to_string}

length-escape_char : (signed : Bool) (b : ℕ) → length (escape_char signed b) ≡ char_room signed b
unfolding escape_char char_room
length-escape_char signed b = ground arith

length-escape_text :
    (signed : Bool) (text : List ℕ) → length (escape_text signed text) ≡ text_room signed text
unfolding escape_text text_room
length-escape_text signed [] = refl
length-escape_text signed (b ∷ text) = omega (
  arith,
  length-append (escape_char signed b) (escape_text signed text),
  length-escape_char signed b,
  length-escape_text signed text,
)

length-write_loop :
    (signed s : Bool) (l : StringList) → length (write_loop signed s l) ≡ list_room signed s l
unfolding write_loop list_room
length-write_loop signed s [] = refl
length-write_loop signed s (text ∷ l) = ground (
  arith,
  length-append (34 ∷ (escape_text signed text ++ (34 ∷ []))) (write_loop signed true l),
  length-append (escape_text signed text) (34 ∷ []),
  length-escape_text signed text,
  length-write_loop signed true l,
)

-- With a space in front of every string the room is a sum, so the order of the strings is the same.
list_room-append :
    (signed : Bool) (l m : StringList)
    → list_room signed true (l ++ m) ≡ list_room signed true l + list_room signed true m
unfolding list_room
list_room-append signed [] m = omega arith
list_room-append signed (x ∷ l) m = omega (arith, list_room-append signed l m)

list_room-reverse :
    (signed : Bool) (l : StringList) → list_room signed true (reverse l) ≡ list_room signed true l
unfolding list_room
list_room-reverse signed [] = refl
list_room-reverse signed (x ∷ l) =
    rw (reverse-append (x ∷ []) l)
      (rw (list_room-append signed (reverse l) (x ∷ []), list_room-reverse signed l) (omega arith))

-- The first string goes without its space.
list_room_first :
    (signed : Bool) (l : StringList)
    → l ≢ []
    → list_room signed true l ≡ list_room signed false l + 1
unfolding list_room
list_room_first signed [] ne = absurd (ne refl)
list_room_first signed (x ∷ l) ne = omega arith

-- The string that is written, with its NUL, takes exactly the buffer that the first pass measured,
-- whether `char` is signed or not.
pub length-to_string :
    (signed : Bool) (l : StringList) → length (to_string signed l) + 1 ≡ to_string_size signed l
length-to_string signed [] = unfold to_string to_string_size write_loop list_room in refl
length-to_string signed (x ∷ l) =
    unfold to_string to_string_size in
    omega (
      arith,
      length-write_loop signed false (reverse (x ∷ l)),
      list_room_first signed (x ∷ l) (λ e. cc),
      list_room_first signed (reverse (x ∷ l)) (reverse-ne-nil x l),
      list_room-reverse signed (x ∷ l),
    )

-- A reader of quoted text: behind a backslash stands a byte, or a byte's three decimal digits. The
-- string ends at the first quote that no backslash stands before; one unit of fuel for a byte.
prepend : ℕ → Option (List ℕ × List ℕ) → Option (List ℕ × List ℕ)
prepend c none = none
prepend c (some (t, s)) = some (c ∷ t, s)

read_digits : (List ℕ → Option (List ℕ × List ℕ)) → ℕ → List ℕ → Option (List ℕ × List ℕ)
read_digits next a [] = none
read_digits next a (b ∷ []) = none
read_digits next a (b ∷ c ∷ s) = prepend ((a - 48) * 100 + (b - 48) * 10 + (c - 48)) (next s)

read_escape : (List ℕ → Option (List ℕ × List ℕ)) → List ℕ → Option (List ℕ × List ℕ)
unfolding prepend read_digits
read_escape next [] = none
read_escape next (d ∷ s) = if is_digit d then read_digits next d s else prepend d (next s)

pub unquote : ℕ → List ℕ → Option (List ℕ × List ℕ)
unfolding read_escape
unquote zero s = none
unquote (suc fuel) [] = none
unquote (suc fuel) (c ∷ s) =
    let plain = prepend c (unquote fuel s) in
    if c == 34 then some ([], s) else if c == 92 then read_escape (unquote fuel) s else plain

decimal :
    (b : ℕ)
    → b < 256
    → (is_digit (48 + b / 100) ≡ true)
      × ((48 + b / 100 - 48) * 100 + (48 + b / 10 % 10 - 48) * 10 + (48 + b % 10 - 48) ≡ b)
decimal b h = (ground arith, omega arith)

unquote_char :
    (signed : Bool) (fuel b : ℕ) (rest : List ℕ)
    → b < 256
    → unquote (suc fuel) (escape_char signed b ++ rest) ≡ prepend b (unquote fuel rest)
unfolding unquote escape_char
unquote_char signed fuel b rest h = ground (arith, decimal b h)

unquote-escape_text :
    (signed : Bool) (text : List ℕ) (fuel : ℕ) (rest : List ℕ)
    → All (λ b. b < 256) text
    → length text < fuel
    → unquote fuel (escape_text signed text ++ (34 ∷ rest)) ≡ some (text, rest)
unfolding escape_text
unquote-escape_text signed text zero rest h f = absurd (omega arith)
unquote-escape_text signed [] (suc fuel) rest h f = unfold unquote in refl
unquote-escape_text signed (b ∷ text) (suc fuel) rest (hb, h) f =
    rw (append_assoc (escape_char signed b) (escape_text signed text) (34 ∷ rest)) (
      rw
        (
          unquote_char signed fuel b (escape_text signed text ++ (34 ∷ rest)) hb,
          unquote-escape_text signed text fuel rest h (omega arith),
        )
        (unfold prepend in refl))

-- The string that was added first is written first.
to_string_first :
    (signed : Bool) (text : List ℕ) (l : StringList)
    → to_string signed (l ++ (text ∷ []))
      ≡ 34 ∷ (escape_text signed text ++ (34 ∷ write_loop signed true (reverse l)))
to_string_first signed text l =
    unfold to_string in
    rw (reverse-append l (text ∷ [])) (
      unfold write_loop in
      rw (append_assoc (escape_text signed text) (34 ∷ []) (write_loop signed true (reverse l))))

-- Text that a machine can read back: behind the opening quote of the first string that `to_string`
-- writes, the reader finds the bytes of that string again, and stops behind its closing quote. The
-- rest is what `to_string` writes for the other strings.
pub unquote-to_string :
    (signed : Bool) (text : List ℕ) (l : StringList)
    → All (λ b. b < 256) text
    → (s : List ℕ) × (to_string signed (l ++ (text ∷ [])) ≡ 34 ∷ s)
      × (unquote (suc (length text)) s ≡ some (text, write_loop signed true (reverse l)))
unquote-to_string signed text l h = (
  escape_text signed text ++ (34 ∷ write_loop signed true (reverse l)),
  to_string_first signed text l,
  unquote-escape_text signed text (suc (length text)) (write_loop signed true (reverse l)) h
      (omega arith),
)
