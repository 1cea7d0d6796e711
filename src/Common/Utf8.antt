-- ===== src/Common/Utf8.antt =====
-- avahi-common/utf8.c: the test of a C string for well-formed UTF-8.
use nvmrdisplay.Prelude.{ℕ, zero, suc, ◌*◌, ◌%◌, ◌^◌, ◌≤◌, ◌<◌, ◌≡◌, refl, arith, bit_and, bit_or}
use nvmrdisplay.Prelude.{Bool, true, false, ◌&&◌, ◌||◌, not, Option, none, some, List, [], ◌∷◌}
use nvmrdisplay.Prelude.{length, All, ltb, ◌==◌, if◌then◌else◌}

-- `UNICODE_VALID`
pub unicode_valid : ℕ → Bool
unicode_valid c =
    ltb c 0x110000
    && not (bit_and c 0xfffff800 == 0xd800)
    && (ltb c 0xfdd0 || ltb 0xfdef c)
    && not (bit_and c 0xfffe == 0xfffe)

-- The byte 10xxxxxx
abbrev pub is_continuation : ℕ → Bool
is_continuation b = bit_and b 0xc0 == 0x80

-- `CONTINUATION_CHAR`: the next value, of an `unsigned` of 32 bits.
abbrev pub extend : ℕ → ℕ → ℕ
extend val b = bit_or (val * 64 % 2 ^ 32) (bit_and b 0x3f)

-- The tests behind the last byte of a long form.
abbrev pub accept : ℕ → ℕ → List ℕ → Option (List ℕ)
accept min val s = if ltb val min then none else if unicode_valid val then some s else none

-- From the label TWO_REMAINING on. The end of the list is the NUL, which is no continuation.
pub two_remaining : ℕ → ℕ → List ℕ → Option (List ℕ)
unfolding unicode_valid
two_remaining min val [] = none
two_remaining min val (b ∷ []) = none
two_remaining min val (b ∷ c ∷ s) =
    if is_continuation b && is_continuation c then accept min (extend (extend val b) c) s else none

pub three_remaining : ℕ → ℕ → List ℕ → Option (List ℕ)
unfolding two_remaining
three_remaining min val [] = none
three_remaining min val (a ∷ s) =
    if is_continuation a then two_remaining min (extend val a) s else none

pub one_remaining : List ℕ → Option (List ℕ)
one_remaining [] = none
one_remaining (b ∷ s) = if is_continuation b then some s else none

-- One round of the loop: the text behind the character that begins with `a`, `none` at `error`.
pub utf8_step : ℕ → List ℕ → Option (List ℕ)
unfolding one_remaining two_remaining three_remaining
utf8_step a s =
    if ltb a 128
    then some s
    else if bit_and a 0xe0 == 0xc0
    then (if bit_and a 0x1e == 0 then none else one_remaining s)
    else if bit_and a 0xf0 == 0xe0
    then two_remaining 0x800 (bit_and a 0x0f) s
    else if bit_and a 0xf8 == 0xf0
    then three_remaining 0x10000 (bit_and a 0x07) s
    else none

pub utf8_loop : ℕ → List ℕ → Bool
unfolding utf8_step
utf8_loop fuel [] = true
utf8_loop zero (a ∷ s) = false
utf8_loop (suc fuel) (a ∷ s) = elim (utf8_step a s) [
  | none ↦ false
  | some rest ↦ utf8_loop fuel rest
]

-- `avahi_utf8_valid`, which answers its argument or NULL. A round takes a byte at least.
unfoldable pub utf8_valid : List ℕ → Bool
unfolding utf8_loop
utf8_valid s = utf8_loop (length s) s

one_remaining-le : (s t : List ℕ) → one_remaining s ≡ some t → length t ≤ length s
unfolding one_remaining
one_remaining-le [] t e = ground arith
one_remaining-le (b ∷ s) t e = ground arith

two_remaining-le : (m v : ℕ) (s t : List ℕ) → two_remaining m v s ≡ some t → length t ≤ length s
unfolding two_remaining
two_remaining-le m v [] t e = ground arith
two_remaining-le m v (b ∷ []) t e = ground arith
two_remaining-le m v (b ∷ c ∷ s) t e = ground arith

three_remaining-le : (m v : ℕ) (s t : List ℕ) → three_remaining m v s ≡ some t → length t ≤ length s
unfolding three_remaining
three_remaining-le m v [] t e = ground arith
three_remaining-le m v (b ∷ s) t e = ground arith

-- No character takes bytes that are not there.
pub utf8_step-le : (a : ℕ) (s t : List ℕ) → utf8_step a s ≡ some t → length t ≤ length s
unfolding utf8_step
utf8_step-le a s t e = ground (
  arith,
  one_remaining-le s t,
  two_remaining-le 0x800 (bit_and a 0x0f) s t,
  three_remaining-le 0x10000 (bit_and a 0x07) s t,
)

utf8_loop_ascii :
    (fuel : ℕ) (s : List ℕ) → length s ≤ fuel → All (λ b. b < 128) s → utf8_loop fuel s ≡ true
unfolding utf8_loop
utf8_loop_ascii fuel [] h a = refl
utf8_loop_ascii zero (b ∷ s) h a = absurd (omega arith)
utf8_loop_ascii (suc fuel) (b ∷ s) h (hb, a) = ground (arith, utf8_loop_ascii fuel s)

-- Text of ASCII characters is well-formed.
pub utf8_valid_ascii : (s : List ℕ) → All (λ b. b < 128) s → utf8_valid s ≡ true
unfolding utf8_valid
utf8_valid_ascii s a = utf8_loop_ascii (length s) s (omega arith) a
