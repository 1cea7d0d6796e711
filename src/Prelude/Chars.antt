-- ===== src/Prelude/Chars.antt =====
-- What the program uses of the C library's functions on characters and strings, in the C locale.
-- A C string is the list of its bytes before the NUL.
use nvmrdisplay.Prelude.{ℕ, ◌+◌, ◌≡◌, refl, Bool, true, false, ◌&&◌, List, [], ◌∷◌}
use nvmrdisplay.Prelude.{All, ◌<◌, arith, take, leb, bytes_eq, bytes_eq_self, ◌==◌, if◌then◌else◌}
use mathlib.Core.List.{map}

abbrev pub is_digit : ℕ → Bool
is_digit c = leb 48 c && leb c 57

abbrev pub to_lower : ℕ → ℕ
to_lower c = if leb 65 c && leb c 90 then c + 32 else c

-- The bytes before the first NUL.
abbrev pub c_string : List ℕ → List ℕ
c_string [] = []
c_string (c ∷ s) = elim (c == 0) [ true ↦ [] | false ↦ c ∷ c_string s ]

-- `strcasecmp(a, b) == 0` and `strncasecmp(a, b, n) == 0`
abbrev pub strcasecmp_eq : List ℕ → List ℕ → Bool
strcasecmp_eq a b = bytes_eq (map to_lower a) (map to_lower b)

abbrev pub strncasecmp_eq : ℕ → List ℕ → List ℕ → Bool
strncasecmp_eq n a b = strcasecmp_eq (take n a) (take n b)

-- A byte of a C string.
abbrev pub IsChar : ℕ → Type 0
IsChar c = (0 < c) × (c < 256)

pub c_string_lem : (s : List ℕ) → All IsChar s → c_string s ≡ s
c_string_lem [] h = refl
c_string_lem (c ∷ s) h = ground (arith, c_string_lem s h.1)

pub strcasecmp_eq_self : (s : List ℕ) → strcasecmp_eq s s ≡ true
strcasecmp_eq_self s = bytes_eq_self (map to_lower s)
