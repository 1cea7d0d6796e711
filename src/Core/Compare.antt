-- ===== src/Core/Compare.antt =====
-- avahi-core/rr.c: the comparison of data that decides which of two conflicting records wins.
pub mod Antisymmetry
use nvmrdisplay.Prelude.{ℕ, Bool, false, List, [], ◌∷◌, length, take, ltb, ◌==◌, if◌then◌else◌}
use nvmrdisplay.Prelude.Int.{ℤ, pos, negsuc}

-- `memcmp` of as many bytes as both lists hold, as its sign.
abbrev pub memcmp : List ℕ → List ℕ → ℤ
memcmp [] b = pos 0
memcmp (x ∷ a) [] = pos 0
memcmp (x ∷ a) (y ∷ b) =
    let rest = memcmp a b in if x == y then rest else if ltb x y then negsuc 0 else pos 1

abbrev pub is_zero : ℤ → Bool
is_zero (pos n) = n == 0
is_zero (negsuc n) = false

pub lexicographical_memcmp : List ℕ → List ℕ → ℤ
lexicographical_memcmp a b =
    let c = if ltb (length a) (length b) then length a else length b in
    let ret = memcmp (take c a) (take c b) in
    if is_zero ret
    then (if length a == length b then pos 0 else if length a == c then pos 1 else negsuc 0)
    else ret
