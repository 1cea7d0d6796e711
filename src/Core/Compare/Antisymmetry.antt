-- ===== src/Core/Compare/Antisymmetry.antt =====
-- The comparison of data is the other way round for the other order, and puts longer data first.
use nvmrdisplay.Prelude.{ℕ, ◌<◌, ◌≡◌, ◌≢◌, refl, arith, List, [], ◌∷◌, ◌++◌, length, take}
use nvmrdisplay.Prelude.{
  ltb, ◌==◌, if◌then◌else◌, length-append, take-append_length, take_all, ltb-lt, ==_false,
}
use nvmrdisplay.Prelude.Int.{ℤ, pos, negsuc}
use nvmrdisplay.Core.Compare.{memcmp, is_zero, lexicographical_memcmp}

-- The sign of the other direction.
abbrev pub negated : ℤ → ℤ
negated (pos n) = if n == 0 then pos 0 else negsuc 0
negated (negsuc n) = pos 1

memcmp_swap : (a b : List ℕ) → memcmp b a ≡ negated (memcmp a b)
memcmp_swap [] [] = refl
memcmp_swap [] (y ∷ b) = refl
memcmp_swap (x ∷ a) [] = refl
memcmp_swap (x ∷ a) (y ∷ b) = ground (arith, memcmp_swap a b)

shorter_swap : (m n : ℕ) → (if ltb m n then m else n) ≡ (if ltb n m then n else m)
shorter_swap m n = ground arith

swap_rule :
    (r : ℤ) (m n c : ℕ)
    → c ≡ (if ltb m n then m else n)
    → (if is_zero (negated r)
        then (if n == m then pos 0 else if n == c then pos 1 else negsuc 0)
        else negated r)
      ≡ negated
          (if is_zero r then (if m == n then pos 0 else if m == c then pos 1 else negsuc 0) else r)
swap_rule (pos k) m n c h = ground arith
swap_rule (negsuc k) m n c h = ground arith

-- The result for two strings of bytes in one order is that in the other order with the sign changed.
pub lexicographical_memcmp_swap :
    (a b : List ℕ) → lexicographical_memcmp b a ≡ negated (lexicographical_memcmp a b)
unfolding lexicographical_memcmp
lexicographical_memcmp_swap a b =
    let c = if ltb (length a) (length b) then length a else length b in
    rw (shorter_swap (length b) (length a), memcmp_swap (take c a) (take c b))
      (swap_rule (memcmp (take c a) (take c b)) (length a) (length b) c refl)

memcmp_self : (a : List ℕ) → memcmp a a ≡ pos 0
memcmp_self [] = refl
memcmp_self (x ∷ a) = ground (arith, memcmp_self a)

-- Bytes that stand at the beginning of longer ones compare as greater than these: the result is 1,
-- where the order of a dictionary puts the shorter bytes first.
pub lexicographical_memcmp_prefix :
    (a t : List ℕ) → t ≢ [] → lexicographical_memcmp a (a ++ t) ≡ pos 1
unfolding lexicographical_memcmp
lexicographical_memcmp_prefix a [] ne = absurd (ne refl)
lexicographical_memcmp_prefix a (x ∷ t) ne =
    let n : length a < length (a ++ (x ∷ t)) = omega (arith, length-append a (x ∷ t)) in
    rw
      (
        ltb-lt (length a) (length (a ++ (x ∷ t))) n,
        take-append_length a (x ∷ t),
        take_all (length a) a (omega arith),
        memcmp_self a,
        ==_false (length a) (length (a ++ (x ∷ t))) (λ e. omega arith),
      )
      (ground arith)
