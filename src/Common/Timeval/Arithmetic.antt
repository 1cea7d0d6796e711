-- ===== src/Common/Timeval/Arithmetic.antt =====
-- Times as numbers of microseconds.
use nvmrdisplay.Prelude.{
  ◌+◌, ◌*◌, ◌%◌, ◌≡◌, ◌<◌, ◌↔◌, arith, ◌∙◌, inl, inr, Bool-cases, true, false, if◌then◌else◌,
}
use nvmrdisplay.Prelude.Int.{
  ℤ, pos, negsuc, ◌+ℤ◌, ◌-ℤ◌, ◌*ℤ◌, ltb_ℤ, pos_part, neg_part, ◌≤ℤ◌, int_laws, +ℤ_parts, -ℤ_parts,
  eq_of_parts,
}
use nvmrdisplay.Common.Timeval.{
  Timeval, million, quot_million, rem_million, timeval_compare, distance, timeval_diff, timeval_add,
}

pub total : Timeval → ℤ
total a = (a.sec *ℤ pos million) +ℤ a.usec

timeval_compare_swap :
    (a b : Timeval)
    → ltb_ℤ (timeval_compare a b) (pos 0) ≡ true
    → ltb_ℤ (timeval_compare b a) (pos 0) ≡ false
unfolding timeval_compare
timeval_compare_swap a b h = ground arith

mul_parts :
    (a : ℤ)
    → pos_part (a *ℤ pos million) + million * neg_part a
      ≡ neg_part (a *ℤ pos million) + million * pos_part a
unfolding ◌*ℤ◌
mul_parts a = ground arith

ruleset time_laws = (int_laws, mul_parts)

distance-total : (a b : Timeval) → distance a b ≡ total a -ℤ total b
unfolding distance total
distance-total a b = omega (arith, +ℤ_parts, -ℤ_parts, eq_of_parts, mul_parts)

distance_swap : (a b : Timeval) → pos 0 -ℤ distance b a ≡ distance a b
distance_swap a b = rw (distance-total a b, distance-total b a) (omega int_laws)

-- `avahi_timeval_diff` is the difference of the two times in microseconds.
pub timeval_diff-total : (a b : Timeval) → timeval_diff a b ≡ total a -ℤ total b
unfolding timeval_diff
timeval_diff-total a b = elim (Bool-cases (ltb_ℤ (timeval_compare a b) (pos 0))) [
  | inl t ↦ rw t (distance_swap a b ∙ distance-total a b)
  | inr f ↦ rw f (distance-total a b)
]

-- The parts of quotient and remainder make up those of the number.
quot_rem_parts :
    (u : ℤ)
    → (pos_part (quot_million u) * million + pos_part (rem_million u) ≡ pos_part u)
      × (neg_part (quot_million u) * million + neg_part (rem_million u) ≡ neg_part u)
      × (pos_part (rem_million u) < million)
      × (neg_part (rem_million u) < million)
quot_rem_parts (pos n) = omega arith
quot_rem_parts (negsuc n) = ground arith

timeval_add-total : (a : Timeval) (u : ℤ) → total (timeval_add a u) ≡ total a +ℤ u
unfolding timeval_add total
timeval_add-total a u = elim (Bool-cases (ltb_ℤ (u +ℤ a.usec) (pos 0))) [
  | inl t ↦
      rw t (omega (arith, +ℤ_parts, -ℤ_parts, eq_of_parts, mul_parts, quot_rem_parts (u +ℤ a.usec)))
  | inr f ↦
      rw f (omega (arith, +ℤ_parts, -ℤ_parts, eq_of_parts, mul_parts, quot_rem_parts (u +ℤ a.usec)))
]

-- A time that was moved by `avahi_timeval_add` is that far from where it was.
pub timeval_diff-timeval_add : (a : Timeval) (u : ℤ) → timeval_diff (timeval_add a u) a ≡ u
timeval_diff-timeval_add a u = rw (timeval_diff-total, timeval_add-total a u) (omega int_laws)

-- The microseconds are in their range.
pub record IsNormal (a : Timeval) : Type 0 where
  pub low : pos 0 ≤ℤ a.usec
  pub high : pos_part a.usec < million

-- The sum of the microseconds is a negative number of whole seconds.
abbrev pub IsWholeNegative : ℤ → Type 0
IsWholeNegative u = (0 < neg_part u) × (neg_part u % million ≡ 0)

abbrev moved : ℤ → ℤ → Timeval
moved sec x =
    if ltb_ℤ x (pos 0)
    then record { sec = sec +ℤ (negsuc 0 +ℤ quot_million x); usec = pos million +ℤ rem_million x }
    else record { sec = sec +ℤ quot_million x; usec = rem_million x }

moved-IsWholeNegative : (sec x : ℤ) → IsNormal (moved sec x) → ¬ IsWholeNegative x
unfolding ◌+ℤ◌
moved-IsWholeNegative sec (pos n) v w = omega arith
moved-IsWholeNegative sec (negsuc n) v w = ground arith

moved-IsNormal : (sec x : ℤ) → ¬ IsWholeNegative x → IsNormal (moved sec x)
unfolding ◌+ℤ◌
moved-IsNormal sec (pos n) h = record { low = ground arith; high = ground arith }
moved-IsNormal sec (negsuc n) h = record { low = ground arith; high = ground arith }

-- `avahi_timeval_add` leaves the microseconds in their range exactly where the sum of the
-- microseconds is not a negative number of whole seconds.
pub timeval_add-IsNormal :
    (a : Timeval) (u : ℤ) → IsNormal (timeval_add a u) ↔ (¬ IsWholeNegative (u +ℤ a.usec))
unfolding timeval_add
timeval_add-IsNormal a u =
    (moved-IsWholeNegative a.sec (u +ℤ a.usec), moved-IsNormal a.sec (u +ℤ a.usec))

-- On times in their range the order of `avahi_timeval_compare` is that of the numbers of microseconds.
pub timeval_compare-total :
    {a b : Timeval}
    → IsNormal a
    → IsNormal b
    → timeval_compare a b ≡ (
        if ltb_ℤ (total a) (total b)
        then negsuc 0
        else if ltb_ℤ (total b) (total a)
        then pos 1
        else pos 0)
unfolding timeval_compare total
timeval_compare-total {a} {b} na nb = ground (
  arith,
  +ℤ_parts (a.sec *ℤ pos million) a.usec,
  +ℤ_parts (b.sec *ℤ pos million) b.usec,
  mul_parts a.sec,
  mul_parts b.sec,
)
