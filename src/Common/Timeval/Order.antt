-- ===== src/Common/Timeval/Order.antt =====
-- The comparison of times as an order.
use nvmrdisplay.Prelude.{◌+◌, ◌<◌, ◌≡◌, ◌⊎◌, arith, false}
use nvmrdisplay.Prelude.Int.{pos, ltb_ℤ, pos_part, neg_part, ◌≤ℤ◌}
use nvmrdisplay.Common.Timeval.{Timeval, timeval_compare}

pub timeval_compare_flip :
    (a b : Timeval) → ltb_ℤ (timeval_compare a b) (pos 0) ≡ ltb_ℤ (pos 0) (timeval_compare b a)
unfolding timeval_compare
timeval_compare_flip a b = ground arith

-- a is not behind b.
abbrev IsBefore : Timeval → Timeval → Type 0
IsBefore a b =
    (pos_part a.sec + neg_part b.sec < pos_part b.sec + neg_part a.sec)
    ⊎ ((pos_part a.sec + neg_part b.sec ≡ pos_part b.sec + neg_part a.sec) × (a.usec ≤ℤ b.usec))

before : (a b : Timeval) → ltb_ℤ (pos 0) (timeval_compare a b) ≡ false → IsBefore a b
unfolding timeval_compare
before a b h = ground arith

not_behind : (a b : Timeval) → IsBefore a b → ltb_ℤ (pos 0) (timeval_compare a b) ≡ false
unfolding timeval_compare
not_behind a b h = ground arith

pub timeval_compare_trans :
    (a b c : Timeval)
    → ltb_ℤ (pos 0) (timeval_compare a b) ≡ false
    → ltb_ℤ (pos 0) (timeval_compare b c) ≡ false
    → ltb_ℤ (pos 0) (timeval_compare a c) ≡ false
timeval_compare_trans a b c h g = not_behind a c (ground (arith, before a b h, before b c g))
