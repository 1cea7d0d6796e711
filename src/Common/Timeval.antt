-- ===== src/Common/Timeval.antt =====
-- avahi-common/timeval.c: points in time as seconds and microseconds, compared, subtracted, moved.
-- A `long`, `time_t` or `AvahiUsec` is an integer here: sums that pass 63 bits are left out.
pub mod Arithmetic
pub mod Order
use nvmrdisplay.Prelude.{ℕ, suc, ◌/◌, ◌%◌, Bool, true, false, if◌then◌else◌}
use nvmrdisplay.Prelude.Int.{ℤ, pos, negsuc, ◌+ℤ◌, ◌-ℤ◌, ◌*ℤ◌, ltb_ℤ, sub_ℕ}

-- `struct timeval`
pub record Timeval : Type 0 where
  pub sec : ℤ
  pub usec : ℤ

abbrev pub million : ℕ
million = 1000000

-- `/` and `%` of C, which round towards zero.
abbrev pub quot_million : ℤ → ℤ
quot_million (pos n) = pos (n / million)
quot_million (negsuc n) = sub_ℕ 0 (suc n / million)

abbrev pub rem_million : ℤ → ℤ
rem_million (pos n) = pos (n % million)
rem_million (negsuc n) = sub_ℕ 0 (suc n % million)

unfoldable pub timeval_compare : Timeval → Timeval → ℤ
timeval_compare a b =
    if ltb_ℤ a.sec b.sec
    then negsuc 0
    else if ltb_ℤ b.sec a.sec
    then pos 1
    else if ltb_ℤ a.usec b.usec
    then negsuc 0
    else if ltb_ℤ b.usec a.usec
    then pos 1
    else pos 0

-- The last line of `avahi_timeval_diff`.
pub distance : Timeval → Timeval → ℤ
distance a b = ((a.sec -ℤ b.sec) *ℤ pos million) +ℤ a.usec -ℤ b.usec

-- `avahi_timeval_diff`. Its call of itself has the arguments in order, and takes the last line
-- (`Arithmetic.timeval_compare_swap`).
unfoldable pub timeval_diff : Timeval → Timeval → ℤ
unfolding timeval_compare distance
timeval_diff a b =
    if ltb_ℤ (timeval_compare a b) (pos 0) then pos 0 -ℤ distance b a else distance a b

unfoldable pub timeval_add : Timeval → ℤ → Timeval
timeval_add a usec =
    let u = usec +ℤ a.usec in
    if ltb_ℤ u (pos 0)
    then record { sec = a.sec +ℤ (negsuc 0 +ℤ quot_million u); usec = pos million +ℤ rem_million u }
    else record { sec = a.sec +ℤ quot_million u; usec = rem_million u }
