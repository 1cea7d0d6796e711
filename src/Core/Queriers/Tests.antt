-- ===== src/Core/Queriers/Tests.antt =====
-- Users of the keys 1 and 2, at the time 0 and later.
use nvmrdisplay.Prelude.{ℕ, ◌≡◌, refl, arith, Bool, true, List, [], ◌∷◌, ◌==◌}
use nvmrdisplay.Prelude.{map}
use nvmrdisplay.Prelude.Int.{pos}
use nvmrdisplay.Prelude.Outcome.{done}
use nvmrdisplay.Common.Timeval.{Timeval}
use nvmrdisplay.Core.Queriers.{Interface, next_delay}
use nvmrdisplay.Core.Queriers.Users.{IsEquality, users}
use nvmrdisplay.Core.Queriers.Calls.{Call, add, remove, expire, refresh}
use nvmrdisplay.Core.Queriers.Sound.{IsSound}
use nvmrdisplay.Core.Queriers.Runs.{run, interest_run, users-run}

abbrev same : ℕ → ℕ → Bool
same a b = a == b

same-IsEquality : IsEquality same
same-IsEquality = record {
  reflexive = λ a. ground arith;
  symmetric = λ a b. ground arith;
  transitive = λ a b c h. ground (arith, h);
}

abbrev seconds : ℕ → Timeval
seconds n = record { sec = pos n; usec = pos 0 }

abbrev idle : Interface ℕ
idle = record {
  announcing = true;
  queriers = [];
  query_scheduler = record { next_id = 0; jobs = []; history = [] };
}

idle-IsSound : IsSound same same-IsEquality idle
idle-IsSound = record { distinct = tt; paced = tt; orderly = record { distinct = tt; due = tt } }

-- Two for the key 1, of whom one leaves, and one for the key 2, who leaves at once.
abbrev calls : List (Call ℕ)
calls =
    add (seconds 0) 1
    ∷ add (seconds 0) 2
    ∷ remove 2
    ∷ expire (seconds 1) 1
    ∷ add (seconds 2) 1
    ∷ refresh (seconds 2) 1
    ∷ remove 1
    ∷ []

users-run_example :
    (j : Interface ℕ) × (run same calls idle ≡ done j)
    × IsSound same same-IsEquality j
    × ((m : ℕ)
        → users same same-IsEquality m j.queriers
          ≡ interest_run same m calls (users same same-IsEquality m idle.queriers))
users-run_example = users-run same same-IsEquality calls idle idle-IsSound

-- The intervals double up to an hour.
delays : map next_delay (1 ∷ 2 ∷ 1024 ∷ 2048 ∷ 3600 ∷ []) ≡ 2 ∷ 4 ∷ 2048 ∷ 3600 ∷ 3600 ∷ []
delays = refl
