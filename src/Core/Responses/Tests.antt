-- ===== src/Core/Responses/Tests.antt =====
-- Responses with a number for the record and one for its time to live, in packets of two records.
use nvmrdisplay.Prelude.{
  ℕ, ◌+◌, ◌-◌, ◌<◌, ◌≡◌, refl, Bool, true, false, Option, none, some, [], ◌∷◌, arith, ltb, ◌==◌,
}
use nvmrdisplay.Prelude.{if◌then◌else◌}
use nvmrdisplay.Prelude.Int.{pos, ◌-ℤ◌, ◌+ℤ◌, ◌*ℤ◌}
use nvmrdisplay.Prelude.Outcome.{done}
use nvmrdisplay.Common.Timeval.{timeval_diff}
use nvmrdisplay.Core.Responses.{
  Ops, Scheduler, World, response_scheduler_new, response_scheduler_post,
  response_scheduler_suppress,
}
use nvmrdisplay.Core.Responses.Scheduled.{IsOps, IsValid}
use nvmrdisplay.Core.Responses.Posted.{Decides, response_scheduler_post_lem}
use nvmrdisplay.Core.Responses.Suppressed.{response_scheduler_post-response_scheduler_suppress}
use nvmrdisplay.Core.Responses.Sending.{Net, send_response_packet}
use nvmrdisplay.Core.Responses.Sending.Total.{IsNet, Sends}
use nvmrdisplay.Core.Responses.Runs.{Reaches, fresh, posted, send_response_packet-Reaches}

abbrev same_record : ℕ × ℕ → ℕ × ℕ → Bool
same_record a b = a.0 == b.0

abbrev numbers : Ops (ℕ × ℕ) ℕ
numbers = record {
  record_equal = same_record;
  ttl = λ r. r.1;
  is_goodbye = λ r. r.1 == 0;
  key_is_pattern = λ r. false;
  same_address = λ a b. a == b;
}

same_record_refl : (a : ℕ × ℕ) → same_record a a ≡ true
same_record_refl a = ground arith

same_record_sym : (a b : ℕ × ℕ) → same_record a b ≡ same_record b a
same_record_sym a b = ground arith

same_record_trans : (a b c : ℕ × ℕ) → same_record a b ≡ true → same_record a c ≡ same_record b c
same_record_trans a b c h = ground arith

abbrev numbers-IsOps : IsOps numbers
numbers-IsOps = record {
  record_refl = same_record_refl;
  record_sym = same_record_sym;
  record_trans = same_record_trans;
}

-- A packet is how many records it holds; each record has the next one as an auxiliary record.
abbrev counted_record : ℕ × ℕ → Bool → ℕ → Option ℕ
counted_record r flush p = if ltb p 2 then some (p + 1) else none

abbrev small_net : Net (ℕ × ℕ) ℕ
small_net = record {
  new_response = 0;
  fitting = λ r. 0;
  append_record = counted_record;
  aux_records = λ r. ((r.0 + 1, r.1), false) ∷ [];
}

counted_record_added :
    (r : ℕ × ℕ) (flush : Bool) (p q : ℕ)
    → counted_record r flush p ≡ some q
    → (2 - q < 2 - p) × (q ≡ p + 1)
counted_record_added r flush p q h = ground arith

abbrev small_net-IsNet : IsNet numbers small_net
small_net-IsNet = record {
  room = λ p. 2 - p;
  answers = λ p. p;
  no_patterns = λ r. (refl, tt);
  new_empty = refl;
  fitting_empty = λ r. refl;
  added = counted_record_added;
}

abbrev noon : World
noon = record { now = record { sec = pos 43200; usec = pos 0 }; jitter = λ j. 0 }

abbrev at_once : World
at_once = record { now = record { sec = pos 43200; usec = pos 500000 }; jitter = λ j. 0 }

abbrev nothing : Scheduler (ℕ × ℕ) ℕ
nothing = response_scheduler_new numbers

response_scheduler_post_lem_example :
    (t : Scheduler (ℕ × ℕ) ℕ × Bool) × (response_scheduler_post numbers noon
        (7, 120)
        true
        (some 1)
        false
        nothing
      ≡ done t)
    × Decides numbers numbers-IsOps noon (7, 120) true (some 1) false nothing t
unfolding response_scheduler_new
response_scheduler_post_lem_example =
    response_scheduler_post_lem numbers numbers-IsOps noon (7, 120) true (some 1) false nothing refl
      tt

response_scheduler_post-response_scheduler_suppress_example :
    (t : Scheduler (ℕ × ℕ) ℕ) × (response_scheduler_post numbers at_once
        (7, 120)
        true
        (some 1)
        false
        (response_scheduler_suppress numbers noon (7, 120) 1 nothing)
      ≡ done (t, false))
    × (t.jobs ≡ (response_scheduler_suppress numbers noon (7, 120) 1 nothing).jobs)
unfolding timeval_diff ◌-ℤ◌ ◌+ℤ◌ ◌*ℤ◌
response_scheduler_post-response_scheduler_suppress_example =
    response_scheduler_post-response_scheduler_suppress numbers noon at_once (7, 120) 1 true false
      nothing refl refl refl refl

-- The scheduler when a response was posted, to be sent at once.
abbrev one : Scheduler (ℕ × ℕ) ℕ
one = record {
  jobs =
      record {
        rec = (7, 120);
        flush_cache = true;
        querier = some 1;
        delivery = noon.now;
        expiry = noon.now;
      }
      ∷ [];
  history = [];
  suppressed = [];
}

one_posted :
    response_scheduler_post numbers noon (7, 120) true (some 1) true nothing ≡ done (one, true)
unfolding response_scheduler_new response_scheduler_post
one_posted = refl

one-Reaches : Reaches numbers small_net numbers-IsOps small_net-IsNet 2 (omega arith) one
one-Reaches = posted noon (7, 120) true (some 1) true fresh one_posted

send_response_packet-Reaches_example :
    IsValid numbers numbers-IsOps one
    × Sends numbers small_net numbers-IsOps small_net-IsNet
        (send_response_packet numbers small_net 2 noon (7, 120) one)
send_response_packet-Reaches_example =
    send_response_packet-Reaches numbers small_net numbers-IsOps small_net-IsNet 2 (omega arith)
      noon (7, 120) one-Reaches
