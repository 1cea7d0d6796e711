-- ===== src/Core/Tests.antt =====
-- A concrete cache and concrete packets: the theorems at inputs of the kind that the program meets.
use nvmrdisplay.Prelude.{◌<◌, length}
use nvmrdisplay.Prelude.{ℕ, ◌+◌, ◌-◌, ◌≤◌, ◌≡◌, refl, arith, Bool, true, false, List, [], ◌∷◌, ◌==◌}
use nvmrdisplay.Prelude.Int.{pos, ◌-ℤ◌, ◌+ℤ◌, ◌*ℤ◌}
use nvmrdisplay.Common.Label.{escape_label}
use nvmrdisplay.Prelude.Outcome.{done}
use nvmrdisplay.Common.Timeval.{timeval_add, timeval_diff}
use nvmrdisplay.Core.Cache.{
  Ops, valid, poof, poof_final, expiry1, expiry2, expiry3, expiry_final, Entry, Cache, World, query,
  removed, second, empty_cache, cache_update,
}
use nvmrdisplay.Core.Cache.Invariant.{IsOps, IsValid}
use nvmrdisplay.Core.Cache.Runs.{question, update, flushed, Reaches, start, step, Reaches-IsValid}
use nvmrdisplay.Core.Cache.Timers.{start_poof, cache_flush, remove_at}
use nvmrdisplay.Core.Cache.Timers.Expiry.{IsScheduled, rest, told, elapse_lem}
use nvmrdisplay.Core.Cache.Timers.Poof.{questions, Spaced, questions_lem}
use nvmrdisplay.Core.Packet.{Packet, set_field, append_uint16, append_uint32}
use nvmrdisplay.Core.Packet.Names.{consume_labels}
use nvmrdisplay.Core.Packet.Names.{append_name, consume_name, written}
use nvmrdisplay.Core.Packet.{append_string, append_bytes}
use nvmrdisplay.Core.Keys.{Key, type_any, key_equal}
use nvmrdisplay.Common.Label.{unescape_label}
use nvmrdisplay.Common.Utf8.{utf8_valid}
use nvmrdisplay.Common.Domain.{domain_equal}
use nvmrdisplay.Core.Packet.Names.Uncompressed.{wire_name}
use nvmrdisplay.Core.Packet.Names.RoundTrip.{consume_name-append_name}
use nvmrdisplay.Common.Utf8.{utf8_valid_ascii}
use nvmrdisplay.Common.Label.{escape_byte, is_proper}
use nvmrdisplay.Common.Label.RoundTrip.{escaped}
use nvmrdisplay.Common.Domain.Splits.{Splits, IsLabel, joined, joined-Splits}
use nvmrdisplay.Core.Packet.Names.Reading.{IsOutcome, consume_labels-IsOutcome}

-- Records that are numbers: the key is the number by ten, and the time to live is two minutes.
abbrev numbers : Ops ℕ ℕ ℕ
numbers = record {
  key = λ r. r;
  ttl = λ r. 120;
  key_equal = λ a b. a == b;
  record_equal = λ a b. a == b;
  is_pattern = λ k. false;
  pattern_match = λ p k. p == k;
  same_address = λ a b. a == b;
}

numbers-IsOps : IsOps numbers
numbers-IsOps = record {
  record_refl = λ a. ground arith;
  record_sym = λ a b. ground arith;
  record_trans = λ a b c h. ground arith;
  record_key = λ a b h. h;
}

-- The world at a second.
abbrev at : ℕ → World
at t = record { now = record { sec = pos t; usec = pos 0 }; time = t; rand = 7; scale = λ d r. 0 }

abbrev entry : Entry ℕ ℕ
entry = record {
  rec = 5;
  timestamp = record { sec = pos 100; usec = pos 0 };
  poof_timestamp = record { sec = pos 100; usec = pos 0 };
  expiry = record { sec = pos 196; usec = pos 0 };
  cache_flush = false;
  poof_num = 0;
  origin = 1;
  state = valid;
  poof_address = 1;
}

abbrev cache : Cache ℕ ℕ
cache = record { entries = entry ∷ []; n_entries = 1; last_rand_timestamp = 100; last_rand = 7 }

-- A record is heard of, asked for, and the cache is emptied.
one : Reaches numbers 10 cache 1 0
unfolding empty_cache cache_update timeval_add ◌+ℤ◌
one = step start (update (at 100) 5 false 1 refl)

abbrev emptied : Cache ℕ ℕ
emptied = record cache { entries = []; n_entries = 0 }

three : Reaches numbers 10 emptied 1 1
unfolding start_poof cache_flush
three = step (step one (question (at 200) 5 1)) flushed

Reaches-IsValid_example : IsValid numbers numbers-IsOps emptied × (0 ≤ 10) × (0 + 1 ≡ 1)
Reaches-IsValid_example = Reaches-IsValid numbers numbers-IsOps 10 three

abbrev refreshed : ℕ → Bool
refreshed n = n == 0

elapse_lem_example :
    let rest = rest numbers at refreshed 0 cache in
    let told = told numbers at refreshed 0 cache in
    IsScheduled numbers 0 entry expiry1 85 (rest 1)
    × IsScheduled numbers 0 entry expiry2 90 (rest 2)
    × IsScheduled numbers 0 entry expiry3 95 (rest 3)
    × IsScheduled numbers 0 entry expiry_final 100 (rest 4)
    × (told 0 ≡ query 5 ∷ [])
    × (told 1 ≡ [])
    × (told 2 ≡ [])
    × (told 3 ≡ [])
    × (told 4 ≡ removed 5 ∷ [])
    × ((rest 5).entries ≡ remove_at 0 (rest 4).entries)
    × ((rest 5).n_entries ≡ (rest 4).n_entries - 1)
elapse_lem_example = elapse_lem numbers at refreshed 0 cache entry (λ n d r. omega arith) refl refl

late-Spaced : Spaced numbers (at 200).now (at 201 ∷ at 202 ∷ at 203 ∷ at 204 ∷ [])
unfolding timeval_diff ◌-ℤ◌ ◌+ℤ◌ ◌*ℤ◌
late-Spaced = (refl, (refl, (refl, (refl, tt))))

questions_lem_example :
    ((questions numbers (at 200 ∷ at 201 ∷ at 202 ∷ at 203 ∷ []) 1 entry).state ≡ poof)
    × ((questions numbers (at 200 ∷ at 201 ∷ at 202 ∷ at 203 ∷ at 204 ∷ []) 1 entry).state
        ≡ poof_final)
    × ((questions numbers (at 200 ∷ at 201 ∷ at 202 ∷ at 203 ∷ at 204 ∷ []) 1 entry).expiry
        ≡ timeval_add (at 204).now second)
questions_lem_example =
    questions_lem numbers (at 200) (at 201) (at 202) (at 203) (at 204) 1 entry refl late-Spaced

abbrev packet : Packet
packet = record {
  bytes = 0 ∷ 1 ∷ 0 ∷ 0 ∷ 0 ∷ 0 ∷ 0 ∷ 0 ∷ 0 ∷ 0 ∷ 0 ∷ 0 ∷ [];
  rindex = 12;
  max_size = 512;
  res_size = 0;
  name_table = [];
}

abbrev packet_set : Packet
packet_set = record packet { bytes = 0 ∷ 1 ∷ 132 ∷ 0 ∷ 0 ∷ 0 ∷ 0 ∷ 0 ∷ 0 ∷ 0 ∷ 0 ∷ 0 ∷ [] }

flags_set : set_field 1 33792 packet ≡ done packet_set
unfolding set_field
flags_set = refl

abbrev packet16 : Packet
packet16 = record packet { bytes = 0 ∷ 1 ∷ 0 ∷ 0 ∷ 0 ∷ 0 ∷ 0 ∷ 0 ∷ 0 ∷ 0 ∷ 0 ∷ 0 ∷ 1 ∷ 2 ∷ [] }

appended16 : append_uint16 258 packet ≡ done (12, packet16)
unfolding append_uint16
appended16 = refl

abbrev packet32 : Packet
packet32 = record packet {
  bytes = 0 ∷ 1 ∷ 0 ∷ 0 ∷ 0 ∷ 0 ∷ 0 ∷ 0 ∷ 0 ∷ 0 ∷ 0 ∷ 0 ∷ 0 ∷ 0 ∷ 0 ∷ 120 ∷ [];
}

appended32 : append_uint32 120 packet ≡ done (12, packet32)
unfolding append_uint32
appended32 = refl

-- A label, and a pointer behind it.
abbrev name_bytes : List ℕ
name_bytes = 0 ∷ 1 ∷ 0 ∷ 0 ∷ 0 ∷ 0 ∷ 0 ∷ 0 ∷ 0 ∷ 0 ∷ 0 ∷ 0 ∷ 1 ∷ 97 ∷ 0 ∷ 1 ∷ 98 ∷ 192 ∷ 12 ∷ []

consume_labels-IsOutcome_example : IsOutcome name_bytes 15 1014 (consume_labels name_bytes 15 1014)
consume_labels-IsOutcome_example =
    consume_labels-IsOutcome name_bytes 15 1014 (omega arith) (omega arith)

name_read : consume_labels name_bytes 15 1014 ≡ done (4, 98 ∷ 46 ∷ 97 ∷ [])
unfolding consume_labels escape_label
name_read = refl

-- "a.b"
abbrev two_labels : List (List ℕ)
two_labels = (97 ∷ []) ∷ (98 ∷ []) ∷ []

letter-IsLabel : (c : ℕ) → 0 < c → c < 128 → IsLabel (c ∷ [])
letter-IsLabel c h k = record {
  not_empty = λ e. cc;
  fits = omega arith;
  chars = omega arith;
  well_formed = utf8_valid_ascii (c ∷ []) (omega arith);
}

two_labels-Splits : Splits (joined true two_labels) two_labels
two_labels-Splits = joined-Splits two_labels (
  letter-IsLabel 97 (omega arith) (omega arith),
  (letter-IsLabel 98 (omega arith) (omega arith), tt),
)

length-two_labels : length (joined true two_labels) < 1014
unfolding joined escaped escape_byte is_proper
length-two_labels = omega arith

consume_name-append_name_example :
    (q : Packet) × (append_name (joined true two_labels) packet ≡ done (written q))
    × (consume_name 1014 q ≡ done (joined true two_labels, record q { rindex = length q.bytes }))
unfolding wire_name
consume_name-append_name_example =
    consume_name-append_name 1014 packet two_labels-Splits (omega arith) (omega arith)
      length-two_labels refl refl (omega arith)

-- "nv"
abbrev nv : List ℕ
nv = 110 ∷ 118 ∷ []

abbrev packet_string : Packet
packet_string = record packet { bytes = 0 ∷ 1 ∷ 0 ∷ 0 ∷ 0 ∷ 0 ∷ 0 ∷ 0 ∷ 0 ∷ 0 ∷ 0 ∷ 0 ∷ 2 ∷ nv }

appended_string : append_string nv packet ≡ done (12, packet_string)
unfolding append_string
appended_string = refl

abbrev packet_bytes : Packet
packet_bytes = record packet { bytes = 0 ∷ 1 ∷ 0 ∷ 0 ∷ 0 ∷ 0 ∷ 0 ∷ 0 ∷ 0 ∷ 0 ∷ 0 ∷ 0 ∷ nv }

appended_bytes : append_bytes nv packet ≡ done (12, packet_bytes)
unfolding append_bytes
appended_bytes = refl

-- "a.b" and "A.b", of one type and class.
abbrev key_lower : Key
key_lower = record { name = 97 ∷ 46 ∷ 98 ∷ []; clazz = 1; kind = 33 }

abbrev key_upper : Key
key_upper = record key_lower { name = 65 ∷ 46 ∷ 98 ∷ [] }

key_equal_case : key_equal false key_lower key_upper ≡ done true
unfolding key_equal domain_equal unescape_label utf8_valid
key_equal_case = refl

-- Any type.
abbrev key_pattern : Key
key_pattern = record key_lower { kind = type_any }
