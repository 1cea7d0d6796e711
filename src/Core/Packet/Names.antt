-- ===== src/Core/Packet/Names.antt =====
-- avahi-core/dns.c: domain names in a packet, with the pointers that compress them.
pub mod Reading
pub mod RoundTrip
pub mod Uncompressed
use nvmrdisplay.Prelude.{
  ℕ, zero, suc, ◌+◌, ◌-◌, ◌*◌, ◌/◌, ◌%◌, ◌^◌, Bool, true, false, ◌&&◌, ◌||◌, not,
}
use nvmrdisplay.Prelude.{
  Option, none, some, List, [], ◌∷◌, ◌++◌, length, take, drop, get_elem?, ltb, leb, ◌==◌,
}
use nvmrdisplay.Prelude.{if◌then◌else◌, bytes_eq}
use nvmrdisplay.Prelude.Outcome.{Outcome, done, null, abort, stuck, ◌>>=◌}
use nvmrdisplay.Common.Label.{label_max, Escaped, escape_label, unescape_label}
use nvmrdisplay.Core.Packet.{Packet, header_size, byte_at, extend, append_string}

-- AVAHI_DNS_LABELS_MAX
abbrev pub labels_max : ℕ
labels_max = 127

-- The variables of the loop of `consume_labels`: the place, the result so far, whether a pointer was
-- followed, whether no label came yet, the name written and the room `l` that is left for it.
pub record Reader : Type 0 where
  pub idx : ℕ
  pub ret : ℕ
  pub compressed : Bool
  pub first_label : Bool
  pub name : List ℕ
  pub room : ℕ

-- What a round leaves: the result and the name, or the variables of the next round.
pub data Round : Type 0 where
  finished : ℕ → List ℕ → Round
  further : Reader → Round

-- The bytes before the place are counted until a pointer is followed.
abbrev pub counted : ℕ → Reader → ℕ
counted n r = if r.compressed then r.ret else r.ret + n

-- The dot in front of each label but the first.
abbrev pub dot : Reader → List ℕ
dot r = if r.first_label then [] else 46 ∷ []

-- The variables behind a label of `n` bytes, with what `avahi_escape_label` left.
abbrev pub behind_label : ℕ → Escaped → Reader → Reader
behind_label n e r = record r {
  idx = r.idx + 1 + n;
  ret = counted (1 + n) r;
  first_label = false;
  name = r.name ++ dot r ++ e.written;
  room = e.size;
}

-- A label of `n` bytes; the place is that of the length.
pub read_label : List ℕ → ℕ → Reader → Outcome Round
read_label bytes n r =
    if ltb (length bytes) (r.idx + 1 + n)
    then null
    else if ltb r.room (n + 1)
    then null
    else (escape_label (take n (drop (r.idx + 1) bytes)) (r.room - length (dot r)) >>= λ e.
        if e.ok then done (further (behind_label n e r)) else null)

-- A pointer, whose first byte is `n`.
pub follow : List ℕ → ℕ → Reader → Outcome Round
follow bytes n r =
    let label_ptr = n % 64 * 256 + byte_at (r.idx + 1) bytes in
    if ltb (length bytes) (r.idx + 2)
    then null
    else if ltb label_ptr header_size || leb r.idx label_ptr
    then null
    else done (further (record r { idx = label_ptr; ret = counted 2 r; compressed = true }))

pub round : List ℕ → Reader → Outcome Round
unfolding read_label follow
round bytes r =
    let n = byte_at r.idx bytes in
    if ltb (length bytes) (r.idx + 1)
    then null
    else if n == 0
    then (if ltb r.room 1 then null else done (finished (counted 1 r) r.name))
    else if leb n 63
    then read_label bytes n r
    else if n / 64 % 4 == 3
    then follow bytes n r
    else null

-- What the loop does behind a round.
abbrev pub proceed : (Reader → Outcome (ℕ × List ℕ)) → Round → Outcome (ℕ × List ℕ)
proceed k (finished ret name) = done (ret, name)
proceed k (further r) = k r

-- The loop runs `i` times more at most.
pub labels_loop : ℕ → List ℕ → Reader → Outcome (ℕ × List ℕ)
unfolding round
labels_loop zero bytes r = null
labels_loop (suc i) bytes r = round bytes r >>= proceed (labels_loop i bytes)

-- `consume_labels`, into `l` bytes: how many bytes the name takes at the place, and the name.
unfoldable pub consume_labels : List ℕ → ℕ → ℕ → Outcome (ℕ × List ℕ)
unfolding labels_loop
consume_labels bytes idx l =
    if l == 0
    then abort
    else labels_loop labels_max bytes
        (record { idx = idx; ret = 0; compressed = false; first_label = true; name = []; room = l })

unfoldable pub consume_name : ℕ → Packet → Outcome (List ℕ × Packet)
unfolding consume_labels
consume_name l p = do
  r ← consume_labels p.bytes p.rindex l
  done (r.1, record p { rindex = p.rindex + r.0 })

abbrev pub lookup : List ℕ → List (List ℕ × ℕ) → Option ℕ
lookup name [] = none
lookup name ((k, v) ∷ table) =
    let rest = lookup name table in if bytes_eq k name then some v else rest

-- `avahi_hashmap_insert`, which keeps an old value.
abbrev pub insert : List ℕ → ℕ → List (List ℕ × ℕ) → List (List ℕ × ℕ)
insert name d table = elim (lookup name table) [ none ↦ (name, d) ∷ table | some v ↦ table ]

-- `name_table_cleanup` for each name that is remembered: those behind the end are forgotten.
abbrev pub cleanup : ℕ → List (List ℕ × ℕ) → List (List ℕ × ℕ)
cleanup size [] = []
cleanup size ((k, v) ∷ table) =
    if leb size v then cleanup size table else (k, v) ∷ cleanup size table

-- The label `fail` of `avahi_dns_packet_append_name`.
pub give_up : ℕ → Packet → Packet
give_up size p = record p { bytes = take size p.bytes; name_table = cleanup size p.name_table }

-- A NULL result leaves a packet behind, the one given here.
pub data Written : Type 0 where
  written : Packet → Written
  failed : Packet → Written

-- The pointer to a name that is remembered.
pub write_pointer : ℕ → Packet → Written
unfolding extend
write_pointer idx p = elim (extend ((192 + idx / 256) % 256 ∷ idx % 256 ∷ []) p) [
  | done (d, p') ↦ written p'
  | null ↦ failed p
  | abort ↦ failed p
  | stuck ↦ failed p
]

-- The place of the name, if the table holds it and a pointer can hold the place.
pub compressible : List ℕ → Packet → Option ℕ
compressible name p = elim (lookup name p.name_table) [
  | none ↦ none
  | some idx ↦ if ltb idx 16384 then some idx else none
]

-- The assert on the place that the table holds.
pub stale : List ℕ → Packet → Bool
stale name p = elim (lookup name p.name_table) [
  | none ↦ false
  | some idx ↦ leb (length p.bytes) idx
]

-- One label and its entry in the table; `rest` is the name behind it.
pub write_name_label : List ℕ → List ℕ → Packet → Option Packet
unfolding append_string
write_name_label name label p = elim (append_string label p) [
  | done (d, p') ↦ some (record p' { name_table = insert name d p'.name_table })
  | null ↦ none
  | abort ↦ none
  | stuck ↦ none
]

-- The loop of `avahi_dns_packet_append_name`; `size` is `saved_size`.
pub append_loop : ℕ → ℕ → List ℕ → Packet → Outcome Written
unfolding give_up write_pointer compressible stale write_name_label extend
append_loop fuel size [] p = elim (extend (0 ∷ []) p) [
  | done (d, p') ↦ done (written p')
  | null ↦ done (failed (give_up size p))
  | abort ↦ abort
  | stuck ↦ stuck
]
append_loop zero size (c ∷ s) p = stuck
append_loop (suc fuel) size (c ∷ s) p =
    let label_and_rest : Outcome Written = elim (unescape_label label_max (c ∷ s)) [
      | none ↦ done (failed (give_up size p))
      | some (label, rest) ↦ elim (write_name_label (c ∷ s) label p) [
        | none ↦ done (failed (give_up size p))
        | some p' ↦ append_loop fuel size rest p'
      ]
    ] in
    if stale (c ∷ s) p then abort else elim (compressible (c ∷ s) p) [
      | some idx ↦ done (write_pointer idx p)
      | none ↦ label_and_rest
    ]

-- `avahi_dns_packet_append_name`. Its call of `extend` for no bytes fails only in a packet that is
-- longer than its limit, and there every other call fails too.
unfoldable pub append_name : List ℕ → Packet → Outcome Written
unfolding append_loop
append_name name p = append_loop (length name) (length p.bytes) name p
