-- ===== src/Core/Packet.antt =====
-- avahi-core/dns.c: a DNS packet, its header, and what is written behind it and read from it.
-- `bytes` holds the `size` bytes in use. A pointer into the packet is the place of its byte.
pub mod Names
pub mod Records
pub mod Fields
use nvmrdisplay.Prelude.{
  ℕ, zero, suc, ◌+◌, ◌-◌, ◌*◌, ◌/◌, ◌%◌, ◌^◌, Bool, true, false, ◌&&◌, ◌||◌, not,
}
use nvmrdisplay.Prelude.{
  Option, none, some, List, [], ◌∷◌, ◌++◌, length, take, drop, get_elem?, ltb, leb, ◌==◌,
}
use nvmrdisplay.Prelude.{if◌then◌else◌}
use nvmrdisplay.Prelude.Outcome.{Outcome, done, null, abort, ◌>>=◌}

abbrev pub header_size : ℕ
header_size = 12

abbrev pub extra_size : ℕ
extra_size = 48

-- AVAHI_DNS_PACKET_SIZE_MAX
abbrev pub packet_size_max : ℕ
packet_size_max = header_size + 256 + 2 + 2 + 4 + 2 + 65535

-- `AvahiDnsPacket`; `name_table` maps a name to the place where it stands.
pub record Packet : Type 0 where
  pub bytes : List ℕ
  pub rindex : ℕ
  pub max_size : ℕ
  pub res_size : ℕ
  pub name_table : List (List ℕ × ℕ)

pub max_size_of : ℕ → ℕ
max_size_of mtu =
    let size =
      if mtu == 0 then packet_size_max else if leb extra_size mtu then mtu - extra_size else 0 in
    if ltb size header_size then header_size else size

-- `avahi_dns_packet_new`
pub packet_new : ℕ → Packet
unfolding max_size_of
packet_new mtu = record {
  bytes = 0 ∷ 0 ∷ 0 ∷ 0 ∷ 0 ∷ 0 ∷ 0 ∷ 0 ∷ 0 ∷ 0 ∷ 0 ∷ 0 ∷ [];
  rindex = header_size;
  max_size = max_size_of mtu;
  res_size = 0;
  name_table = [];
}

-- The byte at a place. Behind the bytes in use, where the source would touch memory that holds no
-- field, nothing is changed and 0 is read; the theorems are on the six fields of the header.
abbrev pub put : ℕ → ℕ → List ℕ → List ℕ
put i b [] = []
put zero b (x ∷ xs) = b ∷ xs
put (suc i) b (x ∷ xs) = x ∷ put i b xs

abbrev pub byte_at : ℕ → List ℕ → ℕ
byte_at i [] = 0
byte_at zero (x ∷ xs) = x
byte_at (suc i) (x ∷ xs) = byte_at i xs

-- A field is a word of 16 bits, high byte first.
unfoldable pub set_field : ℕ → ℕ → Packet → Outcome Packet
set_field idx v p =
    if leb header_size idx
    then abort
    else done
        (record p { bytes = put (2 * idx) (v / 256 % 256) (put (2 * idx + 1) (v % 256) p.bytes) })

pub get_field : ℕ → Packet → Outcome ℕ
get_field idx p =
    if leb header_size idx
    then abort
    else done (byte_at (2 * idx) p.bytes * 256 + byte_at (2 * idx + 1) p.bytes)

-- `avahi_dns_packet_inc_field`; the argument of `set_field` is a `uint16_t`.
pub inc_field : ℕ → Packet → Outcome Packet
unfolding set_field get_field
inc_field idx p = get_field idx p >>= λ v. set_field idx ((v + 1) % 2 ^ 16) p

-- AVAHI_DNS_FLAGS(qr, 0, aa, 0, ..., 0)
abbrev pub dns_flags : Bool → Bool → ℕ
dns_flags qr aa = (if qr then 2 ^ 15 else 0) + (if aa then 2 ^ 10 else 0)

pub new_query : ℕ → Outcome Packet
unfolding packet_new set_field
new_query mtu = set_field 1 (dns_flags false false) (packet_new mtu)

pub new_response : ℕ → Bool → Outcome Packet
unfolding packet_new set_field
new_response mtu aa = set_field 1 (dns_flags true aa) (packet_new mtu)

-- `avahi_dns_packet_check_valid`, true for 0 and false for -1: no opcode, in bits 11 to 14.
pub check_valid : Packet → Outcome Bool
unfolding get_field
check_valid p =
    if ltb (length p.bytes) header_size
    then done false
    else (get_field 1 p >>= λ flags. done (flags / 2 ^ 11 % 16 == 0))

-- `avahi_dns_packet_check_valid_multicast`: no return code either.
pub check_valid_multicast : Packet → Outcome Bool
unfolding check_valid get_field
check_valid_multicast p = do
  ok ← check_valid p
  flags ← get_field 1 p
  done (ok && (flags % 16 == 0))

pub is_query : Packet → Outcome Bool
unfolding get_field
is_query p = get_field 1 p >>= λ flags. done (flags / 2 ^ 15 % 2 == 0)

-- `avahi_dns_packet_extend` and the writing of what the caller puts there.
pub extend : List ℕ → Packet → Outcome (ℕ × Packet)
extend added p =
    if ltb p.max_size (length p.bytes + length added)
    then null
    else done (length p.bytes, record p { bytes = p.bytes ++ added })

unfoldable pub append_uint16 : ℕ → Packet → Outcome (ℕ × Packet)
unfolding extend
append_uint16 v p = extend (v / 256 % 256 ∷ v % 256 ∷ []) p

unfoldable pub append_uint32 : ℕ → Packet → Outcome (ℕ × Packet)
unfolding extend
append_uint32 v p = extend (v / 2 ^ 24 % 256 ∷ v / 2 ^ 16 % 256 ∷ v / 2 ^ 8 % 256 ∷ v % 256 ∷ []) p

unfoldable pub append_bytes : List ℕ → Packet → Outcome (ℕ × Packet)
unfolding extend
append_bytes b p = if length b == 0 then abort else extend b p

-- `avahi_dns_packet_append_string`, which cuts the string after 255 bytes.
unfoldable pub append_string : List ℕ → Packet → Outcome (ℕ × Packet)
unfolding extend
append_string s p = let k = if leb 255 (length s) then 255 else length s in extend (k ∷ take k s) p

-- The bytes from the read index on.
abbrev pub ahead : Packet → List ℕ
ahead p = drop p.rindex p.bytes

pub consume_uint16 : Packet → Outcome (ℕ × Packet)
consume_uint16 p =
    let d = ahead p in
    if ltb (length p.bytes) (p.rindex + 2)
    then null
    else done (byte_at 0 d * 2 ^ 8 + byte_at 1 d, record p { rindex = p.rindex + 2 })

pub consume_uint32 : Packet → Outcome (ℕ × Packet)
consume_uint32 p =
    let d = ahead p in
    if ltb (length p.bytes) (p.rindex + 4)
    then null
    else done (
      byte_at 0 d * 2 ^ 24 + byte_at 1 d * 2 ^ 16 + byte_at 2 d * 2 ^ 8 + byte_at 3 d,
      record p { rindex = p.rindex + 4 },
    )

pub consume_bytes : ℕ → Packet → Outcome (List ℕ × Packet)
consume_bytes l p =
    if l == 0
    then abort
    else if ltb (length p.bytes) (p.rindex + l)
    then null
    else done (take l (ahead p), record p { rindex = p.rindex + l })

-- `avahi_dns_packet_consume_string`, into `l` bytes with the NUL: the bytes before it.
pub consume_string : ℕ → Packet → Outcome (List ℕ × Packet)
consume_string l p =
    let k = byte_at 0 (ahead p) in
    let l' = if ltb (k + 1) l then k + 1 else l in
    if l == 0
    then abort
    else if leb (length p.bytes) p.rindex
    then null
    else if ltb (length p.bytes) (p.rindex + 1 + k)
    then null
    else done (take (l' - 1) (drop 1 (ahead p)), record p { rindex = p.rindex + 1 + k })

pub get_rptr : Packet → Option ℕ
get_rptr p = if ltb (length p.bytes) p.rindex then none else some p.rindex

pub skip : ℕ → Packet → Outcome Packet
skip l p =
    if ltb (length p.bytes) (p.rindex + l) then null else done (record p { rindex = p.rindex + l })

pub is_empty : Packet → Bool
is_empty p = leb (length p.bytes) header_size

pub space : Packet → Outcome ℕ
space p = if ltb p.max_size (length p.bytes) then abort else done (p.max_size - length p.bytes)

-- `avahi_dns_packet_reserve_size`: the room kept back, and the packet.
pub reserve_size : ℕ → Packet → Outcome (ℕ × Packet)
reserve_size size p =
    if ltb p.max_size (length p.bytes + p.res_size)
    then abort
    else if leb (length p.bytes + p.res_size + size) p.max_size
    then done (p.res_size + size, record p { res_size = p.res_size + size })
    else done (p.res_size, p)

pub reserved_space : Packet → Outcome ℕ
reserved_space p =
    if ltb p.max_size (length p.bytes + p.res_size)
    then abort
    else done (p.max_size - length p.bytes - p.res_size)
