-- ===== src/Core/Packet/Records.antt =====
-- avahi-core/dns.c: keys and resource records in a packet.
pub mod Steps
pub mod Data
pub mod Reading
pub mod RoundTrip
use nvmrdisplay.Prelude.{
  ℕ, ◌+◌, ◌-◌, ◌/◌, ◌%◌, ◌^◌, Bool, true, false, ◌&&◌, List, [], ◌∷◌, length, take, ltb, ◌==◌,
}
use nvmrdisplay.Prelude.{if◌then◌else◌, Option, none, some}
use nvmrdisplay.Prelude.Chars.{c_string}
use nvmrdisplay.Prelude.Outcome.{Outcome, done, null, abort, stuck, ◌>>=◌}
use nvmrdisplay.Common.Label.{domain_name_max}
use nvmrdisplay.Common.StringList.{parse, serialize, serialized_size}
use nvmrdisplay.Common.Names.{is_valid_domain_name}
use nvmrdisplay.Core.Keys.{Key}
use nvmrdisplay.Core.Records.{
  RecordData, srv, ptr, hinfo, txt, a, aaaa, generic, Record, key_new, new_ttl, record_is_valid,
}
use nvmrdisplay.Core.Packet.{
  Packet, put, ahead, extend, append_uint16, append_uint32, append_bytes, append_string,
}
use nvmrdisplay.Core.Packet.{consume_uint16, consume_uint32, consume_bytes, consume_string, skip}
use nvmrdisplay.Core.Packet.Names.{Written, written, failed, append_name, consume_name, give_up}

-- AVAHI_DNS_RDATA_MAX
abbrev pub rdata_max : ℕ
rdata_max = 65535

-- The cases of the switch over the type of a record: PTR, CNAME and NS are one.
pub data Form : Type 0 where
  name_form srv_form hinfo_form txt_form a_form aaaa_form generic_form : Form

abbrev pub form_of : ℕ → Form
form_of kind =
    if kind == 12
    then name_form
    else if kind == 5
    then name_form
    else if kind == 2
    then name_form
    else if kind == 33
    then srv_form
    else if kind == 13
    then hinfo_form
    else if kind == 16
    then txt_form
    else if kind == 1
    then a_form
    else if kind == 28
    then aaaa_form
    else generic_form

abbrev pub optional {ℓ} : {A : Type ℓ} → Option A → Outcome A
optional none = null
optional (some x) = done x

-- The switch of `parse_rdata`.
pub parse_form : Form → ℕ → Packet → Outcome (RecordData × Packet)
parse_form name_form rdlength p = do (name, p) ← consume_name domain_name_max p; done (ptr name, p)
parse_form srv_form rdlength p = do
  (priority, p) ← consume_uint16 p
  (weight, p) ← consume_uint16 p
  (port, p) ← consume_uint16 p
  (name, p) ← consume_name domain_name_max p
  done (srv priority weight port name, p)
parse_form hinfo_form rdlength p = do
  (cpu, p) ← consume_string domain_name_max p
  (os, p) ← consume_string domain_name_max p
  done (hinfo (c_string cpu) (c_string os), p)
parse_form txt_form rdlength p =
    if ltb 0 rdlength
    then (optional (parse (take rdlength (ahead p))) >>= λ l.
        skip rdlength p >>= λ p. done (txt l, p))
    else done (txt [], p)
parse_form a_form rdlength p = do (b, p) ← consume_bytes 4 p; done (a b, p)
parse_form aaaa_form rdlength p = do (b, p) ← consume_bytes 16 p; done (aaaa b, p)
parse_form generic_form rdlength p =
    if ltb 0 rdlength
    then (skip rdlength p >>= λ q. done (generic (take rdlength (ahead p)), q))
    else done (generic [], p)

-- `parse_rdata`: what is read is as long as it is said to be.
pub parse_rdata : ℕ → ℕ → Packet → Outcome (RecordData × Packet)
unfolding parse_form
parse_rdata kind rdlength p = do
  (rdata, q) ← parse_form (form_of kind) rdlength p
  if q.rindex == p.rindex + rdlength then done (rdata, q) else null

-- AVAHI_DNS_CACHE_FLUSH and AVAHI_DNS_UNICAST_RESPONSE are the highest bit of the class.
abbrev pub flag_of : ℕ → Bool
flag_of clazz = clazz / 2 ^ 15 % 2 == 1

-- `avahi_dns_packet_consume_record`: the record and its cache flush bit.
pub consume_record : Packet → Outcome (Record × Bool × Packet)
unfolding parse_rdata
consume_record p = do
  (name, p1) ← consume_name domain_name_max p
  (kind, p2) ← consume_uint16 p1
  (clazz, p3) ← consume_uint16 p2
  (ttl, p4) ← consume_uint32 p3
  (rdlength, p5) ← consume_uint16 p4
  key ←
      (if ltb (length p5.bytes) (p5.rindex + rdlength)
        then null
        else key_new name (clazz % 2 ^ 15) kind)
  (rdata, p6) ← parse_rdata kind rdlength p5
  let r : Record = record { key = key; ttl = new_ttl ttl; rdata = rdata }
  if record_is_valid r then done (r, flag_of clazz, p6) else null

-- `avahi_dns_packet_consume_key`: the key and its unicast response bit.
pub consume_key : Packet → Outcome (Key × Bool × Packet)
consume_key p = do
  (name, p1) ← consume_name 256 p
  (kind, p2) ← consume_uint16 p1
  (clazz, p3) ← consume_uint16 p2
  key ← key_new name (clazz % 2 ^ 15) kind
  if is_valid_domain_name key.name then done (key, flag_of clazz, p3) else null

-- A call that appends, behind others; where one fails the packet stays as that one left it.
infixl 5 ◌>>>◌
abbrev pub ◌>>>◌ : Outcome Written → (Packet → Outcome Written) → Outcome Written
(done (written p)) >>> f = f p
(done (failed p)) >>> f = done (failed p)
null >>> f = null
abort >>> f = abort
stuck >>> f = stuck

-- A call that on failure leaves the packet as it was.
abbrev pub plain : Packet → Outcome (ℕ × Packet) → Outcome Written
plain p (done (d, q)) = done (written q)
plain p null = done (failed p)
plain p abort = abort
plain p stuck = stuck

abbrev pub put16 : ℕ → Packet → Outcome Written
put16 v p = plain p (append_uint16 v p)

-- `append_rdata`
pub append_rdata : RecordData → Packet → Outcome Written
append_rdata (ptr name) p = append_name name p
append_rdata (srv priority weight port name) p =
    put16 priority p >>> put16 weight >>> put16 port >>> append_name name
append_rdata (hinfo cpu os) p = plain p (append_string cpu p) >>> λ q. plain q (append_string os q)
append_rdata (txt l) p = plain p (extend (serialize l (serialized_size l)) p)
append_rdata (a b) p = plain p (append_bytes b p)
append_rdata (aaaa b) p = plain p (append_bytes b p)
append_rdata (generic b) p = if length b == 0 then done (written p) else plain p (append_bytes b p)

-- The label `fail`.
abbrev pub or_give_up : ℕ → Outcome Written → Outcome Written
or_give_up size (done (written p)) = done (written p)
or_give_up size (done (failed p)) = done (failed (give_up size p))
or_give_up size null = null
or_give_up size abort = abort
or_give_up size stuck = stuck

-- The length of the data from `start` on is written to the place `l`.
abbrev pub set_length : ℕ → ℕ → Packet → Outcome Written
set_length l start p =
    let n = length p.bytes - start in
    if ltb rdata_max n
    then abort
    else done (written (record p { bytes = put l (n / 256 % 256) (put (l + 1) (n % 256) p.bytes) }))

-- `avahi_dns_packet_append_record`; a `max_ttl` of 0 is no limit.
pub append_record : Record → Bool → ℕ → Packet → Outcome Written
unfolding append_rdata
append_record r cache_flush max_ttl p = or_give_up (length p.bytes) (
    append_name r.key.name p
    >>> put16 r.key.kind
    >>> put16 (if cache_flush then r.key.clazz % 2 ^ 15 + 2 ^ 15 else r.key.clazz % 2 ^ 15)
    >>> (λ q.
        plain q (append_uint32 (if ltb 0 max_ttl && ltb max_ttl r.ttl then max_ttl else r.ttl) q))
    >>> (λ q.
        put16 0 q >>> λ s. append_rdata r.rdata s >>> set_length (length q.bytes) (length s.bytes)))

-- `avahi_dns_packet_append_key`
pub append_key : Key → Bool → Packet → Outcome Written
append_key k unicast_response p = or_give_up (length p.bytes) (
    append_name k.name p
    >>> put16 k.kind
    >>> put16 (if unicast_response then k.clazz % 2 ^ 15 + 2 ^ 15 else k.clazz))
