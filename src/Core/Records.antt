-- ===== src/Core/Records.antt =====
-- avahi-core/rr.c: resource records, which are a key, a time to live and data of the key's type.
use nvmrdisplay.Prelude.{
  ℕ, ◌-◌, ◌*◌, ◌^◌, Bool, true, false, ◌&&◌, List, [], ◌∷◌, length, ltb, leb, ◌==◌,
}
use nvmrdisplay.Prelude.{if◌then◌else◌, bytes_eq}
use nvmrdisplay.Prelude.Outcome.{Outcome, done, abort, ◌>>=◌}
use nvmrdisplay.Common.StringList.{StringList, equal}
use nvmrdisplay.Common.Domain.{normalize_name, domain_equal}
use nvmrdisplay.Common.Label.{domain_name_max}
use nvmrdisplay.Common.Names.{is_valid_domain_name}
use nvmrdisplay.Core.Keys.{Key, key_equal}

-- The union `data`: a name for PTR, CNAME and NS; addresses are their bytes.
pub data RecordData : Type 0 where
  srv : ℕ → ℕ → ℕ → List ℕ → RecordData
  ptr : List ℕ → RecordData
  hinfo : List ℕ → List ℕ → RecordData
  txt : StringList → RecordData
  a aaaa generic : List ℕ → RecordData

-- `AvahiRecord`; `rdata` is the field `data`.
pub record Record : Type 0 where
  pub key : Key
  pub ttl : ℕ
  pub rdata : RecordData

abbrev pub default_ttl : ℕ
default_ttl = 75 * 60

-- `avahi_key_new`, with `avahi_normalize_name_strdup`; what a buffer without a NUL gives is left open
-- by C, and is here what was written.
unfoldable pub key_new : List ℕ → ℕ → ℕ → Outcome Key
key_new name clazz kind = normalize_name name domain_name_max >>= λ b.
    done (record { name = b.bytes; clazz = clazz; kind = kind })

-- The time to live of `avahi_record_new`: -1 stands for the default.
abbrev pub new_ttl : ℕ → ℕ
new_ttl ttl = if ttl == 2 ^ 32 - 1 then default_ttl else ttl

-- The loop of `avahi_record_is_valid` over a TXT record.
abbrev pub texts_valid : StringList → Bool
texts_valid [] = true
texts_valid (text ∷ l) =
    if ltb 255 (length text) then false else if length text == 0 then false else texts_valid l

abbrev pub rdata_valid : RecordData → Bool
rdata_valid (srv priority weight port name) = is_valid_domain_name name
rdata_valid (ptr name) = is_valid_domain_name name
rdata_valid (hinfo cpu os) = leb (length os) 255 && leb (length cpu) 255
rdata_valid (txt l) = texts_valid l
rdata_valid (a b) = true
rdata_valid (aaaa b) = true
rdata_valid (generic b) = true

-- `avahi_record_is_valid`
unfoldable pub record_is_valid : Record → Bool
record_is_valid r = is_valid_domain_name r.key.name && rdata_valid r.rdata

pub record_is_goodbye : Record → Bool
record_is_goodbye r = r.ttl == 0

-- `rdata_equal`; the data are those of records of one type.
pub rdata_equal : RecordData → RecordData → Outcome Bool
rdata_equal (srv p w o n) (srv q v u m) =
    if (p == q) && (w == v) && (o == u) then domain_equal false n m else done false
rdata_equal (ptr n) (ptr m) = domain_equal false n m
rdata_equal (hinfo c o) (hinfo d e) = done (bytes_eq c d && bytes_eq o e)
rdata_equal (txt l) (txt m) = done (equal l m)
rdata_equal (a b) (a c) = done (bytes_eq b c)
rdata_equal (aaaa b) (aaaa c) = done (bytes_eq b c)
rdata_equal (generic b) (generic c) = done ((length b == length c) && bytes_eq b c)
rdata_equal _ _ = abort

-- `avahi_record_equal_no_ttl`; `same` and `same_key` say that the two pointers are one.
unfoldable pub record_equal_no_ttl : Bool → Bool → Record → Record → Outcome Bool
unfolding rdata_equal
record_equal_no_ttl same same_key r s =
    if same
    then done true
    else (key_equal same_key r.key s.key >>= λ e.
        if e then rdata_equal r.rdata s.rdata else done false)
