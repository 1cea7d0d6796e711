-- ===== src/Core/Keys.antt =====
-- avahi-core/rr.c: the keys of records, which are a name, a type and a class, and patterns of keys.
pub mod Patterns
use nvmrdisplay.Prelude.{ℕ, ◌+◌, ◌%◌, ◌^◌, Bool, true, false, ◌&&◌, ◌||◌, List, ◌==◌, if◌then◌else◌}
use nvmrdisplay.Prelude.Outcome.{Outcome, done, abort, ◌>>=◌}
use nvmrdisplay.Common.Domain.{domain_equal, domain_hash}

-- AVAHI_DNS_TYPE_ANY
abbrev pub type_any : ℕ
type_any = 255

-- AVAHI_DNS_CLASS_ANY
abbrev pub class_any : ℕ
class_any = 255

-- `AvahiKey`; `kind` is the field `type`.
pub record Key : Type 0 where
  pub name : List ℕ
  pub clazz : ℕ
  pub kind : ℕ

-- `avahi_key_equal`; `same` says that the two pointers are one. Two keys never share a name.
unfoldable pub key_equal : Bool → Key → Key → Outcome Bool
key_equal same a b =
    if same
    then done true
    else (domain_equal false a.name b.name >>= λ e.
        done (e && (a.kind == b.kind) && (a.clazz == b.clazz)))

unfoldable pub key_is_pattern : Key → Bool
key_is_pattern k = (k.kind == type_any) || (k.clazz == class_any)

-- `avahi_key_pattern_match`
pub key_pattern_match : Bool → Key → Key → Outcome Bool
unfolding key_is_pattern
key_pattern_match same pattern k =
    if key_is_pattern k
    then abort
    else if same
    then done true
    else (domain_equal false pattern.name k.name >>= λ e. done (
        e
        && (pattern.kind == k.kind || pattern.kind == type_any)
        && (pattern.clazz == k.clazz || pattern.clazz == class_any)))

-- `avahi_key_hash`, an `unsigned` of 32 bits; `signed` says whether `char` is signed.
pub key_hash : Bool → Key → Outcome ℕ
key_hash signed k = domain_hash signed k.name >>= λ h. done ((h + k.kind + k.clazz) % 2 ^ 32)
