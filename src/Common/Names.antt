-- ===== src/Common/Names.antt =====
-- avahi-common/domain.c: which strings are names of domains, hosts, services and service types.
pub mod Accepts
use nvmrdisplay.Prelude.{ℕ, zero, suc, ◌+◌, ◌-◌, ◌<◌, Bool, true, false, ◌&&◌, ◌||◌, not}
use nvmrdisplay.Prelude.{
  Option, none, some, List, [], ◌∷◌, length, is_nil, ltb, leb, ◌==◌, if◌then◌else◌,
}
use nvmrdisplay.Prelude.Chars.{strcasecmp_eq}
use nvmrdisplay.Common.Label.{label_max, domain_name_max, unescape_label}

-- `label[0] == '_'`, where the end of the label is a NUL.
abbrev pub starts_with_underscore : List ℕ → Bool
starts_with_underscore [] = false
starts_with_underscore (c ∷ l) = c == 95

-- A label that can name an application: `strlen(label) > 2` and an underscore in front.
abbrev pub is_type_label : List ℕ → Bool
is_type_label l = not (leb (length l) 2) && starts_with_underscore l

-- "_tcp" and "_udp", "_sub"
abbrev pub tcp_label : List ℕ
tcp_label = 95 ∷ 116 ∷ 99 ∷ 112 ∷ []

abbrev pub udp_label : List ℕ
udp_label = 95 ∷ 117 ∷ 100 ∷ 112 ∷ []

abbrev pub sub_label : List ℕ
sub_label = 95 ∷ 115 ∷ 117 ∷ 98 ∷ []

abbrev pub is_protocol_label : List ℕ → Bool
is_protocol_label l = strcasecmp_eq l tcp_label || strcasecmp_eq l udp_label

-- The `do … while (*t)` of `avahi_is_valid_service_type_generic`; a round takes a byte of a
-- non-empty name at least, and the loop is not entered with an empty one.
pub type_generic_loop : ℕ → List ℕ → Bool
type_generic_loop zero t = false
type_generic_loop (suc fuel) t = elim (unescape_label label_max t) [
  | none ↦ false
  | some (label, rest) ↦
      let more = type_generic_loop fuel rest in
      if is_type_label label then (if is_nil rest then true else more) else false
]

pub is_valid_service_type_generic : List ℕ → Bool
unfolding type_generic_loop
is_valid_service_type_generic t =
    if leb domain_name_max (length t) || is_nil t then false else type_generic_loop (length t) t

-- The last label of a service type: the protocol, with nothing behind it.
pub is_protocol : List ℕ → Bool
is_protocol t = elim (unescape_label label_max t) [
  | none ↦ false
  | some (label, rest) ↦ is_protocol_label label && is_nil rest
]

pub is_valid_service_type_strict : List ℕ → Bool
unfolding is_protocol
is_valid_service_type_strict t =
    if leb domain_name_max (length t) || is_nil t
    then false
    else elim (unescape_label label_max t) [
      | none ↦ false
      | some (label, rest) ↦ is_type_label label && not (is_nil rest) && is_protocol rest
    ]

-- The application and the protocol, as the second half of `avahi_get_type_from_subtype` reads them.
pub is_type : List ℕ → Bool
unfolding is_protocol
is_type t = elim (unescape_label label_max t) [
  | none ↦ false
  | some (label, rest) ↦ is_type_label label && not (is_nil rest) && is_protocol rest
]

-- Behind the subtype's own label: "_sub", then the type, which is the result.
pub type_behind_sub : List ℕ → Option (List ℕ)
unfolding is_type
type_behind_sub t = elim (unescape_label label_max t) [
  | none ↦ none
  | some (label, rest) ↦
      if strcasecmp_eq label sub_label && not (is_nil rest) && is_type rest then some rest else none
]

pub get_type_from_subtype : List ℕ → Option (List ℕ)
unfolding type_behind_sub
get_type_from_subtype t =
    if leb domain_name_max (length t) || is_nil t then none else elim (unescape_label label_max t) [
      | none ↦ none
      | some (label, rest) ↦
          if is_type_label label && not (is_nil rest) then type_behind_sub rest else none
    ]

pub is_valid_service_subtype : List ℕ → Bool
unfolding get_type_from_subtype
is_valid_service_subtype t = elim (get_type_from_subtype t) [ none ↦ false | some r ↦ true ]

-- The loop of `avahi_is_valid_domain_name`, which is entered with an empty name too.
pub domain_name_loop : ℕ → List ℕ → Bool → Bool
domain_name_loop zero t is_first = false
domain_name_loop (suc fuel) t is_first = elim (unescape_label label_max t) [
  | none ↦ false
  | some (label, rest) ↦
      let more = domain_name_loop fuel rest false in
      if is_first && is_nil label && is_nil rest
      then true
      else if is_nil label
      then false
      else if is_nil rest
      then true
      else more
]

pub is_valid_domain_name : List ℕ → Bool
unfolding domain_name_loop
is_valid_domain_name t =
    if leb domain_name_max (length t) then false else domain_name_loop (suc (length t)) t true

pub is_valid_service_name : List ℕ → Bool
is_valid_service_name t = not (leb label_max (length t) || is_nil t)

pub is_valid_host_name : List ℕ → Bool
is_valid_host_name t =
    if leb domain_name_max (length t) || is_nil t
    then false
    else elim (unescape_label label_max t) [
      | none ↦ false
      | some (label, rest) ↦ if ltb (length label) 1 then false else is_nil rest
    ]
