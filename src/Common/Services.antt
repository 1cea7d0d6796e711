-- ===== src/Common/Services.antt =====
-- avahi-common/domain.c: the full name of a service, put together and taken apart.
pub mod Split
pub mod RoundTrip
use nvmrdisplay.Prelude.{ℕ, zero, suc, ◌+◌, ◌-◌, ◌*◌, Bool, true, false, ◌&&◌, ◌||◌, not}
use nvmrdisplay.Prelude.{
  Option, none, some, List, [], ◌∷◌, ◌++◌, length, take, is_nil, ltb, leb, ◌==◌, if◌then◌else◌,
}
use nvmrdisplay.Prelude.Outcome.{Outcome, done, null, abort}
use nvmrdisplay.Common.Label.{label_max, domain_name_max, Escaped, unescape_label, escape_label}
use nvmrdisplay.Common.Domain.{Buffer, normalize_name}
use nvmrdisplay.Common.Names.{
  is_valid_service_name, is_valid_service_type_generic, is_valid_domain_name,
}
use nvmrdisplay.Common.Names.{starts_with_underscore}

-- The error codes of `avahi_service_name_join` and `avahi_service_name_split`; `failed` is -1.
pub data Error : Type 0 where
  invalid_service_name invalid_service_type invalid_domain_name no_memory failed : Error

-- AVAHI_OK with the buffers, or an error; an `assert` that fails; `stuck` where the fuel ran out.
-- `unterminated` is what a caller gets that reads a string past its end.
pub data Result {ℓ} (A : Type ℓ) : Type ℓ where
  ok : A → Result A
  err : Error → Result A
  aborted : Result A
  unterminated : Result A
  stuck : Result A

-- `snprintf` into `size` bytes: what stands in the buffer before the NUL.
abbrev pub print : ℕ → List ℕ → List ℕ
print size s = take (size - 1) s

-- A normalised name is read by `snprintf` up to its NUL.
pub with_normalized : Outcome Buffer → Error → (List ℕ → Result (List ℕ)) → Result (List ℕ)
with_normalized (done b) e next = if b.terminated then next b.bytes else unterminated
with_normalized null e next = err e
with_normalized abort e next = aborted
with_normalized Outcome.stuck e next = stuck

-- The name as it stands in `escaped_name`, with the dot behind it; both are empty without a name.
pub escaped_prefix : Option (List ℕ) → Result (List ℕ)
escaped_prefix none = ok []
escaped_prefix (some service) = elim (escape_label service (label_max * 4)) [
  | done e ↦ if e.ok then ok (e.written ++ (46 ∷ [])) else aborted
  | null ↦ aborted
  | abort ↦ aborted
  | Outcome.stuck ↦ stuck
]

abbrev pub bind {ℓ κ} : {A : Type ℓ} {B : Type κ} → Result A → (A → Result B) → Result B
bind (ok a) f = f a
bind (err e) f = err e
bind aborted f = aborted
bind unterminated f = unterminated
bind stuck f = stuck

abbrev pub name_ok : Option (List ℕ) → Bool
name_ok none = true
name_ok (some service) = is_valid_service_name service

-- `avahi_service_name_join`: the string in `p`.
pub join : ℕ → Option (List ℕ) → List ℕ → List ℕ → Result (List ℕ)
unfolding with_normalized escaped_prefix
join size service kind place =
    if not (name_ok service)
    then err invalid_service_name
    else if not (is_valid_service_type_generic kind)
    then err invalid_service_type
    else if not (is_valid_domain_name place)
    then err invalid_domain_name
    else bind (escaped_prefix service) (λ front.
      with_normalized (normalize_name kind domain_name_max) invalid_service_type (λ t.
        with_normalized (normalize_name place domain_name_max) invalid_domain_name
          (λ d. ok (print size (front ++ (t ++ (46 ∷ d)))))))

-- A buffer that labels are written to: what it holds, its room, and whether it is empty yet.
pub record Part : Type 0 where
  pub bytes : List ℕ
  pub room : ℕ
  pub empty : Bool

abbrev pub new_part : ℕ → Part
new_part room = record { bytes = []; room = room; empty = true }

-- The label behind a dot, unless it is the first.
pub write_part : List ℕ → Part → Result Part
write_part label p = elim (escape_label label p.room) [
  | done e ↦
      if e.ok
      then ok (record { bytes = p.bytes ++ e.written; room = e.size; empty = false })
      else err no_memory
  | null ↦ err no_memory
  | abort ↦ aborted
  | Outcome.stuck ↦ stuck
]

pub add_part : List ℕ → Part → Result Part
unfolding write_part
add_part label p =
    if p.empty
    then write_part label p
    else if p.room == 0
    then err no_memory
    else write_part label (record p { bytes = p.bytes ++ (46 ∷ []); room = p.room - 1 })

pub data State : Type 0 where
  in_name in_type in_domain : State

-- The variables of `avahi_service_name_split`; `name` is what stands in the name's buffer.
pub record Parts : Type 0 where
  pub state : State
  pub service : List ℕ
  pub kind : Part
  pub place : Part

pub add_domain : List ℕ → Parts → Result Parts
unfolding add_part
add_domain label ps =
    bind (add_part label ps.place) (λ p. ok (record ps { state = in_domain; place = p }))

pub add_type : List ℕ → Parts → Result Parts
unfolding add_domain
add_type label ps =
    if starts_with_underscore label
    then bind (add_part label ps.kind) (λ p. ok (record ps { kind = p }))
    else add_domain label ps

-- The `switch` of a round, on the state.
pub split_label : State → ℕ → List ℕ → Parts → Result Parts
unfolding add_type
split_label in_name name_size label ps =
    ok (record ps { state = in_type; service = take (name_size - 1) label })
split_label in_type name_size label ps = add_type label ps
split_label in_domain name_size label ps = add_domain label ps

pub split_loop : ℕ → ℕ → List ℕ → Parts → Result Parts
unfolding split_label
split_loop fuel name_size [] ps = ok ps
split_loop zero name_size (c ∷ p) ps = stuck
split_loop (suc fuel) name_size (c ∷ p) ps = elim (unescape_label 64 (c ∷ p)) [
  | none ↦ err failed
  | some (label, rest) ↦
      bind (split_label ps.state name_size label ps) (λ ps'. split_loop fuel name_size rest ps')
]

-- `avahi_service_name_split`; `name_size` is `none` without a buffer for the name. The sizes are
-- asserted to be positive.
pub split : List ℕ → Option ℕ → ℕ → ℕ → Result Parts
unfolding split_loop
split p name_size type_size domain_size =
    let start = λ (s : State) (n : ℕ). split_loop (length p) n p (record {
      state = s;
      service = [];
      kind = new_part type_size;
      place = new_part domain_size;
    }) in
    if type_size == 0 || domain_size == 0 then aborted else elim name_size [
      | none ↦ start in_type 0
      | some n ↦ if n == 0 then aborted else start in_name n
    ]
