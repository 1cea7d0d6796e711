-- ===== src/Common/Domain.antt =====
-- avahi-common/domain.c: domain names as text, their normal form, comparison and hash.
pub mod Splits
pub mod Normal
pub mod Equal
use nvmrdisplay.Prelude.{ℕ, zero, suc, ◌+◌, ◌-◌, ◌*◌, ◌%◌, ◌^◌, Bool, true, false, ◌&&◌, ◌||◌, not}
use nvmrdisplay.Prelude.{
  Option, none, some, List, [], ◌∷◌, ◌++◌, length, is_nil, ltb, leb, ◌==◌, if◌then◌else◌,
}
use nvmrdisplay.Prelude.Chars.{strcasecmp_eq, to_lower}
use nvmrdisplay.Prelude.Outcome.{Outcome, done, null, abort, stuck, ◌>>=◌}
use nvmrdisplay.Common.Label.{label_max, Escaped, unescape_label, escape_label}

-- The buffer of `avahi_normalize_name`, and whether a NUL stands behind the bytes.
pub record Buffer : Type 0 where
  pub bytes : List ℕ
  pub terminated : Bool

-- The variables of its loop: what stands in `ret_s`, `size` and `empty`.
pub record Writer : Type 0 where
  pub out : Buffer
  pub size : ℕ
  pub empty : Bool

-- The call of `avahi_escape_label`, whose result is not looked at. A label that does not fit is cut
-- without a NUL behind it; only where nothing at all was written the old NUL still stands.
pub write_label : List ℕ → Writer → Outcome Writer
write_label label w = do
  e ← escape_label label w.size
  done (record {
    out = record {
      bytes = w.out.bytes ++ e.written;
      terminated = e.ok || (w.out.terminated && is_nil e.written);
    };
    size = e.size;
    empty = false;
  })

-- The dot in front of each label but the first; it overwrites the NUL.
pub append_label : List ℕ → Writer → Outcome Writer
unfolding write_label
append_label label w =
    if w.empty
    then write_label label w
    else if ltb w.size 1
    then null
    else write_label label (record w {
      out = record { bytes = w.out.bytes ++ (46 ∷ []); terminated = false };
      size = w.size - 1;
    })

pub normalize_loop : ℕ → List ℕ → Writer → Outcome Buffer
unfolding append_label
normalize_loop fuel [] w = done w.out
normalize_loop zero (c ∷ s) w = stuck
normalize_loop (suc fuel) (c ∷ s) w = elim (unescape_label label_max (c ∷ s)) [
  | none ↦ null
  | some (label, rest) ↦
      if is_nil label
      then (if is_nil rest && w.empty then done w.out else null)
      else (append_label label w >>= λ w'. normalize_loop fuel rest w')
]

-- `avahi_normalize_name`. A round takes a byte of the name at least.
pub normalize_name : List ℕ → ℕ → Outcome Buffer
unfolding normalize_loop
normalize_name s size =
    if size == 0
    then abort
    else normalize_loop (length s) s
        (record { out = record { bytes = []; terminated = true }; size = size; empty = true })

-- The loop of `avahi_domain_equal`; the asserts fail at a label that cannot be read.
pub equal_loop : ℕ → List ℕ → List ℕ → Outcome Bool
equal_loop zero a b = stuck
equal_loop (suc fuel) a b = elim (unescape_label label_max a) [
  | none ↦ abort
  | some (ca, ra) ↦ elim (unescape_label label_max b) [
    | none ↦ abort
    | some (cb, rb) ↦
        let rest = equal_loop fuel ra rb in
        if strcasecmp_eq ca cb
        then (if is_nil ra && is_nil rb then done true else rest)
        else done false
  ]
]

-- `same` says that the two pointers are one.
unfoldable pub domain_equal : Bool → List ℕ → List ℕ → Outcome Bool
unfolding equal_loop
domain_equal same a b = if same then done true else equal_loop (suc (length a + length b)) a b

-- A `char` as an `unsigned` of 32 bits: where `char` is signed, a byte from 128 on is negative.
abbrev pub char_value : Bool → ℕ → ℕ
char_value signed c = if signed && leb 128 c then c + 2 ^ 32 - 256 else c

pub hash_label : Bool → List ℕ → ℕ → ℕ
hash_label signed [] hash = hash
hash_label signed (c ∷ l) hash =
    hash_label signed l ((31 * hash + char_value signed (to_lower c)) % 2 ^ 32)

pub hash_loop : Bool → ℕ → List ℕ → ℕ → Outcome ℕ
unfolding hash_label
hash_loop signed fuel [] hash = done hash
hash_loop signed zero (c ∷ s) hash = stuck
hash_loop signed (suc fuel) (c ∷ s) hash = elim (unescape_label label_max (c ∷ s)) [
  | none ↦ abort
  | some (label, rest) ↦ hash_loop signed fuel rest (hash_label signed label hash)
]

pub domain_hash : Bool → List ℕ → Outcome ℕ
unfolding hash_loop
domain_hash signed s = hash_loop signed (length s) s 0
