-- ===== src/Common/Services/RoundTrip.antt =====
-- A service name that `join` puts together is taken apart again by `split`.
use nvmrdisplay.Prelude.{ℕ, ◌-◌, ◌<◌, ◌≡◌, ◌≢◌, refl, ap, sym, ◌∙◌, arith}
use nvmrdisplay.Prelude.{true, false, some, List, [], ◌∷◌, ◌++◌, length, All, is_nil}
use nvmrdisplay.Prelude.{All-append, append_assoc, take_all, ==_false, inr}
use nvmrdisplay.Prelude.Chars.{IsChar}
use nvmrdisplay.Common.Label.{label_max, domain_name_max}
use nvmrdisplay.Common.Label.Bounds.{unescape_label_bounds}
use nvmrdisplay.Common.Label.RoundTrip.{escaped, escape_label-escaped, length-escaped-le}
use nvmrdisplay.Common.Domain.Splits.{
  Splits, label, IsLabel, joined, joined-append, joined-Splits, Splits-IsLabel,
}
use nvmrdisplay.Common.Domain.Normal.{normalize_name-joined}
use nvmrdisplay.Common.Domain.Equal.{NonEmpty}
use nvmrdisplay.Common.Names.{starts_with_underscore}
use nvmrdisplay.Common.Names.Accepts.{
  IsTypeLabel, is_valid_service_type_generic_iff, is_valid_domain_name_iff,
  is_valid_service_name_of,
}
use nvmrdisplay.Common.Services.{ok, new_part, in_name, in_type, in_domain}
use nvmrdisplay.Common.Services.{
  split_label, split_loop, split, escaped_prefix, with_normalized, join,
}
use nvmrdisplay.Common.Services.Split.{part, parts, split_step, split_types}

-- What the theorem asks of the three parts of a service's name and of the buffers.
pub record IsService (service kind place : List ℕ) (ts ds : List (List ℕ)) (d : List ℕ)
    : Type 0 where
  pub service_label : IsLabel service
  pub kind_chars : All IsChar kind
  pub kind_short : length kind < domain_name_max
  pub kind_reads : Splits kind ts
  pub kind_some : ts ≢ []
  pub kind_labels : All IsTypeLabel ts
  pub kind_fits : length (joined true ts) < domain_name_max
  pub place_chars : All IsChar place
  pub place_short : length place < domain_name_max
  pub place_reads : Splits place (d ∷ ds)
  pub place_labels : All NonEmpty (d ∷ ds)
  pub place_fits : length (joined true (d ∷ ds)) < domain_name_max
  pub no_underscore : starts_with_underscore d ≡ false

escaped_prefix-fits :
    (service : List ℕ)
    → length service < label_max
    → escaped_prefix (some service) ≡ ok (escaped service ++ (46 ∷ []))
unfolding escaped_prefix
escaped_prefix-fits service h =
    ground (arith, escape_label-escaped service 256 (omega (arith, length-escaped-le service)))

underscore_of_type : (l : List ℕ) → IsTypeLabel l → (l ≢ []) × (starts_with_underscore l ≡ true)
underscore_of_type [] h = absurd h
underscore_of_type (c ∷ l) h = ((λ e. cc), ground arith)

types_ne : (ts : List (List ℕ)) → All IsTypeLabel ts → All NonEmpty ts
types_ne [] h = tt
types_ne (t ∷ ts) h = ((underscore_of_type t h.0).0, types_ne ts h.1)

types_underscore :
    (ts : List (List ℕ)) → All IsTypeLabel ts → All (λ t. starts_with_underscore t ≡ true) ts
types_underscore [] h = tt
types_underscore (t ∷ ts) h = ((underscore_of_type t h.0).1, types_underscore ts h.1)

-- The whole name: the labels of the service, the type and the domain.
abbrev whole : List ℕ → List (List ℕ) → List (List ℕ) → List ℕ
whole service ts ds = joined true (service ∷ (ts ++ ds))

whole_parts :
    (service : List ℕ) (ts : List (List ℕ)) (d : List ℕ) (ds : List (List ℕ))
    → ts ≢ []
    → (escaped service ++ (46 ∷ [])) ++ (joined true ts ++ (46 ∷ joined true (d ∷ ds)))
      ≡ whole service ts (d ∷ ds)
unfolding joined
whole_parts service [] d ds ne = absurd (ne refl)
whole_parts service (t ∷ ts) d ds ne =
    append_assoc (escaped service) (46 ∷ []) (joined true (t ∷ ts) ++ (46 ∷ joined true (d ∷ ds)))
    ∙ ap (λ r. escaped service ++ (46 ∷ r)) (sym (joined-append t ts (d ∷ ds)))

name_label :
    (nr : ℕ) (service : List ℕ) (kr pr : ℕ)
    → length service < nr
    → split_label in_name nr service (parts in_name [] (new_part kr) (new_part pr))
      ≡ ok (parts in_type service (new_part kr) (new_part pr))
unfolding split_label
name_label nr service kr pr h = rw (take_all (nr - 1) service (omega arith))

split_start :
    (s : List ℕ) (nr kr pr : ℕ)
    → 0 < nr
    → 0 < kr
    → 0 < pr
    → split s (some nr) kr pr
      ≡ split_loop (length s) nr s (parts in_name [] (new_part kr) (new_part pr))
unfolding split
split_start s nr kr pr hn hk hp =
    rw (==_false kr 0 (omega arith), ==_false pr 0 (omega arith), ==_false nr 0 (omega arith))

split_whole :
    {service s : List ℕ} (ts : List (List ℕ)) (d : List ℕ) (ds : List (List ℕ)) (nr kr pr : ℕ)
    → Splits s (service ∷ (ts ++ (d ∷ ds)))
    → length service < label_max
    → All (λ t. starts_with_underscore t ≡ true) ts
    → starts_with_underscore d ≡ false
    → length service < nr
    → length (joined true ts) < kr
    → length (joined true (d ∷ ds)) < pr
    → split s (some nr) kr pr
      ≡ ok (
          parts in_domain service
            (part (joined true ts) (kr - length (joined true ts)) (is_nil ts))
            (part (joined true (d ∷ ds)) (pr - length (joined true (d ∷ ds))) false))
split_whole {service} ts d ds nr kr pr (label {c} {s} {rest} e sp) fits us un hn hk hp =
    let start = parts in_name [] (new_part kr) (new_part pr) in
    let next = parts in_type service (new_part kr) (new_part pr) in
    split_start (c ∷ s) nr kr pr (omega arith) (omega arith) (omega arith)
    ∙ split_step (length s) nr c s service rest start next e (name_label nr service kr pr hn)
    ∙ split_types ts d ds (length s) nr service [] kr pr true sp
        (omega (arith, unescape_label_bounds 64 (c ∷ s) e)) us un hk hp

module _ {service kind place : List ℕ} {ts ds : List (List ℕ)} {d : List ℕ}
    (v : IsService service kind place ts ds d) where
  join-whole :
      (size : ℕ)
      → length (whole service ts (d ∷ ds)) < size
      → join size (some service) kind place ≡ ok (whole service ts (d ∷ ds))
  unfolding join with_normalized
  join-whole size h = ground (
    arith,
    (is_valid_service_type_generic_iff kind).1
        (v.kind_short, (ts, v.kind_reads, v.kind_some, v.kind_labels)),
    (is_valid_domain_name_iff place).1
        (v.place_short, inr (d ∷ ds, v.place_reads, (λ e. cc), v.place_labels)),
    is_valid_service_name_of service v.service_label.not_empty v.service_label.fits,
    escaped_prefix-fits service v.service_label.fits,
    normalize_name-joined domain_name_max v.kind_reads (types_ne ts v.kind_labels) v.kind_fits,
    normalize_name-joined domain_name_max v.place_reads v.place_labels v.place_fits,
    whole_parts service ts d ds v.kind_some,
    take_all (size - 1) (whole service ts (d ∷ ds)) (omega arith),
  )

  whole-Splits : Splits (whole service ts (d ∷ ds)) (service ∷ (ts ++ (d ∷ ds)))
  whole-Splits = joined-Splits (service ∷ (ts ++ (d ∷ ds))) (
    v.service_label,
    All-append IsLabel ts (d ∷ ds)
        (Splits-IsLabel v.kind_chars v.kind_reads (types_ne ts v.kind_labels))
        (Splits-IsLabel v.place_chars v.place_reads v.place_labels),
  )

  -- The name that `avahi_service_name_join` puts together, if its buffer has room for the whole, is
  -- taken apart by `avahi_service_name_split` into the name of the service as it was, and into the
  -- type and the domain in their normal forms, if the three buffers have room for these. The parts
  -- are as `IsService` says: above all the first label of the domain has no underscore in front, so
  -- the type ends there.
  pub split-join :
      (size name_room kind_room place_room : ℕ)
      → length (whole service ts (d ∷ ds)) < size
      → length service < name_room
      → length (joined true ts) < kind_room
      → length (joined true (d ∷ ds)) < place_room
      → (p : List ℕ) × (join size (some service) kind place ≡ ok p)
        × (split p (some name_room) kind_room place_room
            ≡ ok (record {
              state = in_domain;
              service = service;
              kind = record {
                bytes = joined true ts;
                room = kind_room - length (joined true ts);
                empty = is_nil ts;
              };
              place = record {
                bytes = joined true (d ∷ ds);
                room = place_room - length (joined true (d ∷ ds));
                empty = false;
              };
            }))
  split-join size nr kr pr hs hn hk hp = (
    whole service ts (d ∷ ds),
    join-whole size hs,
    split_whole ts d ds nr kr pr whole-Splits v.service_label.fits
        (types_underscore ts v.kind_labels) v.no_underscore hn hk hp,
  )
