-- ===== src/Common/Services/Split.antt =====
-- The rounds of `split`: which label goes to which part.
use nvmrdisplay.Prelude.{ℕ, zero, suc, ◌-◌, ◌≤◌, ◌<◌, ◌≡◌, refl, ap, sym, ◌∙◌, arith}
use nvmrdisplay.Prelude.{Bool, true, false, some, List, [], ◌∷◌, ◌++◌, length, All, is_nil, ◌&&◌}
use nvmrdisplay.Prelude.{length-append, append_assoc, append-nil, inl, inr, ◌⊎◌}
use nvmrdisplay.Common.Label.{unescape_label}
use nvmrdisplay.Common.Label.Bounds.{unescape_label_bounds}
use nvmrdisplay.Common.Label.RoundTrip.{escaped, escape_label-escaped}
use nvmrdisplay.Common.Domain.Splits.{Splits, end, label, joined}
use nvmrdisplay.Common.Domain.Normal.{added, joined-added, and_true, and_false}
use nvmrdisplay.Common.Names.{starts_with_underscore}
use nvmrdisplay.Common.Services.{
  ok, Part, new_part, write_part, add_part, Parts, State, in_name, in_type, in_domain,
}
use nvmrdisplay.Common.Services.{add_domain, add_type, split_label, split_loop}

abbrev pub part : List ℕ → ℕ → Bool → Part
part bytes room empty = record { bytes = bytes; room = room; empty = empty }

write_part-fits :
    (l bytes : List ℕ) (room : ℕ) (empty : Bool)
    → length (escaped l) < room
    → write_part l (part bytes room empty)
      ≡ ok (part (bytes ++ escaped l) (room - length (escaped l)) false)
unfolding write_part
write_part-fits l bytes room empty h = ground (arith, escape_label-escaped l room h)

add_part-fits :
    (l bytes : List ℕ) (room : ℕ) (empty : Bool)
    → length (added empty l) < room
    → add_part l (part bytes room empty)
      ≡ ok (part (bytes ++ added empty l) (room - length (added empty l)) false)
unfolding add_part
add_part-fits l bytes room true h = write_part-fits l bytes room true h
add_part-fits l bytes room false h = ground (
  arith,
  write_part-fits l (bytes ++ (46 ∷ [])) (room - 1) false,
  append_assoc bytes (46 ∷ []) (escaped l),
)

abbrev pub parts : State → List ℕ → Part → Part → Parts
parts s n k d = record { state = s; service = n; kind = k; place = d }

pub split_step :
    (fuel n c : ℕ) (s l rest : List ℕ) (ps ps' : Parts)
    → unescape_label 64 (c ∷ s) ≡ some (l, rest)
    → split_label ps.state n l ps ≡ ok ps'
    → split_loop (suc fuel) n (c ∷ s) ps ≡ split_loop fuel n rest ps'
unfolding split_loop
split_step fuel n c s l rest ps ps' e h = ground arith

-- A part with the labels behind what it holds.
abbrev pub behind_labels : List ℕ → ℕ → Bool → List (List ℕ) → Part
behind_labels bytes room empty ls =
    part (bytes ++ joined empty ls) (room - length (joined empty ls)) (empty && is_nil ls)

part_path : {a b : List ℕ} {m n : ℕ} {x y : Bool} → a ≡ b → m ≡ n → x ≡ y → part a m x ≡ part b n y
part_path p q r = λ i. part (p i) (q i) (r i)

behind_labels_nil :
    (bytes : List ℕ) (room : ℕ) (empty : Bool)
    → behind_labels bytes room empty [] ≡ part bytes room empty
unfolding joined
behind_labels_nil bytes room empty = part_path (append-nil bytes) (omega arith) (and_true empty)

behind_labels_cons :
    (bytes : List ℕ) (room : ℕ) (empty : Bool) (l : List ℕ) (ls : List (List ℕ))
    → behind_labels (bytes ++ added empty l) (room - length (added empty l)) false ls
      ≡ behind_labels bytes room empty (l ∷ ls)
behind_labels_cons bytes room empty l ls =
    part_path
      (append_assoc bytes (added empty l) (joined false ls)
        ∙ ap (λ j. bytes ++ j) (sym (joined-added empty l ls)))
      (omega (
        arith,
        length-append (added empty l) (joined false ls),
        ap length (joined-added empty l ls),
      ))
      (sym (and_false empty))

-- One round that puts a label into the domain, in its own state or in that of the type.
domain_label :
    (n : ℕ) (l : List ℕ) (st : State) (svc : List ℕ) (k : Part) (bytes : List ℕ) (room : ℕ)
    (empty : Bool)
    → (st ≡ in_domain) ⊎ ((st ≡ in_type) × (starts_with_underscore l ≡ false))
    → length (added empty l) < room
    → split_label st n l (parts st svc k (part bytes room empty))
      ≡ ok (
          parts in_domain svc k
            (part (bytes ++ added empty l) (room - length (added empty l)) false))
unfolding split_label add_type add_domain
domain_label n l in_name svc k bytes room empty (inl e) h = absurd (cc)
domain_label n l in_name svc k bytes room empty (inr e) h = absurd (cc (e.0))
domain_label n l in_type svc k bytes room empty (inl e) h = absurd (cc)
domain_label n l in_type svc k bytes room empty (inr e) h =
    ground (arith, add_part-fits l bytes room empty h)
domain_label n l in_domain svc k bytes room empty q h =
    ground (arith, add_part-fits l bytes room empty h)

type_label :
    (n : ℕ) (l svc : List ℕ) (d : Part) (bytes : List ℕ) (room : ℕ) (empty : Bool)
    → starts_with_underscore l ≡ true
    → length (added empty l) < room
    → split_label in_type n l (parts in_type svc (part bytes room empty) d)
      ≡ ok (
          parts in_type svc (part (bytes ++ added empty l) (room - length (added empty l)) false) d)
unfolding split_label add_type
type_label n l svc d bytes room empty u h = ground (arith, add_part-fits l bytes room empty h)

-- In the state of the domain every label goes to the domain.
split_domain :
    (ds : List (List ℕ)) (fuel n : ℕ) {s : List ℕ} (svc : List ℕ) (k : Part) (bytes : List ℕ)
    (room : ℕ) (empty : Bool)
    → Splits s ds
    → length s ≤ fuel
    → length (joined empty ds) < room
    → split_loop fuel n s (parts in_domain svc k (part bytes room empty))
      ≡ ok (parts in_domain svc k (behind_labels bytes room empty ds))
split_domain [] zero n svc k bytes room empty end le h =
    unfold split_loop in
    ap (λ d. ok (parts in_domain svc k d)) (sym (behind_labels_nil bytes room empty))
split_domain [] (suc fuel) n svc k bytes room empty end le h =
    unfold split_loop in
    ap (λ d. ok (parts in_domain svc k d)) (sym (behind_labels_nil bytes room empty))
split_domain (d ∷ ds) zero n svc k bytes room empty (label e sp) le h = absurd (omega arith)
split_domain (d ∷ ds) (suc fuel) n svc k bytes room empty (label {c} {s} {rest} e sp) le h =
    let m = length (added empty d) in
    let fits : (m < room) × (length (joined false ds) < room - m) = omega (
      arith,
      length-append (added empty d) (joined false ds),
      ap length (joined-added empty d ds),
    ) in
    split_step fuel n c s d rest (parts in_domain svc k (part bytes room empty))
      (parts in_domain svc k (part (bytes ++ added empty d) (room - m) false)) e
      (domain_label n d in_domain svc k bytes room empty (inl refl) fits.0)
    ∙ split_domain ds fuel n svc k (bytes ++ added empty d) (room - m) false sp
        (omega (arith, unescape_label_bounds 64 (c ∷ s) e)) fits.1
    ∙ ap (λ p. ok (parts in_domain svc k p)) (behind_labels_cons bytes room empty d ds)

-- Labels with an underscore in front go to the type, and from the first label without one on all
-- labels go to the domain.
pub split_types :
    (ts : List (List ℕ)) (d : List ℕ) (ds : List (List ℕ)) (fuel n : ℕ) {s : List ℕ}
    (svc bytes : List ℕ) (room dom : ℕ) (empty : Bool)
    → Splits s (ts ++ (d ∷ ds))
    → length s ≤ fuel
    → All (λ t. starts_with_underscore t ≡ true) ts
    → starts_with_underscore d ≡ false
    → length (joined empty ts) < room
    → length (joined true (d ∷ ds)) < dom
    → split_loop fuel n s (parts in_type svc (part bytes room empty) (new_part dom))
      ≡ ok (
          parts in_domain svc
            (behind_labels bytes room empty ts)
            (behind_labels [] dom true (d ∷ ds)))
split_types [] d ds zero n svc bytes room dom empty (label e sp) le h hd fk fd =
    absurd (omega arith)
split_types (t ∷ ts) d ds zero n svc bytes room dom empty (label e sp) le h hd fk fd =
    absurd (omega arith)
split_types [] d ds (suc fuel) n svc bytes room dom empty (label {c} {s} {rest} e sp) le h hd fk
      fd =
    let m = length (added true d) in
    let fits : (m < dom) × (length (joined false ds) < dom - m) =
      omega (
        arith,
        length-append (added true d) (joined false ds),
        ap length (joined-added true d ds),
      ) in
    let k = part bytes room empty in
    split_step fuel n c s d rest (parts in_type svc k (new_part dom))
      (parts in_domain svc k (part (added true d) (dom - m) false)) e
      (domain_label n d in_type svc k [] dom true (inr (refl, hd)) fits.0)
    ∙ split_domain ds fuel n svc k (added true d) (dom - m) false sp
        (omega (arith, unescape_label_bounds 64 (c ∷ s) e)) fits.1
    ∙ ap (λ p. ok (parts in_domain svc k p)) (behind_labels_cons [] dom true d ds)
    ∙ ap (λ p. ok (parts in_domain svc p (behind_labels [] dom true (d ∷ ds))))
        (sym (behind_labels_nil bytes room empty))
split_types (t ∷ ts) d ds (suc fuel) n svc bytes room dom empty (label {c} {s} {rest} e sp) le h hd
      fk fd =
    let m = length (added empty t) in
    let fits : (m < room) × (length (joined false ts) < room - m) = omega (
      arith,
      length-append (added empty t) (joined false ts),
      ap length (joined-added empty t ts),
    ) in
    split_step fuel n c s t rest (parts in_type svc (part bytes room empty) (new_part dom))
      (parts in_type svc (part (bytes ++ added empty t) (room - m) false) (new_part dom)) e
      (type_label n t svc (new_part dom) bytes room empty h.0 fits.0)
    ∙ split_types ts d ds fuel n svc (bytes ++ added empty t) (room - m) dom false sp
        (omega (arith, unescape_label_bounds 64 (c ∷ s) e)) h.1 hd fits.1 fd
    ∙ ap (λ p. ok (parts in_domain svc p (behind_labels [] dom true (d ∷ ds))))
        (behind_labels_cons bytes room empty t ts)
