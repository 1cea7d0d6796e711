-- ===== src/Common/Names/Accepts.antt =====
-- Which names the tests of domain.c accept, by the labels that the names read as.
use nvmrdisplay.Prelude.{
  ℕ, zero, suc, ◌≤◌, ◌<◌, ◌≡◌, ◌≢◌, ◌↔◌, ◌⊎◌, inl, inr, refl, arith, Bool, true, false,
}
use nvmrdisplay.Prelude.{List, [], ◌∷◌, length, All, some, Option-cases}
use nvmrdisplay.Common.Label.{label_max, domain_name_max, unescape_label}
use nvmrdisplay.Common.Label.Bounds.{unescape_label_bounds}
use nvmrdisplay.Common.Label.RoundTrip.{unescape_label_nil}
use nvmrdisplay.Common.Domain.Splits.{Splits, end, label}
use nvmrdisplay.Common.Domain.Equal.{NonEmpty}
use nvmrdisplay.Common.Names.{is_type_label, type_generic_loop, is_valid_service_type_generic}
use nvmrdisplay.Common.Names.{domain_name_loop, is_valid_domain_name, is_valid_service_name}

-- A name reads as labels that all pass the test, and has one at least.
abbrev pub ReadsAs : (List ℕ → Type 0) → List ℕ → Type 0
ReadsAs P t = (ls : List (List ℕ)) × (Splits t ls) × (ls ≢ []) × (All P ls)

-- A label of more than two bytes, the first of them an underscore.
abbrev pub IsTypeLabel : List ℕ → Type 0
IsTypeLabel [] = ⊥
IsTypeLabel (c ∷ l) = (c ≡ 95) × (2 < length (c ∷ l))

is_type_label_sound : (l : List ℕ) → is_type_label l ≡ true → IsTypeLabel l
is_type_label_sound [] e = absurd (ground arith)
is_type_label_sound (c ∷ l) e = (ground arith, ground arith)

is_type_label_complete : (l : List ℕ) → IsTypeLabel l → is_type_label l ≡ true
is_type_label_complete [] h = absurd h
is_type_label_complete (c ∷ l) h = ground arith

cons_ne : (l : List ℕ) (ls : List (List ℕ)) → l ∷ ls ≢ []
cons_ne l ls q = cc

cons_ne_nil : (x : ℕ) (l : List ℕ) → x ∷ l ≢ []
cons_ne_nil x l q = cc

label-ReadsAs :
    (P : List ℕ → Type 0) {c : ℕ} {s l rest : List ℕ}
    → unescape_label label_max (c ∷ s) ≡ some (l, rest)
    → P l
    → (rest ≡ []) ⊎ ReadsAs P rest
    → ReadsAs P (c ∷ s)
label-ReadsAs P {l} e h (inl nil) = (l ∷ [], label e (rw nil end), cons_ne l [], (h, tt))
label-ReadsAs P {l} e h (inr (ls, sp, ne, a)) = (l ∷ ls, label e sp, cons_ne l ls, (h, a))

type_generic_loop_sound :
    (fuel c : ℕ) (s : List ℕ) → type_generic_loop fuel (c ∷ s) ≡ true → ReadsAs IsTypeLabel (c ∷ s)
unfolding type_generic_loop
type_generic_loop_sound zero c s e = absurd (cc)
type_generic_loop_sound (suc fuel) c s e = elim (Option-cases (unescape_label label_max (c ∷ s))) [
  | inl stop ↦ absurd (ground (arith, stop))
  | inr ((l, []), found) ↦
      label-ReadsAs IsTypeLabel found (is_type_label_sound l (ground (arith, found))) (inl refl)
  | inr ((l, d ∷ t), found) ↦
      let both : (is_type_label l ≡ true) × (type_generic_loop fuel (d ∷ t) ≡ true) =
        ground (arith, found) in
      label-ReadsAs IsTypeLabel found (is_type_label_sound l both.0)
        (inr (type_generic_loop_sound fuel d t both.1))
]

type_generic_loop_complete :
    (fuel : ℕ) {t : List ℕ} {ls : List (List ℕ)}
    → Splits t ls
    → length t ≤ fuel
    → ls ≢ []
    → All IsTypeLabel ls
    → type_generic_loop fuel t ≡ true
unfolding type_generic_loop
type_generic_loop_complete fuel end le ne h = absurd (ne refl)
type_generic_loop_complete zero (label e sp) le ne h = absurd (omega arith)
type_generic_loop_complete (suc fuel) (label {c} {s} {l} e end) le ne h =
    ground (arith, is_type_label_complete l h.0)
type_generic_loop_complete (suc fuel) (label {c} {s} {l} e (label {c = d} {s = t} e' sp)) le ne h =
    ground (
      arith,
      is_type_label_complete l h.0,
      unescape_label_bounds label_max (c ∷ s) e,
      type_generic_loop_complete fuel (label e' sp)
          (omega (arith, unescape_label_bounds label_max (c ∷ s) e)) (cons_ne _ _) h.1,
    )

generic_sound :
    (t : List ℕ)
    → is_valid_service_type_generic t ≡ true
    → (length t < domain_name_max) × ReadsAs IsTypeLabel t
unfolding is_valid_service_type_generic
generic_sound [] e = absurd (ground arith)
generic_sound (c ∷ s) e =
    let n = length (c ∷ s) in
    let both : (n < domain_name_max) × (type_generic_loop n (c ∷ s) ≡ true) = ground arith in
    (both.0, type_generic_loop_sound n c s both.1)

generic_complete :
    (t : List ℕ)
    → (length t < domain_name_max) × ReadsAs IsTypeLabel t
    → is_valid_service_type_generic t ≡ true
unfolding is_valid_service_type_generic
generic_complete [] (lt, (ls, sp, ne, h)) =
    unfold type_generic_loop in absurd (cc (type_generic_loop_complete 0 sp (omega arith) ne h))
generic_complete (c ∷ s) (lt, (ls, sp, ne, h)) =
    ground (arith, type_generic_loop_complete (length (c ∷ s)) sp (omega arith) ne h)

-- `avahi_is_valid_service_type_generic` accepts exactly the strings shorter than a domain name may be
-- that read as one label or more, each of more than two bytes with an underscore in front.
pub is_valid_service_type_generic_iff :
    (t : List ℕ)
    → (is_valid_service_type_generic t ≡ true)
      ↔ ((length t < domain_name_max) × ReadsAs IsTypeLabel t)
is_valid_service_type_generic_iff t = (generic_sound t, generic_complete t)

domain_name_loop_sound :
    (fuel c : ℕ) (s : List ℕ)
    → domain_name_loop fuel (c ∷ s) false ≡ true
    → ReadsAs NonEmpty (c ∷ s)
unfolding domain_name_loop
domain_name_loop_sound zero c s e = absurd (cc)
domain_name_loop_sound (suc fuel) c s e = elim (Option-cases (unescape_label label_max (c ∷ s))) [
  | inl stop ↦ absurd (ground (arith, stop))
  | inr (([], rest), found) ↦ absurd (ground (arith, found))
  | inr ((x ∷ l, []), found) ↦ label-ReadsAs NonEmpty found (cons_ne_nil x l) (inl refl)
  | inr ((x ∷ l, d ∷ t), found) ↦
      label-ReadsAs NonEmpty found (cons_ne_nil x l)
        (inr (domain_name_loop_sound fuel d t (ground (arith, found))))
]

domain_name_loop_complete :
    (fuel : ℕ) {t : List ℕ} {ls : List (List ℕ)} (first : Bool)
    → Splits t ls
    → length t ≤ fuel
    → ls ≢ []
    → All NonEmpty ls
    → domain_name_loop fuel t first ≡ true
unfolding domain_name_loop
domain_name_loop_complete fuel first end le ne h = absurd (ne refl)
domain_name_loop_complete zero first (label e sp) le ne h = absurd (omega arith)
domain_name_loop_complete (suc fuel) first (label {l = []} e sp) le ne h = absurd (h.0 refl)
domain_name_loop_complete (suc fuel) first (label {c} {s} {l = x ∷ l} e end) le ne h = ground arith
domain_name_loop_complete (suc fuel) first
      (label {c} {s} {l = x ∷ l} e (label {c = d} {s = t} e' sp)) le ne h =
    ground (
      arith,
      domain_name_loop_complete fuel false (label e' sp)
          (omega (arith, unescape_label_bounds label_max (c ∷ s) e)) (cons_ne _ _) h.1,
    )

-- The root domain: nothing, or a single dot.
abbrev pub IsRoot : List ℕ → Type 0
IsRoot t = unescape_label label_max t ≡ some ([], [])

domain_first :
    (fuel : ℕ) (t : List ℕ)
    → domain_name_loop (suc fuel) t true ≡ true
    → IsRoot t ⊎ ReadsAs NonEmpty t
unfolding domain_name_loop
domain_first fuel [] e = inl (unescape_label_nil label_max (omega arith))
domain_first fuel (c ∷ s) e = elim (Option-cases (unescape_label label_max (c ∷ s))) [
  | inl stop ↦ absurd (ground (arith, stop))
  | inr (([], []), found) ↦ inl found
  | inr (([], d ∷ t), found) ↦ absurd (ground (arith, found))
  | inr ((x ∷ l, []), found) ↦ inr (label-ReadsAs NonEmpty found (cons_ne_nil x l) (inl refl))
  | inr ((x ∷ l, d ∷ t), found) ↦ inr (
      label-ReadsAs NonEmpty found (cons_ne_nil x l)
        (inr (domain_name_loop_sound fuel d t (ground (arith, found)))))
]

domain_complete :
    (t : List ℕ) → IsRoot t ⊎ ReadsAs NonEmpty t → domain_name_loop (suc (length t)) t true ≡ true
domain_complete t (inl root) = unfold domain_name_loop in ground (arith, root)
domain_complete t (inr (ls, sp, ne, h)) =
    domain_name_loop_complete (suc (length t)) true sp (omega arith) ne h

-- `avahi_is_valid_domain_name` accepts exactly the strings shorter than a domain name may be that are
-- the root domain or read as one label or more, none of them empty.
pub is_valid_domain_name_iff :
    (t : List ℕ)
    → (is_valid_domain_name t ≡ true)
      ↔ ((length t < domain_name_max) × (IsRoot t ⊎ ReadsAs NonEmpty t))
unfolding is_valid_domain_name
is_valid_domain_name_iff t = (
  (λ e.
      let both : (length t < domain_name_max) × (domain_name_loop (suc (length t)) t true ≡ true) =
        ground arith in
      (both.0, domain_first (length t) t both.1)),
  (λ h. ground (arith, domain_complete t h.1)),
)

pub is_valid_service_name_of :
    (t : List ℕ) → t ≢ [] → length t < label_max → is_valid_service_name t ≡ true
unfolding is_valid_service_name
is_valid_service_name_of [] ne h = absurd (ne refl)
is_valid_service_name_of (c ∷ t) ne h = ground arith
