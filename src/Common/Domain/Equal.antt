-- ===== src/Common/Domain/Equal.antt =====
-- `domain_equal` and `domain_hash` on names.
use nvmrdisplay.Prelude.{
  ℕ, zero, suc, ◌+◌, ◌-◌, ◌≤◌, ◌<◌, ◌≡◌, ◌≢◌, refl, arith, Bool, true, false, none, some,
}
use nvmrdisplay.Prelude.{List, [], ◌∷◌, length, All, Option-cases, inl, inr, is_nil}
use nvmrdisplay.Prelude.{◌&&◌, if◌then◌else◌, ◌^◌, ◌%◌, ◌*◌}
use nvmrdisplay.Prelude.Chars.{strcasecmp_eq, to_lower}
use nvmrdisplay.Prelude.Outcome.{done, abort, stuck}
use nvmrdisplay.Common.Label.{label_max, unescape_label}
use nvmrdisplay.Common.Label.Bounds.{unescape_label_bounds}
use nvmrdisplay.Common.Label.RoundTrip.{unescape_label_nil}
use nvmrdisplay.Common.Domain.{
  equal_loop, domain_equal, char_value, hash_label, hash_loop, domain_hash,
}
use nvmrdisplay.Common.Domain.Splits.{Splits, end, label}

-- Two lists of labels are the same but for the case of ASCII letters.
unfoldable pub labels_equal : List (List ℕ) → List (List ℕ) → Bool
labels_equal [] [] = true
labels_equal [] (m ∷ ms) = false
labels_equal (l ∷ ls) [] = false
labels_equal (l ∷ ls) (m ∷ ms) = strcasecmp_eq l m && labels_equal ls ms

abbrev pub NonEmpty : List ℕ → Type 0
NonEmpty l = l ≢ []

unescape_nil : unescape_label label_max [] ≡ some ([], [])
unescape_nil = unescape_label_nil label_max (omega arith)

equal_step :
    (fuel : ℕ) (a b ca ra cb rb : List ℕ)
    → unescape_label label_max a ≡ some (ca, ra)
    → unescape_label label_max b ≡ some (cb, rb)
    → equal_loop (suc fuel) a b ≡ (
        if strcasecmp_eq ca cb
        then (if is_nil ra && is_nil rb then done true else equal_loop fuel ra rb)
        else done false)
unfolding equal_loop
equal_step fuel a b ca ra cb rb e f = ground arith

equal_abort_left :
    (fuel : ℕ) (a b : List ℕ)
    → unescape_label label_max a ≡ none
    → equal_loop (suc fuel) a b ≡ abort
unfolding equal_loop
equal_abort_left fuel a b e = ground arith

equal_abort_right :
    (fuel : ℕ) (a b ca ra : List ℕ)
    → unescape_label label_max a ≡ some (ca, ra)
    → unescape_label label_max b ≡ none
    → equal_loop (suc fuel) a b ≡ abort
unfolding equal_loop
equal_abort_right fuel a b ca ra e f = ground arith

Splits-nil : {s : List ℕ} {ls : List (List ℕ)} → Splits s ls → is_nil s ≡ is_nil ls
Splits-nil end = refl
Splits-nil (label e h) = refl

nil_vs : (l : List ℕ) → l ≢ [] → strcasecmp_eq [] l ≡ false
nil_vs [] h = absurd (h refl)
nil_vs (c ∷ l) h = refl

vs_nil : (l : List ℕ) → l ≢ [] → strcasecmp_eq l [] ≡ false
vs_nil [] h = absurd (h refl)
vs_nil (c ∷ l) h = refl

labels_equal_nil :
    (la lb : List (List ℕ)) → is_nil la ≡ true → is_nil lb ≡ true → labels_equal la lb ≡ true
unfolding labels_equal
labels_equal_nil [] [] h k = refl
labels_equal_nil [] (m ∷ ms) h k = absurd (cc)
labels_equal_nil (l ∷ ls) lb h k = absurd (cc)

equal_loop-Splits :
    (fuel : ℕ) {a b : List ℕ} {la lb : List (List ℕ)}
    → length a + length b < fuel
    → Splits a la
    → Splits b lb
    → All NonEmpty la
    → All NonEmpty lb
    → equal_loop fuel a b ≡ done (labels_equal la lb)
unfolding labels_equal
equal_loop-Splits zero h sa sb na nb = absurd (omega arith)
equal_loop-Splits (suc fuel) h end end na nb =
    rw (equal_step fuel [] [] [] [] [] [] unescape_nil unescape_nil)
equal_loop-Splits (suc fuel) h end (label {c} {s} {l} {rest} {ls} e sb) na nb =
    rw (equal_step fuel [] (c ∷ s) [] [] l rest unescape_nil e, nil_vs l nb.0)
equal_loop-Splits (suc fuel) h (label {c} {s} {l} {rest} {ls} e sa) end na nb =
    rw (equal_step fuel (c ∷ s) [] l rest [] [] e unescape_nil, vs_nil l na.0)
equal_loop-Splits (suc fuel) h (label {c} {s} {l} {rest} {ls} e sa)
      (label {c = d} {s = t} {l = m} {rest = rest'} {ls = ms} e' sb) na nb =
    rw (equal_step fuel (c ∷ s) (d ∷ t) l rest m rest' e e') (
      ground (
        arith,
        Splits-nil sa,
        Splits-nil sb,
        labels_equal_nil ls ms,
        equal_loop-Splits fuel
            (omega (
              arith,
              unescape_label_bounds label_max (c ∷ s) e,
              unescape_label_bounds label_max (d ∷ t) e',
            ))
            sa sb na.1 nb.1,
      ))

-- On names that read as lists of non-empty labels, `avahi_domain_equal` ends, and says whether the
-- lists are the same but for the case of ASCII letters. (A name with a trailing dot reads as
-- without it.)
pub domain_equal-Splits :
    {a b : List ℕ} {la lb : List (List ℕ)}
    → Splits a la
    → Splits b lb
    → All NonEmpty la
    → All NonEmpty lb
    → domain_equal false a b ≡ done (labels_equal la lb)
unfolding domain_equal
domain_equal-Splits {a} {b} sa sb na nb =
    equal_loop-Splits (suc (length a + length b)) (omega arith) sa sb na nb

hash_label_lower :
    (signed : Bool) (a b : List ℕ) (h : ℕ)
    → strcasecmp_eq a b ≡ true
    → hash_label signed a h ≡ hash_label signed b h
unfolding hash_label
hash_label_lower signed [] [] h e = refl
hash_label_lower signed [] (b ∷ bs) h e = cc
hash_label_lower signed (a ∷ as') [] h e = cc
hash_label_lower signed (a ∷ as') (b ∷ bs) h e =
    ground
      (arith, hash_label_lower signed as' bs ((31 * h + char_value signed (to_lower b)) % 2 ^ 32))

hash_step :
    (signed : Bool) (fuel : ℕ) (a ca ra : List ℕ) (h : ℕ)
    → unescape_label label_max a ≡ some (ca, ra)
    → length a ≤ fuel
    → hash_loop signed fuel a h ≡ hash_loop signed (fuel - 1) ra (hash_label signed ca h)
unfolding hash_loop hash_label
hash_step signed fuel [] ca ra h e le = ground (arith, unescape_nil)
hash_step signed zero (c ∷ s) ca ra h e le = absurd (omega arith)
hash_step signed (suc fuel) (c ∷ s) ca ra h e le = ground arith

hash_loop_nil :
    (signed : Bool) (fuel : ℕ) (s : List ℕ) (h : ℕ)
    → is_nil s ≡ true
    → hash_loop signed fuel s h ≡ done h
unfolding hash_loop
hash_loop_nil signed fuel [] h e = refl
hash_loop_nil signed fuel (c ∷ s) h e = absurd (cc)

hash_loop-equal :
    (signed : Bool) (fuel fa fb : ℕ) (a b : List ℕ) (h : ℕ)
    → equal_loop fuel a b ≡ done true
    → length a ≤ fa
    → length b ≤ fb
    → hash_loop signed fa a h ≡ hash_loop signed fb b h
hash_loop-equal signed zero fa fb a b h e la lb = unfold equal_loop in absurd (cc)
hash_loop-equal signed (suc fuel) fa fb a b h e la lb =
    elim (Option-cases (unescape_label label_max a)) [
      | inl stop ↦ absurd (cc (equal_abort_left fuel a b stop))
      | inr ((ca, ra), ea) ↦ elim (Option-cases (unescape_label label_max b)) [
        | inl stop ↦ absurd (cc (equal_abort_right fuel a b ca ra ea stop))
        | inr ((cb, rb), eb) ↦ ground (
          arith,
          equal_step fuel a b ca ra cb rb ea eb,
          hash_step signed fa a ca ra h ea la,
          hash_step signed fb b cb rb h eb lb,
          hash_label_lower signed ca cb h,
          hash_loop_nil signed (fa - 1) ra (hash_label signed ca h),
          hash_loop_nil signed (fb - 1) rb (hash_label signed cb h),
          unescape_label_bounds label_max a ea,
          unescape_label_bounds label_max b eb,
          hash_loop-equal signed fuel (fa - 1) (fb - 1) ra rb (hash_label signed ca h),
        )
      ]
    ]

-- Names that `avahi_domain_equal` finds equal have one hash, escapes, case and trailing dots
-- notwithstanding, and whether `char` is signed or not.
pub domain_hash-domain_equal :
    (signed : Bool) (a b : List ℕ)
    → domain_equal false a b ≡ done true
    → domain_hash signed a ≡ domain_hash signed b
unfolding domain_equal domain_hash
domain_hash-domain_equal signed a b e =
    hash_loop-equal signed (suc (length a + length b)) (length a) (length b) a b 0 e (omega arith)
      (omega arith)

nil_of_le : (a b : List ℕ) → length a + length b ≤ 0 → (is_nil a && is_nil b) ≡ true
nil_of_le [] [] h = refl
nil_of_le [] (y ∷ b) h = absurd (omega arith)
nil_of_le (x ∷ a) b h = absurd (omega arith)

equal_loop-ne-stuck :
    (fuel : ℕ) (a b : List ℕ) → length a + length b < fuel → equal_loop fuel a b ≢ stuck
equal_loop-ne-stuck zero a b h = absurd (omega arith)
equal_loop-ne-stuck (suc fuel) a b h = elim (Option-cases (unescape_label label_max a)) [
  | inl stop ↦ λ e. cc (equal_abort_left fuel a b stop)
  | inr ((ca, ra), ea) ↦ elim (Option-cases (unescape_label label_max b)) [
    | inl stop ↦ λ e. cc (equal_abort_right fuel a b ca ra ea stop)
    | inr ((cb, rb), eb) ↦ λ e. ground (
      arith,
      equal_step fuel a b ca ra cb rb ea eb,
      unescape_label_bounds label_max a ea,
      unescape_label_bounds label_max b eb,
      nil_of_le ra rb,
      equal_loop-ne-stuck fuel ra rb,
    )
  ]
]

-- The loop of `avahi_domain_equal` ends on every two strings.
pub domain_equal-ne-stuck : (same : Bool) (a b : List ℕ) → domain_equal same a b ≢ stuck
unfolding domain_equal
domain_equal-ne-stuck same a b = ground (arith, equal_loop-ne-stuck (suc (length a + length b)) a b)
