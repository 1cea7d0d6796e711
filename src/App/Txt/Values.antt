-- ===== src/App/Txt/Values.antt =====
-- What a TXT record says of a key.
use nvmrdisplay.Prelude.{
  ℕ, ◌<◌, ◌≡◌, refl, ◌∙◌, arith, Bool, true, false, ◌&&◌, not, Option, none, some, ap₂,
}
use nvmrdisplay.Prelude.{
  List, [], ◌∷◌, ◌++◌, ◌==◌, if◌then◌else◌, bytes_eq, bytes_eq→eq, All, All-append,
}
use nvmrdisplay.Prelude.{Bool-cases, Option-cases, inl, inr, if_rule}
use nvmrdisplay.App.Txt.{
  Qt, lengthen, split, pair_of, Map, insert, value, txt_entry, txt_loop, txt_map,
}

-- Qt reads bytes of ASCII as the characters that they are.
pub record IsQt (qt : Qt) : Type 0 where
  pub ascii : (s : List ℕ) → All (λ c. c < 128) s → qt.from_local s ≡ s

-- Whether a string holds an equals sign.
abbrev pub has_equals : List ℕ → Bool
has_equals [] = false
has_equals (c ∷ s) = if c == 61 then true else has_equals s

split-plain : (s : List ℕ) → has_equals s ≡ false → split s ≡ s ∷ []
unfolding split
split-plain [] h = refl
split-plain (c ∷ s) h = ground (arith, split-plain s)

-- The parts behind the first are never none.
split-some : (s : List ℕ) → (p : List ℕ) × (ps : List (List ℕ)) × (split s ≡ p ∷ ps)
unfolding split
split-some [] = ([], [], refl)
split-some (c ∷ s) =
    let (p, ps, e) = split-some s in
    if_rule (λ l. (q : List ℕ) × (qs : List (List ℕ)) × (l ≡ q ∷ qs)) (c == 61)
      (λ t. ([], split s, refl)) (λ f. (c ∷ p, ps, rw e refl))

split-equals :
    (s : List ℕ)
    → has_equals s ≡ true
    → (p q : List ℕ) × (ps : List (List ℕ)) × (split s ≡ p ∷ q ∷ ps)
unfolding split
split-equals [] h = absurd (cc)
split-equals (c ∷ s) h = elim (Bool-cases (c == 61)) [
  | inl t ↦ let (p, ps, e) = split-some s in ([], p, ps, rw (t, e) refl)
  | inr f ↦ let (p, q, ps, e) = split-equals s (ground (arith, f)) in (c ∷ p, q, ps, rw (f, e) refl)
]

split-pair : (k v : List ℕ) → has_equals k ≡ false → split (k ++ (61 ∷ v)) ≡ k ∷ split v
unfolding split
split-pair [] v h = refl
split-pair (c ∷ k) v h = ground (arith, split-pair k v)

abbrev pub or_else : Option (List ℕ) → Option (List ℕ) → Option (List ℕ)
or_else (some v) d = some v
or_else none d = d

later : (l d : Option (List ℕ)) → or_else l d ≡ or_else (or_else l none) d
later none d = refl
later (some v) d = refl

earlier :
    (l : Option (List ℕ)) (b : Bool) (w : List ℕ) (d : Option (List ℕ))
    → or_else l (if b then some w else d) ≡ or_else (or_else l (if b then some w else none)) d
earlier none true w d = refl
earlier none false w d = refl
earlier (some v) b w d = refl

same_if :
    {A : Type 0} (b : Bool) (x y z : A)
    → (if b then x else z) ≡ (if b then x else if b then y else z)
same_if b x y z = ground arith

-- Keys that differ do not both match.
pub differ : (i j k : List ℕ) → bytes_eq i j ≡ false → bytes_eq i k ≡ true → bytes_eq j k ≡ false
differ i j k f t = elim (Bool-cases (bytes_eq j k)) [
  | inl s ↦ absurd (cc (bytes_eq→eq j k s))
  | inr g ↦ g
]

pub or_else-none : (l : Option (List ℕ)) → or_else l none ≡ l
or_else-none none = refl
or_else-none (some v) = refl

-- What stands behind a key without an equals sign, and the one equals sign of a text.
abbrev pub behind : List ℕ → List ℕ → Option (List ℕ)
behind k [] = none
behind [] (c ∷ s) = if c == 61 && not (has_equals s) then some s else none
behind (x ∷ k) (c ∷ s) = if x == c then behind k s else none

abbrev pub said : List ℕ → List ℕ → Option (List ℕ)
said k s = if has_equals k then none else behind k s

-- What the program takes of a pair for a key.
abbrev match : List ℕ → Option (List ℕ × List ℕ) → Option (List ℕ)
match k none = none
match k (some (j, w)) = if bytes_eq j k then some w else none

match-lengthen :
    (c x : ℕ) (k : List ℕ) (ps : List (List ℕ))
    → match (x ∷ k) (pair_of (lengthen c ps)) ≡ (if x == c then match k (pair_of ps) else none)
match-lengthen c x k [] = ground arith
match-lengthen c x k (p ∷ []) = ground arith
match-lengthen c x k (p ∷ q ∷ []) = ground arith
match-lengthen c x k (p ∷ q ∷ r ∷ ps) = ground arith

nothing_matches : (c : ℕ) (ps : List (List ℕ)) → match [] (pair_of (lengthen c ps)) ≡ none
nothing_matches c [] = refl
nothing_matches c (p ∷ []) = refl
nothing_matches c (p ∷ q ∷ []) = refl
nothing_matches c (p ∷ q ∷ r ∷ ps) = refl

pair_of-split :
    (s : List ℕ) → pair_of ([] ∷ split s) ≡ (if has_equals s then none else some ([], s))
pair_of-split s = elim (Bool-cases (has_equals s)) [
  | inl t ↦ let (p, q, ps, e) = split-equals s t in rw (t, e) refl
  | inr f ↦ rw (f, split-plain s f) refl
]

match-split : (k s : List ℕ) → match k (pair_of (split s)) ≡ said k s
unfolding split
match-split k [] = ground arith
match-split [] (c ∷ s) = elim (Bool-cases (c == 61)) [
  | inl t ↦ rw (t, pair_of-split s) (ground arith)
  | inr f ↦ rw f (nothing_matches c (split s))
]
match-split (x ∷ k) (c ∷ s) = elim (Bool-cases (c == 61)) [
  | inl t ↦ rw (t, pair_of-split s) (ground arith)
  | inr f ↦ rw (f, match-lengthen c x k (split s), match-split k s) (ground arith)
]

module _ (qt : Qt) where
  -- The value in the last of the strings that is made of the key, one equals sign and a value.
  abbrev pub last_value : List ℕ → List (List ℕ) → Option (List ℕ)
  last_value k [] = none
  last_value k (text ∷ texts) = or_else (last_value k texts) (elim (txt_entry qt text) [
    | none ↦ none
    | some (j, w) ↦ if bytes_eq j k then some w else none
  ])

  value-insert :
      (k j v : List ℕ) (m : Map)
      → value k (insert j v m) ≡ (if bytes_eq j k then some v else value k m)
  unfolding value insert
  value-insert k j v [] = refl
  value-insert k j v ((i, w) ∷ m) = elim (Bool-cases (bytes_eq i j)) [
    | inl t ↦ rw (t, bytes_eq→eq i j t) (same_if (bytes_eq j k) (some v) (some w) (value k m))
    | inr f ↦ rw f (elim (Bool-cases (bytes_eq i k)) [
      | inl t ↦ rw (t, differ i j k f t) refl
      | inr g ↦ rw g (value-insert k j v m)
    ])
  ]

  value-txt_loop :
      (k : List ℕ) (texts : List (List ℕ)) (m : Map)
      → value k (txt_loop qt texts m) ≡ or_else (last_value k texts) (value k m)
  unfolding txt_loop
  value-txt_loop k [] m = refl
  value-txt_loop k (text ∷ texts) m = elim (Option-cases (txt_entry qt text)) [
    | inl stop ↦
        rw (txt_entry, stop, value-txt_loop k texts m) (later (last_value k texts) (value k m))
    | inr ((j, w), found) ↦
        rw (txt_entry, found, value-txt_loop k texts (insert j w m), value-insert k j w m)
          (earlier (last_value k texts) (bytes_eq j k) w (value k m))
  ]

  pub value-last_value :
      (k : List ℕ) (texts : List (List ℕ)) → value k (txt_map qt texts) ≡ last_value k texts
  unfolding txt_map value
  value-last_value k texts = value-txt_loop k texts [] ∙ or_else-none (last_value k texts)

  -- The value in the last of the strings that say something of the key.
  abbrev pub last_said : List ℕ → List (List ℕ) → Option (List ℕ)
  last_said k [] = none
  last_said k (text ∷ texts) = or_else (last_said k texts) (said k (qt.from_local text))

  last_value-last_said :
      (k : List ℕ) (texts : List (List ℕ)) → last_value k texts ≡ last_said k texts
  unfolding txt_entry
  last_value-last_said k [] = refl
  last_value-last_said k (text ∷ texts) =
      ap₂ or_else (last_value-last_said k texts) (match-split k (qt.from_local text))

  -- The map that the program makes of a TXT record has for a key the value in the last of the strings
  -- that are, as Qt reads them, the key, an equals sign and a value, with no other equals sign; it lacks
  -- the key if there is none.
  pub value-txt_map :
      (k : List ℕ) (texts : List (List ℕ)) → value k (txt_map qt texts) ≡ last_said k texts
  value-txt_map k texts = value-last_value k texts ∙ last_value-last_said k texts

-- A string of ASCII characters that a sender makes of a key and a value, with an equals sign between
-- them, is read as the key and the value if the value holds no equals sign, and else it is left out.
pub txt_entry-pair :
    (qt : Qt) (k v : List ℕ)
    → IsQt qt
    → All (λ c. c < 128) k
    → All (λ c. c < 128) v
    → has_equals k ≡ false
    → txt_entry qt (k ++ (61 ∷ v)) ≡ (if has_equals v then none else some (k, v))
unfolding txt_entry
txt_entry-pair qt k v h ak av plain =
    let text : qt.from_local (k ++ (61 ∷ v)) ≡ k ++ (61 ∷ v) =
      h.ascii (k ++ (61 ∷ v)) (All-append (λ c. c < 128) k (61 ∷ v) ak (omega arith, av)) in
    rw (text, split-pair k v plain)
      (elim (Bool-cases (has_equals v)) [
        | inl t ↦ let (p, q, ps, e) = split-equals v t in rw (t, e) refl
        | inr f ↦ rw (f, split-plain v f) refl
      ])
