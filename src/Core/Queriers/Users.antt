-- ===== src/Core/Queriers/Users.antt =====
-- avahi-core/querier.c: how many browse for a key.
use nvmrdisplay.Prelude.{
  ℕ, ◌≡◌, refl, sym, ap, ◌∙◌, arith, Bool, true, false, Option, none, some, List, [], ◌∷◌, All,
}
use nvmrdisplay.Prelude.{if◌then◌else◌, if_rule, Bool-cases, inl, inr}
use nvmrdisplay.Core.Queriers.{Querier, lookup, change, querier_free}

-- Equality of keys is an equivalence.
pub record IsEquality {Key : Type 0} (key_equal : Key → Key → Bool) : Type 0 where
  pub reflexive : (a : Key) → key_equal a a ≡ true
  pub symmetric : (a b : Key) → key_equal a b ≡ key_equal b a
  pub transitive : (a b c : Key) → key_equal a b ≡ true → key_equal a c ≡ key_equal b c

module _ {Key : Type 0} (key_equal : Key → Key → Bool) (laws : IsEquality key_equal) where
  open laws use {reflexive, symmetric, transitive}

  -- How often a key is in use, by the hash table.
  abbrev pub uses : Option (Querier Key) → ℕ
  uses none = 0
  uses (some q) = q.n_used

  abbrev pub users : Key → List (Querier Key) → ℕ
  users k l = uses (lookup key_equal k l)

  abbrev pub Absent : Key → List (Querier Key) → Type 0
  Absent k = All λ q. key_equal q.key k ≡ false

  -- The hash table has one querier for a key at most.
  abbrev pub Distinct : List (Querier Key) → Type 0
  Distinct [] = Unit
  Distinct (q ∷ l) = Absent q.key l × Distinct l

  -- A key is found like one that is equal to it.
  pub lookup-equal :
      (k m : Key) (l : List (Querier Key))
      → key_equal k m ≡ true
      → lookup key_equal k l ≡ lookup key_equal m l
  unfolding lookup
  lookup-equal k m [] e = refl
  lookup-equal k m (q ∷ l) e =
      ground
        (arith, lookup-equal k m l e, transitive k m q.key e, symmetric q.key k, symmetric q.key m)

  pub users-change :
      (k m : Key) (f : Querier Key → Querier Key) (l : List (Querier Key)) {q : Querier Key}
      → ((p : Querier Key) → (f p).key ≡ p.key)
      → lookup key_equal k l ≡ some q
      → users m (change key_equal k f l) ≡ (if key_equal k m then (f q).n_used else users m l)
  unfolding lookup change
  users-change k m f [] same e = cc
  users-change k m f (p ∷ l) {q} same e = elim (Bool-cases (key_equal p.key k)) [
    | inl t ↦
        let is_q : p ≡ q = ground (arith, t, e) in
        let like : key_equal p.key m ≡ key_equal k m = transitive p.key k m t in
        rw (t, ← is_q) (ground (arith, like, same p))
    | inr n ↦ ground (
      arith,
      n,
      users-change k m f l {q = q} same (ground (arith, n, e)),
      transitive p.key m k,
      symmetric m k,
    )
  ]

  pub lookup-none : (k : Key) (l : List (Querier Key)) → Absent k l → lookup key_equal k l ≡ none
  unfolding lookup
  lookup-none k [] a = refl
  lookup-none k (q ∷ l) a = rw (a.0, lookup-none k l a.1) refl

  pub users-querier_free :
      (k m : Key) (l : List (Querier Key))
      → Distinct l
      → users m (querier_free key_equal k l) ≡ (if key_equal k m then 0 else users m l)
  unfolding lookup querier_free
  users-querier_free k m [] d = ground arith
  users-querier_free k m (p ∷ l) d = elim (Bool-cases (key_equal p.key k)) [
    | inl t ↦
        let like : key_equal p.key m ≡ key_equal k m = transitive p.key k m t in
        rw t (elim (Bool-cases (key_equal k m)) [
          | inl c ↦
              rw c (ap uses (sym (lookup-equal p.key m l (like ∙ c)) ∙ lookup-none p.key l d.0))
          | inr c ↦ ground (arith, c, like)
        ])
    | inr n ↦ ground (arith, n, users-querier_free k m l d.1, transitive p.key m k, symmetric m k)
  ]

  pub lookup-Absent : (k : Key) (l : List (Querier Key)) → lookup key_equal k l ≡ none → Absent k l
  unfolding lookup
  lookup-Absent k [] e = tt
  lookup-Absent k (q ∷ l) e = elim (Bool-cases (key_equal q.key k)) [
    | inl t ↦ absurd (ground (arith, t, e))
    | inr f ↦ (f, lookup-Absent k l (ground (arith, f, e)))
  ]

  pub All-change :
      (P : Querier Key → Type 0) (k : Key) (f : Querier Key → Querier Key) (l : List (Querier Key))
      → ((p : Querier Key) → P p → P (f p))
      → All P l
      → All P (change key_equal k f l)
  unfolding change
  All-change P k f [] keeps a = tt
  All-change P k f (p ∷ l) keeps a =
      if_rule (All P) (key_equal p.key k) (λ t. (keeps p a.0, a.1))
        (λ t. (a.0, All-change P k f l keeps a.1))

  pub change-Distinct :
      (k : Key) (f : Querier Key → Querier Key) (l : List (Querier Key))
      → ((p : Querier Key) → (f p).key ≡ p.key)
      → Distinct l
      → Distinct (change key_equal k f l)
  unfolding change
  change-Distinct k f [] same d = tt
  change-Distinct k f (p ∷ l) same d =
      if_rule Distinct (key_equal p.key k) (λ t. (rw (same p) d.0, d.1))
        (λ t. (
          All-change (λ q. key_equal q.key p.key ≡ false) k f l (λ q a. rw (same q) a) d.0,
          change-Distinct k f l same d.1,
        ))

  pub All-querier_free :
      (P : Querier Key → Type 0) (k : Key) (l : List (Querier Key))
      → All P l
      → All P (querier_free key_equal k l)
  unfolding querier_free
  All-querier_free P k [] a = tt
  All-querier_free P k (p ∷ l) a =
      if_rule (All P) (key_equal p.key k) (λ t. a.1) (λ t. (a.0, All-querier_free P k l a.1))

  pub querier_free-Distinct :
      (k : Key) (l : List (Querier Key)) → Distinct l → Distinct (querier_free key_equal k l)
  unfolding querier_free
  querier_free-Distinct k [] d = tt
  querier_free-Distinct k (p ∷ l) d =
      if_rule Distinct (key_equal p.key k) (λ t. d.1)
        (λ t. (
          All-querier_free (λ q. key_equal q.key p.key ≡ false) k l d.0,
          querier_free-Distinct k l d.1,
        ))
