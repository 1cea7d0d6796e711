-- ===== src/Core/Cache/Invariant.antt =====
-- What every operation of the cache keeps: the count is right, no record is held twice, the limit holds.
use nvmrdisplay.Prelude.{suc, ◌≡◌, refl, ap, arith}
use nvmrdisplay.Prelude.{Bool, true, false, some, List, [], ◌∷◌, length, All}
use nvmrdisplay.Prelude.{Bool-cases, Option-cases, inl, inr, ◌⊎◌}
use nvmrdisplay.Core.Cache.{Ops, Entry, Cache, World}
use nvmrdisplay.Core.Cache.{expire_in_one_second, update_first, flush_older}

-- Equality of records is an equivalence, and equal records have equal keys.
pub record IsOps {Rec Key Addr : Type 0} (o : Ops Rec Key Addr) : Type 0 where
  pub record_refl : (a : Rec) → o.record_equal a a ≡ true
  pub record_sym : (a b : Rec) → o.record_equal a b ≡ o.record_equal b a
  pub record_trans :
      (a b c : Rec) → o.record_equal a b ≡ true → o.record_equal a c ≡ o.record_equal b c
  pub record_key : (a b : Rec) → o.record_equal a b ≡ true → o.key_equal (o.key a) (o.key b) ≡ true

module _ {Rec Key Addr : Type 0} (o : Ops Rec Key Addr) (h : IsOps o) where
  open o use {key, ttl, key_equal, record_equal, is_pattern}

  abbrev pub recs : List (Entry Rec Addr) → List Rec
  recs [] = []
  recs (e ∷ es) = e.rec ∷ recs es

  abbrev pub Differs : Rec → List Rec → Type 0
  Differs r rs = All (λ s. record_equal r s ≡ false) rs

  abbrev pub Distinct : List Rec → Type 0
  Distinct [] = Unit {0}
  Distinct (r ∷ rs) = Differs r rs × Distinct rs

  pub record IsValid (c : Cache Rec Addr) : Type 0 where
    pub counted : c.n_entries ≡ length c.entries
    pub distinct : Distinct (recs c.entries)

  pub length-recs : (es : List (Entry Rec Addr)) → length (recs es) ≡ length es
  length-recs [] = refl
  length-recs (e ∷ es) = ap suc (length-recs es)

  pub flush_older-recs :
      (w : World) (k : Key) (es : List (Entry Rec Addr)) → recs (flush_older o w k es) ≡ recs es
  unfolding flush_older expire_in_one_second
  flush_older-recs w k [] = refl
  flush_older-recs w k (e ∷ es) = ground (arith, flush_older-recs w k es)

  -- The first entry that passes is changed, and the others are not.
  pub update_first_cons :
      (test : Entry Rec Addr → Bool) (f : Entry Rec Addr → Entry Rec Addr) (e : Entry Rec Addr)
      (es l : List (Entry Rec Addr))
      → update_first o test f (e ∷ es) ≡ some l
      → ((test e ≡ true) × (l ≡ f e ∷ es))
        ⊎ ((m : List (Entry Rec Addr)) × (update_first o test f es ≡ some m) × (l ≡ e ∷ m))
  unfolding update_first
  update_first_cons test f e es l q = elim (Bool-cases (test e)) [
    | inl t ↦ inl (t, ground (arith, t))
    | inr n ↦ elim (Option-cases (update_first o test f es)) [
      | inl stop ↦ absurd (ground (arith, n, stop))
      | inr (m, go) ↦ inr (m, go, ground (arith, n, go))
    ]
  ]

  pub update_first-recs :
      (test : Entry Rec Addr → Bool) (f : Entry Rec Addr → Entry Rec Addr)
      (es l : List (Entry Rec Addr))
      → ((e : Entry Rec Addr) → (f e).rec ≡ e.rec)
      → update_first o test f es ≡ some l
      → recs l ≡ recs es
  update_first-recs test f [] l k q = unfold update_first in absurd (cc)
  update_first-recs test f (e ∷ es) l k q = elim (update_first_cons test f e es l q) [
    | inl (t, same) ↦ rw (same, k e)
    | inr (m, go, same) ↦ rw (same, update_first-recs test f es m k go)
  ]

  pub length-update_first :
      (test : Entry Rec Addr → Bool) (f : Entry Rec Addr → Entry Rec Addr)
      (es l : List (Entry Rec Addr))
      → update_first o test f es ≡ some l
      → length l ≡ length es
  length-update_first test f [] l q = unfold update_first in absurd (cc)
  length-update_first test f (e ∷ es) l q = elim (update_first_cons test f e es l q) [
    | inl (t, same) ↦ rw same
    | inr (m, go, same) ↦ rw (same, length-update_first test f es m go)
  ]

  replace-Differs :
      (s a b : Rec) → record_equal a b ≡ true → record_equal s a ≡ false → record_equal s b ≡ false
  replace-Differs s a b ab sa =
      ground (arith, h.record_trans a b s, h.record_sym s a, h.record_sym s b)

  module _ (r : Rec) (test : Entry Rec Addr → Bool) (f : Entry Rec Addr → Entry Rec Addr)
      (hit : (e : Entry Rec Addr) → test e ≡ true → record_equal e.rec r ≡ true)
      (set : (e : Entry Rec Addr) → (f e).rec ≡ r) where
    replaced-Differs :
        (s : Rec) (es l : List (Entry Rec Addr))
        → update_first o test f es ≡ some l
        → Differs s (recs es)
        → Differs s (recs l)
    replaced-Differs s [] l q d = unfold update_first in absurd (cc)
    replaced-Differs s (e ∷ es) l q d = elim (update_first_cons test f e es l q) [
      | inl (t, same) ↦ rw (same, set e) (replace-Differs s e.rec r (hit e t) d.0, d.1)
      | inr (m, go, same) ↦ rw same (d.0, replaced-Differs s es m go d.1)
    ]

    moved-Differs :
        (a b : Rec) (rs : List Rec) → record_equal a b ≡ true → Differs a rs → Differs b rs
    moved-Differs a b [] ab d = tt
    moved-Differs a b (x ∷ rs) ab d =
        (ground (arith, h.record_trans a b x), moved-Differs a b rs ab d.1)

    pub replaced-Distinct :
        (es l : List (Entry Rec Addr))
        → update_first o test f es ≡ some l
        → Distinct (recs es)
        → Distinct (recs l)
    replaced-Distinct [] l q d = unfold update_first in absurd (cc)
    replaced-Distinct (e ∷ es) l q d = elim (update_first_cons test f e es l q) [
      | inl (t, same) ↦ rw (same, set e) (moved-Differs e.rec r (recs es) (hit e t) d.0, d.1)
      | inr (m, go, same) ↦
          rw same (replaced-Differs e.rec es m go d.0, replaced-Distinct es m go d.1)
    ]
