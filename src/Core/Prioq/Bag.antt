-- ===== src/Core/Prioq/Bag.antt =====
-- The nodes of the queue as a bag: how many of them pass a test.
use nvmrdisplay.Prelude.{
  ℕ, zero, suc, ◌+◌, ◌-◌, ◌<◌, ◌≤◌, ◌≡◌, ◌≢◌, refl, ap, sym, ◌∙◌, arith, Bool, false,
}
use nvmrdisplay.Prelude.{
  ltb, leb, ◌&&◌, if◌then◌else◌, ℕ_discrete, ==_false, if_rule, predecessor, ==_self,
}
use mathlib.Core.Path.{subst}
use nvmrdisplay.Prelude.Int.{ℤ}
use nvmrdisplay.Core.Prioq.{
  Queue, parent, left, set_node, exchange_nodes, above, smaller, shuffle_up,
}
use nvmrdisplay.Core.Prioq.{shuffle_down, shuffle, put, remove}

module _ {ℓ} {A : Type ℓ} (test : A → Bool) where
  abbrev pub one_if : Bool → ℕ
  one_if b = if b then 1 else 0

  abbrev pub passing : ℕ → (ℕ → A) → ℕ
  passing zero f = 0
  passing (suc n) f = one_if (test (f n)) + passing n f

  -- How many nodes pass the test.
  abbrev pub count : Queue A → ℕ
  count q = passing q.n_nodes q.node

  passing-beyond : (n i : ℕ) (v : A) (f : ℕ → A) → n ≤ i → passing n (set_node i v f) ≡ passing n f
  passing-beyond zero i v f h = refl
  passing-beyond (suc n) i v f h = ground (arith, passing-beyond n i v f (omega arith))

  passing-set_last :
      (n : ℕ) (v : A) (f : ℕ → A)
      → passing (suc n) (set_node n v f) + one_if (test (f n)) ≡ passing (suc n) f + one_if (test v)
  passing-set_last n v f = ground (arith, passing-beyond n n v f (omega arith))

  passing-set_node :
      (n i : ℕ) (v : A) (f : ℕ → A)
      → i < n
      → passing n (set_node i v f) + one_if (test (f i)) ≡ passing n f + one_if (test v)
  passing-set_node zero i v f h = absurd (omega arith)
  passing-set_node (suc n) i v f h = elim (ℕ_discrete i n) [
    | yes e ↦
        subst
          (λ k.
            passing (suc n) (set_node k v f) + one_if (test (f k))
            ≡ passing (suc n) f + one_if (test v))
          (sym e) (passing-set_last n v f)
    | no ne ↦ ground (arith, passing-set_node n i v f (omega arith))
  ]

  passing-exchange_nodes :
      (n a b : ℕ) (q : Queue A)
      → a < n
      → b < n
      → a ≢ b
      → passing n (exchange_nodes a b q).node ≡ passing n q.node
  passing-exchange_nodes n a b q ha hb ne =
      let moved = set_node a (q.node b) q.node in
      let other : moved b ≡ q.node b = rw (==_false b a (λ e. ne (sym e))) refl in
      let first = passing-set_node n a (q.node b) q.node ha in
      let second = passing-set_node n b (q.node a) moved hb in
      omega (arith, first, second, ap (λ v. one_if (test v)) other)

  passing-put :
      (n : ℕ) (v : A) (f : ℕ → A) → passing (n + 1) (set_node n v f) ≡ one_if (test v) + passing n f
  passing-put n v f = ground (arith, passing-beyond n n v f (omega arith))

  passing_last :
      (n : ℕ) (f : ℕ → A) → 0 < n → one_if (test (f (n - 1))) + passing (n - 1) f ≡ passing n f
  passing_last zero f h = absurd (omega arith)
  passing_last (suc n) f h = ap (λ k. one_if (test (f k)) + passing k f) (predecessor n)

  -- A queue of as many nodes, and of as many that pass the test.
  pub record IsSame (q r : Queue A) : Type 0 where
    pub size : r.n_nodes ≡ q.n_nodes
    pub counted : count r ≡ count q

  exchange_nodes-IsSame :
      (a b : ℕ) (q : Queue A)
      → a < q.n_nodes
      → b < q.n_nodes
      → a ≢ b
      → IsSame q (exchange_nodes a b q)
  exchange_nodes-IsSame a b q ha hb ne = record {
    size = refl;
    counted = passing-exchange_nodes q.n_nodes a b q ha hb ne;
  }

  IsSame-trans : {q r s : Queue A} → IsSame q r → IsSame r s → IsSame q s
  IsSame-trans h g = record { size = g.size ∙ h.size; counted = g.counted ∙ h.counted }

  IsSame-refl : (q : Queue A) → IsSame q q
  IsSame-refl q = record { size = refl; counted = refl }

  module _ (compare : A → A → ℤ) where
    smaller_bounds :
        (i : ℕ) (q : Queue A)
        → leb q.n_nodes (left i) ≡ false
        → (smaller compare i q < q.n_nodes) × (i ≢ smaller compare i q)
    smaller_bounds i q f = (ground (arith, f), ground (arith, f))

    shuffle_up-IsSame :
        (fuel i : ℕ) (q : Queue A)
        → i < q.n_nodes
        → ((shuffle_up compare fuel i q).0 < q.n_nodes) × IsSame q (shuffle_up compare fuel i q).1
    unfolding shuffle_up
    shuffle_up-IsSame zero i q h = (h, IsSame-refl q)
    shuffle_up-IsSame (suc fuel) i q h =
        if_rule {A = ℕ × Queue A} (λ r. (r.0 < q.n_nodes) × IsSame q r.1)
          (ltb 0 i && above compare (q.node (parent i)) (q.node i))
          (λ t.
            let r = exchange_nodes i (parent i) q in
            let (low, same) = shuffle_up-IsSame fuel (parent i) r (omega arith) in
            let first = exchange_nodes-IsSame i (parent i) q h (omega arith) (ground (arith, t)) in
            (low, IsSame-trans first same))
          (λ f. (h, IsSame-refl q))

    shuffle_down-IsSame :
        (fuel i : ℕ) (q : Queue A) → i < q.n_nodes → IsSame q (shuffle_down compare fuel i q)
    unfolding shuffle_down
    shuffle_down-IsSame zero i q h = IsSame-refl q
    shuffle_down-IsSame (suc fuel) i q h =
        if_rule (λ r. IsSame q r) (leb q.n_nodes (left i)) (λ t. IsSame-refl q)
          (λ f.
            if_rule (λ r. IsSame q r) (above compare (q.node i) (q.node (smaller compare i q)))
              (λ t.
                let m = smaller compare i q in
                let (low, ne) = smaller_bounds i q f in
                IsSame-trans (exchange_nodes-IsSame i m q h low ne)
                  (shuffle_down-IsSame fuel m (exchange_nodes i m q) low))
              (λ g. IsSame-refl q))

    shuffle-IsSame : (i : ℕ) (q : Queue A) → i < q.n_nodes → IsSame q (shuffle compare i q)
    unfolding shuffle
    shuffle-IsSame i q h =
        let (low, same) = shuffle_up-IsSame i i q h in
        let (j, r) = shuffle_up compare i i q in
        IsSame-trans same (shuffle_down-IsSame q.n_nodes j r (omega (arith, low, same.size)))

    -- Of the nodes with any property a new one makes one more if it has the property, and else as many.
    pub count-put : (v : A) (q : Queue A) → count (put compare v q) ≡ one_if (test v) + count q
    unfolding put
    count-put v q =
        let r : Queue A = record { n_nodes = q.n_nodes + 1; node = set_node q.n_nodes v q.node } in
        (shuffle-IsSame q.n_nodes r (omega arith)).counted ∙ passing-put q.n_nodes v q.node

    -- Of the nodes with any property there is one less when one with it is removed, and else as many.
    pub count-remove :
        (i : ℕ) (q : Queue A)
        → i < q.n_nodes
        → one_if (test (q.node i)) + count (remove compare i q) ≡ count q
    unfolding remove
    count-remove i q h = elim (ℕ_discrete i (q.n_nodes - 1)) [
      | yes e ↦ rw e (rw (==_self (q.n_nodes - 1)) (passing_last q.n_nodes q.node (omega arith)))
      | no ne ↦
          let last = q.n_nodes - 1 in
          let r : Queue A = record (exchange_nodes last i q) { n_nodes = last } in
          let there : (exchange_nodes last i q).node last ≡ q.node i =
            rw (==_false last i (λ e. ne (sym e)), ==_self last) refl in
          rw (==_false i last ne) (
            omega (
              arith,
              (shuffle-IsSame i r (omega (arith, ne))).counted,
              passing_last q.n_nodes (exchange_nodes last i q).node (omega arith),
              passing-exchange_nodes q.n_nodes last i q (omega arith) h (λ e. ne (sym e)),
              ap (λ v. one_if (test v)) there,
            ))
    ]
