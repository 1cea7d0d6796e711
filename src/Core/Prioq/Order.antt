-- ===== src/Core/Prioq/Order.antt =====
-- The order of the queue: no node is behind its children, so that the root is a least one.
use nvmrdisplay.Prelude.{ℕ, zero, suc, ◌<◌, ◌≤◌, ◌≡◌, ◌≢◌, refl, ap, sym, ◌∙◌, arith, true, false}
use nvmrdisplay.Prelude.{ltb, ◌&&◌, ℕ_discrete, if_rule, ltb-lt}
use nvmrdisplay.Prelude.Int.{ℤ, pos, ltb_ℤ}
use nvmrdisplay.Core.Prioq.{Queue, parent, exchange_nodes, above, shuffle_up}

-- What the queue asks of the comparison.
pub record IsOrder {ℓ} {A : Type ℓ} (compare : A → A → ℤ) : Type ℓ where
  pub swap : (a b : A) → ltb_ℤ (compare a b) (pos 0) ≡ ltb_ℤ (pos 0) (compare b a)
  pub trans :
      (a b c : A)
      → above compare a b ≡ false
      → above compare b c ≡ false
      → above compare a c ≡ false

module _ {ℓ} {A : Type ℓ} where
  pub exchanged_there : (a b : ℕ) (q : Queue A) → (exchange_nodes a b q).node b ≡ q.node a
  exchanged_there a b q = ground arith

  pub exchanged_here : (a b : ℕ) (q : Queue A) → a ≢ b → (exchange_nodes a b q).node a ≡ q.node b
  exchanged_here a b q ne = ground (arith, ne)

  pub exchanged_else :
      (a b k : ℕ) (q : Queue A) → k ≢ a → k ≢ b → (exchange_nodes a b q).node k ≡ q.node k
  exchanged_else a b k q na nb = ground (arith, na, nb)

module _ {ℓ} {A : Type ℓ} (compare : A → A → ℤ) where
  -- a may stand in front of b.
  abbrev pub Le : A → A → Type 0
  Le a b = above compare a b ≡ false

  -- No node is behind a child of it.
  abbrev pub IsHeap : Queue A → Type 0
  IsHeap q = (k : ℕ) → 0 < k → k < q.n_nodes → Le (q.node (parent k)) (q.node k)

  -- The same but at the node i.
  pub record IsHeapBut (i : ℕ) (q : Queue A) : Type 0 where
    pub edges :
        (k : ℕ) → 0 < k → k < q.n_nodes → k ≢ i → parent k ≢ i → Le (q.node (parent k)) (q.node k)
    pub around :
        (k : ℕ) → 0 < i → 0 < k → k < q.n_nodes → parent k ≡ i → Le (q.node (parent i)) (q.node k)

  pub le_at : {a b x y : A} → x ≡ a → y ≡ b → Le a b → Le x y
  le_at e f h = rw (e, f) h

  module _ (h : IsOrder compare) where
    -- The node i goes up.
    pub up-IsHeapBut :
        (i : ℕ) (q : Queue A)
        → 0 < i
        → i < q.n_nodes
        → IsHeapBut i q
        → IsHeapBut (parent i) (exchange_nodes i (parent i) q)
    up-IsHeapBut i q low high v = record {
      edges = λ k kl kh nk np. elim (ℕ_discrete (parent k) i) [
        | yes e ↦
            le_at
              (ap (exchange_nodes i (parent i) q).node e
                ∙ exchanged_here i (parent i) q (omega arith))
              (exchanged_else i (parent i) k q (omega arith) nk) (v.around k low kl kh e)
        | no ne ↦
            le_at (exchanged_else i (parent i) (parent k) q ne np)
              (exchanged_else i (parent i) k q (λ e. np (ap parent e)) nk)
              (v.edges k kl kh (λ e. np (ap parent e)) ne)
      ];
      around = λ k pl kl kh e.
          le_at (exchanged_else i (parent i) (parent (parent i)) q (omega arith) (omega arith)) refl
            (elim (ℕ_discrete k i) [
              | yes s ↦
                  le_at refl
                    (ap (exchange_nodes i (parent i) q).node s
                      ∙ exchanged_here i (parent i) q (omega arith))
                    (v.edges (parent i) pl (omega arith) (omega arith) (omega arith))
              | no ns ↦ le_at refl (exchanged_else i (parent i) k q ns (omega arith)) (
                  h.trans (q.node (parent (parent i))) (q.node (parent i)) (q.node k)
                    (v.edges (parent i) pl (omega arith) (omega arith) (omega arith))
                    (le_at (ap q.node (sym e)) refl (v.edges k kl kh ns (omega arith))))
            ]);
    }

    pub le_refl : (a : A) → Le a a
    le_refl a = ground (arith, h.swap a a)

    pub le_of_above : (a b : A) → above compare a b ≡ true → Le b a
    le_of_above a b t = ground (arith, h.swap a b, t)

    pub shuffle_up-IsHeapBut :
        (fuel i : ℕ) (q : Queue A)
        → i ≤ fuel
        → i < q.n_nodes
        → IsHeapBut i q
        → let (j, r) = shuffle_up compare fuel i q in
          (j < r.n_nodes)
          × (r.n_nodes ≡ q.n_nodes)
          × IsHeapBut j r
          × (0 < j → Le (r.node (parent j)) (r.node j))
    unfolding shuffle_up
    shuffle_up-IsHeapBut zero i q fuel_lem low v = (low, refl, v, λ p. absurd (omega arith))
    shuffle_up-IsHeapBut (suc fuel) i q enough low v =
        if_rule {A = ℕ × Queue A}
          (λ s.
            let (j, r) = s in
            (j < r.n_nodes)
            × (r.n_nodes ≡ q.n_nodes)
            × IsHeapBut j r
            × (0 < j → Le (r.node (parent j)) (r.node j)))
          (ltb 0 i && above compare (q.node (parent i)) (q.node i))
          (λ t.
            let r = exchange_nodes i (parent i) q in
            shuffle_up-IsHeapBut fuel (parent i) r (ground (arith, t)) (omega arith)
              (up-IsHeapBut i q (ground (arith, t)) low v))
          (λ f. (low, refl, v, λ p. ground (arith, f, ltb-lt 0 i p)))
