-- ===== src/Core/Prioq/Down.antt =====
-- A node that moves down to its smaller child, until the queue is in order.
use nvmrdisplay.Prelude.{ℕ, zero, suc, ◌+◌, ◌<◌, ◌≤◌, ◌≡◌, refl, ap, sym, ◌∙◌, arith, Bool, true}
use nvmrdisplay.Prelude.{ltb, leb, ◌&&◌, ℕ_discrete, if_rule, ltb-lt}
use nvmrdisplay.Prelude.Int.{ℤ, pos, ltb_ℤ}
use nvmrdisplay.Core.Prioq.{Queue, parent, left, right, exchange_nodes, above, smaller}
use nvmrdisplay.Core.Prioq.{shuffle_down}
use nvmrdisplay.Core.Prioq.Order.{IsOrder, Le, IsHeap, IsHeapBut, le_at, le_refl, le_of_above}
use nvmrdisplay.Core.Prioq.Order.{exchanged_here, exchanged_else, exchanged_there}

module _ {ℓ} {A : Type ℓ} (compare : A → A → ℤ) (h : IsOrder compare) where
  -- What `smaller` answers is a child, and not behind the other child.
  smaller_child :
      (i : ℕ) (q : Queue A)
      → left i < q.n_nodes
      → (parent (smaller compare i q) ≡ i)
        × (smaller compare i q < q.n_nodes)
        × (i < smaller compare i q)
  smaller_child i q low = (ground arith, ground arith, ground arith)

  -- Whether the right child is there and in front of the left one.
  abbrev right_first : ℕ → Queue A → Bool
  right_first i q =
      ltb (right i) q.n_nodes && ltb_ℤ (compare (q.node (right i)) (q.node (left i))) (pos 0)

  smaller_le_left :
      (i : ℕ) (q : Queue A) → Le compare (q.node (smaller compare i q)) (q.node (left i))
  smaller_le_left i q =
      if_rule (λ m. Le compare (q.node m) (q.node (left i))) (right_first i q)
        (λ t.
          le_of_above compare h (q.node (left i)) (q.node (right i))
            (ground (arith, t, h.swap (q.node (right i)) (q.node (left i)))))
        (λ f. le_refl compare h (q.node (left i)))

  smaller_le_right :
      (i : ℕ) (q : Queue A)
      → right i < q.n_nodes
      → Le compare (q.node (smaller compare i q)) (q.node (right i))
  smaller_le_right i q low =
      if_rule (λ m. Le compare (q.node m) (q.node (right i))) (right_first i q)
        (λ t. le_refl compare h (q.node (right i)))
        (λ f.
          ground
            (arith, f, ltb-lt (right i) q.n_nodes low, h.swap (q.node (right i)) (q.node (left i))))

  smaller_le :
      (i k : ℕ) (q : Queue A)
      → left i < q.n_nodes
      → 0 < k
      → k < q.n_nodes
      → parent k ≡ i
      → Le compare (q.node (smaller compare i q)) (q.node k)
  smaller_le i k q low kl kh e = elim (ℕ_discrete k (left i)) [
    | yes s ↦ le_at compare refl (ap q.node s) (smaller_le_left i q)
    | no ns ↦
        let s : k ≡ right i = omega (arith, e, ns) in
        le_at compare refl (ap q.node s) (smaller_le_right i q (omega (arith, s)))
  ]

  -- The node i goes down to its smaller child.
  down-IsHeapBut :
      (i : ℕ) (q : Queue A)
      → left i < q.n_nodes
      → IsHeapBut compare i q
      → IsHeapBut compare (smaller compare i q) (exchange_nodes i (smaller compare i q) q)
  down-IsHeapBut i q low v =
      let m = smaller compare i q in
      let (up, mh, ml) = smaller_child i q low in
      record {
        edges = λ k kl kh nk np. elim (ℕ_discrete k i) [
          | yes e ↦
              le_at compare
                (exchanged_else i m (parent k) q (omega (arith, e)) (omega (arith, e, ml)))
                (ap (exchange_nodes i m q).node e ∙ exchanged_here i m q (omega (arith, ml)))
                (le_at compare (ap (λ j. q.node (parent j)) e) refl
                  (v.around m (omega arith) (omega (arith, ml)) mh up))
          | no ne ↦ elim (ℕ_discrete (parent k) i) [
            | yes e ↦
                le_at compare
                  (ap (exchange_nodes i m q).node e ∙ exchanged_here i m q (omega (arith, ml)))
                  (exchanged_else i m k q ne nk) (smaller_le i k q low kl kh e)
            | no nf ↦
                le_at compare (exchanged_else i m (parent k) q nf np) (exchanged_else i m k q ne nk)
                  (v.edges k kl kh ne nf)
          ]
        ];
        around = λ k mp kl kh e.
            le_at compare
              (ap (exchange_nodes i m q).node up ∙ exchanged_here i m q (omega (arith, ml)))
              (exchanged_else i m k q (omega (arith, e, ml)) (omega (arith, e, ml)))
              (le_at compare (ap q.node (sym e)) refl
                (v.edges k kl kh (omega (arith, e, ml)) (omega (arith, e, ml))));
      }

  settled_down :
      (i : ℕ) (q : Queue A)
      → left i < q.n_nodes
      → above compare (q.node i) (q.node (smaller compare i q)) ≡ true
      → let m = smaller compare i q in
        let r = exchange_nodes i m q in Le compare (r.node (parent m)) (r.node m)
  settled_down i q low t =
      let m = smaller compare i q in
      let (up, mh, ml) = smaller_child i q low in
      le_at compare (ap (exchange_nodes i m q).node up ∙ exchanged_here i m q (omega (arith, ml)))
        (exchanged_there i m q) (le_of_above compare h (q.node i) (q.node m) t)

  -- A node that is right above and below makes a heap.
  whole :
      (i : ℕ) (q : Queue A)
      → IsHeapBut compare i q
      → (0 < i → Le compare (q.node (parent i)) (q.node i))
      → ((k : ℕ) → 0 < k → k < q.n_nodes → parent k ≡ i → Le compare (q.node i) (q.node k))
      → IsHeap compare q
  whole i q v up down k kl kh = elim (ℕ_discrete k i) [
    | yes e ↦ le_at compare (ap (λ j. q.node (parent j)) e) (ap q.node e) (up (omega (arith, e)))
    | no ne ↦ elim (ℕ_discrete (parent k) i) [
      | yes f ↦ le_at compare (ap q.node f) refl (down k kl kh f)
      | no nf ↦ v.edges k kl kh ne nf
    ]
  ]

  pub shuffle_down-IsHeap :
      (fuel i : ℕ) (q : Queue A)
      → q.n_nodes ≤ i + fuel
      → i < q.n_nodes
      → IsHeapBut compare i q
      → (0 < i → Le compare (q.node (parent i)) (q.node i))
      → IsHeap compare (shuffle_down compare fuel i q)
  unfolding shuffle_down
  shuffle_down-IsHeap zero i q enough low v up = absurd (omega arith)
  shuffle_down-IsHeap (suc fuel) i q enough low v up =
      if_rule (IsHeap compare) (leb q.n_nodes (left i))
        (λ t. whole i q v up (λ k kl kh e. absurd (ground (arith, t))))
        (λ f.
          let m = smaller compare i q in
          let room : left i < q.n_nodes = ground (arith, f) in
          let (child, mh, ml) = smaller_child i q room in
          if_rule (IsHeap compare) (above compare (q.node i) (q.node m))
            (λ t.
              shuffle_down-IsHeap fuel m (exchange_nodes i m q) (omega (arith, ml)) mh
                (down-IsHeapBut i q room v) (λ p. settled_down i q room t))
            (λ g. whole i q v up (λ k kl kh e.
              h.trans (q.node i) (q.node m) (q.node k) g (smaller_le i k q room kl kh e))))
