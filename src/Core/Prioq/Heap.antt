-- ===== src/Core/Prioq/Heap.antt =====
-- The calls of the queue keep its order, and its root is a least node.
use nvmrdisplay.Prelude.{ℕ, zero, suc, ◌+◌, ◌-◌, ◌<◌, ◌≤◌, ◌≡◌, ◌≢◌, refl, ap, sym, arith}
use nvmrdisplay.Prelude.{◌==◌, ℕ_discrete, if_rule}
use nvmrdisplay.Prelude.Int.{ℤ}
use nvmrdisplay.Core.Prioq.{Queue, parent, set_node, exchange_nodes, shuffle_up}
use nvmrdisplay.Core.Prioq.{shuffle, put, remove}
use nvmrdisplay.Core.Prioq.Order.{
  IsOrder, Le, IsHeap, IsHeapBut, le_at, le_refl, shuffle_up-IsHeapBut,
}
use nvmrdisplay.Core.Prioq.Order.{exchanged_else}
use nvmrdisplay.Core.Prioq.Down.{shuffle_down-IsHeap}

module _ {ℓ} {A : Type ℓ} where
  set_here : (i : ℕ) (v : A) (f : ℕ → A) → set_node i v f i ≡ v
  set_here i v f = ground arith

  set_else : (i k : ℕ) (v : A) (f : ℕ → A) → k ≢ i → set_node i v f k ≡ f k
  set_else i k v f ne = ground (arith, ne)

module _ {ℓ} {A : Type ℓ} (compare : A → A → ℤ) (h : IsOrder compare) where
  -- shuffle puts a node right that alone is out of order, wherever it is.
  pub shuffle-IsHeap :
      (i : ℕ) (q : Queue A)
      → i < q.n_nodes
      → IsHeapBut compare i q
      → IsHeap compare (shuffle compare i q)
  unfolding shuffle
  shuffle-IsHeap i q low v =
      let (j, r) = shuffle_up compare i i q in
      let (jl, same, w, up) = shuffle_up-IsHeapBut compare h i i q (omega arith) low v in
      shuffle_down-IsHeap compare h q.n_nodes j r (omega (arith, same)) jl w up

  -- A node that gets other data.
  pub set_node-IsHeapBut :
      (i : ℕ) (v : A) (q : Queue A)
      → i < q.n_nodes
      → IsHeap compare q
      → IsHeapBut compare i (record q { node = set_node i v q.node })
  set_node-IsHeapBut i v q low w = record {
    edges = λ k kl kh nk np.
        le_at compare (set_else i (parent k) v q.node np) (set_else i k v q.node nk) (w k kl kh);
    around = λ k il kl kh e.
        le_at compare (set_else i (parent i) v q.node (omega arith))
          (set_else i k v q.node (omega (arith, e)))
          (h.trans (q.node (parent i)) (q.node i) (q.node k) (w i il low)
            (le_at compare (ap q.node (sym e)) refl (w k kl kh)));
  }

  -- A new node is put in its place.
  pub put-IsHeap : (v : A) (q : Queue A) → IsHeap compare q → IsHeap compare (put compare v q)
  unfolding put
  put-IsHeap v q w =
      let r : Queue A = record { n_nodes = q.n_nodes + 1; node = set_node q.n_nodes v q.node } in
      shuffle-IsHeap q.n_nodes r (omega arith) (record {
        edges = λ k kl kh nk np.
            le_at compare (set_else q.n_nodes (parent k) v q.node np)
              (set_else q.n_nodes k v q.node nk) (w k kl (omega (arith, nk)));
        around = λ k il kl kh e. absurd (omega (arith, e));
      })

  -- The queue stays in order when a node is removed.
  pub remove-IsHeap :
      (i : ℕ) (q : Queue A) → i < q.n_nodes → IsHeap compare q → IsHeap compare (remove compare i q)
  unfolding remove
  remove-IsHeap i q low w =
      let last = q.n_nodes - 1 in
      let r : Queue A = record (exchange_nodes last i q) { n_nodes = last } in
      let cut : Queue A = record q { n_nodes = last } in
      if_rule (IsHeap compare) (i == last) (λ t k kl kh. w k kl (omega arith))
        (λ f. shuffle-IsHeap i r (ground (arith, f)) (record {
          edges = λ k kl kh nk np.
              le_at compare (exchanged_else last i (parent k) q (omega arith) np)
                (exchanged_else last i k q (omega arith) nk) (w k kl (omega arith));
          around = λ k il kl kh e.
              le_at compare (exchanged_else last i (parent i) q (ground (arith, f)) (omega arith))
                (exchanged_else last i k q (omega arith) (omega (arith, e)))
                (h.trans (q.node (parent i)) (q.node i) (q.node k) (w i il low)
                  (le_at compare (ap q.node (sym e)) refl (w k kl (omega arith))));
        }))

  below_root :
      (fuel k : ℕ) (q : Queue A)
      → k ≤ fuel
      → k < q.n_nodes
      → IsHeap compare q
      → Le compare (q.node 0) (q.node k)
  below_root zero k q enough low w =
      le_at compare refl (ap q.node (omega arith)) (le_refl compare h (q.node 0))
  below_root (suc fuel) k q enough low w = elim (ℕ_discrete k 0) [
    | yes e ↦ le_at compare refl (ap q.node e) (le_refl compare h (q.node 0))
    | no ne ↦
        h.trans (q.node 0) (q.node (parent k)) (q.node k)
          (below_root fuel (parent k) q (omega (arith, ne)) (omega arith) w)
          (w k (omega (arith, ne)) low)
  ]

  -- In a queue in order the root is not behind any node.
  pub root_least :
      (k : ℕ) (q : Queue A) → k < q.n_nodes → IsHeap compare q → Le compare (q.node 0) (q.node k)
  root_least k q low w = below_root k k q (omega arith) low w
