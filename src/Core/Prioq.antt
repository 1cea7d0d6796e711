-- ===== src/Core/Prioq.antt =====
-- avahi-core/prioq.c: the priority queue of the timers. Its nodes form a tree that is filled row by row;
-- the node at the place x of the row y is here the node 2 ^ y - 1 + x, so that the links to the parent and
-- to the children are numbers, and the last node is the one of the greatest number.
pub mod Places
pub mod Order
pub mod Down
pub mod Heap
pub mod Bag
use nvmrdisplay.Prelude.{
  ℕ, zero, suc, ◌+◌, ◌-◌, ◌*◌, ◌/◌, ◌%◌, ◌^◌, ◌==◌, Bool, ltb, leb, ◌&&◌, if◌then◌else◌,
}
use nvmrdisplay.Prelude.Int.{ℤ, pos, ltb_ℤ}

-- `AvahiPrioQueue`, with the data of its nodes.
pub record Queue {ℓ} (A : Type ℓ) : Type ℓ where
  pub n_nodes : ℕ
  pub node : ℕ → A

abbrev pub parent : ℕ → ℕ
parent i = (i - 1) / 2

abbrev pub left : ℕ → ℕ
left i = 2 * i + 1

abbrev pub right : ℕ → ℕ
right i = 2 * i + 2

-- The place of a node: its row y, and where it is in that row.
pub record Place : Type 0 where
  pub x : ℕ
  pub y : ℕ

-- The place behind that of the last node, of `avahi_prio_queue_put`.
abbrev pub next_place : Place → Place
next_place p =
    if leb (2 ^ p.y) (p.x + 1)
    then record { x = 0; y = p.y + 1 }
    else record { x = p.x + 1; y = p.y }

-- The loop of `get_node_at_xy` with `y - r` rounds to go: the bits of x, the highest first.
abbrev pub walk : ℕ → ℕ → ℕ → ℕ
walk zero x n = n
walk (suc y) x n = walk y x (if x / 2 ^ y % 2 == 1 then right n else left n)

abbrev pub get_node_at_xy : ℕ → ℕ → ℕ
get_node_at_xy x y = walk y x 0

module _ {ℓ} {A : Type ℓ} where
  abbrev pub set_node : ℕ → A → (ℕ → A) → ℕ → A
  set_node i v f k = if k == i then v else f k

  -- The nodes a and b change places.
  abbrev pub exchange_nodes : ℕ → ℕ → Queue A → Queue A
  exchange_nodes a b q = record q { node = set_node b (q.node a) (set_node a (q.node b) q.node) }

  module _ (compare : A → A → ℤ) where
    -- `compare` of a and b is above zero.
    abbrev pub above : A → A → Bool
    above a b = ltb_ℤ (pos 0) (compare a b)

    -- Move up until the position is right; the place where the node ends comes with the queue.
    unfoldable pub shuffle_up : ℕ → ℕ → Queue A → ℕ × Queue A
    shuffle_up zero i q = (i, q)
    shuffle_up (suc fuel) i q =
        let up = shuffle_up fuel (parent i) (exchange_nodes i (parent i) q) in
        if ltb 0 i && above (q.node (parent i)) (q.node i) then up else (i, q)

    -- The smaller one of the two children of a node that has a left child.
    abbrev pub smaller : ℕ → Queue A → ℕ
    smaller i q =
        if ltb (right i) q.n_nodes && ltb_ℤ (compare (q.node (right i)) (q.node (left i))) (pos 0)
        then right i
        else left i

    -- Move down until the position is right.
    unfoldable pub shuffle_down : ℕ → ℕ → Queue A → Queue A
    shuffle_down zero i q = q
    shuffle_down (suc fuel) i q =
        let down = shuffle_down fuel (smaller i q) (exchange_nodes i (smaller i q) q) in
        if leb q.n_nodes (left i)
        then q
        else if above (q.node i) (q.node (smaller i q))
        then down
        else q

    unfoldable pub shuffle : ℕ → Queue A → Queue A
    unfolding shuffle_up shuffle_down
    shuffle i q = let (j, r) = shuffle_up i i q in shuffle_down q.n_nodes j r

    -- `avahi_prio_queue_put`: the new node is the last one, until it is shuffled.
    unfoldable pub put : A → Queue A → Queue A
    unfolding shuffle
    put v q =
        shuffle q.n_nodes (record { n_nodes = q.n_nodes + 1; node = set_node q.n_nodes v q.node })

    -- `avahi_prio_queue_remove`: the last node takes the place of the node that goes.
    unfoldable pub remove : ℕ → Queue A → Queue A
    unfolding shuffle
    remove i q =
        let last = q.n_nodes - 1 in
        if i == last
        then record q { n_nodes = last }
        else shuffle i (record (exchange_nodes last i q) { n_nodes = last })
