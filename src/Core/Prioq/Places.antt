-- ===== src/Core/Prioq/Places.antt =====
-- The numbers of the nodes and their places in the rows.
use nvmrdisplay.Prelude.{ℕ, zero, suc, ◌+◌, ◌-◌, ◌*◌, ◌/◌, ◌%◌, ◌^◌, ◌<◌, ◌≡◌, ap, sym, ◌∙◌, arith}
use nvmrdisplay.Prelude.{predecessor}
use native.Mathlib.Nat.{div-add-mod, div-div-eq-div-mul, mod-eq_of_lt}
use nvmrdisplay.Core.Prioq.{parent, left, right, Place, next_place, walk, get_node_at_xy}

-- The bits of a number below one: that bit, and the bits below it.
bits : (x w : ℕ) → x % (w * 2) ≡ w * (x / w % 2) + x % w
bits x w =
    let q : x / w ≡ 2 * (x / (w * 2)) + x / w % 2 =
      sym (div-add-mod (x / w) 2) ∙ ap (λ t. 2 * t + x / w % 2) (div-div-eq-div-mul x w 2) in
    omega (arith, div-add-mod x w, div-add-mod x (w * 2), ap (λ t. w * t) q)

double : (y : ℕ) → 2 ^ suc y ≡ 2 ^ y * 2
double y = omega arith

positive : (y : ℕ) → 0 < 2 ^ y
positive zero = omega arith
positive (suc y) = omega (arith, positive y)

-- Where the walk with the last y bits of x ends.
walk_lem : (y x n : ℕ) → walk y x n + 1 ≡ (n + 1) * 2 ^ y + x % 2 ^ y
walk_lem zero x n = omega arith
walk_lem (suc y) x n =
    let bit = x / 2 ^ y % 2 in
    rw (double y, bits x (2 ^ y)) (ground (arith, walk_lem y x (left n), walk_lem y x (right n)))

get_node_at_xy_lem : (x y : ℕ) → x < 2 ^ y → get_node_at_xy x y + 1 ≡ 2 ^ y + x
get_node_at_xy_lem x y h = omega (arith, walk_lem y x 0, mod-eq_of_lt h)

get_node_at_xy-parent :
    (x y : ℕ) → x < 2 ^ suc y → get_node_at_xy (x / 2) y ≡ parent (get_node_at_xy x (suc y))
get_node_at_xy-parent x y h = omega (
  arith,
  get_node_at_xy_lem x (suc y) h,
  double y,
  get_node_at_xy_lem (x / 2) y (omega (arith, double y)),
)

next_place_fits : (p : Place) → p.x < 2 ^ p.y → (next_place p).x < 2 ^ (next_place p).y
next_place_fits p h = ground (arith, positive (p.y + 1))

next_number :
    (p : Place) → p.x < 2 ^ p.y → 2 ^ (next_place p).y + (next_place p).x ≡ 2 ^ p.y + p.x + 1
next_number p h = ground (arith, double p.y)

row_below :
    (x y : ℕ) → 0 < y → x < 2 ^ y → get_node_at_xy (x / 2) (y - 1) ≡ parent (get_node_at_xy x y)
row_below x zero low h = absurd (omega arith)
row_below x (suc y) low h =
    ap (get_node_at_xy (x / 2)) (predecessor y) ∙ get_node_at_xy-parent x y h

below_first_row : (x y : ℕ) → x < 2 ^ y → 0 < (next_place (record { x = x; y = y })).y
below_first_row x zero h = ground arith
below_first_row x (suc y) h = ground arith

-- The place that avahi_prio_queue_put gives to a new node lies in its row, the walk to it ends one
-- number behind the last node, and the walk to the place that is taken for its parent ends at the
-- parent by number.
pub get_node_at_xy-next_place :
    (p : Place)
    → p.x < 2 ^ p.y
    → let n = next_place p in
      (n.x < 2 ^ n.y)
      × (get_node_at_xy n.x n.y ≡ get_node_at_xy p.x p.y + 1)
      × (get_node_at_xy (n.x / 2) (n.y - 1) ≡ parent (get_node_at_xy n.x n.y))
get_node_at_xy-next_place p h =
    let n = next_place p in
    let fits = next_place_fits p h in
    (
      fits,
      omega (arith, get_node_at_xy_lem n.x n.y fits, get_node_at_xy_lem p.x p.y h, next_number p h),
      row_below n.x n.y (below_first_row p.x p.y h) fits,
    )
