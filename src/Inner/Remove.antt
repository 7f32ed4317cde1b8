-- ===== src/Inner/Remove.antt =====
-- `Delete` of the middle nodes of src/node.cpp, which `midNode2` and `midNode1` repeat.
use bomap.Base.{◌+◌, ◌-◌, false, leb, ltb, ◌==◌, if◌then◌else◌, Option, some, get_elem?, ◌>>=◌}
use bomap.Bid
use bomap.Bid.{Bid}
use bomap.Node.{no_child, mid_slots, half, Side, left, neither, right}
use bomap.Slots.{
  read_last, find_first, remove_at, merge_left, merge_right, borrow_left, borrow_right,
}
use bomap.Leaf.{Deleted, absent, kept, merged}
use bomap.Inner.{Inner}

unfoldable pub shrink : Inner → Inner → Option (Deleted × Inner × Inner)
shrink m nb = do
  x ← read_last m.child_map (m.p2 - 1)
  some (kept, record m { p2 = m.p2 - 1; max_value = x.key }, nb)

-- `Delete` after the removal from the array: `m.p2` still counts the removed slot
unfoldable pub rebalance : Inner → Inner → Side → Option (Deleted × Inner × Inner)
unfolding shrink merge_left merge_right borrow_left borrow_right
rebalance m nb neither = shrink m nb
rebalance m nb left =
    if leb (nb.p2 + m.p2 - 1) mid_slots
    then (do
      (a, b) ← merge_left m.p2 m.child_map nb.p2 nb.child_map
      let n = nb.p2 + (m.p2 - 1)
      x ← read_last b n
      some (
        merged,
        record m { child_map = a; p2 = 0 },
        record nb { child_map = b; p2 = n; max_value = x.key },
      ))
    else (do
      (a, b) ← borrow_left no_child m.p2 m.child_map nb.p2 nb.child_map
      y ← read_last b (nb.p2 - 1)
      x ← read_last a m.p2
      some (
        kept,
        record m { child_map = a; max_value = x.key },
        record nb { child_map = b; p2 = nb.p2 - 1; max_value = y.key },
      ))
rebalance m nb right =
    if leb (nb.p2 + m.p2 - 1) mid_slots
    then (do
      (a, b) ← merge_right m.p2 m.child_map nb.p2 nb.child_map
      some (
        merged,
        record m { child_map = a; p2 = 0 },
        record nb { child_map = b; p2 = nb.p2 + (m.p2 - 1) },
      ))
    else (do
      (a, b) ← borrow_right no_child m.p2 m.child_map nb.p2 nb.child_map
      x ← get_elem? nb.child_map 0
      some (
        kept,
        record m { child_map = a; max_value = x.key },
        record nb { child_map = b; p2 = nb.p2 - 1 },
      ))

unfoldable pub delete_child : Inner → Inner → Side → Bid → Option (Deleted × Inner × Inner)
unfolding find_first remove_at shrink rebalance
delete_child m nb flag k = do
  i ← find_first (λ x. Bid.eq x.key k) m.p2 m.child_map 0
  let removed = do
    a ← remove_at no_child m.child_map m.p2 i
    let m' = record m { child_map = a }
    let small = if leb m.p2 (half mid_slots) then ltb 0 nb.p2 else false
    if small then rebalance m' nb flag else shrink m' nb
  if i == m.p2 then some (absent, m, nb) else removed
