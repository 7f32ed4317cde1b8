-- ===== src/Mid1.antt =====
-- `midNode1` of src/node.hpp and src/node.cpp: the nodes between the root and the `midNode2`s, in
-- one or more levels. A method returns the node and what else it writes.
use bomap.Base.{Option, some, ◌>>=◌}
use bomap.Bid.{Bid}
use bomap.Node.{KpPair, Side}
use bomap.Leaf.{Deleted}
use bomap.Inner.{
  Inner, empty_inner, insert_child, update_child, search_slots, search_neighbor, Found,
}
use bomap.Inner.Remove.{delete_child}
use bomap.Mid2.{MidNode2}

abbrev pub MidNode1 : Type 0
MidNode1 = Inner

-- `midNode1()` and `midNode1(mid1L)`
unfoldable pub empty_mid1 : MidNode1
unfolding empty_inner
empty_mid1 = empty_inner

-- `Insert(m1, mid_node2)`
unfoldable pub insert_mid2 :
    MidNode1 → MidNode1 → MidNode2 → Option (MidNode1 × MidNode1 × MidNode2)
unfolding insert_child
insert_mid2 m new m2 = do
  (m', new') ← insert_child m new (record { key = m2.max_value; pos = m2.pos })
  some (m', new', record m2 { old_max = m2.max_value })

-- `Insert(m1, mid_node1, mid1L)`
unfoldable pub insert_mid1 :
    MidNode1 → MidNode1 → MidNode1 → Option (MidNode1 × MidNode1 × MidNode1)
unfolding insert_child
insert_mid1 m new m1 = do
  (m', new') ← insert_child m new (record { key = m1.max_value; pos = m1.pos })
  some (m', new', record m1 { old_max = m1.max_value })

-- `Update(m2)`
unfoldable pub update_mid2 : MidNode1 → MidNode2 → Option (MidNode1 × MidNode2)
unfolding update_child
update_mid2 m m2 = do
  m' ← update_child m m2.old_max m2.max_value
  some (m', record m2 { old_max = m2.max_value })

-- `Update(m1)`
unfoldable pub update_mid1 : MidNode1 → MidNode1 → Option (MidNode1 × MidNode1)
unfolding update_child
update_mid1 m m1 = do
  m' ← update_child m m1.old_max m1.max_value
  some (m', record m1 { old_max = m1.max_value })

-- `Search(key, m2_key)`
unfoldable pub search : MidNode1 → Bid → Option KpPair
unfolding search_slots
search m k = search_slots m.child_map m.p2 m.max_value k

-- `Search(key, m2_key, m2_pos, neighbor, n_pos, up_right)`
unfoldable pub search_pair : MidNode1 → Bid → KpPair → Side → Option (Side × Found)
unfolding search_neighbor
search_pair m k nb up_right = search_neighbor m k nb up_right

-- `Delete(neighbor, left, key)`
unfoldable pub delete : MidNode1 → MidNode1 → Side → Bid → Option (Deleted × MidNode1 × MidNode1)
unfolding delete_child
delete m nb flag k = delete_child m nb flag k
