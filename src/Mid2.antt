-- ===== src/Mid2.antt =====
-- `midNode2` of src/node.hpp and src/node.cpp: the nodes above the leaves. A method returns the
-- node and what else it writes.
use bomap.Base.{Option, some, ◌>>=◌}
use bomap.Bid.{Bid}
use bomap.Node.{KpPair, Side}
use bomap.Leaf.{LeafNode, Deleted}
use bomap.Inner.{
  Inner, empty_inner, insert_child, update_child, search_slots, search_neighbor, Found,
}
use bomap.Inner.Remove.{delete_child}

abbrev pub MidNode2 : Type 0
MidNode2 = Inner

-- `midNode2()`
unfoldable pub empty_mid2 : MidNode2
unfolding empty_inner
empty_mid2 = empty_inner

-- `Insert(mid2, leaf)`
unfoldable pub insert : MidNode2 → MidNode2 → LeafNode → Option (MidNode2 × MidNode2 × LeafNode)
unfolding insert_child
insert m new l = do
  (m', new') ← insert_child m new (record { key = l.max_value; pos = l.pos })
  some (m', new', record l { old_max = l.max_value })

-- `Update(l)`
unfoldable pub update : MidNode2 → LeafNode → Option (MidNode2 × LeafNode)
unfolding update_child
update m l = do
  m' ← update_child m l.old_max l.max_value
  some (m', record l { old_max = l.max_value })

-- `Search(key, l_key)`: the key and the position of the leaf
unfoldable pub search : MidNode2 → Bid → Option KpPair
unfolding search_slots
search m k = search_slots m.child_map m.p2 m.max_value k

-- `Search(key, l_key, l_pos, neighbor, n_pos, up_right)`
unfoldable pub search_pair : MidNode2 → Bid → KpPair → Side → Option (Side × Found)
unfolding search_neighbor
search_pair m k nb up_right = search_neighbor m k nb up_right

-- `Delete(neighbor, left, key)`
unfoldable pub delete : MidNode2 → MidNode2 → Side → Bid → Option (Deleted × MidNode2 × MidNode2)
unfolding delete_child
delete m nb flag k = delete_child m nb flag k
