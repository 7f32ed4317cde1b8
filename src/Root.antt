-- ===== src/Root.antt =====
-- `rootNode` of src/node.hpp and src/node.cpp. A method returns the root and what else it writes.
pub mod Count
pub mod Update
pub mod Insert
mod Examples
use bomap.Base.{
  ℕ, suc, Bool, true, false, ltb, ◌==◌, if◌then◌else◌, List, Option, some, replicate, ◌>>=◌,
}
use bomap.Bid
use bomap.Bid.{Bid}
use bomap.Node.{KpPair, no_child, root_slots}
use bomap.Slots.{read_last, find_first, remove_at}
use bomap.Leaf.{Deleted, absent, kept}
use bomap.Inner.{place, update_slots, search_slots, locate, choose, Found}
use bomap.Mid2.{MidNode2}
use bomap.Mid1.{MidNode1}

pub record RootNode : Type 0 where
  pub child_map : List KpPair
  pub max_value : Bid
  pub p1 : ℕ

-- `rootNode()`
unfoldable pub empty_root : RootNode
empty_root = record { child_map = replicate root_slots no_child; max_value = Bid.blank; p1 = 0 }

-- The two `Insert`s: the Boolean result, and the root.
unfoldable pub insert_child : RootNode → KpPair → Option (Bool × RootNode)
unfolding place
insert_child r kp =
    if ltb r.p1 root_slots
    then (do
      a ← place r.child_map r.p1 kp
      x ← read_last a (suc r.p1)
      some (true, record r { child_map = a; p1 = suc r.p1; max_value = x.key }))
    else some (false, r)

-- `Insert(m1)`: a refused child is left as it is
unfoldable pub insert_mid1 : RootNode → MidNode1 → Option (Bool × RootNode × MidNode1)
unfolding insert_child
insert_mid1 r m = do
  (done, r') ← insert_child r (record { key = m.max_value; pos = m.pos })
  some (done, r', if done then record m { old_max = m.max_value } else m)

-- `Insert(m2)`
unfoldable pub insert_mid2 : RootNode → MidNode2 → Option (Bool × RootNode × MidNode2)
unfolding insert_child
insert_mid2 r m = do
  (done, r') ← insert_child r (record { key = m.max_value; pos = m.pos })
  some (done, r', if done then record m { old_max = m.max_value } else m)

update_child : RootNode → Bid → Bid → Option RootNode
unfolding update_slots
update_child r old new = do
  a ← update_slots r.child_map r.p1 old new
  x ← read_last a r.p1
  some (record r { child_map = a; max_value = x.key })

-- `Update(m1)`
unfoldable pub update_mid1 : RootNode → MidNode1 → Option (RootNode × MidNode1)
unfolding update_child
update_mid1 r m = do
  r' ← update_child r m.old_max m.max_value
  some (r', record m { old_max = m.max_value })

-- `Update(m2)`
unfoldable pub update_mid2 : RootNode → MidNode2 → Option (RootNode × MidNode2)
unfolding update_child
update_mid2 r m = do
  r' ← update_child r m.old_max m.max_value
  some (r', record m { old_max = m.max_value })

-- `Search(key, m1_key)`
unfoldable pub search : RootNode → Bid → Option KpPair
unfolding search_slots
search r k = search_slots r.child_map r.p1 r.max_value k

-- `Search(key, m1_key, m1_pos, neighbor, n_pos, right)`
unfoldable pub search_pair : RootNode → Bid → KpPair → Option Found
unfolding locate choose
search_pair r k nb = do
  (i, x) ← locate r.child_map r.p1 r.max_value k
  (y, side) ← choose r.child_map r.p1 i nb
  some (record { child = x; neighbor = y; side = side })

-- `Delete(key)`: it returns -1 or 0, and leaves `p1` and `max_value` as they are
unfoldable pub delete : RootNode → Bid → Option (Deleted × RootNode)
unfolding find_first remove_at
delete r k = do
  i ← find_first (λ x. Bid.eq x.key k) r.p1 r.child_map 0
  let removed = do
    a ← remove_at no_child r.child_map r.p1 i
    some (kept, record r { child_map = a })
  if i == r.p1 then some (absent, r) else removed
