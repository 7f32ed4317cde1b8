-- ===== src/Map/Search.antt =====
-- `client::search` of src/client.cpp.
use bomap.Base.{ℕ, zero, suc, ◌-◌, ◌==◌, if◌then◌else◌}
use bomap.Bid.{Bid}
use bomap.Node.{KpPair, KvPair}
use bomap.Leaf
use bomap.Leaf.{LeafNode, empty_leaf}
use bomap.Mid2
use bomap.Mid2.{MidNode2, empty_mid2}
use bomap.Mid1
use bomap.Mid1.{MidNode1, empty_mid1}
use bomap.Root
use bomap.Map.{World, Action, ◌>>=◌, lift, pure, read_leaf, read_mid2, read_mid1}

module _ (w : World) where
  -- the loop over the levels of `midNode1`s from `i` on, at the node above
  unfoldable pub descend : ℕ → ℕ → MidNode1 → Bid → Action MidNode1
  unfolding Mid1.search empty_mid1
  descend zero i m key = pure m
  descend (suc rounds) i m key = do
    c ← lift (Mid1.search m key)
    m' ← read_mid1 w empty_mid1 c.key c.pos i
    descend rounds (suc i) m' key

  -- the key and the position of the `midNode2` on the path, as its parent has them
  unfoldable pub find_mid2 : Bid → Action KpPair
  unfolding Root.search Mid1.search descend empty_mid1
  find_mid2 key s =
      let from_mid1 : Action KpPair = do
        c ← lift (Root.search s.root key)
        m ← read_mid1 w empty_mid1 c.key c.pos 0
        m' ← descend (w.levels - 4) 1 m key
        lift (Mid1.search m' key)
      in if w.levels - 3 == 0 then lift (Root.search s.root key) s else from_mid1 s

  -- `search(kv, key)`: the result is what `kv` holds after it
  unfoldable pub search : KvPair → Bid → Action KvPair
  unfolding find_mid2 Mid2.search Leaf.search empty_mid2 empty_leaf
  search kv key = do
    c2 ← find_mid2 key
    m2 ← read_mid2 w empty_mid2 c2.key c2.pos
    c ← lift (Mid2.search m2 key)
    l ← read_leaf w empty_leaf c.key c.pos
    lift (Leaf.search l key kv)
