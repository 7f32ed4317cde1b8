-- ===== src/Map/Insert/Path.antt =====
-- The steps of `client::insert` in src/client.cpp below the root, where the nodes of the path are in
-- the caches and the leaf has room.
use bomap.Base.{suc, ◌==◌, ◌≡◌, refl, true, false, [], some, ℤ, pos}
use bomap.Bid
use bomap.Bid.{Bid}
use bomap.Node.{KpPair}
use bomap.Leaf
use bomap.Leaf.{LeafNode, empty_leaf}
use bomap.Mid2
use bomap.Mid2.{MidNode2, empty_mid2}
use bomap.Root
use bomap.Root.{RootNode}
use bomap.TreePath.{leaf_size}
use bomap.Client.{Tree, find, erase, assign, mark, read_node, write_node}
use bomap.Client.Trees.{
  read_leaf_node, read_mid2_node, write_leaf_node, write_mid2_node, leaf_class, mid2_class,
}
use bomap.Map.{
  World, Store, ◌>>=◌, ◌>>◌, at_leaf, at_mid2, forget, read_leaf, read_mid2, write_leaf, write_mid2,
}
use bomap.Map.Steps.{at_leaf-some, at_mid2-some}
use bomap.Map.Insert.{take_path, put_below_root, insert_more, insert}
use bomap.Map.Insert.Levels.{root_search, fresh_mid1s}

module _ (w : World) (s : Store) (bid : Bid) (real : Bid.eq_int bid (pos 0) ≡ false) where
  read_leaf_cached :
      (node l : LeafNode) (p : ℤ)
      → find s.leaf.cache bid ≡ some l
      → read_leaf w node bid p s
        ≡ some (
          record l { pos = p },
          record s { leaf = record s.leaf { modified = mark s.leaf.modified bid } },
        )
  unfolding read_leaf_node read_node
  read_leaf_cached node l p e =
      at_leaf-some s (record l { pos = p })
        (λ t. read_leaf_node w.leaf_bytes w.levels w.leaves t node bid p)
        (record s.leaf { modified = mark s.leaf.modified bid }) (rw (real, e) refl)

  read_mid2_cached :
      (node m : MidNode2) (p : ℤ)
      → find s.mid2.cache bid ≡ some m
      → read_mid2 w node bid p s
        ≡ some (
          record m { pos = p },
          record s { mid2 = record s.mid2 { modified = mark s.mid2.modified bid } },
        )
  unfolding read_mid2_node read_node
  read_mid2_cached node m p e =
      at_mid2-some s (record m { pos = p })
        (λ t. read_mid2_node w.mid2_bytes w.levels w.mid2s t node bid p)
        (record s.mid2 { modified = mark s.mid2.modified bid }) (rw (real, e) refl)

  write_leaf_cached :
      (l : LeafNode)
      → write_leaf w true bid l s
        ≡ some (
          l.pos,
          record s {
            leaf = record s.leaf {
              modified = mark s.leaf.modified bid;
              cache = assign s.leaf.cache bid l;
            };
          },
        )
  unfolding write_leaf_node write_node leaf_class
  write_leaf_cached l = rw real refl

  write_mid2_cached :
      (m : MidNode2)
      → write_mid2 w true bid m s
        ≡ some (
          m.pos,
          record s {
            mid2 = record s.mid2 {
              modified = mark s.mid2.modified bid;
              cache = assign s.mid2.cache bid m;
            };
          },
        )
  unfolding write_mid2_node write_node mid2_class
  write_mid2_cached m = rw real refl

-- a node is marked, and taken out of a cache
abbrev pub taken : {N : Type 0} → Tree N → Bid → Tree N
taken t bid = record t { modified = mark t.modified bid; cache = erase t.cache bid }

-- a node is put into a cache
abbrev pub given : {N : Type 0} → Tree N → Bid → N → Tree N
given t bid n = record t { modified = mark t.modified bid; cache = assign t.cache bid n }

-- the state after the way down
abbrev pub emptied : Store → Bid → Bid → Store
emptied s i j = record s { drawn = suc (suc s.drawn); mid2 = taken s.mid2 i; leaf = taken s.leaf j }

-- the state after the insertion into the leaf and the update of its parent
abbrev pub leaf_back : Store → LeafNode → Store
leaf_back s l = record s { drawn = suc s.drawn; leaf = given s.leaf l.max_value l }

-- a client with three levels
abbrev pub shallow : World → World
shallow w = record w { levels = 3 }

module _ (w : World) (s : Store) (k : Bid) where
  pub take_path-emptied :
      (c2 c : KpPair) (m : MidNode2) (l : LeafNode)
      → Root.search s.root k ≡ some c2
      → Bid.eq_int c2.key (pos 0) ≡ false
      → find s.mid2.cache c2.key ≡ some m
      → Mid2.search (record m { pos = c2.pos }) k ≡ some c
      → Bid.eq_int c.key (pos 0) ≡ false
      → find s.leaf.cache c.key ≡ some l
      → take_path (shallow w) k s
        ≡ some (([], record m { pos = c2.pos }, record l { pos = c.pos }), emptied s c2.key c.key)
  unfolding take_path fresh_mid1s root_search read_mid2_node read_leaf_node read_node
  take_path-emptied c2 c m l found2 real2 cached2 found real cached =
      rw (◌>>=◌, ◌>>◌, found2, at_mid2, real2, cached2, forget, found, at_leaf, real, cached) refl

  pub insert_more-leaf_back :
      (m m1 : MidNode2) (l l1 new l2 : LeafNode) (v : ℤ) (s1 : Store)
      → take_path (shallow w) k s ≡ some (([], m, l), s1)
      → Leaf.insert l (record empty_leaf { pos = w.draw (leaf_size 3) s1.drawn }) k v
        ≡ some (l1, new)
      → Mid2.update m l1 ≡ some (m1, l2)
      → Bid.eq_int l2.max_value (pos 0) ≡ false
      → insert_more (shallow w) k v s ≡ put_below_root (shallow w) m1 new (leaf_back s1 l2)
  unfolding insert_more write_leaf_node write_node
  insert_more-leaf_back m m1 l l1 new l2 v s1 path done up real =
      rw (◌>>=◌, path, done, up, at_leaf, real) refl

  pub insert-insert_more :
      (v : ℤ) → (s.root.p1 == 0) ≡ false → insert (shallow w) k v s ≡ insert_more (shallow w) k v s
  unfolding insert
  insert-insert_more v e = rw e refl
