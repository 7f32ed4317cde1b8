-- ===== src/Client/Trees.antt =====
-- The functions that src/client.cpp writes once for each kind of tree: for the leaves, for the
-- `midNode2`s and, for each level, for the `midNode1`s. They are the functions of the parent at the
-- node's class. The sizes of the classes are the compiler's.
use bomap.Base.{ℕ, Bool, true, false, List, Option, ℤ}
use bomap.Bid.{Bid}
use bomap.TreePath.{bucket_blocks, leaf_size, mid2_size, mid1_size}
use bomap.Leaf.{LeafNode}
use bomap.Mid2.{MidNode2}
use bomap.Mid1.{MidNode1}
use bomap.Client.{
  NodeClass, Tree, Outside, node_of, fetch_path, read_node, write_node, intersecting, write_path,
  finalize, finalize2,
}

-- `leafNode` in a client with `L` levels
unfoldable pub leaf_class : ℕ → ℕ → NodeClass LeafNode
leaf_class size levels = record {
  max_value = λ l. l.max_value;
  count = λ l. l.c;
  pos_of = λ l. l.pos;
  set_pos = λ p l. record l { pos = p };
  size_of = size;
  max_size = leaf_size levels;
}

-- `midNode2`
unfoldable pub mid2_class : ℕ → ℕ → NodeClass MidNode2
mid2_class size levels = record {
  max_value = λ m. m.max_value;
  count = λ m. m.p2;
  pos_of = λ m. m.pos;
  set_pos = λ p m. record m { pos = p };
  size_of = size;
  max_size = mid2_size levels;
}

-- `midNode1` on the level `mid1L`
unfoldable pub mid1_class : ℕ → ℕ → NodeClass MidNode1
mid1_class size level = record {
  max_value = λ m. m.max_value;
  count = λ m. m.p2;
  pos_of = λ m. m.pos;
  set_pos = λ p m. record m { pos = p };
  size_of = size;
  max_size = mid1_size level;
}

module _ (size levels : ℕ) (out : Outside LeafNode) where
  -- `FetchleafPath(leaf)`
  unfoldable pub fetch_leaf_path : Tree LeafNode → ℤ → Option (Tree LeafNode)
  unfolding fetch_path leaf_class
  fetch_leaf_path t leaf = fetch_path (leaf_class size levels) out t leaf

  -- `ReadleafNode(node, bid, leaf)`
  unfoldable pub read_leaf_node :
      Tree LeafNode → LeafNode → Bid → ℤ → Option (Tree LeafNode × LeafNode)
  unfolding read_node leaf_class
  read_leaf_node t node bid leaf =
      read_node (leaf_class size levels) out false (λ p l. record l { pos = p }) t node bid leaf

  -- `WriteleafNode(incache, bid, node)`
  unfoldable pub write_leaf_node :
      Tree LeafNode → Bool → Bid → LeafNode → Option (Tree LeafNode × ℤ)
  unfolding write_node leaf_class
  write_leaf_node t incache bid node = write_node (leaf_class size levels) out t incache bid node

  -- `GetIntersectingBlocks3(leaf, d)`
  unfoldable pub intersecting_leaf : ℤ → ℕ → List (Bid × LeafNode) → List (Bid × LeafNode)
  unfolding intersecting node_of leaf_class
  intersecting_leaf leaf d cache =
      let cls = (leaf_class size levels) in
      intersecting cls bucket_blocks (node_of cls.max_size leaf d) d cache

  -- `WriteleafPath(leaf, d)`
  unfoldable pub write_leaf_path : Tree LeafNode → ℤ → ℕ → Tree LeafNode × Option (List ℕ)
  unfolding write_path leaf_class
  write_leaf_path t leaf d = write_path (leaf_class size levels) out t leaf d

  -- `finalizeleaf(find)`
  unfoldable pub finalize_leaf : Tree LeafNode → Option (Tree LeafNode)
  unfolding finalize leaf_class
  finalize_leaf t = finalize (leaf_class size levels) out t

  -- `finalize2leaf()`
  unfoldable pub finalize2_leaf : Tree LeafNode → Tree LeafNode × List (ℤ × List ℕ)
  unfolding finalize2 leaf_class
  finalize2_leaf t = finalize2 (leaf_class size levels) out t

module _ (size levels : ℕ) (out : Outside MidNode2) where
  -- `Fetchmid2Path(leaf)`
  unfoldable pub fetch_mid2_path : Tree MidNode2 → ℤ → Option (Tree MidNode2)
  unfolding fetch_path mid2_class
  fetch_mid2_path t leaf = fetch_path (mid2_class size levels) out t leaf

  -- `Readmid2Node(node, bid, leaf)`
  unfoldable pub read_mid2_node :
      Tree MidNode2 → MidNode2 → Bid → ℤ → Option (Tree MidNode2 × MidNode2)
  unfolding read_node mid2_class
  read_mid2_node t node bid leaf =
      read_node (mid2_class size levels) out true (λ p m. record m { pos = p }) t node bid leaf

  -- `Writemid2Node(incache, bid, node)`
  unfoldable pub write_mid2_node :
      Tree MidNode2 → Bool → Bid → MidNode2 → Option (Tree MidNode2 × ℤ)
  unfolding write_node mid2_class
  write_mid2_node t incache bid node = write_node (mid2_class size levels) out t incache bid node

  -- `GetIntersectingBlocks2(leaf, d)`
  unfoldable pub intersecting_mid2 : ℤ → ℕ → List (Bid × MidNode2) → List (Bid × MidNode2)
  unfolding intersecting node_of mid2_class
  intersecting_mid2 leaf d cache =
      let cls = (mid2_class size levels) in
      intersecting cls bucket_blocks (node_of cls.max_size leaf d) d cache

  -- `Writemid2Path(leaf, d)`
  unfoldable pub write_mid2_path : Tree MidNode2 → ℤ → ℕ → Tree MidNode2 × Option (List ℕ)
  unfolding write_path mid2_class
  write_mid2_path t leaf d = write_path (mid2_class size levels) out t leaf d

  -- `finalizemid2(find)`
  unfoldable pub finalize_mid2 : Tree MidNode2 → Option (Tree MidNode2)
  unfolding finalize mid2_class
  finalize_mid2 t = finalize (mid2_class size levels) out t

  -- `finalize2mid2()`
  unfoldable pub finalize2_mid2 : Tree MidNode2 → Tree MidNode2 × List (ℤ × List ℕ)
  unfolding finalize2 mid2_class
  finalize2_mid2 t = finalize2 (mid2_class size levels) out t

module _ (size level : ℕ) (out : Outside MidNode1) where
  -- `Fetchmid1Path(leaf)`
  unfoldable pub fetch_mid1_path : Tree MidNode1 → ℤ → Option (Tree MidNode1)
  unfolding fetch_path mid1_class
  fetch_mid1_path t leaf = fetch_path (mid1_class size level) out t leaf

  -- `Readmid1Node(node, bid, leaf)`
  unfoldable pub read_mid1_node :
      Tree MidNode1 → MidNode1 → Bid → ℤ → Option (Tree MidNode1 × MidNode1)
  unfolding read_node mid1_class
  read_mid1_node t node bid leaf =
      read_node (mid1_class size level) out true (λ p m. m) t node bid leaf

  -- `Writemid1Node(incache, bid, node)`
  unfoldable pub write_mid1_node :
      Tree MidNode1 → Bool → Bid → MidNode1 → Option (Tree MidNode1 × ℤ)
  unfolding write_node mid1_class
  write_mid1_node t incache bid node = write_node (mid1_class size level) out t incache bid node

  -- `GetIntersectingBlocks1(leaf, d)`
  unfoldable pub intersecting_mid1 : ℤ → ℕ → List (Bid × MidNode1) → List (Bid × MidNode1)
  unfolding intersecting node_of mid1_class
  intersecting_mid1 leaf d cache =
      let cls = (mid1_class size level) in
      intersecting cls bucket_blocks (node_of cls.max_size leaf d) d cache

  -- `Writemid1Path(leaf, d)`
  unfoldable pub write_mid1_path : Tree MidNode1 → ℤ → ℕ → Tree MidNode1 × Option (List ℕ)
  unfolding write_path mid1_class
  write_mid1_path t leaf d = write_path (mid1_class size level) out t leaf d

  -- `finalizemid1(find)`
  unfoldable pub finalize_mid1 : Tree MidNode1 → Option (Tree MidNode1)
  unfolding finalize mid1_class
  finalize_mid1 t = finalize (mid1_class size level) out t

  -- `finalize2mid1()`
  unfoldable pub finalize2_mid1 : Tree MidNode1 → Tree MidNode1 × List (ℤ × List ℕ)
  unfolding finalize2 mid1_class
  finalize2_mid1 t = finalize2 (mid1_class size level) out t
