-- ===== src/Map/Delete/Path.antt =====
-- The first half of `client::Delete` of src/client.cpp: on each level the node on the path to the key
-- and a neighbour of it, taken out of the caches.
use bomap.Base.{
  ℕ, zero, suc, ◌-◌, ◌==◌, if◌then◌else◌, Bool, true, false, List, [], ◌∷◌, ◌++◌, Option, none,
  some, get_elem?, pos,
}
use bomap.Bid
use bomap.Bid.{Bid}
use bomap.Node.{KpPair, Side, left, neither, right}
use bomap.Slots.{read_last}
use bomap.Leaf.{LeafNode, empty_leaf}
use bomap.Inner.{Inner, Found}
use bomap.Mid2
use bomap.Mid2.{MidNode2, empty_mid2}
use bomap.Mid1
use bomap.Mid1.{MidNode1, empty_mid1}
use bomap.Root
use bomap.Map.{
  World, Action, ◌>>=◌, ◌>>◌, lift, pure, at_leaf, at_mid2, at_mid1, forget, leaf_random_pos,
  mid2_random_pos, read_leaf, read_mid2, read_mid1,
}
use bomap.Map.Insert.Levels.{level, set_level, fresh_mid1s}

-- `m1`, `m1_neighbor`, `f` and `brother`; the last entry of `f` and `brother` that is used here is
-- that of the `midNode2`
pub record Levels : Type 0 where
  pub nodes : List MidNode1
  pub neighbors : List MidNode1
  pub sides : List Side
  pub brothers : List Bool

-- all that the first half finds; `leaf_side` and `leaf_brother` are the last entries of the vectors
pub record Taken : Type 0 where
  pub levels : Levels
  pub mid2 : MidNode2
  pub mid2_neighbor : MidNode2
  pub leaf : LeafNode
  pub leaf_neighbor : LeafNode
  pub leaf_side : Side
  pub leaf_brother : Bool

-- `f[i]` and `brother[i]`
unfoldable pub side_of : Levels → ℕ → Action Side
side_of v i = lift (get_elem? v.sides i)

unfoldable pub brother_of : Levels → ℕ → Action Bool
brother_of v i = lift (get_elem? v.brothers i)

-- an entry of `neighbor_key` and `neighbor_pos` that no search has written
unfoldable pub no_neighbor : KpPair
no_neighbor = record { key = Bid.blank; pos = pos 0 }

abbrev pub is_neither : Side → Bool
is_neither neither = true
is_neither left = false
is_neither right = false

-- The key and the position of the neighbour that is to be read, if one is: what the search found, or
-- the nearest child of the parent's neighbour. The first side is what the search returned.
unfoldable pub neighbor_of : Side → Found → Inner → Option (Option KpPair)
neighbor_of neither fd parent = if is_neither fd.side then some none else some (some fd.neighbor)
neighbor_of left fd parent = elim fd.side [
  | left ↦ elim (read_last parent.child_map parent.p2) [
    | none ↦ none
    | some x ↦ some (some (record x { key = parent.max_value }))
  ]
  | neither ↦ some none
  | right ↦ some none
]
neighbor_of right fd parent = elim fd.side [
  | right ↦ elim (get_elem? parent.child_map 0) [ none ↦ none | some x ↦ some (some x) ]
  | neither ↦ some none
  | left ↦ some none
]

module _ (w : World) where
  -- reads of a node and its removal from the cache
  unfoldable pub take_mid1 : MidNode1 → KpPair → ℕ → Action MidNode1
  take_mid1 node c i = do m ← read_mid1 w node c.key c.pos i; at_mid1 i (forget c.key); pure m

  unfoldable pub take_mid2 : MidNode2 → KpPair → Action MidNode2
  take_mid2 node c = do m ← read_mid2 w node c.key c.pos; at_mid2 (forget c.key); pure m

  unfoldable pub take_leaf : LeafNode → KpPair → Action LeafNode
  take_leaf node c = do l ← read_leaf w node c.key c.pos; at_leaf (forget c.key); pure l

  -- The node and the neighbour on the level `i` of `midNode1`s, after the search that found them.
  unfoldable pub take_level : ℕ → Side → Found → Inner → Levels → Action Levels
  unfolding take_mid1 neighbor_of level set_level
  take_level i ret fd parent v = do
    m ← level v.nodes i
    m' ← take_mid1 m fd.child i
    ms ← set_level v.nodes i m'
    nb ← level v.neighbors i
    beside ← lift (neighbor_of ret fd parent)
    nb' ← elim beside [ none ↦ pure nb | some c ↦ take_mid1 nb c i ]
    nbs ← set_level v.neighbors i nb'
    pure (record v {
      nodes = ms;
      neighbors = nbs;
      sides = v.sides ++ fd.side ∷ [];
      brothers = v.brothers ++ is_neither ret ∷ [];
    })

  -- the loop over the levels from `i` on, where `flag` is that of the level above
  unfoldable pub take_levels : ℕ → ℕ → Side → Bid → Levels → Action (Levels × Side)
  unfolding take_level Mid1.search_pair no_neighbor level
  take_levels zero i flag key v = pure (v, flag)
  take_levels (suc rounds) i flag key v = do
    m ← level v.nodes (i - 1)
    parent ← level v.neighbors (i - 1)
    (ret, fd) ← lift (Mid1.search_pair m key no_neighbor flag)
    v' ← take_level i ret fd parent v
    take_levels rounds (suc i) fd.side key v'

  -- the `midNode2`s, and the flag that their parent's search leaves
  unfoldable pub take_mid2s :
      Side → Found → Inner → MidNode2 → MidNode2 → Levels → Action (MidNode2 × MidNode2 × Levels)
  unfolding take_mid2 neighbor_of
  take_mid2s ret fd parent m2 m2_nb v = do
    m ← take_mid2 m2 fd.child
    beside ← lift (neighbor_of ret fd parent)
    nb ← elim beside [ none ↦ pure m2_nb | some c ↦ take_mid2 m2_nb c ]
    pure (
      m,
      nb,
      record v { sides = v.sides ++ fd.side ∷ []; brothers = v.brothers ++ is_neither ret ∷ [] },
    )

  -- `root.Search` with a neighbour, on the flag 0
  unfoldable pub root_search_pair : Bid → Action Found
  unfolding Root.search_pair no_neighbor
  root_search_pair key s = lift (Root.search_pair s.root key no_neighbor) s

  -- `Delete` up to the deletion from the leaf
  unfoldable pub take_pairs : Bid → Action Taken
  unfolding fresh_mid1s empty_leaf empty_mid2 empty_mid1 root_search_pair take_level take_levels
      take_mid2s take_leaf neighbor_of Mid1.search_pair Mid2.search_pair no_neighbor level
  take_pairs key = do
    p ← leaf_random_pos w
    p' ← leaf_random_pos w
    q ← mid2_random_pos w
    q' ← mid2_random_pos w
    m1 ← fresh_mid1s w (w.levels - 3) 0
    nb1 ← fresh_mid1s w (w.levels - 3) 0
    let v : Levels = record { nodes = m1; neighbors = nb1; sides = []; brothers = [] }
    let m2 : MidNode2 = record empty_mid2 { pos = q }
    let m2_nb : MidNode2 = record empty_mid2 { pos = q' }
    fd ← root_search_pair key
    let below_root : Action (MidNode2 × MidNode2 × Levels) =
        take_mid2s neither fd empty_mid2 m2 m2_nb v
    let below_mid1 : Action (MidNode2 × MidNode2 × Levels) = do
      v1 ← take_level 0 neither fd empty_mid1 v
      (v2, flag) ← take_levels (w.levels - 4) 1 fd.side key v1
      last ← level v2.nodes (w.levels - 4)
      parent ← level v2.neighbors (w.levels - 4)
      (ret, fd2) ← lift (Mid1.search_pair last key no_neighbor flag)
      take_mid2s ret fd2 parent m2 m2_nb v2
    (a, b, v') ← if w.levels == 3 then below_root else below_mid1
    flag ← lift (get_elem? v'.sides (w.levels - 3))
    (ret, fd3) ← lift (Mid2.search_pair a key no_neighbor flag)
    l ← take_leaf (record empty_leaf { pos = p }) fd3.child
    beside ← lift (neighbor_of ret fd3 b)
    l_nb ← elim beside [
      | none ↦ pure (record empty_leaf { pos = p' })
      | some c ↦ take_leaf (record empty_leaf { pos = p' }) c
    ]
    pure (record {
      levels = v';
      mid2 = a;
      mid2_neighbor = b;
      leaf = l;
      leaf_neighbor = l_nb;
      leaf_side = fd3.side;
      leaf_brother = is_neither ret;
    })
