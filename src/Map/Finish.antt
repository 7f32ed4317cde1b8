-- ===== src/Map/Finish.antt =====
-- `client::finish` of src/client.cpp: the padding of the reads, the new positions of the nodes that
-- were used, the children's positions in their parents, and the eviction of every tree.
use bomap.Base
use bomap.Base.{
  ℕ, zero, suc, ◌-◌, ◌==◌, if◌then◌else◌, Bool, true, false, ◌&&◌, not, List, [], ◌∷◌, Option, none,
  some, ℤ,
}
use bomap.Bid
use bomap.Bid.{Bid}
use bomap.Node.{KpPair}
use bomap.Leaf.{LeafNode}
use bomap.Inner.{Inner}
use bomap.Mid2.{MidNode2}
use bomap.Mid1.{MidNode1}
use bomap.Root.{RootNode}
use bomap.TreePath.{leaf_size, mid2_size, mid1_size}
use bomap.Client.{NodeClass, Tree, find}
use bomap.Client.Trees.{
  leaf_class, mid2_class, mid1_class, finalize_leaf, finalize_mid2, finalize_mid1, finalize2_leaf,
  finalize2_mid2, finalize2_mid1,
}
use bomap.Map.{Store, World}

-- `modified.count(k) != 0`
abbrev pub is_marked : List Bid → Bid → Bool
is_marked [] k = false
is_marked (j ∷ s) k = if Bid.eq j k then true else is_marked s k

-- the positions of the nodes of a cache: `cache[k].pos`, if there is one
abbrev pub position : {N : Type 0} → (N → ℤ) → List (Bid × N) → Bid → Option ℤ
position pos_of c k = elim (find c k) [ none ↦ none | some n ↦ some (pos_of n) ]

-- a child with the position that its node has got
unfoldable pub relink : (Bid → Option ℤ) → KpPair → KpPair
relink below c = elim (below c.key) [ none ↦ c | some p ↦ record c { pos = p } ]

-- the loop over the children of a node; `none` is a count past the end of the array
unfoldable pub link : ℕ → (Bid → Option ℤ) → List KpPair → Option (List KpPair)
unfolding relink
link zero below a = some a
link (suc n) below [] = none
link (suc n) below (c ∷ a) = Base.◌>>=◌ (link n below a) λ b. some (relink below c ∷ b)

-- what the three loops do with a node that is not empty, after its new position
unfoldable pub link_inner : (Bid → Option ℤ) → Inner → Option Inner
unfolding link
link_inner below m = Base.◌>>=◌ (link m.p2 below m.child_map) λ a. some (record m { child_map = a })

-- What the client sends in the end: the root, and for each tree the buckets with their numbers.
pub record Requests : Type 0 where
  pub root_block : RootNode
  pub mid1_buckets : List (List (ℤ × List ℕ))
  pub mid2_buckets : List (ℤ × List ℕ)
  pub leaf_buckets : List (ℤ × List ℕ)

module _ (w : World) where
  module _ {N : Type 0} (cls : NodeClass N) (size : ℕ) (links : N → Option N)
      (marked : List Bid) where
    -- one node of a cache, and how many positions were drawn
    unfoldable pub refresh_node : ℕ → N → Option (ℕ × N)
    refresh_node drawn n =
        let moved = is_marked marked (cls.max_value n) in
        let drawn' = if moved then suc drawn else drawn in
        let n' = if moved then cls.set_pos (w.draw size drawn) n else n in
        if cls.count n == 0
        then some (drawn, n)
        else Base.◌>>=◌ (links n') λ n''. some (drawn', n'')

    -- the loop over a cache
    unfoldable pub refresh : ℕ → List (Bid × N) → Option (ℕ × List (Bid × N))
    unfolding refresh_node
    refresh drawn [] = some (drawn, [])
    refresh drawn ((k, n) ∷ c) =
        Base.◌>>=◌ (refresh_node drawn n)
          λ r. Base.◌>>=◌ (refresh r.0 c) λ r'. some (r'.0, (k, r.1) ∷ r'.1)

  unfoldable pub refresh_leaves : ℕ → Tree LeafNode → Option (ℕ × Tree LeafNode)
  unfolding refresh leaf_class
  refresh_leaves drawn t =
      Base.◌>>=◌
        (refresh (leaf_class w.leaf_bytes w.levels) (leaf_size w.levels) some t.modified drawn
          t.cache)
        λ r. some (r.0, record t { cache = r.1 })

  unfoldable pub refresh_mid2s : (Bid → Option ℤ) → ℕ → Tree MidNode2 → Option (ℕ × Tree MidNode2)
  unfolding refresh mid2_class link_inner
  refresh_mid2s below drawn t =
      Base.◌>>=◌
        (refresh (mid2_class w.mid2_bytes w.levels) (mid2_size w.levels) (link_inner below)
          t.modified drawn t.cache)
        λ r. some (r.0, record t { cache = r.1 })

  -- The levels of `midNode1`s from `i` on, the lowest first. The second result is where the nodes of
  -- the level `i` are, or those of `below` if there is none.
  unfoldable pub refresh_mid1s :
      ℕ
      → (Bid → Option ℤ)
      → ℕ
      → List (Tree MidNode1)
      → Option (ℕ × (Bid → Option ℤ) × List (Tree MidNode1))
  unfolding refresh mid1_class link_inner
  refresh_mid1s i below drawn [] = some (drawn, below, [])
  refresh_mid1s i below drawn (t ∷ ts) = Base.◌>>=◌ (refresh_mid1s (suc i) below drawn ts) λ r.
      Base.◌>>=◌
        (refresh (mid1_class w.mid1_bytes i) (mid1_size i) (link_inner r.1) t.modified r.0 t.cache)
        λ r'. some (r'.0, position (λ m. m.pos) r'.1, record t { cache = r'.1 } ∷ r.2)

  -- the middle of `finish`: new positions, and the children's positions up to the root
  unfoldable pub reposition : Store → Option Store
  unfolding refresh_leaves refresh_mid2s refresh_mid1s link
  reposition s = Base.◌>>=◌ (refresh_leaves s.drawn s.leaf) λ l.
      Base.◌>>=◌ (refresh_mid2s (position (λ n. n.pos) l.1.cache) l.0 s.mid2) λ m.
        Base.◌>>=◌ (refresh_mid1s 0 (position (λ n. n.pos) m.1.cache) m.0 s.mid1) λ u.
          Base.◌>>=◌ (link s.root.p1 u.1 s.root.child_map) λ a. some (record s {
            root = record s.root { child_map = a };
            mid1 = u.2;
            mid2 = m.1;
            leaf = l.1;
            drawn = u.0;
          })

  -- the calls of `finalizemid1`
  unfoldable pub pad_mid1s : ℕ → List (Tree MidNode1) → Option (List (Tree MidNode1))
  unfolding finalize_mid1
  pad_mid1s i [] = some []
  pad_mid1s i (t ∷ ts) =
      Base.◌>>=◌ (finalize_mid1 w.mid1_bytes i (w.mid1s i) t)
        λ t'. Base.◌>>=◌ (pad_mid1s (suc i) ts) λ ts'. some (t' ∷ ts')

  -- the first lines of `finish`
  unfoldable pub pad_all : Store → Option Store
  unfolding pad_mid1s finalize_mid2 finalize_leaf
  pad_all s = Base.◌>>=◌ (pad_mid1s 0 s.mid1) λ ts.
      Base.◌>>=◌ (finalize_mid2 w.mid2_bytes w.levels w.mid2s s.mid2) λ m.
        Base.◌>>=◌ (finalize_leaf w.leaf_bytes w.levels w.leaves s.leaf)
          λ l. some (record s { mid1 = ts; mid2 = m; leaf = l })

  -- the calls of `finalize2mid1`
  unfoldable pub evict_mid1s :
      ℕ → List (Tree MidNode1) → List (Tree MidNode1) × List (List (ℤ × List ℕ))
  unfolding finalize2_mid1
  evict_mid1s i [] = ([], [])
  evict_mid1s i (t ∷ ts) =
      let (t', q) = finalize2_mid1 w.mid1_bytes i (w.mid1s i) t in
      let (ts', qs) = evict_mid1s (suc i) ts in (t' ∷ ts', q ∷ qs)

  -- `WriteRootNode` and the last lines of `finish`
  unfoldable pub evict_all : Store → Requests × Store
  unfolding evict_mid1s finalize2_mid2 finalize2_leaf
  evict_all s =
      let (ts, qs) = evict_mid1s 0 s.mid1 in
      let (m, q2) = finalize2_mid2 w.mid2_bytes w.levels w.mid2s s.mid2 in
      let (l, q3) = finalize2_leaf w.leaf_bytes w.levels w.leaves s.leaf in
      (
        record { root_block = s.root; mid1_buckets = qs; mid2_buckets = q2; leaf_buckets = q3 },
        record s { mid1 = ts; mid2 = m; leaf = l },
      )

  -- `finish(find)`: the flag has no effect, since `finalize...` pads in the same way for both
  unfoldable pub finish : Store → Option (Requests × Store)
  unfolding pad_all reposition evict_all
  finish s =
      Base.◌>>=◌ (pad_all s)
        λ padded. Base.◌>>=◌ (reposition padded) λ placed. some (evict_all placed)
