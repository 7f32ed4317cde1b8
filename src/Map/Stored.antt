-- ===== src/Map/Stored.antt =====
-- When a tree of the client of src/client.cpp gives the node of an identifier, and when its trees
-- store a search tree with certain pairs.
use bomap.Base.{
  ℕ, suc, ◌<◌, ◌≡◌, refl, Bool, inl, inr, ◌⊎◌, false, List, [], ◌∷◌, none, some, length, ℤ,
  Bool-cases, ◌==◌, pos, ◌+◌,
}
use bomap.Bid
use bomap.Bid.{Bid}
use bomap.Node.{KpPair, KvPair, root_slots}
use bomap.Leaf.{LeafNode}
use bomap.Leaf.Spec.{IsLeaf, IsSorted}
use bomap.Inner.Insert.{IsParent, last_key}
use bomap.Slots.Holds.{Holds, Yields}
use bomap.Mid2.{MidNode2}
use bomap.Mid1.{MidNode1}
use bomap.Client.{NodeClass, Tree, Outside, find, fetch_path, read_node, found_after, mark}
use bomap.Client.Trees.{leaf_class, mid2_class, mid1_class}
use bomap.Map.{Store, World}
use bomap.Map.Forest.{Forest}

module _ {N : Type 0} (cls : NodeClass N) (out : Outside N) where
  -- The node is in the cache, or it comes there with the path to its position. An identifier
  -- whose first four bytes are all zero stands for no node.
  abbrev pub Available : Tree N → Bid → ℤ → N → Type 0
  Available t bid leaf n =
      (Bid.eq_int bid (pos 0) ≡ false)
      × ((find t.cache bid ≡ some n)
          ⊎ ((find t.cache bid ≡ none)
              × Yields (λ t'. find t'.cache bid ≡ some n) (fetch_path cls out t leaf)))

  found_after-found :
      (P : N → Type 0)
      → ((p : ℤ) (n : N) → P n → P (cls.set_pos p n))
      → (erases : Bool) (t : Tree N) (node n : N) (bid : Bid) (leaf : ℤ) → find t.cache bid ≡ some n
      → P n
      → P (found_after cls out erases t node bid leaf).1
  unfolding found_after
  found_after-found P moves erases t node n bid leaf e p = elim (Bool-cases (cls.count n == 0)) [
    | inl empty ↦ rw (e, empty) p
    | inr filled ↦ rw (e, filled) (moves leaf n p)
  ]

  -- A read of a node that is available gives it, up to its position.
  pub read_node-Available :
      (P : N → Type 0)
      → ((p : ℤ) (n : N) → P n → P (cls.set_pos p n))
      → (erases : Bool) (keep : ℤ → N → N) → ((p : ℤ) (n : N) → P n → P (keep p n))
      → (t : Tree N) (node n : N) (bid : Bid) (leaf : ℤ) → Available t bid leaf n
      → P n
      → Yields (λ r. P r.1) (read_node cls out erases keep t node bid leaf)
  unfolding read_node
  read_node-Available P moves erases keep keeps t node n bid leaf (real, inl cached) p = (
    (record t { modified = mark t.modified bid }, keep leaf n),
    rw (real, cached) refl,
    keeps leaf n p,
  )
  read_node-Available P moves erases keep keeps t node n bid leaf
        (real, inr (absent, (t', e, found))) p =
      (
        found_after cls out erases t' node bid leaf,
        rw (real, absent, e) refl,
        found_after-found P moves erases t' node n bid leaf found p,
      )

-- the trees of a store from a level of `midNode1`s on, against the pairs below a child
module _ (w : World) (mid2 : Tree MidNode2) (leaf : Tree LeafNode) where
  abbrev pub LeafStores : KpPair → List KvPair → Type 0
  LeafStores c xs =
      (l : LeafNode) × Available (leaf_class w.leaf_bytes w.levels) w.leaves leaf c.key c.pos l
      × IsLeaf l xs

  abbrev pub Mid2Stores : KpPair → List KvPair → Type 0
  Mid2Stores c xs =
      (m : MidNode2) × (cs : List KpPair) × Available (mid2_class w.mid2_bytes w.levels) w.mid2s
        mid2 c.key c.pos m
      × IsParent m cs
      × (0 < length cs)
      × Forest LeafStores cs xs

  abbrev pub Mid1Stores : ℕ → List (Tree MidNode1) → KpPair → List KvPair → Type 0
  Mid1Stores i [] c xs = Mid2Stores c xs
  Mid1Stores i (t ∷ ts) c xs =
      (m : MidNode1) × (cs : List KpPair) × Available (mid1_class w.mid1_bytes i) (w.mid1s i) t
        c.key c.pos m
      × IsParent m cs
      × (0 < length cs)
      × Forest (Mid1Stores (suc i) ts) cs xs

-- The client stores the pairs `xs`, in the order of their keys: its root has children, and every
-- node on a path down from them is available.
pub record Stores (w : World) (s : Store) (xs : List KvPair) : Type 0 where
  pub children : List KpPair
  pub holds : Holds root_slots s.root.child_map s.root.p1 children
  pub largest : s.root.max_value ≡ last_key s.root.max_value children
  pub some_children : 0 < length children
  pub below : Forest (Mid1Stores w s.mid2 s.leaf 0 s.mid1) children xs
  pub sorted : IsSorted xs
  pub all_levels : w.levels ≡ length s.mid1 + 3
