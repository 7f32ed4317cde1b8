-- ===== src/Map.antt =====
-- The whole client of src/client.cpp: the root, an ORAM tree for the leaves, one for the `midNode2`s
-- and one for each of the `L - 3` levels of `midNode1`s. An operation is a step on this state that
-- may fault: `none` is a read or a write outside an array. The vectors over the levels are lists.
pub mod Search
pub mod Insert
pub mod Delete
pub mod Finish
pub mod Calls
pub mod Init
pub mod Steps
pub mod Forest
pub mod Stored
pub mod Descend
pub mod Lookup
pub mod Pairs
pub mod Tops
pub mod Route
pub mod Cached
pub mod Shallow
pub mod Lower
pub mod Upper
pub mod Upsert
pub mod Replay
pub mod Linked
pub mod Consistent
pub mod First
mod Examples
use bomap.Base.{
  ℕ, suc, ◌+◌, Bool, true, false, if◌then◌else◌, List, Option, none, some, get_elem?, ℤ, ◌==◌,
}
use bomap.Bid
use bomap.Bid.{Bid}
use bomap.Node.{KpPair}
use bomap.Slots.{write}
use bomap.Leaf.{LeafNode}
use bomap.Mid2.{MidNode2}
use bomap.Mid1.{MidNode1}
use bomap.Root.{RootNode}
use bomap.TreePath.{leaf_size, mid2_size, mid1_size}
use bomap.Client.{Tree, Outside, find, erase}
use bomap.Client.Trees.{
  read_leaf_node, read_mid2_node, read_mid1_node, write_leaf_node, write_mid2_node, write_mid1_node,
}

-- `root`, the caches and what goes with them; `drawn` counts the random positions of the nodes
pub record Store : Type 0 where
  pub root : RootNode
  pub mid1 : List (Tree MidNode1)
  pub mid2 : Tree MidNode2
  pub leaf : Tree LeafNode
  pub drawn : ℕ

-- What an operation meets: the number of levels `L`, the sizes of the classes in memory, the three
-- kinds of trees on the service, and the positions that the random generator gives. `draw size i` is
-- the number `i` of all, for a tree of `size` blocks.
pub record World : Type 0 where
  pub levels : ℕ
  pub leaf_bytes : ℕ
  pub mid2_bytes : ℕ
  pub mid1_bytes : ℕ
  pub leaves : Outside LeafNode
  pub mid2s : Outside MidNode2
  pub mid1s : ℕ → Outside MidNode1
  pub draw : ℕ → ℕ → ℤ

abbrev pub Action : Type 0 → Type 0
Action A = Store → Option (A × Store)

abbrev pub pure : {A : Type 0} → A → Action A
pure a s = some (a, s)

infixl 5 ◌>>=◌ ◌>>◌
abbrev pub ◌>>=◌ : {A B : Type 0} → Action A → (A → Action B) → Action B
◌>>=◌ m f s = elim (m s) [ none ↦ none | some (a, s') ↦ f a s' ]

abbrev pub ◌>>◌ : {B : Type 0} → Action (Unit {0}) → Action B → Action B
m >> k = m >>= λ _. k

abbrev pub lift : {A : Type 0} → Option A → Action A
lift none s = none
lift (some a) s = some (a, s)

-- `if (test) act`
abbrev pub when : Bool → Action (Unit {0}) → Action (Unit {0})
when true act s = act s
when false act s = some (tt, s)

-- a step on one part of the state, by what it does to the part
abbrev pub at_root : {A : Type 0} → (RootNode → Option (A × RootNode)) → Action A
at_root f s = elim (f s.root) [ none ↦ none | some (a, r) ↦ some (a, record s { root = r }) ]

abbrev pub at_leaf : {A : Type 0} → (Tree LeafNode → Option (Tree LeafNode × A)) → Action A
at_leaf f s = elim (f s.leaf) [ none ↦ none | some (t, a) ↦ some (a, record s { leaf = t }) ]

abbrev pub at_mid2 : {A : Type 0} → (Tree MidNode2 → Option (Tree MidNode2 × A)) → Action A
at_mid2 f s = elim (f s.mid2) [ none ↦ none | some (t, a) ↦ some (a, record s { mid2 = t }) ]

-- `mid1cache[i]` and its fellows
abbrev put_mid1 : {A : Type 0} → ℕ → Tree MidNode1 × A → Action A
put_mid1 i (t, a) s = elim (write s.mid1 i t) [
  | none ↦ none
  | some ts ↦ some (a, record s { mid1 = ts })
]

abbrev step_mid1 :
    {A : Type 0}
    → (Tree MidNode1 → Option (Tree MidNode1 × A))
    → Option (Tree MidNode1)
    → Option (Tree MidNode1 × A)
step_mid1 f none = none
step_mid1 f (some t) = f t

abbrev pub at_mid1 : {A : Type 0} → ℕ → (Tree MidNode1 → Option (Tree MidNode1 × A)) → Action A
at_mid1 i f s = elim (step_mid1 f (get_elem? s.mid1 i)) [ none ↦ none | some r ↦ put_mid1 i r s ]

-- `if (cache.count(k) != 0) cache.erase(k)`
abbrev pub forget : {N : Type 0} → Bid → Tree N → Option (Tree N × Unit {0})
forget k t = some (record t { cache = erase t.cache k }, tt)

module _ (w : World) where
  -- `RandomPath(size)`, `leafRandomPos()`, `mid2RandomPos()` and `mid1RandomPos(i)`
  abbrev pub random_pos : ℕ → Action ℤ
  random_pos size s = some (w.draw size s.drawn, record s { drawn = suc s.drawn })

  abbrev pub leaf_random_pos : Action ℤ
  leaf_random_pos = random_pos (leaf_size w.levels)

  abbrev pub mid2_random_pos : Action ℤ
  mid2_random_pos = random_pos (mid2_size w.levels)

  abbrev pub mid1_random_pos : ℕ → Action ℤ
  mid1_random_pos i = random_pos (mid1_size i)

  abbrev pub read_leaf : LeafNode → Bid → ℤ → Action LeafNode
  read_leaf node bid p = at_leaf λ t. read_leaf_node w.leaf_bytes w.levels w.leaves t node bid p

  abbrev pub read_mid2 : MidNode2 → Bid → ℤ → Action MidNode2
  read_mid2 node bid p = at_mid2 λ t. read_mid2_node w.mid2_bytes w.levels w.mid2s t node bid p

  abbrev pub read_mid1 : MidNode1 → Bid → ℤ → ℕ → Action MidNode1
  read_mid1 node bid p i = at_mid1 i λ t. read_mid1_node w.mid1_bytes i (w.mid1s i) t node bid p

  abbrev pub write_leaf : Bool → Bid → LeafNode → Action ℤ
  write_leaf incache bid node =
      at_leaf λ t. write_leaf_node w.leaf_bytes w.levels w.leaves t incache bid node

  abbrev pub write_mid2 : Bool → Bid → MidNode2 → Action ℤ
  write_mid2 incache bid node =
      at_mid2 λ t. write_mid2_node w.mid2_bytes w.levels w.mid2s t incache bid node

  abbrev pub write_mid1 : Bool → Bid → MidNode1 → ℕ → Action ℤ
  write_mid1 incache bid node i =
      at_mid1 i λ t. write_mid1_node w.mid1_bytes i (w.mid1s i) t incache bid node
