-- ===== src/Map/Examples.antt =====
-- A client of src/client.cpp whose three levels are cached: two leaves below one `midNode2`. The
-- second leaf was used and gets a new position.
mod Runs
use bomap.Base.{
  ◌≡◌, refl, List, [], ◌∷◌, ◌++◌, length, some, pos, arith, replicate, false, ℕ, ◌-◌, inl,
}
use bomap.Bid
use bomap.Bid.{Bid}
use bomap.Bid.Order.{value}
use bomap.Node.{KvPair, KpPair, no_value, no_child, leaf_slots, mid_slots, root_slots}
use bomap.Slots.Holds.{Yields}
use bomap.Leaf.{LeafNode}
use bomap.Leaf.Spec.{IsLeaf, IsSorted, pair, lookup}
use bomap.Leaf.Search.{found_or}
use bomap.Inner.{Inner}
use bomap.Inner.Insert.{IsParent}
use bomap.Root.{RootNode}
use bomap.Client.{Tree, Outside, find}
use bomap.Map.{Store, World}
use bomap.Map.Search.{search}
use bomap.Map.Stored.{Stores}
use bomap.Map.Lookup.{search-lookup}
use bomap.Map.Finish.{reposition}
use bomap.Map.Consistent.{Consistent, reposition-Consistent}
use bomap.Map.Insert.{insert}
use bomap.Map.First.Finds.{insert-search_first}
use bomap.Client.Trees.{leaf_class, mid2_class}
use bomap.Client.{chunk_size}
use bomap.Base.{inr, if◌then◌else◌, ◌*◌}
use bomap.Root.{empty_root}
use bomap.Map.{◌>>=◌}

-- the key whose first byte is `n`
abbrev key : ℕ → Bid
key n = Bid.of_int (pos n)

abbrev child : ℕ → ℕ → KpPair
child k p = record { key = key k; pos = pos p }

abbrev low_pairs : List KvPair
low_pairs = pair (key 1) (pos 10) ∷ pair (key 2) (pos 20) ∷ []

abbrev high_pairs : List KvPair
high_pairs = pair (key 5) (pos 50) ∷ pair (key 7) (pos 70) ∷ []

abbrev leaf_of : List KvPair → Bid → ℕ → LeafNode
leaf_of xs k p = record {
  arr = xs ++ replicate (leaf_slots - length xs) no_value;
  old_max = k;
  max_value = k;
  pos = pos p;
  c = length xs;
}

abbrev children : List KpPair
children = child 2 0 ∷ child 7 1 ∷ []

abbrev parent : Inner
parent = record {
  child_map = children ++ replicate (mid_slots - 2) no_child;
  old_max = key 7;
  max_value = key 7;
  pos = pos 1;
  p2 = 2;
}

abbrev root : RootNode
root = record {
  child_map = child 7 1 ∷ replicate (root_slots - 1) no_child;
  max_value = key 7;
  p1 = 1;
}

abbrev tree : {N : Type 0} → List (Bid × N) → Tree N
tree c = record { cache = c; modified = []; leaf_list = []; write_view = []; read_cnt = 0 }

abbrev store : Store
store = record {
  root = root;
  mid1 = [];
  mid2 = tree ((key 7, parent) ∷ []);
  leaf =
      record (tree
        ((key 2, leaf_of low_pairs (key 2) 0) ∷ (key 7, leaf_of high_pairs (key 7) 1) ∷ [])) {
          modified = key 7 ∷ [];
        };
  drawn = 0;
}

-- a service whose buckets are empty
abbrev no_blocks : {N : Type 0} → Outside N
no_blocks = record {
  draw = λ i. pos 1;
  reply = λ i p. [];
  open_bucket = λ s. [];
  seal_bucket = λ ns. [];
}

abbrev world : World
world = record {
  levels = 3;
  leaf_bytes = 1;
  mid2_bytes = 1;
  mid1_bytes = 1;
  leaves = no_blocks;
  mid2s = no_blocks;
  mid1s = λ i. no_blocks;
  draw = λ size i. pos 3;
}

all_pairs-IsSorted : IsSorted (low_pairs ++ high_pairs)
unfolding Bid.of_int value
all_pairs-IsSorted = ground arith

low-IsLeaf : IsLeaf (leaf_of low_pairs (key 2) 0) low_pairs
low-IsLeaf = record {
  holds = record {
    rest = replicate (leaf_slots - 2) no_value;
    layout = refl;
    count = refl;
    size = refl;
  };
  sorted = ((all_pairs-IsSorted.0.0, tt), (tt, tt));
  largest = refl;
}

high-IsLeaf : IsLeaf (leaf_of high_pairs (key 7) 1) high_pairs
high-IsLeaf = record {
  holds = record {
    rest = replicate (leaf_slots - 2) no_value;
    layout = refl;
    count = refl;
    size = refl;
  };
  sorted = all_pairs-IsSorted.1.1;
  largest = refl;
}

parent-IsParent : IsParent parent children
parent-IsParent = record {
  holds = record {
    rest = replicate (mid_slots - 2) no_child;
    layout = refl;
    count = refl;
    size = refl;
  };
  largest = refl;
}

none_of : (n : ℕ) → 0 ≡ 0 * n
none_of n = omega arith

real : (Bid.eq_int (key 2) (pos 0) ≡ false) × (Bid.eq_int (key 7) (pos 0) ≡ false)
unfolding Bid.eq_int Bid.of_int
real = (refl, refl)

low_cached : find store.leaf.cache (key 2) ≡ some (leaf_of low_pairs (key 2) 0)
unfolding Bid.eq Bid.of_int
low_cached = refl

high_cached : find store.leaf.cache (key 7) ≡ some (leaf_of high_pairs (key 7) 1)
unfolding Bid.eq Bid.of_int
high_cached = refl

parent_cached : find store.mid2.cache (key 7) ≡ some parent
unfolding Bid.eq Bid.of_int
parent_cached = refl

store-Stores : Stores world store (low_pairs ++ high_pairs)
store-Stores = record {
  children = child 7 1 ∷ [];
  holds = record {
    rest = replicate (root_slots - 1) no_child;
    layout = refl;
    count = refl;
    size = refl;
  };
  largest = refl;
  some_children = omega arith;
  below = (
    low_pairs ++ high_pairs,
    [],
    (
      parent,
      children,
      (real.1, inl parent_cached),
      parent-IsParent,
      omega arith,
      (
        low_pairs,
        high_pairs,
        (leaf_of low_pairs (key 2) 0, (real.0, inl low_cached), low-IsLeaf),
        omega arith,
        refl,
        (
          high_pairs,
          [],
          (leaf_of high_pairs (key 7) 1, (real.1, inl high_cached), high-IsLeaf),
          omega arith,
          refl,
          refl,
          refl,
        ),
        refl,
      ),
    ),
    omega arith,
    refl,
    refl,
    refl,
  );
  sorted = all_pairs-IsSorted;
  all_levels = refl;
}

search-lookup_example :
    Yields
      (λ r. r.0 ≡ found_or no_value (key 5) (lookup (key 5) (low_pairs ++ high_pairs)))
      (search world no_value (key 5) store)
search-lookup_example =
    search-lookup world (key 5) store (low_pairs ++ high_pairs) no_value store-Stores

reposition-Consistent_example : Yields Consistent (reposition world store)
reposition-Consistent_example = reposition-Consistent world store (omega arith, tt) tt (omega arith)

abbrev new_store : Store
new_store = record store { root = empty_root; mid2 = tree []; leaf = tree [] }

insert-search_first_example :
    Yields
      (λ r. r.0 ≡ (if Bid.eq (key 2) (key 3) then pair (key 3) (pos 20) else no_value))
      ((insert world (key 2) (pos 20) >>= λ _. search world no_value (key 3)) new_store)
insert-search_first_example =
    insert-search_first world (key 2) (key 3) (pos 20) no_value new_store refl refl refl real.0
      (λ i p. inr (0, none_of (chunk_size (leaf_class 1 3) world.leaves)))
      (λ i p. inr (0, none_of (chunk_size (mid2_class 1 3) world.mid2s)))
