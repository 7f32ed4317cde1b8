-- ===== src/Leaf/Examples.antt =====
-- The leaves of src/node.cpp on concrete pairs: one with two pairs, one that is full, an empty one.
use bomap.Base.{
  none, ◌≡◌, refl, List, [], ◌∷◌, some, pos, arith, replicate, if◌then◌else◌, ◌>>=◌, ℕ,
}
use bomap.Bid
use bomap.Bid.{Bid}
use bomap.Bid.Order.{value}
use bomap.Node.{left, KvPair, no_value, leaf_slots}
use bomap.Slots.Holds.{Holds, Yields}
use bomap.Leaf.Rebalance.{IsOrdered}
use bomap.Leaf.Delete.{Deletes, delete_correct, delete_only}
use bomap.Leaf.{LeafNode, delete, single_leaf, empty_leaf, insert, search}
use bomap.Leaf.Spec.{IsLeaf, IsSorted, IsSorted-append, pair, lookup, upsert}
use bomap.Leaf.Correct.{Inserted, insert_correct}
use bomap.Leaf.Search.{found_or, search_correct, insert-search}

-- the key whose first byte is `n`
abbrev key : ℕ → Bid
key n = Bid.of_int (pos n)

abbrev full_pairs : List KvPair
full_pairs =
    pair (key 1) (pos 10)
    ∷ pair (key 2) (pos 20)
    ∷ pair (key 3) (pos 30)
    ∷ pair (key 5) (pos 50)
    ∷ pair (key 6) (pos 60)
    ∷ pair (key 7) (pos 70)
    ∷ pair (key 8) (pos 80)
    ∷ pair (key 9) (pos 90)
    ∷ []

abbrev full_leaf : LeafNode
full_leaf = record { arr = full_pairs; old_max = key 9; max_value = key 9; pos = pos 2; c = 8 }

full_pairs-IsSorted : IsSorted full_pairs
unfolding Bid.of_int value
full_pairs-IsSorted = ground arith

full_leaf-IsLeaf : IsLeaf full_leaf full_pairs
full_leaf-IsLeaf = record {
  holds = record { rest = []; layout = refl; count = refl; size = refl };
  sorted = full_pairs-IsSorted;
  largest = refl;
}

empty_leaf-IsLeaf : IsLeaf empty_leaf []
unfolding empty_leaf
empty_leaf-IsLeaf = record {
  holds = record { rest = replicate leaf_slots no_value; layout = refl; count = refl; size = refl };
  sorted = tt;
  largest = refl;
}

insert_correct_example :
    Yields
      (Inserted (upsert (key 4) (pos 40) full_pairs) full_leaf empty_leaf)
      (insert full_leaf empty_leaf (key 4) (pos 40))
insert_correct_example =
    insert_correct full_leaf empty_leaf (key 4) (pos 40) full_pairs full_leaf-IsLeaf
      empty_leaf-IsLeaf refl

search_correct_example :
    search full_leaf (key 5) no_value ≡ some (found_or no_value (key 5) (lookup (key 5) full_pairs))
search_correct_example = search_correct full_leaf full_pairs (key 5) no_value full_leaf-IsLeaf

insert-search_example :
    Yields
      (λ r. (search r.1 (key 5) no_value >>= search r.0 (key 5)) ≡ (
        if Bid.eq (key 4) (key 5)
        then some (pair (key 5) (pos 40))
        else search full_leaf (key 5) no_value))
      (insert full_leaf empty_leaf (key 4) (pos 40))
insert-search_example =
    insert-search full_leaf empty_leaf (key 4) (key 5) (pos 40) no_value full_pairs full_leaf-IsLeaf
      empty_leaf-IsLeaf refl

abbrev small_pairs : List KvPair
small_pairs = pair (key 10) (pos 100) ∷ pair (key 11) (pos 110) ∷ []

abbrev small_leaf : LeafNode
small_leaf = record {
  arr = pair (key 10) (pos 100) ∷ pair (key 11) (pos 110) ∷ replicate 6 no_value;
  old_max = key 11;
  max_value = key 11;
  pos = pos 3;
  c = 2;
}

both-IsOrdered : IsOrdered left full_pairs small_pairs
unfolding Bid.of_int value
both-IsOrdered = ground arith

small_leaf-IsLeaf : IsLeaf small_leaf small_pairs
small_leaf-IsLeaf = record {
  holds = record { rest = replicate 6 no_value; layout = refl; count = refl; size = refl };
  sorted = (IsSorted-append full_pairs small_pairs both-IsOrdered).1;
  largest = refl;
}

delete_correct_example :
    Yields
      (Deletes left full_pairs small_pairs (key 10) small_leaf full_leaf)
      (delete small_leaf full_leaf left (key 10))
delete_correct_example =
    delete_correct small_leaf full_leaf left (key 10) small_pairs full_pairs small_leaf-IsLeaf
      full_leaf-IsLeaf both-IsOrdered (omega arith)

single_leaf-Holds :
    Holds leaf_slots
      (single_leaf (key 4) (pos 40)).arr
      (single_leaf (key 4) (pos 40)).c
      (pair (key 4) (pos 40) ∷ [])
unfolding single_leaf
single_leaf-Holds = record { rest = replicate 7 no_value; layout = refl; count = refl; size = refl }

empty_leaf-c : empty_leaf.c ≡ 0
unfolding empty_leaf
empty_leaf-c = refl

delete_only_example : delete (single_leaf (key 4) (pos 40)) empty_leaf left (key 4) ≡ none
delete_only_example =
    delete_only (single_leaf (key 4) (pos 40)) empty_leaf left (key 4) (pos 40) single_leaf-Holds
      empty_leaf-c
