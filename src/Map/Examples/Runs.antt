-- ===== src/Map/Examples/Runs.antt =====
-- Insertions into the cached client of the parent module, and runs from a new client on.
use bomap.Base.{◌≡◌, refl, List, [], ◌∷◌, ◌++◌, none, pos, arith, replicate, ◌-◌, inr}
use bomap.Bid
use bomap.Bid.{Bid}
use bomap.Node.{KpPair, Side, no_child, root_slots}
use bomap.Slots.Holds.{Yields}
use bomap.Leaf.Spec.{upsert, lookup}
use bomap.Client.{chunk_size}
use bomap.Client.Trees.{leaf_class, mid2_class}
use bomap.Map.Insert.{insert}
use bomap.Inner.{search_slots, search_neighbor}
use bomap.Map.Forest.{Forest}
use bomap.Map.Route.{Route}
use bomap.Map.Route.Neighbor.{beside, search_neighbor_correct}
use bomap.Map.Cached.{Cached, LeafCached}
use bomap.Map.Upsert.{NothingStored, insert-Cached}
use bomap.Map.Replay.{Call, put, get, run, answers, AllReal, run-answers}
use bomap.Map.First.Runs.{run-new_answers}
use bomap.Map.Examples.{
  key, child, low_pairs, high_pairs, leaf_of, children, parent, store, new_store, world, none_of,
  all_pairs-IsSorted, low-IsLeaf, high-IsLeaf, parent-IsParent, real, low_cached, high_cached,
  parent_cached,
}
use bomap.Base.{false, some}

nothing : NothingStored world
nothing = (
  ((λ i p. inr (0, none_of (chunk_size (leaf_class 1 3) world.leaves))), λ s. tt),
  ((λ i p. inr (0, none_of (chunk_size (mid2_class 1 3) world.mid2s))), λ s. tt),
)

odd_real :
    (Bid.eq_int (key 1) (pos 0) ≡ false)
    × (Bid.eq_int (key 3) (pos 0) ≡ false)
    × (Bid.eq_int (key 5) (pos 0) ≡ false)
unfolding Bid.eq_int Bid.of_int
odd_real = (refl, refl, refl)

leaves-Forest : Forest (LeafCached store.leaf) children (low_pairs ++ high_pairs)
leaves-Forest = (
  low_pairs,
  high_pairs,
  (leaf_of low_pairs (key 2) 0, real.0, low_cached, low-IsLeaf, refl),
  omega arith,
  refl,
  (
    high_pairs,
    [],
    (leaf_of high_pairs (key 7) 1, real.1, high_cached, high-IsLeaf, refl),
    omega arith,
    refl,
    refl,
    refl,
  ),
  refl,
)

store-Cached : Cached 1 world store (low_pairs ++ high_pairs)
store-Cached = record {
  children = child 7 1 ∷ [];
  holds = record {
    rest = replicate (root_slots - 1) no_child;
    layout = refl;
    count = refl;
    size = refl;
  };
  largest = refl;
  some_children = omega arith;
  few_children = omega arith;
  below = (
    low_pairs ++ high_pairs,
    [],
    (parent, children, real.1, parent_cached, parent-IsParent, omega arith, refl, leaves-Forest),
    omega arith,
    refl,
    refl,
    refl,
  );
  sorted = all_pairs-IsSorted;
  real = (odd_real.0, (real.0, (odd_real.2, (real.1, tt))));
  three_levels = refl;
  no_mid1s = refl;
}

insert-Cached_example :
    Yields
      (λ r. Cached 2 world r.1 (upsert (key 3) (pos 30) (low_pairs ++ high_pairs)))
      (insert world (key 3) (pos 30) store)
insert-Cached_example =
    insert-Cached 1 world store (low_pairs ++ high_pairs) (key 3) (pos 30) store-Cached nothing
      (omega arith) odd_real.1

abbrev calls : List Call
calls = get (key 5) ∷ put (key 5) (pos 55) ∷ put (key 3) (pos 30) ∷ get (key 5) ∷ get (key 1) ∷ []

calls-AllReal : AllReal calls
calls-AllReal = (odd_real.2, (odd_real.1, tt))

run-answers_example :
    Yields
      (λ r. r.0 ≡ answers calls (λ j. lookup j (low_pairs ++ high_pairs)))
      (run world calls store)
run-answers_example =
    run-answers calls 1 world store (low_pairs ++ high_pairs) store-Cached nothing (omega arith)
      calls-AllReal

run-new_answers_example :
    Yields
      (λ r. r.0 ≡ answers (put (key 2) (pos 20) ∷ calls) (λ _. none))
      (run world (put (key 2) (pos 20) ∷ calls) new_store)
run-new_answers_example =
    run-new_answers world (key 2) (pos 20) calls new_store refl refl refl nothing
      (real.0, calls-AllReal) (omega arith)

search_neighbor_correct_example :
    (r : Route (LeafCached store.leaf) (key 5) children (low_pairs ++ high_pairs)) × (search_slots
        parent.child_map parent.p2 parent.max_value
        (key 5)
      ≡ some r.child)
    × ((side : Side) (nb : KpPair)
        → search_neighbor parent (key 5) nb side ≡ some (beside side nb r.front r.child r.back))
search_neighbor_correct_example =
    search_neighbor_correct (LeafCached store.leaf) (key 5) parent children
      (low_pairs ++ high_pairs) parent-IsParent (omega arith) leaves-Forest all_pairs-IsSorted
