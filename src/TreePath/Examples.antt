-- ===== src/TreePath/Examples.antt =====
-- Paths in a tree of depth 3, and in the smallest `midNode1` tree of src/client.cpp.
use bomap.Base.{◌≡◌, ◌≤◌, ◌<◌, ◌+◌, ◌-◌, ◌/◌, ◌^◌, refl, arith}
use bomap.TreePath.{node_at, get_node_on_path, bucket_count, depth_of, mid1_size, random_max}
use bomap.TreePath.Levels.{node_at-level, node_at_bounds, node_at-random_max}

node_at-level_example : node_at 3 6 2 ≡ 2 ^ 2 - 1 + 6 / 2 ^ (3 - 2)
node_at-level_example = node_at-level 3 6 2 (omega arith)

node_at_bounds_example :
    (2 ^ 2 - 1 ≤ node_at 3 6 2)
    × (node_at 3 6 2 < 2 ^ (2 + 1) - 1)
    × (node_at 3 6 2 < bucket_count 3)
node_at_bounds_example = node_at_bounds 3 6 2 (omega arith) (omega arith)

depth_of_mid1 : depth_of (mid1_size 0) ≡ 3
unfolding depth_of
depth_of_mid1 = refl

random_max_mid1 : random_max (mid1_size 0) ≡ 3
unfolding random_max
random_max_mid1 = refl

node_at-random_max_example : get_node_on_path (mid1_size 0) 3 1 ≡ 1
node_at-random_max_example =
    node_at-random_max (mid1_size 0) 3 (omega (arith, depth_of_mid1))
      (omega (arith, random_max_mid1))
