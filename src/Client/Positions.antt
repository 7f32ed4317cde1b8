-- ===== src/Client/Positions.antt =====
-- `client::GetNodeOnPath` of src/client.cpp at the positions that the client uses: those from 0, where it
-- agrees with `ORAM::GetNodeOnPath` of src/ORAM.cpp, and the -1 of an empty slot.
use native.Mathlib.Nat.{pow-suc}
use bomap.Base.{
  ℕ, zero, suc, ◌+◌, ◌-◌, ◌/◌, ◌^◌, ◌≤◌, ◌≡◌, refl, ap, ◌∙◌, ltb, false, pos, minus_one, arith,
}
use bomap.TreePath.{climb, node_at, bucket_count, depth_of, get_node_on_path}
use bomap.TreePath.Levels.{pow-pos, pow-le, first_leaf}
use bomap.Client.{parent, climb_int, leaf_node, node_of}

-- from a bucket with at least `rounds` levels above it the loop does not pass the root
climb_int-climb :
    (rounds node : ℕ)
    → 2 ^ rounds ≤ node + 1
    → climb_int rounds (pos node) ≡ pos (climb rounds node)
unfolding climb_int climb
climb_int-climb zero node h = refl
climb_int-climb (suc rounds) node h =
    let deep : ltb node 1 ≡ false = ground (arith, h, pow-suc 2 rounds, pow-pos rounds) in
    rw deep (
      climb_int-climb rounds ((node + 1) / 2 - 1)
        (omega (arith, h, pow-suc 2 rounds, pow-pos rounds)))

-- the client's bucket for a position from 0 is the one on the path that the service sends
pub node_of-pos :
    (max_size leaf d : ℕ) → node_of max_size (pos leaf) d ≡ pos (get_node_on_path max_size leaf d)
unfolding node_of leaf_node get_node_on_path node_at
node_of-pos max_size leaf d =
    let depth = depth_of max_size in
    climb_int-climb (depth - d) (leaf + bucket_count depth / 2)
      (omega (arith, first_leaf depth leaf, pow-pos depth, pow-le (depth - d) depth (omega arith)))

-- the bucket to the left of a level's first one: its parent is the one to the left of the next level
edge_step :
    (depth : ℕ)
    → parent (leaf_node (2 ^ suc depth - 1) minus_one) ≡ leaf_node (2 ^ depth - 1) minus_one
unfolding parent leaf_node
edge_step depth = ground (arith, pow-suc 2 depth, pow-pos depth)

edge : (depth : ℕ) → climb_int depth (leaf_node (2 ^ depth - 1) minus_one) ≡ minus_one
unfolding climb_int leaf_node
edge zero = refl
edge (suc depth) = ap (climb_int depth) (edge_step depth) ∙ edge depth

-- on the level of the root, the position -1 has the bucket -1, where no bucket is
pub node_of-minus_one : (max_size : ℕ) → node_of max_size minus_one 0 ≡ minus_one
unfolding node_of
node_of-minus_one max_size =
    let depth = depth_of max_size in
    let levels : depth - 0 ≡ depth = omega arith in
    let half : bucket_count depth / 2 ≡ 2 ^ depth - 1 = omega (arith, first_leaf depth 0) in
    ap (λ r. climb_int r (leaf_node (bucket_count depth / 2) minus_one)) levels
    ∙ ap (λ h. climb_int depth (leaf_node h minus_one)) half
    ∙ edge depth
