-- ===== src/TreePath.antt =====
-- The shape of an ORAM tree: `GetNodeOnPath` of src/ORAM.cpp and src/client.cpp, and the range of
-- `RandomPath` and the `RandomPos` functions of src/client.cpp. The depth `floor(log2(n / Z))` is
-- computed on integers: `n / Z` is an integer division there.
pub mod Levels
mod Examples
use bomap.Base.{ℕ, zero, suc, ◌+◌, ◌-◌, ◌*◌, ◌/◌, ◌^◌, ltb, if◌then◌else◌}
use bomap.Node.{mid_slots, root_slots}

-- `Z`: the blocks of a bucket
abbrev pub bucket_blocks : ℕ
bucket_blocks = 4

log2_loop : ℕ → ℕ → ℕ
log2_loop zero n = 0
log2_loop (suc fuel) n = let more = suc (log2_loop fuel (n / 2)) in if ltb 1 n then more else 0

-- `floor(log2(n))`; `n` rounds are enough, since each halves the number
unfoldable pub floor_log2 : ℕ → ℕ
unfolding log2_loop
floor_log2 n = log2_loop n n

-- the depth of a tree with `max_size` blocks
unfoldable pub depth_of : ℕ → ℕ
unfolding floor_log2
depth_of max_size = floor_log2 (max_size / bucket_blocks)

-- `bucketCount`
abbrev pub bucket_count : ℕ → ℕ
bucket_count depth = 2 ^ (depth + 1) - 1

-- `for (int d = depth - 1; d >= curDepth; d--) leaf = (leaf + 1) / 2 - 1;`
unfoldable pub climb : ℕ → ℕ → ℕ
climb zero node = node
climb (suc rounds) node = climb rounds ((node + 1) / 2 - 1)

-- the body of `GetNodeOnPath` at a depth
unfoldable pub node_at : ℕ → ℕ → ℕ → ℕ
unfolding climb
node_at depth leaf cur_depth = climb (depth - cur_depth) (leaf + bucket_count depth / 2)

-- `client::GetNodeOnPath(maxSize, leaf, curDepth)`
unfoldable pub get_node_on_path : ℕ → ℕ → ℕ → ℕ
unfolding depth_of node_at
get_node_on_path max_size leaf cur_depth = node_at (depth_of max_size) leaf cur_depth

-- the blocks of the leaf tree, of the `midNode2` tree and of the `midNode1` tree of a level
abbrev pub leaf_size : ℕ → ℕ
leaf_size levels = 2 * root_slots * mid_slots ^ (levels - 2)

abbrev pub mid2_size : ℕ → ℕ
mid2_size levels = 2 * root_slots * mid_slots ^ (levels - 3)

abbrev pub mid1_size : ℕ → ℕ
mid1_size level = 2 * root_slots * mid_slots ^ level

-- The largest value of `RandomPath(maxsize)`: the `double` bound `(2^depth - 1) / 2` is converted
-- to `int`.
unfoldable pub random_max : ℕ → ℕ
unfolding depth_of
random_max max_size = (2 ^ depth_of max_size - 1) / 2
