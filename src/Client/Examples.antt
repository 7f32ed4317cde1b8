-- ===== src/Client/Examples.antt =====
-- A leaf tree of src/client.cpp with two cached leaves, and a server whose buckets are all zero.
use bomap.Base.{
  ◌≡◌, ◌≤◌, minus_one, refl, [], ◌∷◌, some, none, ℤ, pos, arith, replicate, true, false,
  if◌then◌else◌, ◌>>=◌, ◌⊎◌, length, ℕ, inr,
}
use bomap.Bid
use bomap.Bid.{Bid}
use bomap.Cipher.{get_ciphertext_length}
use bomap.TreePath.{bucket_blocks, get_node_on_path}
use bomap.Slots.Holds.{Yields}
use bomap.Leaf.{LeafNode, single_leaf}
use bomap.Client.{
  Tree, Outside, find, assign, mark, read_failed, node_of, intersecting, nodes, write_path,
  write_node, read_node, fetch_path, finalize, finalize2, NodeClass,
}
use bomap.Client.Positions.{node_of-pos, node_of-minus_one}
use bomap.Client.Once.{Adds, finalize2-Adds}
use bomap.Client.Access.{read_node-write_node}
use bomap.Client.Reads.{IsReply, Padded, finalize-Padded, fetch_path-read_failed}
use bomap.Client.Writes.{IsMap, AllPass, NonePass, or_else, write_path_lem}
use bomap.Client.Trees.{leaf_class}

abbrev key : ℕ → Bid
key n = Bid.of_int (pos n)

-- a client with two levels of middle nodes; the size of the class is only an example
abbrev leaves : NodeClass LeafNode
leaves = leaf_class 1 3

abbrev server : Outside LeafNode
server = record {
  draw = λ i. pos 1;
  reply = λ i p. replicate 32 0;
  open_bucket = λ s. single_leaf (key 7) (pos 70) ∷ [];
  seal_bucket = λ ns. length ns ∷ [];
}

-- the same with a failing call
abbrev no_server : Outside LeafNode
no_server = record server { reply = λ i p. read_failed }

abbrev tree : Tree LeafNode
tree = record {
  cache =
      (key 1, single_leaf (key 1) (pos 10))
      ∷ (key 2, record (single_leaf (key 2) (pos 20)) { pos = pos 5 })
      ∷ [];
  modified = key 1 ∷ [];
  leaf_list = pos 0 ∷ [];
  write_view = [];
  read_cnt = 1;
}

tree-IsMap : IsMap tree.cache
unfolding Bid.eq Bid.of_int
tree-IsMap = (refl, (refl, tt))

key-ne_zero : Bid.eq_int (key 2) (pos 0) ≡ false
unfolding Bid.eq_int Bid.of_int
key-ne_zero = refl

same_bucket : node_of leaves.max_size (pos 5) 2 ≡ pos (get_node_on_path leaves.max_size 5 2)
same_bucket = node_of-pos leaves.max_size 5 2

left_of_root : node_of leaves.max_size minus_one 0 ≡ minus_one
left_of_root = node_of-minus_one leaves.max_size

replies : (i : ℕ) (p : ℤ) → IsReply leaves server (server.reply i p)
unfolding leaf_class get_ciphertext_length
replies i p = inr (1, refl)

finalize-Padded_example : Yields (Padded leaves server 2 tree) (finalize leaves server tree)
finalize-Padded_example = finalize-Padded leaves server replies tree (omega arith)

fetch_path-read_failed_example : fetch_path leaves no_server tree (pos 3) ≡ none
fetch_path-read_failed_example = fetch_path-read_failed leaves no_server tree (pos 3) refl

write_path_lem_example :
    let node = node_of leaves.max_size (pos 0) 1 in
    let block = intersecting leaves bucket_blocks node 1 tree.cache in
    let after = write_path leaves server tree (pos 0) 1 in
    (length block ≤ bucket_blocks)
    × AllPass leaves node 1 block
    × ((length block ≡ bucket_blocks) ⊎ NonePass leaves node 1 after.0.cache)
    × (or_else (find block (key 1)) (find after.0.cache (key 1)) ≡ find tree.cache (key 1))
    × ((find block (key 1) ≡ none) ⊎ (find after.0.cache (key 1) ≡ none))
    × (after.1 ≡ some (server.seal_bucket (nodes block)))
    × (after.0.write_view ≡ node ∷ tree.write_view)
write_path_lem_example = write_path_lem leaves server tree (pos 0) 1 (key 1) tree-IsMap refl

read_node-write_node_example :
    let node = single_leaf (key 2) (pos 22) in
    let moved = λ (p : ℤ) (l : LeafNode). record l { pos = p } in
    let stored = record tree {
      cache = assign tree.cache (key 2) node;
      modified = mark (mark tree.modified (key 2)) (key 2);
    } in
    ((write_node leaves server tree true (key 2) node >>= λ w.
    read_node leaves server false moved w.0 node (key 2) (pos 4))
      ≡ some (stored, moved (pos 4) node))
    × (find stored.cache (key 1)
        ≡ (if Bid.eq (key 2) (key 1) then some node else find tree.cache (key 1)))
read_node-write_node_example =
    read_node-write_node leaves server tree false (λ p l. record l { pos = p })
      (single_leaf (key 2) (pos 22)) (single_leaf (key 2) (pos 22)) (key 2) (key 1) (pos 4)
      key-ne_zero

finalize2-Adds_example :
    Adds [] (finalize2 leaves server tree).0.write_view (finalize2 leaves server tree).1
finalize2-Adds_example = finalize2-Adds leaves server tree tt
