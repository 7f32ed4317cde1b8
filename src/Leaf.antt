-- ===== src/Leaf.antt =====
-- `leafNode` of src/node.hpp and src/node.cpp: the leaves, which store the pairs. A method returns
-- the node and the other node that it writes; `none` is a read or a write outside an array.
pub mod Spec
pub mod Insert
pub mod Split
pub mod Correct
pub mod Search
pub mod Rebalance
pub mod Delete
mod Examples
use bomap.Base.{
  ℕ, zero, suc, ◌+◌, ◌-◌, Bool, true, false, leb, ltb, ◌==◌, if◌then◌else◌, List, [], ◌∷◌, Option,
  some, get_elem?, replicate, ◌>>=◌, ℤ, pos,
}
use bomap.Bid
use bomap.Bid.{Bid}
use bomap.Node.{KvPair, no_value, leaf_slots, half, Side, left, neither, right}
use bomap.Slots.{
  write, read_last, find_first, insert_at, remove_at, split, push, merge_left, merge_right,
  borrow_left, borrow_right,
}

pub record LeafNode : Type 0 where
  pub arr : List KvPair
  pub old_max : Bid
  pub max_value : Bid
  pub pos : ℤ
  pub c : ℕ

-- `leafNode()`; the source leaves `pos` undefined, and every caller assigns it
unfoldable pub empty_leaf : LeafNode
empty_leaf = record {
  arr = replicate leaf_slots no_value;
  old_max = Bid.blank;
  max_value = Bid.blank;
  pos = pos 0;
  c = 0;
}

-- `leafNode(Bid k, int v)`
unfoldable pub single_leaf : Bid → ℤ → LeafNode
unfolding empty_leaf
single_leaf k v = record empty_leaf {
  arr = record { key = k; value = v } ∷ replicate (leaf_slots - 1) no_value;
  max_value = k;
  c = 1;
}

-- where the loop over a leaf with room stops: at the key, or at the first slot above it
pub data Stop : Type 0 where
  hit : ℕ → Stop
  gap : ℕ → Stop

unfoldable pub scan : ℕ → List KvPair → ℕ → Bid → Option Stop
scan zero a i k = some (gap i)
scan (suc r) a i k = get_elem? a i >>= λ x. elim (Bid.eq x.key k) [
  | true ↦ some (hit i)
  | false ↦ elim (Bid.gt x.key k) [ true ↦ some (gap i) | false ↦ scan r a (suc i) k ]
]

unfoldable pub set_value : List KvPair → ℕ → ℤ → Option (List KvPair)
set_value a i v = get_elem? a i >>= λ x. write a i (record x { value = v })

-- the branch `c < C` of `Insert`
unfoldable pub insert_room : LeafNode → Bid → ℤ → Option LeafNode
unfolding scan set_value insert_at
insert_room l k v = scan l.c l.arr 0 k >>= λ s. elim s [
  | hit i ↦ set_value l.arr i v >>= λ a. some (record l { arr = a })
  | gap i ↦ do
    a ← insert_at l.arr l.c i (record { key = k; value = v })
    x ← read_last a (suc l.c)
    some (record l { arr = a; c = suc l.c; old_max = l.max_value; max_value = x.key })
]

-- what the loop over a full leaf has done: written the value over the old one, or filled `full`
pub data Filled : Type 0 where
  replaced : List KvPair → Filled
  filled : List KvPair → Bool → Filled

unfoldable pub fill_loop : ℕ → List KvPair → ℕ → KvPair → List KvPair → Bool → Option Filled
unfolding set_value push
fill_loop zero a i kv full written = some (filled full written)
fill_loop (suc r) a i kv full written = get_elem? a i >>= λ x. elim (Bid.lt x.key kv.key) [
  | true ↦ push (leaf_slots + 1) full x >>= λ f. fill_loop r a (suc i) kv f written
  | false ↦ elim (Bid.eq x.key kv.key) [
    | true ↦ set_value a i kv.value >>= λ b. some (replaced b)
    | false ↦ elim (Bid.gt x.key kv.key) [
      | true ↦ (if written then some full else push (leaf_slots + 1) full kv) >>= λ f.
          push (leaf_slots + 1) f x >>= λ g. fill_loop r a (suc i) kv g true
      | false ↦ fill_loop r a (suc i) kv full written
    ]
  ]
]

-- the end of the branch `c >= C` of `Insert`
unfoldable pub split_leaf : LeafNode → LeafNode → List KvPair → Option (LeafNode × LeafNode)
unfolding split
split_leaf l new full = do
  (a, b) ← split no_value leaf_slots (leaf_slots + 1) (half leaf_slots) full new.arr
  x ← read_last a (half leaf_slots)
  y ← read_last b (leaf_slots + 1 - half leaf_slots)
  some (
    record l { arr = a; c = half leaf_slots; old_max = l.max_value; max_value = x.key },
    record new { arr = b; c = leaf_slots + 1 - half leaf_slots; max_value = y.key },
  )

unfoldable pub insert_full : LeafNode → LeafNode → Bid → ℤ → Option (LeafNode × LeafNode)
unfolding fill_loop split_leaf push
insert_full l new k v =
    let kv : KvPair = record { key = k; value = v } in
    fill_loop l.c l.arr 0 kv [] false >>= λ s. elim s [
      | replaced a ↦ some (record l { arr = a }, new)
      | filled full written ↦
          (if written then some full else push (leaf_slots + 1) full kv) >>= split_leaf l new
    ]

-- `Insert(newNode, key, value)`
unfoldable pub insert : LeafNode → LeafNode → Bid → ℤ → Option (LeafNode × LeafNode)
unfolding insert_room insert_full
insert l new k v =
    if ltb l.c leaf_slots
    then (insert_room l k v >>= λ l'. some (l', new))
    else insert_full l new k v

-- `Search(l_node, key)`: the last argument is what `l_node` holds before
unfoldable pub search : LeafNode → Bid → KvPair → Option KvPair
unfolding find_first
search l k out = do
  i ← find_first (λ x. Bid.eq x.key k) l.c l.arr 0
  if i == l.c then some out else get_elem? l.arr i

-- what `Delete` returns: -1, 0 or 1
pub data Deleted : Type 0 where
  absent kept merged : Deleted

-- the last lines of `Delete`: the node stays, with the count and the largest key that are left
unfoldable pub shrink : LeafNode → LeafNode → Option (Deleted × LeafNode × LeafNode)
shrink l nb = do
  x ← read_last l.arr (l.c - 1)
  some (kept, record l { c = l.c - 1; old_max = l.max_value; max_value = x.key }, nb)

-- `Delete` after the removal from the array: `l.c` still counts the removed slot
unfoldable pub rebalance : LeafNode → LeafNode → Side → Option (Deleted × LeafNode × LeafNode)
unfolding shrink merge_left merge_right borrow_left borrow_right
rebalance l nb neither = shrink l nb
rebalance l nb left =
    if leb (nb.c + l.c - 1) leaf_slots
    then (do
      (a, b) ← merge_left l.c l.arr nb.c nb.arr
      let n = nb.c + (l.c - 1)
      x ← read_last b n
      some (
        merged,
        record l { arr = a; c = 0 },
        record nb { arr = b; c = n; old_max = nb.max_value; max_value = x.key },
      ))
    else (do
      (a, b) ← borrow_left no_value l.c l.arr nb.c nb.arr
      y ← read_last b (nb.c - 1)
      x ← read_last a l.c
      some (
        kept,
        record l { arr = a; old_max = l.max_value; max_value = x.key },
        record nb { arr = b; c = nb.c - 1; old_max = nb.max_value; max_value = y.key },
      ))
rebalance l nb right =
    if leb (nb.c + l.c - 1) leaf_slots
    then (do
      (a, b) ← merge_right l.c l.arr nb.c nb.arr
      some (merged, record l { arr = a; c = 0 }, record nb { arr = b; c = nb.c + (l.c - 1) }))
    else (do
      (a, b) ← borrow_right no_value l.c l.arr nb.c nb.arr
      x ← get_elem? nb.arr 0
      some (
        kept,
        record l { arr = a; old_max = l.max_value; max_value = x.key },
        record nb { arr = b; c = nb.c - 1 },
      ))

-- `Delete(neighbor, flag, key)`
unfoldable pub delete : LeafNode → LeafNode → Side → Bid → Option (Deleted × LeafNode × LeafNode)
unfolding find_first remove_at shrink rebalance
delete l nb flag k = do
  i ← find_first (λ x. Bid.eq x.key k) l.c l.arr 0
  let removed = do
    a ← remove_at no_value l.arr l.c i
    let l' = record l { arr = a }
    let small = if leb l.c (half leaf_slots) then ltb 0 nb.c else false
    if small then rebalance l' nb flag else shrink l' nb
  if i == l.c then some (absent, l, nb) else removed
