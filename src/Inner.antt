-- ===== src/Inner.antt =====
-- What `midNode2`, `midNode1` and `rootNode` of src/node.cpp have in common: an array of children,
-- each with the largest key below it and the position of its block. The bodies that the classes
-- repeat word for word are translated once, here; the modules of the classes instantiate them.
pub mod Remove
pub mod Place
pub mod Insert
pub mod Rebalance
pub mod Delete
pub mod Update
pub mod Rises
mod Examples
use bomap.Base.{
  ℕ, zero, suc, ◌+◌, ◌-◌, Bool, true, false, leb, ltb, not, ◌==◌, if◌then◌else◌, List, [], ◌∷◌,
  Option, none, some, get_elem?, replicate, take, drop, ◌++◌, ◌>>=◌, ℤ, pos,
}
use bomap.Bid
use bomap.Bid.{Bid}
use bomap.Node.{KpPair, no_child, sort_rule, mid_slots, half, Side, left, neither, right}
use bomap.Slots.{
  write, read_last, find_first, insert_at, remove_at, split, push, merge_left, merge_right,
  borrow_left, borrow_right,
}

-- the fields of `midNode2` and of `midNode1`
pub record Inner : Type 0 where
  pub child_map : List KpPair
  pub old_max : Bid
  pub max_value : Bid
  pub pos : ℤ
  pub p2 : ℕ

-- `pos` is undefined in the source, and every caller assigns it
unfoldable pub empty_inner : Inner
empty_inner = record {
  child_map = replicate mid_slots no_child;
  old_max = Bid.blank;
  max_value = Bid.blank;
  pos = pos 0;
  p2 = 0;
}

-- `if (i == n) a[i] = kp; else { ... }` at the first key above that of `kp`
unfoldable pub place : List KpPair → ℕ → KpPair → Option (List KpPair)
unfolding find_first insert_at
place a n kp = find_first (λ x. Bid.gt x.key kp.key) n a 0 >>= λ i. insert_at a n i kp

-- the loop that fills `full`, with `kp` before the first key that is not below its own
unfoldable pub fill_children :
    ℕ → List KpPair → ℕ → KpPair → List KpPair → Bool → Option (List KpPair × Bool)
unfolding push
fill_children zero a i kp full written = some (full, written)
fill_children (suc r) a i kp full written = get_elem? a i >>= λ x. elim (Bid.lt x.key kp.key) [
  | true ↦ push (mid_slots + 1) full x >>= λ f. fill_children r a (suc i) kp f written
  | false ↦ (if written then some full else push (mid_slots + 1) full kp) >>= λ f.
      push (mid_slots + 1) f x >>= λ g. fill_children r a (suc i) kp g true
]

unfoldable pub split_inner : Inner → Inner → List KpPair → Option (Inner × Inner)
unfolding split
split_inner m new full = do
  (a, b) ← split no_child mid_slots (mid_slots + 1) (half mid_slots) full new.child_map
  x ← read_last a (half mid_slots)
  y ← read_last b (mid_slots + 1 - half mid_slots)
  some (
    record m { child_map = a; p2 = half mid_slots; max_value = x.key },
    record new { child_map = b; p2 = mid_slots + 1 - half mid_slots; max_value = y.key },
  )

-- `Insert` of a child with the pair `kp`
unfoldable pub insert_child : Inner → Inner → KpPair → Option (Inner × Inner)
unfolding place fill_children split_inner push
insert_child m new kp =
    if ltb m.p2 mid_slots
    then (do
      a ← place m.child_map m.p2 kp
      x ← read_last a (suc m.p2)
      some (record m { child_map = a; p2 = suc m.p2; max_value = x.key }, new))
    else (do
      (full, written) ← fill_children m.p2 m.child_map 0 kp [] false
      full' ← if written then some full else push (mid_slots + 1) full kp
      split_inner m new full')

insert_sorted : KpPair → List KpPair → List KpPair
insert_sorted x [] = x ∷ []
insert_sorted x (y ∷ ys) = elim (sort_rule y x) [
  | true ↦ y ∷ insert_sorted x ys
  | false ↦ x ∷ y ∷ ys
]

-- `sort(a.begin(), a.begin() + n, kppair_sort_rule)`: the library sorts the slots below `n`
unfoldable pub sort : List KpPair → List KpPair
unfolding insert_sorted
sort [] = []
sort (x ∷ xs) = insert_sorted x (sort xs)

-- the first slot with the key `old` gets the key `new`
unfoldable pub rename : List KpPair → ℕ → Bid → Bid → Option (List KpPair)
unfolding find_first
rename a n old new = do
  i ← find_first (λ x. Bid.eq x.key old) n a 0
  let renamed = do x ← get_elem? a i; write a i (record x { key = new })
  if i == n then some a else renamed

-- The array after `Update` of a child whose largest key was `old` and is `new`.
unfoldable pub update_slots : List KpPair → ℕ → Bid → Bid → Option (List KpPair)
unfolding rename sort
update_slots a n old new = do
  b ← rename a n old new
  some (if Bid.ne new old then sort (take n b) ++ drop n b else b)

unfoldable pub update_child : Inner → Bid → Bid → Option Inner
unfolding update_slots
update_child m old new = do
  a ← update_slots m.child_map m.p2 old new
  x ← read_last a m.p2
  some (record m { child_map = a; max_value = x.key })

-- A child by its key and position. The first search: the first child whose key is not below `k`,
-- else the last child under the node's largest key.
unfoldable pub search_slots : List KpPair → ℕ → Bid → Bid → Option KpPair
unfolding find_first
search_slots a n max k = do
  i ← find_first (λ x. Bid.ge x.key k) n a 0
  let last = do x ← read_last a n; some (record x { key = max })
  if i == n then last else get_elem? a i

-- what the search for a child and its neighbour finds
pub record Found : Type 0 where
  pub child : KpPair
  pub neighbor : KpPair
  pub side : Side

-- The index of the child, and the child.
unfoldable pub locate : List KpPair → ℕ → Bid → Bid → Option (ℕ × KpPair)
unfolding find_first
locate a n max k = do
  i ← find_first (λ x. Bid.ge x.key k) n a 0
  let last = do x ← read_last a n; some (n - 1, record x { key = max })
  let here = do x ← get_elem? a i; some (i, x)
  if i == n then last else here

-- The neighbour that a search chooses for the child at `i` if none is asked for: the right one of
-- the first child, else the left one, and none of an only child. `nb` is what the caller's
-- variables hold before.
unfoldable pub choose : List KpPair → ℕ → ℕ → KpPair → Option (KpPair × Side)
choose a n i nb =
    if n == 1
    then some (nb, neither)
    else if i == 0
    then (get_elem? a (suc i) >>= λ y. some (y, right))
    else (read_last a i >>= λ y. some (y, left))

-- The second search. It returns on which side the parent's neighbour has to give the neighbour,
-- or `neither` if this node gives it.
unfoldable pub search_neighbor : Inner → Bid → KpPair → Side → Option (Side × Found)
unfolding locate choose
search_neighbor m k nb left = do
  (i, x) ← locate m.child_map m.p2 m.max_value k
  let near = do
    y ← read_last m.child_map i
    some (neither, record { child = x; neighbor = y; side = left })
  if ltb 0 i then near else some (left, record { child = x; neighbor = nb; side = left })
search_neighbor m k nb right = do
  (i, x) ← locate m.child_map m.p2 m.max_value k
  let near = do
    y ← get_elem? m.child_map (suc i)
    some (neither, record { child = x; neighbor = y; side = right })
  if ltb i (m.p2 - 1) then near else some (right, record { child = x; neighbor = nb; side = right })
search_neighbor m k nb neither = do
  (i, x) ← locate m.child_map m.p2 m.max_value k
  (y, side) ← choose m.child_map m.p2 i nb
  some (neither, record { child = x; neighbor = y; side = side })
