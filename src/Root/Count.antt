-- ===== src/Root/Count.antt =====
-- `rootNode::Delete` of src/node.cpp: the array and the count after it.
use bomap.Base.{◌-◌, ◌≡◌, refl, List, ◌∷◌, ◌++◌, length, false, arith, length-append, ◌>>=◌, ◌==◌}
use bomap.Bid
use bomap.Bid.{Bid}
use bomap.Node.{KpPair, no_child, root_slots}
use bomap.Slots.Holds.{Holds, Yields}
use bomap.Slots.Zipper.{before}
use bomap.Slots.Moves.{find_first_at, remove_at-Holds}
use bomap.Leaf.{kept}
use bomap.Root.{RootNode, delete}

-- If `k` is the key of a child `x` of the root and of none of the children before it, a deletion of
-- `k` removes the child from the array, which then holds one child fewer, but the count and the
-- largest key of the root stay as they were.
pub delete-p1 :
    (r : RootNode) (k : Bid) (front back : List KpPair) (x : KpPair)
    → Holds root_slots r.child_map r.p1 (front ++ x ∷ back)
    → before (λ y. Bid.eq y.key k) (front ++ x ∷ back) ≡ front
    → Yields
        (λ d.
          (d.0 ≡ kept)
          × Holds root_slots d.1.child_map (r.p1 - 1) (front ++ back)
          × (d.1.p1 ≡ r.p1)
          × (d.1.max_value ≡ r.max_value))
        (delete r k)
unfolding delete
delete-p1 r k front back x h first =
    let stop = find_first_at (λ y. Bid.eq y.key k) h in
    let within : (length front == r.p1) ≡ false =
      ground (arith, h.count, length-append front (x ∷ back)) in
    let (a, removed, g) = remove_at-Holds no_child x front back h in
    (
      (kept, record r { child_map = a }),
      rw (stop, ◌>>=◌, first, within, removed) refl,
      (refl, g, refl, refl),
    )
