-- ===== src/Leaf/Delete.antt =====
-- `leafNode::Delete` of src/node.cpp against the erasure of the key from the leaf's list.
use mathlib.Core.Path.{subst}
use mathlib.Core.List.{append_assoc}
use bomap.Base.{
  ℕ, suc, ◌+◌, ◌-◌, ◌<◌, ◌≡◌, refl, sym, ap, ◌∙◌, Bool-cases, inl, inr, ◌⊎◌, List, [], ◌∷◌, ◌++◌,
  length, ℤ, true, false, leb, ltb, arith, length-append, ◌>>=◌, some, none, ◌==◌, if◌then◌else◌,
}
use bomap.Bid
use bomap.Bid.{Bid}
use bomap.Node.{KvPair, no_value, leaf_slots, half, Side, left, neither, right}
use bomap.Slots.Holds.{Holds, Yields}
use bomap.Slots.Zipper.{before}
use bomap.Slots.Moves.{find_first_at, remove_at-Holds}
use bomap.Leaf.{LeafNode, Deleted, absent, shrink, rebalance, delete}
use bomap.Leaf.Spec.{IsLeaf, IsSorted, Above, pair, erase, lookup}
use bomap.Bid.Order.{value, eq-value}
use bomap.Leaf.Search.{Stopped, find-Stopped}
use bomap.Leaf.Rebalance.{IsOrdered, Shared, shrink-Shared, rebalance-Shared}

Above-without :
    (n : ℕ) (xs : List KvPair) (x : KvPair) (ys : List KvPair)
    → Above n (xs ++ x ∷ ys)
    → Above n (xs ++ ys)
Above-without n [] x ys a = a.1
Above-without n (z ∷ xs) x ys a = (a.0, Above-without n xs x ys a.1)

IsSorted-without :
    (xs : List KvPair) (x : KvPair) (ys : List KvPair)
    → IsSorted (xs ++ x ∷ ys)
    → IsSorted (xs ++ ys)
IsSorted-without [] x ys s = s.1
IsSorted-without (z ∷ xs) x ys s =
    (Above-without (value z.key) xs x ys s.0, IsSorted-without xs x ys s.1)

IsOrdered-without :
    (side : Side) (ns xs : List KvPair) (x : KvPair) (ys : List KvPair)
    → IsOrdered side ns (xs ++ x ∷ ys)
    → IsOrdered side ns (xs ++ ys)
IsOrdered-without neither ns xs x ys o = tt
IsOrdered-without left ns xs x ys o =
    subst IsSorted (append_assoc ns xs ys)
      (IsSorted-without (ns ++ xs) x ys (subst IsSorted (sym (append_assoc ns xs (x ∷ ys))) o))
IsOrdered-without right ns xs x ys o =
    subst IsSorted (sym (append_assoc xs ys ns))
      (IsSorted-without xs x (ys ++ ns) (subst IsSorted (append_assoc xs (x ∷ ys) ns) o))

-- What a deletion does: it finds no such key and changes nothing, or the two leaves share what the
-- erasure leaves.
abbrev pub Deletes :
    Side
    → List KvPair
    → List KvPair
    → Bid
    → LeafNode
    → LeafNode
    → Deleted × LeafNode × LeafNode
    → Type 0
Deletes side ns xs k l nb r =
    ((lookup k xs ≡ none) × (r ≡ (absent, l, nb)))
    ⊎ ((v : ℤ) × (lookup k xs ≡ some v) × Shared side ns (erase k xs) r.0 r.1 r.2)

-- the end of a deletion, with or without the neighbour
finish :
    (l nb : LeafNode) (side : Side) (ys ns : List KvPair)
    → Holds leaf_slots l.arr (l.c - 1) ys
    → 0 < length ys
    → IsSorted ys
    → IsLeaf nb ns
    → IsOrdered side ns ys
    → Yields
        (λ r. Shared side ns ys r.0 r.1 r.2)
        (if (if leb l.c (half leaf_slots) then ltb 0 nb.c else false)
          then rebalance l nb side
          else shrink l nb)
finish l nb side ys ns h more s j order = elim (Bool-cases (leb l.c (half leaf_slots))) [
  | inl small ↦ elim (Bool-cases (ltb 0 nb.c)) [
    | inl beside ↦
        rw (small, beside) (rebalance-Shared l nb ys ns h more s j side order small (ground arith))
    | inr alone ↦ rw (small, alone) (shrink-Shared l nb ys ns h more s j side)
  ]
  | inr large ↦ rw large (shrink-Shared l nb ys ns h more s j side)
]

-- A deletion from a leaf that stores the pairs `xs`, at least two, with a neighbour that stores `ns`
-- and that is on the side that the flag says, in key order, stays inside the arrays. If the key is
-- not there, nothing changes. Else the two leaves store, in key order, `ns` and `xs` without the
-- key: both of them, or the neighbour alone if the leaf was merged into it.
pub delete_correct :
    (l nb : LeafNode) (side : Side) (k : Bid) (xs ns : List KvPair)
    → IsLeaf l xs
    → IsLeaf nb ns
    → IsOrdered side ns xs
    → 1 < length xs
    → Yields (Deletes side ns xs k l nb) (delete l nb side k)
unfolding delete Stopped
delete_correct l nb side k xs ns i j order more =
    let stop = find_first_at (λ x. Bid.eq x.key k) i.holds in
    elim (find-Stopped k xs) [
      | inl (b, n) ↦
          let e : length (before (λ x. Bid.eq x.key k) xs) ≡ l.c =
            ap length b ∙ sym i.holds.count in
          let last : (length (before (λ x. Bid.eq x.key k) xs) == l.c) ≡ true = ground arith in
          ((absent, l, nb), rw (stop, ◌>>=◌, last) refl, inl (n, refl))
      | inr (front, back, v, b, e, n, erased) ↦
          let held = subst (Holds leaf_slots l.arr l.c) e i.holds in
          let size : length xs ≡ length front + suc (length back) =
            ap length e ∙ length-append front (pair k v ∷ back) in
          let within : (length front == l.c) ≡ false = ground (arith, i.holds.count) in
          let (a, removed, h) = remove_at-Holds no_value (pair k v) front back held in
          let (r, done, shared) =
            finish (record l { arr = a }) nb side (front ++ back) ns h
              (omega (arith, length-append front back))
              (IsSorted-without front (pair k v) back (subst IsSorted e i.sorted)) j
              (IsOrdered-without side ns front (pair k v) back
                (subst (IsOrdered side ns) e order)) in
          (
            r,
            rw (stop, ◌>>=◌, b, within, removed) done,
            inr (v, n, subst (λ zs. Shared side ns zs r.0 r.1 r.2) (sym erased) shared),
          )
    ]

-- Deleting the only pair of a leaf whose neighbour is empty removes it and then reads the array at
-- the index -1.
pub delete_only :
    (l nb : LeafNode) (side : Side) (k : Bid) (v : ℤ)
    → Holds leaf_slots l.arr l.c (pair k v ∷ [])
    → nb.c ≡ 0
    → delete l nb side k ≡ none
unfolding delete shrink
delete_only l nb side k v h alone =
    let stop = find_first_at (λ x. Bid.eq x.key k) h in
    let same : Bid.eq k k ≡ true = ground (arith, eq-value k k) in
    let one : l.c ≡ 1 = h.count in
    let (a, removed, _) = remove_at-Holds no_value (pair k v) [] [] h in
    rw (stop, ◌>>=◌, same, removed, one, alone) refl
