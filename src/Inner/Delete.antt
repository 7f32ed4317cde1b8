-- ===== src/Inner/Delete.antt =====
-- `Delete` of the middle nodes of src/node.cpp against the removal of a child from the list of children.
use mathlib.Core.Path.{subst}
use bomap.Base.{
  suc, ◌+◌, ◌-◌, ◌<◌, ◌≡◌, refl, sym, ap, ◌∙◌, Bool-cases, inl, inr, ◌⊎◌, List, [], ◌∷◌, ◌++◌,
  length, true, false, leb, ltb, arith, length-append, ◌>>=◌, Option, some, none, ◌==◌,
  if◌then◌else◌,
}
use bomap.Bid
use bomap.Bid.{Bid}
use bomap.Node.{KpPair, no_child, mid_slots, half, Side}
use bomap.Slots.Holds.{Holds, Yields}
use bomap.Slots.Zipper.{before}
use bomap.Slots.Moves.{find_first_at, remove_at-Holds}
use bomap.Leaf.{Deleted, absent}
use bomap.Inner.{Inner}
use bomap.Inner.Insert.{IsParent}
use bomap.Inner.Remove.{shrink, rebalance, delete_child}
use bomap.Inner.Rebalance.{Shared, shrink-Shared, rebalance-Shared}

-- the children without the first one of a key, if there is one
unfoldable pub without : Bid → List KpPair → Option (List KpPair)
without k [] = none
without k (x ∷ xs) = elim (Bid.eq x.key k) [
  | true ↦ some xs
  | false ↦ without k xs >>= λ ys. some (x ∷ ys)
]

-- where the loop stops, against the removal
unfoldable Stopped : Bid → List KpPair → Type 0
Stopped k xs =
    ((before (λ x. Bid.eq x.key k) xs ≡ xs) × (without k xs ≡ none))
    ⊎ ((front : List KpPair) × (back : List KpPair) × (x : KpPair) × (before (λ y. Bid.eq y.key k)
            xs
          ≡ front)
        × (xs ≡ front ++ x ∷ back)
        × (without k xs ≡ some (front ++ back)))

find-Stopped : (k : Bid) (xs : List KpPair) → Stopped k xs
unfolding Stopped without
find-Stopped k [] = inl (refl, refl)
find-Stopped k (x ∷ xs) = elim (Bool-cases (Bid.eq x.key k)) [
  | inl same ↦ inr ([], xs, x, rw same refl, refl, rw (same, without) refl)
  | inr other ↦ elim (find-Stopped k xs) [
    | inl (b, n) ↦ inl (rw other (ap (◌∷◌ x) b), rw (other, without, n) refl)
    | inr (front, back, y, b, e, r) ↦
        inr (x ∷ front, back, y, rw other (ap (◌∷◌ x) b), ap (◌∷◌ x) e, rw (other, without, r) refl)
  ]
]

-- What a deletion does: it finds no such key and changes nothing, or the two nodes share the children
-- that are left.
abbrev pub Deletes :
    Side → List KpPair → List KpPair → Bid → Inner → Inner → Deleted × Inner × Inner → Type 0
Deletes side ns xs k m nb r =
    ((without k xs ≡ none) × (r ≡ (absent, m, nb)))
    ⊎ ((ys : List KpPair) × (without k xs ≡ some ys) × Shared side ns ys r.0 r.1 r.2)

-- the end of a deletion, with or without the neighbour
finish :
    (m nb : Inner) (side : Side) (ys ns : List KpPair)
    → Holds mid_slots m.child_map (m.p2 - 1) ys
    → 0 < length ys
    → IsParent nb ns
    → Yields
        (λ r. Shared side ns ys r.0 r.1 r.2)
        (if (if leb m.p2 (half mid_slots) then ltb 0 nb.p2 else false)
          then rebalance m nb side
          else shrink m nb)
finish m nb side ys ns h more j = elim (Bool-cases (leb m.p2 (half mid_slots))) [
  | inl small ↦ elim (Bool-cases (ltb 0 nb.p2)) [
    | inl beside ↦
        rw (small, beside) (rebalance-Shared m nb ys ns h more j side small (ground arith))
    | inr alone ↦ rw (small, alone) (shrink-Shared m nb ys ns h more j side)
  ]
  | inr large ↦ rw large (shrink-Shared m nb ys ns h more j side)
]

-- A deletion from a middle node with the children `xs`, at least two, and a neighbour with the children
-- `ns` stays inside the arrays. If no child has the key, nothing changes. Else the two nodes have, in
-- the order that the flag says, `ns` and `xs` without the first child of the key: both of them, or the
-- neighbour alone if the node was merged into it; and both know the key of their last child.
pub delete_child_correct :
    (m nb : Inner) (side : Side) (k : Bid) (xs ns : List KpPair)
    → IsParent m xs
    → IsParent nb ns
    → 1 < length xs
    → Yields (Deletes side ns xs k m nb) (delete_child m nb side k)
unfolding delete_child Stopped
delete_child_correct m nb side k xs ns i j more =
    let stop = find_first_at (λ x. Bid.eq x.key k) i.holds in
    elim (find-Stopped k xs) [
      | inl (b, n) ↦
          let e : length (before (λ x. Bid.eq x.key k) xs) ≡ m.p2 =
            ap length b ∙ sym i.holds.count in
          let last : (length (before (λ x. Bid.eq x.key k) xs) == m.p2) ≡ true = ground arith in
          ((absent, m, nb), rw (stop, ◌>>=◌, last) refl, inl (n, refl))
      | inr (front, back, x, b, e, n) ↦
          let held = subst (Holds mid_slots m.child_map m.p2) e i.holds in
          let size : length xs ≡ length front + suc (length back) =
            ap length e ∙ length-append front (x ∷ back) in
          let within : (length front == m.p2) ≡ false = ground (arith, i.holds.count) in
          let (a, removed, h) = remove_at-Holds no_child x front back held in
          let (r, done, shared) =
            finish (record m { child_map = a }) nb side (front ++ back) ns h
              (omega (arith, length-append front back)) j in
          (r, rw (stop, ◌>>=◌, b, within, removed) done, inr (front ++ back, n, shared))
    ]
