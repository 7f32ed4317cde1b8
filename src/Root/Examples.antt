-- ===== src/Root/Examples.antt =====
-- A root with three children that loses the second.
use bomap.Base.{◌≡◌, refl, List, [], ◌∷◌, replicate, pos, ℕ}
use bomap.Bid
use bomap.Bid.{Bid}
use bomap.Node.{KpPair, no_child, root_slots}
use bomap.Slots.Holds.{Holds, Yields}
use bomap.Slots.Zipper.{before}
use bomap.Leaf.{kept}
use bomap.Root.{RootNode, delete}
use bomap.Root.Count.{delete-p1}

abbrev child : ℕ → KpPair
child n = record { key = Bid.of_int (pos n); pos = pos n }

abbrev children : List KpPair
children = child 1 ∷ child 2 ∷ child 3 ∷ []

abbrev root : RootNode
root = record {
  child_map = child 1 ∷ child 2 ∷ child 3 ∷ replicate 20 no_child;
  max_value = Bid.of_int (pos 3);
  p1 = 3;
}

root-Holds : Holds root_slots root.child_map 3 children
root-Holds = record { rest = replicate 20 no_child; layout = refl; count = refl; size = refl }

second : before (λ y. Bid.eq y.key (Bid.of_int (pos 2))) children ≡ child 1 ∷ []
unfolding Bid.eq Bid.of_int
second = refl

delete-p1_example :
    Yields
      (λ d.
        (d.0 ≡ kept)
        × Holds root_slots d.1.child_map 2 (child 1 ∷ child 3 ∷ [])
        × (d.1.p1 ≡ 3)
        × (d.1.max_value ≡ root.max_value))
      (delete root (Bid.of_int (pos 2)))
delete-p1_example =
    delete-p1 root (Bid.of_int (pos 2)) (child 1 ∷ []) (child 3 ∷ []) (child 2) root-Holds second
