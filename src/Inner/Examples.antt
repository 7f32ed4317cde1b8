-- ===== src/Inner/Examples.antt =====
-- A full middle node of src/node.cpp that takes one more child.
use bomap.Base.{ℕ, zero, suc, ◌+◌, ◌-◌, ◌*◌, ◌≡◌, refl, List, [], ◌∷◌, ◌++◌, pos, replicate, arith}
use bomap.Bid
use bomap.Bid.{Bid}
use bomap.Bid.Order.{value}
use bomap.Node.{KpPair, no_child, mid_slots, left}
use bomap.Slots.Holds.{Yields}
use bomap.Inner.{Inner, empty_inner, insert_child, update_child}
use bomap.Inner.Remove.{delete_child}
use bomap.Inner.Update.{Ascends, update_child_correct}
use bomap.Inner.Delete.{Deletes, delete_child_correct}
use bomap.Inner.Place.{put, IsFresh}
use bomap.Inner.Insert.{IsParent, Parents, insert_child-Parents}

abbrev child : ℕ → KpPair
child n = record { key = Bid.of_int (pos n); pos = pos n }

abbrev children_from : ℕ → ℕ → List KpPair
children_from zero n = []
children_from (suc r) n = child (2 * n) ∷ children_from r (n + 1)

abbrev children : List KpPair
children = children_from 23 1

abbrev full_node : Inner
full_node = record {
  child_map = children;
  old_max = Bid.of_int (pos 46);
  max_value = Bid.of_int (pos 46);
  pos = pos 1;
  p2 = 23;
}

full_node-IsParent : IsParent full_node children
full_node-IsParent = record {
  holds = record { rest = []; layout = refl; count = refl; size = refl };
  largest = refl;
}

empty_inner-IsParent : IsParent empty_inner []
unfolding empty_inner
empty_inner-IsParent = record {
  holds = record { rest = replicate mid_slots no_child; layout = refl; count = refl; size = refl };
  largest = refl;
}

children-IsFresh : IsFresh (child 7).key children
unfolding Bid.eq Bid.of_int
children-IsFresh = (
  refl,
  (
    refl,
    (
      refl,
      (
        refl,
        (
          refl,
          (
            refl,
            (
              refl,
              (
                refl,
                (
                  refl,
                  (
                    refl,
                    (
                      refl,
                      (
                        refl,
                        (
                          refl,
                          (
                            refl,
                            (
                              refl,
                              (refl, (refl, (refl, (refl, (refl, (refl, (refl, (refl, tt)))))))),
                            ),
                          ),
                        ),
                      ),
                    ),
                  ),
                ),
              ),
            ),
          ),
        ),
      ),
    ),
  ),
)

insert_child-Parents_example :
    Yields
      (Parents full_node empty_inner (put (child 7) children))
      (insert_child full_node empty_inner (child 7))
insert_child-Parents_example =
    insert_child-Parents full_node empty_inner (child 7) children full_node-IsParent
      empty_inner-IsParent children-IsFresh

abbrev node_of : List KpPair → Bid → ℕ → Inner
node_of xs k n = record {
  child_map = xs ++ replicate (mid_slots - n) no_child;
  old_max = k;
  max_value = k;
  pos = pos 1;
  p2 = n;
}

abbrev low_children : List KpPair
low_children = children_from 2 1

abbrev high_children : List KpPair
high_children = children_from 3 3

low_node-IsParent : IsParent (node_of low_children (child 4).key 2) low_children
low_node-IsParent = record {
  holds = record {
    rest = replicate (mid_slots - 2) no_child;
    layout = refl;
    count = refl;
    size = refl;
  };
  largest = refl;
}

high_node-IsParent : IsParent (node_of high_children (child 10).key 3) high_children
high_node-IsParent = record {
  holds = record {
    rest = replicate (mid_slots - 3) no_child;
    layout = refl;
    count = refl;
    size = refl;
  };
  largest = refl;
}

delete_child_correct_example :
    Yields
      (Deletes left low_children high_children
        (child 8).key
        (node_of high_children (child 10).key 3)
        (node_of low_children (child 4).key 2))
      (delete_child
        (node_of high_children (child 10).key 3)
        (node_of low_children (child 4).key 2)
        left
        (child 8).key)
delete_child_correct_example =
    delete_child_correct (node_of high_children (child 10).key 3)
      (node_of low_children (child 4).key 2) left (child 8).key high_children low_children
      high_node-IsParent low_node-IsParent (omega arith)

abbrev renamed : List KpPair
renamed = child 6 ∷ record (child 8) { key = (child 9).key } ∷ child 10 ∷ []

renamed-Ascends : Ascends renamed
unfolding Bid.of_int value
renamed-Ascends = ground arith

first_IsFresh : IsFresh (child 8).key (child 6 ∷ [])
unfolding Bid.eq Bid.of_int
first_IsFresh = (refl, tt)

update_child_correct_example :
    Yields
      (λ r. IsParent r renamed × (r.pos ≡ pos 1) × (r.old_max ≡ (child 10).key))
      (update_child (node_of high_children (child 10).key 3) (child 8).key (child 9).key)
update_child_correct_example =
    update_child_correct (node_of high_children (child 10).key 3) (child 6 ∷ []) (child 8)
      (child 10 ∷ []) (child 8).key (child 9).key high_node-IsParent refl first_IsFresh
      renamed-Ascends
