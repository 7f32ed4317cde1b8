-- ===== src/Map/Upsert.antt =====
-- `client::insert` of src/client.cpp with three levels and all nodes in the caches.
use mathlib.Core.Path.{subst}
use bomap.Base.{suc, ◌<◌, ◌≡◌, sym, ap, ◌∙◌, ℕ, List, ℤ, false, arith, pos, ◌==◌}
use bomap.Bid
use bomap.Bid.{Bid}
use bomap.Node.{KvPair, root_slots}
use bomap.Slots.Holds.{Yields}
use bomap.Leaf.Spec.{upsert}
use bomap.Mid2.{MidNode2}
use bomap.Root
use bomap.Client.Empty.{IsEmpty, fetch_path-IsEmpty}
use bomap.Client.Trees.{leaf_class, mid2_class}
use bomap.Map.{Store, World}
use bomap.Map.Route.{route, search_slots-Route}
use bomap.Map.Route.Rebuild.{pairs-IsSorted, pairs-IsReal}
use bomap.Map.Cached.{Mid2Cached, Cached}
use bomap.Map.Lower.Step.{lower}
use bomap.Map.Upper.Step.{upper}
use bomap.Map.Descend.{keeps_IsParent}
use bomap.Map.Insert.{insert}
use bomap.Map.Insert.Path.{
  shallow, emptied, take_path-emptied, insert_more-leaf_back, insert-insert_more,
}

-- The service's replies for leaves and `midNode2`s are whole buckets that open to dummies, or the text
-- that the fetch looks for: all nodes are in the caches.
abbrev pub NothingStored : World → Type 0
NothingStored w =
    IsEmpty (leaf_class w.leaf_bytes w.levels) w.leaves
    × IsEmpty (mid2_class w.mid2_bytes w.levels) w.mid2s

insert-shallow :
    (n : ℕ) (w : World) (s : Store) (xs : List KvPair) (k : Bid) (v : ℤ)
    → Cached n (shallow w) s xs
    → NothingStored (shallow w)
    → n < root_slots
    → Bid.eq_int k (pos 0) ≡ false
    → Yields (λ r. Cached (suc n) (shallow w) r.1 (upsert k v xs)) (insert (shallow w) k v s)
unfolding Root.search
insert-shallow n w s xs k v h (empty, empty2) room real_key =
    let quiet = fetch_path-IsEmpty (leaf_class w.leaf_bytes 3) w.leaves empty in
    let quiet2 = fetch_path-IsEmpty (mid2_class w.mid2_bytes 3) w.mid2s empty2 in
    let P = Mid2Cached s.mid2 s.leaf in
    let cs = h.children in
    let r = route P k cs xs h.below h.sorted h.some_children in
    let c = r.child in
    let (m, ds, real, cached, i, some_ds, old, f) = r.here in
    let m0 : MidNode2 = record m { pos = c.pos } in
    let o =
      lower w s c.key m0 ds r.pairs k v quiet (keeps_IsParent ds c.pos m i) some_ds f
        (pairs-IsSorted P k cs xs r h.sorted) (pairs-IsReal P k cs xs r h.real) real_key in
    let (e, done, again) =
      upper n w s xs k v h real_key r m0 o old quiet2 (omega (arith, h.few_children)) in
    let some_root : (s.root.p1 == 0) ≡ false = ground (arith, h.holds.count, h.some_children) in
    let path =
      take_path-emptied w s k c o.child m o.leaf
        (search_slots-Route P k cs xs r s.root.max_value h.holds h.largest) real cached o.found
        o.real o.cached in
    let put_leaf =
      insert_more-leaf_back w s k m0 o.updated (record o.leaf { pos = o.child.pos }) o.grown o.spare
        o.stored v (emptied s c.key o.child.key) path o.done o.up o.real_top in
    (e, insert-insert_more w s k v some_root ∙ put_leaf ∙ done, again)

-- An insertion into a client with three levels whose caches hold the whole tree, with a service whose
-- replies for leaves and `midNode2`s are whole buckets that open to dummies, or the text that the fetch
-- looks for, under a key whose first four bytes are not all zero, and while the root has at most `n`
-- children, fewer than its slots, does not fault. The client then has the pairs with the value of the key replaced or the new pair put into
-- its place, again with all nodes in the caches and with at most one more child of the root, whether
-- the leaf and the `midNode2` on the path had room or were split.
pub insert-Cached :
    (n : ℕ) (w : World) (s : Store) (xs : List KvPair) (k : Bid) (v : ℤ)
    → Cached n w s xs
    → NothingStored w
    → n < root_slots
    → Bid.eq_int k (pos 0) ≡ false
    → Yields (λ r. Cached (suc n) w r.1 (upsert k v xs)) (insert w k v s)
insert-Cached n w s xs k v h empty room real =
    let same : shallow w ≡ w = ap (λ l. record w { levels = l }) (sym h.three_levels) in
    subst (λ u. Yields (λ r. Cached (suc n) u r.1 (upsert k v xs)) (insert u k v s)) same
      (insert-shallow n w s xs k v (subst (λ u. Cached n u s xs) (sym same) h)
        (subst NothingStored (sym same) empty) room real)
