-- ===== src/Map/Lower/Step.antt =====
-- The insertion below a `midNode2` of src/client.cpp, on every branch.
use bomap.Base.{suc, ◌<◌, ◌≡◌, inl, inr, List, length, ℤ, false, pos}
use bomap.Bid
use bomap.Bid.{Bid}
use bomap.Node.{KpPair, KvPair}
use bomap.Leaf.Spec.{IsSorted}
use bomap.Inner.Insert.{IsParent}
use bomap.Mid2.{MidNode2}
use bomap.TreePath.{leaf_size}
use bomap.Client.Trees.{leaf_class}
use bomap.Map.{World, Store}
use bomap.Map.Forest.{Forest}
use bomap.Map.Tops.{IsReal}
use bomap.Map.Route.{route}
use bomap.Map.Cached.{LeafCached}
use bomap.Map.Shallow.{insert-Inserted}
use bomap.Map.Descend.{keeps_IsLeaf}
use bomap.Map.Insert.Back.{Quiet}
use bomap.Map.Lower.{Lower}
use bomap.Map.Lower.Whole.{Lower-whole}
use bomap.Map.Lower.Split.{Lower-split}

-- The insertion below a `midNode2` that the caches hold with all its leaves.
pub lower :
    (w : World) (s : Store) (i : Bid) (m : MidNode2) (cs : List KpPair) (xs : List KvPair) (k : Bid)
    (v : ℤ)
    → Quiet (leaf_class w.leaf_bytes 3) w.leaves
    → IsParent m cs
    → 0 < length cs
    → Forest (LeafCached s.leaf) cs xs
    → IsSorted xs
    → IsReal xs
    → Bid.eq_int k (pos 0) ≡ false
    → Lower w s i m xs k v
lower w s i m cs xs k v quiet parent some_cs f sorted real real_key =
    let r = route (LeafCached s.leaf) k cs xs f sorted some_cs in
    let (l, old_real, cached, leaf, old) = r.here in
    let ((l1, new), done, (h, known)) =
      insert-Inserted (record l { pos = r.child.pos }) (w.draw (leaf_size 3) (suc (suc s.drawn))) k
        v r.pairs r.child.key (keeps_IsLeaf r.pairs r.child.pos l leaf) r.some_pairs r.key old in
    elim (h.halves) [
      | inl alone ↦
          Lower-whole w s i m cs xs k v parent sorted real real_key r quiet l l1 new old_real cached
            done h known alone
      | inr (four, five) ↦
          Lower-split w s i m cs xs k v parent sorted real real_key r quiet l l1 new old_real cached
            done h known four five
    ]
