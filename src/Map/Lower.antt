-- ===== src/Map/Lower.antt =====
-- A `midNode2` of src/node.cpp and the leaves below it in the cache of src/client.cpp, in an insertion.
pub mod Whole
pub mod Split
pub mod Step
use bomap.Base.{
  ℕ, suc, ◌+◌, ◌<◌, ◌≡◌, refl, sym, ap, ◌∙◌, ◌⊎◌, List, [], ◌∷◌, ◌++◌, Option, none, some, length,
  ℤ, false, pos, replicate,
}
use bomap.Bid
use bomap.Bid.{Bid}
use bomap.Node.{KpPair, KvPair, mid_slots, no_child}
use bomap.Leaf
use bomap.Leaf.{LeafNode, empty_leaf}
use bomap.Leaf.Spec.{IsLeaf, IsSorted, upsert}
use bomap.Inner.{empty_inner}
use bomap.Inner.Insert.{IsParent}
use bomap.Mid2
use bomap.Mid2.{MidNode2, empty_mid2}
use bomap.Root
use bomap.Root.{RootNode}
use bomap.TreePath.{leaf_size}
use bomap.Client.{Tree, find}
use bomap.Map.{World, Store}
use bomap.Map.Forest.{Forest}
use bomap.Map.Tops.{AllAvoid, AllAvoid-append, AllTops, IsTop, IsReal}
use bomap.Map.Route.{Route}
use bomap.Map.Route.Rebuild.{child-Avoids, rebuild, upsert-AllAvoid}
use bomap.Map.Cached.{LeafCached, LeafCached-frame, Agree}
use bomap.Map.Insert.{put_below_root}
use bomap.Map.Insert.Path.{taken, shallow, emptied, leaf_back}
use bomap.Map.Insert.Back.{mid2_back, add_to_root}

-- the state below the root after the insertion of the leaf
abbrev pub half_back : Store → Bid → ℕ → Tree LeafNode → Store
half_back s i d t = record s { drawn = d; mid2 = taken s.mid2 i; leaf = t }

-- An insertion into the leaf for the key and the updates of the node `m`, which was taken out under
-- the key `i`: the node, and the second one if the children are too many.
pub record Lower (w : World) (s : Store) (i : Bid) (m : MidNode2) (xs : List KvPair) (k : Bid)
    (v : ℤ) : Type 0 where
  pub child : KpPair
  pub leaf : LeafNode
  pub grown : LeafNode
  pub spare : LeafNode
  pub stored : LeafNode
  pub updated : MidNode2
  pub found : Mid2.search m k ≡ some child
  pub real : Bid.eq_int child.key (pos 0) ≡ false
  pub cached : find s.leaf.cache child.key ≡ some leaf
  pub done :
      Leaf.insert
        (record leaf { pos = child.pos })
        (record empty_leaf { pos = w.draw (leaf_size 3) (suc (suc s.drawn)) })
        k
        v
      ≡ some (grown, spare)
  pub up : Mid2.update m grown ≡ some (updated, stored)
  pub real_top : Bid.eq_int stored.max_value (pos 0) ≡ false
  pub node : MidNode2
  pub node2 : MidNode2
  pub tree : Tree LeafNode
  pub drawn : ℕ
  pub steps :
      (r : RootNode) (m2 : MidNode2) (s2 : Store)
      → Root.update_mid2 s.root node ≡ some (r, m2)
      → add_to_root (shallow w) node2 (record (half_back s i drawn tree) { root = r })
        ≡ some (tt, s2)
      → Bid.eq_int m2.max_value (pos 0) ≡ false
      → put_below_root (shallow w) updated spare (leaf_back (emptied s i child.key) stored)
        ≡ some (tt, mid2_back s2 m2)
  pub fronts : List KpPair
  pub backs : List KpPair
  pub stays : IsParent node fronts
  pub moves : IsParent node2 backs
  pub some_front : 0 < length fronts
  pub halves : (backs ≡ []) ⊎ (0 < length backs)
  pub known : node.old_max ≡ m.old_max
  pub below : Forest (LeafCached tree) (fronts ++ backs) (upsert k v xs)
  pub keys : List Bid
  pub agree : Agree (child.key ∷ keys) s.leaf.cache tree.cache
  pub old_top : IsTop child.key xs
  pub new_tops : AllTops keys (upsert k v xs)

pub remembers :
    (l : LeafNode) (xs : List KvPair) → IsLeaf l xs → IsLeaf (record l { old_max = l.max_value }) xs
remembers l xs i = record { holds = i.holds; sorted = i.sorted; largest = i.largest }

pub empty_mid2-IsParent : (p : ℤ) → IsParent (record empty_mid2 { pos = p }) []
unfolding empty_mid2 empty_inner
empty_mid2-IsParent p = record {
  holds = record { rest = replicate mid_slots no_child; layout = refl; count = refl; size = refl };
  largest = refl;
}

end_of : Store → Option (Unit {0} × Store) → Store
end_of d none = d
end_of d (some (_, s)) = s

-- where a step that is known to end ends
pub ends :
    (s1 s2 : Store) (o : Option (Unit {0} × Store))
    → o ≡ some (tt, s1)
    → o ≡ some (tt, s2)
    → s1 ≡ s2
unfolding end_of
ends s1 s2 o e f = ap (end_of s1) (sym e ∙ f)

module _ (w : World) (s : Store) (i : Bid) (m : MidNode2) (cs : List KpPair) (xs : List KvPair)
    (k : Bid) (v : ℤ) (parent : IsParent m cs) (sorted : IsSorted xs) (real : IsReal xs)
    (real_key : Bid.eq_int k (pos 0) ≡ false) (r : Route (LeafCached s.leaf) k cs xs) where
  -- the children after the insertion, from those that stand for the child
  pub rebuilt :
      (t : Tree LeafNode) (news : List KpPair) (keys : List Bid)
      → Agree (r.child.key ∷ keys) s.leaf.cache t.cache
      → AllTops keys (upsert k v r.pairs)
      → Forest (LeafCached t) news (upsert k v r.pairs)
      → Forest (LeafCached t) (r.front ++ (news ++ r.back)) (upsert k v xs)
  rebuilt t news keys agree tops f =
      let P = LeafCached s.leaf in
      let (cl, ch) = child-Avoids P k cs xs r sorted in
      let (kl, kh) = upsert-AllAvoid P k cs xs r v keys tops sorted in
      let js = r.child.key ∷ keys in
      rebuild P k cs xs r (LeafCached t) (AllAvoid js) v news (AllAvoid-append js)
        (LeafCached-frame s.leaf t js agree) (cl, kl) (ch, kh) f
