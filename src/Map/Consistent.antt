-- ===== src/Map/Consistent.antt =====
-- After the middle of `client::finish` of src/client.cpp the parents in the caches have the positions
-- of the children that are cached with them.
use mathlib.Core.Path.{subst}
use bomap.Base.{ℕ, suc, ◌≤◌, ◌≡◌, refl, List, [], ◌∷◌, length, Option, some, ℤ}
use bomap.Bid.{Bid}
use bomap.Leaf.{LeafNode}
use bomap.Inner.{Inner}
use bomap.Mid1.{MidNode1}
use bomap.Slots.Holds.{Yields}
use bomap.TreePath.{leaf_size, mid2_size, mid1_size}
use bomap.Client.{Tree}
use bomap.Client.Trees.{leaf_class, mid2_class, mid1_class}
use bomap.Map.{Store, World}
use bomap.Map.Finish.{
  position, link_inner, refresh_leaves, refresh_mid2s, refresh_mid1s, reposition,
}
use bomap.Map.Linked.{
  AllPlaced, IsLinked, AllNodes, Fits, top, AllFit, AllLinked, link-AllPlaced, link_inner-IsLinked,
  refresh-AllNodes, none_placed, all_nodes,
}

module _ (w : World) where
  refresh_leaves-Yields :
      (drawn : ℕ) (t : Tree LeafNode) → Yields (λ r. Unit {0}) (refresh_leaves w drawn t)
  unfolding refresh_leaves
  refresh_leaves-Yields drawn t =
      let ((d, c), e, p) =
        refresh-AllNodes w (leaf_class w.leaf_bytes w.levels) (leaf_size w.levels) some t.modified
          (λ n. Unit {0}) (λ n. Unit {0}) (λ p n q. q) (λ n q. (n, refl, tt)) (λ n e. tt) drawn
          t.cache (all_nodes t.cache) in
      ((d, record t { cache = c }), rw e refl, tt)

  refresh_mid2s-AllNodes :
      (below : Bid → Option ℤ) (drawn : ℕ) (t : Tree Inner)
      → AllNodes Fits t.cache
      → Yields (λ r. AllNodes (IsLinked below) r.1.cache) (refresh_mid2s w below drawn t)
  unfolding refresh_mid2s mid2_class
  refresh_mid2s-AllNodes below drawn t h =
      let ((d, c), e, p) =
        refresh-AllNodes w (mid2_class w.mid2_bytes w.levels) (mid2_size w.levels)
          (link_inner below) t.modified Fits (IsLinked below) (λ p n q. q)
          (link_inner-IsLinked below) (λ n empty. none_placed below n.p2 n.child_map empty) drawn
          t.cache h in
      ((d, record t { cache = c }), rw e refl, p)

  refresh_mid1s-AllLinked :
      (i : ℕ) (below : Bid → Option ℤ) (drawn : ℕ) (ts : List (Tree MidNode1))
      → AllFit ts
      → Yields (λ r. (r.1 ≡ top below r.2) × AllLinked below r.2) (refresh_mid1s w i below drawn ts)
  unfolding refresh_mid1s mid1_class
  refresh_mid1s-AllLinked i below drawn [] h = ((drawn, below, []), refl, (refl, tt))
  refresh_mid1s-AllLinked i below drawn (t ∷ ts) (h, hs) =
      let ((d, at, us), e, (same, p)) = refresh_mid1s-AllLinked (suc i) below drawn ts hs in
      let ((d', c), e', q) =
        refresh-AllNodes w (mid1_class w.mid1_bytes i) (mid1_size i) (link_inner at) t.modified Fits
          (IsLinked at) (λ p n q. q) (link_inner-IsLinked at)
          (λ n empty. none_placed at n.p2 n.child_map empty) d t.cache h in
      (
        (d', position (λ m. m.pos) c, record t { cache = c } ∷ us),
        rw (e, e') refl,
        (refl, (subst (λ b. AllNodes (IsLinked b) c) same q, p)),
      )

-- In every cached parent the children that are cached, too, have the positions of their nodes.
pub record Consistent (s : Store) : Type 0 where
  pub mid2s : AllNodes (IsLinked (position (λ l. l.pos) s.leaf.cache)) s.mid2.cache
  pub mid1s : AllLinked (position (λ m. m.pos) s.mid2.cache) s.mid1
  pub root : AllPlaced (top (position (λ m. m.pos) s.mid2.cache) s.mid1) s.root.p1 s.root.child_map

-- Where the count of every cached middle node and of the root lies inside its array, the middle of
-- finish does not fault, and then every child in a cached middle node or in the root whose own node
-- is in the cache of the level below has the position of that node.
pub reposition-Consistent :
    (w : World) (s : Store)
    → AllNodes Fits s.mid2.cache
    → AllFit s.mid1
    → s.root.p1 ≤ length s.root.child_map
    → Yields Consistent (reposition w s)
unfolding reposition
reposition-Consistent w s h2 h1 hr =
    let ((d, l), e, _) = refresh_leaves-Yields w s.drawn s.leaf in
    let ((d2, m), e2, p2) = refresh_mid2s-AllNodes w (position (λ n. n.pos) l.cache) d s.mid2 h2 in
    let ((d1, at, us), e1, (same, p1)) =
      refresh_mid1s-AllLinked w 0 (position (λ n. n.pos) m.cache) d2 s.mid1 h1 in
    let (a, er, pr) = link-AllPlaced at s.root.p1 s.root.child_map hr in
    (
      record s {
        root = record s.root { child_map = a };
        mid1 = us;
        mid2 = m;
        leaf = l;
        drawn = d1;
      },
      rw (e, e2, e1, er) refl,
      record { mid2s = p2; mid1s = p1; root = subst (λ b. AllPlaced b s.root.p1 a) same pr },
    )
