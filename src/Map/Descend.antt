-- ===== src/Map/Descend.antt =====
-- `client::search` of src/client.cpp on a store that holds a search tree.
use mathlib.Core.List.{append_assoc}
use bomap.Base.{
  ℕ, suc, ◌<◌, ◌≡◌, refl, sym, ◌∙◌, List, [], ◌∷◌, ◌++◌, some, length, ℤ, true, false, arith,
  length-append, get_elem?,
}
use bomap.Bid.{Bid}
use bomap.Node.{KpPair, KvPair}
use bomap.Slots.{write}
use bomap.Slots.Moves.{get_at, write_at}
use bomap.Slots.Holds.{Yields}
use bomap.Leaf.{LeafNode}
use bomap.Leaf.Spec.{IsLeaf, IsSorted}
use bomap.Inner.Insert.{IsParent}
use bomap.Mid2.{MidNode2}
use bomap.Mid1
use bomap.Mid1.{MidNode1, empty_mid1}
use bomap.Client.{Tree}
use bomap.Client.Trees.{
  read_leaf_node, read_mid2_node, read_mid1_node, leaf_class, mid2_class, mid1_class,
}
use bomap.Map.{Store, World, ◌>>=◌, lift, read_leaf, read_mid2, read_mid1}
use bomap.Map.Search.{descend}
use bomap.Map.Forest.{Forest, Decides, search_slots-Decides}
use bomap.Map.Steps.{bind-some, lift-bind, bind-same, at_leaf-some, at_mid2-some, at_mid1-some}
use bomap.Map.Stored.{Available, read_node-Available, Mid2Stores, Mid1Stores}

pub keeps_IsParent :
    (cs : List KpPair) (p : ℤ) (m : MidNode1) → IsParent m cs → IsParent (record m { pos = p }) cs
keeps_IsParent cs p m h = record { holds = h.holds; largest = h.largest }

pub keeps_IsLeaf :
    (xs : List KvPair) (p : ℤ) (l : LeafNode) → IsLeaf l xs → IsLeaf (record l { pos = p }) xs
keeps_IsLeaf xs p l h = record { holds = h.holds; sorted = h.sorted; largest = h.largest }

module _ (w : World) where
  pub read_leaf-Available :
      (s : Store) (node l : LeafNode) (xs : List KvPair) (key : Bid) (p : ℤ)
      → Available (leaf_class w.leaf_bytes w.levels) w.leaves s.leaf key p l
      → IsLeaf l xs
      → Yields (λ r. IsLeaf r.0 xs) (read_leaf w node key p s)
  unfolding read_leaf_node
  read_leaf-Available s node l xs key p a h =
      let ((t, l'), e, i) =
        read_node-Available (leaf_class w.leaf_bytes w.levels) w.leaves (λ n. IsLeaf n xs)
          (keeps_IsLeaf xs) false (λ q n. record n { pos = q }) (keeps_IsLeaf xs) s.leaf node l key
          p a h in
      (
        (l', record s { leaf = t }),
        at_leaf-some s l' (λ x. read_leaf_node w.leaf_bytes w.levels w.leaves x node key p) t e,
        i,
      )

  pub read_mid2-Available :
      (s : Store) (node m : MidNode2) (cs : List KpPair) (key : Bid) (p : ℤ)
      → Available (mid2_class w.mid2_bytes w.levels) w.mid2s s.mid2 key p m
      → IsParent m cs
      → Yields (λ r. IsParent r.0 cs × (r.1.leaf ≡ s.leaf)) (read_mid2 w node key p s)
  unfolding read_mid2_node
  read_mid2-Available s node m cs key p a h =
      let ((t, m'), e, i) =
        read_node-Available (mid2_class w.mid2_bytes w.levels) w.mid2s (λ n. IsParent n cs)
          (keeps_IsParent cs) true (λ q n. record n { pos = q }) (keeps_IsParent cs) s.mid2 node m
          key p a h in
      (
        (m', record s { mid2 = t }),
        at_mid2-some s m' (λ x. read_mid2_node w.mid2_bytes w.levels w.mid2s x node key p) t e,
        (i, refl),
      )

  -- the trees of the levels below are as before
  abbrev pub Below : Store → List (Tree MidNode1) → ℕ → Store → Type 0
  Below s ts i s' =
      (before : List (Tree MidNode1)) × (length before ≡ i)
      × (s'.mid1 ≡ before ++ ts)
      × (s'.mid2 ≡ s.mid2)
      × (s'.leaf ≡ s.leaf)

  pub read_mid1-Available :
      (s : Store) (before : List (Tree MidNode1)) (t : Tree MidNode1) (ts : List (Tree MidNode1))
      (node m : MidNode1) (cs : List KpPair) (key : Bid) (p : ℤ) (i : ℕ)
      → s.mid1 ≡ before ++ t ∷ ts
      → length before ≡ i
      → Available (mid1_class w.mid1_bytes i) (w.mid1s i) t key p m
      → IsParent m cs
      → Yields (λ r. IsParent r.0 cs × Below s ts (suc i) r.1) (read_mid1 w node key p i s)
  unfolding read_mid1_node
  read_mid1-Available s before t ts node m cs key p i e n a h =
      let ((t', m'), read, parent) =
        read_node-Available (mid1_class w.mid1_bytes i) (w.mid1s i) (λ n. IsParent n cs)
          (keeps_IsParent cs) true (λ q n. n) (λ q n g. g) t node m key p a h in
      let tree : get_elem? s.mid1 i ≡ some t = rw e (get_at before ts t i (sym n)) in
      let trees : write s.mid1 i t' ≡ some (before ++ t' ∷ ts) =
        rw e (write_at before ts t t' i (sym n)) in
      (
        (m', record s { mid1 = before ++ t' ∷ ts }),
        at_mid1-some s m' (λ x. read_mid1_node w.mid1_bytes i (w.mid1s i) x node key p) i t t'
            (before ++ t' ∷ ts) tree read trees,
        (
          parent,
          (
            before ++ t' ∷ [],
            omega (arith, length-append before (t' ∷ [])),
            sym (append_assoc before (t' ∷ []) ts),
            refl,
            refl,
          ),
        ),
      )

  -- The node above the `midNode2`, and the child that it gives for a key: below it is what the key
  -- has. The trees of the lower kinds are as before.
  abbrev pub Arrives : Tree MidNode2 → Tree LeafNode → Bid → List KvPair → KpPair × Store → Type 0
  Arrives m2 lf k xs (c, s) = (s.mid2 ≡ m2) × (s.leaf ≡ lf) × Decides (Mid2Stores w m2 lf) k c xs

  -- the loop over the levels, and the search of the last node
  pub descend-Arrives :
      (m2 : Tree MidNode2) (lf : Tree LeafNode) (k : Bid) (ts : List (Tree MidNode1)) (s : Store)
      (before : List (Tree MidNode1)) (i : ℕ) (m : MidNode1) (cs : List KpPair) (xs : List KvPair)
      → s.mid1 ≡ before ++ ts
      → length before ≡ i
      → s.mid2 ≡ m2
      → s.leaf ≡ lf
      → IsParent m cs
      → 0 < length cs
      → Forest (Mid1Stores w m2 lf i ts) cs xs
      → IsSorted xs
      → Yields
          (Arrives m2 lf k xs)
          ((descend w (length ts) i m k >>= λ m'. lift (Mid1.search m' k)) s)
  unfolding descend Mid1.search
  descend-Arrives m2 lf k [] s before i m cs xs e n e2 el h p f o =
      let (c, found, d) =
        search_slots-Decides (Mid2Stores w m2 lf) k m.max_value cs xs h.holds h.largest f o p in
      ((c, s), rw (found, lift) refl, (e2, el, d))
  descend-Arrives m2 lf k (t ∷ ts) s before i m cs xs e n e2 el h p f o =
      let (c, found, d) =
        search_slots-Decides (Mid1Stores w m2 lf i (t ∷ ts)) k m.max_value cs xs h.holds h.largest f
          o p in
      let (m', cs', avail, h', p', f') = d.below in
      let ((a, s'), read, (ha, (before', n', e', same2, samel))) =
        read_mid1-Available s before t ts empty_mid1 m' cs' c.key c.pos i e n avail h' in
      let (r, done, (r2, rl, d')) =
        descend-Arrives m2 lf k ts s' before' (suc i) a cs' d.pairs e' n' (same2 ∙ e2) (samel ∙ el)
          ha p' f' d.sorted in
      let step : descend w (suc (length ts)) i m k s ≡ descend w (length ts) (suc i) a k s' =
        lift-bind (Mid1.search m k)
          (λ j. read_mid1 w empty_mid1 j.key j.pos i >>= λ n. descend w (length ts) (suc i) n k) s c
          found
        ∙ bind-some (read_mid1 w empty_mid1 c.key c.pos i) (λ n. descend w (length ts) (suc i) n k)
            s s' a read in
      (
        r,
        bind-same (descend w (suc (length ts)) i m k) (descend w (length ts) (suc i) a k)
              (λ n. lift (Mid1.search n k)) s s' step
            ∙ done,
        (
          r2,
          rl,
          record {
            pairs = d'.pairs;
            below = d'.below;
            same = d.same ∙ d'.same;
            sorted = d'.sorted;
            some_pairs = d'.some_pairs;
          },
        ),
      )
