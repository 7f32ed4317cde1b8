-- ===== src/Map/Lookup.antt =====
-- What `client::search` of src/client.cpp finds in a store that holds a search tree.
use mathlib.Core.Path.{subst}
use bomap.Base.{◌-◌, ◌≡◌, refl, sym, ap, ◌∙◌, List, [], ◌∷◌, length, true, false, ◌==◌, arith}
use bomap.Bid.{Bid}
use bomap.Node.{KvPair}
use bomap.Slots.Holds.{Yields}
use bomap.Leaf.{empty_leaf}
use bomap.Leaf.Spec.{lookup}
use bomap.Leaf.Search.{found_or, search_correct}
use bomap.Mid2
use bomap.Mid2.{empty_mid2}
use bomap.Mid1
use bomap.Mid1.{MidNode1, empty_mid1}
use bomap.Root
use bomap.Client.{Tree}
use bomap.Map.{Store, World, ◌>>=◌, lift, read_mid1}
use bomap.Map.Search.{descend, find_mid2, search}
use bomap.Map.Forest.{Forest, search_slots-Decides}
use bomap.Map.Steps.{bind-some, lift-some, lift-bind}
use bomap.Client.Trees.{leaf_class, mid2_class}
use bomap.Map.Stored.{Available, LeafStores, Mid2Stores, Mid1Stores, Stores}
use bomap.Map.Descend.{
  Arrives, descend-Arrives, read_leaf-Available, read_mid2-Available, read_mid1-Available,
}

module _ (w : World) (k : Bid) where
  find_mid2-Arrives :
      (s : Store) (xs : List KvPair) (h : Stores w s xs) (ts : List (Tree MidNode1))
      → s.mid1 ≡ ts
      → Yields (Arrives w s.mid2 s.leaf k xs) (find_mid2 w k s)
  unfolding find_mid2 Root.search
  find_mid2-Arrives s xs h [] e =
      let none_between : (w.levels - 3 == 0) ≡ true = ground (arith, h.all_levels, ap length e) in
      let below = subst (λ ts. Forest (Mid1Stores w s.mid2 s.leaf 0 ts) h.children xs) e h.below in
      let (c, found, d) =
        search_slots-Decides (Mid2Stores w s.mid2 s.leaf) k s.root.max_value h.children xs h.holds
          h.largest below h.sorted h.some_children in
      ((c, s), rw none_between (lift-some (Root.search s.root k) c s found), (refl, refl, d))
  find_mid2-Arrives s xs h (t ∷ ts) e =
      let between : (w.levels - 3 == 0) ≡ false = ground (arith, h.all_levels, ap length e) in
      let rounds : w.levels - 4 ≡ length ts = omega (arith, h.all_levels, ap length e) in
      let below = subst (λ us. Forest (Mid1Stores w s.mid2 s.leaf 0 us) h.children xs) e h.below in
      let (c, found, d) =
        search_slots-Decides (Mid1Stores w s.mid2 s.leaf 0 (t ∷ ts)) k s.root.max_value h.children
          xs h.holds h.largest below h.sorted h.some_children in
      let (m, cs, avail, parent, some_cs, f) = d.below in
      let ((a, s'), read, (ha, (before', n', e', same2, samel))) =
        read_mid1-Available w s [] t ts empty_mid1 m cs c.key c.pos 0 e refl avail parent in
      let (r, done, (r2, rl, d')) =
        descend-Arrives w s.mid2 s.leaf k ts s' before' 1 a cs d.pairs e' n' same2 samel ha some_cs
          f d.sorted in
      (
        r,
        rw (between, rounds)
            (lift-bind (Root.search s.root k)
                (λ j. read_mid1 w empty_mid1 j.key j.pos 0 >>= λ n.
                  descend w (length ts) 1 n k >>= λ o. lift (Mid1.search o k))
                s c found
              ∙ bind-some (read_mid1 w empty_mid1 c.key c.pos 0)
                  (λ n. descend w (length ts) 1 n k >>= λ o. lift (Mid1.search o k)) s s' a read
              ∙ done),
        (
          r2,
          rl,
          record {
            pairs = d'.pairs;
            below = d'.below;
            same = d.same ∙ d'.same;
            sorted = d'.sorted;
            some_pairs = d'.some_pairs;
          },
        ),
      )

  -- A search in a client that stores the pairs `xs` does not fault, and leaves in the caller's pair
  -- the key with the value that `xs` has for it, or what stood there if `xs` does not have the key.
  pub search-lookup :
      (s : Store) (xs : List KvPair) (kv : KvPair)
      → Stores w s xs
      → Yields (λ r. r.0 ≡ found_or kv k (lookup k xs)) (search w kv k s)
  unfolding search Mid2.search
  search-lookup s xs kv h =
      let ((c2, s2), found2, (e2, el, d2)) = find_mid2-Arrives s xs h s.mid1 refl in
      let (m, cs, avail, parent, some_cs, f) = d2.below in
      let ((m2, s3), read2, (p2, el')) =
        read_mid2-Available w s2 empty_mid2 m cs c2.key c2.pos
          (subst (λ t. Available (mid2_class w.mid2_bytes w.levels) w.mid2s t c2.key c2.pos m)
            (sym e2) avail)
          parent in
      let (c, found, d) =
        search_slots-Decides (LeafStores w s.mid2 s.leaf) k m2.max_value cs d2.pairs p2.holds
          p2.largest f d2.sorted some_cs in
      let (l, availl, leaf) = d.below in
      let ((l', s4), readl, pl) =
        read_leaf-Available w s3 empty_leaf l d.pairs c.key c.pos
          (subst (λ t. Available (leaf_class w.leaf_bytes w.levels) w.leaves t c.key c.pos l)
            (sym (el' ∙ el)) availl)
          leaf in
      (
        (found_or kv k (lookup k d.pairs), s4),
        rw (◌>>=◌, found2, read2, found, readl, search_correct l' d.pairs k kv pl) refl,
        ap (found_or kv k) (sym (d2.same ∙ d.same)),
      )
