-- ===== src/Map/Lower/Whole.antt =====
-- The insertion below a `midNode2` of src/client.cpp whose leaf takes the pair without a split.
use mathlib.Core.Path.{subst}
use mathlib.Core.List.{append-nil}
use bomap.Base.{
  suc, ◌≡◌, refl, sym, ap, ◌∙◌, inl, List, [], ◌∷◌, ◌++◌, some, length, length-append, ℤ, false,
  arith, pos,
}
use bomap.Bid
use bomap.Bid.{Bid}
use bomap.Node.{KpPair, KvPair}
use bomap.Leaf
use bomap.Leaf.{LeafNode, empty_leaf}
use bomap.Leaf.Spec.{IsLeaf, IsSorted, upsert, upsert-IsSorted}
use bomap.Leaf.Correct.{Inserted}
use bomap.Inner.Insert.{IsParent}
use bomap.Mid2
use bomap.Mid2.{MidNode2, empty_mid2}
use bomap.TreePath.{leaf_size}
use bomap.Client.{find, erase}
use bomap.Client.Trees.{leaf_class}
use bomap.Map.{World, Store}
use bomap.Map.Forest.{Forest}
use bomap.Map.Pairs.{length-upsert_pos}
use bomap.Map.Tops.{IsTop, IsTop-all, top-real, IsReal, IsReal-upsert}
use bomap.Map.Route.{Route, search_slots-Route}
use bomap.Map.Route.Rebuild.{route-IsFresh, route-IsTop, pairs-IsReal, upsert-AllTops}
use bomap.Map.Forest.Parts.{Forest-Ascends, Forest-one}
use bomap.Map.Cached.{LeafCached, find_new, moved-Agree}
use bomap.Map.Shallow.{mid2_update_correct}
use bomap.Map.Insert.Path.{taken, given, shallow, emptied, leaf_back}
use bomap.Map.Insert.Back.{mid2_back, add_to_root, put_below_root-whole, add_to_root-none, Quiet}
use bomap.Map.Lower.{Lower, remembers, empty_mid2-IsParent, ends, rebuilt}

module _ (w : World) (s : Store) (i : Bid) (m : MidNode2) (cs : List KpPair) (xs : List KvPair)
    (k : Bid) (v : ℤ) (parent : IsParent m cs) (sorted : IsSorted xs) (real : IsReal xs)
    (real_key : Bid.eq_int k (pos 0) ≡ false) (r : Route (LeafCached s.leaf) k cs xs)
    (quiet : Quiet (leaf_class w.leaf_bytes 3) w.leaves) (l l1 new : LeafNode)
    (old_real : Bid.eq_int r.child.key (pos 0) ≡ false)
    (cached : find s.leaf.cache r.child.key ≡ some l)
    (done : Leaf.insert
        (record l { pos = r.child.pos })
        (record empty_leaf { pos = w.draw (leaf_size 3) (suc (suc s.drawn)) })
        k
        v
      ≡ some (l1, new))
    (h : Inserted
      (upsert k v r.pairs)
      (record l { pos = r.child.pos })
      (record empty_leaf { pos = w.draw (leaf_size 3) (suc (suc s.drawn)) })
      (l1, new))
    (known : l1.old_max ≡ r.child.key) where
  pub Lower-whole : h.back ≡ [] → Lower w s i m xs k v
  unfolding Mid2.search
  Lower-whole alone =
      let P = LeafCached s.leaf in
      let c = r.child in
      let ups = upsert k v r.pairs in
      let ups_real = IsReal-upsert k v r.pairs real_key (pairs-IsReal P k cs xs r real) in
      let more = length-upsert_pos k v r.pairs in
      let all : h.front ≡ ups =
        sym (append-nil h.front) ∙ ap (λ t. h.front ++ t) (sym alone) ∙ h.joined in
      let leaf = remembers l1 ups (subst (IsLeaf l1) all h.stays) in
      let l2 : LeafNode = record l1 { old_max = l1.max_value } in
      let c1 : KpPair = record c { key = l1.max_value } in
      let t = given (taken s.leaf c.key) l1.max_value l2 in
      let top : IsTop l1.max_value ups = IsTop-all l1.max_value ups more leaf.largest in
      let top_real = top-real l1.max_value ups ups_real top in
      let agree = moved-Agree s.leaf.cache c.key l1.max_value l2 in
      let keys = l1.max_value ∷ [] in
      let here : LeafCached t c1 ups =
        (l2, top_real, find_new (erase s.leaf.cache c.key) l1.max_value l2, leaf, refl) in
      let below =
        rebuilt w s i m cs xs k v parent sorted real real_key r t (c1 ∷ []) keys agree (top, tt)
          (Forest-one (LeafCached t) c1 ups here more leaf.largest) in
      let rises =
        Forest-Ascends (LeafCached t) (r.front ++ c1 ∷ r.back) (upsert k v xs) below
          (upsert-IsSorted k v xs sorted) in
      let ((m1, l2'), up, (parent', placed, known', stored)) =
        mid2_update_correct m l1 r.front c r.back (subst (IsParent m) r.children parent) known
          (route-IsFresh P k cs xs r sorted) rises in
      let s0 = leaf_back (emptied s i c.key) l2 in
      record {
        child = c;
        leaf = l;
        grown = l1;
        spare = new;
        stored = l2;
        updated = m1;
        found = search_slots-Route P k cs xs r m.max_value parent.holds parent.largest;
        real = old_real;
        cached = cached;
        done = done;
        up = up ∙ ap (λ x. some (m1, x)) stored;
        real_top = top_real;
        node = m1;
        node2 = record empty_mid2 { pos = pos 0 };
        tree = t;
        drawn = s0.drawn;
        steps = λ root m2 s2 top added rl.
            put_below_root-whole w s0 m1 empty_mid2 m2 new root
              (h.moves.holds.count ∙ ap length alone) top rl
            ∙ ap (λ x. some (tt, mid2_back x m2))
                (ends (record s0 { root = root }) s2
                  (add_to_root (shallow w) (record empty_mid2 { pos = pos 0 })
                    (record s0 { root = root }))
                  (add_to_root-none (shallow w) (record s0 { root = root })
                    (record empty_mid2 { pos = pos 0 }) (empty_mid2-IsParent (pos 0)).holds.count)
                  added);
        fronts = r.front ++ c1 ∷ r.back;
        backs = [];
        stays = parent';
        moves = empty_mid2-IsParent (pos 0);
        some_front = omega (arith, length-append r.front (c1 ∷ r.back));
        halves = inl refl;
        known = known';
        below =
            subst (λ ds. Forest (LeafCached t) ds (upsert k v xs))
              (sym (append-nil (r.front ++ c1 ∷ r.back))) below;
        keys = keys;
        agree = agree;
        old_top = route-IsTop P k cs xs r;
        new_tops = upsert-AllTops P k cs xs r v keys (top, tt);
      }
