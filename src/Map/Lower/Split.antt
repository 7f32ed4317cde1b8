-- ===== src/Map/Lower/Split.antt =====
-- The insertion below a `midNode2` of src/client.cpp whose leaf is split.
use mathlib.Core.Path.{subst}
use mathlib.Core.List.{append-nil}
use bomap.Base.{
  suc, ◌≡◌, refl, sym, ap, ◌∙◌, inl, inr, List, [], ◌∷◌, ◌++◌, some, length, length-append, ℤ,
  false, arith, pos, ◌>>=◌,
}
use bomap.Bid
use bomap.Bid.{Bid}
use bomap.Node.{KpPair, KvPair}
use bomap.Leaf
use bomap.Leaf.{LeafNode, empty_leaf}
use bomap.Leaf.Spec.{IsSorted, upsert, upsert-IsSorted}
use bomap.Leaf.Correct.{Inserted}
use bomap.Inner.Insert.{IsParent, insert_child-Parents}
use bomap.Inner.Rises.{Ascends-drop, put-Ascends, Ascends-IsFresh}
use bomap.Mid2
use bomap.Mid2.{MidNode2, empty_mid2}
use bomap.TreePath.{leaf_size, mid2_size}
use bomap.Client.{Tree, find, erase, assign}
use bomap.Client.Trees.{leaf_class}
use bomap.Map.{World, Store}
use bomap.Map.Forest.{Forest}
use bomap.Map.Tops.{AllTops, top-real, IsReal, IsReal-upsert, halves_apart}
use bomap.Map.Route.{Route, search_slots-Route}
use bomap.Map.Route.Rebuild.{
  route-IsFresh, route-IsTop, pairs-IsSorted, pairs-IsReal, upsert-AllTops,
}
use bomap.Map.Forest.Parts.{Forest-Ascends, Forest-one}
use bomap.Map.Cached.{LeafCached, Agree, find_new, find_other, moved_two-Agree}
use bomap.Map.Shallow.{mid2_update_correct}
use bomap.Map.Insert.Path.{shallow, emptied, leaf_back}
use bomap.Map.Insert.Back.{put_below_root-split, Quiet, write_leaf-Quiet}
use bomap.Map.Lower.{Lower, half_back, remembers, empty_mid2-IsParent, rebuilt}

module _ (w : World) (s : Store) (i : Bid) (m : MidNode2) (cs : List KpPair) (xs : List KvPair)
    (k : Bid) (v : ℤ) (parent : IsParent m cs) (sorted : IsSorted xs) (real : IsReal xs)
    (real_key : Bid.eq_int k (pos 0) ≡ false) (r : Route (LeafCached s.leaf) k cs xs)
    (quiet : Quiet (leaf_class w.leaf_bytes 3) w.leaves) (l l1 new : LeafNode)
    (old_real : Bid.eq_int r.child.key (pos 0) ≡ false)
    (cached : find s.leaf.cache r.child.key ≡ some l)
    (done : Leaf.insert
        (record l { pos = r.child.pos })
        (record empty_leaf { pos = w.draw (leaf_size 3) (suc (suc s.drawn)) })
        k
        v
      ≡ some (l1, new))
    (h : Inserted
      (upsert k v r.pairs)
      (record l { pos = r.child.pos })
      (record empty_leaf { pos = w.draw (leaf_size 3) (suc (suc s.drawn)) })
      (l1, new))
    (known : l1.old_max ≡ r.child.key) (four : length h.front ≡ 4) (five : length h.back ≡ 5) where
  -- the leaves that stand for the child, from the cache at the end
  two_tops : AllTops (l1.max_value ∷ new.max_value ∷ []) (upsert k v r.pairs)
  two_tops = (
    ([], h.front, h.back, sym h.joined, omega (arith, four), h.stays.largest),
    (
      (
        h.front,
        h.back,
        [],
        sym (ap (λ t. h.front ++ t) (append-nil h.back) ∙ h.joined),
        omega (arith, five),
        h.moves.largest,
      ),
      tt,
    ),
  )

  tops_real : (Bid.eq_int l1.max_value (pos 0) ≡ false) × (Bid.eq_int new.max_value (pos 0) ≡ false)
  tops_real =
      let ups_real =
        IsReal-upsert k v r.pairs real_key (pairs-IsReal (LeafCached s.leaf) k cs xs r real) in
      (
        top-real l1.max_value (upsert k v r.pairs) ups_real two_tops.0,
        top-real new.max_value (upsert k v r.pairs) ups_real two_tops.1.0,
      )

  abbrev two_leaves : List KpPair
  two_leaves =
      record r.child { key = l1.max_value } ∷ record { key = new.max_value; pos = new.pos } ∷ []

  two_below :
      (t : Tree LeafNode)
      → t.cache
        ≡ assign
            (assign
              (erase s.leaf.cache r.child.key)
              l1.max_value
              (record l1 { old_max = l1.max_value }))
            new.max_value
            (record new { old_max = new.max_value })
      → Forest (LeafCached t) two_leaves (upsert k v r.pairs)
  two_below t same =
      let l2 : LeafNode = record l1 { old_max = l1.max_value } in
      let new' : LeafNode = record new { old_max = new.max_value } in
      let gone = erase s.leaf.cache r.child.key in
      let sorted' =
        upsert-IsSorted k v r.pairs (pairs-IsSorted (LeafCached s.leaf) k cs xs r sorted) in
      let apart =
        halves_apart l1.max_value new.max_value h.front h.back
          (subst IsSorted (sym h.joined) sorted') (omega (arith, four)) (omega (arith, five))
          h.stays.largest h.moves.largest in
      let cn : KpPair = record { key = new.max_value; pos = new.pos } in
      let found =
        ap (λ x. find x l1.max_value) same
        ∙ find_other (assign gone l1.max_value l2) new.max_value l1.max_value new' apart
        ∙ find_new gone l1.max_value l2 in
      let found2 =
        ap (λ x. find x new.max_value) same
        ∙ find_new (assign gone l1.max_value l2) new.max_value new' in
      (
        h.front,
        h.back,
        (l2, tops_real.0, found, remembers l1 h.front h.stays, refl),
        omega (arith, four),
        h.stays.largest,
        Forest-one (LeafCached t) cn h.back
            (new', tops_real.1, found2, remembers new h.back h.moves, refl) (omega (arith, five))
            h.moves.largest,
        sym h.joined,
      )

  pub Lower-split : Lower w s i m xs k v
  unfolding Mid2.search Mid2.insert
  Lower-split =
      let P = LeafCached s.leaf in
      let c = r.child in
      let l2 : LeafNode = record l1 { old_max = l1.max_value } in
      let new' : LeafNode = record new { old_max = new.max_value } in
      let c1 : KpPair = record c { key = l1.max_value } in
      let cn : KpPair = record { key = new.max_value; pos = new.pos } in
      let s0 = leaf_back (emptied s i c.key) l2 in
      let (t, a, wrote, same) =
        write_leaf-Quiet (shallow w) (record s0 { drawn = suc s0.drawn }) new.max_value tops_real.1
          quiet new' in
      let keys = l1.max_value ∷ new.max_value ∷ [] in
      let agree : Agree (c.key ∷ keys) s.leaf.cache t.cache = λ b p.
        ap (λ x. find x b) same
        ∙ moved_two-Agree s.leaf.cache c.key l1.max_value new.max_value l2 new' b p in
      let below =
        rebuilt w s i m cs xs k v parent sorted real real_key r t two_leaves keys agree two_tops
          (two_below t same) in
      let rises =
        Forest-Ascends (LeafCached t) (r.front ++ c1 ∷ cn ∷ r.back) (upsert k v xs) below
          (upsert-IsSorted k v xs sorted) in
      let ((m1, l2'), up, (parent', placed, known', stored)) =
        mid2_update_correct m l1 r.front c r.back (subst (IsParent m) r.children parent) known
          (route-IsFresh P k cs xs r sorted) (Ascends-drop c1 cn r.back r.front rises) in
      let q = w.draw (mid2_size 3) s0.drawn in
      let ((m', n2), put_in, p) =
        insert_child-Parents m1 (record empty_mid2 { pos = q }) cn (r.front ++ c1 ∷ r.back) parent'
          (empty_mid2-IsParent q) (Ascends-IsFresh c1 cn r.back r.front rises) in
      let all : p.front ++ p.back ≡ r.front ++ c1 ∷ cn ∷ r.back =
        p.joined ∙ put-Ascends c1 cn r.back r.front rises in
      let inserted : Mid2.insert m1 (record empty_mid2 { pos = q }) new ≡ some (m', n2, new') =
        rw (put_in, ◌>>=◌) refl in
      record {
        child = c;
        leaf = l;
        grown = l1;
        spare = new;
        stored = l2;
        updated = m1;
        found = search_slots-Route P k cs xs r m.max_value parent.holds parent.largest;
        real = old_real;
        cached = cached;
        done = done;
        up = up ∙ ap (λ x. some (m1, x)) stored;
        real_top = tops_real.0;
        node = m';
        node2 = n2;
        tree = t;
        drawn = suc s0.drawn;
        steps = λ root m2 s2 root_up added rl.
            put_below_root-split w s0 m1 n2 m2 new root m' new' a (half_back s i (suc s0.drawn) t)
              s2 (ground (arith, h.moves.holds.count, five)) inserted wrote root_up added rl;
        fronts = p.front;
        backs = p.back;
        stays = p.stays;
        moves = p.moves;
        some_front = elim (p.halves) [
          | inl none_back ↦ omega (
            arith,
            ap length all,
            length-append p.front p.back,
            ap length none_back,
            length-append r.front (c1 ∷ cn ∷ r.back),
          )
          | inr (twelve, _) ↦ omega (arith, twelve)
        ];
        halves = elim (p.halves) [
          | inl none_back ↦ inl none_back
          | inr (_, twelve) ↦ inr (omega (arith, twelve))
        ];
        known = p.known ∙ known';
        below = subst (λ ds. Forest (LeafCached t) ds (upsert k v xs)) (sym all) below;
        keys = keys;
        agree = agree;
        old_top = route-IsTop P k cs xs r;
        new_tops = upsert-AllTops P k cs xs r v keys two_tops;
      }
