-- ===== src/Map/Upper/Split.antt =====
-- The rest of an insertion of src/client.cpp where the `midNode2` was split, and the root has room.
use mathlib.Core.Path.{subst}
use mathlib.Core.List.{append-nil}
use bomap.Base.{
  ℕ, ◌<◌, ◌≡◌, refl, sym, ap, ◌∙◌, List, [], ◌∷◌, ◌++◌, length, length-append, ℤ, false, arith, pos,
  ◌==◌,
}
use bomap.Bid
use bomap.Bid.{Bid}
use bomap.Bid.Order.{eq-value}
use bomap.Node.{KpPair, KvPair, root_slots}
use bomap.Slots.Holds.{Holds}
use bomap.Leaf.Spec.{IsSorted, max_key, upsert, upsert-IsSorted}
use bomap.Mid2.{MidNode2}
use bomap.Root.Insert.{child_of, update_mid2-insert_mid2}
use bomap.Client.{Tree, find, erase, assign}
use bomap.Client.Trees.{mid2_class}
use bomap.Map.{World, Store}
use bomap.Map.Forest.{Forest}
use bomap.Map.Tops.{AllTops, top-real, IsReal-upsert, halves_apart}
use bomap.Map.Route.{Route}
use bomap.Map.Route.Rebuild.{route-IsFresh, pairs-IsSorted, pairs-IsReal}
use bomap.Map.Forest.Parts.{
  Forest-frame, Forest-Ascends, Forest-one, Forest-cut, Forest-last_key, Forest-pos,
}
use bomap.Map.Cached.{
  LeafCached, Mid2Cached, Mid2Cached-frame, Clear, Clear-append, Cached, find_new, find_other,
  moved_two-Agree,
}
use bomap.Map.Lower.{Lower, half_back}
use bomap.Map.Insert.Path.{taken, given, shallow}
use bomap.Map.Insert.Back.{mid2_back, add_to_root-some, Quiet, write_mid2-Quiet}
use bomap.Map.Upper.{remembers, rebuilt, Ends, Cached-again}

module _ (n : ℕ) (w : World) (s : Store) (xs : List KvPair) (k : Bid) (v : ℤ)
    (h : Cached n (shallow w) s xs) (real_key : Bid.eq_int k (pos 0) ≡ false)
    (r : Route (Mid2Cached s.mid2 s.leaf) k h.children xs) (m : MidNode2)
    (o : Lower w s r.child.key m r.pairs k v) (old : m.old_max ≡ r.child.key) where
  -- the two `midNode2`s that stand for the child, and the pairs below them
  record Halves : Type 0 where
    lows : List KvPair
    highs : List KvPair
    low : Forest (LeafCached o.tree) o.fronts lows
    high : Forest (LeafCached o.tree) o.backs highs
    all : upsert k v r.pairs ≡ lows ++ highs
    some_low : 0 < length lows
    some_high : 0 < length highs
    largest : o.node.max_value ≡ max_key o.node.max_value lows
    largest2 : o.node2.max_value ≡ max_key o.node2.max_value highs

  halved : 0 < length o.backs → Halves
  halved some_back =
      let Q = LeafCached o.tree in
      let (ys, zs, f, g, e) = Forest-cut Q o.fronts o.backs (upsert k v r.pairs) o.below in
      record {
        lows = ys;
        highs = zs;
        low = f;
        high = g;
        all = e;
        some_low = Forest-pos Q o.fronts ys f o.some_front;
        some_high = Forest-pos Q o.backs zs g some_back;
        largest =
            o.stays.largest
            ∙ Forest-last_key Q o.node.max_value o.node.max_value o.fronts ys f o.some_front;
        largest2 =
            o.moves.largest
            ∙ Forest-last_key Q o.node2.max_value o.node2.max_value o.backs zs g some_back;
      }

  abbrev two_keys : List Bid
  two_keys = o.node2.max_value ∷ o.node.max_value ∷ []

  two_tops : Halves → AllTops two_keys (upsert k v r.pairs)
  two_tops p = (
    (
      p.lows,
      p.highs,
      [],
      p.all ∙ sym (ap (λ t. p.lows ++ t) (append-nil p.highs)),
      p.some_high,
      p.largest2,
    ),
    (([], p.lows, p.highs, p.all, p.some_low, p.largest), tt),
  )

  tops_real :
      Halves
      → (Bid.eq_int o.node2.max_value (pos 0) ≡ false)
        × (Bid.eq_int o.node.max_value (pos 0) ≡ false)
  tops_real p =
      let ups_real =
        IsReal-upsert k v r.pairs real_key
          (pairs-IsReal (Mid2Cached s.mid2 s.leaf) k h.children xs r h.real) in
      (
        top-real o.node2.max_value (upsert k v r.pairs) ups_real (two_tops p).0,
        top-real o.node.max_value (upsert k v r.pairs) ups_real (two_tops p).1.0,
      )

  -- the cache at the end
  abbrev ended : Tree MidNode2
  ended =
      given
        (given (taken s.mid2 r.child.key) o.node2.max_value
          (record o.node2 { old_max = o.node2.max_value }))
        o.node.max_value (record o.node { old_max = o.node.max_value })

  abbrev two_nodes : List KpPair
  two_nodes = record r.child { key = o.node.max_value } ∷ child_of o.node2 ∷ []

  two_below :
      (p : Halves)
      → 0 < length o.backs
      → Forest (Mid2Cached ended o.tree) two_nodes (upsert k v r.pairs)
  two_below p some_back =
      let m1 = o.node in
      let n2 = o.node2 in
      let m2 : MidNode2 = record m1 { old_max = m1.max_value } in
      let n2' : MidNode2 = record n2 { old_max = n2.max_value } in
      let gone = erase s.mid2.cache r.child.key in
      let sorted' =
        upsert-IsSorted k v r.pairs
          (pairs-IsSorted (Mid2Cached s.mid2 s.leaf) k h.children xs r h.sorted) in
      let apart =
        halves_apart m1.max_value n2.max_value p.lows p.highs (subst IsSorted p.all sorted')
          p.some_low p.some_high p.largest p.largest2 in
      let apart' : Bid.eq n2.max_value m1.max_value ≡ false =
        ground
          (arith, eq-value m1.max_value n2.max_value, eq-value n2.max_value m1.max_value, apart) in
      let found =
        find_other (assign gone n2.max_value n2') m1.max_value n2.max_value m2 apart'
        ∙ find_new gone n2.max_value n2' in
      (
        p.lows,
        p.highs,
        (
          m2,
          o.fronts,
          (tops_real p).1,
          find_new (assign gone n2.max_value n2') m1.max_value m2,
          remembers m1 o.fronts o.stays,
          o.some_front,
          refl,
          p.low,
        ),
        p.some_low,
        p.largest,
        Forest-one (Mid2Cached ended o.tree) (child_of n2) p.highs
            (
              n2',
              o.backs,
              (tops_real p).0,
              found,
              remembers n2 o.backs o.moves,
              some_back,
              refl,
              p.high,
            )
            p.some_high p.largest2,
        p.all,
      )

  same_cache :
      (t t' : Tree MidNode2) (cs : List KpPair)
      → t'.cache ≡ t.cache
      → Forest (Mid2Cached t o.tree) cs (upsert k v xs)
      → Forest (Mid2Cached t' o.tree) cs (upsert k v xs)
  same_cache t t' cs e f =
      Forest-frame (Mid2Cached t o.tree) (Mid2Cached t' o.tree) (Clear [] []) (Clear-append [] [])
        (Mid2Cached-frame t t' o.tree o.tree [] [] (λ b _. ap (λ x. find x b) e) (λ b _. refl)) cs
        (upsert k v xs) (tt, tt) f

  pub upper_split :
      Quiet (mid2_class w.mid2_bytes 3) w.mid2s
      → 0 < length o.backs
      → length h.children < root_slots
      → Ends n w s xs k v h real_key r m o old
  upper_split quiet some_back room =
      let cs = h.children in
      let c = r.child in
      let p = halved some_back in
      let m2 : MidNode2 = record o.node { old_max = o.node.max_value } in
      let n2' : MidNode2 = record o.node2 { old_max = o.node2.max_value } in
      let s1 = half_back s c.key o.drawn o.tree in
      let all = r.front ++ (two_nodes ++ r.back) in
      let below =
        rebuilt n w s xs k v h real_key r m o old ended two_nodes two_keys
          (moved_two-Agree s.mid2.cache c.key o.node2.max_value o.node.max_value n2' m2)
          (two_tops p) (two_below p some_back) in
      let rises =
        Forest-Ascends (Mid2Cached ended o.tree) all (upsert k v xs) below
          (upsert-IsSorted k v xs h.sorted) in
      let size = ap length r.children in
      let (root, root2, b, up, put_in, held, high) =
        update_mid2-insert_mid2 s.root o.node o.node2 r.front c r.back
          (subst (Holds root_slots s.root.child_map s.root.p1) r.children h.holds) (o.known ∙ old)
          (route-IsFresh (Mid2Cached s.mid2 s.leaf) k cs xs r h.sorted) (omega (arith, size))
          rises in
      let (t2, a, wrote, cache) =
        write_mid2-Quiet (shallow w) (record s1 { root = root2 }) o.node2.max_value (tops_real p).0
          quiet n2' in
      let s2 = record s1 { root = root2; mid2 = t2 } in
      let full : (o.node2.p2 == 0) ≡ false = ground (arith, o.moves.holds.count, some_back) in
      (
        (tt, mid2_back s2 m2),
        o.steps root m2 s2 up
            (add_to_root-some (shallow w) (record s1 { root = root }) s2 o.node2 n2' b root2 a full
              put_in wrote)
            (tops_real p).1,
        Cached-again n w s xs k v h real_key r m o old (mid2_back s2 m2) all held high
            (omega (arith, length-append r.front (two_nodes ++ r.back)))
            (omega (
              arith,
              h.few_children,
              size,
              length-append r.front (two_nodes ++ r.back),
              length-append r.front (c ∷ r.back),
            ))
            (same_cache ended (mid2_back s2 m2).mid2 all
              (ap (λ x. assign x o.node.max_value m2) cache) below)
            refl,
      )
