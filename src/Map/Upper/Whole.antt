-- ===== src/Map/Upper/Whole.antt =====
-- The rest of an insertion of src/client.cpp where the `midNode2` was not split.
use mathlib.Core.Path.{subst}
use mathlib.Core.List.{append-nil}
use bomap.Base.{
  ℕ, ◌≡◌, refl, ap, ◌∙◌, List, [], ◌∷◌, ◌++◌, some, length, length-append, ℤ, false, arith, pos,
}
use bomap.Bid
use bomap.Bid.{Bid}
use bomap.Node.{KpPair, KvPair, root_slots}
use bomap.Slots.Holds.{Holds}
use bomap.Leaf.Spec.{max_key, upsert, upsert-IsSorted}
use bomap.Mid2.{MidNode2}
use bomap.Root.Update.{update_mid2_correct}
use bomap.Client.{erase}
use bomap.Map.{World, Store}
use bomap.Map.Forest.{Forest}
use bomap.Map.Pairs.{length-upsert_pos}
use bomap.Map.Tops.{IsTop, IsTop-all, top-real, IsReal-upsert}
use bomap.Map.Route.{Route}
use bomap.Map.Route.Rebuild.{route-IsFresh, pairs-IsReal}
use bomap.Map.Forest.Parts.{Forest-Ascends, Forest-one, Forest-last_key}
use bomap.Map.Cached.{LeafCached, Mid2Cached, Cached, find_new, moved-Agree}
use bomap.Map.Lower.{Lower, half_back}
use bomap.Map.Insert.Path.{taken, given, shallow}
use bomap.Map.Insert.Back.{mid2_back, add_to_root-none}
use bomap.Map.Upper.{remembers, rebuilt, Ends, Cached-again}

module _ (n : ℕ) (w : World) (s : Store) (xs : List KvPair) (k : Bid) (v : ℤ)
    (h : Cached n (shallow w) s xs) (real_key : Bid.eq_int k (pos 0) ≡ false)
    (r : Route (Mid2Cached s.mid2 s.leaf) k h.children xs) (m : MidNode2)
    (o : Lower w s r.child.key m r.pairs k v) (old : m.old_max ≡ r.child.key) where
  pub upper_whole : o.backs ≡ [] → Ends n w s xs k v h real_key r m o old
  upper_whole alone =
      let P = Mid2Cached s.mid2 s.leaf in
      let cs = h.children in
      let c = r.child in
      let ups = upsert k v r.pairs in
      let more = length-upsert_pos k v r.pairs in
      let ups_real = IsReal-upsert k v r.pairs real_key (pairs-IsReal P k cs xs r h.real) in
      let m1 = o.node in
      let m2 : MidNode2 = record m1 { old_max = m1.max_value } in
      let f : Forest (LeafCached o.tree) o.fronts ups =
        subst (λ ds. Forest (LeafCached o.tree) ds ups)
          (ap (λ t. o.fronts ++ t) alone ∙ append-nil o.fronts) o.below in
      let largest : m1.max_value ≡ max_key m1.max_value ups =
        o.stays.largest
        ∙ Forest-last_key (LeafCached o.tree) m1.max_value m1.max_value o.fronts ups f
            o.some_front in
      let top : IsTop m1.max_value ups = IsTop-all m1.max_value ups more largest in
      let real_top = top-real m1.max_value ups ups_real top in
      let c1 : KpPair = record c { key = m1.max_value } in
      let t = given (taken s.mid2 c.key) m1.max_value m2 in
      let here : Mid2Cached t o.tree c1 ups = (
        m2,
        o.fronts,
        real_top,
        find_new (erase s.mid2.cache c.key) m1.max_value m2,
        remembers m1 o.fronts o.stays,
        o.some_front,
        refl,
        f,
      ) in
      let below =
        rebuilt n w s xs k v h real_key r m o old t (c1 ∷ []) (m1.max_value ∷ [])
          (moved-Agree s.mid2.cache c.key m1.max_value m2) (top, tt)
          (Forest-one (Mid2Cached t o.tree) c1 ups here more largest) in
      let rises =
        Forest-Ascends (Mid2Cached t o.tree) (r.front ++ c1 ∷ r.back) (upsert k v xs) below
          (upsert-IsSorted k v xs h.sorted) in
      let ((root, m2'), up, (held, high, stored)) =
        update_mid2_correct s.root m1 r.front c r.back
          (subst (Holds root_slots s.root.child_map s.root.p1) r.children h.holds) (o.known ∙ old)
          (route-IsFresh P k cs xs r h.sorted) rises in
      let s2 = record (half_back s c.key o.drawn o.tree) { root = root } in
      let same : length (r.front ++ c1 ∷ r.back) ≡ length cs = omega (
        arith,
        ap length r.children,
        length-append r.front (c1 ∷ r.back),
        length-append r.front (c ∷ r.back),
      ) in
      (
        (tt, mid2_back s2 m2),
        o.steps root m2 s2 (up ∙ ap (λ x. some (root, x)) stored)
            (add_to_root-none (shallow w) s2 o.node2 (o.moves.holds.count ∙ ap length alone))
            real_top,
        Cached-again n w s xs k v h real_key r m o old (mid2_back s2 m2) (r.front ++ c1 ∷ r.back)
            held high (omega (arith, h.some_children, same)) (omega (arith, h.few_children, same))
            below refl,
      )
