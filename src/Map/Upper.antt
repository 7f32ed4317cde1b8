-- ===== src/Map/Upper.antt =====
-- The root of src/node.cpp and the `midNode2`s below it in the cache of src/client.cpp, in an insertion.
pub mod Whole
pub mod Split
pub mod Step
use mathlib.Core.Path.{subst}
use bomap.Base.{ℕ, suc, ◌+◌, ◌<◌, ◌≤◌, ◌≡◌, refl, ◌∙◌, List, ◌∷◌, ◌++◌, length, ℤ, false, pos}
use bomap.Bid
use bomap.Bid.{Bid}
use bomap.Node.{KpPair, KvPair, root_slots}
use bomap.Slots.Holds.{Holds, Yields}
use bomap.Leaf.Spec.{IsSorted, upsert, upsert-IsSorted}
use bomap.Inner.Insert.{IsParent, last_key}
use bomap.Mid2.{MidNode2}
use bomap.Root
use bomap.Client.{Tree}
use bomap.Map.{World, Store}
use bomap.Map.Forest.{Forest}
use bomap.Map.Tops.{AllTops, top-Avoids, IsReal-upsert}
use bomap.Map.Route.{Route}
use bomap.Map.Route.Rebuild.{child-Avoids, rebuild, upsert-AllAvoid}
use bomap.Map.Cached.{Mid2Cached, Mid2Cached-frame, Clear, Clear-append, Cached, Agree}
use bomap.Map.Lower.{Lower}
use bomap.Map.Insert.{put_below_root}
use bomap.Map.Insert.Path.{shallow, emptied, leaf_back}

pub remembers :
    (m : MidNode2) (cs : List KpPair)
    → IsParent m cs
    → IsParent (record m { old_max = m.max_value }) cs
remembers m cs i = record { holds = i.holds; largest = i.largest }

module _ (n : ℕ) (w : World) (s : Store) (xs : List KvPair) (k : Bid) (v : ℤ)
    (h : Cached n (shallow w) s xs) (real_key : Bid.eq_int k (pos 0) ≡ false)
    (r : Route (Mid2Cached s.mid2 s.leaf) k h.children xs) (m : MidNode2)
    (o : Lower w s r.child.key m r.pairs k v) (old : m.old_max ≡ r.child.key) where
  -- the root's children after the insertion, from those that stand for the child
  pub rebuilt :
      (t : Tree MidNode2) (news : List KpPair) (keys : List Bid)
      → Agree (r.child.key ∷ keys) s.mid2.cache t.cache
      → AllTops keys (upsert k v r.pairs)
      → Forest (Mid2Cached t o.tree) news (upsert k v r.pairs)
      → Forest (Mid2Cached t o.tree) (r.front ++ (news ++ r.back)) (upsert k v xs)
  rebuilt t news keys agree tops f =
      let P = Mid2Cached s.mid2 s.leaf in
      let cs = h.children in
      let (cl, ch) = child-Avoids P k cs xs r h.sorted in
      let (kl, kh) = upsert-AllAvoid P k cs xs r v keys tops h.sorted in
      let (ll, lh) = upsert-AllAvoid P k cs xs r v o.keys o.new_tops h.sorted in
      let (il, ih) =
        top-Avoids o.child.key r.lows r.pairs r.highs (subst IsSorted r.all_pairs h.sorted)
          o.old_top in
      let is = r.child.key ∷ keys in
      let js = o.child.key ∷ o.keys in
      rebuild P k cs xs r (Mid2Cached t o.tree) (Clear is js) v news (Clear-append is js)
        (Mid2Cached-frame s.mid2 t s.leaf o.tree is js agree o.agree) ((cl, kl), (il, ll))
        ((ch, kh), (ih, lh)) f

  -- the rest of the insertion, from the update of the root on
  abbrev pub Ends : Type 0
  Ends =
      Yields (λ e. Cached (suc n) (shallow w) e.1 (upsert k v xs))
        (put_below_root (shallow w) o.updated o.spare
          (leaf_back (emptied s r.child.key o.child.key) o.stored))

  pub Cached-again :
      (s' : Store) (cs : List KpPair)
      → Holds root_slots s'.root.child_map s'.root.p1 cs
      → s'.root.max_value ≡ last_key s'.root.max_value cs
      → 0 < length cs
      → length cs ≤ suc n
      → Forest (Mid2Cached s'.mid2 s'.leaf) cs (upsert k v xs)
      → s'.mid1 ≡ s.mid1
      → Cached (suc n) (shallow w) s' (upsert k v xs)
  Cached-again s' cs held top more few below same = record {
    children = cs;
    holds = held;
    largest = top;
    some_children = more;
    few_children = few;
    below = below;
    sorted = upsert-IsSorted k v xs h.sorted;
    real = IsReal-upsert k v xs real_key h.real;
    three_levels = refl;
    no_mid1s = same ∙ h.no_mid1s;
  }
