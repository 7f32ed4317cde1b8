-- ===== src/Map/Upper/Step.antt =====
-- The rest of an insertion of src/client.cpp from the update of the root on, on every branch.
use bomap.Base.{ℕ, ◌<◌, ◌≡◌, inl, inr, List, length, ℤ, false, pos}
use bomap.Bid
use bomap.Bid.{Bid}
use bomap.Node.{KvPair, root_slots}
use bomap.Mid2.{MidNode2}
use bomap.Client.Trees.{mid2_class}
use bomap.Map.{World, Store}
use bomap.Map.Route.{Route}
use bomap.Map.Cached.{Mid2Cached, Cached}
use bomap.Map.Lower.{Lower}
use bomap.Map.Insert.Path.{shallow}
use bomap.Map.Insert.Back.{Quiet}
use bomap.Map.Upper.{Ends}
use bomap.Map.Upper.Whole.{upper_whole}
use bomap.Map.Upper.Split.{upper_split}

module _ (n : ℕ) (w : World) (s : Store) (xs : List KvPair) (k : Bid) (v : ℤ)
    (h : Cached n (shallow w) s xs) (real_key : Bid.eq_int k (pos 0) ≡ false)
    (r : Route (Mid2Cached s.mid2 s.leaf) k h.children xs) (m : MidNode2)
    (o : Lower w s r.child.key m r.pairs k v) (old : m.old_max ≡ r.child.key) where
  pub upper :
      Quiet (mid2_class w.mid2_bytes 3) w.mid2s
      → length h.children < root_slots
      → Ends n w s xs k v h real_key r m o old
  upper quiet room = elim (o.halves) [
    | inl alone ↦ upper_whole n w s xs k v h real_key r m o old alone
    | inr some_back ↦ upper_split n w s xs k v h real_key r m o old quiet some_back room
  ]
