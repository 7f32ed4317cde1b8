-- ===== src/Map/Route/Rebuild.antt =====
-- What an upsert of a key of src/client.cpp does to the children of a node and to the pairs below them.
use mathlib.Core.Path.{subst}
use mathlib.Core.List.{append-nil}
use bomap.Base.{◌<◌, ◌≤◌, ◌≡◌, sym, ap, ◌∙◌, inl, inr, List, ◌++◌, length, ℤ}
use bomap.Bid.{Bid}
use bomap.Bid.Order.{value}
use bomap.Node.{KpPair, KvPair}
use bomap.Inner.Place.{IsFresh}
use bomap.Leaf.Spec.{IsSorted, IsSorted-append, max_key, upsert, upsert-IsSorted}
use bomap.Map.Forest.{Forest}
use bomap.Map.Forest.Parts.{Forest-append, Forest-IsFresh, Forest-frame}
use bomap.Map.Pairs.{Avoids, part-Avoids, upsert-append_low, upsert-append_high}
use bomap.Map.Tops.{
  IsTop, IsTop-part, IsTop-all, IsReal, IsReal-append, AllTops, AllTops-part, AllAvoid,
  AllTops-AllAvoid,
}
use bomap.Map.Route.{Route}

module _ (P : KpPair → List KvPair → Type 0) (k : Bid) (cs : List KpPair) (xs : List KvPair)
    (r : Route P k cs xs) where
  pub child-Avoids : IsSorted xs → Avoids r.child.key r.lows × Avoids r.child.key r.highs
  child-Avoids s =
      subst (λ j. Avoids j r.lows × Avoids j r.highs) (sym r.key)
        (part-Avoids r.child.key r.lows r.pairs r.highs (subst IsSorted r.all_pairs s) r.some_pairs)

  pub upsert-Route : (v : ℤ) → upsert k v xs ≡ r.lows ++ (upsert k v r.pairs ++ r.highs)
  upsert-Route v =
      ap (upsert k v) r.all_pairs
      ∙ upsert-append_low k v r.lows (r.pairs ++ r.highs) r.under
      ∙ ap (λ t. r.lows ++ t)
          (elim (r.reach) [
            | inl (le, b) ↦
                upsert-append_high k v r.child.key r.pairs r.highs r.some_pairs
                  (subst (λ j. value k ≤ value j) r.key le)
            | inr (b, ends, none_above) ↦
                rw (none_above, append-nil r.pairs) (sym (append-nil (upsert k v r.pairs)))
          ])

  pub route-IsTop : IsTop r.child.key xs
  route-IsTop = subst (IsTop r.child.key) (sym r.all_pairs) (
      IsTop-part r.child.key r.lows r.pairs r.highs
        (IsTop-all r.child.key r.pairs r.some_pairs r.key))

  -- The node with `news` in place of the child, which have the pairs after the upsert, where the
  -- other children have what they had.
  pub rebuild :
      (Q : KpPair → List KvPair → Type 0) (S : List KvPair → Type 0) (v : ℤ) (news : List KpPair)
      → ((xs ys : List KvPair) → S (xs ++ ys) → S xs × S ys)
      → ((c : KpPair) (ys : List KvPair)
          → S ys
          → 0 < length ys
          → c.key ≡ max_key c.key ys
          → P c ys
          → Q c ys)
      → S r.lows
      → S r.highs
      → Forest Q news (upsert k v r.pairs)
      → Forest Q (r.front ++ (news ++ r.back)) (upsert k v xs)
  rebuild Q S v news cut frame a b f =
      let ups = upsert k v r.pairs in
      let low = Forest-frame P Q S cut frame r.front r.lows a r.low in
      let high = Forest-frame P Q S cut frame r.back r.highs b r.high in
      subst (Forest Q (r.front ++ (news ++ r.back))) (sym (upsert-Route v)) (
        Forest-append Q r.front (news ++ r.back) r.lows (ups ++ r.highs) low
          (Forest-append Q news r.back ups r.highs f high))

  pub pairs-IsSorted : IsSorted xs → IsSorted r.pairs
  pairs-IsSorted s =
      let (_, q) = IsSorted-append r.lows (r.pairs ++ r.highs) (subst IsSorted r.all_pairs s) in
      let (p, _) = IsSorted-append r.pairs r.highs q in p

  pub pairs-IsReal : IsReal xs → IsReal r.pairs
  pairs-IsReal real =
      let (_, q) = IsReal-append r.lows (r.pairs ++ r.highs) (subst IsReal r.all_pairs real) in
      let (p, _) = IsReal-append r.pairs r.highs q in p

  module _ (v : ℤ) (keys : List Bid) (tops : AllTops keys (upsert k v r.pairs)) where
    pub upsert-AllTops : AllTops keys (upsert k v xs)
    upsert-AllTops =
        subst (AllTops keys) (sym (upsert-Route v))
          (AllTops-part keys r.lows (upsert k v r.pairs) r.highs tops)

    -- the largest keys of pairs below the child are in none of the others
    pub upsert-AllAvoid : IsSorted xs → AllAvoid keys r.lows × AllAvoid keys r.highs
    upsert-AllAvoid s =
        AllTops-AllAvoid keys r.lows (upsert k v r.pairs) r.highs
          (subst IsSorted (upsert-Route v) (upsert-IsSorted k v xs s)) tops

  pub route-IsFresh : IsSorted xs → IsFresh r.child.key r.front
  route-IsFresh s =
      let (low, _) = child-Avoids s in Forest-IsFresh P r.child.key r.front r.lows r.low low
