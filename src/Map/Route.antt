-- ===== src/Map/Route.antt =====
-- The child of a node that the searches of src/node.cpp take for a key, and what an upsert of the
-- key does to the children and to the pairs below them.
pub mod Rebuild
pub mod Neighbor
use mathlib.Core.Path.{subst}
use mathlib.Core.List.{append_assoc}
use bomap.Base.{
  ℕ, ◌<◌, ◌≤◌, ◌≡◌, refl, sym, ap, ◌∙◌, Bool-cases, inl, inr, ◌⊎◌, List, [], ◌∷◌, ◌++◌, some,
  length, Bool, true, false, arith, length-append, ◌>>=◌, ◌==◌,
}
use bomap.Bid
use bomap.Bid.{Bid}
use bomap.Bid.Order.{value, ge-value}
use bomap.Node.{KpPair, KvPair}
use bomap.Slots.Holds.{Holds}
use bomap.Slots.Zipper.{before}
use bomap.Slots.Moves.{get_at, find_first_at, read_last-Holds}
use bomap.Inner.{search_slots}
use bomap.Inner.Insert.{last_key}
use bomap.Leaf.Spec.{IsSorted, IsSorted-append, max_key}
use bomap.Map.Forest.{Forest, last_key-append}
use bomap.Map.Pairs.{Under, Under-append, Under-high}

-- a Boolean test of the searches
abbrev pub reaches : Bid → KpPair → Bool
reaches k x = Bid.ge x.key k

-- The child for the key `k`: the pairs of the children before it have lower keys, and its own
-- largest key is not below `k`, or it is the last child.
pub record Route (P : KpPair → List KvPair → Type 0) (k : Bid) (cs : List KpPair) (xs : List KvPair)
    : Type 0 where
  pub front : List KpPair
  pub child : KpPair
  pub back : List KpPair
  pub lows : List KvPair
  pub pairs : List KvPair
  pub highs : List KvPair
  pub children : cs ≡ front ++ child ∷ back
  pub all_pairs : xs ≡ lows ++ (pairs ++ highs)
  pub low : Forest P front lows
  pub here : P child pairs
  pub some_pairs : 0 < length pairs
  pub key : child.key ≡ max_key child.key pairs
  pub high : Forest P back highs
  pub under : Under (value k) lows
  pub reach :
      ((value k ≤ value child.key) × (before (reaches k) cs ≡ front))
      ⊎ ((before (reaches k) cs ≡ cs) × (back ≡ []) × (highs ≡ []))

module _ (P : KpPair → List KvPair → Type 0) (k : Bid) where
  -- the route of the children behind one whose key is below `k`
  behind :
      (c : KpPair) (cs : List KpPair) (xs ps zs : List KvPair)
      → P c ps
      → 0 < length ps
      → c.key ≡ max_key c.key ps
      → xs ≡ ps ++ zs
      → Under (value k) ps
      → Bid.ge c.key k ≡ false
      → Route P k cs zs
      → Route P k (c ∷ cs) xs
  behind c cs xs ps zs p more key e u lower r = record {
    front = c ∷ r.front;
    child = r.child;
    back = r.back;
    lows = ps ++ r.lows;
    pairs = r.pairs;
    highs = r.highs;
    children = ap (◌∷◌ c) r.children;
    all_pairs =
        e ∙ ap (λ t. ps ++ t) r.all_pairs ∙ sym (append_assoc ps r.lows (r.pairs ++ r.highs));
    low = (ps, r.lows, p, more, key, r.low, refl);
    here = r.here;
    some_pairs = r.some_pairs;
    key = r.key;
    high = r.high;
    under = Under-append (value k) ps r.lows u r.under;
    reach = elim (r.reach) [
      | inl (le, b) ↦ inl (le, rw lower (ap (◌∷◌ c) b))
      | inr (b, last, none_above) ↦ inr (rw lower (ap (◌∷◌ c) b), last, none_above)
    ];
  }

  at_child :
      (c : KpPair) (cs : List KpPair) (xs ps zs : List KvPair)
      → P c ps
      → 0 < length ps
      → c.key ≡ max_key c.key ps
      → xs ≡ ps ++ zs
      → Forest P cs zs
      → ((value k ≤ value c.key) × (before (reaches k) (c ∷ cs) ≡ []))
        ⊎ ((before (reaches k) (c ∷ cs) ≡ c ∷ cs) × (cs ≡ []) × (zs ≡ []))
      → Route P k (c ∷ cs) xs
  at_child c cs xs ps zs p more key e f reach = record {
    front = [];
    child = c;
    back = cs;
    lows = [];
    pairs = ps;
    highs = zs;
    children = refl;
    all_pairs = e;
    low = refl;
    here = p;
    some_pairs = more;
    key = key;
    high = f;
    under = tt;
    reach = reach;
  }

  reached : (c : KpPair) → Bid.ge c.key k ≡ true → value k ≤ value c.key
  reached c here = ground (arith, ge-value c.key k)

  pub route :
      (cs : List KpPair) (xs : List KvPair)
      → Forest P cs xs
      → IsSorted xs
      → 0 < length cs
      → Route P k cs xs
  route [] xs f s h = absurd (omega arith)
  route (c ∷ []) xs (ps, zs, p, more, key, f, e) s h = elim (Bool-cases (Bid.ge c.key k)) [
    | inl here ↦ at_child c [] xs ps zs p more key e f (inl (reached c here, rw here refl))
    | inr lower ↦ at_child c [] xs ps zs p more key e f (inr (rw lower refl, refl, f))
  ]
  route (c ∷ d ∷ cs) xs (ps, zs, p, more, key, f, e) s h = elim (Bool-cases (Bid.ge c.key k)) [
    | inl here ↦ at_child c (d ∷ cs) xs ps zs p more key e f (inl (reached c here, rw here refl))
    | inr lower ↦
        let (sorted, sorted') = IsSorted-append ps zs (subst IsSorted e s) in
        let u : Under (value k) ps =
          Under-high (value k) c.key ps sorted
            (subst (λ j. value j < value k) key (ground (arith, ge-value c.key k))) in
        behind c (d ∷ cs) xs ps zs p more key e u lower (route (d ∷ cs) zs f sorted' (omega arith))
  ]

  module _ (cs : List KpPair) (xs : List KvPair) (r : Route P k cs xs) where
    -- The first search of a node finds the child.
    pub search_slots-Route :
        {cap : ℕ} {a : List KpPair} {n : ℕ} (max : Bid)
        → Holds cap a n cs
        → max ≡ last_key max cs
        → search_slots a n max k ≡ some r.child
    unfolding search_slots
    search_slots-Route {cap} {a} {n} max h m =
        let found = find_first_at (reaches k) h in
        let slots : a ≡ r.front ++ r.child ∷ (r.back ++ h.rest) =
          h.layout
          ∙ ap (λ u. u ++ h.rest) r.children
          ∙ append_assoc r.front (r.child ∷ r.back) h.rest in
        elim (r.reach) [
          | inl (le, b) ↦
              let within : (length r.front == n) ≡ false =
                ground (
                  arith,
                  h.count,
                  ap length r.children,
                  length-append r.front (r.child ∷ r.back),
                ) in
              rw (found, ◌>>=◌, b, within, slots) (get_at r.front (r.back ++ h.rest) r.child _ refl)
          | inr (b, ends, none_above) ↦
              let all : cs ≡ r.front ++ r.child ∷ [] =
                r.children ∙ ap (λ u. r.front ++ r.child ∷ u) ends in
              let last : (length cs == n) ≡ true = ground (arith, h.count) in
              let read = read_last-Holds r.front r.child (subst (λ u. Holds cap a n u) all h) in
              let same : record r.child { key = max } ≡ r.child =
                ap (λ j. record r.child { key = j })
                  (m ∙ ap (last_key max) all ∙ last_key-append max r.front r.child) in
              rw (found, ◌>>=◌, b, last, read) (ap some same)
        ]
