-- ===== src/Map/Cached.antt =====
-- A client of src/client.cpp with three levels whose caches hold the whole search tree, and what a
-- cache gives after the steps of an operation on it.
use mathlib.Core.Path.{subst}
use bomap.Base.{
  ℕ, ◌<◌, ◌≤◌, ◌≡◌, refl, sym, ap, ◌∙◌, inl, List, [], ◌∷◌, ◌++◌, some, length, true, false, arith,
  pos,
}
use bomap.Bid
use bomap.Bid.{Bid}
use bomap.Bid.Order.{eq-value}
use bomap.Node.{KpPair, KvPair, root_slots}
use bomap.Slots.Holds.{Holds}
use bomap.Leaf.{LeafNode}
use bomap.Leaf.Spec.{IsLeaf, IsSorted, max_key}
use bomap.Inner.Insert.{IsParent, last_key}
use bomap.Mid2.{MidNode2}
use bomap.Client.{Tree, find, erase, assign}
use bomap.Client.Writes.{find-erase}
use bomap.Client.Access.{find-assign}
use bomap.Map.{Store, World}
use bomap.Map.Forest.{Forest}
use bomap.Map.Tops.{Apart, IsReal, AllAvoid, AllAvoid-append, max_key-Apart}
use bomap.Map.Forest.Parts.{Forest-frame, Forest-imp}
use bomap.Map.Stored.{Stores, LeafStores, Mid2Stores, Mid1Stores}

module _ {N : Type 0} where
  -- two caches agree but for some keys
  abbrev pub Agree : List Bid → List (Bid × N) → List (Bid × N) → Type 0
  Agree js a b = (k : Bid) → Apart k js → find b k ≡ find a k

  pub find_new : (c : List (Bid × N)) (j : Bid) (n : N) → find (assign c j n) j ≡ some n
  find_new c j n =
      let same : Bid.eq j j ≡ true = ground (arith, eq-value j j) in
      find-assign c j j n ∙ rw same refl

  pub find_other :
      (c : List (Bid × N)) (j k : Bid) (n : N)
      → Bid.eq k j ≡ false
      → find (assign c j n) k ≡ find c k
  find_other c j k n g =
      let other : Bid.eq j k ≡ false = ground (arith, eq-value j k, eq-value k j, g) in
      find-assign c j k n ∙ rw other refl

  find_kept : (c : List (Bid × N)) (i k : Bid) → Bid.eq k i ≡ false → find (erase c i) k ≡ find c k
  find_kept c i k g =
      let other : Bid.eq i k ≡ false = ground (arith, eq-value i k, eq-value k i, g) in
      find-erase c i k ∙ rw other refl

  -- a node is taken out under its old key and put back under its new one
  pub moved-Agree :
      (c : List (Bid × N)) (i j : Bid) (n : N) → Agree (i ∷ j ∷ []) c (assign (erase c i) j n)
  moved-Agree c i j n k (f, (g, _)) = find_other (erase c i) j k n g ∙ find_kept c i k f

  -- the same, and one more is put in
  pub moved_two-Agree :
      (c : List (Bid × N)) (i j j2 : Bid) (n n2 : N)
      → Agree (i ∷ j ∷ j2 ∷ []) c (assign (assign (erase c i) j n) j2 n2)
  moved_two-Agree c i j j2 n n2 k (f, (g, (h, _))) =
      find_other (assign (erase c i) j n) j2 k n2 h ∙ moved-Agree c i j n k (f, (g, tt))

-- Below a child is a leaf of the cache that knows its key in the parent. An identifier whose
-- first four bytes are all zero stands for no node.
abbrev pub LeafCached : Tree LeafNode → KpPair → List KvPair → Type 0
LeafCached t c xs =
    (l : LeafNode) × (Bid.eq_int c.key (pos 0) ≡ false)
    × (find t.cache c.key ≡ some l)
    × IsLeaf l xs
    × (l.old_max ≡ c.key)

-- the same for a `midNode2` and the leaves below it
abbrev pub Mid2Cached : Tree MidNode2 → Tree LeafNode → KpPair → List KvPair → Type 0
Mid2Cached t2 t c xs =
    (m : MidNode2) × (cs : List KpPair) × (Bid.eq_int c.key (pos 0) ≡ false)
    × (find t2.cache c.key ≡ some m)
    × IsParent m cs
    × (0 < length cs)
    × (m.old_max ≡ c.key)
    × Forest (LeafCached t) cs xs

-- The client has the pairs `xs` under two levels of nodes, all in the caches, and the root has at most
-- `n` children.
pub record Cached (n : ℕ) (w : World) (s : Store) (xs : List KvPair) : Type 0 where
  pub children : List KpPair
  pub holds : Holds root_slots s.root.child_map s.root.p1 children
  pub largest : s.root.max_value ≡ last_key s.root.max_value children
  pub some_children : 0 < length children
  pub few_children : length children ≤ n
  pub below : Forest (Mid2Cached s.mid2 s.leaf) children xs
  pub sorted : IsSorted xs
  pub real : IsReal xs
  pub three_levels : w.levels ≡ 3
  pub no_mid1s : s.mid1 ≡ []

pub LeafCached-frame :
    (t t' : Tree LeafNode) (js : List Bid)
    → Agree js t.cache t'.cache
    → (c : KpPair) (ys : List KvPair) → AllAvoid js ys
    → 0 < length ys
    → c.key ≡ max_key c.key ys
    → LeafCached t c ys
    → LeafCached t' c ys
LeafCached-frame t t' js agree c ys a more key (l, real, cached, i, o) =
    (l, real, agree c.key (max_key-Apart js c.key ys more key a) ∙ cached, i, o)

-- pairs that avoid the keys of two lists
abbrev pub Clear : List Bid → List Bid → List KvPair → Type 0
Clear is js xs = AllAvoid is xs × AllAvoid js xs

pub Clear-append :
    (is js : List Bid) (xs ys : List KvPair)
    → Clear is js (xs ++ ys)
    → Clear is js xs × Clear is js ys
Clear-append is js xs ys (a, b) =
    let (a1, a2) = AllAvoid-append is xs ys a in
    let (b1, b2) = AllAvoid-append js xs ys b in ((a1, b1), (a2, b2))

pub Mid2Cached-frame :
    (t2 t2' : Tree MidNode2) (t t' : Tree LeafNode) (is js : List Bid)
    → Agree is t2.cache t2'.cache
    → Agree js t.cache t'.cache
    → (c : KpPair) (ys : List KvPair) → Clear is js ys
    → 0 < length ys
    → c.key ≡ max_key c.key ys
    → Mid2Cached t2 t c ys
    → Mid2Cached t2' t' c ys
Mid2Cached-frame t2 t2' t t' is js agree2 agree c ys (a, b) more key
      (m, cs, real, cached, parent, some_cs, old, f) =
    (
      m,
      cs,
      real,
      agree2 c.key (max_key-Apart is c.key ys more key a) ∙ cached,
      parent,
      some_cs,
      old,
      Forest-frame (LeafCached t) (LeafCached t') (AllAvoid js) (AllAvoid-append js)
          (LeafCached-frame t t' js agree) cs ys b f,
    )

module _ (n : ℕ) (w : World) (s : Store) where
  leaf_stored :
      (c : KpPair) (ys : List KvPair) → LeafCached s.leaf c ys → LeafStores w s.mid2 s.leaf c ys
  leaf_stored c ys (l, real, cached, i, o) = (l, (real, inl cached), i)

  mid2_stored :
      (c : KpPair) (ys : List KvPair)
      → Mid2Cached s.mid2 s.leaf c ys
      → Mid2Stores w s.mid2 s.leaf c ys
  mid2_stored c ys (m, cs, real, cached, i, some_cs, o, f) = (
    m,
    cs,
    (real, inl cached),
    i,
    some_cs,
    Forest-imp (LeafCached s.leaf) (LeafStores w s.mid2 s.leaf) leaf_stored cs ys f,
  )

  -- a cached client stores its pairs
  pub Cached-Stores : (xs : List KvPair) → Cached n w s xs → Stores w s xs
  Cached-Stores xs h = record {
    children = h.children;
    holds = h.holds;
    largest = h.largest;
    some_children = h.some_children;
    below =
        subst (λ ts. Forest (Mid1Stores w s.mid2 s.leaf 0 ts) h.children xs) (sym h.no_mid1s)
          (Forest-imp (Mid2Cached s.mid2 s.leaf) (Mid2Stores w s.mid2 s.leaf) mid2_stored h.children
            xs h.below);
    sorted = h.sorted;
    all_levels = omega (arith, h.three_levels, ap length h.no_mid1s);
  }
