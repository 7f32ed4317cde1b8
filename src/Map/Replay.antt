-- ===== src/Map/Replay.antt =====
-- Runs of `client::insert` and `client::search` of src/client.cpp, against a map from keys to values.
use mathlib.Core.Path.{subst}
use bomap.Base.{
  ℕ, suc, ◌+◌, ◌≤◌, ◌≡◌, refl, sym, ap, ◌∙◌, List, [], ◌∷◌, Option, some, ℤ, false, arith, pos,
  if◌then◌else◌,
}
use bomap.Bid
use bomap.Bid.{Bid}
use bomap.Node.{KpPair, KvPair, no_value, root_slots}
use bomap.Slots.Holds.{Yields}
use bomap.Leaf
use bomap.Leaf.{LeafNode, empty_leaf}
use bomap.Leaf.Spec.{upsert, lookup, lookup-upsert}
use bomap.Leaf.Search.{found_or, search_correct}
use bomap.Mid2
use bomap.Mid2.{MidNode2, empty_mid2}
use bomap.Root
use bomap.Client.{find, mark}
use bomap.Client.Trees.{read_leaf_node, read_mid2_node}
use bomap.Client.{read_node}
use bomap.Map.{Store, World, Action, ◌>>=◌, pure, at_mid2, at_leaf}
use bomap.Map.Search.{search, find_mid2}
use bomap.Map.Insert.{insert}
use bomap.Map.Insert.Path.{shallow}
use bomap.Map.Cached.{Cached, LeafCached, Mid2Cached}
use bomap.Map.Forest.{search_slots-Decides}
use bomap.Map.Steps.{bind-some}
use bomap.Map.Descend.{keeps_IsLeaf}
use bomap.Map.Upsert.{insert-Cached, NothingStored}

-- the state after a search: two nodes are marked
abbrev pub marked : Store → Bid → Bid → Store
marked s i j = record s {
  mid2 = record s.mid2 { modified = mark s.mid2.modified i };
  leaf = record s.leaf { modified = mark s.leaf.modified j };
}

search-marked :
    (w : World) (s : Store) (k : Bid) (kv kv' : KvPair) (c2 c : KpPair) (m : MidNode2)
    (l : LeafNode)
    → Root.search s.root k ≡ some c2
    → Bid.eq_int c2.key (pos 0) ≡ false
    → find s.mid2.cache c2.key ≡ some m
    → Mid2.search (record m { pos = c2.pos }) k ≡ some c
    → Bid.eq_int c.key (pos 0) ≡ false
    → find s.leaf.cache c.key ≡ some l
    → Leaf.search (record l { pos = c.pos }) k kv ≡ some kv'
    → search (shallow w) kv k s ≡ some (kv', marked s c2.key c.key)
unfolding search find_mid2 read_mid2_node read_leaf_node read_node
search-marked w s k kv kv' c2 c m l found2 real2 cached2 found real cached got =
    rw (◌>>=◌, found2, at_mid2, real2, cached2, found, at_leaf, real, cached, got) refl

marked-Cached :
    (n : ℕ) (w : World) (s : Store) (xs : List KvPair) (i j : Bid)
    → Cached n w s xs
    → Cached n w (marked s i j) xs
marked-Cached n w s xs i j h = record {
  children = h.children;
  holds = h.holds;
  largest = h.largest;
  some_children = h.some_children;
  few_children = h.few_children;
  below = h.below;
  sorted = h.sorted;
  real = h.real;
  three_levels = h.three_levels;
  no_mid1s = h.no_mid1s;
}

-- a search leaves the client as it is, and finds what the pairs have
search-shallow :
    (n : ℕ) (w : World) (s : Store) (xs : List KvPair) (k : Bid) (kv : KvPair)
    → Cached n (shallow w) s xs
    → Yields
        (λ r. (r.0 ≡ found_or kv k (lookup k xs)) × Cached n (shallow w) r.1 xs)
        (search (shallow w) kv k s)
unfolding Root.search Mid2.search
search-shallow n w s xs k kv h =
    let (c2, found2, d2) =
      search_slots-Decides (Mid2Cached s.mid2 s.leaf) k s.root.max_value h.children xs h.holds
        h.largest h.below h.sorted h.some_children in
    let (m, cs, real2, cached2, parent, some_cs, _, f) = d2.below in
    let (c, found, d) =
      search_slots-Decides (LeafCached s.leaf) k m.max_value cs d2.pairs parent.holds parent.largest
        f d2.sorted some_cs in
    let (l, real, cached, leaf, _) = d.below in
    let got =
      search_correct (record l { pos = c.pos }) d.pairs k kv (keeps_IsLeaf d.pairs c.pos l leaf) in
    (
      (found_or kv k (lookup k d.pairs), marked s c2.key c.key),
      search-marked w s k kv (found_or kv k (lookup k d.pairs)) c2 c m l found2 real2 cached2 found
          real cached got,
      (
        ap (found_or kv k) (sym (d2.same ∙ d.same)),
        marked-Cached n (shallow w) s xs c2.key c.key h,
      ),
    )

search-Cached :
    (n : ℕ) (w : World) (s : Store) (xs : List KvPair) (k : Bid) (kv : KvPair)
    → Cached n w s xs
    → Yields (λ r. (r.0 ≡ found_or kv k (lookup k xs)) × Cached n w r.1 xs) (search w kv k s)
search-Cached n w s xs k kv h =
    let same : shallow w ≡ w = ap (λ l. record w { levels = l }) (sym h.three_levels) in
    subst
      (λ u. Yields (λ r. (r.0 ≡ found_or kv k (lookup k xs)) × Cached n u r.1 xs) (search u kv k s))
      same (search-shallow n w s xs k kv (subst (λ u. Cached n u s xs) (sym same) h))

pub data Call : Type 0 where
  put : Bid → ℤ → Call
  get : Bid → Call

module _ (w : World) where
  -- the calls in order, with what the searches leave in an empty pair
  unfoldable pub run : List Call → Action (List KvPair)
  unfolding insert search
  run [] = pure []
  run (put k v ∷ calls) = do _ ← insert w k v; run calls
  run (get k ∷ calls) = do kv ← search w no_value k; rest ← run calls; pure (kv ∷ rest)

-- the same calls on a map
abbrev pub answers : List Call → (Bid → Option ℤ) → List KvPair
answers [] f = []
answers (put k v ∷ calls) f = answers calls (λ j. if Bid.eq k j then some v else f j)
answers (get k ∷ calls) f = found_or no_value k (f k) ∷ answers calls f

abbrev pub puts : List Call → ℕ
puts [] = 0
puts (put k v ∷ calls) = suc (puts calls)
puts (get k ∷ calls) = puts calls

-- no pair is put under a key that `operator==(int)` takes for 0, one whose first four bytes are zero
abbrev pub AllReal : List Call → Type 0
AllReal [] = Unit
AllReal (put k v ∷ calls) = (Bid.eq_int k (pos 0) ≡ false) × AllReal calls
AllReal (get k ∷ calls) = AllReal calls

-- A client with three levels whose caches hold the whole tree, and a service whose replies for leaves
-- and middle nodes are whole buckets that open to dummies, or the text that the fetch looks for. A run
-- of the calls of `insert` and `search`, with no `part_init` and no `finish` between them, that inserts
-- no key whose first four bytes are all zero and has no more insertions than the root has free slots
-- does not fault.
-- Every search finds what the map of the pairs has for its key after the insertions before it.
pub run-answers :
    (calls : List Call) (n : ℕ) (w : World) (s : Store) (xs : List KvPair)
    → Cached n w s xs
    → NothingStored w
    → n + puts calls ≤ root_slots
    → AllReal calls
    → Yields (λ r. r.0 ≡ answers calls (λ j. lookup j xs)) (run w calls s)
unfolding run
run-answers [] n w s xs h quiet room real = (([], s), refl, refl)
run-answers (put k v ∷ calls) n w s xs h quiet room real =
    let ((_, s'), done, h') = insert-Cached n w s xs k v h quiet (omega arith) real.0 in
    let (r, rest, same) =
      run-answers calls (suc n) w s' (upsert k v xs) h' quiet (omega arith) real.1 in
    (
      r,
      bind-some (insert w k v) (λ _. run w calls) s s' tt done ∙ rest,
      same ∙ ap (answers calls) (λ i j. lookup-upsert j k v xs i),
    )
run-answers (get k ∷ calls) n w s xs h quiet room real =
    let ((kv, s'), done, (found, h')) = search-Cached n w s xs k no_value h in
    let ((kvs, s''), rest, same) = run-answers calls n w s' xs h' quiet room real in
    (
      (kv ∷ kvs, s''),
      bind-some (search w no_value k) (λ x. run w calls >>= λ ys. pure (x ∷ ys)) s s' kv done
          ∙ bind-some (run w calls) (λ ys. pure (kv ∷ ys)) s' s'' kvs rest,
      rw (found, same) refl,
    )
