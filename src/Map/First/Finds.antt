-- ===== src/Map/First/Finds.antt =====
-- What `client::search` of src/client.cpp finds after the first `client::insert`, with a root, one
-- level of `midNode2`s and the leaves.
use mathlib.Core.Path.{subst}
use bomap.Base.{
  ◌+◌, ◌-◌, ◌≡◌, refl, sym, ap, ◌∙◌, Bool, Bool-cases, inl, inr, true, false, [], ◌∷◌, length,
  replicate, ℤ, pos, arith, ◌==◌, if◌then◌else◌,
}
use bomap.Bid
use bomap.Bid.{Bid}
use bomap.Node.{KpPair, KvPair, no_value, no_child, leaf_slots, mid_slots, root_slots}
use bomap.Slots.Holds.{Holds, Yields}
use bomap.Leaf.{LeafNode, single_leaf}
use bomap.Leaf.Spec.{IsLeaf, pair, lookup}
use bomap.Leaf.Search.{found_or}
use bomap.Inner.Insert.{IsParent}
use bomap.Mid2.{MidNode2}
use bomap.Root.{empty_root}
use bomap.Map.{Store, World, ◌>>=◌}
use bomap.Map.Steps.{bind-some}
use bomap.Map.Insert.{insert_first, insert, insert_more}
use bomap.Map.Stored.{Stores, Mid1Stores}
use bomap.Map.Forest.{Forest}
use bomap.Map.Search.{search}
use bomap.Map.Lookup.{search-lookup}
use bomap.Map.First.{first_leaf, first_mid2, LeavesReply, Mid2sReply, First, insert_first-First}

pub first_leaf-IsLeaf :
    (key : Bid) (value p : ℤ)
    → IsLeaf (record (first_leaf key value p) { old_max = key }) (pair key value ∷ [])
unfolding single_leaf
first_leaf-IsLeaf key value p = record {
  holds = record {
    rest = replicate (leaf_slots - 1) no_value;
    layout = refl;
    count = refl;
    size = refl;
  };
  sorted = (tt, tt);
  largest = refl;
}

pub first_mid2-IsParent :
    (key : Bid) (p q : ℤ)
    → IsParent (record (first_mid2 key p q) { old_max = key }) (record { key = key; pos = p } ∷ [])
first_mid2-IsParent key p q = record {
  holds = record {
    rest = replicate (mid_slots - 1) no_child;
    layout = refl;
    count = refl;
    size = refl;
  };
  largest = refl;
}

module _ (w : World) where
  pub insert-empty :
      (key : Bid) (value : ℤ) (s : Store)
      → s.root ≡ empty_root
      → insert w key value s ≡ insert_first w key value s
  unfolding insert empty_root
  insert-empty key value s empty =
      if_true (s.root.p1 == 0) (insert_first w key value s) (insert_more w key value s)
        (ap (λ r. r.p1 == 0) empty)
    where
      if_true : {A : Type 0} (b : Bool) (x y : A) → b ≡ true → (if b then x else y) ≡ x
      if_true b x y e = rw e refl

  First-Stores :
      (key : Bid) (value : ℤ) (s s' : Store)
      → w.levels ≡ 3
      → s.mid1 ≡ []
      → Bid.eq_int key (pos 0) ≡ false
      → First w key value s s'
      → Stores w s' (pair key value ∷ [])
  First-Stores key value s s' three none_between real f =
      let c : KpPair = record { key = key; pos = f.mid2_pos } in
      let d : KpPair = record { key = key; pos = f.leaf_pos } in
      let l : LeafNode = record (first_leaf key value f.leaf_pos) { old_max = key } in
      let m : MidNode2 = record (first_mid2 key f.leaf_pos f.mid2_pos) { old_max = key } in
      let l-IsLeaf = first_leaf-IsLeaf key value f.leaf_pos in
      let m-IsParent = first_mid2-IsParent key f.leaf_pos f.mid2_pos in
      record {
        children = c ∷ [];
        holds =
            subst (λ r. Holds root_slots r.child_map r.p1 (c ∷ [])) (sym f.root)
              (record {
                rest = replicate (root_slots - 1) no_child;
                layout = refl;
                count = refl;
                size = refl;
              });
        largest = ap (λ r. r.max_value) f.root;
        some_children = omega arith;
        below =
            subst (λ ts. Forest (Mid1Stores w s'.mid2 s'.leaf 0 ts) (c ∷ []) (pair key value ∷ []))
              (sym (f.mid1 ∙ none_between))
              (
                pair key value ∷ [],
                [],
                (
                  m,
                  d ∷ [],
                  (real, inl f.mid2),
                  m-IsParent,
                  omega arith,
                  (
                    pair key value ∷ [],
                    [],
                    (l, (real, inl f.leaf), l-IsLeaf),
                    omega arith,
                    refl,
                    refl,
                    refl,
                  ),
                ),
                omega arith,
                refl,
                refl,
                refl,
              );
        sorted = (tt, tt);
        all_levels = three ∙ sym (ap (λ ts. length ts + 3) (f.mid1 ∙ none_between));
      }

  insert-First :
      (key : Bid) (value : ℤ) (s : Store)
      → w.levels ≡ 3
      → s.mid1 ≡ []
      → s.root ≡ empty_root
      → Bid.eq_int key (pos 0) ≡ false
      → LeavesReply w
      → Mid2sReply w
      → Yields (λ r. Stores w r.1 (pair key value ∷ [])) (insert w key value s)
  insert-First key value s three none_between empty real leaves mid2s =
      let between : (w.levels - 3 == 0) ≡ true = ground (arith, three) in
      let (r, e, f) = insert_first-First w key value s between empty real leaves mid2s in
      (
        r,
        insert-empty key value s empty ∙ e,
        First-Stores key value s r.1 three none_between real f,
      )

  -- With the root, one level of middle nodes and the leaves, and a service that answers each read with
  -- whole buckets or the text that the code looks for: an insertion into a new map of a key whose first
  -- four bytes are not all zero and a search after it, with no `part_init` and no `finish` between them,
  -- do not fault. The search leaves the value in the caller's pair if it is for the same key, and else the pair as it was.
  pub insert-search_first :
      (key k : Bid) (value : ℤ) (kv : KvPair) (s : Store)
      → w.levels ≡ 3
      → s.mid1 ≡ []
      → s.root ≡ empty_root
      → Bid.eq_int key (pos 0) ≡ false
      → LeavesReply w
      → Mid2sReply w
      → Yields
          (λ r. r.0 ≡ (if Bid.eq key k then pair k value else kv))
          ((insert w key value >>= λ _. search w kv k) s)
  unfolding lookup
  insert-search_first key k value kv s three none_between empty real leaves mid2s =
      let (r, e, stores) = insert-First key value s three none_between empty real leaves mid2s in
      let (found, e', same) = search-lookup w k r.1 (pair key value ∷ []) kv stores in
      (found, bind-some (insert w key value) (λ _. search w kv k) s r.1 r.0 e ∙ e', same ∙ one_pair)
    where
      one_pair :
          found_or kv k (lookup k (pair key value ∷ []))
          ≡ (if Bid.eq key k then pair k value else kv)
      one_pair = elim (Bool-cases (Bid.eq key k)) [ inl e ↦ rw e refl | inr e ↦ rw e refl ]
