-- ===== src/Map/First/Runs.antt =====
-- Runs of `client::insert` and `client::search` of src/client.cpp from an empty map on, with a root, one
-- level of `midNode2`s and the leaves.
use mathlib.Core.Path.{subst}
use bomap.Base.{
  ◌-◌, ◌≤◌, ◌≡◌, refl, sym, ap, ◌∙◌, true, false, List, [], ◌∷◌, none, replicate, ℤ, pos, arith,
  ◌==◌,
}
use bomap.Bid
use bomap.Bid.{Bid}
use bomap.Node.{KpPair, no_child, root_slots}
use bomap.Slots.Holds.{Holds, Yields}
use bomap.Leaf.Spec.{pair, lookup}
use bomap.Root.{empty_root}
use bomap.Map.{Store, World}
use bomap.Map.Steps.{bind-some}
use bomap.Map.Insert.{insert}
use bomap.Map.First.{first_leaf, first_mid2, First, insert_first-First}
use bomap.Map.First.Finds.{insert-empty, first_leaf-IsLeaf, first_mid2-IsParent}
use bomap.Map.Cached.{Cached}
use bomap.Map.Upsert.{NothingStored}
use bomap.Map.Replay.{Call, put, run, answers, puts, AllReal, run-answers}

module _ (w : World) where
  First-Cached :
      (key : Bid) (value : ℤ) (s s' : Store)
      → w.levels ≡ 3
      → s.mid1 ≡ []
      → Bid.eq_int key (pos 0) ≡ false
      → First w key value s s'
      → Cached 1 w s' (pair key value ∷ [])
  First-Cached key value s s' three none_between real f =
      let c : KpPair = record { key = key; pos = f.mid2_pos } in
      let d : KpPair = record { key = key; pos = f.leaf_pos } in
      record {
        children = c ∷ [];
        holds =
            subst (λ r. Holds root_slots r.child_map r.p1 (c ∷ [])) (sym f.root)
              (record {
                rest = replicate (root_slots - 1) no_child;
                layout = refl;
                count = refl;
                size = refl;
              });
        largest = ap (λ r. r.max_value) f.root;
        some_children = omega arith;
        few_children = omega arith;
        below = (
          pair key value ∷ [],
          [],
          (
            record (first_mid2 key f.leaf_pos f.mid2_pos) { old_max = key },
            d ∷ [],
            real,
            f.mid2,
            first_mid2-IsParent key f.leaf_pos f.mid2_pos,
            omega arith,
            refl,
            (
              pair key value ∷ [],
              [],
              (
                record (first_leaf key value f.leaf_pos) { old_max = key },
                real,
                f.leaf,
                first_leaf-IsLeaf key value f.leaf_pos,
                refl,
              ),
              omega arith,
              refl,
              refl,
              refl,
            ),
          ),
          omega arith,
          refl,
          refl,
          refl,
        );
        sorted = (tt, tt);
        real = (real, tt);
        three_levels = three;
        no_mid1s = f.mid1 ∙ none_between;
      }

  -- A new client with three levels, and a service whose replies for leaves and middle nodes are whole
  -- buckets that open to dummies, or the text that the fetch looks for. A run of the calls of `insert`
  -- and `search`, with no `part_init` and no `finish` between them, that begins with an insertion,
  -- inserts no key whose first four bytes are all zero and has at most as many insertions as the root
  -- has slots does not fault. Every search finds the value that was last put under its key, or nothing
  -- if none was.
  pub run-new_answers :
      (key : Bid) (value : ℤ) (calls : List Call) (s : Store)
      → w.levels ≡ 3
      → s.mid1 ≡ []
      → s.root ≡ empty_root
      → NothingStored w
      → AllReal (put key value ∷ calls)
      → puts (put key value ∷ calls) ≤ root_slots
      → Yields
          (λ r. r.0 ≡ answers (put key value ∷ calls) (λ _. none))
          (run w (put key value ∷ calls) s)
  unfolding run lookup
  run-new_answers key value calls s three none_between empty nothing real room =
      let between : (w.levels - 3 == 0) ≡ true = ground (arith, three) in
      let ((_, s'), done, first) =
        insert_first-First w key value s between empty real.0 nothing.0.0 nothing.1.0 in
      let (r, rest, same) =
        run-answers calls 1 w s' (pair key value ∷ [])
          (First-Cached key value s s' three none_between real.0 first) nothing (omega arith)
          real.1 in
      (
        r,
        bind-some (insert w key value) (λ _. run w calls) s s' tt
              (insert-empty w key value s empty ∙ done)
            ∙ rest,
        same,
      )
