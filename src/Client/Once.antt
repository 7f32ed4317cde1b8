-- ===== src/Client/Once.antt =====
-- Which buckets `finalize2...` of src/client.cpp writes.
use bomap.Base.{
  ℕ, zero, suc, ◌≡◌, refl, sym, ap, ◌∙◌, false, Bool-cases, inl, inr, List, [], ◌∷◌, ◌++◌, Option,
  none, some, ℤ,
}
use bomap.Slots.Zipper.{onto}
use bomap.TreePath.{depth_of}
use bomap.Client.{
  NodeClass, Tree, Outside, contains, node_of, write_path, write_level, write_levels, finalize2,
}

abbrev pub positions : List (ℤ × List ℕ) → List ℤ
positions [] = []
positions ((node, bucket) ∷ r) = node ∷ positions r

positions-onto :
    (q r : List (ℤ × List ℕ)) (v : List ℤ)
    → onto (positions (q ++ r)) v ≡ onto (positions r) (onto (positions q) v)
positions-onto [] r v = refl
positions-onto ((node, bucket) ∷ q) r v = positions-onto q r (node ∷ v)

-- no bucket stands twice
abbrev pub IsDistinct : List ℤ → Type 0
IsDistinct [] = Unit
IsDistinct (x ∷ v) = (contains v x ≡ false) × IsDistinct v

-- the buckets of a request, in turn, were put in front of those that were written before, and none
-- stands twice
abbrev pub Adds : List ℤ → List ℤ → List (ℤ × List ℕ) → Type 0
Adds before after request = (after ≡ onto (positions request) before) × IsDistinct after

module _ {N : Type 0} (cls : NodeClass N) (out : Outside N) where
  write_path-Adds :
      (t : Tree N) (leaf : ℤ) (d : ℕ)
      → IsDistinct t.write_view
      → let after = write_path cls out t leaf d in
        Adds t.write_view after.0.write_view
          (elim after.1 [ none ↦ [] | some s ↦ (node_of cls.max_size leaf d, s) ∷ [] ])
  unfolding write_path
  write_path-Adds t leaf d h =
      elim (Bool-cases (contains t.write_view (node_of cls.max_size leaf d))) [
        | inl old ↦ rw old (refl, h)
        | inr new ↦ rw new (refl, (new, h))
      ]

  both : (u v w : List ℤ) (q r : List (ℤ × List ℕ)) → Adds u v q → Adds v w r → Adds u w (q ++ r)
  both u v w q r a b = (b.0 ∙ ap (onto (positions r)) a.0 ∙ sym (positions-onto q r u), b.1)

  consed :
      (u w : List ℤ) (node : ℤ) (bucket : Option (List ℕ)) (rest : List (ℤ × List ℕ))
      → Adds u w ((elim bucket [ none ↦ [] | some s ↦ (node, s) ∷ [] ]) ++ rest)
      → Adds u w (elim bucket [ none ↦ rest | some s ↦ (node, s) ∷ rest ])
  consed u w node none rest a = a
  consed u w node (some s) rest a = a

  write_level-Adds :
      (t : Tree N) (d : ℕ) (leaves : List ℤ)
      → IsDistinct t.write_view
      → let after = write_level cls out t d leaves in Adds t.write_view after.0.write_view after.1
  unfolding write_level
  write_level-Adds t d [] h = (refl, h)
  write_level-Adds t d (leaf ∷ leaves) h =
      let written = write_path cls out t leaf d in
      let now = write_path-Adds t leaf d h in
      let rest = write_level cls out written.0 d leaves in
      let first : List (ℤ × List ℕ) = elim written.1 [
        | none ↦ []
        | some s ↦ (node_of cls.max_size leaf d, s) ∷ []
      ] in
      consed t.write_view rest.0.write_view (node_of cls.max_size leaf d) written.1 rest.1 (
        both t.write_view written.0.write_view rest.0.write_view first rest.1 now
          (write_level-Adds written.0 d leaves now.1))

  write_levels-Adds :
      (t : Tree N) (d : ℕ)
      → IsDistinct t.write_view
      → let after = write_levels cls out t d in Adds t.write_view after.0.write_view after.1
  unfolding write_levels
  write_levels-Adds t zero h = write_level-Adds t zero t.leaf_list h
  write_levels-Adds t (suc d) h =
      let below = write_level cls out t (suc d) t.leaf_list in
      let low = write_level-Adds t (suc d) t.leaf_list h in
      let above = write_levels cls out below.0 d in
      both t.write_view below.0.write_view above.0.write_view below.1 above.1 low
        (write_levels-Adds below.0 d low.1)

  -- If no bucket stands twice among those written before, none does after an eviction, and these are
  -- the former ones behind those of the request, the last first. So no bucket is sent twice, and
  -- none that was written before is sent again.
  pub finalize2-Adds :
      (t : Tree N)
      → IsDistinct t.write_view
      → let after = finalize2 cls out t in Adds t.write_view after.0.write_view after.1
  unfolding finalize2
  finalize2-Adds t h = write_levels-Adds t (depth_of cls.max_size) h
