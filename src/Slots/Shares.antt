-- ===== src/Slots/Shares.antt =====
-- How a node of src/node.cpp that has become small gives its slots to its neighbour.
use mathlib.Core.List.{reverse, append_assoc}
use bomap.Base.{
  ℕ, suc, ◌+◌, ◌-◌, ◌≤◌, ◌≡◌, refl, sym, ap, ◌∙◌, List, [], ◌∷◌, ◌++◌, some, length, take, drop,
  arith, length-append, length-take, take-append-drop,
}
use bomap.Slots.{write, copy_to, copy_down, shift_by, merge_left, merge_right}
use bomap.Slots.Holds.{Holds, Yields}
use bomap.Slots.Zipper.{
  onto, onto-append, onto-reverse, length-reverse, get-onto_head, write-onto, last_or,
}
use bomap.Slots.Moves.{write_at}

module _ {A : Type 0} where
  -- `xs` goes over the slots `ws`
  copy_to-onto :
      (m xs q n ws r : List A)
      → length ws ≡ length xs
      → copy_to (length xs) (onto m (xs ++ q)) (length m) (onto n (ws ++ r)) (length n)
        ≡ some (onto n (xs ++ r))
  unfolding copy_to
  copy_to-onto m [] q n [] r e = refl
  copy_to-onto m [] q n (w ∷ ws) r e = absurd (omega arith)
  copy_to-onto m (x ∷ xs) q n [] r e = absurd (omega arith)
  copy_to-onto m (x ∷ xs) q n (w ∷ ws) r e =
      rw (get-onto_head m (xs ++ q) x, write-onto n (ws ++ r) w x)
        (copy_to-onto (x ∷ m) xs q (x ∷ n) ws r (omega arith))

  copy_down-onto :
      (m q n r : List A)
      → length n ≡ length m
      → copy_down (length m) (onto m q) (onto n r) ≡ some (onto m r)
  unfolding copy_down
  copy_down-onto [] q [] r e = refl
  copy_down-onto [] q (w ∷ n) r e = absurd (omega arith)
  copy_down-onto (x ∷ m) q [] r e = absurd (omega arith)
  copy_down-onto (x ∷ m) q (w ∷ n) r e =
      let len : length m ≡ length n = omega arith in
      rw (get-onto_head m q x, len, write-onto n r w x, ← len)
        (copy_down-onto m (x ∷ q) n (x ∷ r) (omega arith))

  -- all but the last of `y ∷ t`
  init : A → List A → List A
  init y [] = []
  init y (z ∷ t) = y ∷ init z t

  init-last : (y : A) (t : List A) → init y t ++ last_or y t ∷ [] ≡ y ∷ t
  unfolding init
  init-last y [] = refl
  init-last y (z ∷ t) = ap (◌∷◌ y) (init-last z t)

  length-init : (y : A) (t : List A) → length (init y t) ≡ length t
  unfolding init
  length-init y [] = refl
  length-init y (z ∷ t) = ap suc (length-init z t)

  -- what the shift leaves below the moved slots
  below : List A → List A → List A
  below [] t = t
  below (y ∷ m) t = below m (init y t)

  length-below : (m t : List A) → length (below m t) ≡ length t
  unfolding below
  length-below [] t = refl
  length-below (y ∷ m) t = length-below m (init y t) ∙ length-init y t

  write_over :
      (m t d : List A) (y : A) (i : ℕ)
      → i ≡ length m + length t
      → write (onto m (y ∷ (t ++ d))) i y ≡ some (onto m (init y t ++ y ∷ d))
  write_over m t d y i e =
      rw
        (
          onto-append m (y ∷ (t ++ d)),
          onto-append m (init y t ++ y ∷ d),
          ← append_assoc (reverse m) (init y t) (y ∷ d),
          shape,
        )
        (write_at (reverse m ++ init y t) d (last_or y t) y i
          (omega (arith, length-append (reverse m) (init y t), length-init y t, length-reverse m)))
    where
      shape : reverse m ++ y ∷ (t ++ d) ≡ (reverse m ++ init y t) ++ last_or y t ∷ d
      shape = sym (
          append_assoc (reverse m) (init y t) (last_or y t ∷ d)
          ∙ ap (λ u. reverse m ++ u)
              (sym (append_assoc (init y t) (last_or y t ∷ []) d)
                ∙ ap (λ u. u ++ d) (init-last y t)))

  shift_by-onto :
      (k : ℕ) (m t d : List A)
      → k ≡ length t
      → shift_by k (length m) (onto m (t ++ d)) ≡ some (below m t ++ onto m d)
  unfolding shift_by below
  shift_by-onto k [] t d e = refl
  shift_by-onto k (y ∷ m) t d e =
      rw (get-onto_head m (t ++ d) y, write_over m t d y (length m + k) (omega arith))
        (shift_by-onto k m (init y t) (y ∷ d) (omega (arith, length-init y t)))

  copy_to_at :
      (xs q ns ws r : List A) (k n : ℕ)
      → k ≡ length xs
      → n ≡ length ns
      → length ws ≡ length xs
      → copy_to k (xs ++ q) 0 (ns ++ (ws ++ r)) n ≡ some (ns ++ (xs ++ r))
  copy_to_at xs q ns ws r k n ek en e =
      rw (ek, en, ← onto-reverse ns (ws ++ r), ← onto-reverse ns (xs ++ r), ← length-reverse ns)
        (copy_to-onto [] xs q (reverse ns) ws r e)

  copy_down_at :
      (xs q ws r : List A) (k : ℕ)
      → k ≡ length xs
      → length ws ≡ length xs
      → copy_down k (xs ++ q) (ws ++ r) ≡ some (xs ++ r)
  copy_down_at xs q ws r k ek e =
      rw (ek, ← onto-reverse xs q, ← onto-reverse xs r, ← onto-reverse ws r, ← length-reverse xs)
        (copy_down-onto (reverse xs) q (reverse ws) r
          (omega (arith, length-reverse xs, length-reverse ws)))

  -- `ns` moves up by as many slots as `t ++ d` grows before it
  shift_by_at :
      (ns t d : List A) (k n : ℕ)
      → k ≡ length t
      → n ≡ length ns
      → shift_by k n (ns ++ (t ++ d)) ≡ some (below (reverse ns) t ++ (ns ++ d))
  shift_by_at ns t d k n ek en =
      rw (en, ← onto-reverse ns (t ++ d), ← onto-reverse ns d, ← length-reverse ns)
        (shift_by-onto k (reverse ns) t d ek)

  cut :
      (k : ℕ) (q : List A)
      → k ≤ length q
      → (t : List A) × (d : List A) × (q ≡ t ++ d) × (length t ≡ k)
  cut k q h = (take k q, drop k q, sym (take-append-drop k q), length-take k q h)

  -- If the `c - 1` slots `xs` of a node and the slots `ns` of its left neighbour fit into one array,
  -- the merge stays inside it, and the neighbour's array then holds `ns` and behind it `xs`.
  pub merge_left-Holds :
      {cap : ℕ} {a b : List A} {n : ℕ} (c : ℕ) {xs ns : List A}
      → Holds cap a (c - 1) xs
      → Holds cap b n ns
      → length ns + length xs ≤ cap
      → Yields (λ r. Holds cap r.1 (n + (c - 1)) (ns ++ xs)) (merge_left c a n b)
  unfolding merge_left
  merge_left-Holds {a = a} {n = n} c {xs} {ns} h g room =
      let (t, d, e, len) = cut (length xs) g.rest (omega (arith, g.size)) in
      (
        (a, ns ++ (xs ++ d)),
        rw (h.layout, g.layout, e, copy_to_at xs h.rest ns t d (c - 1) n h.count g.count len),
        record {
          rest = d;
          layout = sym (append_assoc ns xs d);
          count = omega (arith, length-append ns xs, h.count, g.count);
          size = omega (arith, length-append ns xs, length-append t d, ap length e, g.size);
        },
      )

  -- If the `c - 1` slots `xs` of a node and the slots `ns` of its right neighbour fit into one array,
  -- the merge stays inside it, and the neighbour's array then holds `xs` and behind it `ns`.
  pub merge_right-Holds :
      {cap : ℕ} {a b : List A} {n : ℕ} (c : ℕ) {xs ns : List A}
      → Holds cap a (c - 1) xs
      → Holds cap b n ns
      → length ns + length xs ≤ cap
      → Yields (λ r. Holds cap r.1 (n + (c - 1)) (xs ++ ns)) (merge_right c a n b)
  unfolding merge_right
  merge_right-Holds {a = a} {n = n} c {xs} {ns} h g room =
      let (t, d, e, len) = cut (length xs) g.rest (omega (arith, g.size)) in
      let moved = shift_by_at ns t d (c - 1) n (omega (arith, h.count)) g.count in
      let same : length (below (reverse ns) t) ≡ length xs = length-below (reverse ns) t ∙ len in
      let copied = copy_down_at xs h.rest (below (reverse ns) t) (ns ++ d) (c - 1) h.count same in
      (
        (a, xs ++ (ns ++ d)),
        rw (h.layout, g.layout, e, moved, copied),
        record {
          rest = d;
          layout = sym (append_assoc xs ns d);
          count = omega (arith, length-append xs ns, h.count, g.count);
          size = omega (arith, length-append xs ns, length-append t d, ap length e, g.size);
        },
      )
