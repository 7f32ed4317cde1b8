-- ===== src/Slots/Moves.antt =====
-- The moves between slots, on arrays that hold lists.
use mathlib.Core.List.{reverse, append_assoc}
use bomap.Base.{
  ℕ, suc, ◌+◌, ◌-◌, ◌<◌, ◌≡◌, refl, sym, ap, ◌∙◌, Bool, List, [], ◌∷◌, ◌++◌, some, get_elem?,
  length, arith, length-append,
}
use bomap.Slots.{write, read_last, find_first, shift_in, shift_out, insert_at, remove_at}
use bomap.Slots.Holds.{Holds, Yields}
use bomap.Slots.Zipper.{
  onto, onto-reverse, onto-onto, length-reverse, get-onto_head, write-onto, before, find_first-onto,
  shift_in-onto, shift_out-onto, last_or,
}

module _ {A : Type 0} where
  -- the zipper lemmas at an index that is the length of a list
  pub get_at : (xs q : List A) (x : A) (i : ℕ) → i ≡ length xs → get_elem? (xs ++ x ∷ q) i ≡ some x
  get_at xs q x i e =
      rw (e, ← onto-reverse xs (x ∷ q), ← length-reverse xs) (get-onto_head (reverse xs) q x)

  pub write_at :
      (xs q : List A) (x v : A) (i : ℕ)
      → i ≡ length xs
      → write (xs ++ x ∷ q) i v ≡ some (xs ++ v ∷ q)
  write_at xs q x v i e =
      rw (e, ← onto-reverse xs (x ∷ q), ← onto-reverse xs (v ∷ q), ← length-reverse xs)
        (write-onto (reverse xs) q x v)

  pub shift_in_at :
      (xs ys q : List A) (z v : A) (r c : ℕ)
      → r ≡ length ys
      → c ≡ length xs + length ys
      → shift_in r (xs ++ (ys ++ z ∷ q)) c v ≡ some (xs ++ v ∷ (ys ++ q))
  shift_in_at xs ys q z v r c er ec =
      rw (apart, rounds, top)
        (shift_in-onto m n q z v
          ∙ ap some (onto-reverse xs (v ∷ onto m q) ∙ ap (λ t. xs ++ v ∷ t) (onto-reverse ys q)))
    where
      m : List A
      m = reverse ys

      n : List A
      n = reverse xs

      apart : xs ++ (ys ++ z ∷ q) ≡ onto (m ++ n) (z ∷ q)
      apart = sym (
          onto-onto m n (z ∷ q)
          ∙ onto-reverse xs (onto m (z ∷ q))
          ∙ ap (λ t. xs ++ t) (onto-reverse ys (z ∷ q)))

      rounds : r ≡ length m
      rounds = omega (arith, length-reverse ys)

      top : c ≡ length (m ++ n)
      top = omega (arith, length-reverse ys, length-reverse xs, length-append m n)

  pub shift_out_at :
      (xs ys q : List A) (x : A) (r i : ℕ)
      → r ≡ length ys
      → i ≡ length xs
      → shift_out r (xs ++ x ∷ (ys ++ q)) i ≡ some (xs ++ (ys ++ last_or x ys ∷ q))
  shift_out_at xs ys q x r i er ei =
      rw
        (
          er,
          ei,
          ← onto-reverse xs (x ∷ (ys ++ q)),
          ← onto-reverse xs (ys ++ last_or x ys ∷ q),
          ← length-reverse xs,
        )
        (shift_out-onto (reverse xs) ys q x)

  pub find_first_at :
      (test : A → Bool) {cap : ℕ} {a : List A} {c : ℕ} {xs : List A}
      → Holds cap a c xs
      → find_first test c a 0 ≡ some (length (before test xs))
  find_first_at test {xs = xs} h =
      rw (h.layout, h.count) (find_first-onto test [] xs h.rest ∙ ap some (omega arith))

  pub uncons : (q : List A) → 0 < length q → (x : A) × (r : List A) × (q ≡ x ∷ r)
  uncons [] h = absurd (omega arith)
  uncons (x ∷ r) h = (x, r, refl)

  insert_at_lem :
      (xs ys q : List A) (z v : A) (c : ℕ)
      → c ≡ length xs + length ys
      → insert_at (xs ++ (ys ++ z ∷ q)) c (length xs) v ≡ some (xs ++ v ∷ (ys ++ q))
  unfolding insert_at
  insert_at_lem xs [] q z v c e = ground (arith, write_at xs q z v (length xs) refl)
  insert_at_lem xs (y ∷ ys) q z v c e =
      ground (arith, shift_in_at xs (y ∷ ys) q z v (c - length xs) c)

  -- If an array with a free slot holds a list, the insertion at an index of the list, or behind it,
  -- stays inside the array, which then holds the list with the value put in there.
  pub insert_at-Holds :
      {cap : ℕ} {a : List A} {c : ℕ} (xs ys : List A) (v : A)
      → Holds cap a c (xs ++ ys)
      → length xs + length ys < cap
      → Yields (λ b. Holds cap b (suc c) (xs ++ v ∷ ys)) (insert_at a c (length xs) v)
  insert_at-Holds {c = c} xs ys v h room =
      let count : c ≡ length xs + length ys = omega (arith, length-append xs ys, h.count) in
      let free : 0 < length h.rest = omega (arith, length-append xs ys, h.size) in
      let (z, q, e) = uncons h.rest free in
      (
        xs ++ v ∷ (ys ++ q),
        rw (h.layout, e, append_assoc xs ys (z ∷ q)) (insert_at_lem xs ys q z v c count),
        record {
          rest = q;
          layout = sym (append_assoc xs (v ∷ ys) q);
          count = omega (arith, length-append xs (v ∷ ys));
          size = omega (arith, length-append xs (v ∷ ys), length-append xs ys, h.size, ap length e);
        },
      )

  remove_at_lem :
      (empty x : A) (xs ys q : List A) (c : ℕ)
      → c ≡ length xs + suc (length ys)
      → remove_at empty (xs ++ x ∷ (ys ++ q)) c (length xs) ≡ some (xs ++ (ys ++ empty ∷ q))
  unfolding remove_at
  remove_at_lem empty x xs [] q c e = ground (arith, write_at xs q x empty (length xs) refl)
  remove_at_lem empty x xs (y ∷ ys) q c e = ground (
    arith,
    shift_out_at xs (y ∷ ys) q x (c - 1 - length xs) (length xs),
    write_at (xs ++ y ∷ ys) q (last_or x (y ∷ ys)) empty (c - 1),
    length-append xs (y ∷ ys),
    append_assoc xs (y ∷ ys) (last_or x (y ∷ ys) ∷ q),
    append_assoc xs (y ∷ ys) (empty ∷ q),
  )

  -- If an array holds a list, the removal at an index of the list stays inside the array, which then
  -- holds the list without the value there.
  pub remove_at-Holds :
      {cap : ℕ} {a : List A} {c : ℕ} (empty x : A) (xs ys : List A)
      → Holds cap a c (xs ++ x ∷ ys)
      → Yields (λ b. Holds cap b (c - 1) (xs ++ ys)) (remove_at empty a c (length xs))
  remove_at-Holds {c = c} empty x xs ys h =
      let count : c ≡ length xs + suc (length ys) =
        omega (arith, length-append xs (x ∷ ys), h.count) in
      (
        xs ++ (ys ++ empty ∷ h.rest),
        rw (h.layout, append_assoc xs (x ∷ ys) h.rest) (remove_at_lem empty x xs ys h.rest c count),
        record {
          rest = empty ∷ h.rest;
          layout = sym (append_assoc xs ys (empty ∷ h.rest));
          count = omega (arith, length-append xs ys);
          size = omega (arith, length-append xs (x ∷ ys), length-append xs ys, h.size);
        },
      )

  pub read_last-Holds :
      {cap : ℕ} {a : List A} {c : ℕ} (xs : List A) (x : A)
      → Holds cap a c (xs ++ x ∷ [])
      → read_last a c ≡ some x
  read_last-Holds {a = a} {c = c} xs x h =
      let count : c ≡ suc (length xs) = omega (arith, length-append xs (x ∷ []), h.count) in
      rw (count, h.layout, append_assoc xs (x ∷ []) h.rest) (get_at xs h.rest x (length xs) refl)
