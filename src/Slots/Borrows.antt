-- ===== src/Slots/Borrows.antt =====
-- How a node of src/node.cpp that has become small takes a slot from its neighbour.
use mathlib.Core.Path.{ap₂}
use mathlib.Core.List.{append_assoc}
use bomap.Base.{
  ℕ, suc, ◌-◌, ◌<◌, ◌≡◌, refl, sym, ap, ◌∙◌, List, [], ◌∷◌, ◌++◌, some, length, arith,
  length-append,
}
use bomap.Slots.{read_last, borrow_left, borrow_right}
use bomap.Slots.Holds.{Holds, Yields}
use bomap.Slots.Zipper.{last_or}
use bomap.Slots.Moves.{get_at, write_at, shift_in_at, shift_out_at, uncons}

module _ {A : Type 0} where
  borrow_left_lem :
      (empty x y z : A) (xs r ns q : List A) (c n : ℕ)
      → c ≡ suc (length xs)
      → n ≡ suc (length ns)
      → borrow_left empty c (xs ++ y ∷ z ∷ r) n (ns ++ x ∷ q)
        ≡ some (x ∷ (xs ++ y ∷ r), ns ++ empty ∷ q)
  unfolding borrow_left
  borrow_left_lem empty x y z xs r ns q c n ec en =
      let last : read_last (ns ++ x ∷ q) n ≡ some x = rw en (get_at ns q x (length ns) refl) in
      let shape : xs ++ y ∷ z ∷ r ≡ (xs ++ y ∷ []) ++ z ∷ r =
        sym (append_assoc xs (y ∷ []) (z ∷ r)) in
      let same = append_assoc xs (y ∷ []) r in
      let size : length (xs ++ y ∷ []) ≡ c = omega (arith, length-append xs (y ∷ [])) in
      rw
        (
          last,
          write_at ns q x empty (n - 1) (omega arith),
          shape,
          shift_in_at [] (xs ++ y ∷ []) r z x c c (sym size) (omega arith),
        )
        (ap (λ u. some (x ∷ u, ns ++ empty ∷ q)) same)

  borrow_right_lem :
      (empty x y : A) (xs r ns q : List A) (c n : ℕ)
      → c ≡ suc (length xs)
      → n ≡ suc (length ns)
      → borrow_right empty c (xs ++ y ∷ r) n (x ∷ (ns ++ q)) ≡ some (xs ++ x ∷ r, ns ++ empty ∷ q)
  unfolding borrow_right
  borrow_right_lem empty x y xs r ns q c n ec en = rw (
    shift_out_at [] ns q x (n - 1) 0 (omega arith) refl,
    write_at ns q (last_or x ns) empty (n - 1) (omega arith),
    write_at xs r y x (c - 1) (omega arith),
  )

  -- For a count `c` that is positive and below the capacity, the last slot of the left neighbour
  -- moves to the front of the node's `c - 1` slots, inside both arrays, which hold the result.
  pub borrow_left-Holds :
      {cap : ℕ} {a b : List A} {n : ℕ} (c : ℕ) (empty x : A) {xs ns : List A}
      → Holds cap a (c - 1) xs
      → Holds cap b n (ns ++ x ∷ [])
      → 0 < c
      → c < cap
      → Yields
          (λ r. Holds cap r.0 c (x ∷ xs) × Holds cap r.1 (n - 1) ns)
          (borrow_left empty c a n b)
  borrow_left-Holds {a = a} {b = b} {n = n} c empty x {xs} {ns} h g some_left room =
      let count : n ≡ suc (length ns) = omega (arith, length-append ns (x ∷ []), g.count) in
      let (y, q, e) = uncons h.rest (omega (arith, h.size, h.count)) in
      let (z, r, f) = uncons q (omega (arith, h.size, h.count, ap length e)) in
      let at_a : a ≡ xs ++ y ∷ z ∷ r = h.layout ∙ ap (λ u. xs ++ u) (e ∙ ap (◌∷◌ y) f) in
      let at_b : b ≡ ns ++ x ∷ g.rest = g.layout ∙ append_assoc ns (x ∷ []) g.rest in
      (
        (x ∷ (xs ++ y ∷ r), ns ++ empty ∷ g.rest),
        ap₂ (λ u w. borrow_left empty c u n w) at_a at_b
            ∙ borrow_left_lem empty x y z xs r ns g.rest c n (omega (arith, h.count)) count,
        (
          record {
            rest = y ∷ r;
            layout = refl;
            count = omega (arith, h.count);
            size = omega (arith, h.size, ap length e, ap length f);
          },
          record {
            rest = empty ∷ g.rest;
            layout = refl;
            count = omega arith;
            size = omega (arith, g.size, length-append ns (x ∷ []));
          },
        ),
      )

  -- For a count `c` that is positive and below the capacity, the first slot of the right neighbour
  -- moves to the end of the node's `c - 1` slots, inside both arrays, which hold the result.
  pub borrow_right-Holds :
      {cap : ℕ} {a b : List A} {n : ℕ} (c : ℕ) (empty x : A) {xs ns : List A}
      → Holds cap a (c - 1) xs
      → Holds cap b n (x ∷ ns)
      → 0 < c
      → c < cap
      → Yields
          (λ r. Holds cap r.0 c (xs ++ x ∷ []) × Holds cap r.1 (n - 1) ns)
          (borrow_right empty c a n b)
  borrow_right-Holds {a = a} {b = b} {n = n} c empty x {xs} {ns} h g some_left room =
      let (y, q, e) = uncons h.rest (omega (arith, h.size, h.count)) in
      let at_a : a ≡ xs ++ y ∷ q = h.layout ∙ ap (λ u. xs ++ u) e in
      (
        (xs ++ x ∷ q, ns ++ empty ∷ g.rest),
        ap₂ (λ u w. borrow_right empty c u n w) at_a g.layout
            ∙ borrow_right_lem empty x y xs q ns g.rest c n (omega (arith, h.count)) g.count,
        (
          record {
            rest = q;
            layout = sym (append_assoc xs (x ∷ []) q);
            count = omega (arith, h.count, length-append xs (x ∷ []));
            size = omega (arith, h.size, ap length e, length-append xs (x ∷ []));
          },
          record {
            rest = empty ∷ g.rest;
            layout = refl;
            count = omega (arith, g.count);
            size = omega (arith, g.size);
          },
        ),
      )
