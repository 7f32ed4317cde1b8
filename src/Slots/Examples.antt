-- ===== src/Slots/Examples.antt =====
-- Arrays of four slots whose loops are those of src/node.cpp.
use bomap.Base.{ℕ, List, [], ◌∷◌, refl, arith}
use bomap.Slots.{borrow_left, borrow_right}
use bomap.Slots.Holds.{Holds, Yields}
use bomap.Slots.Borrows.{borrow_left-Holds, borrow_right-Holds}

abbrev few : List ℕ
few = 4 ∷ 5 ∷ 0 ∷ 0 ∷ []

abbrev more : List ℕ
more = 1 ∷ 2 ∷ 3 ∷ 0 ∷ []

few-Holds : Holds 4 few 2 (4 ∷ 5 ∷ [])
few-Holds = record { rest = 0 ∷ 0 ∷ []; layout = refl; count = refl; size = refl }

one-Holds : Holds 4 few 1 (4 ∷ [])
one-Holds = record { rest = 5 ∷ 0 ∷ 0 ∷ []; layout = refl; count = refl; size = refl }

more-Holds : Holds 4 more 3 (1 ∷ 2 ∷ 3 ∷ [])
more-Holds = record { rest = 0 ∷ []; layout = refl; count = refl; size = refl }

borrow_left-Holds_example :
    Yields
      (λ r. Holds 4 r.0 2 (3 ∷ 4 ∷ []) × Holds 4 r.1 2 (1 ∷ 2 ∷ []))
      (borrow_left 0 2 few 3 more)
borrow_left-Holds_example = borrow_left-Holds 2 0 3 one-Holds more-Holds (omega arith) (omega arith)

borrow_right-Holds_example :
    Yields
      (λ r. Holds 4 r.0 2 (4 ∷ 1 ∷ []) × Holds 4 r.1 2 (2 ∷ 3 ∷ []))
      (borrow_right 0 2 few 3 more)
borrow_right-Holds_example =
    borrow_right-Holds 2 0 1 one-Holds more-Holds (omega arith) (omega arith)
