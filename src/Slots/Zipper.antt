-- ===== src/Slots/Zipper.antt =====
-- An array as a reversed prefix and the slots from an index on, where the loops step by computation.
use mathlib.Core.List.{reverse, append-nil, append_assoc, reverse-append, reverse-reverse}
use bomap.Base.{
  ℕ, suc, ◌+◌, ◌≡◌, refl, sym, ap, ◌∙◌, Bool, if◌then◌else◌, Bool-cases, inl, inr, List, [], ◌∷◌,
  ◌++◌, some, get_elem?, length, arith,
}
use bomap.Slots.{write, find_first, shift_in, shift_out}

module _ {A : Type 0} where
  abbrev pub onto : List A → List A → List A
  onto [] q = q
  onto (y ∷ m) q = onto m (y ∷ q)

  pub onto-append : (m q : List A) → onto m q ≡ reverse m ++ q
  onto-append [] q = refl
  onto-append (y ∷ m) q =
      onto-append m (y ∷ q)
      ∙ sym (append_assoc (reverse m) (y ∷ []) q)
      ∙ ap (λ r. r ++ q) (sym (reverse-append (y ∷ []) m))

  pub onto-reverse : (xs q : List A) → onto (reverse xs) q ≡ xs ++ q
  onto-reverse xs q = rw (onto-append (reverse xs) q, reverse-reverse)

  pub onto-onto : (m n q : List A) → onto (m ++ n) q ≡ onto n (onto m q)
  onto-onto [] n q = refl
  onto-onto (y ∷ m) n q = onto-onto m n (y ∷ q)

  pub length-onto : (m q : List A) → length (onto m q) ≡ length m + length q
  length-onto [] q = omega arith
  length-onto (y ∷ m) q = omega (arith, length-onto m (y ∷ q))

  pub length-reverse : (xs : List A) → length (reverse xs) ≡ length xs
  length-reverse xs = omega (
    arith,
    length-onto (reverse xs) [],
    ap length (onto-reverse xs []),
    ap length (append-nil xs),
  )

  -- reads and writes at and behind the index
  pub get-onto : (m q : List A) (i : ℕ) → get_elem? (onto m q) (length m + i) ≡ get_elem? q i
  get-onto [] q i = ap (get_elem? q) (omega arith)
  get-onto (y ∷ m) q i = ap (get_elem? (onto m (y ∷ q))) (omega arith) ∙ get-onto m (y ∷ q) (suc i)

  pub get-onto_head : (m q : List A) (x : A) → get_elem? (onto m (x ∷ q)) (length m) ≡ some x
  get-onto_head m q x = ap (get_elem? (onto m (x ∷ q))) (omega arith) ∙ get-onto m (x ∷ q) 0

  pub get-onto_next :
      (m q : List A) (x y : A) → get_elem? (onto m (x ∷ y ∷ q)) (suc (length m)) ≡ some y
  get-onto_next m q x y = get-onto_head (x ∷ m) q y

  write-append : (p q : List A) (x v : A) → write (p ++ x ∷ q) (length p) v ≡ some (p ++ v ∷ q)
  write-append [] q x v = refl
  write-append (y ∷ p) q x v = rw (write-append p q x v)

  pub write-onto :
      (m q : List A) (x v : A) → write (onto m (x ∷ q)) (length m) v ≡ some (onto m (v ∷ q))
  write-onto m q x v =
      rw (onto-append m (x ∷ q), onto-append m (v ∷ q), ← length-reverse m)
        (write-append (reverse m) q x v)

  pub write-onto_next :
      (m q : List A) (x y v : A)
      → write (onto m (x ∷ y ∷ q)) (suc (length m)) v ≡ some (onto m (x ∷ v ∷ q))
  write-onto_next m q x y v = write-onto (x ∷ m) q y v

  -- the slots before the first that passes the test, and the others
  abbrev pub before : (A → Bool) → List A → List A
  before test [] = []
  before test (x ∷ xs) = if test x then [] else x ∷ before test xs

  abbrev pub after : (A → Bool) → List A → List A
  after test [] = []
  after test (x ∷ xs) = if test x then x ∷ xs else after test xs

  pub before-append-after : (test : A → Bool) (xs : List A) → before test xs ++ after test xs ≡ xs
  before-append-after test [] = refl
  before-append-after test (x ∷ xs) = elim (Bool-cases (test x)) [
    | inl e ↦ rw e
    | inr e ↦ rw e (ap (◌∷◌ x) (before-append-after test xs))
  ]

  pub find_first-onto :
      (test : A → Bool) (m xs q : List A)
      → find_first test (length xs) (onto m (xs ++ q)) (length m)
        ≡ some (length m + length (before test xs))
  unfolding find_first
  find_first-onto test m [] q = ap some (omega arith)
  find_first-onto test m (x ∷ xs) q = elim (Bool-cases (test x)) [
    | inl e ↦ rw (get-onto_head m (xs ++ q) x, e) (ap some (omega arith))
    | inr e ↦
        rw (get-onto_head m (xs ++ q) x, e)
          (find_first-onto test (x ∷ m) xs q ∙ ap some (omega arith))
  ]

  -- the shift that makes room
  pub shift_in-onto :
      (m n q : List A) (z v : A)
      → shift_in (length m) (onto (m ++ n) (z ∷ q)) (length (m ++ n)) v
        ≡ some (onto n (v ∷ onto m q))
  unfolding shift_in
  shift_in-onto [] n q z v = write-onto n q z v
  shift_in-onto (y ∷ m) n q z v =
      rw (get-onto_head (m ++ n) (z ∷ q) y, write-onto_next (m ++ n) q y z y)
        (shift_in-onto m n (y ∷ q) y v)

  abbrev pub last_or : A → List A → A
  last_or x [] = x
  last_or x (y ∷ ys) = last_or y ys

  -- the shift that closes a gap
  pub shift_out-onto :
      (m ys q : List A) (x : A)
      → shift_out (length ys) (onto m (x ∷ ys ++ q)) (length m)
        ≡ some (onto m (ys ++ last_or x ys ∷ q))
  unfolding shift_out
  shift_out-onto m [] q x = refl
  shift_out-onto m (y ∷ ys) q x =
      rw (get-onto_next m (ys ++ q) x y, write-onto m (y ∷ ys ++ q) x y)
        (shift_out-onto (y ∷ m) ys q y)
