-- ===== src/Slots.antt =====
-- The fixed-size arrays of src/node.hpp (`arr`, `childMap`), and the loops over them that the node
-- classes of src/node.cpp share. An array is the list of all its slots, those past the count
-- included. A read or a write past the end, or at index -1, is `none`.
pub mod Zipper
pub mod Moves
pub mod Shares
pub mod Borrows
pub mod Halves
pub mod Holds
mod Examples
use bomap.Base.{
  ℕ, zero, suc, ◌+◌, ◌-◌, Bool, true, false, leb, ◌==◌, if◌then◌else◌, List, [], ◌∷◌, ◌++◌, Option,
  none, some, get_elem?, length, take, drop, replicate, ◌>>=◌,
}

module _ {A : Type 0} where
  -- `a[i] = v`
  abbrev pub write : List A → ℕ → A → Option (List A)
  write [] i v = none
  write (x ∷ a) zero v = some (v ∷ a)
  write (x ∷ a) (suc i) v = write a i v >>= λ b. some (x ∷ b)

  -- `a[c - 1]`
  abbrev pub read_last : List A → ℕ → Option A
  read_last a zero = none
  read_last a (suc c) = get_elem? a c

  -- `for (; i < i + r; i++) if (test(a[i])) break;` returns where the index stops
  unfoldable pub find_first : (A → Bool) → ℕ → List A → ℕ → Option ℕ
  find_first test zero a i = some i
  find_first test (suc r) a i =
      get_elem? a i >>= λ x. elim (test x) [ true ↦ some i | false ↦ find_first test r a (suc i) ]

  -- `for (; j > i; j--) a[j] = a[j - 1]; a[i] = v;` in `r = j - i` rounds
  unfoldable pub shift_in : ℕ → List A → ℕ → A → Option (List A)
  shift_in zero a j v = write a j v
  shift_in (suc r) a zero v = none
  shift_in (suc r) a (suc j) v = do x ← get_elem? a j; b ← write a (suc j) x; shift_in r b j v

  -- `for (; j < j + r; j++) a[j] = a[j + 1];`
  unfoldable pub shift_out : ℕ → List A → ℕ → Option (List A)
  shift_out zero a j = some a
  shift_out (suc r) a j = do x ← get_elem? a (suc j); b ← write a j x; shift_out r b (suc j)

  -- `for (int i = n + k - 1; i >= k; i--) a[i] = a[i - k];`
  unfoldable pub shift_by : ℕ → ℕ → List A → Option (List A)
  shift_by k zero a = some a
  shift_by k (suc n) a = do x ← get_elem? a n; b ← write a (n + k) x; shift_by k n b

  -- `for (int i = n - 1; i >= 0; i--) dst[i] = src[i];`
  unfoldable pub copy_down : ℕ → List A → List A → Option (List A)
  copy_down zero src dst = some dst
  copy_down (suc n) src dst = do x ← get_elem? src n; b ← write dst n x; copy_down n src b

  -- `std::copy(src.begin() + i, src.begin() + i + n, dst.begin() + at)`
  unfoldable pub copy_to : ℕ → List A → ℕ → List A → ℕ → Option (List A)
  copy_to zero src i dst at = some dst
  copy_to (suc n) src i dst at = do
    x ← get_elem? src i
    b ← write dst at x
    copy_to n src (suc i) b (suc at)

  -- `memcpy(dst.data(), src, ...)` of the slots `src`
  unfoldable pub memcpy : List A → List A → Option (List A)
  memcpy dst src =
      if leb (length src) (length dst) then some (src ++ drop (length src) dst) else none

  -- `full[count++] = x` for an array `full` of `size` slots, of which the list holds the first `count`
  unfoldable pub push : ℕ → List A → A → Option (List A)
  push size full x = if leb (suc (length full)) size then some (full ++ x ∷ []) else none

  -- the insertion of the node classes at index `i` of `c`
  unfoldable pub insert_at : List A → ℕ → ℕ → A → Option (List A)
  unfolding shift_in
  insert_at a c i v = if i == c then write a i v else shift_in (c - i) a c v

  -- the removal of the node classes at index `i` of `c`; `empty` is a slot's default
  unfoldable pub remove_at : A → List A → ℕ → ℕ → Option (List A)
  unfolding shift_out
  remove_at empty a c i =
      if suc i == c
      then write a i empty
      else (shift_out (c - 1 - i) a i >>= λ b. write b (c - 1) empty)

  -- The split of the node classes: `full` has `size` slots, the first `half` stay, and the others
  -- go to the front of the new node's array.
  unfoldable pub split : A → ℕ → ℕ → ℕ → List A → List A → Option (List A × List A)
  unfolding memcpy
  split empty cap size half full new = do
    let slots = full ++ replicate (size - length full) empty
    a ← memcpy (replicate cap empty) (take half slots)
    b ← memcpy new (take (size - half) (drop half slots))
    some (a, b)

  -- The four ways in which a node that has become small shares with its neighbour. `c` counts the
  -- slots before the removal, and `n` those of the neighbour. The results are the node's array and
  -- the neighbour's.
  unfoldable pub merge_left : ℕ → List A → ℕ → List A → Option (List A × List A)
  unfolding copy_to
  merge_left c a n b = copy_to (c - 1) a 0 b n >>= λ b'. some (a, b')

  unfoldable pub merge_right : ℕ → List A → ℕ → List A → Option (List A × List A)
  unfolding shift_by copy_down
  merge_right c a n b = do b1 ← shift_by (c - 1) n b; b2 ← copy_down (c - 1) a b1; some (a, b2)

  unfoldable pub borrow_left : A → ℕ → List A → ℕ → List A → Option (List A × List A)
  unfolding shift_in
  borrow_left empty c a n b = do
    x ← read_last b n
    b1 ← write b (n - 1) empty
    a1 ← shift_in c a c x
    some (a1, b1)

  unfoldable pub borrow_right : A → ℕ → List A → ℕ → List A → Option (List A × List A)
  unfolding shift_out
  borrow_right empty c a n b = do
    x ← get_elem? b 0
    b1 ← shift_out (n - 1) b 0
    b2 ← write b1 (n - 1) empty
    a1 ← write a (c - 1) x
    some (a1, b2)
