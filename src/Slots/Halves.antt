-- ===== src/Slots/Halves.antt =====
-- The split of a full array into two halves.
use mathlib.Core.List.{append-nil}
use bomap.Base.{
  ℕ, zero, suc, ◌+◌, ◌-◌, ◌<◌, ◌≤◌, ◌≡◌, refl, sym, ap, ◌∙◌, List, [], ◌∷◌, ◌++◌, some, length,
  take, drop, replicate, arith, length-take, length-drop, length-replicate, ◌>>=◌,
}
use bomap.Slots.{memcpy, split, push}
use bomap.Slots.Holds.{Holds, Yields}

module _ {A : Type 0} where
  pub push_lem :
      (size : ℕ) (full : List A) (x : A)
      → length full < size
      → push size full x ≡ some (full ++ x ∷ [])
  unfolding push
  push_lem size full x h = ground arith

  memcpy-Holds :
      (cap : ℕ) (dst src : List A)
      → length dst ≡ cap
      → length src ≤ cap
      → Yields (λ b. Holds cap b (length src) src) (memcpy dst src)
  unfolding memcpy
  memcpy-Holds cap dst src e h = (
    src ++ drop (length src) dst,
    ground arith,
    record {
      rest = drop (length src) dst;
      layout = refl;
      count = refl;
      size = omega (arith, length-drop (length src) dst);
    },
  )

  take_all : (n : ℕ) (xs : List A) → length xs ≡ n → take n xs ≡ xs
  take_all zero [] e = refl
  take_all zero (x ∷ xs) e = absurd (omega arith)
  take_all (suc n) [] e = absurd (omega arith)
  take_all (suc n) (x ∷ xs) e = ap (◌∷◌ x) (take_all n xs (omega arith))

  split_lem :
      (empty : A) (cap size half : ℕ) (full new : List A)
      → length full ≡ size
      → split empty cap size half full new ≡ (
          memcpy (replicate cap empty) (take half full) >>= λ a.
          memcpy new (drop half full) >>= λ b. some (a, b))
  unfolding split
  split_lem empty cap size half full new e =
      let no_pad : size - length full ≡ 0 = omega arith in
      rw (
        no_pad,
        append-nil full,
        take_all (size - half) (drop half full) (omega (arith, length-drop half full)),
      )

  -- the first half stays, and the second goes to the new array
  pub split-Holds :
      (empty : A) (cap size half : ℕ) (full new : List A)
      → length full ≡ size
      → length new ≡ cap
      → half ≤ size
      → half ≤ cap
      → size ≤ cap + half
      → Yields
          (λ r. Holds cap r.0 half (take half full) × Holds cap r.1 (size - half) (drop half full))
          (split empty cap size half full new)
  split-Holds empty cap size half full new e n lo hi fits =
      let taken = length-take half full (omega arith) in
      let dropped = length-drop half full in
      let (a, p, h) =
        memcpy-Holds cap (replicate cap empty) (take half full) (length-replicate cap empty)
          (omega arith) in
      let (b, r, g) = memcpy-Holds cap new (drop half full) n (omega arith) in
      (
        (a, b),
        split_lem empty cap size half full new e ∙ rw (p, ◌>>=◌, r),
        (
          record { rest = h.rest; layout = h.layout; count = sym taken; size = h.size },
          record { rest = g.rest; layout = g.layout; count = omega arith; size = g.size },
        ),
      )
