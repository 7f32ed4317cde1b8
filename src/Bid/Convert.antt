-- ===== src/Bid/Convert.antt =====
-- The increment, the conversions from `int` and the comparisons with `int` of src/Bid.cpp.
use native.Mathlib.Nat.{pow-suc, mod-eq_of_lt}
use native.Mathlib.Decide.{dec_lt}
use bomap.Base.{
  ℕ, zero, suc, ◌+◌, ◌*◌, ◌%◌, ◌^◌, ◌<◌, ◌≡◌, ◌≢◌, ◌↔◌, refl, ap, Bool, true, false, not, ltb, ◌==◌,
  if◌then◌else◌, arith, ℤ, pos, sym, ◌&&◌,
}
use bomap.Bid.{
  Byte, byte, Bytes, Bid, increment_loop, increment, of_int, assign_int, eq_int, ne_int,
}
use bomap.Bid.Order.{value_loop, value, value_loop-lt}

-- one byte of the increment, before a tail below `p`
digit-increment :
    (p x v w : ℕ)
    → x < 256
    → w + p ≡ v + 1
    → (x + 1) % 256 * p + w + (if (x + 1) % 256 == 0 then p * 256 else 0) ≡ x * p + v + 1
digit-increment p x v w h e = elim (dec_lt x 255) [
  | yes below ↦ let kept : (x + 1) % 256 ≡ x + 1 = omega arith in rw kept (ground arith)
  | no top ↦ let last : x ≡ 255 = omega arith in rw last (omega arith)
]

increment_step :
    (p : ℕ) (x : Byte) (carry : Bool) (v w : ℕ)
    → w + (if carry then p else 0) ≡ v + 1
    → let x' : Byte = if carry then byte (x.val + 1) else x in
      x'.val * p + w + (if carry && x'.val == 0 then p * 256 else 0) ≡ x.val * p + v + 1
increment_step p x true v w e = digit-increment p x.val v w x.bounded e
increment_step p x false v w e = omega arith

increment_loop-value :
    (n : ℕ) (a : Bytes n)
    → value_loop n (increment_loop n a).0 + (if (increment_loop n a).1 then 256 ^ n else 0)
      ≡ value_loop n a + 1
unfolding increment_loop value_loop
increment_loop-value zero a = refl
increment_loop-value (suc n) (x, a) = rw (pow-suc 256 n) (
    increment_step (256 ^ n) x (increment_loop n a).1 (value_loop n a)
      (value_loop n (increment_loop n a).0) (increment_loop-value n a))

wrapped :
    (v w m : ℕ) (carry : Bool)
    → v < m
    → w < m
    → w + (if carry then m else 0) ≡ v + 1
    → w ≡ (v + 1) % m
wrapped v w m true hv hw e = let last : v + 1 ≡ m = omega arith in rw last (grind arith)
wrapped v w m false hv hw e =
    rw (sym (mod-eq_of_lt {n = w} {m = m} hw)) (ap (λ k. k % m) (omega arith))

-- `operator++` adds one to the number that the bytes spell, and wraps at the end of the range.
pub increment-value : (b : Bid) → value (increment b) ≡ (value b + 1) % 256 ^ 16
unfolding increment value
increment-value b =
    wrapped (value_loop 16 b.id) (value_loop 16 (increment_loop 16 b.id).0) (256 ^ 16)
      (increment_loop 16 b.id).1 (value_loop-lt 16 b.id)
      (value_loop-lt 16 (increment_loop 16 b.id).0) (increment_loop-value 16 b.id)

-- `operator!=(int)` is the negation of `operator==(int)`.
ne_int-eq_int : (b : Bid) (v : ℤ) → ne_int b v ≡ not (eq_int b v)
unfolding ne_int eq_int
ne_int-eq_int b v = ground arith

-- the number that the first four bytes spell
pub prefix : Bid → ℕ
prefix b =
    let (b0, (b1, (b2, (b3, _)))) = b.id in
    b0.val * 2 ^ 24 + b1.val * 2 ^ 16 + b2.val * 2 ^ 8 + b3.val

-- Against an `int`, only an identifier whose first four bytes spell that number compares equal,
-- and only if the number is below 256.
pub eq_int_iff : (b : Bid) (n : ℕ) → (eq_int b (pos n) ≡ true) ↔ ((prefix b ≡ n) × (n < 256))
unfolding eq_int prefix
eq_int_iff b n =
    let (b0, (b1, (b2, (b3, _)))) = b.id in
    ground (arith, b0.bounded, b1.bounded, b2.bounded, b3.bounded)

-- `b = v; b == v` holds for a non-negative `int` exactly when it is below 256.
eq_int-assign_int : (n : ℕ) → n < 2 ^ 31 → (eq_int (assign_int (pos n)) (pos n) ≡ ltb n 256)
unfolding eq_int assign_int
eq_int-assign_int n h = ground arith

-- No key that an `int` below 256 but 0 gives is the same by `Bid(int)` and by `operator=(int)`.
pub of_int-ne-assign_int : (n : ℕ) → 0 < n → n < 256 → of_int (pos n) ≢ assign_int (pos n)
unfolding of_int assign_int
of_int-ne-assign_int n p h e = absurd (omega (arith, ap (λ (b : Bid). b.id.0.val) e))

-- `Bid(int)` gives different keys to different numbers.
of_int-injective : (m n : ℕ) → m < 2 ^ 31 → n < 2 ^ 31 → of_int (pos m) ≡ of_int (pos n) → m ≡ n
unfolding of_int
of_int-injective m n hm hn e = omega (
  arith,
  ap (λ (b : Bid). b.id.0.val) e,
  ap (λ (b : Bid). b.id.1.0.val) e,
  ap (λ (b : Bid). b.id.1.1.0.val) e,
  ap (λ (b : Bid). b.id.1.1.1.0.val) e,
)

-- No positive `int` gives a key that the code takes for the empty one, and 0 gives it.
eq_int-of_int : (n : ℕ) → n < 2 ^ 31 → (eq_int (of_int (pos n)) (pos 0) ≡ (n == 0))
unfolding eq_int of_int
eq_int-of_int n h = ground arith
