-- ===== src/Bid/Order.antt =====
-- The comparison operators of src/Bid.cpp are those of the number that the bytes spell, most
-- significant byte first.
use mathlib.Core.HLevel.{is_prop→PathP}
use native.Mathlib.Bridge.{le_prop}
use native.Mathlib.Nat.{pow-suc}
use bomap.Base.{
  ℕ, zero, suc, ◌+◌, ◌*◌, ◌^◌, ◌<◌, ◌≡◌, refl, Bool, true, false, not, ltb, leb, ◌==◌,
  if◌then◌else◌, arith, ap, ◌∙◌,
}
use bomap.Bid.{
  Byte, Bytes, Bid, less_loop, greater_loop, differ_loop, equal_loop, lt, le, gt, ge, ne, eq,
}

unfoldable pub value_loop : (n : ℕ) → Bytes n → ℕ
value_loop zero a = 0
value_loop (suc n) (x, a) = x.val * 256 ^ n + value_loop n a

unfoldable pub value : Bid → ℕ
unfolding value_loop
value b = value_loop 16 b.id

pub value_loop-lt : (n : ℕ) (a : Bytes n) → value_loop n a < 256 ^ n
unfolding value_loop
value_loop-lt zero a = omega arith
value_loop-lt (suc n) (x, a) = grind (arith, value_loop-lt n a, pow-suc 256 n, x.bounded)

-- two digits before tails below `p`
digit-lt : (p x y v w : ℕ) → v < p → w < p → x < y → x * p + v < y * p + w
digit-lt p x y v w hv hw h = grind arith

module _ (n : ℕ) (x y : Byte) (a b : Bytes n) where
  digit_below : x.val < y.val → value_loop (suc n) (x, a) < value_loop (suc n) (y, b)
  unfolding value_loop
  digit_below =
      digit-lt (256 ^ n) x.val y.val (value_loop n a) (value_loop n b) (value_loop-lt n a)
        (value_loop-lt n b)

  digit_same :
      x.val ≡ y.val
      → value_loop (suc n) (x, a) + value_loop n b ≡ value_loop (suc n) (y, b) + value_loop n a
  unfolding value_loop
  digit_same e = rw e (omega arith)

Digits : (n : ℕ) (x y : Byte) (a b : Bytes n) → Type 0
Digits n x y a b =
    (x.val < y.val → value_loop (suc n) (x, a) < value_loop (suc n) (y, b))
    × (y.val < x.val → value_loop (suc n) (y, b) < value_loop (suc n) (x, a))
    × (x.val ≡ y.val
        → value_loop (suc n) (x, a) + value_loop n b ≡ value_loop (suc n) (y, b) + value_loop n a)

digits : (n : ℕ) (x y : Byte) (a b : Bytes n) → Digits n x y a b
unfolding Digits
digits n x y a b = (digit_below n x y a b, digit_below n y x b a, digit_same n x y a b)

less_loop-value :
    (same : Bool) (n : ℕ) (a b : Bytes n)
    → less_loop same n a b ≡ (
        if same
        then leb (value_loop n a) (value_loop n b)
        else ltb (value_loop n a) (value_loop n b))
unfolding less_loop Digits value_loop
less_loop-value true zero a b = refl
less_loop-value false zero a b = refl
less_loop-value true (suc n) (x, a) (y, b) =
    ground (arith, digits n x y a b, less_loop-value true n a b)
less_loop-value false (suc n) (x, a) (y, b) =
    ground (arith, digits n x y a b, less_loop-value false n a b)

greater_loop-value :
    (same : Bool) (n : ℕ) (a b : Bytes n)
    → greater_loop same n a b ≡ (
        if same
        then leb (value_loop n b) (value_loop n a)
        else ltb (value_loop n b) (value_loop n a))
unfolding greater_loop Digits value_loop
greater_loop-value true zero a b = refl
greater_loop-value false zero a b = refl
greater_loop-value true (suc n) (x, a) (y, b) =
    ground (arith, digits n x y a b, greater_loop-value true n a b)
greater_loop-value false (suc n) (x, a) (y, b) =
    ground (arith, digits n x y a b, greater_loop-value false n a b)

equal_loop-value : (n : ℕ) (a b : Bytes n) → equal_loop n a b ≡ (value_loop n a == value_loop n b)
unfolding equal_loop Digits value_loop
equal_loop-value zero a b = refl
equal_loop-value (suc n) (x, a) (y, b) = ground (arith, digits n x y a b, equal_loop-value n a b)

differ_loop-equal_loop : (n : ℕ) (a b : Bytes n) → differ_loop n a b ≡ not (equal_loop n a b)
unfolding differ_loop equal_loop
differ_loop-equal_loop zero a b = refl
differ_loop-equal_loop (suc n) (x, a) (y, b) = ground (arith, differ_loop-equal_loop n a b)

pub lt-value : (a b : Bid) → lt a b ≡ ltb (value a) (value b)
unfolding lt value
lt-value a b = less_loop-value false 16 a.id b.id

pub le-value : (a b : Bid) → le a b ≡ leb (value a) (value b)
unfolding le value
le-value a b = less_loop-value true 16 a.id b.id

pub gt-value : (a b : Bid) → gt a b ≡ ltb (value b) (value a)
unfolding gt value
gt-value a b = greater_loop-value false 16 a.id b.id

pub ge-value : (a b : Bid) → ge a b ≡ leb (value b) (value a)
unfolding ge value
ge-value a b = greater_loop-value true 16 a.id b.id

pub eq-value : (a b : Bid) → eq a b ≡ (value a == value b)
unfolding eq value
eq-value a b = equal_loop-value 16 a.id b.id

pub ne-value : (a b : Bid) → ne a b ≡ not (value a == value b)
unfolding ne value
ne-value a b = differ_loop-equal_loop 16 a.id b.id ∙ ap not (equal_loop-value 16 a.id b.id)

-- The six operators are the order and the equality of one number: the bytes of the identifier,
-- read most significant first.
pub operators-value :
    (a b : Bid)
    → (lt a b ≡ ltb (value a) (value b))
      × (le a b ≡ leb (value a) (value b))
      × (gt a b ≡ ltb (value b) (value a))
      × (ge a b ≡ leb (value b) (value a))
      × (eq a b ≡ (value a == value b))
      × (ne a b ≡ not (value a == value b))
operators-value a b =
    (lt-value a b, le-value a b, gt-value a b, ge-value a b, eq-value a b, ne-value a b)

Byte-ext : (x y : Byte) → x.val ≡ y.val → x ≡ y
Byte-ext x y e = λ i. record {
  val = e i;
  bounded = is_prop→PathP (λ j. e j < 256) (λ j. le_prop) x.bounded y.bounded i;
}

value_loop-injective : (n : ℕ) (a b : Bytes n) → value_loop n a ≡ value_loop n b → a ≡ b
unfolding value_loop
value_loop-injective zero a b e = refl
value_loop-injective (suc n) (x, a) (y, b) e =
    let head : x.val ≡ y.val = grind (arith, digit_below n x y a b, digit_below n y x b a) in
    let tail = value_loop-injective n a b (omega (arith, digit_same n x y a b head)) in
    λ i. (Byte-ext x y head i, tail i)

-- Two identifiers with the same number are the same.
pub value-injective : (a b : Bid) → value a ≡ value b → a ≡ b
unfolding value
value-injective a b e = ap (λ i. record { id = i }) (value_loop-injective 16 a.id b.id e)
