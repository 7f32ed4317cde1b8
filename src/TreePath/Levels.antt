-- ===== src/TreePath/Levels.antt =====
-- Which bucket `GetNodeOnPath` of src/ORAM.cpp gives, and which the random positions reach.
use native.Mathlib.Nat.{pow-suc, div-div-eq-div-mul, div-eq_of_lt}
use bomap.Base.{ℕ, zero, suc, ◌+◌, ◌-◌, ◌*◌, ◌/◌, ◌^◌, ◌<◌, ◌≤◌, ◌≡◌, ◌↔◌, sym, ap, ◌∙◌, arith}
use bomap.TreePath.{climb, node_at, bucket_count, get_node_on_path, depth_of, random_max}

pub pow-pos : (n : ℕ) → 0 < 2 ^ n
pow-pos zero = omega arith
pow-pos (suc n) = omega (arith, pow-pos n, pow-suc 2 n)

pow_mono : (d k : ℕ) → 2 ^ d ≤ 2 ^ (d + k)
pow_mono d zero = let e : d + 0 ≡ d = omega arith in rw e (omega arith)
pow_mono d (suc k) =
    let e : d + suc k ≡ suc (d + k) = omega arith in
    rw e (omega (arith, pow_mono d k, pow-suc 2 (d + k)))

pub pow-le : (d e : ℕ) → d ≤ e → 2 ^ d ≤ 2 ^ e
pow-le d e h = let f : d + (e - d) ≡ e = omega arith in rw (← f) (pow_mono d (e - d))

-- one round of the loop, on the node with number `x` of a level
climb_step : (p x : ℕ) → 0 < p → (p * 2 - 1 + x + 1) / 2 - 1 ≡ p - 1 + x / 2
climb_step p x h = omega arith

halve : (r x : ℕ) → x / 2 / 2 ^ r ≡ x / 2 ^ suc r
halve r x = div-div-eq-div-mul x 2 (2 ^ r) ∙ ap (λ p. x / p) (omega (arith, pow-suc 2 r))

climb_lem : (r c x : ℕ) → climb r (2 ^ (c + r) - 1 + x) ≡ 2 ^ c - 1 + x / 2 ^ r
unfolding climb
climb_lem zero c x = let e : c + 0 ≡ c = omega arith in rw e (omega arith)
climb_lem (suc r) c x =
    let e : c + suc r ≡ suc (c + r) = omega arith in
    rw (e, pow-suc 2 (c + r), climb_step (2 ^ (c + r)) x (pow-pos (c + r)))
      (climb_lem r c (x / 2) ∙ ap (λ t. 2 ^ c - 1 + t) (halve r x))

pub first_leaf : (depth leaf : ℕ) → leaf + bucket_count depth / 2 ≡ 2 ^ depth - 1 + leaf
first_leaf depth leaf =
    let e : depth + 1 ≡ suc depth = omega arith in
    rw e (omega (arith, pow-suc 2 depth, pow-pos depth))

-- On the level `cur`, the path to a leaf goes through the bucket whose number is the leaf's, less
-- its last `depth - cur` bits.
pub node_at-level :
    (depth leaf cur : ℕ)
    → cur ≤ depth
    → node_at depth leaf cur ≡ 2 ^ cur - 1 + leaf / 2 ^ (depth - cur)
unfolding node_at
node_at-level depth leaf cur h =
    let whole : cur + (depth - cur) ≡ depth = omega arith in
    ap (climb (depth - cur)) (first_leaf depth leaf ∙ ap (λ d. 2 ^ d - 1 + leaf) (sym whole))
    ∙ climb_lem (depth - cur) cur leaf

pow_split : (a b : ℕ) → 2 ^ (a + b) ≡ 2 ^ a * 2 ^ b
pow_split a zero = let e : a + 0 ≡ a = omega arith in rw e (omega arith)
pow_split a (suc b) =
    let e : a + suc b ≡ suc (a + b) = omega arith in
    rw (e, pow-suc 2 (a + b), pow-suc 2 b, pow_split a b) (omega arith)

div_below : (x p q : ℕ) → 0 < q → x < p * q → x / q < p
div_below x p q h l = grind arith

-- The bucket on the level `cur` lies between the first of the level and the first of the next, so
-- it is a bucket of the tree.
pub node_at_bounds :
    (depth leaf cur : ℕ)
    → leaf < 2 ^ depth
    → cur ≤ depth
    → (2 ^ cur - 1 ≤ node_at depth leaf cur)
      × (node_at depth leaf cur < 2 ^ (cur + 1) - 1)
      × (node_at depth leaf cur < bucket_count depth)
node_at_bounds depth leaf cur h c =
    let whole : cur + (depth - cur) ≡ depth = omega arith in
    let cells : 2 ^ depth ≡ 2 ^ cur * 2 ^ (depth - cur) =
      ap (λ d. 2 ^ d) (sym whole) ∙ pow_split cur (depth - cur) in
    let inside =
      div_below leaf (2 ^ cur) (2 ^ (depth - cur)) (pow-pos (depth - cur)) (omega arith) in
    let wide : 2 ^ cur ≤ 2 ^ depth = rw cells (grind (arith, pow-pos (depth - cur))) in
    let next : cur + 1 ≡ suc cur = omega arith in
    let last : depth + 1 ≡ suc depth = omega arith in
    let level = node_at-level depth leaf cur c in
    rw (next, last)
      (
        omega (arith, level),
        omega (arith, level, pow-suc 2 cur, inside),
        omega (arith, level, pow-suc 2 cur, pow-suc 2 depth, inside, wide),
      )

-- The paths to two leaves meet on a level exactly when the leaves agree above it.
node_at-eq_iff :
    (depth x y cur : ℕ)
    → cur ≤ depth
    → (node_at depth x cur ≡ node_at depth y cur) ↔ (x / 2 ^ (depth - cur) ≡ y / 2 ^ (depth - cur))
node_at-eq_iff depth x y cur h = (
  λ e. omega (arith, node_at-level depth x cur h, node_at-level depth y cur h),
  λ e. omega (arith, node_at-level depth x cur h, node_at-level depth y cur h),
)

-- Paths that meet on a level meet on every level above it, up to the root.
pub node_at_meet :
    (depth x y cur up : ℕ)
    → cur ≤ depth
    → up ≤ cur
    → node_at depth x cur ≡ node_at depth y cur
    → node_at depth x up ≡ node_at depth y up
node_at_meet depth x y cur up h u e = (node_at-eq_iff depth x y up (omega arith)).1 (
    coarser x
    ∙ ap (λ t. t / 2 ^ (cur - up)) ((node_at-eq_iff depth x y cur h).0 e)
    ∙ sym (coarser y))
  where
    coarser : (z : ℕ) → z / 2 ^ (depth - up) ≡ z / 2 ^ (depth - cur) / 2 ^ (cur - up)
    coarser z =
        ap (λ d. z / 2 ^ d) (omega arith)
        ∙ ap (λ p. z / p) (pow_split (depth - cur) (cur - up))
        ∙ sym (div-div-eq-div-mul z (2 ^ (depth - cur)) (2 ^ (cur - up)))

-- The positions that `RandomPath` and the `RandomPos` functions draw for a tree of positive depth
-- all lie below the left child of the root.
pub node_at-random_max :
    (max_size leaf : ℕ)
    → 0 < depth_of max_size
    → leaf ≤ random_max max_size
    → get_node_on_path max_size leaf 1 ≡ 1
unfolding get_node_on_path random_max
node_at-random_max max_size leaf d h =
    let depth = depth_of max_size in
    let one_less : suc (depth - 1) ≡ depth = omega arith in
    let twice : 2 ^ depth ≡ 2 ^ (depth - 1) * 2 =
      ap (λ n. 2 ^ n) (sym one_less) ∙ pow-suc 2 (depth - 1) in
    let low : leaf < 2 ^ (depth - 1) = omega (arith, h, pow-pos (depth - 1)) in
    node_at-level depth leaf 1 d ∙ ap (λ t. 2 ^ 1 - 1 + t) (div-eq_of_lt low)
