-- ===== src/Oram/Parting.antt =====
-- What the second read of a batch gets from the service of test_server.cpp when the two paths part below
-- a level of the tree.
use bomap.Base.{
  ℕ, zero, suc, ◌+◌, ◌-◌, ◌%◌, ◌^◌, ◌<◌, ◌≤◌, ◌≡◌, ◌≢◌, Bool, refl, ap, ◌∙◌, true, false, ◌||◌,
  ◌==◌, Bool-cases, inl, inr, List, ◌∷◌, Option, arith,
}
use bomap.TreePath.{node_at}
use bomap.TreePath.Levels.{pow-le, node_at_bounds, node_at_meet}
use bomap.Oram.{contains, Oram}
use bomap.Oram.Fetch.{path_from, fresh}
use bomap.Oram.Batch.{read_twice, sent_twice, read_bucket-batch}

or_false : (b : Bool) → (b || false) ≡ b
or_false true = refl
or_false false = refl

module _ (depth leaf : ℕ) (inside : leaf < 2 ^ depth) where
  -- a bucket of a higher level is not on the rest of the path
  higher :
      (rounds d n : ℕ)
      → d + rounds ≡ suc depth
      → n < 2 ^ d - 1
      → contains (path_from rounds d depth leaf) n ≡ false
  unfolding path_from
  higher zero d n e h = refl
  higher (suc rounds) d n e h =
      let (low, _, _) = node_at_bounds depth leaf d inside (omega arith) in
      ground (
        arith,
        low,
        higher rounds (suc d) n (omega arith) (omega (arith, h, pow-le d (suc d) (omega arith))),
      )

  -- a bucket of a level is on the path only as the path's bucket of this level
  on_level :
      (rounds d e n : ℕ)
      → d + rounds ≡ suc depth
      → d ≤ e
      → e ≤ depth
      → 2 ^ e - 1 ≤ n
      → n < 2 ^ (e + 1) - 1
      → contains (path_from rounds d depth leaf) n ≡ (node_at depth leaf e == n)
  unfolding path_from
  on_level zero d e n whole h h' low high = absurd (omega arith)
  on_level (suc rounds) d e n whole h h' low high = elim (Bool-cases (d == e)) [
    | inl same ↦
        let f : e ≡ d = ground arith in
        let next : e + 1 ≡ suc d = omega (arith, f) in
        let bound : n < 2 ^ suc d - 1 = rw (← next) high in
        let rest = higher rounds (suc d) n (omega arith) bound in
        rw (f, rest) (or_false (node_at depth leaf d == n))
    | inr later ↦
        let below : d < e = ground arith in
        let (_, top, _) = node_at_bounds depth leaf d inside (omega arith) in
        ground (
          arith,
          top,
          pow-le (d + 1) e (omega arith),
          on_level rounds (suc d) e n (omega arith) (omega arith) h' low high,
        )
  ]

module _ (view : List ℕ) (depth leaf cur : ℕ) (above : cur < depth)
    (old : (d : ℕ) → d ≤ cur → contains view (node_at depth leaf d) ≡ true)
    (new : (d : ℕ) → cur < d → d ≤ depth → contains view (node_at depth leaf d) ≡ false) where
  all_fresh :
      (rounds d : ℕ)
      → d + rounds ≡ suc depth
      → cur < d
      → fresh view (path_from rounds d depth leaf) ≡ path_from rounds d depth leaf
  unfolding fresh path_from
  all_fresh zero d e h = refl
  all_fresh (suc rounds) d e h =
      rw (new d h (omega arith))
        (ap (◌∷◌ (node_at depth leaf d)) (all_fresh rounds (suc d) (omega arith) (omega arith)))

  -- of a path whose buckets were sent down to the level `cur`, only those below are sent
  fresh_below :
      (rounds d : ℕ)
      → d + rounds ≡ suc depth
      → d ≤ suc cur
      → fresh view (path_from rounds d depth leaf) ≡ path_from (depth - cur) (suc cur) depth leaf
  unfolding fresh path_from
  fresh_below zero d e h = absurd (omega arith)
  fresh_below (suc rounds) d e h = elim (Bool-cases (d == suc cur)) [
    | inl same ↦
        let f : d ≡ suc cur = ground arith in
        let g : depth - cur ≡ suc rounds = omega arith in
        rw (f, g) (all_fresh (suc rounds) (suc cur) (omega arith) (omega arith))
    | inr other ↦
        let f : d ≤ cur = ground arith in
        rw (old d f) (fresh_below rounds (suc d) (omega arith) (omega arith))
  ]

module _ (depth x y cur : ℕ) (inside_x : x < 2 ^ depth) (inside_y : y < 2 ^ depth)
    (above : cur < depth) (meet : node_at depth x cur ≡ node_at depth y cur)
    (part : node_at depth x (suc cur) ≢ node_at depth y (suc cur)) where
  shared :
      (d : ℕ)
      → d ≤ depth
      → contains (path_from (suc depth) 0 depth x) (node_at depth y d)
        ≡ (node_at depth x d == node_at depth y d)
  shared d h =
      let (low, high, _) = node_at_bounds depth y d inside_y h in
      on_level depth x inside_x (suc depth) 0 d (node_at depth y d) (omega arith) (omega arith) h
        low high

  shared_above :
      (d : ℕ) → d ≤ cur → contains (path_from (suc depth) 0 depth x) (node_at depth y d) ≡ true
  shared_above d h =
      let same : node_at depth x d ≡ node_at depth y d =
        node_at_meet depth x y cur d (omega arith) h meet in
      shared d (omega arith) ∙ ground (arith, same)

  parted_below :
      (d : ℕ)
      → cur < d
      → d ≤ depth
      → contains (path_from (suc depth) 0 depth x) (node_at depth y d) ≡ false
  parted_below d h h' =
      let parted : node_at depth x d ≢ node_at depth y d =
        λ e. part (node_at_meet depth x y d (suc cur) h' (omega arith) e) in
      shared d h' ∙ ground (arith, parted)

  second_path :
      fresh (path_from (suc depth) 0 depth x) (path_from (suc depth) 0 depth y)
      ≡ path_from (depth - cur) (suc cur) depth y
  second_path =
      fresh_below (path_from (suc depth) 0 depth x) depth y cur above shared_above parted_below
        (suc depth) 0 (omega arith) (omega arith)

-- If the paths of the first two requests of a batch meet on a level above the leaves and not on the
-- next, the second reply is the ciphertexts of the second path's buckets below that level, from there
-- down to the leaf, and these are marked as sent behind the whole first path. The batch faults
-- exactly if one of the buckets is not in the database.
pub read_bucket-parting :
    (query : ℕ → Option (List ℕ)) (recv_count : ℕ) (o : Oram) (x y cur : ℕ)
    → (recv_count % 2 == 0) ≡ true
    → x < 2 ^ o.depth
    → y < 2 ^ o.depth
    → cur < o.depth
    → node_at o.depth x cur ≡ node_at o.depth y cur
    → node_at o.depth x (suc cur) ≢ node_at o.depth y (suc cur)
    → read_twice query (recv_count, o) x y
      ≡ sent_twice query
          (recv_count, o)
          (path_from (suc o.depth) 0 o.depth x)
          (path_from (o.depth - cur) (suc cur) o.depth y)
read_bucket-parting query recv_count o x y cur even hx hy above meet part =
    (read_bucket-batch query recv_count o x y even hx hy).0
    ∙ ap (sent_twice query (recv_count, o) (path_from (suc o.depth) 0 o.depth x))
        (second_path o.depth x y cur hx hy above meet part)
