-- ===== src/Service/Replies.antt =====
-- What the service of test_server.cpp replies after a `write_bucket`.
use bomap.Base.{
  ℕ, zero, suc, ◌%◌, ◌^◌, ◌<◌, ◌==◌, ◌≡◌, refl, ◌∙◌, arith, Bool-cases, inl, inr, true, false, List,
  length, Option, none, some, get_elem?, ◌>>=◌,
}
use bomap.Slots.Holds.{Yields}
use bomap.TreePath.{bucket_count}
use bomap.Oram.{Oram}
use bomap.Oram.Fetch.{path_from, AllBelow, fetch_path_lem}
use bomap.Connector
use bomap.Connector.{Connector, Driver, Documented}
use bomap.Service.{
  Service, fetch_path, tree_of, put_tree, has_tree, is_root, read_bucket, write_bucket,
}
use bomap.Service.Serves.{
  written, stored_in, get-write, HasBuckets, write_all-HasBuckets, contents-HasBuckets,
  path-AllBelow,
}

module _ {C : Type 0} (drv : Driver C) where
  -- a read that starts a pair of reads
  read_bucket-HasBuckets :
      (s : Service C) (i count leaf : ℕ) (o : Oram) (stored : ℕ → List ℕ)
      → is_root s i ≡ false
      → tree_of s i ≡ some (count, o)
      → (count % 2 == 0) ≡ true
      → leaf < 2 ^ o.depth
      → HasBuckets drv s.mc i (bucket_count o.depth) stored
      → (s' : Service C)
      → put_tree s i
          (suc count)
          (record o { read_cnt = 1; read_view = path_from (suc o.depth) 0 o.depth leaf })
        ≡ some s'
      → read_bucket drv s i leaf
        ≡ some (s', stored_in stored (path_from (suc o.depth) 0 o.depth leaf))
  unfolding read_bucket fetch_path
  read_bucket-HasBuckets s i count leaf o stored below tree even h has s' put =
      let whole =
        contents-HasBuckets drv s.mc i (bucket_count o.depth) stored
          (path_from (suc o.depth) 0 o.depth leaf) has
          (path-AllBelow drv o.depth leaf (suc o.depth) 0 h (omega arith)) in
      rw
        (below, tree, even, fetch_path_lem (Connector.query drv s.mc i) o leaf h, whole, ◌>>=◌, put)
        refl

bind-inv :
    {A B : Type 0} (m : Option A) (f : A → Option B) (r : B)
    → (m >>= f) ≡ some r
    → (a : A) × (m ≡ some a) × (f a ≡ some r)
bind-inv none f r e = absurd cc
bind-inv (some a) f r e = (a, refl, e)

module _ {C : Type 0} (s : Service C) where
  put_tree-tree_of :
      (i count : ℕ) (o : Oram)
      → tree_of s i ≡ some (count, o)
      → (count' : ℕ) (o' : Oram) → Yields (λ s'. Unit {0}) (put_tree s i count' o')
  put_tree-tree_of zero count o e count' o' =
      (record s { leaf_count = count'; leaf = o' }, refl, tt)
  put_tree-tree_of (suc zero) count o e count' o' =
      (record s { mid2_count = count'; mid2 = o' }, refl, tt)
  put_tree-tree_of (suc (suc j)) count o e count' o' =
      let (c, gc, e') =
        bind-inv (get_elem? s.mid1_counts j) (λ x. get_elem? s.mid1 j >>= λ y. some (x, y))
          (count, o) e in
      let (p, gp, _) = bind-inv (get_elem? s.mid1 j) (λ y. some (c, y)) (count, o) e' in
      let (cs, wc, _) = get-write s.mid1_counts j c count' gc in
      let (os, wo, _) = get-write s.mid1 j p o' gp in
      (record s { mid1_counts = cs; mid1 = os }, rw (wc, wo) refl, tt)

  has_tree-tree_of :
      (i count : ℕ) (o : Oram) → tree_of s i ≡ some (count, o) → has_tree s i ≡ some tt
  has_tree-tree_of zero count o e = refl
  has_tree-tree_of (suc zero) count o e = refl
  has_tree-tree_of (suc (suc j)) count o e =
      let (c, gc, e') =
        bind-inv (get_elem? s.mid1_counts j) (λ x. get_elem? s.mid1 j >>= λ y. some (x, y))
          (count, o) e in
      let (p, gp, _) = bind-inv (get_elem? s.mid1 j) (λ y. some (c, y)) (count, o) e' in rw gp refl

  -- what a write leaves as it is
  tree_of-mc : (mc : Connector C) (i : ℕ) → tree_of (record s { mc = mc }) i ≡ tree_of s i
  tree_of-mc mc zero = refl
  tree_of-mc mc (suc zero) = refl
  tree_of-mc mc (suc (suc j)) = refl

  is_root-mc : (mc : Connector C) (i : ℕ) → is_root (record s { mc = mc }) i ≡ is_root s i
  is_root-mc mc zero = refl
  is_root-mc mc (suc zero) = refl
  is_root-mc mc (suc (suc j)) = refl

module _ {C : Type 0} (drv : Driver C) where
  write_bucket-HasBuckets :
      Documented drv
      → (s : Service C) (i count : ℕ) (o : Oram) (stored : ℕ → List ℕ) (ps : List ℕ)
        (buffers : List (List ℕ))
      → is_root s i ≡ false
      → tree_of s i ≡ some (count, o)
      → HasBuckets drv s.mc i (bucket_count o.depth) stored
      → AllBelow (bucket_count o.depth) ps
      → length buffers ≡ length ps
      → (mc : Connector C) × (write_bucket drv s i (length ps) ps buffers
          ≡ some (record s { mc = mc }))
        × HasBuckets drv mc i (bucket_count o.depth) (written stored ps buffers)
  unfolding write_bucket
  write_bucket-HasBuckets doc s i count o stored ps buffers below tree has inside same =
      let (mc, w, h) =
        write_all-HasBuckets drv doc s.mc i (bucket_count o.depth) (length ps) ps buffers stored has
          inside refl same in
      let there = has_tree-tree_of s i count o tree in
      (
        mc,
        elim (Bool-cases (length ps == 0)) [
          | inl e ↦ rw (below, e, w) refl
          | inr e ↦ rw (below, e, there, w) refl
        ],
        h,
      )

  -- For a tree of the service whose buckets are all in the database, and after an even number of
  -- reads: the first read after a request that writes buckets of the tree does not fault, and the
  -- reply for the path to a leaf is the contents of its buckets from the root down to the leaf, each
  -- once: what the request wrote last for a bucket, or else what was there before.
  pub write_bucket-read_bucket :
      Documented drv
      → (s : Service C) (i count leaf : ℕ) (o : Oram) (stored : ℕ → List ℕ) (ps : List ℕ)
        (buffers : List (List ℕ))
      → is_root s i ≡ false
      → tree_of s i ≡ some (count, o)
      → (count % 2 == 0) ≡ true
      → leaf < 2 ^ o.depth
      → HasBuckets drv s.mc i (bucket_count o.depth) stored
      → AllBelow (bucket_count o.depth) ps
      → length buffers ≡ length ps
      → Yields
          (λ r.
            r.1 ≡ stored_in (written stored ps buffers) (path_from (suc o.depth) 0 o.depth leaf))
          (write_bucket drv s i (length ps) ps buffers >>= λ s'. read_bucket drv s' i leaf)
  write_bucket-read_bucket doc s i count leaf o stored ps buffers below tree even h has inside
        same =
      let (mc, w, has') =
        write_bucket-HasBuckets doc s i count o stored ps buffers below tree has inside same in
      let s1 : Service C = record s { mc = mc } in
      let whole = path_from (suc o.depth) 0 o.depth leaf in
      let tree1 = tree_of-mc s mc i ∙ tree in
      let (s2, put, _) =
        put_tree-tree_of s1 i count o tree1 (suc count)
          (record o { read_cnt = 1; read_view = whole }) in
      (
        (s2, stored_in (written stored ps buffers) whole),
        rw (w, ◌>>=◌)
            (read_bucket-HasBuckets drv s1 i count leaf o (written stored ps buffers)
              (is_root-mc s mc i ∙ below) tree1 even h has' s2 put),
        refl,
      )
