-- ===== src/Service/Serves.antt =====
-- The buckets of the service of test_server.cpp in the database: what the loops of `write_bucket` and of
-- `FetchPath` do when they are there.
use mathlib.Core.Path.{subst}
use bomap.Base.{
  ℕ, zero, suc, ◌+◌, ◌^◌, ◌<◌, ◌==◌, ◌≡◌, refl, ◌∙◌, arith, if◌then◌else◌, Bool-cases, inl, inr,
  List, [], ◌∷◌, ◌++◌, length, some, get_elem?, ◌>>=◌,
}
use bomap.Slots.{write}
use bomap.Slots.Holds.{Yields}
use bomap.TreePath.{bucket_count}
use bomap.TreePath.Levels.{node_at_bounds}
use bomap.Oram.Fetch.{path_from, contents, AllBelow}
use bomap.Connector
use bomap.Connector.{Connector, Driver, Documented}
use bomap.Service.{write_one, write_all}

-- the buckets after writes of some of them, the last write of a bucket being the one that counts
unfoldable pub written : (ℕ → List ℕ) → List ℕ → List (List ℕ) → ℕ → List ℕ
written stored [] buffers = stored
written stored (p ∷ ps) [] = stored
written stored (p ∷ ps) (b ∷ buffers) = written (λ n. if p == n then b else stored n) ps buffers

-- the contents of buckets, one behind the other
unfoldable pub stored_in : (ℕ → List ℕ) → List ℕ → List ℕ
stored_in stored [] = []
stored_in stored (n ∷ ns) = stored n ++ stored_in stored ns

pub get-write :
    {A : Type 0} (xs : List A) (i : ℕ) (x y : A)
    → get_elem? xs i ≡ some x
    → (ys : List A) × (write xs i y ≡ some ys) × (get_elem? ys i ≡ some y)
get-write [] i x y e = absurd cc
get-write (z ∷ xs) zero x y e = (y ∷ xs, refl, refl)
get-write (z ∷ xs) (suc i) x y e = let (ys, w, g) = get-write xs i x y e in (z ∷ ys, rw w refl, g)

module _ {C : Type 0} (drv : Driver C) where
  -- the database has the first `count` buckets of a tree
  abbrev pub HasBuckets : Connector C → ℕ → ℕ → (ℕ → List ℕ) → Type 0
  HasBuckets mc i count stored =
      (c : C) × (get_elem? mc.coll i ≡ some c)
      × ((n : ℕ) → n < count → drv.find_one c n ≡ some (stored n))

  query-HasBuckets :
      (mc : Connector C) (i count n : ℕ) (stored : ℕ → List ℕ)
      → HasBuckets mc i count stored
      → n < count
      → Connector.query drv mc i n ≡ some (stored n)
  unfolding Connector.query
  query-HasBuckets mc i count n stored (c, g, f) h = rw (g, f n h) refl

  update-HasBuckets :
      Documented drv
      → (mc : Connector C) (i count p : ℕ) (s : List ℕ) (stored : ℕ → List ℕ)
      → HasBuckets mc i count stored
      → p < count
      → Yields
          (λ mc'. HasBuckets mc' i count (λ n. if p == n then s else stored n))
          (write_one drv mc i p s)
  unfolding write_one Connector.update
  update-HasBuckets doc mc i count p s stored (c, g, f) h =
      let (cs, w, g') = get-write mc.coll i c (drv.update_one c p s) g in
      (
        record { coll = cs },
        rw (g, w) refl,
        (
          drv.update_one c p s,
          g',
          λ n m. elim (Bool-cases (p == n)) [
            | inl same ↦
                let e : p ≡ n = ground arith in
                rw same (
                  subst (λ k. drv.find_one (drv.update_one c p s) k ≡ some s) e
                    (doc.update_same c p (stored p) s (f p h)))
            | inr other ↦ rw other (doc.update_other c p n s other ∙ f n m)
          ],
        ),
      )

  pub write_all-HasBuckets :
      Documented drv
      → (mc : Connector C) (i count num : ℕ) (ps : List ℕ) (buffers : List (List ℕ))
        (stored : ℕ → List ℕ)
      → HasBuckets mc i count stored
      → AllBelow count ps
      → length ps ≡ num
      → length buffers ≡ num
      → Yields
          (λ mc'. HasBuckets mc' i count (written stored ps buffers))
          (write_all drv mc i num ps buffers)
  unfolding write_all written
  write_all-HasBuckets doc mc i count zero [] buffers stored h a e e' = (mc, refl, h)
  write_all-HasBuckets doc mc i count zero (p ∷ ps) buffers stored h a e e' = absurd (omega arith)
  write_all-HasBuckets doc mc i count (suc num) [] buffers stored h a e e' = absurd (omega arith)
  write_all-HasBuckets doc mc i count (suc num) (p ∷ ps) [] stored h a e e' = absurd (omega arith)
  write_all-HasBuckets doc mc i count (suc num) (p ∷ ps) (b ∷ buffers) stored h a e e' =
      let (mc1, u, h1) = update-HasBuckets doc mc i count p b stored h a.0 in
      let (mc2, us, h2) =
        write_all-HasBuckets doc mc1 i count num ps buffers (λ n. if p == n then b else stored n) h1
          a.1 (omega arith) (omega arith) in
      (mc2, rw (u, ◌>>=◌) us, h2)

  pub contents-HasBuckets :
      (mc : Connector C) (i count : ℕ) (stored : ℕ → List ℕ) (ns : List ℕ)
      → HasBuckets mc i count stored
      → AllBelow count ns
      → contents (Connector.query drv mc i) ns ≡ some (stored_in stored ns)
  unfolding contents stored_in
  contents-HasBuckets mc i count stored [] h a = refl
  contents-HasBuckets mc i count stored (n ∷ ns) h a =
      rw
        (
          query-HasBuckets mc i count n stored h a.0,
          contents-HasBuckets mc i count stored ns h a.1,
          ◌>>=◌,
        )
        refl

  pub path-AllBelow :
      (depth leaf rounds d : ℕ)
      → leaf < 2 ^ depth
      → d + rounds ≡ suc depth
      → AllBelow (bucket_count depth) (path_from rounds d depth leaf)
  unfolding path_from
  path-AllBelow depth leaf zero d h e = tt
  path-AllBelow depth leaf (suc rounds) d h e =
      let (_, _, inside) = node_at_bounds depth leaf d h (omega arith) in
      (inside, path-AllBelow depth leaf rounds (suc d) h (omega arith))
