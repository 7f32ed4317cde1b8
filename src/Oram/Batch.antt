-- ===== src/Oram/Batch.antt =====
-- What the service of test_server.cpp replies to the two reads of a batch, through `ORAM::FetchPath` of
-- src/ORAM.cpp.
use mathlib.Core.Path.{subst}
use mathlib.Core.List.{append-nil, append_assoc}
use bomap.Base.{
  ℕ, zero, suc, ◌+◌, ◌-◌, ◌%◌, ◌^◌, ◌<◌, ◌≡◌, refl, sym, ◌∙◌, true, false, ◌||◌, ◌==◌, Bool-cases,
  inl, inr, List, [], ◌∷◌, ◌++◌, Option, some, ◌>>=◌, arith,
}
use bomap.TreePath.{node_at}
use bomap.Oram.{contains, Oram, fetch_loop, fetch_path, read_bucket}
use bomap.Oram.Fetch.{
  path_from, contents, fresh, fresh-nil, AllBelow, sent_before, AllBelow-next, AllBelow-later,
  fetch_loop_lem, fetch_path_lem, more,
}

abbrev pub IsDistinct : List ℕ → Type 0
IsDistinct [] = Unit
IsDistinct (x ∷ v) = (contains v x ≡ false) × IsDistinct v

contains-append : (v : List ℕ) (n x : ℕ) → contains (v ++ n ∷ []) x ≡ (contains v x || n == x)
contains-append [] n x = ground arith
contains-append (y ∷ v) n x = ground (arith, contains-append v n x)

IsDistinct-append :
    (v : List ℕ) (n : ℕ) → contains v n ≡ false → IsDistinct v → IsDistinct (v ++ n ∷ [])
IsDistinct-append [] n h d = (refl, tt)
IsDistinct-append (x ∷ v) n h d =
    (ground (arith, contains-append v n x, d.0), IsDistinct-append v n (ground arith) d.1)

module _ (depth leaf : ℕ) (inside : leaf < 2 ^ depth) where
  fresh-IsDistinct :
      (rounds d : ℕ) (old view : List ℕ)
      → d + rounds ≡ suc depth
      → AllBelow (2 ^ d - 1) view
      → IsDistinct (old ++ view)
      → IsDistinct ((old ++ view) ++ fresh old (path_from rounds d depth leaf))
  unfolding path_from fresh
  fresh-IsDistinct zero d old view e a h = rw (append-nil (old ++ view)) h
  fresh-IsDistinct (suc rounds) d old view e a h =
      let node = node_at depth leaf d in
      let same = sent_before depth leaf inside d old view (omega arith) a in
      elim (Bool-cases (contains old node)) [
        | inl sent ↦ rw sent (
            fresh-IsDistinct rounds (suc d) old view (omega arith)
              (AllBelow-later depth leaf inside d view (omega arith) a) h)
        | inr new ↦
            let rest = fresh old (path_from rounds (suc d) depth leaf) in
            let more : IsDistinct (old ++ (view ++ node ∷ [])) =
              rw (← append_assoc old view (node ∷ []))
                (IsDistinct-append (old ++ view) node (same ∙ new) h) in
            let whole =
              fresh-IsDistinct rounds (suc d) old (view ++ node ∷ []) (omega arith)
                (AllBelow-next depth leaf inside d view (omega arith) a) more in
            rw
              (
                new,
                ← append_assoc (old ++ view) (node ∷ []) rest,
                append_assoc old view (node ∷ []),
              )
              whole
      ]

-- two requests, with both replies
abbrev pub read_twice :
    (ℕ → Option (List ℕ)) → ℕ × Oram → ℕ → ℕ → Option ((ℕ × Oram) × List ℕ × List ℕ)
read_twice query t x y = do
  (t1, s1) ← read_bucket query t x
  (t2, s2) ← read_bucket query t1 y
  some (t2, s1, s2)

-- the tree after both, with the ciphertexts of the buckets that each of them sends
abbrev pub sent_twice :
    (ℕ → Option (List ℕ)) → ℕ × Oram → List ℕ → List ℕ → Option ((ℕ × Oram) × List ℕ × List ℕ)
sent_twice query (recv_count, o) first second = do
  s1 ← contents query first
  s2 ← contents query second
  some ((suc (suc recv_count), record o { read_cnt = 2; read_view = first ++ second }), s1, s2)

module _ (query : ℕ → Option (List ℕ)) where
  first_read :
      (recv_count : ℕ) (o : Oram) (x : ℕ)
      → (recv_count % 2 == 0) ≡ true
      → x < 2 ^ o.depth
      → let whole = path_from (suc o.depth) 0 o.depth x in
        read_bucket query (recv_count, o) x ≡ (
          contents query whole >>= λ s.
          some ((suc recv_count, record o { read_cnt = 1; read_view = whole }), s))
  unfolding read_bucket
  first_read recv_count o x even h = rw (even, fetch_path_lem query o x h) (ground arith)

  second_read :
      (recv_count : ℕ) (o : Oram) (y : ℕ)
      → (recv_count % 2 == 0) ≡ false
      → y < 2 ^ o.depth
      → let rest = fresh o.read_view (path_from (suc o.depth) 0 o.depth y) in
        read_bucket query (recv_count, o) y ≡ (
          contents query rest >>= λ s. some (
            (
              suc recv_count,
              record o { read_cnt = suc o.read_cnt; read_view = o.read_view ++ rest },
            ),
            s,
          ))
  unfolding read_bucket fetch_path
  second_read recv_count o y odd h =
      let rest = fresh o.read_view (path_from (suc o.depth) 0 o.depth y) in
      let loop =
        subst (λ v. fetch_loop query (suc o.depth) 0 o.depth y v [] ≡ more query v [] rest)
          (append-nil o.read_view)
          (fetch_loop_lem o.depth y h query (suc o.depth) 0 o.read_view [] [] (omega arith) tt) in
      rw (odd, loop) (ground arith)

  -- The first two requests of a batch, for paths to leaves of the tree: the first reply is the
  -- ciphertexts of the first path's buckets, from the root down to the leaf, and the second one those
  -- of the second path's buckets that are not on the first path, in the same order. These are the
  -- buckets that are marked as sent, none twice, whatever was marked before, and both requests are
  -- counted. The batch faults exactly if one of these
  -- buckets is not in the database.
  pub read_bucket-batch :
      (recv_count : ℕ) (o : Oram) (x y : ℕ)
      → (recv_count % 2 == 0) ≡ true
      → x < 2 ^ o.depth
      → y < 2 ^ o.depth
      → let first = path_from (suc o.depth) 0 o.depth x in
        let second = fresh first (path_from (suc o.depth) 0 o.depth y) in
        (read_twice query (recv_count, o) x y ≡ sent_twice query (recv_count, o) first second)
        × IsDistinct (first ++ second)
  read_bucket-batch recv_count o x y even hx hy =
      let first = path_from (suc o.depth) 0 o.depth x in
      let second = fresh first (path_from (suc o.depth) 0 o.depth y) in
      let odd : (suc recv_count % 2 == 0) ≡ false = ground arith in
      let o1 : Oram = record o { read_cnt = 1; read_view = first } in
      let distinct : IsDistinct first =
        subst IsDistinct (fresh-nil first)
          (fresh-IsDistinct o.depth x hx (suc o.depth) 0 [] [] (omega arith) tt tt) in
      let both =
        fresh-IsDistinct o.depth y hy (suc o.depth) 0 first [] (omega arith) tt
          (subst IsDistinct (sym (append-nil first)) distinct) in
      (
        ground (arith, first_read recv_count o x even hx, second_read (suc recv_count) o1 y odd hy),
        subst (λ v. IsDistinct (v ++ second)) (append-nil first) both,
      )
