-- ===== src/Client/Empty.antt =====
-- `Fetch...Path` of src/client.cpp where the paths on the service hold only dummies.
use bomap.Base.{
  ℕ, zero, suc, ◌≡◌, refl, sym, ap, ◌∙◌, Bool-cases, inl, inr, false, leb, List, [], ◌∷◌, Option,
  none, some, length, take, drop, ℤ, pos,
}
use bomap.Bid
use bomap.Bid.{Bid}
use bomap.Slots.Holds.{Yields}
use bomap.Client.{
  NodeClass, Tree, Outside, store, chunk_size, codes_eq, rpc_failed, fetch_chunks, fetch_path,
}
use bomap.Client.Reads.{IsReply, fetch_path-Counted}

module _ {N : Type 0} (cls : NodeClass N) where
  -- blocks that stand for no node
  abbrev pub AllDummies : List N → Type 0
  AllDummies [] = Unit
  AllDummies (n ∷ ns) = (Bid.ne_int (cls.max_value n) (pos 0) ≡ false) × AllDummies ns

  store-AllDummies : (c : List (Bid × N)) (ns : List N) → AllDummies ns → store cls c ns ≡ c
  unfolding store
  store-AllDummies c [] d = refl
  store-AllDummies c (n ∷ ns) d = rw (d.0) (store-AllDummies c ns d.1)

module _ {N : Type 0} (cls : NodeClass N) (out : Outside N) where
  -- The service answers each read with whole buckets or not at all, and every bucket holds dummies.
  abbrev pub IsEmpty : Type 0
  IsEmpty =
      ((i : ℕ) (p : ℤ) → IsReply cls out (out.reply i p))
      × ((s : List ℕ) → AllDummies cls (out.open_bucket s))

  fetch_chunks_same :
      ((s : List ℕ) → AllDummies cls (out.open_bucket s))
      → (rounds : ℕ) (c c' : List (Bid × N)) (s : List ℕ)
      → fetch_chunks cls out rounds c s ≡ some c'
      → c' ≡ c
  unfolding fetch_chunks
  fetch_chunks_same d zero c c' [] e = cc
  fetch_chunks_same d zero c c' (x ∷ s) e = absurd (no_cache e)
    where
      no_cache : none ≡ some c' → ⊥
      no_cache h = cc
  fetch_chunks_same d (suc rounds) c c' [] e = cc
  fetch_chunks_same d (suc rounds) c c' (x ∷ s) e =
      elim (Bool-cases (leb (chunk_size cls out) (length (x ∷ s)))) [
        | inl enough ↦
            let c1 = store cls c (out.open_bucket (take (chunk_size cls out) (x ∷ s))) in
            fetch_chunks_same d rounds c1 c' (drop (chunk_size cls out) (x ∷ s))
              (sym (rw enough refl) ∙ e)
            ∙ store-AllDummies cls c _ (d (take (chunk_size cls out) (x ∷ s)))
        | inr short ↦ absurd (no_cache (sym (rw short refl) ∙ e))
      ]
    where
      no_cache : none ≡ some c' → ⊥
      no_cache h = cc

  cache_of : List (Bid × N) → Option (Tree N) → List (Bid × N)
  cache_of c none = c
  cache_of c (some t) = t.cache

  fetched_same :
      ((s : List ℕ) → AllDummies cls (out.open_bucket s))
      → (t t' : Tree N) (p : ℤ) → fetch_path cls out t p ≡ some t'
      → t'.cache ≡ t.cache
  unfolding fetch_path cache_of
  fetched_same d t t' p e = elim (Bool-cases (codes_eq (out.reply t.read_cnt p) rpc_failed)) [
    | inl failed ↦
        let ends : fetch_path cls out t p ≡ some (record t { read_cnt = suc t.read_cnt }) =
          rw failed refl in
        ap (cache_of t.cache) (sym e ∙ ends)
    | inr buckets ↦ stored _ refl buckets
  ]
    where
      no_tree : none ≡ some t' → ⊥
      no_tree h = cc

      stored :
          (o : Option (List (Bid × N)))
          → fetch_chunks cls out (length (out.reply t.read_cnt p)) t.cache (out.reply t.read_cnt p)
            ≡ o
          → codes_eq (out.reply t.read_cnt p) rpc_failed ≡ false
          → t'.cache ≡ t.cache
      stored none h buckets =
          let ends : fetch_path cls out t p ≡ none = rw (buckets, h) refl in
          absurd (no_tree (sym ends ∙ e))
      stored (some c) h buckets =
          let ends : fetch_path cls out t p
              ≡ some (record t { read_cnt = suc t.read_cnt; cache = c }) =
            rw (buckets, h) refl in
          ap (cache_of t.cache) (sym e ∙ ends)
          ∙ fetch_chunks_same d (length (out.reply t.read_cnt p)) t.cache c (out.reply t.read_cnt p)
              h

  -- then a read leaves the cache as it is
  pub fetch_path-IsEmpty :
      IsEmpty → (t : Tree N) (p : ℤ) → Yields (λ t'. t'.cache ≡ t.cache) (fetch_path cls out t p)
  unfolding fetch_path
  fetch_path-IsEmpty (replies, dummies) t p =
      let (t', e, _) = fetch_path-Counted cls out t p (replies t.read_cnt p) in
      (t', e, fetched_same dummies t t' p e)
