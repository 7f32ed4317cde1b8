-- ===== src/Client/Reads.antt =====
-- The read side of src/client.cpp: what a reply does to `Fetch...Path`, and how many reads
-- `finalize...` pads to.
use bomap.Base.{
  ℕ, zero, suc, ◌+◌, ◌-◌, ◌*◌, ◌<◌, ◌≤◌, ◌≡◌, refl, ◌∙◌, Bool-cases, inl, inr, ◌⊎◌, true, false,
  leb, List, [], ◌∷◌, none, length, drop, take, length-drop, ℤ, arith, ◌>>=◌,
}
use bomap.Bid.{Bid}
use bomap.Cipher.{get_ciphertext_length}
use bomap.Slots.Holds.{Yields}
use bomap.Client.{
  NodeClass, Tree, Outside, store, chunk_size, codes_eq, rpc_failed, read_failed, fetch_chunks,
  fetch_path, add_leaf, pad, finalize,
}

one_less : (n m len : ℕ) → len ≡ suc n * m → (m ≤ len) × (len - m ≡ n * m)
one_less n m len e = (omega arith, omega arith)

at_most : (n m : ℕ) → 0 < m → n ≤ n * m
at_most n m h = grind arith

none_left : (n m : ℕ) → n ≤ 0 → n * m ≡ 0
none_left zero m h = omega arith
none_left (suc n) m h = absurd (omega arith)

module _ {N : Type 0} (cls : NodeClass N) (out : Outside N) where
  chunk_size-pos : 32 ≤ chunk_size cls out
  unfolding get_ciphertext_length
  chunk_size-pos = omega arith

  -- a whole number of buckets is read to the end
  fetch_chunks_whole :
      (rounds n : ℕ) (c : List (Bid × N)) (s : List ℕ)
      → length s ≡ n * chunk_size cls out
      → n ≤ rounds
      → Yields (λ c'. Unit {0}) (fetch_chunks cls out rounds c s)
  unfolding fetch_chunks
  fetch_chunks_whole zero n c [] e h = (c, refl, tt)
  fetch_chunks_whole zero n c (x ∷ s) e h =
      absurd (omega (arith, none_left n (chunk_size cls out) h))
  fetch_chunks_whole (suc rounds) n c [] e h = (c, refl, tt)
  fetch_chunks_whole (suc rounds) zero c (x ∷ s) e h = absurd (omega arith)
  fetch_chunks_whole (suc rounds) (suc n) c (x ∷ s) e h =
      let (enough_bytes, left) = one_less n (chunk_size cls out) (length (x ∷ s)) e in
      let enough : leb (chunk_size cls out) (length (x ∷ s)) ≡ true =
        ground (arith, enough_bytes) in
      rw enough (
        fetch_chunks_whole rounds n
          (store cls c (out.open_bucket (take (chunk_size cls out) (x ∷ s))))
          (drop (chunk_size cls out) (x ∷ s)) (length-drop (chunk_size cls out) (x ∷ s) ∙ left)
          (omega arith))

  -- what a server that works, or a call that fails with the text that is expected, replies
  abbrev pub IsReply : List ℕ → Type 0
  IsReply s = (codes_eq s rpc_failed ≡ true) ⊎ ((n : ℕ) × (length s ≡ n * chunk_size cls out))

  -- the read was counted, and but for the cache nothing has changed
  pub record Counted (t t' : Tree N) : Type 0 where
    pub counted : t'.read_cnt ≡ suc t.read_cnt
    pub same_marks : t'.modified ≡ t.modified
    pub same_leaves : t'.leaf_list ≡ t.leaf_list
    pub same_view : t'.write_view ≡ t.write_view

  pub fetch_path-Counted :
      (t : Tree N) (leaf : ℤ)
      → IsReply (out.reply t.read_cnt leaf)
      → Yields (Counted t) (fetch_path cls out t leaf)
  unfolding fetch_path
  fetch_path-Counted t leaf reply =
      elim (Bool-cases (codes_eq (out.reply t.read_cnt leaf) rpc_failed)) [
        | inl failed ↦ (
          record t { read_cnt = suc t.read_cnt },
          rw failed refl,
          record { counted = refl; same_marks = refl; same_leaves = refl; same_view = refl },
        )
        | inr buckets ↦
            let (n, whole) = whole_reply (out.reply t.read_cnt leaf) reply buckets in
            let s = out.reply t.read_cnt leaf in
            let (c, read, _) = fetch_chunks_whole (length s) n t.cache s whole (
              omega
                (arith, whole, at_most n (chunk_size cls out) (omega (arith, chunk_size-pos)))) in
            (
              record t { read_cnt = suc t.read_cnt; cache = c },
              rw (buckets, read) refl,
              record { counted = refl; same_marks = refl; same_leaves = refl; same_view = refl },
            )
      ]
    where
      whole_reply :
          (s : List ℕ)
          → IsReply s
          → codes_eq s rpc_failed ≡ false
          → (n : ℕ) × (length s ≡ n * chunk_size cls out)
      whole_reply s (inl e) d = absurd cc
      whole_reply s (inr w) d = w

  -- the padding leaves what the writes of the batch depend on, and reads up to a count
  abbrev pub Padded : ℕ → Tree N → Tree N → Type 0
  Padded n t t' = (t'.read_cnt ≡ n) × (t'.modified ≡ t.modified) × (t'.write_view ≡ t.write_view)

  pad-Padded :
      ((i : ℕ) (p : ℤ) → IsReply (out.reply i p))
      → (rounds : ℕ) (t : Tree N) → Yields (Padded (t.read_cnt + rounds) t) (pad cls out rounds t)
  unfolding pad
  pad-Padded replies zero t = (t, refl, (omega arith, refl, refl))
  pad-Padded replies (suc rounds) t =
      let rnd = out.draw t.read_cnt in
      let (t1, fetched, now) =
        fetch_path-Counted (record t { leaf_list = add_leaf t.leaf_list rnd }) rnd
          (replies t.read_cnt rnd) in
      let (t2, done, (cnt, marks, view)) = pad-Padded replies rounds t1 in
      (
        t2,
        rw (fetched, ◌>>=◌) done,
        (omega (arith, now.counted), marks ∙ now.same_marks, view ∙ now.same_view),
      )

  -- If every reply is a whole number of buckets or the text that the code looks for, `finalize...`
  -- ends without a read past a reply, at exactly two reads of the tree, whether the operation
  -- before it took none, one or two; it changes neither the marks nor the list of written buckets.
  pub finalize-Padded :
      ((i : ℕ) (p : ℤ) → IsReply (out.reply i p))
      → (t : Tree N) → t.read_cnt ≤ 2
      → Yields (Padded 2 t) (finalize cls out t)
  unfolding finalize
  finalize-Padded replies t h =
      let (t', done, (cnt, marks, view)) = pad-Padded replies (2 - t.read_cnt) t in
      (t', done, (omega arith, marks, view))

  -- The text that `client::read_bucket` returns for a failed call is not the one that the `Fetch`
  -- functions look for: they take it for buckets and read past its end.
  pub fetch_path-read_failed :
      (t : Tree N) (leaf : ℤ)
      → out.reply t.read_cnt leaf ≡ read_failed
      → fetch_path cls out t leaf ≡ none
  unfolding fetch_path fetch_chunks
  fetch_path-read_failed t leaf e =
      let short : leb (chunk_size cls out) 10 ≡ false = ground (arith, chunk_size-pos) in
      rw (e, short) refl
