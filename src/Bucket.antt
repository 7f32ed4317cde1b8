-- ===== src/Bucket.antt =====
-- Buckets as bytes: `Block` of src/Bid.h, and how src/client.cpp and src/ORAM.cpp join the blocks of a
-- bucket, encrypt them, and get them back. How a node lies in memory is a parameter: `id_of` gives the
-- `max_value` of the node that `convertBlockToNode` copies from some bytes.
mod Examples
use mathlib.Core.Path.{subst}
use bomap.Base.{
  ℕ, zero, suc, ◌+◌, ◌*◌, ◌-◌, ◌≡◌, refl, sym, ap, ◌∙◌, arith, leb, true, if◌then◌else◌, List, [],
  ◌∷◌, ◌++◌, Option, none, some, length, take, drop, ◌>>=◌, length-append, take-append_length,
  drop-append_length,
}
use bomap.Bid.{Bid}
use bomap.TreePath.{bucket_blocks}
use bomap.Cipher.{get_ciphertext_length}
use bomap.Cipher.Aes.{OpenSsl, Documented, iv_size, encrypt, decrypt}
use bomap.Cipher.RoundTrip.{decrypt-encrypt}

pub record Block : Type 0 where
  pub id : Bid
  pub bytes : List ℕ

-- `SerialiseBucket(bucket)`
unfoldable pub serialise_bucket : List Block → List ℕ
serialise_bucket [] = []
serialise_bucket (b ∷ bucket) = b.bytes ++ serialise_bucket bucket

module _ (id_of : List ℕ → Bid) (size : ℕ) where
  -- the loop of `DeserialiseBucket<Node>(buffer)`, for `sizeof (Node)` bytes a block
  unfoldable pub deserialise_blocks : ℕ → List ℕ → Option (List Block)
  deserialise_blocks zero buffer = some []
  deserialise_blocks (suc z) buffer =
      let split = do
        rest ← deserialise_blocks z (drop size buffer)
        some (record { id = id_of (take size buffer); bytes = take size buffer } ∷ rest)
      in if leb size (length buffer) then split else none

  unfoldable pub deserialise_bucket : List ℕ → Option (List Block)
  unfolding deserialise_blocks
  deserialise_bucket buffer = deserialise_blocks bucket_blocks buffer

  -- what a block of a bucket is: the bytes of a node, and the identifier of that node
  abbrev pub AreBlocks : List Block → Type 0
  AreBlocks [] = Unit
  AreBlocks (b ∷ bucket) = (length b.bytes ≡ size) × (b.id ≡ id_of b.bytes) × AreBlocks bucket

  length-serialise_bucket :
      (bucket : List Block)
      → AreBlocks bucket
      → length (serialise_bucket bucket) ≡ length bucket * size
  unfolding serialise_bucket
  length-serialise_bucket [] a = omega arith
  length-serialise_bucket (b ∷ bucket) (l, _, a) =
      omega (
        arith,
        length-append b.bytes (serialise_bucket bucket),
        l,
        length-serialise_bucket bucket a,
      )

  deserialise_blocks-serialise_bucket :
      (bucket : List Block)
      → AreBlocks bucket
      → deserialise_blocks (length bucket) (serialise_bucket bucket) ≡ some bucket
  unfolding deserialise_blocks serialise_bucket
  deserialise_blocks-serialise_bucket [] a = refl
  deserialise_blocks-serialise_bucket (b ∷ bucket) (l, e, a) =
      let rest = serialise_bucket bucket in
      let enough : leb size (length (b.bytes ++ rest)) ≡ true =
        ground (arith, length-append b.bytes rest, l) in
      let front : take size (b.bytes ++ rest) ≡ b.bytes =
        ap (λ k. take k (b.bytes ++ rest)) (sym l) ∙ take-append_length b.bytes rest in
      let back : drop size (b.bytes ++ rest) ≡ rest =
        ap (λ k. drop k (b.bytes ++ rest)) (sym l) ∙ drop-append_length b.bytes rest in
      let joined : Block → Option (List Block) = λ x. some (x ∷ bucket) in
      rw (enough, front, back, deserialise_blocks-serialise_bucket bucket a, ◌>>=◌)
        (ap (λ k. joined (record { id = k; bytes = b.bytes })) (sym e))

  module _ (ssl : OpenSsl) where
    -- the end of `Write...Path`: the ciphertext of a bucket
    unfoldable pub seal_bucket : List ℕ → List ℕ → List Block → Option (List ℕ)
    unfolding serialise_bucket get_ciphertext_length encrypt
    seal_bucket iv key bucket =
        let plaintext_size = size * bucket_blocks in
        encrypt ssl iv key (serialise_bucket bucket) (get_ciphertext_length plaintext_size)
          plaintext_size

    -- the start of a round of `Fetch...Path`: the blocks of a ciphertext
    unfoldable pub open_bucket : List ℕ → List ℕ → Option (List Block)
    unfolding deserialise_bucket get_ciphertext_length decrypt
    open_bucket key ciphertext = do
      buffer ← decrypt ssl key ciphertext (get_ciphertext_length (size * bucket_blocks))
      deserialise_bucket buffer

    -- A bucket of Z blocks, each the bytes of a node with the identifier of that node, comes back as it
    -- was when it is sealed for the service and opened with the same key, for every initialisation
    -- vector of 16 bytes.
    pub open_bucket-seal_bucket :
        Documented ssl
        → (iv key : List ℕ) (bucket : List Block) → length iv ≡ iv_size
        → length bucket ≡ bucket_blocks
        → AreBlocks bucket
        → (seal_bucket iv key bucket >>= open_bucket key) ≡ some bucket
    unfolding seal_bucket open_bucket deserialise_bucket
    open_bucket-seal_bucket doc iv key bucket sixteen four a =
        let b = serialise_bucket bucket in
        let p = size * bucket_blocks in
        let len : length b ≡ p =
          length-serialise_bucket bucket a ∙ ap (λ k. k * size) four ∙ omega arith in
        let back : deserialise_blocks bucket_blocks b ≡ some bucket =
          ap (λ k. deserialise_blocks k b) (sym four)
          ∙ deserialise_blocks-serialise_bucket bucket a in
        let opened : (encrypt ssl iv key b (get_ciphertext_length p) p >>= λ c.
        decrypt ssl key c (get_ciphertext_length p))
            ≡ some b =
          subst
            (λ k.
              (encrypt ssl iv key b (get_ciphertext_length k) k >>= λ c.
              decrypt ssl key c (get_ciphertext_length k))
              ≡ some b)
            len (decrypt-encrypt ssl doc key iv b sixteen) in
        bind-bind (encrypt ssl iv key b (get_ciphertext_length p) p)
          (λ c. decrypt ssl key c (get_ciphertext_length p)) deserialise_bucket
        ∙ (ap (λ m. m >>= deserialise_bucket) opened ∙ back)
      where
        bind-bind :
            {A B C : Type 0} (m : Option A) (f : A → Option B) (g : B → Option C)
            → (m >>= λ x. f x >>= g) ≡ ((m >>= f) >>= g)
        bind-bind none f g = refl
        bind-bind (some x) f g = refl
